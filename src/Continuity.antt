-- ===== src/Continuity.antt =====
-- The loop that input.c and output_psi.c share: it stamps the packets of a section with a running
-- 4-bit continuity counter and moves the counter on.
pub mod Runs
use mptsd.Base.{ℕ, suc, ◌+◌, ◌%◌, List, [], ◌∷◌, Bytes, length}

-- for (j=0;j<num_packets;j++) ts_packet_set_cont(packet_data + j * TS_PACKET_SIZE, j + cont)
unfoldable pub stamp_packets : (Bytes → ℕ → Bytes) → ℕ → ℕ → List Bytes → List Bytes
stamp_packets set_cont cont j [] = []
stamp_packets set_cont cont j (p ∷ ps) =
    set_cont p (j + cont) ∷ stamp_packets set_cont cont (j + 1) ps

-- cont += num_packets, for a bit-field of four bits
abbrev pub next_cont : ℕ → List Bytes → ℕ
next_cont cont packets = (cont + length packets) % 16

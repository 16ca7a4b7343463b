-- ===== src/Base/Machine.antt =====
-- Machine integers as native numbers: each assignment to a w-bit field is reduced mod 2 ^ w.
use Prim.Native.Nat.{ℕ, ◌%◌, ◌^◌}
use mathlib.Core.List.{List}

abbrev pub u8 : ℕ → ℕ
u8 n = n % 2 ^ 8

abbrev pub u16 : ℕ → ℕ
u16 n = n % 2 ^ 16

abbrev pub u32 : ℕ → ℕ
u32 n = n % 2 ^ 32

abbrev pub u64 : ℕ → ℕ
u64 n = n % 2 ^ 64

-- A run of bytes; a transport packet is 188 of them.
abbrev pub Bytes : Type 0
Bytes = List ℕ

abbrev pub ts_packet_size : ℕ
ts_packet_size = 188

abbrev pub frame_packet_size : ℕ
frame_packet_size = 1316

abbrev pub rtp_header_size : ℕ
rtp_header_size = 12

-- ===== src/Output/Rtp.antt =====
-- output_write.c: frames in RTP packets (`ts_frame_write_rtp`).
pub mod Header
use mptsd.Base.{
  ℕ, ◌+◌, ◌-◌, ◌*◌, ◌/◌, ◌%◌, ◌^◌, ◌≡◌, Bool, true, false, List, [], ◌∷◌, ◌++◌, Option, none, some,
  Bytes, ltb, u16, u32, u64, if◌then◌else◌,
}
use mptsd.Output.{Output}
use mptsd.Output.Write.{Written, larger, count_traffic}

-- htons and htonl: the bytes of a word, the highest first
abbrev pub bytes16 : ℕ → Bytes
bytes16 n = n / 256 % 256 ∷ n % 256 ∷ []

abbrev pub bytes32 : ℕ → Bytes
bytes32 n = n / 16777216 % 256 ∷ n / 65536 % 256 ∷ n / 256 % 256 ∷ n % 256 ∷ []

-- Microseconds of the monotonic clock.
unfoldable pub clock_us : ℕ → ℕ → ℕ
clock_us tv_sec tv_nsec = u64 (tv_sec * 1000000 + tv_nsec / 1000)

-- 90 kHz
unfoldable pub timestamp_value : ℕ → ℕ
timestamp_value time = u32 (u32 (90000 * (time / 1000000)) + 9 * (time % 1000000) / 100)

unfoldable pub rtp_header : ℕ → ℕ → ℕ → Bytes
rtp_header sequence_number timestamp ssrc =
    2 * 2 ^ 6 ∷ 33 ∷ (bytes16 sequence_number ++ (bytes32 timestamp ++ bytes32 ssrc))

unfoldable pub rtp_packet : Output → ℕ → Bytes → Bytes
rtp_packet o time payload =
    rtp_header o.rtp_sequence_number (timestamp_value time) o.rtp_ssrc ++ payload

-- The result, for those of `fdwrite` and `write`: the header is not counted.
unfoldable pub rtp_written : Bool → Written → Written → Written
rtp_written ofd network file =
    let file' = if ofd then file else some 0 in
    elim network [
      | none ↦ elim file' [ none ↦ none | some m ↦ some m ]
      | some n ↦ elim file' [
        | none ↦ if ltb n 12 then some n else some (n - 12)
        | some m ↦ if ltb n m then some m else if ltb n 12 then some n else some (n - 12)
      ]
    ]

-- Bytes count as traffic only when the header went out.
unfoldable pub rtp_counted : Bool → Written → Written → ℕ
rtp_counted ofd network file =
    let file' = if ofd then file else some 0 in
    elim network [
      | none ↦ elim file' [ none ↦ 0 | some m ↦ m ]
      | some n ↦ elim file' [ none ↦ n - 12 | some m ↦ if ltb n m then m else n - 12 ]
    ]

unfoldable pub ts_frame_write_rtp : Output → Written → Written → Written × Output
unfolding rtp_written rtp_counted
ts_frame_write_rtp o network file = (
  rtp_written o.ofd network file,
  record (count_traffic o (some (rtp_counted o.ofd network file))) {
    rtp_sequence_number = u16 (o.rtp_sequence_number + 1);
  },
)

-- ===== src/Output/Rtp/Header.antt =====
-- The header that a receiver of the RTP packets reads.
use mptsd.Base.{
  ℕ, ◌+◌, ◌*◌, ◌/◌, ◌%◌, ◌^◌, ◌<◌, ◌≡◌, refl, List, [], ◌∷◌, Bytes, length, arith, get_or, drop,
  u16,
}
use mptsd.Output.{Output}
use mptsd.Output.Write.{Written}
use mptsd.Output.Rtp.{rtp_header, rtp_packet, timestamp_value, ts_frame_write_rtp}

-- The fields of the header, as RFC 3550 lays them out.
abbrev pub byte : Bytes → ℕ → ℕ
byte b i = get_or b i 0

pub record Header (seq timestamp ssrc : ℕ) (payload packet : Bytes) : Type 0 where
  pub version : byte packet 0 / 64 ≡ 2
  pub no_padding : byte packet 0 / 32 % 2 ≡ 0
  pub no_extension : byte packet 0 / 16 % 2 ≡ 0
  pub no_csrc : byte packet 0 % 16 ≡ 0
  pub no_marker : byte packet 1 / 128 ≡ 0
  pub payload_type : byte packet 1 % 128 ≡ 33
  pub sequence_number : byte packet 2 * 256 + byte packet 3 ≡ seq
  pub time :
      ((byte packet 4 * 256 + byte packet 5) * 256 + byte packet 6) * 256 + byte packet 7
      ≡ timestamp
  pub source :
      ((byte packet 8 * 256 + byte packet 9) * 256 + byte packet 10) * 256 + byte packet 11 ≡ ssrc
  pub body : drop 12 packet ≡ payload

-- A receiver reads back the sequence number, the time stamp, the source and the payload: version 2,
-- no padding, extension, contributing source or marker, and the payload type of transport streams.
pub rtp_packet-Header :
    (o : Output) (time : ℕ) (payload : Bytes)
    → o.rtp_sequence_number < 2 ^ 16
    → o.rtp_ssrc < 2 ^ 32
    → Header o.rtp_sequence_number
        (timestamp_value time)
        o.rtp_ssrc
        payload
        (rtp_packet o time payload)
unfolding rtp_packet rtp_header timestamp_value
rtp_packet-Header o time payload hs hr = record {
  version = refl;
  no_padding = refl;
  no_extension = refl;
  no_csrc = refl;
  no_marker = refl;
  payload_type = refl;
  sequence_number = omega arith;
  time = omega arith;
  source = omega arith;
  body = refl;
}

-- The time stamp is the clock in units of 1/90000 seconds, rounded down, in 32 bits.
pub timestamp_value_lem : (time : ℕ) → timestamp_value time ≡ 9 * time / 100 % 2 ^ 32
unfolding timestamp_value
timestamp_value_lem time = omega arith

-- Writing frames in turn.
unfoldable pub write_all : Output → List (Written × Written) → Output
write_all o [] = o
write_all o ((network, file) ∷ ws) = write_all (ts_frame_write_rtp o network file).1 ws

seq_step :
    (o : Output) (network file : Written)
    → (ts_frame_write_rtp o network file).1.rtp_sequence_number ≡ u16 (o.rtp_sequence_number + 1)
unfolding ts_frame_write_rtp
seq_step o network file = refl

-- The sequence numbers count the frames, failed ones too, and go round after 65535.
pub rtp_sequence_lem :
    (ws : List (Written × Written)) (o : Output)
    → o.rtp_sequence_number < 2 ^ 16
    → (write_all o ws).rtp_sequence_number ≡ (o.rtp_sequence_number + length ws) % 2 ^ 16
unfolding write_all
rtp_sequence_lem [] o h = omega arith
rtp_sequence_lem ((network, file) ∷ ws) o h =
    ground
      (arith, seq_step o network file, rtp_sequence_lem ws (ts_frame_write_rtp o network file).1)

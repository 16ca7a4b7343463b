-- ===== src/Output.antt =====
-- data.h and data.c: the output and its two buffers. A buffer is the list of its transport packets, so
-- `size` is 188 times their number. Times are milliseconds. An array that is indexed by a packet
-- identifier is a function.
pub mod Buffers
pub mod Write
pub mod Rtp
pub mod Drain
pub mod Pace
pub mod Mix
pub mod Psi
mod Tests
use mptsd.Base.{
  ℕ, ◌+◌, ◌-◌, ◌*◌, ◌/◌, ◌≡◌, Bool, true, false, List, [], ◌∷◌, Option, none, some, Bytes, length,
  replicate, ◌==◌, if◌then◌else◌, map,
}
use mptsd.Libs.{Pat, Table, Cbuf}

pub data ObufStatus : Type 0 where
  obuf_empty obuf_filling obuf_full obuf_emptying : ObufStatus

pub record Obuf : Type 0 where
  pub buf : List Bytes
  pub written : ℕ
  pub status : ObufStatus

-- int size
abbrev pub size : Obuf → ℕ
size ob = 188 * length ob.buf

-- The packet that `obuf_reset` writes into every place.
abbrev pub padding_packet : Bytes
padding_packet = 0x47 ∷ 0x1f ∷ 0xff ∷ 0x00 ∷ replicate 184 0xff

unfoldable pub obuf_reset : Obuf → Obuf
obuf_reset ob = record { buf = map (λ p. padding_packet) ob.buf; written = 0; status = obuf_empty }

-- The integers of `output_buffer_alloc`: packets of 1316 bytes in a second, and in `obuf_ms`
-- milliseconds. The bit rate is a whole number and `obuf_ms` divides 1000, so that the ceilings of the
-- double quotients are those of the rationals.
abbrev pub packets_per_second : ℕ → ℕ
packets_per_second output_bitrate = (output_bitrate + (1316 * 8 - 1)) / (1316 * 8)

abbrev pub frames_per_buffer : ℕ → ℕ → ℕ
frames_per_buffer output_bitrate obuf_ms =
    (packets_per_second output_bitrate * obuf_ms + 999) / 1000

-- A new buffer holds 7 packets for each frame of 1316 bytes.
unfoldable pub obuf_alloc : ℕ → ℕ → Obuf
unfolding obuf_reset
obuf_alloc output_bitrate obuf_ms = obuf_reset (record {
  buf = replicate (frames_per_buffer output_bitrate obuf_ms * 7) [];
  written = 0;
  status = obuf_empty;
})

pub record Output : Type 0 where
  pub out_sock : Option ℕ
  pub ofd : Bool
  pub dienow : ℕ
  pub psibuf : Cbuf
  pub obuf_ms : ℕ
  pub obuf0 : Obuf
  pub obuf1 : Obuf
  pub output_bitrate : ℕ
  pub traffic : ℕ
  pub traffic_period : ℕ
  pub padding_period : ℕ
  pub pid_pat_cont : ℕ
  pub pid_nit_cont : ℕ
  pub pid_sdt_cont : ℕ
  pub pid_eit_cont : ℕ
  pub pid_tdt_cont : ℕ
  pub pat : Pat
  pub pat_ts : ℕ
  pub sdt : Option Table
  pub sdt_ts : ℕ
  pub nit : Option Table
  pub nit_ts : ℕ
  pub tdt : Option Table
  pub tdt_ts : ℕ
  pub tot : Option Table
  pub tot_ts : ℕ
  pub eit_ts : ℕ
  pub last_org_pcr : ℕ → ℕ
  pub last_pcr : ℕ → ℕ
  pub last_traffic : ℕ → ℕ
  pub rtp_sequence_number : ℕ
  pub rtp_ssrc : ℕ

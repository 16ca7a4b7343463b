-- ===== src/Output/Drain.antt =====
-- output_write.c: the loop of `output_handle_write` that empties one buffer.
pub mod Complete
use mptsd.Base.{
  ℕ, ◌+◌, ◌-◌, ◌*◌, ◌/◌, ◌≡◌, Bool, true, false, not, List, [], ◌∷◌, ◌++◌, Option, none, some,
  Bytes, length, ltb, leb, ◌==◌, if◌then◌else◌,
}
use mathlib.Core.List.{flatten}
use mptsd.Libs.{Libs}
use mptsd.Output.{Output, Obuf, obuf_reset}
use mptsd.Output.Write.{PcrAfter, ts_frame_process, Written, ts_frame_write}
use mptsd.Output.Rtp.{rtp_packet, ts_frame_write_rtp}

-- curbuf->buf + written, in steps of FRAME_PACKET_SIZE: seven packets each.
unfoldable pub frames_of : List Bytes → List (List Bytes)
frames_of (a ∷ b ∷ c ∷ d ∷ e ∷ f ∷ g ∷ rest) = (a ∷ b ∷ c ∷ d ∷ e ∷ f ∷ g ∷ []) ∷ frames_of rest
frames_of short = []

-- What the clock and the writes answer for one frame.
pub record FrameIo : Type 0 where
  pub time : ℕ
  pub network : Written
  pub file : Written

-- `written += …`, as what was added and what was taken away.
pub record Sum : Type 0 where
  pub gained : ℕ
  pub lost : ℕ

abbrev pub add_written : Sum → Written → Sum
add_written s none = record s { lost = s.lost + 1 }
add_written s (some n) = record s { gained = s.gained + n }

abbrev pub is_negative : Sum → Bool
is_negative s = ltb s.gained s.lost

-- The state of the loop: what went to the socket, in order, is `sent`.
pub record Draining : Type 0 where
  pub output : Output
  pub written : ℕ
  pub sum : Sum
  pub sent : List Bytes

-- One frame: fix the clocks, write it in RTP or plain, count it.
unfoldable pub drain_frame : Libs → PcrAfter → ℕ → Draining → List Bytes → FrameIo → Draining
drain_frame L pcr_after pcr_mode d frame io =
    let (o, frame') = ts_frame_process L pcr_after pcr_mode d.output frame in
    let bytes = flatten frame' in
    let plain = o.rtp_ssrc == 0 in
    let (result, o') =
      if plain
      then ts_frame_write o io.network io.file
      else ts_frame_write_rtp o io.network io.file in
    record {
      output = o';
      written = d.written + 1316;
      sum = add_written d.sum result;
      sent = d.sent ++ (if plain then bytes else rtp_packet o io.time bytes) ∷ [];
    }

-- while (curbuf->written < curbuf->size); false when the thread is told to stop before a frame.
unfoldable pub drain_frames :
    Libs → PcrAfter → ℕ → Draining → List (List Bytes) → List FrameIo → Bool × Draining
drain_frames L pcr_after pcr_mode d [] ios = (true, d)
drain_frames L pcr_after pcr_mode d (f ∷ fs) [] = (false, d)
drain_frames L pcr_after pcr_mode d (f ∷ fs) (io ∷ ios) =
    drain_frames L pcr_after pcr_mode (drain_frame L pcr_after pcr_mode d f io) fs ios

-- What a buffer leaves behind: the output, the reset buffer, the bytes sent, and whether the socket
-- is opened anew (if the network is written at all).
pub record Drained : Type 0 where
  pub output : Output
  pub obuf : Obuf
  pub written : ℕ
  pub sent : List Bytes
  pub failed : Bool

-- What showing the statistics leaves behind, when it is time for them.
abbrev pub show_stats : Bool → Output → Output
show_stats due o = if due then record o { traffic_period = 0; padding_period = 0 } else o

-- One round of `while (!o->dienow)`, from the point where the buffer is full.
unfoldable pub drain_buffer :
    Libs → PcrAfter → ℕ → Bool → Output → Obuf → List FrameIo → Option Drained
drain_buffer L pcr_after pcr_mode stats_due o ob ios =
    let start : Draining = record {
      output = show_stats stats_due o;
      written = ob.written;
      sum = record { gained = 0; lost = 0 };
      sent = [];
    } in
    let (finished, d) = drain_frames L pcr_after pcr_mode start (frames_of ob.buf) ios in
    if finished
    then some (record {
      output = if is_negative d.sum then record (d.output) { out_sock = none } else d.output;
      obuf = obuf_reset ob;
      written = d.written;
      sent = d.sent;
      failed = is_negative d.sum;
    })
    else none

-- ===== src/Output/Tests.antt =====
-- Runs of the output: its buffers, frames, RTP packets and the writing of one buffer.
use mptsd.Base.{◌+◌, ◌/◌, ◌≡◌, refl, true, List, [], ◌∷◌, none, some, Bytes, replicate, arith}
use mptsd.Output.{obuf_empty, obuf_full, Obuf}
use mptsd.Output.Buffers.{Action, mix_begins, mix_ends, write_begins, write_ends}
use mptsd.Output.Buffers.Fifo.{Ordered, run, start, run-Ordered}
use mptsd.Output.Write.{PcrAfter, ts_frame_write}
use mptsd.Output.Write.Padding.{frame_written_no_file}
use mptsd.Output.Rtp.{rtp_packet, timestamp_value}
use mptsd.Output.Rtp.Header.{Header, rtp_packet-Header}
use mptsd.Output.Drain.{FrameIo, Drained, drain_buffer}
use mptsd.Output.Drain.Complete.{Complete, drain_buffer-Complete}
use mptsd.Samples.{output, libs, packet}

abbrev pcr_after : PcrAfter
pcr_after old_pcr ticks output_bitrate = old_pcr + ticks / output_bitrate

abbrev frame : List Bytes
frame = packet 101 0x20 5 ∷ packet 0x1fff 0x30 0 ∷ packet 102 0x10 0 ∷ []

frame_written_no_file_example : (ts_frame_write output none none).0 ≡ some 0
frame_written_no_file_example = frame_written_no_file output none none refl

rtp_packet-Header_example :
    Header 65535 (timestamp_value 1234567) 0 (7 ∷ []) (rtp_packet output 1234567 (7 ∷ []))
rtp_packet-Header_example = rtp_packet-Header output 1234567 (7 ∷ []) (omega arith) (omega arith)

abbrev empty_buffer : Obuf
empty_buffer = record { buf = []; written = 0; status = obuf_empty }

abbrev steps : List Action
steps =
    mix_begins
    ∷ write_begins
    ∷ mix_ends frame
    ∷ write_begins
    ∷ mix_begins
    ∷ mix_ends []
    ∷ mix_begins
    ∷ write_ends
    ∷ []

run-Ordered_example : Ordered (run (start empty_buffer empty_buffer) steps)
run-Ordered_example = run-Ordered empty_buffer empty_buffer steps refl refl

-- Two frames.
abbrev full_buffer : Obuf
full_buffer = record { buf = replicate 14 (packet 101 0x10 0); written = 0; status = obuf_full }

abbrev ios : List FrameIo
ios =
    record { time = 0; network = some 1316; file = none }
    ∷ record { time = 9; network = none; file = none }
    ∷ []

drain_buffer-Complete_example :
    (x : Drained) × (drain_buffer libs pcr_after 1 true output full_buffer ios ≡ some x)
    × Complete libs full_buffer x
drain_buffer-Complete_example =
    drain_buffer-Complete libs pcr_after 1 2 true output full_buffer ios (λ e. absurd (omega arith))
      (λ e. absurd (omega arith)) refl refl refl (omega arith)

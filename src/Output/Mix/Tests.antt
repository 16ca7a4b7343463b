-- ===== src/Output/Mix/Tests.antt =====
-- A run of the mixing: a PSI packet, and one packet of an input.
use mptsd.Base.{
  ◌*◌, ◌≤◌, ◌≡◌, refl, inr, true, false, List, [], ◌∷◌, ◌++◌, Bytes, length, replicate, arith,
}
use mptsd.Libs.{Cbuf}
use mptsd.Input.{Input}
use mptsd.Output.{padding_packet}
use mptsd.Output.Mix.Inputs.{Pacing, take_packet, get_packet, scan_inputs}
use mptsd.Output.Mix.Fair.{Serves, scan_inputs-Serves}
use mptsd.Output.Mix.{Rounding, make_plan, Arrival, mix_buffer}
use mptsd.Output.Mix.Spread.{Mixed, mix_buffer-Mixed}
use mptsd.Output.Mix.Progress.{Calm, mix_buffer_done}
use mptsd.Samples.{libs, packet, buffer, new_input}

abbrev rounding : Rounding
rounding = record {
  data_products = λ packets o_maxpackets n. 2 * n;
  null_products = λ packets o_maxpackets n. n;
}

abbrev pace : Pacing
pace ticks = 1

abbrev holding : Bytes → Cbuf
holding bytes = record (buffer 400) { input = length bytes; memory = bytes }

abbrev inputs : List Input
inputs =
    record (new_input 3) { buf = holding (packet 101 0x10 0 ++ replicate 183 7) } ∷ new_input 4 ∷ []

abbrev psibuf : Cbuf
psibuf = holding (packet 0 0x10 0 ++ replicate 183 9)

abbrev quiet : Arrival
quiet = record { dienow = false; fill_psi = λ b. b; fill_inputs = λ rs. rs }

quiet-Calm : Calm quiet
quiet-Calm = record { alive = refl; some_left = λ rs h. h }

abbrev obuf : List Bytes
obuf = replicate 7 padding_packet

mix_buffer-Mixed_example :
    Mixed obuf (mix_buffer libs pace rounding 1 (quiet ∷ quiet ∷ []) psibuf inputs 1 obuf).1
mix_buffer-Mixed_example =
    mix_buffer-Mixed libs pace rounding 1 (quiet ∷ quiet ∷ []) psibuf inputs 1 obuf

mix_buffer_done_example :
    let (finished, m) = mix_buffer libs pace rounding 0 (quiet ∷ quiet ∷ []) psibuf inputs 1 obuf in
    (finished ≡ true) × (1 ≤ 2 → m.data_packets ≡ 2)
unfolding make_plan mptsd.Output.Mix.data_size
mix_buffer_done_example =
    mix_buffer_done libs pace rounding 0 (quiet ∷ quiet ∷ []) psibuf inputs 1 obuf
      (λ e. absurd (omega arith)) (λ e. absurd (omega arith)) (quiet-Calm, (quiet-Calm, tt))
      (omega arith) (omega arith)

abbrev first_input : Input
first_input = record (new_input 3) { buf = holding (packet 101 0x10 0 ++ replicate 183 7) }

-- The input that was used last is the only one with a packet, one whole turn further round.
scan_inputs-Serves_example : Serves libs pace 0 100 2 0 2 (scan_inputs libs pace 0 100 2 0 inputs 0)
unfolding take_packet get_packet
scan_inputs-Serves_example =
    scan_inputs-Serves libs pace 0 100 2 2 0 0 inputs 0 first_input
      (packet 101 0x10 0 ++ replicate 183 7) (omega arith) (omega arith) (omega arith) (omega arith)
      (omega arith, inr refl) refl refl

-- ===== src/Input/Gate.antt =====
-- What the packet loop lets into the input buffer.
use mptsd.Base.{ℕ, ◌≡◌, ◌≢◌, true, false, none, arith, ◌==◌, if◌then◌else◌, Bytes, ◌∙◌}
use mptsd.Libs.{Libs}
use mptsd.Pidref.{pidref_get_new_pid, pidref_change_packet_pid}
use mptsd.Input.{Input, input_buffer_add}
use mptsd.Input.Handlers.{process_pat, process_pmt}
use mptsd.Input.Packets.{next, is_removed, note_pcr, forward, pass_packet, pass_pmt, handle_packet}

module _ (L : Libs) (t : ℕ) (r : Input) (p : Bytes) where
  -- A packet of no table reaches the last part of the loop's body as it is.
  handle_packet_plain :
      r.dienow ≡ false
      → L.ts_packet_get_pid p ≢ 0
      → L.ts_packet_get_pid p ≢ r.stream.pmt_pid
      → handle_packet L t r p ≡ pass_packet L t r p
  unfolding handle_packet pass_pmt process_pat process_pmt
  handle_packet_plain alive pat pmt = ground arith

  -- Packets of NIT, SDT, RST, TDT and null packets are dropped, and nothing else changes.
  pub handle_packet_removed :
      r.dienow ≡ false
      → L.ts_packet_get_pid p ≢ 0
      → L.ts_packet_get_pid p ≢ r.stream.pmt_pid
      → L.ts_packet_get_pid p ≢ 0x12
      → is_removed r.stream.nit_pid (L.ts_packet_get_pid p) ≡ true
      → handle_packet L t r p ≡ (next, r)
  unfolding pass_packet note_pcr forward
  handle_packet_removed alive pat pmt eit gone = handle_packet_plain alive pat pmt ∙ ground arith

  -- Before the PMT is rewritten and a clock has been seen no stream packet is let in.
  pub handle_packet_early :
      r.dienow ≡ false
      → L.ts_packet_get_pid p ≢ 0
      → L.ts_packet_get_pid p ≢ r.stream.pmt_pid
      → L.ts_packet_get_pid p ≢ 0x12
      → r.stream.pmt_rewritten ≡ none
      → r.stream.input_pcr ≡ 0
      → handle_packet L t r p ≡ (next, r)
  unfolding pass_packet note_pcr forward
  handle_packet_early alive pat pmt eit none_yet zero_yet =
      handle_packet_plain alive pat pmt ∙ ground arith

  -- The packet as the table of the input rewrites it.
  abbrev pub renamed : Bytes
  renamed =
      let new_pid = pidref_get_new_pid r.stream.pidref (L.ts_packet_get_pid p) in
      if new_pid == 0 then p else L.ts_packet_set_pid p new_pid

  -- Once there is a clock, a stream packet that carries none is added to the buffer under the identifier that the table
  -- gives it, unchanged if the table has none, and the loop goes on with an input that is ready.
  pub handle_packet_forwards :
      r.dienow ≡ false
      → L.ts_packet_get_pid p ≢ 0
      → L.ts_packet_get_pid p ≢ r.stream.pmt_pid
      → L.ts_packet_get_pid p ≢ 0x12
      → is_removed r.stream.nit_pid (L.ts_packet_get_pid p) ≡ false
      → L.ts_packet_has_pcr p ≡ false
      → r.stream.input_pcr ≢ 0
      → let (flow, r') = handle_packet L t r p in
        (flow ≡ next)
        × (r'.buf ≡ (input_buffer_add L r renamed).buf)
        × (r'.stream ≡ (input_buffer_add L r renamed).stream)
        × (r'.input_ready ≢ 0)
  unfolding pass_packet note_pcr forward pidref_change_packet_pid
  handle_packet_forwards alive pat pmt eit kept plain clock =
      rw (handle_packet_plain alive pat pmt) (ground arith)

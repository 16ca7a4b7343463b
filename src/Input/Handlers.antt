-- ===== src/Input/Handlers.antt =====
-- input.c: `process_pat`, `process_pmt` and `process_eit`, which see every packet of an input.
-- Each returns its verdict, the new state, and for the PAT the packet, which is overwritten.
use mptsd.Base.{
  ℕ, Bool, false, ◌∷◌, Option, none, some, Bytes, ◌==◌, replicate, ◌&&◌, ◌||◌, not, if◌then◌else◌,
}
use mathlib.Core.List.{flatten}
use mptsd.Libs.{Libs, Pat, Pmt, Eit}
use mptsd.Continuity.{stamp_packets, next_cont}
use mptsd.Input.{Input, input_buffer_add, log_input}
use mptsd.Input.Tables.{
  Verdict, other, handled, skip, refused, failed, input_process_pat, input_rewrite_pat,
  input_rewrite_pmt, input_rewrite_eit,
}

-- The packet of the null identifier that takes the place of a PAT packet.
abbrev pub null_packet : Bytes
null_packet = 0x47 ∷ 0x1f ∷ 0xff ∷ 0x10 ∷ replicate 184 0xff

abbrev pub pat_ready : Option Pat → Bool
pat_ready none = false
pat_ready (some p) = p.initialized

abbrev pub pmt_ready : Option Pmt → Bool
pmt_ready none = false
pmt_ready (some p) = p.initialized

abbrev pub eit_ready : Option Eit → Bool
eit_ready none = false
eit_ready (some e) = e.initialized

-- The rewritten PAT goes into the copy of the input, if there is one.
unfoldable pub log_pat : Libs → Input → Input
log_pat L r = elim r.stream.pat_rewritten [
  | none ↦ r
  | some p ↦
      let packets = stamp_packets L.ts_packet_set_cont r.stream.pid_pat_cont 0 p.packets in
      if r.ifd && p.initialized
      then log_input
          (record r {
            stream = record (r.stream) {
              pat_rewritten =
                  some (record p { packets = packets; continuity = r.stream.pid_pat_cont });
              pid_pat_cont = next_cont r.stream.pid_pat_cont p.packets;
            };
          })
          (flatten packets)
      else r
]

-- `process_pat` from the point where the incoming PAT is complete.
unfoldable pub accept_pat : Libs → Input → Bytes → Verdict × Input × Bytes
accept_pat L r ts_packet =
    let (found, s) = if r.stream.pmt_pid == 0 then input_process_pat r.stream else (1, r.stream) in
    let r' = record r { stream = s } in
    if found == 0 then (refused, r', ts_packet) else (
      handled,
      log_pat L (if pat_ready s.pat_rewritten then r' else input_rewrite_pat L r'),
      null_packet,
    )

-- `process_pat` from the comparison with the last PAT on.
unfoldable pub remember_pat : Libs → Input → Bytes → Pat → Verdict × Input × Bytes
remember_pat L r ts_packet last =
    let r' = record r {
      stream = record (r.stream) { last_pat = L.ts_pat_push_packet last ts_packet };
    } in
    if r.stream.pat.initialized then accept_pat L r' ts_packet else (handled, r', null_packet)

unfoldable pub process_pat : Libs → Input → ℕ → Bytes → Verdict × Input × Bytes
process_pat L r pid ts_packet =
    let pat = L.ts_pat_push_packet r.stream.pat ts_packet in
    let r' = record r { stream = record (r.stream) { pat = pat } } in
    let last = r.stream.last_pat in
    if not (pid == 0)
    then (other, r, ts_packet)
    else if last.initialized
    then if not pat.initialized
      then (skip, r', ts_packet)
      else if not (L.ts_pat_is_same pat last)
      then (refused, r', ts_packet)
      else remember_pat L r' ts_packet L.ts_pat_alloc
    else remember_pat L r' ts_packet last

-- The rewritten PMT goes into the input buffer.
unfoldable pub send_pmt : Libs → Input → Input
send_pmt L r = elim r.stream.pmt_rewritten [
  | none ↦ r
  | some p ↦
      let packets = stamp_packets L.ts_packet_set_cont r.stream.pid_pmt_cont 0 p.packets in
      if p.initialized
      then input_buffer_add L
          (record r {
            stream = record (r.stream) {
              pmt_rewritten =
                  some (record p { packets = packets; continuity = r.stream.pid_pmt_cont });
              pid_pmt_cont = next_cont r.stream.pid_pmt_cont p.packets;
            };
          })
          (flatten packets)
      else r
]

unfoldable pub remember_pmt : Libs → Input → Bytes → Pmt → Verdict × Input
remember_pmt L r ts_packet last =
    let r' = record r {
      stream = record (r.stream) { last_pmt = L.ts_pmt_push_packet last ts_packet };
    } in
    if r.stream.pmt.initialized
    then (
      skip,
      send_pmt L (if pmt_ready r.stream.pmt_rewritten then r' else input_rewrite_pmt L r'),
    )
    else (handled, r')

unfoldable pub process_pmt : Libs → Input → ℕ → Bytes → Verdict × Input
process_pmt L r pid ts_packet =
    let pmt = L.ts_pmt_push_packet r.stream.pmt ts_packet in
    let r' = record r { stream = record (r.stream) { pmt = pmt } } in
    let last = r.stream.last_pmt in
    if pid == 0 || not (pid == r.stream.pmt_pid)
    then (other, r)
    else if last.initialized
    then if not pmt.initialized
      then (skip, r')
      else if not (L.ts_pmt_is_same pmt last)
      then (refused, r')
      else remember_pmt L r' ts_packet L.ts_pmt_alloc
    else remember_pmt L r' ts_packet last

-- The rewritten EIT goes into the input buffer, and both tables start anew.
unfoldable pub send_eit : Libs → Input → Verdict × Input
send_eit L r = elim r.stream.eit_rewritten [
  | none ↦ (failed, r)
  | some e ↦
      let packets = stamp_packets L.ts_packet_set_cont r.stream.pid_eit_cont 0 e.packets in
      let sent =
        input_buffer_add L
          (record r {
            stream = record (r.stream) { pid_eit_cont = next_cont r.stream.pid_eit_cont e.packets };
          })
          (flatten packets) in
      if e.initialized
      then (
        handled,
        record sent {
          stream = record (sent.stream) { eit = L.ts_eit_alloc; eit_rewritten = none };
        },
      )
      else (failed, r)
]

unfoldable pub process_eit : Libs → ℕ → Input → Bytes → Verdict × Input
process_eit L transport_stream_id r ts_packet =
    let eit = L.ts_eit_push_packet r.stream.eit ts_packet in
    let r' = record r { stream = record (r.stream) { eit = eit } } in
    if r.channel.eit_mode == 0
    then (skip, r)
    else if not eit.initialized
    then (other, r')
    else if not (eit.ts_id_number == r.channel.service_id)
    then (refused, r')
    else send_eit L (
        if eit_ready r.stream.eit_rewritten then r' else input_rewrite_eit L transport_stream_id r')

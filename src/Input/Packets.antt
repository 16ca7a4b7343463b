-- ===== src/Input/Packets.antt =====
-- input.c: what `input_stream` does with one packet, and with the packets of one read.
use mptsd.Base.{
  ℕ, Bool, true, false, List, [], ◌∷◌, Option, none, some, Bytes, leb, ◌==◌, ◌&&◌, ◌||◌,
  if◌then◌else◌,
}
use mptsd.Libs.{Libs}
use mptsd.Pidref.{pidref_change_packet_pid}
use mptsd.Input.{Input, input_buffer_add}
use mptsd.Input.Tables.{other, handled, skip, refused, failed}
use mptsd.Input.Handlers.{process_pat, process_pmt, process_eit}

-- Where the packet loop goes after a packet: on, to RECONNECT, or to QUIT.
pub data Flow : Type 0 where
  next reconnect quit : Flow

abbrev pub is_some {ℓ} : {A : Type ℓ} → Option A → Bool
is_some none = false
is_some (some a) = true

-- The identifiers of NIT, SDT, RST, TDT and of the null packets, which are not taken over.
abbrev pub is_removed : ℕ → ℕ → Bool
is_removed nit_pid pid =
    pid == nit_pid || pid == 0x10 || pid == 0x11 || pid == 0x13 || pid == 0x14 || leb 0x1fff pid

-- The clock of the packet is noted when it is the clock of the service.
unfoldable pub note_pcr : Libs → Input → ℕ → Bytes → Input
note_pcr L r pid ts_packet =
    if is_some r.stream.pmt_rewritten && pid == r.stream.pcr_pid && L.ts_packet_has_pcr ts_packet
    then record r { stream = record (r.stream) { input_pcr = L.ts_packet_get_pcr ts_packet } }
    else r

-- Once there is a clock the packet goes into the buffer under its new identifier.
unfoldable pub forward : Libs → Input → ℕ → Bytes → Input
forward L r pid ts_packet =
    let (_, ts_packet') =
      pidref_change_packet_pid L.ts_packet_set_pid ts_packet pid r.stream.pidref in
    let r' = input_buffer_add L r ts_packet' in
    if r.stream.input_pcr == 0
    then r
    else record r' { input_ready = if r'.input_ready == 0 then 1 else r'.input_ready }

-- The part of the loop's body that follows the PAT and the PMT.
unfoldable pub pass_packet : Libs → ℕ → Input → Bytes → Flow × Input
pass_packet L transport_stream_id r ts_packet =
    let pid = L.ts_packet_get_pid ts_packet in
    if pid == 0x12
    then (next, (process_eit L transport_stream_id r ts_packet).1)
    else if is_removed r.stream.nit_pid pid
    then (next, r)
    else (next, forward L (note_pcr L r pid ts_packet) pid ts_packet)

unfoldable pub pass_pmt : Libs → ℕ → Input → ℕ → Bytes → Flow × Input
pass_pmt L transport_stream_id r pid ts_packet =
    let (verdict, r') = process_pmt L r pid ts_packet in
    elim verdict [
      | refused ↦ (reconnect, r')
      | skip ↦ (next, r')
      | failed ↦ (next, r')
      | other ↦ pass_packet L transport_stream_id r' ts_packet
      | handled ↦ pass_packet L transport_stream_id r' ts_packet
    ]

unfoldable pub handle_packet : Libs → ℕ → Input → Bytes → Flow × Input
handle_packet L transport_stream_id r ts_packet =
    let pid = L.ts_packet_get_pid ts_packet in
    let (verdict, r', ts_packet') = process_pat L r pid ts_packet in
    let rest = pass_pmt L transport_stream_id r' pid ts_packet' in
    if r.dienow then (quit, r) else elim verdict [
      | refused ↦ (reconnect, r')
      | skip ↦ (next, r')
      | failed ↦ (next, r')
      | other ↦ rest
      | handled ↦ rest
    ]

-- for (i=0; i<readen; i+=188), over the packets that were read
unfoldable pub handle_packets : Libs → ℕ → Input → List Bytes → Flow × Input
handle_packets L transport_stream_id r [] = (next, r)
handle_packets L transport_stream_id r (p ∷ ps) =
    let (flow, r') = handle_packet L transport_stream_id r p in
    elim flow [
      | next ↦ handle_packets L transport_stream_id r' ps
      | reconnect ↦ (reconnect, r')
      | quit ↦ (quit, r')
    ]

-- ===== src/Output/Write.antt =====
-- output_write.c: the clock of each frame (`ts_frame_process`), and plain frames on the network and in
-- the file (`ts_frame_write`). A frame is its transport packets.
pub mod Padding
use mptsd.Base.{
  ℕ, ◌+◌, ◌-◌, ◌*◌, ◌^◌, ◌≡◌, Bool, true, false, List, [], ◌∷◌, Option, none, some, Bytes, set, ltb,
  leb, ◌==◌, ◌&&◌, ◌||◌, u64, if◌then◌else◌,
}
use mptsd.Libs.{Libs}
use mptsd.Output.{Output}

-- (uint64_t)(old_pcr + (double)ticks / output_bitrate), of which nothing is assumed.
abbrev pub PcrAfter : Type 0
PcrAfter = ℕ → ℕ → ℕ → ℕ

-- ts_packet[3] = 0x10
abbrev pub set_payload_only : Bytes → Bytes
set_payload_only ts_packet = set ts_packet 3 0x10

-- NULL packets are marked and counted.
unfoldable pub count_padding : ℕ → Output → Bytes → Output × Bytes
count_padding pid o ts_packet =
    if pid == 0x1fff
    then (record o { padding_period = u64 (o.padding_period + 188) }, set_payload_only ts_packet)
    else (o, ts_packet)

-- o->table[pid] = value
abbrev pub update : (ℕ → ℕ) → ℕ → ℕ → ℕ → ℕ
update table pid value q = if q == pid then value else table q

-- (bytes - old_bytes) * 8 * 27000000, in 64 bits
abbrev pub clock_ticks : ℕ → ℕ → ℕ
clock_ticks bytes old_bytes = u64 (u64 (u64 (bytes + 2 ^ 64 - old_bytes) * 8) * 27000000)

-- The clock that the packet should show: `pcr` itself on the first packet and after a wraparound.
unfoldable pub new_pcr_of : PcrAfter → Output → ℕ → ℕ → ℕ → ℕ
new_pcr_of pcr_after o pid pcr bytes =
    if o.last_pcr pid == 0
    then pcr
    else if ltb (o.last_org_pcr pid) pcr
    then pcr_after (o.last_pcr pid) (clock_ticks bytes (o.last_traffic pid)) o.output_bitrate
    else pcr

-- A packet with a clock, at `bytes` bytes from the start of the output.
unfoldable pub process_pcr : Libs → PcrAfter → ℕ → ℕ → Output → Bytes → ℕ → Output × Bytes
process_pcr L pcr_after pcr_mode pid o ts_packet bytes =
    let pcr = L.ts_packet_get_pcr ts_packet in
    let new_pcr = new_pcr_of pcr_after o pid pcr bytes in
    let rewritten =
      (pcr_mode == 2 || pcr_mode == 3)
      && (ltb 0 (o.last_pcr pid) && ltb (o.last_org_pcr pid) pcr) in
    (
      record o {
        last_pcr = update o.last_pcr pid new_pcr;
        last_org_pcr = update o.last_org_pcr pid pcr;
        last_traffic = update o.last_traffic pid bytes;
      },
      if rewritten then L.ts_packet_set_pcr ts_packet new_pcr else ts_packet,
    )

unfoldable pub process_packet : Libs → PcrAfter → ℕ → Output → Bytes → ℕ → Output × Bytes
process_packet L pcr_after pcr_mode o ts_packet i =
    let pid = L.ts_packet_get_pid ts_packet in
    let (o', ts_packet') = count_padding pid o ts_packet in
    if L.ts_packet_has_pcr ts_packet'
    then process_pcr L pcr_after pcr_mode pid o' ts_packet' (u64 (o'.traffic + i))
    else (o', ts_packet')

-- The loop over the packets of a frame, at offset `i`.
unfoldable pub process_packets : Libs → PcrAfter → ℕ → Output → List Bytes → ℕ → Output × List Bytes
process_packets L pcr_after pcr_mode o [] i = (o, [])
process_packets L pcr_after pcr_mode o (p ∷ ps) i =
    let (o', p') = process_packet L pcr_after pcr_mode o p i in
    let (o'', ps') = process_packets L pcr_after pcr_mode o' ps (i + 188) in (o'', p' ∷ ps')

unfoldable pub ts_frame_process : Libs → PcrAfter → ℕ → Output → List Bytes → Output × List Bytes
unfolding process_packets
ts_frame_process L pcr_after pcr_mode o frame = process_packets L pcr_after pcr_mode o frame 0

-- What a write returns: `none` for -1.
abbrev pub Written : Type 0
Written = Option ℕ

-- written2 > written ? written2 : written
abbrev pub larger : Written → Written → Written
larger none b = b
larger (some n) none = some n
larger (some n) (some m) = if ltb n m then some m else some n

-- What `ts_frame_write` returns, for the results of `fdwrite` and, with a file, of `write`.
unfoldable pub frame_written : Bool → Written → Written → Written
frame_written ofd network file = larger network (if ofd then file else some 0)

abbrev pub count_traffic : Output → Written → Output
count_traffic o none = o
count_traffic o (some n) = record o {
  traffic = u64 (o.traffic + n);
  traffic_period = u64 (o.traffic_period + n);
}

unfoldable pub ts_frame_write : Output → Written → Written → Written × Output
unfolding frame_written
ts_frame_write o network file =
    let written = frame_written o.ofd network file in (written, count_traffic o written)

-- ===== src/Output/Mix.antt =====
-- output_mix.c: how one output buffer is filled from the PSI buffer and the input buffers. What the
-- other threads do between two packets is a list of events, at whose end the thread still waits.
pub mod Inputs
pub mod Places
pub mod Spread
pub mod Fair
pub mod Progress
mod Tests
use mptsd.Base.{
  ℕ, suc, ◌+◌, ◌-◌, ◌*◌, ◌/◌, ◌≡◌, min, Bool, true, false, List, [], ◌∷◌, ◌++◌, Option, none, some,
  Bytes, map, length, set, u32, ltb, leb, ◌==◌, ◌&&◌, ◌||◌, if◌then◌else◌,
}
use mptsd.Libs.{Libs, Cbuf}
use mptsd.Input.{Input, buffered}
use mptsd.Output.Mix.Inputs.{Pacing, Scanned, scan_inputs}

-- output_show_programs; an input becomes visible once
abbrev show_program : Input → Input
show_program r = if r.input_ready == 1 then record r { input_ready = r.input_ready + 1 } else r

unfoldable pub output_show_programs : List Input → List Input
output_show_programs = map show_program

-- o_datasize, an unsigned int
unfoldable pub data_size : Cbuf → List Input → ℕ
data_size psibuf [] = u32 (buffered psibuf)
data_size psibuf (r ∷ rs) = u32 (data_size psibuf rs + buffered r.buf)

-- The double products that spread the NULL packets, of which nothing is assumed:
-- round(data_packets * null_per_data) and round(nulls * data_per_null), for `packets` data packets in
-- a buffer of `o_maxpackets`.
pub record Rounding : Type 0 where
  pub data_products : ℕ → ℕ → ℕ → ℕ
  pub null_products : ℕ → ℕ → ℕ → ℕ

-- The numbers that are fixed for one buffer.
pub record Plan : Type 0 where
  pub packets : ℕ
  pub o_maxpackets : ℕ

unfoldable pub make_plan : ℕ → Cbuf → List Input → Plan
make_plan o_maxpackets psibuf inputs = record {
  packets = min (data_size psibuf inputs / 188) o_maxpackets;
  o_maxpackets = o_maxpackets;
}

-- The loop's state. `taken` is a record of the packets that went into the buffer so far, in order.
pub record Mixing : Type 0 where
  pub psibuf : Cbuf
  pub inputs : List Input
  pub inpt : ℕ
  pub buf : List Bytes
  pub data_packets : ℕ
  pub nulls : ℕ
  pub taken : List Bytes

-- The number of NULL packets in front of the next data packet.
unfoldable pub mix_nulls : Rounding → Plan → ℕ → ℕ → ℕ
mix_nulls w p data_packets nulls =
    let null_packets_count = p.o_maxpackets - p.packets in
    let packet = w.data_products p.packets p.o_maxpackets data_packets in
    let null = w.null_products p.packets p.o_maxpackets nulls in
    let more = if ltb null packet then nulls + (packet - null) else nulls in
    if ltb nulls null_packets_count
    then (if ltb null_packets_count more then null_packets_count else more)
    else nulls

-- Increase sended packets
abbrev pub count_input : ℕ → Input → Input
count_input n r = record r { outputed_packets = r.outputed_packets + n }

abbrev pub count_sent : ℕ → List Input → List Input
count_sent n = map (count_input n)

-- How a round of the loop ends: with the next packet, with another try, or by leaving the loop.
pub data Round : Type 0 where
  advanced retried left : Round

abbrev pub advance : Mixing → Round × Mixing
advance m =
    (advanced, record m { inputs = count_sent 1 m.inputs; data_packets = m.data_packets + 1 })

-- SEND_PACKET
unfoldable pub send_packet : Rounding → Plan → Mixing → Option Bytes → Round × Mixing
unfolding mix_nulls
send_packet w p m none = advance m
send_packet w p m (some packet) =
    let nulls = mix_nulls w p m.data_packets m.nulls in
    let pos = m.data_packets + nulls in
    if leb p.o_maxpackets pos
    then (left, record m { nulls = nulls })
    else advance
        (record m { nulls = nulls; buf = set m.buf pos packet; taken = m.taken ++ packet ∷ [] })

-- One data packet: PSI first, then the inputs.
unfoldable pub mix_packet : Libs → Pacing → Rounding → ℕ → Plan → Mixing → Round × Mixing
mix_packet L pace w pcr_mode p m =
    let (psi, psibuf) = L.cbuf_get m.psibuf 188 in
    let m' = record m { psibuf = psibuf } in
    let s = scan_inputs L pace pcr_mode p.o_maxpackets (length m.inputs) m.inpt m.inputs 0 in
    let m'' = record m' { inputs = s.inputs; inpt = s.inpt } in
    if length psi == 188
    then send_packet w p m' (some psi)
    else if s.read_count == 0
    then (retried, m'')
    else send_packet w p m'' s.packet

-- What other threads do before a round.
pub record Arrival : Type 0 where
  pub dienow : Bool
  pub fill_psi : Cbuf → Cbuf
  pub fill_inputs : List Input → List Input

abbrev pub arrive : Arrival → Mixing → Mixing
arrive e m = record m { psibuf = e.fill_psi m.psibuf; inputs = e.fill_inputs m.inputs }

-- for (data_packets=0;data_packets<packets;data_packets++); true when the loop is left
unfoldable pub mix_packets :
    Libs → Pacing → Rounding → ℕ → Plan → List Arrival → Mixing → Bool × Mixing
mix_packets L pace w pcr_mode p [] m = (leb p.packets m.data_packets, m)
mix_packets L pace w pcr_mode p (e ∷ es) m =
    let (round, m') = mix_packet L pace w pcr_mode p (arrive e m) in
    let on = mix_packets L pace w pcr_mode p es m' in
    if leb p.packets m.data_packets
    then (true, m)
    else if e.dienow
    then (true, m)
    else elim round [ advanced ↦ on | retried ↦ on | left ↦ (true, m') ]

-- From the computation of the sizes to NEXT_BUFFER, for an empty buffer.
unfoldable pub mix_buffer :
    Libs → Pacing → Rounding → ℕ → List Arrival → Cbuf → List Input → ℕ → List Bytes → Bool × Mixing
unfolding make_plan
mix_buffer L pace w pcr_mode es psibuf inputs inpt buf =
    let p = make_plan (length buf) psibuf inputs in
    let start : Mixing = record {
      psibuf = psibuf;
      inputs = inputs;
      inpt = inpt;
      buf = buf;
      data_packets = 0;
      nulls = 0;
      taken = [];
    } in
    let filled = mix_packets L pace w pcr_mode p es start in
    if p.o_maxpackets - p.packets == p.o_maxpackets
    then (true, record start { inputs = count_sent p.o_maxpackets inputs })
    else filled

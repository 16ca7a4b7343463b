-- ===== src/Output/Mix/Progress.antt =====
-- Where clocks are not moved, every round of the mixing loop makes progress.
use mptsd.Base.{
  ℕ, zero, suc, ◌+◌, ◌-◌, ◌≤◌, ◌<◌, ◌≡◌, ◌≢◌, refl, ◌∙◌, true, false, List, [], ◌∷◌, Option, none,
  some, Bytes, length, set, length-set, length-map, get_elem?, arith, leb, ◌==◌, Bool-cases,
  Option-cases, inl, inr, All,
}
use mptsd.Libs.{Libs, Cbuf}
use mptsd.Input.{Input}
use mptsd.Output.Mix.Inputs.{Pacing, next_input, take_packet, get_packet, scan_inputs}
use mptsd.Output.Mix.{
  Rounding, Plan, make_plan, Mixing, count_input, Round, advanced, send_packet, mix_packet, Arrival,
  arrive, mix_packets, mix_buffer,
}
use mptsd.Output.Mix.Places.{rest}
use mptsd.Output.Mix.Spread.{Fits, send_packet-Fits, same_buffer}

module _ (L : Libs) (pace : Pacing) (pcr_mode : ℕ) (o_maxpackets : ℕ) where
  read_one :
      (r : Input)
      → pcr_mode ≢ 1
      → pcr_mode ≢ 3
      → (take_packet L pace pcr_mode o_maxpackets r).read ≡ 1
  unfolding take_packet get_packet
  read_one r h1 h3 = ground arith

  elem_in_range : (rs : List Input) (i : ℕ) → i < length rs → get_elem? rs i ≢ none
  elem_in_range [] i h = absurd (omega arith)
  elem_in_range (r ∷ rs) zero h = λ e. ground arith
  elem_in_range (r ∷ rs) (suc i) h = elem_in_range rs i (omega arith)

  -- The loop over the inputs keeps their number and counts each input that it looks at.
  scan_inputs_lem :
      (inputs_left inpt : ℕ) (rs : List Input) (read_count : ℕ)
      → pcr_mode ≢ 1
      → pcr_mode ≢ 3
      → let s = scan_inputs L pace pcr_mode o_maxpackets inputs_left inpt rs read_count in
        (length s.inputs ≡ length rs)
        × (read_count ≤ s.read_count)
        × (1 ≤ length rs → 1 ≤ inputs_left → read_count < s.read_count)
  unfolding scan_inputs
  scan_inputs_lem zero inpt rs c h1 h3 = (refl, omega arith, λ a b. absurd (omega arith))
  scan_inputs_lem (suc k) inpt rs c h1 h3 =
      let i = next_input (length rs) inpt in
      elim (Option-cases (get_elem? rs i)) [
        | inl e ↦
            let (l, n, o) = scan_inputs_lem k i rs c h1 h3 in
            rw (e, scan_inputs) (l, n, λ a b. absurd (elem_in_range rs i (ground arith) e))
        | inr (r, e) ↦
            let t = take_packet L pace pcr_mode o_maxpackets r in
            let one = read_one r h1 h3 in
            let same = length-set rs i t.input in
            let (l, n, o) = scan_inputs_lem k i (set rs i t.input) (c + t.read) h1 h3 in
            rw (e, scan_inputs)
              (elim (Option-cases t.packet) [
                | inl gone ↦ rw gone (l ∙ same, omega (arith, n), λ a b. omega (arith, n, one))
                | inr (d, found) ↦ rw found (same, omega arith, λ a b. omega (arith, one))
              ])
      ]

-- What other threads do in a round: they never take an input away, and the program is not told to end.
pub record Calm (e : Arrival) : Type 0 where
  pub alive : e.dienow ≡ false
  pub some_left : (rs : List Input) → 1 ≤ length rs → 1 ≤ length (e.fill_inputs rs)

module _ (L : Libs) (pace : Pacing) (w : Rounding) (pcr_mode : ℕ) (p : Plan) where
  record Advanced (old : List Bytes) (m : Mixing) (res : Round × Mixing) : Type 0 where
    on : res.0 ≡ advanced
    counted : res.1.data_packets ≡ m.data_packets + 1
    fits : Fits p old res.1
    inputs : 1 ≤ length res.1.inputs

  length-send_packet :
      (m : Mixing) (o : Option Bytes) → length (send_packet w p m o).1.inputs ≡ length m.inputs
  unfolding send_packet
  length-send_packet m none = length-map (count_input 1) m.inputs
  length-send_packet m (some d) = let e = length-map (count_input 1) m.inputs in ground (arith, e)

  sent :
      (old : List Bytes) (m : Mixing) (psibuf : Cbuf) (inputs : List Input) (inpt : ℕ)
      (o : Option Bytes)
      → Fits p old m
      → m.data_packets < p.packets
      → p.packets ≤ p.o_maxpackets
      → 1 ≤ length inputs
      → Advanced old m
          (send_packet w p (record m { psibuf = psibuf; inputs = inputs; inpt = inpt }) o)
  sent old m psibuf inputs inpt o f h q l =
      let m' = record m { psibuf = psibuf; inputs = inputs; inpt = inpt } in
      let (f', a, c) =
        send_packet-Fits w p old m' o (same_buffer w p old m psibuf inputs inpt f) h q in
      record { on = a; counted = c; fits = f'; inputs = omega (arith, length-send_packet m' o, l) }

  mix_packet-Advanced :
      (old : List Bytes) (m : Mixing)
      → pcr_mode ≢ 1
      → pcr_mode ≢ 3
      → Fits p old m
      → m.data_packets < p.packets
      → p.packets ≤ p.o_maxpackets
      → 1 ≤ length m.inputs
      → Advanced old m (mix_packet L pace w pcr_mode p m)
  unfolding mix_packet
  mix_packet-Advanced old m h1 h3 f h q l =
      let (psi, psibuf) = L.cbuf_get m.psibuf 188 in
      let r = scan_inputs L pace pcr_mode p.o_maxpackets (length m.inputs) m.inpt m.inputs 0 in
      let (kept, _, reads) =
        scan_inputs_lem L pace pcr_mode p.o_maxpackets (length m.inputs) m.inpt m.inputs 0 h1 h3 in
      let something : (r.read_count == 0) ≡ false = ground (arith, reads l l) in
      elim (Bool-cases (length psi == 188)) [
        | inl found ↦ rw found (sent old m psibuf m.inputs m.inpt (some psi) f h q l)
        | inr gone ↦
            rw (gone, something)
              (sent old m psibuf r.inputs r.inpt r.packet f h q (omega (arith, kept, l)))
      ]

  mix_packets_done :
      (old : List Bytes) (es : List Arrival) (m : Mixing)
      → pcr_mode ≢ 1
      → pcr_mode ≢ 3
      → All Calm es
      → Fits p old m
      → m.data_packets ≤ p.packets
      → p.packets ≤ p.o_maxpackets
      → 1 ≤ length m.inputs
      → p.packets ≤ m.data_packets + length es
      → let (finished, m') = mix_packets L pace w pcr_mode p es m in
        (finished ≡ true) × (m'.data_packets ≡ p.packets)
  unfolding mix_packets
  mix_packets_done old [] m h1 h3 calm f h q l enough = (ground arith, omega arith)
  mix_packets_done old (e ∷ es) m h1 h3 calm f h q l enough =
      elim (Bool-cases (leb p.packets m.data_packets)) [
        | inl full ↦ rw full (refl, ground arith)
        | inr more ↦
            let m' = arrive e m in
            let a =
              mix_packet-Advanced old m' h1 h3 (same_buffer w p old m m'.psibuf m'.inputs m'.inpt f)
                (ground arith) q (calm.0.some_left m.inputs l) in
            let below : m.data_packets < p.packets = ground arith in
            rw (more, calm.0.alive, a.on)
              (mix_packets_done old es (mix_packet L pace w pcr_mode p m').1 h1 h3 calm.1 a.fits
                (omega (arith, a.counted, below)) q a.inputs (omega (arith, a.counted, enough)))
      ]

-- In the modes that do not move clocks, with at least one input, and while no thread is stopped and no
-- input goes away, one round for each packet is enough: the loop ends by itself with all `packets`
-- rounds done, also when the inputs deliver less than they had announced.
pub mix_buffer_done :
    (L : Libs) (pace : Pacing) (w : Rounding) (pcr_mode : ℕ) (es : List Arrival) (psibuf : Cbuf)
    (inputs : List Input) (inpt : ℕ) (buf : List Bytes)
    → pcr_mode ≢ 1
    → pcr_mode ≢ 3
    → All Calm es
    → 1 ≤ length inputs
    → (make_plan (length buf) psibuf inputs).packets ≤ length es
    → let (finished, m) = mix_buffer L pace w pcr_mode es psibuf inputs inpt buf in
      (finished ≡ true)
      × (1 ≤ (make_plan (length buf) psibuf inputs).packets
          → m.data_packets ≡ (make_plan (length buf) psibuf inputs).packets)
unfolding mix_buffer
mix_buffer_done L pace w pcr_mode es psibuf inputs inpt buf h1 h3 calm l enough =
    let p = make_plan (length buf) psibuf inputs in
    let start : Mixing = record {
      psibuf = psibuf;
      inputs = inputs;
      inpt = inpt;
      buf = buf;
      data_packets = 0;
      nulls = 0;
      taken = [];
    } in
    elim (Bool-cases (p.o_maxpackets - p.packets == p.o_maxpackets)) [
      | inl empty ↦ rw empty (refl, λ one. absurd (ground arith))
      | inr some_data ↦
          let (d, n) =
            mix_packets_done L pace w pcr_mode p buf es start h1 h3 calm
              (record {
                used = 0;
                spread = rest;
                free = omega arith;
                nulls = omega arith;
                whole = refl;
              })
              (omega arith) (omega arith) l (omega (arith, enough)) in
          rw some_data (d, λ one. n)
    ]

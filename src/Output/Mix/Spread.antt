-- ===== src/Output/Mix/Spread.antt =====
-- How the packets that are taken lie in the output buffer.
use mptsd.Base.{
  ℕ, suc, ◌+◌, ◌-◌, ◌≤◌, ◌<◌, ◌≡◌, ◌≢◌, refl, Bool, true, false, List, [], ◌∷◌, Option, none, some,
  Bytes, length, arith, leb, ◌==◌, Bool-cases, inl, inr,
}
use mptsd.Libs.{Libs, Cbuf}
use mptsd.Input.{Input}
use mptsd.Output.Mix.Places.{Spread, rest, next_place}
use mptsd.Output.Mix.Inputs.{Pacing, scan_inputs}
use mptsd.Output.Mix.{
  Rounding, Plan, make_plan, Mixing, mix_nulls, Round, advanced, retried, left, send_packet,
  mix_packet, Arrival, arrive, mix_packets, mix_buffer,
}

-- The invariant of the loop: the places from `used` on are free, and all that is to come has room.
pub record Fits (p : Plan) (old : List Bytes) (m : Mixing) : Type 0 where
  pub used : ℕ
  pub spread : Spread used m.taken old m.buf
  pub free : used ≤ m.data_packets + m.nulls
  pub nulls : m.nulls ≤ p.o_maxpackets - p.packets
  pub whole : length old ≡ p.o_maxpackets

module _ (w : Rounding) (p : Plan) where
  mix_nulls_lem :
      (data_packets nulls : ℕ)
      → nulls ≤ p.o_maxpackets - p.packets
      → (nulls ≤ mix_nulls w p data_packets nulls)
        × (mix_nulls w p data_packets nulls ≤ p.o_maxpackets - p.packets)
  unfolding mix_nulls
  mix_nulls_lem data_packets nulls h = ground arith

  -- A packet always finds its place.
  pub send_packet-Fits :
      (old : List Bytes) (m : Mixing) (o : Option Bytes)
      → Fits p old m
      → m.data_packets < p.packets
      → p.packets ≤ p.o_maxpackets
      → Fits p old (send_packet w p m o).1
        × ((send_packet w p m o).0 ≡ advanced)
        × ((send_packet w p m o).1.data_packets ≡ m.data_packets + 1)
  unfolding send_packet
  send_packet-Fits old m none f h q = (
    record {
      used = f.used;
      spread = f.spread;
      free = omega (arith, f.free);
      nulls = f.nulls;
      whole = f.whole;
    },
    refl,
    refl,
  )
  send_packet-Fits old m (some d) f h q =
      let (grows, bounded) = mix_nulls_lem m.data_packets m.nulls f.nulls in
      let pos = m.data_packets + mix_nulls w p m.data_packets m.nulls in
      let inside : pos < p.o_maxpackets = omega (arith, bounded) in
      let room : leb p.o_maxpackets pos ≡ false = ground (arith, inside) in
      rw room (
        record {
          used = suc pos;
          spread =
              next_place pos d f.spread (omega (arith, f.free, grows))
                (omega (arith, f.whole, inside));
          free = omega arith;
          nulls = bounded;
          whole = f.whole;
        },
        refl,
        refl,
      )

  -- The state after a round, from `m`.
  record Stepped (old : List Bytes) (m : Mixing) (res : Round × Mixing) : Type 0 where
    fits : Fits p old res.1
    stays : res.0 ≢ left
    counted : res.1.data_packets ≤ m.data_packets + 1

  -- The fields that are not about the buffer do not matter.
  pub same_buffer :
      (old : List Bytes) (m : Mixing) (psibuf : Cbuf) (inputs : List Input) (inpt : ℕ)
      → Fits p old m
      → Fits p old (record m { psibuf = psibuf; inputs = inputs; inpt = inpt })
  same_buffer old m psibuf inputs inpt f = record {
    used = f.used;
    spread = f.spread;
    free = f.free;
    nulls = f.nulls;
    whole = f.whole;
  }

  sent :
      (old : List Bytes) (m : Mixing) (psibuf : Cbuf) (inputs : List Input) (inpt : ℕ)
      (o : Option Bytes)
      → Fits p old m
      → m.data_packets < p.packets
      → p.packets ≤ p.o_maxpackets
      → Stepped old m
          (send_packet w p (record m { psibuf = psibuf; inputs = inputs; inpt = inpt }) o)
  sent old m psibuf inputs inpt o f h q =
      let (f', a, c) =
        send_packet-Fits old (record m { psibuf = psibuf; inputs = inputs; inpt = inpt }) o
          (same_buffer old m psibuf inputs inpt f) h q in
      record { fits = f'; stays = λ e. ground (arith, a); counted = omega (arith, c) }

  -- One round goes on, or is tried again with nothing placed.
  mix_packet-Fits :
      (L : Libs) (pace : Pacing) (pcr_mode : ℕ) (old : List Bytes) (m : Mixing)
      → Fits p old m
      → m.data_packets < p.packets
      → p.packets ≤ p.o_maxpackets
      → Stepped old m (mix_packet L pace w pcr_mode p m)
  unfolding mix_packet
  mix_packet-Fits L pace pcr_mode old m f h q =
      let (psi, psibuf) = L.cbuf_get m.psibuf 188 in
      let r = scan_inputs L pace pcr_mode p.o_maxpackets (length m.inputs) m.inpt m.inputs 0 in
      elim (Bool-cases (length psi == 188)) [
        | inl found ↦ rw found (sent old m psibuf m.inputs m.inpt (some psi) f h q)
        | inr none_there ↦ elim (Bool-cases (r.read_count == 0)) [
          | inl nothing ↦
              rw (none_there, nothing)
                (record {
                  fits = same_buffer old m psibuf r.inputs r.inpt f;
                  stays = λ e. ground arith;
                  counted = omega arith;
                })
          | inr something ↦
              rw (none_there, something) (sent old m psibuf r.inputs r.inpt r.packet f h q)
        ]
      ]

  go_on :
      (old : List Bytes) (res : Round × Mixing) (on : Bool × Mixing)
      → res.0 ≢ left
      → Fits p old on.1 × (on.1.data_packets ≤ p.packets)
      → let end : Bool × Mixing = elim res.0 [
        | advanced ↦ on
        | retried ↦ on
        | left ↦ (true, res.1)
      ] in
        Fits p old end.1 × (end.1.data_packets ≤ p.packets)
  go_on old (advanced, m') on stays r = r
  go_on old (retried, m') on stays r = r
  go_on old (left, m') on stays r = absurd (stays refl)

  mix_packets-Fits :
      (L : Libs) (pace : Pacing) (pcr_mode : ℕ) (old : List Bytes) (es : List Arrival) (m : Mixing)
      → Fits p old m
      → m.data_packets ≤ p.packets
      → p.packets ≤ p.o_maxpackets
      → Fits p old (mix_packets L pace w pcr_mode p es m).1
        × ((mix_packets L pace w pcr_mode p es m).1.data_packets ≤ p.packets)
  unfolding mix_packets
  mix_packets-Fits L pace pcr_mode old [] m f h q = (f, h)
  mix_packets-Fits L pace pcr_mode old (e ∷ es) m f h q =
      elim (Bool-cases (leb p.packets m.data_packets)) [
        | inl full ↦ rw full (f, h)
        | inr more ↦ elim (Bool-cases e.dienow) [
          | inl dying ↦ rw (more, dying) (f, h)
          | inr alive ↦
              let m' = arrive e m in
              let s =
                mix_packet-Fits L pace pcr_mode old m'
                  (same_buffer old m m'.psibuf m'.inputs m'.inpt f) (ground arith) q in
              let res = mix_packet L pace w pcr_mode p m' in
              let below : m.data_packets < p.packets = ground arith in
              let on =
                mix_packets-Fits L pace pcr_mode old es res.1 s.fits
                  (omega (arith, s.counted, below)) q in
              rw (more, alive) (go_on old res (mix_packets L pace w pcr_mode p es res.1) s.stays on)
        ]
      ]

-- The buffer after mixing, from the buffer before.
pub record Mixed (old : List Bytes) (m : Mixing) : Type 0 where
  pub used : ℕ
  pub inside : used ≤ length old
  pub spread : Spread used m.taken old m.buf

Fits-Mixed :
    (p : Plan) (old : List Bytes) (m : Mixing)
    → Fits p old m
    → m.data_packets ≤ p.packets
    → p.packets ≤ p.o_maxpackets
    → Mixed old m
Fits-Mixed p old m f c q = record {
  used = f.used;
  inside = omega (arith, f.free, f.nulls, f.whole);
  spread = f.spread;
}

-- Whatever other threads do meanwhile and however the double products are rounded, the packets that
-- are taken lie in the buffer in the order in which they were taken, none over another and all inside
-- it, and every other place is as it was.
pub mix_buffer-Mixed :
    (L : Libs) (pace : Pacing) (w : Rounding) (pcr_mode : ℕ) (es : List Arrival) (psibuf : Cbuf)
    (inputs : List Input) (inpt : ℕ) (buf : List Bytes)
    → Mixed buf (mix_buffer L pace w pcr_mode es psibuf inputs inpt buf).1
unfolding mix_buffer
mix_buffer-Mixed L pace w pcr_mode es psibuf inputs inpt buf =
    let p = make_plan (length buf) psibuf inputs in
    let start : Mixing = record {
      psibuf = psibuf;
      inputs = inputs;
      inpt = inpt;
      buf = buf;
      data_packets = 0;
      nulls = 0;
      taken = [];
    } in
    elim (Bool-cases (p.o_maxpackets - p.packets == p.o_maxpackets)) [
      | inl empty ↦ rw empty (record { used = 0; inside = omega arith; spread = rest })
      | inr some_data ↦
          let q : p.packets ≤ p.o_maxpackets = omega arith in
          let (f, c) =
            mix_packets-Fits w p L pace pcr_mode buf es start
              (record {
                used = 0;
                spread = rest;
                free = omega arith;
                nulls = omega arith;
                whole = refl;
              })
              (omega arith) q in
          rw some_data (Fits-Mixed p buf _ f c q)
    ]

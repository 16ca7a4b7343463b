-- ===== src/Output/Psi/Counters.antt =====
-- The continuity of the programme guide.
use mptsd.Base.{
  ℕ, ◌<◌, ◌≡◌, refl, ap, ap₂, ◌∙◌, List, [], ◌∷◌, ◌++◌, Option, none, some, Bytes, map, length,
  arith, ◌==◌, if◌then◌else◌, inl, inr, ◌⊎◌,
}
use mathlib.Core.List.{flatten}
use mptsd.Libs.{Libs, Eit, Cbuf}
use mptsd.Continuity.{stamp_packets, next_cont}
use mptsd.Continuity.Runs.{counters, ReadsBack, send_all, send_all-counters}
use mptsd.Input.{Input}
use mptsd.Output.{Output}
use mptsd.Output.Psi.{put_psi, add_eit, add_eits, output_add_eit}

List-cases {ℓ} : {A : Type ℓ} (xs : List A) → (xs ≡ []) ⊎ ((x : A) × (ys : List A) × (xs ≡ x ∷ ys))
List-cases [] = inl refl
List-cases (x ∷ xs) = inr (x, xs, refl)

-- The packets of a section that may be missing.
abbrev pub section : Option Eit → List Bytes
section none = []
section (some e) = e.packets

-- The sections of the guide, in the order in which they are sent.
unfoldable pub eit_sections : List Input → List (List Bytes)
eit_sections [] = []
eit_sections (r ∷ rs) = section r.channel.eit_now ∷ section r.channel.eit_next ∷ eit_sections rs

-- Sections go into the buffer one by one, those without packets left out.
unfoldable pub put_sections : Libs → Cbuf → List (List Bytes) → Cbuf
put_sections L b [] = b
put_sections L b (s ∷ ss) = put_sections L (if length s == 0 then b else put_psi L b s) ss

module _ (L : Libs) where
  -- One section is stamped from the counter on, and goes into the buffer if it has packets.
  record Sent (o : Output) (e : Option Eit) (res : Output × Option Eit) : Type 0 where
    packets : section res.1 ≡ stamp_packets L.ts_packet_set_cont o.pid_eit_cont 0 (section e)
    counter : res.0.pid_eit_cont ≡ next_cont o.pid_eit_cont (section e)
    buffer :
        res.0.psibuf
        ≡ (if length (section res.1) == 0 then o.psibuf else put_psi L o.psibuf (section res.1))

  add_eit-Sent : (o : Output) (e : Option Eit) → o.pid_eit_cont < 16 → Sent o e (add_eit L o e)
  unfolding add_eit stamp_packets
  add_eit-Sent o none h = record { packets = refl; counter = omega arith; buffer = refl }
  add_eit-Sent o (some e) h = elim (List-cases e.packets) [
    | inl none_there ↦
        rw none_there (record { packets = refl; counter = omega arith; buffer = refl })
    | inr (p, ps, there) ↦
        rw there (record { packets = ground arith; counter = ground arith; buffer = ground arith })
  ]

  -- All sections, in order.
  pub record AllSent (o : Output) (rs : List Input) (res : Output × List Input) : Type 0 where
    pub packets :
        flatten (eit_sections res.1)
        ≡ send_all L.ts_packet_set_cont o.pid_eit_cont (eit_sections rs)
    pub buffer : res.0.psibuf ≡ put_sections L o.psibuf (eit_sections res.1)

  pub add_eits-AllSent :
      (rs : List Input) (o : Output) → o.pid_eit_cont < 16 → AllSent o rs (add_eits L o rs)
  unfolding add_eits eit_sections put_sections send_all flatten
  add_eits-AllSent [] o h = record { packets = refl; buffer = refl }
  add_eits-AllSent (r ∷ rs) o h =
      let now = add_eit-Sent o r.channel.eit_now h in
      let o' = (add_eit L o r.channel.eit_now).0 in
      let next = add_eit-Sent o' r.channel.eit_next (omega (arith, now.counter)) in
      let o'' = (add_eit L o' r.channel.eit_next).0 in
      let later = section (add_eit L o' r.channel.eit_next).1 in
      let others = add_eits-AllSent rs o'' (omega (arith, next.counter)) in
      record {
        packets = ap₂ ◌++◌ now.packets (
            ap₂ ◌++◌
              (next.packets
                ∙ ap (λ c. stamp_packets L.ts_packet_set_cont c 0 (section r.channel.eit_next))
                    now.counter)
              (others.packets
                ∙ ap (λ c. send_all L.ts_packet_set_cont c (eit_sections rs))
                    (next.counter
                      ∙ ap (λ c. next_cont c (section r.channel.eit_next)) now.counter)));
        buffer =
            others.buffer
            ∙ ap (λ b. put_sections L b (eit_sections (add_eits L o'' rs).1))
                (next.buffer
                  ∙ ap (λ b. if length later == 0 then b else put_psi L b later) now.buffer);
      }

-- Whenever the guide is sent, its packets carry counters without a gap over all channels, from the
-- output's counter on, and what goes into the PSI buffer is the sections in the order of the inputs,
-- `now` before `next`, those without packets left out.
pub output_add_eit-Counters :
    (L : Libs) (get_cont : Bytes → ℕ) (config_load_epg : List Input → List Input)
    → ReadsBack L.ts_packet_set_cont get_cont
    → (inputs : List Input) (o : Output) → o.pid_eit_cont < 16
    → let loaded = config_load_epg inputs in
      let (o', inputs') = output_add_eit L config_load_epg inputs o in
      (map get_cont (flatten (eit_sections inputs'))
        ≡ counters o.pid_eit_cont (length (flatten (eit_sections loaded))))
      × (o'.psibuf ≡ put_sections L o.psibuf (eit_sections inputs'))
unfolding output_add_eit
output_add_eit-Counters L get_cont config_load_epg law inputs o h =
    let loaded = config_load_epg inputs in
    let a = add_eits-AllSent L loaded o h in
    (
      ap (map get_cont) a.packets
          ∙ send_all-counters L.ts_packet_set_cont get_cont law o.pid_eit_cont
              (eit_sections loaded),
      a.buffer,
    )

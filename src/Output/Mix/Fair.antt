-- ===== src/Output/Mix/Fair.antt =====
-- The inputs take turns.
use mptsd.Base.{
  ℕ, zero, suc, ◌+◌, ◌≤◌, ◌<◌, ◌≡◌, ◌≢◌, ◌⊎◌, inl, inr, refl, sym, ap, subst, ◌∙◌, List, Option,
  none, some, Bytes, length, length-set, set, get_elem?, get_elem?-set_ne, arith, Option-cases,
  le_cases, [], ◌∷◌,
}
use mathlib.Core.Option.{some-injective}
use mptsd.Libs.{Libs}
use mptsd.Input.{Input}
use mptsd.Output.Mix.Inputs.{Pacing, take_packet, next_input, Scanned, scan_inputs}

-- Place `i` is `d` places further round a list of `items` than place `inpt`.
abbrev pub Ahead : ℕ → ℕ → ℕ → ℕ → Type 0
Ahead items inpt d i = (i < items) × ((i ≡ inpt + d) ⊎ (i + items ≡ inpt + d))

next_input-lt : (items inpt : ℕ) → inpt < items → next_input items inpt < items
next_input-lt items inpt h = ground arith

Ahead-next :
    (items inpt d i : ℕ)
    → inpt < items
    → Ahead items inpt (suc d) i
    → Ahead items (next_input items inpt) d i
Ahead-next items inpt d i h (lt, inl e) = (lt, inl (ground arith))
Ahead-next items inpt d i h (lt, inr e) = elim (le_cases (inpt + 1) items (omega arith)) [
  | inl last ↦ (lt, inl (ground arith))
  | inr more ↦ (lt, inr (ground arith))
]

Ahead-back :
    (items inpt e k : ℕ)
    → inpt < items
    → e < items
    → Ahead items (next_input items inpt) e k
    → Ahead items inpt (suc e) k
Ahead-back items inpt e k h small (lt, at) = elim (le_cases (inpt + 1) items (omega arith)) [
  | inl last ↦ (lt, inr (ground (arith, at)))
  | inr more ↦ (lt, shift more at)
]
  where
    shift :
        inpt + 1 + 1 ≤ items
        → (k ≡ next_input items inpt + e) ⊎ (k + items ≡ next_input items inpt + e)
        → (k ≡ inpt + suc e) ⊎ (k + items ≡ inpt + suc e)
    shift more (inl a) = inl (ground arith)
    shift more (inr a) = inr (ground arith)

get_elem?-some : (rs : List Input) (i : ℕ) → i < length rs → (r : Input) × (get_elem? rs i ≡ some r)
get_elem?-some [] i h = absurd (omega arith)
get_elem?-some (r ∷ rs) zero h = (r, refl)
get_elem?-some (r ∷ rs) (suc i) h = get_elem?-some rs i (omega arith)

Ahead-one : (items inpt i : ℕ) → inpt < items → Ahead items inpt 1 i → i ≡ next_input items inpt
Ahead-one items inpt i h (lt, inl e) = ground arith
Ahead-one items inpt i h (lt, inr e) = ground arith

Ahead-other :
    (items inpt d i : ℕ)
    → inpt < items
    → 1 ≤ d
    → suc d ≤ items
    → Ahead items inpt (suc d) i
    → next_input items inpt ≢ i
Ahead-other items inpt d i h one room (lt, inl e) same = ground arith
Ahead-other items inpt d i h one room (lt, inr e) same = ground arith

module _ (L : Libs) (pace : Pacing) (pcr_mode o_maxpackets : ℕ) where
  abbrev scan : ℕ → ℕ → List Input → ℕ → Scanned
  scan = scan_inputs L pace pcr_mode o_maxpackets

  abbrev taken : Input → Option Bytes
  taken r = (take_packet L pace pcr_mode o_maxpackets r).packet

  -- The scan has a packet, from an input at most `d` places further round.
  abbrev pub Serves : ℕ → ℕ → ℕ → Scanned → Type 0
  Serves items inpt d s =
      (e : ℕ) × (1 ≤ e)
      × (e ≤ d)
      × Ahead items inpt e s.inpt
      × ((packet : Bytes) × (s.packet ≡ some packet))

  scan_here :
      (left inpt : ℕ) (rs : List Input) (c : ℕ) (r : Input) (packet : Bytes)
      → get_elem? rs (next_input (length rs) inpt) ≡ some r
      → taken r ≡ some packet
      → ((scan (suc left) inpt rs c).inpt ≡ next_input (length rs) inpt)
        × ((scan (suc left) inpt rs c).packet ≡ some packet)
  unfolding scan_inputs
  scan_here left inpt rs c r packet at give = rw (at, give, scan_inputs) (refl, refl)

  scan_on :
      (left inpt : ℕ) (rs : List Input) (c : ℕ) (r : Input)
      → get_elem? rs (next_input (length rs) inpt) ≡ some r
      → taken r ≡ none
      → scan (suc left) inpt rs c
        ≡ scan left
            (next_input (length rs) inpt)
            (set rs
              (next_input (length rs) inpt)
              (take_packet L pace pcr_mode o_maxpackets r).input)
            (c + (take_packet L pace pcr_mode o_maxpackets r).read)
  unfolding scan_inputs
  scan_on left inpt rs c r at give = rw (at, give, scan_inputs) refl

  nothing_here :
      (d inpt i : ℕ) (rs : List Input) (r s : Input) (packet : Bytes)
      → inpt < length rs
      → Ahead (length rs) inpt (suc d) i
      → get_elem? rs i ≡ some r
      → taken r ≡ some packet
      → get_elem? rs (next_input (length rs) inpt) ≡ some s
      → taken s ≡ none
      → 1 ≤ d
  nothing_here (suc d) inpt i rs r s packet h ahead at give here nothing = omega arith
  nothing_here zero inpt i rs r s packet h ahead at give here nothing =
      let e = Ahead-one (length rs) inpt i h ahead in
      let same : s ≡ r = some-injective s r (sym here ∙ ap (get_elem? rs) (sym e) ∙ at) in
      absurd (cc (ap taken same))

  -- An input that has a packet to give does not wait for more than one turn of the others: when it is `d`
  -- places further round than the last used one, and the scan may look at that many, the scan has a packet,
  -- of this input or of one before it. The place of that one is the last used one afterwards, so the input
  -- is nearer then.
  pub scan_inputs-Serves :
      (left d inpt i : ℕ) (rs : List Input) (c : ℕ) (r : Input) (packet : Bytes)
      → inpt < length rs
      → 1 ≤ d
      → d ≤ left
      → d ≤ length rs
      → Ahead (length rs) inpt d i
      → get_elem? rs i ≡ some r
      → taken r ≡ some packet
      → Serves (length rs) inpt d (scan left inpt rs c)
  scan_inputs-Serves zero d inpt i rs c r packet h one room len ahead at give = absurd (omega arith)
  scan_inputs-Serves (suc left) zero inpt i rs c r packet h one room len ahead at give =
      absurd (omega arith)
  scan_inputs-Serves (suc left) (suc d) inpt i rs c r packet h one room len ahead at give =
      let j = next_input (length rs) inpt in
      let below = next_input-lt (length rs) inpt h in
      let (s, here) = get_elem?-some rs j below in
      elim (Option-cases (taken s)) [
        | inr (q, gives) ↦
            let (place, has) = scan_here left inpt rs c s q here gives in
            (
              1,
              omega arith,
              omega arith,
              subst (Ahead (length rs) inpt 1) (sym place)
                  (Ahead-back (length rs) inpt 0 j h (omega arith) (below, inl (omega arith))),
              (q, has),
            )
        | inl nothing ↦
            let t = take_packet L pace pcr_mode o_maxpackets s in
            let rs' = set rs j t.input in
            let size : length rs' ≡ length rs = length-set rs j t.input in
            let far = nothing_here d inpt i rs r s packet h ahead at give here nothing in
            let ahead' = Ahead-next (length rs) inpt d i h ahead in
            let still =
              get_elem?-set_ne rs j i t.input (Ahead-other (length rs) inpt d i h far len ahead)
              ∙ at in
            let (e, low, high, place, has) =
              scan_inputs-Serves left d j i rs' (c + t.read) r packet (omega arith) far
                (omega arith) (omega arith) (subst (λ n. Ahead n j d i) (sym size) ahead') still
                give in
            rw (scan_on left inpt rs c s here nothing) (
              suc e,
              omega arith,
              omega arith,
              Ahead-back (length rs) inpt e (scan left j rs' (c + t.read)).inpt h (omega arith)
                  (subst (λ n. Ahead n j e (scan left j rs' (c + t.read)).inpt) size place),
              has,
            )
      ]

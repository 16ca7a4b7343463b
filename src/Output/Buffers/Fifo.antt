-- ===== src/Output/Buffers/Fifo.antt =====
-- Any interleaving of the two threads passes the buffers on in order, and never lets both threads
-- work on one buffer.
use mptsd.Base.{
  ◌≡◌, ◌≢◌, refl, ◌⊎◌, inl, inr, true, false, not, List, [], ◌∷◌, ◌++◌, append_assoc, none, some,
  Bytes, arith, if◌then◌else◌, Bool-cases,
}
use mptsd.Output.{ObufStatus, obuf_empty, obuf_filling, obuf_full, obuf_emptying, Obuf, obuf_reset}
use mptsd.Output.Buffers.{
  Duo, obuf, new_duo, Action, mix_begins, mix_ends, write_begins, write_ends, mix_begin, mix_end,
  write_begin, write_end, step,
}

-- A sequence of steps, with the fillings that went in and the ones that came out.
pub record History : Type 0 where
  pub duo : Duo
  pub filled : List (List Bytes)
  pub written : List (List Bytes)

abbrev note_in : Action → List (List Bytes) → List (List Bytes)
note_in (mix_ends packets) fs = fs ++ packets ∷ []
note_in mix_begins fs = fs
note_in write_begins fs = fs
note_in write_ends fs = fs

abbrev note_out : Duo → Action → List (List Bytes) → List (List Bytes)
note_out d write_ends ws = ws ++ (obuf d d.write_in_use).buf ∷ []
note_out d (mix_ends packets) ws = ws
note_out d mix_begins ws = ws
note_out d write_begins ws = ws

-- Steps that cannot be taken are waited for: the history stays as it is.
unfoldable pub act : History → Action → History
act h a = elim (step h.duo a) [
  | none ↦ h
  | some d ↦ record { duo = d; filled = note_in a h.filled; written = note_out h.duo a h.written }
]

unfoldable pub run : History → List Action → History
run h [] = h
run h (a ∷ as') = run (act h a) as'

-- What a buffer's status is while the mixing thread has it, and while the writing thread has it.
abbrev mix_status : Duo → ObufStatus
mix_status d = if d.mixing then obuf_filling else obuf_empty

abbrev write_status : Duo → ObufStatus
write_status d = if d.writing then obuf_emptying else obuf_full

-- No, one or two buffers wait to be written.
data Shape (h : History) : Type 0 where
  drained :
      h.duo.mix_in_use ≡ h.duo.write_in_use
      → h.duo.writing ≡ false
      → (obuf h.duo h.duo.mix_in_use).status ≡ mix_status h.duo
      → (obuf h.duo (not h.duo.mix_in_use)).status ≡ obuf_empty
      → h.filled ≡ h.written
      → Shape h
  single :
      h.duo.mix_in_use ≡ not h.duo.write_in_use
      → (obuf h.duo h.duo.mix_in_use).status ≡ mix_status h.duo
      → (obuf h.duo h.duo.write_in_use).status ≡ write_status h.duo
      → h.filled ≡ h.written ++ (obuf h.duo h.duo.write_in_use).buf ∷ []
      → Shape h
  double :
      h.duo.mix_in_use ≡ h.duo.write_in_use
      → h.duo.mixing ≡ false
      → (obuf h.duo h.duo.write_in_use).status ≡ write_status h.duo
      → (obuf h.duo (not h.duo.write_in_use)).status ≡ obuf_full
      → h.filled
        ≡ h.written
          ++ (obuf h.duo h.duo.write_in_use).buf ∷ (obuf h.duo (not h.duo.write_in_use)).buf ∷ []
      → Shape h

drained-act :
    (h : History) (a : Action)
    → h.duo.mix_in_use ≡ h.duo.write_in_use
    → h.duo.writing ≡ false
    → (obuf h.duo h.duo.mix_in_use).status ≡ mix_status h.duo
    → (obuf h.duo (not h.duo.mix_in_use)).status ≡ obuf_empty
    → h.filled ≡ h.written
    → Shape (act h a)
unfolding act step mix_begin mix_end write_begin write_end
drained-act h mix_begins e w s o f =
    drained (ground arith) (ground arith) (ground arith) (ground arith) (ground arith)
drained-act h (mix_ends ps) e w s o f = elim (Bool-cases h.duo.mixing) [
  | inl busy ↦ single (ground arith) (ground arith) (ground arith) (ground arith)
  | inr idle ↦ drained (ground arith) (ground arith) (ground arith) (ground arith) (ground arith)
]
drained-act h write_begins e w s o f =
    drained (ground arith) (ground arith) (ground arith) (ground arith) (ground arith)
drained-act h write_ends e w s o f =
    drained (ground arith) (ground arith) (ground arith) (ground arith) (ground arith)

single-act :
    (h : History) (a : Action)
    → h.duo.mix_in_use ≡ not h.duo.write_in_use
    → (obuf h.duo h.duo.mix_in_use).status ≡ mix_status h.duo
    → (obuf h.duo h.duo.write_in_use).status ≡ write_status h.duo
    → h.filled ≡ h.written ++ (obuf h.duo h.duo.write_in_use).buf ∷ []
    → Shape (act h a)
unfolding act step mix_begin mix_end write_begin write_end obuf_reset
single-act h mix_begins e m w f = single (ground arith) (ground arith) (ground arith) (ground arith)
single-act h (mix_ends ps) e m w f = elim (Bool-cases h.duo.mixing) [
  | inl busy ↦
      double (ground arith) (ground arith) (ground arith) (ground arith) (
        ground (arith, append_assoc h.written ((obuf h.duo h.duo.write_in_use).buf ∷ []) (ps ∷ [])))
  | inr idle ↦ single (ground arith) (ground arith) (ground arith) (ground arith)
]
single-act h write_begins e m w f =
    single (ground arith) (ground arith) (ground arith) (ground arith)
single-act h write_ends e m w f = elim (Bool-cases h.duo.writing) [
  | inl busy ↦ drained (ground arith) (ground arith) (ground arith) (ground arith) (ground arith)
  | inr idle ↦ single (ground arith) (ground arith) (ground arith) (ground arith)
]

double-act :
    (h : History) (a : Action)
    → h.duo.mix_in_use ≡ h.duo.write_in_use
    → h.duo.mixing ≡ false
    → (obuf h.duo h.duo.write_in_use).status ≡ write_status h.duo
    → (obuf h.duo (not h.duo.write_in_use)).status ≡ obuf_full
    → h.filled
      ≡ h.written
        ++ (obuf h.duo h.duo.write_in_use).buf ∷ (obuf h.duo (not h.duo.write_in_use)).buf ∷ []
    → Shape (act h a)
unfolding act step mix_begin mix_end write_begin write_end obuf_reset
double-act h mix_begins e m w o f =
    double (ground arith) (ground arith) (ground arith) (ground arith) (ground arith)
double-act h (mix_ends ps) e m w o f =
    double (ground arith) (ground arith) (ground arith) (ground arith) (ground arith)
double-act h write_begins e m w o f =
    double (ground arith) (ground arith) (ground arith) (ground arith) (ground arith)
double-act h write_ends e m w o f = elim (Bool-cases h.duo.writing) [
  | inl busy ↦ single (ground arith) (ground arith) (ground arith) (
      ground (
        arith,
        append_assoc h.written ((obuf h.duo h.duo.write_in_use).buf ∷ [])
            ((obuf h.duo (not h.duo.write_in_use)).buf ∷ []),
      ))
  | inr idle ↦ double (ground arith) (ground arith) (ground arith) (ground arith) (ground arith)
]

act-Shape : (h : History) (a : Action) → Shape h → Shape (act h a)
act-Shape h a (drained e w s o f) = drained-act h a e w s o f
act-Shape h a (single e m w f) = single-act h a e m w f
act-Shape h a (double e m w o f) = double-act h a e m w o f

run-Shape : (as' : List Action) (h : History) → Shape h → Shape (run h as')
unfolding run
run-Shape [] h s = s
run-Shape (a ∷ as') h s = run-Shape as' (act h a) (act-Shape h a s)

abbrev pub start : Obuf → Obuf → History
start ob0 ob1 = record { duo = new_duo ob0 ob1; filled = []; written = [] }

start-Shape :
    (ob0 ob1 : Obuf) → ob0.status ≡ obuf_empty → ob1.status ≡ obuf_empty → Shape (start ob0 ob1)
start-Shape ob0 ob1 e0 e1 = drained refl refl e0 e1 refl

-- The fillings that are not yet written: none, one or two.
pub record Ordered (h : History) : Type 0 where
  pub exclusive : h.duo.mixing ≡ true → h.duo.writing ≡ true → h.duo.mix_in_use ≢ h.duo.write_in_use
  pub in_order :
      (h.filled ≡ h.written)
      ⊎ ((h.filled ≡ h.written ++ (obuf h.duo h.duo.write_in_use).buf ∷ [])
          ⊎ (h.filled
              ≡ h.written
                ++ (obuf h.duo h.duo.write_in_use).buf
                  ∷ (obuf h.duo (not h.duo.write_in_use)).buf
                  ∷ []))
  -- not both threads are at a standstill
  pub progress :
      (step h.duo mix_begins ≢ none)
      ⊎ ((step h.duo write_begins ≢ none) ⊎ ((h.duo.mixing ≡ true) ⊎ (h.duo.writing ≡ true)))

Shape-Ordered : (h : History) → Shape h → Ordered h
unfolding step mix_begin write_begin
Shape-Ordered h (drained e w s o f) = record {
  exclusive = λ a b. ground arith;
  in_order = inl f;
  progress = ground arith;
}
Shape-Ordered h (single e m w f) = record {
  exclusive = λ a b. ground arith;
  in_order = inr (inl f);
  progress = ground arith;
}
Shape-Ordered h (double e m w o f) = record {
  exclusive = λ a b. ground arith;
  in_order = inr (inr f);
  progress = ground arith;
}

-- From two empty buffers, whatever the order in which the threads run: they never work on the same
-- buffer at once, the buffers that were written are those that were filled, in order and unchanged,
-- but for at most the two that still wait, and one of the threads can always go on.
pub run-Ordered :
    (ob0 ob1 : Obuf) (as' : List Action)
    → ob0.status ≡ obuf_empty
    → ob1.status ≡ obuf_empty
    → Ordered (run (start ob0 ob1) as')
run-Ordered ob0 ob1 as' e0 e1 =
    Shape-Ordered (run (start ob0 ob1) as')
      (run-Shape as' (start ob0 ob1) (start-Shape ob0 ob1 e0 e1))

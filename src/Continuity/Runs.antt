-- ===== src/Continuity/Runs.antt =====
-- The counters that a run of stamped packets carries.
use mptsd.Base.{
  ℕ, zero, suc, ◌+◌, ◌%◌, ◌≡◌, refl, sym, ◌∙◌, ap, ap₂, List, [], ◌∷◌, ◌++◌, map, Bytes, length,
  length-append, arith,
}
use mathlib.Core.List.{flatten, map-append}
use mptsd.Continuity.{stamp_packets, next_cont}

-- `n` counters from `c` on, going round after 15.
unfoldable pub counters : ℕ → ℕ → List ℕ
counters c zero = []
counters c (suc n) = c % 16 ∷ counters (c + 1) n

counters_mod : (c n : ℕ) → counters (c % 16) n ≡ counters c n
unfolding counters
counters_mod c zero = refl
counters_mod c (suc n) = ap₂ ◌∷◌ (omega arith) (
    sym (counters_mod (c % 16 + 1) n)
    ∙ ap (λ t. counters t n) (omega arith)
    ∙ counters_mod (c + 1) n)

counters-append : (c m n : ℕ) → counters c (m + n) ≡ counters c m ++ counters ((c + m) % 16) n
unfolding counters
counters-append c zero n =
    let left : 0 + n ≡ n = omega arith in
    let right : (c + 0) % 16 ≡ c % 16 = omega arith in
    ap (counters c) left ∙ sym (ap (λ t. counters t n) right ∙ counters_mod c n)
counters-append c (suc m) n =
    let left : suc m + n ≡ suc (m + n) = omega arith in
    let right : (c + 1 + m) % 16 ≡ (c + suc m) % 16 = omega arith in
    ap (counters c) left
    ∙ ap (◌∷◌ (c % 16))
        (counters-append (c + 1) m n ∙ ap (λ t. counters (c + 1) m ++ counters t n) right)

length-stamp_packets :
    (set_cont : Bytes → ℕ → Bytes) (cont j : ℕ) (ps : List Bytes)
    → length (stamp_packets set_cont cont j ps) ≡ length ps
unfolding stamp_packets
length-stamp_packets set_cont cont j [] = refl
length-stamp_packets set_cont cont j (p ∷ ps) =
    ap suc (length-stamp_packets set_cont cont (j + 1) ps)

-- What is read from a stamped packet is the value that was written, in four bits.
abbrev pub ReadsBack : (Bytes → ℕ → Bytes) → (Bytes → ℕ) → Type 0
ReadsBack set_cont get_cont = (p : Bytes) (v : ℕ) → get_cont (set_cont p v) ≡ v % 16

stamp_packets-counters :
    (set_cont : Bytes → ℕ → Bytes) (get_cont : Bytes → ℕ)
    → ReadsBack set_cont get_cont
    → (cont j : ℕ) (ps : List Bytes)
    → map get_cont (stamp_packets set_cont cont j ps) ≡ counters (j + cont) (length ps)
unfolding stamp_packets counters
stamp_packets-counters set_cont get_cont law cont j [] = refl
stamp_packets-counters set_cont get_cont law cont j (p ∷ ps) = ap₂ ◌∷◌ (law p (j + cont)) (
    stamp_packets-counters set_cont get_cont law cont (j + 1) ps
    ∙ ap (λ t. counters t (length ps)) (omega arith))

-- Every section in turn, with the counter that the one before leaves.
unfoldable pub send_all : (Bytes → ℕ → Bytes) → ℕ → List (List Bytes) → List Bytes
send_all set_cont cont [] = []
send_all set_cont cont (ps ∷ sections) =
    stamp_packets set_cont cont 0 ps ++ send_all set_cont (next_cont cont ps) sections

-- The packets of all sections that are sent on one identifier carry counters without a gap, from the
-- first value on and going round after 15, when a packet's counter reads back as it was set.
pub send_all-counters :
    (set_cont : Bytes → ℕ → Bytes) (get_cont : Bytes → ℕ)
    → ReadsBack set_cont get_cont
    → (cont : ℕ) (sections : List (List Bytes))
    → map get_cont (send_all set_cont cont sections) ≡ counters cont (length (flatten sections))
unfolding send_all counters flatten
send_all-counters set_cont get_cont law cont [] = refl
send_all-counters set_cont get_cont law cont (ps ∷ sections) =
    map-append get_cont (stamp_packets set_cont cont 0 ps) _
    ∙ ap₂ ◌++◌
        (stamp_packets-counters set_cont get_cont law cont 0 ps
          ∙ ap (λ t. counters t (length ps)) first)
        (send_all-counters set_cont get_cont law (next_cont cont ps) sections)
    ∙ sym (
        ap (counters cont) (length-append ps (flatten sections))
        ∙ counters-append cont (length ps) (length (flatten sections)))
  where
    first : 0 + cont ≡ cont
    first = omega arith

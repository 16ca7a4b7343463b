-- ===== src/Output/Mix/Places.antt =====
-- Packets that lie in some places of an output buffer, in order.
use mptsd.Base.{ℕ, zero, suc, ◌≤◌, ◌<◌, List, [], ◌∷◌, ◌++◌, Bytes, length, set, arith}

-- `buf` is `old` with the packets `ds` in order in some of its first `n` places.
pub data Spread : ℕ → List Bytes → List Bytes → List Bytes → Type 0 where
  rest : {old : List Bytes} → Spread 0 [] old old
  kept :
      {n : ℕ} {ds old buf : List Bytes} {p : Bytes}
      → Spread n ds old buf
      → Spread (suc n) ds (p ∷ old) (p ∷ buf)
  placed :
      {n : ℕ} {ds old buf : List Bytes} {p d : Bytes}
      → Spread n ds old buf
      → Spread (suc n) (d ∷ ds) (p ∷ old) (d ∷ buf)

first_place :
    (pos : ℕ) (old : List Bytes) (d : Bytes)
    → pos < length old
    → Spread (suc pos) (d ∷ []) old (set old pos d)
first_place pos [] d h = absurd (omega arith)
first_place zero (p ∷ old) d h = placed rest
first_place (suc pos) (p ∷ old) d h = kept (first_place pos old d (omega arith))

-- The next packet goes behind the others.
pub next_place :
    {n : ℕ} {ds old buf : List Bytes} (pos : ℕ) (d : Bytes)
    → Spread n ds old buf
    → n ≤ pos
    → pos < length old
    → Spread (suc pos) (ds ++ d ∷ []) old (set buf pos d)
next_place pos d rest h l = first_place pos _ d l
next_place zero d (kept s) h l = absurd (omega arith)
next_place (suc pos) d (kept s) h l = kept (next_place pos d s (omega arith) (omega arith))
next_place zero d (placed s) h l = absurd (omega arith)
next_place (suc pos) d (placed s) h l = placed (next_place pos d s (omega arith) (omega arith))

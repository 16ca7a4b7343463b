-- ===== src/Base/Text.antt =====
-- C strings: the bytes before the terminating zero, as a list of numbers.
use Prim.Native.Nat.{ℕ}
use Prim.Native.Char.{code}
use Prim.Native.String.{String}
use mathlib.Core.Path.{◌≡◌, refl, sym, ap₂, subst}
use mathlib.Core.Logic.{◌↔◌}
use mathlib.Core.Bool.{Bool, true, false, ◌&&◌}
use mathlib.Core.List.{List, [], ◌∷◌, ◌++◌}
use native.Mathlib.Omega.{arith}
use mptsd.Base.Tests.{◌==◌}

abbrev pub CString : Type 0
CString = List ℕ

abbrev pub codes : String → CString
codes String.[] = []
codes (String.◌∷◌ c s) = code c ∷ codes s

-- strcmp(s, t) == 0
unfoldable pub str_eq : CString → CString → Bool
str_eq [] [] = true
str_eq [] (y ∷ ys) = false
str_eq (x ∷ xs) [] = false
str_eq (x ∷ xs) (y ∷ ys) = x == y && str_eq xs ys

pub str_eq_refl : (s : CString) → str_eq s s ≡ true
unfolding str_eq
str_eq_refl [] = refl
str_eq_refl (x ∷ xs) = ground (arith, str_eq_refl xs)

pub eq_of_str_eq : (s t : CString) → str_eq s t ≡ true → s ≡ t
unfolding str_eq
eq_of_str_eq [] [] h = refl
eq_of_str_eq [] (y ∷ ys) h = ground arith
eq_of_str_eq (x ∷ xs) [] h = ground arith
eq_of_str_eq (x ∷ xs) (y ∷ ys) h = ground (arith, eq_of_str_eq xs ys)

-- strncmp(s, t, strlen(t)) == 0
unfoldable pub has_prefix : CString → CString → Bool
has_prefix s [] = true
has_prefix [] (y ∷ ys) = false
has_prefix (x ∷ xs) (y ∷ ys) = x == y && has_prefix xs ys

rest_of_prefix : (s t : CString) → has_prefix s t ≡ true → (rest : CString) × (s ≡ t ++ rest)
unfolding has_prefix
rest_of_prefix s [] h = (s, refl)
rest_of_prefix [] (y ∷ ys) h = absurd (cc)
rest_of_prefix (x ∷ xs) (y ∷ ys) h =
    let same : x ≡ y = ground arith in
    let (rest, e) = rest_of_prefix xs ys (ground arith) in (rest, ap₂ ◌∷◌ same e)

has_prefix-append : (t rest : CString) → has_prefix (t ++ rest) t ≡ true
unfolding has_prefix
has_prefix-append [] rest = refl
has_prefix-append (y ∷ ys) rest = ground (arith, has_prefix-append ys rest)

pub has_prefix_iff :
    (s t : CString) → (has_prefix s t ≡ true) ↔ ((rest : CString) × (s ≡ t ++ rest))
has_prefix_iff s t = (
  rest_of_prefix s t,
  λ p. subst (λ u. has_prefix u t ≡ true) (sym p.1) (has_prefix-append t p.0),
)

pub str_eq-false_sym : (s t : CString) → str_eq s t ≡ false → str_eq t s ≡ false
unfolding str_eq
str_eq-false_sym [] [] h = h
str_eq-false_sym [] (y ∷ ys) h = refl
str_eq-false_sym (x ∷ xs) [] h = refl
str_eq-false_sym (x ∷ xs) (y ∷ ys) h = ground (arith, str_eq-false_sym xs ys)

-- ===== src/Base/Int.antt =====
-- Signed numbers as C reads them from a text; `negsuc n` is -(n + 1).
use Prim.Native.Nat.{ℕ, zero, suc, ◌+◌, ◌-◌, ◌*◌, ◌%◌, ◌^◌}
use mathlib.Core.Bool.{Bool, true, false, ◌&&◌, ◌||◌}
use mathlib.Core.List.{[], ◌∷◌}
use mptsd.Base.Tests.{leb, ltb, ◌==◌, if◌then◌else◌}
use mptsd.Base.Text.{CString}

pub data ℤ : Type 0 where
  pos : ℕ → ℤ
  negsuc : ℕ → ℤ

abbrev pub negate : ℕ → ℤ
negate zero = pos 0
negate (suc n) = negsuc n

abbrev pub is_zero : ℤ → Bool
is_zero (pos n) = n == 0
is_zero (negsuc n) = false

-- z == n
abbrev pub is_number : ℤ → ℕ → Bool
is_number (pos m) n = m == n
is_number (negsuc m) n = false

-- z < n
abbrev pub is_below : ℤ → ℕ → Bool
is_below (pos m) n = ltb m n
is_below (negsuc m) n = true

-- (uint32_t) z
abbrev pub to_u32 : ℤ → ℕ
to_u32 (pos n) = n % 2 ^ 32
to_u32 (negsuc n) = 2 ^ 32 - 1 - n % 2 ^ 32

-- The number that a text begins with.
unfoldable pub leading_digits : ℕ → CString → ℕ
leading_digits acc [] = acc
leading_digits acc (d ∷ ds) =
    let more = leading_digits (acc * 10 + (d - b'0')) ds in
    if leb b'0' d && leb d b'9' then more else acc

-- What isspace skips.
unfoldable pub skip_spaces : CString → CString
skip_spaces [] = []
skip_spaces (c ∷ s) =
    let rest = skip_spaces s in if c == 32 || (leb 9 c && leb c 13) then rest else c ∷ s

unfoldable pub signed_value : CString → ℤ
unfolding leading_digits
signed_value [] = pos 0
signed_value (c ∷ s) =
    if c == b'-'
    then negate (leading_digits 0 s)
    else if c == b'+'
    then pos (leading_digits 0 s)
    else pos (leading_digits 0 (c ∷ s))

-- atoi, for a number that an int holds
unfoldable pub atoi : CString → ℤ
unfolding skip_spaces signed_value
atoi s = signed_value (skip_spaces s)

-- (uint32_t) strtoul(s, NULL, 10), for a number that an unsigned long holds
unfoldable pub strtoul_u32 : CString → ℕ
unfolding atoi
strtoul_u32 s = to_u32 (atoi s)

-- ===== src/Pidref/Delete.antt =====
-- What lookups see after `pidref_add` and `pidref_del`.
use mptsd.Base.{
  ℕ, ◌≡◌, refl, ◌≢◌, Bool, true, false, List, [], ◌∷◌, ◌++◌, Option, none, some, arith, ◌==◌,
  if◌then◌else◌, length, ◌||◌, Bool-cases, inl, inr,
}
use mathlib.Core.Option
use mptsd.Pidref.{PidrefEntry, Pidref, del_entry, pidref_del, pidref_get_new_pid}
use mptsd.Pidref.Table.{Rewrites, lookup_pid, used, rewrites, find_entry_lem}

unfoldable pub has_pid : ℕ → Rewrites → Bool
has_pid p [] = false
has_pid p ((o, n) ∷ rs) = o == p || has_pid p rs

pub lookup_pid-snoc :
    (p o n : ℕ) (rs : Rewrites)
    → lookup_pid p (rs ++ (o, n) ∷ [])
      ≡ (if has_pid p rs then lookup_pid p rs else if o == p then n else 0)
unfolding lookup_pid has_pid
lookup_pid-snoc p o n [] = refl
lookup_pid-snoc p o n ((a, b) ∷ rs) = ground (arith, lookup_pid-snoc p o n rs)

pub has_pid-snoc :
    (p o n : ℕ) (rs : Rewrites) → has_pid p (rs ++ (o, n) ∷ []) ≡ (has_pid p rs || o == p)
unfolding has_pid
has_pid-snoc p o n [] = ground arith
has_pid-snoc p o n ((a, b) ∷ rs) = ground (arith, has_pid-snoc p o n rs)

-- The rewrites without the first one of an identifier.
unfoldable pub erase_pid : ℕ → Rewrites → Rewrites
erase_pid p [] = []
erase_pid p ((o, n) ∷ rs) = if o == p then rs else (o, n) ∷ erase_pid p rs

erase_pid_absent : (p : ℕ) (rs : Rewrites) → has_pid p rs ≡ false → erase_pid p rs ≡ rs
unfolding has_pid erase_pid
erase_pid_absent p [] h = refl
erase_pid_absent p ((o, n) ∷ rs) h = ground (arith, erase_pid_absent p rs)

abbrev Deleted : List PidrefEntry → ℕ → Option (List PidrefEntry) → Type 0
Deleted es o none = has_pid o (used es) ≡ false
Deleted es o (some es') =
    (has_pid o (used es) ≡ true) × (used es' ≡ erase_pid o (used es)) × (length es' ≡ length es)

Deleted-cons :
    (e : PidrefEntry) (es : List PidrefEntry) (o : ℕ) (r : Option (List PidrefEntry))
    → e.org_pid ≢ o
    → Deleted es o r
    → Deleted (e ∷ es) o (Option.map (◌∷◌ e) r)
unfolding used has_pid erase_pid
Deleted-cons e es o none h a = ground arith
Deleted-cons e es o (some es') h a = ground arith

del_entry-Deleted : (es : List PidrefEntry) (o : ℕ) → o ≢ 0 → Deleted es o (del_entry es o)
unfolding del_entry used has_pid erase_pid
del_entry-Deleted [] o h = refl
del_entry-Deleted (e ∷ es) o h = elim (Bool-cases (e.org_pid == o)) [
  | inl hit ↦ rw hit (ground arith)
  | inr miss ↦
      rw miss (Deleted-cons e es o (del_entry es o) (ground arith) (del_entry-Deleted es o h))
]

-- `pidref_del` of an identifier other than 0 removes its first rewrite and returns 1 if there is one,
-- returns 0 and changes nothing otherwise, and keeps the number of entries.
pub pidref_del_lem :
    (ref : Pidref) (o : ℕ)
    → o ≢ 0
    → ((pidref_del ref o).0 ≡ (if has_pid o (rewrites ref) then 1 else 0))
      × (rewrites (pidref_del ref o).1 ≡ erase_pid o (rewrites ref))
      × (length (pidref_del ref o).1.entries ≡ length ref.entries)
      × ((pidref_del ref o).1.base_pid ≡ ref.base_pid)
unfolding pidref_del
pidref_del_lem ref o h = go (del_entry ref.entries o) refl (del_entry-Deleted ref.entries o h)
  where
    go :
        (r : Option (List PidrefEntry))
        → del_entry ref.entries o ≡ r
        → Deleted ref.entries o r
        → ((pidref_del ref o).0 ≡ (if has_pid o (rewrites ref) then 1 else 0))
          × (rewrites (pidref_del ref o).1 ≡ erase_pid o (rewrites ref))
          × (length (pidref_del ref o).1.entries ≡ length ref.entries)
          × ((pidref_del ref o).1.base_pid ≡ ref.base_pid)
    go none e a = ground (arith, erase_pid_absent o (rewrites ref))
    go (some es) e a = ground arith

-- The erased identifier is gone, if the table held it once.
lookup_pid-erase_pid_ne :
    (p o : ℕ) (rs : Rewrites) → p ≢ o → lookup_pid p (erase_pid o rs) ≡ lookup_pid p rs
unfolding lookup_pid erase_pid
lookup_pid-erase_pid_ne p o [] h = refl
lookup_pid-erase_pid_ne p o ((a, b) ∷ rs) h = ground (arith, lookup_pid-erase_pid_ne p o rs)

-- Deleting one identifier leaves every other rewrite as it was.
pub pidref_get_new_pid-pidref_del :
    (ref : Pidref) (o p : ℕ)
    → o ≢ 0
    → p ≢ o
    → pidref_get_new_pid (pidref_del ref o).1 p ≡ pidref_get_new_pid ref p
unfolding pidref_get_new_pid
pidref_get_new_pid-pidref_del ref o p h ne = ground (
  arith,
  find_entry_lem ref.entries p,
  find_entry_lem (pidref_del ref o).1.entries p,
  pidref_del_lem ref o h,
  lookup_pid-erase_pid_ne p o (rewrites ref),
)

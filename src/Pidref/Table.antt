-- ===== src/Pidref/Table.antt =====
-- The table of pidref.c seen as a list of rewrites, oldest first.
use mptsd.Base.{
  ℕ, suc, ◌<◌, ◌≡◌, refl, ◌≢◌, List, [], ◌∷◌, ◌++◌, Option, none, some, arith, ◌==◌, if◌then◌else◌,
  length, length-replicate, replicate, All, Bool-cases, inl, inr,
}
use mathlib.Core.Option
use mptsd.Pidref.{
  PidrefEntry, Pidref, free_entry, pidref_init, add_entry, pidref_add, find_entry,
  pidref_get_new_pid,
}

-- The abstract table: which identifier becomes which, the first entry of an identifier counts.
abbrev pub Rewrites : Type 0
Rewrites = List (ℕ × ℕ)

unfoldable pub lookup_pid : ℕ → Rewrites → ℕ
lookup_pid p [] = 0
lookup_pid p ((o, n) ∷ rs) = if o == p then n else lookup_pid p rs

unfoldable pub used : List PidrefEntry → Rewrites
used [] = []
used (e ∷ es) = if e.org_pid == 0 then used es else (e.org_pid, e.new_pid) ∷ used es

abbrev pub rewrites : Pidref → Rewrites
rewrites ref = used ref.entries

-- All entries from here on are free.
abbrev pub AllFree : List PidrefEntry → Type 0
AllFree = All (λ e. e.org_pid ≡ 0)

-- No free entry stands before a used one.
abbrev pub Packed : List PidrefEntry → Type 0
Packed [] = Unit {0}
Packed (e ∷ es) = (e.org_pid ≡ 0 → AllFree es) × Packed es

pub record IsValid (ref : Pidref) : Type 0 where
  pub places : length ref.entries ≡ ref.num
  pub packed : Packed ref.entries

AllFree-used : (es : List PidrefEntry) → AllFree es → used es ≡ []
unfolding used
AllFree-used [] h = refl
AllFree-used (e ∷ es) h = ground (arith, AllFree-used es h.1)

AllFree-replicate : (n : ℕ) → AllFree (replicate n free_entry)
AllFree-replicate ℕ.zero = tt
AllFree-replicate (suc n) = (refl, AllFree-replicate n)

Packed-replicate : (n : ℕ) → Packed (replicate n free_entry)
Packed-replicate ℕ.zero = tt
Packed-replicate (suc n) = (λ _. AllFree-replicate n, Packed-replicate n)

-- A new table is valid, maps nothing, and starts at the base identifier.
pub pidref_init-IsValid :
    (num base : ℕ)
    → IsValid (pidref_init num base)
      × (rewrites (pidref_init num base) ≡ [])
      × ((pidref_init num base).base_pid ≡ base)
unfolding pidref_init
pidref_init-IsValid num base = (
  record { places = length-replicate num free_entry; packed = Packed-replicate num },
  AllFree-used (replicate num free_entry) (AllFree-replicate num),
  refl,
)

pub find_entry_lem :
    (es : List PidrefEntry) (p : ℕ) → p ≢ 0 → find_entry es p ≡ lookup_pid p (used es)
unfolding find_entry lookup_pid used
find_entry_lem [] p h = refl
find_entry_lem (e ∷ es) p h = ground (arith, find_entry_lem es p h)

-- The lookup finds the first rewrite of an identifier, and 0 for what the table does not hold.
pub pidref_get_new_pid_lem :
    (ref : Pidref) (p : ℕ) → p ≢ 0 → pidref_get_new_pid ref p ≡ lookup_pid p (rewrites ref)
unfolding pidref_get_new_pid
pidref_get_new_pid_lem ref p h = ground (arith, find_entry_lem ref.entries p h)

-- What `add_entry` does to a packed array.
abbrev Added : List PidrefEntry → ℕ → ℕ → Option (List PidrefEntry) → Type 0
Added es o n none = length (used es) ≡ length es
Added es o n (some es') =
    (length (used es) < length es)
    × (used es' ≡ used es ++ (o, n) ∷ [])
    × Packed es'
    × (length es' ≡ length es)

Added-cons :
    (e : PidrefEntry) (es : List PidrefEntry) (o n : ℕ) (r : Option (List PidrefEntry))
    → e.org_pid ≢ 0
    → Added es o n r
    → Added (e ∷ es) o n (Option.map (◌∷◌ e) r)
unfolding used
Added-cons e es o n none h a = ground arith
Added-cons e es o n (some es') h a = ground arith

add_entry-Added :
    (es : List PidrefEntry) (o n : ℕ) → o ≢ 0 → Packed es → Added es o n (add_entry es o n)
unfolding add_entry used
add_entry-Added [] o n h p = refl
add_entry-Added (e ∷ es) o n h p = elim (Bool-cases (e.org_pid == 0)) [
  | inl free ↦ rw free (ground (arith, AllFree-used es))
  | inr taken ↦
      rw taken
        (Added-cons e es o n (add_entry es o n) (ground arith) (add_entry-Added es o n h p.1))
]

-- The specification of `pidref_add` on a valid table.
pub record Adds (ref : Pidref) (o n : ℕ) (res : ℕ × Pidref) : Type 0 where
  pub room :
      length (rewrites ref) < ref.num → (res.0 ≡ 1) × (rewrites res.1 ≡ rewrites ref ++ (o, n) ∷ [])
  pub full : length (rewrites ref) ≡ ref.num → res ≡ (0, ref)
  pub valid : IsValid res.1
  pub base_kept : res.1.base_pid ≡ ref.base_pid
  pub num_kept : res.1.num ≡ ref.num

-- `pidref_add` of an identifier other than 0 appends one rewrite and returns 1 while there is room,
-- returns 0 and changes nothing when all entries are used, and keeps the table valid.
pub pidref_add_lem :
    (ref : Pidref) (o n : ℕ) → o ≢ 0 → IsValid ref → Adds ref o n (pidref_add ref o n)
unfolding pidref_add
pidref_add_lem ref o n h v =
    go (add_entry ref.entries o n) refl (add_entry-Added ref.entries o n h v.packed)
  where
    go :
        (r : Option (List PidrefEntry))
        → add_entry ref.entries o n ≡ r
        → Added ref.entries o n r
        → Adds ref o n (pidref_add ref o n)
    go none e a = ground arith
    go (some es) e a = ground arith

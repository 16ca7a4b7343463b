-- ===== src/Channel/Sources.antt =====
-- The source list of a channel: what `chansrc_add`, `chansrc_next` and `chansrc_set` keep.
use mptsd.Base.{
  ℕ, zero, suc, ◌+◌, ◌≤◌, ◌<◌, ◌≡◌, refl, ◌≢◌, List, [], ◌∷◌, Option, none, some, CString, length,
  set, get_or, arith, Bool, true, false, length-set, ◌⊎◌, inl, inr, if◌then◌else◌, ◌==◌, leb,
  Bool-cases, u8, ◌↔◌, ◌*◌,
}
use mptsd.Channel.{Channel, is_null, chansrc_add, chansrc_set, channel_new}

-- The first `n` places hold a source, and no other place does.
abbrev pub FilledTo : ℕ → List (Option CString) → Type 0
FilledTo n [] = n ≡ 0
FilledTo zero (x ∷ xs) = (x ≡ none) × FilledTo zero xs
FilledTo (suc n) (x ∷ xs) = (is_null x ≡ false) × FilledTo n xs

pub record IsValid (c : Channel) : Type 0 where
  pub places : length c.sources ≡ 8
  pub count : c.num_src ≤ 7
  pub filled : FilledTo c.num_src c.sources
  pub current : (c.curr_src < c.num_src) ⊎ ((c.num_src ≡ 0) × (c.curr_src ≡ 0))
  pub url : c.source ≡ get_or c.sources c.curr_src none

FilledTo-below :
    (n i : ℕ) (xs : List (Option CString))
    → FilledTo n xs
    → i < n
    → is_null (get_or xs i none) ≡ false
FilledTo-below n i [] h lt = absurd (omega arith)
FilledTo-below zero i (x ∷ xs) h lt = absurd (omega arith)
FilledTo-below (suc n) zero (x ∷ xs) h lt = h.0
FilledTo-below (suc n) (suc i) (x ∷ xs) h lt = FilledTo-below n i xs h.1 (omega arith)

FilledTo-above :
    (n i : ℕ) (xs : List (Option CString)) → FilledTo n xs → n ≤ i → get_or xs i none ≡ none
FilledTo-above n i [] h le = refl
FilledTo-above zero zero (x ∷ xs) h le = h.0
FilledTo-above zero (suc i) (x ∷ xs) h le = FilledTo-above zero i xs h.1 (omega arith)
FilledTo-above (suc n) zero (x ∷ xs) h le = absurd (omega arith)
FilledTo-above (suc n) (suc i) (x ∷ xs) h le = FilledTo-above n i xs h.1 (omega arith)

FilledTo-set :
    (n : ℕ) (xs : List (Option CString)) (s : CString)
    → FilledTo n xs
    → n < length xs
    → FilledTo (suc n) (set xs n (some s))
FilledTo-set n [] s h lt = absurd (omega arith)
FilledTo-set zero (x ∷ xs) s h lt = (refl, h.1)
FilledTo-set (suc n) (x ∷ xs) s h lt = (h.0, FilledTo-set n xs s h.1 (omega arith))

-- A place is taken exactly when its index is below the count.
pub is_null_iff_count :
    (c : Channel) (i : ℕ)
    → IsValid c
    → is_null (get_or c.sources i none) ≡ (if leb c.num_src i then true else false)
is_null_iff_count c i v = ground (
  arith,
  FilledTo-below c.num_src i c.sources v.filled,
  FilledTo-above c.num_src i c.sources v.filled,
)

get_or-set_self :
    (xs : List (Option CString)) (i : ℕ) (v : Option CString)
    → i < length xs
    → get_or (set xs i v) i none ≡ v
get_or-set_self [] i v h = absurd (omega arith)
get_or-set_self (x ∷ xs) zero v h = refl
get_or-set_self (x ∷ xs) (suc i) v h = get_or-set_self xs i v (omega arith)

get_or-set_ne :
    (xs : List (Option CString)) (i j : ℕ) (v : Option CString)
    → i ≢ j
    → get_or (set xs i v) j none ≡ get_or xs j none
get_or-set_ne [] i j v h = refl
get_or-set_ne (x ∷ xs) zero zero v h = absurd (h refl)
get_or-set_ne (x ∷ xs) zero (suc j) v h = refl
get_or-set_ne (x ∷ xs) (suc i) zero v h = refl
get_or-set_ne (x ∷ xs) (suc i) (suc j) v h = get_or-set_ne xs i j v (λ e. h (omega arith))

-- Adding a source keeps the list valid.
pub chansrc_add-IsValid : (c : Channel) (s : CString) → IsValid c → IsValid (chansrc_add c s)
unfolding chansrc_add
chansrc_add-IsValid c s v = elim (Bool-cases (leb 7 c.num_src)) [
  | inl full ↦ rw full v
  | inr room ↦ rw room (record {
    places = omega (arith, length-set c.sources c.num_src (some s), v.places);
    count = ground (arith, v.count);
    filled =
        rw (count room)
          (FilledTo-set c.num_src c.sources s v.filled (ground (arith, v.places, v.count)));
    current = ground (arith, v.current);
    url = ground (
      arith,
      v.current,
      v.url,
      v.places,
      get_or-set_self c.sources c.num_src (some s),
      get_or-set_ne c.sources c.num_src c.curr_src (some s),
    );
  })
]
  where
    count : leb 7 c.num_src ≡ false → u8 (c.num_src + 1) ≡ suc c.num_src
    count h = ground arith

-- Below seven sources the new one takes the next place and the others keep theirs; the first source
-- becomes current and a later one leaves the current source alone. A full list does not change.
pub chansrc_add_lem :
    (c : Channel) (s : CString)
    → IsValid c
    → (c.num_src ≡ 7 → chansrc_add c s ≡ c)
      × (c.num_src < 7
          → ((chansrc_add c s).num_src ≡ c.num_src + 1)
            × (get_or (chansrc_add c s).sources c.num_src none ≡ some s)
            × ((i : ℕ)
                → i ≢ c.num_src
                → get_or (chansrc_add c s).sources i none ≡ get_or c.sources i none)
            × ((chansrc_add c s).curr_src ≡ c.curr_src)
            × ((chansrc_add c s).source ≡ (if c.num_src == 0 then some s else c.source)))
unfolding chansrc_add
chansrc_add_lem c s v = (
  λ h. ground arith,
  λ h. (
    ground arith,
    ground (arith, v.places, get_or-set_self c.sources c.num_src (some s)),
    λ i ne. ground (arith, get_or-set_ne c.sources c.num_src i (some s)),
    ground arith,
    ground arith,
  ),
)

-- Selecting a source that the list holds makes it current; any other index changes nothing.
pub chansrc_set_lem :
    (c : Channel) (i : ℕ)
    → IsValid c
    → IsValid (chansrc_set c i)
      × ((chansrc_set c i).curr_src ≡ (if leb c.num_src i then c.curr_src else i))
unfolding chansrc_set
chansrc_set_lem c i v =
    ground (arith, is_null_iff_count c i v, v.places, v.count, v.filled, v.current, v.url)

-- A channel is made exactly for the indices 1 to 255; it is valid, with its one source current and
-- its packet identifiers starting at 32 times the index.
pub channel_new_lem :
    (service_id : ℕ) (radio : Bool) (id name : CString) (eit_mode : ℕ) (source : CString)
    (index lcn : ℕ) (visible : Bool)
    → (channel_new service_id radio id name eit_mode source index lcn visible ≡ none
        ↔ ((index ≡ 0) ⊎ (256 ≤ index)))
      × ((c : Channel)
          → channel_new service_id radio id name eit_mode source index lcn visible ≡ some c
          → IsValid c
            × (c.num_src ≡ 1)
            × (c.source ≡ some source)
            × (c.base_pid ≡ 32 * index)
            × (c.pmt_pid ≡ c.base_pid))
unfolding channel_new
channel_new_lem service_id radio id name eit_mode source index lcn visible =
    ((λ h. ground arith, λ h. ground arith), λ c h. ground arith)

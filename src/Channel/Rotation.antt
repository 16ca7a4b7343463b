-- ===== src/Channel/Rotation.antt =====
-- How `chansrc_next` goes round the sources of a channel.
use mptsd.Base.{
  ℕ, zero, suc, ◌+◌, ◌-◌, ◌*◌, ◌%◌, ◌≤◌, ◌<◌, ◌≡◌, refl, ◌∙◌, ap, arith, if◌then◌else◌, leb, ltb,
  Bool-cases, inl, inr,
}
use native.Mathlib.Nat.{mul-mod_right, mod-add-mod, mod-eq_of_lt}
use mptsd.Channel.{Channel, chansrc_next, chansrc_set}
use mptsd.Channel.Sources.{IsValid, is_null_iff_count, chansrc_set_lem}

next_index :
    (c : Channel)
    → IsValid c
    → 1 < c.num_src
    → (chansrc_next c).curr_src ≡ (if ltb (c.curr_src + 1) c.num_src then c.curr_src + 1 else 0)
unfolding chansrc_next
next_index c v h = ground (arith, is_null_iff_count c (c.curr_src + 1) v, v.count, v.current)

pub chansrc_next-IsValid : (c : Channel) → IsValid c → IsValid (chansrc_next c)
unfolding chansrc_next
chansrc_next-IsValid c v = elim (Bool-cases (leb c.num_src 1)) [
  | inl single ↦ rw single v
  | inr many ↦ rw many (record {
    places = v.places;
    count = v.count;
    filled = v.filled;
    current = ground (arith, v.current, v.count, is_null_iff_count c (c.curr_src + 1) v);
    url = refl;
  })
]

num_src-chansrc_next : (c : Channel) → (chansrc_next c).num_src ≡ c.num_src
unfolding chansrc_next
num_src-chansrc_next c = ground arith

mod_self : (n : ℕ) → n % n ≡ 0
mod_self n = let e : n ≡ n * 1 = omega arith in ap (λ t. t % n) e ∙ mul-mod_right n 1

wrap_index : (i n : ℕ) → i < n → (if ltb (i + 1) n then i + 1 else 0) ≡ (i + 1) % n
wrap_index i n h = ground (arith, mod-eq_of_lt {n = i + 1} {m = n}, last)
  where
    last : i + 1 ≡ n → (i + 1) % n ≡ 0
    last e = rw e (mod_self n)

single_index : (c : Channel) → c.num_src ≡ 1 → (chansrc_next c).curr_src ≡ c.curr_src
unfolding chansrc_next
single_index c h = ground arith

-- The next source follows the current one and the first follows the last; the list stays valid, so
-- that the source to connect to is the one at the new index.
pub chansrc_next_lem :
    (c : Channel)
    → IsValid c
    → 1 ≤ c.num_src
    → IsValid (chansrc_next c)
      × ((chansrc_next c).num_src ≡ c.num_src)
      × ((chansrc_next c).curr_src ≡ (c.curr_src + 1) % c.num_src)
chansrc_next_lem c v h = (
  chansrc_next-IsValid c v,
  num_src-chansrc_next c,
  ground (arith, next_index c v, single_index c, wrap_index c.curr_src c.num_src, v.current, one),
)
  where
    one : c.num_src ≡ 1 → (c.curr_src + 1) % c.num_src ≡ 0
    one e = rw e (omega arith)

-- `k` reconnections in a row.
unfoldable pub rotate : ℕ → Channel → Channel
rotate zero c = c
rotate (suc k) c = rotate k (chansrc_next c)

-- After `k` reconnections the current source is the one `k` places further round the list, so that
-- every source is tried in turn.
pub curr_src-rotate :
    (k : ℕ) (c : Channel)
    → IsValid c
    → 1 ≤ c.num_src
    → (rotate k c).curr_src ≡ (c.curr_src + k) % c.num_src
unfolding rotate
curr_src-rotate zero c v h =
    ground (arith, v.current, mod-eq_of_lt {n = c.curr_src} {m = c.num_src})
curr_src-rotate (suc k) c v h =
    let (v', n', i') = chansrc_next_lem c v h in
    curr_src-rotate k (chansrc_next c) v' (omega arith)
    ∙ rw (i', n', mod-add-mod) (ap (λ t. t % c.num_src) (omega arith))

num_src-chansrc_set : (c : Channel) (i : ℕ) → (chansrc_set c i).num_src ≡ c.num_src
unfolding chansrc_set
num_src-chansrc_set c i = ground arith

-- When a reload drops the current source, the last source is selected so that the reconnection that
-- follows starts with the first one.
pub chansrc_next-chansrc_set :
    (c : Channel)
    → IsValid c
    → 1 ≤ c.num_src
    → (chansrc_next (chansrc_set c (c.num_src - 1))).curr_src ≡ 0
chansrc_next-chansrc_set c v h =
    let (v', i') = chansrc_set_lem c (c.num_src - 1) v in
    let (_, _, e) = chansrc_next_lem (chansrc_set c (c.num_src - 1)) v' (ground (arith, kept)) in
    e ∙ rw (kept, i') (ground (arith, self))
  where
    kept : (chansrc_set c (c.num_src - 1)).num_src ≡ c.num_src
    kept = num_src-chansrc_set c (c.num_src - 1)

    self : (c.num_src - 1 + 1) % c.num_src ≡ 0
    self = let e : c.num_src - 1 + 1 ≡ c.num_src = omega arith in rw e (mod_self c.num_src)

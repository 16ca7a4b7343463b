-- ===== src/Config/Channels/Rounds.antt =====
-- What a round of the loop over the sections comes to, and which channels the whole file makes.
use mptsd.Base.{
  ℕ, suc, ◌+◌, ◌≤◌, ◌<◌, ◌≡◌, ◌⊎◌, inl, inr, refl, sym, ap, subst, ◌∙◌, List, [], ◌∷◌, Option, none,
  some, CString, arith, length, get_elem?, Option-cases, All,
}
use mptsd.Channel.{Channel}
use mptsd.Config.{Ini}
use mptsd.Config.Channels.{
  Section, read_section, load_sources, worktime_of, ChannelLoad, skipped, crashed, added,
  set_worktime, load_channel,
}
use mptsd.Config.Channels.Loaded.{
  urls_from, Holds, Settings, Hours, Progress, load_sources-Progress,
}

-- A channel that has what the section with its index says.
pub record FromSection (ini : Ini) (c : Channel) : Type 0 where
  pub number : (1 ≤ c.index) × (c.index ≤ 31)
  pub section : Section
  pub read : read_section ini c.index ≡ some section
  pub sourced : 1 ≤ length (urls_from ini c.index 7 1)
  pub holds : Holds c.index section.name (urls_from ini c.index 7 1) c
  pub settings : Settings section c
  pub hours : Hours (worktime_of ini c.index) c

read_section-index : (ini : Ini) (i : ℕ) (s : Section) → read_section ini i ≡ some s → s.index ≡ i
unfolding read_section
read_section-index ini i s read = ground arith

-- The channel before the hours, and its sources.
loaded-Progress :
    (ini : Ini) (i : ℕ) (s : Section)
    → 1 ≤ i
    → i ≤ 31
    → read_section ini i ≡ some s
    → Progress s (urls_from ini i 7 1) (load_sources ini s 7 1 none)
loaded-Progress ini i s one small read =
    let at = read_section-index ini i s read in
    subst (λ k. Progress s (urls_from ini k 7 1) (load_sources ini s 7 1 none)) at
      (load_sources-Progress ini s 7 1 [] none (omega arith) (omega arith) (omega arith) refl)

hours-Holds :
    (index : ℕ) (name : CString) (urls : List CString) (c c' : Channel) (hours : Option (ℕ × ℕ))
    → set_worktime (some c) hours ≡ added c'
    → Holds index name urls c
    → Holds index name urls c'
unfolding set_worktime
hours-Holds index name urls c c' none e h = subst (Holds index name urls) (cc) h
hours-Holds index name urls c c' (some (start, end)) e h = subst (Holds index name urls) (cc) timed
  where
    timed : Holds index name urls (record c { worktime_start = start; worktime_end = end })
    timed = record {
      valid = record {
        places = h.valid.places;
        count = h.valid.count;
        filled = h.valid.filled;
        current = h.valid.current;
        url = h.valid.url;
      };
      count = h.count;
      listed = h.listed;
      current = h.current;
      index_kept = h.index_kept;
      name_kept = h.name_kept;
      base = h.base;
      pmt = h.pmt;
    }

set_worktime-added :
    (c : Channel) (hours : Option (ℕ × ℕ))
    → (c' : Channel) × (set_worktime (some c) hours ≡ added c')
unfolding set_worktime
set_worktime-added c none = (c, refl)
set_worktime-added c (some (start, end)) =
    (record c { worktime_start = start; worktime_end = end }, refl)

kept-set_worktime :
    (s : Section) (c c' : Channel) (hours : Option (ℕ × ℕ))
    → set_worktime (some c) hours ≡ added c'
    → Settings s c
    → Hours none c
    → Settings s c' × Hours hours c'
unfolding set_worktime
kept-set_worktime s c c' none e k never =
    let same : c ≡ c' = cc in subst (λ d. Settings s d × Hours none d) same (k, never)
kept-set_worktime s c c' (some (start, end)) e k never =
    let same : record c { worktime_start = start; worktime_end = end } ≡ c' = cc in
    subst (λ d. Settings s d × Hours (some (start, end)) d) same timed
  where
    timed :
        Settings s (record c { worktime_start = start; worktime_end = end })
        × Hours (some (start, end)) (record c { worktime_start = start; worktime_end = end })
    timed = (k, (refl, refl))

-- What a complete section comes to, by its sources.
abbrev pub Outcome : Ini → ℕ → Section → List CString → ChannelLoad → Type 0
Outcome ini i s urls r =
    ((urls ≡ []) × (worktime_of ini i ≡ none) × (r ≡ skipped))
    ⊎ ((urls ≡ []) × ((hours : ℕ × ℕ) × (worktime_of ini i ≡ some hours)) × (r ≡ crashed))
    ⊎ ((1 ≤ length urls)
        × ((c : Channel) × (r ≡ added c)
            × Holds s.index s.name urls c
            × Settings s c
            × Hours (worktime_of ini i) c))

outcome :
    (ini : Ini) (i : ℕ) (s : Section) (urls : List CString) (o : Option Channel)
    → Progress s urls o
    → Outcome ini i s urls (set_worktime o (worktime_of ini i))
unfolding set_worktime
outcome ini i s urls none p = elim (Option-cases (worktime_of ini i)) [
  | inl never ↦ inl (p, never, rw never refl)
  | inr (hours, timed) ↦ inr (inl (p, (hours, timed), rw timed refl))
]
outcome ini i s urls (some c) (n, h, k, never) =
    let (c', made) = set_worktime-added c (worktime_of ini i) in
    let (k', hours) = kept-set_worktime s c c' (worktime_of ini i) made k never in
    inr (
      inr
        (n, (c', made, hours-Holds s.index s.name urls c c' (worktime_of ini i) made h, k', hours)))

-- The outcome of a complete section.
pub load_channel_lem :
    (ini : Ini) (i : ℕ) (s : Section)
    → 1 ≤ i
    → i ≤ 31
    → read_section ini i ≡ some s
    → Outcome ini i s (urls_from ini i 7 1) (load_channel ini i)
unfolding load_channel
load_channel_lem ini i s one small read =
    rw (read, load_channel)
      (outcome ini i s (urls_from ini i 7 1) (load_sources ini s 7 1 none)
        (loaded-Progress ini i s one small read))

assembled :
    (ini : Ini) (i : ℕ) (s : Section) (c : Channel)
    → 1 ≤ i
    → i ≤ 31
    → read_section ini i ≡ some s
    → 1 ≤ length (urls_from ini i 7 1)
    → Holds s.index s.name (urls_from ini i 7 1) c
    → Settings s c
    → Hours (worktime_of ini i) c
    → FromSection ini c × (c.index ≡ i)
assembled ini i s c one small read n h k hours =
    let ci : c.index ≡ i = h.index_kept ∙ read_section-index ini i s read in
    (
      record {
        number = omega arith;
        section = s;
        read = ap (read_section ini) ci ∙ read;
        sourced = rw ci n;
        holds =
            subst (λ j. Holds c.index s.name (urls_from ini j 7 1) c) (sym ci)
              (subst (λ j. Holds j s.name (urls_from ini i 7 1) c) (sym h.index_kept) h);
        settings = k;
        hours = subst (λ j. Hours (worktime_of ini j) c) (sym ci) hours;
      },
      ci,
    )

-- A channel comes from its section only.
pub added-FromSection :
    (ini : Ini) (i : ℕ) (c : Channel)
    → 1 ≤ i
    → i ≤ 31
    → load_channel ini i ≡ added c
    → FromSection ini c × (c.index ≡ i)
unfolding load_channel
added-FromSection ini i c one small e = elim (Option-cases (read_section ini i)) [
  | inl absent ↦ absurd (ground arith)
  | inr (s, read) ↦ elim (load_channel_lem ini i s one small read) [
    | inl (_, _, r) ↦ absurd (cc)
    | inr (inl (_, _, r)) ↦ absurd (cc)
    | inr (inr (n, (c1, r, h, k, hours))) ↦
        let same : c1 ≡ c = cc in
        subst (λ d. FromSection ini d × (d.index ≡ i)) same
          (assembled ini i s c1 one small read n h k hours)
  ]
]

abbrev pub IndicesFrom : ℕ → List Channel → Type 0
IndicesFrom n [] = Unit
IndicesFrom n (c ∷ cs) = (n ≤ c.index) × IndicesFrom (c.index + 1) cs

pub IndicesFrom-le : (m n : ℕ) (cs : List Channel) → m ≤ n → IndicesFrom n cs → IndicesFrom m cs
IndicesFrom-le m n [] le h = tt
IndicesFrom-le m n (c ∷ cs) le (at, rest) = (omega arith, rest)

-- A channel of the list that has the index.
abbrev pub Listed : ℕ → List Channel → Type 0
Listed i cs = (k : ℕ) × (c : Channel) × (get_elem? cs k ≡ some c) × (c.index ≡ i)

-- What the sections from `i` to `end` make of the list.
pub record Loaded (ini : Ini) (i end : ℕ) (cs : List Channel) : Type 0 where
  pub from_sections : All (FromSection ini) cs
  pub indices : IndicesFrom i cs
  pub complete :
      (k : ℕ) (s : Section)
      → i ≤ k
      → k < end
      → read_section ini k ≡ some s
      → 1 ≤ length (urls_from ini k 7 1)
      → Listed k cs

pub Listed-cons : (i : ℕ) (c : Channel) (cs : List Channel) → Listed i cs → Listed i (c ∷ cs)
Listed-cons i c cs (k, d, at, e) = (suc k, d, at, e)

-- A complete section with a source is not skipped.
pub not_skipped :
    (ini : Ini) (i : ℕ) (s : Section)
    → 1 ≤ i
    → i ≤ 31
    → read_section ini i ≡ some s
    → 1 ≤ length (urls_from ini i 7 1)
    → (c : Channel) × (load_channel ini i ≡ added c)
not_skipped ini i s one small read n = elim (load_channel_lem ini i s one small read) [
  | inl (none_left, _, _) ↦ absurd (ground arith)
  | inr (inl (none_left, _, _)) ↦ absurd (ground arith)
  | inr (inr (_, (c, r, _, _, _))) ↦ (c, r)
]

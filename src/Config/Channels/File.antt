-- ===== src/Config/Channels/File.antt =====
-- All channels of a file, and when the loading of a file crashes.
use mptsd.Base.{
  ℕ, zero, suc, ◌+◌, ◌≤◌, ◌<◌, ◌≡◌, ◌⊎◌, inl, inr, refl, sym, subst, ◌∙◌, List, [], ◌∷◌, none, some,
  arith, length, Option-cases, le_cases,
}
use mptsd.Channel.{Channel}
use mptsd.Config.{Ini}
use mptsd.Config.Channels.{
  Section, read_section, worktime_of, ChannelLoad, skipped, crashed, added, load_channel, load_from,
  load_channels,
}
use mptsd.Config.Channels.Loaded.{urls_from}
use mptsd.Config.Channels.Rounds.{
  FromSection, Loaded, Listed, Listed-cons, IndicesFrom-le, added-FromSection, not_skipped,
  load_channel_lem,
}

load_from_done : (ini : Ini) (i : ℕ) (cs : List Channel) → load_from ini 0 i ≡ some cs → [] ≡ cs
unfolding load_from
load_from_done ini i cs e = cc

load_from_skipped :
    (ini : Ini) (left i : ℕ)
    → load_channel ini i ≡ skipped
    → load_from ini (suc left) i ≡ load_from ini left (i + 1)
unfolding load_from
load_from_skipped ini left i e = ground arith

load_from_added :
    (ini : Ini) (left i : ℕ) (c : Channel) (cs : List Channel)
    → load_channel ini i ≡ added c
    → load_from ini (suc left) i ≡ some cs
    → (rest : List Channel) × (load_from ini left (i + 1) ≡ some rest) × (c ∷ rest ≡ cs)
unfolding load_from
load_from_added ini left i c cs e h = elim (Option-cases (load_from ini left (i + 1))) [
  | inl never ↦ absurd (ground arith)
  | inr (rest, made) ↦ (rest, made, ground arith)
]

load_from_crashed :
    (ini : Ini) (left i : ℕ) → load_channel ini i ≡ crashed → load_from ini (suc left) i ≡ none
unfolding load_from
load_from_crashed ini left i e = ground arith

ChannelLoad-cases :
    (r : ChannelLoad) → (r ≡ skipped) ⊎ (r ≡ crashed) ⊎ ((c : Channel) × (r ≡ added c))
ChannelLoad-cases skipped = inl refl
ChannelLoad-cases crashed = inr (inl refl)
ChannelLoad-cases (added c) = inr (inr (c, refl))

-- One more section, that makes no channel.
skip-Loaded :
    (ini : Ini) (i end : ℕ) (cs : List Channel)
    → 1 ≤ i
    → i ≤ 31
    → load_channel ini i ≡ skipped
    → Loaded ini (i + 1) end cs
    → Loaded ini i end cs
skip-Loaded ini i end cs one small e h = record {
  from_sections = h.from_sections;
  indices = IndicesFrom-le i (i + 1) cs (omega arith) h.indices;
  complete = complete;
}
  where
    absent :
        (k : ℕ) (s : Section)
        → k ≡ i
        → read_section ini k ≡ some s
        → 1 ≤ length (urls_from ini k 7 1)
        → Listed k cs
    absent k s same read n =
        let (c, r) = not_skipped ini k s (omega arith) (omega arith) read n in
        let r' : load_channel ini i ≡ added c = subst (λ m. load_channel ini m ≡ added c) same r in
        absurd (cc)

    complete :
        (k : ℕ) (s : Section)
        → i ≤ k
        → k < end
        → read_section ini k ≡ some s
        → 1 ≤ length (urls_from ini k 7 1)
        → Listed k cs
    complete k s from to read n = elim (le_cases i k from) [
      | inl same ↦ absent k s (sym same) read n
      | inr later ↦ h.complete k s (omega arith) to read n
    ]

add-Loaded :
    (ini : Ini) (i end : ℕ) (c : Channel) (cs : List Channel)
    → FromSection ini c
    → c.index ≡ i
    → Loaded ini (i + 1) end cs
    → Loaded ini i end (c ∷ cs)
add-Loaded ini i end c cs f at h = record {
  from_sections = (f, h.from_sections);
  indices = (omega arith, rw at h.indices);
  complete = λ k s from to read n. elim (le_cases i k from) [
    | inl same ↦ (0, c, refl, at ∙ same)
    | inr later ↦ Listed-cons k c cs (h.complete k s (omega arith) to read n)
  ];
}

load_from-Loaded :
    (ini : Ini) (left i : ℕ) (cs : List Channel)
    → 1 ≤ i
    → i + left ≤ 32
    → load_from ini left i ≡ some cs
    → Loaded ini i (i + left) cs
load_from-Loaded ini zero i cs one small e =
    subst (Loaded ini i (i + 0)) (load_from_done ini i cs e) (record {
      from_sections = tt;
      indices = tt;
      complete = λ k s from to read n. absurd (omega arith);
    })
load_from-Loaded ini (suc left) i cs one small e = elim (ChannelLoad-cases (load_channel ini i)) [
  | inl skips ↦ skip-Loaded ini i (i + suc left) cs one (omega arith) skips (
      subst (λ end. Loaded ini (i + 1) end cs) (omega arith)
        (load_from-Loaded ini left (i + 1) cs (omega arith) (omega arith)
          (sym (load_from_skipped ini left i skips) ∙ e)))
  | inr (inl crash) ↦ absurd (cc (load_from_crashed ini left i crash))
  | inr (inr (c, adds)) ↦
      let (rest, made, whole) = load_from_added ini left i c cs adds e in
      let (f, at) = added-FromSection ini i c one (omega arith) adds in
      subst (Loaded ini i (i + suc left)) whole (
        add-Loaded ini i (i + suc left) c rest f at (
          subst (λ end. Loaded ini (i + 1) end rest) (omega arith)
            (load_from-Loaded ini left (i + 1) rest (omega arith) (omega arith) made)))
]

-- A file that is loaded makes one channel for each complete section with a valid source, in the order
-- of the sections, and makes no other channel. Each has the entries and the hours of its section, its
-- valid sources in their order, the first one current, and the identifiers of its index.
pub load_channels-Loaded :
    (ini : Ini) (cs : List Channel) → load_channels ini ≡ some cs → Loaded ini 1 32 cs
unfolding load_channels
load_channels-Loaded ini cs e = load_from-Loaded ini 31 1 cs (omega arith) (omega arith) e

load_from_failed :
    (ini : Ini) (left i : ℕ) → load_from ini left (i + 1) ≡ none → load_from ini (suc left) i ≡ none
unfolding load_from
load_from_failed ini left i e = ground arith

crash_from :
    (ini : Ini) (left i k : ℕ)
    → i ≤ k
    → k < i + left
    → load_channel ini k ≡ crashed
    → load_from ini left i ≡ none
crash_from ini zero i k from to e = absurd (omega arith)
crash_from ini (suc left) i k from to e = elim (le_cases i k from) [
  | inl same ↦ load_from_crashed ini left i (subst (λ m. load_channel ini m ≡ crashed) (sym same) e)
  | inr later ↦
      load_from_failed ini left i (crash_from ini left (i + 1) k (omega arith) (omega arith) e)
]

-- The loading of a file goes through a NULL channel when a complete section has hours and no valid
-- source, whatever else the file holds.
pub load_channels_crash :
    (ini : Ini) (i : ℕ) (s : Section) (hours : ℕ × ℕ)
    → 1 ≤ i
    → i ≤ 31
    → read_section ini i ≡ some s
    → urls_from ini i 7 1 ≡ []
    → worktime_of ini i ≡ some hours
    → load_channels ini ≡ none
unfolding load_channels
load_channels_crash ini i s hours one small read empty timed =
    elim (load_channel_lem ini i s one small read) [
      | inl (_, never, _) ↦ absurd (cc)
      | inr (inl (_, _, r)) ↦ crash_from ini 31 1 i one (omega arith) r
      | inr (inr (n, _)) ↦ absurd (ground arith)
    ]

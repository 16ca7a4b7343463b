-- ===== src/Epg/Versions.antt =====
-- When the guide of a channel is made anew.
use mptsd.Base.{
  ◌≡◌, ◌≢◌, ◌↔◌, ◌⊎◌, inl, inr, refl, sym, ap, true, false, Option, none, some, CString, ◌||◌,
  arith, Bool-cases,
}
use mathlib.Core.Option.{some-injective}
use mptsd.Libs.{EpgLibs}
use mptsd.Channel.{EpgEntry, Channel}
use mptsd.Epg.{epg_changed, Network, make_eit, is_entry, next_version, config_channel_init_epg}

-- `xstrcmp` is 0 for equal texts only.
abbrev pub TextsEqual : EpgLibs → Type 0
TextsEqual E = (s t : Option CString) → (E.xstrcmp s t ≡ 0) ↔ (s ≡ t)

same :
    (a b : EpgEntry)
    → a.event_id ≡ b.event_id
    → a.start ≡ b.start
    → a.duration ≡ b.duration
    → a.event ≡ b.event
    → a.short_desc ≡ b.short_desc
    → a.long_desc ≡ b.long_desc
    → a ≡ b
same a b i s d e h l = cc

-- Two entries of the guide are told apart exactly when they differ.
pub epg_changed_iff :
    (E : EpgLibs) → TextsEqual E → (a b : Option EpgEntry) → (epg_changed E a b ≡ false) ↔ (a ≡ b)
unfolding epg_changed
epg_changed_iff E law none none = (λ e. refl, λ e. refl)
epg_changed_iff E law none (some b) = (λ e. ground arith, λ e. ground arith)
epg_changed_iff E law (some a) none = (λ e. ground arith, λ e. ground arith)
epg_changed_iff E law (some a) (some b) = (
  λ e. ap some (
      same a b (ground arith) (ground arith) (ground arith) ((law a.event b.event).0 (ground arith))
        ((law a.short_desc b.short_desc).0 (ground arith))
        ((law a.long_desc b.long_desc).0 (ground arith))),
  λ e.
      let f = some-injective a b e in
      ground (
        arith,
        ap (λ k. k.event_id) f,
        ap (λ k. k.start) f,
        ap (λ k. k.duration) f,
        (law a.event b.event).1 (ap (λ k. k.event) f),
        (law a.short_desc b.short_desc).1 (ap (λ k. k.short_desc) f),
        (law a.long_desc b.long_desc).1 (ap (λ k. k.long_desc) f),
      ),
)

-- What a reload leaves.
pub record Reloaded (E : EpgLibs) (n : Network) (c : Channel) (now next : Option EpgEntry)
    (c' : Channel) : Type 0 where
  pub entries : (c'.epg_now ≡ now) × (c'.epg_next ≡ next)
  pub unchanged : c.epg_now ≡ now → c.epg_next ≡ next → c' ≡ c
  pub changed :
      (c.epg_now ≢ now) ⊎ (c.epg_next ≢ next) → c'.epg_version ≡ next_version c.epg_version
  pub tables :
      (c.epg_now ≢ now) ⊎ (c.epg_next ≢ next)
      → (now ≢ none) ⊎ (next ≢ none)
      → (c'.eit_now ≡ some (make_eit E n c c'.epg_version 0 now))
        × (c'.eit_next ≡ some (make_eit E n c c'.epg_version 1 next))
  pub removed :
      (c.epg_now ≢ now) ⊎ (c.epg_next ≢ next)
      → now ≡ none
      → next ≡ none
      → (c'.eit_now ≡ none) × (c'.eit_next ≡ none)

differs :
    (E : EpgLibs)
    → TextsEqual E
    → (a a' b b' : Option EpgEntry) → (a' ≢ a) ⊎ (b' ≢ b)
    → (epg_changed E a a' || epg_changed E b b') ≡ true
differs E law a a' b b' (inl ne) =
    let f = epg_changed_iff E law a a' in
    elim (Bool-cases (epg_changed E a a')) [ inl t ↦ rw t refl | inr g ↦ absurd (ne (sym (f.0 g))) ]
differs E law a a' b b' (inr ne) =
    let f = epg_changed_iff E law b b' in
    elim (Bool-cases (epg_changed E b b')) [
      | inl t ↦ ground (arith, t)
      | inr g ↦ absurd (ne (sym (f.0 g)))
    ]

some_entry : (a b : Option EpgEntry) → (a ≢ none) ⊎ (b ≢ none) → (is_entry a || is_entry b) ≡ true
some_entry none none (inl h) = absurd (h refl)
some_entry none none (inr h) = absurd (h refl)
some_entry none (some b) h = refl
some_entry (some a) b h = refl

-- After a reload the channel has the entries that were loaded. When these are the ones it had nothing
-- changes; otherwise the version goes up by one, in five bits, and the tables are made anew with that
-- version, or removed when there is no entry any more.
pub config_channel_init_epg-Reloaded :
    (E : EpgLibs)
    → TextsEqual E
    → (n : Network) (c : Channel) (now next : Option EpgEntry)
    → Reloaded E n c now next (config_channel_init_epg E n c now next)
unfolding config_channel_init_epg
config_channel_init_epg-Reloaded E law n c now next =
    let a = epg_changed_iff E law now c.epg_now in
    let b = epg_changed_iff E law next c.epg_next in
    record {
      entries = ground (arith, a, b);
      unchanged = λ p q. ground (arith, a.1 (sym p), b.1 (sym q));
      changed = λ d.
          rw (differs E law now c.epg_now next c.epg_next d, config_channel_init_epg)
            (ground arith);
      tables = λ d s.
          rw (differs E law now c.epg_now next c.epg_next d, some_entry now next s) (refl, refl);
      removed = λ d p q. rw (differs E law now c.epg_now next c.epg_next d, p, q) (refl, refl);
    }

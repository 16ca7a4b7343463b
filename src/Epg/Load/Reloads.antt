-- ===== src/Epg/Load/Reloads.antt =====
-- When the guide's file is read, and what the channels have then.
use mptsd.Base.{
  ℕ, ◌+◌, ◌≤◌, ◌<◌, ◌≡◌, refl, sym, ap, ◌∙◌, true, false, List, [], ◌∷◌, Option, none, some, codes,
  arith, All, ltb, map,
}
use mptsd.Libs.{EpgLibs}
use mptsd.Channel.{EpgEntry, Channel, channel_free_epg}
use mptsd.Config.{Ini}
use mptsd.Epg.{Network, config_channel_init_epg}
use mptsd.Epg.Versions.{TextsEqual, config_channel_init_epg-Reloaded}
use mptsd.Epg.Load.{
  Guide, config_load_epg_entry, config_reset_channels_epg, load_guide, config_load_epg,
}

-- The two entries of a channel are those of the file.
abbrev pub HasGuide : EpgLibs → Ini → Channel → Type 0
HasGuide E ini c =
    (c.epg_now ≡ config_load_epg_entry E ini (codes "now") c.id)
    × (c.epg_next ≡ config_load_epg_entry E ini (codes "next") c.id)

abbrev pub HasNone : Channel → Type 0
HasNone c = (c.epg_now ≡ none) × (c.epg_next ≡ none) × (c.eit_now ≡ none) × (c.eit_next ≡ none)

id-config_channel_init_epg :
    (E : EpgLibs) (n : Network) (c : Channel) (now next : Option EpgEntry)
    → (config_channel_init_epg E n c now next).id ≡ c.id
unfolding config_channel_init_epg
id-config_channel_init_epg E n c now next = ground arith

load_guide-HasGuide :
    (E : EpgLibs)
    → TextsEqual E
    → (n : Network) (ini : Ini) (c : Channel) → HasGuide E ini (load_guide E n ini c)
unfolding load_guide
load_guide-HasGuide E law n ini c =
    let now = config_load_epg_entry E ini (codes "now") c.id in
    let next = config_load_epg_entry E ini (codes "next") c.id in
    let r = config_channel_init_epg-Reloaded E law n c now next in
    let same = sym (id-config_channel_init_epg E n c now next) in
    (
      r.entries.0 ∙ ap (config_load_epg_entry E ini (codes "now")) same,
      r.entries.1 ∙ ap (config_load_epg_entry E ini (codes "next")) same,
    )

-- A second load of the same file leaves the channel as it is.
load_guide_twice :
    (E : EpgLibs)
    → TextsEqual E
    → (n : Network) (ini : Ini) (c : Channel) → HasGuide E ini c
    → load_guide E n ini c ≡ c
unfolding load_guide
load_guide_twice E law n ini c (now, next) =
    (config_channel_init_epg-Reloaded E law n c (config_load_epg_entry E ini (codes "now") c.id)
        (config_load_epg_entry E ini (codes "next") c.id)).unchanged
      now next

All-HasGuide :
    (E : EpgLibs)
    → TextsEqual E
    → (n : Network) (ini : Ini) (cs : List Channel)
    → All (HasGuide E ini) (map (load_guide E n ini) cs)
All-HasGuide E law n ini [] = tt
All-HasGuide E law n ini (c ∷ cs) = (load_guide-HasGuide E law n ini c, All-HasGuide E law n ini cs)

map_twice :
    (E : EpgLibs)
    → TextsEqual E
    → (n : Network) (ini : Ini) (cs : List Channel) → All (HasGuide E ini) cs
    → map (load_guide E n ini) cs ≡ cs
map_twice E law n ini [] h = refl
map_twice E law n ini (c ∷ cs) (g, h) =
    rw (load_guide_twice E law n ini c g, map_twice E law n ini cs h) refl

All-HasNone : (cs : List Channel) → All HasNone (map channel_free_epg cs)
unfolding channel_free_epg
All-HasNone [] = tt
All-HasNone (c ∷ cs) = ((refl, refl, refl, refl), All-HasNone cs)

reads :
    (E : EpgLibs) (n : Network) (mtime : ℕ) (ini : Ini) (g : Guide)
    → g.epg_conf_mtime < mtime
    → config_load_epg E n (some mtime) (some ini) g
      ≡ (record { channels = map (load_guide E n ini) g.channels; epg_conf_mtime = mtime }, true)
unfolding config_load_epg
reads E n mtime ini g new = ground arith

forgets :
    (E : EpgLibs) (n : Network) (parsed : Option Ini) (g : Guide)
    → All HasNone (config_load_epg E n none parsed g).0.channels
unfolding config_load_epg config_reset_channels_epg
forgets E n parsed g = All-HasNone g.channels

keeps :
    (E : EpgLibs) (n : Network) (mtime : ℕ) (parsed : Option Ini) (g : Guide)
    → mtime ≤ g.epg_conf_mtime
    → config_load_epg E n (some mtime) parsed g ≡ (g, false)
unfolding config_load_epg
keeps E n mtime parsed g le = ground arith

resets :
    (E : EpgLibs) (n : Network) (mtime : ℕ) (g : Guide)
    → g.epg_conf_mtime < mtime
    → All HasNone (config_load_epg E n (some mtime) none g).0.channels
      × ((config_load_epg E n (some mtime) none g).0.epg_conf_mtime ≡ 0)
unfolding config_load_epg config_reset_channels_epg
resets E n mtime g new =
    let newer : ltb g.epg_conf_mtime mtime ≡ true = ground arith in
    rw (newer, config_load_epg) (All-HasNone g.channels, refl)

-- What one call comes to.
pub record Called (E : EpgLibs) (n : Network) (modified : Option ℕ) (parsed : Option Ini)
    (g : Guide) : Type 0 where
  pub missing : modified ≡ none → All HasNone (config_load_epg E n modified parsed g).0.channels
  pub old :
      (mtime : ℕ)
      → modified ≡ some mtime
      → mtime ≤ g.epg_conf_mtime
      → config_load_epg E n modified parsed g ≡ (g, false)
  pub broken :
      (mtime : ℕ)
      → modified ≡ some mtime
      → g.epg_conf_mtime < mtime
      → parsed ≡ none
      → All HasNone (config_load_epg E n modified parsed g).0.channels
        × ((config_load_epg E n modified parsed g).0.epg_conf_mtime ≡ 0)
  pub read :
      (mtime : ℕ) (ini : Ini)
      → modified ≡ some mtime
      → g.epg_conf_mtime < mtime
      → parsed ≡ some ini
      → All (HasGuide E ini) (config_load_epg E n modified parsed g).0.channels
        × ((config_load_epg E n modified parsed g).0.epg_conf_mtime ≡ mtime)
        × (config_load_epg E n (some (mtime + 1)) parsed (config_load_epg E n modified parsed g).0
            ≡ (
              record (config_load_epg E n modified parsed g).0 { epg_conf_mtime = mtime + 1 },
              true,
            ))

-- The file is read when its time of change has grown. Then every channel has its two entries of the
-- file, and a later reading of the same content changes nothing but the time. A file that is missing
-- or cannot be parsed takes all entries and tables away; one that could not be parsed is tried again at
-- the next call, as its time is forgotten. A file that has not changed changes nothing. Texts are
-- compared as they should be.
pub config_load_epg-Called :
    (E : EpgLibs)
    → TextsEqual E
    → (n : Network) (modified : Option ℕ) (parsed : Option Ini) (g : Guide)
    → Called E n modified parsed g
config_load_epg-Called E law n modified parsed g = record {
  missing = λ gone. rw gone (forgets E n parsed g);
  old = λ mtime at le. rw at (keeps E n mtime parsed g le);
  broken = λ mtime at new fails. rw (at, fails) (resets E n mtime g new);
  read = λ mtime ini at new works.
      let again =
        reads E n (mtime + 1) ini
          (record { channels = map (load_guide E n ini) g.channels; epg_conf_mtime = mtime })
          (omega arith) in
      let same =
        map_twice E law n ini (map (load_guide E n ini) g.channels)
          (All-HasGuide E law n ini g.channels) in
      rw (at, works, reads E n mtime ini g new)
        (
          All-HasGuide E law n ini g.channels,
          refl,
          again ∙ ap (λ cs. (record { channels = cs; epg_conf_mtime = mtime + 1 }, true)) same,
        );
}

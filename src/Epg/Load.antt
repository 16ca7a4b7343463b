-- ===== src/Epg/Load.antt =====
-- config.c: `config_load_epg` and what it calls.
pub mod Reloads
use mptsd.Base.{
  ℕ, ◌+◌, Bool, true, false, List, [], ◌∷◌, ◌++◌, Option, none, some, CString, codes, ltb, ◌==◌,
  ◌||◌, if◌then◌else◌, map,
}
use mptsd.Libs.{EpgLibs}
use mptsd.Channel.{EpgEntry, Channel, channel_free_epg}
use mptsd.Config.{Ini}
use mptsd.Epg.{Network, epg_new, config_channel_init_epg}

-- "%s-%s:key"
abbrev pub entry_key : CString → CString → CString → CString
entry_key channel entry key = channel ++ (b'-' ∷ (entry ++ (b':' ∷ key)))

unfoldable pub config_load_epg_entry : EpgLibs → Ini → CString → CString → Option EpgEntry
config_load_epg_entry E ini entry channel =
    let start = ini.get_int (entry_key channel entry (codes "start")) 0 in
    let duration = ini.get_int (entry_key channel entry (codes "duration")) 0 in
    if start == 0 || duration == 0
    then none
    else epg_new E start duration (ini.get_string (entry_key channel entry (codes "encoding")))
        (ini.get_string (entry_key channel entry (codes "event")))
        (ini.get_string (entry_key channel entry (codes "sdescr")))
        (ini.get_string (entry_key channel entry (codes "descr")))

-- The part of the configuration that the guide is in; times of change are not negative.
pub record Guide : Type 0 where
  pub channels : List Channel
  pub epg_conf_mtime : ℕ

unfoldable pub config_reset_channels_epg : Guide → Guide
unfolding channel_free_epg
config_reset_channels_epg g = record {
  channels = map channel_free_epg g.channels;
  epg_conf_mtime = 0;
}

unfoldable pub load_guide : EpgLibs → Network → Ini → Channel → Channel
unfolding config_load_epg_entry
load_guide E n ini c =
    config_channel_init_epg E n c (config_load_epg_entry E ini (codes "now") c.id)
      (config_load_epg_entry E ini (codes "next") c.id)

-- `modified` is the time that stat answers, `none` where it fails; `parsed` is what iniparser_load makes
-- of the file. True for the result 1.
unfoldable pub config_load_epg : EpgLibs → Network → Option ℕ → Option Ini → Guide → Guide × Bool
unfolding load_guide config_reset_channels_epg
config_load_epg E n none parsed g = (config_reset_channels_epg g, false)
config_load_epg E n (some mtime) parsed g =
    if ltb g.epg_conf_mtime mtime
    then elim parsed [
      | none ↦ (config_reset_channels_epg (record g { epg_conf_mtime = mtime }), false)
      | some ini ↦
          (record { channels = map (load_guide E n ini) g.channels; epg_conf_mtime = mtime }, true)
    ]
    else (g, false)

-- ===== src/Epg/Tests.antt =====
-- Runs of the guide's reload: a new event, and the same one again.
use mptsd.Base.{
  ℕ, ◌≡◌, refl, [], ◌∷◌, Option, none, some, CString, codes, str_eq, eq_of_str_eq, str_eq_refl,
  if◌then◌else◌, arith, ap,
}
use mathlib.Core.Option.{some-injective}
use mptsd.Libs.{EpgLibs}
use mptsd.Channel.{EpgEntry}
use mptsd.Epg.{epg_new, Network, config_channel_init_epg}
use mptsd.Epg.Versions.{TextsEqual, Reloaded, config_channel_init_epg-Reloaded}
use mptsd.Config.{Ini}
use mptsd.Epg.Load.{config_load_epg_entry}
use mptsd.Epg.Load.Reloads.{Called, config_load_epg-Called}
use mptsd.Samples.{channel, no_eit, ini_of}

abbrev xstrcmp : Option CString → Option CString → ℕ
xstrcmp none none = 0
xstrcmp none (some t) = 1
xstrcmp (some s) none = 1
xstrcmp (some s) (some t) = if str_eq s t then 0 else 1

abbrev guide : EpgLibs
guide = record {
  xstrcmp = xstrcmp;
  init_dvb_string_iso_8859_5 = λ s. s;
  init_dvb_string_utf8 = λ s. s;
  ts_eit_alloc_init_pf =
      λ service_id ts_id network_id is_next current. record no_eit { ts_id_number = service_id };
  ts_eit_add_short_event_descriptor = λ e id running start duration event text. e;
  ts_eit_add_extended_event_descriptor = λ e id running start duration text. e;
  ts_eit_regenerate_packets = λ e. e;
}

guide-TextsEqual : TextsEqual guide
guide-TextsEqual none none = (λ e. refl, λ e. refl)
guide-TextsEqual none (some t) = (λ e. absurd (omega arith), λ e. ground arith)
guide-TextsEqual (some s) none = (λ e. absurd (omega arith), λ e. ground arith)
guide-TextsEqual (some s) (some t) = (
  λ e. ap some (eq_of_str_eq s t (ground arith)),
  λ e. ground (arith, str_eq_refl s, ap (str_eq s) (some-injective s t e)),
)

abbrev news : EpgEntry
news = record {
  event_id = 5;
  start = 300;
  duration = 60;
  event = some (codes "News");
  short_desc = none;
  long_desc = none;
}

abbrev ids : Network
ids = record { network_id = 1; transport_stream_id = 2 }

config_channel_init_epg_example :
    Reloaded guide ids
      (channel 3)
      (some news)
      none
      (config_channel_init_epg guide ids (channel 3) (some news) none)
config_channel_init_epg_example =
    config_channel_init_epg-Reloaded guide guide-TextsEqual ids (channel 3) (some news) none

-- A guide's file with one event of the channel, newer than what was read before.
abbrev guide_file : Ini
guide_file =
    ini_of ((codes "bbc-now:event", codes "News") ∷ [])
      ((codes "bbc-now:start", 300) ∷ (codes "bbc-now:duration", 60) ∷ [])

config_load_epg_example :
    Called guide ids
      (some 2000)
      (some guide_file)
      (record { channels = channel 3 ∷ []; epg_conf_mtime = 1000 })
config_load_epg_example =
    config_load_epg-Called guide guide-TextsEqual ids (some 2000) (some guide_file)
      (record { channels = channel 3 ∷ []; epg_conf_mtime = 1000 })

reads_news : config_load_epg_entry guide guide_file (codes "now") (codes "bbc") ≡ some news
unfolding config_load_epg_entry epg_new str_eq
reads_news = refl

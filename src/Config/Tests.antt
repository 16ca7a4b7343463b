-- ===== src/Config/Tests.antt =====
-- Runs of the loading of configuration files, and of a reload.
use mptsd.Base.{
  ◌≡◌, ◌≢◌, ◌≤◌, ◌↔◌, ◌⊎◌, refl, Bool, false, List, [], ◌∷◌, Option, none, some, CString, codes,
  str_eq, arith, length, All,
}
use mptsd.Channel.{Channel, chansrc_set}
use mptsd.Config.{Ini}
use mptsd.Url.{is_valid_url, match_url, span}
use mptsd.Config.Channels.{Section, read_section, source_text, load_channels, scan_worktime}
use mptsd.Config.Channels.Loaded.{urls_from, accepted}
use mptsd.Config.Channels.Rounds.{Loaded}
use mptsd.Config.Channels.File.{load_channels-Loaded, load_channels_crash}
use mptsd.Channel.Sources.{IsValid}
use mptsd.Config.Reload.{Restreamer, old_list, adopt, reload}
use mptsd.Config.Reload.Adopt.{Adopted, adopt-Adopted}
use mptsd.Config.Reload.Safety.{SameChannels, Settled}
use mptsd.Config.Reload.Whole.{config_load_channels-Settled}
use mptsd.Config.Files.{Nit, refused, unterminated, made, nit_new, digits_of, modulation_of}
use mptsd.Config.Files.Packed.{unpack, nit_new_lem}
use mptsd.Samples.{new_input, ini_of, channels_file, bbc, loads_bbc}

load_channels-Loaded_example : Loaded channels_file 1 32 (bbc ∷ [])
load_channels-Loaded_example = load_channels-Loaded channels_file (bbc ∷ []) loads_bbc

-- A complete section with hours and a source that is no URL.
abbrev sourceless_file : Ini
sourceless_file =
    ini_of
      ((codes "Channel2:id", codes "x")
        ∷ (codes "Channel2:name", codes "X")
        ∷ (codes "Channel2:source", codes "x")
        ∷ (codes "Channel2:worktime", codes "06:00-22:30")
        ∷ [])
      ((codes "Channel2:service_id", 501) ∷ [])

abbrev sourceless : Section
sourceless = record {
  index = 2;
  service_id = 501;
  is_radio = false;
  lcn = 0;
  is_lcn_visible = false;
  id = codes "x";
  name = codes "X";
  eit_mode = 0;
}

load_channels_crash_example : load_channels sourceless_file ≡ none
unfolding read_section str_eq urls_from accepted source_text is_valid_url match_url span
    scan_worktime
load_channels_crash_example =
    load_channels_crash sourceless_file 2 sourceless (21600, 81000) (omega arith) (omega arith) refl
      refl refl

-- An input of the channel that stands at its second source.
abbrev served : Restreamer
served = record {
  input = record (new_input 3) {
    name = codes "BBC";
    channel = record bbc { source = some (codes "http://b/"); curr_src = 1 };
  };
  owner = old_list;
}

bbc-IsValid : IsValid bbc
bbc-IsValid = (load_channels-Loaded channels_file (bbc ∷ []) loads_bbc).from_sections.0.holds.valid

adopt-Adopted_example : Adopted 77 0 bbc served (adopt 77 0 bbc served).0 (adopt 77 0 bbc served).1
adopt-Adopted_example = adopt-Adopted 77 0 bbc served bbc-IsValid (omega arith)

config_load_channels-Settled_example :
    (channels' : List Channel) × (inputs' : List Restreamer) × (reload 77 (bbc ∷ []) (served ∷ [])
      ≡ some (channels', inputs'))
    × SameChannels (bbc ∷ []) channels'
    × All (Settled channels') inputs'
config_load_channels-Settled_example =
    config_load_channels-Settled channels_file 77 (bbc ∷ []) (served ∷ []) loads_bbc
      (((λ e. absurd (omega arith)), (omega arith, omega arith, (codes "http://b/", refl))), tt)

-- The input goes on with the source that it has.
reload_continues :
    ◌≡◌ {A = Option (Option CString × Bool)}
      (elim (reload 77 (bbc ∷ []) (served ∷ [])) [
        | some (cs, r ∷ rs) ↦ some (r.input.channel.source, r.input.reconnect)
        | _ ↦ none
      ])
      (some (some (codes "http://b/"), false))
unfolding reload chansrc_set str_eq
reload_continues = refl

nit_new_example :
    (nit_new 1 (codes "0330.0000") (codes "64-QAM") (codes "006.9000") ≡ refused
      ↔ ((length (codes "0330.0000") ≢ 9) ⊎ (length (codes "006.9000") ≢ 8)))
    × (length (codes "0330.0000") ≡ 9
        → length (codes "006.9000") ≡ 8
        → length (digits_of (codes "0330.0000")) ≤ 8
        → (n : Nit) × (nit_new 1 (codes "0330.0000") (codes "64-QAM") (codes "006.9000") ≡ made n)
          × (n.ts_id ≡ 1)
          × (n.modulation_value ≡ modulation_of (codes "64-QAM"))
          × (unpack (length (digits_of (codes "0330.0000"))) n.freq_value
              ≡ digits_of (codes "0330.0000"))
          × (unpack (length (digits_of (codes "006.9000"))) n.symbol_rate_value
              ≡ digits_of (codes "006.9000")))
    × (length (codes "0330.0000") ≡ 9
        → length (codes "006.9000") ≡ 8
        → length (digits_of (codes "0330.0000")) ≡ 9
        → nit_new 1 (codes "0330.0000") (codes "64-QAM") (codes "006.9000") ≡ unterminated)
nit_new_example = nit_new_lem 1 (codes "0330.0000") (codes "64-QAM") (codes "006.9000")

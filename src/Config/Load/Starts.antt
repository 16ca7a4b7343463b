-- ===== src/Config/Load/Starts.antt =====
-- When the program starts.
use mptsd.Base.{
  ℕ, ◌≤◌, ◌≡◌, ◌≢◌, ◌⊎◌, inl, inr, refl, sym, ap, subst, true, false, List, ◌∷◌, some, CString,
  arith, Bool-cases, codes, str_eq,
}
use mptsd.Channel.{Channel}
use mptsd.Config.{Ini}
use mptsd.Config.Options.{Config, SystemLib, Loading, running, ◌>>=◌, initial_config, parse_options}
use mptsd.Config.Options.Accepted.{Ensures}
use mptsd.Config.Files.{Global, Nit, config_load_nit, config_load_global}
use mptsd.Config.Channels.{load_channels}
use mptsd.Config.Load.{
  Pace, align_bitrate, set_defaults, Environment, output_open_file, open_output, check_address,
  calibrate, calibrate_sleep, or_exit, or_fault, file, Started, load_files, start, config_load,
}
use mptsd.Config.Load.Outcome.{Sound, config_load-Sound}

-- The files are there, the NIT's can be parsed and the channels' makes one.
pub record Readable (E : Environment) (conf : Config) : Type 0 where
  pub global_ini : Ini
  pub global_at : file E conf.global_conf ≡ some global_ini
  pub nit_ini : Ini
  pub nit_at : file E conf.nit_conf ≡ some nit_ini
  pub nit : List Nit
  pub nit_loaded : config_load_nit nit_ini ≡ some nit
  pub channels_ini : Ini
  pub channels_at : file E conf.channels_conf ≡ some channels_ini
  pub first : Channel
  pub others : List Channel
  pub channels_loaded : load_channels channels_ini ≡ some (first ∷ others)

loads_global : (ini : Ini) → (g : Global) × (config_load_global (some ini) ≡ some g)
unfolding config_load_global
loads_global ini = (_, refl)

abbrev Runs : Loading Started → Type 0
Runs m = (s : Started) × (m ≡ running s)

step {ℓ} :
    {A : Type ℓ} (m : Loading A) (f : A → Loading Started) (a : A)
    → m ≡ running a
    → Runs (f a)
    → Runs (m >>= f)
step m f a e r = subst (λ m'. Runs (m' >>= f)) (sym e) r

load_files-running :
    (E : Environment) (conf : Config) (pace : Pace)
    → Readable E conf
    → Runs (load_files E conf pace)
unfolding load_files
load_files-running E conf pace r =
    step (or_exit (file E conf.global_conf)) _ r.global_ini (ap or_exit r.global_at) (
      step (or_exit (config_load_global (some r.global_ini))) _ (loads_global r.global_ini).0
        (ap or_exit (loads_global r.global_ini).1)
        (step (or_exit (file E conf.nit_conf)) _ r.nit_ini (ap or_exit r.nit_at) (
          step (or_fault (config_load_nit r.nit_ini)) _ r.nit (ap or_fault r.nit_loaded) (
            step (or_exit (file E conf.channels_conf)) _ r.channels_ini (ap or_exit r.channels_at) (
              step (or_fault (load_channels r.channels_ini)) _ (r.first ∷ r.others)
                (ap or_fault r.channels_loaded) (_, refl))))))

-- The output's file can be opened, if there is to be one.
abbrev pub Openable : Environment → Config → Type 0
Openable E conf =
    (conf.write_output_file ≡ false)
    ⊎ ((name : CString) × (conf.output_filename ≡ some name) × (E.opened name ≡ true))

open_output-running :
    (E : Environment) (conf : Config) → Openable E conf → open_output E conf ≡ running tt
unfolding open_output output_open_file
open_output-running E conf (inl never) = rw (never, open_output) refl
open_output-running E conf (inr (name, named, opens)) = elim (Bool-cases conf.write_output_file) [
  | inr never ↦ rw (never, open_output) refl
  | inl written ↦ elim (Bool-cases (str_eq name (codes "-"))) [
    | inl dash ↦ ground arith
    | inr other ↦ ground arith
  ]
]

check_address-running :
    (conf : Config)
    → (conf.write_output_network ≡ true → conf.out_host ≢ 0)
    → check_address conf ≡ running tt
unfolding check_address
check_address-running conf h = elim (Bool-cases conf.write_output_network) [
  | inr never ↦ ground arith
  | inl network ↦ let set = h network in ground arith
]

calibrate-running :
    (E : Environment) (tmout : ℕ)
    → E.created ≡ true
    → 1 ≤ calibrate_sleep tmout E.measured
    → calibrate E tmout ≡ running (calibrate_sleep tmout E.measured)
unfolding calibrate
calibrate-running E tmout made fits = ground arith

starts :
    (E : Environment) (given : Config)
    → (given.write_output_network ≡ true → given.out_host ≢ 0)
    → Openable E (set_defaults given)
    → E.created ≡ true
    → 1
      ≤ calibrate_sleep (align_bitrate (set_defaults given).output_bitrate).output_tmout E.measured
    → Readable E (set_defaults given)
    → Runs (start E given)
unfolding start
starts E given addressed opens made fits r =
    let conf = set_defaults given in
    let tmout = (align_bitrate conf.output_bitrate).output_tmout in
    step (check_address given) _ tt (check_address-running given addressed) (
      step (open_output E conf) _ tt (open_output-running E conf opens) (
        step (calibrate E tmout) _ (calibrate_sleep tmout E.measured)
          (calibrate-running E tmout made fits)
          (load_files-running E conf
            (record (align_bitrate conf.output_bitrate) {
              output_tmout = calibrate_sleep tmout E.measured;
            })
            r)))

step_options :
    (S : SystemLib) (E : Environment) (options : List (ℕ × CString)) (given : Config)
    → parse_options S initial_config options ≡ running given
    → Runs (start E given)
    → Runs (config_load S E options)
unfolding config_load
step_options S E options given parsed r =
    step (parse_options S initial_config options) (start E) given parsed r

-- The program starts when its options are accepted, the output has an address if it needs one and its
-- file can be opened, the calibration can be made and leaves a pause, the files can be read and there
-- is a channel; and then everything is as it should be.
pub config_load-running :
    (S : SystemLib) (E : Environment) (options : List (ℕ × CString)) (given : Config)
    → parse_options S initial_config options ≡ running given
    → (given.write_output_network ≡ true → given.out_host ≢ 0)
    → Openable E (set_defaults given)
    → E.created ≡ true
    → 1
      ≤ calibrate_sleep (align_bitrate (set_defaults given).output_bitrate).output_tmout E.measured
    → Readable E (set_defaults given)
    → (s : Started) × (config_load S E options ≡ running s) × Sound E s
config_load-running S E options given parsed addressed opens made fits r =
    let (s, e) = runs in (s, e, subst (Ensures (Sound E)) e (config_load-Sound S E options))
  where
    runs : Runs (config_load S E options)
    runs = step_options S E options given parsed (starts E given addressed opens made fits r)

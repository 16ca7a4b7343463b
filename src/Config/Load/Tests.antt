-- ===== src/Config/Load/Tests.antt =====
-- A start of the program from its options and files, and the calibration of its pause.
use mptsd.Base.{
  ℕ, zero, suc, ◌*◌, ◌-◌, ◌/◌, ◌^◌, ◌≡◌, ◌≤◌, ◌<◌, refl, sym, subst, true, List, [], ◌∷◌, ◌++◌,
  some, CString, codes, str_eq, arith, replicate, length-replicate, All, inl, if◌then◌else◌,
}
use mptsd.Samples.{ini_of, channels_file, bbc, loads_bbc}
use mptsd.Config.Options.{Config, SystemLib, running, initial_config, parse_options}
use mptsd.Config.Options.Accepted.{Ensures}
use mptsd.Config.Files.{config_load_nit}
use mptsd.Config.Load.{
  Environment, Started, calibrate_sleep, set_defaults, align_bitrate, config_load,
}
use mptsd.Config.Load.Rate.{sum, calibrate_sleep_lem}
use mptsd.Config.Load.Outcome.{Sound, config_load-Sound}
use mptsd.Config.Load.Starts.{Readable, config_load-running}

All-replicate : (n : ℕ) → All (λ usec. 1 ≤ usec) (replicate n 51)
All-replicate zero = tt
All-replicate (suc n) = (omega arith, All-replicate n)

sum-replicate : (n : ℕ) → sum (replicate n 51) ≡ 51 * n
sum-replicate zero = refl
sum-replicate (suc n) = omega (arith, sum-replicate n)

calibrate_sleep_example :
    calibrate_sleep 263 (replicate 3001 51 ++ 1000000 ∷ [])
    ≡ 263 - (sum (replicate 3001 51) - 3001) / 3001
calibrate_sleep_example =
    calibrate_sleep_lem 263 (replicate 3001 51) (1000000 ∷ []) (length-replicate {A = ℕ} 3001 51)
      (All-replicate 3001) (subst (λ n. n < 2 ^ 64) (sym (sum-replicate 3001)) (omega arith))

-- The rate of the default bit rate: 3610 frames in a second, 277 microseconds apart.
measured_leaves_pause : 1 ≤ calibrate_sleep 277 (replicate 3001 51 ++ [])
measured_leaves_pause = subst (λ t. 1 ≤ t) (sym left) (omega (arith, sum-replicate 3001))
  where
    left :
        calibrate_sleep 277 (replicate 3001 51 ++ [])
        ≡ 277 - (sum (replicate 3001 51) - 3001) / 3001
    left =
        calibrate_sleep_lem 277 (replicate 3001 51) [] (length-replicate {A = ℕ} 3001 51)
          (All-replicate 3001) (subst (λ n. n < 2 ^ 64) (sym (sum-replicate 3001)) (omega arith))

abbrev system : SystemLib
system = record { inet_aton = λ s. some 167772161; atof_million = λ s. 38000000 }

-- The two files without entries, and the one with a channel.
abbrev environment : Environment
environment = record {
  opened = λ name. true;
  created = true;
  measured = replicate 3001 51 ++ [];
  ini = λ name.
      if str_eq name (codes "mptsd_channels.conf") then some channels_file else some (ini_of [] []);
}

abbrev options : List (ℕ × CString)
options = (b'O', codes "10.0.0.1") ∷ (b'q', []) ∷ []

abbrev given : Config
given = record initial_config { out_host = 167772161; quiet = true }

parses : parse_options system initial_config options ≡ running given
unfolding parse_options
parses = refl

no_transponders : config_load_nit (ini_of [] []) ≡ some []
unfolding config_load_nit
no_transponders = refl

readable : Readable environment (set_defaults given)
unfolding set_defaults str_eq
readable = record {
  global_ini = ini_of [] [];
  global_at = refl;
  nit_ini = ini_of [] [];
  nit_at = refl;
  nit = [];
  nit_loaded = no_transponders;
  channels_ini = channels_file;
  channels_at = refl;
  first = bbc;
  others = [];
  channels_loaded = loads_bbc;
}

config_load-running_example :
    (s : Started) × (config_load system environment options ≡ running s) × Sound environment s
unfolding set_defaults align_bitrate
config_load-running_example =
    config_load-running system environment options given parses
      (λ network unset. absurd (omega arith)) (inl refl) refl measured_leaves_pause readable

config_load-Sound_example : Ensures (Sound environment) (config_load system environment options)
config_load-Sound_example = config_load-Sound system environment options

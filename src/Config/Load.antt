-- ===== src/Config/Load.antt =====
-- config.c: what `config_load` does with the options that it has read; sleep.c: `calibrate_sleep`.
pub mod Rate
pub mod Outcome
pub mod Starts
mod Tests
use mptsd.Base.{
  ℕ, zero, suc, ◌+◌, ◌-◌, ◌*◌, ◌/◌, ◌^◌, Bool, true, false, List, [], ◌∷◌, Option, none, some,
  CString, codes, str_eq, u64, ltb, ◌==◌, ◌&&◌, not, if◌then◌else◌,
}
use mptsd.Channel.{Channel}
use mptsd.Output.{Obuf, obuf_alloc, packets_per_second}
use mptsd.Config.{Ini}
use mptsd.Config.Options.{
  Config, SystemLib, Loading, running, exits, faults, ◌>>=◌, initial_config, parse_options,
}
use mptsd.Config.Files.{Global, Nit, config_load_global, config_load_nit}
use mptsd.Config.Channels.{load_channels}

abbrev pub or_default : Option CString → CString → Option CString
or_default none text = some text
or_default (some given) text = some given

-- A log identifier comes with the identifier, and its default too.
unfoldable pub set_defaults : Config → Config
set_defaults conf = record conf {
  ident = or_default conf.ident (codes "ux/mptsd");
  logident = elim conf.ident [ none ↦ some (codes "ux-mptsd") | some ident ↦ conf.logident ];
  global_conf = or_default conf.global_conf (codes "mptsd.conf");
  channels_conf = or_default conf.channels_conf (codes "mptsd_channels.conf");
  nit_conf = or_default conf.nit_conf (codes "mptsd_nit.conf");
  epg_conf = or_default conf.epg_conf (codes "mptsd_epg.conf");
  output_filename = or_default conf.output_filename (codes "mptsd-output.ts");
}

-- The numbers that the bit rate makes: whole frames of 1316 bytes in a second, the rate of these, and
-- the microseconds between two of them.
pub record Pace : Type 0 where
  pub output_packets_per_sec : ℕ
  pub output_bitrate : ℕ
  pub output_tmout : ℕ

unfoldable pub align_bitrate : ℕ → Pace
align_bitrate rate =
    let pps = packets_per_second rate in
    record {
      output_packets_per_sec = pps;
      output_bitrate = pps * (1316 * 8);
      output_tmout = 1000000 / pps;
    }

-- do { ... } while (loops++ != 3000), over the microseconds that each usleep(1) takes: `diff` and
-- `loops` at the end. They are for one round only when no measurement is left.
unfoldable pub calibrate_loop : ℕ → ℕ → List ℕ → ℕ × ℕ
calibrate_loop diff loops [] = (diff, loops)
calibrate_loop diff loops (usec ∷ measured) =
    let diff1 = u64 (diff + usec + 2 ^ 64 - 1) in
    let rest = calibrate_loop diff1 (loops + 1) measured in
    if loops == 3000 then (diff1, loops + 1) else rest

-- output_tmout afterwards, which is 0 when the overhead is larger
unfoldable pub calibrate_sleep : ℕ → List ℕ → ℕ
unfolding calibrate_loop
calibrate_sleep output_tmout measured =
    let (diff, loops) = calibrate_loop 0 0 measured in output_tmout - diff / loops

-- What the system does: the file is opened, the thread of the calibration is made, the sleeps that it
-- measures, and the files that are there and can be parsed.
pub record Environment : Type 0 where
  pub opened : CString → Bool
  pub created : Bool
  pub measured : List ℕ
  pub ini : CString → Option Ini

-- output_open_file, for its exit; "-" is the standard output
unfoldable pub output_open_file : Environment → CString → Loading (Unit {0})
output_open_file E filename =
    if str_eq filename (codes "-")
    then running tt
    else if E.opened filename
    then running tt
    else exits 1

unfoldable pub open_output : Environment → Config → Loading (Unit {0})
unfolding output_open_file
open_output E conf =
    if conf.write_output_file
    then elim conf.output_filename [ none ↦ faults | some filename ↦ output_open_file E filename ]
    else running tt

unfoldable pub check_address : Config → Loading (Unit {0})
check_address conf = if conf.write_output_network && conf.out_host == 0 then exits 1 else running tt

-- The thread of the calibration, which is waited for.
unfoldable pub calibrate : Environment → ℕ → Loading ℕ
unfolding calibrate_sleep
calibrate E output_tmout =
    if not E.created
    then exits 1
    else let tmout = calibrate_sleep output_tmout E.measured in
      if tmout == 0 then exits 1 else running tmout

-- `if (!...) goto ERR`
abbrev pub or_exit {ℓ} : {A : Type ℓ} → Option A → Loading A
or_exit none = exits 1
or_exit (some a) = running a

abbrev pub or_fault {ℓ} : {A : Type ℓ} → Option A → Loading A
or_fault none = faults
or_fault (some a) = running a

-- No channel at all ends the program as well.
abbrev pub some_channel : List Channel → Loading (Unit {0})
some_channel [] = exits 1
some_channel (c ∷ cs) = running tt

abbrev pub file : Environment → Option CString → Option Ini
file E none = none
file E (some name) = E.ini name

-- What there is before the guide is read for the first time.
pub record Started : Type 0 where
  pub conf : Config
  pub pace : Pace
  pub obuf0 : Obuf
  pub obuf1 : Obuf
  pub global : Global
  pub nit : List Nit
  pub channels : List Channel

-- The configuration files.
unfoldable pub load_files : Environment → Config → Pace → Loading Started
load_files E conf pace = do
  global_ini ← or_exit (file E conf.global_conf)
  global ← or_exit (config_load_global (some global_ini))
  nit_ini ← or_exit (file E conf.nit_conf)
  nit ← or_fault (config_load_nit nit_ini)
  channels_ini ← or_exit (file E conf.channels_conf)
  channels ← or_fault (load_channels channels_ini)
  _ ← some_channel channels
  let obuf = obuf_alloc pace.output_bitrate 100
  running (record {
    conf = conf;
    pace = pace;
    obuf0 = obuf;
    obuf1 = obuf;
    global = global;
    nit = nit;
    channels = channels;
  })

-- What comes after the options.
unfoldable pub start : Environment → Config → Loading Started
unfolding set_defaults align_bitrate open_output check_address calibrate load_files
start E given = do
  _ ← check_address given
  let conf = set_defaults given
  let pace = align_bitrate conf.output_bitrate
  _ ← open_output E conf
  tmout ← calibrate E pace.output_tmout
  load_files E conf (record pace { output_tmout = tmout })

-- `config_load` but for the socket of the web server and the guide. The two buffers, which hold the
-- milliseconds that `output_new` sets, are allocated before the files are read.
unfoldable pub config_load : SystemLib → Environment → List (ℕ × CString) → Loading Started
unfolding start
config_load S E options = parse_options S initial_config options >>= start E

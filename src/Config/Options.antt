-- ===== src/Config/Options.antt =====
-- config.c: the switch over the options in `config_load`, and the defaults before it.
pub mod Accepted
use mptsd.Base.{
  ℕ, ◌*◌, Bool, true, false, List, [], ◌∷◌, Option, none, some, CString, ℤ, pos, negsuc, atoi,
  is_zero, is_below, strtoul_u32, ltb, ◌==◌, ◌&&◌, ◌||◌, not, if◌then◌else◌, map,
}

-- The fields of CONFIG that options set, and those of its output. `output_bitrate` is in bits per
-- second and a whole number. An address that is not set is 0.
pub record Config : Type 0 where
  pub ident : Option CString
  pub logident : Option CString
  pub pidfile : Option CString
  pub syslog_active : Bool
  pub loghost : Option CString
  pub logport : ℤ
  pub server_addr : Option CString
  pub server_port : ℤ
  pub multicast_ttl : ℤ
  pub output_intf : ℕ
  pub global_conf : Option CString
  pub channels_conf : Option CString
  pub nit_conf : Option CString
  pub epg_conf : Option CString
  pub debug : Bool
  pub quiet : Bool
  pub write_input_file : Bool
  pub write_output_network : Bool
  pub write_output_file : Bool
  pub output_filename : Option CString
  pub pcr_mode : ℤ
  pub use_lcn : Bool
  pub output_bitrate : ℕ
  pub out_host : ℕ
  pub out_port : ℤ
  pub rtp_ssrc : ℕ

-- What the system's functions answer: inet_aton, `none` for 0, and 1000000 * atof, which is taken to be
-- a whole number that is not negative.
pub record SystemLib : Type 0 where
  pub inet_aton : CString → Option ℕ
  pub atof_million : CString → ℕ

-- The configuration so far, the status that the program exits with, or an access to memory that is not
-- the program's.
pub data Loading {ℓ} (A : Type ℓ) : Type ℓ where
  running : A → Loading A
  exits : ℕ → Loading A
  faults : Loading A

infixl 5 ◌>>=◌
abbrev pub ◌>>=◌ {ℓ κ} : {A : Type ℓ} {B : Type κ} → Loading A → (A → Loading B) → Loading B
running a >>= f = f a
exits status >>= f = exits status
faults >>= f = faults

-- What calloc and the first assignments of `config_load` leave.
abbrev pub initial_config : Config
initial_config = record {
  ident = none;
  logident = none;
  pidfile = none;
  syslog_active = false;
  loghost = none;
  logport = pos 514;
  server_addr = none;
  server_port = pos 0;
  multicast_ttl = pos 1;
  output_intf = 0;
  global_conf = none;
  channels_conf = none;
  nit_conf = none;
  epg_conf = none;
  debug = false;
  quiet = false;
  write_input_file = false;
  write_output_network = true;
  write_output_file = false;
  output_filename = none;
  pcr_mode = pos 0;
  use_lcn = false;
  output_bitrate = 38 * 1000000;
  out_host = 0;
  out_port = pos 5000;
  rtp_ssrc = 0;
}

-- while (*c) { if (*c=='/') *c='-'; c++; }
abbrev pub dashed : CString → CString
dashed = map (λ c. if c == b'/' then b'-' else c)

abbrev pub valid_mode : ℤ → ℤ
valid_mode mode = if is_below mode 0 || not (is_below mode 5) then pos 0 else mode

abbrev pub valid_ttl : ℤ → ℤ
valid_ttl ttl = if not (is_zero ttl) && is_below ttl 127 then ttl else pos 1

-- The options that are always accepted; for any other character, the configuration as it is.
unfoldable pub parse_plain : Config → ℕ → CString → Config
parse_plain conf j optarg =
    if j == b'i'
    then record conf { ident = some optarg; logident = some (dashed optarg) }
    else if j == b'b'
    then record conf { server_addr = some optarg }
    else if j == b'p'
    then record conf { server_port = atoi optarg }
    else if j == b'd'
    then record conf { pidfile = some optarg }
    else if j == b'g'
    then record conf { global_conf = some optarg }
    else if j == b'c'
    then record conf { channels_conf = some optarg }
    else if j == b'n'
    then record conf { nit_conf = some optarg }
    else if j == b'e'
    then record conf { epg_conf = some optarg }
    else if j == b's'
    then record conf { rtp_ssrc = strtoul_u32 optarg }
    else if j == b'm'
    then record conf { pcr_mode = valid_mode (atoi optarg) }
    else if j == b't'
    then record conf { multicast_ttl = valid_ttl (atoi optarg) }
    else if j == b'l'
    then record conf { loghost = some optarg; syslog_active = true }
    else if j == b'L'
    then record conf { logport = atoi optarg }
    else if j == b'N'
    then record conf { write_output_network = false }
    else if j == b'W'
    then record conf { write_output_file = true }
    else if j == b'E'
    then record conf { write_input_file = true }
    else if j == b'f'
    then record conf { output_filename = some optarg }
    else if j == b'9'
    then record conf { use_lcn = true }
    else if j == b'D'
    then record conf { debug = true }
    else if j == b'q'
    then record conf { quiet = true }
    else conf

abbrev pub set_intf : Config → Option ℕ → Loading Config
set_intf conf none = exits 1
set_intf conf (some address) = running (record conf { output_intf = address })

abbrev pub set_host : Config → Option ℕ → Loading Config
set_host conf none = exits 1
set_host conf (some address) = running (record conf { out_host = address })

abbrev pub set_port : Config → ℤ → Loading Config
set_port conf port =
    if is_zero port || is_below port 1024
    then exits 1
    else running (record conf { out_port = port })

abbrev pub set_bitrate : Config → ℕ → Loading Config
set_bitrate conf rate =
    if ltb rate 2000000 || ltb 75000000 rate
    then exits 1
    else running (record conf { output_bitrate = rate })

unfoldable pub parse_option : SystemLib → Config → ℕ × CString → Loading Config
unfolding parse_plain
parse_option S conf (j, optarg) =
    if j == b'o'
    then set_intf conf (S.inet_aton optarg)
    else if j == b'O'
    then set_host conf (S.inet_aton optarg)
    else if j == b'P'
    then set_port conf (atoi optarg)
    else if j == b'B'
    then set_bitrate conf (S.atof_million optarg)
    else if j == b'H' || j == b'h'
    then exits 0
    else running (parse_plain conf j optarg)

-- The loop over what getopt answers.
unfoldable pub parse_options : SystemLib → Config → List (ℕ × CString) → Loading Config
unfolding parse_option
parse_options S conf [] = running conf
parse_options S conf (option ∷ options) =
    parse_option S conf option >>= λ conf1. parse_options S conf1 options

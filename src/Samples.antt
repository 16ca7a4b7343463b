-- ===== src/Samples.antt =====
-- Concrete data for the tests: a small version of the two libraries, in which a packet is a short list
-- of bytes that has its identifier, its control byte and its clock where the code's accesses expect
-- them, and an input, its channel, its tables and an output; and a configuration file.
use mptsd.Base.{
  ℕ, ◌+◌, ◌-◌, ◌*◌, ◌/◌, ◌%◌, true, false, List, Option, [], ◌∷◌, ◌≡◌, refl, CString, str_eq, ◌++◌,
  none, some, codes, Bytes, length, get_or, set, take, drop, replicate, ltb, ◌==◌, if◌then◌else◌,
}
use mptsd.Libs.{Pat, Pmt, Eit, Cbuf, Libs}
use mptsd.Pidref.{Pidref}
use mptsd.Url.{is_valid_url, match_url, span}
use mptsd.Config.{Ini}
use mptsd.Config.Channels.{load_source, source_text, scan_worktime, load_channels}
use mptsd.Channel.{Channel, blank_channel, channel_new}
use mptsd.Output.{obuf_empty, Output}
use mptsd.Input.{InputStream, Input, buffered}

abbrev pub packet : ℕ → ℕ → ℕ → Bytes
packet pid control clock = 0x47 ∷ pid / 256 ∷ pid % 256 ∷ control ∷ clock ∷ []

abbrev pub get_pid : Bytes → ℕ
get_pid p = (get_or p 1 0 % 32) * 256 + get_or p 2 0

abbrev pub set_pid : Bytes → ℕ → Bytes
set_pid p pid = set (set p 1 (pid / 256)) 2 (pid % 256)

abbrev pub no_pat : Pat
no_pat = record { initialized = false; continuity = 0; packets = []; programs = [] }

abbrev pub no_pmt : Pmt
no_pmt = record {
  initialized = false;
  continuity = 0;
  pid = 0;
  packets = [];
  ts_id_number = 0;
  pcr_pid = 0;
  streams = [];
}

abbrev pub no_eit : Eit
no_eit = record {
  initialized = false;
  continuity = 0;
  packets = [];
  ts_id_number = 0;
  table_id = 0;
  transport_stream_id = 0;
  version_number = 0;
}

-- A piece goes into the buffer when it has room for it.
abbrev pub cbuf_fill : Cbuf → Bytes → ℕ × Cbuf
cbuf_fill b d =
    if ltb b.size (buffered b + length d)
    then (1, b)
    else (0, record b { input = b.input + length d; memory = b.memory ++ d })

abbrev pub libs : Libs
libs = record {
  ts_packet_get_pid = get_pid;
  ts_packet_set_pid = set_pid;
  ts_packet_has_pcr = λ p. get_or p 3 0 == 0x20;
  ts_packet_get_pcr = λ p. get_or p 4 0;
  ts_packet_set_pcr = λ p v. set p 4 v;
  ts_packet_set_cont = λ p v. set p 3 (v % 16);
  ts_pat_alloc = no_pat;
  ts_pat_push_packet = λ t p. record t { initialized = true; packets = t.packets ++ p ∷ [] };
  ts_pat_is_same = λ t u. length t.programs == length u.programs;
  ts_pat_copy = λ t. some t;
  ts_pat_regenerate_packets = λ t. t;
  ts_pmt_alloc = no_pmt;
  ts_pmt_push_packet = λ t p. record t { initialized = true; packets = t.packets ++ p ∷ [] };
  ts_pmt_is_same = λ t u. length t.streams == length u.streams;
  ts_pmt_copy = λ t. some t;
  ts_pmt_regenerate_packets = λ t. t;
  ts_eit_alloc = no_eit;
  ts_eit_push_packet = λ t p. record t { initialized = true; packets = t.packets ++ p ∷ [] };
  ts_eit_copy = λ t. some t;
  ts_eit_regenerate_packets = λ t. t;
  cbuf_init = λ size name. record { size = size; input = 0; output = 0; memory = [] };
  cbuf_fill = cbuf_fill;
  cbuf_get = λ b n. (take n b.memory, record b { output = b.output + n; memory = drop n b.memory });
  cbuf_peek = λ b n. take n b.memory;
  timeval_diff_msec = λ a b. b - a;
  ts_tdt_set_time = λ t time. t;
  ts_tot_set_localtime_offset_sofia = λ t time. t;
}

-- Two sources, the second one current.
abbrev pub channel : ℕ → Channel
channel index = record (blank_channel 501 false (codes "bbc") (codes "BBC") 1 index 1 true) {
  source = some (codes "http://b/");
  sources = some (codes "udp://a/") ∷ some (codes "http://b/") ∷ replicate 6 none;
  num_src = 2;
  curr_src = 1;
}

-- A PAT with one service, and a PMT whose clock is its first stream's.
abbrev pub pat : Pat
pat = record no_pat {
  initialized = true;
  packets = packet 0 0x10 0 ∷ [];
  programs = record { program = 0; pid = 0x10 } ∷ record { program = 7; pid = 100 } ∷ [];
}

abbrev pub pmt : Pmt
pmt = record no_pmt {
  initialized = true;
  pid = 100;
  packets = packet 100 0x10 0 ∷ [];
  ts_id_number = 7;
  pcr_pid = 101;
  streams = record { pid = 101; stream_type = 2 } ∷ record { pid = 102; stream_type = 4 } ∷ [];
}

abbrev pub stream : Pidref → InputStream
stream pidref = record {
  pidref = pidref;
  nit_pid = 0x10;
  pmt_pid = 100;
  pcr_pid = 0;
  pat = pat;
  pmt = pmt;
  eit = no_eit;
  input_pcr = 0;
  pid_pat_cont = 0;
  pid_pmt_cont = 0;
  pid_eit_cont = 0;
  pat_rewritten = none;
  pmt_rewritten = none;
  eit_rewritten = none;
  last_pat = no_pat;
  last_pmt = no_pmt;
}

abbrev pub buffer : ℕ → Cbuf
buffer size = record { size = size; input = 0; output = 0; memory = [] }

abbrev pub input : ℕ → InputStream → Input
input index s = record {
  name = codes "INPUT";
  channel = channel index;
  sock = none;
  reconnect = false;
  connected = false;
  working = true;
  dienow = false;
  freechannel = false;
  cookie = 0;
  ifd = false;
  input_file = [];
  output_pcr_pid = 0;
  output_last_pcr = 0;
  output_pcr = 0;
  output_pcr_packets_needed = 0;
  outputed_packets = 0;
  disabled = false;
  input_ready = 0;
  buf = buffer 20;
  stream = s;
}

-- A new connection of the channel, as its base is 32 times its index.
abbrev pub new_input : ℕ → Input
new_input index = input index (
    stream (record {
      base_pid = 32 * index;
      num = 64;
      entries = replicate 64 (record { org_pid = 0; new_pid = 0 });
    }))

-- An output with a bit rate of a megabit, and no tables.
abbrev pub output : Output
output = record {
  out_sock = some 3;
  ofd = false;
  dienow = 0;
  psibuf = buffer 20;
  obuf_ms = 100;
  obuf0 = record { buf = []; written = 0; status = obuf_empty };
  obuf1 = record { buf = []; written = 0; status = obuf_empty };
  output_bitrate = 1000000;
  traffic = 0;
  traffic_period = 0;
  padding_period = 376;
  pid_pat_cont = 0;
  pid_nit_cont = 0;
  pid_sdt_cont = 0;
  pid_eit_cont = 0;
  pid_tdt_cont = 0;
  pat = no_pat;
  pat_ts = 0;
  sdt = none;
  sdt_ts = 0;
  nit = none;
  nit_ts = 0;
  tdt = none;
  tdt_ts = 0;
  tot = none;
  tot_ts = 0;
  eit_ts = 0;
  last_org_pcr = λ p. 0;
  last_pcr = λ p. 0;
  last_traffic = λ p. 0;
  rtp_sequence_number = 65535;
  rtp_ssrc = 0;
}

abbrev pub lookup : CString → List (CString × CString) → Option CString
lookup key [] = none
lookup key ((k, v) ∷ entries) = if str_eq key k then some v else lookup key entries

abbrev pub number : CString → ℕ → List (CString × ℕ) → ℕ
number key otherwise [] = otherwise
number key otherwise ((k, v) ∷ entries) = if str_eq key k then v else number key otherwise entries

abbrev pub ini_of : List (CString × CString) → List (CString × ℕ) → Ini
ini_of texts numbers = record {
  get_string = λ key. lookup key texts;
  get_int = λ key otherwise. number key otherwise numbers;
  get_bool = λ key. false;
}

-- One channel with hours and two sources.
abbrev pub channels_file : Ini
channels_file =
    ini_of
      ((codes "Channel3:id", codes "bbc")
        ∷ (codes "Channel3:name", codes "BBC")
        ∷ (codes "Channel3:source", codes "udp://10.0.0.1/")
        ∷ (codes "Channel3:source2", codes "http://b/")
        ∷ (codes "Channel3:worktime", codes "06:00-22:30")
        ∷ [])
      ((codes "Channel3:service_id", 501) ∷ [])

abbrev pub bbc : Channel
bbc = record (blank_channel 501 false (codes "bbc") (codes "BBC") 0 3 0 false) {
  source = some (codes "udp://10.0.0.1/");
  sources = some (codes "udp://10.0.0.1/") ∷ some (codes "http://b/") ∷ replicate 6 none;
  num_src = 2;
  worktime_start = 21600;
  worktime_end = 81000;
}

pub loads_bbc : load_channels channels_file ≡ some (bbc ∷ [])
unfolding load_channels str_eq load_source source_text is_valid_url match_url span channel_new
    scan_worktime
loads_bbc = refl

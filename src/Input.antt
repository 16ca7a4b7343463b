-- ===== src/Input.antt =====
-- data.h and input.c: the state of one input, its buffer, and the commands that it checks for.
-- `input_file` is what `write` has put into the optional copy of the input; `sock` is the socket
-- descriptor, `none` for -1. The children model the tables, the packet loop and the connections.
pub mod Tables
pub mod Allocation
pub mod Buffer
pub mod Handlers
pub mod Packets
pub mod Session
pub mod Worktime
pub mod Gate
pub mod Programs
pub mod Stable
mod Tests
use mptsd.Base.{
  ℕ, ◌+◌, ◌-◌, ◌*◌, ◌^◌, ◌≡◌, Bool, true, false, List, [], ◌∷◌, ◌++◌, Option, none, some, CString,
  Bytes, u64, leb, ltb, ◌==◌, ◌&&◌, ◌||◌, not, if◌then◌else◌,
}
use mptsd.Libs.{Libs, Pat, Pmt, Eit, Cbuf}
use mptsd.Channel.{Channel}
use mptsd.Pidref.{Pidref, pidref_init}

pub record InputStream : Type 0 where
  pub pidref : Pidref
  pub nit_pid : ℕ
  pub pmt_pid : ℕ
  pub pcr_pid : ℕ
  pub pat : Pat
  pub pmt : Pmt
  pub eit : Eit
  pub input_pcr : ℕ
  pub pid_pat_cont : ℕ
  pub pid_pmt_cont : ℕ
  pub pid_eit_cont : ℕ
  pub pat_rewritten : Option Pat
  pub pmt_rewritten : Option Pmt
  pub eit_rewritten : Option Eit
  pub last_pat : Pat
  pub last_pmt : Pmt

pub record Input : Type 0 where
  pub name : CString
  pub channel : Channel
  pub sock : Option ℕ
  pub reconnect : Bool
  pub connected : Bool
  pub working : Bool
  pub dienow : Bool
  pub freechannel : Bool
  pub cookie : ℕ
  pub ifd : Bool
  pub input_file : List Bytes
  pub output_pcr_pid : ℕ
  pub output_last_pcr : ℕ
  pub output_pcr : ℕ
  pub output_pcr_packets_needed : ℕ
  pub outputed_packets : ℕ
  pub disabled : Bool
  pub input_ready : ℕ
  pub buf : Cbuf
  pub stream : InputStream

-- `input_stream_reset`: `input_stream_free` and then `input_stream_alloc`. The continuity counters
-- are in neither, so they run on.
unfoldable pub input_stream_reset : Libs → Input → Input
input_stream_reset L r = record r {
  stream = record {
    pidref = pidref_init 64 r.channel.base_pid;
    nit_pid = 0;
    pmt_pid = 0;
    pcr_pid = 0;
    pat = L.ts_pat_alloc;
    pmt = L.ts_pmt_alloc;
    eit = L.ts_eit_alloc;
    input_pcr = 0;
    pid_pat_cont = r.stream.pid_pat_cont;
    pid_pmt_cont = r.stream.pid_pmt_cont;
    pid_eit_cont = r.stream.pid_eit_cont;
    pat_rewritten = none;
    pmt_rewritten = none;
    eit_rewritten = none;
    last_pat = L.ts_pat_alloc;
    last_pmt = L.ts_pmt_alloc;
  };
}

-- The bytes that wait in a buffer: unsigned long input - output.
abbrev pub buffered : Cbuf → ℕ
buffered b = u64 (b.input + 2 ^ 64 - b.output)

-- (double)bufsize / size * 100 <= 50. The quotient of two integers below 2 ^ 53 is at most 1/2 in
-- double arithmetic exactly when it is in the rationals; 0 / 0 is not a number, and no test holds.
abbrev pub half_empty : Cbuf → Bool
half_empty b = not (b.size == 0) && leb (2 * buffered b) b.size

abbrev log_input : Input → Bytes → Input
log_input r bytes = record r {
  input_file = if r.ifd then r.input_file ++ bytes ∷ [] else r.input_file;
}

-- The last part of `input_buffer_add`, for an input that is not disabled.
unfoldable pub fill_buffer : Libs → Input → Bytes → Input
fill_buffer L r bytes =
    let (failed, buf) = L.cbuf_fill r.buf bytes in
    if failed == 0 then record r { buf = buf } else record r { buf = buf; disabled = true }

unfoldable pub input_buffer_add : Libs → Input → Bytes → Input
unfolding fill_buffer
input_buffer_add L r bytes =
    let r' = log_input r bytes in
    if r.dienow
    then r
    else if r.disabled
    then if half_empty r'.buf then fill_buffer L (record r' { disabled = false }) bytes else r'
    else fill_buffer L r' bytes

unfoldable pub input_check_state : Input → ℕ
input_check_state r = if r.dienow then 2 else if r.reconnect then 1 else 0

-- `seconds` is the local time of day, which the code asks the system for.
unfoldable pub in_worktime : ℕ → ℕ → ℕ → Bool
in_worktime start end seconds =
    if start == 0 && end == 0
    then true
    else if ltb end start
    then (if leb seconds start && ltb end seconds then false else true)
    else (if leb start seconds && ltb seconds end then true else false)

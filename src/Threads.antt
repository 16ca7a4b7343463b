-- ===== src/Threads.antt =====
-- mptsd.c: the starting of the input threads and the end of the program; data.c: `input_new`.
pub mod Spawn
pub mod Kill
mod Tests
use mptsd.Base.{
  ℕ, zero, suc, ◌+◌, ◌*◌, Bool, true, false, List, [], ◌∷◌, ◌++◌, none, CString, str_eq, leb, ltb,
  ◌==◌, ◌&&◌, ◌||◌, not, if◌then◌else◌,
}
use mptsd.Libs.{Libs}
use mptsd.Pidref.{pidref_init}
use mptsd.Channel.{Channel}
use mptsd.Input.{InputStream, Input}

-- What calloc and `input_stream_alloc` leave.
abbrev pub new_stream : Libs → ℕ → InputStream
new_stream L base_pid = record {
  pidref = pidref_init 64 base_pid;
  nit_pid = 0;
  pmt_pid = 0;
  pcr_pid = 0;
  pat = L.ts_pat_alloc;
  pmt = L.ts_pmt_alloc;
  eit = L.ts_eit_alloc;
  input_pcr = 0;
  pid_pat_cont = 0;
  pid_pmt_cont = 0;
  pid_eit_cont = 0;
  pat_rewritten = none;
  pmt_rewritten = none;
  eit_rewritten = none;
  last_pat = L.ts_pat_alloc;
  last_pmt = L.ts_pmt_alloc;
}

-- `opened` says whether `ifd` is other than 0 after the attempt to open the copy's file.
unfoldable pub input_new : Libs → Bool → Bool → CString → Channel → Input
input_new L write_input_file opened name channel = record {
  name = name;
  channel = channel;
  sock = none;
  reconnect = false;
  connected = false;
  working = false;
  dienow = false;
  freechannel = false;
  cookie = 0;
  ifd = write_input_file && opened;
  input_file = [];
  output_pcr_pid = 0;
  output_last_pcr = 0;
  output_pcr = 0;
  output_pcr_packets_needed = 0;
  outputed_packets = 0;
  disabled = false;
  input_ready = 0;
  buf = L.cbuf_init (1428 * 1316 * 4) channel.id;
  stream = new_stream L channel.base_pid;
}

-- restreamer_active
unfoldable pub is_active : CString → List Input → Bool
is_active name [] = false
is_active name (r ∷ inputs) = if str_eq r.name name then true else is_active name inputs

-- spawned++ when pthread_create succeeds
abbrev pub count_spawned : Bool → List Input × ℕ → List Input × ℕ
count_spawned created (inputs, spawned) = (inputs, if created then spawned + 1 else spawned)

-- The inputs afterwards, and the number that is logged. `created` says for which name pthread_create
-- succeeds. A new input goes to the end of the list before its thread is made.
unfoldable pub spawn_input_threads :
    Libs → Bool → (CString → Bool) → (CString → Bool) → List Channel → List Input → List Input × ℕ
unfolding input_new is_active
spawn_input_threads L write_input_file opened created [] inputs = (inputs, 0)
spawn_input_threads L write_input_file opened created (c ∷ channels) inputs =
    elim (is_active c.name inputs) [
      | true ↦ spawn_input_threads L write_input_file opened created channels inputs
      | false ↦ count_spawned (created c.name) (
          spawn_input_threads L write_input_file opened created channels
            (inputs ++ input_new L write_input_file (opened c.name) c.name c ∷ []))
    ]

-- How the loop of `kill_threads` goes: it ends, the program exits in it, or it goes on.
pub data Ending : Type 0 where
  stopped exited waiting : Ending

-- conf->inputs->items || conf->output->dienow < 4
abbrev pub is_busy : ℕ × ℕ → Bool
is_busy (items, dienow) = not (items == 0) || ltb dienow 4

-- The loop, with what the two fields are at each test of it.
unfoldable pub kill_threads : ℕ → List (ℕ × ℕ) → Ending
kill_threads loops [] = waiting
kill_threads loops (look ∷ looks) =
    let rest = kill_threads (loops + 1) looks in
    if is_busy look then (if ltb 60 loops then exited else rest) else stopped

-- ===== src/Input/Session.antt =====
-- input.c: the loops of `input_stream`. What other threads, the clock and the socket do between two
-- rounds is a list of events; the functions end when the list does.
pub mod Reconnect
use mptsd.Base.{
  ℕ, ◌+◌, ◌-◌, ◌/◌, ◌≡◌, Bool, true, false, List, [], ◌∷◌, Option, none, some, Bytes, CString, pos,
  take, ltb, ◌==◌, ◌&&◌, ◌||◌, not, if◌then◌else◌, codes,
}
use mptsd.Libs.{Libs}
use mptsd.Channel.{chansrc_next}
use mptsd.Url.{is_rtp, get_sproto}
use mptsd.Network.{SyncEnv, SyncResult, synced, unsynced, mpeg_sync}
use mptsd.Network.Connect.{ConnectEnv, Connection, connected_ok, retry, exit_thread, connect_source}
use mptsd.Input.{Input, input_stream_reset, input_check_state, in_worktime}
use mptsd.Input.Packets.{Flow, next, reconnect, quit, handle_packets}

-- One round of the reading loop.
pub record Event : Type 0 where
  pub seconds : ℕ
  -- flags that another thread has set since the last round
  pub set_reconnect : Bool
  pub set_dienow : Bool
  -- what `fdread_ex` returns, `none` for a negative number
  pub readen : Option ℕ
  -- the packets that stand in the frame buffer afterwards
  pub buf : List Bytes

-- Where the reading loop goes; `waiting` is no place of the source, but the end of the events.
pub data LoopEnd : Type 0 where
  to_reconnect to_stop to_quit waiting : LoopEnd

abbrev pub max_zero_reads : ℕ
max_zero_reads = 3

abbrev pub note_flags : Event → Input → Input
note_flags e r = record r {
  reconnect = r.reconnect || e.set_reconnect;
  dienow = r.dienow || e.set_dienow;
  working = in_worktime r.channel.worktime_start r.channel.worktime_end e.seconds;
}

-- The RTP header is not counted.
abbrev pub payload : Bool → ℕ → ℕ
payload rtp readen = if rtp && ltb 12 readen then readen - 12 else readen

-- How many packets the loop `for (i=0; i<readen; i+=188)` visits.
abbrev pub visited : ℕ → ℕ
visited readen = (readen + 187) / 188

-- for (;;)
unfoldable pub read_loop : Libs → ℕ → Bool → List Event → ℕ → Input → LoopEnd × Input
read_loop L t rtp [] zero_reads r = (waiting, r)
read_loop L t rtp (e ∷ es) zero_reads r =
    let r' = note_flags e r in
    elim r'.working [
      | false ↦ (to_stop, r')
      | true ↦
          if input_check_state r' == 1
          then (to_reconnect, r')
          else if input_check_state r' == 2
          then (to_quit, r')
          else elim e.readen [
            | none ↦ (to_reconnect, r')
            | some n ↦
                let readen = payload rtp n in
                let (flow, r'') = handle_packets L t r' (take (visited readen) e.buf) in
                let idle = read_loop L t rtp es (zero_reads - 1) r' in
                let busy = read_loop L t rtp es max_zero_reads r'' in
                if readen == 0
                then (if zero_reads - 1 == 0 then (to_reconnect, r') else idle)
                else elim flow [
                  | next ↦ busy
                  | reconnect ↦ (to_reconnect, r'')
                  | quit ↦ (to_quit, r'')
                ]
          ]
    ]

-- A look at the clock, and whether `keep_going` is still set after it.
pub record Look : Type 0 where
  pub seconds : ℕ
  pub keep_going : Bool

-- One round of the outer loop: what the clock shows while the input waits for its hours,
-- what the connection meets, and then the events of the reading loop.
pub record Attempt : Type 0 where
  pub waits : List Look
  pub seconds : ℕ
  pub connect : ConnectEnv
  -- what the socket delivers while `mpeg_sync` looks for packets
  pub sync : SyncEnv
  pub bytes : Bytes
  pub events : List Event

-- while (!r->working); the second result is false when the program is told to end, also when that is seen
-- together with the start of the hours.
unfoldable pub wait_worktime : List Look → Input → Input × Bool
wait_worktime [] r = (r, r.working)
wait_worktime (l ∷ ls) r =
    let r' = record r {
      working = in_worktime r.channel.worktime_start r.channel.worktime_end l.seconds;
    } in
    let rest = wait_worktime ls r' in
    if r.working then (r, true) else if l.keep_going then rest else (r', false)

-- RECONNECT and STOP
abbrev pub close_source : Input → Input
close_source r = record r { sock = none }

unfoldable pub next_source : Input → Input
next_source r = record r { sock = none; channel = chansrc_next r.channel }

unfoldable pub after_loop : LoopEnd × Input → Bool × Input
unfolding next_source
after_loop (to_reconnect, r) = (true, next_source r)
after_loop (to_stop, r) = (true, close_source r)
after_loop (to_quit, r) = (false, r)
after_loop (waiting, r) = (true, r)

-- mpeg_sync(r, sproto) == 0
abbrev pub is_synced : Option SyncResult → Bool
is_synced none = false
is_synced (some unsynced) = false
is_synced (some (synced rest read_bytes)) = true

abbrev pub source_url : Input → CString
source_url r = elim r.channel.source [ none ↦ [] | some url ↦ url ]

-- From the connection on: whether the outer loop goes on, and the input.
unfoldable pub serve : Libs → ℕ → Attempt → Input → Bool × Input
unfolding after_loop
serve L t a r =
    let (connection, _, r') = connect_source a.connect 1 (pos 0) r in
    let rtp = is_rtp (source_url r') in
    let read = after_loop (read_loop L t rtp a.events max_zero_reads (input_stream_reset L r')) in
    elim connection [
      | connected_ok ↦
          if not rtp && not (is_synced (mpeg_sync a.sync a.bytes))
          then (true, next_source r')
          else read
      | retry ↦ (true, next_source r')
      | exit_thread ↦ (true, next_source r')
    ]

-- One round of `while (keep_going)`; the result is false at QUIT.
unfoldable pub input_round : Libs → ℕ → Attempt → Input → Bool × Input
unfolding serve wait_worktime
input_round L t a r =
    let (r', awake) = wait_worktime a.waits r in
    let r'' = record r' {
      working = in_worktime r'.channel.worktime_start r'.channel.worktime_end a.seconds;
    } in
    if input_check_state r == 2
    then (false, r)
    else if not awake
    then (false, r')
    else serve L t a r''

-- while (keep_going); true while the thread lives.
unfoldable pub input_rounds : Libs → ℕ → List Attempt → Input → Bool × Input
input_rounds L t [] r = (true, r)
input_rounds L t (a ∷ as') r =
    let (alive, r') = input_round L t a r in
    let rest = input_rounds L t as' r' in if alive then rest else (false, r')

-- The thread from its start at the time of day `now`.
unfoldable pub input_stream : Libs → ℕ → ℕ → List Attempt → Input → Bool × Input
unfolding input_rounds
input_stream L t now attempts r =
    input_rounds L t attempts
      (record r { working = in_worktime r.channel.worktime_start r.channel.worktime_end now })

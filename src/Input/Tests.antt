-- ===== src/Input/Tests.antt =====
-- Runs of the input: its tables, its buffer, its packets and its connections.
use mptsd.Base.{
  ℕ, ◌+◌, ◌*◌, ◌<◌, ◌≡◌, ◌≢◌, ◌↔◌, inl, refl, true, false, List, [], ◌∷◌, none, some, Bytes,
  replicate, All, arith,
}
use mptsd.Pidref.{Pidref}
use mptsd.Pidref.Table
use mptsd.Channel.Sources
use mptsd.Input.{InputStream, Input, input_stream_reset, input_buffer_add, in_worktime, buffered}
use mptsd.Input.Tables.{input_rewrite_pat, input_rewrite_pmt, input_process_pat}
use mptsd.Input.Allocation.Ranges.{PmtLaws, CanTake, Agrees, saved_pmt, input_rewrite_pmt_lem}
use mptsd.Input.Allocation.Blocks.{
  InBlock, InBlockOf, service_pids, base-input_rewrite_pat, reset-InBlock, announced_disjoint,
}
use mptsd.Input.Buffer.{CbufLaws, add_all, fill_until, add_all-fill_until}
use mptsd.Input.Programs.{network_before, first_program, or_else, input_process_pat_lem}
use mptsd.Input.Worktime.{InHours, in_worktime_lem}
use mptsd.Input.Packets.{handle_packets}
use mptsd.Input.Stable.{Settled, handle_packets-Settled}
use mptsd.Input.Session.{Attempt, input_rounds}
use mptsd.Input.Session.Reconnect.{Unresolved, input_rounds_rotate}
use mptsd.Samples.{libs, packet, channel, pat, pmt, stream, input, new_input, buffer}

libs-PmtLaws : PmtLaws libs
libs-PmtLaws = record {
  copied = λ p q e. ground arith;
  streams_kept = λ p. refl;
  pcr_kept = λ p. refl;
}

-- The table after the PAT: one identifier is given away.
abbrev table : ℕ → Pidref
table index = record {
  base_pid = 32 * index + 1;
  num = 4;
  entries =
      record { org_pid = 100; new_pid = 32 * index }
      ∷ record { org_pid = 0; new_pid = 0 }
      ∷ record { org_pid = 0; new_pid = 0 }
      ∷ record { org_pid = 0; new_pid = 0 }
      ∷ [];
}

table-IsValid : (index : ℕ) → Table.IsValid (table index)
table-IsValid index = record {
  places = refl;
  packed = (λ e. absurd (omega arith), (λ e. (refl, (refl, tt)), (λ e. (refl, tt), (λ e. tt, tt))));
}

abbrev announcing : ℕ → Input
announcing index = input index (stream (table index))

announcing-CanTake : (index : ℕ) → index < 256 → CanTake (table index) 101 pmt.streams
unfolding mptsd.Pidref.Table.used mptsd.Pidref.Delete.has_pid
announcing-CanTake index h = record {
  valid = table-IsValid index;
  clock = λ e. absurd (omega arith);
  clock_new = refl;
  fresh = (
    λ e. absurd (omega arith),
    λ ne. (refl, (λ e. absurd (omega arith), tt)),
    (λ e. absurd (omega arith), λ ne. (refl, tt), tt),
  );
  room = omega arith;
  word = omega arith;
}

input_rewrite_pmt_example :
    Agrees
      (announcing 3)
      101
      pmt.streams
      (saved_pmt libs (announcing 3) pmt)
      (input_rewrite_pmt libs (announcing 3))
input_rewrite_pmt_example =
    input_rewrite_pmt_lem libs libs-PmtLaws (announcing 3) pmt refl
      (announcing-CanTake 3 (omega arith))

base-input_rewrite_pat_example : (input_rewrite_pat libs (new_input 3)).stream.pidref.base_pid ≡ 97
unfolding mptsd.Input.Allocation.Blocks.services
base-input_rewrite_pat_example = base-input_rewrite_pat libs (new_input 3) pat refl (omega arith)

reset-InBlock_example : InBlock (input_rewrite_pat libs (new_input 3))
unfolding mptsd.Input.Allocation.Blocks.services input_stream_reset mptsd.Pidref.pidref_init
reset-InBlock_example =
    reset-InBlock libs (new_input 3) (new_input 3) pat refl (omega arith) refl refl refl
      (omega arith)

announcing-InBlock : (index : ℕ) → index < 256 → InBlock (announcing index)
announcing-InBlock index h = record { from = omega arith; to = omega arith }

abbrev rewritten :
    (index : ℕ)
    → index < 256
    → Agrees
        (announcing index)
        101
        pmt.streams
        (saved_pmt libs (announcing index) pmt)
        (input_rewrite_pmt libs (announcing index))
rewritten index h =
    input_rewrite_pmt_lem libs libs-PmtLaws (announcing index) pmt refl (announcing-CanTake index h)

announced_disjoint_example :
    InBlockOf 3 (service_pids (saved_pmt libs (announcing 3) pmt))
    × All
        (λ m. All (λ m'. m ≢ m') (service_pids (saved_pmt libs (announcing 4) pmt)))
        (service_pids (saved_pmt libs (announcing 3) pmt))
announced_disjoint_example =
    announced_disjoint libs libs-PmtLaws (announcing 3) (announcing 4) pmt pmt
      (saved_pmt libs (announcing 3) pmt) (saved_pmt libs (announcing 4) pmt)
      (λ e. absurd (omega arith)) (announcing-InBlock 3 (omega arith))
      (announcing-InBlock 4 (omega arith)) refl refl (announcing-CanTake 3 (omega arith))
      (announcing-CanTake 4 (omega arith)) (rewritten 3 (omega arith)).rewritten
      (rewritten 4 (omega arith)).rewritten

libs-CbufLaws : CbufLaws libs
libs-CbufLaws = record { size_kept = λ b d. ground arith; refused = λ b d h. ground arith }

abbrev pieces : List Bytes
pieces = replicate 8 1 ∷ replicate 8 2 ∷ replicate 8 3 ∷ replicate 1 4 ∷ []

add_all-fill_until_example :
    ((add_all libs (new_input 3) pieces).buf ≡ (fill_until libs (buffer 20) pieces).0)
    × ((add_all libs (new_input 3) pieces).disabled ≡ (fill_until libs (buffer 20) pieces).1)
add_all-fill_until_example =
    add_all-fill_until libs libs-CbufLaws pieces (new_input 3)
      (omega arith, (omega arith, (omega arith, (omega arith, tt)))) refl refl

input_process_pat_example :
    let s = stream (table 3) in
    input_process_pat s ≡ (
      1,
      record s {
        nit_pid = network_before 0x10 pat.programs;
        pmt_pid = or_else (first_program pat.programs) 100;
      },
    )
input_process_pat_example = input_process_pat_lem (stream (table 3))

in_worktime_lem_example : (in_worktime 7200 3600 7200 ≡ true) ↔ InHours 7200 3600 7199
in_worktime_lem_example =
    in_worktime_lem 7200 3600 7199 (omega arith) (omega arith) (omega arith)
      (inl (λ e. absurd (omega arith)))

abbrev video : Bytes
video = packet 101 0x10 0

abbrev settled : Input
settled = input 3 (record (stream (table 3)) { pat_rewritten = some pat; pmt_rewritten = some pmt })

abbrev traffic : List Bytes
traffic = packet 0 0x10 0 ∷ packet 100 0x10 0 ∷ packet 101 0x20 5 ∷ video ∷ packet 0x12 0x10 0 ∷ []

handle_packets-Settled_example : Settled (table 3) (handle_packets libs 1 settled traffic).1
handle_packets-Settled_example =
    handle_packets-Settled libs (table 3) 1 traffic settled
      (record { pat = refl; pmt = refl; table = refl })

-- An attempt at ten o'clock, in hours from eight to eight.
abbrev lost : Attempt
lost = record {
  waits = [];
  seconds = 36000;
  connect = record {
    resolve = 1;
    socket = none;
    connects = false;
    multicast = false;
    joins = false;
    binds = false;
    response = [];
  };
  sync = record { late = λ n. false; dienow = λ n. false };
  bytes = [];
  events = [];
}

abbrev by_day : Input
by_day = record (new_input 3) {
  channel = record (channel 3) { worktime_start = 28800; worktime_end = 72000 };
  reconnect = true;
}

lost-Unresolved : Unresolved by_day.channel lost
unfolding in_worktime
lost-Unresolved = (λ e. absurd (omega arith), refl)

by_day-IsValid : Sources.IsValid by_day.channel
by_day-IsValid = record {
  places = refl;
  count = omega arith;
  filled = (refl, (refl, (refl, (refl, (refl, (refl, (refl, (refl, refl))))))));
  current = inl (omega arith);
  url = refl;
}

input_rounds_rotate_example :
    let (alive, r') = input_rounds libs 1 (lost ∷ lost ∷ lost ∷ []) by_day in
    (alive ≡ true) × (r'.channel.curr_src ≡ 0)
input_rounds_rotate_example =
    input_rounds_rotate libs 1 (lost ∷ lost ∷ lost ∷ []) by_day by_day-IsValid (omega arith)
      (record { alive = refl; working = refl })
      (lost-Unresolved, (lost-Unresolved, (lost-Unresolved, tt)))

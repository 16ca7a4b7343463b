-- ===== src/Output/Psi.antt =====
-- output_psi.c: the tables of the whole output, which go into the PSI buffer when their times have
-- come. The programme guide of the channels is reloaded by `config_load_epg`, which is an argument.
pub mod Counters
pub mod Turns
pub mod Round
pub mod Schedule
pub mod Words
pub mod Init
mod Tests
use mptsd.Base.{
  ℕ, ◌+◌, ◌%◌, ◌≡◌, Bool, true, false, List, [], ◌∷◌, Option, none, some, Bytes, length, leb, ◌==◌,
  if◌then◌else◌,
}
use mathlib.Core.List.{flatten}
use mptsd.Libs.{Libs, Pat, Eit, Table, Cbuf}
use mptsd.Continuity.{stamp_packets, next_cont}
use mptsd.Channel.{Channel}
use mptsd.Input.{Input}
use mptsd.Output.{Output}

-- A section's packets, stamped from the counter on, go into the buffer; a refusal is not looked at.
abbrev pub stamped : Libs → ℕ → List Bytes → List Bytes
stamped L cont packets = stamp_packets L.ts_packet_set_cont cont 0 packets

abbrev pub put_psi : Libs → Cbuf → List Bytes → Cbuf
put_psi L psibuf packets = (L.cbuf_fill psibuf (flatten packets)).1

unfoldable pub output_add_pat : Libs → Output → Output
output_add_pat L o =
    let packets = stamped L o.pid_pat_cont o.pat.packets in
    if length o.pat.programs == 0 then o else record o {
      pat = record (o.pat) { packets = packets; continuity = o.pid_pat_cont };
      pid_pat_cont = next_cont o.pid_pat_cont o.pat.packets;
      psibuf = put_psi L o.psibuf packets;
    }

unfoldable pub output_add_nit : Libs → Output → Output
output_add_nit L o = elim o.nit [
  | none ↦ o
  | some t ↦
      let packets = stamped L o.pid_nit_cont t.packets in
      record o {
        nit = some (record { packets = packets; continuity = o.pid_nit_cont });
        pid_nit_cont = next_cont o.pid_nit_cont t.packets;
        psibuf = put_psi L o.psibuf packets;
      }
]

unfoldable pub output_add_sdt : Libs → Output → Output
output_add_sdt L o = elim o.sdt [
  | none ↦ o
  | some t ↦
      let packets = stamped L o.pid_sdt_cont t.packets in
      record o {
        sdt = some (record { packets = packets; continuity = o.pid_sdt_cont });
        pid_sdt_cont = next_cont o.pid_sdt_cont t.packets;
        psibuf = put_psi L o.psibuf packets;
      }
]

-- TDT and TOT share an identifier and its counter. The second result is the table afterwards.
unfoldable pub output_add_pid0x14 : Libs → Output → Table → Output × Table
output_add_pid0x14 L o t =
    let packets = stamped L o.pid_tdt_cont t.packets in
    (
      record o {
        pid_tdt_cont = next_cont o.pid_tdt_cont t.packets;
        psibuf = put_psi L o.psibuf packets;
      },
      record { packets = packets; continuity = o.pid_tdt_cont },
    )

-- Both tables are made by `output_psi_init` together, and without one nothing is sent.
unfoldable pub output_add_tdt : Libs → ℕ → Output → Output
unfolding output_add_pid0x14
output_add_tdt L time o = elim o.tdt [
  | none ↦ o
  | some t ↦
      let (o', t') = output_add_pid0x14 L o (L.ts_tdt_set_time t time) in
      record o' { tdt = some t' }
]

unfoldable pub output_add_tot : Libs → ℕ → Output → Output
unfolding output_add_pid0x14
output_add_tot L time o = elim o.tot [
  | none ↦ o
  | some t ↦
      let (o', t') = output_add_pid0x14 L o (L.ts_tot_set_localtime_offset_sofia t time) in
      record o' { tot = some t' }
]

-- __output_add_eit; a section without packets has no packet_data
unfoldable pub add_eit : Libs → Output → Option Eit → Output × Option Eit
add_eit L o none = (o, none)
add_eit L o (some e) =
    let packets = stamped L o.pid_eit_cont e.packets in
    if length e.packets == 0 then (o, some e) else (
      record o {
        pid_eit_cont = next_cont o.pid_eit_cont e.packets;
        psibuf = put_psi L o.psibuf packets;
      },
      some (record e { packets = packets; continuity = o.pid_eit_cont }),
    )

-- The loop of `output_add_eit`, after the guide has been reloaded.
unfoldable pub add_eits : Libs → Output → List Input → Output × List Input
unfolding add_eit
add_eits L o [] = (o, [])
add_eits L o (r ∷ rs) =
    let (o', now) = add_eit L o r.channel.eit_now in
    let (o'', next) = add_eit L o' r.channel.eit_next in
    let (o''', rs') = add_eits L o'' rs in
    (o''', record r { channel = record (r.channel) { eit_now = now; eit_next = next } } ∷ rs')

unfoldable pub output_add_eit :
    Libs → (List Input → List Input) → List Input → Output → Output × List Input
output_add_eit L config_load_epg inputs o = add_eits L o (config_load_epg inputs)

pub record Timeouts : Type 0 where
  pub pat : ℕ
  pub nit : ℕ
  pub sdt : ℕ
  pub eit : ℕ
  pub tdt : ℕ
  pub tot : ℕ

-- timeval_diff_msec(&ts, now) >= timeout
abbrev pub is_due : Libs → ℕ → ℕ → ℕ → Bool
is_due L ts now timeout = leb timeout (L.timeval_diff_msec ts now)

-- The parts of `output_psi_add`, one for each table.
unfoldable pub pat_turn : Libs → Timeouts → ℕ → Output → Output
pat_turn L timeouts now o =
    if is_due L o.pat_ts now timeouts.pat then output_add_pat L (record o { pat_ts = now }) else o

unfoldable pub nit_turn : Libs → Timeouts → ℕ → Output → Output
nit_turn L timeouts now o =
    if is_due L o.nit_ts now timeouts.nit then output_add_nit L (record o { nit_ts = now }) else o

unfoldable pub sdt_turn : Libs → Timeouts → ℕ → Output → Output
sdt_turn L timeouts now o =
    if is_due L o.sdt_ts now timeouts.sdt then output_add_sdt L (record o { sdt_ts = now }) else o

unfoldable pub tdt_turn : Libs → Timeouts → ℕ → ℕ → Output → Output
tdt_turn L timeouts now time o =
    if is_due L o.tdt_ts now timeouts.tdt
    then output_add_tdt L time (record o { tdt_ts = now })
    else o

unfoldable pub tot_turn : Libs → Timeouts → ℕ → ℕ → Output → Output
tot_turn L timeouts now time o =
    if is_due L o.tot_ts now timeouts.tot
    then output_add_tot L time (record o { tot_ts = now })
    else o

-- `time` is what time(NULL) answers.
unfoldable pub output_psi_add :
    Libs → Timeouts → (List Input → List Input) → ℕ → ℕ → List Input → Output → Output × List Input
unfolding pat_turn nit_turn sdt_turn tdt_turn tot_turn
output_psi_add L timeouts config_load_epg now time inputs o =
    let o' = tot_turn L timeouts now time (
      tdt_turn L timeouts now time
        (sdt_turn L timeouts now (nit_turn L timeouts now (pat_turn L timeouts now o)))) in
    if is_due L o'.eit_ts now timeouts.eit
    then output_add_eit L config_load_epg inputs (record o' { eit_ts = now })
    else (o', inputs)

-- ===== src/Output/Psi/Tests.antt =====
-- Runs of the guide, over two inputs, one with two sections, one with none, past the highest counter;
-- of a round of the tables; and of the packed words of a channel.
use mptsd.Base.{
  ℕ, ◌-◌, ◌%◌, ◌≡◌, refl, ◌↔◌, true, none, List, [], ◌∷◌, ◌++◌, some, Bytes, map, length, replicate,
  arith,
}
use mathlib.Core.List.{flatten}
use mptsd.Libs.{Libs, Eit, Table, TableLibs}
use mptsd.Continuity.Runs.{counters}
use mptsd.Input.{Input}
use mptsd.Output.{Output}
use mptsd.Output.Psi.{
  Timeouts, output_add_pat, output_add_tdt, output_add_tot, output_add_eit, output_psi_add,
}
use mptsd.Output.Psi.Schedule.{Scheduled, output_psi_add-Scheduled}
use mptsd.Output.Psi.Counters.{eit_sections, put_sections, output_add_eit-Counters}
use mptsd.Output.Psi.Words.{service_word, lcn_word}
use mptsd.Output.Psi.Words.Unpacked.{Unpacked, words-Unpacked}
use mptsd.Config.Files.{config_load_nit}
use mptsd.Output.Psi.Init.{TableConfig, output_psi_init}
use mptsd.Output.Psi.Init.Announced.{PatAppends, Lacks, Tables, output_psi_init_lem}
use mptsd.Samples.{
  channel, libs, packet, no_eit, no_pat, output, new_input, ini_of, channels_file, bbc, loads_bbc,
}

abbrev no_table : Table
no_table = record { continuity = 0; packets = [] }

-- The counter stands in front of the packet.
abbrev stamping : Libs
stamping = record libs { ts_packet_set_cont = λ p v. v % 16 ∷ p }

abbrev get_cont : Bytes → ℕ
get_cont [] = 0
get_cont (c ∷ p) = c

abbrev eit : ℕ → Eit
eit n = record no_eit { packets = replicate n (packet 0x12 0x10 0) }

abbrev loaded : List Input
loaded =
    record (new_input 3) {
      channel = record ((new_input 3).channel) { eit_now = some (eit 2); eit_next = some (eit 1) };
    }
    ∷ new_input 4
    ∷ []

abbrev sending : Output
sending = record output { pid_eit_cont = 15 }

output_add_eit-Counters_example :
    let (o', inputs') = output_add_eit stamping (λ rs. loaded) [] sending in
    (map get_cont (flatten (eit_sections inputs'))
      ≡ counters 15 (length (flatten (eit_sections loaded))))
    × (o'.psibuf ≡ put_sections stamping sending.psibuf (eit_sections inputs'))
output_add_eit-Counters_example =
    output_add_eit-Counters stamping get_cont (λ rs. loaded) (λ p v. refl) [] sending (omega arith)

words-Unpacked_example : Unpacked (channel 3) (service_word (channel 3)) (lcn_word (channel 3))
words-Unpacked_example = words-Unpacked (channel 3) (omega arith) (omega arith)

-- A PAT of programs, and tables of which nothing is kept.
abbrev tables : TableLibs
tables = record {
  ts_pat_alloc_init = λ id. no_pat;
  ts_pat_add_program = λ t program pid. record t {
    programs = t.programs ++ record { program = program; pid = pid } ∷ [];
  };
  ts_nit_alloc_init = λ id. no_table;
  ts_nit_add_network_name_descriptor = λ t name. t;
  ts_nit_add_frequency_list_descriptor_cable = λ t ts_id network_id freqs. t;
  ts_nit_add_cable_delivery_descriptor = λ t ts_id network_id freq modulation symbol_rate. t;
  ts_nit_add_service_list_descriptor = λ t ts_id network_id services. t;
  ts_nit_add_stream_descriptors = λ t ts_id network_id freq modulation symbol_rate lcn svc. t;
  ts_sdt_alloc_init = λ network_id ts_id. no_table;
  ts_sdt_add_service_descriptor = λ t service_id video provider name. t;
  ts_tdt_alloc_init = λ time. no_table;
  ts_tot_alloc_init = λ time. no_table;
}

tables-PatAppends : PatAppends tables
tables-PatAppends = record { empty = λ id. refl; appends = λ pat program pid. refl }

-- Logical channel numbers, and no transponder.
abbrev table_config : TableConfig
table_config = record {
  network_id = 1;
  transport_stream_id = 2;
  network_name = none;
  provider_name = none;
  use_lcn = true;
  nit = [];
  channels = bbc ∷ [];
}

no_transponders : config_load_nit (ini_of [] []) ≡ some []
unfolding config_load_nit
no_transponders = refl

output_psi_init_example :
    ((output_psi_init tables table_config 0 0 output ≡ none)
      ↔ ((table_config.use_lcn ≡ true) × Lacks 2 table_config.nit))
    × ((o' : Output)
        → output_psi_init tables table_config 0 0 output ≡ some o'
        → Tables table_config o')
output_psi_init_example =
    output_psi_init_lem tables tables-PatAppends table_config (ini_of [] []) channels_file 0 0
      output no_transponders loads_bbc

-- The PAT, the TDT and the TOT are overdue by at most 5 of the 20 milliseconds.
abbrev timeouts : Timeouts
timeouts = record { pat = 100; nit = 700; sdt = 500; eit = 1000; tdt = 100; tot = 100 }

abbrev clocked : Libs
clocked = record stamping { timeval_diff_msec = λ a b. b - a }

abbrev waiting : Output
waiting = record sending {
  pat_ts = 0;
  nit_ts = 0;
  sdt_ts = 0;
  eit_ts = 0;
  tdt_ts = 0;
  tot_ts = 0;
  tdt = some (record { continuity = 0; packets = packet 0x14 0x10 0 ∷ [] });
}

output_psi_add-Scheduled_example :
    let (o', inputs') = output_psi_add clocked timeouts (λ rs. loaded) 105 0 [] waiting in
    Scheduled clocked timeouts 20 105 waiting o' inputs'
output_psi_add-Scheduled_example =
    output_psi_add-Scheduled clocked timeouts (λ rs. loaded) 90 105 20 0 [] waiting (λ a b le. refl)
      (omega arith) (omega arith) (omega arith)
      (record {
        pat = (omega arith, omega arith);
        nit = (omega arith, omega arith);
        sdt = (omega arith, omega arith);
        eit = (omega arith, omega arith);
        tdt = (omega arith, omega arith);
        tot = (omega arith, omega arith);
      })

sent_times :
    let o' = (output_psi_add clocked timeouts (λ rs. loaded) 105 0 [] waiting).0 in
    (o'.pat_ts ≡ 105) × (o'.nit_ts ≡ 0) × (o'.tdt_ts ≡ 105) × (o'.eit_ts ≡ 0)
unfolding output_psi_add output_add_pat output_add_tdt output_add_tot
sent_times = (refl, refl, refl, refl)

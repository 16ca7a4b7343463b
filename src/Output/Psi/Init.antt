-- ===== src/Output/Psi/Init.antt =====
-- output_psi.c: `output_psi_init`, which makes the output's own tables from the configuration.
pub mod Announced
use mptsd.Base.{
  ℕ, ◌+◌, Bool, true, false, List, [], ◌∷◌, Option, none, some, CString, length, ltb, ◌==◌, not,
  if◌then◌else◌, map,
}
use mptsd.Libs.{TableLibs, Pat, Table}
use mptsd.Channel.{Channel}
use mptsd.Config.Files.{Nit, NitResult, refused, unterminated, made, nit_new}
use mptsd.Output.{Output}
use mptsd.Output.Psi.Words.{svc_services, lcn_services}

-- The part of the configuration that the tables are made of.
pub record TableConfig : Type 0 where
  pub network_id : ℕ
  pub transport_stream_id : ℕ
  pub network_name : Option CString
  pub provider_name : Option CString
  pub use_lcn : Bool
  pub nit : List Nit
  pub channels : List Channel

-- The loop of `output_psi_init_pat`.
unfoldable pub add_programs : TableLibs → List Channel → Pat → Pat
add_programs T [] pat = pat
add_programs T (c ∷ channels) pat =
    add_programs T channels (T.ts_pat_add_program pat c.service_id c.pmt_pid)

-- `now` is what gettimeofday answers.
unfoldable pub output_psi_init_pat : TableLibs → TableConfig → ℕ → Output → Output
unfolding add_programs
output_psi_init_pat T conf now o = record o {
  pat = add_programs T conf.channels (T.ts_pat_alloc_init conf.transport_stream_id);
  pat_ts = now;
}

-- One descriptor for each transponder.
unfoldable pub add_deliveries : TableLibs → ℕ → List Nit → Table → Table
add_deliveries T network_id [] nit = nit
add_deliveries T network_id (n ∷ ns) nit = add_deliveries T network_id ns (
    T.ts_nit_add_cable_delivery_descriptor nit n.ts_id network_id n.freq_value n.modulation_value
      n.symbol_rate_value)

-- The last transponder of the stream, where `found` is the one so far.
unfoldable pub find_transponder : ℕ → List Nit → Option Nit → Option Nit
find_transponder ts_id [] found = found
find_transponder ts_id (n ∷ ns) found =
    find_transponder ts_id ns (if n.ts_id == ts_id then some n else found)

-- Without logical channel numbers.
unfoldable pub plain_nit : TableLibs → TableConfig → Table → Table
unfolding add_deliveries
plain_nit T conf nit =
    if ltb (length conf.nit) 64
    then T.ts_nit_add_service_list_descriptor
        (add_deliveries T conf.network_id conf.nit (
          T.ts_nit_add_frequency_list_descriptor_cable nit conf.transport_stream_id conf.network_id
            (map (λ (n : Nit). n.freq_value) conf.nit)))
        conf.transport_stream_id conf.network_id (svc_services conf.channels)
    else nit

-- With them: `none` when `nit_new` is given NULL texts, refuses the texts, or reads past its array.
unfoldable pub lcn_nit : TableLibs → TableConfig → Table → Option Table
unfolding find_transponder add_deliveries
lcn_nit T conf nit = elim (find_transponder conf.transport_stream_id conf.nit none) [
  | none ↦ none
  | some t ↦ elim (nit_new conf.transport_stream_id t.freq t.modulation t.symbol_rate) [
    | refused ↦ none
    | unterminated ↦ none
    | made ts_ndata ↦
        let streams =
          T.ts_nit_add_stream_descriptors nit ts_ndata.ts_id conf.network_id t.freq_value
            t.modulation_value t.symbol_rate_value (lcn_services conf.channels)
            (svc_services conf.channels) in
        some (
          if ltb (length conf.nit) 64
          then add_deliveries T conf.network_id conf.nit streams
          else streams)
  ]
]

unfoldable pub output_psi_init_nit : TableLibs → TableConfig → ℕ → Output → Option Output
unfolding plain_nit lcn_nit
output_psi_init_nit T conf now o =
    let named =
      T.ts_nit_add_network_name_descriptor (T.ts_nit_alloc_init conf.network_id)
        conf.network_name in
    if not conf.use_lcn
    then some (record o { nit_ts = now; nit = some (plain_nit T conf named) })
    else elim (lcn_nit T conf named) [
      | none ↦ none
      | some nit ↦ some (record o { nit_ts = now; nit = some nit })
    ]

unfoldable pub add_services : TableLibs → Option CString → List Channel → Table → Table
add_services T provider_name [] sdt = sdt
add_services T provider_name (c ∷ channels) sdt =
    add_services T provider_name channels
      (T.ts_sdt_add_service_descriptor sdt c.service_id (not c.radio) provider_name c.name)

unfoldable pub output_psi_init_sdt : TableLibs → TableConfig → ℕ → Output → Output
unfolding add_services
output_psi_init_sdt T conf now o = record o {
  sdt_ts = now;
  sdt = some (
      add_services T conf.provider_name conf.channels
        (T.ts_sdt_alloc_init conf.network_id conf.transport_stream_id));
}

-- `time` is what time(NULL) answers.
unfoldable pub output_psi_init_tdt_tot : TableLibs → ℕ → ℕ → Output → Output
output_psi_init_tdt_tot T now time o = record o {
  pid_tdt_cont = 15;
  tdt = some (T.ts_tdt_alloc_init time);
  tot = some (T.ts_tot_alloc_init time);
  tdt_ts = now;
  tot_ts = now;
}

-- With one answer of the clock for all parts.
unfoldable pub output_psi_init : TableLibs → TableConfig → ℕ → ℕ → Output → Option Output
unfolding output_psi_init_pat output_psi_init_nit output_psi_init_sdt output_psi_init_tdt_tot
output_psi_init T conf now time o =
    elim (output_psi_init_nit T conf now (output_psi_init_pat T conf now o)) [
      | none ↦ none
      | some o1 ↦
          some (record (output_psi_init_tdt_tot T now time (output_psi_init_sdt T conf now o1)) {
            eit_ts = now;
          })
    ]

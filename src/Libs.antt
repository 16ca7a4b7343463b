-- ===== src/Libs.antt =====
-- What the program takes from libtsfuncs and libfuncs, which are submodules of the repository.
-- The records hold the fields of their structures that the program reads or writes. What their
-- functions do is unknown here: each is a field of `Libs`, and the development is over all `Libs`.
use mptsd.Base.{ℕ, Bool, List, Option, Bytes, CString}

-- A PSI section: `packets` is `packet_data`, cut into its `num_packets` transport packets.
pub record PatProgram : Type 0 where
  pub program : ℕ
  pub pid : ℕ

pub record Pat : Type 0 where
  pub initialized : Bool
  pub continuity : ℕ
  pub packets : List Bytes
  pub programs : List PatProgram

pub record PmtStream : Type 0 where
  pub pid : ℕ
  pub stream_type : ℕ

pub record Pmt : Type 0 where
  pub initialized : Bool
  pub continuity : ℕ
  pub pid : ℕ
  pub packets : List Bytes
  pub ts_id_number : ℕ
  pub pcr_pid : ℕ
  pub streams : List PmtStream

pub record Eit : Type 0 where
  pub initialized : Bool
  pub continuity : ℕ
  pub packets : List Bytes
  pub ts_id_number : ℕ
  pub table_id : ℕ
  pub transport_stream_id : ℕ
  pub version_number : ℕ

-- A table that the output makes (NIT, SDT, TDT, TOT): its packets are all that is read.
pub record Table : Type 0 where
  pub continuity : ℕ
  pub packets : List Bytes

-- The circular byte buffer; `memory` stands for what the structure holds beyond these counters.
pub record Cbuf : Type 0 where
  pub size : ℕ
  pub input : ℕ
  pub output : ℕ
  pub memory : Bytes

pub record Libs : Type 0 where
  pub ts_packet_get_pid : Bytes → ℕ
  pub ts_packet_set_pid : Bytes → ℕ → Bytes
  pub ts_packet_has_pcr : Bytes → Bool
  pub ts_packet_get_pcr : Bytes → ℕ
  pub ts_packet_set_pcr : Bytes → ℕ → Bytes
  pub ts_packet_set_cont : Bytes → ℕ → Bytes
  pub ts_pat_alloc : Pat
  pub ts_pat_push_packet : Pat → Bytes → Pat
  pub ts_pat_is_same : Pat → Pat → Bool
  pub ts_pat_copy : Pat → Option Pat
  pub ts_pat_regenerate_packets : Pat → Pat
  pub ts_pmt_alloc : Pmt
  pub ts_pmt_push_packet : Pmt → Bytes → Pmt
  pub ts_pmt_is_same : Pmt → Pmt → Bool
  pub ts_pmt_copy : Pmt → Option Pmt
  pub ts_pmt_regenerate_packets : Pmt → Pmt
  pub ts_eit_alloc : Eit
  pub ts_eit_push_packet : Eit → Bytes → Eit
  pub ts_eit_copy : Eit → Option Eit
  pub ts_eit_regenerate_packets : Eit → Eit
  pub cbuf_init : ℕ → CString → Cbuf
  -- 0 for success, and the buffer afterwards
  pub cbuf_fill : Cbuf → Bytes → ℕ × Cbuf
  -- the bytes that are returned (their number is `data_size`), and the buffer afterwards
  pub cbuf_get : Cbuf → ℕ → Bytes × Cbuf
  pub cbuf_peek : Cbuf → ℕ → Bytes
  -- milliseconds from the first time to the second
  pub timeval_diff_msec : ℕ → ℕ → ℕ
  pub ts_tdt_set_time : Table → ℕ → Table
  pub ts_tot_set_localtime_offset_sofia : Table → ℕ → Table

-- What the programme guide is made with.
pub record EpgLibs : Type 0 where
  -- 0 for equal texts; both may be NULL
  pub xstrcmp : Option CString → Option CString → ℕ
  pub init_dvb_string_iso_8859_5 : Option CString → Option CString
  pub init_dvb_string_utf8 : Option CString → Option CString
  pub ts_eit_alloc_init_pf : ℕ → ℕ → ℕ → ℕ → ℕ → Eit
  pub ts_eit_add_short_event_descriptor :
      Eit → ℕ → ℕ → ℕ → ℕ → Option CString → Option CString → Eit
  pub ts_eit_add_extended_event_descriptor : Eit → ℕ → ℕ → ℕ → ℕ → Option CString → Eit
  pub ts_eit_regenerate_packets : Eit → Eit

-- What the output's own tables are made with.
pub record TableLibs : Type 0 where
  pub ts_pat_alloc_init : ℕ → Pat
  pub ts_pat_add_program : Pat → ℕ → ℕ → Pat
  pub ts_nit_alloc_init : ℕ → Table
  pub ts_nit_add_network_name_descriptor : Table → Option CString → Table
  pub ts_nit_add_frequency_list_descriptor_cable : Table → ℕ → ℕ → List ℕ → Table
  pub ts_nit_add_cable_delivery_descriptor : Table → ℕ → ℕ → ℕ → ℕ → ℕ → Table
  pub ts_nit_add_service_list_descriptor : Table → ℕ → ℕ → List ℕ → Table
  pub ts_nit_add_stream_descriptors : Table → ℕ → ℕ → ℕ → ℕ → ℕ → List ℕ → List ℕ → Table
  pub ts_sdt_alloc_init : ℕ → ℕ → Table
  pub ts_sdt_add_service_descriptor : Table → ℕ → Bool → Option CString → CString → Table
  pub ts_tdt_alloc_init : ℕ → Table
  pub ts_tot_alloc_init : ℕ → Table

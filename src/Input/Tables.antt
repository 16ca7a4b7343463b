-- ===== src/Input/Tables.antt =====
-- input.c: how an input takes its PAT, PMT and EIT from the stream and rewrites them.
use mptsd.Base.{ℕ, ◌+◌, List, [], ◌∷◌, none, some, u16, ltb, ◌==◌, if◌then◌else◌}
use mptsd.Libs.{Libs, PatProgram, PmtStream}
use mptsd.Pidref.{Pidref, pidref_add, pidref_get_new_pid}
use mptsd.Input.{InputStream, Input}

-- What the table handlers return.
pub data Verdict : Type 0 where
  -- 0: not this table's packet
  other : Verdict
  -- 1
  handled : Verdict
  -- -1: nothing is left to do with the packet
  skip : Verdict
  -- -2
  refused : Verdict
  -- -3
  failed : Verdict

-- The loop of `input_process_pat`, over the programs that are left; it breaks at the first program
-- that is not the network's. The number is `num_programs`.
unfoldable pub scan_programs : List PatProgram → InputStream → ℕ → InputStream × ℕ
scan_programs [] s n = (s, n)
scan_programs (prg ∷ rest) s n =
    let skipped = scan_programs rest s n in
    let network = scan_programs rest (record s { nit_pid = prg.pid }) n in
    if prg.pid == 0
    then skipped
    else if prg.program == 0
    then network
    else (record s { pmt_pid = prg.pid }, n + 1)

unfoldable pub input_process_pat : InputStream → ℕ × InputStream
unfolding scan_programs
input_process_pat s =
    let (s', num_programs) = scan_programs s.pat.programs (record s { nit_pid = 0x10 }) 0 in
    if ltb 1 num_programs then (0, s') else (1, s')

-- base_pid++, for a uint16_t
abbrev pub next_base : Pidref → Pidref
next_base ref = record ref { base_pid = u16 (ref.base_pid + 1) }

-- pidref_add(ref, pid, ref->base_pid); base_pid++
unfoldable pub assign_pid : Pidref → ℕ → Pidref
assign_pid ref pid = next_base (pidref_add ref pid ref.base_pid).1

-- The loop of `input_rewrite_pat`.
unfoldable pub rewrite_programs : ℕ → Pidref → List PatProgram → List PatProgram × Pidref
rewrite_programs service_id ref [] = ([], ref)
rewrite_programs service_id ref (prg ∷ rest) =
    let network = prg.program == 0 in
    let (ps, ref') =
      rewrite_programs service_id (if network then ref else assign_pid ref prg.pid) rest in
    ((if network then prg else record { program = service_id; pid = ref.base_pid }) ∷ ps, ref')

unfoldable pub input_rewrite_pat : Libs → Input → Input
input_rewrite_pat L r = elim (L.ts_pat_copy r.stream.pat) [
  | none ↦ r
  | some new_pat ↦
      let (programs, pidref) =
        rewrite_programs r.channel.service_id r.stream.pidref new_pat.programs in
      record r {
        stream = record (r.stream) {
          pidref = pidref;
          pat_rewritten =
              some (L.ts_pat_regenerate_packets (record new_pat { programs = programs }));
        };
      }
]

-- The loop of `input_rewrite_pmt`: a stream that carries the clock already has its identifier.
unfoldable pub rewrite_streams : ℕ → ℕ → Pidref → List PmtStream → List PmtStream × Pidref
rewrite_streams org_pcr_pid new_pcr_pid ref [] = ([], ref)
rewrite_streams org_pcr_pid new_pcr_pid ref (stream ∷ rest) =
    let clock = stream.pid == org_pcr_pid in
    let (ss, ref') =
      rewrite_streams org_pcr_pid new_pcr_pid (if clock then ref else assign_pid ref stream.pid)
        rest in
    (record stream { pid = if clock then new_pcr_pid else ref.base_pid } ∷ ss, ref')

unfoldable pub input_rewrite_pmt : Libs → Input → Input
input_rewrite_pmt L r = elim (L.ts_pmt_copy r.stream.pmt) [
  | none ↦ r
  | some new_pmt ↦
      let ref = r.stream.pidref in
      let pcr_pid = ref.base_pid in
      let (streams, pidref) =
        rewrite_streams new_pmt.pcr_pid pcr_pid (assign_pid ref new_pmt.pcr_pid) new_pmt.streams in
      record r {
        output_pcr_pid = pcr_pid;
        stream = record (r.stream) {
          pidref = pidref;
          pcr_pid = new_pmt.pcr_pid;
          pmt_rewritten = some (
              L.ts_pmt_regenerate_packets (record new_pmt {
                pid = pidref_get_new_pid ref r.stream.pmt_pid;
                ts_id_number = r.channel.service_id;
                pcr_pid = pcr_pid;
                streams = streams;
              }));
        };
      }
]

-- `transport_stream_id` is the configuration's.
unfoldable pub input_rewrite_eit : Libs → ℕ → Input → Input
input_rewrite_eit L transport_stream_id r = elim (L.ts_eit_copy r.stream.eit) [
  | none ↦ r
  | some new_eit ↦ record r {
    stream = record (r.stream) {
      eit_rewritten = some (
          L.ts_eit_regenerate_packets
            (record new_eit { transport_stream_id = transport_stream_id }));
    };
  }
]

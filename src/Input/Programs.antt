-- ===== src/Input/Programs.antt =====
-- What `input_process_pat` finds in a PAT.
use mptsd.Base.{
  ℕ, ◌+◌, ◌≡◌, refl, List, [], ◌∷◌, Option, none, some, arith, ◌==◌, if◌then◌else◌, ◌||◌, ◌≤◌,
}
use mptsd.Libs.{PatProgram}
use mptsd.Input.{InputStream}
use mptsd.Input.Tables.{scan_programs, input_process_pat}

-- The identifier of the first program that has one and is not the network.
unfoldable pub first_program : List PatProgram → Option ℕ
first_program [] = none
first_program (prg ∷ ps) =
    if prg.pid == 0 || prg.program == 0 then first_program ps else some prg.pid

-- The identifier of the last network entry before that program, or the given one.
unfoldable pub network_before : ℕ → List PatProgram → ℕ
network_before nit [] = nit
network_before nit (prg ∷ ps) =
    let rest = network_before (if prg.pid == 0 then nit else prg.pid) ps in
    if prg.pid == 0 || prg.program == 0 then rest else nit

abbrev pub or_else : Option ℕ → ℕ → ℕ
or_else none d = d
or_else (some a) d = a

record Scanned (ps : List PatProgram) (s : InputStream) (n : ℕ) (res : InputStream × ℕ)
    : Type 0 where
  stream : res.0 ≡ record s {
    nit_pid = network_before s.nit_pid ps;
    pmt_pid = or_else (first_program ps) s.pmt_pid;
  }
  count : res.1 ≤ n + 1

scan_programs-Scanned :
    (ps : List PatProgram) (s : InputStream) (n : ℕ) → Scanned ps s n (scan_programs ps s n)
unfolding scan_programs first_program network_before
scan_programs-Scanned [] s n = record { stream = refl; count = omega arith }
scan_programs-Scanned (prg ∷ ps) s n = ground (
  arith,
  scan_programs-Scanned ps s n,
  scan_programs-Scanned ps (record s { nit_pid = prg.pid }) n,
)

-- The scan never fails, however many programs the PAT has: the PMT's identifier becomes that of the
-- first program and the NIT's that of the last network entry before it, 0x10 if there is none.
pub input_process_pat_lem :
    (s : InputStream)
    → input_process_pat s ≡ (
      1,
      record s {
        nit_pid = network_before 0x10 s.pat.programs;
        pmt_pid = or_else (first_program s.pat.programs) s.pmt_pid;
      },
    )
unfolding input_process_pat
input_process_pat_lem s =
    ground (arith, scan_programs-Scanned s.pat.programs (record s { nit_pid = 0x10 }) 0)

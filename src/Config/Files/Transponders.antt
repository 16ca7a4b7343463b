-- ===== src/Config/Files/Transponders.antt =====
-- The transponders of a file.
use mptsd.Base.{
  ℕ, zero, suc, ◌+◌, ◌≤◌, ◌≡◌, inl, inr, refl, subst, List, [], ◌∷◌, some, CString, codes, arith,
  length, All, ◌==◌, ◌||◌, not, Bool-cases, Option-cases, u16,
}
use mathlib.Core.Option.{some-injective}
use mptsd.Config.{Ini}
use mptsd.Config.Files.{
  packed, Nit, NitResult, refused, unterminated, made, nit_new, transponder_key, load_transponder,
  load_transponders, config_load_nit,
}

-- `nit_new` accepts the texts of the entry again, whatever the stream is.
abbrev pub Renewable : Nit → Type 0
Renewable n = (ts_id : ℕ) → (m : Nit) × (nit_new ts_id n.freq n.modulation n.symbol_rate ≡ made m)

made-Renewable :
    (ts_id : ℕ) (freq modulation symbol_rate : CString) (n : Nit)
    → nit_new ts_id freq modulation symbol_rate ≡ made n
    → Renewable n
unfolding nit_new
made-Renewable ts_id freq modulation symbol_rate n e other =
    elim (Bool-cases (not (length freq == 9) || not (length symbol_rate == 8))) [
      | inl wrong ↦ absurd (ground arith)
      | inr sized ↦ elim (Option-cases (packed freq)) [
        | inl long ↦ absurd (ground arith)
        | inr (v, pv) ↦ elim (Option-cases (packed symbol_rate)) [
          | inl long ↦ absurd (ground arith)
          | inr (w, pw) ↦ (record n { ts_id = other }, ground arith)
        ]
      ]
    ]

from_transponder :
    (ini : Ini) (i : ℕ) (n : Nit)
    → load_transponder ini i ≡ made n
    → (ts_id : ℕ) × (freq : CString) × (modulation : CString) × (symbol_rate : CString) × (nit_new
          ts_id freq modulation symbol_rate
        ≡ made n)
unfolding load_transponder
from_transponder ini i n e =
    elim (Option-cases (ini.get_string (transponder_key i (codes "frequency")))) [
      | inl gone ↦ absurd (ground arith)
      | inr (freq, f) ↦
          elim (Option-cases (ini.get_string (transponder_key i (codes "modulation")))) [
            | inl gone ↦ absurd (ground arith)
            | inr (modulation, m) ↦
                elim (Option-cases (ini.get_string (transponder_key i (codes "symbol_rate")))) [
                  | inl gone ↦ absurd (ground arith)
                  | inr (sr, s) ↦ (
                    u16 (ini.get_int (transponder_key i (codes "transport_stream_id")) 0),
                    freq,
                    modulation,
                    sr,
                    ground arith,
                  )
                ]
          ]
    ]

load_transponders-Renewable :
    (ini : Ini) (left i : ℕ) (ns : List Nit)
    → load_transponders ini left i ≡ some ns
    → All Renewable ns × (length ns ≤ left)
unfolding load_transponders
load_transponders-Renewable ini zero i ns e =
    subst (λ ns. All Renewable ns × (length ns ≤ 0)) (some-injective [] ns e) (tt, omega arith)
load_transponders-Renewable ini (suc left) i ns e =
    round (load_transponders-Renewable ini left (i + 1)) (load_transponder ini i) refl
  where
    round :
        ((rest : List Nit)
          → load_transponders ini left (i + 1) ≡ some rest
          → All Renewable rest × (length rest ≤ left))
        → (r : NitResult) → load_transponder ini i ≡ r
        → All Renewable ns × (length ns ≤ suc left)
    round ih refused at = let (a, n) = ih ns (ground arith) in (a, omega arith)
    round ih unterminated at = absurd (ground arith)
    round ih (made n) at = elim (Option-cases (load_transponders ini left (i + 1))) [
      | inl never ↦ absurd (ground arith)
      | inr (rest, more) ↦
          let (a, few) = ih rest more in
          let (ts_id, freq, modulation, sr, new) = from_transponder ini i n at in
          let whole : n ∷ rest ≡ ns = ground arith in
          subst (λ ms. All Renewable ms × (length ms ≤ suc left)) whole
            ((made-Renewable ts_id freq modulation sr n new, a), omega arith)
    ]

-- A file has 31 transponders at most, and the texts of each are such that `nit_new` takes them.
pub config_load_nit-Renewable :
    (ini : Ini) (ns : List Nit)
    → config_load_nit ini ≡ some ns
    → All Renewable ns × (length ns ≤ 31)
unfolding config_load_nit
config_load_nit-Renewable ini ns e = load_transponders-Renewable ini 31 1 ns e

-- ===== src/Output/Psi/Turns.antt =====
-- One table at a time: when it is sent, what goes into the buffer, and what it leaves alone.
use mptsd.Base.{
  ℕ, ◌≡◌, refl, ap, Bool, List, [], ◌∷◌, Option, none, some, Bytes, length, ◌==◌, if◌then◌else◌,
  Bool-cases, Option-cases, inl, inr,
}
use mptsd.Libs.{Libs, Pat, Table, Cbuf}
use mptsd.Output.{Output}
use mptsd.Output.Psi.{
  Timeouts, is_due, put_psi, pat_turn, nit_turn, sdt_turn, tdt_turn, tot_turn, output_add_pat,
  output_add_nit, output_add_sdt, output_add_pid0x14, output_add_tdt, output_add_tot,
}

-- Sections go into the buffer one by one.
unfoldable pub put_each : Libs → Cbuf → List (List Bytes) → Cbuf
put_each L b [] = b
put_each L b (s ∷ ss) = put_each L (put_psi L b s) ss

-- What is sent of a table that may be missing, and of a PAT that may be empty.
abbrev pub table_section : Option Table → List (List Bytes)
table_section none = []
table_section (some t) = t.packets ∷ []

abbrev pub pat_section : Pat → List (List Bytes)
pat_section p = if length p.programs == 0 then [] else p.packets ∷ []

abbrev pub only_if : Bool → List (List Bytes) → List (List Bytes)
only_if due ss = if due then ss else []

-- The time of a table's last turn.
abbrev pub stepped : Bool → ℕ → ℕ → ℕ
stepped due now ts = if due then now else ts

-- A table has its turn when it is due: its time is then the present one and its section, as it is
-- afterwards, goes into the buffer.
pub record Turned (L : Libs) (due : Bool) (now ts ts' : ℕ) (ss : List (List Bytes)) (b b' : Cbuf)
    : Type 0 where
  pub time : ts' ≡ stepped due now ts
  pub buffer : b' ≡ put_each L b (only_if due ss)

module _ (L : Libs) (timeouts : Timeouts) (now : ℕ) (o : Output) where
  pub pat_turn-Turned :
      let o' = pat_turn L timeouts now o in
      Turned L
        (is_due L o.pat_ts now timeouts.pat)
        now
        o.pat_ts
        o'.pat_ts
        (pat_section o'.pat)
        o.psibuf
        o'.psibuf
      × (o' ≡ record o {
        pat = o'.pat;
        pat_ts = o'.pat_ts;
        pid_pat_cont = o'.pid_pat_cont;
        psibuf = o'.psibuf;
      })
  unfolding pat_turn output_add_pat put_each
  pat_turn-Turned = elim (Bool-cases (is_due L o.pat_ts now timeouts.pat)) [
    | inl due ↦ elim (Bool-cases (length o.pat.programs == 0)) [
      | inl empty ↦ rw due (rw empty (record { time = refl; buffer = rw empty refl }, refl))
      | inr full ↦ rw due (rw full (record { time = refl; buffer = rw full refl }, refl))
    ]
    | inr early ↦ rw early (record { time = refl; buffer = refl }, refl)
  ]

  pub nit_turn-Turned :
      let o' = nit_turn L timeouts now o in
      Turned L
        (is_due L o.nit_ts now timeouts.nit)
        now
        o.nit_ts
        o'.nit_ts
        (table_section o'.nit)
        o.psibuf
        o'.psibuf
      × (o' ≡ record o {
        nit = o'.nit;
        nit_ts = o'.nit_ts;
        pid_nit_cont = o'.pid_nit_cont;
        psibuf = o'.psibuf;
      })
  unfolding nit_turn output_add_nit put_each
  nit_turn-Turned = elim (Bool-cases (is_due L o.nit_ts now timeouts.nit)) [
    | inl due ↦ elim (Option-cases o.nit) [
      | inl missing ↦ rw due (
        (rw missing (record { time = refl; buffer = refl })),
        rw missing (ap (λ t. record o { nit = t; nit_ts = now }) missing),
      )
      | inr (t, made) ↦ rw due (rw made (record { time = refl; buffer = refl }, refl))
    ]
    | inr early ↦ rw early (record { time = refl; buffer = refl }, refl)
  ]

  pub sdt_turn-Turned :
      let o' = sdt_turn L timeouts now o in
      Turned L
        (is_due L o.sdt_ts now timeouts.sdt)
        now
        o.sdt_ts
        o'.sdt_ts
        (table_section o'.sdt)
        o.psibuf
        o'.psibuf
      × (o' ≡ record o {
        sdt = o'.sdt;
        sdt_ts = o'.sdt_ts;
        pid_sdt_cont = o'.pid_sdt_cont;
        psibuf = o'.psibuf;
      })
  unfolding sdt_turn output_add_sdt put_each
  sdt_turn-Turned = elim (Bool-cases (is_due L o.sdt_ts now timeouts.sdt)) [
    | inl due ↦ elim (Option-cases o.sdt) [
      | inl missing ↦ rw due (
        (rw missing (record { time = refl; buffer = refl })),
        rw missing (ap (λ t. record o { sdt = t; sdt_ts = now }) missing),
      )
      | inr (t, made) ↦ rw due (rw made (record { time = refl; buffer = refl }, refl))
    ]
    | inr early ↦ rw early (record { time = refl; buffer = refl }, refl)
  ]

  pub tdt_turn-Turned :
      (time : ℕ)
      → let o' = tdt_turn L timeouts now time o in
        Turned L
          (is_due L o.tdt_ts now timeouts.tdt)
          now
          o.tdt_ts
          o'.tdt_ts
          (table_section o'.tdt)
          o.psibuf
          o'.psibuf
        × (o' ≡ record o {
          tdt = o'.tdt;
          tdt_ts = o'.tdt_ts;
          pid_tdt_cont = o'.pid_tdt_cont;
          psibuf = o'.psibuf;
        })
  unfolding tdt_turn output_add_tdt output_add_pid0x14 put_each
  tdt_turn-Turned time = elim (Bool-cases (is_due L o.tdt_ts now timeouts.tdt)) [
    | inl due ↦ elim (Option-cases o.tdt) [
      | inl missing ↦ rw due (
        (rw missing (record { time = refl; buffer = refl })),
        rw missing (ap (λ t. record o { tdt = t; tdt_ts = now }) missing),
      )
      | inr (t, made) ↦ rw due (rw made (record { time = refl; buffer = refl }, refl))
    ]
    | inr early ↦ rw early (record { time = refl; buffer = refl }, refl)
  ]

  pub tot_turn-Turned :
      (time : ℕ)
      → let o' = tot_turn L timeouts now time o in
        Turned L
          (is_due L o.tot_ts now timeouts.tot)
          now
          o.tot_ts
          o'.tot_ts
          (table_section o'.tot)
          o.psibuf
          o'.psibuf
        × (o' ≡ record o {
          tot = o'.tot;
          tot_ts = o'.tot_ts;
          pid_tdt_cont = o'.pid_tdt_cont;
          psibuf = o'.psibuf;
        })
  unfolding tot_turn output_add_tot output_add_pid0x14 put_each
  tot_turn-Turned time = elim (Bool-cases (is_due L o.tot_ts now timeouts.tot)) [
    | inl due ↦ elim (Option-cases o.tot) [
      | inl missing ↦ rw due (
        (rw missing (record { time = refl; buffer = refl })),
        rw missing (ap (λ t. record o { tot = t; tot_ts = now }) missing),
      )
      | inr (t, made) ↦ rw due (rw made (record { time = refl; buffer = refl }, refl))
    ]
    | inr early ↦ rw early (record { time = refl; buffer = refl }, refl)
  ]

-- ===== src/Output/Psi/Schedule.antt =====
-- When the tables of the output are sent, and in which order.
use mptsd.Base.{
  ℕ, ◌+◌, ◌-◌, ◌≤◌, ◌<◌, ◌≡◌, refl, ap, sym, ◌∙◌, List, Bool-cases, inl, inr, ◌⊎◌, arith,
  if◌then◌else◌,
}
use mptsd.Libs.{Libs}
use mptsd.Input.{Input}
use mptsd.Output.{Output}
use mptsd.Output.Psi.{Timeouts, is_due, add_eits, output_add_eit, output_psi_add}
use mptsd.Output.Psi.Counters.{eit_sections, put_sections, add_eits-AllSent}
use mptsd.Output.Psi.Round.{due_sections, Times, Turns, turns-Turns, turns, add_eits_frame}
use mptsd.Output.Psi.Turns.{put_each, stepped}

-- The clock counts milliseconds.
abbrev pub Exact : Libs → Type 0
Exact L = (a b : ℕ) → a ≤ b → L.timeval_diff_msec a b ≡ b - a

-- A time that is not in the future and whose timeout has not passed.
abbrev pub Fresh : ℕ → ℕ → ℕ → Type 0
Fresh timeout now ts = (ts ≤ now) × (now < ts + timeout)

-- A table waits, or it is sent when its timeout has passed and the next look, within `gap`, has come.
abbrev pub OnTime : ℕ → ℕ → ℕ → ℕ → ℕ → Type 0
OnTime gap timeout now ts ts' =
    Fresh timeout now ts'
    × ((ts' ≡ ts) ⊎ ((ts' ≡ now) × (ts + timeout ≤ now) × (now < ts + timeout + gap)))

module _ (L : Libs) (exact : Exact L) (before now gap : ℕ) (later : before ≤ now)
    (soon : now ≤ before + gap) where
  stepped-OnTime :
      (timeout ts : ℕ)
      → Fresh timeout before ts
      → OnTime gap timeout now ts (stepped (is_due L ts now timeout) now ts)
  stepped-OnTime timeout ts (past, fresh) = elim (Bool-cases (is_due L ts now timeout)) [
    | inl due ↦
        let gone : timeout ≤ L.timeval_diff_msec ts now = ground arith in
        rw due (
          (omega arith, omega arith),
          inr (refl, omega (arith, gone, exact ts now (omega arith)), omega arith),
        )
    | inr early ↦
        let waits : L.timeval_diff_msec ts now < timeout = ground arith in
        rw early ((omega arith, omega (arith, waits, exact ts now (omega arith))), inl refl)
  ]

-- All times of the output.
pub record AllFresh (timeouts : Timeouts) (now : ℕ) (o : Output) : Type 0 where
  pub pat : Fresh timeouts.pat now o.pat_ts
  pub nit : Fresh timeouts.nit now o.nit_ts
  pub sdt : Fresh timeouts.sdt now o.sdt_ts
  pub eit : Fresh timeouts.eit now o.eit_ts
  pub tdt : Fresh timeouts.tdt now o.tdt_ts
  pub tot : Fresh timeouts.tot now o.tot_ts

-- A round of the tables: each is on time, and the buffer gets the sections of those that are due, the
-- guide last.
pub record Scheduled (L : Libs) (timeouts : Timeouts) (gap now : ℕ) (o o' : Output)
    (inputs' : List Input) : Type 0 where
  pub pat : OnTime gap timeouts.pat now o.pat_ts o'.pat_ts
  pub nit : OnTime gap timeouts.nit now o.nit_ts o'.nit_ts
  pub sdt : OnTime gap timeouts.sdt now o.sdt_ts o'.sdt_ts
  pub eit : OnTime gap timeouts.eit now o.eit_ts o'.eit_ts
  pub tdt : OnTime gap timeouts.tdt now o.tdt_ts o'.tdt_ts
  pub tot : OnTime gap timeouts.tot now o.tot_ts o'.tot_ts
  pub buffer :
      let b = put_each L o.psibuf (due_sections L timeouts now o o') in
      o'.psibuf
      ≡ (if is_due L o.eit_ts now timeouts.eit then put_sections L b (eit_sections inputs') else b)

-- The guide after the five turns.
guide-Turns :
    (L : Libs) (timeouts : Timeouts) (load : List Input → List Input) (now : ℕ)
    (inputs : List Input) (o t : Output)
    → o.pid_eit_cont < 16
    → Turns L timeouts now o t
    → let (o', inputs') =
        if is_due L t.eit_ts now timeouts.eit
        then output_add_eit L load inputs (record t { eit_ts = now })
        else (t, inputs) in
      Times L timeouts now o o'
      × (o'.eit_ts ≡ stepped (is_due L o.eit_ts now timeouts.eit) now o.eit_ts)
      × (o'.psibuf ≡ (
          if is_due L o.eit_ts now timeouts.eit
          then put_sections L
              (put_each L o.psibuf (due_sections L timeouts now o o'))
              (eit_sections inputs')
          else put_each L o.psibuf (due_sections L timeouts now o o')))
unfolding output_add_eit
guide-Turns L timeouts load now inputs o t cont turns =
    let same : is_due L t.eit_ts now timeouts.eit ≡ is_due L o.eit_ts now timeouts.eit =
      ap (λ ts. is_due L ts now timeouts.eit) turns.guide in
    elim (Bool-cases (is_due L o.eit_ts now timeouts.eit)) [
      | inl due ↦
          let t' : Output = record t { eit_ts = now } in
          let a = add_eits-AllSent L (load inputs) t' (omega (arith, turns.guide_cont)) in
          let f = add_eits_frame L (load inputs) t' in
          let o' = (add_eits L t' (load inputs)).0 in
          let inputs' = (add_eits L t' (load inputs)).1 in
          rw (same ∙ due) (
            rw due (
              record {
                pat = ap (λ x. x.pat_ts) f ∙ turns.times.pat;
                nit = ap (λ x. x.nit_ts) f ∙ turns.times.nit;
                sdt = ap (λ x. x.sdt_ts) f ∙ turns.times.sdt;
                tdt = ap (λ x. x.tdt_ts) f ∙ turns.times.tdt;
                tot = ap (λ x. x.tot_ts) f ∙ turns.times.tot;
              },
              ap (λ x. x.eit_ts) f,
              a.buffer
                  ∙ ap (λ b. put_sections L b (eit_sections inputs'))
                      (turns.buffer
                        ∙ ap (λ x. put_each L o.psibuf (due_sections L timeouts now o x)) (sym f)),
            ))
      | inr early ↦ rw (same ∙ early) (rw early (turns.times, turns.guide, turns.buffer))
    ]

-- When the clock is exact, no table is overdue at `before`, and the round comes at most `gap`
-- milliseconds later: a table waits until its timeout has passed and is then sent less than `gap` later
-- than that, and no table is overdue afterwards. What goes into the PSI buffer is exactly the sections
-- of the tables that are due, in the order PAT, NIT, SDT, TDT, TOT, an empty PAT left out, and last the
-- sections of the reloaded guide.
pub output_psi_add-Scheduled :
    (L : Libs) (timeouts : Timeouts) (config_load_epg : List Input → List Input)
    (before now gap time : ℕ) (inputs : List Input) (o : Output)
    → Exact L
    → before ≤ now
    → now ≤ before + gap
    → o.pid_eit_cont < 16
    → AllFresh timeouts before o
    → let (o', inputs') = output_psi_add L timeouts config_load_epg now time inputs o in
      Scheduled L timeouts gap now o o' inputs'
unfolding output_psi_add
output_psi_add-Scheduled L timeouts config_load_epg before now gap time inputs o exact later soon
      cont fresh =
    let t = turns L timeouts now time o in
    let (times, eit_time, buffer) =
      guide-Turns L timeouts config_load_epg now inputs o t cont
        (turns-Turns L timeouts now time o) in
    let on_time = stepped-OnTime L exact before now gap later soon in
    record {
      pat = rw times.pat (on_time timeouts.pat o.pat_ts fresh.pat);
      nit = rw times.nit (on_time timeouts.nit o.nit_ts fresh.nit);
      sdt = rw times.sdt (on_time timeouts.sdt o.sdt_ts fresh.sdt);
      eit = rw eit_time (on_time timeouts.eit o.eit_ts fresh.eit);
      tdt = rw times.tdt (on_time timeouts.tdt o.tdt_ts fresh.tdt);
      tot = rw times.tot (on_time timeouts.tot o.tot_ts fresh.tot);
      buffer = buffer;
    }

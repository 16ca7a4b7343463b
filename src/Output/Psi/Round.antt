-- ===== src/Output/Psi/Round.antt =====
-- The turns of the five tables together, and what the guide leaves alone.
use mptsd.Base.{
  ℕ, Option, none, some, Bytes, length, ◌==◌, ◌≡◌, refl, ap, sym, ◌∙◌, List, [], ◌∷◌, ◌++◌,
  Bool-cases, inl, inr,
}
use mptsd.Libs.{Libs, Cbuf, Eit}
use mptsd.Input.{Input}
use mptsd.Output.{Output}
use mptsd.Output.Psi.{
  Timeouts, is_due, pat_turn, nit_turn, sdt_turn, tdt_turn, tot_turn, add_eit, add_eits, put_psi,
}
use mptsd.Output.Psi.Turns.{
  put_each, only_if, pat_section, table_section, stepped, pat_turn-Turned, nit_turn-Turned,
  sdt_turn-Turned, tdt_turn-Turned, tot_turn-Turned,
}

put_each-append :
    (L : Libs) (b : Cbuf) (ss ts : List (List Bytes))
    → put_each L b (ss ++ ts) ≡ put_each L (put_each L b ss) ts
unfolding put_each
put_each-append L b [] ts = refl
put_each-append L b (s ∷ ss) ts = put_each-append L (put_psi L b s) ss ts

then_put :
    (L : Libs) (b b' b'' : Cbuf) (ss ts : List (List Bytes))
    → b' ≡ put_each L b ss
    → b'' ≡ put_each L b' ts
    → b'' ≡ put_each L b (ss ++ ts)
then_put L b b' b'' ss ts e e' = e' ∙ ap (λ c. put_each L c ts) e ∙ sym (put_each-append L b ss ts)

-- The sections of the tables that are due, in the order in which they are sent.
abbrev pub due_sections : Libs → Timeouts → ℕ → Output → Output → List (List Bytes)
due_sections L timeouts now o o' =
    only_if (is_due L o.pat_ts now timeouts.pat) (pat_section o'.pat)
    ++ only_if (is_due L o.nit_ts now timeouts.nit) (table_section o'.nit)
    ++ only_if (is_due L o.sdt_ts now timeouts.sdt) (table_section o'.sdt)
    ++ only_if (is_due L o.tdt_ts now timeouts.tdt) (table_section o'.tdt)
    ++ only_if (is_due L o.tot_ts now timeouts.tot) (table_section o'.tot)

add_eit_frame :
    (L : Libs) (o : Output) (e : Option Eit)
    → let o' = (add_eit L o e).0 in
      o' ≡ record o { pid_eit_cont = o'.pid_eit_cont; psibuf = o'.psibuf }
unfolding add_eit
add_eit_frame L o none = refl
add_eit_frame L o (some e) = elim (Bool-cases (length e.packets == 0)) [
  | inl empty ↦ rw empty refl
  | inr full ↦ rw full refl
]

pub add_eits_frame :
    (L : Libs) (rs : List Input) (o : Output)
    → let o' = (add_eits L o rs).0 in
      o' ≡ record o { pid_eit_cont = o'.pid_eit_cont; psibuf = o'.psibuf }
unfolding add_eits
add_eits_frame L [] o = refl
add_eits_frame L (r ∷ rs) o =
    let o' = (add_eit L o r.channel.eit_now).0 in
    let o'' = (add_eit L o' r.channel.eit_next).0 in
    let last = (add_eits L o'' rs).0 in
    let again : Output → Output =
      λ x. record x { pid_eit_cont = last.pid_eit_cont; psibuf = last.psibuf } in
    add_eits_frame L rs o''
    ∙ ap again (add_eit_frame L o' r.channel.eit_next)
    ∙ ap again (add_eit_frame L o r.channel.eit_now)

-- The times of the five tables.
pub record Times (L : Libs) (timeouts : Timeouts) (now : ℕ) (o o' : Output) : Type 0 where
  pub pat : o'.pat_ts ≡ stepped (is_due L o.pat_ts now timeouts.pat) now o.pat_ts
  pub nit : o'.nit_ts ≡ stepped (is_due L o.nit_ts now timeouts.nit) now o.nit_ts
  pub sdt : o'.sdt_ts ≡ stepped (is_due L o.sdt_ts now timeouts.sdt) now o.sdt_ts
  pub tdt : o'.tdt_ts ≡ stepped (is_due L o.tdt_ts now timeouts.tdt) now o.tdt_ts
  pub tot : o'.tot_ts ≡ stepped (is_due L o.tot_ts now timeouts.tot) now o.tot_ts

-- The five turns: the times, the buffer, and what they leave for the guide.
pub record Turns (L : Libs) (timeouts : Timeouts) (now : ℕ) (o o' : Output) : Type 0 where
  pub times : Times L timeouts now o o'
  pub buffer : o'.psibuf ≡ put_each L o.psibuf (due_sections L timeouts now o o')
  pub guide : o'.eit_ts ≡ o.eit_ts
  pub guide_cont : o'.pid_eit_cont ≡ o.pid_eit_cont

module _ (L : Libs) (timeouts : Timeouts) (now time : ℕ) (o : Output) where
  abbrev o1 : Output
  o1 = pat_turn L timeouts now o

  abbrev o2 : Output
  o2 = nit_turn L timeouts now o1

  abbrev o3 : Output
  o3 = sdt_turn L timeouts now o2

  abbrev o4 : Output
  o4 = tdt_turn L timeouts now time o3

  abbrev pub turns : Output
  turns = tot_turn L timeouts now time o4

  pub turns-Turns : Turns L timeouts now o turns
  turns-Turns =
      let (p1, f1) = pat_turn-Turned L timeouts now o in
      let (p2, f2) = nit_turn-Turned L timeouts now o1 in
      let (p3, f3) = sdt_turn-Turned L timeouts now o2 in
      let (p4, f4) = tdt_turn-Turned L timeouts now o3 time in
      let (p5, f5) = tot_turn-Turned L timeouts now o4 time in
      let kept1 : turns.pat ≡ o1.pat =
        ap (λ x. x.pat) f5 ∙ ap (λ x. x.pat) f4 ∙ ap (λ x. x.pat) f3 ∙ ap (λ x. x.pat) f2 in
      let ts2 : o1.nit_ts ≡ o.nit_ts = ap (λ x. x.nit_ts) f1 in
      let kept2 : turns.nit ≡ o2.nit =
        ap (λ x. x.nit) f5 ∙ ap (λ x. x.nit) f4 ∙ ap (λ x. x.nit) f3 in
      let ts3 : o2.sdt_ts ≡ o.sdt_ts = ap (λ x. x.sdt_ts) f2 ∙ ap (λ x. x.sdt_ts) f1 in
      let kept3 : turns.sdt ≡ o3.sdt = ap (λ x. x.sdt) f5 ∙ ap (λ x. x.sdt) f4 in
      let ts4 : o3.tdt_ts ≡ o.tdt_ts =
        ap (λ x. x.tdt_ts) f3 ∙ ap (λ x. x.tdt_ts) f2 ∙ ap (λ x. x.tdt_ts) f1 in
      let kept4 : turns.tdt ≡ o4.tdt = ap (λ x. x.tdt) f5 in
      let ts5 : o4.tot_ts ≡ o.tot_ts =
        ap (λ x. x.tot_ts) f4
        ∙ ap (λ x. x.tot_ts) f3
        ∙ ap (λ x. x.tot_ts) f2
        ∙ ap (λ x. x.tot_ts) f1 in
      record {
        times = record {
          pat =
              ap (λ x. x.pat_ts) f5
              ∙ ap (λ x. x.pat_ts) f4
              ∙ ap (λ x. x.pat_ts) f3
              ∙ ap (λ x. x.pat_ts) f2
              ∙ p1.time;
          nit =
              ap (λ x. x.nit_ts) f5
              ∙ ap (λ x. x.nit_ts) f4
              ∙ ap (λ x. x.nit_ts) f3
              ∙ p2.time
              ∙ ap (λ t. stepped (is_due L t now timeouts.nit) now t) ts2;
          sdt =
              ap (λ x. x.sdt_ts) f5
              ∙ ap (λ x. x.sdt_ts) f4
              ∙ p3.time
              ∙ ap (λ t. stepped (is_due L t now timeouts.sdt) now t) ts3;
          tdt =
              ap (λ x. x.tdt_ts) f5
              ∙ p4.time
              ∙ ap (λ t. stepped (is_due L t now timeouts.tdt) now t) ts4;
          tot = p5.time ∙ ap (λ t. stepped (is_due L t now timeouts.tot) now t) ts5;
        };
        buffer =
            (then_put L _ _ _ _ _
              (then_put L _ _ _ _ _
                (then_put L _ _ _ _ _
                  (then_put L _ _ _ _ _
                    (p1.buffer
                      ∙ ap
                          (λ x.
                            put_each L o.psibuf
                              (only_if (is_due L o.pat_ts now timeouts.pat) (pat_section x)))
                          (sym kept1))
                    (p2.buffer
                      ∙ ap
                          (λ t.
                            put_each L o1.psibuf
                              (only_if (is_due L t now timeouts.nit) (table_section o2.nit)))
                          ts2
                      ∙ ap
                          (λ x.
                            put_each L o1.psibuf
                              (only_if (is_due L o.nit_ts now timeouts.nit) (table_section x)))
                          (sym kept2)))
                  (p3.buffer
                    ∙ ap
                        (λ t.
                          put_each L o2.psibuf
                            (only_if (is_due L t now timeouts.sdt) (table_section o3.sdt)))
                        ts3
                    ∙ ap
                        (λ x.
                          put_each L o2.psibuf
                            (only_if (is_due L o.sdt_ts now timeouts.sdt) (table_section x)))
                        (sym kept3)))
                (p4.buffer
                  ∙ ap
                      (λ t.
                        put_each L o3.psibuf
                          (only_if (is_due L t now timeouts.tdt) (table_section o4.tdt)))
                      ts4
                  ∙ ap
                      (λ x.
                        put_each L o3.psibuf
                          (only_if (is_due L o.tdt_ts now timeouts.tdt) (table_section x)))
                      (sym kept4)))
              (p5.buffer
                ∙ ap
                    (λ t.
                      put_each L o4.psibuf
                        (only_if (is_due L t now timeouts.tot) (table_section turns.tot)))
                    ts5));
        guide =
            ap (λ x. x.eit_ts) f5
            ∙ ap (λ x. x.eit_ts) f4
            ∙ ap (λ x. x.eit_ts) f3
            ∙ ap (λ x. x.eit_ts) f2
            ∙ ap (λ x. x.eit_ts) f1;
        guide_cont =
            ap (λ x. x.pid_eit_cont) f5
            ∙ ap (λ x. x.pid_eit_cont) f4
            ∙ ap (λ x. x.pid_eit_cont) f3
            ∙ ap (λ x. x.pid_eit_cont) f2
            ∙ ap (λ x. x.pid_eit_cont) f1;
      }

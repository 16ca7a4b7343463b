-- ===== src/Output/Psi/Init/Announced.antt =====
-- What the output's own tables announce, and when they cannot be made.
use mptsd.Base.{
  ℕ, ◌*◌, ◌≡◌, ◌≢◌, ◌↔◌, ◌⊎◌, inl, inr, refl, sym, ap, subst, ◌∙◌, true, List, [], ◌∷◌, ◌++◌,
  append-nil, append_assoc, none, some, arith, All, ◌==◌, Bool-cases, Option-cases, map,
}
use mathlib.Core.Option.{some-injective}
use mptsd.Libs.{TableLibs, Pat, PatProgram, Table}
use mptsd.Channel.{Channel}
use mptsd.Config.{Ini}
use mptsd.Config.Channels.{load_channels}
use mptsd.Config.Channels.Rounds.{FromSection, IndicesFrom, Loaded}
use mptsd.Config.Channels.File.{load_channels-Loaded}
use mptsd.Config.Files.{Nit, config_load_nit}
use mptsd.Config.Files.Transponders.{Renewable, config_load_nit-Renewable}
use mptsd.Output.{Output}
use mptsd.Output.Psi.Init.{
  TableConfig, add_programs, output_psi_init_pat, find_transponder, plain_nit, lcn_nit,
  output_psi_init_nit, output_psi_init_sdt, output_psi_init_tdt_tot, output_psi_init,
}

-- A new PAT is empty, and a program is added at its end.
pub record PatAppends (T : TableLibs) : Type 0 where
  pub empty : (id : ℕ) → (T.ts_pat_alloc_init id).programs ≡ []
  pub appends :
      (pat : Pat) (program pid : ℕ)
      → (T.ts_pat_add_program pat program pid).programs
        ≡ pat.programs ++ record { program = program; pid = pid } ∷ []

-- A service, and the first identifier of its channel's block for its PMT.
abbrev pub announce : Channel → PatProgram
announce c = record { program = c.service_id; pid = 32 * c.index }

programs-add_programs :
    (T : TableLibs) (law : PatAppends T) (ini : Ini) (cs : List Channel) (pat : Pat)
    → All (FromSection ini) cs
    → (add_programs T cs pat).programs ≡ pat.programs ++ map announce cs
unfolding add_programs
programs-add_programs T law ini [] pat h = sym (append-nil pat.programs)
programs-add_programs T law ini (c ∷ cs) pat (f, h) =
    programs-add_programs T law ini cs (T.ts_pat_add_program pat c.service_id c.pmt_pid) h
    ∙ ap (λ ps. ps ++ map announce cs) (law.appends pat c.service_id c.pmt_pid)
    ∙ append_assoc pat.programs (record { program = c.service_id; pid = c.pmt_pid } ∷ [])
        (map announce cs)
    ∙ ap (λ pid. pat.programs ++ record { program = c.service_id; pid = pid } ∷ map announce cs)
        f.holds.pmt

-- No transponder of the stream.
abbrev pub Lacks : ℕ → List Nit → Type 0
Lacks ts_id ns = All (λ (n : Nit). n.ts_id ≢ ts_id) ns

find_transponder-keeps :
    (ts_id : ℕ) (ns : List Nit) (t : Nit)
    → Renewable t
    → All Renewable ns
    → (u : Nit) × (find_transponder ts_id ns (some t) ≡ some u) × Renewable u
unfolding find_transponder
find_transponder-keeps ts_id [] t r h = (t, refl, r)
find_transponder-keeps ts_id (n ∷ ns) t r (s, h) = elim (Bool-cases (n.ts_id == ts_id)) [
  | inl here ↦ rw here (find_transponder-keeps ts_id ns n s h)
  | inr other ↦ rw other (find_transponder-keeps ts_id ns t r h)
]

find_transponder_lem :
    (ts_id : ℕ) (ns : List Nit)
    → All Renewable ns
    → (Lacks ts_id ns × (find_transponder ts_id ns none ≡ none))
      ⊎ ((Lacks ts_id ns → ⊥)
          × ((t : Nit) × (find_transponder ts_id ns none ≡ some t) × Renewable t))
unfolding find_transponder
find_transponder_lem ts_id [] h = inl (tt, refl)
find_transponder_lem ts_id (n ∷ ns) (r, h) = elim (Bool-cases (n.ts_id == ts_id)) [
  | inl here ↦
      inr ((λ lacks. lacks.0 (ground arith)), rw here (find_transponder-keeps ts_id ns n r h))
  | inr other ↦ elim (find_transponder_lem ts_id ns h) [
    | inl (lacks, e) ↦ inl ((ground arith, lacks), rw other e)
    | inr (some_here, found) ↦ inr ((λ lacks. some_here lacks.1), rw other found)
  ]
]

module _ (T : TableLibs) (conf : TableConfig) where
  lcn_nit_lem :
      (nit : Table)
      → All Renewable conf.nit
      → (Lacks conf.transport_stream_id conf.nit × (lcn_nit T conf nit ≡ none))
        ⊎ ((Lacks conf.transport_stream_id conf.nit → ⊥)
            × ((t : Table) × (lcn_nit T conf nit ≡ some t)))
  unfolding lcn_nit
  lcn_nit_lem nit h = elim (find_transponder_lem conf.transport_stream_id conf.nit h) [
    | inl (lacks, e) ↦ inl (lacks, ground arith)
    | inr (has, (t, e, renew)) ↦
        let (m, again) = renew conf.transport_stream_id in
        inr (
          has,
          elim (Option-cases (lcn_nit T conf nit)) [
            | inl never ↦ absurd (ground arith)
            | inr found ↦ found
          ],
        )
  ]

  -- How the NIT comes out.
  abbrev NitOutcome : ℕ → Output → Type 0
  NitOutcome now o =
      ((conf.use_lcn ≡ true)
        × Lacks conf.transport_stream_id conf.nit
        × (output_psi_init_nit T conf now o ≡ none))
      ⊎ (((conf.use_lcn ≡ true) × Lacks conf.transport_stream_id conf.nit → ⊥)
          × ((t : Table) × (output_psi_init_nit T conf now o
                ≡ some (record o { nit_ts = now; nit = some t }))))

  nit_outcome : (now : ℕ) (o : Output) → All Renewable conf.nit → NitOutcome now o
  unfolding output_psi_init_nit
  nit_outcome now o h =
      let named =
        T.ts_nit_add_network_name_descriptor (T.ts_nit_alloc_init conf.network_id)
          conf.network_name in
      elim (Bool-cases conf.use_lcn) [
        | inr plain ↦ inr ((λ both. absurd (cc (both.0))), (plain_nit T conf named, ground arith))
        | inl lcn ↦ elim (lcn_nit_lem named h) [
          | inl (lacks, e) ↦ inl (lcn, lacks, ground arith)
          | inr (has, (t, e)) ↦ inr ((λ both. has both.1), (t, ground arith))
        ]
      ]

  init_none :
      (now time : ℕ) (o : Output)
      → output_psi_init_nit T conf now (output_psi_init_pat T conf now o) ≡ none
      → output_psi_init T conf now time o ≡ none
  unfolding output_psi_init
  init_none now time o e = rw (e, output_psi_init) refl

  init_some :
      (now time : ℕ) (o : Output) (t : Table)
      → output_psi_init_nit T conf now (output_psi_init_pat T conf now o)
        ≡ some (record (output_psi_init_pat T conf now o) { nit_ts = now; nit = some t })
      → (o' : Output) × (output_psi_init T conf now time o ≡ some o')
        × (o'.pat ≡ add_programs T conf.channels (T.ts_pat_alloc_init conf.transport_stream_id))
        × (o'.nit ≡ some t)
        × (o'.sdt ≢ none)
        × (o'.tdt ≢ none)
        × (o'.tot ≢ none)
  unfolding output_psi_init output_psi_init_pat output_psi_init_sdt output_psi_init_tdt_tot
  init_some now time o t e = elim (Option-cases (output_psi_init T conf now time o)) [
    | inl never ↦ absurd (ground arith)
    | inr (o', made_it) ↦ (
      o',
      made_it,
      ground arith,
      ground arith,
      (λ gone. ground arith),
      (λ gone. ground arith),
      (λ gone. ground arith),
    )
  ]

-- The tables that are made.
pub record Tables (conf : TableConfig) (o : Output) : Type 0 where
  pub programs : o.pat.programs ≡ map announce conf.channels
  pub blocks : IndicesFrom 1 conf.channels
  pub present : (o.nit ≢ none) × (o.sdt ≢ none) × (o.tdt ≢ none) × (o.tot ≢ none)

-- With the transponders and the channels of two files that could be loaded: the making of the tables
-- goes through a NULL pointer exactly when logical channel numbers are wanted and no transponder has
-- the output's stream identifier. Otherwise all tables are there, and the PAT announces every channel in
-- its order, its PMT at the first identifier of its block, the indices of the blocks growing from 1 on.
pub output_psi_init_lem :
    (T : TableLibs)
    → PatAppends T
    → (conf : TableConfig) (nit_ini channels_ini : Ini) (now time : ℕ) (o : Output)
    → config_load_nit nit_ini ≡ some conf.nit
    → load_channels channels_ini ≡ some conf.channels
    → ((output_psi_init T conf now time o ≡ none)
        ↔ ((conf.use_lcn ≡ true) × Lacks conf.transport_stream_id conf.nit))
      × ((o' : Output) → output_psi_init T conf now time o ≡ some o' → Tables conf o')
output_psi_init_lem T law conf nit_ini channels_ini now time o nits loaded =
    elim (nit_outcome T conf now (output_psi_init_pat T conf now o)
      (config_load_nit-Renewable nit_ini conf.nit nits).0) [
        | inl (lcn, lacks, e) ↦
            let never = init_none T conf now time o e in
            (((λ _. (lcn, lacks)), (λ _. never)), λ o' made_it. absurd (cc))
        | inr (fine, (t, e)) ↦
            let (o1, made_it, pat, nit, sdt, tdt, tot) = init_some T conf now time o t e in
            (
              ((λ never. absurd (cc)), (λ both. absurd (fine both))),
              λ o' result.
                  subst (Tables conf) (some-injective o1 o' (sym made_it ∙ result)) (record {
                    programs = ap (λ (p : Pat). p.programs) pat ∙ listed;
                    blocks = l.indices;
                    present = ((λ gone. cc), sdt, tdt, tot);
                  }),
            )
      ]
  where
    l : Loaded channels_ini 1 32 conf.channels
    l = load_channels-Loaded channels_ini conf.channels loaded

    listed :
        (add_programs T conf.channels (T.ts_pat_alloc_init conf.transport_stream_id)).programs
        ≡ map announce conf.channels
    listed =
        programs-add_programs T law channels_ini conf.channels
          (T.ts_pat_alloc_init conf.transport_stream_id) l.from_sections
        ∙ ap (λ ps. ps ++ map announce conf.channels) (law.empty conf.transport_stream_id)

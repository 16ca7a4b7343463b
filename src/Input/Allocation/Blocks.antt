-- ===== src/Input/Allocation/Blocks.antt =====
-- Every channel has a block of 32 identifiers, which its PAT and PMT are rewritten into.
use mptsd.Base.{
  ℕ, suc, ◌+◌, ◌*◌, ◌^◌, ◌≤◌, ◌<◌, ◌≡◌, refl, ap, ◌≢◌, false, List, [], ◌∷◌, some, arith, ◌==◌,
  if◌then◌else◌, length, All, u16, Bool-cases, inl, inr, ◌∙◌, subst,
}
use mptsd.Libs.{Libs, Pat, PatProgram, Pmt}
use mptsd.Pidref.{Pidref, pidref_add, pidref_init}
use mptsd.Input.{Input, input_stream_reset}
use mptsd.Input.Tables.{assign_pid, rewrite_programs, input_rewrite_pat, input_rewrite_pmt}
use mptsd.Input.Allocation.{pids, All-map}
use mptsd.Input.Allocation.Ranges.{PmtLaws, CanTake, saved_pmt, input_rewrite_pmt_lem}

-- How many programs of a PAT are rewritten: all but the network's.
unfoldable pub services : List PatProgram → ℕ
services [] = 0
services (prg ∷ ps) = if prg.program == 0 then services ps else suc (services ps)

base-pidref_add : (ref : Pidref) (o n : ℕ) → (pidref_add ref o n).1.base_pid ≡ ref.base_pid
unfolding pidref_add
base-pidref_add ref o n = ground arith

base-assign_pid : (ref : Pidref) (p : ℕ) → (assign_pid ref p).base_pid ≡ u16 (ref.base_pid + 1)
unfolding assign_pid
base-assign_pid ref p = ap (λ b. u16 (b + 1)) (base-pidref_add ref p ref.base_pid)

base-rewrite_programs :
    (service_id : ℕ) (ps : List PatProgram) (ref : Pidref)
    → ref.base_pid + services ps < 2 ^ 16
    → (rewrite_programs service_id ref ps).1.base_pid ≡ ref.base_pid + services ps
unfolding rewrite_programs services
base-rewrite_programs service_id [] ref h = omega arith
base-rewrite_programs service_id (prg ∷ ps) ref h = elim (Bool-cases (prg.program == 0)) [
  | inl network ↦ rw network (base-rewrite_programs service_id ps ref (ground arith))
  | inr service ↦
      let e : (assign_pid ref prg.pid).base_pid ≡ ref.base_pid + 1 =
        omega (arith, base-assign_pid ref prg.pid, one service) in
      rw service (
        base-rewrite_programs service_id ps (assign_pid ref prg.pid) (omega (arith, e, one service))
        ∙ omega (arith, e))
]
  where
    one : (prg.program == 0) ≡ false → ref.base_pid + suc (services ps) < 2 ^ 16
    one service = ground arith

-- Rewriting the PAT moves the base on by one for each program that is not the network's.
pub base-input_rewrite_pat :
    (L : Libs) (r : Input) (q : Pat)
    → L.ts_pat_copy r.stream.pat ≡ some q
    → r.stream.pidref.base_pid + services q.programs < 2 ^ 16
    → (input_rewrite_pat L r).stream.pidref.base_pid
      ≡ r.stream.pidref.base_pid + services q.programs
unfolding input_rewrite_pat
base-input_rewrite_pat L r q e h =
    rw (e, input_rewrite_pat)
      (base-rewrite_programs r.channel.service_id q.programs r.stream.pidref h)

-- The announced identifiers of a PMT: the clock's and the streams'.
abbrev pub service_pids : Pmt → List ℕ
service_pids p = p.pcr_pid ∷ pids p.streams

-- What the input has left of its block suffices for its PMT.
pub record InBlock (r : Input) : Type 0 where
  pub from : 32 * r.channel.index ≤ r.stream.pidref.base_pid
  pub to : r.stream.pidref.base_pid + 1 + length r.stream.pmt.streams ≤ 32 * r.channel.index + 32

rest_kept :
    (L : Libs) (r : Input) (q : Pat)
    → L.ts_pat_copy r.stream.pat ≡ some q
    → ((input_rewrite_pat L r).channel ≡ r.channel)
      × ((input_rewrite_pat L r).stream.pmt ≡ r.stream.pmt)
unfolding input_rewrite_pat
rest_kept L r q e = rw (e, input_rewrite_pat) (refl, refl)

-- A new connection of a channel with base 32 times its index, and a PAT with `k` programs: the block
-- suffices when `k`, the clock and the streams of the PMT are 32 identifiers at most.
pub reset-InBlock :
    (L : Libs) (r r' : Input) (q : Pat)
    → r.channel.base_pid ≡ 32 * r.channel.index
    → r.channel.index < 256
    → r'.channel ≡ r.channel
    → r'.stream.pidref ≡ (input_stream_reset L r).stream.pidref
    → L.ts_pat_copy r'.stream.pat ≡ some q
    → services q.programs + 1 + length r'.stream.pmt.streams ≤ 32
    → InBlock (input_rewrite_pat L r')
unfolding input_stream_reset pidref_init
reset-InBlock L r r' q base index same new e fits =
    let start : r'.stream.pidref.base_pid ≡ 32 * r.channel.index =
      ap (λ p. p.base_pid) new ∙ base in
    let idx : r'.channel.index ≡ r.channel.index = ap (λ c. c.index) same in
    let moved = base-input_rewrite_pat L r' q e (omega (arith, start)) in
    let (same_channel, same_pmt) = rest_kept L r' q e in
    record {
      from = omega (arith, moved, start, idx, ap (λ c. c.index) same_channel);
      to = omega (
        arith,
        moved,
        start,
        idx,
        ap (λ c. c.index) same_channel,
        ap (λ p. length p.streams) same_pmt,
      );
    }

-- The identifiers of a list lie from 32 times the index on, and below the next block.
abbrev pub InBlockOf : ℕ → List ℕ → Type 0
InBlockOf index = All (λ q. (32 * index ≤ q) × (q < 32 * index + 32))

apart :
    (i j : ℕ) (xs ys : List ℕ)
    → i ≢ j
    → InBlockOf i xs
    → InBlockOf j ys
    → All (λ p. All (λ q. p ≢ q) ys) xs
apart i j xs ys ne hx hy = All-map (λ p b. All-map (λ q c. one p q b c) ys hy) xs hx
  where
    one : (p q : ℕ) → (32 * i ≤ p) × (p < 32 * i + 32) → (32 * j ≤ q) × (q < 32 * j + 32) → p ≢ q
    one p q b c = omega arith

module _ (L : Libs) (laws : PmtLaws L) where
  block_range :
      (r : Input) (q p : Pmt)
      → InBlock r
      → L.ts_pmt_copy r.stream.pmt ≡ some q
      → CanTake r.stream.pidref r.stream.pmt.pcr_pid r.stream.pmt.streams
      → (input_rewrite_pmt L r).stream.pmt_rewritten ≡ some p
      → InBlockOf r.channel.index (service_pids p)
  block_range r q p b e t saved =
      let a = input_rewrite_pmt_lem L laws r q e t in
      let same : saved_pmt L r q ≡ p = cc (a.rewritten) in
      subst (λ k. InBlockOf r.channel.index (service_pids k)) same
        (All-map (λ m h. omega (arith, h, b.from, b.to)) (service_pids (saved_pmt L r q)) a.range)

  -- Two inputs whose channels have different indices announce no identifier in common in their
  -- rewritten PMTs, when each can take its PMT and has room for it in its block; and the identifiers
  -- of the first lie in its own block.
  pub announced_disjoint :
      (r r' : Input) (q q' p p' : Pmt)
      → r.channel.index ≢ r'.channel.index
      → InBlock r
      → InBlock r'
      → L.ts_pmt_copy r.stream.pmt ≡ some q
      → L.ts_pmt_copy r'.stream.pmt ≡ some q'
      → CanTake r.stream.pidref r.stream.pmt.pcr_pid r.stream.pmt.streams
      → CanTake r'.stream.pidref r'.stream.pmt.pcr_pid r'.stream.pmt.streams
      → (input_rewrite_pmt L r).stream.pmt_rewritten ≡ some p
      → (input_rewrite_pmt L r').stream.pmt_rewritten ≡ some p'
      → InBlockOf r.channel.index (service_pids p)
        × All (λ m. All (λ m'. m ≢ m') (service_pids p')) (service_pids p)
  announced_disjoint r r' q q' p p' ne b b' e e' t t' s s' =
      let own = block_range r q p b e t s in
      let other = block_range r' q' p' b' e' t' s' in
      (own, apart r.channel.index r'.channel.index (service_pids p) (service_pids p') ne own other)

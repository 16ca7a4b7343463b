-- ===== src/Input/Allocation/Ranges.antt =====
-- `input_rewrite_pmt` as a whole: which identifiers it announces, and in which range.
use mptsd.Base.{
  ℕ, ◌+◌, ◌^◌, ◌≤◌, ◌<◌, ◌≡◌, refl, sym, ap, ap₂, ◌∙◌, ◌≢◌, true, false, List, [], ◌∷◌, ◌++◌, map,
  subst, some, arith, length, All,
}
use mptsd.Libs.{Libs, Pmt, PmtStream}
use mptsd.Pidref.{Pidref, pidref_get_new_pid}
use mptsd.Pidref.Table.{Rewrites, lookup_pid, rewrites, IsValid, pidref_get_new_pid_lem}
use mptsd.Pidref.Delete.{has_pid, has_pid-snoc}
use mptsd.Input.{Input}
use mptsd.Input.Tables.{assign_pid, rewrite_streams, input_rewrite_pmt}
use mptsd.Input.Allocation.{
  Assigned, assign_pid-Assigned, Fresh, pids, Announced, rewrite_streams-Announced, All-map,
  own_entry,
}

-- What the program expects of a copied PMT and of a PMT whose packets are made anew.
pub record PmtLaws (L : Libs) : Type 0 where
  pub copied :
      (p q : Pmt) → L.ts_pmt_copy p ≡ some q → (q.streams ≡ p.streams) × (q.pcr_pid ≡ p.pcr_pid)
  pub streams_kept : (p : Pmt) → (L.ts_pmt_regenerate_packets p).streams ≡ p.streams
  pub pcr_kept : (p : Pmt) → (L.ts_pmt_regenerate_packets p).pcr_pid ≡ p.pcr_pid

-- The table of the input can take the PMT: the clock and the streams have identifiers of their own,
-- the table has room, and the numbers fit in 16 bits.
pub record CanTake (ref : Pidref) (pcr_pid : ℕ) (streams : List PmtStream) : Type 0 where
  pub valid : IsValid ref
  pub clock : pcr_pid ≢ 0
  pub clock_new : has_pid pcr_pid (rewrites ref) ≡ false
  pub fresh : Fresh (rewrites ref) pcr_pid streams
  pub room : length (rewrites ref) + 1 + length streams ≤ ref.num
  pub word : ref.base_pid + 1 + length streams < 2 ^ 16

Fresh-clock :
    (rs : Rewrites) (org n : ℕ) (ss : List PmtStream)
    → Fresh rs org ss
    → Fresh (rs ++ (org, n) ∷ []) org ss
Fresh-clock rs org n [] f = tt
Fresh-clock rs org n (s ∷ ss) f = (
  f.0,
  λ ne. (ground (arith, has_pid-snoc s.pid org n rs, f.1 ne), (f.1 ne).1),
  Fresh-clock rs org n ss f.2,
)

clock_step :
    (ref : Pidref) (pcr_pid : ℕ) (streams : List PmtStream)
    → CanTake ref pcr_pid streams
    → Announced ref.base_pid
        (assign_pid ref pcr_pid)
        streams
        (rewrite_streams pcr_pid ref.base_pid (assign_pid ref pcr_pid) streams)
      × Assigned ref pcr_pid (assign_pid ref pcr_pid)
      × ((has_pid pcr_pid (rewrites (assign_pid ref pcr_pid)) ≡ true)
          × (lookup_pid pcr_pid (rewrites (assign_pid ref pcr_pid)) ≡ ref.base_pid))
clock_step ref pcr_pid streams t =
    let a =
      assign_pid-Assigned ref pcr_pid t.valid t.clock (omega (arith, t.room))
        (omega (arith, t.word)) in
    let own = own_entry _ _ pcr_pid ref.base_pid a.added t.clock_new in
    (
      rewrite_streams-Announced pcr_pid ref.base_pid streams (assign_pid ref pcr_pid) a.valid own
          (rw a.added (Fresh-clock _ _ _ _ t.fresh)) (omega (arith, a.longer, a.num, t.room))
          (omega (arith, a.base, t.word)),
      a,
      own,
    )

-- The identifiers of the rewritten PMT `p`, against the table of the input afterwards.
pub record Agrees (r : Input) (pcr_pid : ℕ) (streams : List PmtStream) (p : Pmt) (r' : Input)
    : Type 0 where
  pub rewritten : r'.stream.pmt_rewritten ≡ some p
  pub announced : pids p.streams ≡ map (λ s. pidref_get_new_pid r'.stream.pidref s.pid) streams
  pub clock : p.pcr_pid ≡ pidref_get_new_pid r'.stream.pidref pcr_pid
  pub clock_out : r'.output_pcr_pid ≡ p.pcr_pid
  pub clock_in : r'.stream.pcr_pid ≡ pcr_pid
  pub valid : IsValid r'.stream.pidref
  pub range :
      All
        (λ q. (r.stream.pidref.base_pid ≤ q) × (q ≤ r.stream.pidref.base_pid + length streams))
        (p.pcr_pid ∷ pids p.streams)

All-nonzero :
    (rs : Rewrites) (org : ℕ) (ss : List PmtStream) → Fresh rs org ss → All (λ s. s.pid ≢ 0) ss
All-nonzero rs org [] f = tt
All-nonzero rs org (s ∷ ss) f = (f.0, All-nonzero rs org ss f.2)

lookups :
    (ref : Pidref) (ss : List PmtStream)
    → All (λ s. s.pid ≢ 0) ss
    → map (λ s. lookup_pid s.pid (rewrites ref)) ss ≡ map (λ s. pidref_get_new_pid ref s.pid) ss
lookups ref [] h = refl
lookups ref (s ∷ ss) h = ap₂ ◌∷◌ (sym (pidref_get_new_pid_lem ref s.pid h.0)) (lookups ref ss h.1)

All-pids : (P : ℕ → Type 0) (ss : List PmtStream) → All (λ s. P s.pid) ss → All P (pids ss)
All-pids P [] h = tt
All-pids P (s ∷ ss) h = (h.0, All-pids P ss h.1)

-- The PMT that `input_rewrite_pmt` saves when it copied `q`.
abbrev pub saved_pmt : Libs → Input → Pmt → Pmt
saved_pmt L r q =
    let ref = r.stream.pidref in
    L.ts_pmt_regenerate_packets (record q {
      pid = pidref_get_new_pid ref r.stream.pmt_pid;
      ts_id_number = r.channel.service_id;
      pcr_pid = ref.base_pid;
      streams = (rewrite_streams q.pcr_pid ref.base_pid (assign_pid ref q.pcr_pid) q.streams).0;
    })

module _ (L : Libs) (laws : PmtLaws L) (r : Input) where
  copy_Agrees :
      (q : Pmt)
      → L.ts_pmt_copy r.stream.pmt ≡ some q
      → CanTake r.stream.pidref q.pcr_pid q.streams
      → Agrees r q.pcr_pid q.streams (saved_pmt L r q) (input_rewrite_pmt L r)
  unfolding input_rewrite_pmt
  copy_Agrees q e t =
      let ref = r.stream.pidref in
      let (an, a, own) = clock_step ref q.pcr_pid q.streams t in
      let res = rewrite_streams q.pcr_pid ref.base_pid (assign_pid ref q.pcr_pid) q.streams in
      let pcr = laws.pcr_kept (record q {
        pid = pidref_get_new_pid ref r.stream.pmt_pid;
        ts_id_number = r.channel.service_id;
        pcr_pid = ref.base_pid;
        streams = res.0;
      }) in
      let kept = laws.streams_kept (record q {
        pid = pidref_get_new_pid ref r.stream.pmt_pid;
        ts_id_number = r.channel.service_id;
        pcr_pid = ref.base_pid;
        streams = res.0;
      }) in
      rw (e, input_rewrite_pmt)
        (record {
          rewritten = refl;
          announced =
              ap pids kept ∙ an.agree ∙ lookups res.1 q.streams (All-nonzero _ _ q.streams t.fresh);
          clock =
              pcr
              ∙ sym (
                  pidref_get_new_pid_lem res.1 q.pcr_pid t.clock
                  ∙ (an.kept q.pcr_pid own.0).1
                  ∙ own.1);
          clock_out = sym pcr;
          clock_in = refl;
          valid = an.valid;
          range = (
            omega (arith, pcr),
            rw kept (
                All-pids _ res.0
                  (All-map (λ s h. ground (arith, h, a.base, an.to_base)) res.0 an.range)),
          );
        })

  -- When the PMT can be copied and the table of the input can take it, the rewritten PMT announces for
  -- the clock and for every stream exactly the identifier that the packet loop looks up for it; the
  -- announced identifiers lie in the range that starts at the base and has one place for the clock and
  -- one for each stream.
  pub input_rewrite_pmt_lem :
      (q : Pmt)
      → L.ts_pmt_copy r.stream.pmt ≡ some q
      → CanTake r.stream.pidref r.stream.pmt.pcr_pid r.stream.pmt.streams
      → Agrees r r.stream.pmt.pcr_pid r.stream.pmt.streams (saved_pmt L r q) (input_rewrite_pmt L r)
  input_rewrite_pmt_lem q e t =
      let (ss, pcr) = laws.copied r.stream.pmt q e in
      subst (λ k. Agrees r k r.stream.pmt.streams (saved_pmt L r q) (input_rewrite_pmt L r)) pcr
        (subst (λ k. Agrees r q.pcr_pid k (saved_pmt L r q) (input_rewrite_pmt L r)) ss
          (copy_Agrees q e (rw (ss, pcr) t)))

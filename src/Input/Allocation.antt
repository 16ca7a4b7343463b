-- ===== src/Input/Allocation.antt =====
-- The identifiers that an input gives to its tables and streams: the rewritten PMT announces what the
-- packet loop writes into the packets.
pub mod Ranges
pub mod Blocks
use mptsd.Base.{
  ℕ, zero, suc, ◌+◌, ◌*◌, ◌^◌, ◌≤◌, ◌<◌, ◌≡◌, refl, sym, ap, ap₂, ◌∙◌, ◌≢◌, ◌⊎◌, inl, inr, Bool,
  true, false, List, [], ◌∷◌, ◌++◌, map, Option, none, some, arith, ◌==◌, if◌then◌else◌, length,
  length-append, All, Bool-cases,
}
use mptsd.Libs.{PmtStream}
use mptsd.Pidref.{Pidref, pidref_add, pidref_get_new_pid}
use mptsd.Pidref.Table.{
  Rewrites, lookup_pid, rewrites, IsValid, pidref_add_lem, pidref_get_new_pid_lem,
}
use mptsd.Pidref.Delete.{has_pid, has_pid-snoc, lookup_pid-snoc}
use mptsd.Input.Tables.{assign_pid, rewrite_streams}

-- One assignment on a table with room: the identifier becomes the base, and the base moves on.
pub record Assigned (ref : Pidref) (p : ℕ) (ref' : Pidref) : Type 0 where
  pub added : rewrites ref' ≡ rewrites ref ++ (p, ref.base_pid) ∷ []
  pub longer : length (rewrites ref') ≡ length (rewrites ref) + 1
  pub valid : IsValid ref'
  pub base : ref'.base_pid ≡ ref.base_pid + 1
  pub num : ref'.num ≡ ref.num

pub assign_pid-Assigned :
    (ref : Pidref) (p : ℕ)
    → IsValid ref
    → p ≢ 0
    → length (rewrites ref) < ref.num
    → ref.base_pid + 1 < 2 ^ 16
    → Assigned ref p (assign_pid ref p)
unfolding assign_pid
assign_pid-Assigned ref p v h room word =
    let a = pidref_add_lem ref p ref.base_pid h v in
    let e = (a.room room).1 in
    record {
      added = e;
      longer = ap length e ∙ length-append (rewrites ref) ((p, ref.base_pid) ∷ []);
      valid = record { places = a.valid.places; packed = a.valid.packed };
      base = omega (arith, a.base_kept);
      num = a.num_kept;
    }

-- An identifier of the first table is looked up in the second one as in the first.
abbrev pub Keeps : Rewrites → Rewrites → Type 0
Keeps rs rs' =
    (p : ℕ) → has_pid p rs ≡ true → (has_pid p rs' ≡ true) × (lookup_pid p rs' ≡ lookup_pid p rs)

Keeps-snoc : (rs : Rewrites) (o n : ℕ) → Keeps rs (rs ++ (o, n) ∷ [])
Keeps-snoc rs o n p h = ground (arith, has_pid-snoc p o n rs, lookup_pid-snoc p o n rs)

-- The identifiers of the streams, other than the clock's, are not 0, are not in the table yet, and
-- differ from one another.
abbrev pub Fresh : Rewrites → ℕ → List PmtStream → Type 0
Fresh rs org [] = Unit {0}
Fresh rs org (s ∷ ss) =
    (s.pid ≢ 0)
    × (s.pid ≢ org → (has_pid s.pid rs ≡ false) × All (λ t. t.pid ≢ s.pid) ss)
    × Fresh rs org ss

Fresh-snoc :
    (rs : Rewrites) (org o n : ℕ) (ss : List PmtStream)
    → Fresh rs org ss
    → All (λ t. t.pid ≢ o) ss
    → Fresh (rs ++ (o, n) ∷ []) org ss
Fresh-snoc rs org o n [] f d = tt
Fresh-snoc rs org o n (s ∷ ss) f d = (
  f.0,
  λ ne. (ground (arith, has_pid-snoc s.pid o n rs, f.1 ne, d.0), (f.1 ne).1),
  Fresh-snoc rs org o n ss f.2 d.1,
)

Keeps-trans : (rs rs' rs'' : Rewrites) → Keeps rs rs' → Keeps rs' rs'' → Keeps rs rs''
Keeps-trans rs rs' rs'' f g p h = let (h', e) = f p h in let (h'', e') = g p h' in (h'', e' ∙ e)

-- A new entry is found.
pub own_entry :
    (rs rs' : Rewrites) (o n : ℕ)
    → rs' ≡ rs ++ (o, n) ∷ []
    → has_pid o rs ≡ false
    → (has_pid o rs' ≡ true) × (lookup_pid o rs' ≡ n)
own_entry rs rs' o n e h = rw e (ground (arith, has_pid-snoc o o n rs, lookup_pid-snoc o o n rs))

abbrev pub pids : List PmtStream → List ℕ
pids = map (λ s. s.pid)

-- What the loop over the streams ends with, from the table `ref`.
pub record Announced (new_pcr : ℕ) (ref : Pidref) (ss : List PmtStream)
    (res : List PmtStream × Pidref) : Type 0 where
  pub valid : IsValid res.1
  pub kept : Keeps (rewrites ref) (rewrites res.1)
  pub agree : pids res.0 ≡ map (λ s. lookup_pid s.pid (rewrites res.1)) ss
  pub from_base : ref.base_pid ≤ res.1.base_pid
  pub to_base : res.1.base_pid ≤ ref.base_pid + length ss
  pub range :
      All (λ s. (s.pid ≡ new_pcr) ⊎ ((ref.base_pid ≤ s.pid) × (s.pid < res.1.base_pid))) res.0

pub All-map {ℓ} :
    {A : Type ℓ} {P Q : A → Type 0} (f : (a : A) → P a → Q a) (xs : List A) → All P xs → All Q xs
All-map f [] h = tt
All-map f (x ∷ xs) h = (f x h.0, All-map f xs h.1)

module _ (org new_pcr : ℕ) where
  pub rewrite_streams-Announced :
      (ss : List PmtStream) (ref : Pidref)
      → IsValid ref
      → (has_pid org (rewrites ref) ≡ true) × (lookup_pid org (rewrites ref) ≡ new_pcr)
      → Fresh (rewrites ref) org ss
      → length (rewrites ref) + length ss ≤ ref.num
      → ref.base_pid + length ss < 2 ^ 16
      → Announced new_pcr ref ss (rewrite_streams org new_pcr ref ss)
  unfolding rewrite_streams
  rewrite_streams-Announced [] ref v c f room word = record {
    valid = v;
    kept = λ p h. (h, refl);
    agree = refl;
    from_base = omega arith;
    to_base = omega arith;
    range = tt;
  }
  rewrite_streams-Announced (s ∷ ss) ref v c f room word = elim (Bool-cases (s.pid == org)) [
    | inl clock ↦
        let ih = rewrite_streams-Announced ss ref v c f.2 (omega arith) (omega arith) in
        rw clock (record {
          valid = ih.valid;
          kept = ih.kept;
          agree = ap₂ ◌∷◌ (ground (arith, ih.kept org c.0)) ih.agree;
          from_base = ih.from_base;
          to_base = omega (arith, ih.to_base);
          range = (inl refl, ih.range);
        })
    | inr plain ↦
        let ne : s.pid ≢ org = ground arith in
        let (absent, differ) = f.1 ne in
        let a = assign_pid-Assigned ref s.pid v f.0 (omega arith) (omega arith) in
        let more = Keeps-snoc (rewrites ref) s.pid ref.base_pid in
        let ih =
          rewrite_streams-Announced ss (assign_pid ref s.pid) a.valid
            (rw a.added (ground (arith, more org c.0)))
            (rw a.added (Fresh-snoc (rewrites ref) org s.pid ref.base_pid ss f.2 differ))
            (omega (arith, a.longer, a.num)) (omega (arith, a.base)) in
        let own =
          own_entry (rewrites ref) (rewrites (assign_pid ref s.pid)) s.pid ref.base_pid a.added
            absent in
        rw plain (record {
          valid = ih.valid;
          kept = Keeps-trans _ _ _ (rw a.added more) ih.kept;
          agree = ap₂ ◌∷◌ (ground (arith, ih.kept s.pid own.0, own.1)) ih.agree;
          from_base = omega (arith, ih.from_base, a.base);
          to_base = omega (arith, ih.to_base, a.base);
          range = (
            inr (omega arith, omega (arith, ih.from_base, a.base)),
            All-map (λ t h. ground (arith, h, a.base)) _ ih.range,
          );
        })
  ]

-- ===== src/Threads/Spawn.antt =====
-- Which inputs there are when the threads have been started.
use mptsd.Base.{
  ℕ, suc, ◌+◌, ◌≡◌, inl, inr, refl, sym, ◌∙◌, Bool, true, false, List, [], ◌∷◌, ◌++◌, append-nil,
  append_assoc, CString, str_eq, str_eq_refl, str_eq-false_sym, arith, All, if◌then◌else◌,
  Bool-cases, map, get_elem?, some,
}
use mptsd.Libs.{Libs}
use mptsd.Channel.{Channel}
use mptsd.Input.{Input}
use mptsd.Threads.{input_new, is_active, spawn_input_threads}

-- The names are all different.
abbrev pub Distinct : List Input → Type 0
Distinct [] = Unit
Distinct (r ∷ rs) = (is_active r.name rs ≡ false) × Distinct rs

is_active-append :
    (name : CString) (rs ss : List Input)
    → is_active name (rs ++ ss) ≡ (if is_active name rs then true else is_active name ss)
unfolding is_active
is_active-append name [] ss = refl
is_active-append name (r ∷ rs) ss = ground (arith, is_active-append name rs ss)

Distinct-snoc :
    (rs : List Input) (n : Input)
    → Distinct rs
    → is_active n.name rs ≡ false
    → Distinct (rs ++ n ∷ [])
unfolding is_active
Distinct-snoc [] n d new = (refl, tt)
Distinct-snoc (r ∷ rs) n (out, d) new = elim (Bool-cases (str_eq r.name n.name)) [
  | inl same ↦ absurd (ground arith)
  | inr differ ↦
      let back : str_eq n.name r.name ≡ false = str_eq-false_sym r.name n.name differ in
      (ground (arith, is_active-append r.name rs (n ∷ [])), Distinct-snoc rs n d (ground arith))
]

module _ (L : Libs) (write_input_file : Bool) (opened created : CString → Bool) where
  abbrev spawn : List Channel → List Input → List Input × ℕ
  spawn = spawn_input_threads L write_input_file opened created

  abbrev fresh : Channel → Input
  fresh c = input_new L write_input_file (opened c.name) c.name c

  abbrev pub count_created : List Channel → ℕ
  count_created [] = 0
  count_created (c ∷ cs) = if created c.name then count_created cs + 1 else count_created cs

  -- The inputs `rs'` and the number that are there after the start of `cs` for the inputs `rs`.
  pub record Spawned (cs : List Channel) (rs rs' : List Input) (spawned : ℕ) : Type 0 where
    pub added : List Channel
    pub grows : rs' ≡ rs ++ map fresh added
    pub listed : All (λ (c : Channel). (k : ℕ) × (get_elem? cs k ≡ some c)) added
    pub unserved : All (λ (c : Channel). is_active c.name rs ≡ false) added
    pub active : All (λ (c : Channel). is_active c.name rs' ≡ true) cs
    pub distinct : Distinct rs → Distinct rs'
    pub counted : spawned ≡ count_created added

  listed-cons :
      (c : Channel) (cs ds : List Channel)
      → All (λ (d : Channel). (k : ℕ) × (get_elem? cs k ≡ some d)) ds
      → All (λ (d : Channel). (k : ℕ) × (get_elem? (c ∷ cs) k ≡ some d)) ds
  listed-cons c cs [] h = tt
  listed-cons c cs (d ∷ ds) ((k, at), h) = ((suc k, at), listed-cons c cs ds h)

  unserved-append :
      (rs : List Input) (n : Input) (ds : List Channel)
      → All (λ (d : Channel). is_active d.name (rs ++ n ∷ []) ≡ false) ds
      → All (λ (d : Channel). is_active d.name rs ≡ false) ds
  unserved-append rs n [] h = tt
  unserved-append rs n (d ∷ ds) (a, h) =
      (ground (arith, is_active-append d.name rs (n ∷ [])), unserved-append rs n ds h)

  is_active-fresh : (c : Channel) (rs : List Input) → is_active c.name (rs ++ fresh c ∷ []) ≡ true
  unfolding is_active input_new
  is_active-fresh c rs =
      ground (arith, is_active-append c.name rs (fresh c ∷ []), str_eq_refl c.name)

  name-fresh : (c : Channel) → (fresh c).name ≡ c.name
  unfolding input_new
  name-fresh c = refl

  spawn-Spawned :
      (cs : List Channel) (rs : List Input) → Spawned cs rs (spawn cs rs).0 (spawn cs rs).1
  unfolding spawn_input_threads
  spawn-Spawned [] rs = record {
    added = [];
    grows = sym (append-nil rs);
    listed = tt;
    unserved = tt;
    active = tt;
    distinct = λ d. d;
    counted = refl;
  }
  spawn-Spawned (c ∷ cs) rs = elim (Bool-cases (is_active c.name rs)) [
    | inl served ↦
        let s = spawn-Spawned cs rs in
        rw (served, spawn_input_threads)
          (record {
            added = s.added;
            grows = s.grows;
            listed = listed-cons c cs s.added s.listed;
            unserved = s.unserved;
            active = (
              rw (s.grows) (ground (arith, is_active-append c.name rs (map fresh s.added))),
              s.active,
            );
            distinct = s.distinct;
            counted = s.counted;
          })
    | inr missing ↦
        let s = spawn-Spawned cs (rs ++ fresh c ∷ []) in
        rw (missing, spawn_input_threads)
          (record {
            added = c ∷ s.added;
            grows = s.grows ∙ append_assoc rs (fresh c ∷ []) (map fresh s.added);
            listed = ((0, refl), listed-cons c cs s.added s.listed);
            unserved = (missing, unserved-append rs (fresh c) s.added s.unserved);
            active = (
              rw (s.grows) (
                  ground (
                    arith,
                    is_active-append c.name (rs ++ fresh c ∷ []) (map fresh s.added),
                    is_active-fresh c rs,
                  )),
              s.active,
            );
            distinct = λ d. s.distinct (Distinct-snoc rs (fresh c) d (rw (name-fresh c) missing));
            counted = ground (arith, s.counted);
          })
  ]

  spawn-active :
      (cs : List Channel) (rs : List Input)
      → All (λ (c : Channel). is_active c.name rs ≡ true) cs
      → spawn cs rs ≡ (rs, 0)
  unfolding spawn_input_threads
  spawn-active [] rs h = refl
  spawn-active (c ∷ cs) rs (a, h) = rw (a, spawn_input_threads) (spawn-active cs rs h)

  -- Every channel has an input of its name afterwards. The inputs that were there stay as they are and
  -- where they are, those that are added are new ones of listed channels that had none, and no name
  -- comes twice if none did before. The number that is logged counts the threads that could be made,
  -- but the inputs are added without one too; and a second call adds none.
  pub spawn_input_threads_lem :
      (channels : List Channel) (inputs : List Input)
      → Spawned channels inputs (spawn channels inputs).0 (spawn channels inputs).1
        × (spawn channels (spawn channels inputs).0 ≡ ((spawn channels inputs).0, 0))
  spawn_input_threads_lem channels inputs =
      let s = spawn-Spawned channels inputs in
      (s, spawn-active channels (spawn channels inputs).0 s.active)

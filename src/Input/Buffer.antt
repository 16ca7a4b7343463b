-- ===== src/Input/Buffer.antt =====
-- How an input stops feeding its buffer when that is full, and starts again.
use mptsd.Base.{
  ◌+◌, ◌*◌, ◌≤◌, ◌<◌, length, All, ◌≡◌, ◌≢◌, refl, Bool, true, false, not, List, [], ◌∷◌, arith,
  ◌==◌, if◌then◌else◌, Bytes, Bool-cases, inl, inr, ◌∙◌, ap,
}
use mptsd.Libs.{Libs, Cbuf}
use mptsd.Input.{Input, buffered, half_empty, input_buffer_add}

-- Adding several pieces in turn, while nobody reads.
unfoldable pub add_all : Libs → Input → List Bytes → Input
add_all L r [] = r
add_all L r (d ∷ ds) = add_all L (input_buffer_add L r d) ds

-- The specification: the buffer takes pieces up to the first that it refuses, and none after that.
unfoldable pub fill_until : Libs → Cbuf → List Bytes → Cbuf × Bool
fill_until L b [] = (b, false)
fill_until L b (d ∷ ds) =
    let (failed, b') = L.cbuf_fill b d in
    let rest = fill_until L b' ds in if failed == 0 then rest else (b', true)

-- A buffer keeps its size, and refuses a piece only when it has not enough room for it.
pub record CbufLaws (L : Libs) : Type 0 where
  pub size_kept : (b : Cbuf) (d : Bytes) → (L.cbuf_fill b d).1.size ≡ b.size
  pub refused :
      (b : Cbuf) (d : Bytes)
      → (L.cbuf_fill b d).0 ≢ 0
      → (L.cbuf_fill b d).1.size < buffered (L.cbuf_fill b d).1 + length d

module _ (L : Libs) where
  -- One piece, for an input that takes data.
  add_enabled :
      (r : Input) (d : Bytes)
      → r.dienow ≡ false
      → r.disabled ≡ false
      → let (failed, b') = L.cbuf_fill r.buf d in
        let r' = input_buffer_add L r d in
        (r'.buf ≡ b') × (r'.disabled ≡ not (failed == 0)) × (r'.dienow ≡ false)
  unfolding input_buffer_add
  add_enabled r d alive on = ground arith

  add_disabled :
      (r : Input) (d : Bytes)
      → r.dienow ≡ false
      → r.disabled ≡ true
      → half_empty r.buf ≡ false
      → let r' = input_buffer_add L r d in
        (r'.buf ≡ r.buf) × (r'.disabled ≡ true) × (r'.dienow ≡ false)
  unfolding input_buffer_add
  add_disabled r d alive off full = ground arith

  -- A disabled input adds nothing while its buffer is more than half full.
  add_all_disabled :
      (ds : List Bytes) (r : Input)
      → r.dienow ≡ false
      → r.disabled ≡ true
      → half_empty r.buf ≡ false
      → ((add_all L r ds).buf ≡ r.buf) × ((add_all L r ds).disabled ≡ true)
  unfolding add_all
  add_all_disabled [] r alive off full = (refl, off)
  add_all_disabled (d ∷ ds) r alive off full =
      let (b, o, a) = add_disabled r d alive off full in
      let (b', o') = add_all_disabled ds (input_buffer_add L r d) a o (rw b full) in (b' ∙ b, o')

module _ (L : Libs) (laws : CbufLaws L) where
  -- A refused piece of at most half the size leaves the buffer more than half full.
  full_of_refused :
      (b : Cbuf) (d : Bytes)
      → 2 * length d ≤ b.size
      → (L.cbuf_fill b d).0 ≢ 0
      → half_empty (L.cbuf_fill b d).1 ≡ false
  full_of_refused b d short refused = ground (arith, laws.refused b d refused, laws.size_kept b d)

  -- When a buffer refuses pieces only for lack of room and no piece is longer than half of it, an
  -- input that takes data fills its buffer with the pieces up to the first refused one and with no
  -- later piece, and it is disabled exactly when a piece was refused.
  pub add_all-fill_until :
      (ds : List Bytes) (r : Input)
      → All (λ d. 2 * length d ≤ r.buf.size) ds
      → r.dienow ≡ false
      → r.disabled ≡ false
      → ((add_all L r ds).buf ≡ (fill_until L r.buf ds).0)
        × ((add_all L r ds).disabled ≡ (fill_until L r.buf ds).1)
  unfolding add_all fill_until
  add_all-fill_until [] r short alive on = (refl, on)
  add_all-fill_until (d ∷ ds) r short alive on =
      let (b, o, a) = add_enabled L r d alive on in
      elim (Bool-cases ((L.cbuf_fill r.buf d).0 == 0)) [
        | inl took ↦
            let size = ap (λ k. k.size) b ∙ laws.size_kept r.buf d in
            let (b', o') =
              add_all-fill_until ds (input_buffer_add L r d) (rw size short.1) a (rw (o, took)) in
            rw took (b' ∙ ap (λ k. (fill_until L k ds).0) b, o' ∙ ap (λ k. (fill_until L k ds).1) b)
        | inr refused ↦
            let full = full_of_refused r.buf d short.0 (ground arith) in
            let (b', o') =
              add_all_disabled L ds (input_buffer_add L r d) a (rw (o, refused)) (rw b full) in
            rw refused (b' ∙ b, o')
      ]

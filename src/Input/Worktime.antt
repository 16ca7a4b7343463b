-- ===== src/Input/Worktime.antt =====
-- The working hours of a channel.
use mptsd.Base.{
  ℕ, ◌+◌, ◌-◌, ◌%◌, ◌≤◌, ◌<◌, ◌≡◌, ◌≢◌, ◌↔◌, ◌⊎◌, inl, inr, true, arith, Bool-cases, ltb,
  if◌then◌else◌,
}
use mptsd.Input.{in_worktime}

abbrev pub day_seconds : ℕ
day_seconds = 86400

-- How long ago it was `start`, on a clock that goes round.
abbrev pub since : ℕ → ℕ → ℕ
since start now = (now + day_seconds - start) % day_seconds

-- The hours from `start`, included, to `end`, excluded, over midnight if need be.
abbrev pub InHours : ℕ → ℕ → ℕ → Type 0
InHours start end now = since start now < since start end

-- The moment at which the code opens or closes: hours over midnight are a second late.
abbrev pub seen_at : ℕ → ℕ → ℕ → ℕ
seen_at start end now = if ltb end start then (now + 1) % day_seconds else now

module _ (start end now : ℕ) (s : start < day_seconds) (e : end < day_seconds)
    (n : now < day_seconds) where
  day :
      start ≤ end
      → (start ≢ 0) ⊎ (end ≢ 0)
      → (in_worktime start end now ≡ true) ↔ InHours start end now
  unfolding in_worktime
  day h some_hours = (λ o. ground arith, λ o. ground arith)

  night :
      end < start → (in_worktime start end ((now + 1) % day_seconds) ≡ true) ↔ InHours start end now
  unfolding in_worktime
  night h = (λ o. ground arith, λ o. ground arith)

  -- Unless both ends are 0, hours within one day hold exactly from the second of the start, included, to
  -- that of the end, excluded. Hours over midnight are the same on a clock that goes round, but one second
  -- later: they exclude the second of the start and include that of the end.
  pub in_worktime_lem :
      (start ≢ 0) ⊎ (end ≢ 0)
      → (in_worktime start end (seen_at start end now) ≡ true) ↔ InHours start end now
  in_worktime_lem some_hours = elim (Bool-cases (ltb end start)) [
    | inl over ↦ rw over (night (ground arith))
    | inr within ↦ rw within (day (ground arith) some_hours)
  ]

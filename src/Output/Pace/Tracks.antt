-- ===== src/Output/Pace/Tracks.antt =====
-- The frames keep to their times.
use mptsd.Base.{ℕ, suc, ◌+◌, ◌*◌, ◌≤◌, ◌≡◌, List, [], ◌∷◌, arith, length, All, ◌==◌, if◌then◌else◌}
use mptsd.Output.Pace.{Timing, real_time, sleep_interval, Frame, write_time}

-- A frame whose processing takes `w` at most, and whose sleep is as long as asked for, and longer by at
-- most the calibrated overhead and `jitter`.
abbrev pub Steady : Timing → ℕ → ℕ → Frame → Type 0
Steady t w jitter f =
    (f.work ≤ w)
    × ((asked : ℕ)
        → (asked ≤ f.usleep asked) × (f.usleep asked ≤ asked + t.usleep_overhead + jitter))

-- The time after `n` frames is close to their nominal time, `late` behind it at most.
abbrev pub OnTime : Timing → ℕ → ℕ → ℕ → Type 0
OnTime t late n used = (real_time t n ≤ used + 2 * t.output_tmout) × (used ≤ real_time t n + late)

-- The nominal time grows by one interval with each frame.
real_time-suc :
    (t : Timing) (n : ℕ)
    → real_time t (n + 1) ≡ real_time t n + (t.output_tmout + t.usleep_overhead)
real_time-suc t n = grind arith

abbrev after_frame : Timing → ℕ → ℕ → Frame → ℕ
after_frame t n used f =
    let interval = sleep_interval t n used in
    used + f.work + (if interval == 0 then 0 else f.usleep interval)

module _ (t : Timing) (w jitter : ℕ) (small : 2 * t.usleep_overhead ≤ t.output_tmout)
    (some_pause : 1 ≤ t.output_tmout) (fast : w ≤ t.output_tmout + t.usleep_overhead) where
  first_frame : (f : Frame) → Steady t w jitter f → OnTime t (w + jitter) 1 (after_frame t 0 0 f)
  unfolding sleep_interval
  first_frame f (work, sleeps) = ground (arith, real_time-suc t 0, sleeps t.output_tmout)

  next_frame :
      (n used : ℕ) (f : Frame)
      → 1 ≤ n
      → Steady t w jitter f
      → OnTime t (w + jitter) n used
      → OnTime t (w + jitter) (n + 1) (after_frame t n used f)
  unfolding sleep_interval
  next_frame n used f one (work, sleeps) (early, late) =
      ground (arith, real_time-suc t n, sleeps (sleep_interval t n used))

  frames_OnTime :
      (n used : ℕ) (fs : List Frame)
      → 1 ≤ n
      → All (Steady t w jitter) fs
      → OnTime t (w + jitter) n used
      → OnTime t (w + jitter) (n + length fs) (write_time t n used fs)
  unfolding write_time
  frames_OnTime n used [] one h o = let same : n + 0 ≡ n = omega arith in rw same o
  frames_OnTime n used (f ∷ fs) one (steady, h) o =
      let rest =
        frames_OnTime (n + 1) (after_frame t n used f) fs (omega arith) h
          (next_frame n used f one steady o) in
      let count : n + suc (length fs) ≡ n + 1 + length fs = omega arith in rw count rest

  -- When the pause is not 0 and at least twice the calibrated overhead of a sleep, no frame's processing
  -- takes longer than the two together, and every sleep lasts as long as was asked for and longer by at
  -- most that overhead and a jitter, every frame keeps to its time: after any number of frames the time is
  -- at most two pauses ahead of the nominal one, and behind it by at most the processing of one frame and
  -- the jitter of one sleep. So neither delays nor the excess of the sleeps add up over a buffer.
  pub write_time-OnTime :
      (f : Frame) (fs : List Frame)
      → All (Steady t w jitter) (f ∷ fs)
      → OnTime t (w + jitter) (length (f ∷ fs)) (write_time t 0 0 (f ∷ fs))
  unfolding write_time
  write_time-OnTime f fs (steady, h) =
      let rest = frames_OnTime 1 (after_frame t 0 0 f) fs (omega arith) h (first_frame f steady) in
      let count : suc (length fs) ≡ 1 + length fs = omega arith in rw count rest

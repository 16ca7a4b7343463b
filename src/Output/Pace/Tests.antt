-- ===== src/Output/Pace/Tests.antt =====
-- Three frames, the last one slow, whose sleeps take longer than asked for.
use mptsd.Base.{ℕ, ◌+◌, ◌≡◌, refl, List, [], ◌∷◌, length, arith}
use mptsd.Output.Pace.{Timing, Frame, write_time}
use mptsd.Output.Pace.Tracks.{OnTime, write_time-OnTime}

abbrev timing : Timing
timing = record { output_tmout = 227; usleep_overhead = 50 }

abbrev frame : ℕ → ℕ → Frame
frame work excess = record { work = work; usleep = λ asked. asked + excess }

abbrev frames : List Frame
frames = frame 10 50 ∷ frame 20 63 ∷ frame 270 0 ∷ []

write_time_example : OnTime timing 290 (length frames) (write_time timing 0 0 frames)
write_time_example =
    write_time-OnTime timing 277 13 (omega arith) (omega arith) (omega arith) (frame 10 50)
      (frame 20 63 ∷ frame 270 0 ∷ [])
      (
        (omega arith, λ asked. (omega arith, omega arith)),
        (
          (omega arith, λ asked. (omega arith, omega arith)),
          ((omega arith, λ asked. (omega arith, omega arith)), tt),
        ),
      )

-- 287 after the first frame, which slept for 227 and 50; 307 after the second one, which does not sleep
-- as it is late.
write_times : write_time timing 0 0 (frame 10 50 ∷ frame 20 63 ∷ []) ≡ 307
unfolding write_time
write_times = refl

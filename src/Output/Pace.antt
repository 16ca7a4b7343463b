-- ===== src/Output/Pace.antt =====
-- output_write.c: how `output_handle_write` spreads the frames of a buffer over time. Times are
-- microseconds. The differences, which may be negative in C, are compared with their terms on the other
-- side.
pub mod Tracks
mod Tests
use mptsd.Base.{ℕ, ◌+◌, ◌-◌, ◌*◌, Bool, List, [], ◌∷◌, ltb, ◌==◌, if◌then◌else◌}

-- What the calibration leaves in the configuration.
pub record Timing : Type 0 where
  pub output_tmout : ℕ
  pub usleep_overhead : ℕ

abbrev pub real_time : Timing → ℕ → ℕ
real_time t packets_written = packets_written * (t.output_tmout + t.usleep_overhead)

-- sleep_interval, after a number of packets and the time that they took. With
-- time_diff = real_time - time_taken, the first test is time_diff > output_tmout - usleep_overhead, the
-- second one time_diff - usleep_overhead < 0.
unfoldable pub sleep_interval : Timing → ℕ → ℕ → ℕ
sleep_interval t packets_written time_taken =
    if packets_written == 0
    then t.output_tmout
    else let real = real_time t packets_written in
      if ltb (t.output_tmout + time_taken) (real + t.usleep_overhead)
      then (if ltb real (time_taken + t.usleep_overhead)
          then 1
          else real - time_taken - t.usleep_overhead)
      else 0

-- A frame: the time that its processing takes, and how long `usleep` takes when it is asked to sleep.
pub record Frame : Type 0 where
  pub work : ℕ
  pub usleep : ℕ → ℕ

-- The time since the start of the buffer after some frames; `used` is the time after the frames so far.
unfoldable pub write_time : Timing → ℕ → ℕ → List Frame → ℕ
unfolding sleep_interval
write_time t packets_written used [] = used
write_time t packets_written used (f ∷ fs) =
    let interval = sleep_interval t packets_written used in
    let slept = if interval == 0 then 0 else f.usleep interval in
    write_time t (packets_written + 1) (used + f.work + slept) fs

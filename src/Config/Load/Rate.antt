-- ===== src/Config/Load/Rate.antt =====
-- The numbers that the bit rate makes, and the calibration.
use mptsd.Base.{
  ℕ, suc, ◌+◌, ◌-◌, ◌*◌, ◌/◌, ◌^◌, ◌≤◌, ◌<◌, ◌≡◌, ap, ◌∙◌, false, List, [], ◌∷◌, arith, length,
  length-replicate, length-map, All, ◌==◌, u64, ◌++◌, replicate,
}
use native.Mathlib.Nat.{div-mul-le_self, le-div_iff_mul-le}
use mptsd.Output.{obuf_alloc, packets_per_second, frames_per_buffer, padding_packet}
use mptsd.Config.Load.{align_bitrate, calibrate_loop, calibrate_sleep}

abbrev pub sum : List ℕ → ℕ
sum [] = 0
sum (x ∷ xs) = x + sum xs

-- The rounds take the measurements up to the 3001st, each of a microsecond at least.
calibrate_loop_lem :
    (used more : List ℕ) (loops diff : ℕ)
    → loops + length used ≡ 3001
    → 1 ≤ length used
    → All (λ usec. 1 ≤ usec) used
    → diff + sum used < 2 ^ 64
    → calibrate_loop diff loops (used ++ more) ≡ (diff + sum used - length used, 3001)
unfolding calibrate_loop
calibrate_loop_lem [] more loops diff e one h small = absurd (omega arith)
calibrate_loop_lem (usec ∷ []) more loops diff e one (h, hs) small =
    let d : u64 (diff + usec + 2 ^ 64 - 1) ≡ diff + usec - 1 = omega arith in ground arith
calibrate_loop_lem (usec ∷ next ∷ used) more loops diff e one (h, hs) small =
    let d : u64 (diff + usec + 2 ^ 64 - 1) ≡ diff + usec - 1 = omega arith in
    let ih =
      calibrate_loop_lem (next ∷ used) more (loops + 1) (diff + usec - 1) (omega arith)
        (omega arith) hs (omega arith) in
    let other : (loops == 3000) ≡ false = ground arith in
    let same : diff + usec - 1 + (next + sum used) - suc (length used)
        ≡ diff + (usec + (next + sum used)) - suc (suc (length used)) =
      omega arith in
    rw other (
      ap (λ t. calibrate_loop t (loops + 1) (next ∷ used ++ more)) d
      ∙ ih
      ∙ ap (λ t. (t, 3001)) same)

-- The calibration takes 3001 measurements and shortens the pause by the mean of what they take beyond the
-- microsecond that is asked for, to 0 at the least. Each measurement is of a microsecond at least, and
-- their sum fits 64 bits.
pub calibrate_sleep_lem :
    (output_tmout : ℕ) (used more : List ℕ)
    → length used ≡ 3001
    → All (λ usec. 1 ≤ usec) used
    → sum used < 2 ^ 64
    → calibrate_sleep output_tmout (used ++ more) ≡ output_tmout - (sum used - 3001) / 3001
unfolding calibrate_sleep
calibrate_sleep_lem output_tmout used more long h small =
    let result = calibrate_loop_lem used more 0 0 (omega arith) (omega arith) h (omega arith) in
    let total : 0 + sum used - length used ≡ sum used - 3001 = omega arith in
    ap (λ (t : ℕ × ℕ). output_tmout - t.0 / t.1) (result ∙ ap (λ t. (t, 3001)) total)

-- `pps` frames in a second: the aligned rate is the smallest one of whole frames that carries the rate.
pub align_bitrate_lem :
    (rate : ℕ)
    → 2000000 ≤ rate
    → rate ≤ 75000000
    → ((align_bitrate rate).output_bitrate ≡ (align_bitrate rate).output_packets_per_sec * 10528)
      × (rate ≤ (align_bitrate rate).output_bitrate)
      × ((align_bitrate rate).output_bitrate < rate + 10528)
      × (190 ≤ (align_bitrate rate).output_packets_per_sec)
      × ((align_bitrate rate).output_packets_per_sec ≤ 7124)
      × ((align_bitrate rate).output_tmout * (align_bitrate rate).output_packets_per_sec ≤ 1000000)
      × (140 ≤ (align_bitrate rate).output_tmout)
      × (packets_per_second (align_bitrate rate).output_bitrate
          ≡ (align_bitrate rate).output_packets_per_sec)
unfolding align_bitrate
align_bitrate_lem rate low high = (
  omega arith,
  omega arith,
  omega arith,
  omega arith,
  omega arith,
  div-mul-le_self 1000000 (packets_per_second rate),
  (le-div_iff_mul-le {k = packets_per_second rate} (omega arith)).1 (omega arith),
  omega arith,
)

-- A buffer for the rate is made of whole frames: the fewest that last a tenth of a second.
pub obuf_frames :
    (rate : ℕ)
    → (frames : ℕ) × (length (obuf_alloc (align_bitrate rate).output_bitrate 100).buf ≡ frames * 7)
      × ((align_bitrate rate).output_packets_per_sec ≤ 10 * frames)
      × (10 * frames < (align_bitrate rate).output_packets_per_sec + 10)
unfolding align_bitrate obuf_alloc
obuf_frames rate =
    let pps = packets_per_second rate in
    (
      (packets_per_second (pps * 10528) * 100 + 999) / 1000,
      length-map (λ p. padding_packet) (replicate (frames_per_buffer (pps * 10528) 100 * 7) [])
          ∙ length-replicate (frames_per_buffer (pps * 10528) 100 * 7) [],
      omega arith,
      omega arith,
    )

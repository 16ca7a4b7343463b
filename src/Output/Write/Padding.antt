-- ===== src/Output/Write/Padding.antt =====
-- What `ts_frame_process` does to the packets and to the counters.
use mptsd.Base.{
  ℕ, ◌+◌, ◌*◌, ◌^◌, ◌<◌, ◌≡◌, ◌≢◌, refl, ap₂, false, List, [], ◌∷◌, none, some, Bytes, map, arith,
  ◌==◌, u64, if◌then◌else◌,
}
use mptsd.Libs.{Libs}
use mptsd.Output.{Output}
use mptsd.Output.Write.{
  PcrAfter, set_payload_only, count_padding, process_pcr, process_packet, process_packets,
  ts_frame_process, Written, frame_written, ts_frame_write,
}

-- A packet as it goes out when clocks are left alone.
abbrev pub marked : Libs → Bytes → Bytes
marked L p = if L.ts_packet_get_pid p == 0x1fff then set_payload_only p else p

unfoldable pub null_packets : Libs → List Bytes → ℕ
null_packets L [] = 0
null_packets L (p ∷ ps) = (if L.ts_packet_get_pid p == 0x1fff then 1 else 0) + null_packets L ps

module _ (L : Libs) (pcr_after : PcrAfter) (pcr_mode : ℕ) where
  packet_kept :
      (o : Output) (p : Bytes) (i : ℕ)
      → pcr_mode ≢ 2
      → pcr_mode ≢ 3
      → (process_packet L pcr_after pcr_mode o p i).1 ≡ marked L p
  unfolding process_packet count_padding process_pcr
  packet_kept o p i h2 h3 = ground arith

  packets_kept :
      (ps : List Bytes) (o : Output) (i : ℕ)
      → pcr_mode ≢ 2
      → pcr_mode ≢ 3
      → (process_packets L pcr_after pcr_mode o ps i).1 ≡ map (marked L) ps
  unfolding process_packets
  packets_kept [] o i h2 h3 = refl
  packets_kept (p ∷ ps) o i h2 h3 =
      ap₂ ◌∷◌ (packet_kept o p i h2 h3) (packets_kept ps _ (i + 188) h2 h3)

  -- In the modes that do not rewrite clocks every packet of a frame goes out as it came, but for the
  -- mark in NULL packets.
  pub ts_frame_process-kept :
      (o : Output) (frame : List Bytes)
      → pcr_mode ≢ 2
      → pcr_mode ≢ 3
      → (ts_frame_process L pcr_after pcr_mode o frame).1 ≡ map (marked L) frame
  unfolding ts_frame_process
  ts_frame_process-kept o frame h2 h3 = packets_kept frame o 0 h2 h3

  packet_counts :
      (o : Output) (p : Bytes) (i : ℕ)
      → let o' = (process_packet L pcr_after pcr_mode o p i).0 in
        (o'.padding_period ≡ (
          if L.ts_packet_get_pid p == 0x1fff
          then u64 (o.padding_period + 188)
          else o.padding_period))
        × (o'.traffic ≡ o.traffic)
  unfolding process_packet count_padding process_pcr
  packet_counts o p i = ground arith

  packets_counts :
      (ps : List Bytes) (o : Output) (i : ℕ)
      → o.padding_period < 2 ^ 64
      → (process_packets L pcr_after pcr_mode o ps i).0.padding_period
        ≡ u64 (o.padding_period + 188 * null_packets L ps)
  unfolding process_packets null_packets
  packets_counts [] o i h = omega arith
  packets_counts (p ∷ ps) o i h =
      let o' = (process_packet L pcr_after pcr_mode o p i).0 in
      ground (arith, packet_counts o p i, packets_counts ps o' (i + 188))

  -- The padding counter grows by 188 for every NULL packet of the frame, in 64 bits.
  pub padding-ts_frame_process :
      (o : Output) (frame : List Bytes)
      → o.padding_period < 2 ^ 64
      → (ts_frame_process L pcr_after pcr_mode o frame).0.padding_period
        ≡ u64 (o.padding_period + 188 * null_packets L frame)
  unfolding ts_frame_process
  padding-ts_frame_process o frame h = packets_counts frame o 0 h

-- Without an output file a failed network write is reported as a success of 0 bytes, and a
-- successful one as it was.
pub frame_written_no_file :
    (o : Output) (network file : Written)
    → o.ofd ≡ false
    → (ts_frame_write o network file).0 ≡ some (elim network [ none ↦ 0 | some n ↦ n ])
unfolding ts_frame_write frame_written
frame_written_no_file o network file h = ground arith

-- ===== src/Output/Drain/Complete.antt =====
-- A buffer is written completely, frame by frame.
use mptsd.Base.{
  ℕ, zero, suc, ◌+◌, ◌*◌, ◌≤◌, ◌≡◌, ◌≢◌, refl, sym, ◌∙◌, ap, Bool, true, List, [], ◌∷◌, ◌++◌,
  append_assoc, append-nil, none, some, Bytes, map, length, All, arith, if◌then◌else◌,
}
use mathlib.Core.List.{flatten}
use mptsd.Libs.{Libs}
use mptsd.Output.{Output, Obuf, obuf_reset, size}
use mptsd.Output.Write.{
  PcrAfter, ts_frame_process, process_packets, process_packet, count_padding, process_pcr,
  ts_frame_write, frame_written,
}
use mptsd.Output.Write.Padding.{marked, ts_frame_process-kept}
use mptsd.Output.Drain.{
  frames_of, FrameIo, is_negative, Draining, drain_frame, drain_frames, Drained, show_stats,
  drain_buffer,
}

-- Seven packets for each of `n` frames.
length-frames_of : (n : ℕ) (ps : List Bytes) → length ps ≡ n * 7 → length (frames_of ps) ≡ n
unfolding frames_of
length-frames_of zero [] h = refl
length-frames_of zero (a ∷ ps) h = absurd (omega arith)
length-frames_of (suc n) (a ∷ b ∷ c ∷ d ∷ e ∷ f ∷ g ∷ ps) h =
    ap suc (length-frames_of n ps (omega arith))
length-frames_of (suc n) _ h = absurd (omega arith)

module _ (L : Libs) (pcr_after : PcrAfter) (pcr_mode : ℕ) where
  -- The identifiers of the RTP stream do not change while frames are written.
  ssrc-packets :
      (ps : List Bytes) (o : Output) (i : ℕ)
      → ((process_packets L pcr_after pcr_mode o ps i).0.rtp_ssrc ≡ o.rtp_ssrc)
        × ((process_packets L pcr_after pcr_mode o ps i).0.ofd ≡ o.ofd)
  unfolding process_packets process_packet count_padding process_pcr
  ssrc-packets [] o i = (refl, refl)
  ssrc-packets (p ∷ ps) o i =
      let (s, f) = ssrc-packets ps (process_packet L pcr_after pcr_mode o p i).0 (i + 188) in
      (s ∙ ground arith, f ∙ ground arith)

  ssrc-frame :
      (o : Output) (f : List Bytes)
      → (ts_frame_process L pcr_after pcr_mode o f).0.rtp_ssrc ≡ o.rtp_ssrc
  unfolding ts_frame_process
  ssrc-frame o f = (ssrc-packets f o 0).0

  drain_frame-plain :
      (d : Draining) (f : List Bytes) (io : FrameIo)
      → d.output.rtp_ssrc ≡ 0
      → pcr_mode ≢ 2
      → pcr_mode ≢ 3
      → let d' = drain_frame L pcr_after pcr_mode d f io in
        (d'.sent ≡ d.sent ++ flatten (map (marked L) f) ∷ [])
        × (d'.output.rtp_ssrc ≡ 0)
        × (d'.written ≡ d.written + 1316)
  unfolding drain_frame ts_frame_write frame_written
  drain_frame-plain d f io h h2 h3 =
      let s = ssrc-frame d.output f in
      let k = ts_frame_process-kept L pcr_after pcr_mode d.output f h2 h3 in
      (ground (arith, s, k), ground (arith, s), refl)

  frame_bytes : List Bytes → Bytes
  frame_bytes f = flatten (map (marked L) f)

  drain_frames-plain :
      (fs : List (List Bytes)) (ios : List FrameIo) (d : Draining)
      → d.output.rtp_ssrc ≡ 0
      → pcr_mode ≢ 2
      → pcr_mode ≢ 3
      → length fs ≤ length ios
      → let (finished, d') = drain_frames L pcr_after pcr_mode d fs ios in
        (finished ≡ true)
        × (d'.sent ≡ d.sent ++ map frame_bytes fs)
        × (d'.written ≡ d.written + 1316 * length fs)
  unfolding drain_frames frame_bytes
  drain_frames-plain [] ios d h h2 h3 le = (refl, sym (append-nil d.sent), omega arith)
  drain_frames-plain (f ∷ fs) [] d h h2 h3 le = absurd (omega arith)
  drain_frames-plain (f ∷ fs) (io ∷ ios) d h h2 h3 le =
      let (s, r, w) = drain_frame-plain d f io h h2 h3 in
      let (done, sent, written) =
        drain_frames-plain fs ios (drain_frame L pcr_after pcr_mode d f io) r h2 h3 (omega arith) in
      (
        done,
        sent
            ∙ ap (λ l. l ++ map frame_bytes fs) s
            ∙ append_assoc d.sent (frame_bytes f ∷ []) (map frame_bytes fs),
        omega (arith, written, w),
      )

-- The frames of a buffer, one after the other, are the buffer.
flatten-frames_of : (n : ℕ) (ps : List Bytes) → length ps ≡ n * 7 → flatten (frames_of ps) ≡ ps
unfolding frames_of flatten
flatten-frames_of zero [] h = refl
flatten-frames_of zero (a ∷ ps) h = absurd (omega arith)
flatten-frames_of (suc n) (a ∷ b ∷ c ∷ d ∷ e ∷ f ∷ g ∷ ps) h =
    ap (λ l. a ∷ b ∷ c ∷ d ∷ e ∷ f ∷ g ∷ l) (flatten-frames_of n ps (omega arith))
flatten-frames_of (suc n) _ h = absurd (omega arith)

sevens : (n : ℕ) (ps : List Bytes) → length ps ≡ n * 7 → All (λ f. length f ≡ 7) (frames_of ps)
unfolding frames_of
sevens zero [] h = tt
sevens zero (a ∷ ps) h = absurd (omega arith)
sevens (suc n) (a ∷ b ∷ c ∷ d ∷ e ∷ f ∷ g ∷ ps) h = (refl, sevens n ps (omega arith))
sevens (suc n) _ h = absurd (omega arith)

-- What is known of a buffer that was written.
pub record Complete (L : Libs) (ob : Obuf) (x : Drained) : Type 0 where
  pub frames : List (List Bytes)
  pub sevens : All (λ f. length f ≡ 7) frames
  pub whole : flatten frames ≡ ob.buf
  pub sent : x.sent ≡ map (λ f. flatten (map (marked L) f)) frames
  pub written : x.written ≡ size ob
  pub reset : x.obuf ≡ obuf_reset ob

-- A buffer of `n` frames of which nothing has been written, and whose writing is not interrupted, is
-- written completely when clocks are not rewritten and no RTP is used: its packets go out in their order,
-- in pieces of seven packets, only NULL packets are marked, `written` ends at the size of the buffer, and
-- the buffer is reset.
pub drain_buffer-Complete :
    (L : Libs) (pcr_after : PcrAfter) (pcr_mode n : ℕ) (due : Bool) (o : Output) (ob : Obuf)
    (ios : List FrameIo)
    → pcr_mode ≢ 2
    → pcr_mode ≢ 3
    → o.rtp_ssrc ≡ 0
    → ob.written ≡ 0
    → length ob.buf ≡ n * 7
    → n ≤ length ios
    → (x : Drained) × (drain_buffer L pcr_after pcr_mode due o ob ios ≡ some x) × Complete L ob x
unfolding drain_buffer frame_bytes
drain_buffer-Complete L pcr_after pcr_mode n due o ob ios h2 h3 plain fresh whole enough =
    let fs = frames_of ob.buf in
    let len = length-frames_of n ob.buf whole in
    let start : Draining = record {
      output = show_stats due o;
      written = ob.written;
      sum = record { gained = 0; lost = 0 };
      sent = [];
    } in
    let (done, sent, written) =
      drain_frames-plain L pcr_after pcr_mode fs ios start (ground arith) h2 h3
        (omega (arith, len)) in
    let d = (drain_frames L pcr_after pcr_mode start fs ios).1 in
    (
      record {
        output = if is_negative d.sum then record (d.output) { out_sock = none } else d.output;
        obuf = obuf_reset ob;
        written = d.written;
        sent = d.sent;
        failed = is_negative d.sum;
      },
      rw (done, drain_buffer),
      record {
        frames = fs;
        sevens = sevens n ob.buf whole;
        whole = flatten-frames_of n ob.buf whole;
        sent = sent;
        written = omega (arith, written, len);
        reset = refl;
      },
    )

-- ===== src/Input/Stable.antt =====
-- Once both tables are rewritten, the identifiers of a connection do not change any more.
use mptsd.Base.{ℕ, ◌≡◌, refl, true, List, [], ◌∷◌, arith, Bytes, Bool-cases, inl, inr, Option-cases}
use mptsd.Libs.{Libs, Pat, Pmt}
use mptsd.Pidref.{Pidref, pidref_change_packet_pid}
use mptsd.Input.{Input, input_buffer_add}
use mptsd.Input.Tables.{input_rewrite_eit, input_process_pat}
use mptsd.Input.Handlers.{
  process_pat, process_pmt, process_eit, accept_pat, remember_pat, log_pat, send_pmt, remember_pmt,
  send_eit, pat_ready, pmt_ready,
}
use mptsd.Input.Programs.{input_process_pat_lem}
use mptsd.Input.Packets.{note_pcr, forward, pass_packet, pass_pmt, handle_packet, handle_packets}

-- The rewritten tables are ready, and the table of identifiers is `ref`.
pub record Settled (ref : Pidref) (r : Input) : Type 0 where
  pub pat : pat_ready r.stream.pat_rewritten ≡ true
  pub pmt : pmt_ready r.stream.pmt_rewritten ≡ true
  pub table : r.stream.pidref ≡ ref

-- The buffer operation touches no part of the stream state.
stream-input_buffer_add :
    (L : Libs) (r : Input) (d : Bytes) → (input_buffer_add L r d).stream ≡ r.stream
unfolding input_buffer_add
stream-input_buffer_add L r d = ground arith

module _ (L : Libs) (ref : Pidref) where
  log_pat-Settled : (r : Input) → Settled ref r → Settled ref (log_pat L r)
  unfolding log_pat
  log_pat-Settled r s = ground arith

  accept_pat-Settled : (r : Input) (p : Bytes) → Settled ref r → Settled ref (accept_pat L r p).1
  unfolding accept_pat
  accept_pat-Settled r p s = ground (
    arith,
    input_process_pat_lem r.stream,
    log_pat-Settled r s,
    log_pat-Settled (record r { stream = (input_process_pat r.stream).1 }),
  )

  remember_pat-Settled :
      (r : Input) (p : Bytes) (last : Pat) → Settled ref r → Settled ref (remember_pat L r p last).1
  unfolding remember_pat
  remember_pat-Settled r p last s = ground (
    arith,
    accept_pat-Settled
        (record r { stream = record (r.stream) { last_pat = L.ts_pat_push_packet last p } }) p,
  )

  process_pat-Settled :
      (r : Input) (pid : ℕ) (p : Bytes) → Settled ref r → Settled ref (process_pat L r pid p).1
  unfolding process_pat
  process_pat-Settled r pid p s =
      let r' = record r {
        stream = record (r.stream) { pat = L.ts_pat_push_packet r.stream.pat p };
      } in
      ground (
        arith,
        remember_pat-Settled r' p L.ts_pat_alloc,
        remember_pat-Settled r' p r.stream.last_pat,
      )

  add_Settled : (r : Input) (d : Bytes) → Settled ref r → Settled ref (input_buffer_add L r d)
  add_Settled r d s = ground (arith, stream-input_buffer_add L r d)

  send_pmt-Settled : (r : Input) → Settled ref r → Settled ref (send_pmt L r)
  unfolding send_pmt
  send_pmt-Settled r s = elim (Option-cases r.stream.pmt_rewritten) [
    | inl e ↦ rw (e, send_pmt) s
    | inr (p, e) ↦
        rw (e, send_pmt)
          (elim (Bool-cases p.initialized) [
            | inl ready ↦
                rw ready (add_Settled _ _ (record { pat = s.pat; pmt = refl; table = s.table }))
            | inr unready ↦ rw unready s
          ])
  ]

  remember_pmt-Settled :
      (r : Input) (p : Bytes) (last : Pmt) → Settled ref r → Settled ref (remember_pmt L r p last).1
  unfolding remember_pmt
  remember_pmt-Settled r p last s = ground (
    arith,
    send_pmt-Settled
        (record r { stream = record (r.stream) { last_pmt = L.ts_pmt_push_packet last p } }),
  )

  process_pmt-Settled :
      (r : Input) (pid : ℕ) (p : Bytes) → Settled ref r → Settled ref (process_pmt L r pid p).1
  unfolding process_pmt
  process_pmt-Settled r pid p s =
      let r' = record r {
        stream = record (r.stream) { pmt = L.ts_pmt_push_packet r.stream.pmt p };
      } in
      ground (
        arith,
        remember_pmt-Settled r' p L.ts_pmt_alloc,
        remember_pmt-Settled r' p r.stream.last_pmt,
      )

  send_eit-Settled : (r : Input) → Settled ref r → Settled ref (send_eit L r).1
  unfolding send_eit
  send_eit-Settled r s = elim (Option-cases r.stream.eit_rewritten) [
    | inl e ↦ rw (e, send_eit) s
    | inr (p, e) ↦
        rw (e, send_eit)
          (elim (Bool-cases p.initialized) [
            | inl ready ↦ rw ready (
                let a = add_Settled _ _ (record { pat = s.pat; pmt = s.pmt; table = s.table }) in
                record { pat = a.pat; pmt = a.pmt; table = a.table })
            | inr unready ↦ rw unready s
          ])
  ]

  rewrite_eit-Settled : (t : ℕ) (r : Input) → Settled ref r → Settled ref (input_rewrite_eit L t r)
  unfolding input_rewrite_eit
  rewrite_eit-Settled t r s = ground arith

  process_eit-Settled :
      (t : ℕ) (r : Input) (p : Bytes) → Settled ref r → Settled ref (process_eit L t r p).1
  unfolding process_eit
  process_eit-Settled t r p s =
      let r' = record r {
        stream = record (r.stream) { eit = L.ts_eit_push_packet r.stream.eit p };
      } in
      ground (
        arith,
        send_eit-Settled r',
        rewrite_eit-Settled t r',
        send_eit-Settled (input_rewrite_eit L t r'),
      )

  note_pcr-Settled :
      (r : Input) (pid : ℕ) (p : Bytes) → Settled ref r → Settled ref (note_pcr L r pid p)
  unfolding note_pcr
  note_pcr-Settled r pid p s = ground arith

  forward-Settled :
      (r : Input) (pid : ℕ) (p : Bytes) → Settled ref r → Settled ref (forward L r pid p)
  unfolding forward
  forward-Settled r pid p s = ground (
    arith,
    add_Settled r (pidref_change_packet_pid L.ts_packet_set_pid p pid r.stream.pidref).1 s,
  )

  pass_packet-Settled :
      (t : ℕ) (r : Input) (p : Bytes) → Settled ref r → Settled ref (pass_packet L t r p).1
  unfolding pass_packet
  pass_packet-Settled t r p s =
      let pid = L.ts_packet_get_pid p in
      let noted = note_pcr-Settled r pid p s in
      ground (arith, process_eit-Settled t r p s, forward-Settled (note_pcr L r pid p) pid p noted)

  pass_pmt-Settled :
      (t : ℕ) (r : Input) (pid : ℕ) (p : Bytes)
      → Settled ref r
      → Settled ref (pass_pmt L t r pid p).1
  unfolding pass_pmt
  pass_pmt-Settled t r pid p s =
      ground
        (arith, process_pmt-Settled r pid p s, pass_packet-Settled t (process_pmt L r pid p).1 p)

  handle_packet-Settled :
      (t : ℕ) (r : Input) (p : Bytes) → Settled ref r → Settled ref (handle_packet L t r p).1
  unfolding handle_packet
  handle_packet-Settled t r p s =
      let pid = L.ts_packet_get_pid p in
      let (_, r', p') = process_pat L r pid p in
      ground (arith, process_pat-Settled r pid p s, pass_pmt-Settled t r' pid p')

  -- When both tables are rewritten, no packets of the input, whatever they hold, change the table of
  -- identifiers or take a rewritten table away.
  pub handle_packets-Settled :
      (t : ℕ) (ps : List Bytes) (r : Input)
      → Settled ref r
      → Settled ref (handle_packets L t r ps).1
  unfolding handle_packets
  handle_packets-Settled t [] r s = s
  handle_packets-Settled t (p ∷ ps) r s =
      ground (
        arith,
        handle_packet-Settled t r p s,
        handle_packets-Settled t ps (handle_packet L t r p).1,
      )

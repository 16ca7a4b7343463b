-- ===== src/Network/Limit.antt =====
-- `mpeg_sync` gives up, or is done, after a bounded number of bytes.
use mptsd.Base.{
  ℕ, zero, suc, ◌+◌, ◌*◌, ◌≤◌, ◌≡◌, refl, ◌≢◌, Bool-cases, [], ◌∷◌, ◌++◌, Option, none, some, Bytes,
  length, drop, take, take-append-drop, length-take, length-drop, drop-append, length-append,
  take_all, append-nil, ap, sym, ◌∙◌, arith, leb, inl, inr,
}
use mptsd.Network.{
  SyncEnv, SyncResult, synced, unsynced, after_packet, resync, max_rounds, mpeg_sync,
}

-- Where a round begins: after 1316 bytes at most, and the packets that have been found since.
abbrev Round : ℕ → ℕ → Type 0
Round k n = (k ≤ 6) × (n ≤ 1316 + 188 * k)

resync_total :
    (fuel : ℕ) (env : SyncEnv) (bytes : Bytes) (k n : ℕ)
    → Round k n
    → max_rounds ≤ n + fuel
    → resync fuel env bytes k n ≢ none
unfolding resync
resync_total zero env bytes k n r h = absurd (omega arith)
resync_total (suc fuel) env [] k n r h = λ e. cc
resync_total (suc fuel) env (b ∷ rest) k n r h = ground (
  arith,
  resync_total fuel env (after_packet rest) (k + 1) (n + 188),
  resync_total fuel env rest 0 (n + 1),
)

-- The same outcome, with more bytes behind.
abbrev pub and_more : Bytes → Option SyncResult → Option SyncResult
and_more more none = none
and_more more (some unsynced) = some unsynced
and_more more (some (synced rest m)) = some (synced (rest ++ more) m)

after_packet-append :
    (xs ys : Bytes)
    → 187 ≤ length xs
    → (after_packet (xs ++ ys) ≡ after_packet xs ++ ys)
      × (length xs ≡ 187 + length (after_packet xs))
unfolding after_packet
after_packet-append xs ys h = (drop-append 187 xs ys h, length-drop 187 xs h)

resync-append :
    (fuel : ℕ) (env : SyncEnv) (bytes more : Bytes) (k n : ℕ)
    → Round k n
    → 2632 ≤ n + length bytes
    → resync fuel env (bytes ++ more) k n ≡ and_more more (resync fuel env bytes k n)
unfolding resync
resync-append zero env bytes more k n r h = refl
resync-append (suc fuel) env [] more k n r h = absurd (omega arith)
resync-append (suc fuel) env (b ∷ rest) more k n r h =
    let enough : 187 ≤ length rest = omega arith in
    let (dropped, counted) = after_packet-append rest more enough in
    let longer = length-append rest more in
    ground (
      arith,
      resync-append fuel env (after_packet rest) more (k + 1) (n + 188),
      resync-append fuel env rest more 0 (n + 1),
    )

and_more-nil : (found : Option SyncResult) → and_more [] found ≡ found
and_more-nil none = refl
and_more-nil (some unsynced) = refl
and_more-nil (some (synced rest m)) = ap (λ r. some (synced r m)) (append-nil rest)

mpeg_sync-append :
    (env : SyncEnv) (bytes more : Bytes)
    → 2632 ≤ length bytes
    → mpeg_sync env (bytes ++ more) ≡ and_more more (mpeg_sync env bytes)
unfolding mpeg_sync
mpeg_sync-append env bytes more h =
    ground
      (arith, resync-append max_rounds env bytes more 0 0 (omega arith, omega arith) (omega arith))

-- The first `n` bytes decide when they are 2632, or all.
mpeg_sync-take :
    (env : SyncEnv) (bytes : Bytes) (n : ℕ)
    → 2632 ≤ n
    → mpeg_sync env bytes ≡ and_more (drop n bytes) (mpeg_sync env (take n bytes))
mpeg_sync-take env bytes n h = elim (Bool-cases (leb n (length bytes))) [
  | inl long ↦
      let enough : n ≤ length bytes = ground arith in
      ap (mpeg_sync env) (take-append-drop n bytes)
      ∙ mpeg_sync-append env (take n bytes) (drop n bytes)
          (omega (arith, length-take n bytes enough))
  | inr short ↦
      let few : length bytes ≤ n = ground arith in
      let (whole, none_left) = take_all n bytes few in
      rw (whole, none_left) (sym (and_more-nil (mpeg_sync env bytes)))
]

-- The search ends after 2445 rounds at most, however much the socket delivers: it is never left
-- without an answer. And what is delivered after the first 2632 bytes has no influence on the answer,
-- it is only what is read next.
pub mpeg_sync_total :
    (env : SyncEnv) (bytes : Bytes)
    → (mpeg_sync env bytes ≢ none)
      × (mpeg_sync env bytes ≡ and_more (drop 2632 bytes) (mpeg_sync env (take 2632 bytes)))
unfolding mpeg_sync
mpeg_sync_total env bytes = (
  ground (arith, resync_total max_rounds env bytes 0 0 (omega arith, omega arith) (omega arith)),
  mpeg_sync-take env bytes 2632 (omega arith),
)

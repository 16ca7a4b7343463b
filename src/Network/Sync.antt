-- ===== src/Network/Sync.antt =====
-- What `mpeg_sync` has found when it returns 0.
use mptsd.Base.{
  ℕ, zero, suc, ◌+◌, ◌*◌, ◌≤◌, ◌≡◌, refl, sym, ap, ◌∙◌, ◌≢◌, ◌⊎◌, inl, inr, [], ◌∷◌, ◌++◌,
  append_assoc, some, Bytes, length, drop, take, arith, take-append-drop, length-take, length-drop,
}
use mptsd.Network.{SyncEnv, synced, after_packet, resync, max_rounds, mpeg_sync}

-- The bytes are `k` packets of 188 bytes that begin with 0x47, and then `rest`.
pub Packets : ℕ → Bytes → Bytes → Type 0
Packets zero bytes rest = bytes ≡ rest
Packets (suc k) bytes rest =
    (p : Bytes) × (more : Bytes) × (bytes ≡ 0x47 ∷ (p ++ more))
    × (length p ≡ 187)
    × Packets k more rest

-- Seven packets in a row end at `rest`, and `left` of them are still to come: they begin here, or
-- all seven begin later.
Found : ℕ → Bytes → Bytes → Type 0
Found left bytes rest =
    Packets left bytes rest
    ⊎ ((skipped : Bytes) × (tail : Bytes) × (bytes ≡ skipped ++ tail) × Packets 7 tail rest)

found :
    (bytes rest : Bytes)
    → Found 7 bytes rest
    → (skipped : Bytes) × (tail : Bytes) × (bytes ≡ skipped ++ tail) × Packets 7 tail rest
unfolding Found
found bytes rest (inl run) = ([], bytes, refl, run)
found bytes rest (inr later) = later

Found-byte : (b left : ℕ) (bytes rest : Bytes) → Found 7 bytes rest → Found left (b ∷ bytes) rest
unfolding Found
Found-byte b left bytes rest (inl run) = inr (b ∷ [], bytes, refl, run)
Found-byte b left bytes rest (inr (skipped, tail, e, run)) =
    inr (b ∷ skipped, tail, ap (◌∷◌ b) e, run)

Found-packet :
    (left : ℕ) (bytes rest : Bytes)
    → 187 ≤ length bytes
    → Found left (after_packet bytes) rest
    → Found (suc left) (0x47 ∷ bytes) rest
unfolding Found Packets after_packet
Found-packet left bytes rest h (inl run) = inl (
  take 187 bytes,
  drop 187 bytes,
  ap (◌∷◌ 0x47) (take-append-drop 187 bytes),
  length-take 187 bytes h,
  run,
)
Found-packet left bytes rest h (inr (skipped, tail, e, run)) = inr (
  0x47 ∷ (take 187 bytes ++ skipped),
  tail,
  ap (◌∷◌ 0x47) (
      take-append-drop 187 bytes
      ∙ ap (◌++◌ (take 187 bytes)) e
      ∙ sym (append_assoc (take 187 bytes) skipped tail)),
  run,
)

Found-last : (bytes : Bytes) → Found 0 bytes bytes
unfolding Found Packets
Found-last bytes = inl refl

-- One round of a search that finds its packets, `r` standing for what the later rounds return.
round :
    (fuel : ℕ) (env : SyncEnv) (b : ℕ) (bytes : Bytes) (k n : ℕ) (rest : Bytes) (m : ℕ)
    → resync (suc fuel) env (b ∷ bytes) k n ≡ some (synced rest m)
    → ((b ≡ 0x47)
        × (187 ≤ length bytes)
        × (((k + 1 ≡ 7) × (after_packet bytes ≡ rest) × (n + 188 ≡ m))
            ⊎ ((k + 1 ≢ 7)
                × (resync fuel env (after_packet bytes) (k + 1) (n + 188) ≡ some (synced rest m)))))
      ⊎ ((n + 1 ≤ 1316) × (resync fuel env bytes 0 (n + 1) ≡ some (synced rest m)))
unfolding resync
round fuel env b bytes k n rest m e = ground arith

-- How many bytes are read: no more than the packets that are still to come, or than a search that
-- gives up after 1316 bytes and seven packets.
abbrev Bounded : ℕ → ℕ → ℕ → Type 0
Bounded left n m = (m ≤ n + 188 * left) ⊎ (m ≤ 2632)

resync_end :
    (fuel : ℕ) (env : SyncEnv) (k n : ℕ) (rest : Bytes) (m : ℕ)
    → resync fuel env [] k n ≢ some (synced rest m)
unfolding resync
resync_end zero env k n rest m = λ e. cc
resync_end (suc fuel) env k n rest m = λ e. cc

resync_start :
    (env : SyncEnv) (bytes : Bytes) (k n : ℕ) (rest : Bytes) (m : ℕ)
    → resync zero env bytes k n ≢ some (synced rest m)
unfolding resync
resync_start env bytes k n rest m = λ e. cc

last_packet :
    (k left n m b : ℕ) (bytes rest : Bytes)
    → k + suc left ≡ 7
    → b ≡ 0x47
    → 187 ≤ length bytes
    → k + 1 ≡ 7
    → after_packet bytes ≡ rest
    → n + 188 ≡ m
    → Found (suc left) (b ∷ bytes) rest × Bounded (suc left) n m
last_packet k zero n m b bytes rest s mark enough seventh here count = (
  rw (mark, ← here)
      (Found-packet 0 bytes (after_packet bytes) enough (Found-last (after_packet bytes))),
  inl (omega arith),
)
last_packet k (suc left) n m b bytes rest s mark enough seventh here count = absurd (omega arith)

more_packets :
    (k left n m b : ℕ) (bytes rest : Bytes)
    → k + suc left ≡ 7
    → b ≡ 0x47
    → 187 ≤ length bytes
    → k + 1 ≢ 7
    → ((l : ℕ)
        → k + 1 + suc l ≡ 7
        → Found (suc l) (after_packet bytes) rest × Bounded (suc l) (n + 188) m)
    → Found (suc left) (b ∷ bytes) rest × Bounded (suc left) n m
more_packets k zero n m b bytes rest s mark enough more ih = absurd (omega arith)
more_packets k (suc left) n m b bytes rest s mark enough more ih =
    let (f, c) = ih left (omega arith) in
    (rw mark (Found-packet (suc left) bytes rest enough f), ground (arith, c))

resync-Found :
    (fuel : ℕ) (env : SyncEnv) (bytes : Bytes) (k left n : ℕ) (rest : Bytes) (m : ℕ)
    → k + suc left ≡ 7
    → resync fuel env bytes k n ≡ some (synced rest m)
    → Found (suc left) bytes rest × Bounded (suc left) n m
resync-Found zero env bytes k left n rest m s e = absurd (resync_start env bytes k n rest m e)
resync-Found (suc fuel) env [] k left n rest m s e = absurd (resync_end (suc fuel) env k n rest m e)
resync-Found (suc fuel) env (b ∷ bytes) k left n rest m s e =
    elim (round fuel env b bytes k n rest m e) [
      | inl (mark, enough, inl (seventh, here, count)) ↦
          last_packet k left n m b bytes rest s mark enough seventh here count
      | inl (mark, enough, inr (more, e')) ↦
          more_packets k left n m b bytes rest s mark enough more
            λ l s'. resync-Found fuel env (after_packet bytes) (k + 1) l (n + 188) rest m s' e'
      | inr (small, e') ↦
          let (f, c) = resync-Found fuel env bytes 0 6 (n + 1) rest m refl e' in
          (Found-byte b (suc left) bytes rest f, inr (ground (arith, c)))
    ]

length-after_packet : (xs : Bytes) → 187 ≤ length xs → length xs ≡ 187 + length (after_packet xs)
unfolding after_packet
length-after_packet xs h = length-drop 187 xs h

-- What is not left has been read, byte by byte.
resync-count :
    (fuel : ℕ) (env : SyncEnv) (bytes : Bytes) (k n : ℕ) (rest : Bytes) (m : ℕ)
    → resync fuel env bytes k n ≡ some (synced rest m)
    → n + length bytes ≡ m + length rest
resync-count zero env bytes k n rest m e = absurd (resync_start env bytes k n rest m e)
resync-count (suc fuel) env [] k n rest m e = absurd (resync_end (suc fuel) env k n rest m e)
resync-count (suc fuel) env (b ∷ bytes) k n rest m e = elim (round fuel env b bytes k n rest m e) [
  | inl (mark, enough, inl (seventh, here, count)) ↦
      omega (arith, length-after_packet bytes enough, ap length here)
  | inl (mark, enough, inr (more, e')) ↦ omega (
    arith,
    length-after_packet bytes enough,
    resync-count fuel env (after_packet bytes) (k + 1) (n + 188) rest m e',
  )
  | inr (small, e') ↦ omega (arith, resync-count fuel env bytes 0 (n + 1) rest m e')
]

-- When `mpeg_sync` returns 0, the bytes of the socket are some that were skipped, seven transport
-- packets that begin with 0x47, and those that are read next; all but these, and at most 2632 bytes,
-- have been read.
pub mpeg_sync_found :
    (env : SyncEnv) (bytes rest : Bytes) (m : ℕ)
    → mpeg_sync env bytes ≡ some (synced rest m)
    → ((skipped : Bytes) × (tail : Bytes) × (bytes ≡ skipped ++ tail) × Packets 7 tail rest)
      × (length bytes ≡ m + length rest)
      × (m ≤ 2632)
unfolding mpeg_sync
mpeg_sync_found env bytes rest m e =
    let e' : resync max_rounds env bytes 0 0 ≡ some (synced rest m) = ground arith in
    let (f, c) = resync-Found max_rounds env bytes 0 6 0 rest m refl e' in
    (
      found bytes rest f,
      omega (arith, resync-count max_rounds env bytes 0 0 rest m e'),
      ground (arith, c),
    )

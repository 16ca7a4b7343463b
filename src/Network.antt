-- ===== src/Network.antt =====
-- network.c: finding the packet boundaries of a source (`mpeg_sync`). What the socket delivers is a
-- list of bytes, at whose end `fdread_ex` times out.
pub mod Sync
pub mod Limit
pub mod Connect
pub mod Udp
mod Tests
use mptsd.Base.{
  ℕ, zero, suc, ◌+◌, ◌*◌, Bool, true, false, List, [], ◌∷◌, Option, none, some, Bytes, length, drop,
  ltb, ◌==◌, if◌then◌else◌,
}

-- What other threads and the clock do while bytes are read: after how many bytes two seconds have
-- passed, and when the input is told to stop.
pub record SyncEnv : Type 0 where
  pub late : ℕ → Bool
  pub dienow : ℕ → Bool

pub data SyncResult : Type 0 where
  -- 0, with the bytes that are still to be read and `read_bytes`
  synced : Bytes → ℕ → SyncResult
  -- 1
  unsynced : SyncResult

-- What is left when the 187 bytes after a 0x47 are read.
unfoldable pub after_packet : Bytes → Bytes
after_packet bytes = drop 187 bytes

-- From the label `resync` on. Every round takes a byte; `none` is left when the rounds run out.
unfoldable pub resync : ℕ → SyncEnv → Bytes → ℕ → ℕ → Option SyncResult
resync zero env bytes sync_packets read_bytes = none
resync (suc fuel) env [] sync_packets read_bytes = some unsynced
resync (suc fuel) env (b ∷ rest) sync_packets read_bytes =
    let next_packet = resync fuel env (after_packet rest) (sync_packets + 1) (read_bytes + 188) in
    let next_byte = resync fuel env rest 0 (read_bytes + 1) in
    if b == 0x47
    then if ltb (length rest) 187
      then some unsynced
      else if sync_packets + 1 == 7
      then some (synced (after_packet rest) (read_bytes + 188))
      else next_packet
    else if ltb 1316 (read_bytes + 1)
    then some unsynced
    else if env.late (read_bytes + 1)
    then some unsynced
    else if env.dienow (read_bytes + 1)
    then some unsynced
    else next_byte

-- A round begins after 1316 bytes at most, or up to six packets later, and every round takes a byte.
abbrev pub max_rounds : ℕ
max_rounds = 1316 + 6 * 188 + 1

unfoldable pub mpeg_sync : SyncEnv → Bytes → Option SyncResult
mpeg_sync env bytes =
    let found = resync max_rounds env bytes 0 0 in if env.dienow 0 then some unsynced else found

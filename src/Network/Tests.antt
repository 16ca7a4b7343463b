-- ===== src/Network/Tests.antt =====
-- Runs of the connection and of the search for packets.
use mptsd.Base.{
  ℕ, zero, suc, ◌≤◌, ◌≡◌, ◌≢◌, refl, true, false, [], ◌∷◌, ◌++◌, none, some, Bytes, codes, pos,
  replicate, take, drop, length, ◌+◌,
}
use mptsd.Url.{is_valid_url}
use mptsd.Url.RoundTrip.{chansrc_init_iff_valid}
use mptsd.Network.{SyncEnv, SyncResult, synced, unsynced, mpeg_sync}
use mptsd.Network.Sync.{Packets, mpeg_sync_found}
use mptsd.Network.Limit.{and_more, mpeg_sync_total}
use mptsd.Network.Connect.{ConnectEnv, connect_source}
use mptsd.Network.Connect.Outcome.{Outcome, connect_source-Outcome}
use mptsd.Samples.{new_input}

abbrev packets : ℕ → Bytes
packets zero = []
packets (suc n) = 0x47 ∷ (replicate 187 0 ++ packets n)

abbrev quiet : SyncEnv
quiet = record { late = λ n. false; dienow = λ n. false }

abbrev noise : Bytes
noise = replicate 1400 1

mpeg_sync_total_example :
    (mpeg_sync quiet noise ≢ none)
    × (mpeg_sync quiet noise ≡ and_more (drop 2632 noise) (mpeg_sync quiet (take 2632 noise)))
mpeg_sync_total_example = mpeg_sync_total quiet noise

-- It gives up after 1317 bytes.
gives_up : mpeg_sync quiet noise ≡ some unsynced
unfolding mpeg_sync mptsd.Network.resync
gives_up = refl

run : mpeg_sync quiet (1 ∷ packets 8) ≡ some (synced (packets 1) 1317)
unfolding mpeg_sync mptsd.Network.resync mptsd.Network.after_packet
run = refl

mpeg_sync_found_example :
    ((skipped : Bytes) × (tail : Bytes) × (1 ∷ packets 8 ≡ skipped ++ tail)
      × Packets 7 tail (packets 1))
    × (length (1 ∷ packets 8) ≡ 1317 + length (packets 1))
    × (1317 ≤ 2632)
mpeg_sync_found_example = mpeg_sync_found quiet (1 ∷ packets 8) (packets 1) 1317 run

abbrev env : ConnectEnv
env = record {
  resolve = 0;
  socket = some 5;
  connects = true;
  multicast = false;
  joins = true;
  binds = true;
  response = codes "HTTP/1.0 200 OK" ∷ [];
}

valid : is_valid_url (codes "http://b/") ≡ true
unfolding is_valid_url mptsd.Url.match_url mptsd.Url.span
valid = refl

connect_source-Outcome_example : Outcome (new_input 3) (connect_source env 1 (pos 0) (new_input 3))
connect_source-Outcome_example =
    connect_source-Outcome env 1 (pos 0) (new_input 3)
      ((chansrc_init_iff_valid (codes "http://b/")).0 valid)

-- ===== src/Config/Reload/Whole.antt =====
-- The two halves of `config_load_channels` together.
use mptsd.Base.{◌≡◌, ◌≢◌, List, [], ◌∷◌, some, ℕ, arith, All}
use mptsd.Channel.{Channel}
use mptsd.Config.{Ini}
use mptsd.Config.Channels.{load_channels}
use mptsd.Config.Channels.Rounds.{FromSection}
use mptsd.Config.Channels.File.{load_channels-Loaded}
use mptsd.Config.Reload.{Restreamer, reload}
use mptsd.Config.Reload.Safety.{Copyable, SameChannels, Settled, Sourced, reload-Settled}

All-Sourced : (ini : Ini) (cs : List Channel) → All (FromSection ini) cs → All Sourced cs
All-Sourced ini [] h = tt
All-Sourced ini (c ∷ cs) (f, h) =
    ((f.holds.valid, omega (arith, f.holds.count, f.sourced)), All-Sourced ini cs h)

-- A file whose loading does not crash can always be handed to the inputs when no input has the new
-- cookie already and their channels have a source and an index from 1 to 255: then every input either
-- holds a channel at a place of the new list that has its name, or owns its channel and is told to end,
-- so that none is left with a channel of the old list. The new list has the sources, names and indices
-- of the loaded channels.
pub config_load_channels-Settled :
    (ini : Ini) (cookie : ℕ) (channels : List Channel) (inputs : List Restreamer)
    → load_channels ini ≡ some channels
    → All (λ r. (r.input.cookie ≢ cookie) × Copyable r.input.channel) inputs
    → (channels' : List Channel) × (inputs' : List Restreamer) × (reload cookie channels inputs
        ≡ some (channels', inputs'))
      × SameChannels channels channels'
      × All (Settled channels') inputs'
config_load_channels-Settled ini cookie channels inputs loaded fresh =
    reload-Settled cookie channels inputs
      (All-Sourced ini channels (load_channels-Loaded ini channels loaded).from_sections) fresh

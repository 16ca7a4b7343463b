-- ===== src/Config/Reload.antt =====
-- config.c: the second half of `config_load_channels`, which hands the channels of a file that was read
-- again to the inputs that run. An input shares its channel with a list: `Owner` says with which, the
-- old one, which is freed at the end, or a place of the new one; or the channel is the input's own.
pub mod Adopt
pub mod Safety
pub mod Whole
use mptsd.Base.{
  ℕ, zero, suc, ◌+◌, ◌-◌, Bool, true, false, List, [], ◌∷◌, Option, none, some, CString, str_eq,
  get_or, if◌then◌else◌, ◌==◌,
}
use mptsd.Channel.{Channel, channel_new, chansrc_set}
use mptsd.Input.{Input}

pub data Owner : Type 0 where
  old_list : Owner
  new_list : ℕ → Owner
  itself : Owner

pub record Restreamer : Type 0 where
  pub input : Input
  pub owner : Owner

-- strcmp(s, t) == 0 of two sources; a list that is valid has no NULL in it.
abbrev pub same_source : Option CString → Option CString → Bool
same_source (some s) (some t) = str_eq s t
same_source none t = false
same_source (some s) none = false

-- for (i=0; i<chan->num_src; i++), from `i` on with `left` rounds to go: `src_found`, `none` for -1
unfoldable pub find_source : Option CString → Channel → ℕ → ℕ → Option ℕ → Option ℕ
find_source old_source chan zero i src_found = src_found
find_source old_source chan (suc left) i src_found =
    find_source old_source chan left (i + 1)
      (if same_source old_source (get_or chan.sources i none) then some i else src_found)

-- An input whose name is that of the channel at place `k` of the new list. Channel and input share the
-- object, so both change.
unfoldable pub adopt : ℕ → ℕ → Channel → Restreamer → Channel × Restreamer
unfolding find_source
adopt cookie k chan r = elim (find_source r.input.channel.source chan chan.num_src 0 none) [
  | some src_found ↦
      let chan' = chansrc_set chan src_found in
      (
        chan',
        record { input = record r.input { cookie = cookie; channel = chan' }; owner = new_list k },
      )
  | none ↦
      let chan' = chansrc_set chan (chan.num_src - 1) in
      (
        chan',
        record {
          input = record r.input { cookie = cookie; channel = chan'; reconnect = true };
          owner = new_list k;
        },
      )
]

-- The first input of the name.
unfoldable pub adopt_first : ℕ → ℕ → Channel → List Restreamer → Channel × List Restreamer
unfolding adopt
adopt_first cookie k chan [] = (chan, [])
adopt_first cookie k chan (r ∷ rs) =
    let (chan1, r1) = adopt cookie k chan r in
    let (chan2, rs2) = adopt_first cookie k chan rs in
    if str_eq chan.name r.input.name then (chan1, r1 ∷ rs) else (chan2, r ∷ rs2)

-- The new channels, from place `k` on.
unfoldable pub adopt_all : ℕ → ℕ → List Channel → List Restreamer → List Channel × List Restreamer
unfolding adopt_first
adopt_all cookie k [] rs = ([], rs)
adopt_all cookie k (chan ∷ chans) rs =
    let (chan1, rs1) = adopt_first cookie k chan rs in
    let (chans2, rs2) = adopt_all cookie (k + 1) chans rs1 in (chan1 ∷ chans2, rs2)

-- channel_new of the fields of a channel; without a source, which `strdup` cannot copy, none.
unfoldable pub copy_channel : Channel → Option Channel
copy_channel c = elim c.source [
  | none ↦ none
  | some source ↦
      channel_new c.service_id c.radio c.id c.name c.eit_mode source c.index c.lcn c.lcn_visible
]

-- An input that no channel has marked gets a channel of its own and is told to end.
unfoldable pub dismiss : ℕ → Restreamer → Option Restreamer
unfolding copy_channel
dismiss cookie r =
    if r.input.cookie == cookie then some r else elim (copy_channel r.input.channel) [
      | none ↦ none
      | some c ↦ some (record {
        input = record r.input { channel = c; freechannel = true; dienow = true };
        owner = itself;
      })
    ]

unfoldable pub dismiss_all : ℕ → List Restreamer → Option (List Restreamer)
unfolding dismiss
dismiss_all cookie [] = some []
dismiss_all cookie (r ∷ rs) = elim (dismiss cookie r) [
  | none ↦ none
  | some r1 ↦ elim (dismiss_all cookie rs) [ none ↦ none | some rs1 ↦ some (r1 ∷ rs1) ]
]

-- The new list and the inputs afterwards.
unfoldable pub reload : ℕ → List Channel → List Restreamer → Option (List Channel × List Restreamer)
unfolding adopt_all dismiss_all
reload cookie channels inputs =
    let (channels1, inputs1) = adopt_all cookie 0 channels inputs in
    elim (dismiss_all cookie inputs1) [ none ↦ none | some inputs2 ↦ some (channels1, inputs2) ]

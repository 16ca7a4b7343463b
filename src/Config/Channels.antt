-- ===== src/Config/Channels.antt =====
-- config.c: the first half of `config_load_channels`, which makes the channels of the file.
pub mod Loaded
pub mod Rounds
pub mod File
use mptsd.Base.{
  ℕ, zero, suc, ◌+◌, ◌*◌, ◌-◌, Bool, true, false, List, [], ◌∷◌, ◌++◌, Option, none, some, CString,
  codes, leb, ◌==◌, ◌&&◌, not, if◌then◌else◌,
}
use mptsd.Channel.{Channel, channel_new, chansrc_add}
use mptsd.Url.{is_valid_url, is_digit}
use mptsd.Config.{Ini, decimal, channel_key}

-- What the loop reads before the sources.
pub record Section : Type 0 where
  pub index : ℕ
  pub service_id : ℕ
  pub is_radio : Bool
  pub lcn : ℕ
  pub is_lcn_visible : Bool
  pub id : CString
  pub name : CString
  pub eit_mode : ℕ

-- A section with a service and with both texts.
unfoldable pub read_section : Ini → ℕ → Option Section
read_section ini i =
    if ini.get_int (channel_key i (codes "service_id")) 0 == 0
    then none
    else elim (ini.get_string (channel_key i (codes "id"))) [
      | none ↦ none
      | some id ↦ elim (ini.get_string (channel_key i (codes "name"))) [
        | none ↦ none
        | some name ↦ some (record {
          index = i;
          service_id = ini.get_int (channel_key i (codes "service_id")) 0;
          is_radio = ini.get_bool (channel_key i (codes "radio"));
          lcn = ini.get_int (channel_key i (codes "lcn")) 0;
          is_lcn_visible = ini.get_bool (channel_key i (codes "lcn_visible"));
          id = id;
          name = name;
          eit_mode = ini.get_int (channel_key i (codes "eit_mode")) 0;
        })
      ]
    ]

-- The source `j`, where "source" stands in for "source1".
unfoldable pub source_text : Ini → ℕ → ℕ → Option CString
source_text ini i j = elim (ini.get_string (channel_key i (codes "source" ++ decimal j))) [
  | some source ↦ some source
  | none ↦ if j == 1 then ini.get_string (channel_key i (codes "source")) else none
]

-- One source: the first one that is valid makes the channel.
unfoldable pub load_source : Section → Option Channel → Option CString → Option Channel
load_source s channel none = channel
load_source s channel (some source) = if not (is_valid_url source) then channel else elim channel [
  | none ↦
      channel_new s.service_id s.is_radio s.id s.name s.eit_mode source s.index s.lcn
        s.is_lcn_visible
  | some c ↦ some (chansrc_add c source)
]

-- for (j=1;j<8;j++), from `j` on with `left` rounds to go
unfoldable pub load_sources : Ini → Section → ℕ → ℕ → Option Channel → Option Channel
load_sources ini s zero j channel = channel
load_sources ini s (suc left) j channel =
    load_sources ini s left (j + 1) (load_source s channel (source_text ini s.index j))

-- %02d, for a text without spaces and signs: one or two digits
unfoldable pub scan_02d : CString → Option (ℕ × CString)
scan_02d [] = none
scan_02d (a ∷ []) = if is_digit a then some (a - b'0', []) else none
scan_02d (a ∷ b ∷ rest) =
    if is_digit a
    then if is_digit b then some ((a - b'0') * 10 + (b - b'0'), rest) else some (a - b'0', b ∷ rest)
    else none

-- A number, and the character that must follow it.
unfoldable pub scan_until : ℕ → CString → Option (ℕ × CString)
unfolding scan_02d
scan_until c text = elim (scan_02d text) [
  | none ↦ none
  | some (n, []) ↦ none
  | some (n, d ∷ rest) ↦ if d == c then some (n, rest) else none
]

-- sscanf(worktime, "%02d:%02d-%02d:%02d") == 4: the seconds of the start and of the end
unfoldable pub scan_worktime : CString → Option (ℕ × ℕ)
unfolding scan_until
scan_worktime text = elim (scan_until b':' text) [
  | none ↦ none
  | some (sh, text1) ↦ elim (scan_until b'-' text1) [
    | none ↦ none
    | some (sm, text2) ↦ elim (scan_until b':' text2) [
      | none ↦ none
      | some (eh, text3) ↦ elim (scan_02d text3) [
        | none ↦ none
        | some (em, rest) ↦ some (sh * 3600 + sm * 60, eh * 3600 + em * 60)
      ]
    ]
  ]
]

-- The hours of the section, if there are any.
abbrev pub worktime_of : Ini → ℕ → Option (ℕ × ℕ)
worktime_of ini i = elim (ini.get_string (channel_key i (codes "worktime"))) [
  | none ↦ none
  | some text ↦ scan_worktime text
]

-- What a round of the loop comes to; `crashed` is the write through a NULL channel.
pub data ChannelLoad : Type 0 where
  skipped crashed : ChannelLoad
  added : Channel → ChannelLoad

unfoldable pub set_worktime : Option Channel → Option (ℕ × ℕ) → ChannelLoad
set_worktime none none = skipped
set_worktime none (some hours) = crashed
set_worktime (some c) none = added c
set_worktime (some c) (some (start, end)) =
    added (record c { worktime_start = start; worktime_end = end })

unfoldable pub load_channel : Ini → ℕ → ChannelLoad
unfolding read_section load_sources set_worktime
load_channel ini i = elim (read_section ini i) [
  | none ↦ skipped
  | some s ↦ set_worktime (load_sources ini s 7 1 none) (worktime_of ini i)
]

-- for (i=1;i<32;i++), from `i` on with `left` rounds to go; `none` for a crash
unfoldable pub load_from : Ini → ℕ → ℕ → Option (List Channel)
unfolding load_channel
load_from ini zero i = some []
load_from ini (suc left) i =
    let others = load_from ini left (i + 1) in
    elim (load_channel ini i) [
      | crashed ↦ none
      | skipped ↦ others
      | added c ↦ elim others [ none ↦ none | some cs ↦ some (c ∷ cs) ]
    ]

unfoldable pub load_channels : Ini → Option (List Channel)
unfolding load_from
load_channels ini = load_from ini 31 1

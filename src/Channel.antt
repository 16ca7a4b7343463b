-- ===== src/Channel.antt =====
-- data.c and data.h: channels and their sources. A C `int` that the code never makes negative is a
-- natural number, and a pointer that may be NULL is an option.
pub mod Sources
pub mod Rotation
mod Tests
use mptsd.Base.{
  ℕ, ◌+◌, ◌*◌, Bool, true, false, List, [], ◌∷◌, Option, none, some, CString, leb, ◌==◌, ◌||◌, u8,
  set, get_or, replicate, if◌then◌else◌,
}
use mptsd.Libs.{Eit}

pub record EpgEntry : Type 0 where
  pub event_id : ℕ
  pub start : ℕ
  pub duration : ℕ
  pub event : Option CString
  pub short_desc : Option CString
  pub long_desc : Option CString

abbrev pub max_channel_sources : ℕ
max_channel_sources = 8

pub record Channel : Type 0 where
  pub index : ℕ
  pub base_pid : ℕ
  pub service_id : ℕ
  pub pmt_pid : ℕ
  pub radio : Bool
  pub lcn : ℕ
  pub lcn_visible : Bool
  pub id : CString
  pub name : CString
  pub eit_mode : ℕ
  -- the URL of the current source
  pub source : Option CString
  -- `max_channel_sources` places
  pub sources : List (Option CString)
  pub num_src : ℕ
  pub curr_src : ℕ
  pub worktime_start : ℕ
  pub worktime_end : ℕ
  pub epg_version : ℕ
  pub epg_now : Option EpgEntry
  pub epg_next : Option EpgEntry
  pub eit_now : Option Eit
  pub eit_next : Option Eit

abbrev is_null : Option CString → Bool
is_null none = true
is_null (some s) = false

unfoldable pub chansrc_add : Channel → CString → Channel
chansrc_add c src = if leb 7 c.num_src then c else record c {
  sources = set c.sources c.num_src (some src);
  source = if c.num_src == 0 then some src else c.source;
  num_src = u8 (c.num_src + 1);
}

unfoldable pub chansrc_next : Channel → Channel
chansrc_next c =
    if leb c.num_src 1
    then c
    else let i = u8 (c.curr_src + 1) in
      let curr = if leb 7 i || is_null (get_or c.sources i none) then 0 else i in
      record c { curr_src = curr; source = get_or c.sources curr none }

unfoldable pub chansrc_set : Channel → ℕ → Channel
chansrc_set c src_id =
    if leb 7 src_id || is_null (get_or c.sources src_id none)
    then c
    else record c { curr_src = src_id; source = get_or c.sources src_id none }

-- What calloc and the assignments of `channel_new` leave before the source is added.
abbrev pub blank_channel : ℕ → Bool → CString → CString → ℕ → ℕ → ℕ → Bool → Channel
blank_channel service_id is_radio id name eit_mode channel_index lcn is_lcn_visible = record {
  index = channel_index;
  base_pid = channel_index * 32;
  service_id = service_id;
  pmt_pid = channel_index * 32;
  radio = is_radio;
  lcn = lcn;
  lcn_visible = is_lcn_visible;
  id = id;
  name = name;
  eit_mode = eit_mode;
  source = none;
  sources = replicate 8 none;
  num_src = 0;
  curr_src = 0;
  worktime_start = 0;
  worktime_end = 0;
  epg_version = 0;
  epg_now = none;
  epg_next = none;
  eit_now = none;
  eit_next = none;
}

unfoldable pub channel_new :
    ℕ → Bool → CString → CString → ℕ → CString → ℕ → ℕ → Bool → Option Channel
unfolding chansrc_add
channel_new service_id is_radio id name eit_mode source channel_index lcn is_lcn_visible =
    if channel_index == 0 || leb 256 channel_index
    then none
    else some (
        chansrc_add
          (blank_channel service_id is_radio id name eit_mode channel_index lcn is_lcn_visible)
          source)

-- What stays of a channel's guide when `channel_free_epg` has freed it.
unfoldable pub channel_free_epg : Channel → Channel
channel_free_epg c = record c { epg_now = none; epg_next = none; eit_now = none; eit_next = none }

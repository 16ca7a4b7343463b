-- ===== src/Epg.antt =====
-- data.c and config.c: the programme guide of a channel. Times are not negative.
pub mod Versions
pub mod Load
mod Tests
use mptsd.Base.{
  ℕ, ◌+◌, ◌/◌, ◌%◌, ◌^◌, ◌≡◌, Bool, true, false, Option, none, some, CString, codes, str_eq, ◌==◌,
  ◌&&◌, ◌||◌, not, if◌then◌else◌, List, [], ◌∷◌,
}
use mptsd.Libs.{Eit, EpgLibs}
use mptsd.Channel.{EpgEntry, Channel, channel_free_epg}

abbrev is_iso_8859_5 : Option CString → Bool
is_iso_8859_5 none = false
is_iso_8859_5 (some encoding) = str_eq encoding (codes "iso-8859-5")

-- The event's number is made of the low 16 bits of its minute.
unfoldable pub epg_new :
    EpgLibs
    → ℕ
    → ℕ
    → Option CString
    → Option CString
    → Option CString
    → Option CString
    → Option EpgEntry
epg_new E start duration encoding none short_desc long_desc = none
epg_new E start duration encoding (some event) short_desc long_desc =
    let text =
      if is_iso_8859_5 encoding then E.init_dvb_string_iso_8859_5 else E.init_dvb_string_utf8 in
    some (record {
      event_id = start / 60 % 2 ^ 16;
      start = start;
      duration = duration;
      event = text (some event);
      short_desc = text short_desc;
      long_desc = text long_desc;
    })

-- true for 1
unfoldable pub epg_changed : EpgLibs → Option EpgEntry → Option EpgEntry → Bool
epg_changed E none none = false
epg_changed E none (some b) = true
epg_changed E (some a) none = true
epg_changed E (some a) (some b) =
    if not (a.event_id == b.event_id)
    then true
    else if not (a.start == b.start)
    then true
    else if not (a.duration == b.duration)
    then true
    else if not (E.xstrcmp a.event b.event == 0)
    then true
    else if not (E.xstrcmp a.short_desc b.short_desc == 0)
    then true
    else if not (E.xstrcmp a.long_desc b.long_desc == 0)
    then true
    else false

-- The configuration's two numbers that go into the tables.
pub record Network : Type 0 where
  pub network_id : ℕ
  pub transport_stream_id : ℕ

-- The table of an event (0 for now, 1 for next), which may be missing.
unfoldable pub make_eit : EpgLibs → Network → Channel → ℕ → ℕ → Option EpgEntry → Eit
make_eit E n c version is_next entry =
    let empty =
      record (E.ts_eit_alloc_init_pf c.service_id n.transport_stream_id n.network_id is_next 1) {
        version_number = version;
      } in
    E.ts_eit_regenerate_packets (elim entry [
      | none ↦ empty
      | some e ↦
          E.ts_eit_add_extended_event_descriptor
            (E.ts_eit_add_short_event_descriptor empty e.event_id 1 e.start e.duration e.event
              e.short_desc)
            e.event_id 1 e.start e.duration e.long_desc
    ])

abbrev pub is_entry : Option EpgEntry → Bool
is_entry none = false
is_entry (some e) = true

-- epg_version++, in five bits
abbrev pub next_version : ℕ → ℕ
next_version v = (v + 1) % 32

unfoldable pub config_channel_init_epg :
    EpgLibs → Network → Channel → Option EpgEntry → Option EpgEntry → Channel
unfolding channel_free_epg
config_channel_init_epg E n c now next =
    let v = next_version c.epg_version in
    let cleared = channel_free_epg (record c { epg_version = v }) in
    let kept = record cleared { epg_now = now; epg_next = next } in
    let made = record kept {
      eit_now = some (make_eit E n c v 0 now);
      eit_next = some (make_eit E n c v 1 next);
    } in
    if epg_changed E now c.epg_now || epg_changed E next c.epg_next
    then if is_entry now || is_entry next then made else kept
    else c

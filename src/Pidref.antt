-- ===== src/Pidref.antt =====
-- pidref.c and pidref.h: the table of packet identifiers that one input rewrites.
-- A call that changes `*ref` returns the C result beside the new table.
pub mod Table
pub mod Delete
mod Tests
use mptsd.Base.{
  ℕ, Bool, true, false, List, [], ◌∷◌, Option, none, some, ◌==◌, if◌then◌else◌, replicate, Bytes,
}
use mathlib.Core.Option

pub record PidrefEntry : Type 0 where
  pub org_pid : ℕ
  pub new_pid : ℕ

-- `entries` is the array that `pidref_init` allocates with `num` places.
pub record Pidref : Type 0 where
  pub base_pid : ℕ
  pub num : ℕ
  pub entries : List PidrefEntry

-- What calloc leaves, and what `pidref_del` writes.
abbrev pub free_entry : PidrefEntry
free_entry = record { org_pid = 0; new_pid = 0 }

unfoldable pub pidref_init : ℕ → ℕ → Pidref
pidref_init num base_pid = record {
  base_pid = base_pid;
  num = num;
  entries = replicate num free_entry;
}

-- The loop of `pidref_add`; `none` when it runs past the last entry.
unfoldable pub add_entry : List PidrefEntry → ℕ → ℕ → Option (List PidrefEntry)
add_entry [] org_pid new_pid = none
add_entry (e ∷ es) org_pid new_pid =
    if e.org_pid == 0
    then some (record { org_pid = org_pid; new_pid = new_pid } ∷ es)
    else Option.map (◌∷◌ e) (add_entry es org_pid new_pid)

unfoldable pub pidref_add : Pidref → ℕ → ℕ → ℕ × Pidref
pidref_add ref org_pid new_pid =
    if org_pid == 0 then (0, ref) else elim (add_entry ref.entries org_pid new_pid) [
      | none ↦ (0, ref)
      | some es ↦ (1, record ref { entries = es })
    ]

-- The loop of `pidref_del`.
unfoldable pub del_entry : List PidrefEntry → ℕ → Option (List PidrefEntry)
del_entry [] org_pid = none
del_entry (e ∷ es) org_pid =
    if e.org_pid == org_pid
    then some (free_entry ∷ es)
    else Option.map (◌∷◌ e) (del_entry es org_pid)

unfoldable pub pidref_del : Pidref → ℕ → ℕ × Pidref
pidref_del ref org_pid = if org_pid == 0 then (0, ref) else elim (del_entry ref.entries org_pid) [
  | none ↦ (0, ref)
  | some es ↦ (1, record ref { entries = es })
]

-- The loop of `pidref_get_new_pid`.
unfoldable pub find_entry : List PidrefEntry → ℕ → ℕ
find_entry [] org_pid = 0
find_entry (e ∷ es) org_pid = if e.org_pid == org_pid then e.new_pid else find_entry es org_pid

unfoldable pub pidref_get_new_pid : Pidref → ℕ → ℕ
pidref_get_new_pid ref org_pid = if org_pid == 0 then 0 else find_entry ref.entries org_pid

-- `ts_packet_set_pid` is the transport stream library's.
unfoldable pub pidref_change_packet_pid : (Bytes → ℕ → Bytes) → Bytes → ℕ → Pidref → ℕ × Bytes
pidref_change_packet_pid ts_packet_set_pid ts_packet packet_pid ref =
    let new_pid = pidref_get_new_pid ref packet_pid in
    if new_pid == 0 then (0, ts_packet) else (new_pid, ts_packet_set_pid ts_packet new_pid)

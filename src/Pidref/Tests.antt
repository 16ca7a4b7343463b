-- ===== src/Pidref/Tests.antt =====
-- Runs of the identifier table.
use mptsd.Base.{◌≡◌, refl, [], ◌∷◌, if◌then◌else◌, arith, length}
use mptsd.Pidref.{Pidref, pidref_init, pidref_add, pidref_del, pidref_get_new_pid}
use mptsd.Pidref.Table.{IsValid, Adds, rewrites, pidref_add_lem}
use mptsd.Pidref.Delete.{has_pid, erase_pid, pidref_del_lem}

abbrev table : Pidref
table = record {
  base_pid = 34;
  num = 3;
  entries =
      record { org_pid = 100; new_pid = 32 }
      ∷ record { org_pid = 101; new_pid = 33 }
      ∷ record { org_pid = 0; new_pid = 0 }
      ∷ [];
}

table-IsValid : IsValid table
table-IsValid = record {
  places = refl;
  packed = (λ e. absurd (omega arith), (λ e. absurd (omega arith), (λ e. tt, tt)));
}

pidref_add_example : Adds table 102 34 (pidref_add table 102 34)
pidref_add_example = pidref_add_lem table 102 34 (λ e. absurd (omega arith)) table-IsValid

pidref_del_example :
    ((pidref_del table 100).0 ≡ (if has_pid 100 (rewrites table) then 1 else 0))
    × (rewrites (pidref_del table 100).1 ≡ erase_pid 100 (rewrites table))
    × (length (pidref_del table 100).1.entries ≡ 3)
    × ((pidref_del table 100).1.base_pid ≡ 34)
pidref_del_example = pidref_del_lem table 100 (λ e. absurd (omega arith))

found : pidref_get_new_pid table 101 ≡ 33
unfolding pidref_get_new_pid mptsd.Pidref.find_entry
found = refl

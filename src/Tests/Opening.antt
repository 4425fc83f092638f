-- ===== src/Tests/Opening.antt =====
-- Small archives, as their entries.
use chrono_nextos.Prelude.{ℕ, ◌≡◌, refl, List, [], ◌∷◌, ◌*◌}
use chrono_nextos.Prelude.Text.{Text, text_eq, codes, contains, split, starts_with, ends_in, join}
use chrono_nextos.Fault.{err, source_error}
use chrono_nextos.Paths.{
  safe_zip_name, has_unsafe_char, is_special_part, ends_unportably, is_unsafe_zip_part,
  strip_directory_mark,
}
use chrono_nextos.Candidates.Checks.{Member}
use chrono_nextos.Archives.{ZipInfo, add_entries, opened_members}
use chrono_nextos.Tests.Inputs.{same_key}
use chrono_nextos.Tests.Selections.{a_member}

abbrev entry_with : ℕ → Text → ZipInfo
entry_with mode filename = record {
  filename = filename;
  flag_bits = 8;
  external_attr = mode * 65536;
  member = a_member;
}

-- 0o100644, 0o040755 and 0o120777
abbrev file_mode : ℕ
file_mode = 33188

abbrev directory_mode : ℕ
directory_mode = 16877

abbrev link_mode : ℕ
link_mode = 41471

abbrev infos : List ZipInfo
infos = entry_with directory_mode (codes "lib/") ∷ entry_with file_mode (codes "lib/a") ∷ []

abbrev members : List (Text × Member)
members = (codes "lib/a", a_member) ∷ []

refuses :
    (opened_members same_key (entry_with link_mode (codes "lib/a") ∷ []) ≡ err source_error)
    × (opened_members same_key (entry_with file_mode (codes "lib") ∷ infos) ≡ err source_error)
    × (opened_members same_key (entry_with file_mode (codes "../a") ∷ []) ≡ err source_error)
unfolding add_entries safe_zip_name text_eq contains split starts_with ends_in join has_unsafe_char
    is_special_part ends_unportably is_unsafe_zip_part strip_directory_mark
refuses = (refl, refl, refl)

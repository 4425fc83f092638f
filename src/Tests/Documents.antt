-- ===== src/Tests/Documents.antt =====
-- The theorems about paths, templates, the journal and the marker, applied to concrete texts.
use chrono_nextos.Prelude.{◌≡◌, ◌⊎◌, refl, true, false, List, [], ◌∷◌, ◌++◌, All, length}
use chrono_nextos.Prelude.Text.{Text, text_eq, codes, contains, split, starts_with, ends_in, join}
use chrono_nextos.Fault.{ok}
use chrono_nextos.Json.{is_hex_text, is_abi_text}
use chrono_nextos.Paths.{
  slash, dot, validate_relative_path, safe_zip_name, safe_join, has_unsafe_char, is_special_part,
  ends_unportably, is_unsafe_zip_part, strip_directory_mark, normalize, leads,
}
use chrono_nextos.Paths.Parts.{IsPart}
use chrono_nextos.Paths.Safety.{
  IsRelative, validate_relative_path_sound, validate_relative_path_complete,
  validate_relative_path-IsRelative, safe_zip_name_sound, IsRelative-split,
}
use chrono_nextos.Paths.Escape.{safe_join-below, safe_join-contained}
use chrono_nextos.Templates.{
  template_value, validate_template_fields, expand_commit_paths, abi_field,
}
use chrono_nextos.Templates.Total.{template_value-total, abi-IsMapped}
use chrono_nextos.Templates.CommitSet.{AllApart, expand_commit_paths-AllApart}
use chrono_nextos.Journal.{Journal, backed_up, validate_transaction_journal}
use chrono_nextos.Journal.Encode.{journal_value}
use chrono_nextos.Journal.RoundTrip.{validate_transaction_journal-journal_value}
use chrono_nextos.Journal.Binding.{paths_of, validate_transaction_journal-paths}
use chrono_nextos.Marker.{marker_matches_recipe}
use chrono_nextos.Marker.Encode.{marker_value}
use chrono_nextos.Marker.Matches.{marker_matches_recipe-marker_value}
use chrono_nextos.Tests.Inputs.{
  same_key, folder, hex_32, hex_64, a_recipe, a_plan, a_plan-IsMarkable, expanded, hex_32-ok,
  hex_64-ok, abi-ok,
}

abbrev a_path : Text
a_path = codes "lib/a.so"

a_path-ok : validate_relative_path a_path false ≡ ok a_path
unfolding validate_relative_path has_unsafe_char contains is_special_part ends_unportably split
    starts_with ends_in join text_eq
a_path-ok = refl

a_path-IsRelative : IsRelative a_path
a_path-IsRelative = (validate_relative_path-IsRelative a_path a_path-ok).1

validate_relative_path_sound_example :
    (a_path ≡ a_path) × (IsRelative a_path ⊎ ((a_path ≡ dot) × (false ≡ true)))
validate_relative_path_sound_example = validate_relative_path_sound a_path false a_path-ok

validate_relative_path_complete_example : validate_relative_path a_path true ≡ ok a_path
validate_relative_path_complete_example =
    validate_relative_path_complete a_path true a_path-IsRelative

zip-ok : safe_zip_name a_path false ≡ ok a_path
unfolding safe_zip_name has_unsafe_char contains is_special_part ends_unportably is_unsafe_zip_part
    strip_directory_mark split starts_with ends_in join text_eq
zip-ok = refl

safe_zip_name_sound_example : (a_path ≡ a_path) × ((a_path ≡ []) ⊎ IsRelative a_path)
safe_zip_name_sound_example = safe_zip_name_sound a_path zip-ok

abbrev a_root : List Text
a_root = codes "roms" ∷ codes "game" ∷ []

root-ok : validate_relative_path (codes "roms/game") false ≡ ok (codes "roms/game")
unfolding validate_relative_path has_unsafe_char contains is_special_part ends_unportably split
    starts_with ends_in join text_eq
root-ok = refl

a_root-parts : All IsPart a_root
unfolding split
a_root-parts =
    IsRelative-split (codes "roms/game")
      (validate_relative_path-IsRelative (codes "roms/game") root-ok).1

safe_join-below_example : safe_join a_root a_path ≡ ok (a_root ++ split slash a_path)
safe_join-below_example = safe_join-below a_root a_path a_root-parts a_path-IsRelative

joined : safe_join a_root a_path ≡ ok (a_root ++ split slash a_path)
unfolding safe_join normalize leads validate_relative_path has_unsafe_char contains is_special_part
    ends_unportably split starts_with ends_in join text_eq
joined = refl

safe_join-contained_example :
    (a_root ++ split slash a_path ≡ a_root ++ split slash a_path) × All IsPart (split slash a_path)
safe_join-contained_example = safe_join-contained a_root a_path a_root-parts joined

abbrev a_template : Text
a_template = codes "lib/{abi}"

template-ok : validate_template_fields a_template (abi_field ∷ []) ≡ ok tt
unfolding validate_template_fields text_eq split contains
template-ok = refl

template_value-total_example :
    (text : Text) × (template_value a_template (codes "arm64") [] ≡ ok text)
template_value-total_example =
    template_value-total (codes "arm64") [] a_template (abi_field ∷ [])
      (abi-IsMapped (codes "arm64") [], tt) template-ok

expand_commit_paths-AllApart_example :
    All IsRelative (folder ∷ [])
    × (length (folder ∷ []) ≡ length a_recipe.commit)
    × AllApart same_key (folder ∷ [])
expand_commit_paths-AllApart_example =
    expand_commit_paths-AllApart same_key a_recipe.commit a_plan.abi expanded

abbrev a_journal : Journal
a_journal = record {
  transaction_id = hex_32;
  abi = a_plan.abi;
  published = false;
  paths = record { path = folder; had_live = true; phase = backed_up; legacy = false } ∷ [];
}

validate_transaction_journal-journal_value_example :
    validate_transaction_journal same_key a_recipe (journal_value a_recipe a_journal) ≡ ok a_journal
validate_transaction_journal-journal_value_example =
    validate_transaction_journal-journal_value same_key a_recipe a_journal hex_32-ok abi-ok expanded
      (refl, tt)

validate_transaction_journal-paths_example :
    (expand_commit_paths same_key a_recipe.commit a_journal.abi ≡ ok (paths_of a_journal.paths))
    × (is_abi_text a_journal.abi ≡ true)
    × (is_hex_text 32 a_journal.transaction_id ≡ true)
validate_transaction_journal-paths_example =
    validate_transaction_journal-paths same_key a_recipe (journal_value a_recipe a_journal) (
      validate_transaction_journal-journal_value same_key a_recipe a_journal hex_32-ok abi-ok
        expanded (refl, tt))

marker_matches_recipe-marker_value_example :
    marker_matches_recipe same_key (marker_value a_recipe a_plan hex_32 7 hex_64 3) a_recipe
    ≡ ok true
marker_matches_recipe-marker_value_example =
    marker_matches_recipe-marker_value same_key a_recipe a_plan hex_32 7 hex_64 3 a_plan-IsMarkable
      hex_32-ok hex_64-ok refl

-- ===== src/Tests/Recipes.antt =====
-- The validation of recipes, on a small one.
use chrono_nextos.Prelude.{◌≡◌, refl, [], ◌∷◌, All}
use chrono_nextos.Prelude.Text.{Text, text_eq, codes, contains, split, starts_with, ends_in, join}
use chrono_nextos.Fault.{ok, err, recipe_error}
use chrono_nextos.Json.{Value, num, str, arr, obj, nil, cons, end, entry, is_abi_text}
use chrono_nextos.Paths.{validate_relative_path, has_unsafe_char, is_special_part, ends_unportably}
use chrono_nextos.Templates.{validate_template_fields, template_value, keys_overlap, paths_overlap}
use chrono_nextos.Candidates.{normalize_hash_list, normalize_crc_list, parse_magic}
use chrono_nextos.Specs.{validate_validation, validate_output_check, check_number}
use chrono_nextos.Specs.Returns.{Returns}
use chrono_nextos.Validation.{is_identifier, is_extension, is_mode, decimal}
use chrono_nextos.Validation.Input.{text_list}
use chrono_nextos.Validation.Document.{Contract, validate}
use chrono_nextos.Validation.Errors.{OnlyRaises}
use chrono_nextos.Validation.Errors.Parts.{validate-OnlyRaises}
use chrono_nextos.Validation.Accepted.{IsSound, validate-IsSound, validate-template_value}
use chrono_nextos.Tests.Inputs.{same_key}

abbrev one : Value → Value
one v = arr (cons v nil)

abbrev pub a_rule : Value
a_rule = obj (
    entry "id" (str (codes "lib")) (
      entry "source"
        (obj (
          entry "kind" (str (codes "entry"))
            (entry "patterns" (text_list (codes "lib/{abi}/libgame.so" ∷ [])) end)))
        (entry "destination" (str (codes "lib/{basename}")) (
          entry "validate" (obj (entry "min_size" (num 1) end))
            (entry "mode" (str (codes "755")) end)))))

abbrev pub a_document : Text → Value
a_document commit = obj (
    entry "schema" (num 1) (
      entry "id" (str (codes "game")) (
        entry "version" (num 3) (
          entry "extract" (one a_rule) (
            entry "commit" (text_list (codes "lib" ∷ commit ∷ []))
              (entry "abi_order" (text_list (codes "arm64-v8a" ∷ [])) end))))))

abbrev a_contract : Contract
a_contract = record {
  identifier = codes "game";
  version = codes "3";
  log = codes "nxextract.log";
  detail_log = codes "nxextract-detail.log";
  marker = codes ".nxextract-game.json";
  commit = codes "lib" ∷ codes "data/{abi}" ∷ [];
  rule_ids = codes "lib" ∷ [];
}

accepts_runs : validate same_key (a_document (codes "data/{abi}")) ≡ ok a_contract
unfolding validate text_eq contains split starts_with ends_in join has_unsafe_char is_special_part
    ends_unportably validate_relative_path validate_template_fields keys_overlap paths_overlap
    is_identifier is_extension is_mode decimal is_abi_text check_number normalize_hash_list
    normalize_crc_list parse_magic validate_validation validate_output_check
accepts_runs = refl

refuses_runs :
    (validate same_key (a_document (codes "LIB/../x")) ≡ err recipe_error)
    × (validate same_key (a_document (codes "lib/x")) ≡ err recipe_error)
    × (validate same_key (a_document (codes "nxextract.log")) ≡ err recipe_error)
    × (validate same_key (a_document (codes "{game}")) ≡ err recipe_error)
unfolding validate text_eq contains split starts_with ends_in join has_unsafe_char is_special_part
    ends_unportably validate_relative_path validate_template_fields keys_overlap paths_overlap
    is_identifier is_extension is_mode decimal is_abi_text check_number normalize_hash_list
    normalize_crc_list parse_magic validate_validation validate_output_check
refuses_runs = (refl, refl, refl, refl)

validate-OnlyRaises_example : OnlyRaises (validate same_key (a_document (codes "lib/x")))
validate-OnlyRaises_example = validate-OnlyRaises same_key (a_document (codes "lib/x"))

validate-IsSound_example : IsSound same_key a_contract
validate-IsSound_example = validate-IsSound same_key (a_document (codes "data/{abi}")) accepts_runs

validate-template_value_example :
    All (λ item. Returns (template_value item (codes "x86") [])) a_contract.commit
validate-template_value_example =
    validate-template_value same_key (a_document (codes "data/{abi}")) (codes "x86") accepts_runs

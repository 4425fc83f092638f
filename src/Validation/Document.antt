-- ===== src/Validation/Document.antt =====
-- `Recipe._validate` of nxextract/nxextract.py: the document as a whole.
use chrono_nextos.Prelude.{
  ℕ, ◌*◌, Bool, false, not, ◌&&◌, ◌||◌, List, [], ◌∷◌, ◌++◌, map, ltb, leb, length, any,
  if◌then◌else◌,
}
use chrono_nextos.Prelude.Text.{Text, text_eq, codes}
use chrono_nextos.Fault.{Result, ok, recipe_error, refuse, ◌>>=◌, ◌>>◌}
use chrono_nextos.Json.{
  Value, num, str, arr, obj, nil, Fields, end, get, as_object, as_text, as_list, is_null,
  equals_text, equals_number, is_abi_text,
}
use chrono_nextos.Recipe.{Recipe}
use chrono_nextos.Paths.{validate_relative_path}
use chrono_nextos.Marker.{is_natural}
use chrono_nextos.Templates.{validate_template_fields, abi_field, paths_overlap, any_overlap}
use chrono_nextos.Candidates.{lower}
use chrono_nextos.Specs.{replace_abi}
use chrono_nextos.Validation.{
  is_identifier, as_printed, strip, get_or, the, text_where, some_list, relative_path,
  distinct_texts,
}
use chrono_nextos.Validation.Input.{
  within, fields_of, validate_input_config, validate_container_contract,
}
use chrono_nextos.Validation.Rule.{validate_rules}
use chrono_nextos.Validation.Hooks.{check_outputs, validate_hooks}

-- The values that the validation reads and that `identifier`, `version`, `marker`, `detail_log` and the
-- readers of `log`, `commit` and `extract` read again.
pub record Contract : Type 0 where
  pub identifier : Text
  pub version : Text
  pub log : Text
  pub detail_log : Text
  pub marker : Text
  pub commit : List Text
  pub rule_ids : List Text

-- `DEFAULT_TERMINAL_RESULT`, `DEFAULT_DETAIL_LOG`, `DEFAULT_SAFETY_BYTES` and the workspace.
abbrev pub terminal_result : Text
terminal_result = codes "nxextract-result.json"

abbrev pub default_detail_log : Text
default_detail_log = codes "nxextract-detail.log"

abbrev pub default_safety_bytes : ℕ
default_safety_bytes = 128 * 1024 * 1024

abbrev pub private_workspace : Text
private_workspace = codes ".nxextract"

-- `".nxextract-%s.json" % identifier`
abbrev pub default_marker : Text → Text
default_marker identifier = codes ".nxextract-" ++ identifier ++ codes ".json"

abbrev pub is_version : Text → Bool
is_version s = leb 1 (length s) && leb (length s) 128 && not (any (λ c. ltb c 32) s)

abbrev pub is_title : Text → Bool
is_title s = not (text_eq (strip s) [])

-- One item of `commit`.
unfoldable pub check_commit_item : Value → Result Text
check_commit_item value = the (as_text value) >>= λ item.
    validate_template_fields item (abi_field ∷ []) >>= λ _.
    validate_relative_path (replace_abi item) false >>= λ _. ok item

unfoldable pub check_commit_items : List Value → Result (List Text)
unfolding check_commit_item
check_commit_items [] = ok []
check_commit_items (value ∷ values) =
    check_commit_item value >>= λ item. check_commit_items values >>= λ rest. ok (item ∷ rest)

-- `abi_order`, where it is not None.
unfoldable pub check_abi_order : Fields → Result (Unit {0})
unfolding distinct_texts
check_abi_order data_ =
    if is_null (get "abi_order" data_)
    then ok tt
    else (some_list (get "abi_order" data_) >>= λ order.
        distinct_texts is_abi_text lower [] order >>= λ _. ok tt)

-- The identity of a recipe: its id and its version, and a title that is no blank.
unfoldable pub validate_identity : Fields → Result (Text × Text)
validate_identity data_ = do
  refuse (not (equals_number (get "schema" data_) 1)) recipe_error
  identifier ← text_where is_identifier (get "id" data_)
  version ← the (as_printed (get "version" data_))
  refuse (not (is_version version)) recipe_error
  title ← text_where is_title (get_or "title" (str identifier) data_)
  ok (identifier, version)

-- The numbers of a recipe: the safety margin and the two delays, which are integers here:
-- `Value` has no fractions.
unfoldable pub validate_numbers : Fields → Result (Unit {0})
validate_numbers data_ = do
  space ← the (as_object (get_or "space" (obj end) data_))
  refuse (not (is_natural (get_or "safety_bytes" (num default_safety_bytes) space))) recipe_error
  refuse (not (within 0 300 (get_or "ui_success_seconds" (num 1) data_))) recipe_error
  refuse (not (within 0 300 (get_or "ui_error_seconds" (num 5) data_))) recipe_error

module _ (portable_path_key : Text → Text) where
  -- Whether a path overlaps one of the others; whether one of a list does so with a later one.
  abbrev pub overlaps_one : Text → List Text → Bool
  overlaps_one path others = any (paths_overlap portable_path_key path) others

  abbrev pub some_overlap : List Text → Bool
  some_overlap [] = false
  some_overlap (left ∷ rest) = overlaps_one left rest || some_overlap rest

  -- `commit`: its items, none of them over another one.
  unfoldable pub validate_commit : Value → Result (List Text)
  unfolding check_commit_items replace_abi any_overlap
  validate_commit value = do
    values ← some_list value
    normalized ← check_commit_items values
    refuse (any_overlap portable_path_key (map replace_abi normalized)) recipe_error
    ok normalized

  -- The overlap tests of the marker and the commit paths with what the program writes itself.
  unfoldable pub check_protected : Text → Text → Text → List Text → Result (Unit {0})
  check_protected marker log detail_log commit = do
    refuse (paths_overlap portable_path_key marker log) recipe_error
    refuse
        (any
          (λ item.
            overlaps_one (replace_abi item)
              (private_workspace ∷ marker ∷ log ∷ detail_log ∷ terminal_result ∷ []))
          commit)
        recipe_error
    refuse
        (any (λ path. paths_overlap portable_path_key path private_workspace)
          (marker ∷ log ∷ detail_log ∷ terminal_result ∷ []))
        recipe_error
    refuse (overlaps_one marker (log ∷ detail_log ∷ terminal_result ∷ [])) recipe_error

  -- `log`, `detail_log` and `result`: the two logs.
  unfoldable pub validate_logs : Fields → Result (Text × Text)
  validate_logs data_ = do
    refuse (not (equals_text (get_or "result" (str terminal_result) data_) terminal_result))
        recipe_error
    log ← relative_path (get_or "log" (str (codes "nxextract.log")) data_)
    detail_log ← relative_path (get_or "detail_log" (str default_detail_log) data_)
    result ← validate_relative_path terminal_result false
    refuse (ltb 512 (length log) || ltb 512 (length detail_log)) recipe_error
    refuse (some_overlap (log ∷ detail_log ∷ terminal_result ∷ [])) recipe_error
    ok (log, detail_log)

  unfoldable pub validate : Value → Result Contract
  unfolding validate_identity validate_input_config validate_numbers validate_logs validate_rules
      validate_container_contract validate_commit check_protected validate_hooks check_outputs
      check_abi_order
  validate value = do
    data_ ← the (as_object value)
    names ← validate_identity data_
    input_config ← the (as_object (get_or "input" (obj end) data_))
    validate_input_config portable_path_key input_config
    validate_numbers data_
    logs ← validate_logs data_
    rules ← some_list (get "extract" data_)
    refuse (ltb 256 (length rules)) recipe_error
    rule_ids ← validate_rules portable_path_key [] rules
    validate_container_contract input_config (map fields_of rules)
    commit ← validate_commit (get "commit" data_)
    marker ← relative_path (get_or "marker" (str (default_marker names.0)) data_)
    check_protected marker logs.0 logs.1 commit
    hooks ← the (as_list (get_or "hooks" (arr nil) data_))
    validate_hooks portable_path_key [] hooks
    checks ← the (as_list (get_or "validate" (arr nil) data_))
    check_outputs portable_path_key checks
    check_abi_order data_
    ok (record {
      identifier = names.0;
      version = names.1;
      log = logs.0;
      detail_log = logs.1;
      marker = marker;
      commit = commit;
      rule_ids = rule_ids;
    })

  -- `Recipe.__init__` on a document that has been read; `digest` is `sha256_bytes(canonical_json(v))`.
  unfoldable pub load_recipe : (Value → Text) → Value → Result Recipe
  unfolding validate
  load_recipe digest value = validate value >>= λ contract. ok (record {
    identifier = contract.identifier;
    version = contract.version;
    digest = digest value;
    commit = contract.commit;
    rule_ids = contract.rule_ids;
  })

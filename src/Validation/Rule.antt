-- ===== src/Validation/Rule.antt =====
-- `Recipe._validate_rule` of nxextract/nxextract.py.
use chrono_nextos.Prelude.{ℕ, Bool, true, false, not, ◌||◌, List, [], ◌∷◌, ◌++◌, any, if◌then◌else◌}
use chrono_nextos.Prelude.Text.{Text, text_eq, codes, starts_with}
use chrono_nextos.Fault.{Result, ok, recipe_error, refuse, ◌>>=◌, ◌>>◌}
use chrono_nextos.Json.{
  Value, arr, obj, nil, Fields, end, get, has_key, as_object, as_text, as_list, is_null,
}
use chrono_nextos.Paths.{validate_relative_path}
use chrono_nextos.Templates.{validate_template_fields, abi_field, basename_field}
use chrono_nextos.Specs.{validate_validation, replace_abi}
use chrono_nextos.Validation.{
  is_identifier, is_extension, is_split_name, is_mode, as_printed, get_or, the, text_where,
  some_list, boolean_if_there, distinct_texts,
}
use chrono_nextos.Validation.Input.{text_list}

-- Kinds that select one file, and all kinds.
abbrev pub single_kinds : List Text
single_kinds = codes "entry" ∷ codes "file" ∷ codes "entry_or_file" ∷ codes "container" ∷ []

abbrev pub kinds : List Text
kinds = codes "entries" ∷ single_kinds

-- `isinstance(item, str) and item`
abbrev pub is_some_text : Text → Bool
is_some_text s = not (text_eq s [])

-- `all(isinstance(item, str) and item for item in values)`, with the texts.
unfoldable pub some_texts : List Value → Result (List Text)
some_texts [] = ok []
some_texts (value ∷ values) =
    text_where is_some_text value >>= λ s. some_texts values >>= λ rest. ok (s ∷ rest)

-- `validate_template_fields` of every value.
unfoldable pub check_templates : List Text → List Text → Result (Unit {0})
check_templates allowed [] = ok tt
check_templates allowed (value ∷ values) =
    validate_template_fields value allowed >> check_templates allowed values

abbrev pub is_scope : Text → Bool
is_scope s = text_eq s (codes "apk") || text_eq s (codes "bundle")

abbrev pub same_text : Text → Text
same_text s = s

-- The loop over `file_extensions`.
unfoldable pub check_extensions : List Value → Result (Unit {0})
check_extensions [] = ok tt
check_extensions (extension ∷ extensions) =
    text_where is_extension extension >>= λ _. check_extensions extensions

-- `value.replace("{basename}", "FILE")`: `skip` characters of the last match are left to pass over.
basename_loop : ℕ → Text → Text
basename_loop skip [] = []
basename_loop (ℕ.suc skip) (c ∷ s) = basename_loop skip s
basename_loop ℕ.zero (c ∷ s) = elim (starts_with (c ∷ s) (codes "{basename}")) [
  | true ↦ codes "FILE" ++ basename_loop 9 s
  | false ↦ c ∷ basename_loop 0 s
]

unfoldable pub replace_basename : Text → Text
unfolding basename_loop
replace_basename = basename_loop 0

-- The destination of a rule that selects one file, and of one that selects a tree.
unfoldable pub check_destination : Bool → Text → Result Text
unfolding replace_basename
check_destination single destination =
    validate_template_fields destination
      (if single then abi_field ∷ basename_field ∷ [] else abi_field ∷ [])
    >> validate_relative_path
        (if single then replace_basename (replace_abi destination) else replace_abi destination)
        false

-- `source.get("strip_prefix")`, where it is not None.
unfoldable pub check_strip_prefix : Value → Result (Unit {0})
check_strip_prefix value =
    if is_null value
    then ok tt
    else (the (as_text value) >>= λ s. validate_template_fields s (abi_field ∷ []))

-- `source["split"]`, where it is there.
unfoldable pub check_split : Text → Fields → Result (Unit {0})
check_split kind source =
    if has_key "split" source
    then (refuse (not (text_eq kind (codes "container"))) recipe_error
        >> (text_where is_split_name (get "split" source) >>= λ _. ok tt))
    else ok tt

-- `rule["mode"]`, where it is there.
unfoldable pub check_mode : Fields → Result (Unit {0})
check_mode rule =
    if has_key "mode" rule
    then (the (as_printed (get "mode" rule)) >>= λ s. refuse (not (is_mode s)) recipe_error)
    else ok tt

-- The `source` of a rule: its kind, once its patterns, scopes and extensions have been accepted.
unfoldable pub check_source : Fields → Result Text
unfolding some_texts check_templates distinct_texts check_extensions
check_source source = do
  kind ← text_where (λ s. any (text_eq s) kinds) (get "kind" source)
  patterns ← some_list (get_or "patterns" (text_list (codes "*" ∷ [])) source)
  texts ← some_texts patterns
  check_templates (abi_field ∷ []) texts
  scopes ← some_list (get_or "scopes" (text_list (codes "apk" ∷ codes "bundle" ∷ [])) source)
  distinct ← distinct_texts is_scope same_text [] scopes
  extensions ← the (as_list (get_or "file_extensions" (arr nil) source))
  check_extensions extensions
  boolean_if_there "case_sensitive" source
  boolean_if_there "flatten" source
  ok kind

module _ (portable_path_key : Text → Text) where
  -- What follows the rule's id: its source, destination, validation and mode.
  unfoldable pub check_rule : Fields → Result (Unit {0})
  unfolding check_source check_destination check_strip_prefix check_split check_mode
      validate_validation
  check_rule rule = do
    source ← the (as_object (get "source" rule))
    kind ← check_source source
    boolean_if_there "required" rule
    destination ← text_where is_some_text (get "destination" rule)
    path ← check_destination (any (text_eq kind) single_kinds) destination
    check_strip_prefix (get "strip_prefix" source)
    check_split kind source
    validation ← the (as_object (get_or "validate" (obj end) rule))
    validate_validation portable_path_key validation
    check_mode rule

  -- The rule's id, once the rule has been accepted; `seen` holds the ids of the rules before it.
  unfoldable pub validate_rule : List Text → Value → Result Text
  unfolding check_rule
  validate_rule seen value = do
    rule ← the (as_object value)
    rule_id ← text_where is_identifier (get "id" rule)
    refuse (any (text_eq rule_id) seen) recipe_error
    check_rule rule
    ok rule_id

  -- The loop over the rules, with their ids.
  unfoldable pub validate_rules : List Text → List Value → Result (List Text)
  unfolding validate_rule
  validate_rules seen [] = ok []
  validate_rules seen (value ∷ values) = validate_rule seen value >>= λ rule_id.
      validate_rules (rule_id ∷ seen) values >>= λ rest. ok (rule_id ∷ rest)

-- ===== src/Validation/Errors/Parts.antt =====
-- What the parts of `Recipe._validate` raise, and the whole.
use chrono_nextos.Prelude.{ℕ, String, Bool, not, List, [], ◌∷◌, if◌then◌else◌}
use chrono_nextos.Prelude.Text.{Text, codes}
use chrono_nextos.Fault.{ok, recipe_error, refuse}
use chrono_nextos.Json.{Value, Fields, end, entry, as_text}
use chrono_nextos.Templates.{validate_template_fields}
use chrono_nextos.Specs.{validate_output_check}
use chrono_nextos.Validation.{is_extension, is_variable_name, text_where, the}
use chrono_nextos.Validation.Input.{
  check_limits, check_directories, input_packages, validate_input_config, is_container,
  check_container, check_containers, validate_container_contract,
}
use chrono_nextos.Validation.Rule.{
  is_some_text, some_texts, check_templates, check_extensions, check_destination,
  check_strip_prefix, check_split, check_mode, check_source, check_rule, validate_rule,
  validate_rules,
}
use chrono_nextos.Validation.Hooks.{
  environment_values, check_outputs, validate_hook, validate_hooks,
}
use chrono_nextos.Validation.Document.{
  check_commit_item, check_commit_items, check_abi_order, validate_commit, check_protected,
  validate_logs, validate_identity, validate_numbers, validate,
}
use chrono_nextos.Validation.Errors.{
  OnlyRaises, OnlyRaises-bind, OnlyRaises-the, OnlyRaises-refuse, raises,
  validate_relative_path-OnlyRaises, validate_template_fields-OnlyRaises, text_where-OnlyRaises,
  some_list-OnlyRaises, boolean_if_there-OnlyRaises, relative_path-OnlyRaises,
  distinct_texts-OnlyRaises,
}
use chrono_nextos.Validation.Errors.Specs.{
  normalize_hash_list-OnlyRaises, normalize_crc_list-OnlyRaises, validate_validation-OnlyRaises,
  validate_output_check-OnlyRaises,
}

ruleset readings = (
  raises, validate_relative_path-OnlyRaises, validate_template_fields-OnlyRaises,
  text_where-OnlyRaises, some_list-OnlyRaises, boolean_if_there-OnlyRaises,
  relative_path-OnlyRaises, distinct_texts-OnlyRaises,
)

check_limits-OnlyRaises :
    (ls : List (String × ℕ × ℕ)) (config : Fields) → OnlyRaises (check_limits ls config)
unfolding check_limits
check_limits-OnlyRaises [] config = search raises
check_limits-OnlyRaises ((name, low, high) ∷ more) config =
    OnlyRaises-bind (refuse _ recipe_error) _ (OnlyRaises-refuse _)
      (λ _. check_limits-OnlyRaises more config)

check_container-OnlyRaises : (rule : Fields) → OnlyRaises (check_container rule)
unfolding check_container
check_container-OnlyRaises rule =
    search (raises, normalize_hash_list-OnlyRaises, normalize_crc_list-OnlyRaises) depth 20

check_containers-OnlyRaises : (rules : List Fields) → OnlyRaises (check_containers rules)
unfolding check_containers
check_containers-OnlyRaises [] = search raises
check_containers-OnlyRaises (rule ∷ rules) =
    OnlyRaises-bind (if is_container rule then check_container rule else ok tt) _
      (search (raises, check_container-OnlyRaises)) (λ _. check_containers-OnlyRaises rules)

validate_container_contract-OnlyRaises :
    (config : Fields) (rules : List Fields) → OnlyRaises (validate_container_contract config rules)
unfolding validate_container_contract
validate_container_contract-OnlyRaises config rules = search (raises, check_containers-OnlyRaises)

some_texts-OnlyRaises : (values : List Value) → OnlyRaises (some_texts values)
unfolding some_texts
some_texts-OnlyRaises [] = search raises
some_texts-OnlyRaises (value ∷ values) =
    OnlyRaises-bind (text_where is_some_text value) _ (text_where-OnlyRaises _ value)
      (λ s. search (raises, some_texts-OnlyRaises values))

check_templates-OnlyRaises :
    (allowed values : List Text) → OnlyRaises (check_templates allowed values)
unfolding check_templates
check_templates-OnlyRaises allowed [] = search raises
check_templates-OnlyRaises allowed (value ∷ values) =
    OnlyRaises-bind (validate_template_fields value allowed) _
      (validate_template_fields-OnlyRaises value allowed)
      (λ _. check_templates-OnlyRaises allowed values)

check_extensions-OnlyRaises : (values : List Value) → OnlyRaises (check_extensions values)
unfolding check_extensions
check_extensions-OnlyRaises [] = search raises
check_extensions-OnlyRaises (value ∷ values) =
    OnlyRaises-bind (text_where is_extension value) _ (text_where-OnlyRaises _ value)
      (λ _. check_extensions-OnlyRaises values)

check_source-OnlyRaises : (source : Fields) → OnlyRaises (check_source source)
unfolding check_source
check_source-OnlyRaises source =
    search
      (readings, some_texts-OnlyRaises, check_templates-OnlyRaises, check_extensions-OnlyRaises)
      depth 40

check_destination-OnlyRaises :
    (single : Bool) (destination : Text) → OnlyRaises (check_destination single destination)
unfolding check_destination
check_destination-OnlyRaises single destination = search readings

check_strip_prefix-OnlyRaises : (value : Value) → OnlyRaises (check_strip_prefix value)
unfolding check_strip_prefix
check_strip_prefix-OnlyRaises value = search readings

check_split-OnlyRaises : (kind : Text) (source : Fields) → OnlyRaises (check_split kind source)
unfolding check_split
check_split-OnlyRaises kind source = search readings

check_mode-OnlyRaises : (rule : Fields) → OnlyRaises (check_mode rule)
unfolding check_mode
check_mode-OnlyRaises rule = search readings

environment_values-OnlyRaises : (fields : Fields) → OnlyRaises (environment_values fields)
unfolding environment_values
environment_values-OnlyRaises end = search raises
environment_values-OnlyRaises (entry key value rest) =
    let more : OnlyRaises (environment_values rest) = environment_values-OnlyRaises rest in
    OnlyRaises-bind (refuse (not (is_variable_name (codes key))) recipe_error) _
      (OnlyRaises-refuse _)
      (λ _. OnlyRaises-bind (the (as_text value)) _ (OnlyRaises-the _) (λ s. search (raises, more)))

check_commit_item-OnlyRaises : (value : Value) → OnlyRaises (check_commit_item value)
unfolding check_commit_item
check_commit_item-OnlyRaises value = search readings depth 20

check_commit_items-OnlyRaises : (values : List Value) → OnlyRaises (check_commit_items values)
unfolding check_commit_items
check_commit_items-OnlyRaises [] = search raises
check_commit_items-OnlyRaises (value ∷ values) =
    OnlyRaises-bind (check_commit_item value) _ (check_commit_item-OnlyRaises value)
      (λ item. search (raises, check_commit_items-OnlyRaises values))

check_abi_order-OnlyRaises : (fields : Fields) → OnlyRaises (check_abi_order fields)
unfolding check_abi_order
check_abi_order-OnlyRaises fields = search readings

validate_identity-OnlyRaises : (fields : Fields) → OnlyRaises (validate_identity fields)
unfolding validate_identity
validate_identity-OnlyRaises fields = search readings depth 20

validate_numbers-OnlyRaises : (fields : Fields) → OnlyRaises (validate_numbers fields)
unfolding validate_numbers
validate_numbers-OnlyRaises fields = search readings depth 20

module _ (portable_path_key : Text → Text) where
  check_directories-OnlyRaises :
      (seen : List Text) (values : List Value)
      → OnlyRaises (check_directories portable_path_key seen values)
  unfolding check_directories
  check_directories-OnlyRaises seen [] = search raises
  check_directories-OnlyRaises seen (value ∷ values) =
      let rest : (t : List Text) → OnlyRaises (check_directories portable_path_key t values) =
        λ t. check_directories-OnlyRaises t values in
      search (readings, rest) depth 20

  input_packages-OnlyRaises :
      (config : Fields) → OnlyRaises (input_packages portable_path_key config)
  unfolding input_packages
  input_packages-OnlyRaises config = search readings

  validate_input_config-OnlyRaises :
      (config : Fields) → OnlyRaises (validate_input_config portable_path_key config)
  unfolding validate_input_config
  validate_input_config-OnlyRaises config =
      search
        (readings, check_directories-OnlyRaises, input_packages-OnlyRaises, check_limits-OnlyRaises)
        depth 40

  check_rule-OnlyRaises : (rule : Fields) → OnlyRaises (check_rule portable_path_key rule)
  unfolding check_rule
  check_rule-OnlyRaises rule =
      search
        (
          readings, check_source-OnlyRaises, check_destination-OnlyRaises,
          check_strip_prefix-OnlyRaises, check_split-OnlyRaises, check_mode-OnlyRaises,
          validate_validation-OnlyRaises,
        )
        depth 40

  validate_rule-OnlyRaises :
      (seen : List Text) (value : Value) → OnlyRaises (validate_rule portable_path_key seen value)
  unfolding validate_rule
  validate_rule-OnlyRaises seen value = search (readings, check_rule-OnlyRaises) depth 20

  validate_rules-OnlyRaises :
      (seen : List Text) (values : List Value)
      → OnlyRaises (validate_rules portable_path_key seen values)
  unfolding validate_rules
  validate_rules-OnlyRaises seen [] = search raises
  validate_rules-OnlyRaises seen (value ∷ values) =
      let rest : (t : List Text) → OnlyRaises (validate_rules portable_path_key t values) =
        λ t. validate_rules-OnlyRaises t values in
      search (raises, validate_rule-OnlyRaises, rest)

  check_outputs-OnlyRaises :
      (values : List Value) → OnlyRaises (check_outputs portable_path_key values)
  unfolding check_outputs
  check_outputs-OnlyRaises [] = search raises
  check_outputs-OnlyRaises (value ∷ values) =
      OnlyRaises-bind (validate_output_check portable_path_key value) _
        (validate_output_check-OnlyRaises portable_path_key value)
        (λ _. check_outputs-OnlyRaises values)

  validate_hook-OnlyRaises :
      (seen : List Text) (value : Value) → OnlyRaises (validate_hook portable_path_key seen value)
  unfolding validate_hook
  validate_hook-OnlyRaises seen value =
      search
        (
          readings, some_texts-OnlyRaises, check_templates-OnlyRaises,
          environment_values-OnlyRaises, check_outputs-OnlyRaises,
        )
        depth 40

  validate_hooks-OnlyRaises :
      (seen : List Text) (values : List Value)
      → OnlyRaises (validate_hooks portable_path_key seen values)
  unfolding validate_hooks
  validate_hooks-OnlyRaises seen [] = search raises
  validate_hooks-OnlyRaises seen (value ∷ values) =
      let rest : (t : List Text) → OnlyRaises (validate_hooks portable_path_key t values) =
        λ t. validate_hooks-OnlyRaises t values in
      search (raises, validate_hook-OnlyRaises, rest)

  validate_commit-OnlyRaises :
      (value : Value) → OnlyRaises (validate_commit portable_path_key value)
  unfolding validate_commit
  validate_commit-OnlyRaises value = search (readings, check_commit_items-OnlyRaises)

  check_protected-OnlyRaises :
      (marker log detail_log : Text) (commit : List Text)
      → OnlyRaises (check_protected portable_path_key marker log detail_log commit)
  unfolding check_protected
  check_protected-OnlyRaises marker log detail_log commit = search raises depth 20

  validate_logs-OnlyRaises : (fields : Fields) → OnlyRaises (validate_logs portable_path_key fields)
  unfolding validate_logs
  validate_logs-OnlyRaises fields = search readings depth 20

  -- Whatever the document is, its validation raises no error but the recipe's own.
  pub validate-OnlyRaises : (value : Value) → OnlyRaises (validate portable_path_key value)
  unfolding validate
  validate-OnlyRaises value =
      search
        (
          readings, validate_identity-OnlyRaises, validate_numbers-OnlyRaises,
          validate_input_config-OnlyRaises, validate_logs-OnlyRaises, validate_rules-OnlyRaises,
          validate_container_contract-OnlyRaises, validate_commit-OnlyRaises,
          check_protected-OnlyRaises, validate_hooks-OnlyRaises, check_outputs-OnlyRaises,
          check_abi_order-OnlyRaises,
        )
        depth 60

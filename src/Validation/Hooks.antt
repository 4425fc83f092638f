-- ===== src/Validation/Hooks.antt =====
-- The loops over `hooks` and over `validate` in `Recipe._validate` of nxextract/nxextract.py.
use chrono_nextos.Prelude.{not, List, [], ◌∷◌, any}
use chrono_nextos.Prelude.Text.{Text, text_eq, codes}
use chrono_nextos.Fault.{Result, ok, recipe_error, refuse, ◌>>=◌, ◌>>◌}
use chrono_nextos.Json.{
  Value, str, arr, obj, nil, Fields, end, entry, get, as_object, as_text, as_list,
}
use chrono_nextos.Templates.{abi_field}
use chrono_nextos.Specs.{validate_output_check}
use chrono_nextos.Validation.{is_identifier, is_variable_name, get_or, the, text_where, some_list}
use chrono_nextos.Validation.Rule.{is_some_text, some_texts, check_templates}

-- The fields that a hook's texts may have.
abbrev pub hook_fields : List Text
hook_fields =
    codes "game_dir" ∷ codes "stage" ∷ codes "workspace" ∷ codes "recipe_dir" ∷ abi_field ∷ []

-- The values of `env`, whose keys are names of variables.
unfoldable pub environment_values : Fields → Result (List Text)
environment_values end = ok []
environment_values (entry key value rest) =
    refuse (not (is_variable_name (codes key))) recipe_error >>= λ _.
    the (as_text value) >>= λ s. environment_values rest >>= λ more. ok (s ∷ more)

module _ (portable_path_key : Text → Text) where
  -- The loop over the checks of a list.
  unfoldable pub check_outputs : List Value → Result (Unit {0})
  check_outputs [] = ok tt
  check_outputs (check ∷ checks) =
      validate_output_check portable_path_key check >> check_outputs checks

  -- The body of the loop, with the id of the hook.
  unfoldable pub validate_hook : List Text → Value → Result Text
  unfolding environment_values check_outputs some_texts check_templates
  validate_hook hook_ids value = do
    hook ← the (as_object value)
    hook_id ← text_where is_identifier (get "id" hook)
    refuse (any (text_eq hook_id) hook_ids) recipe_error
    argv ← some_list (get "argv" hook)
    texts ← some_texts argv
    check_templates hook_fields texts
    cwd ← text_where is_some_text (get_or "cwd" (str (codes "{game_dir}")) hook)
    check_templates hook_fields (cwd ∷ [])
    environment ← the (as_object (get_or "env" (obj end) hook))
    assigned ← environment_values environment
    check_templates hook_fields assigned
    checks ← the (as_list (get_or "checkpoint" (arr nil) hook))
    check_outputs checks
    ok hook_id

  unfoldable pub validate_hooks : List Text → List Value → Result (Unit {0})
  unfolding validate_hook
  validate_hooks hook_ids [] = ok tt
  validate_hooks hook_ids (hook ∷ hooks) =
      validate_hook hook_ids hook >>= λ hook_id. validate_hooks (hook_id ∷ hook_ids) hooks

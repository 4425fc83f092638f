-- ===== src/Validation/Input.antt =====
-- `Recipe._validate_input_config` and `Recipe._validate_container_contract` of nxextract/nxextract.py.
use chrono_nextos.Prelude.{
  ℕ, String, ◌^◌, Bool, false, not, ◌&&◌, none, some, List, [], ◌∷◌, map, leb, ◌==◌, any,
  if◌then◌else◌,
}
use chrono_nextos.Prelude.Text.{Text, text_eq, codes}
use chrono_nextos.Fault.{Result, ok, recipe_error, refuse, ◌>>=◌, ◌>>◌}
use chrono_nextos.Json.{
  Value, num, str, arr, obj, Fields, end, get, has_key, as_object, as_text, equals_text, list_value,
}
use chrono_nextos.Paths.{dot, validate_relative_path}
use chrono_nextos.Candidates.{lower, normalize_hash_list, normalize_crc_list}
use chrono_nextos.Validation.{
  is_extension, is_package_name, get_or, truthy, the, some_list, boolean_if_there, distinct_texts,
}

-- `DEFAULT_EXTENSIONS`
abbrev pub default_extensions : List Text
default_extensions =
    codes ".apk" ∷ codes ".apkm" ∷ codes ".apks" ∷ codes ".xapk" ∷ codes ".zip" ∷ codes ".obb" ∷ []

abbrev pub text_list : List Text → Value
text_list texts = arr (list_value (map str texts))

-- The name of a limit with its least and its greatest value.
abbrev pub limits : List (String × ℕ × ℕ)
limits =
    ("max_files", 1, 4096)
    ∷ ("max_bundle_apks", 1, 4096)
    ∷ ("max_member_bytes", 1, 2 ^ 50)
    ∷ ("max_bundle_bytes", 1, 2 ^ 50)
    ∷ []

abbrev pub within : ℕ → ℕ → Value → Bool
within low high (num n) = leb low n && leb n high
within low high _ = false

-- The loop over `limits.items()`.
unfoldable pub check_limits : List (String × ℕ × ℕ) → Fields → Result (Unit {0})
check_limits [] config = ok tt
check_limits ((name, low, high) ∷ more) config =
    refuse (has_key name config && not (within low high (get name config))) recipe_error
    >> check_limits more config

module _ (portable_path_key : Text → Text) where
  -- The loop over `search_dirs`.
  unfoldable pub check_directories : List Text → List Value → Result (Unit {0})
  check_directories seen [] = ok tt
  check_directories seen (directory ∷ more) = the (as_text directory) >>= λ s.
      (if text_eq s dot then ok s else validate_relative_path s false) >>= λ _.
      refuse (any (text_eq (portable_path_key s)) seen) recipe_error >>= λ _.
      check_directories (portable_path_key s ∷ seen) more

  -- The texts of `packages`, where the key is there.
  unfoldable pub input_packages : Fields → Result (List Text)
  unfolding distinct_texts is_package_name
  input_packages config =
      if has_key "packages" config
      then (some_list (get "packages" config) >>= distinct_texts is_package_name lower [])
      else ok []

  unfoldable pub validate_input_config : Fields → Result (Unit {0})
  unfolding distinct_texts is_extension check_directories check_limits input_packages
  validate_input_config config = do
    extensions ← some_list (get_or "extensions" (text_list default_extensions) config)
    texts ← distinct_texts is_extension lower [] extensions
    search_dirs ←
        some_list (get_or "search_dirs" (text_list (codes "gamedata" ∷ codes "." ∷ [])) config)
    check_directories [] search_dirs
    boolean_if_there "prefer_first_nonempty" config
    boolean_if_there "sniff_all_in_primary" config
    check_limits limits config
    packages ← input_packages config
    ok tt

-- `rule["source"]["kind"] == "container"`, of a rule that has passed its validation.
abbrev pub fields_of : Value → Fields
fields_of value = elim (as_object value) [ none ↦ end | some fields ↦ fields ]

abbrev pub is_container : Fields → Bool
is_container rule = equals_text (get "kind" (fields_of (get "source" rule))) (codes "container")

-- `rule.get("validate", {})`
abbrev pub validation_of : Fields → Fields
validation_of rule = fields_of (get_or "validate" (obj end) rule)

-- `xs and len(set(xs)) < 2`: all the elements are one.
abbrev pub single_text : List Text → Bool
single_text [] = false
single_text (x ∷ xs) = not (any (λ y. not (text_eq x y)) xs)

abbrev pub single_number : List ℕ → Bool
single_number [] = false
single_number (x ∷ xs) = not (any (λ y. not (x == y)) xs)

-- The body of the loop over the containers.
unfoldable pub check_container : Fields → Result (Unit {0})
check_container rule = do
  hashes ← normalize_hash_list (get "sha256" (validation_of rule))
  refuse (single_text hashes) recipe_error
  crcs ← normalize_crc_list (get "crc32" (validation_of rule))
  refuse (single_number crcs) recipe_error
  refuse (has_key "size" (validation_of rule)) recipe_error

unfoldable pub check_containers : List Fields → Result (Unit {0})
unfolding check_container
check_containers [] = ok tt
check_containers (rule ∷ rules) =
    (if is_container rule then check_container rule else ok tt) >> check_containers rules

unfoldable pub validate_container_contract : Fields → List Fields → Result (Unit {0})
unfolding check_containers
validate_container_contract input_config rules =
    if any is_container rules
    then (refuse (not (truthy (get "packages" input_config))) recipe_error
        >> check_containers rules)
    else ok tt

-- ===== src/Specs.antt =====
-- `Recipe._validate_validation` and `Recipe._validate_output_check` of nxextract/nxextract.py: what a
-- recipe may ask of a file or of a tree.
pub mod Returns
pub mod Total
use chrono_nextos.Prelude.{
  ℕ, zero, suc, ◌≡◌, refl, String, Bool, true, false, not, ◌&&◌, ◌||◌, Option, none, some, List, [],
  ◌∷◌, ltb, length, any, all, ◌==◌, if◌then◌else◌, ◌++◌,
}
use chrono_nextos.Prelude.Text.{Text, text_eq, codes, starts_with}
use chrono_nextos.Fault.{Result, ok, err, recipe_error, other, refuse, ◌>>=◌, ◌>>◌}
use chrono_nextos.Json.{
  Value, Fields, get, has_key, as_object, as_text, as_list, is_null, equals_text, equals_number,
}
use chrono_nextos.Paths.{validate_relative_path}
use chrono_nextos.Marker.{is_natural}
use chrono_nextos.Templates.{validate_template_fields, abi_field}
use chrono_nextos.Candidates.{normalize_hash_list, normalize_crc_list, parse_magic, is_hex, lower}
use chrono_nextos.Candidates.Checks.{below, get_either, elf_machines, machine_of}

-- The body of the first loop: Booleans and negative numbers are refused.
unfoldable pub check_number : Fields → String → Result (Unit {0})
check_number spec key = refuse (has_key key spec && not (is_natural (get key spec))) recipe_error

abbrev pub check_numbers : Fields → List String → Result (Unit {0})
check_numbers spec [] = ok tt
check_numbers spec (key ∷ keys) = check_number spec key >> check_numbers spec keys

abbrev pub number_keys : List String
number_keys =
    "size" ∷ "min_size" ∷ "max_size" ∷ "exact_files" ∷ "min_files" ∷ "max_files" ∷ "exact_bytes"
    ∷ "min_bytes" ∷ "max_bytes" ∷ "exact_entries" ∷ "min_entries" ∷ "max_entries" ∷ "magic_offset"
    ∷ []

-- `a != b`. The loop above has left natural numbers only: values that are neither numbers, texts nor
-- `None` are taken to be different.
abbrev pub differ : Value → Value → Bool
differ a (Value.num n) = not (equals_number a n)
differ a (Value.str s) = not (equals_text a s)
differ a Value.null = not (is_null a)
differ a b = true

-- `canonical in spec and alias in spec and spec[canonical] != spec[alias]`
abbrev pub aliases_differ : String → String → Fields → Bool
aliases_differ canonical alias spec =
    has_key canonical spec && has_key alias spec && differ (get canonical spec) (get alias spec)

-- `a < b` of two numbers, of which `True` and `False` are two; any other value is a `TypeError`.
abbrev pub less : Value → Value → Result Bool
less (Value.num n) b = below n b
less (Value.bool true) b = below 1 b
less (Value.bool false) b = below 0 b
less (Value.negative n) (Value.num m) = ok true
less (Value.negative n) (Value.bool c) = ok true
less (Value.negative n) (Value.negative m) = ok (ltb m n)
less _ _ = err other

-- `a and b` and `a or b` of tests that may raise: the second one is made where the first asks for it.
abbrev pub and_also : Bool → Result Bool → Result Bool
and_also false test = ok false
and_also true test = test

abbrev pub either : Result Bool → Result Bool → Result Bool
either (ok true) test = ok true
either (ok false) test = test
either (err e) test = err e

-- An exact number, a least and a greatest one that exclude each other, each with the test whether it
-- is given.
abbrev pub check_bounds : Bool → Value → Bool → Value → Bool → Value → Result (Unit {0})
check_bounds has_exact exact has_minimum minimum has_maximum maximum =
    and_also has_exact (
      either (and_also has_minimum (less exact minimum))
        (and_also has_maximum (less maximum exact)))
    >>= λ wrong.
        refuse wrong recipe_error
        >> (and_also has_minimum (and_also has_maximum (less maximum minimum)) >>= λ crossed.
            refuse crossed recipe_error)

abbrev pub count_bounds : Fields → Result (Unit {0})
count_bounds spec =
    check_bounds (not (is_null (get_either "exact_files" "exact_entries" spec)))
      (get_either "exact_files" "exact_entries" spec)
      (not (is_null (get_either "min_files" "min_entries" spec)))
      (get_either "min_files" "min_entries" spec)
      (not (is_null (get_either "max_files" "max_entries" spec)))
      (get_either "max_files" "max_entries" spec)

abbrev pub size_bounds : Fields → Result (Unit {0})
size_bounds spec =
    check_bounds (has_key "size" spec) (get "size" spec) (has_key "min_size" spec)
      (get "min_size" spec) (has_key "max_size" spec) (get "max_size" spec)

abbrev pub file_types : List Text
file_types = codes "file" ∷ codes "tree" ∷ codes "directory" ∷ []

abbrev pub is_fingerprint : Value → Bool
is_fingerprint value =
    is_null value
    || elim (as_text value) [ none ↦ false | some s ↦ (length s == 64) && all is_hex s ]

abbrev pub is_machine : Text → List (Text × ℕ) → Bool
is_machine name [] = false
is_machine name ((key, machine) ∷ more) = text_eq name key || is_machine name more

-- A value that is no text is no machine's name.
unfoldable pub machine_known : Value → Bool
machine_known value = elim (as_text value) [
  | none ↦ false
  | some machine ↦
      text_eq (lower machine) (codes "{abi}") || is_machine (lower machine) elf_machines
]

-- `check["path"].replace("{abi}", "ABI")`
-- `skip` characters of the last match are left to pass over.
replace_loop : ℕ → Text → Text
replace_loop skip [] = []
replace_loop (suc skip) (c ∷ s) = replace_loop skip s
replace_loop zero (c ∷ s) = elim (starts_with (c ∷ s) (codes "{abi}")) [
  | true ↦ codes "ABI" ++ replace_loop 4 s
  | false ↦ c ∷ replace_loop 0 s
]

unfoldable pub replace_abi : Text → Text
unfolding replace_loop
replace_abi = replace_loop 0

replace_runs : replace_abi (codes "a{abi}b{abi}") ≡ codes "aABIbABI"
unfolding replace_abi starts_with
replace_runs = refl

module _ (portable_path_key : Text → Text) where
  -- The loop over `required_paths`.
  unfoldable pub check_required : List Text → List Value → Result (Unit {0})
  check_required required_keys [] = ok tt
  check_required required_keys (item ∷ items) = elim (as_text item) [
    | none ↦ err recipe_error
    | some path ↦ validate_relative_path path false >>= λ _.
        refuse (any (text_eq (portable_path_key path)) required_keys) recipe_error >>= λ _.
        check_required (portable_path_key path ∷ required_keys) items
  ]

  abbrev pub required_paths : Fields → Result (List Value)
  required_paths spec =
      if has_key "required_paths" spec
      then elim (as_list (get "required_paths" spec)) [
        | none ↦ err recipe_error
        | some items ↦ ok items
      ]
      else ok []

  unfoldable pub validate_validation : Fields → Result (Unit {0})
  unfolding check_number check_required machine_known
  validate_validation spec = do
    check_numbers spec number_keys
    refuse (aliases_differ "exact_files" "exact_entries" spec) recipe_error
    refuse (aliases_differ "min_files" "min_entries" spec) recipe_error
    refuse (aliases_differ "max_files" "max_entries" spec) recipe_error
    count_bounds spec
    size_bounds spec
    hashes ← normalize_hash_list (get "sha256" spec)
    crcs ← normalize_crc_list (get "crc32" spec)
    magic ← parse_magic spec
    refuse (not (is_null (get "type" spec) || any (equals_text (get "type" spec)) file_types))
        recipe_error
    refuse (not (is_fingerprint (get "tree_fingerprint" spec))) recipe_error
    refuse (has_key "elf_machine" spec && not (machine_known (get "elf_machine" spec))) recipe_error
    required ← required_paths spec
    check_required [] required

  unfoldable pub validate_output_check : Value → Result (Unit {0})
  unfolding validate_validation replace_abi
  validate_output_check value = elim (as_object value) [
    | none ↦ err recipe_error
    | some check ↦ elim (as_text (get "path" check)) [
      | none ↦ err recipe_error
      | some path ↦ validate_relative_path (replace_abi path) false >>= λ _.
          validate_template_fields path (abi_field ∷ []) >> validate_validation check
    ]
  ]

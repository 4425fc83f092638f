-- ===== src/Marker.antt =====
-- The installation marker of nxextract/nxextract.py: the document that publishes a transaction,
-- and `marker_matches_recipe`, which decides whether a stored document is one of this recipe.
pub mod Encode
pub mod Matches
use Prim.Native.Nat.{Ordering}
use chrono_nextos.Prelude.{
  ℕ, String, Bool, true, false, not, ◌&&◌, ◌||◌, Option, none, some, List, [], ◌∷◌, ◌++◌, ◌==◌, ltb,
  leb, length, any, all, if◌then◌else◌,
}
use chrono_nextos.Prelude.Text.{Text, text_eq, codes}
use chrono_nextos.Fault.{Fault, recipe_error, other, Result, ok, err, ◌>>=◌}
use chrono_nextos.Json.{
  Value, num, arr, obj, Fields, get, as_object, as_text, as_list, is_null, equals_text,
  equals_number, is_hex_text, is_abi_text,
}
use chrono_nextos.Recipe.{Recipe}
use chrono_nextos.Paths.{validate_relative_path}
use chrono_nextos.Templates.{expand_commit_paths, under_any_commit}
use chrono_nextos.Journal.{transaction_id_valid, format_version}

-- `NXEXTRACT_VERSION`
abbrev pub nxextract_version : Text
nxextract_version = codes "1.2.10"

-- `isinstance(v, int) and not isinstance(v, bool) and v >= 0`, with the number.
abbrev pub as_natural : Value → Option ℕ
as_natural (num n) = some n
as_natural _ = none

abbrev pub is_natural : Value → Bool
is_natural value = elim (as_natural value) [ none ↦ false | some n ↦ true ]

abbrev pub is_positive : Value → Bool
is_positive value = elim (as_natural value) [ none ↦ false | some n ↦ leb 1 n ]

-- `isinstance(v, str) and re.fullmatch(r"[0-9a-f]{n}", v)`
abbrev pub is_hex_value : ℕ → Value → Bool
is_hex_value n value = elim (as_text value) [ none ↦ false | some s ↦ is_hex_text n s ]

abbrev pub source_kinds : List Text
source_kinds = codes "apk-set" ∷ codes "bundle" ∷ codes "companion" ∷ codes "existing" ∷ []

abbrev pub is_one_of : Value → List Text → Bool
is_one_of value texts = any (equals_text value) texts

abbrev pub is_package_text : Text → Bool
is_package_text s =
    not (text_eq s []) && leb (length s) 255 && not (any (λ character. ltb character 32) s)

-- `package_id is None`, or a printable text of 1 to 255 characters.
unfoldable pub is_package : Value → Bool
is_package value =
    is_null value || elim (as_text value) [ none ↦ false | some s ↦ is_package_text s ]

-- `v == texts` for a list of texts.
unfoldable pub equals_texts : List Value → List Text → Bool
equals_texts [] [] = true
equals_texts [] (t ∷ ts) = false
equals_texts (v ∷ vs) [] = false
equals_texts (v ∷ vs) (t ∷ ts) = equals_text v t && equals_texts vs ts

abbrev pub equals_text_list : Value → List Text → Bool
equals_text_list value texts = elim (as_list value) [
  | none ↦ false
  | some vs ↦ equals_texts vs texts
]

-- The long condition, negated.
unfoldable pub header_matches : Recipe → List Text → Fields → Bool
unfolding is_package equals_texts
header_matches recipe expected_commit marker =
    equals_number (get "format" marker) format_version
    && equals_text (get "nxextract_version" marker) nxextract_version
    && equals_text (get "recipe_id" marker) recipe.identifier
    && equals_text (get "recipe_version" marker) recipe.version
    && equals_text (get "recipe_digest" marker) recipe.digest
    && transaction_id_valid (get "transaction_id" marker)
    && is_natural (get "completed" marker)
    && is_hex_value 64 (get "plan_fingerprint" marker)
    && is_hex_value 64 (get "payload_seal" marker)
    && is_positive (get "payload_objects" marker)
    && equals_text_list (get "commit" marker) expected_commit
    && is_one_of (get "source_kind" marker) source_kinds
    && is_package (get "package_id" marker)

abbrev pub is_ok {ℓ} : {A : Type ℓ} → Result A → Bool
is_ok (ok a) = true
is_ok (err e) = false

-- `(rule, key) in seen`
abbrev pub is_seen : Text → Text → List (Text × Text) → Bool
is_seen rule key [] = false
is_seen rule key ((r, k) ∷ seen) = (text_eq rule r && text_eq key k) || is_seen rule key seen

-- `item.get("rule") not in rule_ids` of what is no text: a list or an object has no hash, which is a
-- `TypeError`, and any other value is no rule.
abbrev pub no_rule {ℓ} : {A : Type ℓ} → Value → Result (Option A)
no_rule (arr values) = err other
no_rule (obj fields) = err other
no_rule _ = ok none

-- `if key in seen: return False`
abbrev pub unless_seen : Bool → Result Bool → Result Bool
unless_seen true rest = ok false
unless_seen false rest = rest

-- `except RecipeError: return False`
abbrev pub recipe_error_as_false : Fault → Result Bool
recipe_error_as_false recipe_error = ok false
recipe_error_as_false e = err e

module _ (portable_path_key : Text → Text) where
  -- The checks on one element of `items`: its rule and destination, or `none` for `return False`.
  unfoldable pub item_key : Recipe → List Text → Value → Result (Option (Text × Text))
  item_key recipe expected_commit value = elim (as_object value) [
    | none ↦ ok none
    | some item ↦ elim (as_text (get "rule" item)) [
      | none ↦ no_rule (get "rule" item)
      | some rule ↦ elim (as_text (get "destination" item)) [
        | none ↦ ok none
        | some destination ↦ ok (
            if any (text_eq rule) recipe.rule_ids
              && is_natural (get "size" item)
              && is_ok (validate_relative_path destination false)
              && under_any_commit destination expected_commit
            then some (rule, portable_path_key destination)
            else none)
      ]
    ]
  ]

  unfoldable pub items_match : Recipe → List Text → List (Text × Text) → List Value → Result Bool
  unfolding item_key
  items_match recipe expected_commit seen [] = ok true
  items_match recipe expected_commit seen (value ∷ values) =
      item_key recipe expected_commit value >>= λ found. elim found [
        | none ↦ ok false
        | some (rule, key) ↦
            unless_seen (is_seen rule key seen)
              (items_match recipe expected_commit ((rule, key) ∷ seen) values)
      ]

  unfoldable pub body_matches : Recipe → List Text → Fields → Result Bool
  unfolding header_matches items_match
  body_matches recipe expected_commit marker =
      if header_matches recipe expected_commit marker
      then elim (as_list (get "items" marker)) [
        | none ↦ ok false
        | some values ↦ items_match recipe expected_commit [] values
      ]
      else ok false

  unfoldable pub abi_matches : Recipe → Fields → Text → Result Bool
  unfolding body_matches
  abi_matches recipe marker abi =
      if is_abi_text abi
      then elim (expand_commit_paths portable_path_key recipe.commit abi) [
        | err e ↦ recipe_error_as_false e
        | ok expected_commit ↦ body_matches recipe expected_commit marker
      ]
      else ok false

  unfoldable pub marker_matches_recipe : Value → Recipe → Result Bool
  unfolding abi_matches
  marker_matches_recipe value recipe = elim (as_object value) [
    | none ↦ ok false
    | some marker ↦ elim (as_text (get "abi" marker)) [
      | none ↦ ok false
      | some abi ↦ abi_matches recipe marker abi
    ]
  ]

-- ===== src/Journal.antt =====
-- The transaction journal of nxextract/nxextract.py: the document that `commit_stage` writes and
-- `_validate_transaction_journal`, which reads it back after an interruption.
pub mod Encode
pub mod RoundTrip
pub mod Binding
use chrono_nextos.Prelude.{
  ℕ, String, Bool, true, false, not, ◌&&◌, Option, none, some, List, [], ◌∷◌, map, ◌==◌, length,
  if◌then◌else◌,
}
use chrono_nextos.Prelude.Text.{Text, text_eq, codes}
use chrono_nextos.Fault.{Fault, Result, ok, err, nx_error, refuse, ◌>>=◌, ◌>>◌}
use chrono_nextos.Json.{
  Value, Fields, get, as_object, as_text, as_bool, as_list, is_null, equals_text, equals_number,
  is_hex_text, is_abi_text,
}
use chrono_nextos.Recipe.{Recipe}
use chrono_nextos.Templates.{expand_commit_paths}

-- `FORMAT_VERSION` and `TRANSACTION_FORMAT_VERSION`.
abbrev pub format_version : ℕ
format_version = 1

abbrev pub transaction_format_version : ℕ
transaction_format_version = 2

pub data Phase : Type 0 where
  pending backup_intent backup_skipped backed_up install_intent installed : Phase

abbrev pub phase_name : Phase → Text
phase_name pending = codes "pending"
phase_name backup_intent = codes "backup-intent"
phase_name backup_skipped = codes "backup-skipped"
phase_name backed_up = codes "backed-up"
phase_name install_intent = codes "install-intent"
phase_name installed = codes "installed"

-- One element of `journal["paths"]`, as it is kept in memory.
pub record PathRecord : Type 0 where
  pub path : Text
  pub had_live : Bool
  pub phase : Phase
  pub legacy : Bool

pub record Journal : Type 0 where
  pub transaction_id : Text
  pub abi : Text
  pub published : Bool
  pub paths : List PathRecord

-- `raise NXError` where a value is not of the kind that is asked for.
abbrev pub demand {ℓ} : {A : Type ℓ} → Option A → Result A
demand none = err nx_error
demand (some a) = ok a

unfoldable pub transaction_id_valid : Value → Bool
transaction_id_valid value = elim (as_text value) [ none ↦ false | some s ↦ is_hex_text 32 s ]

-- `phase not in allowed_phases`
unfoldable pub phase_of : Value → Option Phase
phase_of value =
    if equals_text value (phase_name pending)
    then some pending
    else if equals_text value (phase_name backup_intent)
    then some backup_intent
    else if equals_text value (phase_name backup_skipped)
    then some backup_skipped
    else if equals_text value (phase_name backed_up)
    then some backed_up
    else if equals_text value (phase_name install_intent)
    then some install_intent
    else if equals_text value (phase_name installed)
    then some installed
    else none

-- The body of the loop over `zip(expected_paths, records)`.
unfoldable pub read_record : Text → Value → Result PathRecord
read_record expected value = do
  record_fields ← demand (as_object value)
  refuse (not (equals_text (get "path" record_fields) expected)) nx_error
  path ← demand (as_text (get "path" record_fields))
  had_live ← demand (as_bool (get "had_live" record_fields))
  phase ← demand (phase_of (get "phase" record_fields))
  ok (record { path = path; had_live = had_live; phase = phase; legacy = false })

-- The same for the journals of versions 1.2.0 to 1.2.5, which hold two booleans.
unfoldable pub read_legacy_record : Text → Value → Result PathRecord
read_legacy_record expected value = do
  record_fields ← demand (as_object value)
  refuse (not (equals_text (get "path" record_fields) expected)) nx_error
  backed ← demand (as_bool (get "backed_up" record_fields))
  done ← demand (as_bool (get "installed" record_fields))
  ok (record {
    path = expected;
    had_live = backed;
    phase = if done then installed else if backed then backed_up else pending;
    legacy = true;
  })

-- `zip` stops at the shorter list; the lengths have been compared before.
unfoldable pub read_records :
    (Text → Value → Result PathRecord) → List Text → List Value → Result (List PathRecord)
read_records read [] records = ok []
read_records read (expected ∷ more) [] = ok []
read_records read (expected ∷ more) (value ∷ records) =
    read expected value >>= λ item. read_records read more records >>= λ rest. ok (item ∷ rest)

unfoldable pub checked_abi : Value → Result Text
checked_abi value = do abi ← demand (as_text value); refuse (not (is_abi_text abi)) nx_error; ok abi

module _ (portable_path_key : Text → Text) where
  unfoldable pub read_paths : Recipe → Fields → List Text → List Value → Result (List PathRecord)
  unfolding read_records read_record read_legacy_record phase_of
  read_paths recipe journal expected records =
      if equals_number (get "transaction_format" journal) transaction_format_version
      then (do
        refuse (not (equals_text (get "recipe_id" journal) recipe.identifier)) nx_error
        read_records read_record expected records)
      else if is_null (get "transaction_format" journal)
      then read_records read_legacy_record expected records
      else err nx_error

  unfoldable pub validate_transaction_journal : Recipe → Value → Result Journal
  unfolding read_paths transaction_id_valid checked_abi
  validate_transaction_journal recipe value = do
    journal ← demand (as_object value)
    refuse (not (equals_number (get "format" journal) format_version)) nx_error
    refuse (not (transaction_id_valid (get "transaction_id" journal))) nx_error
    refuse (not (equals_text (get "recipe_digest" journal) recipe.digest)) nx_error
    abi ← checked_abi (get "abi" journal)
    expected ← expand_commit_paths portable_path_key recipe.commit abi
    records ← demand (as_list (get "paths" journal))
    refuse (not (length records == length expected)) nx_error
    published ← demand (as_bool (get "published" journal))
    paths ← read_paths recipe journal expected records
    transaction_id ← demand (as_text (get "transaction_id" journal))
    ok (record { transaction_id = transaction_id; abi = abi; published = published; paths = paths })

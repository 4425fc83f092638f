-- ===== src/Journal/RoundTrip.antt =====
-- The journals that a commit writes, as the recovery reads them.
use chrono_nextos.Prelude.{
  ◌≡◌, refl, ap, suc, some, true, false, List, [], ◌∷◌, map, length, arith, All, ◌==◌, ==_iff,
}
use chrono_nextos.Prelude.Text.{Text, text_eq, text_eq_refl}
use chrono_nextos.Fault.{ok}
use chrono_nextos.Json.{Value, items, list_value, is_hex_text, is_abi_text}
use chrono_nextos.Recipe.{Recipe}
use chrono_nextos.Templates.{expand_commit_paths}
use chrono_nextos.Journal.{
  Journal, PathRecord, Phase, pending, backup_intent, backup_skipped, backed_up, install_intent,
  installed, phase_name, phase_of, read_record, read_records, validate_transaction_journal,
}
use chrono_nextos.Journal.Encode.{record_value, journal_value}

pub items-list_value : (vs : List Value) → items (list_value vs) ≡ vs
items-list_value [] = refl
items-list_value (v ∷ vs) = ap (λ l. v ∷ l) (items-list_value vs)

length-map : (rs : List PathRecord) → length (map record_value rs) ≡ length (map (λ r. r.path) rs)
length-map [] = refl
length-map (r ∷ rs) = ap suc (length-map rs)

phase_of-name : (p : Phase) → phase_of (Value.str (phase_name p)) ≡ some p
unfolding phase_of text_eq
phase_of-name pending = refl
phase_of-name backup_intent = refl
phase_of-name backup_skipped = refl
phase_of-name backed_up = refl
phase_of-name install_intent = refl
phase_of-name installed = refl

read_record-value : (r : PathRecord) → r.legacy ≡ false → read_record r.path (record_value r) ≡ ok r
unfolding read_record record_value
read_record-value r h = rw (text_eq_refl r.path, phase_of-name r.phase) (ground arith)

read_records-value :
    (rs : List PathRecord)
    → All (λ r. r.legacy ≡ false) rs
    → read_records read_record (map (λ r. r.path) rs) (map record_value rs) ≡ ok rs
unfolding read_records
read_records-value [] h = refl
read_records-value (r ∷ rs) h = rw (read_record-value r h.0, read_records-value rs h.1)

-- A journal as a commit writes it, for the recipe's own commit paths, passes every check of the
-- recovery, which gets back all that was written.
pub validate_transaction_journal-journal_value :
    (portable_path_key : Text → Text) (recipe : Recipe) (journal : Journal)
    → is_hex_text 32 journal.transaction_id ≡ true
    → is_abi_text journal.abi ≡ true
    → expand_commit_paths portable_path_key recipe.commit journal.abi
      ≡ ok (map (λ r. r.path) journal.paths)
    → All (λ r. r.legacy ≡ false) journal.paths
    → validate_transaction_journal portable_path_key recipe (journal_value recipe journal)
      ≡ ok journal
unfolding validate_transaction_journal journal_value
validate_transaction_journal-journal_value key recipe journal id abi expand current = rw (
  id,
  text_eq_refl recipe.digest,
  abi,
  expand,
  items-list_value (map record_value journal.paths),
  same_length,
  text_eq_refl recipe.identifier,
  read_records-value journal.paths current,
)
  where
    same_length :
        (length (map record_value journal.paths) == length (map (λ r. r.path) journal.paths)) ≡ true
    same_length = (==_iff _ _).1 (length-map journal.paths)

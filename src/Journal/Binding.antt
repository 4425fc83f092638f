-- ===== src/Journal/Binding.antt =====
-- The paths that an accepted journal names.
use chrono_nextos.Prelude.{
  ◌≡◌, ap, ap₂, sym, ◌∙◌, true, not, List, [], ◌∷◌, map, length, arith, ◌==◌, ==_iff, Bool-cases,
  inl, inr,
}
use chrono_nextos.Prelude.Text.{Text, text_eq_iff}
use chrono_nextos.Fault.{Result, ok, nx_error, refuse, refuse-not-ok, ok-injective, >>=-eq-ok}
use chrono_nextos.Json.{
  Value, Fields, get, as_object, as_text, as_bool, as_list, equals_text, equals_number, is_null,
  is_hex_text, is_abi_text,
}
use chrono_nextos.Recipe.{Recipe}
use chrono_nextos.Templates.{expand_commit_paths}
use chrono_nextos.Journal.{
  Journal, PathRecord, demand, phase_of, read_record, read_legacy_record, read_records, read_paths,
  checked_abi, transaction_id_valid, validate_transaction_journal, transaction_format_version,
  format_version,
}

abbrev pub paths_of : List PathRecord → List Text
paths_of = map (λ r. r.path)

named_text :
    (value : Value) (expected path : Text)
    → equals_text value expected ≡ true
    → demand (as_text value) ≡ ok path
    → path ≡ expected
named_text (Value.str s) expected path same read =
    sym (ok-injective read) ∙ (text_eq_iff s expected).0 same
named_text Value.null expected path same read = cc
named_text (Value.bool b) expected path same read = cc
named_text (Value.num n) expected path same read = cc
named_text (Value.negative n) expected path same read = cc
named_text (Value.arr a) expected path same read = cc
named_text (Value.obj o) expected path same read = cc

path-read_record :
    (expected : Text) (value : Value) {item : PathRecord}
    → read_record expected value ≡ ok item
    → item.path ≡ expected
unfolding read_record
path-read_record expected value {item} h =
    let (record_fields, _, h1) = >>=-eq-ok (demand (as_object value)) _ h in
    let (_, same, h2) =
      >>=-eq-ok (refuse (not (equals_text (get "path" record_fields) expected)) nx_error) _ h1 in
    let (path, named, h3) = >>=-eq-ok (demand (as_text (get "path" record_fields))) _ h2 in
    let (had_live, _, h4) = >>=-eq-ok (demand (as_bool (get "had_live" record_fields))) _ h3 in
    let (phase, _, h5) = >>=-eq-ok (demand (phase_of (get "phase" record_fields))) _ h4 in
    let kept : path ≡ item.path = ap PathRecord.path (ok-injective h5) in
    sym kept ∙ named_text _ expected path (refuse-not-ok _ _ same) named

path-read_legacy_record :
    (expected : Text) (value : Value) {item : PathRecord}
    → read_legacy_record expected value ≡ ok item
    → item.path ≡ expected
unfolding read_legacy_record
path-read_legacy_record expected value h = ground arith

module _ (read : Text → Value → Result PathRecord)
    (keeps : (expected : Text) (value : Value) (item : PathRecord)
      → read expected value ≡ ok item
      → item.path ≡ expected) where
  paths-read_records :
      (expected : List Text) (records : List Value) {found : List PathRecord}
      → length records ≡ length expected
      → read_records read expected records ≡ ok found
      → paths_of found ≡ expected
  unfolding read_records
  paths-read_records [] records {found} l h = let e : [] ≡ found = cc in rw (← e)
  paths-read_records (p ∷ expected) [] l h = absurd (omega arith)
  paths-read_records (p ∷ expected) (value ∷ records) {found} l h =
      let (item, first, h1) = >>=-eq-ok (read p value) _ h in
      let (rest, more, h2) = >>=-eq-ok (read_records read expected records) _ h1 in
      let e : item ∷ rest ≡ found = cc in
      rw (← e) (
        ap₂ (λ (a : Text) (l : List Text). a ∷ l) (keeps p value item first)
          (paths-read_records expected records (omega arith) more))

id_of :
    (value : Value) (name : Text)
    → transaction_id_valid value ≡ true
    → demand (as_text value) ≡ ok name
    → is_hex_text 32 name ≡ true
unfolding transaction_id_valid
id_of value name valid text = ground arith

abi_of : (value : Value) {abi : Text} → checked_abi value ≡ ok abi → is_abi_text abi ≡ true
unfolding checked_abi
abi_of value h = ground arith

module _ (portable_path_key : Text → Text) where
  paths-read_paths :
      (recipe : Recipe) (journal : Fields) (expected : List Text) (records : List Value)
      {found : List PathRecord}
      → length records ≡ length expected
      → read_paths portable_path_key recipe journal expected records ≡ ok found
      → paths_of found ≡ expected
  unfolding read_paths
  paths-read_paths recipe journal expected records l h =
      elim (Bool-cases
        (equals_number (get "transaction_format" journal) transaction_format_version)) [
          | inl current ↦
              let (_, _, found) =
                >>=-eq-ok
                  (refuse (not (equals_text (get "recipe_id" journal) recipe.identifier)) nx_error)
                  (λ _. read_records read_record expected records) (rw current at h) in
              paths-read_records read_record (λ e v i. path-read_record e v) expected records l
                found
          | inr legacy ↦ elim (Bool-cases (is_null (get "transaction_format" journal))) [
            | inl absent ↦
                paths-read_records read_legacy_record (λ e v i. path-read_legacy_record e v)
                  expected records l (rw absent at (rw legacy at h))
            | inr present ↦ let no_way = rw present at (rw legacy at h) in cc
          ]
        ]

  -- An accepted journal has a valid ABI and transaction id, and its path records name, in order,
  -- exactly the commit paths that the recipe expands to for this ABI.
  pub validate_transaction_journal-paths :
      (recipe : Recipe) (value : Value) {journal : Journal}
      → validate_transaction_journal portable_path_key recipe value ≡ ok journal
      → (expand_commit_paths portable_path_key recipe.commit journal.abi
          ≡ ok (paths_of journal.paths))
        × (is_abi_text journal.abi ≡ true)
        × (is_hex_text 32 journal.transaction_id ≡ true)
  unfolding validate_transaction_journal
  validate_transaction_journal-paths recipe value {journal} h =
      let (fields, h0, h1) = >>=-eq-ok (demand (as_object value)) _ h in
      let (_, h2, h3) =
        >>=-eq-ok (refuse (not (equals_number (get "format" fields) format_version)) nx_error) _
          h1 in
      let (_, id, h4) =
        >>=-eq-ok (refuse (not (transaction_id_valid (get "transaction_id" fields))) nx_error) _
          h3 in
      let (_, h5, h6) =
        >>=-eq-ok (refuse (not (equals_text (get "recipe_digest" fields) recipe.digest)) nx_error) _
          h4 in
      let (abi, named, h7) = >>=-eq-ok (checked_abi (get "abi" fields)) _ h6 in
      let (expected, expanded, h8) =
        >>=-eq-ok (expand_commit_paths portable_path_key recipe.commit abi) _ h7 in
      let (records, h9, h10) = >>=-eq-ok (demand (as_list (get "paths" fields))) _ h8 in
      let (_, long, h11) =
        >>=-eq-ok (refuse (not (length records == length expected)) nx_error) _ h10 in
      let (published, h12, h13) = >>=-eq-ok (demand (as_bool (get "published" fields))) _ h11 in
      let (paths, found, h14) =
        >>=-eq-ok (read_paths portable_path_key recipe fields expected records) _ h13 in
      let (name, text, h15) = >>=-eq-ok (demand (as_text (get "transaction_id" fields))) _ h14 in
      let same : paths_of paths ≡ expected =
        paths-read_paths recipe fields expected records ((==_iff _ _).0 (refuse-not-ok _ _ long))
          found in
      let e : record { transaction_id = name; abi = abi; published = published; paths = paths }
          ≡ journal =
        ok-injective h15 in
      rw (← e) (
        rw same expanded,
        abi_of (get "abi" fields) named,
        id_of (get "transaction_id" fields) name (refuse-not-ok _ _ id) text,
      )

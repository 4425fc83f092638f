-- ===== src/Transaction/Recovery.antt =====
-- `recover_transaction` and `_finalize_published_transaction` of nxextract/nxextract.py.
use chrono_nextos.Prelude.{
  ℕ, Bool, true, false, ◌&&◌, Option, none, some, List, [], ◌∷◌, if◌then◌else◌,
}
use chrono_nextos.Prelude.Text.{Text}
use chrono_nextos.Fault.{Fault, recipe_error, nx_error, os_error, is_nx_error, Result, ok, err}
use chrono_nextos.Json.{Value, Fields, get, as_object, as_text, as_list, equals_text, equals_number}
use chrono_nextos.Recipe.{Recipe}
use chrono_nextos.Journal.{Journal, validate_transaction_journal}
use chrono_nextos.Marker.{marker_matches_recipe}
use chrono_nextos.Disk.{
  Area, absent, JournalFile, document, unreadable, unsafe, Disk, Event, World, Outcome, done,
  raised, cut, M, ◌>>=◌, ◌>>◌, pure, lift, reads, refused, unsynced, cut_before, cut_after, go,
}
use chrono_nextos.Transaction.{rollback_transaction, Payload}

-- `discard_path` of something at no commit path of the game directory: whether it is gone. An
-- `OSError` leaves it for the next run.
abbrev pub discarded : Event → (Disk → Disk) → Disk → List Event → Outcome Bool × World
discarded go f d rest = (done true, record { disk = f d; events = rest })
discarded (refused os_error) f d rest = (done false, record { disk = d; events = rest })
discarded (refused e) f d rest = (raised e, record { disk = d; events = rest })
discarded (unsynced os_error) f d rest = (done true, record { disk = f d; events = rest })
discarded (unsynced e) f d rest = (raised e, record { disk = f d; events = rest })
discarded cut_before f d rest = (cut, record { disk = d; events = rest })
discarded cut_after f d rest = (cut, record { disk = f d; events = rest })

abbrev pub discarded_next : List Event → (Disk → Disk) → Disk → Outcome Bool × World
discarded_next [] f d = (done true, record { disk = f d; events = [] })
discarded_next (event ∷ rest) f d = discarded event f d rest

unfoldable pub discard_path : (Disk → Disk) → M Bool
discard_path f w = discarded_next w.events f w.disk

abbrev pub drop_backup : Disk → Disk
drop_backup d = record d { backup = []; backup_root = absent }

abbrev pub drop_stage : Disk → Disk
drop_stage d = record d { stage = []; stage_root = absent }

abbrev pub drop_journal : Disk → Disk
drop_journal d = record d { journal = none }

unfoldable pub discard_journal : Bool → M Bool
unfolding discard_path
discard_journal true = discard_path drop_journal
discard_journal false = pure false

-- `_finalize_published_transaction`: whether the cleanup is complete. The cache of sources is a
-- third scratch directory, with nothing that is modelled in it. The closing `fsync` is not
-- required: its failure is ignored.
unfoldable pub finalize_published_transaction : M Bool
unfolding discard_path discard_journal
finalize_published_transaction = do
  backup_gone ← discard_path drop_backup
  stage_gone ← discard_path drop_stage
  cache_gone ← discard_path (λ d. d)
  discard_journal (backup_gone && stage_gone && cache_gone)

abbrev pub load_marker : Disk → Option Fields
load_marker d = elim d.marker [ none ↦ none | some value ↦ as_object value ]

-- `_load_json` and the checks before it.
abbrev pub load_journal : JournalFile → Result Value
load_journal (document value) = ok value
load_journal unreadable = err recipe_error
load_journal unsafe = err nx_error

abbrev pub texts_of : List Value → Option (List Text)
texts_of [] = some []
texts_of (v ∷ vs) = elim (as_text v) [
  | none ↦ none
  | some t ↦ elim (texts_of vs) [ none ↦ none | some ts ↦ some (t ∷ ts) ]
]

abbrev pub text_list : Value → Option (List Text)
text_list value = elim (as_list value) [ none ↦ none | some vs ↦ texts_of vs ]

module _ (portable_path_key : Text → Text) (recipe : Recipe) (payload : Payload) where
  -- `OSError` and `NXError`, which both handlers catch.
  abbrev pub catches : Fault → Bool
  catches os_error = true
  catches e = is_nx_error e

  -- The handler around the seal, and the comparison after it.
  abbrev pub same_seal : Result (Text × ℕ) → Fields → Result Bool
  same_seal (err e) marker = if catches e then ok false else err e
  same_seal (ok (actual_seal, actual_count)) marker = ok (
      equals_text (get "payload_seal" marker) actual_seal
      && equals_number (get "payload_objects" marker) actual_count)

  -- `marker_payload_seal_valid`. A marker without a list of texts is a `KeyError`, a `TypeError` or
  -- a `RecipeError`; any other error of the seal than those is raised.
  unfoldable pub marker_payload_seal_valid : Fields → Area → Result Bool
  unfolding is_nx_error
  marker_payload_seal_valid marker live = elim (text_list (get "commit" marker)) [
    | none ↦ ok false
    | some commit ↦ same_seal (payload.seal commit live) marker
  ]

  abbrev pub marker_abi : Fields → Text
  marker_abi marker = elim (as_text (get "abi" marker)) [ none ↦ [] | some abi ↦ abi ]

  -- `marker is not None and marker.get("transaction_id") == transaction_id`, then
  -- `marker_matches_recipe`, then the validation in `try`, which catches `OSError` and `NXError`.
  unfoldable pub outputs_published : Fields → Area → Result Bool
  unfolding marker_payload_seal_valid is_nx_error
  outputs_published marker live = elim (payload.check_outputs (marker_abi marker) live) [
    | err e ↦ if catches e then ok false else err e
    | ok _ ↦ marker_payload_seal_valid marker live
  ]

  unfoldable pub is_published : Journal → Option Fields → Area → Result Bool
  unfolding outputs_published
  is_published journal none live = ok false
  is_published journal (some marker) live =
      if equals_text (get "transaction_id" marker) journal.transaction_id
      then elim (marker_matches_recipe portable_path_key (Value.obj marker) recipe) [
        | err e ↦ err e
        | ok valid ↦ if valid then outputs_published marker live else ok false
      ]
      else ok false

  unfoldable pub resume : Journal → M (Unit {0})
  unfolding is_published rollback_transaction finalize_published_transaction
  resume journal = do
    marker ← reads load_marker
    live ← reads (λ d. d.live)
    published ← lift (is_published journal marker live)
    if published
        then (do finalize_published_transaction; pure tt)
        else rollback_transaction journal.paths

  unfoldable pub recover_file : Option JournalFile → M (Unit {0})
  unfolding resume
  recover_file none = pure tt
  recover_file (some file) = do
    value ← lift (load_journal file)
    journal ← lift (validate_transaction_journal portable_path_key recipe value)
    resume journal

  unfoldable pub recover_transaction : M (Unit {0})
  unfolding recover_file
  recover_transaction = do file ← reads (λ d. d.journal); recover_file file

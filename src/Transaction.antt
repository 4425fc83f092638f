-- ===== src/Transaction.antt =====
-- The payload transaction of nxextract/nxextract.py: `rollback_transaction` and the directories of the
-- workspace (CommitStage: `commit_stage`; Recovery: `recover_transaction`). The logger is left out. Each
-- place and relative path stand for the joined path, once the relative path has been validated.
pub mod Invariant
pub mod Renames
pub mod RollbackItem
pub mod Rollback
pub mod CommitStage
pub mod Install
pub mod InstallItem
pub mod Commit
pub mod Publish
pub mod Seal
pub mod Planned
pub mod Recovery
pub mod Resume
pub mod Recover
pub mod Atomic
pub mod Durable
use chrono_nextos.Prelude.{
  ℕ, String, Bool, true, false, not, ◌&&◌, ◌||◌, Option, none, some, List, [], ◌∷◌, ◌++◌, map,
  reverse, ◌==◌, if◌then◌else◌,
}
use chrono_nextos.Prelude.Text.{Text, text_eq}
use chrono_nextos.Fault.{
  Fault, recipe_error, validation_error, nx_error, os_error, is_nx_error, Result, ok, err,
}
use chrono_nextos.Json.{
  Value, null, Fields, get, as_object, as_text, as_list, equals_text, equals_number,
}
use chrono_nextos.Recipe.{Recipe}
use chrono_nextos.Paths.{validate_relative_path}
use chrono_nextos.Journal.{
  Journal, PathRecord, Phase, pending, backup_intent, backup_skipped, backed_up, install_intent,
  installed, validate_transaction_journal,
}
use chrono_nextos.Journal.Encode.{journal_value}
use chrono_nextos.Marker.{marker_matches_recipe}
use chrono_nextos.Marker.Encode.{MarkedPlan, marker_value}
use chrono_nextos.Disk.{
  Area, Root, absent, real, blocked, JournalFile, document, unreadable, unsafe, Disk, Event, World,
  Outcome, done, raised, cut, M, ◌>>=◌, ◌>>◌, pure, raise, lift, reads, modify, durable, catch,
  require, in_game, in_stage, in_backup, exists_in, safe_transaction_object,
  ensure_no_symlink_parents, ensure_real_parent_directories, durable_rename, fsync_directory,
  backup_tree_is_empty, ensure_transaction_root, is_absent, outcome_of, refused, unsynced,
  cut_before, cut_after, go,
}

-- `_ensure_real_directory` of a directory of the workspace.
abbrev pub made_root : Root → Outcome (Unit {0})
made_root absent = done tt
made_root real = done tt
made_root blocked = raised nx_error

abbrev pub make_root : Root → Root
make_root absent = real
make_root root = root

unfoldable pub make_stage_root : M (Unit {0})
make_stage_root w = (
  made_root w.disk.stage_root,
  record w { disk = record w.disk { stage_root = make_root w.disk.stage_root } },
)

unfoldable pub make_backup_root : M (Unit {0})
make_backup_root w = (
  made_root w.disk.backup_root,
  record w { disk = record w.disk { backup_root = make_root w.disk.backup_root } },
)

abbrev pub has_journal : Disk → Bool
has_journal d = elim d.journal [ none ↦ false | some file ↦ true ]

-- Rollback ---------------------------------------------------------------------------------

-- `item.get("legacy")`: a journal of an old version does not say whether there was a live object.
unfoldable pub had_live_object : PathRecord → Bool → Bool → Bool
had_live_object item backup_exists destination_exists =
    if item.legacy
    then backup_exists || (elim item.phase [ pending ↦ true | _ ↦ false ] && destination_exists)
    else item.had_live

unfoldable pub put_back : Text → M (Unit {0})
put_back relative = do
  ensure_real_parent_directories in_game relative
  durable_rename in_backup in_game relative

unfoldable pub return_to_stage : Text → M (Unit {0})
return_to_stage relative = do
  ensure_real_parent_directories in_stage relative
  durable_rename in_game in_stage relative

-- The branch `if had_live`, by the existence of the backup, the destination and the staged object.
unfoldable pub restore_live : Bool → Bool → Bool → Text → M (Unit {0})
unfolding put_back return_to_stage
restore_live true true true relative = raise nx_error
restore_live true true false relative = do return_to_stage relative; put_back relative
restore_live true false staged relative = put_back relative
restore_live false true staged relative = pure tt
restore_live false false staged relative = raise nx_error

-- The branch `else`: the path was new.
unfoldable pub remove_new : Bool → Bool → Bool → Text → M (Unit {0})
unfolding return_to_stage
remove_new true destination staged relative = raise nx_error
remove_new false false staged relative = pure tt
remove_new false true true relative = raise nx_error
remove_new false true false relative = return_to_stage relative

-- The body of the loop, after the validation of the path.
unfoldable pub rollback_object : PathRecord → M (Unit {0})
unfolding had_live_object restore_live remove_new
rollback_object item = do
  destination_exists ← safe_transaction_object in_game item.path
  staged_exists ← safe_transaction_object in_stage item.path
  backup_exists ← safe_transaction_object in_backup item.path
  if had_live_object item backup_exists destination_exists
      then restore_live backup_exists destination_exists staged_exists item.path
      else remove_new backup_exists destination_exists staged_exists item.path

unfoldable pub check_backup_parents : Text → M (Unit {0})
check_backup_parents relative = do
  missing ← reads (λ d. is_absent d.backup_root)
  if missing then pure tt else ensure_no_symlink_parents in_backup relative

unfoldable pub rollback_item : PathRecord → M (Unit {0})
unfolding check_backup_parents rollback_object
rollback_item item = do
  lift (validate_relative_path item.path false)
  ensure_no_symlink_parents in_game item.path
  ensure_no_symlink_parents in_stage item.path
  check_backup_parents item.path
  rollback_object item

unfoldable pub rollback_paths : List PathRecord → M (Unit {0})
unfolding rollback_item
rollback_paths [] = pure tt
rollback_paths (item ∷ items) = do rollback_item item; rollback_paths items

-- `if os.path.lexists(backup): remove_path(backup)` and the `fsync` of the workspace.
unfoldable pub remove_backup : M (Unit {0})
remove_backup = do
  missing ← reads (λ d. is_absent d.backup_root)
  if missing
      then pure tt
      else do durable (λ d. record d { backup = []; backup_root = absent }); fsync_directory

unfoldable pub unlink_journal : M (Unit {0})
unlink_journal = durable (λ d. record d { journal = none })

-- After the loop: nothing may be left in the backup, and the journal goes last.
unfoldable pub close_rollback : M (Unit {0})
unfolding remove_backup unlink_journal
close_rollback = do
  fsync_directory
  empty ← reads backup_tree_is_empty
  require empty nx_error
  remove_backup
  unlink_journal
  fsync_directory

unfoldable pub rollback_transaction : List PathRecord → M (Unit {0})
unfolding make_stage_root rollback_paths close_rollback
rollback_transaction items = do
  make_stage_root
  ensure_transaction_root (λ d. d.backup_root)
  rollback_paths (reverse items)
  close_rollback

-- What the transaction asks of the validation of outputs: `validate_recipe_outputs` on the game
-- directory, for an ABI, and `payload_metadata_seal` with its count of objects.
pub record Payload : Type 0 where
  pub check_outputs : Text → Area → Result (Unit {0})
  pub seal : List Text → Area → Result (Text × ℕ)

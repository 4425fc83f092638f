-- ===== src/Transaction/CommitStage.antt =====
-- `commit_stage` of nxextract/nxextract.py, with `_journal_write` and `_write_install_marker`.
use chrono_nextos.Prelude.{ℕ, Bool, true, false, not, some, List, [], ◌∷◌, ◌++◌, map, if◌then◌else◌}
use chrono_nextos.Prelude.Text.{Text}
use chrono_nextos.Fault.{Fault, validation_error, nx_error, os_error}
use chrono_nextos.Recipe.{Recipe}
use chrono_nextos.Paths.{validate_relative_path}
use chrono_nextos.Journal.{
  Journal, PathRecord, Phase, pending, backup_intent, backup_skipped, backed_up, install_intent,
  installed,
}
use chrono_nextos.Journal.Encode.{journal_value}
use chrono_nextos.Marker.Encode.{MarkedPlan, marker_value}
use chrono_nextos.Disk.{
  document, M, ◌>>=◌, ◌>>◌, pure, raise, lift, reads, durable, catch, require, in_game, in_stage,
  in_backup, exists_in, safe_transaction_object, ensure_no_symlink_parents,
  ensure_real_parent_directories, durable_rename, fsync_directory, backup_tree_is_empty,
  ensure_transaction_root, is_absent,
}
use chrono_nextos.Transaction.{make_backup_root, has_journal, rollback_transaction, Payload}

abbrev pub with_phase : Phase → PathRecord → PathRecord
with_phase phase item = record item { phase = phase }

module _ (recipe : Recipe) where
  -- `_journal_write`
  unfoldable pub journal_write : Journal → M (Unit {0})
  journal_write journal =
      durable (λ d. record d { journal = some (document (journal_value recipe journal)) })

  -- The journal while one item changes: those before it are installed, the rest is pending.
  unfoldable pub write_phase :
      Journal → List PathRecord → Phase → PathRecord → List PathRecord → M (Unit {0})
  unfolding journal_write
  write_phase journal before phase item rest =
      journal_write (record journal { paths = before ++ (with_phase phase item ∷ rest) })

  unfoldable pub back_up_live :
      Journal → List PathRecord → PathRecord → List PathRecord → M (Unit {0})
  unfolding write_phase
  back_up_live journal before item rest = do
    write_phase journal before backup_intent item rest
    live ← safe_transaction_object in_game item.path
    require live nx_error
    occupied ← reads (exists_in in_backup item.path)
    require (not occupied) nx_error
    ensure_real_parent_directories in_backup item.path
    durable_rename in_game in_backup item.path
    write_phase journal before backed_up item rest

  unfoldable pub skip_backup :
      Journal → List PathRecord → PathRecord → List PathRecord → M (Unit {0})
  unfolding write_phase
  skip_backup journal before item rest = do
    appeared ← reads (exists_in in_game item.path)
    require (not appeared) nx_error
    write_phase journal before backup_skipped item rest

  unfoldable pub install_staged :
      Journal → List PathRecord → PathRecord → List PathRecord → M (Unit {0})
  unfolding write_phase
  install_staged journal before item rest = do
    write_phase journal before install_intent item rest
    staged ← safe_transaction_object in_stage item.path
    require staged nx_error
    occupied ← reads (exists_in in_game item.path)
    require (not occupied) nx_error
    ensure_real_parent_directories in_game item.path
    durable_rename in_stage in_game item.path
    write_phase journal before installed item rest

  -- `progress.update`, which raises when the user interface has gone.
  unfoldable pub progress_update : M (Unit {0})
  progress_update = durable (λ d. d)

  unfoldable pub install_item :
      Journal → List PathRecord → PathRecord → List PathRecord → M (Unit {0})
  unfolding back_up_live skip_backup install_staged progress_update
  install_item journal before item rest = do
    if item.had_live
        then back_up_live journal before item rest
        else skip_backup journal before item rest
    install_staged journal before item rest
    progress_update

  unfoldable pub install_paths : Journal → List PathRecord → List PathRecord → M (Unit {0})
  unfolding install_item
  install_paths journal before [] = pure tt
  install_paths journal before (item ∷ rest) = do
    install_item journal before item rest
    install_paths journal (before ++ (with_phase installed item ∷ [])) rest

  -- The loop that fills `path_records`.
  unfoldable pub path_record : Text → M PathRecord
  path_record relative = do
    lift (validate_relative_path relative false)
    staged ← safe_transaction_object in_stage relative
    require staged validation_error
    ensure_no_symlink_parents in_stage relative
    ensure_no_symlink_parents in_game relative
    had_live ← safe_transaction_object in_game relative
    pure (record { path = relative; had_live = had_live; phase = pending; legacy = false })

  unfoldable pub path_records : List Text → M (List PathRecord)
  unfolding path_record
  path_records [] = pure []
  path_records (relative ∷ more) = do
    item ← path_record relative
    rest ← path_records more
    pure (item ∷ rest)

  module _ (payload : Payload) (plan : MarkedPlan) (transaction_id : Text) (completed : ℕ) where
    abbrev pub new_journal : Bool → List PathRecord → Journal
    new_journal published items = record {
      transaction_id = transaction_id;
      abi = plan.abi;
      published = published;
      paths = items;
    }

    -- `_write_install_marker`
    unfoldable pub write_install_marker : M (Unit {0})
    write_install_marker = do
      live ← reads (λ d. d.live)
      (payload_seal, payload_objects) ← lift (payload.seal plan.commit_paths live)
      durable (λ d. record d {
        marker =
            some (marker_value recipe plan transaction_id completed payload_seal payload_objects);
      })

    -- The body of `try`.
    unfoldable pub publish : List PathRecord → M (Unit {0})
    unfolding install_paths write_install_marker progress_update
    publish items = do
      install_paths (new_journal false items) [] items
      fsync_directory
      progress_update
      live ← reads (λ d. d.live)
      lift (payload.check_outputs plan.abi live)
      write_install_marker

    -- The checks before the journal.
    unfoldable pub open_transaction : M (Unit {0})
    unfolding make_backup_root
    open_transaction = do
      ensure_transaction_root (λ d. d.stage_root)
      missing ← reads (λ d. is_absent d.stage_root)
      require (not missing) validation_error
      make_backup_root
      empty ← reads backup_tree_is_empty
      require empty nx_error
      journaled ← reads has_journal
      require (not journaled) nx_error
      fsync_directory

    -- `except OSError` around the last write of the journal.
    abbrev pub ignore_os_error : Fault → M (Unit {0})
    ignore_os_error os_error = pure tt
    ignore_os_error e = raise e

    unfoldable pub commit_stage : M (Unit {0})
    unfolding open_transaction path_records publish journal_write progress_update
        rollback_transaction
    commit_stage = do
      open_transaction
      items ← path_records plan.commit_paths
      journal_write (new_journal false items)
      progress_update
      catch (publish items) (λ e. do rollback_transaction items; raise e)
      catch (journal_write (new_journal true (map (with_phase installed) items))) ignore_os_error
      fsync_directory

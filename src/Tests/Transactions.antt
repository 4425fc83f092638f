-- ===== src/Tests/Transactions.antt =====
-- The theorems about commit, rollback and recovery, applied to a small payload: the process ends in
-- the rename of the staged object, or nothing goes wrong.
use chrono_nextos.Prelude.{◌≡◌, inl, inr, refl, true, false, List, [], ◌∷◌}
use chrono_nextos.Fault.{os_error}
use chrono_nextos.Disk.{Event, go, unsynced, cut_before, cut_after, World, Outcome}
use chrono_nextos.Disk.Runs.{Runs}
use chrono_nextos.Transaction.{rollback_transaction}
use chrono_nextos.Transaction.CommitStage.{install_paths, commit_stage, new_journal}
use chrono_nextos.Transaction.Recovery.{recover_transaction}
use chrono_nextos.Transaction.Invariant.{paths, Moving, Restored, Recoverable, Progress, all_ready}
use chrono_nextos.Transaction.Commit.{Complete, Failed, SameItems-refl}
use chrono_nextos.Transaction.Publish.{commit_stage-Runs}
use chrono_nextos.Transaction.Rollback.{rollback_transaction-Runs}
use chrono_nextos.Transaction.Renames.{Stopped}
use chrono_nextos.Transaction.Install.{Open}
use chrono_nextos.Transaction.InstallItem.{install_paths-Runs}
use chrono_nextos.Transaction.Planned.{Consistent}
use chrono_nextos.Transaction.Recover.{
  Settled, Disturbed, Kept, recover_transaction-Runs, recover_transaction-Kept,
}
use chrono_nextos.Transaction.Atomic.{
  leaves, leaves_all, AllOrNothing, begins, commit_stage-AllOrNothing,
  recover_transaction-AllOrNothing,
}
use chrono_nextos.Tests.Inputs.{
  same_key, hex_32, a_recipe, a_plan, a_payload, a_disk, a_setting, a_setting-items_ok,
  a_disk-IsReady, a_plan-IsPlanned,
}

-- The eighth durable operation of the commit moves the staged object into the game directory.
abbrev crash : List Event
crash = go ∷ go ∷ go ∷ go ∷ go ∷ go ∷ go ∷ cut_after ∷ []

abbrev restarts : List (List Event)
restarts = (go ∷ unsynced os_error ∷ []) ∷ (cut_before ∷ []) ∷ []

abbrev recover : World → Outcome (Unit {0}) × World
recover = recover_transaction same_key a_recipe a_payload

abbrev commit : World → Outcome (Unit {0}) × World
commit = commit_stage a_recipe a_payload a_plan hex_32 7

commit_stage-AllOrNothing_example : AllOrNothing same_key a_setting a_payload (
    recover
      (record { disk = leaves_all recover restarts (leaves commit crash a_disk); events = [] }))
commit_stage-AllOrNothing_example =
    commit_stage-AllOrNothing same_key a_disk a_recipe a_payload a_plan hex_32 7 a_disk-IsReady
      a_plan-IsPlanned crash restarts

abbrev began : Consistent same_key a_setting a_payload a_disk
began = inl (inr (begins same_key a_disk a_recipe a_payload a_plan hex_32 7 a_disk-IsReady))

recover_transaction-AllOrNothing_example :
    AllOrNothing same_key a_setting a_payload
      (recover (record { disk = leaves_all recover restarts a_disk; events = [] }))
recover_transaction-AllOrNothing_example =
    recover_transaction-AllOrNothing same_key a_setting a_payload a_plan-IsPlanned restarts a_disk
      began

commit_stage-Runs_example :
    Runs false
      (Recoverable a_setting a_payload)
      (Restored a_setting a_payload)
      commit
      (λ _ d. Complete a_disk a_recipe a_payload a_plan hex_32 7 d)
      (Failed a_disk a_recipe a_payload a_plan hex_32 7 false)
commit_stage-Runs_example =
    commit_stage-Runs a_disk a_recipe a_payload a_plan hex_32 7 false a_disk-IsReady

rollback_transaction-Runs_example :
    Runs false
      (Recoverable a_setting a_payload)
      (Moving a_setting a_payload (paths a_setting a_payload))
      (rollback_transaction a_setting.items)
      (λ _ d. Restored a_setting a_payload d)
      (Stopped a_setting a_payload false (Recoverable a_setting a_payload) (λ d x. x))
rollback_transaction-Runs_example =
    rollback_transaction-Runs a_setting a_payload false (Recoverable a_setting a_payload) (λ d x. x)
      a_setting.items a_setting-items_ok refl

recover_transaction-Runs_example :
    Runs true
      (Consistent same_key a_setting a_payload)
      (Consistent same_key a_setting a_payload)
      recover
      (λ _ d. Settled same_key a_setting a_payload true d)
      (Disturbed same_key a_setting a_payload true)
recover_transaction-Runs_example =
    recover_transaction-Runs same_key a_setting a_payload true a_plan-IsPlanned

recover_transaction-Kept_example :
    Runs false
      (Kept same_key a_setting a_payload)
      (Kept same_key a_setting a_payload)
      recover
      (λ _ d. Kept same_key a_setting a_payload d)
      (λ d. (false ≡ false) × Kept same_key a_setting a_payload d)
recover_transaction-Kept_example =
    recover_transaction-Kept same_key a_setting a_payload false a_plan-IsPlanned

install_paths-Runs_example :
    Runs false
      (Recoverable a_setting a_payload)
      (Progress a_setting a_payload [])
      (install_paths a_recipe
        (new_journal a_recipe a_payload a_plan hex_32 7 false a_setting.items)
        []
        a_setting.items)
      (λ _ d. Progress a_setting a_payload (all_ready [] a_setting.items) d)
      (Open a_setting a_payload false (Recoverable a_setting a_payload) (λ d m. inl m))
install_paths-Runs_example =
    install_paths-Runs a_setting a_payload false (Recoverable a_setting a_payload) (λ d m. inl m)
      (new_journal a_recipe a_payload a_plan hex_32 7 false a_setting.items) [] a_setting.items []
      refl refl a_setting-items_ok (λ q i. absurd (i tt)) (λ i. i tt, tt)
      (SameItems-refl a_setting.items)

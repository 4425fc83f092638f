-- ===== src/Transaction/Atomic.antt =====
-- A commit that is interrupted anywhere, and the recoveries after it, each a process of its own.
use chrono_nextos.Prelude.{ℕ, ◌≡◌, ◌⊎◌, inl, inr, refl, ap, sym, true, false, none, List, [], ◌∷◌}
use mathlib.Core.Bool.{false≢true}
use chrono_nextos.Prelude.Text.{Text}
use chrono_nextos.Recipe.{Recipe}
use chrono_nextos.Marker.Encode.{MarkedPlan}
use chrono_nextos.Disk.{Disk, Event, World, Outcome, done, raised, cut, M, lookup}
use chrono_nextos.Disk.Runs.{Ends}
use chrono_nextos.Transaction.{Payload}
use chrono_nextos.Transaction.CommitStage.{commit_stage}
use chrono_nextos.Transaction.Recovery.{recover_transaction}
use chrono_nextos.Transaction.Invariant.{Setting, Restored, Recoverable}
use chrono_nextos.Transaction.Rollback.{Untouched-of}
use chrono_nextos.Transaction.Commit.{this, IsReady, Complete, Failed}
use chrono_nextos.Transaction.Publish.{commit_stage-Runs, complete_open}
use chrono_nextos.Transaction.Planned.{AllNew, IsPlanned, Consistent}
use chrono_nextos.Transaction.Recover.{Settled, Disturbed, recover_transaction-Runs}

-- What a process leaves on the disk, and a process after another one.
abbrev pub leaves {ℓ} : {A : Type ℓ} → M A → List Event → Disk → Disk
leaves m events d = (m (record { disk = d; events = events })).1.disk

abbrev pub leaves_all {ℓ} : {A : Type ℓ} → M A → List (List Event) → Disk → Disk
leaves_all m [] d = d
leaves_all m (events ∷ more) d = leaves_all m more (leaves m events d)

-- Every live object is the one of before the transaction.
abbrev pub AllOld : Setting → Disk → Type 0
AllOld s d = (p : Text) → lookup p d.live ≡ s.old p

module _ (portable_path_key : Text → Text) (s : Setting) (payload : Payload) where
  -- The process returned, no journal is left, and the live payload is all old or all new.
  abbrev pub AllOrNothing : Outcome (Unit {0}) × World → Type 0
  AllOrNothing r =
      (r.0 ≡ done tt) × (r.1.disk.journal ≡ none) × (AllOld s r.1.disk ⊎ AllNew s payload r.1.disk)

  module _ (i : IsPlanned portable_path_key s payload) where
    recovered_disturbed :
        (events : List Event) (d : Disk)
        → Consistent portable_path_key s payload d
        → Consistent portable_path_key s payload
            (leaves (recover_transaction portable_path_key s.recipe payload) events d)
    recovered_disturbed events d c = elim_ends _ _ (
        (recover_transaction-Runs portable_path_key s payload false i).at
          (record { disk = d; events = events }) (λ t. absurd (false≢true t)) c)
      where
        elim_ends :
            (o : Outcome (Unit {0})) (w : World)
            → Ends false
                (Consistent portable_path_key s payload)
                (λ _ d. Settled portable_path_key s payload false d)
                (Disturbed portable_path_key s payload false)
                o
                w
            → Consistent portable_path_key s payload w.disk
        elim_ends (done _) w (_, inl r) = inl (inr r)
        elim_ends (done _) w (_, inr (inl (_, x))) = inr (inl x)
        elim_ends (done _) w (_, inr (inr x)) = inr (inr x)
        elim_ends (raised e) w (_, (_, c)) = c
        elim_ends cut w (_, c) = c

    recovered_all :
        (restarts : List (List Event)) (d : Disk)
        → Consistent portable_path_key s payload d
        → Consistent portable_path_key s payload
            (leaves_all (recover_transaction portable_path_key s.recipe payload) restarts d)
    recovered_all [] d c = c
    recovered_all (events ∷ more) d c = recovered_all more _ (recovered_disturbed events d c)

    recovered_quiet :
        (d : Disk)
        → Consistent portable_path_key s payload d
        → AllOrNothing (
            recover_transaction portable_path_key s.recipe payload
              (record { disk = d; events = [] }))
    recovered_quiet d c = elim_ends _ _ (
        (recover_transaction-Runs portable_path_key s payload true i).at
          (record { disk = d; events = [] }) (λ _. refl) c)
      where
        elim_ends :
            (o : Outcome (Unit {0})) (w : World)
            → Ends true
                (Consistent portable_path_key s payload)
                (λ _ d. Settled portable_path_key s payload true d)
                (Disturbed portable_path_key s payload true)
                o
                w
            → AllOrNothing (o, w)
        elim_ends (done _) w (_, inl (_, j, slots)) =
            (refl, j, inl (λ p. (Untouched-of s payload w.disk slots p).0))
        elim_ends (done _) w (_, inr (inl (l, _))) = absurd (false≢true (sym l))
        elim_ends (done _) w (_, inr (inr (j, n))) = (refl, j, inr n)
        elim_ends (raised e) w (_, (l, _)) = absurd (false≢true (sym l))
        elim_ends cut w (l, _) = absurd (false≢true (sym l))

    -- From every state that an interrupted commit or recovery leaves, and after any number of
    -- further recoveries that fail or are cut off anywhere, for a plan of the recipe whose
    -- validation of outputs and whose seal raise only what the recovery catches, and whose staged
    -- objects differ from the earlier ones in something that the seal reads: a recovery that
    -- nothing disturbs returns, removes the journal, and leaves a live payload that is all old or
    -- all new.
    pub recover_transaction-AllOrNothing :
        (restarts : List (List Event)) (d : Disk)
        → Consistent portable_path_key s payload d
        → AllOrNothing (
            recover_transaction portable_path_key s.recipe payload (record {
              disk = leaves_all (recover_transaction portable_path_key s.recipe payload) restarts d;
              events = [];
            }))
    recover_transaction-AllOrNothing restarts d c = recovered_quiet _ (recovered_all restarts d c)

module _ (portable_path_key : Text → Text) (d0 : Disk) (recipe : Recipe) (payload : Payload)
    (plan : MarkedPlan) (transaction_id : Text) (completed : ℕ) where
  abbrev T : Setting
  T = this d0 recipe payload plan transaction_id completed

  pub begins : IsReady d0 recipe payload plan transaction_id completed → Restored T payload d0
  begins r =
      (r.frame, r.no_journal, λ p. inl (refl, refl, unfold lookup in ap (lookup p) r.no_backup))

  committed :
      (r : IsReady d0 recipe payload plan transaction_id completed) (events : List Event)
      → Consistent portable_path_key T payload
          (leaves (commit_stage recipe payload plan transaction_id completed) events d0)
  committed r events = elim_ends _ _ (
      (commit_stage-Runs d0 recipe payload plan transaction_id completed false r).at
        (record { disk = d0; events = events }) (λ t. absurd (false≢true t)) (begins r))
    where
      elim_ends :
          (o : Outcome (Unit {0})) (w : World)
          → Ends false
              (Recoverable T payload)
              (λ _ d. Complete d0 recipe payload plan transaction_id completed d)
              (Failed d0 recipe payload plan transaction_id completed false)
              o
              w
          → Consistent portable_path_key T payload w.disk
      elim_ends (done _) w (_, x) =
          inl (inl (complete_open d0 recipe payload plan transaction_id completed false r w.disk x))
      elim_ends (raised e) w (_, inl (_, x)) = inl x
      elim_ends (raised e) w (_, inr x) = inl (inr x)
      elim_ends cut w (_, x) = inl x

  -- A commit that fails or is cut off at any operation, then any number of recoveries that fail or
  -- are cut off anywhere, then one that nothing disturbs, for a plan of the recipe whose validation
  -- of outputs and whose seal raise only what the recovery catches, and whose staged objects differ
  -- from the earlier ones in something that the seal reads: the last recovery returns, no journal
  -- is left, and every live object is the one of before the commit, or all commit paths hold what
  -- was staged and nothing else has changed.
  pub commit_stage-AllOrNothing :
      IsReady d0 recipe payload plan transaction_id completed
      → IsPlanned portable_path_key T payload
      → (events : List Event) (restarts : List (List Event))
      → AllOrNothing portable_path_key T payload (
          recover_transaction portable_path_key recipe payload (record {
            disk =
                leaves_all
                  (recover_transaction portable_path_key recipe payload)
                  restarts
                  (leaves (commit_stage recipe payload plan transaction_id completed) events d0);
            events = [];
          }))
  commit_stage-AllOrNothing r i events restarts =
      recover_transaction-AllOrNothing portable_path_key T payload i restarts _ (committed r events)

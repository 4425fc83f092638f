-- ===== src/Transaction/Publish.antt =====
-- The publication of a payload by `commit_stage`, and the whole commit.
use chrono_nextos.Prelude.{
  ℕ, ◌≡◌, ◌⊎◌, inl, inr, refl, ap, sym, ◌∙◌, Bool, true, false, some, List, [], ◌∷◌, map, In,
}
use chrono_nextos.Prelude.Text.{Text}
use chrono_nextos.Fault.{Fault, os_error, ok}
use chrono_nextos.Recipe.{Recipe}
use chrono_nextos.Journal.{Journal, PathRecord, installed}
use chrono_nextos.Marker.Encode.{MarkedPlan, marker_value}
use chrono_nextos.Journal.Encode.{journal_value}
use chrono_nextos.Disk.{
  document, lookup, Disk, M, ◌>>◌, raise, lift, reads, durable, catch, fsync_directory,
}
use chrono_nextos.Disk.Runs.{
  Runs, Runs-bind, Runs-pure, Runs-raise, Runs-reads, Runs-lift, Runs-catch, Runs-weaken,
  Runs-durable,
}
use chrono_nextos.Transaction.{Payload, rollback_transaction}
use chrono_nextos.Transaction.CommitStage.{
  journal_write, path_records, progress_update, with_phase, new_journal, write_install_marker,
  publish, ignore_os_error, commit_stage,
}
use chrono_nextos.Transaction.Invariant.{
  Setting, paths, Moving, SameItems, Restored, Recoverable, paths_of, At, all_ready,
}
use chrono_nextos.Transaction.Rollback.{rollback_transaction-Runs}
use chrono_nextos.Transaction.Install.{Open, Open-Runs, then-Runs, Frame-journal}
use chrono_nextos.Transaction.InstallItem.{install_paths-Runs}
use mathlib.Core.Path.{subst}
use chrono_nextos.Transaction.Commit.{
  this, IsReady, Final, final, Complete, Failed, Begun, Reached, everything, SameItems-refl,
  SameItems-installed, path_records-Runs, Begun-Reached, Reached-none, Reached-all,
  open_transaction-Runs, quiet_step, and_then,
}

module _ (d0 : Disk) (recipe : Recipe) (payload : Payload) (plan : MarkedPlan)
    (transaction_id : Text) (completed : ℕ) (quiet : Bool)
    (r : IsReady d0 recipe payload plan transaction_id completed) where
  abbrev T : Setting
  T = this d0 recipe payload plan transaction_id completed

  abbrev F : Disk → Type 0
  F = Final d0 recipe payload plan transaction_id completed quiet r

  abbrev fin : (d : Disk) → Moving T payload (paths T payload) d → F d
  fin = final d0 recipe payload plan transaction_id completed quiet r

  abbrev Opened : Disk → Type 0
  Opened = Open T payload quiet F fin

  abbrev AllIn : Disk → Type 0
  AllIn =
      Reached d0 recipe payload plan transaction_id completed quiet r
        (everything d0 recipe payload plan transaction_id completed quiet r)

  abbrev all_open : (d : Disk) → AllIn d → Opened d
  all_open = Reached-all d0 recipe payload plan transaction_id completed quiet r

  abbrev Published : Disk → Type 0
  Published = Complete d0 recipe payload plan transaction_id completed

  In-everything :
      (ready : List Text) (items : List PathRecord) (q : Text)
      → In q ready ⊎ In q (paths_of items)
      → In q (all_ready ready items)
  In-everything ready [] q (inl i) = i
  In-everything ready [] q (inr i) = absurd (i tt)
  In-everything ready (item ∷ items) q (inl i) =
      In-everything (item.path ∷ ready) items q (inl (inr i))
  In-everything ready (item ∷ items) q (inr (inl e)) =
      In-everything (item.path ∷ ready) items q (inl (inl e))
  In-everything ready (item ∷ items) q (inr (inr i)) =
      In-everything (item.path ∷ ready) items q (inr i)

  -- Every staged object is live.
  pub all_live :
      (d : Disk) → AllIn d → (q : Text) → In q (paths T payload) → lookup q d.live ≡ T.new q
  all_live d (f, j, at) q i = live (at q)
    where
      live :
          At T payload (everything d0 recipe payload plan transaction_id completed quiet r) q d
          → lookup q d.live ≡ T.new q
      live (inl (_, n)) = n.0
      live (inr (n, _)) = absurd (n (In-everything [] T.items q (inr i)))

  marked :
      (d : Disk) (a : Text) (b : ℕ)
      → AllIn d
      → payload.check_outputs plan.abi d.live ≡ ok tt
      → payload.seal plan.commit_paths d.live ≡ ok (a, b)
      → Published
          (record d { marker = some (marker_value recipe plan transaction_id completed a b) })
  unfolding marker_value
  marked d a b (f, j, at) c e = record {
    progress = (
      record {
        stage_ready = f.stage_ready;
        backup_ready = f.backup_ready;
        open_live = f.open_live;
        open_stage = f.open_stage;
        open_backup = f.open_backup;
        marker_ok = λ marker loaded same. record {
          payload_seal = a;
          payload_objects = b;
          final = d.live;
          sealed = e;
          complete = all_live d (f, j, at);
          stored = cc;
        };
      },
      record {
        journal = j.journal;
        stored = j.stored;
        same_id = j.same_id;
        same_abi = j.same_abi;
        same_items = j.same_items;
      },
      at,
    );
    payload_seal = a;
    payload_objects = b;
    sealed = e;
    checked = c;
    published = refl;
  }

  pub complete_open : (d : Disk) → Published d → Opened d
  complete_open d p = all_open d p.progress

  abbrev Checked : Disk → Type 0
  Checked d = AllIn d × (payload.check_outputs plan.abi d.live ≡ ok tt)

  write_install_marker-Runs :
      Runs quiet F Checked
        (write_install_marker recipe payload plan transaction_id completed)
        (λ _ d. Published d)
        Opened
  unfolding write_install_marker
  write_install_marker-Runs =
      Runs-bind quiet F Checked (λ live d. Checked d × (live ≡ d.live)) _ _ (reads (λ d. d.live)) _
        (Runs-reads quiet F _ _ _ (λ d. d.live) (λ d c. (c, refl)))
        (λ live.
          Runs-bind quiet F _
            (λ found d. Checked d × (payload.seal plan.commit_paths d.live ≡ ok found)) _ _
            (lift (payload.seal plan.commit_paths live)) _
            (Runs-lift quiet F _ _ _ (payload.seal plan.commit_paths live)
              (λ found e d c. (c.0, ap (payload.seal plan.commit_paths) (sym c.1) ∙ e))
              (λ x e d c. all_open d c.0.0))
            (λ found.
              Open-Runs T payload quiet F fin
                (λ d. Checked d × (payload.seal plan.commit_paths d.live ≡ ok found)) Published _
                (λ d c. all_open d c.0.0) complete_open
                (λ d c. marked d found.0 found.1 c.0.0 c.0.1 c.1)))

  publish-Runs :
      Runs quiet F
        (Reached d0 recipe payload plan transaction_id completed quiet r [])
        (publish recipe payload plan transaction_id completed T.items)
        (λ _ d. Published d)
        Opened
  unfolding publish fsync_directory progress_update
  publish-Runs =
      then-Runs T payload quiet F fin _ AllIn _ _ _
        (install_paths-Runs T payload quiet F fin
          (new_journal recipe payload plan transaction_id completed false T.items) [] T.items []
          refl refl r.items_ok (λ q i. absurd (i tt)) r.distinct (SameItems-refl T.items))
        (then-Runs T payload quiet F fin AllIn AllIn _ _ _ same_place (
          then-Runs T payload quiet F fin AllIn AllIn _ _ _ same_place (
            Runs-bind quiet F AllIn (λ live d. AllIn d × (live ≡ d.live)) _ _ (reads (λ d. d.live))
              _ (Runs-reads quiet F _ _ _ (λ d. d.live) (λ d c. (c, refl)))
              (λ live.
                then-Runs T payload quiet F fin (λ d. AllIn d × (live ≡ d.live)) Checked _ _ _
                  (Runs-lift quiet F _ _ _ (payload.check_outputs plan.abi live)
                    (λ u e d c. (c.0, ap (payload.check_outputs plan.abi) (sym c.1) ∙ e))
                    (λ x e d c. all_open d c.0))
                  write_install_marker-Runs))))
    where
      same_place : Runs quiet F AllIn (durable (λ d. d)) (λ _ d. AllIn d) Opened
      same_place = Open-Runs T payload quiet F fin AllIn AllIn (λ d. d) all_open all_open (λ d a. a)

  abbrev Stops : Disk → Type 0
  Stops = Failed d0 recipe payload plan transaction_id completed quiet

  -- Whatever stopped the publication, the handler of `commit_stage` rolls back and raises again.
  handler-Runs :
      (e : Fault)
      → Runs quiet F {A = Unit {0}} Opened
          (do rollback_transaction T.items; raise e)
          (λ _ d. Published d)
          Stops
  handler-Runs e =
      Runs-bind quiet F Opened (λ _ d. Restored T payload d) _ _ (rollback_transaction T.items) _
        (Runs-weaken quiet F _ _ _ Opened (λ _ d. Restored T payload d) _ _ (λ d o. o) (λ _ d x. x)
          (λ d x. inl x)
          (rollback_transaction-Runs T payload quiet F (λ d x. x) T.items r.items_ok refl))
        (λ _. Runs-raise quiet F _ _ _ e (λ d x. inr x))

  rewritten :
      (d : Disk) (journal : Journal)
      → journal.transaction_id ≡ transaction_id
      → journal.abi ≡ plan.abi
      → SameItems journal.paths T.items
      → Published d
      → Published (record d { journal = some (document (journal_value recipe journal)) })
  rewritten d journal id abi same p = record {
    progress = (
      Frame-journal T payload quiet F fin d _ p.progress.0,
      record { journal = journal; stored = refl; same_id = id; same_abi = abi; same_items = same },
      p.progress.2,
    );
    payload_seal = p.payload_seal;
    payload_objects = p.payload_objects;
    sealed = p.sealed;
    checked = p.checked;
    published = p.published;
  }

  abbrev last_journal : Journal
  last_journal =
      new_journal recipe payload plan transaction_id completed true
        (map (with_phase installed) T.items)

  abbrev Missed : Disk → Type 0
  Missed d = (quiet ≡ false) × Published d

  write_last :
      Runs quiet F Published (journal_write recipe last_journal) (λ _ d. Published d) Missed
  unfolding journal_write
  write_last =
      Runs-durable quiet F Published (λ _ d. Published d) Missed _ written
        (λ d loud p. ((loud, p), (loud, written d p)))
        (λ d loud p. (inl (complete_open d p), inl (complete_open _ (written d p))))
    where
      written :
          (d : Disk)
          → Published d
          → Published (record d { journal = some (document (journal_value recipe last_journal)) })
      written d = rewritten d last_journal refl refl (SameItems-installed T.items)

  ignored :
      (e : Fault)
      → Runs quiet F Missed
          (ignore_os_error recipe payload plan transaction_id completed e)
          (λ _ d. Published d)
          Stops
  ignored os_error = Runs-pure quiet F _ _ _ tt (λ d x. x.1)
  ignored _ = Runs-raise quiet F _ _ _ _ (λ d x. inl (x.0, inl (complete_open d x.1)))

  last_write-Runs :
      Runs quiet F Published
        (catch
          (journal_write recipe last_journal)
          (ignore_os_error recipe payload plan transaction_id completed))
        (λ _ d. Published d)
        Stops
  last_write-Runs =
      Runs-catch quiet F Published (λ _ d. Published d) Stops Missed _ _ write_last ignored

  journal-Begun :
      (items : List PathRecord)
      → items ≡ T.items
      → Runs quiet F
          (Begun d0 recipe payload plan transaction_id completed quiet r)
          (journal_write recipe
            (new_journal recipe payload plan transaction_id completed false items))
          (λ _ d. Reached d0 recipe payload plan transaction_id completed quiet r [] d)
          Stops
  unfolding journal_write
  journal-Begun items e =
      quiet_step d0 recipe payload plan transaction_id completed quiet r _ _ _ (λ d b. inr b)
        (λ d x. inl (Reached-none d0 recipe payload plan transaction_id completed quiet r d x))
        (λ d b.
          Begun-Reached d0 recipe payload plan transaction_id completed quiet r
            (new_journal recipe payload plan transaction_id completed false items) d refl refl
            (rw e (SameItems-refl T.items)) b)

  -- `commit_stage` from the first write of the journal on.
  abbrev journaled : List PathRecord → M (Unit {0})
  journaled items = do
    journal_write recipe (new_journal recipe payload plan transaction_id completed false items)
    progress_update recipe
    catch (publish recipe payload plan transaction_id completed items)
        (λ e. do rollback_transaction items; raise e)
    catch
        (journal_write recipe (
          new_journal recipe payload plan transaction_id completed true
            (map (with_phase installed) items)))
        (ignore_os_error recipe payload plan transaction_id completed)
    fsync_directory

  journaled-Runs : Runs quiet F (Restored T payload) (journaled T.items) (λ _ d. Published d) Stops
  unfolding progress_update fsync_directory
  journaled-Runs =
      and_then d0 recipe payload plan transaction_id completed quiet r _ Start _ _ _
        (journal-Begun T.items refl)
        (and_then d0 recipe payload plan transaction_id completed quiet r _ Start _ _ _
          (quiet_step d0 recipe payload plan transaction_id completed quiet r _ _ (λ d. d) start
            start (λ d x. x))
          (and_then d0 recipe payload plan transaction_id completed quiet r _ Published _ _ _
            (Runs-catch quiet F Start (λ _ d. Published d) Stops Opened _ _ publish-Runs
              handler-Runs)
            (and_then d0 recipe payload plan transaction_id completed quiet r _ Published _ _ _
              last_write-Runs
              (quiet_step d0 recipe payload plan transaction_id completed quiet r _ _ (λ d. d) live
                live (λ d x. x)))))
    where
      Start : Disk → Type 0
      Start = Reached d0 recipe payload plan transaction_id completed quiet r []

      start : (d : Disk) → Start d → F d
      start d x = inl (Reached-none d0 recipe payload plan transaction_id completed quiet r d x)

      live : (d : Disk) → Published d → F d
      live d p = inl (complete_open d p)

  -- From a disk on which a transaction may begin, `commit_stage` returns only with every staged
  -- object live and a marker that seals the live payload. Where it raises although no operation has
  -- failed, everything is restored and no journal is left. Where it raises after an operation that
  -- has failed, and where the process ends, everything is restored or it is a state of the
  -- transaction from which `rollback_transaction` restores the earlier payload.
  pub commit_stage-Runs :
      Runs quiet
        (Recoverable T payload)
        (Restored T payload)
        (commit_stage recipe payload plan transaction_id completed)
        (λ _ d. Complete d0 recipe payload plan transaction_id completed d)
        (Failed d0 recipe payload plan transaction_id completed quiet)
  unfolding commit_stage progress_update fsync_directory
  commit_stage-Runs =
      and_then d0 recipe payload plan transaction_id completed quiet r _ B _ _ _
        (open_transaction-Runs d0 recipe payload plan transaction_id completed quiet r)
        (Runs-bind quiet F B (λ items d. B d × (items ≡ T.items)) _ _
          (path_records recipe plan.commit_paths) _
          (path_records-Runs d0 recipe payload plan transaction_id completed quiet r)
          (λ items. record { at = λ w q b. (here items b.1).at w q b.0 }))
    where
      B : Disk → Type 0
      B = Restored T payload

      here :
          (items : List PathRecord)
          → items ≡ T.items
          → Runs quiet F B (journaled items) (λ _ d. Published d) Stops
      here items e =
          subst (λ x. Runs quiet F B (journaled x) (λ _ d. Published d) Stops) (sym e)
            journaled-Runs

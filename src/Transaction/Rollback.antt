-- ===== src/Transaction/Rollback.antt =====
-- `rollback_transaction` as a whole.
use chrono_nextos.Prelude.{
  ◌≡◌, ◌≢◌, ◌⊎◌, inl, inr, refl, Bool, true, none, List, [], ◌∷◌, ◌++◌, reverse, arith, All,
  All-append, In, In-append_left, In-append_right, In-append_inv,
}
use mathlib.Core.List.{reverse-append, map-append}
use chrono_nextos.Prelude.Text.{Text}
use chrono_nextos.Fault.{nx_error}
use chrono_nextos.Journal.{PathRecord}
use chrono_nextos.Disk.{
  lookup, Root, absent, real, blocked, Disk, World, pure, durable, reads, require, fsync_directory,
  backup_tree_is_empty, ensure_transaction_root, is_absent, check_root,
}
use chrono_nextos.Disk.Areas.{empty_of_lookup}
use chrono_nextos.Disk.Runs.{
  Quiet, Ends, Runs, Runs-durable, Runs-bind, Runs-pure, Runs-reads, Runs-require, Runs-if,
  Runs-weaken,
}
use chrono_nextos.Transaction.{
  Payload, remove_backup, unlink_journal, close_rollback, rollback_paths, rollback_transaction,
  make_stage_root, make_root, made_root,
}
use chrono_nextos.Transaction.Invariant.{
  Setting, Untouched, BackedUp, Installed, paths, IsItem, Slots, Moving, Restored, Recoverable,
  Slots-weaken, paths_of,
}
use chrono_nextos.Transaction.Renames.{Stopped, stopped}
use chrono_nextos.Transaction.RollbackItem.{rollback_paths-Runs}

paths-reverse :
    (item : PathRecord) (items : List PathRecord)
    → paths_of (reverse (item ∷ items)) ≡ paths_of (reverse items) ++ item.path ∷ []
paths-reverse item items = rw (reverse-append (item ∷ []) items, map-append)

-- The paths of the reversed items are the paths of the items.
In-reverse :
    (items : List PathRecord) (p : Text) → In p (paths_of items) → In p (paths_of (reverse items))
In-reverse [] p i = i
In-reverse (item ∷ items) p (inl e) =
    rw (paths-reverse item items)
      (In-append_right p (paths_of (reverse items)) (item.path ∷ []) (inl e))
In-reverse (item ∷ items) p (inr i) =
    rw (paths-reverse item items)
      (In-append_left p (paths_of (reverse items)) (item.path ∷ []) (In-reverse items p i))

In-reverse_of :
    (items : List PathRecord) (p : Text) → In p (paths_of (reverse items)) → In p (paths_of items)
In-reverse_of [] p i = i
In-reverse_of (item ∷ items) p i = back (In-reverse_of items p) (
    In-append_inv p (paths_of (reverse items)) (item.path ∷ [])
      (rw (paths-reverse item items) at i))
  where
    back :
        (In p (paths_of (reverse items)) → In p (paths_of items))
        → In p (paths_of (reverse items)) ⊎ In p (item.path ∷ [])
        → In p (paths_of (item ∷ items))
    back h (inl k) = inr (h k)
    back h (inr (inl e)) = inl e
    back h (inr (inr e)) = absurd (e tt)

All-reverse {κ} :
    (P : PathRecord → Type κ) (items : List PathRecord) → All P items → All P (reverse items)
All-reverse P [] h = tt
All-reverse P (item ∷ items) h =
    rw (reverse-append (item ∷ []) items)
      (All-append P (reverse items) (item ∷ []) (All-reverse P items h.1) (h.0, tt))

module _ (s : Setting) (payload : Payload) where
  pub Untouched-of :
      (d : Disk) → Slots s payload [] d → (p : Text) → Untouched (s.old p) (s.new p) p d
  Untouched-of d slots p = only (slots p)
    where
      only :
          Untouched (s.old p) (s.new p) p d
            ⊎ (In p [] × (BackedUp (s.old p) (s.new p) p d ⊎ Installed (s.old p) (s.new p) p d))
          → Untouched (s.old p) (s.new p) p d
      only (inl u) = u
      only (inr (i, m)) = absurd (i tt)

  pub empty_backup : (d : Disk) → Slots s payload [] d → backup_tree_is_empty d ≡ true
  unfolding backup_tree_is_empty
  empty_backup d slots =
      let e : d.backup ≡ [] = empty_of_lookup d.backup (λ p. (Untouched-of d slots p).2) in
      ground arith

  module _ (quiet : Bool) (Final : Disk → Type 0)
      (final : (d : Disk) → Recoverable s payload d → Final d) where
    abbrev Halted : Disk → Type 0
    Halted = Stopped s payload quiet Final final

    abbrev Undone : Disk → Type 0
    Undone = Moving s payload []

    undone_final : (d : Disk) → Undone d → Final d
    undone_final = λ d m. stopped s payload quiet Final final [] d (λ p i. absurd (i tt)) m

    restored_final : (d : Disk) → Restored s payload d → Final d
    restored_final d r = final d (inr r)

    -- A step that keeps a condition under which the process may stop.
    step-Runs :
        (P Q : Disk → Type 0) (f : Disk → Disk)
        → ((d : Disk) → P d → Final d)
        → ((d : Disk) → Q d → Final d)
        → ((d : Disk) → P d → Q (f d))
        → Runs quiet Final P (durable f) (λ _ d. Q d) Halted
    step-Runs P Q f fp fq h =
        Runs-durable quiet Final P (λ _ d. Q d) Halted f h
          (λ d loud p. ((loud, fp d p), (loud, fq (f d) (h d p))))
          (λ d loud p. (fp d p, fq (f d) (h d p)))

    fsync-Runs :
        (P : Disk → Type 0)
        → ((d : Disk) → P d → Final d)
        → Runs quiet Final P fsync_directory (λ _ d. P d) Halted
    unfolding fsync_directory
    fsync-Runs P fp = step-Runs P P (λ d. d) fp fp (λ d p. p)

    without_backup : (d : Disk) → Undone d → Undone (record d { backup = []; backup_root = absent })
    without_backup d (f, j, slots) = (
      record {
        stage_ready = f.stage_ready;
        backup_ready = λ e. cc;
        open_live = f.open_live;
        open_stage = f.open_stage;
        open_backup = f.open_backup;
        marker_ok = f.marker_ok;
      },
      record {
        journal = j.journal;
        stored = j.stored;
        same_id = j.same_id;
        same_abi = j.same_abi;
        same_items = j.same_items;
      },
      λ p. let (l, t, b) = Untouched-of d slots p in inl (l, t, unfold lookup in refl),
    )

    without_journal : (d : Disk) → Undone d → Restored s payload (record d { journal = none })
    without_journal d (f, j, slots) = (
      record {
        stage_ready = f.stage_ready;
        backup_ready = f.backup_ready;
        open_live = f.open_live;
        open_stage = f.open_stage;
        open_backup = f.open_backup;
        marker_ok = f.marker_ok;
      },
      refl,
      λ p. inl (Untouched-of d slots p),
    )

    remove_backup-Runs : Runs quiet Final Undone remove_backup (λ _ d. Undone d) Halted
    unfolding remove_backup
    remove_backup-Runs =
        Runs-bind quiet Final Undone (λ _ d. Undone d) _ _ (reads (λ d. is_absent d.backup_root)) _
          (Runs-reads quiet Final _ _ _ (λ d. is_absent d.backup_root) (λ d p. p))
          (λ missing.
            Runs-if quiet Final _ _ _ missing (pure tt) _
              (λ _. Runs-pure quiet Final _ _ _ tt (λ d p. p))
              (λ _.
                Runs-bind quiet Final Undone (λ _ d. Undone d) _ _ _ (λ _. fsync_directory)
                  (step-Runs Undone Undone _ undone_final undone_final without_backup)
                  (λ _. fsync-Runs Undone undone_final)))

    close_rollback-Runs :
        Runs quiet Final Undone close_rollback (λ _ d. Restored s payload d) Halted
    unfolding close_rollback
    close_rollback-Runs =
        Runs-bind quiet Final Undone (λ _ d. Undone d) _ _ fsync_directory _
          (fsync-Runs Undone undone_final)
          (λ _.
            Runs-bind quiet Final Undone (λ empty d. Undone d × (empty ≡ backup_tree_is_empty d)) _
              _ (reads backup_tree_is_empty) _
              (Runs-reads quiet Final _ _ _ backup_tree_is_empty (λ d p. (p, refl)))
              (λ empty.
                Runs-bind quiet Final _ (λ _ d. Undone d) _ _ (require empty nx_error) _
                  (Runs-require quiet Final _ _ _ empty nx_error (λ d p e. p.0)
                    (λ d p e. cc (e, p.1, empty_backup d p.0.2)))
                  (λ _.
                    Runs-bind quiet Final Undone (λ _ d. Undone d) _ _ remove_backup _
                      remove_backup-Runs
                      (λ _.
                        Runs-bind quiet Final Undone (λ _ d. Restored s payload d) _ _
                          unlink_journal _
                          (unfold unlink_journal in
                            step-Runs Undone (Restored s payload) _ undone_final restored_final
                              without_journal)
                          (λ _. fsync-Runs (Restored s payload) restored_final)))))

    stage_root_kept :
        (d : Disk)
        → d.stage_root ≡ real
        → Moving s payload (paths s payload) d
        → Moving s payload (paths s payload) (record d { stage_root = make_root d.stage_root })
    stage_root_kept d e (f, j, slots) = (
      record {
        stage_ready = rw e;
        backup_ready = f.backup_ready;
        open_live = f.open_live;
        open_stage = f.open_stage;
        open_backup = f.open_backup;
        marker_ok = f.marker_ok;
      },
      record {
        journal = j.journal;
        stored = j.stored;
        same_id = j.same_id;
        same_abi = j.same_abi;
        same_items = j.same_items;
      },
      slots,
    )

    make_stage_root-Runs :
        Runs quiet Final
          (Moving s payload (paths s payload))
          make_stage_root
          (λ _ d. Moving s payload (paths s payload) d)
          Halted
    unfolding make_stage_root
    make_stage_root-Runs = record {
      at = λ w q m.
          made w.disk.stage_root m.0.stage_ready w q (stage_root_kept w.disk m.0.stage_ready m);
    }
      where
        made :
            (root : Root)
            → root ≡ real
            → (w : World) → Quiet quiet Final w
            → Moving s payload
                (paths s payload)
                (record w.disk { stage_root = make_root w.disk.stage_root })
            → Ends quiet Final
                (λ _ d. Moving s payload (paths s payload) d)
                Halted
                (made_root root)
                (record w { disk = record w.disk { stage_root = make_root w.disk.stage_root } })
        made absent e w q m = cc
        made real e w q m = (q, m)
        made blocked e w q m = cc

    check_backup-Runs :
        Runs quiet Final
          (Moving s payload (paths s payload))
          (ensure_transaction_root (λ d. d.backup_root))
          (λ _ d. Moving s payload (paths s payload) d)
          Halted
    unfolding ensure_transaction_root
    check_backup-Runs = record { at = λ w q m. ready w.disk.backup_root m.0.backup_ready w q m }
      where
        ready :
            (root : Root)
            → root ≢ blocked
            → (w : World) → Quiet quiet Final w
            → Moving s payload (paths s payload) w.disk
            → Ends quiet Final
                (λ _ d. Moving s payload (paths s payload) d)
                Halted
                (check_root root)
                w
        ready absent n w q m = (q, m)
        ready real n w q m = (q, m)
        ready blocked n w q m = absurd (n refl)

    -- From any state of the transaction a rollback that returns has restored every object and
    -- removed the journal. It raises only where an operation fails, and wherever it stops, it can
    -- be started again.
    pub rollback_transaction-Runs :
        (items : List PathRecord)
        → All (IsItem s payload) items
        → paths_of items ≡ paths s payload
        → Runs quiet Final
            (Moving s payload (paths s payload))
            (rollback_transaction items)
            (λ _ d. Restored s payload d)
            Halted
    unfolding rollback_transaction
    rollback_transaction-Runs items i same =
        Runs-bind quiet Final _ (λ _ d. Moving s payload (paths s payload) d) _ _ make_stage_root _
          make_stage_root-Runs
          (λ _.
            Runs-bind quiet Final _ (λ _ d. Moving s payload (paths s payload) d) _ _
              (ensure_transaction_root (λ d. d.backup_root)) _ check_backup-Runs
              (λ _.
                Runs-bind quiet Final _ (λ _ d. Undone d) _ _ (rollback_paths (reverse items)) _
                  loop (λ _. close_rollback-Runs)))
      where
        back : (p : Text) → In p (paths_of (reverse items)) → In p (paths s payload)
        back p h = rw same at (In-reverse_of items p h)

        loop :
            Runs quiet Final
              (Moving s payload (paths s payload))
              (rollback_paths (reverse items))
              (λ _ d. Undone d)
              Halted
        loop =
            Runs-weaken quiet Final _ _ _ (Moving s payload (paths_of (reverse items)))
              (λ _ d. Undone d) Halted (rollback_paths (reverse items))
              (λ d (f, j, slots). (
                f,
                j,
                Slots-weaken s payload (paths s payload) (paths_of (reverse items)) d
                    (λ p h. In-reverse items p (rw (← same) at h)) slots,
              ))
              (λ _ d u. u) (λ d r. r)
              (rollback_paths-Runs s payload quiet Final final (reverse items)
                (All-reverse (IsItem s payload) items i) back)

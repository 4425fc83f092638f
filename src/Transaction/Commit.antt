-- ===== src/Transaction/Commit.antt =====
-- `commit_stage`: the disk it begins on, what it ends with, and its checks before the journal.
use chrono_nextos.Prelude.{
  ℕ, ◌≡◌, ◌≢◌, ◌⊎◌, inl, inr, refl, ap, ◌∙◌, Bool, true, false, not, Option, none, some, List, [],
  ◌∷◌, map, arith, All, In,
}
use chrono_nextos.Prelude.Text.{Text}
use chrono_nextos.Fault.{Fault, validation_error, nx_error, ok}
use chrono_nextos.Recipe.{Recipe}
use chrono_nextos.Journal.{Journal, PathRecord, pending, installed}
use chrono_nextos.Marker.Encode.{MarkedPlan, marker_value}
use chrono_nextos.Journal.Encode.{journal_value}
use chrono_nextos.Disk.{
  document, Object, lookup, Root, absent, real, blocked, Disk, World, done, M, ◌>>=◌, ◌>>◌, pure,
  lift, reads, durable, require, safe_object, safe_transaction_object, ensure_no_symlink_parents,
  fsync_directory, backup_tree_is_empty, ensure_transaction_root, is_absent,
}
use chrono_nextos.Disk.Runs.{Quiet, Ends, Runs, Runs-durable, Runs-bind, Runs-reads, Runs-require}
use chrono_nextos.Transaction.{Payload, make_backup_root, make_root, made_root, has_journal}
use chrono_nextos.Transaction.CommitStage.{path_record, path_records, with_phase, open_transaction}
use chrono_nextos.Transaction.Invariant.{
  Setting, Untouched, paths, IsItem, Frame, Moving, SameItems, Restored, Recoverable, Progress,
  Fresh, all_ready,
}
use chrono_nextos.Transaction.RollbackItem.{is_some, safe_object-payload}
use chrono_nextos.Transaction.Rollback.{Untouched-of, empty_backup}
use chrono_nextos.Transaction.Install.{Open, Progress-Open, Frame-journal}

-- The record that a commit makes of a path.
abbrev pub record_of : (Text → Option Object) → Text → PathRecord
record_of old p = record { path = p; had_live = is_some (old p); phase = pending; legacy = false }

-- The transaction that begins on a disk.
abbrev pub begun : Disk → Recipe → MarkedPlan → Text → ℕ → Setting
begun d recipe plan transaction_id completed = record {
  old = λ p. lookup p d.live;
  new = λ p. lookup p d.stage;
  recipe = recipe;
  plan = plan;
  transaction_id = transaction_id;
  completed = completed;
  items = map (record_of (λ p. lookup p d.live)) plan.commit_paths;
}

pub SameItems-refl : (items : List PathRecord) → SameItems items items
SameItems-refl [] = tt
SameItems-refl (item ∷ items) = ((refl, refl, refl), SameItems-refl items)

pub SameItems-installed :
    (items : List PathRecord) → SameItems (map (with_phase installed) items) items
SameItems-installed [] = tt
SameItems-installed (item ∷ items) = ((refl, refl, refl), SameItems-installed items)

module _ (d0 : Disk) (recipe : Recipe) (payload : Payload) (plan : MarkedPlan)
    (transaction_id : Text) (completed : ℕ) where
  abbrev pub this : Setting
  this = begun d0 recipe plan transaction_id completed

  -- A disk on which a commit may begin: a stage with every commit path, no backup and no journal,
  -- real parents, paths that are valid and distinct, and a transaction id that no marker has.
  pub record IsReady : Type 0 where
    pub frame : Frame this payload d0
    pub no_backup : d0.backup ≡ []
    pub no_journal : d0.journal ≡ none
    pub items_ok : All (IsItem this payload) this.items
    pub distinct : Fresh [] this.items

  -- Every staged object is live, and the marker seals the live payload.
  pub record Complete (d : Disk) : Type 0 where
    pub progress : Progress this payload (all_ready [] this.items) d
    pub payload_seal : Text
    pub payload_objects : ℕ
    pub sealed : payload.seal plan.commit_paths d.live ≡ ok (payload_seal, payload_objects)
    pub checked : payload.check_outputs plan.abi d.live ≡ ok tt
    pub published :
        d.marker
        ≡ some (marker_value recipe plan transaction_id completed payload_seal payload_objects)

  -- After a failure: with the power on and no other failure, everything is restored.
  abbrev pub Failed : Bool → Disk → Type 0
  Failed quiet d = ((quiet ≡ false) × Recoverable this payload d) ⊎ Restored this payload d

  module _ (quiet : Bool) (r : IsReady) where
    abbrev pub Final : Disk → Type 0
    Final = Recoverable this payload

    pub final : (d : Disk) → Moving this payload (paths this payload) d → Final d
    final d m = inl m

    abbrev pub Begun : Disk → Type 0
    Begun = Restored this payload

    pub quiet_step :
        (P Q : Disk → Type 0) (f : Disk → Disk)
        → ((d : Disk) → P d → Final d)
        → ((d : Disk) → Q d → Final d)
        → ((d : Disk) → P d → Q (f d))
        → Runs quiet Final P (durable f) (λ _ d. Q d) (Failed quiet)
    quiet_step P Q f fp fq h =
        Runs-durable quiet Final P (λ _ d. Q d) (Failed quiet) f h
          (λ d loud p. (inl (loud, fp d p), inl (loud, fq (f d) (h d p))))
          (λ d loud p. (fp d p, fq (f d) (h d p)))

    pub and_then :
        (P P' : Disk → Type 0) (Q : Unit {0} → Disk → Type 0) (m k : M (Unit {0}))
        → Runs quiet Final P m (λ _ d. P' d) (Failed quiet)
        → Runs quiet Final P' k Q (Failed quiet)
        → Runs quiet Final P (m >> k) Q (Failed quiet)
    and_then P P' Q m k hm hk =
        Runs-bind quiet Final P (λ _ d. P' d) Q (Failed quiet) m (λ _. k) hm (λ _. hk)

    -- A test that holds under the condition.
    holds :
        (test : Disk → Bool) (e : Fault) (k : M (Unit {0}))
        → ((d : Disk) → Begun d → test d ≡ true)
        → Runs quiet Final Begun k (λ _ d. Begun d) (Failed quiet)
        → Runs quiet Final Begun
            (reads test >>= λ b. require b e >> k)
            (λ _ d. Begun d)
            (Failed quiet)
    holds test e k h hk =
        Runs-bind quiet Final Begun (λ b d. Begun d × (b ≡ test d)) (λ _ d. Begun d) (Failed quiet)
          (reads test) _ (Runs-reads quiet Final _ _ _ test (λ d x. (x, refl)))
          (λ b.
            and_then (λ d. Begun d × (b ≡ test d)) Begun _ (require b e) k
              (Runs-require quiet Final _ _ _ b e (λ d x t. x.0) (λ d x t. cc (t, x.1, h d x.0)))
              hk)

    fails_not :
        (test : Disk → Bool) (e : Fault) (k : M (Unit {0}))
        → ((d : Disk) → Begun d → test d ≡ false)
        → Runs quiet Final Begun k (λ _ d. Begun d) (Failed quiet)
        → Runs quiet Final Begun
            (reads test >>= λ b. require (not b) e >> k)
            (λ _ d. Begun d)
            (Failed quiet)
    fails_not test e k h hk =
        Runs-bind quiet Final Begun (λ b d. Begun d × (b ≡ test d)) (λ _ d. Begun d) (Failed quiet)
          (reads test) _ (Runs-reads quiet Final _ _ _ test (λ d x. (x, refl)))
          (λ b.
            and_then (λ d. Begun d × (b ≡ test d)) Begun _ (require (not b) e) k
              (Runs-require quiet Final _ _ _ (not b) e (λ d x t. x.0)
                (λ d x t. absurd (differ b (test d) t x.1 (h d x.0))))
              hk)
      where
        differ : (a b : Bool) → not a ≡ false → a ≡ b → b ≡ false → ⊥
        differ a b e f g = ground arith

    stage_checked :
        Runs quiet Final Begun
          (ensure_transaction_root (λ d. d.stage_root))
          (λ _ d. Begun d)
          (Failed quiet)
    unfolding ensure_transaction_root
    stage_checked = record { at = λ w q m. simp m.0.stage_ready (q, m) }

    backup_made : Runs quiet Final Begun make_backup_root (λ _ d. Begun d) (Failed quiet)
    unfolding make_backup_root
    backup_made = record {
      at = λ w q m. made w.disk.backup_root m.0.backup_ready w q (made_disk w.disk m);
    }
      where
        made_disk :
            (d : Disk) → Begun d → Begun (record d { backup_root = make_root d.backup_root })
        made_disk d (f, j, slots) = (
          record {
            stage_ready = f.stage_ready;
            backup_ready = λ e. f.backup_ready (blocked_of d.backup_root e);
            open_live = f.open_live;
            open_stage = f.open_stage;
            open_backup = f.open_backup;
            marker_ok = f.marker_ok;
          },
          j,
          slots,
        )
          where
            blocked_of : (root : Root) → make_root root ≡ blocked → root ≡ blocked
            blocked_of absent e = cc
            blocked_of real e = e
            blocked_of blocked e = e

        made :
            (root : Root)
            → root ≢ blocked
            → (w : World) → Quiet quiet Final w
            → Begun (record w.disk { backup_root = make_root w.disk.backup_root })
            → Ends quiet Final
                (λ _ d. Begun d)
                (Failed quiet)
                (made_root root)
                (record w { disk = record w.disk { backup_root = make_root w.disk.backup_root } })
        made absent n w q m = (q, m)
        made real n w q m = (q, m)
        made blocked n w q m = absurd (n refl)

    pub open_transaction-Runs :
        Runs quiet Final Begun
          (open_transaction recipe payload plan transaction_id completed)
          (λ _ d. Begun d)
          (Failed quiet)
    unfolding open_transaction fsync_directory
    open_transaction-Runs = and_then Begun Begun _ _ _ stage_checked (
        fails_not (λ d. is_absent d.stage_root) validation_error _ (λ d b. rw b.0.stage_ready)
          (and_then Begun Begun _ _ _ backup_made (
            holds backup_tree_is_empty nx_error _ (λ d b. empty_backup this payload d b.2)
              (fails_not has_journal nx_error _ (λ d b. rw b.1)
                (quiet_step Begun Begun _ (λ d b. inr b) (λ d b. inr b) (λ d b. b))))))

    -- One path record, and all of them: what the disk of the beginning gives.
    abbrev pub record_at : Text → PathRecord
    record_at = record_of this.old

    path_record-eq :
        (p : Text) (w : World)
        → IsItem this payload (record_at p)
        → Begun w.disk
        → path_record recipe p w ≡ (done (record_at p), w)
    unfolding path_record ◌>>=◌ lift safe_transaction_object ensure_no_symlink_parents pure
    path_record-eq p w i b = rw (
      i.valid,
      staged_ok (this.new p) refl,
      b.0.open_stage p i.member,
      b.0.open_live p i.member,
      live_ok,
    )
      where
        here : Untouched (this.old p) (this.new p) p w.disk
        here = Untouched-of this payload w.disk b.2 p

        staged_ok :
            (o : Option Object) → this.new p ≡ o → safe_object (lookup p w.disk.stage) ≡ ok true
        staged_ok none e = absurd (i.staged e)
        staged_ok (some x) e =
            ap safe_object (here.1 ∙ e)
            ∙ safe_object-payload (some x) (λ y h. i.payload_new y (e ∙ h))

        live_ok : safe_object (lookup p w.disk.live) ≡ ok (is_some (this.old p))
        live_ok = ap safe_object here.0 ∙ safe_object-payload (this.old p) i.payload_old

    path_records-eq :
        (ps : List Text) (w : World)
        → All (IsItem this payload) (map record_at ps)
        → Begun w.disk
        → path_records recipe ps w ≡ (done (map record_at ps), w)
    unfolding path_records ◌>>=◌ pure
    path_records-eq [] w i b = refl
    path_records-eq (p ∷ ps) w i b = rw (path_record-eq p w i.0 b, path_records-eq ps w i.1 b)

    pub path_records-Runs :
        Runs quiet Final Begun
          (path_records recipe plan.commit_paths)
          (λ items d. Begun d × (items ≡ this.items))
          (Failed quiet)
    path_records-Runs = record {
      at = λ w q b. rw (path_records-eq plan.commit_paths w r.items_ok b) (q, (b, refl));
    }

    abbrev pub Reached : List Text → Disk → Type 0
    Reached = Progress this payload

    abbrev pub everything : List Text
    everything = all_ready [] this.items

    pub Begun-Reached :
        (journal : Journal) (d : Disk)
        → journal.transaction_id ≡ transaction_id
        → journal.abi ≡ plan.abi
        → SameItems journal.paths this.items
        → Begun d
        → Reached [] (record d { journal = some (document (journal_value recipe journal)) })
    Begun-Reached journal d id abi same (f, j, slots) = (
      Frame-journal this payload quiet Final final d _ f,
      record { journal = journal; stored = refl; same_id = id; same_abi = abi; same_items = same },
      λ q. inr (λ i. i tt, Untouched-of this payload d slots q),
    )

    pub Reached-none : (d : Disk) → Reached [] d → Open this payload quiet Final final d
    Reached-none d = Progress-Open this payload quiet Final final [] d (λ q i. absurd (i tt))

    inside-All :
        (ready : List Text) (items : List PathRecord)
        → All (IsItem this payload) items
        → ((q : Text) → In q ready → In q (paths this payload))
        → (q : Text) → In q (all_ready ready items)
        → In q (paths this payload)
    inside-All ready [] i h = h
    inside-All ready (item ∷ items) i h =
        inside-All (item.path ∷ ready) items i.1
          (λ q. elim [ inl e ↦ rw e i.0.member | inr k ↦ h q k ])

    pub Reached-all : (d : Disk) → Reached everything d → Open this payload quiet Final final d
    Reached-all d =
        Progress-Open this payload quiet Final final everything d
          (inside-All [] this.items r.items_ok (λ q i. absurd (i tt)))

-- ===== src/Transaction/Recover.antt =====
-- `recover_transaction`, from any state that an interrupted commit or recovery leaves.
use chrono_nextos.Prelude.{◌≡◌, ◌⊎◌, inl, inr, Bool, false, none, some, In}
use chrono_nextos.Prelude.Text.{Text}
use chrono_nextos.Fault.{ok}
use chrono_nextos.Json.{Value, Fields}
use chrono_nextos.Marker.{marker_matches_recipe}
use chrono_nextos.Marker.Matches.{marker_value-Returns}
use chrono_nextos.Journal.Encode.{journal_value}
use chrono_nextos.Disk.{lookup, Disk, World, ◌>>=◌, reads, document}
use chrono_nextos.Disk.Runs.{Quiet, Runs, Runs-weaken}
use chrono_nextos.Transaction.{Payload}
use chrono_nextos.Transaction.Recovery.{load_marker, recover_transaction}
use chrono_nextos.Transaction.Invariant.{
  Setting, IsOurs, paths, Frame, Written, Moving, Slots, Restored, Untouched, BackedUp, Installed,
}
use chrono_nextos.Transaction.Rollback.{rollback_transaction-Runs}
use chrono_nextos.Transaction.Planned.{
  SameItems-paths, SameItems-IsItem, IsPlanned, Decided, Cleared, Consistent,
}
use chrono_nextos.Transaction.Resume.{
  is_published-ok, Recovers, recover-Written, recover_none, recover_decided, resume-Runs,
}
use chrono_nextos.Transaction.Seal.{is_published-new}

module _ (portable_path_key : Text → Text) (s : Setting) (payload : Payload) where
  -- All old or all new; after a recovery that nothing disturbs, without a journal.
  abbrev pub Settled : Bool → Disk → Type 0
  Settled quiet d =
      Restored s payload d
      ⊎ (((quiet ≡ false) × Decided portable_path_key s payload d)
          ⊎ Cleared portable_path_key s payload d)

  abbrev pub Disturbed : Bool → Disk → Type 0
  Disturbed quiet d = (quiet ≡ false) × Consistent portable_path_key s payload d

  -- The transaction is published, and stays so.
  abbrev pub Kept : Disk → Type 0
  Kept d = Decided portable_path_key s payload d ⊎ Cleared portable_path_key s payload d

  module _ (quiet : Bool) (i : IsPlanned portable_path_key s payload) where
    abbrev C : Disk → Type 0
    C = Consistent portable_path_key s payload

    abbrev decided_C : (d : Disk) → Decided portable_path_key s payload d → C d
    decided_C d x = inr (inl x)

    abbrev cleared_C : (d : Disk) → Cleared portable_path_key s payload d → C d
    cleared_C d x = inr (inr x)

    abbrev Recovered : World → Type 0
    Recovered = Recovers portable_path_key s payload quiet i C decided_C cleared_C (Settled quiet)

    recover-Moving :
        (w : World) → Quiet quiet C w → Moving s payload (paths s payload) w.disk → Recovered w
    recover-Moving w q (f, j, slots) =
        recover-Written portable_path_key s payload quiet i C decided_C cleared_C (Settled quiet) P
          w j
          (resume-Runs portable_path_key s payload quiet i C decided_C cleared_C P (Settled quiet)
            j.journal (λ d x. inr x)
            (λ d p e. record {
              written = written d p;
              decided = e;
              all_new = (
                is_published-new portable_path_key s payload i.tells i.planned_paths j.journal d p.0
                    (λ x inside. place d x (p.2 x)) j.same_id e,
                λ x out. unmoved d x (p.2 x) out,
              );
            })
            (λ d p e.
              is_published-ok portable_path_key s payload quiet i C decided_C cleared_C j.journal
                (load_marker d) d.live e
                (λ marker there same.
                  checked marker (p.0.marker_ok marker there (rw j.same_id at same))))
            (Runs-weaken quiet C _ _ _ (Moving s payload (paths s payload))
              (λ _ d. Restored s payload d) (Disturbed quiet) _
              (λ d p. (p.0.0, written d p.0, p.0.2)) (λ _ d x. inl x) (λ d x. x)
              (rollback_transaction-Runs s payload quiet C (λ d x. inl x) j.journal.paths
                (SameItems-IsItem s payload _ _ j.same_items i.items_ok)
                (SameItems-paths _ _ j.same_items))))
          q (f, j.stored, slots)
      where
        P : Disk → Type 0
        P d =
            Frame s payload d
            × (d.journal ≡ some (document (journal_value s.recipe j.journal)))
            × Slots s payload (paths s payload) d

        written : (d : Disk) → P d → Written s payload d
        written d p = record {
          journal = j.journal;
          stored = p.1;
          same_id = j.same_id;
          same_abi = j.same_abi;
          same_items = j.same_items;
        }

        checked :
            (marker : Fields)
            → IsOurs s payload marker
            → (answer : Bool) × (marker_matches_recipe portable_path_key (Value.obj marker) s.recipe
                ≡ ok answer)
        checked marker ours = rw ours.stored (
            marker_value-Returns portable_path_key s.recipe s.plan s.transaction_id s.completed
              ours.payload_seal ours.payload_objects i.valid_abi i.expanded)

        place :
            (d : Disk) (x : Text)
            → Untouched (s.old x) (s.new x) x d
              ⊎ (In x (paths s payload)
                  × (BackedUp (s.old x) (s.new x) x d ⊎ Installed (s.old x) (s.new x) x d))
            → (lookup x d.live ≡ none) ⊎ ((lookup x d.live ≡ s.old x) ⊎ (lookup x d.live ≡ s.new x))
        place d x (inl u) = inr (inl u.0)
        place d x (inr (_, inl b)) = inl b.0
        place d x (inr (_, inr n)) = inr (inr n.0)

        unmoved :
            (d : Disk) (x : Text)
            → Untouched (s.old x) (s.new x) x d
              ⊎ (In x (paths s payload)
                  × (BackedUp (s.old x) (s.new x) x d ⊎ Installed (s.old x) (s.new x) x d))
            → (In x (paths s payload) → ⊥)
            → lookup x d.live ≡ s.old x
        unmoved d x (inl u) out = u.0
        unmoved d x (inr (inside, _)) out = absurd (out inside)

    recover_consistent : (w : World) → Quiet quiet C w → C w.disk → Recovered w
    recover_consistent w q (inl (inl m)) = recover-Moving w q m
    recover_consistent w q (inl (inr r)) =
        recover_none portable_path_key s payload quiet i C decided_C cleared_C (Settled quiet) w r.1
          q (inl r)
    recover_consistent w q (inr (inl x)) =
        recover_decided portable_path_key s payload quiet i C decided_C cleared_C (Settled quiet)
          (λ d t. inr t) w q x
    recover_consistent w q (inr (inr c)) =
        recover_none portable_path_key s payload quiet i C decided_C cleared_C (Settled quiet) w c.0
          q (inr (inr c))

    -- From every state that an interrupted process leaves, for a plan of the recipe whose
    -- validation of outputs and whose seal raise only what the recovery catches, and whose staged
    -- objects differ from the earlier ones in something that the seal reads: `recover_transaction`
    -- returns unless an operation of it fails or is cut off, with all old or all new objects live,
    -- and wherever it stops it can be run again.
    pub recover_transaction-Runs :
        Runs quiet
          (Consistent portable_path_key s payload)
          (Consistent portable_path_key s payload)
          (recover_transaction portable_path_key s.recipe payload)
          (λ _ d. Settled quiet d)
          (Disturbed quiet)
    unfolding recover_transaction ◌>>=◌ reads
    recover_transaction-Runs = record { at = λ w q c. recover_consistent w q c }

    kept :
        (w : World)
        → Quiet quiet Kept w
        → Kept w.disk
        → Recovers portable_path_key s payload quiet i Kept (λ d x. inl x) (λ d x. inr x) Kept w
    kept w q (inl x) =
        recover_decided portable_path_key s payload quiet i Kept (λ d x. inl x) (λ d x. inr x) Kept
          (λ d. elim [ inl t ↦ inl t.1 | inr c ↦ inr c ]) w q x
    kept w q (inr c) =
        recover_none portable_path_key s payload quiet i Kept (λ d x. inl x) (λ d x. inr x) Kept w
          c.0 q (inr c)

    -- A transaction that has been found published stays so, however the recovery ends, for a plan
    -- of the recipe whose validation of outputs and whose seal raise only what the recovery
    -- catches, and whose staged objects differ from the earlier ones in something that the seal
    -- reads.
    pub recover_transaction-Kept :
        Runs quiet Kept Kept
          (recover_transaction portable_path_key s.recipe payload)
          (λ _ d. Kept d)
          (λ d. (quiet ≡ false) × Kept d)
    unfolding recover_transaction ◌>>=◌ reads
    recover_transaction-Kept = record { at = λ w q c. kept w q c }

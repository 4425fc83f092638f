-- ===== src/Transaction/Planned.antt =====
-- The transaction of a sound plan, and the states that a recovery may find.
use chrono_nextos.Prelude.{
  ◌≡◌, ◌⊎◌, refl, ap, ap₂, sym, ◌∙◌, true, false, none, List, [], ◌∷◌, All, In,
}
use chrono_nextos.Prelude.Text.{Text}
use chrono_nextos.Fault.{Fault, ok, err}
use chrono_nextos.Json.{is_hex_text, is_abi_text}
use chrono_nextos.Templates.{expand_commit_paths}
use chrono_nextos.Journal.{Journal, PathRecord, validate_transaction_journal}
use chrono_nextos.Journal.Encode.{journal_value}
use chrono_nextos.Journal.RoundTrip.{validate_transaction_journal-journal_value}
use chrono_nextos.Disk.{Area, lookup, Disk}
use chrono_nextos.Transaction.{Payload}
use chrono_nextos.Transaction.Recovery.{load_marker, is_published, catches}
use chrono_nextos.Transaction.Invariant.{
  Setting, IsItem, paths, paths_of, Written, SameItems, Recoverable,
}
use chrono_nextos.Transaction.Seal.{SealTells}

pub SameItems-paths : (as' bs : List PathRecord) → SameItems as' bs → paths_of as' ≡ paths_of bs
SameItems-paths [] [] h = refl
SameItems-paths [] (b ∷ bs) h = absurd h
SameItems-paths (a ∷ as') [] h = absurd h
SameItems-paths (a ∷ as') (b ∷ bs) h =
    ap₂ (λ (x : Text) (xs : List Text). x ∷ xs) h.0.0 (SameItems-paths as' bs h.1)

module _ (s : Setting) (payload : Payload) where
  pub SameItems-IsItem :
      (as' bs : List PathRecord)
      → SameItems as' bs
      → All (IsItem s payload) bs
      → All (IsItem s payload) as'
  SameItems-IsItem [] [] h i = tt
  SameItems-IsItem [] (b ∷ bs) h i = absurd h
  SameItems-IsItem (a ∷ as') [] h i = absurd h
  SameItems-IsItem (a ∷ as') (b ∷ bs) ((p, l, g), h) i = (
    record {
      current = g ∙ i.0.current;
      valid = rw p i.0.valid;
      had = rw p (l ∙ i.0.had);
      staged = rw p i.0.staged;
      member = rw p i.0.member;
      payload_old = rw p i.0.payload_old;
      payload_new = rw p i.0.payload_new;
    },
    SameItems-IsItem as' bs h i.1,
  )

  IsItem-current :
      (items : List PathRecord) → All (IsItem s payload) items → All (λ r. r.legacy ≡ false) items
  IsItem-current [] i = tt
  IsItem-current (item ∷ items) i = (i.0.current, IsItem-current items i.1)

  -- Every staged object is live, and everything else is as it was.
  abbrev pub AllNew : Disk → Type 0
  AllNew d =
      ((p : Text) → In p (paths s payload) → lookup p d.live ≡ s.new p)
      × ((p : Text) → (In p (paths s payload) → ⊥) → lookup p d.live ≡ s.old p)

module _ (portable_path_key : Text → Text) (s : Setting) (payload : Payload) where
  -- What a plan guarantees, and what is asked of the validation of outputs and of the seal.
  pub record IsPlanned : Type 0 where
    pub expanded :
        expand_commit_paths portable_path_key s.recipe.commit s.plan.abi ≡ ok s.plan.commit_paths
    pub valid_id : is_hex_text 32 s.transaction_id ≡ true
    pub valid_abi : is_abi_text s.plan.abi ≡ true
    pub items_ok : All (IsItem s payload) s.items
    pub planned_paths : paths s payload ≡ s.plan.commit_paths
    pub tells : SealTells s payload
    pub caught :
        (abi : Text) (live : Area) (e : Fault)
        → payload.check_outputs abi live ≡ err e
        → catches portable_path_key s.recipe payload e ≡ true
    pub seal_caught :
        (commit : List Text) (live : Area) (e : Fault)
        → payload.seal commit live ≡ err e
        → catches portable_path_key s.recipe payload e ≡ true

  -- The transaction has been found published, and its journal is still there.
  pub record Decided (d : Disk) : Type 0 where
    pub written : Written s payload d
    pub decided :
        is_published portable_path_key s.recipe payload written.journal (load_marker d) d.live
        ≡ ok true
    pub all_new : AllNew s payload d

  abbrev pub Cleared : Disk → Type 0
  Cleared d = (d.journal ≡ none) × AllNew s payload d

  -- What holds between any two processes once the transaction has begun.
  abbrev pub Consistent : Disk → Type 0
  Consistent d = Recoverable s payload d ⊎ (Decided d ⊎ Cleared d)

  pub stored_back :
      (i : IsPlanned) (journal : Journal)
      → journal.transaction_id ≡ s.transaction_id
      → journal.abi ≡ s.plan.abi
      → SameItems journal.paths s.items
      → validate_transaction_journal portable_path_key s.recipe (journal_value s.recipe journal)
        ≡ ok journal
  stored_back i journal id abi same =
      validate_transaction_journal-journal_value portable_path_key s.recipe journal
        (rw id i.valid_id) (rw abi i.valid_abi)
        (rw abi (i.expanded ∙ ap ok (sym i.planned_paths) ∙ ap ok (sym (SameItems-paths _ _ same))))
        (IsItem-current s payload journal.paths (SameItems-IsItem s payload _ _ same i.items_ok))

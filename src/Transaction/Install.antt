-- ===== src/Transaction/Install.antt =====
-- The steps of `commit_stage` on one path.
use mathlib.Core.Path.{subst}
use chrono_nextos.Prelude.{
  ◌≡◌, ◌⊎◌, inl, inr, refl, sym, ◌∙◌, Bool, true, false, not, Option, none, some, List, [], ◌∷◌,
  ◌++◌, arith, In, Bool-cases,
}
use chrono_nextos.Prelude.Text.{Text, text_eq, text_eq_iff}
use chrono_nextos.Fault.{nx_error, ok}
use chrono_nextos.Journal.{Journal, PathRecord, Phase}
use chrono_nextos.Disk.{
  Object, lookup, Disk, M, ◌>>=◌, ◌>>◌, durable, reads, require, Place, area, blocked_in,
  safe_object, safe_transaction_object, JournalFile, ensure_real_parent_directories,
}
use chrono_nextos.Disk.Runs.{Runs, Runs-durable, Runs-bind, Runs-reads, Runs-require}
use chrono_nextos.Transaction.{Payload}
use chrono_nextos.Transaction.CommitStage.{journal_write, with_phase}
use chrono_nextos.Transaction.Invariant.{
  Setting, Untouched, BackedUp, Installed, paths, Frame, Written, Moving, SameItems, At, Progress,
  Free, Inside,
}

pub SameItems-phase :
    (phase : Phase) (before : List PathRecord) (item : PathRecord) (rest items : List PathRecord)
    → SameItems (before ++ (item ∷ rest)) items
    → SameItems (before ++ (with_phase phase item ∷ rest)) items
SameItems-phase phase [] item rest [] h = h
SameItems-phase phase [] item rest (b ∷ items) h = h
SameItems-phase phase (a ∷ before) item rest [] h = h
SameItems-phase phase (a ∷ before) item rest (b ∷ items) h =
    (h.0, SameItems-phase phase before item rest items h.1)

module _ (s : Setting) (payload : Payload) (quiet : Bool) (Final : Disk → Type 0)
    (final : (d : Disk) → Moving s payload (paths s payload) d → Final d) where
  abbrev pub Open : Disk → Type 0
  Open = Moving s payload (paths s payload)

  pub Progress-Open :
      (ready : List Text) (d : Disk) → Inside s payload ready → Progress s payload ready d → Open d
  Progress-Open ready d inside (f, j, at) = (f, j, λ q. place q (at q))
    where
      place :
          (q : Text)
          → At s payload ready q d
          → Untouched (s.old q) (s.new q) q d
            ⊎ (In q (paths s payload)
                × (BackedUp (s.old q) (s.new q) q d ⊎ Installed (s.old q) (s.new q) q d))
      place q (inl (i, n)) = inr (inside q i, inr n)
      place q (inr (_, u)) = inl u

  pub Free-Open :
      (ready : List Text) (p : Text) (d : Disk)
      → Inside s payload ready
      → In p (paths s payload)
      → Free s payload ready p d
      → Open d
  Free-Open ready p d inside member (f, j, (at, (l, t, b))) = (f, j, λ q. place q)
    where
      here :
          (old : Option Object)
          → s.old p ≡ old
          → Untouched (s.old p) (s.new p) p d
            ⊎ (In p (paths s payload)
                × (BackedUp (s.old p) (s.new p) p d ⊎ Installed (s.old p) (s.new p) p d))
      here none e = inl (l ∙ sym e, t, b ∙ e)
      here (some o) e = inr (member, inl (l, t, b, λ z. cc (e, z)))

      there :
          (q : Text)
          → At s payload ready q d
          → Untouched (s.old q) (s.new q) q d
            ⊎ (In q (paths s payload)
                × (BackedUp (s.old q) (s.new q) q d ⊎ Installed (s.old q) (s.new q) q d))
      there q (inl (i, n)) = inr (inside q i, inr n)
      there q (inr (_, u)) = inl u

      place :
          (q : Text)
          → Untouched (s.old q) (s.new q) q d
            ⊎ (In q (paths s payload)
                × (BackedUp (s.old q) (s.new q) q d ⊎ Installed (s.old q) (s.new q) q d))
      place q = elim (Bool-cases (text_eq p q)) [
        | inl e ↦
            subst
              (λ x.
                Untouched (s.old x) (s.new x) x d
                ⊎ (In x (paths s payload)
                    × (BackedUp (s.old x) (s.new x) x d ⊎ Installed (s.old x) (s.new x) x d)))
              ((text_eq_iff p q).0 e) (here (s.old p) refl)
        | inr ne ↦ there q (at q ne)
      ]

  -- A durable step between two conditions, both of which keep the transaction open.
  pub Open-Runs :
      (P Q : Disk → Type 0) (f : Disk → Disk)
      → ((d : Disk) → P d → Open d)
      → ((d : Disk) → Q d → Open d)
      → ((d : Disk) → P d → Q (f d))
      → Runs quiet Final P (durable f) (λ _ d. Q d) Open
  Open-Runs P Q f op oq h =
      Runs-durable quiet Final P (λ _ d. Q d) Open f h (λ d loud p. (op d p, oq (f d) (h d p)))
        (λ d loud p. (final d (op d p), final (f d) (oq (f d) (h d p))))

  pub then-Runs :
      (P P' : Disk → Type 0) (Q : Unit {0} → Disk → Type 0) (m k : M (Unit {0}))
      → Runs quiet Final P m (λ _ d. P' d) Open
      → Runs quiet Final P' k Q Open
      → Runs quiet Final P (m >> k) Q Open
  then-Runs P P' Q m k hm hk = Runs-bind quiet Final P (λ _ d. P' d) Q Open m (λ _. k) hm (λ _. hk)

  -- A payload object that is there under the condition.
  pub object-Runs :
      (P : Disk → Type 0) (Q : Unit {0} → Disk → Type 0) (place : Place) (p : Text)
      (k : M (Unit {0}))
      → ((d : Disk) → P d → safe_object (lookup p (area place d)) ≡ ok true)
      → Runs quiet Final P k Q Open
      → Runs quiet Final P
          (safe_transaction_object place p >>= λ found. require found nx_error >> k)
          Q
          Open
  unfolding safe_transaction_object
  object-Runs P Q place p k h hk =
      Runs-bind quiet Final P (λ found d. P d × (found ≡ true)) Q Open
        (safe_transaction_object place p) _
        (record { at = λ w q x. rw (h w.disk x) (q, (x, refl)) })
        (λ found.
          then-Runs (λ d. P d × (found ≡ true)) P Q (require found nx_error) k
            (Runs-require quiet Final _ _ _ found nx_error (λ d x e. x.0) (λ d x e. cc (e, x.1)))
            hk)

  pub parents-Runs :
      (P : Disk → Type 0) (place : Place) (p : Text)
      → ((d : Disk) → P d → blocked_in place d p ≡ false)
      → Runs quiet Final P (ensure_real_parent_directories place p) (λ _ d. P d) Open
  unfolding ensure_real_parent_directories
  parents-Runs P place p h = record { at = λ w q x. rw (h w.disk x) (q, x) }

  -- A test that is false under the condition.
  pub passes-Runs :
      (P : Disk → Type 0) (Q : Unit {0} → Disk → Type 0) (test : Disk → Bool) (k : M (Unit {0}))
      → ((d : Disk) → P d → test d ≡ false)
      → Runs quiet Final P k Q Open
      → Runs quiet Final P (reads test >>= λ found. require (not found) nx_error >> k) Q Open
  passes-Runs P Q test k h hk =
      Runs-bind quiet Final P (λ found d. P d × (found ≡ test d)) Q Open (reads test) _
        (Runs-reads quiet Final _ _ _ test (λ d x. (x, refl)))
        (λ found.
          then-Runs (λ d. P d × (found ≡ test d)) P Q (require (not found) nx_error) k
            (Runs-require quiet Final _ _ _ (not found) nx_error (λ d x e. x.0)
              (λ d x e. absurd (differ found (test d) e x.1 (h d x.0))))
            hk)
    where
      differ : (a b : Bool) → not a ≡ false → a ≡ b → b ≡ false → ⊥
      differ a b e f g = ground arith

  abbrev pub IsJournal : Journal → Type 0
  IsJournal j =
      (j.transaction_id ≡ s.transaction_id) × (j.abi ≡ s.plan.abi) × SameItems j.paths s.items

  pub Frame-journal :
      (d : Disk) (file : Option JournalFile)
      → Frame s payload d
      → Frame s payload (record d { journal = file })
  Frame-journal d file f = record {
    stage_ready = f.stage_ready;
    backup_ready = f.backup_ready;
    open_live = f.open_live;
    open_stage = f.open_stage;
    open_backup = f.open_backup;
    marker_ok = f.marker_ok;
  }

  abbrev pub Framed : (Disk → Type 0) → Disk → Type 0
  Framed X d = Frame s payload d × Written s payload d × X d

  pub journal_write-Runs :
      (X : Disk → Type 0) (j : Journal)
      → IsJournal j
      → ((d : Disk) (file : Option JournalFile) → X d → X (record d { journal = file }))
      → ((d : Disk) → Framed X d → Open d)
      → Runs quiet Final (Framed X) (journal_write s.recipe j) (λ _ d. Framed X d) Open
  unfolding journal_write
  journal_write-Runs X j i keeps op = Open-Runs (Framed X) (Framed X) _ op op (λ d (f, w, x). (
    Frame-journal d _ f,
    record { journal = j; stored = refl; same_id = i.0; same_abi = i.1; same_items = i.2 },
    keeps d _ x,
  ))

-- ===== src/Transaction/Invariant.antt =====
-- Where the objects of a transaction can be between its first journal and its end, and how the
-- renames of commit and rollback move them.
use chrono_nextos.Prelude.{
  ℕ, ◌≡◌, ◌≢◌, ◌⊎◌, inl, inr, sym, ◌∙◌, true, false, Option, none, some, List, [], ◌∷◌, map, In,
  Bool-cases,
}
use chrono_nextos.Prelude.Text.{Text, text_eq, text_eq_iff}
use chrono_nextos.Fault.{ok}
use chrono_nextos.Json.{Value, Fields, get, equals_text}
use chrono_nextos.Recipe.{Recipe}
use chrono_nextos.Paths.{validate_relative_path}
use chrono_nextos.Journal.{Journal, PathRecord}
use chrono_nextos.Journal.Encode.{journal_value}
use chrono_nextos.Marker.Encode.{MarkedPlan, marker_value}
use chrono_nextos.Disk.{Object, Area, lookup, real, blocked, document, Disk, safe_kind}
use mathlib.Core.Path.{subst}
use mathlib.Core.Bool.{false≢true}
use chrono_nextos.Disk.Areas.{Same}
use chrono_nextos.Transaction.{Payload}
use chrono_nextos.Transaction.Recovery.{load_marker}

abbrev pub paths_of : List PathRecord → List Text
paths_of = map (λ item. item.path)

-- A regular file or a directory, or nothing.
abbrev pub IsPayload : Option Object → Type 0
IsPayload o = (x : Object) → o ≡ some x → safe_kind x.kind ≡ ok true

-- The three places of a path `p`, against the live object `old` and the staged object `new` from
-- before the transaction: nothing was moved; the live object is in the backup; the staged object
-- is live.
abbrev pub Untouched : Option Object → Option Object → Text → Disk → Type 0
Untouched old new p d =
    (lookup p d.live ≡ old) × (lookup p d.stage ≡ new) × (lookup p d.backup ≡ none)

abbrev pub BackedUp : Option Object → Option Object → Text → Disk → Type 0
BackedUp old new p d =
    (lookup p d.live ≡ none) × (lookup p d.stage ≡ new) × (lookup p d.backup ≡ old) × (old ≢ none)

abbrev pub Installed : Option Object → Option Object → Text → Disk → Type 0
Installed old new p d =
    (lookup p d.live ≡ new) × (lookup p d.stage ≡ none) × (lookup p d.backup ≡ old) × (new ≢ none)

-- A transaction: what was live and staged at its beginning, its recipe and plan, its id, and the
-- records of its paths.
pub record Setting : Type 0 where
  pub old : Text → Option Object
  pub new : Text → Option Object
  pub recipe : Recipe
  pub plan : MarkedPlan
  pub transaction_id : Text
  pub completed : ℕ
  pub items : List PathRecord

-- The same paths, with any phases.
abbrev pub SameItems : List PathRecord → List PathRecord → Type 0
SameItems [] [] = Unit
SameItems [] (b ∷ bs) = ⊥
SameItems (a ∷ as') [] = ⊥
SameItems (a ∷ as') (b ∷ bs) =
    ((a.path ≡ b.path) × (a.had_live ≡ b.had_live) × (a.legacy ≡ b.legacy)) × SameItems as' bs

-- No path of `items` comes twice, or is among those that are ready.
abbrev pub Fresh : List Text → List PathRecord → Type 0
Fresh ready [] = Unit
Fresh ready (item ∷ items) = (In item.path ready → ⊥) × Fresh (item.path ∷ ready) items

-- The paths that are ready once all items are installed.
abbrev pub all_ready : List Text → List PathRecord → List Text
all_ready ready [] = ready
all_ready ready (item ∷ items) = all_ready (item.path ∷ ready) items

module _ (s : Setting) (payload : Payload) where
  abbrev pub paths : List Text
  paths = paths_of s.items

  -- The record of a path is current, valid and right about the live object; something is staged.
  pub record IsItem (item : PathRecord) : Type 0 where
    pub current : item.legacy ≡ false
    pub valid : validate_relative_path item.path false ≡ ok item.path
    pub had : item.had_live ≡ elim (s.old item.path) [ none ↦ false | some o ↦ true ]
    pub staged : s.new item.path ≢ none
    pub member : In item.path paths
    pub payload_old : IsPayload (s.old item.path)
    pub payload_new : IsPayload (s.new item.path)

  -- Only paths of `todo` have objects that are moved.
  abbrev pub Slots : List Text → Disk → Type 0
  Slots todo d =
      (p : Text)
      → Untouched (s.old p) (s.new p) p d
        ⊎ (In p todo × (BackedUp (s.old p) (s.new p) p d ⊎ Installed (s.old p) (s.new p) p d))

  -- The marker of this transaction seals an area with every staged object in its place.
  pub record IsOurs (marker : Fields) : Type 0 where
    pub payload_seal : Text
    pub payload_objects : ℕ
    pub final : Area
    pub sealed : payload.seal s.plan.commit_paths final ≡ ok (payload_seal, payload_objects)
    pub complete : (p : Text) → In p paths → lookup p final ≡ s.new p
    pub stored :
        Value.obj marker
        ≡ marker_value s.recipe s.plan s.transaction_id s.completed payload_seal payload_objects

  pub record Frame (d : Disk) : Type 0 where
    pub stage_ready : d.stage_root ≡ real
    pub backup_ready : d.backup_root ≢ blocked
    pub open_live : (p : Text) → In p paths → d.live_blocked p ≡ false
    pub open_stage : (p : Text) → In p paths → d.stage_blocked p ≡ false
    pub open_backup : (p : Text) → In p paths → d.backup_blocked p ≡ false
    pub marker_ok :
        (marker : Fields)
        → load_marker d ≡ some marker
        → equals_text (get "transaction_id" marker) s.transaction_id ≡ true
        → IsOurs marker

  -- A journal of this transaction is stored, with these paths and any phases.
  pub record Written (d : Disk) : Type 0 where
    pub journal : Journal
    pub stored : d.journal ≡ some (document (journal_value s.recipe journal))
    pub same_id : journal.transaction_id ≡ s.transaction_id
    pub same_abi : journal.abi ≡ s.plan.abi
    pub same_items : SameItems journal.paths s.items

  abbrev pub Moving : List Text → Disk → Type 0
  Moving todo d = Frame d × Written d × Slots todo d

  -- Everything is where it was before the transaction, and no journal is left.
  abbrev pub Restored : Disk → Type 0
  Restored d = Frame d × (d.journal ≡ none) × Slots [] d

  -- What holds whenever the process may end before the payload is published.
  abbrev pub Recoverable : Disk → Type 0
  Recoverable d = Moving paths d ⊎ Restored d

  -- The paths that are done are installed, and all others are untouched.
  abbrev pub At : List Text → Text → Disk → Type 0
  At ready q d =
      (In q ready × Installed (s.old q) (s.new q) q d)
      ⊎ ((In q ready → ⊥) × Untouched (s.old q) (s.new q) q d)

  abbrev pub Progress : List Text → Disk → Type 0
  Progress ready d = Frame d × Written d × ((q : Text) → At ready q d)

  -- The same but for one path, which is free for the staged object.
  abbrev pub Free : List Text → Text → Disk → Type 0
  Free ready p d =
      Frame d
      × Written d
      × (((q : Text) → text_eq p q ≡ false → At ready q d)
          × ((lookup p d.live ≡ none)
              × (lookup p d.stage ≡ s.new p)
              × (lookup p d.backup ≡ s.old p)))

  abbrev pub Inside : List Text → Type 0
  Inside ready = (q : Text) → In q ready → In q (paths)

  pub Slots-weaken :
      (ps qs : List Text) (d : Disk) → ((p : Text) → In p ps → In p qs) → Slots ps d → Slots qs d
  Slots-weaken ps qs d h slots p = weaken (slots p)
    where
      weaken :
          Untouched (s.old p) (s.new p) p d
            ⊎ (In p ps × (BackedUp (s.old p) (s.new p) p d ⊎ Installed (s.old p) (s.new p) p d))
          → Untouched (s.old p) (s.new p) p d
            ⊎ (In p qs × (BackedUp (s.old p) (s.new p) p d ⊎ Installed (s.old p) (s.new p) p d))
      weaken (inl u) = inl u
      weaken (inr (i, m)) = inr (h p i, m)

  -- What changes at one path alone keeps the places of all others.
  module _ (p : Text) (d d' : Disk) (other : (q : Text) → text_eq p q ≡ false → Same q d d') where
    abbrev PlaceOf : List Text → Text → Disk → Type 0
    PlaceOf todo q e =
        Untouched (s.old q) (s.new q) q e
        ⊎ (In q todo × (BackedUp (s.old q) (s.new q) q e ⊎ Installed (s.old q) (s.new q) q e))

    kept :
        (todo : List Text) (q : Text) → text_eq p q ≡ false → PlaceOf todo q d → PlaceOf todo q d'
    kept todo q ne (inl (l, t, b)) = let (el, et, eb) = other q ne in inl (el ∙ l, et ∙ t, eb ∙ b)
    kept todo q ne (inr (i, inl (l, t, b, n))) =
        let (el, et, eb) = other q ne in inr (i, inl (el ∙ l, et ∙ t, eb ∙ b, n))
    kept todo q ne (inr (i, inr (l, t, b, n))) =
        let (el, et, eb) = other q ne in inr (i, inr (el ∙ l, et ∙ t, eb ∙ b, n))

    done_with :
        (todo : List Text) (q : Text)
        → text_eq p q ≡ false
        → PlaceOf (p ∷ todo) q d
        → PlaceOf todo q d
    done_with todo q ne (inl u) = inl u
    done_with todo q ne (inr (inl e, m)) =
        absurd (false≢true (sym ne ∙ (text_eq_iff p q).1 (sym e)))
    done_with todo q ne (inr (inr i, m)) = inr (i, m)

    -- The path is moved, and stays among those to do.
    pub Slots-moved : (todo : List Text) → PlaceOf todo p d' → Slots todo d → Slots todo d'
    Slots-moved todo here slots q = elim (Bool-cases (text_eq p q)) [
      | inl e ↦ subst (λ x. PlaceOf todo x d') ((text_eq_iff p q).0 e) here
      | inr e ↦ kept todo q e (slots q)
    ]

    -- The path is back in its place, and leaves those to do.
    pub Slots-Untouched :
        (todo : List Text) → Untouched (s.old p) (s.new p) p d' → Slots (p ∷ todo) d → Slots todo d'
    Slots-Untouched todo here slots q = elim (Bool-cases (text_eq p q)) [
      | inl e ↦ subst (λ x. PlaceOf todo x d') ((text_eq_iff p q).0 e) (inl here)
      | inr e ↦ kept todo q e (done_with todo q e (slots q))
    ]

  -- Frame and journal do not depend on the three places.
  pub Frame-areas :
      (d : Disk) (l t b : Area) → Frame d → Frame (record d { live = l; stage = t; backup = b })
  Frame-areas d l t b f = record {
    stage_ready = f.stage_ready;
    backup_ready = f.backup_ready;
    open_live = f.open_live;
    open_stage = f.open_stage;
    open_backup = f.open_backup;
    marker_ok = f.marker_ok;
  }

  pub Written-areas :
      (d : Disk) (l t b : Area) → Written d → Written (record d { live = l; stage = t; backup = b })
  Written-areas d l t b w = record {
    journal = w.journal;
    stored = w.stored;
    same_id = w.same_id;
    same_abi = w.same_abi;
    same_items = w.same_items;
  }

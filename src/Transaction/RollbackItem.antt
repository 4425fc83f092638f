-- ===== src/Transaction/RollbackItem.antt =====
-- `rollback_transaction` on one path and on all of them, wherever the transaction was stopped.
use mathlib.Core.Path.{subst}
use chrono_nextos.Prelude.{
  ◌≡◌, ◌≢◌, ◌⊎◌, inl, inr, refl, ap, sym, ◌∙◌, Bool, true, false, Option, none, some, List, [], ◌∷◌,
  All, In, if◌then◌else◌, Bool-cases,
}
use chrono_nextos.Prelude.Text.{Text}
use chrono_nextos.Fault.{ok}
use chrono_nextos.Journal.{PathRecord}
use chrono_nextos.Disk.{
  Object, lookup, Disk, World, Outcome, done, ◌>>=◌, pure, safe_object, safe_transaction_object,
  lift, reads, ensure_no_symlink_parents, is_absent,
}
use chrono_nextos.Disk.Runs.{Quiet, Ends, Runs, Runs-bind, Runs-pure}
use chrono_nextos.Transaction.{
  Payload, had_live_object, put_back, restore_live, remove_new, rollback_object,
  check_backup_parents, rollback_item, rollback_paths,
}
use chrono_nextos.Transaction.Invariant.{
  Setting, IsPayload, Untouched, BackedUp, Installed, IsItem, Frame, Moving, Recoverable,
  Slots-Untouched, paths_of,
}
use chrono_nextos.Transaction.Renames.{Stopped, Within, put_back-Runs, restore-Runs, remove-Runs}

abbrev pub is_some : Option Object → Bool
is_some none = false
is_some (some o) = true

pub safe_object-payload : (o : Option Object) → IsPayload o → safe_object o ≡ ok (is_some o)
safe_object-payload none h = refl
safe_object-payload (some x) h = h x refl

module _ (s : Setting) (payload : Payload) (quiet : Bool) (Final : Disk → Type 0)
    (final : (d : Disk) → Recoverable s payload d → Final d) where
  -- With all parents real and all objects payload, an item is rolled back by its branch alone.
  rollback_item-eq :
      (item : PathRecord) (w : World) (l t b : Option Object)
      → IsItem s payload item
      → Frame s payload w.disk
      → lookup item.path w.disk.live ≡ l
      → lookup item.path w.disk.stage ≡ t
      → lookup item.path w.disk.backup ≡ b
      → IsPayload l
      → IsPayload t
      → IsPayload b
      → rollback_item item w
        ≡ (if item.had_live
              then restore_live (is_some b) (is_some l) (is_some t) item.path
              else remove_new (is_some b) (is_some l) (is_some t) item.path)
            w
  unfolding rollback_item ◌>>=◌ lift reads ensure_no_symlink_parents check_backup_parents
      rollback_object safe_transaction_object had_live_object pure
  rollback_item-eq item w l t b i f el et eb pl pt pb =
      elim (Bool-cases (is_absent w.disk.backup_root)) [
        | inl gone ↦ rw (
          i.valid,
          f.open_live item.path i.member,
          f.open_stage item.path i.member,
          gone,
          sl,
          st,
          sb,
          i.current,
        )
        | inr there ↦ rw (
          i.valid,
          f.open_live item.path i.member,
          f.open_stage item.path i.member,
          there,
          f.open_backup item.path i.member,
          sl,
          st,
          sb,
          i.current,
        )
      ]
    where
      sl : safe_object (lookup item.path w.disk.live) ≡ ok (is_some l)
      sl = ap safe_object el ∙ safe_object-payload l pl

      st : safe_object (lookup item.path w.disk.stage) ≡ ok (is_some t)
      st = ap safe_object et ∙ safe_object-payload t pt

      sb : safe_object (lookup item.path w.disk.backup) ≡ ok (is_some b)
      sb = ap safe_object eb ∙ safe_object-payload b pb

  none-IsPayload : IsPayload none
  none-IsPayload x e = cc

  -- The branch that the places of the item's path select.
  module _ (item : PathRecord) (w : World) (i : IsItem s payload item)
      (f : Frame s payload w.disk) where
    Untouched-eq :
        Untouched (s.old item.path) (s.new item.path) item.path w.disk
        → rollback_item item w ≡ (done tt, w)
    Untouched-eq (l, t, b) =
        rollback_item-eq item w (s.old item.path) (s.new item.path) none i f l t b i.payload_old
          i.payload_new none-IsPayload
        ∙ branch (s.old item.path) i.had
      where
        branch :
            (old : Option Object)
            → item.had_live ≡ is_some old
            → (if item.had_live
                  then restore_live false (is_some old) (is_some (s.new item.path)) item.path
                  else remove_new false (is_some old) (is_some (s.new item.path)) item.path)
                w
              ≡ (done tt, w)
        branch none h = rw h (unfold remove_new pure in refl)
        branch (some o) h = rw h (unfold restore_live pure in refl)

    backed-eq :
        BackedUp (s.old item.path) (s.new item.path) item.path w.disk
        → rollback_item item w ≡ put_back item.path w
    backed-eq (l, t, b, n) =
        rollback_item-eq item w none (s.new item.path) (s.old item.path) i f l t b none-IsPayload
          i.payload_new i.payload_old
        ∙ branch (s.old item.path) n i.had
      where
        branch :
            (old : Option Object)
            → old ≢ none
            → item.had_live ≡ is_some old
            → (if item.had_live
                  then restore_live (is_some old) false (is_some (s.new item.path)) item.path
                  else remove_new (is_some old) false (is_some (s.new item.path)) item.path)
                w
              ≡ put_back item.path w
        branch none m h = absurd (m refl)
        branch (some o) m h = rw h (unfold restore_live in refl)

    Installed-eq :
        Installed (s.old item.path) (s.new item.path) item.path w.disk
        → rollback_item item w
          ≡ (if is_some (s.old item.path)
                then restore_live true true false item.path
                else remove_new false true false item.path)
              w
    Installed-eq (l, t, b, n) =
        rollback_item-eq item w (s.new item.path) none (s.old item.path) i f l t b i.payload_new
          none-IsPayload i.payload_old
        ∙ branch (s.old item.path) (s.new item.path) n i.had
      where
        branch :
            (old new : Option Object)
            → new ≢ none
            → item.had_live ≡ is_some old
            → (if item.had_live
                  then restore_live (is_some old) (is_some new) false item.path
                  else remove_new (is_some old) (is_some new) false item.path)
                w
              ≡ (if is_some old
                    then restore_live true true false item.path
                    else remove_new false true false item.path)
                  w
        branch old none m h = absurd (m refl)
        branch none (some x) m h = rw h
        branch (some o) (some x) m h = rw h

  module _ (item : PathRecord) (todo : List Text) (i : IsItem s payload item)
      (within : Within s payload quiet Final final (item.path ∷ todo)) where
    abbrev Rolled : Outcome (Unit {0}) × World → Type 0
    Rolled r =
        Ends quiet Final (λ _ d. Moving s payload todo d) (Stopped s payload quiet Final final) r.0
          r.1

    roll-Installed :
        (w : World)
        → Quiet quiet Final w
        → Moving s payload (item.path ∷ todo) w.disk
        → Installed (s.old item.path) (s.new item.path) item.path w.disk
        → (old : Option Object) → s.old item.path ≡ old
        → Rolled (
            (if is_some old
                then restore_live true true false item.path
                else remove_new false true false item.path)
              w)
    roll-Installed w q m n none e =
        (remove-Runs s payload quiet Final final item.path todo within e).at w q (m, n)
    roll-Installed w q m n (some o) e =
        (restore-Runs s payload quiet Final final item.path todo within (λ z. cc (e, z))).at w q
          (m, n)

    roll_place :
        (w : World)
        → Quiet quiet Final w
        → Moving s payload (item.path ∷ todo) w.disk
        → Untouched (s.old item.path) (s.new item.path) item.path w.disk
          ⊎ (In item.path (item.path ∷ todo)
              × (BackedUp (s.old item.path) (s.new item.path) item.path w.disk
                  ⊎ Installed (s.old item.path) (s.new item.path) item.path w.disk))
        → Rolled (rollback_item item w)
    roll_place w q m (inl u) = subst Rolled (sym (Untouched-eq item w i m.0 u)) (
      q,
      (
        m.0,
        m.1,
        Slots-Untouched s payload item.path w.disk w.disk (λ r ne. (refl, refl, refl)) todo u m.2,
      ),
    )
    roll_place w q m (inr (_, inl b)) =
        subst Rolled (sym (backed-eq item w i m.0 b))
          ((put_back-Runs s payload quiet Final final item.path todo within).at w q (m, b))
    roll_place w q m (inr (_, inr n)) =
        subst Rolled (sym (Installed-eq item w i m.0 n))
          (roll-Installed w q m n (s.old item.path) refl)

    pub rollback_item-Runs :
        Runs quiet Final
          (Moving s payload (item.path ∷ todo))
          (rollback_item item)
          (λ _ d. Moving s payload todo d)
          (Stopped s payload quiet Final final)
    rollback_item-Runs = record { at = λ w q m. roll_place w q m (m.2 item.path) }

  pub rollback_paths-Runs :
      (items : List PathRecord)
      → All (IsItem s payload) items
      → Within s payload quiet Final final (paths_of items)
      → Runs quiet Final
          (Moving s payload (paths_of items))
          (rollback_paths items)
          (λ _ d. Moving s payload [] d)
          (Stopped s payload quiet Final final)
  unfolding rollback_paths
  rollback_paths-Runs [] i within = Runs-pure quiet Final _ _ _ tt (λ d m. m)
  rollback_paths-Runs (item ∷ items) i within =
      Runs-bind quiet Final _ (λ _ d. Moving s payload (paths_of items) d) _ _ (rollback_item item)
        (λ _. rollback_paths items) (rollback_item-Runs item (paths_of items) i.0 within)
        (λ _. rollback_paths-Runs items i.1 (λ p h. within p (inr h)))

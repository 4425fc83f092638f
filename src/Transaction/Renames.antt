-- ===== src/Transaction/Renames.antt =====
-- The renames of a rollback, each from the places in which it is made.
use chrono_nextos.Prelude.{
  ◌≡◌, ◌≢◌, inl, inr, refl, sym, ◌∙◌, Bool, true, false, none, List, ◌∷◌, In,
}
use chrono_nextos.Prelude.Text.{Text}
use chrono_nextos.Disk.{
  lookup, Disk, ◌>>=◌, in_game, in_stage, in_backup, move, durable_rename,
  ensure_real_parent_directories,
}
use chrono_nextos.Disk.Areas.{
  backup-game_other, game-stage_other, lookup-put_self, lookup-without_self,
}
use chrono_nextos.Disk.Runs.{Runs, Runs-durable, Runs-bind}
use chrono_nextos.Transaction.{Payload, put_back, return_to_stage, restore_live, remove_new}
use chrono_nextos.Transaction.Invariant.{
  Setting, BackedUp, Installed, paths, Moving, Recoverable, Slots-weaken, Slots-moved,
  Slots-Untouched, Frame-areas, Written-areas,
}

module _ (s : Setting) (payload : Payload) (quiet : Bool) (Final : Disk → Type 0)
    (final : (d : Disk) → Recoverable s payload d → Final d) where
  abbrev pub Stopped : Disk → Type 0
  Stopped d = (quiet ≡ false) × Final d

  -- All paths to do are paths of the transaction.
  abbrev pub Within : List Text → Type 0
  Within todo = (p : Text) → In p todo → In p (paths s payload)

  pub stopped : (todo : List Text) (d : Disk) → Within todo → Moving s payload todo d → Final d
  stopped todo d w (f, j, slots) =
      final d (inl (f, j, Slots-weaken s payload todo (paths s payload) d w slots))

  module _ (p : Text) (todo : List Text) (within : Within (p ∷ todo)) where
    abbrev pub Backed : Disk → Type 0
    Backed d = Moving s payload (p ∷ todo) d × BackedUp (s.old p) (s.new p) p d

    abbrev pub Live : Disk → Type 0
    Live d = Moving s payload (p ∷ todo) d × Installed (s.old p) (s.new p) p d

    put_back_moves : (d : Disk) → Backed d → Moving s payload todo (move in_backup in_game p d)
    put_back_moves d ((f, j, slots), (l, t, b, n)) = (
      Frame-areas s payload d _ _ _ f,
      Written-areas s payload d _ _ _ j,
      Slots-Untouched s payload p d (move in_backup in_game p d)
          (λ q ne. backup-game_other p q d ne) todo
          (lookup-put_self p (lookup p d.backup) d.live ∙ b, t, lookup-without_self p d.backup)
          slots,
    )

    pub put_back-Runs :
        Runs quiet Final Backed (put_back p) (λ _ d. Moving s payload todo d) Stopped
    unfolding put_back ◌>>=◌ ensure_real_parent_directories durable_rename
    put_back-Runs = record {
      at = λ w q h. rw (h.0.0.open_live p (within p (inl refl))) (
          (Runs-durable quiet Final Backed (λ _ d. Moving s payload todo d) Stopped
              (move in_backup in_game p) put_back_moves
              (λ d loud b. ((loud, before d b), (loud, after d b)))
              (λ d loud b. (before d b, after d b))).at
            w q h);
    }
      where
        before : (d : Disk) → Backed d → Final d
        before d b = stopped (p ∷ todo) d within b.0

        after : (d : Disk) → Backed d → Final (move in_backup in_game p d)
        after d b = stopped todo _ (λ r i. within r (inr i)) (put_back_moves d b)

    return_backs : (d : Disk) → s.old p ≢ none → Live d → Backed (move in_game in_stage p d)
    return_backs d n ((f, j, slots), (l, t, b, m)) = (
      (
        Frame-areas s payload d _ _ _ f,
        Written-areas s payload d _ _ _ j,
        Slots-moved s payload p d (move in_game in_stage p d) (λ q ne. game-stage_other p q d ne)
            (p ∷ todo) (inr (inl refl, inl there)) slots,
      ),
      there,
    )
      where
        there : BackedUp (s.old p) (s.new p) p (move in_game in_stage p d)
        there =
            (lookup-without_self p d.live, lookup-put_self p (lookup p d.live) d.stage ∙ l, b, n)

    return_new :
        (d : Disk) → s.old p ≡ none → Live d → Moving s payload todo (move in_game in_stage p d)
    return_new d e ((f, j, slots), (l, t, b, m)) = (
      Frame-areas s payload d _ _ _ f,
      Written-areas s payload d _ _ _ j,
      Slots-Untouched s payload p d (move in_game in_stage p d) (λ q ne. game-stage_other p q d ne)
          todo
          (
            lookup-without_self p d.live ∙ sym e,
            lookup-put_self p (lookup p d.live) d.stage ∙ l,
            b ∙ e,
          )
          slots,
    )

    return_to_stage-Runs :
        (Q : Disk → Type 0)
        → ((d : Disk) → Live d → Q (move in_game in_stage p d))
        → ((d : Disk) → Q d → Final d)
        → Runs quiet Final Live (return_to_stage p) (λ _ d. Q d) Stopped
    unfolding return_to_stage ◌>>=◌ ensure_real_parent_directories durable_rename
    return_to_stage-Runs Q moves keeps = record {
      at = λ w q h. rw (h.0.0.open_stage p (within p (inl refl))) (
          (Runs-durable quiet Final Live (λ _ d. Q d) Stopped (move in_game in_stage p) moves
              (λ d loud b. ((loud, before d b), (loud, keeps _ (moves d b))))
              (λ d loud b. (before d b, keeps _ (moves d b)))).at
            w q h);
    }
      where
        before : (d : Disk) → Live d → Final d
        before d b = stopped (p ∷ todo) d within b.0

    -- The branch of an installed object over an earlier one: two renames.
    pub restore-Runs :
        s.old p ≢ none
        → Runs quiet Final Live
            (restore_live true true false p)
            (λ _ d. Moving s payload todo d)
            Stopped
    unfolding restore_live
    restore-Runs n =
        Runs-bind quiet Final Live (λ _ d. Backed d) (λ _ d. Moving s payload todo d) Stopped
          (return_to_stage p) (λ _. put_back p)
          (return_to_stage-Runs Backed (λ d. return_backs d n)
            (λ d b. stopped (p ∷ todo) d within b.0))
          (λ _. put_back-Runs)

    pub remove-Runs :
        s.old p ≡ none
        → Runs quiet Final Live
            (remove_new false true false p)
            (λ _ d. Moving s payload todo d)
            Stopped
    unfolding remove_new
    remove-Runs e =
        return_to_stage-Runs (λ d. Moving s payload todo d) (λ d. return_new d e)
          (λ d m. stopped todo d (λ r i. within r (inr i)) m)

-- ===== src/Transaction/InstallItem.antt =====
-- `commit_stage` on one path and on all of them.
use chrono_nextos.Prelude.{
  ◌≡◌, ◌≢◌, inl, inr, refl, ap, sym, ◌∙◌, Bool, true, false, Option, none, some, List, [], ◌∷◌,
  ◌++◌, arith, All, In, if◌then◌else◌, Bool-cases,
}
use mathlib.Core.Path.{subst}
use mathlib.Core.List.{append_assoc}
use chrono_nextos.Prelude.Text.{Text, text_eq, text_eq_iff}
use chrono_nextos.Fault.{ok}
use chrono_nextos.Journal.{
  Journal, PathRecord, Phase, backup_intent, backup_skipped, backed_up, install_intent, installed,
}
use chrono_nextos.Disk.{
  Object, lookup, Disk, in_game, in_stage, in_backup, exists_in, move, safe_object, durable_rename,
}
use chrono_nextos.Disk.Areas.{
  game-backup_other, stage-game_other, lookup-put_self, lookup-without_self, Same,
}
use chrono_nextos.Disk.Runs.{Runs, Runs-pure, Runs-if, Runs-weaken}
use chrono_nextos.Transaction.{Payload}
use chrono_nextos.Transaction.CommitStage.{
  write_phase, back_up_live, skip_backup, install_staged, install_item, install_paths,
  progress_update, with_phase,
}
use chrono_nextos.Transaction.Invariant.{
  Setting, Untouched, paths, IsItem, Moving, SameItems, Frame-areas, Written-areas, At, Progress,
  Free, Inside, Fresh, all_ready,
}
use chrono_nextos.Transaction.RollbackItem.{safe_object-payload}
use chrono_nextos.Transaction.Install.{
  SameItems-phase, Open, Progress-Open, Free-Open, Open-Runs, object-Runs, parents-Runs,
  passes-Runs, then-Runs, IsJournal, journal_write-Runs,
}

module _ (s : Setting) (payload : Payload) (quiet : Bool) (Final : Disk → Type 0)
    (final : (d : Disk) → Moving s payload (paths s payload) d → Final d) where
  abbrev Opened : Disk → Type 0
  Opened = Open s payload quiet Final final

  abbrev Reached : List Text → Disk → Type 0
  Reached = Progress s payload

  abbrev Freed : List Text → Text → Disk → Type 0
  Freed = Free s payload

  module _ (journal : Journal) (before : List PathRecord) (item : PathRecord)
      (rest : List PathRecord) (ready : List Text) (i : IsItem s payload item)
      (inside : Inside s payload ready) (fresh : In item.path ready → ⊥)
      (id : journal.transaction_id ≡ s.transaction_id) (abi : journal.abi ≡ s.plan.abi)
      (same : SameItems (before ++ (item ∷ rest)) s.items) where
    abbrev p : Text
    p = item.path

    phase_journal :
        (phase : Phase)
        → IsJournal s payload quiet Final final
            (record journal { paths = before ++ (with_phase phase item ∷ rest) })
    phase_journal phase = (id, abi, SameItems-phase phase before item rest s.items same)

    reached_open : (d : Disk) → Reached ready d → Opened d
    reached_open d = Progress-Open s payload quiet Final final ready d inside

    freed_open : (d : Disk) → Freed ready p d → Opened d
    freed_open d = Free-Open s payload quiet Final final ready p d inside i.member

    write-Reached :
        (phase : Phase)
        → Runs quiet Final
            (Reached ready)
            (write_phase s.recipe journal before phase item rest)
            (λ _ d. Reached ready d)
            Opened
    unfolding write_phase
    write-Reached phase =
        journal_write-Runs s payload quiet Final final (λ d. (q : Text) → At s payload ready q d) _
          (phase_journal phase) (λ d file x. x) reached_open

    write-Freed :
        (phase : Phase)
        → Runs quiet Final
            (Freed ready p)
            (write_phase s.recipe journal before phase item rest)
            (λ _ d. Freed ready p d)
            Opened
    unfolding write_phase
    write-Freed phase =
        journal_write-Runs s payload quiet Final final
          (λ d.
            ((q : Text) → text_eq p q ≡ false → At s payload ready q d)
            × ((lookup p d.live ≡ none)
                × (lookup p d.stage ≡ s.new p)
                × (lookup p d.backup ≡ s.old p)))
          _ (phase_journal phase) (λ d file x. x) freed_open

    -- An untouched path before its turn.
    Untouched-here : (d : Disk) → Reached ready d → Untouched (s.old p) (s.new p) p d
    Untouched-here d (f, j, at) = here (at p)
      where
        here : At s payload ready p d → Untouched (s.old p) (s.new p) p d
        here (inl (k, n)) = absurd (fresh k)
        here (inr (_, u)) = u

    moved-At :
        (ps : List Text) (q : Text) (d d' : Disk)
        → Same q d d'
        → At s payload ps q d
        → At s payload ps q d'
    moved-At ps q d d' (el, et, eb) (inl (k, (l, t, b, n))) = inl (k, (el ∙ l, et ∙ t, eb ∙ b, n))
    moved-At ps q d d' (el, et, eb) (inr (k, (l, t, b))) = inr (k, (el ∙ l, et ∙ t, eb ∙ b))

    backs_up : (d : Disk) → Reached ready d → Freed ready p (move in_game in_backup p d)
    backs_up d (f, j, at) =
        let (l, t, b) = Untouched-here d (f, j, at) in
        (
          Frame-areas s payload d _ _ _ f,
          Written-areas s payload d _ _ _ j,
          (
            λ q ne.
                moved-At ready q d (move in_game in_backup p d) (game-backup_other p q d ne) (at q),
            (lookup-without_self p d.live, t, lookup-put_self p (lookup p d.live) d.backup ∙ l),
          ),
        )

    skips : (d : Disk) → s.old p ≡ none → Reached ready d → Freed ready p d
    skips d e (f, j, at) =
        let (l, t, b) = Untouched-here d (f, j, at) in (f, j, (λ q ne. at q, (l ∙ e, t, b ∙ sym e)))

    installs : (d : Disk) → Freed ready p d → Reached (p ∷ ready) (move in_stage in_game p d)
    installs d (f, j, (at, (l, t, b))) =
        (Frame-areas s payload d _ _ _ f, Written-areas s payload d _ _ _ j, place)
      where
        here : At s payload (p ∷ ready) p (move in_stage in_game p d)
        here = inl (
          inl refl,
          (
            lookup-put_self p (lookup p d.stage) d.live ∙ t,
            lookup-without_self p d.stage,
            b,
            i.staged,
          ),
        )

        wider :
            (q : Text)
            → text_eq p q ≡ false
            → At s payload ready q (move in_stage in_game p d)
            → At s payload (p ∷ ready) q (move in_stage in_game p d)
        wider q ne (inl (k, n)) = inl (inr k, n)
        wider q ne (inr (k, u)) =
            inr (elim [ inl e ↦ ground (arith, text_eq_iff p q) | inr h ↦ k h ], u)

        place : (q : Text) → At s payload (p ∷ ready) q (move in_stage in_game p d)
        place q = elim (Bool-cases (text_eq p q)) [
          | inl e ↦
              subst (λ x. At s payload (p ∷ ready) x (move in_stage in_game p d))
                ((text_eq_iff p q).0 e) here
          | inr ne ↦
              wider q ne (
                moved-At ready q d (move in_stage in_game p d) (stage-game_other p q d ne)
                  (at q ne))
        ]

    Inside-done : Inside s payload (p ∷ ready)
    Inside-done q (inl e) = rw e i.member
    Inside-done q (inr k) = inside q k

    done_open : (d : Disk) → Reached (p ∷ ready) d → Opened d
    done_open d = Progress-Open s payload quiet Final final (p ∷ ready) d Inside-done

    write_done :
        Runs quiet Final
          (Reached (p ∷ ready))
          (write_phase s.recipe journal before installed item rest)
          (λ _ d. Reached (p ∷ ready) d)
          Opened
    unfolding write_phase
    write_done =
        journal_write-Runs s payload quiet Final final
          (λ d. (q : Text) → At s payload (p ∷ ready) q d) _ (phase_journal installed)
          (λ d file x. x) done_open

    -- The objects and the free places that the guards ask for.
    live_there :
        s.old p ≢ none → (d : Disk) → Reached ready d → safe_object (lookup p d.live) ≡ ok true
    live_there n d r = there (s.old p) refl
      where
        there : (o : Option Object) → s.old p ≡ o → safe_object (lookup p d.live) ≡ ok true
        there none e = absurd (n e)
        there (some x) e =
            ap safe_object ((Untouched-here d r).0 ∙ e)
            ∙ safe_object-payload (some x) (λ y h. i.payload_old y (e ∙ h))

    staged_there : (d : Disk) → Freed ready p d → safe_object (lookup p d.stage) ≡ ok true
    staged_there d (f, j, (at, (l, t, b))) = there (s.new p) refl
      where
        there : (o : Option Object) → s.new p ≡ o → safe_object (lookup p d.stage) ≡ ok true
        there none e = absurd (i.staged e)
        there (some x) e =
            ap safe_object (t ∙ e) ∙ safe_object-payload (some x) (λ y h. i.payload_new y (e ∙ h))

    gone : (o : Option Object) → o ≡ none → elim o [ none ↦ false | some x ↦ true ] ≡ false
    gone o e = rw e

    back_up_live-Runs :
        s.old p ≢ none
        → Runs quiet Final
            (Reached ready)
            (back_up_live s.recipe journal before item rest)
            (λ _ d. Freed ready p d)
            Opened
    unfolding back_up_live durable_rename
    back_up_live-Runs n =
        then-Runs s payload quiet Final final (Reached ready) (Reached ready) _ _ _
          (write-Reached backup_intent)
          (object-Runs s payload quiet Final final (Reached ready) _ in_game p _ (live_there n) (
            passes-Runs s payload quiet Final final (Reached ready) _ (exists_in in_backup p) _
              (λ d r. gone _ (Untouched-here d r).2)
              (then-Runs s payload quiet Final final (Reached ready) (Reached ready) _ _ _
                (parents-Runs s payload quiet Final final _ in_backup p
                  (λ d r. r.0.open_backup p i.member))
                (then-Runs s payload quiet Final final (Reached ready) (Freed ready p) _ _ _
                  (Open-Runs s payload quiet Final final (Reached ready) (Freed ready p) _
                    reached_open freed_open backs_up)
                  (write-Freed backed_up)))))

    skip_backup-Runs :
        s.old p ≡ none
        → Runs quiet Final
            (Reached ready)
            (skip_backup s.recipe journal before item rest)
            (λ _ d. Freed ready p d)
            Opened
    unfolding skip_backup
    skip_backup-Runs e =
        passes-Runs s payload quiet Final final (Reached ready) _ (exists_in in_game p) _
          (λ d r. gone _ ((Untouched-here d r).0 ∙ e))
          (Runs-weaken quiet Final _ _ _ (Freed ready p) _ _ _ (λ d r. skips d e r) (λ a d f. f)
            (λ d r. r) (write-Freed backup_skipped))

    back_up-Runs :
        Runs quiet Final
          (Reached ready)
          (if item.had_live
            then back_up_live s.recipe journal before item rest
            else skip_backup s.recipe journal before item rest)
          (λ _ d. Freed ready p d)
          Opened
    back_up-Runs =
        Runs-if quiet Final _ _ _ item.had_live _ _ (λ e. back_up_live-Runs (λ z. had_none e z))
          (λ e. skip_backup-Runs (had_some e (s.old p) refl))
      where
        had_none : item.had_live ≡ true → s.old p ≡ none → ⊥
        had_none e z = let h = i.had in ground arith

        had_some : item.had_live ≡ false → (o : Option Object) → s.old p ≡ o → s.old p ≡ none
        had_some e none h = h
        had_some e (some o) h = let k = i.had in ground arith

    install_staged-Runs :
        Runs quiet Final
          (Freed ready p)
          (install_staged s.recipe journal before item rest)
          (λ _ d. Reached (p ∷ ready) d)
          Opened
    unfolding install_staged durable_rename
    install_staged-Runs =
        then-Runs s payload quiet Final final (Freed ready p) (Freed ready p) _ _ _
          (write-Freed install_intent)
          (object-Runs s payload quiet Final final (Freed ready p) _ in_stage p _ staged_there (
            passes-Runs s payload quiet Final final (Freed ready p) _ (exists_in in_game p) _
              (λ d r. gone _ r.2.1.0)
              (then-Runs s payload quiet Final final (Freed ready p) (Freed ready p) _ _ _
                (parents-Runs s payload quiet Final final _ in_game p
                  (λ d r. r.0.open_live p i.member))
                (then-Runs s payload quiet Final final (Freed ready p) (Reached (p ∷ ready)) _ _ _
                  (Open-Runs s payload quiet Final final (Freed ready p) (Reached (p ∷ ready)) _
                    freed_open done_open installs)
                  write_done))))

    install_item-Runs :
        Runs quiet Final
          (Reached ready)
          (install_item s.recipe journal before item rest)
          (λ _ d. Reached (p ∷ ready) d)
          Opened
    unfolding install_item progress_update
    install_item-Runs =
        then-Runs s payload quiet Final final (Reached ready) (Freed ready p) _ _ _ back_up-Runs (
          then-Runs s payload quiet Final final (Freed ready p) (Reached (p ∷ ready)) _ _ _
            install_staged-Runs
            (Open-Runs s payload quiet Final final (Reached (p ∷ ready)) (Reached (p ∷ ready)) _
              done_open done_open (λ d r. r)))

  -- The loop of `commit_stage`, started where the items before are installed: where it returns, each
  -- of its items is live, its earlier object is in the backup, and all other places are as they were.
  -- Wherever it raises or is cut off, every object of the transaction is in a place from which a
  -- rollback can bring it back.
  pub install_paths-Runs :
      (journal : Journal) (before items : List PathRecord) (ready : List Text)
      → journal.transaction_id ≡ s.transaction_id
      → journal.abi ≡ s.plan.abi
      → All (IsItem s payload) items
      → Inside s payload ready
      → Fresh ready items
      → SameItems (before ++ items) s.items
      → Runs quiet Final
          (Reached ready)
          (install_paths s.recipe journal before items)
          (λ _ d. Reached (all_ready ready items) d)
          Opened
  unfolding install_paths
  install_paths-Runs journal before [] ready id abi i inside fresh same =
      Runs-pure quiet Final _ _ _ tt (λ d r. r)
  install_paths-Runs journal before (item ∷ items) ready id abi i inside fresh same =
      then-Runs s payload quiet Final final (Reached ready) (Reached (item.path ∷ ready)) _ _ _
        (install_item-Runs journal before item items ready i.0 inside fresh.0 id abi same)
        (install_paths-Runs journal (before ++ (with_phase installed item ∷ [])) items
          (item.path ∷ ready) id abi i.1
          (λ q. elim [ inl e ↦ rw e i.0.member | inr k ↦ inside q k ]) fresh.1
          (rw (append_assoc) (SameItems-phase installed before item items s.items same)))

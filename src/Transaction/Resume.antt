-- ===== src/Transaction/Resume.antt =====
-- The end of `recover_transaction`: the cleanup of a transaction that is found published, and the
-- choice between it and the rollback.
use chrono_nextos.Prelude.{
  ℕ, ◌≡◌, ◌⊎◌, inl, inr, refl, sym, ◌∙◌, Bool, true, false, ◌&&◌, Option, none, some, List, [], ◌∷◌,
  arith, Bool-cases, if◌then◌else◌,
}
use mathlib.Core.Path.{subst}
use mathlib.Core.Bool.{false≢true}
use chrono_nextos.Prelude.Text.{Text}
use chrono_nextos.Fault.{Fault, os_error, Result, ok, err, ok-injective}
use chrono_nextos.Json.{Value, Fields, equals_text, get}
use chrono_nextos.Journal.{Journal}
use chrono_nextos.Journal.Encode.{journal_value}
use chrono_nextos.Marker.{marker_matches_recipe}
use chrono_nextos.Disk.{
  Area, Disk, Event, World, M, ◌>>=◌, ◌>>◌, pure, lift, reads, document, JournalFile, Root, absent,
  go, refused, unsynced, cut_before, cut_after,
}
use chrono_nextos.Disk.Runs.{
  Quiet, Ends, Runs, Runs-bind, Runs-pure, Runs-reads, Runs-lift, Runs-weaken,
}
use chrono_nextos.Transaction.{Payload, rollback_transaction}
use chrono_nextos.Transaction.Recovery.{
  load_marker, text_list, marker_payload_seal_valid, is_published, outputs_published, marker_abi,
  resume, recover_file, finalize_published_transaction, discard_path, discard_journal, discarded,
  discarded_next, drop_backup, drop_stage, drop_journal,
}
use chrono_nextos.Transaction.Invariant.{Setting, Written, SameItems}
use chrono_nextos.Transaction.Planned.{AllNew, IsPlanned, Decided, Cleared, stored_back}

module _ (portable_path_key : Text → Text) (s : Setting) (payload : Payload) (quiet : Bool)
    (i : IsPlanned portable_path_key s payload) (G : Disk → Type 0)
    (decided_final : (d : Disk) → Decided portable_path_key s payload d → G d)
    (cleared_final : (d : Disk) → Cleared portable_path_key s payload d → G d) where
  abbrev pub Found : Disk → Type 0
  Found = Decided portable_path_key s payload

  abbrev pub Loud : Disk → Type 0
  Loud d = (quiet ≡ false) × G d

  abbrev pub Run {ℓ} : {A : Type ℓ} → (Disk → Type 0) → M A → (A → Disk → Type 0) → Type 0
  Run P m Q = Runs quiet G P m Q Loud

  Runs-discard :
      (P : Disk → Type 0) (Q : Bool → Disk → Type 0) (f : Disk → Disk)
      → ((d : Disk) → P d → G d × G (f d))
      → ((d : Disk) → P d → Q true (f d))
      → ((d : Disk) → quiet ≡ false → P d → Q false d)
      → Run P (discard_path f) Q
  unfolding discard_path
  Runs-discard P Q f c h k = record { at = λ w q p. next w.events w.disk q p }
    where
      loud :
          {event : Event} {rest : List Event} → (quiet ≡ true → event ∷ rest ≡ []) → quiet ≡ false
      loud q = ground arith

      noisy : {rest : List Event} → quiet ≡ false → quiet ≡ true → rest ≡ []
      noisy f t = absurd (false≢true (sym f ∙ t))

      refusal :
          (e : Fault) (rest : List Event) (d : Disk)
          → quiet ≡ false
          → P d
          → Ends quiet G Q Loud
              (discarded (refused e) f d rest).0
              (discarded (refused e) f d rest).1
      refusal os_error rest d l p = (noisy l, k d l p)
      refusal _ rest d l p = (noisy l, (l, (c d p).0))

      late :
          (e : Fault) (rest : List Event) (d : Disk)
          → quiet ≡ false
          → P d
          → Ends quiet G Q Loud
              (discarded (unsynced e) f d rest).0
              (discarded (unsynced e) f d rest).1
      late os_error rest d l p = (noisy l, h d p)
      late _ rest d l p = (noisy l, (l, (c d p).1))

      next :
          (events : List Event) (d : Disk)
          → (quiet ≡ true → events ≡ [])
          → P d
          → Ends quiet G Q Loud (discarded_next events f d).0 (discarded_next events f d).1
      next [] d q p = (λ _. refl, h d p)
      next (go ∷ rest) d q p = (noisy (loud q), h d p)
      next (refused e ∷ rest) d q p = refusal e rest d (loud q) p
      next (unsynced e ∷ rest) d q p = late e rest d (loud q) p
      next (cut_before ∷ rest) d q p = (loud q, (c d p).0)
      next (cut_after ∷ rest) d q p = (loud q, (c d p).1)

  -- A step of the cleanup that touches neither journal, marker nor live payload.
  abbrev Kept : Bool → Disk → Type 0
  Kept gone d = Found d × (quiet ≡ true → gone ≡ true)

  discard-Kept :
      (f : Disk → Disk) → ((d : Disk) → Found d → Found (f d)) → Run Found (discard_path f) Kept
  discard-Kept f h =
      Runs-discard Found Kept f (λ d x. (decided_final d x, decided_final (f d) (h d x)))
        (λ d x. (h d x, λ _. refl)) (λ d l x. (x, λ t. absurd (false≢true (sym l ∙ t))))

  abbrev pub Tidied : Disk → Type 0
  Tidied d = ((quiet ≡ false) × Found d) ⊎ Cleared portable_path_key s payload d

  discard_journal-Runs :
      (gone : Bool)
      → (quiet ≡ true → gone ≡ true)
      → Run Found (discard_journal gone) (λ _ d. Tidied d)
  unfolding discard_journal
  discard_journal-Runs true t =
      Runs-discard Found (λ _ d. Tidied d) drop_journal
        (λ d x. (decided_final d x, cleared_final (drop_journal d) (refl, x.all_new)))
        (λ d x. inr (refl, x.all_new)) (λ d l x. inl (l, x))
  discard_journal-Runs false t =
      Runs-pure quiet G Found (λ _ d. Tidied d) Loud false (λ d x. inl (loudly, x))
    where
      loudly : quiet ≡ false
      loudly = ground arith

  with_fact {ℓ} :
      {A : Type ℓ} (X : Type 0) (P : Disk → Type 0) (m : M A) (Q : A → Disk → Type 0)
      → (X → Run P m Q)
      → Run (λ d. P d × X) m Q
  with_fact X P m Q h = record { at = λ w q p. (h p.1).at w q p.0 }

  and_gone :
      (a b c : Bool)
      → (quiet ≡ true → a ≡ true)
      → (quiet ≡ true → b ≡ true)
      → (quiet ≡ true → c ≡ true)
      → quiet ≡ true
      → (a && b && c) ≡ true
  and_gone a b c ha hb hc t = rw (ha t, hb t, hc t) refl

  moved_on :
      (l t b : Area) (sr br : Root) (d : Disk)
      → Found d
      → Found (record d { stage = t; backup = b; stage_root = sr; backup_root = br })
  moved_on l t b sr br d x = record {
    written = record {
      journal = x.written.journal;
      stored = x.written.stored;
      same_id = x.written.same_id;
      same_abi = x.written.same_abi;
      same_items = x.written.same_items;
    };
    decided = x.decided;
    all_new = x.all_new;
  }

  finalize-Runs : Run Found finalize_published_transaction (λ _ d. Tidied d)
  unfolding finalize_published_transaction
  finalize-Runs =
      step drop_backup _ (λ d. moved_on d.live d.stage [] d.stage_root absent d)
        (λ backup_gone tb.
          step drop_stage _ (λ d. moved_on d.live [] d.backup absent d.backup_root d)
            (λ stage_gone ts.
              step (λ d. d) _ (λ d x. x)
                (λ cache_gone tc.
                  discard_journal-Runs (backup_gone && stage_gone && cache_gone)
                    (and_gone backup_gone stage_gone cache_gone tb ts tc))))
    where
      step :
          (f : Disk → Disk) (k : Bool → M Bool)
          → ((d : Disk) → Found d → Found (f d))
          → ((gone : Bool) → (quiet ≡ true → gone ≡ true) → Run Found (k gone) (λ _ d. Tidied d))
          → Run Found (discard_path f >>= k) (λ _ d. Tidied d)
      step f k h hk =
          Runs-bind quiet G Found Kept _ _ (discard_path f) k (discard-Kept f h)
            (λ gone. with_fact (quiet ≡ true → gone ≡ true) Found (k gone) _ (hk gone))

  seal_valid-ok :
      (marker : Fields) (live : Area) (e : Fault)
      → marker_payload_seal_valid portable_path_key s.recipe payload marker live ≡ err e
      → ⊥
  unfolding marker_payload_seal_valid
  seal_valid-ok marker live e h = listed (text_list (get "commit" marker)) refl
    where
      sealed :
          (commit : List Text) (r : Result (Text × ℕ))
          → text_list (get "commit" marker) ≡ some commit
          → payload.seal commit live ≡ r
          → ⊥
      sealed commit (ok _) c x = let no_way = rw (marker_payload_seal_valid, c, x) at h in cc
      sealed commit (err y) c x =
          let no_way = rw (marker_payload_seal_valid, c, x, i.seal_caught commit live y x) at h in
          cc

      listed : (l : Option (List Text)) → text_list (get "commit" marker) ≡ l → ⊥
      listed none c = let no_way = rw (marker_payload_seal_valid, c) at h in cc
      listed (some commit) c = sealed commit (payload.seal commit live) c refl

  -- The test of `recover_transaction` raises nothing where the validation and the seal raise only
  -- what it catches.
  outputs_published-ok :
      (marker : Fields) (live : Area) (e : Fault)
      → outputs_published portable_path_key s.recipe payload marker live ≡ err e
      → ⊥
  unfolding outputs_published
  outputs_published-ok marker live e h =
      result (payload.check_outputs (marker_abi portable_path_key s.recipe payload marker) live)
        refl
    where
      result :
          (r : Result (Unit {0}))
          → payload.check_outputs (marker_abi portable_path_key s.recipe payload marker) live ≡ r
          → ⊥
      result (ok _) x = seal_valid-ok marker live e (rw (outputs_published, x) at h)
      result (err y) x = let no_way = rw (outputs_published, x, i.caught _ live y x) at h in cc

  -- The test raises nothing either where the check of a marker of this transaction does not.
  pub is_published-ok :
      (journal : Journal) (marker : Option Fields) (live : Area) (e : Fault)
      → ((found : Fields)
          → marker ≡ some found
          → equals_text (get "transaction_id" found) journal.transaction_id ≡ true
          → (answer : Bool) × (marker_matches_recipe portable_path_key (Value.obj found) s.recipe
              ≡ ok answer))
      → is_published portable_path_key s.recipe payload journal marker live ≡ err e
      → ⊥
  unfolding is_published
  is_published-ok journal none live e r h = cc
  is_published-ok journal (some marker) live e r h =
      elim (Bool-cases (equals_text (get "transaction_id" marker) journal.transaction_id)) [
        | inr y ↦ let no_way = rw y at h in cc
        | inl y ↦ let (answer, is) = r marker refl y in answered answer (rw (y, is) at h)
      ]
    where
      answered :
          (valid : Bool)
          → (if valid
              then outputs_published portable_path_key s.recipe payload marker live
              else ok false)
            ≡ err e
          → ⊥
      answered true h = outputs_published-ok marker live e h
      answered false h = cc

  abbrev pub Tested : Journal → Bool → Disk → Type 0
  Tested journal b d =
      is_published portable_path_key s.recipe payload journal (load_marker d) d.live ≡ ok b

  -- The cleanup where the transaction is published, or what a rollback gives.
  pub resume-Runs :
      (P : Disk → Type 0) (Q : Disk → Type 0) (journal : Journal)
      → ((d : Disk) → Tidied d → Q d)
      → ((d : Disk) → P d → Tested journal true d → Found d)
      → ((d : Disk)
          → P d
          → (e : Fault)
          → is_published portable_path_key s.recipe payload journal (load_marker d) d.live ≡ err e
          → ⊥)
      → Run (λ d. P d × Tested journal false d) (rollback_transaction journal.paths) (λ _ d. Q d)
      → Run P (resume portable_path_key s.recipe payload journal) (λ _ d. Q d)
  unfolding resume
  resume-Runs P Q journal tidied new untroubled old =
      Runs-bind quiet G P (λ m d. P d × (m ≡ load_marker d)) _ _ (reads load_marker) _
        (Runs-reads quiet G _ _ _ load_marker (λ d p. (p, refl)))
        (λ marker.
          Runs-bind quiet G _ (λ live d. (P d × (marker ≡ load_marker d)) × (live ≡ d.live)) _ _
            (reads (λ d. d.live)) _ (Runs-reads quiet G _ _ _ (λ d. d.live) (λ d p. (p, refl)))
            (λ live.
              Runs-bind quiet G _ (λ b d. P d × Tested journal b d) _ _
                (lift (is_published portable_path_key s.recipe payload journal marker live)) _
                (Runs-lift quiet G _ _ _ _ (λ b e d p. (p.0.0, rw (← p.0.1, ← p.1) e))
                  (λ x e d p. absurd (untroubled d p.0.0 x (rw (← p.0.1, ← p.1) e))))
                (λ b. branch b)))
    where
      branch :
          (b : Bool)
          → Run
              (λ d. P d × Tested journal b d)
              (if b
                then (do finalize_published_transaction; pure tt)
                else rollback_transaction journal.paths)
              (λ _ d. Q d)
      branch true =
          Runs-weaken quiet G _ _ _ Found (λ _ d. Q d) Loud _ (λ d p. new d p.0 p.1) (λ _ d x. x)
            (λ d x. x)
            (Runs-bind quiet G Found (λ _ d. Tidied d) _ _ finalize_published_transaction _
              finalize-Runs (λ _. Runs-pure quiet G _ _ _ tt tidied))
      branch false = old

  -- The journal that is there is this transaction's.
  recover_stored-eq :
      (journal : Journal) (w : World)
      → journal.transaction_id ≡ s.transaction_id
      → journal.abi ≡ s.plan.abi
      → SameItems journal.paths s.items
      → recover_file portable_path_key s.recipe payload
          (some (document (journal_value s.recipe journal)))
          w
        ≡ resume portable_path_key s.recipe payload journal w
  unfolding recover_file ◌>>=◌ lift
  recover_stored-eq journal w id abi same =
      rw (stored_back portable_path_key s payload i journal id abi same) refl

  abbrev pub recover_from : Option JournalFile → M (Unit {0})
  recover_from = recover_file portable_path_key s.recipe payload

  module _ (Q : Disk → Type 0) where
    abbrev pub RecoversFile : World → Option JournalFile → Type 0
    RecoversFile w file =
        Ends quiet G (λ _ d. Q d) Loud (recover_from file w).0 (recover_from file w).1

    abbrev pub Recovers : World → Type 0
    Recovers w = RecoversFile w w.disk.journal

    pub recover-Written :
        (P : Disk → Type 0) (w : World) (written : Written s payload w.disk)
        → Run P (resume portable_path_key s.recipe payload written.journal) (λ _ d. Q d)
        → Quiet quiet G w
        → P w.disk
        → Recovers w
    recover-Written P w written r q p = subst (RecoversFile w) (sym written.stored) (
        rw (recover_stored-eq written.journal w written.same_id written.same_abi written.same_items)
          (r.at w q p))

    pub recover_none : (w : World) → w.disk.journal ≡ none → Quiet quiet G w → Q w.disk → Recovers w
    unfolding recover_file pure
    recover_none w none_there q x = subst (RecoversFile w) (sym none_there) (q, x)

    -- A transaction that has been found published is found so again.
    pub recover_decided :
        ((d : Disk) → Tidied d → Q d) → (w : World) → Quiet quiet G w → Found w.disk → Recovers w
    recover_decided tidied w q x =
        recover-Written P w x.written
          (resume-Runs P Q x.written.journal tidied (λ d p e. decided d p)
            (λ d p e raised. let no_way = sym p.1 ∙ raised in cc)
            (record { at = λ w q p. absurd (false≢true (ok-injective (sym p.1 ∙ p.0.1))) }))
          q (x.written.stored, x.decided, x.all_new)
      where
        P : Disk → Type 0
        P d =
            (d.journal ≡ some (document (journal_value s.recipe x.written.journal)))
            × Tested x.written.journal true d
            × AllNew s payload d

        decided : (d : Disk) → P d → Found d
        decided d p = record {
          written = record {
            journal = x.written.journal;
            stored = p.0;
            same_id = x.written.same_id;
            same_abi = x.written.same_abi;
            same_items = x.written.same_items;
          };
          decided = p.1;
          all_new = p.2;
        }

-- ===== src/Transaction/Seal.antt =====
-- What recovery may conclude from a marker: the seal of `_write_install_marker` and the comparison
-- of `marker_payload_seal_valid`.
use chrono_nextos.Prelude.{
  ℕ, String, ◌≡◌, refl, ap, ◌∙◌, Bool, true, false, if◌then◌else◌, ◌&&◌, Option, none, some, List,
  [], ◌∷◌, map, arith, In, ==_iff, Bool-cases, inl, inr, ◌⊎◌,
}
use chrono_nextos.Prelude.Text.{Text, text_eq_iff}
use chrono_nextos.Fault.{Result, ok, err, ok-injective}
use chrono_nextos.Json.{
  Value, Fields, get, as_object, equals_text, equals_number, list_value, items,
}
use chrono_nextos.Journal.{Journal}
use chrono_nextos.Marker.{marker_matches_recipe}
use chrono_nextos.Marker.Encode.{marker_value}
use chrono_nextos.Disk.{Area, lookup, Disk}
use chrono_nextos.Transaction.{Payload}
use chrono_nextos.Transaction.Recovery.{
  text_list, texts_of, catches, same_seal, marker_payload_seal_valid, outputs_published,
  is_published, load_marker,
}
use chrono_nextos.Transaction.Invariant.{Setting, IsOurs, paths, Frame}

-- Each commit path has nothing, the object of before the transaction, or the staged one.
abbrev pub Mixed : Setting → Area → Type 0
Mixed s a =
    (p : Text)
    → In p s.plan.commit_paths
    → (lookup p a ≡ none) ⊎ ((lookup p a ≡ s.old p) ⊎ (lookup p a ≡ s.new p))

-- The seal of the staged objects is that of no mixture with objects of before the transaction, which
-- differ from the staged ones in something that the seal reads: names, kinds, sizes or times. The
-- seal does not read the bytes, and nothing is asked of objects that the transaction does not have.
abbrev pub SealTells : Setting → Payload → Type 0
SealTells s payload =
    (a b : Area) (found : Text × ℕ)
    → Mixed s a
    → ((p : Text) → In p s.plan.commit_paths → lookup p b ≡ s.new p)
    → payload.seal s.plan.commit_paths a ≡ ok found
    → payload.seal s.plan.commit_paths b ≡ ok found
    → (p : Text) → In p s.plan.commit_paths
    → lookup p a ≡ s.new p

pub text_list-texts :
    (ts : List Text) → text_list (Value.arr (list_value (map Value.str ts))) ≡ some ts
text_list-texts ts = texts ts
  where
    texts : (ts : List Text) → texts_of (items (list_value (map Value.str ts))) ≡ some ts
    texts [] = refl
    texts (t ∷ ts) = rw (texts ts)

and_true : (x y : Bool) → (x && y) ≡ true → (x ≡ true) × (y ≡ true)
and_true x y h = ground arith

abbrev field_at : String → Value → Value
field_at key value = elim (as_object value) [ none ↦ Value.null | some fields ↦ get key fields ]

same_number : (value : Value) (n m : ℕ) → value ≡ Value.num n → equals_number value m ≡ true → n ≡ m
same_number value n m e h = (==_iff n m).0 (rw e at h)

same_text : (value : Value) (a b : Text) → value ≡ Value.str a → equals_text value b ≡ true → a ≡ b
same_text value a b e h = (text_eq_iff a b).0 (rw e at h)

module _ (portable_path_key : Text → Text) (s : Setting) (payload : Payload)
    (tells : SealTells s payload) (sealed_paths : paths s payload ≡ s.plan.commit_paths) where
  same_seal-found :
      (marker : Fields) (a : Text) (n : ℕ) (r : Result (Text × ℕ))
      → get "payload_seal" marker ≡ Value.str a
      → get "payload_objects" marker ≡ Value.num n
      → same_seal portable_path_key s.recipe payload r marker ≡ ok true
      → r ≡ ok (a, n)
  same_seal-found marker a n (err e) ha hn h =
      elim (Bool-cases (catches portable_path_key s.recipe payload e)) [
        | inl y ↦ let no_way = rw y at h in cc
        | inr y ↦ let no_way = rw y at h in cc
      ]
  same_seal-found marker a n (ok (b, m)) ha hn h =
      let (hb, hm) = and_true (equals_text (get "payload_seal" marker) b) _ (ok-injective h) in
      rw (same_text _ a b ha hb, same_number _ n m hn hm)

  -- A valid seal on a marker of this transaction: every staged object is live.
  pub seal_of_valid :
      (marker : Fields) (live : Area)
      → IsOurs s payload marker
      → Mixed s live
      → marker_payload_seal_valid portable_path_key s.recipe payload marker live ≡ ok true
      → (p : Text) → In p (paths s payload)
      → lookup p live ≡ s.new p
  unfolding marker_payload_seal_valid marker_value
  seal_of_valid marker live ours mixed h p i =
      tells live ours.final (ours.payload_seal, ours.payload_objects) mixed
        (λ q j. ours.complete q (rw (← sealed_paths) at j)) found ours.sealed p
        (rw sealed_paths at i)
    where
      commit : text_list (get "commit" marker) ≡ some s.plan.commit_paths
      commit =
          ap (λ v. text_list (field_at "commit" v)) ours.stored
          ∙ text_list-texts s.plan.commit_paths

      found : payload.seal s.plan.commit_paths live ≡ ok (ours.payload_seal, ours.payload_objects)
      found =
          same_seal-found marker ours.payload_seal ours.payload_objects _
            (ap (field_at "payload_seal") ours.stored) (ap (field_at "payload_objects") ours.stored)
            (rw (marker_payload_seal_valid, commit) at h)

  valid_outputs :
      (marker : Fields) (live : Area)
      → outputs_published portable_path_key s.recipe payload marker live ≡ ok true
      → marker_payload_seal_valid portable_path_key s.recipe payload marker live ≡ ok true
  unfolding outputs_published
  valid_outputs marker live h = ground arith

  published_parts :
      (journal : Journal) (marker : Fields) (live : Area)
      → is_published portable_path_key s.recipe payload journal (some marker) live ≡ ok true
      → (equals_text (get "transaction_id" marker) journal.transaction_id ≡ true)
        × (marker_payload_seal_valid portable_path_key s.recipe payload marker live ≡ ok true)
  unfolding is_published
  published_parts journal marker live h =
      elim (Bool-cases (equals_text (get "transaction_id" marker) journal.transaction_id)) [
        | inr e ↦ let no_way = rw e at h in cc
        | inl e ↦ (
          e,
          matched (marker_matches_recipe portable_path_key (Value.obj marker) s.recipe) (rw e at h),
        )
      ]
    where
      matched :
          (r : Result Bool)
          → elim r [
            | err e ↦ err e
            | ok valid ↦
                if valid
                then outputs_published portable_path_key s.recipe payload marker live
                else ok false
          ]
            ≡ ok true
          → marker_payload_seal_valid portable_path_key s.recipe payload marker live ≡ ok true
      matched (err e) h = cc
      matched (ok false) h = cc
      matched (ok true) h = valid_outputs marker live h

  -- Where recovery finds the transaction published, every staged object is live.
  pub is_published-new :
      (journal : Journal) (d : Disk)
      → Frame s payload d
      → Mixed s d.live
      → journal.transaction_id ≡ s.transaction_id
      → is_published portable_path_key s.recipe payload journal (load_marker d) d.live ≡ ok true
      → (p : Text) → In p (paths s payload)
      → lookup p d.live ≡ s.new p
  unfolding is_published outputs_published
  is_published-new journal d f mixed id h = with_marker (load_marker d) refl h
    where
      with_marker :
          (m : Option Fields)
          → load_marker d ≡ m
          → is_published portable_path_key s.recipe payload journal m d.live ≡ ok true
          → (p : Text) → In p (paths s payload)
          → lookup p d.live ≡ s.new p
      with_marker none e h = cc
      with_marker (some marker) e h =
          let (same, valid) = published_parts journal marker d.live h in
          seal_of_valid marker d.live (f.marker_ok marker e (rw id at same)) mixed valid

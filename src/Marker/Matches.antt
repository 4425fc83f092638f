-- ===== src/Marker/Matches.antt =====
-- The marker of a sound plan, as `marker_matches_recipe` sees it.
use chrono_nextos.Prelude.{
  ℕ, ◌≡◌, ◌≢◌, ◌<◌, ◌≤◌, refl, sym, ap₂, ◌&&◌, Bool, if◌then◌else◌, true, false, Option, none, some,
  List, [], ◌∷◌, map, All, any, leb, ltb, length, arith, Bool-cases, inl, inr, and-true,
}
use chrono_nextos.Prelude.Text.{Text, text_eq, text_eq_iff, text_eq_refl, codes}
use chrono_nextos.Fault.{Result, ok}
use chrono_nextos.Json.{Value, is_hex_text, is_abi_text}
use chrono_nextos.Recipe.{Recipe}
use chrono_nextos.Paths.{validate_relative_path}
use chrono_nextos.Templates.{expand_commit_paths, under_any_commit}
use chrono_nextos.Journal.RoundTrip.{items-list_value}
use chrono_nextos.Journal.{transaction_id_valid}
use chrono_nextos.Marker.{
  is_one_of, source_kinds, is_package, equals_texts, header_matches, is_seen, item_key, items_match,
  body_matches, abi_matches, marker_matches_recipe,
}
use chrono_nextos.Marker.Encode.{MarkedItem, MarkedPlan, optional_text, item_value, marker_value}

equals_texts-map : (ts : List Text) → equals_texts (map Value.str ts) ts ≡ true
unfolding equals_texts
equals_texts-map [] = refl
equals_texts-map (t ∷ ts) = rw (text_eq_refl t, equals_texts-map ts)

-- The kinds of sources that a plan may have been made from.
pub data IsSourceKind : Text → Type 0 where
  apk_set : IsSourceKind (codes "apk-set")
  bundle : IsSourceKind (codes "bundle")
  companion : IsSourceKind (codes "companion")
  existing : IsSourceKind (codes "existing")

source_kind_ok : {kind : Text} → IsSourceKind kind → is_one_of (Value.str kind) source_kinds ≡ true
unfolding text_eq
source_kind_ok apk_set = refl
source_kind_ok bundle = refl
source_kind_ok companion = refl
source_kind_ok existing = refl

-- No package, or one of 1 to 255 characters, none of which is a control character below the space.
-- The discovery takes any name that a manifest has: what it finds need not be printable.
abbrev pub IsPrintable : Option Text → Type 0
IsPrintable none = Unit
IsPrintable (some s) = (s ≢ []) × (length s < 256) × All (λ character. 32 ≤ character) s

none_below : (s : Text) → All (λ character. 32 ≤ character) s → any (λ c. ltb c 32) s ≡ false
none_below [] h = refl
none_below (c ∷ s) h = let ih = none_below s h.1 in let first = h.0 in grind arith

is_package-IsPrintable :
    (package_id : Option Text)
    → IsPrintable package_id
    → is_package (optional_text package_id) ≡ true
unfolding is_package text_eq
is_package-IsPrintable none h = refl
is_package-IsPrintable (some []) h = absurd (h.0 refl)
is_package-IsPrintable (some (c ∷ s)) h = rw (short h.1, none_below (c ∷ s) h.2) refl
  where
    short : length (c ∷ s) < 256 → leb (length (c ∷ s)) 255 ≡ true
    short l = ground arith

module _ (portable_path_key : Text → Text) (recipe : Recipe) (plan : MarkedPlan) where
  abbrev pub key_of : MarkedItem → Text × Text
  key_of item = (item.rule_id, portable_path_key item.destination)

  -- A selected item of a rule of the recipe, with a safe destination below a commit path.
  pub record IsMarkedItem (item : MarkedItem) : Type 0 where
    pub rule : any (text_eq item.rule_id) recipe.rule_ids ≡ true
    pub safe : validate_relative_path item.destination false ≡ ok item.destination
    pub below : under_any_commit item.destination plan.commit_paths ≡ true

  -- Two items differ in their rules, or in their destinations on a card.
  abbrev pub Apart : List MarkedItem → Type 0
  Apart [] = Unit
  Apart (item ∷ rest) = All (λ another. key_of item ≢ key_of another) rest × Apart rest

  -- No item has the rule and destination of an earlier one.
  abbrev ApartFrom : List (Text × Text) → List MarkedItem → Type 0
  ApartFrom seen [] = Unit
  ApartFrom seen (item ∷ rest) =
      (is_seen item.rule_id (portable_path_key item.destination) seen ≡ false)
      × ApartFrom (key_of item ∷ seen) rest

  pub record IsMarkable : Type 0 where
    pub valid_abi : is_abi_text plan.abi ≡ true
    pub expanded :
        expand_commit_paths portable_path_key recipe.commit plan.abi ≡ ok plan.commit_paths
    pub fingerprinted : is_hex_text 64 plan.fingerprint ≡ true
    pub kind_known : IsSourceKind plan.source_kind
    pub package_ok : IsPrintable plan.package_id
    pub items_ok : All IsMarkedItem plan.items
    pub apart : Apart plan.items

  is_seen-false :
      (rule key : Text) (seen : List (Text × Text))
      → All (λ s. s ≢ (rule, key)) seen
      → is_seen rule key seen ≡ false
  is_seen-false rule key [] h = refl
  is_seen-false rule key ((r, k) ∷ seen) h = elim (Bool-cases (text_eq rule r && text_eq key k)) [
    | inl e ↦
        let (same_rule, same_key) = and-true (text_eq rule r) (text_eq key k) e in
        absurd (
          h.0 (
            ap₂ (λ (a b : Text). (a, b)) (sym ((text_eq_iff rule r).0 same_rule))
              (sym ((text_eq_iff key k).0 same_key))))
    | inr e ↦ rw (e, is_seen-false rule key seen h.1) refl
  ]

  -- None of the pairs is that of one of the items.
  abbrev Missing : List (Text × Text) → List MarkedItem → Type 0
  Missing seen = All (λ item. All (λ s. s ≢ key_of item) seen)

  Missing-cons :
      (key : Text × Text) (seen : List (Text × Text)) (selected : List MarkedItem)
      → All (λ item. key ≢ key_of item) selected
      → Missing seen selected
      → Missing (key ∷ seen) selected
  Missing-cons key seen [] n m = tt
  Missing-cons key seen (item ∷ selected) n m = ((n.0, m.0), Missing-cons key seen selected n.1 m.1)

  Missing-nil : (selected : List MarkedItem) → Missing [] selected
  Missing-nil [] = tt
  Missing-nil (item ∷ selected) = (tt, Missing-nil selected)

  Apart-ApartFrom :
      (seen : List (Text × Text)) (selected : List MarkedItem)
      → Missing seen selected
      → Apart selected
      → ApartFrom seen selected
  Apart-ApartFrom seen [] m a = tt
  Apart-ApartFrom seen (item ∷ selected) m a = (
    is_seen-false item.rule_id (portable_path_key item.destination) seen m.0,
    Apart-ApartFrom (key_of item ∷ seen) selected (Missing-cons (key_of item) seen selected a.0 m.1)
        a.1,
  )

  item_key-value :
      (item : MarkedItem)
      → IsMarkedItem item
      → item_key portable_path_key recipe plan.commit_paths (item_value item)
        ≡ ok (some (key_of item))
  unfolding item_key item_value
  item_key-value item i = rw (i.rule, i.safe, i.below) refl

  items_match-value :
      (seen : List (Text × Text)) (selected : List MarkedItem)
      → All IsMarkedItem selected
      → ApartFrom seen selected
      → items_match portable_path_key recipe plan.commit_paths seen (map item_value selected)
        ≡ ok true
  unfolding items_match
  items_match-value seen [] i a = refl
  items_match-value seen (item ∷ selected) i a =
      rw
        (
          items_match,
          item_key-value item i.0,
          a.0,
          items_match-value (key_of item ∷ seen) selected i.1 a.1,
        )
        refl

  -- `marker_matches_recipe` accepts what `_write_install_marker` stores for a plan of one of the
  -- four kinds of sources, with the recipe's commit paths for its ABI, a fingerprint, items of the
  -- recipe's rules with safe destinations below the commit paths, no two with one rule and one
  -- destination on a card, and no package or one of 1 to 255 characters without control characters,
  -- where the seal is a digest of at least one object.
  pub marker_matches_recipe-marker_value :
      (transaction_id : Text) (completed : ℕ) (payload_seal : Text) (payload_objects : ℕ)
      → IsMarkable
      → is_hex_text 32 transaction_id ≡ true
      → is_hex_text 64 payload_seal ≡ true
      → leb 1 payload_objects ≡ true
      → marker_matches_recipe portable_path_key
          (marker_value recipe plan transaction_id completed payload_seal payload_objects)
          recipe
        ≡ ok true
  unfolding marker_matches_recipe abi_matches body_matches header_matches marker_value
      transaction_id_valid text_eq
  marker_matches_recipe-marker_value transaction_id completed payload_seal payload_objects m id
        sealed many =
      rw
        (
          m.valid_abi,
          m.expanded,
          text_eq_refl recipe.identifier,
          text_eq_refl recipe.version,
          text_eq_refl recipe.digest,
          id,
          m.fingerprinted,
          sealed,
          many,
          items-list_value (map Value.str plan.commit_paths),
          equals_texts-map plan.commit_paths,
          source_kind_ok m.kind_known,
          is_package-IsPrintable plan.package_id m.package_ok,
          items-list_value (map item_value plan.items),
          items_match-value [] plan.items m.items_ok
              (Apart-ApartFrom [] plan.items (Missing-nil plan.items) m.apart),
        )
        refl

  item_key-Returns :
      (item : MarkedItem)
      → (found : Option (Text × Text)) × (item_key portable_path_key recipe plan.commit_paths
            (item_value item)
          ≡ ok found)
  unfolding item_key item_value
  item_key-Returns item = (_, refl)

  abbrev Answers : Result Bool → Type 0
  Answers r = (answer : Bool) × (r ≡ ok answer)

  items_match-Returns :
      (seen : List (Text × Text)) (selected : List MarkedItem)
      → Answers
          (items_match portable_path_key recipe plan.commit_paths seen (map item_value selected))
  unfolding items_match
  items_match-Returns seen [] = (true, refl)
  items_match-Returns seen (item ∷ selected) =
      let (found, is) = item_key-Returns item in
      after found is (λ key. items_match-Returns (key ∷ seen) selected)
    where
      after :
          (found : Option (Text × Text))
          → item_key portable_path_key recipe plan.commit_paths (item_value item) ≡ ok found
          → ((key : Text × Text)
              → Answers (
                  items_match portable_path_key recipe plan.commit_paths
                    (key ∷ seen)
                    (map item_value selected)))
          → Answers (
              items_match portable_path_key recipe plan.commit_paths seen
                (map item_value (item ∷ selected)))
      after none is rest = (false, rw (items_match, is) refl)
      after (some (rule, key)) is rest = elim (Bool-cases (is_seen rule key seen)) [
        | inl e ↦ (false, rw (items_match, is, e) refl)
        | inr e ↦ let (answer, more) = rest (rule, key) in (answer, rw (items_match, is, e) more)
      ]

  Answers-if : (b : Bool) (r : Result Bool) → Answers r → Answers (if b then r else ok false)
  Answers-if true r h = h
  Answers-if false r h = (false, refl)

  -- The check of a marker of the plan never raises.
  pub marker_value-Returns :
      (transaction_id : Text) (completed : ℕ) (payload_seal : Text) (payload_objects : ℕ)
      → is_abi_text plan.abi ≡ true
      → expand_commit_paths portable_path_key recipe.commit plan.abi ≡ ok plan.commit_paths
      → Answers (
          marker_matches_recipe portable_path_key
            (marker_value recipe plan transaction_id completed payload_seal payload_objects)
            recipe)
  unfolding marker_matches_recipe abi_matches body_matches marker_value
  marker_value-Returns transaction_id completed payload_seal payload_objects abi expanded =
      rw (abi, expanded, items-list_value (map item_value plan.items))
        (Answers-if _ _ (items_match-Returns [] plan.items))

-- ===== src/Selection/Planned.antt =====
-- The plan that `build_plan_for` of nxextract/nxextract.py returns.
use chrono_nextos.Prelude.{
  ℕ, ◌≡◌, ◌≢◌, refl, sym, ◌∙◌, true, false, not, some, List, [], ◌∷◌, ◌++◌, All, Bool-cases,
  Option-cases, inl, inr, any, leb, length,
}
use chrono_nextos.Prelude.Text.{Text, text_eq, codes}
use chrono_nextos.Fault.{
  ok, plan_error, recipe_error, refuse, refuse-ok, refuse-not-ok, ok-injective, >>=-eq-ok,
}
use chrono_nextos.Json.{Value, Fields, get, as_object, as_text, equals_text}
use chrono_nextos.Paths.{validate_relative_path}
use chrono_nextos.Templates.{expand_commit_paths, under_any_commit}
use chrono_nextos.Validation.Rule.{validate_rules}
use chrono_nextos.Selection.{CandidateGroup, SourceItem, Plan, need, find_key}
use chrono_nextos.Selection.Choose.{rule_source}
use chrono_nextos.Selection.Table.{IsEntry, TableApart, IsTable, IsTable-append}
use chrono_nextos.Selection.Chosen.{IsChosen, need-some, choose_many-IsChosen, choose_one-IsChosen}
use chrono_nextos.Selection.Build.{
  Print, same_item, make_plan, add_items, choose, add_rules, items_of, build_plan_for,
}
use chrono_nextos.Selection.Known.{IdKnown, validate_rules-IdKnown}

-- An item of a rule of the recipe, with a safe destination below a commit path.
pub record IsPlanItem (ids commit_paths : List Text) (item : SourceItem) : Type 0 where
  pub rule : any (text_eq item.rule_id) ids ≡ true
  pub safe : validate_relative_path item.destination false ≡ ok item.destination
  pub below : under_any_commit item.destination commit_paths ≡ true

module _ (portable_path_key : Text → Text) where
  -- No two items go to one place, as a card sees it.
  abbrev pub ItemsApart : List SourceItem → Type 0
  ItemsApart [] = Unit
  ItemsApart (item ∷ rest) =
      All (λ other. portable_path_key item.destination ≢ portable_path_key other.destination) rest
      × ItemsApart rest

  add_items-IsTable :
      (ids commit_paths : List Text) (rule : Fields) (items : List SourceItem)
      (table : List (Text × SourceItem)) {later : List (Text × SourceItem)}
      → ((rule_id : Text)
          → as_text (get "id" rule) ≡ some rule_id
          → any (text_eq rule_id) ids ≡ true)
      → All (IsChosen rule) items
      → IsTable portable_path_key (IsPlanItem ids commit_paths) table
      → add_items portable_path_key commit_paths table items ≡ ok later
      → IsTable portable_path_key (IsPlanItem ids commit_paths) later
  unfolding add_items
  add_items-IsTable ids commit_paths rule [] table known c t h = rw (← ok-injective h) t
  add_items-IsTable ids commit_paths rule (item ∷ more) table known c t h =
      let (_, below, h1) =
        >>=-eq-ok (refuse (not (under_any_commit item.destination commit_paths)) recipe_error) _
          h in
      elim (Option-cases (find_key text_eq (portable_path_key item.destination) table)) [
        | inl e ↦
            add_items-IsTable ids commit_paths rule more
              (table ++ ((portable_path_key item.destination, item) ∷ [])) known c.1
              (IsTable-append portable_path_key (IsPlanItem ids commit_paths) table item t
                (record {
                  rule = known item.rule_id c.0.of_rule;
                  safe = c.0.safe;
                  below = refuse-not-ok _ _ below;
                })
                e)
              (rw (add_items, e) at h1)
        | inr (previous, e) ↦ elim (Bool-cases (same_item portable_path_key previous item)) [
          | inl f ↦
              add_items-IsTable ids commit_paths rule more table known c.1 t
                (rw (add_items, e, f) at h1)
          | inr f ↦ let g = rw (add_items, e, f) at h1 in cc
        ]
      ]

  items_of-ItemsApart :
      {P : SourceItem → Type 0} (table : List (Text × SourceItem))
      → IsTable portable_path_key P table
      → All P (items_of table) × ItemsApart (items_of table)
  items_of-ItemsApart {P} table t = (good table t.entries, apart table t.entries t.keys_apart)
    where
      good :
          (u : List (Text × SourceItem)) → All (IsEntry portable_path_key P) u → All P (items_of u)
      good [] h = tt
      good (e ∷ u) h = (h.0.1, good u h.1)

      others :
          (key : Text) (u : List (Text × SourceItem))
          → All (IsEntry portable_path_key P) u
          → All (λ f. key ≢ f.0) u
          → All (λ other. key ≢ portable_path_key other.destination) (items_of u)
      others key [] h n = tt
      others key (f ∷ u) h n = (λ p. n.0 (p ∙ sym h.0.0), others key u h.1 n.1)

      apart :
          (u : List (Text × SourceItem))
          → All (IsEntry portable_path_key P) u
          → TableApart u
          → ItemsApart (items_of u)
      apart [] h a = tt
      apart (e ∷ u) h a = (rw (← h.0.0) (others e.0 u h.1 a.0), apart u h.1 a.1)

module _ (portable_path_key : Text → Text) (digest : List Print → Text) where
  -- What a plan of the recipe's rules and commit templates is.
  pub record IsPlan (ids commit : List Text) (group : CandidateGroup) (abi : Text) (plan : Plan)
      : Type 0 where
    pub of_group : plan.group ≡ group
    pub for_abi : plan.abi ≡ abi
    pub expanded : expand_commit_paths portable_path_key commit abi ≡ ok plan.commit_paths
    pub some_item : plan.items ≢ []
    pub sealed : (prints : List Print) × (plan.fingerprint ≡ digest prints)
    pub items_ok : All (IsPlanItem ids plan.commit_paths) plan.items
    pub apart : ItemsApart portable_path_key plan.items

module _ (portable_path_key casefold lower_text : Text → Text) (crc32 : List ℕ → ℕ)
    (sha256 : List ℕ → Text) where
  choose-IsChosen :
      (rule : Fields) (group : CandidateGroup) (abi : Text) {items : List SourceItem}
      (digest : List Print → Text)
      → choose portable_path_key casefold lower_text crc32 sha256 digest rule group abi ≡ ok items
      → All (IsChosen rule) items
  unfolding choose
  choose-IsChosen rule group abi digest h =
      let (source, _, h1) = >>=-eq-ok (rule_source rule) _ h in
      elim (Bool-cases (equals_text (get "kind" source) (codes "entries"))) [
        | inl e ↦ choose_many-IsChosen portable_path_key casefold rule group abi (rw e at h1)
        | inr e ↦
            choose_one-IsChosen portable_path_key casefold lower_text crc32 sha256 rule group abi
              (rw e at h1)
      ]

  module _ (digest : List Print → Text) where
    add_rules-IsTable :
        (ids : List Text) (group : CandidateGroup) (abi : Text) (commit_paths : List Text)
        (values : List Value) (table : List (Text × SourceItem)) {later : List (Text × SourceItem)}
        → All (IdKnown ids) values
        → IsTable portable_path_key (IsPlanItem ids commit_paths) table
        → add_rules portable_path_key casefold lower_text crc32 sha256 digest group abi commit_paths
            table values
          ≡ ok later
        → IsTable portable_path_key (IsPlanItem ids commit_paths) later
    unfolding add_rules
    add_rules-IsTable ids group abi commit_paths [] table known t h = rw (← ok-injective h) t
    add_rules-IsTable ids group abi commit_paths (value ∷ values) table known t h =
        let (rule, is_rule, h1) = >>=-eq-ok (need (as_object value)) _ h in
        let (selected, chosen, h2) =
          >>=-eq-ok
            (choose portable_path_key casefold lower_text crc32 sha256 digest rule group abi) _
            h1 in
        let (next, added, h3) =
          >>=-eq-ok (add_items portable_path_key commit_paths table selected) _ h2 in
        add_rules-IsTable ids group abi commit_paths values next known.1
          (add_items-IsTable portable_path_key ids commit_paths rule selected table
            (λ rule_id n. known.0 rule rule_id (need-some _ is_rule) n)
            (choose-IsChosen rule group abi digest chosen) t added)
          h3

    -- A plan for rules that the validation has accepted has at least one item; each of its items
    -- belongs to a rule and goes to a relative path below a commit path, and no two items go to one
    -- place, as a card sees it.
    pub build_plan_for-IsPlan :
        (ids commit seen : List Text) (rules : List Value) (group : CandidateGroup) (abi : Text)
        {plan : Plan}
        → validate_rules portable_path_key seen rules ≡ ok ids
        → build_plan_for portable_path_key casefold lower_text crc32 sha256 digest commit rules
            group abi
          ≡ ok plan
        → IsPlan portable_path_key digest ids commit group abi plan
    unfolding build_plan_for make_plan
    build_plan_for-IsPlan ids commit seen rules group abi valid h =
        let (commit_paths, expanded, h1) =
          >>=-eq-ok (expand_commit_paths portable_path_key commit abi) _ h in
        let (table, added, h2) =
          >>=-eq-ok
            (add_rules portable_path_key casefold lower_text crc32 sha256 digest group abi
              commit_paths [] rules)
            _ h1 in
        let (_, many, h3) = >>=-eq-ok (refuse (leb (length (items_of table)) 0) plan_error) _ h2 in
        let t =
          add_rules-IsTable ids group abi commit_paths rules []
            (validate_rules-IdKnown portable_path_key seen rules valid)
            (record { entries = tt; keys_apart = tt }) added in
        let r = items_of-ItemsApart portable_path_key table t in
        rw (← ok-injective h3) (record {
          of_group = refl;
          for_abi = refl;
          expanded = expanded;
          sealed = (_, refl);
          some_item = λ e. some_items (items_of table) e (refuse-ok _ _ many);
          items_ok = r.0;
          apart = r.1;
        })
      where
        some_items : (items : List SourceItem) → items ≡ [] → leb (length items) 0 ≡ false → ⊥
        some_items items e n = let m = rw e at n in cc

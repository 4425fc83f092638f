-- ===== src/Selection/Marked.antt =====
-- The plan that is resolved for an accepted recipe, and the marker that is written for it.
use mathlib.Core.Path.{subst}
use chrono_nextos.Prelude.{
  ℕ, ◌≡◌, ◌≢◌, ◌∙◌, refl, sym, ap, true, none, some, List, [], ◌∷◌, map, All, All-at, leb,
}
use chrono_nextos.Prelude.Text.{Text}
use chrono_nextos.Fault.{ok, ok-injective, >>=-eq-ok}
use chrono_nextos.Json.{Value, Fields, get, as_object, as_list, is_hex_text, is_abi_text}
use chrono_nextos.Recipe.{Recipe}
use chrono_nextos.Marker.{marker_matches_recipe}
use chrono_nextos.Marker.Encode.{MarkedItem, MarkedPlan, marker_value}
use chrono_nextos.Marker.Matches.{
  key_of, IsMarkedItem, IsSourceKind, IsPrintable, Apart, IsMarkable,
  marker_matches_recipe-marker_value,
}
use chrono_nextos.Validation.Input.{fields_of}
use chrono_nextos.Validation.Rule.{validate_rules}
use chrono_nextos.Validation.Document.{validate, load_recipe}
use chrono_nextos.Validation.Accepted.{validate-IsRead}
use chrono_nextos.Selection.{CandidateGroup, SourceItem, Plan}
use chrono_nextos.Selection.Build.{Print, abi_order, resolve_plan}
use chrono_nextos.Selection.Planned.{IsPlanItem, ItemsApart, build_plan_for-IsPlan}
use chrono_nextos.Selection.Resolution.{attempts-In, resolve_plan-IsResolution}
use chrono_nextos.Selection.Abis.{abi_order-AllAbis}

-- What `_write_install_marker` stores of a plan.
abbrev pub marked_item : SourceItem → MarkedItem
marked_item item = record {
  rule_id = item.rule_id;
  destination = item.destination;
  size = item.size;
}

abbrev pub marked_plan : Plan → MarkedPlan
marked_plan plan = record {
  abi = plan.abi;
  source_kind = plan.group.source_kind;
  package_id = plan.group.package_name;
  fingerprint = plan.fingerprint;
  commit_paths = plan.commit_paths;
  items = map marked_item plan.items;
}

-- `recipe.data["extract"]`
abbrev pub rules_of : Value → List Value
rules_of value = elim (as_list (get "extract" (fields_of value))) [ none ↦ [] | some rules ↦ rules ]

-- A group of sources of one of the kinds that the discovery makes, whose package, where the manifest
-- names one, can be recorded in a marker.
pub record IsGroup (group : CandidateGroup) : Type 0 where
  pub kind_known : IsSourceKind group.source_kind
  pub package_ok : IsPrintable group.package_name

fields_of-object :
    (value : Value) {fields : Fields} → as_object value ≡ some fields → fields_of value ≡ fields
fields_of-object value e = rw (fields_of, e) refl

rules_of-list :
    (value : Value) {fields : Fields} {rules : List Value}
    → fields_of value ≡ fields
    → as_list (get "extract" fields) ≡ some rules
    → rules_of value ≡ rules
rules_of-list value e r = rw (rules_of, e, r) refl

module _ (portable_path_key : Text → Text) where
  ItemsApart-Apart :
      (recipe : Recipe) (plan : MarkedPlan) (items : List SourceItem)
      → ItemsApart portable_path_key items
      → Apart portable_path_key recipe plan (map marked_item items)
  ItemsApart-Apart recipe plan [] a = tt
  ItemsApart-Apart recipe plan (item ∷ items) a =
      (differ items a.0, ItemsApart-Apart recipe plan items a.1)
    where
      differ :
          (rest : List SourceItem)
          → All
              (λ other. portable_path_key item.destination ≢ portable_path_key other.destination)
              rest
          → All
              (λ another.
                key_of portable_path_key recipe plan (marked_item item)
                ≢ key_of portable_path_key recipe plan another)
              (map marked_item rest)
      differ [] h = tt
      differ (other ∷ rest) h = ((λ e. h.0 (ap (λ k. k.1) e)), differ rest h.1)

  items-IsMarkedItem :
      (recipe : Recipe) (plan : MarkedPlan) (items : List SourceItem)
      → All (IsPlanItem recipe.rule_ids plan.commit_paths) items
      → All (IsMarkedItem portable_path_key recipe plan) (map marked_item items)
  items-IsMarkedItem recipe plan [] h = tt
  items-IsMarkedItem recipe plan (item ∷ items) h = (
    record { rule = h.0.rule; safe = h.0.safe; below = h.0.below },
    items-IsMarkedItem recipe plan items h.1,
  )

  module _ (casefold lower_text : Text → Text) (crc32 : List ℕ → ℕ) (sha256 : List ℕ → Text)
      (digest : List Print → Text) (document_digest : Value → Text) (value : Value)
      (machine : Text) where
    resolved-IsMarkable :
        (recipe : Recipe) (groups : List CandidateGroup) {abis : List Text} {plan : Plan}
        → ((prints : List Print) → is_hex_text 64 (digest prints) ≡ true)
        → All IsGroup groups
        → load_recipe portable_path_key document_digest value ≡ ok recipe
        → abi_order machine (fields_of value) ≡ ok abis
        → resolve_plan portable_path_key casefold lower_text crc32 sha256 digest recipe.commit
            (rules_of value)
            groups
            abis
          ≡ ok plan
        → IsMarkable portable_path_key recipe (marked_plan plan)
    unfolding load_recipe
    resolved-IsMarkable recipe groups {abis} {plan} hex known loaded ordered resolved =
        let (contract, valid, made) = >>=-eq-ok (validate portable_path_key value) _ loaded in
        let read = validate-IsRead portable_path_key value valid in
        let recipe_made = ok-injective made in
        let ids : contract.rule_ids ≡ recipe.rule_ids = ap Recipe.rule_ids recipe_made in
        let r =
          resolve_plan-IsResolution portable_path_key casefold lower_text crc32 sha256 digest
            recipe.commit (rules_of value) groups abis resolved in
        let ((group, abi), one, built) = r.built in
        let (group_in, abi_in) = attempts-In groups abis group abi one in
        let fields : fields_of value ≡ read.data_ = fields_of-object value read.is_object in
        let rules : rules_of value ≡ read.rules = rules_of-list value fields read.is_rules in
        let rules_read : validate_rules portable_path_key [] (rules_of value) ≡ ok recipe.rule_ids =
          ap (validate_rules portable_path_key []) rules ∙ read.rules_read ∙ ap ok ids in
        let planned =
          build_plan_for-IsPlan portable_path_key casefold lower_text crc32 sha256 digest
            recipe.rule_ids recipe.commit [] (rules_of value) group abi rules_read built in
        let abis_ok =
          abi_order-AllAbis machine read.data_ read.abis_read
            (ap (abi_order machine) (sym fields) ∙ ordered) in
        let g = All-at IsGroup groups known group_in in
        let (prints, sealed) = planned.sealed in
        record {
          valid_abi = rw planned.for_abi (All-at (λ a. is_abi_text a ≡ true) abis abis_ok abi_in);
          expanded = rw planned.for_abi planned.expanded;
          fingerprinted = rw sealed (hex prints);
          kind_known =
              subst (λ group. IsSourceKind group.source_kind) (sym planned.of_group) g.kind_known;
          package_ok =
              subst (λ group. IsPrintable group.package_name) (sym planned.of_group) g.package_ok;
          items_ok = items-IsMarkedItem recipe (marked_plan plan) plan.items planned.items_ok;
          apart = ItemsApart-Apart recipe (marked_plan plan) plan.items planned.apart;
        }

    -- A recipe that its validation has accepted, with the ABIs of its order, and a plan that is
    -- resolved for it from groups of the four kinds that the discovery makes, whose package, where
    -- there is one, has 1 to 255 characters and no control character: the marker that is written
    -- for the plan, with the digest of at least one object as its seal, is accepted as a marker of
    -- the recipe.
    pub marker_matches_recipe-resolve_plan :
        (recipe : Recipe) (groups : List CandidateGroup) (transaction_id payload_seal : Text)
        (completed payload_objects : ℕ) {abis : List Text} {plan : Plan}
        → ((prints : List Print) → is_hex_text 64 (digest prints) ≡ true)
        → All IsGroup groups
        → load_recipe portable_path_key document_digest value ≡ ok recipe
        → abi_order machine (fields_of value) ≡ ok abis
        → resolve_plan portable_path_key casefold lower_text crc32 sha256 digest recipe.commit
            (rules_of value)
            groups
            abis
          ≡ ok plan
        → is_hex_text 32 transaction_id ≡ true
        → is_hex_text 64 payload_seal ≡ true
        → leb 1 payload_objects ≡ true
        → marker_matches_recipe portable_path_key
            (marker_value recipe
              (marked_plan plan)
              transaction_id
              completed
              payload_seal
              payload_objects)
            recipe
          ≡ ok true
    marker_matches_recipe-resolve_plan recipe groups transaction_id payload_seal completed
          payload_objects {plan = plan} hex known loaded ordered resolved id sealed many =
        marker_matches_recipe-marker_value portable_path_key recipe (marked_plan plan)
          transaction_id completed payload_seal payload_objects
          (resolved-IsMarkable recipe groups hex known loaded ordered resolved) id sealed many

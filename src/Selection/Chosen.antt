-- ===== src/Selection/Chosen.antt =====
-- The items that one rule selects.
use chrono_nextos.Prelude.{
  ℕ, ◌≡◌, ◌∙◌, ap, Bool, false, not, Option, none, some, List, [], ◌∷◌, map, All, Bool-cases,
  Option-cases, inl, inr, leb, length, if◌then◌else◌,
}
use chrono_nextos.Prelude.Text.{Text, text_eq, codes}
use chrono_nextos.Fault.{ok, plan_error, refuse, ok-injective, ◌>>=◌, >>=-eq-ok}
use chrono_nextos.Json.{bool, Fields, get, as_text}
use chrono_nextos.Paths.{validate_relative_path, safe_zip_name}
use chrono_nextos.Paths.Safety.{validate_relative_path-IsRelative}
use chrono_nextos.Templates.{template_value}
use chrono_nextos.Candidates.Checks.{validate_summary}
use chrono_nextos.Validation.{get_or, truthy}
use chrono_nextos.Selection.{
  CandidateGroup, SourceItem, member_item, loose_item, need, find_key, base_name, insert_sorted,
  sorted,
}
use chrono_nextos.Selection.Members.{
  Match, candidate_members, candidate_loose, candidate_containers,
}
use chrono_nextos.Selection.Table.{IsEntry, IsTable, IsTable-append}
use chrono_nextos.Selection.Choose.{
  Candidate, in_archive, on_disk, Identity, select_candidate, settle, is_required, below_root,
  tree_item, add_destination, collect_one, collect, relative_name, conflicts, key_le, second,
  filled_prefix, rule_source, rule_validation, sum, one_of_kinds, unseen_matches, concat,
  choose_tree, choose_many, choose_one, first_valid, valid_loose, identities,
}

-- An item of this rule whose destination is a relative path.
pub record IsChosen (rule : Fields) (item : SourceItem) : Type 0 where
  pub of_rule : as_text (get "id" rule) ≡ some item.rule_id
  pub safe : validate_relative_path item.destination false ≡ ok item.destination

pub need-some {ℓ} : {A : Type ℓ} (o : Option A) {a : A} → need o ≡ ok a → o ≡ some a
need-some none h = cc
need-some (some a) h = cc

validated :
    (d : Text) {p : Text}
    → validate_relative_path d false ≡ ok p
    → validate_relative_path d false ≡ ok d
validated d h = h ∙ ap ok (validate_relative_path-IsRelative d h).0

module _ {ℓ κ} {A : Type ℓ} (P : A → Type κ) (le : A → A → Bool) where
  All-insert_sorted : (a : A) (xs : List A) → P a → All P xs → All P (insert_sorted le a xs)
  unfolding insert_sorted
  All-insert_sorted a [] h hs = (h, tt)
  All-insert_sorted a (b ∷ rest) h hs = elim (Bool-cases (le a b)) [
    | inl e ↦ rw (insert_sorted, e) (h, hs)
    | inr e ↦ rw (insert_sorted, e) (hs.0, All-insert_sorted a rest h hs.1)
  ]

  pub All-sorted : (xs : List A) → All P xs → All P (sorted le xs)
  unfolding sorted
  All-sorted [] hs = tt
  All-sorted (a ∷ rest) hs = All-insert_sorted a (sorted le rest) hs.0 (All-sorted rest hs.1)

select_candidate-IsChosen :
    (rule : Fields) (abi : Text) (candidate : Candidate) {item : SourceItem}
    → select_candidate rule abi candidate ≡ ok item
    → IsChosen rule item
unfolding select_candidate member_item loose_item
select_candidate-IsChosen rule abi (on_disk loose) h =
    let (rule_id, named, h1) = >>=-eq-ok (need (as_text (get "id" rule))) _ h in
    let (template, _, h2) = >>=-eq-ok (need (as_text (get "destination" rule))) _ h1 in
    let (d, _, h3) = >>=-eq-ok (template_value template abi loose.label) _ h2 in
    let (_, valid, h4) = >>=-eq-ok (validate_relative_path d false) _ h3 in
    rw (← ok-injective h4) (record { of_rule = need-some _ named; safe = validated d valid })
select_candidate-IsChosen rule abi (in_archive m) h =
    let (rule_id, named, h1) = >>=-eq-ok (need (as_text (get "id" rule))) _ h in
    let (template, _, h2) = >>=-eq-ok (need (as_text (get "destination" rule))) _ h1 in
    let (d, _, h3) = >>=-eq-ok (template_value template abi (base_name m.name)) _ h2 in
    let (_, valid, h4) = >>=-eq-ok (validate_relative_path d false) _ h3 in
    rw (← ok-injective h4) (record { of_rule = need-some _ named; safe = validated d valid })

pub settle-IsChosen :
    (rule : Fields) (abi : Text) (table : List (Identity × Candidate)) {items : List SourceItem}
    → settle rule abi table ≡ ok items
    → All (IsChosen rule) items
unfolding settle
settle-IsChosen rule abi [] h = elim (Bool-cases (is_required rule)) [
  | inl e ↦ let g = rw (settle, e) at h in cc
  | inr e ↦ let g = rw (settle, e) at h in rw (← ok-injective g) tt
]
settle-IsChosen rule abi ((key, candidate) ∷ []) h =
    let (item, chosen, h1) = >>=-eq-ok (select_candidate rule abi candidate) _ h in
    rw (← ok-injective h1) (select_candidate-IsChosen rule abi candidate chosen, tt)
settle-IsChosen rule abi (first ∷ next ∷ more) h = cc

tree_item-IsChosen :
    (rule : Fields) (rule_id root : Text) (m : Match) (relative : Text) {item : SourceItem}
    → as_text (get "id" rule) ≡ some rule_id
    → tree_item rule_id root m relative ≡ ok item
    → IsChosen rule item
unfolding tree_item member_item
tree_item-IsChosen rule rule_id root m relative named h =
    let (_, _, h1) = >>=-eq-ok (safe_zip_name relative false) _ h in
    let (_, valid, h2) = >>=-eq-ok (validate_relative_path (below_root root relative) false) _ h1 in
    rw (← ok-injective h2) (record { of_rule = named; safe = validated _ valid })

module _ (portable_path_key : Text → Text) (rule : Fields) where
  add_destination-IsTable :
      (table : List (Text × SourceItem)) (item : SourceItem) {later : List (Text × SourceItem)}
      → IsTable portable_path_key (IsChosen rule) table
      → IsChosen rule item
      → add_destination portable_path_key table item ≡ ok later
      → IsTable portable_path_key (IsChosen rule) later
  unfolding add_destination
  add_destination-IsTable table item t c h =
      elim (Option-cases (find_key text_eq (portable_path_key item.destination) table)) [
        | inl e ↦
            let g = rw (add_destination, e) at h in
            rw (← ok-injective g)
              (IsTable-append portable_path_key (IsChosen rule) table item t c e)
        | inr (previous, e) ↦ elim (Bool-cases (conflicts previous item)) [
          | inl f ↦ let g = rw (add_destination, e, f) at h in cc
          | inr f ↦ let g = rw (add_destination, e, f) at h in rw (← ok-injective g) t
        ]
      ]

  collect_one-IsTable :
      (rule_id root : Text) (table : List (Text × SourceItem)) (m : Match) (relative : Option Text)
      {later : List (Text × SourceItem)}
      → as_text (get "id" rule) ≡ some rule_id
      → IsTable portable_path_key (IsChosen rule) table
      → collect_one portable_path_key rule_id root table m relative ≡ ok later
      → IsTable portable_path_key (IsChosen rule) later
  unfolding collect_one
  collect_one-IsTable rule_id root table m none named t h = rw (← ok-injective h) t
  collect_one-IsTable rule_id root table m (some relative) named t h =
      elim (Bool-cases (text_eq relative [])) [
        | inl e ↦ let g = rw (collect_one, e) at h in rw (← ok-injective g) t
        | inr e ↦
            let g = rw (collect_one, e) at h in
            let (item, made, h1) = >>=-eq-ok (tree_item rule_id root m relative) _ g in
            add_destination-IsTable table item t
              (tree_item-IsChosen rule rule_id root m relative named made) h1
      ]

  collect-IsTable :
      (rule_id root strip_prefix : Text) (flatten : Bool) (table : List (Text × SourceItem))
      (matches : List Match) {later : List (Text × SourceItem)}
      → as_text (get "id" rule) ≡ some rule_id
      → IsTable portable_path_key (IsChosen rule) table
      → collect portable_path_key rule_id root strip_prefix flatten table matches ≡ ok later
      → IsTable portable_path_key (IsChosen rule) later
  unfolding collect
  collect-IsTable rule_id root strip_prefix flatten table [] named t h = rw (← ok-injective h) t
  collect-IsTable rule_id root strip_prefix flatten table (m ∷ matches) named t h =
      let (next, one, h1) =
        >>=-eq-ok
          (collect_one portable_path_key rule_id root table m
            (relative_name strip_prefix flatten m.name))
          _ h in
      collect-IsTable rule_id root strip_prefix flatten next matches named
        (collect_one-IsTable rule_id root table m _ named t one) h1

  items-IsChosen :
      (table : List (Text × SourceItem))
      → All (IsEntry portable_path_key (IsChosen rule)) table
      → All (IsChosen rule) (map second table)
  items-IsChosen [] t = tt
  items-IsChosen (e ∷ table) t = (t.0.1, items-IsChosen table t.1)

  pub choose_tree-IsChosen :
      (source : Fields) (abi : Text) (matches : List Match) {items : List SourceItem}
      → choose_tree portable_path_key rule source abi matches ≡ ok items
      → All (IsChosen rule) items
  unfolding choose_tree
  choose_tree-IsChosen source abi matches h =
      let (strip_prefix, _, h1) = >>=-eq-ok (filled_prefix source abi) _ h in
      let (template, _, h2) = >>=-eq-ok (need (as_text (get "destination" rule))) _ h1 in
      let (root, _, h3) = >>=-eq-ok (template_value template abi []) _ h2 in
      let (_, _, h4) = >>=-eq-ok (validate_relative_path root false) _ h3 in
      let (rule_id, named, h5) = >>=-eq-ok (need (as_text (get "id" rule))) _ h4 in
      let (table, collected, h6) =
        >>=-eq-ok
          (collect portable_path_key rule_id root strip_prefix
            (truthy (get_or "flatten" (bool false) source)) [] matches)
          _ h5 in
      let items = sorted (key_le portable_path_key) (map second table) in
      let (spec, _, h7) = >>=-eq-ok (rule_validation rule) _ h6 in
      let (valid, _, h8) =
        >>=-eq-ok (validate_summary (length items) (sum (map SourceItem.size items)) spec) _ h7 in
      let (_, _, h9) = >>=-eq-ok (refuse (not valid) plan_error) _ h8 in
      let t =
        collect-IsTable rule_id root strip_prefix _ [] matches (need-some _ named)
          (record { entries = tt; keys_apart = tt }) collected in
      rw (← ok-injective h9) (
        All-sorted (IsChosen rule) (key_le portable_path_key) (map second table)
          (items-IsChosen table t.entries))

module _ (portable_path_key casefold : Text → Text) where
  pub choose_many-IsChosen :
      (rule : Fields) (group : CandidateGroup) (abi : Text) {items : List SourceItem}
      → choose_many portable_path_key casefold rule group abi ≡ ok items
      → All (IsChosen rule) items
  unfolding choose_many
  choose_many-IsChosen rule group abi h =
      let (source, _, h1) = >>=-eq-ok (rule_source rule) _ h in
      let (by_pattern, _, h2) =
        >>=-eq-ok (candidate_members portable_path_key casefold group source abi) _ h1 in
      let matches = unseen_matches [] (concat by_pattern) in
      elim (Bool-cases (leb (length matches) 0)) [
        | inr e ↦ choose_tree-IsChosen portable_path_key rule source abi matches (rw e at h2)
        | inl e ↦ elim (Bool-cases (is_required rule)) [
          | inl f ↦ let g = rw (e, f) at h2 in cc
          | inr f ↦ let g = rw (e, f) at h2 in rw (← ok-injective g) tt
        ]
      ]

  module _ (lower_text : Text → Text) (crc32 : List ℕ → ℕ) (sha256 : List ℕ → Text) where
    pub choose_one-IsChosen :
        (rule : Fields) (group : CandidateGroup) (abi : Text) {items : List SourceItem}
        → choose_one portable_path_key casefold lower_text crc32 sha256 rule group abi ≡ ok items
        → All (IsChosen rule) items
    unfolding choose_one
    choose_one-IsChosen rule group abi h =
        let (source, _, h1) = >>=-eq-ok (rule_source rule) _ h in
        let (spec, _, h2) = >>=-eq-ok (rule_validation rule) _ h1 in
        let (members, _, h3) =
          >>=-eq-ok
            (if one_of_kinds source (codes "entry" ∷ codes "entry_or_file" ∷ [])
              then (candidate_members portable_path_key casefold group source abi
                  >>= first_valid crc32 sha256 spec abi)
              else ok [])
            _ h2 in
        let (packages, _, h4) =
          >>=-eq-ok
            (if one_of_kinds source (codes "container" ∷ [])
              then (candidate_containers casefold group source abi
                  >>= valid_loose crc32 sha256 spec abi)
              else ok [])
            _ h3 in
        let (files, _, h5) =
          >>=-eq-ok
            (if one_of_kinds source (codes "file" ∷ codes "entry_or_file" ∷ [])
              then (candidate_loose casefold lower_text group source abi
                  >>= valid_loose crc32 sha256 spec abi)
              else ok packages)
            _ h4 in
        settle-IsChosen rule abi (identities crc32 sha256 members files) h5

-- ===== src/Validation/Accepted.antt =====
-- What an accepted recipe guarantees.
use chrono_nextos.Prelude.{
  ◌≡◌, ◌∙◌, refl, ap, suc, true, false, not, Option, none, some, List, [], ◌∷◌, map, All, any, leb,
  length, ltb, or-false,
}
use chrono_nextos.Prelude.Text.{Text}
use chrono_nextos.Fault.{ok, recipe_error, refuse, refuse-ok, ok-injective, >>=-eq-ok}
use chrono_nextos.Json.{
  Value, str, arr, obj, nil, end, Fields, get, as_text, as_object, as_list, equals_number,
}
use chrono_nextos.Paths.{validate_relative_path}
use chrono_nextos.Templates.{
  validate_template_fields, template_value, abi_field, right_strip, paths_overlap, any_overlap,
}
use chrono_nextos.Templates.Total.{template_value-total, abi-IsMapped}
use chrono_nextos.Templates.CommitSet.{Apart, AllApart, keys_overlap-Apart, any_overlap-AllApart}
use chrono_nextos.Specs.{replace_abi}
use chrono_nextos.Specs.Returns.{Returns}
use chrono_nextos.Validation.{
  is_identifier, get_or, the, text_where, some_list, relative_path, as_printed,
}
use chrono_nextos.Validation.Input.{fields_of, validate_input_config, validate_container_contract}
use chrono_nextos.Validation.Rule.{validate_rules}
use chrono_nextos.Validation.Hooks.{check_outputs, validate_hooks}
use chrono_nextos.Validation.Document.{
  Contract, terminal_result, private_workspace, default_marker, is_version, is_title,
  check_commit_item, check_commit_items, check_abi_order, overlaps_one, validate_commit,
  check_protected, validate_logs, validate_identity, validate_numbers, validate,
}
use chrono_nextos.Validation.Distinct.{Distinct, text_where-accepts, validate_rules-Distinct}

-- A commit path as the validation reads it.
abbrev pub IsTemplate : Text → Type 0
IsTemplate item = validate_template_fields item (abi_field ∷ []) ≡ ok tt

check_commit_items-IsTemplate :
    (values : List Value) {items : List Text}
    → check_commit_items values ≡ ok items
    → All IsTemplate items × (length items ≡ length values)
unfolding check_commit_items check_commit_item
check_commit_items-IsTemplate [] h = rw (← ok-injective h) (tt, refl)
check_commit_items-IsTemplate (value ∷ values) h =
    let (item, first, h1) = >>=-eq-ok (check_commit_item value) _ h in
    let (rest, more, h2) = >>=-eq-ok (check_commit_items values) _ h1 in
    let (s, _, f1) = >>=-eq-ok (the (as_text value)) _ first in
    let (_, fields, f2) = >>=-eq-ok (validate_template_fields s (abi_field ∷ [])) _ f1 in
    let (_, _, f3) = >>=-eq-ok (validate_relative_path (replace_abi s) false) _ f2 in
    let ih = check_commit_items-IsTemplate values more in
    rw (← ok-injective h2) ((rw (← ok-injective f3) fields, ih.0), ap suc ih.1)

pub the-some {ℓ} : {A : Type ℓ} (o : Option A) {a : A} → the o ≡ ok a → o ≡ some a
the-some none h = cc
the-some (some a) h = cc

pub some_list-some :
    (value : Value) {vs : List Value} → some_list value ≡ ok vs → as_list value ≡ some vs
some_list-some value h =
    let (ws, listed, h1) = >>=-eq-ok (the (as_list value)) _ h in
    let (_, _, h2) = >>=-eq-ok (refuse (leb (length ws) 0) recipe_error) _ h1 in
    the-some (as_list value) listed ∙ ap some (ok-injective h2)

module _ (portable_path_key : Text → Text) where
  -- Two paths of which neither is the other or lies below it, as a card sees them.
  abbrev pub Clear : Text → Text → Type 0
  Clear left right =
      Apart (portable_path_key (right_strip left)) (portable_path_key (right_strip right))

  any-Clear :
      (path : Text) (others : List Text)
      → overlaps_one portable_path_key path others ≡ false
      → All (Clear path) others
  unfolding paths_overlap
  any-Clear path [] h = tt
  any-Clear path (other ∷ others) h =
      let e = or-false (paths_overlap portable_path_key path other) _ h in
      (keys_overlap-Apart _ _ e.0, any-Clear path others e.1)

  commit-Clear :
      (others commit : List Text)
      → any (λ item. overlaps_one portable_path_key (replace_abi item) others) commit ≡ false
      → All (λ item. All (Clear (replace_abi item)) others) commit
  commit-Clear others [] h = tt
  commit-Clear others (item ∷ commit) h =
      let e = or-false (overlaps_one portable_path_key (replace_abi item) others) _ h in
      (any-Clear (replace_abi item) others e.0, commit-Clear others commit e.1)

  -- The paths that the program itself writes.
  abbrev pub protected_paths : Contract → List Text
  protected_paths c = private_workspace ∷ c.marker ∷ c.log ∷ c.detail_log ∷ terminal_result ∷ []

  pub record IsSound (c : Contract) : Type 0 where
    pub identified : is_identifier c.identifier ≡ true
    pub rules_distinct : Distinct c.rule_ids
    pub rules_named : All (λ rule_id. is_identifier rule_id ≡ true) c.rule_ids
    pub templates : All IsTemplate c.commit
    pub commit_apart : AllApart portable_path_key (map replace_abi c.commit)
    pub commit_clear : All (λ item. All (Clear (replace_abi item)) (protected_paths c)) c.commit
    pub marker_clear : All (Clear c.marker) (c.log ∷ c.detail_log ∷ terminal_result ∷ [])

  validate_commit-AllApart :
      (value : Value) {commit : List Text}
      → validate_commit portable_path_key value ≡ ok commit
      → All IsTemplate commit × AllApart portable_path_key (map replace_abi commit)
  unfolding validate_commit
  validate_commit-AllApart value h =
      let (values, _, h1) = >>=-eq-ok (some_list value) _ h in
      let (items, read, h2) = >>=-eq-ok (check_commit_items values) _ h1 in
      let (_, apart, h3) =
        >>=-eq-ok (refuse (any_overlap portable_path_key (map replace_abi items)) recipe_error) _
          h2 in
      rw (← ok-injective h3) (
        (check_commit_items-IsTemplate values read).0,
        any_overlap-AllApart portable_path_key (map replace_abi items) (refuse-ok _ _ apart),
      )

  check_protected-Clear :
      (marker log detail_log : Text) (commit : List Text) {u : Unit {0}}
      → check_protected portable_path_key marker log detail_log commit ≡ ok u
      → All
          (λ item.
            All
              (Clear (replace_abi item))
              (private_workspace ∷ marker ∷ log ∷ detail_log ∷ terminal_result ∷ []))
          commit
        × All (Clear marker) (log ∷ detail_log ∷ terminal_result ∷ [])
  unfolding check_protected
  check_protected-Clear marker log detail_log commit h =
      let (_, _, h1) =
        >>=-eq-ok (refuse (paths_overlap portable_path_key marker log) recipe_error) _ h in
      let (_, clear, h2) =
        >>=-eq-ok
          (refuse
            (any
              (λ item.
                overlaps_one portable_path_key (replace_abi item)
                  (private_workspace ∷ marker ∷ log ∷ detail_log ∷ terminal_result ∷ []))
              commit)
            recipe_error)
          _ h1 in
      let (_, _, h3) =
        >>=-eq-ok
          (refuse
            (any (λ path. paths_overlap portable_path_key path private_workspace)
              (marker ∷ log ∷ detail_log ∷ terminal_result ∷ []))
            recipe_error)
          _ h2 in
      (
        commit-Clear (private_workspace ∷ marker ∷ log ∷ detail_log ∷ terminal_result ∷ []) commit
            (refuse-ok _ _ clear),
        any-Clear marker (log ∷ detail_log ∷ terminal_result ∷ []) (refuse-ok _ _ h3),
      )

  validate_identity-identified :
      (data_ : Fields) {names : Text × Text}
      → validate_identity data_ ≡ ok names
      → is_identifier names.0 ≡ true
  unfolding validate_identity
  validate_identity-identified data_ h =
      let (_, _, h1) =
        >>=-eq-ok (refuse (not (equals_number (get "schema" data_) 1)) recipe_error) _ h in
      let (identifier, named, h2) = >>=-eq-ok (text_where is_identifier (get "id" data_)) _ h1 in
      let (version, _, h3) = >>=-eq-ok (the (as_printed (get "version" data_))) _ h2 in
      let (_, _, h4) = >>=-eq-ok (refuse (not (is_version version)) recipe_error) _ h3 in
      let (_, _, h5) =
        >>=-eq-ok (text_where is_title (get_or "title" (str identifier) data_)) _ h4 in
      rw (← ok-injective h5) (text_where-accepts is_identifier _ named)

  -- What the validation has read of an accepted document.
  pub record IsRead (value : Value) (c : Contract) : Type 0 where
    pub data_ : Fields
    pub is_object : as_object value ≡ some data_
    pub named : is_identifier c.identifier ≡ true
    pub rules : List Value
    pub is_rules : as_list (get "extract" data_) ≡ some rules
    pub rules_read : validate_rules portable_path_key [] rules ≡ ok c.rule_ids
    pub commit_read : validate_commit portable_path_key (get "commit" data_) ≡ ok c.commit
    pub clear : check_protected portable_path_key c.marker c.log c.detail_log c.commit ≡ ok tt
    pub abis_read : check_abi_order data_ ≡ ok tt

  pub validate-IsRead :
      (value : Value) {contract : Contract}
      → validate portable_path_key value ≡ ok contract
      → IsRead value contract
  unfolding validate
  validate-IsRead value h =
      let (data_, object, h1) = >>=-eq-ok (the (as_object value)) _ h in
      let (names, named, h2) = >>=-eq-ok (validate_identity data_) _ h1 in
      let (input, _, h3) = >>=-eq-ok (the (as_object (get_or "input" (obj end) data_))) _ h2 in
      let (_, _, h4) = >>=-eq-ok (validate_input_config portable_path_key input) _ h3 in
      let (_, _, h5) = >>=-eq-ok (validate_numbers data_) _ h4 in
      let (logs, _, h6) = >>=-eq-ok (validate_logs portable_path_key data_) _ h5 in
      let (rules, listed, h7) = >>=-eq-ok (some_list (get "extract" data_)) _ h6 in
      let (_, _, h8) = >>=-eq-ok (refuse (ltb 256 (length rules)) recipe_error) _ h7 in
      let (rule_ids, rules_ok, h9) = >>=-eq-ok (validate_rules portable_path_key [] rules) _ h8 in
      let (_, _, h10) = >>=-eq-ok (validate_container_contract input (map fields_of rules)) _ h9 in
      let (commit, commit_ok, h11) =
        >>=-eq-ok (validate_commit portable_path_key (get "commit" data_)) _ h10 in
      let (marker, _, h12) =
        >>=-eq-ok (relative_path (get_or "marker" (str (default_marker names.0)) data_)) _ h11 in
      let (_, clear, h13) =
        >>=-eq-ok (check_protected portable_path_key marker logs.0 logs.1 commit) _ h12 in
      let (hooks, _, h14) = >>=-eq-ok (the (as_list (get_or "hooks" (arr nil) data_))) _ h13 in
      let (_, _, h15) = >>=-eq-ok (validate_hooks portable_path_key [] hooks) _ h14 in
      let (checks, _, h16) = >>=-eq-ok (the (as_list (get_or "validate" (arr nil) data_))) _ h15 in
      let (_, _, h17) = >>=-eq-ok (check_outputs portable_path_key checks) _ h16 in
      let (_, ordered, h18) = >>=-eq-ok (check_abi_order data_) _ h17 in
      rw (← ok-injective h18) (record {
        data_ = data_;
        is_object = the-some (as_object value) object;
        named = validate_identity-identified data_ named;
        rules = rules;
        is_rules = some_list-some (get "extract" data_) listed;
        rules_read = rules_ok;
        commit_read = commit_ok;
        clear = clear;
        abis_read = ordered;
      })

  -- An accepted recipe has an id of safe characters and rules with distinct safe ids; with ABI in
  -- place of its field, and as a card sees them, no commit path is another one, the workspace, the
  -- marker, a log or the terminal result, or lies below or above one of these; and neither does the
  -- marker meet a log or the terminal result.
  pub validate-IsSound :
      (value : Value) {contract : Contract}
      → validate portable_path_key value ≡ ok contract
      → IsSound contract
  validate-IsSound value {contract} h =
      let r = validate-IsRead value h in
      let (_, distinct, ids) = validate_rules-Distinct portable_path_key [] r.rules r.rules_read in
      let c = validate_commit-AllApart (get "commit" r.data_) r.commit_read in
      let p =
        check_protected-Clear contract.marker contract.log contract.detail_log contract.commit
          r.clear in
      record {
        identified = r.named;
        rules_distinct = distinct;
        rules_named = ids;
        templates = c.0;
        commit_apart = c.1;
        commit_clear = p.0;
        marker_clear = p.1;
      }

  -- The commit templates of an accepted recipe are filled in for any ABI with no error.
  pub validate-template_value :
      (value : Value) {contract : Contract} (abi : Text)
      → validate portable_path_key value ≡ ok contract
      → All (λ item. Returns (template_value item abi [])) contract.commit
  validate-template_value value {contract} abi h =
      each contract.commit (validate-IsSound value h).templates
    where
      each :
          (items : List Text)
          → All IsTemplate items
          → All (λ item. Returns (template_value item abi [])) items
      each [] t = tt
      each (item ∷ items) t = (
        template_value-total abi [] item (abi_field ∷ []) (abi-IsMapped abi [], tt) t.0,
        each items t.1,
      )

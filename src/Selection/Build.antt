-- ===== src/Selection/Build.antt =====
-- `build_plan_for` and `resolve_plan` of nxextract/nxextract.py: the plan of one group of sources for
-- one ABI, and the plan that is left when all groups and ABIs have been tried.
use chrono_nextos.Prelude.{
  ℕ, suc, Bool, true, false, not, ◌&&◌, ◌||◌, Option, none, some, List, [], ◌∷◌, ◌++◌, map, ltb,
  leb, ◌==◌, length, all, if◌then◌else◌,
}
use chrono_nextos.Prelude.Text.{Text, text_eq, codes, starts_with}
use chrono_nextos.Fault.{
  Fault, Result, ok, err, plan_error, validation_error, recipe_error, refuse, ◌>>=◌, ◌>>◌,
}
use chrono_nextos.Json.{Value, Fields, get, as_object, equals_text, is_null}
use chrono_nextos.Templates.{expand_commit_paths, under_any_commit}
use chrono_nextos.Validation.{some_list}
use chrono_nextos.Validation.Rule.{some_texts}
use chrono_nextos.Selection.{
  CandidateGroup, SourceItem, Plan, description, need, find_key, text_le, sorted,
}
use chrono_nextos.Selection.Choose.{key_le, same_option, rule_source, choose_one, choose_many}

-- `SourceItem.identity`, compared.
abbrev pub same_item : (Text → Text) → SourceItem → SourceItem → Bool
same_item portable_path_key a b =
    text_eq a.rule_id b.rule_id
    && text_eq (portable_path_key a.destination) (portable_path_key b.destination)
    && (a.size == b.size)
    && same_option a.crc b.crc
    && text_eq a.source_name b.source_name

-- The four fields of an item that the fingerprint of a plan is made of.
abbrev pub Print : Type 0
Print = Text × Text × ℕ × Option ℕ

abbrev pub print_of : SourceItem → Print
print_of item = (item.rule_id, item.destination, item.size, item.crc)

-- `{abi: index for index, abi in enumerate(abis)}.get(abi, 999)`: the last index counts.
abbrev pub abi_rank : ℕ → ℕ → Text → List Text → ℕ
abi_rank index rank abi [] = rank
abi_rank index rank abi (name ∷ abis) =
    abi_rank (suc index) (if text_eq abi name then index else rank) abi abis

-- `{"apk-set": 0, "bundle": 1, "companion": 2}.get(kind, 9)`
abbrev pub source_rank : Text → ℕ
source_rank kind =
    if text_eq kind (codes "apk-set")
    then 0
    else if text_eq kind (codes "bundle")
    then 1
    else if text_eq kind (codes "companion")
    then 2
    else 9

-- The order of the sort keys `(abi_rank, source_rank, description)`.
abbrev pub rank_le : ℕ × ℕ × Text → ℕ × ℕ × Text → Bool
rank_le (a, s, d) (b, t, e) = ltb a b || ((a == b) && (ltb s t || ((s == t) && text_le d e)))

unfoldable pub plan_rank : List Text → Plan → ℕ × ℕ × Text
unfolding description
plan_rank abis plan =
    (abi_rank 0 999 plan.abi abis, source_rank plan.group.source_kind, description plan.group)

abbrev pub plan_le : List Text → Plan → Plan → Bool
plan_le abis a b = rank_le (plan_rank abis a) (plan_rank abis b)

-- `Recipe.abi_order`; `machine` is `platform.machine().lower()`.
unfoldable pub default_abis : Text → List Text
unfolding starts_with text_eq
default_abis machine =
    if text_eq machine (codes "aarch64") || text_eq machine (codes "arm64")
    then codes "arm64-v8a" ∷ codes "armeabi-v7a" ∷ []
    else if starts_with machine (codes "arm")
    then codes "armeabi-v7a" ∷ codes "armeabi" ∷ []
    else if text_eq machine (codes "x86_64") || text_eq machine (codes "amd64")
    then codes "x86_64" ∷ codes "x86" ∷ []
    else codes "arm64-v8a" ∷ codes "armeabi-v7a" ∷ codes "x86_64" ∷ codes "x86" ∷ []

unfoldable pub abi_order : Text → Fields → Result (List Text)
unfolding default_abis some_texts
abi_order machine data_ =
    if is_null (get "abi_order" data_)
    then ok (default_abis machine)
    else (some_list (get "abi_order" data_) >>= some_texts)

-- `[abi_override] if abi_override else recipe.abi_order()`
unfoldable pub tried_abis : Option Text → Text → Fields → Result (List Text)
unfolding abi_order text_eq
tried_abis none machine data_ = abi_order machine data_
tried_abis (some abi_override) machine data_ =
    if text_eq abi_override [] then abi_order machine data_ else ok (abi_override ∷ [])

-- `except (PlanError, ValidationError)`: a failure that leads to the next candidate.
unfoldable pub is_failure : Fault → Bool
is_failure plan_error = true
is_failure validation_error = true
is_failure _ = false

-- `equivalent[0]`
abbrev pub first_plan : List Plan → Result Plan
first_plan [] = err plan_error
first_plan (plan ∷ plans) = ok plan

-- The end of `resolve_plan`: the successes have one fingerprint, and the first of them by rank is
-- the plan.
unfoldable pub select_plan : List Text → List Plan → Result Plan
unfolding sorted plan_rank text_eq
select_plan abis [] = err plan_error
select_plan abis (plan ∷ plans) =
    refuse (not (all (λ p. text_eq plan.fingerprint p.fingerprint) plans)) plan_error >>= λ _.
    first_plan (sorted (plan_le abis) (plan ∷ plans))

abbrev pub items_of : List (Text × SourceItem) → List SourceItem
items_of [] = []
items_of ((key, item) ∷ rest) = item ∷ items_of rest

abbrev pub with_group : CandidateGroup → List Text → List (CandidateGroup × Text)
with_group group [] = []
with_group group (abi ∷ abis) = (group, abi) ∷ with_group group abis

-- Every group with every ABI, in the order of the two loops.
abbrev pub attempts : List CandidateGroup → List Text → List (CandidateGroup × Text)
attempts [] abis = []
attempts (group ∷ groups) abis = with_group group abis ++ attempts groups abis

module _ (portable_path_key : Text → Text) where
  -- `sha256_bytes(canonical_json(fingerprint))` of the items by the keys of their destinations.
  unfoldable pub make_plan :
      (List Print → Text) → CandidateGroup → Text → List SourceItem → List Text → Plan
  unfolding sorted
  make_plan digest group abi items commit_paths = record {
    group = group;
    abi = abi;
    items = items;
    commit_paths = commit_paths;
    fingerprint = digest (map print_of (sorted (key_le portable_path_key) items));
  }

  -- The inner loop of `build_plan_for`, over the items that a rule selects: the items and the table
  -- of destinations so far, which is the table of the items by their keys.
  unfoldable pub add_items :
      List Text → List (Text × SourceItem) → List SourceItem → Result (List (Text × SourceItem))
  add_items commit_paths destinations [] = ok destinations
  add_items commit_paths destinations (item ∷ more) =
      refuse (not (under_any_commit item.destination commit_paths)) recipe_error >>= λ _.
      (let key = portable_path_key item.destination in
        elim (find_key text_eq key destinations) [
          | none ↦ add_items commit_paths (destinations ++ ((key, item) ∷ [])) more
          | some previous ↦
              if same_item portable_path_key previous item
              then add_items commit_paths destinations more
              else err plan_error
        ])

module _ (portable_path_key casefold lower_text : Text → Text) (crc32 : List ℕ → ℕ)
    (sha256 : List ℕ → Text) (digest : List Print → Text) where
  -- What one rule selects.
  unfoldable pub choose : Fields → CandidateGroup → Text → Result (List SourceItem)
  unfolding choose_one choose_many
  choose rule group abi = do
    source ← rule_source rule
    if equals_text (get "kind" source) (codes "entries")
        then choose_many portable_path_key casefold rule group abi
        else choose_one portable_path_key casefold lower_text crc32 sha256 rule group abi

  -- The loop over the rules of `extract`.
  unfoldable pub add_rules :
      CandidateGroup
      → Text
      → List Text
      → List (Text × SourceItem)
      → List Value
      → Result (List (Text × SourceItem))
  unfolding choose add_items
  add_rules group abi commit_paths destinations [] = ok destinations
  add_rules group abi commit_paths destinations (value ∷ values) =
      need (as_object value) >>= λ rule. choose rule group abi >>= λ selected.
      add_items portable_path_key commit_paths destinations selected >>= λ later.
      add_rules group abi commit_paths later values

  -- `recipe` is given by its commit templates and its rules.
  unfoldable pub build_plan_for : List Text → List Value → CandidateGroup → Text → Result Plan
  unfolding add_rules make_plan
  build_plan_for commit rules group abi = do
    commit_paths ← expand_commit_paths portable_path_key commit abi
    destinations ← add_rules group abi commit_paths [] rules
    refuse (leb (length (items_of destinations)) 0) plan_error
    ok (make_plan portable_path_key digest group abi (items_of destinations) commit_paths)

  -- The loop over the ABIs for one group, and over the groups: the plans that could be built.
  unfoldable pub keep_success : Result Plan → Result (List Plan) → Result (List Plan)
  unfolding is_failure
  keep_success (ok plan) rest = rest >>= λ plans. ok (plan ∷ plans)
  keep_success (err e) rest = if is_failure e then rest else err e

  unfoldable pub try_attempts :
      List Text → List Value → List (CandidateGroup × Text) → Result (List Plan)
  unfolding build_plan_for keep_success
  try_attempts commit rules [] = ok []
  try_attempts commit rules ((group, abi) ∷ more) =
      keep_success (build_plan_for commit rules group abi) (try_attempts commit rules more)

  unfoldable pub resolve_plan :
      List Text → List Value → List CandidateGroup → List Text → Result Plan
  unfolding try_attempts select_plan
  resolve_plan commit rules groups abis = do
    successes ← try_attempts commit rules (attempts groups abis)
    select_plan abis successes

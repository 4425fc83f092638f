-- ===== src/Selection/Choose.antt =====
-- `_choose_one` and `_choose_many` of nxextract/nxextract.py: what one rule selects.
use chrono_nextos.Prelude.{
  ℕ, ◌+◌, Bool, true, false, not, ◌&&◌, ◌||◌, Option, none, some, List, [], ◌∷◌, ◌++◌, map, leb,
  ◌==◌, length, any, drop, if◌then◌else◌,
}
use chrono_nextos.Prelude.Text.{Text, text_eq, codes, starts_with, ends_in}
use chrono_nextos.Fault.{Result, ok, err, plan_error, refuse, ◌>>=◌, ◌>>◌}
use chrono_nextos.Json.{bool, str, obj, Fields, end, get, as_object, as_text}
use chrono_nextos.Paths.{slash, validate_relative_path, safe_zip_name}
use chrono_nextos.Templates.{template_value, right_strip}
use chrono_nextos.Candidates.Checks.{
  validate_member_candidate, validate_loose_candidate, validate_summary,
}
use chrono_nextos.Marker.{is_one_of}
use chrono_nextos.Validation.{get_or, truthy}
use chrono_nextos.Selection.{
  LooseFile, CandidateGroup, SourceItem, member_item, loose_item, need, find_key, base_name,
  text_le, sorted,
}
use chrono_nextos.Selection.Members.{
  Match, candidate_members, candidate_loose, candidate_containers,
}

-- A candidate of `_choose_one`.
pub data Candidate : Type 0 where
  in_archive : Match → Candidate
  on_disk : LooseFile → Candidate

-- `[item for item in items if test(item)]` for a test that may raise.
abbrev pub filter_by {ℓ} : {A : Type ℓ} → (A → Result Bool) → List A → Result (List A)
filter_by test [] = ok []
filter_by test (a ∷ rest) =
    test a >>= λ kept. filter_by test rest >>= λ more. ok (if kept then a ∷ more else more)

-- `identities`: the candidates by size and CRC, each with the first one that has them.
abbrev pub Identity : Type 0
Identity = ℕ × ℕ

abbrev pub same_identity : Identity → Identity → Bool
same_identity (size, crc) (other_size, other_crc) = (size == other_size) && (crc == other_crc)

abbrev pub add_identity :
    List (Identity × Candidate) → Identity → Candidate → List (Identity × Candidate)
add_identity identities key candidate = elim (find_key same_identity key identities) [
  | none ↦ identities ++ ((key, candidate) ∷ [])
  | some first ↦ identities
]

abbrev pub rule_source : Fields → Result Fields
rule_source rule = need (as_object (get "source" rule))

abbrev pub rule_validation : Fields → Result Fields
rule_validation rule = need (as_object (get_or "validate" (obj end) rule))

-- `rule.get("required", True)`
abbrev pub is_required : Fields → Bool
is_required rule = truthy (get_or "required" (bool true) rule)

-- `destination.rstrip("/") + "/" + relative`
abbrev pub below_root : Text → Text → Text
below_root root relative = right_strip root ++ (slash ∷ relative)

-- What is left of a name below the prefix to strip; None where the name does not start with it.
unfoldable pub relative_name : Text → Bool → Text → Option Text
unfolding base_name
relative_name strip_prefix flatten name =
    if text_eq strip_prefix []
    then some (if flatten then base_name name else name)
    else if starts_with name strip_prefix
    then some (
        if flatten
        then base_name (drop (length strip_prefix) name)
        else drop (length strip_prefix) name)
    else none

-- `strip_prefix`, filled in and with a slash at its end, unless it is empty.
abbrev pub with_slash : Text → Text
with_slash s = if text_eq s [] || ends_in slash s then s else s ++ (slash ∷ [])

unfoldable pub filled_prefix : Fields → Text → Result Text
filled_prefix source abi =
    let value = get_or "strip_prefix" (str []) source in
    if truthy value
    then (need (as_text value) >>= λ s.
        template_value s abi [] >>= λ prefix. ok (with_slash prefix))
    else ok []

abbrev pub sum : List ℕ → ℕ
sum [] = 0
sum (n ∷ ns) = n + sum ns

-- `if valid: candidates.extend(valid); break`
abbrev pub or_next {ℓ} : {A : Type ℓ} → List A → Result (List A) → Result (List A)
or_next [] next = next
or_next (a ∷ valid) next = ok (a ∷ valid)

abbrev pub one_of_kinds : Fields → List Text → Bool
one_of_kinds source kinds = is_one_of (get "kind" source) kinds

-- The end of `_choose_one`: the item of the one candidate that is left.
unfoldable pub select_candidate : Fields → Text → Candidate → Result SourceItem
unfolding base_name member_item loose_item
select_candidate rule abi (on_disk loose) = need (as_text (get "id" rule)) >>= λ rule_id.
    need (as_text (get "destination" rule)) >>= λ template.
    template_value template abi loose.label >>= λ destination.
    validate_relative_path destination false >>= λ _. ok (loose_item rule_id destination loose)
select_candidate rule abi (in_archive m) = need (as_text (get "id" rule)) >>= λ rule_id.
    need (as_text (get "destination" rule)) >>= λ template.
    template_value template abi (base_name m.name) >>= λ destination.
    validate_relative_path destination false >>= λ _.
    ok (member_item rule_id destination m.name m.info)

-- No identity, one, or several.
unfoldable pub settle : Fields → Text → List (Identity × Candidate) → Result (List SourceItem)
unfolding select_candidate
settle rule abi [] = if is_required rule then err plan_error else ok []
settle rule abi ((key, candidate) ∷ []) =
    select_candidate rule abi candidate >>= λ item. ok (item ∷ [])
settle rule abi (first ∷ second ∷ more) = err plan_error

-- The matches of all patterns, each member once by the path of its archive and its name.
abbrev pub same_member : Text × Text → Text × Text → Bool
same_member (path, name) (other_path, other_name) =
    text_eq path other_path && text_eq name other_name

unfoldable pub unseen_matches : List (Text × Text) → List Match → List Match
unseen_matches seen [] = []
unseen_matches seen (m ∷ matches) =
    let again = unseen_matches seen matches in
    let new = unseen_matches ((m.archive.path, m.name) ∷ seen) matches in
    if any (same_member (m.archive.path, m.name)) seen then again else m ∷ new

abbrev pub concat {ℓ} : {A : Type ℓ} → List (List A) → List A
concat [] = []
concat (xs ∷ rest) = xs ++ concat rest

-- `previous.destination != destination or previous.size != info.file_size or previous.crc != info.CRC`
abbrev pub same_option : Option ℕ → Option ℕ → Bool
same_option none none = true
same_option none (some m) = false
same_option (some n) none = false
same_option (some n) (some m) = n == m

abbrev pub conflicts : SourceItem → SourceItem → Bool
conflicts previous item =
    not (text_eq previous.destination item.destination)
    || not (previous.size == item.size)
    || not (same_option previous.crc item.crc)

-- The item of a member that has a name below the root, where it has one.
unfoldable pub tree_item : Text → Text → Match → Text → Result SourceItem
unfolding member_item
tree_item rule_id root m relative = do
  cleaned ← safe_zip_name relative false
  checked ← validate_relative_path (below_root root relative) false
  ok (member_item rule_id (below_root root relative) m.name m.info)

abbrev pub second : Text × SourceItem → SourceItem
second (key, item) = item

module _ (portable_path_key : Text → Text) where
  -- `destinations`, the items of a tree by the key of where they go.
  unfoldable pub add_destination :
      List (Text × SourceItem) → SourceItem → Result (List (Text × SourceItem))
  add_destination destinations item =
      elim (find_key text_eq (portable_path_key item.destination) destinations) [
        | none ↦ ok (destinations ++ ((portable_path_key item.destination, item) ∷ []))
        | some previous ↦ if conflicts previous item then err plan_error else ok destinations
      ]

  -- The body of the loop; `continue` leaves the destinations as they are.
  unfoldable pub collect_one :
      Text
      → Text
      → List (Text × SourceItem)
      → Match
      → Option Text
      → Result (List (Text × SourceItem))
  unfolding tree_item add_destination
  collect_one rule_id root destinations m none = ok destinations
  collect_one rule_id root destinations m (some relative) =
      if text_eq relative []
      then ok destinations
      else (tree_item rule_id root m relative >>= add_destination destinations)

  unfoldable pub collect :
      Text
      → Text
      → Text
      → Bool
      → List (Text × SourceItem)
      → List Match
      → Result (List (Text × SourceItem))
  unfolding collect_one relative_name
  collect rule_id root strip_prefix flatten destinations [] = ok destinations
  collect rule_id root strip_prefix flatten destinations (m ∷ matches) =
      collect_one rule_id root destinations m (relative_name strip_prefix flatten m.name)
      >>= λ later. collect rule_id root strip_prefix flatten later matches

  abbrev pub key_le : SourceItem → SourceItem → Bool
  key_le a b = text_le (portable_path_key a.destination) (portable_path_key b.destination)

  -- The rest of `_choose_many`, once some member has matched.
  unfoldable pub choose_tree : Fields → Fields → Text → List Match → Result (List SourceItem)
  unfolding filled_prefix collect sorted validate_summary
  choose_tree rule source abi matches = do
    strip_prefix ← filled_prefix source abi
    template ← need (as_text (get "destination" rule))
    root ← template_value template abi []
    checked ← validate_relative_path root false
    rule_id ← need (as_text (get "id" rule))
    destinations ←
        collect rule_id root strip_prefix (truthy (get_or "flatten" (bool false) source)) [] matches
    let items = sorted key_le (map second destinations)
    spec ← rule_validation rule
    valid ← validate_summary (length items) (sum (map SourceItem.size items)) spec
    refuse (not valid) plan_error
    ok items

module _ (portable_path_key casefold : Text → Text) where
  unfoldable pub choose_many : Fields → CandidateGroup → Text → Result (List SourceItem)
  unfolding candidate_members unseen_matches choose_tree
  choose_many rule group abi = do
    source ← rule_source rule
    by_pattern ← candidate_members portable_path_key casefold group source abi
    let matches = unseen_matches [] (concat by_pattern)
    if leb (length matches) 0
        then (if is_required rule then err plan_error else ok [])
        else choose_tree portable_path_key rule source abi matches

module _ (crc32 : List ℕ → ℕ) (sha256 : List ℕ → Text) where
  -- The members that the first pattern with a valid one selects.
  unfoldable pub first_valid : Fields → Text → List (List Match) → Result (List Match)
  unfolding validate_member_candidate
  first_valid spec abi [] = ok []
  first_valid spec abi (matches ∷ more) =
      filter_by (λ m. validate_member_candidate crc32 sha256 m.info spec abi) matches >>= λ valid.
      or_next valid (first_valid spec abi more)

  unfoldable pub valid_loose : Fields → Text → List LooseFile → Result (List LooseFile)
  unfolding validate_loose_candidate
  valid_loose spec abi files =
      filter_by (λ loose. validate_loose_candidate crc32 sha256 loose.bytes spec abi) files

  unfoldable pub identities : List Match → List LooseFile → List (Identity × Candidate)
  identities matches files = add_files (add_members [] matches) files
    where
      add_members : List (Identity × Candidate) → List Match → List (Identity × Candidate)
      add_members table [] = table
      add_members table (m ∷ rest) =
          add_members (add_identity table (m.info.file_size, m.info.crc) (in_archive m)) rest

      add_files : List (Identity × Candidate) → List LooseFile → List (Identity × Candidate)
      add_files table [] = table
      add_files table (loose ∷ rest) =
          add_files (add_identity table (length loose.bytes, crc32 loose.bytes) (on_disk loose))
            rest

module _ (portable_path_key casefold lower_text : Text → Text) (crc32 : List ℕ → ℕ)
    (sha256 : List ℕ → Text) where
  unfoldable pub choose_one : Fields → CandidateGroup → Text → Result (List SourceItem)
  unfolding candidate_members candidate_loose candidate_containers first_valid valid_loose
      identities settle
  choose_one rule group abi = do
    source ← rule_source rule
    spec ← rule_validation rule
    members ←
        if one_of_kinds source (codes "entry" ∷ codes "entry_or_file" ∷ [])
        then (candidate_members portable_path_key casefold group source abi
            >>= first_valid crc32 sha256 spec abi)
        else ok []
    packages ←
        if one_of_kinds source (codes "container" ∷ [])
        then (candidate_containers casefold group source abi >>= valid_loose crc32 sha256 spec abi)
        else ok []
    files ←
        if one_of_kinds source (codes "file" ∷ codes "entry_or_file" ∷ [])
        then (candidate_loose casefold lower_text group source abi
            >>= valid_loose crc32 sha256 spec abi)
        else ok packages
    settle rule abi (identities crc32 sha256 members files)

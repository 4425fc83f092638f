-- ===== src/Selection/Members.antt =====
-- The candidates for a rule's patterns in nxextract/nxextract.py: `_source_scopes`,
-- `_assert_portable_selection`, `_candidate_members`, `_candidate_loose` and `_candidate_containers`.
use chrono_nextos.Prelude.{
  ℕ, Bool, true, false, not, ◌&&◌, ◌||◌, Option, none, some, List, [], ◌∷◌, ◌++◌, reverse, ◌==◌,
  length, any, all, if◌then◌else◌,
}
use chrono_nextos.Prelude.Text.{Text, text_eq, codes, split, join}
use chrono_nextos.Fault.{Result, ok, err, recipe_error, source_error, refuse, ◌>>=◌}
use chrono_nextos.Json.{Value, bool, arr, nil, Fields, get, as_text, as_list, is_null, equals_text}
use chrono_nextos.Paths.{slash}
use chrono_nextos.Templates.{template_value}
use chrono_nextos.Candidates.Checks.{Member}
use chrono_nextos.Validation.{get_or, truthy}
use chrono_nextos.Validation.Input.{text_list}
use chrono_nextos.Selection.{Archive, LooseFile, CandidateGroup, need, find_key, base_name}
use chrono_nextos.Selection.Glob.{member_matches}

-- A member of an archive, under its cleaned name.
pub record Match : Type 0 where
  pub archive : Archive
  pub name : Text
  pub info : Member

-- `item in ("apk", "bundle")`
abbrev pub is_scope_value : Value → Bool
is_scope_value item = equals_text item (codes "apk") || equals_text item (codes "bundle")

-- The scopes of a source, or those that stand for them where it has none.
unfoldable pub source_scopes : List Text → Fields → Result (List Value)
source_scopes default source = elim (as_list (get_or "scopes" (text_list default) source)) [
  | none ↦ err recipe_error
  | some scopes ↦ if all is_scope_value scopes then ok scopes else err recipe_error
]

-- `archive.kind not in scopes`, negated.
abbrev pub in_scope : List Value → Archive → Bool
in_scope scopes archive = any (λ scope. equals_text scope archive.kind) scopes

-- `[template_value(value, abi) for value in source.get("patterns", ["*"])]`
unfoldable pub fill_templates : Text → List Value → Result (List Text)
fill_templates abi [] = ok []
fill_templates abi (value ∷ values) = need (as_text value) >>= λ s.
    template_value s abi [] >>= λ pattern. fill_templates abi values >>= λ rest. ok (pattern ∷ rest)

unfoldable pub source_patterns : Text → Fields → Result (List Text)
unfolding fill_templates
source_patterns abi source =
    need (as_list (get_or "patterns" (text_list (codes "*" ∷ [])) source)) >>= fill_templates abi

-- The paths `parts[:1]`, `parts[:2]` and so on, joined, below those in `done`.
abbrev pub prefixes : List Text → List Text → List Text
prefixes done [] = []
prefixes done (part ∷ parts) =
    join slash (done ++ (part ∷ [])) ∷ prefixes (done ++ (part ∷ [])) parts

-- `(id(archive), portable_path_key(prefix))`
abbrev pub Key : Type 0
Key = ℕ × Text

abbrev pub same_object : Key → Key → Bool
same_object (a, k) (b, l) = (a == b) && text_eq k l

-- `previous is not None and previous != prefix`
abbrev pub differs_from : Option Text → Text → Bool
differs_from none prefix = false
differs_from (some previous) prefix = not (text_eq previous prefix)

-- `PurePosixPath(path).suffix`: what follows the last dot, with the dot, unless the dot leads or
-- ends the name.
abbrev pub after_last_dot : Text → Text → Option Text
after_last_dot read [] = none
after_last_dot read (c ∷ s) =
    if c == b'.'
    then (if text_eq s [] then none else some (c ∷ read))
    else after_last_dot (c ∷ read) s

unfoldable pub suffix : Text → Text
unfolding base_name text_eq
suffix path = elim (after_last_dot [] (reverse (base_name path))) [
  | none ↦ []
  | some s ↦ if length s == 1 then [] else s
]

abbrev pub keep_loose : (LooseFile → Bool) → List LooseFile → List LooseFile
keep_loose test [] = []
keep_loose test (loose ∷ rest) =
    let kept = keep_loose test rest in if test loose then loose ∷ kept else kept

-- `LooseFile(archive.path)`, whose label is the path's last component.
abbrev pub container_file : Archive → LooseFile
container_file archive = record {
  path = archive.path;
  label = base_name archive.path;
  bytes = archive.bytes;
}

abbrev pub containers : (Archive → Bool) → List Archive → List LooseFile
containers test [] = []
containers test (archive ∷ archives) =
    let found = containers test archives in
    if test archive then container_file archive ∷ found else found

module _ (portable_path_key : Text → Text) where
  -- The inner loop: every prefix against the one that had its key before.
  unfoldable pub check_prefixes : ℕ → List (Key × Text) → List Text → Result (List (Key × Text))
  check_prefixes object seen [] = ok seen
  check_prefixes object seen (prefix ∷ more) =
      refuse (differs_from (find_key same_object (object, portable_path_key prefix) seen) prefix)
        source_error
      >>= λ _. check_prefixes object (((object, portable_path_key prefix), prefix) ∷ seen) more

  unfoldable pub portable_loop : List (Key × Text) → List Match → Result (Unit {0})
  unfolding check_prefixes
  portable_loop seen [] = ok tt
  portable_loop seen (m ∷ matches) =
      check_prefixes m.archive.object seen (prefixes [] (split slash m.name)) >>= λ later.
      portable_loop later matches

  unfoldable pub assert_portable_selection : List Match → Result (Unit {0})
  unfolding portable_loop
  assert_portable_selection matches = portable_loop [] matches

-- `casefold` is `str.casefold`.
module _ (casefold : Text → Text) where
  -- The members of one archive, and of all archives in scope, whose name a pattern matches.
  abbrev pub matching : Text → Bool → Archive → List (Text × Member) → List Match
  matching pattern case_sensitive archive [] = []
  matching pattern case_sensitive archive ((name, info) ∷ members) =
      let rest = matching pattern case_sensitive archive members in
      if member_matches casefold name pattern case_sensitive
      then (record { archive = archive; name = name; info = info }) ∷ rest
      else rest

  abbrev pub pattern_matches : Text → Bool → List Value → List Archive → List Match
  pattern_matches pattern case_sensitive scopes [] = []
  pattern_matches pattern case_sensitive scopes (archive ∷ archives) =
      let rest = pattern_matches pattern case_sensitive scopes archives in
      if in_scope scopes archive
      then matching pattern case_sensitive archive archive.members ++ rest
      else rest

  abbrev pub any_matches : Text → List Text → Bool → Bool
  any_matches name patterns case_sensitive =
      any (λ pattern. member_matches casefold name pattern case_sensitive) patterns

  -- An archive that is a candidate itself: in scope, the base package or the split that is wanted,
  -- and with a label that a pattern matches.
  abbrev pub is_candidate_container : List Value → Value → List Text → Bool → Archive → Bool
  is_candidate_container scopes wanted patterns case_sensitive archive =
      in_scope scopes archive
      && (if is_null wanted then text_eq archive.split [] else equals_text wanted archive.split)
      && any_matches archive.label patterns case_sensitive

  unfoldable pub candidate_containers : CandidateGroup → Fields → Text → Result (List LooseFile)
  unfolding source_patterns source_scopes base_name
  candidate_containers group source abi = do
    scopes ← source_scopes (codes "apk" ∷ []) source
    patterns ← source_patterns abi source
    let case_sensitive = truthy (get_or "case_sensitive" (bool false) source)
    ok (
        containers (is_candidate_container scopes (get "split" source) patterns case_sensitive)
          group.archives)

module _ (portable_path_key casefold : Text → Text) where
  -- The loop over the patterns.
  unfoldable pub members_by_pattern :
      Bool → List Value → List Archive → List Text → Result (List (List Match))
  unfolding assert_portable_selection
  members_by_pattern case_sensitive scopes archives [] = ok []
  members_by_pattern case_sensitive scopes archives (pattern ∷ patterns) =
      assert_portable_selection portable_path_key
        (pattern_matches casefold pattern case_sensitive scopes archives)
      >>= λ _. members_by_pattern case_sensitive scopes archives patterns >>= λ rest.
          ok (pattern_matches casefold pattern case_sensitive scopes archives ∷ rest)

  unfoldable pub candidate_members : CandidateGroup → Fields → Text → Result (List (List Match))
  unfolding members_by_pattern source_patterns source_scopes
  candidate_members group source abi = do
    patterns ← source_patterns abi source
    scopes ← source_scopes (codes "apk" ∷ codes "bundle" ∷ []) source
    members_by_pattern (truthy (get_or "case_sensitive" (bool true) source)) scopes group.archives
        patterns

-- `lower_text` is `str.lower`.
module _ (casefold lower_text : Text → Text) where
  -- `{item.lower() for item in extensions}`
  unfoldable pub lower_texts : List Value → Result (List Text)
  lower_texts [] = ok []
  lower_texts (value ∷ values) =
      need (as_text value) >>= λ s. lower_texts values >>= λ rest. ok (lower_text s ∷ rest)

  -- `not extensions or suffix in extensions`, and a pattern that matches.
  abbrev pub loose_matches : List Text → List Text → Bool → LooseFile → Bool
  loose_matches extensions patterns case_sensitive loose =
      (text_eq_nil extensions || any (text_eq (lower_text (suffix loose.path))) extensions)
      && any_matches casefold loose.label patterns case_sensitive
    where
      text_eq_nil : List Text → Bool
      text_eq_nil [] = true
      text_eq_nil (e ∷ es) = false

  unfoldable pub candidate_loose : CandidateGroup → Fields → Text → Result (List LooseFile)
  unfolding source_patterns lower_texts suffix
  candidate_loose group source abi = do
    patterns ← source_patterns abi source
    values ← need (as_list (get_or "file_extensions" (arr nil) source))
    extensions ← lower_texts values
    let case_sensitive = truthy (get_or "case_sensitive" (bool false) source)
    ok (keep_loose (loose_matches extensions patterns case_sensitive) group.loose)

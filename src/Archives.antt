-- ===== src/Archives.antt =====
-- `Archive._open` of nxextract/nxextract.py: the members of a ZIP file that a selection may look at.
-- The entries are those that `zipfile` lists. `portable_collisions`, which nothing reads, is left out.
pub mod Components
pub mod Opened
use chrono_nextos.Prelude.{
  ℕ, ◌+◌, ◌*◌, ◌/◌, ◌%◌, ◌≡◌, refl, Bool, true, false, not, ◌&&◌, ◌||◌, Option, none, some, List,
  [], ◌∷◌, ◌++◌, ltb, length, any, ◌==◌, if◌then◌else◌,
}
use chrono_nextos.Prelude.Text.{Text, text_eq, codes, split, ends_in}
use chrono_nextos.Fault.{Result, ok, err, source_error, other, refuse, ◌>>=◌, ◌>>◌}
use chrono_nextos.Paths.{slash, safe_zip_name}
use chrono_nextos.Candidates.Checks.{Member, is_read_error}
use chrono_nextos.Manifest.Bytes.{
  ParseFault, value_error, index_error, struct_error, Parsed, parsed, failed,
}
use chrono_nextos.Manifest.{parse_android_manifest}
use chrono_nextos.Selection.{find_key}
use chrono_nextos.Selection.Members.{prefixes}

-- `zipfile.ZipInfo`, with the content of the entry where it can be read.
pub record ZipInfo : Type 0 where
  pub filename : Text
  pub flag_bits : ℕ
  pub external_attr : ℕ
  pub member : Member

-- `info.is_dir()`
abbrev pub is_dir_entry : ZipInfo → Bool
is_dir_entry info = ends_in slash info.filename

-- `info.flag_bits & 1`
abbrev pub is_encrypted : ZipInfo → Bool
is_encrypted info = info.flag_bits % 2 == 1

-- `stat.S_IFMT((info.external_attr >> 16) & 0xFFFF) in (0, stat.S_IFREG)`
abbrev pub is_regular_member : ZipInfo → Bool
is_regular_member info =
    let file_type = info.external_attr / 65536 % 65536 / 4096 in
    (file_type == 0) || (file_type == 8)

-- The prefixes of a name with whether each of them is a directory.
abbrev pub typed_prefixes : Bool → List Text → List (Text × Bool)
typed_prefixes is_dir [] = []
typed_prefixes is_dir (prefix ∷ []) = (prefix, is_dir) ∷ []
typed_prefixes is_dir (prefix ∷ next ∷ more) = (prefix, true) ∷ typed_prefixes is_dir (next ∷ more)

-- `previous_type is not None and previous_type != object_type`
abbrev pub type_differs : Option Bool → Bool → Bool
type_differs none is_dir = false
type_differs (some previous) is_dir = if previous then not is_dir else is_dir

abbrev pub Types : Type 0
Types = List (Text × Bool)

-- `exact`, `component_types` and `members` in the loop.
pub record Opening : Type 0 where
  pub exact : List Text
  pub component_types : Types
  pub members : List (Text × Member)

abbrev pub with_name : Opening → Text → Types → List (Text × Member) → Opening
with_name opening name types members = record {
  exact = name ∷ opening.exact;
  component_types = types;
  members = members;
}

-- The package and the split that the manifest names; a manifest that cannot be read, is too long,
-- or has a wrong value is no source. Other errors of the parser are not caught.
abbrev pub manifest_result : Option (Parsed (Text × Text)) → Result (Text × Text)
manifest_result none = err other
manifest_result (some (parsed found)) = ok found
manifest_result (some (failed value_error)) = err source_error
manifest_result (some (failed index_error)) = err other
manifest_result (some (failed struct_error)) = err other

unfoldable pub manifest_of :
    (List ℕ → Parsed (Option Text × Option Text))
    → List (Text × Member)
    → Result (Option Text × Text)
unfolding parse_android_manifest
manifest_of plain_manifest members = elim (find_key text_eq (codes "AndroidManifest.xml") members) [
  | none ↦ ok (none, [])
  | some member ↦ elim member.manifest_read [
    | err e ↦ if is_read_error e then err source_error else err e
    | ok bytes ↦
        if ltb 4194304 (length bytes)
        then err source_error
        else (manifest_result (parse_android_manifest plain_manifest bytes)
            >>= λ (package_name, split_name). ok (some package_name, split_name))
  ]
]

module _ (portable_path_key : Text → Text) where
  -- The inner loop, over the prefixes of one name.
  unfoldable pub check_components : Types → List (Text × Bool) → Result Types
  check_components types [] = ok types
  check_components types ((prefix, is_dir) ∷ more) =
      refuse (type_differs (find_key text_eq (portable_path_key prefix) types) is_dir) source_error
      >>= λ _. check_components ((portable_path_key prefix, is_dir) ∷ types) more

  -- One entry that has a name.
  unfoldable pub add_entry : Opening → ZipInfo → Text → Result Opening
  unfolding check_components
  add_entry opening info name = do
    refuse (any (text_eq name) opening.exact) source_error
    types ←
        check_components opening.component_types
          (typed_prefixes (is_dir_entry info) (prefixes [] (split slash name)))
    if is_dir_entry info then ok (with_name opening name types opening.members) else do
      refuse (is_encrypted info) source_error
      refuse (not (is_regular_member info)) source_error
      ok (with_name opening name types (opening.members ++ ((name, info.member) ∷ [])))

  -- The loop over `infolist()`.
  unfoldable pub add_entries : Opening → List ZipInfo → Result Opening
  unfolding add_entry
  add_entries opening [] = ok opening
  add_entries opening (info ∷ more) = safe_zip_name info.filename (is_dir_entry info) >>= λ name.
      (if text_eq name [] then ok opening else add_entry opening info name) >>= λ later.
      add_entries later more

  abbrev pub opened_members : List ZipInfo → Result (List (Text × Member))
  opened_members infos =
      add_entries (record { exact = []; component_types = []; members = [] }) infos >>= λ opening.
      ok opening.members

  -- The members of the archive, its package and its split.
  unfoldable pub open_archive :
      (List ℕ → Parsed (Option Text × Option Text))
      → List ZipInfo
      → Result (List (Text × Member) × Option Text × Text)
  unfolding add_entries manifest_of
  open_archive plain_manifest infos = do
    members ← opened_members infos
    names ← manifest_of plain_manifest members
    ok (members, names.0, names.1)

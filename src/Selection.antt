-- ===== src/Selection.antt =====
-- The selection of a payload in nxextract/nxextract.py: the archives, loose files and groups that it
-- looks through, the items that it selects, and the tables and orders that its parts share.
pub mod Glob
pub mod GlobMatches
pub mod Recorded
pub mod Portable
pub mod Members
pub mod Choose
pub mod Build
pub mod Table
pub mod Chosen
pub mod Known
pub mod Planned
pub mod Order
pub mod Selected
pub mod Resolution
pub mod Abis
pub mod Marked
use chrono_nextos.Prelude.{
  ℕ, zero, suc, ◌+◌, ◌≡◌, refl, Bool, true, false, not, ◌&&◌, ◌||◌, Option, none, some, List, [],
  ◌∷◌, ◌++◌, map, reverse, ltb, ◌==◌, length, any, if◌then◌else◌,
}
use chrono_nextos.Prelude.Text.{Text, text_eq, codes, split}
use chrono_nextos.Fault.{Result, ok, err, other}
use chrono_nextos.Paths.{slash, dot}
use chrono_nextos.Candidates.Checks.{Member}

-- `object` is `id(archive)`, and `bytes` is the archive's own file.
pub record Archive : Type 0 where
  pub object : ℕ
  pub path : Text
  pub kind : Text
  pub split : Text
  pub label : Text
  pub members : List (Text × Member)
  pub bytes : List ℕ

-- A regular file, by its path, its label and its bytes.
pub record LooseFile : Type 0 where
  pub path : Text
  pub label : Text
  pub bytes : List ℕ

pub record CandidateGroup : Type 0 where
  pub label : Text
  pub archives : List Archive
  pub loose : List LooseFile
  pub package_name : Option Text
  pub source_kind : Text

-- `CandidateGroup.description`: a package that is the empty text counts as none.
unfoldable pub description : CandidateGroup → Text
unfolding text_eq
description group = elim group.package_name [
  | none ↦ group.label
  | some named ↦
      if text_eq named []
      then group.label
      else group.label ++ codes " (package " ++ named ++ codes ")"
]

-- A selected member or loose file with the rule that selected it and where it goes. The CRC of a
-- loose file is not kept.
pub record SourceItem : Type 0 where
  pub rule_id : Text
  pub destination : Text
  pub size : ℕ
  pub crc : Option ℕ
  pub source_name : Text

-- `SourceItem.__init__` for a member of an archive and for a loose file.
unfoldable pub member_item : Text → Text → Text → Member → SourceItem
member_item rule_id destination name info = record {
  rule_id = rule_id;
  destination = destination;
  size = info.file_size;
  crc = some info.crc;
  source_name = name;
}

unfoldable pub loose_item : Text → Text → LooseFile → SourceItem
loose_item rule_id destination loose = record {
  rule_id = rule_id;
  destination = destination;
  size = length loose.bytes;
  crc = none;
  source_name = loose.label;
}

pub record Plan : Type 0 where
  pub group : CandidateGroup
  pub abi : Text
  pub items : List SourceItem
  pub commit_paths : List Text
  pub fingerprint : Text

-- Shared steps ---------------------------------------------------------------------------------

-- What a recipe's validation has seen to: another value would be a `TypeError` or a `KeyError`.
abbrev pub need {ℓ} : {A : Type ℓ} → Option A → Result A
need none = err other
need (some a) = ok a

-- The value of a key in a dict that keeps the order of insertion.
abbrev pub find_key {ℓ κ} : {K : Type ℓ} {V : Type κ} → (K → K → Bool) → K → List (K × V) → Option V
find_key same key [] = none
find_key same key ((k, v) ∷ rest) = if same key k then some v else find_key same key rest

-- `PurePosixPath(name).name`: the last component that is neither empty nor a dot.
abbrev pub last_name : List Text → Text
last_name [] = []
last_name (part ∷ parts) = if text_eq part [] || text_eq part dot then last_name parts else part

unfoldable pub base_name : Text → Text
unfolding split text_eq
base_name name = last_name (reverse (split slash name))

-- The order of texts by their code points.
abbrev pub text_le : Text → Text → Bool
text_le [] t = true
text_le (c ∷ s) [] = false
text_le (c ∷ s) (d ∷ t) = ltb c d || ((c == d) && text_le s t)

-- `sorted`, which keeps the order of equals, by a test on two elements.
module _ {ℓ} {A : Type ℓ} (le : A → A → Bool) where
  unfoldable pub insert_sorted : A → List A → List A
  insert_sorted a [] = a ∷ []
  insert_sorted a (b ∷ rest) = if le a b then a ∷ b ∷ rest else b ∷ insert_sorted a rest

  unfoldable pub sorted : List A → List A
  unfolding insert_sorted
  sorted [] = []
  sorted (a ∷ rest) = insert_sorted a (sorted rest)

base_runs : (base_name (codes "lib/x86/a.so") ≡ codes "a.so") × (base_name (codes "a") ≡ codes "a")
unfolding base_name
base_runs = (refl, refl)

-- ===== src/Installed.antt =====
-- The installed payload as `payload_metadata_seal` of nxextract/nxextract.py sees it: the objects below
-- the commit paths with their sizes and times, and the seal that is made of them.

pub mod Stream
pub mod Gathered
pub mod Objects
pub mod Sealed
use chrono_nextos.Prelude.{
  ℕ, zero, suc, ◌+◌, ◌*◌, ◌/◌, ◌%◌, ◌≡◌, refl, Bool, true, false, not, ◌&&◌, ◌||◌, Option, none,
  some, List, [], ◌∷◌, ◌++◌, map, ltb, length, any, if◌then◌else◌,
}
use chrono_nextos.Prelude.Text.{Text, text_eq, codes}
use chrono_nextos.Fault.{Result, ok, err, validation_error, other, refuse, ◌>>=◌, ◌>>◌}
use chrono_nextos.Paths.{slash}
use chrono_nextos.Selection.{text_le, sorted, find_key}

-- What `lstat` tells of an object. A regular file is private where it has one name only; it has a
-- size and a time in nanoseconds since 1970, and not before.
mutual
  pub data Node : Type 0 where
    regular_file : Bool → ℕ → ℕ → Node
    directory : Entries → Node
    symbolic_link special_object : Node

  pub data Entries : Type 0 where
    no_entry : Entries
    named : Text → Node → Entries → Entries

-- `b"F"` or `b"D"` with the relative path, and the size and time of a file.
pub data SealedObject : Type 0 where
  sealed_file : Text → ℕ → ℕ → SealedObject
  sealed_directory : Text → SealedObject

abbrev pub relative_of : SealedObject → Text
relative_of (sealed_file relative size mtime) = relative
relative_of (sealed_directory relative) = relative

-- `os.path.relpath(os.path.join(current, name), root)`
abbrev pub child_path : Text → Text → Text
child_path current name = current ++ (slash ∷ name)

-- A name of a directory with its object, and the objects below it.
pub record Visit : Type 0 where
  pub name : Text
  pub node : Node
  pub below : Result (List SealedObject)

-- A loop whose turns add objects or raise.
unfoldable pub gather {ℓ} :
    {A : Type ℓ} → (A → Result (List SealedObject)) → List A → Result (List SealedObject)
gather turn [] = ok []
gather turn (a ∷ rest) = turn a >>= λ own. gather turn rest >>= λ more. ok (own ++ more)

-- A turn of the loop over the directories, and of the one over the files: a link is refused whether
-- `os.walk` lists it with the ones or with the others.
unfoldable pub directory_object : Text → Text → Node → Result (List SealedObject)
directory_object current name (directory entries) =
    ok (sealed_directory (child_path current name) ∷ [])
directory_object current name (regular_file private_ size mtime) = ok []
directory_object current name symbolic_link = err validation_error
directory_object current name special_object = ok []

unfoldable pub file_object : Text → Text → Node → Result (List SealedObject)
file_object current name (directory entries) = ok []
file_object current name (regular_file private_ size mtime) =
    refuse (not private_) validation_error >>= λ _.
    ok (sealed_file (child_path current name) size mtime ∷ [])
file_object current name symbolic_link = err validation_error
file_object current name special_object = err validation_error

module _ (portable_path_key : Text → Text) where
  abbrev pub visit_le : Visit → Visit → Bool
  visit_le a b = text_le (portable_path_key a.name) (portable_path_key b.name)

  -- One turn of `os.walk`, and the turns for what is below: `visits` are the names in the directory.
  unfoldable pub walk_visits : Text → List Visit → Result (List SealedObject)
  unfolding gather directory_object file_object
  walk_visits current visits = do
    directories ← gather (λ v. directory_object current v.name v.node) visits
    files ← gather (λ v. file_object current v.name v.node) visits
    deeper ← gather Visit.below visits
    ok (directories ++ (files ++ deeper))

  mutual
    unfolding walk_visits sorted

    pub walk : Text → Node → Result (List SealedObject)
    walk current (directory entries) =
        walk_visits current (sorted visit_le (visits_of current entries))
    walk current (regular_file private_ size mtime) = ok []
    walk current symbolic_link = ok []
    walk current special_object = ok []

    pub visits_of : Text → Entries → List Visit
    visits_of current no_entry = []
    visits_of current (named name node entries) =
        (record { name = name; node = node; below = walk (child_path current name) node })
        ∷ visits_of current entries

  -- The object at a commit path and what is below it.
  unfoldable pub commit_objects : Text → Option Node → Result (List SealedObject)
  unfolding walk
  commit_objects commit none = err validation_error
  commit_objects commit (some (regular_file private_ size mtime)) =
      refuse (not private_) validation_error >>= λ _. ok (sealed_file commit size mtime ∷ [])
  commit_objects commit (some (directory entries)) =
      walk commit (directory entries) >>= λ below. ok (sealed_directory commit ∷ below)
  commit_objects commit (some symbolic_link) = err validation_error
  commit_objects commit (some special_object) = err validation_error

  abbrev pub path_le : Text → Text → Bool
  path_le a b = text_le (portable_path_key a) (portable_path_key b)

  -- The loop over the sorted commit paths; `at` is what the game directory has there.
  unfoldable pub payload_objects : (Text → Option Node) → List Text → Result (List SealedObject)
  unfolding commit_objects gather
  payload_objects at commits = gather (λ commit. commit_objects commit (at commit)) commits

  -- `portable_objects`: no two paths with one key.
  unfoldable pub check_objects : List (Text × Text) → List SealedObject → Result (Unit {0})
  check_objects portable [] = ok tt
  check_objects portable (object ∷ objects) =
      refuse
        (elim (find_key text_eq (portable_path_key (relative_of object)) portable) [
          | none ↦ false
          | some previous ↦ not (text_eq previous (relative_of object))
        ])
        validation_error
      >>= λ _.
          check_objects ((portable_path_key (relative_of object), relative_of object) ∷ portable)
            objects

-- `struct.pack("<I", n)` and `struct.pack("<Q", n)`: the bytes from the lowest one on, and the
-- numbers that have so few.
abbrev pub little_endian : ℕ → ℕ → List ℕ
little_endian zero n = []
little_endian (suc width) n = n % 256 ∷ little_endian width (n / 256)

abbrev pub limit : ℕ → ℕ
limit zero = 1
limit (suc width) = 256 * limit width

-- `utf8` is `str.encode("utf-8")`, and `sha256` the digest in hexadecimal.
module _ (utf8 : Text → List ℕ) where
  -- What `add_object` feeds to the digest before the rest.
  abbrev pub emit_path : Text → List ℕ → List ℕ
  emit_path relative rest = little_endian 4 (length (utf8 relative)) ++ (utf8 relative ++ rest)

  unfoldable pub emit : SealedObject → List ℕ → List ℕ
  emit (sealed_file relative size mtime) rest =
      b'F' ∷ emit_path relative (little_endian 8 size ++ (little_endian 8 mtime ++ rest))
  emit (sealed_directory relative) rest = b'D' ∷ emit_path relative rest

  -- Any other number is a `struct.error`.
  unfoldable pub can_pack : SealedObject → Bool
  can_pack (sealed_file relative size mtime) =
      ltb (length (utf8 relative)) (limit 4) && ltb size (limit 8) && ltb mtime (limit 8)
  can_pack (sealed_directory relative) = ltb (length (utf8 relative)) (limit 4)

  unfoldable pub digest_input : List SealedObject → Result (List ℕ)
  unfolding emit can_pack
  digest_input [] = ok []
  digest_input (object ∷ objects) = refuse (not (can_pack object)) other >>= λ _.
      digest_input objects >>= λ rest. ok (emit object rest)

  module _ (portable_path_key : Text → Text) (sha256 : List ℕ → Text) where
    unfoldable pub payload_metadata_seal : (Text → Option Node) → List Text → Result (Text × ℕ)
    unfolding payload_objects check_objects digest_input sorted
    payload_metadata_seal at commit_paths = do
      objects ←
          payload_objects portable_path_key at (sorted (path_le portable_path_key) commit_paths)
      check_objects portable_path_key [] objects
      input ← digest_input objects
      ok (sha256 input, length objects)

-- ===== src/Disk.antt =====
-- The part of the file system that the transaction of nxextract/nxextract.py works on, and its
-- durable operations, any of which may fail or be the last one before the power is lost.
--
-- A payload object at a commit path is one value, whatever is below it. A commit path names an
-- object in three places: the game directory, the stage and the backup (`Templates.CommitSet`
-- shows that no commit path lies below another one, and `Paths.Escape` that each place is below
-- its own root).
pub mod Areas
pub mod Runs
use chrono_nextos.Prelude.{
  ℕ, Bool, true, false, not, Option, none, some, List, [], ◌∷◌, any, if◌then◌else◌,
}
use chrono_nextos.Prelude.Text.{Text, text_eq}
use chrono_nextos.Fault.{Fault, nx_error, os_error, Result, ok, err}
use chrono_nextos.Json.{Value}

-- What `lstat` tells of an object: a regular file, a directory, a symbolic link, or another kind.
pub data Kind : Type 0 where
  regular directory link special : Kind

-- `has_files`: a file or a link stands somewhere in the directory. `metadata`
-- stands for the names, kinds, sizes and times of everything in the object, and `bytes` for the rest.
pub record Object : Type 0 where
  pub kind : Kind
  pub has_files : Bool
  pub metadata : ℕ
  pub bytes : ℕ

abbrev pub Area : Type 0
Area = List (Text × Object)

unfoldable pub lookup : Text → Area → Option Object
lookup p [] = none
lookup p ((q, o) ∷ a) = if text_eq q p then some o else lookup p a

unfoldable pub without : Text → Area → Area
without p [] = []
without p ((q, o) ∷ a) = let rest = without p a in if text_eq q p then rest else (q, o) ∷ rest

-- The destination of a rename, which replaces what is there; `none` is a source that is gone.
abbrev pub put : Text → Option Object → Area → Area
put p none a = without p a
put p (some o) a = (p, o) ∷ without p a

-- A directory of the workspace: not there, a real directory, or a link or file in its place.
pub data Root : Type 0 where
  absent real blocked : Root

-- `transaction.json`: a private regular file with a JSON document, one whose text cannot be read,
-- or an object that is linked or no regular file.
pub data JournalFile : Type 0 where
  document : Value → JournalFile
  unreadable unsafe : JournalFile

pub record Disk : Type 0 where
  pub live : Area
  pub stage : Area
  pub backup : Area
  pub stage_root : Root
  pub backup_root : Root
  -- Parents of a path that are links or no directories, in each place.
  pub live_blocked : Text → Bool
  pub stage_blocked : Text → Bool
  pub backup_blocked : Text → Bool
  pub journal : Option JournalFile
  -- The marker, where it is a private regular file that holds a JSON object.
  pub marker : Option Value

-- What happens to one durable operation: it is carried out; it raises, before or after its effect
-- (a rename whose `fsync` fails); the process ends before or after its effect.
pub data Event : Type 0 where
  go : Event
  refused unsynced : Fault → Event
  cut_before cut_after : Event

-- The events of the operations to come; after the last one, every operation is carried out.
pub record World : Type 0 where
  pub disk : Disk
  pub events : List Event

-- A call returns, raises, or the process ends in it.
pub data Outcome {ℓ} (A : Type ℓ) : Type ℓ where
  done : A → Outcome A
  raised : Fault → Outcome A
  cut : Outcome A

abbrev pub M {ℓ} : Type ℓ → Type ℓ
M A = World → Outcome A × World

abbrev pub continue {ℓ κ} :
    {A : Type ℓ} {B : Type κ} → Outcome A → World → (A → M B) → Outcome B × World
continue (done a) w f = f a w
continue (raised e) w f = (raised e, w)
continue cut w f = (cut, w)

infixl 5 ◌>>=◌ ◌>>◌
unfoldable pub ◌>>=◌ {ℓ κ} : {A : Type ℓ} {B : Type κ} → M A → (A → M B) → M B
◌>>=◌ m f w = let (r, w') = m w in continue r w' f

abbrev pub ◌>>◌ {ℓ κ} : {A : Type ℓ} {B : Type κ} → M A → M B → M B
m >> k = m >>= λ _. k

unfoldable pub pure {ℓ} : {A : Type ℓ} → A → M A
pure a w = (done a, w)

unfoldable pub raise {ℓ} : {A : Type ℓ} → Fault → M A
raise e w = (raised e, w)

abbrev pub outcome_of {ℓ} : {A : Type ℓ} → Result A → Outcome A
outcome_of (ok a) = done a
outcome_of (err e) = raised e

unfoldable pub lift {ℓ} : {A : Type ℓ} → Result A → M A
lift r w = (outcome_of r, w)

unfoldable pub reads {ℓ} : {A : Type ℓ} → (Disk → A) → M A
reads f w = (done (f w.disk), w)

-- An effect that is no durable step of its own, such as `os.mkdir` before an `fsync`.
unfoldable pub modify : (Disk → Disk) → M (Unit {0})
modify f w = (done tt, record w { disk = f w.disk })

abbrev pub happen : Event → (Disk → Disk) → Disk → List Event → Outcome (Unit {0}) × World
happen go f d rest = (done tt, record { disk = f d; events = rest })
happen (refused e) f d rest = (raised e, record { disk = d; events = rest })
happen (unsynced e) f d rest = (raised e, record { disk = f d; events = rest })
happen cut_before f d rest = (cut, record { disk = d; events = rest })
happen cut_after f d rest = (cut, record { disk = f d; events = rest })

abbrev pub happen_next : List Event → (Disk → Disk) → Disk → Outcome (Unit {0}) × World
happen_next [] f d = (done tt, record { disk = f d; events = [] })
happen_next (event ∷ rest) f d = happen event f d rest

-- One durable operation.
unfoldable pub durable : (Disk → Disk) → M (Unit {0})
durable f w = happen_next w.events f w.disk

abbrev pub handle_outcome {ℓ} : {A : Type ℓ} → Outcome A → World → (Fault → M A) → Outcome A × World
handle_outcome (done a) w handler = (done a, w)
handle_outcome (raised e) w handler = handler e w
handle_outcome cut w handler = (cut, w)

-- `try: body / except Exception as e: handler`; the end of the process runs no handler.
unfoldable pub catch {ℓ} : {A : Type ℓ} → M A → (Fault → M A) → M A
catch body handler w = let (r, w') = body w in handle_outcome r w' handler

abbrev pub require : Bool → Fault → M (Unit {0})
require true e = pure tt
require false e = raise e

-- The three places of a commit path.
pub data Place : Type 0 where
  in_game in_stage in_backup : Place

abbrev pub area : Place → Disk → Area
area in_game d = d.live
area in_stage d = d.stage
area in_backup d = d.backup

abbrev pub blocked_in : Place → Disk → Text → Bool
blocked_in in_game d = d.live_blocked
blocked_in in_stage d = d.stage_blocked
blocked_in in_backup d = d.backup_blocked

abbrev pub with_area : Place → Area → Disk → Disk
with_area in_game a d = record d { live = a }
with_area in_stage a d = record d { stage = a }
with_area in_backup a d = record d { backup = a }

-- `os.path.lexists`
abbrev pub exists_in : Place → Text → Disk → Bool
exists_in place p d = elim (lookup p (area place d)) [ none ↦ false | some o ↦ true ]

abbrev pub safe_kind : Kind → Result Bool
safe_kind regular = ok true
safe_kind directory = ok true
safe_kind link = err nx_error
safe_kind special = err nx_error

abbrev pub safe_object : Option Object → Result Bool
safe_object none = ok false
safe_object (some o) = safe_kind o.kind

-- `_safe_transaction_object`
unfoldable pub safe_transaction_object : Place → Text → M Bool
safe_transaction_object place p w = (outcome_of (safe_object (lookup p (area place w.disk))), w)

-- `ensure_no_symlink_parents`, and `ensure_real_parent_directories`, which also makes the parents
-- that are missing: a directory at no commit path, which nothing here reads.
unfoldable pub ensure_no_symlink_parents : Place → Text → M (Unit {0})
ensure_no_symlink_parents place p w =
    (if blocked_in place w.disk p then raised nx_error else done tt, w)

unfoldable pub ensure_real_parent_directories : Place → Text → M (Unit {0})
ensure_real_parent_directories place p w =
    (if blocked_in place w.disk p then raised nx_error else done tt, w)

abbrev pub move : Place → Place → Text → Disk → Disk
move source destination p d =
    with_area destination (put p (lookup p (area source d)) (area destination d))
      (with_area source (without p (area source d)) d)

-- `durable_rename` of the object at one commit path from one place to another.
unfoldable pub durable_rename : Place → Place → Text → M (Unit {0})
durable_rename source destination p = durable (move source destination p)

-- `fsync_directory(path, required=True)`: it changes nothing that is modelled, and may fail.
unfoldable pub fsync_directory : M (Unit {0})
fsync_directory = durable (λ d. d)

abbrev pub holds_files : Object → Bool
holds_files o = elim o.kind [ directory ↦ o.has_files | _ ↦ true ]

abbrev pub no_files : Area → Bool
no_files a = not (any (λ (_, o). holds_files o) a)

-- `_backup_tree_is_empty`: directories without files do not count.
unfoldable pub backup_tree_is_empty : Disk → Bool
backup_tree_is_empty d = elim d.backup_root [ absent ↦ true | _ ↦ no_files d.backup ]

-- `_ensure_transaction_root(workspace, name, create=False)`
abbrev pub check_root : Root → Outcome (Unit {0})
check_root absent = done tt
check_root real = done tt
check_root blocked = raised nx_error

unfoldable pub ensure_transaction_root : (Disk → Root) → M (Unit {0})
ensure_transaction_root root w = (check_root (root w.disk), w)

abbrev pub is_absent : Root → Bool
is_absent absent = true
is_absent _ = false

-- ===== src/Paths.antt =====
-- Path texts of nxextract/nxextract.py: the validation of relative paths and of archive entry
-- names, and the joining of a path below a root.
pub mod Parts
pub mod Safety
pub mod Escape
use chrono_nextos.Prelude.{ℕ, Bool, true, false, ◌&&◌, ◌||◌, not, List, [], ◌∷◌, ◌++◌}
use chrono_nextos.Prelude.{ltb, ◌==◌, any, take, drop, length, if◌then◌else◌}
use chrono_nextos.Prelude.{Option, none, some, reverse}
use chrono_nextos.Prelude.Text.{Text, text_eq, contains, starts_with, ends_in, split, join}
use chrono_nextos.Fault.{Result, ok, err, recipe_error, source_error, nx_error, refuse, ◌>>=◌, ◌>>◌}

abbrev pub slash : ℕ
slash = b'/'

abbrev pub dot : Text
dot = b'.' ∷ []

abbrev pub dot_dot : Text
dot_dot = b'.' ∷ b'.' ∷ []

-- `"\x00" in value or "\\" in value or any(ord(char) < 32 for char in value)`
unfoldable pub has_unsafe_char : Text → Bool
has_unsafe_char value = contains 0 value || contains b'\\' value || any (λ char. ltb char 32) value

-- `part in ("", ".", "..")`
unfoldable pub is_special_part : Text → Bool
is_special_part part = text_eq part [] || text_eq part dot || text_eq part dot_dot

-- `part.endswith((" ", "."))`
unfoldable pub ends_unportably : Text → Bool
ends_unportably part = ends_in b' ' part || ends_in b'.' part

unfoldable pub validate_relative_path : Text → Bool → Result Text
validate_relative_path value allow_dot = do
  refuse (has_unsafe_char value) recipe_error
  if text_eq value dot && allow_dot then ok value else do
    refuse (text_eq value [] || starts_with value (slash ∷ [])) recipe_error
    refuse (any is_special_part (split slash value)) recipe_error
    refuse (any ends_unportably (split slash value)) recipe_error
    ok (join slash (split slash value))

-- `name[:-1] if directory and name.endswith("/") else name`
unfoldable pub strip_directory_mark : Text → Bool → Text
strip_directory_mark name directory =
    if directory && ends_in slash name then reverse (drop 1 (reverse name)) else name

unfoldable pub is_unsafe_zip_part : Text → Bool
is_unsafe_zip_part part = is_special_part part || contains b':' part || ends_unportably part

safe_zip_clean : Text → Result Text
safe_zip_clean clean = if text_eq clean [] then ok [] else do
  refuse (any is_unsafe_zip_part (split slash clean)) source_error
  ok (join slash (split slash clean))

unfoldable pub safe_zip_name : Text → Bool → Result Text
unfolding safe_zip_clean
safe_zip_name name directory = do
  refuse (has_unsafe_char name) source_error
  refuse (starts_with name (slash ∷ [])) source_error
  safe_zip_clean (strip_directory_mark name directory)

-- A path below "/" as the list of its components. `os.path.abspath` drops "" and "." and takes
-- ".." back; `done` holds the components kept so far, the last one first.
unfoldable pub normalize : List Text → List Text → List Text
normalize done [] = reverse done
normalize done (part ∷ rest) =
    normalize
      (if text_eq part [] || text_eq part dot
        then done
        else if text_eq part dot_dot
        then drop 1 done
        else part ∷ done)
      rest

-- `os.path.commonpath((root, destination)) == root`: `root` leads `destination`.
unfoldable pub leads : List Text → List Text → Bool
leads [] destination = true
leads (r ∷ root) [] = false
leads (r ∷ root) (d ∷ destination) = text_eq r d && leads root destination

-- `root` is a real path, given by its components.
unfoldable pub safe_join : List Text → Text → Result (List Text)
safe_join root relative = do
  checked ← validate_relative_path relative false
  let destination = normalize [] (root ++ split slash checked)
  if leads root destination then ok destination else err nx_error

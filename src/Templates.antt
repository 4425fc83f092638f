-- ===== src/Templates.antt =====
-- Templates such as "lib/{abi}" of nxextract/nxextract.py, and the commit paths made from them.
-- A template is read as `string.Formatter().parse` reads it. A field that holds more than a name
-- (a conversion, a format, a nested field) is kept as `formatted`.
pub mod Total
pub mod CommitSet
use chrono_nextos.Prelude.{
  ℕ, Bool, true, false, ◌&&◌, ◌||◌, not, Option, none, some, List, [], ◌∷◌, ◌++◌, reverse, map,
  ◌==◌, ◌≡◌, refl, any, all, leb, if◌then◌else◌,
}
use chrono_nextos.Prelude.Text.{Text, text_eq, contains, starts_with, split, codes}
use chrono_nextos.Fault.{Fault, Result, ok, err, recipe_error, other, refuse, ◌>>=◌, ◌>>◌}
use chrono_nextos.Paths.{slash, validate_relative_path}

pub data Piece : Type 0 where
  literal : ℕ → Piece
  field : Text → Piece
  formatted : Text → Piece

-- What the scanner has just read: plain text, one "{", one "}", or a field up to here.
pub data Scan : Type 0 where
  plain opened closed : Scan
  in_field : Text → Scan

-- The text between the braces: a name, perhaps with an empty format behind a colon.
read_field : Text → List Text → Piece
read_field content (name ∷ []) = if contains b'!' name then formatted content else field name
read_field content (name ∷ [] ∷ []) = if contains b'!' name then formatted content else field name
read_field content _ = formatted content

unfoldable pub make_field : Text → Piece
unfolding read_field
make_field content = read_field content (split b':' content)

-- `err other` is the scanner's `ValueError`.
unfoldable pub parse_template : Text → Scan → Result (List Piece)
parse_template [] plain = ok []
parse_template [] opened = err other
parse_template [] closed = err other
parse_template [] (in_field name) = err other
parse_template (c ∷ s) plain = elim (c == b'{') [
  | true ↦ parse_template s opened
  | false ↦ elim (c == b'}') [
    | true ↦ parse_template s closed
    | false ↦ parse_template s plain >>= λ pieces. ok (literal c ∷ pieces)
  ]
]
parse_template (c ∷ s) opened = elim (c == b'{') [
  | true ↦ parse_template s plain >>= λ pieces. ok (literal c ∷ pieces)
  | false ↦ elim (c == b'}') [
    | true ↦ parse_template s plain >>= λ pieces. ok (make_field [] ∷ pieces)
    | false ↦ parse_template s (in_field (c ∷ []))
  ]
]
parse_template (c ∷ s) closed = elim (c == b'}') [
  | true ↦ parse_template s plain >>= λ pieces. ok (literal c ∷ pieces)
  | false ↦ err other
]
parse_template (c ∷ s) (in_field name) = elim (c == b'}') [
  | true ↦ parse_template s plain >>= λ pieces. ok (make_field (reverse name) ∷ pieces)
  | false ↦ elim (c == b'{') [ true ↦ err other | false ↦ parse_template s (in_field (c ∷ name)) ]
]

-- The loop over the fields of a parsed template.
unfoldable pub check_fields : List Text → List Piece → Result (Unit {0})
check_fields allowed [] = ok tt
check_fields allowed (literal c ∷ pieces) = check_fields allowed pieces
check_fields allowed (field name ∷ pieces) = do
  refuse (not (any (text_eq name) allowed)) recipe_error
  check_fields allowed pieces
check_fields allowed (formatted content ∷ pieces) = err recipe_error

-- `except ValueError: raise RecipeError`
abbrev pub value_error_as_recipe_error {ℓ} : {A : Type ℓ} → Result A → Result A
value_error_as_recipe_error (ok a) = ok a
value_error_as_recipe_error (err other) = err recipe_error
value_error_as_recipe_error (err recipe_error) = err recipe_error
value_error_as_recipe_error (err e) = err e

unfoldable pub validate_template_fields : Text → List Text → Result (Unit {0})
unfolding parse_template check_fields make_field
validate_template_fields value allowed =
    value_error_as_recipe_error (parse_template value plain >>= check_fields allowed)

abbrev pub abi_field : Text
abi_field = codes "abi"

abbrev pub basename_field : Text
basename_field = codes "basename"

-- The mapping of `template_value`; `basename or ""` is the empty text where there is none.
unfoldable pub template_field : Text → Text → Text → Option Text
template_field abi basename name =
    if text_eq name abi_field
    then some abi
    else if text_eq name basename_field
    then some basename
    else none

-- A field that the mapping does not have. No name and a number are positions, which are an
-- `IndexError`, and what asks for an attribute of one of the two texts is an `AttributeError`: neither
-- is caught. Any other name is a `KeyError`, which is raised again as `RecipeError`.
abbrev pub is_position : Text → Bool
is_position name = all (λ c. leb b'0' c && leb c b'9') name

abbrev pub is_attribute : Text → Bool
is_attribute name =
    any (starts_with name)
      (codes "abi." ∷ codes "abi[" ∷ codes "basename." ∷ codes "basename[" ∷ [])

abbrev pub missing_field : Text → Fault
missing_field name = if is_position name || is_attribute name then other else recipe_error

abbrev pub or_missing : Text → Option Text → Result Text
or_missing name none = err (missing_field name)
or_missing name (some text) = ok text

-- `value.format(**mapping)` over the pieces. The validation of a recipe refuses formatted fields: a
-- template of a recipe has none, and what a format does with a text is left out.
unfoldable pub fill : Text → Text → List Piece → Result Text
fill abi basename [] = ok []
fill abi basename (literal c ∷ pieces) = fill abi basename pieces >>= λ rest. ok (c ∷ rest)
fill abi basename (field name ∷ pieces) =
    or_missing name (template_field abi basename name) >>= λ text.
    fill abi basename pieces >>= λ rest. ok (text ++ rest)
fill abi basename (formatted content ∷ pieces) = err other

unfoldable pub template_value : Text → Text → Text → Result Text
unfolding parse_template make_field fill template_field
template_value value abi basename =
    value_error_as_recipe_error (parse_template value plain) >>= fill abi basename

-- `value.rstrip("/")`, on the reversed text.
strip_slashes : Text → Text
strip_slashes [] = []
strip_slashes (c ∷ s) = elim (c == slash) [ true ↦ strip_slashes s | false ↦ c ∷ s ]

unfoldable pub right_strip : Text → Text
unfolding strip_slashes
right_strip s = reverse (strip_slashes (reverse s))

-- `left_key == right_key or` one key lies below the other.
unfoldable pub keys_overlap : Text → Text → Bool
keys_overlap left_key right_key =
    text_eq left_key right_key
    || starts_with left_key (right_key ++ (slash ∷ []))
    || starts_with right_key (left_key ++ (slash ∷ []))

unfoldable pub under_any_commit : Text → List Text → Bool
unfolding right_strip
under_any_commit destination commit_paths =
    any
      (λ root.
        text_eq destination root || starts_with destination (right_strip root ++ (slash ∷ [])))
      commit_paths

-- `portable_path_key` is Unicode normalisation and case folding, of Python's `unicodedata`.
module _ (portable_path_key : Text → Text) where
  unfoldable pub paths_overlap : Text → Text → Bool
  unfolding right_strip keys_overlap
  paths_overlap left right =
      keys_overlap (portable_path_key (right_strip left)) (portable_path_key (right_strip right))

  -- The first loop of `_expand_commit_paths`.
  unfoldable pub expand_paths : List Text → Text → Result (List Text)
  expand_paths [] abi = ok []
  expand_paths (value ∷ values) abi = template_value value abi [] >>= λ path.
      validate_relative_path path false >>= λ _.
      expand_paths values abi >>= λ paths. ok (path ∷ paths)

  -- The second loop: every path against every later one.
  unfoldable pub any_overlap : List Text → Bool
  unfolding keys_overlap
  any_overlap [] = false
  any_overlap (left ∷ rest) =
      any (λ right. keys_overlap (portable_path_key left) (portable_path_key right)) rest
      || any_overlap rest

  unfoldable pub expand_commit_paths : List Text → Text → Result (List Text)
  unfolding expand_paths any_overlap
  expand_commit_paths commit abi = do
    paths ← expand_paths commit abi
    refuse (any_overlap paths) recipe_error
    ok paths

template_runs :
    template_value (codes "lib/{abi}/{{x}}") (codes "arm64") [] ≡ ok (codes "lib/arm64/{x}")
unfolding template_value text_eq split contains
template_runs = refl

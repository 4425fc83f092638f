-- ===== src/Selection/Glob.antt =====
-- `fnmatch.fnmatchcase`, on which `member_matches` of nxextract/nxextract.py stands.
use chrono_nextos.Prelude.{
  ℕ, ◌≡◌, refl, Bool, true, false, not, ◌&&◌, ◌||◌, List, [], ◌∷◌, reverse, leb, ◌==◌,
  if◌then◌else◌,
}
use chrono_nextos.Prelude.Text.{Text, text_eq, codes, contains}

-- One element of a pattern: `*`, `?`, a set in brackets, which may be negated, or a character.
pub data GlobPart : Type 0 where
  any_run any_one : GlobPart
  one_of : Bool → Text → GlobPart
  exactly : ℕ → GlobPart

-- What has been read: no bracket, a bracket, a bracket with its `!`, or a part of a set.
pub data GlobScan : Type 0 where
  outside bracket : GlobScan
  inside : Bool → Text → GlobScan

-- Whether a bracket is closed, by a `]` that is not the first character of its set.
unfoldable pub is_closed : Text → Bool
unfolding contains
is_closed [] = false
is_closed (c ∷ []) = false
is_closed (c ∷ d ∷ s) = contains b']' (if c == b'!' then s else d ∷ s)

unfoldable pub parse_glob : GlobScan → Text → List GlobPart
parse_glob outside [] = []
parse_glob bracket [] = []
parse_glob (inside negated set) [] = []
parse_glob outside (c ∷ s) =
    let next = parse_glob outside s in
    let in_bracket = parse_glob bracket s in
    if c == b'*'
    then any_run ∷ next
    else if c == b'?'
    then any_one ∷ next
    else if (c == b'[') && is_closed s
    then in_bracket
    else exactly c ∷ next
parse_glob bracket (c ∷ s) =
    let after_mark = parse_glob (inside true []) s in
    let first = parse_glob (inside false (c ∷ [])) s in if c == b'!' then after_mark else first
parse_glob (inside negated set) (c ∷ s) =
    let next = parse_glob outside s in
    let more = parse_glob (inside negated (c ∷ set)) s in
    if (c == b']') && not (text_eq set []) then one_of negated (reverse set) ∷ next else more

-- A character in a set of characters and of ranges such as `a-z`.
unfoldable pub in_set : ℕ → Text → Bool
in_set c [] = false
in_set c (a ∷ []) = c == a
in_set c (a ∷ b ∷ []) = (c == a) || (c == b)
in_set c (a ∷ b ∷ d ∷ s) =
    let range = in_set c s in
    let more = in_set c (b ∷ d ∷ s) in
    if b == b'-' then (leb a c && leb c d) || range else (c == a) || more

unfoldable pub part_accepts : GlobPart → ℕ → Bool
unfolding in_set
part_accepts any_run c = true
part_accepts any_one c = true
part_accepts (one_of negated set) c = if negated then not (in_set c set) else in_set c set
part_accepts (exactly d) c = c == d

-- A test at the text or at one of its ends.
abbrev pub some_suffix : (Text → Bool) → Text → Bool
some_suffix test [] = test []
some_suffix test (c ∷ s) = test (c ∷ s) || some_suffix test s

unfoldable pub glob_matches : List GlobPart → Text → Bool
unfolding part_accepts
glob_matches [] [] = true
glob_matches [] (c ∷ s) = false
glob_matches (any_run ∷ parts) s = some_suffix (glob_matches parts) s
glob_matches (any_one ∷ parts) [] = false
glob_matches (any_one ∷ parts) (c ∷ s) = glob_matches parts s
glob_matches (one_of negated set ∷ parts) [] = false
glob_matches (one_of negated set ∷ parts) (c ∷ s) =
    part_accepts (one_of negated set) c && glob_matches parts s
glob_matches (exactly d ∷ parts) [] = false
glob_matches (exactly d ∷ parts) (c ∷ s) = part_accepts (exactly d) c && glob_matches parts s

unfoldable pub fnmatch_case : Text → Text → Bool
unfolding parse_glob glob_matches is_closed
fnmatch_case name pattern = glob_matches (parse_glob outside pattern) name

-- `casefold` is `str.casefold`.
unfoldable pub member_matches : (Text → Text) → Text → Text → Bool → Bool
unfolding fnmatch_case
member_matches casefold name pattern case_sensitive =
    if case_sensitive
    then fnmatch_case name pattern
    else fnmatch_case (casefold name) (casefold pattern)

glob_runs :
    (fnmatch_case (codes "assets/a/001.dat") (codes "assets/*.dat") ≡ true)
    × (fnmatch_case (codes "x9") (codes "?[!a-f-]") ≡ true)
    × (fnmatch_case (codes "x-") (codes "?[!a-f-]") ≡ false)
    × (fnmatch_case (codes "a]") (codes "a[]]") ≡ true)
    × (fnmatch_case (codes "[a") (codes "[a") ≡ true)
unfolding fnmatch_case text_eq contains
glob_runs = (refl, refl, refl, refl, refl)

-- ===== src/Selection/GlobMatches.antt =====
-- The patterns of a recipe, as `member_matches` of nxextract/nxextract.py reads them, against what the
-- characters of a pattern stand for.
use chrono_nextos.Prelude.{
  ℕ, ◌≡◌, ◌≢◌, ◌↔◌, inl, inr, refl, sym, ◌∙◌, Bool, true, false, [], ◌∷◌, ◌++◌, arith, All,
  and-true, Bool-cases, ==_iff, ◌==◌,
}
use mathlib.Core.Bool.{false≢true}
use chrono_nextos.Prelude.Text.{Text}
use chrono_nextos.Selection.Glob.{
  any_one, exactly, some_suffix, glob_matches, parse_glob, part_accepts, outside, fnmatch_case,
  member_matches,
}

-- A name that a pattern without brackets stands for, character by character: a star for any text, a
-- question mark for any one character, and any other character for itself.
pub data IsGlob : Text → Text → Type 0 where
  nothing : IsGlob [] []
  star :
      {pattern : Text} (piece name : Text)
      → IsGlob pattern name
      → IsGlob (b'*' ∷ pattern) (piece ++ name)
  question :
      {pattern name : Text} (c : ℕ) → IsGlob pattern name → IsGlob (b'?' ∷ pattern) (c ∷ name)
  literal :
      {pattern name : Text} (c : ℕ)
      → c ≢ b'*'
      → c ≢ b'?'
      → c ≢ b'['
      → IsGlob pattern name
      → IsGlob (c ∷ pattern) (c ∷ name)

some_suffix-piece :
    (test : Text → Bool) (s : Text)
    → some_suffix test s ≡ true
    → (piece rest : Text) × (s ≡ piece ++ rest) × (test rest ≡ true)
some_suffix-piece test [] h = ([], [], refl, h)
some_suffix-piece test (c ∷ s) h = elim (Bool-cases (test (c ∷ s))) [
  | inl e ↦ ([], c ∷ s, refl, e)
  | inr e ↦
      let (piece, rest, split, found) = some_suffix-piece test s (rw e at h) in
      (c ∷ piece, rest, rw split refl, found)
]

piece-some_suffix :
    (test : Text → Bool) (piece rest : Text)
    → test rest ≡ true
    → some_suffix test (piece ++ rest) ≡ true
piece-some_suffix test [] [] h = h
piece-some_suffix test [] (c ∷ rest) h = ground arith
piece-some_suffix test (c ∷ piece) rest h = ground (arith, piece-some_suffix test piece rest h)

differs : (c d : ℕ) → c ≢ d → (c == d) ≡ false
differs c d n = elim (Bool-cases (c == d)) [ inl e ↦ absurd (n ((==_iff c d).0 e)) | inr e ↦ e ]

unlike : (c d : ℕ) → (c == d) ≡ false → c ≢ d
unlike c d e same = false≢true (sym e ∙ (==_iff c d).1 same)

-- The rest of a pattern, for the names that it is known of.
abbrev Rest : Text → Type 0
Rest pattern =
    (name : Text) → glob_matches (parse_glob outside pattern) name ≡ true → IsGlob pattern name

after_question :
    (c : ℕ) (pattern name : Text)
    → Rest pattern
    → c ≡ b'?'
    → glob_matches (any_one ∷ parse_glob outside pattern) name ≡ true
    → IsGlob (c ∷ pattern) name
unfolding glob_matches
after_question c pattern [] rest f h = cc
after_question c pattern (d ∷ name) rest f h = rw f (question d (rest name h))

after_literal :
    (c : ℕ) (pattern name : Text)
    → Rest pattern
    → c ≢ b'*'
    → c ≢ b'?'
    → c ≢ b'['
    → glob_matches (exactly c ∷ parse_glob outside pattern) name ≡ true
    → IsGlob (c ∷ pattern) name
unfolding glob_matches part_accepts
after_literal c pattern [] rest n m k h = cc
after_literal c pattern (d ∷ name) rest n m k h =
    let (first, more) = and-true (d == c) (glob_matches (parse_glob outside pattern) name) h in
    rw ((==_iff d c).0 first) (literal c n m k (rest name more))

glob_matches-IsGlob :
    (pattern name : Text)
    → All (λ c. c ≢ b'[') pattern
    → glob_matches (parse_glob outside pattern) name ≡ true
    → IsGlob pattern name
unfolding glob_matches parse_glob part_accepts
glob_matches-IsGlob [] [] p h = nothing
glob_matches-IsGlob [] (c ∷ name) p h = cc
glob_matches-IsGlob (c ∷ pattern) name p h = elim (Bool-cases (c == b'*')) [
  | inl e ↦
      let (piece, rest, cut, found) =
        some_suffix-piece (glob_matches (parse_glob outside pattern)) name (rw e at h) in
      rw ((==_iff c b'*').0 e, cut) (star piece rest (glob_matches-IsGlob pattern rest p.1 found))
  | inr e ↦ elim (Bool-cases (c == b'?')) [
    | inl f ↦
        after_question c pattern name (λ rest. glob_matches-IsGlob pattern rest p.1)
          ((==_iff c b'?').0 f) (rw f at (rw e at h))
    | inr f ↦
        after_literal c pattern name (λ rest. glob_matches-IsGlob pattern rest p.1) (unlike c _ e)
          (unlike c _ f) p.0 (rw (differs c b'[' p.0) at (rw f at (rw e at h)))
  ]
]

IsGlob-glob_matches :
    {pattern name : Text}
    → IsGlob pattern name
    → glob_matches (parse_glob outside pattern) name ≡ true
unfolding glob_matches parse_glob part_accepts
IsGlob-glob_matches nothing = refl
IsGlob-glob_matches (star {pattern} piece name g) =
    piece-some_suffix (glob_matches (parse_glob outside pattern)) piece name (IsGlob-glob_matches g)
IsGlob-glob_matches (question c g) = IsGlob-glob_matches g
IsGlob-glob_matches (literal c n m k g) =
    rw (differs c b'*' n, differs c b'?' m, differs c b'[' k, (==_iff c c).1 refl)
      (IsGlob-glob_matches g)

-- A member's name matches a pattern without brackets exactly where it is a name that the pattern
-- stands for, both as they are or, where the case does not count, both with their case folded.
pub member_matches-IsGlob :
    (casefold : Text → Text) (name pattern : Text)
    → All (λ c. c ≢ b'[') pattern
    → All (λ c. c ≢ b'[') (casefold pattern)
    → ((member_matches casefold name pattern true ≡ true) ↔ IsGlob pattern name)
      × ((member_matches casefold name pattern false ≡ true)
          ↔ IsGlob (casefold pattern) (casefold name))
unfolding member_matches fnmatch_case
member_matches-IsGlob casefold name pattern plain folded = (
  (glob_matches-IsGlob pattern name plain, IsGlob-glob_matches),
  (glob_matches-IsGlob (casefold pattern) (casefold name) folded, IsGlob-glob_matches),
)

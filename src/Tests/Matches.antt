-- ===== src/Tests/Matches.antt =====
-- The theorems on globs and on portable names applied to concrete inputs.
use chrono_nextos.Prelude.{
  ◌≡◌, ◌≢◌, All, ◌↔◌, refl, arith, true, false, List, [], ◌∷◌, ◌++◌, inl, inr,
}
use chrono_nextos.Prelude.Text.{Text, text_eq, codes, split, join}
use chrono_nextos.Fault.{ok}
use chrono_nextos.Selection.Glob.{member_matches}
use chrono_nextos.Selection.GlobMatches.{IsGlob, member_matches-IsGlob}
use chrono_nextos.Selection.Members.{Match, assert_portable_selection}
use chrono_nextos.Selection.Portable.{assert_portable_selection-no_collision}
use chrono_nextos.Tests.Inputs.{same_key}
use chrono_nextos.Tests.Selections.{a_member, an_archive}

no_bracket : All (λ c. c ≢ b'[') (codes "*.so")
no_bracket = (
  (λ e. absurd (omega (arith, e))),
  (
    (λ e. absurd (omega (arith, e))),
    ((λ e. absurd (omega (arith, e))), ((λ e. absurd (omega (arith, e))), tt)),
  ),
)

member_matches-IsGlob_example :
    ((member_matches same_key (codes "a.so") (codes "*.so") true ≡ true)
      ↔ IsGlob (codes "*.so") (codes "a.so"))
    × ((member_matches same_key (codes "a.so") (codes "*.so") false ≡ true)
        ↔ IsGlob (codes "*.so") (codes "a.so"))
member_matches-IsGlob_example =
    member_matches-IsGlob same_key (codes "a.so") (codes "*.so") no_bracket no_bracket

-- Two members below one directory.
abbrev in_lib : Text → Match
in_lib name = record { archive = an_archive; name = name; info = a_member }

abbrev two_matches : List Match
two_matches = in_lib (codes "lib/a") ∷ in_lib (codes "lib/b") ∷ []

portable : assert_portable_selection same_key two_matches ≡ ok tt
unfolding assert_portable_selection text_eq split join
portable = refl

cut_a : split b'/' (codes "lib/a") ≡ codes "lib" ∷ ([] ++ (codes "a" ∷ []))
unfolding split
cut_a = refl

cut_b : split b'/' (codes "lib/b") ≡ codes "lib" ∷ ([] ++ (codes "b" ∷ []))
unfolding split
cut_b = refl

assert_portable_selection-no_collision_example :
    join b'/' (codes "lib" ∷ []) ≡ join b'/' (codes "lib" ∷ [])
assert_portable_selection-no_collision_example =
    assert_portable_selection-no_collision same_key two_matches (in_lib (codes "lib/a"))
      (in_lib (codes "lib/b")) (codes "lib") (codes "lib") [] (codes "a" ∷ []) [] (codes "b" ∷ [])
      portable (inl refl) (inr (inl refl)) refl cut_a cut_b refl

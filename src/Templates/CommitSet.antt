-- ===== src/Templates/CommitSet.antt =====
-- The commit paths that `_expand_commit_paths` returns, and when two portable keys lie apart.
use chrono_nextos.Prelude.{
  ◌≡◌, ◌≢◌, refl, ap, true, false, List, [], ◌∷◌, ◌++◌, arith, All, any, or-false, length, suc,
  or-false_three,
}
use chrono_nextos.Prelude.Text.{Text, text_eq, text_eq_iff, starts_with}
use chrono_nextos.Fault.{ok, >>=-eq-ok, refuse, refuse-ok}
use chrono_nextos.Paths.{slash, validate_relative_path}
use chrono_nextos.Paths.Safety.{IsRelative, validate_relative_path-IsRelative}
use chrono_nextos.Templates.{
  template_value, keys_overlap, expand_paths, any_overlap, expand_commit_paths,
}

starts_with-append : (p t : Text) → starts_with (p ++ t) p ≡ true
unfolding starts_with
starts_with-append [] [] = refl
starts_with-append [] (c ∷ t) = refl
starts_with-append (c ∷ p) t = ground (arith, starts_with-append p t)

-- Neither key is the other, nor a directory above it.
pub record Apart (left right : Text) : Type 0 where
  pub differ : left ≢ right
  pub not_below : (t : Text) → left ≢ (right ++ (slash ∷ [])) ++ t
  pub not_above : (t : Text) → right ≢ (left ++ (slash ∷ [])) ++ t

pub keys_overlap-Apart : (left right : Text) → keys_overlap left right ≡ false → Apart left right
unfolding keys_overlap
keys_overlap-Apart left right h =
    let e =
      or-false_three (text_eq left right) (starts_with left (right ++ (slash ∷ [])))
        (starts_with right (left ++ (slash ∷ []))) h in
    record {
      differ = λ p. cc (e.0, (text_eq_iff left right).1 p);
      not_below = λ t p. cc (
        e.1,
        ap (λ x. starts_with x (right ++ (slash ∷ []))) p,
        starts_with-append (right ++ (slash ∷ [])) t,
      );
      not_above = λ t p. cc (
        e.2,
        ap (λ x. starts_with x (left ++ (slash ∷ []))) p,
        starts_with-append (left ++ (slash ∷ [])) t,
      );
    }

module _ (portable_path_key : Text → Text) where
  -- Every path lies apart from every later one.
  abbrev pub AllApart : List Text → Type 0
  AllApart [] = Unit
  AllApart (left ∷ rest) =
      All (λ right. Apart (portable_path_key left) (portable_path_key right)) rest × AllApart rest

  any-Apart :
      (left : Text) (rest : List Text)
      → any (λ right. keys_overlap (portable_path_key left) (portable_path_key right)) rest ≡ false
      → All (λ right. Apart (portable_path_key left) (portable_path_key right)) rest
  any-Apart left [] h = tt
  any-Apart left (right ∷ rest) h = (
    keys_overlap-Apart (portable_path_key left) (portable_path_key right) (or-false _ _ h).0,
    any-Apart left rest (or-false _ _ h).1,
  )

  pub any_overlap-AllApart :
      (paths : List Text) → any_overlap portable_path_key paths ≡ false → AllApart paths
  unfolding any_overlap
  any_overlap-AllApart [] h = tt
  any_overlap-AllApart (left ∷ rest) h =
      (any-Apart left rest (or-false _ _ h).0, any_overlap-AllApart rest (or-false _ _ h).1)

  expand_paths-IsRelative :
      (commit : List Text) (abi : Text) {paths : List Text}
      → expand_paths portable_path_key commit abi ≡ ok paths
      → All IsRelative paths × (length paths ≡ length commit)
  unfolding expand_paths
  expand_paths-IsRelative [] abi {paths} h = let e : [] ≡ paths = cc in rw (← e) (tt, refl)
  expand_paths-IsRelative (value ∷ commit) abi {paths} h =
      let (path, _, h1) = >>=-eq-ok (template_value value abi []) _ h in
      let (checked, valid, h2) = >>=-eq-ok (validate_relative_path path false) _ h1 in
      let (rest, more, h3) = >>=-eq-ok (expand_paths portable_path_key commit abi) _ h2 in
      let ih = expand_paths-IsRelative commit abi more in
      let e : path ∷ rest ≡ paths = cc in
      rw (← e) (((validate_relative_path-IsRelative path valid).1, ih.0), ap suc ih.1)

  -- Where `_expand_commit_paths` returns, it has one relative path for each template of the
  -- recipe, and no path is another one or a directory above it.
  pub expand_commit_paths-AllApart :
      (commit : List Text) (abi : Text) {paths : List Text}
      → expand_commit_paths portable_path_key commit abi ≡ ok paths
      → All IsRelative paths × (length paths ≡ length commit) × AllApart paths
  unfolding expand_commit_paths
  expand_commit_paths-AllApart commit abi {paths} h =
      let (found, expanded, h1) = >>=-eq-ok (expand_paths portable_path_key commit abi) _ h in
      let (_, apart, h2) = >>=-eq-ok (refuse (any_overlap portable_path_key found) _) _ h1 in
      let r = expand_paths-IsRelative commit abi expanded in
      let e : found ≡ paths = cc in
      rw (← e) (r.0, r.1, any_overlap-AllApart found (refuse-ok _ _ apart))

-- ===== src/Archives/Components.antt =====
-- The table of the components of names in `Archive._open` of nxextract/nxextract.py.
use mathlib.Core.List.{append_assoc}
use chrono_nextos.Prelude.{
  ◌≡◌, ◌≢◌, inl, inr, refl, sym, ◌∙◌, Bool, false, Option, none, some, List, [], ◌∷◌, ◌++◌, arith,
  All, In,
}
use chrono_nextos.Prelude.Text.{Text, text_eq, text_eq_iff, text_eq_refl, split, join}
use chrono_nextos.Fault.{ok, source_error, refuse, refuse-ok, ok-injective, >>=-eq-ok}
use chrono_nextos.Paths.{slash}
use chrono_nextos.Paths.Safety.{split-ne-nil}
use chrono_nextos.Candidates.Checks.{Member}
use chrono_nextos.Selection.{find_key}
use chrono_nextos.Selection.Members.{prefixes}
use chrono_nextos.Selection.Recorded.{
  some-injective, IsKeyTest, Extends, Extends-add, find_key-here,
}
use chrono_nextos.Archives.{typed_prefixes, type_differs, Types, check_components}

text_eq-IsKeyTest : IsKeyTest text_eq
text_eq-IsKeyTest = record { sound = λ a b. (text_eq_iff a b).0; reflexive = text_eq_refl }

type_differs-false : (o : Option Bool) (t u : Bool) → type_differs o t ≡ false → o ≡ some u → u ≡ t
type_differs-false none t u h e = cc
type_differs-false (some p) t u h e = let same : p ≡ u = some-injective e in sym same ∙ agree p t h
  where
    agree : (p t : Bool) → type_differs (some p) t ≡ false → p ≡ t
    agree p t h = ground arith

-- The prefixes of a file's name, of which all but the name itself are directories.
abbrev pub kinds_of : Text → List (Text × Bool)
kinds_of name = typed_prefixes false (prefixes [] (split slash name))

pub typed_last :
    (t : Bool) (done parts : List Text)
    → parts ≢ []
    → In (join slash (done ++ parts), t) (typed_prefixes t (prefixes done parts))
typed_last t done [] n = absurd (n refl)
typed_last t done (p ∷ []) n = inl refl
typed_last t done (p ∷ q ∷ parts) n = inr (
    rw (append_assoc done (p ∷ []) (q ∷ parts)) at
      (typed_last t (done ++ (p ∷ [])) (q ∷ parts) (λ e. cc)))

pub split_nonempty : (name : Text) → split slash name ≢ []
unfolding split
split_nonempty [] e = cc
split_nonempty (c ∷ s) e = split-ne-nil (c ∷ s) (λ p. cc) e

abbrev pub names : List (Text × Member) → List Text
names [] = []
names ((name, member) ∷ rest) = name ∷ names rest

module _ (portable_path_key : Text → Text) where
  -- The table has the kind of each prefix under its key.
  abbrev pub IsTyped : Types → List (Text × Bool) → Type 0
  IsTyped types ps = All (λ p. find_key text_eq (portable_path_key p.0) types ≡ some p.1) ps

  pub IsTyped-more :
      (seen later : Types) (ps : List (Text × Bool))
      → Extends text_eq seen later
      → IsTyped seen ps
      → IsTyped later ps
  IsTyped-more seen later [] x r = tt
  IsTyped-more seen later (p ∷ ps) x r = (x _ p.1 r.0, IsTyped-more seen later ps x r.1)

  pub check_components-IsTyped :
      (seen : Types) (ps : List (Text × Bool)) {later : Types}
      → check_components portable_path_key seen ps ≡ ok later
      → Extends text_eq seen later × IsTyped later ps
  unfolding check_components
  check_components-IsTyped seen [] h = rw (← ok-injective h) ((λ key v e. e), tt)
  check_components-IsTyped seen ((prefix, t) ∷ more) h =
      let key = portable_path_key prefix in
      let (_, alike, h1) =
        >>=-eq-ok
          (refuse (type_differs (find_key text_eq (portable_path_key prefix) seen) t) source_error)
          _ h in
      let added =
        Extends-add text_eq text_eq-IsKeyTest key t seen
          (λ w there. type_differs-false _ t w (refuse-ok _ _ alike) there) in
      let (x, r) = check_components-IsTyped ((key, t) ∷ seen) more h1 in
      let here = find_key-here text_eq text_eq-IsKeyTest key t seen in
      ((λ k v e. x k v (added k v e)), (x key t here, r))

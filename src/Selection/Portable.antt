-- ===== src/Selection/Portable.antt =====
-- `_assert_portable_selection` of nxextract/nxextract.py: a selection that can be written to a card that
-- does not tell upper case from lower case.
use mathlib.Core.Path.{subst}
use mathlib.Core.List.{append_assoc}
use chrono_nextos.Prelude.{
  ℕ, ◌≡◌, refl, sym, ap, ap₂, ◌∙◌, true, false, Option, none, some, List, [], ◌∷◌, arith, All,
  All-at, In, inl, inr, ◌++◌, and-true, ◌==◌, ==_iff,
}
use chrono_nextos.Prelude.Text.{Text, text_eq, text_eq_iff, text_eq_refl, split, join}
use chrono_nextos.Fault.{ok, source_error, refuse, refuse-ok, ok-injective, >>=-eq-ok}
use chrono_nextos.Paths.{slash}
use chrono_nextos.Selection.{find_key}
use chrono_nextos.Selection.Recorded.{
  some-injective, IsKeyTest, Extends, Extends-add, find_key-here,
}
use chrono_nextos.Selection.Members.{
  Match, Key, same_object, prefixes, differs_from, check_prefixes, portable_loop,
  assert_portable_selection,
}

abbrev Table : Type 0
Table = List (Key × Text)

same_object-eq : (a b : Key) → same_object a b ≡ true → a ≡ b
same_object-eq (a, k) (b, l) h =
    let e = and-true (a == b) (text_eq k l) h in
    let p = (==_iff a b).0 e.0 in let q = (text_eq_iff k l).0 e.1 in cc

same_object_refl : (a : Key) → same_object a a ≡ true
same_object_refl (a, k) = rw ((==_iff a a).1 refl, text_eq_refl k) refl

same_object-IsKeyTest : IsKeyTest same_object
same_object-IsKeyTest = record { sound = same_object-eq; reflexive = same_object_refl }

differs_from-false : (o : Option Text) (p q : Text) → differs_from o p ≡ false → o ≡ some q → q ≡ p
differs_from-false none p q h e = cc
differs_from-false (some r) p q h e =
    let same : text_eq r p ≡ true = ground arith in let r_p = (text_eq_iff r p).0 same in cc

-- Every way to cut a path of components in two gives one of the prefixes.
In-prefixes :
    (done : List Text) (part : Text) (front back : List Text)
    → In (join slash (done ++ (part ∷ front))) (prefixes done (part ∷ (front ++ back)))
In-prefixes done part [] back = inl refl
In-prefixes done part (next ∷ front) back = inr (
    subst (λ path. In (join slash path) (prefixes (done ++ (part ∷ [])) (next ∷ (front ++ back))))
      (append_assoc done (part ∷ []) (next ∷ front))
      (In-prefixes (done ++ (part ∷ [])) next front back))

module _ (portable_path_key : Text → Text) where
  -- Each prefix is what the table says of its key.
  abbrev Recorded : ℕ → Table → List Text → Type 0
  Recorded object table ps =
      All (λ p. find_key same_object (object, portable_path_key p) table ≡ some p) ps

  Recorded-more :
      (object : ℕ) (seen later : Table) (ps : List Text)
      → Extends same_object seen later
      → Recorded object seen ps
      → Recorded object later ps
  Recorded-more object seen later [] x r = tt
  Recorded-more object seen later (p ∷ ps) x r =
      (x _ p r.0, Recorded-more object seen later ps x r.1)

  check_prefixes-Recorded :
      (object : ℕ) (seen : Table) (ps : List Text) {later : Table}
      → check_prefixes portable_path_key object seen ps ≡ ok later
      → Extends same_object seen later × Recorded object later ps
  unfolding check_prefixes
  check_prefixes-Recorded object seen [] h = rw (← ok-injective h) ((λ key p e. e), tt)
  check_prefixes-Recorded object seen (prefix ∷ more) {later} h =
      let key : Key = (object, portable_path_key prefix) in
      let (_, alike, h1) =
        >>=-eq-ok
          (refuse
            (differs_from (find_key same_object (object, portable_path_key prefix) seen) prefix)
            source_error)
          _ h in
      let added =
        Extends-add same_object same_object-IsKeyTest key prefix seen
          (λ w there. differs_from-false _ prefix w (refuse-ok _ _ alike) there) in
      let (x, r) = check_prefixes-Recorded object ((key, prefix) ∷ seen) more h1 in
      let here = find_key-here same_object same_object-IsKeyTest key prefix seen in
      ((λ k p e. x k p (added k p e)), (x key prefix here, r))

  abbrev names_of : Match → List Text
  names_of m = prefixes [] (split slash m.name)

  abbrev AllRecorded : Table → List Match → Type 0
  AllRecorded table matches = All (λ m. Recorded m.archive.object table (names_of m)) matches

  portable_loop-Recorded :
      (seen : Table) (matches : List Match) {u : Unit {0}}
      → portable_loop portable_path_key seen matches ≡ ok u
      → (final : Table) × Extends same_object seen final × AllRecorded final matches
  unfolding portable_loop
  portable_loop-Recorded seen [] h = (seen, (λ key p e. e), tt)
  portable_loop-Recorded seen (m ∷ matches) h =
      let (later, one, h1) =
        >>=-eq-ok
          (check_prefixes portable_path_key m.archive.object seen
            (prefixes [] (split slash m.name)))
          _ h in
      let (x, r) = check_prefixes-Recorded m.archive.object seen (names_of m) one in
      let (final, y, rest) = portable_loop-Recorded later matches h1 in
      (
        final,
        (λ k p e. y k p (x k p e)),
        (Recorded-more m.archive.object later final (names_of m) y r, rest),
      )

  no_collision :
      (matches : List Match) (m n : Match) (p q : Text)
      → assert_portable_selection portable_path_key matches ≡ ok tt
      → In m matches
      → In n matches
      → m.archive.object ≡ n.archive.object
      → In p (prefixes [] (split slash m.name))
      → In q (prefixes [] (split slash n.name))
      → portable_path_key p ≡ portable_path_key q
      → p ≡ q
  unfolding assert_portable_selection
  no_collision matches m n p q h im in_ same ip iq keys =
      let (final, _, r) = portable_loop-Recorded [] matches h in
      let a : find_key same_object (m.archive.object, portable_path_key p) final ≡ some p =
        All-at _ (names_of m)
          (All-at (λ k. Recorded k.archive.object final (names_of k)) matches r im) ip in
      let b : find_key same_object (n.archive.object, portable_path_key q) final ≡ some q =
        All-at _ (names_of n)
          (All-at (λ k. Recorded k.archive.object final (names_of k)) matches r in_) iq in
      some-injective
        (sym a ∙ ap (λ k. find_key same_object k final) (ap₂ (λ o k. (o, k)) same keys) ∙ b)

  -- In an accepted selection two members of one archive never have directories or names on their way
  -- that differ and yet are one for the card: cut the components of both names anywhere, after at
  -- least one component, and the parts before the cuts are equal where their keys are.
  pub assert_portable_selection-no_collision :
      (matches : List Match) (m n : Match) (part other : Text)
      (front back other_front other_back : List Text)
      → assert_portable_selection portable_path_key matches ≡ ok tt
      → In m matches
      → In n matches
      → m.archive.object ≡ n.archive.object
      → split slash m.name ≡ part ∷ (front ++ back)
      → split slash n.name ≡ other ∷ (other_front ++ other_back)
      → portable_path_key (join slash (part ∷ front))
        ≡ portable_path_key (join slash (other ∷ other_front))
      → join slash (part ∷ front) ≡ join slash (other ∷ other_front)
  assert_portable_selection-no_collision matches m n part other front back other_front other_back h
        im in_ same cut cut_other keys =
      no_collision matches m n _ _ h im in_ same (rw cut (In-prefixes [] part front back))
        (rw cut_other (In-prefixes [] other other_front other_back)) keys

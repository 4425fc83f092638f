-- ===== src/Selection/Recorded.antt =====
-- Tables to which a loop adds what they do not contradict.
use chrono_nextos.Prelude.{
  ◌≡◌, refl, sym, ap, ◌∙◌, Bool, true, some, List, ◌∷◌, Bool-cases, inl, inr,
}
use chrono_nextos.Selection.{find_key}

pub some-injective {ℓ} : {A : Type ℓ} {a b : A} → some a ≡ some b → a ≡ b
some-injective h = cc

-- A Boolean equality of keys.
pub record IsKeyTest {K : Type 0} (same : K → K → Bool) : Type 0 where
  pub sound : (a b : K) → same a b ≡ true → a ≡ b
  pub reflexive : (a : K) → same a a ≡ true

module _ {K V : Type 0} (same : K → K → Bool) where
  -- What a table says stays said.
  abbrev pub Extends : List (K × V) → List (K × V) → Type 0
  Extends seen later =
      (key : K) (v : V) → find_key same key seen ≡ some v → find_key same key later ≡ some v

  module _ (test : IsKeyTest same) where
    pub Extends-add :
        (key : K) (v : V) (seen : List (K × V))
        → ((w : V) → find_key same key seen ≡ some w → w ≡ v)
        → Extends seen ((key, v) ∷ seen)
    Extends-add key v seen agrees other w h = elim (Bool-cases (same other key)) [
      | inr e ↦ rw e h
      | inl e ↦
          let keys = test.sound other key e in
          let there : find_key same key seen ≡ some w =
            ap (λ k. find_key same k seen) (sym keys) ∙ h in
          rw e (ap some (sym (agrees w there)))
    ]

    pub find_key-here :
        (key : K) (v : V) (seen : List (K × V)) → find_key same key ((key, v) ∷ seen) ≡ some v
    find_key-here key v seen = rw (test.reflexive key) refl

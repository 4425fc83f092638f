-- ===== src/Archives/Opened.antt =====
-- The members of an archive that has been opened.
use chrono_nextos.Prelude.{◌≡◌, ◌≢◌, inl, inr, true, List, [], ◌∷◌, ◌++◌, All, In}
use chrono_nextos.Prelude.Text.{Text}
use chrono_nextos.Paths.Safety.{IsRelative}
use chrono_nextos.Candidates.Checks.{Member}
use chrono_nextos.Archives.{Types, Opening}
use chrono_nextos.Archives.Components.{kinds_of, names, IsTyped}

module _ (portable_path_key : Text → Text) where
  -- A member is a relative path whose prefixes have their kinds in the table.
  record IsMember (types : Types) (name : Text) : Type 0 where
    safe : IsRelative name
    typed : IsTyped portable_path_key types (kinds_of name)

  -- Names of which none occurs twice, all of them among those that have been seen.
  abbrev Apart : List Text → List Text → Type 0
  Apart exact [] = Unit
  Apart exact (name ∷ rest) = In name exact × (In name rest → ⊥) × Apart exact rest

  Apart-fresh :
      (new : Text) (exact ns : List Text) → (In new exact → ⊥) → Apart exact ns → In new ns → ⊥
  Apart-fresh new exact [] f a i = i tt
  Apart-fresh new exact (n ∷ ns) f (j, d, a) (inl e) = f (rw e j)
  Apart-fresh new exact (n ∷ ns) f (j, d, a) (inr i) = Apart-fresh new exact ns f a i

  record IsOpening (o : Opening) : Type 0 where
    members_ok : All (λ e. IsMember o.component_types e.0) o.members
    apart : Apart o.exact (names o.members)

  -- What the members of an opened archive are.
  pub record IsArchive (members : List (Text × Member)) : Type 0 where
    pub safe : (name : Text) (m : Member) → In (name, m) members → IsRelative name
    pub distinct :
        (before after : List (Text × Member)) (name : Text) (m : Member)
        → members ≡ before ++ ((name, m) ∷ after)
        → In name (names after)
        → ⊥
    pub no_file_is_directory :
        (name other prefix : Text) (m n : Member)
        → In (name, m) members
        → In (other, n) members
        → In (prefix, true) (kinds_of other)
        → portable_path_key prefix ≢ portable_path_key name

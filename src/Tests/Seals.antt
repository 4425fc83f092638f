-- ===== src/Tests/Seals.antt =====
-- The seal of a small payload.
use chrono_nextos.Prelude.{ℕ, ◌≡◌, refl, true, Option, some, List, [], ◌∷◌, inl}
use chrono_nextos.Prelude.Text.{Text, text_eq, codes}
use chrono_nextos.Fault.{ok, err, validation_error}
use chrono_nextos.Installed.{
  Node, regular_file, directory, symbolic_link, no_entry, named, SealedObject,
  payload_metadata_seal,
}
use chrono_nextos.Installed.Gathered.{child, first, object_of}
use chrono_nextos.Installed.Sealed.{inside, Stands, payload_metadata_seal-IsInstalled}
use chrono_nextos.Tests.Inputs.{same_key}

abbrev some_data : Node
some_data = directory (
    named (codes "b") (regular_file true 3 100)
      (named (codes "a") (directory (named (codes "c") (regular_file true 0 7) no_entry)) no_entry))

abbrev data_at : Text → Option Node
data_at path = some some_data

-- The bytes of a path are its code points here, and the digest is what it is fed with.
abbrev plain : Text → List ℕ
plain s = s

-- Directories come before files, and what is deeper comes last.
seals :
    payload_metadata_seal plain same_key plain data_at (codes "d" ∷ [])
    ≡ ok (
      b'D' ∷ 1 ∷ 0 ∷ 0 ∷ 0 ∷ b'd' ∷ b'D' ∷ 3 ∷ 0 ∷ 0 ∷ 0 ∷ b'd' ∷ b'/' ∷ b'a' ∷ b'F' ∷ 3 ∷ 0 ∷ 0 ∷ 0
          ∷ b'd' ∷ b'/' ∷ b'b' ∷ 3 ∷ 0 ∷ 0 ∷ 0 ∷ 0 ∷ 0 ∷ 0 ∷ 0 ∷ 100 ∷ 0 ∷ 0 ∷ 0 ∷ 0 ∷ 0 ∷ 0 ∷ 0
          ∷ b'F' ∷ 5 ∷ 0 ∷ 0 ∷ 0 ∷ b'd' ∷ b'/' ∷ b'a' ∷ b'/' ∷ b'c' ∷ 0 ∷ 0 ∷ 0 ∷ 0 ∷ 0 ∷ 0 ∷ 0 ∷ 0
          ∷ 7 ∷ 0 ∷ 0 ∷ 0 ∷ 0 ∷ 0 ∷ 0 ∷ 0 ∷ [],
      4,
    )
unfolding payload_metadata_seal text_eq
seals = refl

refuses_links :
    payload_metadata_seal plain same_key plain
      (λ path. some (directory (named (codes "l") symbolic_link no_entry)))
      (codes "d" ∷ [])
    ≡ err validation_error
unfolding payload_metadata_seal text_eq
refuses_links = refl

payload_metadata_seal-IsInstalled_example :
    (o : SealedObject) × (object_of (codes "d/b") (regular_file true 3 100) ≡ some o)
    × Stands data_at (codes "d" ∷ []) o
payload_metadata_seal-IsInstalled_example =
    payload_metadata_seal-IsInstalled same_key plain (λ s t e. e) plain data_at data_at
      (codes "d" ∷ []) _ 4 4 (codes "d/b") (regular_file true 3 100) (λ x y hx hy e. e) seals seals
      (inside (codes "d") some_data (codes "d/b") (regular_file true 3 100) (inl refl) refl
        (child first))

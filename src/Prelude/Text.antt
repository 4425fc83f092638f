-- ===== src/Prelude/Text.antt =====
-- Text as the list of its code points, with the string methods that the program calls.
pub mod Split
use Prim.Native.Nat.{ℕ}
use Prim.Native.Char.{code}
use Prim.Native.String.{String}
use mathlib.Core.Path.{◌≡◌, refl, sym, ap, ◌∙◌}
use mathlib.Core.Logic.{◌↔◌, ◌≢◌, inl, inr}
use mathlib.Core.Bool.{Bool, true, false, ◌&&◌, ◌||◌}
use mathlib.Core.List.{List, [], ◌∷◌, ◌++◌, reverse, append-nil, append_assoc, reverse-append}
use native.Mathlib.Omega.{arith}
use chrono_nextos.Prelude.Tests.{◌==◌, ==_iff, Bool-cases}

abbrev pub Text : Type 0
Text = List ℕ

abbrev pub codes : String → Text
codes String.[] = []
codes (String.◌∷◌ c s) = code c ∷ codes s

-- `==` on texts.
unfoldable pub text_eq : Text → Text → Bool
text_eq [] [] = true
text_eq [] (d ∷ t) = false
text_eq (c ∷ s) [] = false
text_eq (c ∷ s) (d ∷ t) = (c == d) && text_eq s t

pub text_eq_iff : (s t : Text) → (text_eq s t ≡ true) ↔ (s ≡ t)
unfolding text_eq
text_eq_iff [] [] = (λ h. refl, λ h. refl)
text_eq_iff [] (d ∷ t) = (λ h. cc, λ h. cc)
text_eq_iff (c ∷ s) [] = (λ h. cc, λ h. cc)
text_eq_iff (c ∷ s) (d ∷ t) = ground (arith, text_eq_iff s t, ==_iff c d)

pub text_eq_refl : (s : Text) → text_eq s s ≡ true
text_eq_refl s = (text_eq_iff s s).1 refl

-- `c in s` for one character.
unfoldable pub contains : ℕ → Text → Bool
contains c [] = false
contains c (d ∷ s) = (c == d) || contains c s

-- `s.startswith(p)`
unfoldable pub starts_with : Text → Text → Bool
starts_with s [] = true
starts_with [] (c ∷ p) = false
starts_with (d ∷ s) (c ∷ p) = (c == d) && starts_with s p

-- `s.endswith(c)` for one character.
unfoldable pub ends_in : ℕ → Text → Bool
ends_in c [] = false
ends_in c (d ∷ []) = c == d
ends_in c (d ∷ e ∷ s) = ends_in c (e ∷ s)

-- `s.split(c)`: `current` is the component read so far, its last character first.
split_loop : ℕ → Text → Text → List Text
split_loop c [] current = reverse current ∷ []
split_loop c (d ∷ s) current = elim (c == d) [
  | true ↦ reverse current ∷ split_loop c s []
  | false ↦ split_loop c s (d ∷ current)
]

unfoldable pub split : ℕ → Text → List Text
unfolding split_loop
split c s = split_loop c s []

-- The character `c` joined between texts, as `"/".join(parts)`.
unfoldable pub join : ℕ → List Text → Text
join c [] = []
join c (part ∷ []) = part
join c (part ∷ next ∷ parts) = part ++ (c ∷ join c (next ∷ parts))

split_loop-ne-nil : (c : ℕ) (s current : Text) → split_loop c s current ≢ []
unfolding split_loop
split_loop-ne-nil c [] current e = cc
split_loop-ne-nil c (d ∷ s) current e = elim (Bool-cases (c == d)) [
  | inl same ↦ ground arith
  | inr other ↦ split_loop-ne-nil c s (d ∷ current) (ground arith)
]

join-cons :
    (c : ℕ) (part : Text) (parts : List Text)
    → parts ≢ []
    → join c (part ∷ parts) ≡ part ++ (c ∷ join c parts)
unfolding join
join-cons c part [] h = absurd (h refl)
join-cons c part (next ∷ parts) h = refl

split_loop-at :
    (c d : ℕ) (s current : Text)
    → (c == d) ≡ true
    → split_loop c (d ∷ s) current ≡ reverse current ∷ split_loop c s []
unfolding split_loop
split_loop-at c d s current h = ground arith

split_loop-past :
    (c d : ℕ) (s current : Text)
    → (c == d) ≡ false
    → split_loop c (d ∷ s) current ≡ split_loop c s (d ∷ current)
unfolding split_loop
split_loop-past c d s current h = ground arith

reverse-cons-append :
    (d : ℕ) (current s : Text) → reverse (d ∷ current) ++ s ≡ reverse current ++ d ∷ s
reverse-cons-append d current s = rw (reverse-append (d ∷ []) current, append_assoc)

join-split_loop :
    (c : ℕ) (s current : Text) → join c (split_loop c s current) ≡ reverse current ++ s
join-split_loop c [] current = unfold join split_loop in sym (append-nil (reverse current))
join-split_loop c (d ∷ s) current = elim (Bool-cases (c == d)) [
  | inl same ↦
      ap (join c) (split_loop-at c d s current same)
      ∙ join-cons c (reverse current) (split_loop c s []) (split_loop-ne-nil c s [])
      ∙ cc (join-split_loop c s [], (==_iff c d).0 same)
  | inr other ↦
      ap (join c) (split_loop-past c d s current other)
      ∙ join-split_loop c s (d ∷ current)
      ∙ reverse-cons-append d current s
]

-- Joining what was split gives the text back.
pub join-split : (c : ℕ) (s : Text) → join c (split c s) ≡ s
unfolding split
join-split c s = join-split_loop c s []

-- ===== src/Prelude/Text/Split.antt =====
-- `split` after `join`, and what the components of a split hold.
use mathlib.Core.List.{reverse-append, append-nil, append_assoc}
use chrono_nextos.Prelude.{
  ℕ, true, false, ◌||◌, ◌≡◌, ◌≢◌, refl, ap, ◌∙◌, List, [], ◌∷◌, ◌++◌, reverse, arith, inl, inr,
  ◌==◌, Bool-cases, All, or-false,
}
use chrono_nextos.Prelude.Text.{
  Text, contains, split_loop, split, join, split_loop-at, split_loop-past,
}

abbrev pub Lacks : ℕ → Text → Type 0
Lacks c s = contains c s ≡ false

contains-append : (c : ℕ) (s t : Text) → contains c (s ++ t) ≡ (contains c s || contains c t)
unfolding contains
contains-append c [] t = refl
contains-append c (d ∷ s) t = ground (arith, contains-append c s t)

contains-reverse : (c : ℕ) (s : Text) → contains c (reverse s) ≡ contains c s
unfolding contains
contains-reverse c [] = refl
contains-reverse c (d ∷ s) =
    ap (contains c) (reverse-append (d ∷ []) s)
    ∙ contains-append c (reverse s) (d ∷ [])
    ∙ ground (arith, contains-reverse c s)

split_loop-Lacks :
    (c : ℕ) (s current : Text) → Lacks c current → All (Lacks c) (split_loop c s current)
split_loop-Lacks c [] current h = unfold split_loop in (rw (contains-reverse c current) h, tt)
split_loop-Lacks c (d ∷ s) current h = elim (Bool-cases (c == d)) [
  | inl same ↦
      rw (split_loop-at c d s current same)
        (rw (contains-reverse c current) h, split_loop-Lacks c s [] (unfold contains in refl))
  | inr past ↦
      rw (split_loop-past c d s current past)
        (split_loop-Lacks c s (d ∷ current) (unfold contains in ground arith))
]

-- No component of a split holds the separator.
pub split-Lacks : (c : ℕ) (s : Text) → All (Lacks c) (split c s)
unfolding split
split-Lacks c s = split_loop-Lacks c s [] (unfold contains in refl)

split_loop_part :
    (c : ℕ) (part current : Text)
    → Lacks c part
    → split_loop c part current ≡ (reverse current ++ part) ∷ []
split_loop_part c [] current h = unfold split_loop in rw (append-nil (reverse current))
split_loop_part c (d ∷ s) current h =
    split_loop-past c d s current past
    ∙ split_loop_part c s (d ∷ current) rest
    ∙ rw (reverse-append (d ∷ []) current, append_assoc)
  where
    past : (c == d) ≡ false
    past = (or-false (c == d) (contains c s) (unfold contains in h)).0

    rest : Lacks c s
    rest = (or-false (c == d) (contains c s) (unfold contains in h)).1

split_loop_separated :
    (c : ℕ) (part rest current : Text)
    → Lacks c part
    → split_loop c (part ++ (c ∷ rest)) current ≡ (reverse current ++ part) ∷ split_loop c rest []
split_loop_separated c [] rest current h =
    split_loop-at c c rest current (ground arith) ∙ rw (append-nil (reverse current))
split_loop_separated c (d ∷ s) rest current h =
    split_loop-past c d (s ++ (c ∷ rest)) current past
    ∙ split_loop_separated c s rest (d ∷ current) more
    ∙ rw (reverse-append (d ∷ []) current, append_assoc)
  where
    past : (c == d) ≡ false
    past = (or-false (c == d) (contains c s) (unfold contains in h)).0

    more : Lacks c s
    more = (or-false (c == d) (contains c s) (unfold contains in h)).1

-- Components without the separator are found again in their join.
pub split-join :
    (c : ℕ) (parts : List Text) → parts ≢ [] → All (Lacks c) parts → split c (join c parts) ≡ parts
unfolding split join
split-join c [] n h = absurd (n refl)
split-join c (part ∷ []) n h = split_loop_part c part [] h.0
split-join c (part ∷ next ∷ parts) n h =
    split_loop_separated c part (join c (next ∷ parts)) [] h.0
    ∙ ap (λ (l : List Text). part ∷ l) (split-join c (next ∷ parts) (λ e. cc) h.1)

pub split-nil : (c : ℕ) → split c [] ≡ [] ∷ []
unfolding split
split-nil c = refl

pub split-leading : (c d : ℕ) (s : Text) → (c == d) ≡ true → split c (d ∷ s) ≡ [] ∷ split c s
unfolding split
split-leading c d s h = split_loop-at c d s [] h

-- ===== src/Paths/Parts.antt =====
-- An independent description of the paths that `validate_relative_path` accepts.
use chrono_nextos.Prelude.{
  ℕ, ◌≤◌, ◌≡◌, ◌≢◌, ◌↔◌, inl, inr, refl, ap, Bool, true, false, [], ◌∷◌, ◌++◌, arith, ltb, ◌==◌,
  All, any, Bool-cases, or-false, or-false_three,
}
use chrono_nextos.Prelude.Text.{Text, text_eq, text_eq_iff, contains, ends_in}
use chrono_nextos.Prelude.Text.Split.{Lacks}
use chrono_nextos.Paths.{slash, dot, dot_dot, has_unsafe_char, is_special_part, ends_unportably}

-- A printable character other than the backslash.
abbrev pub IsPlain : ℕ → Type 0
IsPlain char = (32 ≤ char) × (char ≢ b'\\')

-- A component that a FAT, NTFS or POSIX directory keeps under exactly this name.
pub record IsPart (part : Text) : Type 0 where
  pub whole : Lacks slash part
  pub named : part ≢ []
  pub not_here : part ≢ dot
  pub not_up : part ≢ dot_dot
  pub no_space : (s : Text) → part ≢ s ++ (b' ' ∷ [])
  pub no_dot : (s : Text) → part ≢ s ++ (b'.' ∷ [])

any-All :
    (p : ℕ → Bool) (P : ℕ → Type 0) (s : Text)
    → ((c : ℕ) → p c ≡ false → P c)
    → any p s ≡ false
    → All P s
any-All p P [] f h = tt
any-All p P (c ∷ s) f h = let e = or-false (p c) (any p s) h in (f c e.0, any-All p P s f e.1)

All-any :
    (p : ℕ → Bool) (P : ℕ → Type 0) (s : Text)
    → ((c : ℕ) → P c → p c ≡ false)
    → All P s
    → any p s ≡ false
All-any p P [] f h = refl
All-any p P (c ∷ s) f h = rw (f c h.0) (All-any p P s f h.1)

contains-plain : (s : Text) (c : ℕ) → All IsPlain s → ¬ IsPlain c → contains c s ≡ false
unfolding contains
contains-plain [] c h n = refl
contains-plain (d ∷ s) c h n = elim (Bool-cases (c == d)) [
  | inl e ↦ absurd (n (let e' : c ≡ d = ground arith in rw e' h.0))
  | inr e ↦ rw e (contains-plain s c h.1 n)
]

All-IsPlain :
    (s : Text) → contains b'\\' s ≡ false → any (λ char. ltb char 32) s ≡ false → All IsPlain s
unfolding contains
All-IsPlain [] b c = tt
All-IsPlain (d ∷ s) b c =
    ((ground arith, ground arith), All-IsPlain s (or-false _ _ b).1 (or-false _ _ c).1)

pub has_unsafe_char_iff : (s : Text) → (has_unsafe_char s ≡ false) ↔ All IsPlain s
unfolding has_unsafe_char
has_unsafe_char_iff s = (
  λ h.
      let e = or-false_three (contains 0 s) (contains b'\\' s) (any (λ char. ltb char 32) s) h in
      All-IsPlain s e.1 e.2,
  λ h.
      rw (contains-plain s 0 h (λ p. omega arith), contains-plain s b'\\' h (λ p. p.1 refl))
        (All-any (λ char. ltb char 32) IsPlain s (λ c p. ground arith) h),
)

ends_in-last : (c : ℕ) (s : Text) → ends_in c (s ++ (c ∷ [])) ≡ true
unfolding ends_in
ends_in-last c [] = ground arith
ends_in-last c (d ∷ []) = ground arith
ends_in-last c (d ∷ e ∷ s) = ends_in-last c (e ∷ s)

last-ends_in : (c : ℕ) (s : Text) → ends_in c s ≡ true → (t : Text) × (s ≡ t ++ (c ∷ []))
unfolding ends_in
last-ends_in c [] h = cc
last-ends_in c (d ∷ []) h = ([], ground arith)
last-ends_in c (d ∷ e ∷ s) h =
    let (t, p) = last-ends_in c (e ∷ s) h in (d ∷ t, ap (λ (l : Text). d ∷ l) p)

ends_in-false : (c : ℕ) (s : Text) → ends_in c s ≡ false → (t : Text) → s ≢ t ++ (c ∷ [])
ends_in-false c s h t e = cc (h, ends_in-last c t, ap (ends_in c) e)

false-ends_in : (c : ℕ) (s : Text) → ((t : Text) → s ≢ t ++ (c ∷ [])) → ends_in c s ≡ false
false-ends_in c s h = elim (Bool-cases (ends_in c s)) [
  | inl e ↦ let (t, p) = last-ends_in c s e in absurd (h t p)
  | inr e ↦ e
]

text_ne : (s t : Text) → text_eq s t ≡ false → s ≢ t
text_ne s t h e = cc (h, (text_eq_iff s t).1 e)

ne_text : (s t : Text) → s ≢ t → text_eq s t ≡ false
ne_text s t h = elim (Bool-cases (text_eq s t)) [
  | inl e ↦ absurd (h ((text_eq_iff s t).0 e))
  | inr e ↦ e
]

-- The code's tests on a component without a slash are the description.
pub IsPart-iff :
    (part : Text)
    → Lacks slash part
    → ((is_special_part part ≡ false) × (ends_unportably part ≡ false)) ↔ IsPart part
unfolding is_special_part ends_unportably
IsPart-iff part whole = (
  λ h.
      let e = or-false_three (text_eq part []) (text_eq part dot) (text_eq part dot_dot) h.0 in
      record {
        whole = whole;
        named = text_ne part [] e.0;
        not_here = text_ne part dot e.1;
        not_up = text_ne part dot_dot e.2;
        no_space = ends_in-false b' ' part (or-false _ _ h.1).0;
        no_dot = ends_in-false b'.' part (or-false _ _ h.1).1;
      },
  λ p. (
    rw (ne_text part [] p.named, ne_text part dot p.not_here, ne_text part dot_dot p.not_up),
    rw (false-ends_in b' ' part p.no_space, false-ends_in b'.' part p.no_dot),
  ),
)

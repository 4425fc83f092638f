-- ===== src/Validation/Errors.antt =====
-- What `Recipe._validate` of nxextract/nxextract.py raises: the steps that its parts are made of.
pub mod Specs
pub mod Parts
use chrono_nextos.Prelude.{
  ℕ, String, ◌≡◌, ◌⊎◌, refl, Bool, true, false, not, Option, none, some, List, [], ◌∷◌, ◌==◌,
  Bool-cases, inl, inr, if◌then◌else◌,
}
use chrono_nextos.Prelude.Text.{Text}
use chrono_nextos.Fault.{Fault, Result, ok, err, recipe_error, other, refuse, ◌>>=◌, ◌>>◌}
use chrono_nextos.Json.{Value, Fields, get}
use chrono_nextos.Paths.{validate_relative_path}
use chrono_nextos.Templates.{
  Piece, literal, field, formatted, Scan, plain, opened, closed, in_field, parse_template,
  check_fields, value_error_as_recipe_error, validate_template_fields,
}
use chrono_nextos.Validation.{
  the, text_where, some_list, boolean_if_there, relative_path, distinct_texts,
}

-- What is raised, if anything is, is the recipe's error.
pub record OnlyRaises {ℓ} {A : Type ℓ} (r : Result A) : Type ℓ where
  pub only : (e : Fault) → r ≡ err e → e ≡ recipe_error

module _ {ℓ} {A : Type ℓ} where
  pub OnlyRaises-ok : (a : A) → OnlyRaises (ok a)
  OnlyRaises-ok a = record { only = λ e h. cc }

  pub OnlyRaises-recipe_error : OnlyRaises {A = A} (err recipe_error)
  OnlyRaises-recipe_error = record { only = λ e h. cc }

  pub OnlyRaises-the : (o : Option A) → OnlyRaises (the o)
  OnlyRaises-the none = record { only = λ e h. cc }
  OnlyRaises-the (some a) = record { only = λ e h. cc }

  pub OnlyRaises-if :
      (b : Bool) (r s : Result A) → OnlyRaises r → OnlyRaises s → OnlyRaises (if b then r else s)
  OnlyRaises-if true r s hr hs = hr
  OnlyRaises-if false r s hr hs = hs

pub OnlyRaises-refuse : (b : Bool) → OnlyRaises (refuse b recipe_error)
OnlyRaises-refuse true = record { only = λ e h. cc }
OnlyRaises-refuse false = record { only = λ e h. cc }

pub OnlyRaises-bind {ℓ κ} :
    {A : Type ℓ} {B : Type κ} (m : Result A) (f : A → Result B)
    → OnlyRaises m
    → ((a : A) → OnlyRaises (f a))
    → OnlyRaises (m >>= f)
OnlyRaises-bind (ok a) f hm hf = hf a
OnlyRaises-bind (err e) f hm hf = record { only = λ e' h. hm.only e' cc }

pub ruleset raises = (
  OnlyRaises-ok, OnlyRaises-recipe_error, OnlyRaises-the, OnlyRaises-if, OnlyRaises-refuse,
  OnlyRaises-bind,
)

pub text_where-OnlyRaises : (p : Text → Bool) (value : Value) → OnlyRaises (text_where p value)
text_where-OnlyRaises p value = search raises

pub some_list-OnlyRaises : (value : Value) → OnlyRaises (some_list value)
some_list-OnlyRaises value = search raises

pub boolean_if_there-OnlyRaises :
    (key : String) (fields : Fields) → OnlyRaises (boolean_if_there key fields)
boolean_if_there-OnlyRaises key fields = search raises

pub validate_relative_path-OnlyRaises :
    (s : Text) (dot : Bool) → OnlyRaises (validate_relative_path s dot)
unfolding validate_relative_path
validate_relative_path-OnlyRaises s dot = search raises depth 20

pub relative_path-OnlyRaises : (value : Value) → OnlyRaises (relative_path value)
relative_path-OnlyRaises value = search (raises, validate_relative_path-OnlyRaises)

pub distinct_texts-OnlyRaises :
    (p : Text → Bool) (key_of : Text → Text) (seen : List Text) (values : List Value)
    → OnlyRaises (distinct_texts p key_of seen values)
unfolding distinct_texts
distinct_texts-OnlyRaises p key_of seen [] = search raises
distinct_texts-OnlyRaises p key_of seen (value ∷ values) =
    let rest : (t : List Text) → OnlyRaises (distinct_texts p key_of t values) =
      λ t. distinct_texts-OnlyRaises p key_of t values in
    search (raises, text_where-OnlyRaises, rest) depth 20

-- The scanner of templates raises `ValueError` only, and the loop over its fields the recipe's error.
value_error-OnlyRaises :
    {A : Type 0} (r : Result A)
    → ((e : Fault) → r ≡ err e → (e ≡ other) ⊎ (e ≡ recipe_error))
    → OnlyRaises (value_error_as_recipe_error r)
value_error-OnlyRaises (ok a) h = record { only = λ e h. cc }
value_error-OnlyRaises (err x) h = elim (h x refl) [
  | inl e ↦ rw e (record { only = λ e h. cc })
  | inr e ↦ rw e (record { only = λ e h. cc })
]

-- The scanner raises `ValueError` and nothing else.
abbrev OnlyOther : {A : Type 0} → Result A → Type 0
OnlyOther r = (e : Fault) → r ≡ err e → e ≡ other

OnlyOther-next :
    {A B : Type 0} (r : Result A) (f : A → B) → OnlyOther r → OnlyOther (r >>= λ a. ok (f a))
OnlyOther-next (ok a) f h e h' = cc
OnlyOther-next (err x) f h e h' = h e cc

parse_template-OnlyOther : (s : Text) (scan : Scan) → OnlyOther (parse_template s scan)
unfolding parse_template
parse_template-OnlyOther [] plain e h = cc
parse_template-OnlyOther [] opened e h = cc
parse_template-OnlyOther [] closed e h = cc
parse_template-OnlyOther [] (in_field name) e h = cc
parse_template-OnlyOther (c ∷ s) plain e h = elim (Bool-cases (c == b'{')) [
  | inl o ↦ parse_template-OnlyOther s opened e (rw (parse_template, o) at h)
  | inr n ↦ elim (Bool-cases (c == b'}')) [
    | inl o ↦ parse_template-OnlyOther s closed e (rw (parse_template, n, o) at h)
    | inr m ↦
        OnlyOther-next (parse_template s plain) _ (parse_template-OnlyOther s plain) e
          (rw (parse_template, n, m) at h)
  ]
]
parse_template-OnlyOther (c ∷ s) opened e h = elim (Bool-cases (c == b'{')) [
  | inl o ↦
      OnlyOther-next (parse_template s plain) _ (parse_template-OnlyOther s plain) e
        (rw (parse_template, o) at h)
  | inr n ↦ elim (Bool-cases (c == b'}')) [
    | inl o ↦
        OnlyOther-next (parse_template s plain) _ (parse_template-OnlyOther s plain) e
          (rw (parse_template, n, o) at h)
    | inr m ↦ parse_template-OnlyOther s (in_field (c ∷ [])) e (rw (parse_template, n, m) at h)
  ]
]
parse_template-OnlyOther (c ∷ s) closed e h = elim (Bool-cases (c == b'}')) [
  | inl o ↦
      OnlyOther-next (parse_template s plain) _ (parse_template-OnlyOther s plain) e
        (rw (parse_template, o) at h)
  | inr n ↦ let g = rw (parse_template, n) at h in cc
]
parse_template-OnlyOther (c ∷ s) (in_field name) e h = elim (Bool-cases (c == b'}')) [
  | inl o ↦
      OnlyOther-next (parse_template s plain) _ (parse_template-OnlyOther s plain) e
        (rw (parse_template, o) at h)
  | inr n ↦ elim (Bool-cases (c == b'{')) [
    | inl o ↦ let g = rw (parse_template, n, o) at h in cc
    | inr m ↦ parse_template-OnlyOther s (in_field (c ∷ name)) e (rw (parse_template, n, m) at h)
  ]
]

check_fields-OnlyRaises :
    (allowed : List Text) (pieces : List Piece) → OnlyRaises (check_fields allowed pieces)
unfolding check_fields
check_fields-OnlyRaises allowed [] = search raises
check_fields-OnlyRaises allowed (literal c ∷ pieces) = check_fields-OnlyRaises allowed pieces
check_fields-OnlyRaises allowed (field name ∷ pieces) =
    OnlyRaises-bind (refuse _ recipe_error) _ (OnlyRaises-refuse _)
      (λ _. check_fields-OnlyRaises allowed pieces)
check_fields-OnlyRaises allowed (formatted content ∷ pieces) = search raises

pub validate_template_fields-OnlyRaises :
    (value : Text) (allowed : List Text) → OnlyRaises (validate_template_fields value allowed)
unfolding validate_template_fields
validate_template_fields-OnlyRaises value allowed =
    value_error-OnlyRaises _
      (λ e h. either (parse_template value plain) (parse_template-OnlyOther value plain) e h)
  where
    either :
        (r : Result (List Piece))
        → OnlyOther r
        → (e : Fault) → (r >>= check_fields allowed) ≡ err e
        → (e ≡ other) ⊎ (e ≡ recipe_error)
    either (ok pieces) o e h = inr ((check_fields-OnlyRaises allowed pieces).only e h)
    either (err x) o e h = inl (o e cc)

-- ===== src/Templates/Total.antt =====
-- Templates that the validation of a recipe lets through.
use chrono_nextos.Prelude.{
  ◌≡◌, refl, true, not, some, List, [], ◌∷◌, ◌++◌, arith, All, any, Bool-cases, inl, inr,
}
use chrono_nextos.Prelude.Text.{Text, text_eq, text_eq_iff, text_eq_refl}
use chrono_nextos.Fault.{Result, ok, err, >>=-eq-ok, refuse, refuse-ok, other, recipe_error}
use chrono_nextos.Templates.{
  Piece, literal, field, formatted, plain, parse_template, check_fields, validate_template_fields,
  value_error_as_recipe_error, template_field, fill, template_value, abi_field,
}

value_error-ok {ℓ} :
    {A : Type ℓ} (r : Result A) {a : A} → value_error_as_recipe_error r ≡ ok a → r ≡ ok a
value_error-ok (ok a) h = h
value_error-ok (err other) h = cc
value_error-ok (err recipe_error) h = cc
value_error-ok (err _) h = cc

module _ (abi basename : Text) where
  -- A name that the mapping of `template_value` has.
  abbrev pub IsMapped : Text → Type 0
  IsMapped name = (text : Text) × (template_field abi basename name ≡ some text)

  IsMapped-of_allowed :
      (allowed : List Text) (name : Text)
      → All IsMapped allowed
      → any (text_eq name) allowed ≡ true
      → IsMapped name
  IsMapped-of_allowed [] name m h = cc
  IsMapped-of_allowed (a ∷ allowed) name m h = elim (Bool-cases (text_eq name a)) [
    | inl e ↦ rw ((text_eq_iff name a).0 e) m.0
    | inr e ↦ IsMapped-of_allowed allowed name m.1 (rw e at h)
  ]

  fill-ok :
      (allowed : List Text) (pieces : List Piece)
      → All IsMapped allowed
      → check_fields allowed pieces ≡ ok tt
      → (text : Text) × (fill abi basename pieces ≡ ok text)
  unfolding check_fields fill
  fill-ok allowed [] m h = ([], refl)
  fill-ok allowed (literal c ∷ pieces) m h =
      let (rest, e) = fill-ok allowed pieces m h in (c ∷ rest, rw e)
  fill-ok allowed (field name ∷ pieces) m h =
      let (u, known, more) = >>=-eq-ok (refuse (not (any (text_eq name) allowed)) _) _ h in
      let (text, found) =
        IsMapped-of_allowed allowed name m (ground (arith, refuse-ok _ _ known)) in
      let (rest, e) = fill-ok allowed pieces m more in (text ++ rest, rw (found, e))
  fill-ok allowed (formatted content ∷ pieces) m h = cc

  -- A template whose fields are all allowed, each of them one that the mapping has, is filled in
  -- with no error.
  pub template_value-total :
      (value : Text) (allowed : List Text)
      → All IsMapped allowed
      → validate_template_fields value allowed ≡ ok tt
      → (text : Text) × (template_value value abi basename ≡ ok text)
  unfolding template_value validate_template_fields
  template_value-total value allowed m h =
      let (pieces, parsed, checked) =
        >>=-eq-ok (parse_template value plain) _ (value_error-ok _ h) in
      let (text, filled) = fill-ok allowed pieces m checked in (text, rw (parsed, filled))

  -- The allowed fields of commit paths, and those of destinations.
  pub abi-IsMapped : IsMapped abi_field
  unfolding template_field
  abi-IsMapped = (abi, rw (text_eq_refl abi_field))

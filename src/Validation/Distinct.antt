-- ===== src/Validation/Distinct.antt =====
-- The loops of `Recipe._validate` that collect texts and refuse one that has been seen.
use chrono_nextos.Prelude.{
  ◌≡◌, sym, Bool, true, false, not, List, [], ◌∷◌, All, In, any, inl, inr, or-false,
}
use chrono_nextos.Prelude.Text.{Text, text_eq, text_eq_iff, text_eq_refl}
use chrono_nextos.Fault.{
  ok, recipe_error, refuse, refuse-ok, refuse-not-ok, ok-injective, >>=-eq-ok,
}
use chrono_nextos.Json.{Value, as_text, as_object, get}
use chrono_nextos.Validation.{the, text_where, is_identifier}
use chrono_nextos.Validation.Rule.{check_rule, validate_rule, validate_rules}

-- No text occurs twice.
abbrev pub Distinct : List Text → Type 0
Distinct [] = Unit
Distinct (s ∷ rest) = (In s rest → ⊥) × Distinct rest

pub any-In : (s : Text) (texts : List Text) → any (text_eq s) texts ≡ false → In s texts → ⊥
any-In s [] h i = i tt
any-In s (t ∷ texts) h (inl e) =
    let same = text_eq_refl s in
    let other = (or-false (text_eq s t) _ h).0 in cc ((text_eq_iff s t).1 e, other)
any-In s (t ∷ texts) h (inr i) = any-In s texts (or-false (text_eq s t) _ h).1 i

-- Text accepted by a pattern, as the loop has read it.
pub text_where-accepts :
    (p : Text → Bool) (value : Value) {s : Text} → text_where p value ≡ ok s → p s ≡ true
text_where-accepts p value h =
    let (t, _, h1) = >>=-eq-ok (the (as_text value)) _ h in
    let (_, accepted, h2) = >>=-eq-ok (refuse (not (p t)) recipe_error) _ h1 in
    rw (← ok-injective h2) (refuse-not-ok (p t) recipe_error accepted)

-- What is new is none of the texts before it and differs from all that follow.
abbrev pub IsNew : List Text → Text → Type 0
IsNew seen s = In s seen → ⊥

New-tail :
    (s : Text) (seen rest : List Text)
    → All (IsNew (s ∷ seen)) rest
    → All (IsNew seen) rest × IsNew rest s
New-tail s seen [] h = (tt, λ i. i tt)
New-tail s seen (t ∷ rest) h =
    let (older, newer) = New-tail s seen rest h.1 in
    ((λ i. h.0 (inr i), older), λ i. elim i [ inl e ↦ h.0 (inl (sym e)) | inr j ↦ newer j ])

module _ (portable_path_key : Text → Text) where
  validate_rule-IsNew :
      (seen : List Text) (value : Value) {rule_id : Text}
      → validate_rule portable_path_key seen value ≡ ok rule_id
      → IsNew seen rule_id × (is_identifier rule_id ≡ true)
  unfolding validate_rule
  validate_rule-IsNew seen value h =
      let (rule, _, h1) = >>=-eq-ok (the (as_object value)) _ h in
      let (rule_id, named, h2) = >>=-eq-ok (text_where is_identifier (get "id" rule)) _ h1 in
      let (_, unseen, h3) = >>=-eq-ok (refuse (any (text_eq rule_id) seen) recipe_error) _ h2 in
      let (_, _, h4) = >>=-eq-ok (check_rule portable_path_key rule) _ h3 in
      rw (← ok-injective h4)
        (any-In rule_id seen (refuse-ok _ _ unseen), text_where-accepts is_identifier _ named)

  -- Rules that are accepted have ids that their pattern accepts, no two of them alike.
  pub validate_rules-Distinct :
      (seen : List Text) (values : List Value) {rule_ids : List Text}
      → validate_rules portable_path_key seen values ≡ ok rule_ids
      → All (IsNew seen) rule_ids
        × Distinct rule_ids
        × All (λ rule_id. is_identifier rule_id ≡ true) rule_ids
  unfolding validate_rules
  validate_rules-Distinct seen [] h = rw (← ok-injective h) (tt, tt, tt)
  validate_rules-Distinct seen (value ∷ values) h =
      let (rule_id, first, h1) = >>=-eq-ok (validate_rule portable_path_key seen value) _ h in
      let (rest, more, h2) =
        >>=-eq-ok (validate_rules portable_path_key (rule_id ∷ seen) values) _ h1 in
      let (new, named) = validate_rule-IsNew seen value first in
      let (news, distinct, names) = validate_rules-Distinct (rule_id ∷ seen) values more in
      let (older, apart) = New-tail rule_id seen rest news in
      rw (← ok-injective h2) ((new, older), (apart, distinct), (named, names))

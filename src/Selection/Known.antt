-- ===== src/Selection/Known.antt =====
-- The ids of the rules that the validation of a recipe has accepted.
use chrono_nextos.Prelude.{
  ◌≡◌, refl, ap, ◌∙◌, Bool, true, not, ◌||◌, some, List, [], ◌∷◌, arith, All, any,
}
use mathlib.Core.Path.{subst}
use chrono_nextos.Prelude.Text.{Text, text_eq, text_eq_refl}
use chrono_nextos.Fault.{ok, recipe_error, refuse, ok-injective, >>=-eq-ok}
use chrono_nextos.Json.{Value, Fields, get, as_object, as_text}
use chrono_nextos.Validation.{the, text_where, is_identifier}
use chrono_nextos.Validation.Accepted.{the-some}
use chrono_nextos.Validation.Rule.{check_rule, validate_rule, validate_rules}

-- The id of a rule of the recipe, by the ids that the validation has read.
abbrev pub IdKnown : List Text → Value → Type 0
IdKnown ids value =
    (rule : Fields) (rule_id : Text)
    → as_object value ≡ some rule
    → as_text (get "id" rule) ≡ some rule_id
    → any (text_eq rule_id) ids ≡ true

-- The rules that the validation accepts have known ids.
pub text_where-value :
    (p : Text → Bool) (value : Value) {s : Text}
    → text_where p value ≡ ok s
    → as_text value ≡ some s
text_where-value p value h =
    let (t, read, h1) = >>=-eq-ok (the (as_text value)) _ h in
    let (_, _, h2) = >>=-eq-ok (refuse (not (p t)) recipe_error) _ h1 in
    the-some (as_text value) read ∙ ap some (ok-injective h2)

IdKnown-more :
    (new : Text) (ids : List Text) (values : List Value)
    → All (IdKnown ids) values
    → All (IdKnown (new ∷ ids)) values
IdKnown-more new ids [] h = tt
IdKnown-more new ids (value ∷ values) h = (
  λ rule rule_id o n. or_true (text_eq rule_id new) _ (h.0 rule rule_id o n),
  IdKnown-more new ids values h.1,
)
  where
    or_true : (a b : Bool) → b ≡ true → (a || b) ≡ true
    or_true a b e = ground arith

pub validate_rules-IdKnown :
    (portable_path_key : Text → Text) (seen : List Text) (values : List Value) {ids : List Text}
    → validate_rules portable_path_key seen values ≡ ok ids
    → All (IdKnown ids) values
unfolding validate_rules validate_rule
validate_rules-IdKnown portable_path_key seen [] h = tt
validate_rules-IdKnown portable_path_key seen (value ∷ values) {ids} h =
    let (rule_id, first, h1) = >>=-eq-ok (validate_rule portable_path_key seen value) _ h in
    let (rest, more, h2) =
      >>=-eq-ok (validate_rules portable_path_key (rule_id ∷ seen) values) _ h1 in
    let (rule, is_rule, f1) = >>=-eq-ok (the (as_object value)) _ first in
    let (named, is_named, f2) = >>=-eq-ok (text_where is_identifier (get "id" rule)) _ f1 in
    let (_, _, f3) = >>=-eq-ok (refuse (any (text_eq named) seen) recipe_error) _ f2 in
    let (_, _, f4) = >>=-eq-ok (check_rule portable_path_key rule) _ f3 in
    let object = the-some (as_object value) is_rule in
    let text = text_where-value is_identifier (get "id" rule) is_named in
    let same = ok-injective f4 in
    let ih : All (IdKnown rest) values =
      validate_rules-IdKnown portable_path_key (rule_id ∷ seen) values more in
    let both : All (IdKnown (rule_id ∷ rest)) (value ∷ values) = (
      λ other id o n.
          here id rule_id rest (same_id rule other named rule_id id object text same o n),
      IdKnown-more rule_id rest values ih,
    ) in
    subst (λ known. All (IdKnown known) (value ∷ values)) (ok-injective h2) both
  where
    here :
        (id rule_id : Text) (rest : List Text)
        → id ≡ rule_id
        → any (text_eq id) (rule_id ∷ rest) ≡ true
    here id rule_id rest e = rw (e, text_eq_refl rule_id) refl

    same_id :
        (rule other : Fields) (named rule_id id : Text)
        → as_object value ≡ some rule
        → as_text (get "id" rule) ≡ some named
        → named ≡ rule_id
        → as_object value ≡ some other
        → as_text (get "id" other) ≡ some id
        → id ≡ rule_id
    same_id rule other named rule_id id a b c d e =
        let r : rule ≡ other = cc in
        let t : as_text (get "id" other) ≡ some named = rw (← r) b in cc

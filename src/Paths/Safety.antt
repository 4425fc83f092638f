-- ===== src/Paths/Safety.antt =====
-- `validate_relative_path` and `safe_zip_name` against the description of a relative path.
use chrono_nextos.Prelude.{
  ◌≡◌, ◌≢◌, ◌⊎◌, inl, inr, refl, sym, ap, ◌∙◌, Bool, true, false, ◌||◌, List, [], ◌∷◌, arith, All,
  any, Bool-cases, or-false, ◌==◌,
}
use chrono_nextos.Prelude.Text.{Text, text_eq, text_eq_iff, starts_with, split, join, join-split}
use chrono_nextos.Prelude.Text.Split.{Lacks, split-Lacks, split-join, split-nil, split-leading}
use chrono_nextos.Fault.{ok}
use chrono_nextos.Paths.{
  slash, dot, has_unsafe_char, is_special_part, ends_unportably, is_unsafe_zip_part,
  validate_relative_path, safe_zip_name, strip_directory_mark,
}
use chrono_nextos.Paths.Parts.{IsPlain, IsPart, IsPart-iff, has_unsafe_char_iff}

-- Printable components, joined by slashes.
pub record IsRelative (value : Text) : Type 0 where
  pub parts : List Text
  pub joined : value ≡ join slash parts
  pub some_part : parts ≢ []
  pub all_parts : All IsPart parts
  pub plain : All IsPlain value

parts-IsPart :
    (parts : List Text)
    → All (Lacks slash) parts
    → any is_special_part parts ≡ false
    → any ends_unportably parts ≡ false
    → All IsPart parts
parts-IsPart [] w s e = tt
parts-IsPart (part ∷ parts) w s e = (
  (IsPart-iff part w.0).0 ((or-false _ _ s).0, (or-false _ _ e).0),
  parts-IsPart parts w.1 (or-false _ _ s).1 (or-false _ _ e).1,
)

IsPart-parts :
    (parts : List Text)
    → All IsPart parts
    → All (Lacks slash) parts
      × (any is_special_part parts ≡ false)
      × (any ends_unportably parts ≡ false)
IsPart-parts [] h = (tt, refl, refl)
IsPart-parts (part ∷ parts) h =
    let r = IsPart-parts parts h.1 in
    let e = (IsPart-iff part h.0.whole).1 h.0 in ((h.0.whole, r.0), rw (e.0) r.1, rw (e.1) r.2)

pub split-ne-nil : (value : Text) → value ≢ [] → split slash value ≢ []
split-ne-nil value n e = n (sym (join-split slash value) ∙ ap (join slash) e ∙ unfold join in refl)

pub IsRelative-split : (value : Text) → IsRelative value → All IsPart (split slash value)
IsRelative-split value r =
    rw (r.joined, split-join slash r.parts r.some_part (IsPart-parts r.parts r.all_parts).0)
      r.all_parts

accepted :
    (value : Text)
    → has_unsafe_char value ≡ false
    → text_eq value [] ≡ false
    → any is_special_part (split slash value) ≡ false
    → any ends_unportably (split slash value) ≡ false
    → IsRelative value
accepted value c n s e = record {
  parts = split slash value;
  joined = sym (join-split slash value);
  some_part = split-ne-nil value (λ p. cc (n, (text_eq_iff value []).1 p));
  all_parts = parts-IsPart (split slash value) (split-Lacks slash value) s e;
  plain = (has_unsafe_char_iff value).0 c;
}

-- An accepted path is returned as it was given, and is a relative path of the description, or the
-- single dot where that was allowed.
pub validate_relative_path_sound :
    (value : Text) (allow_dot : Bool) {result : Text}
    → validate_relative_path value allow_dot ≡ ok result
    → (result ≡ value) × (IsRelative value ⊎ ((value ≡ dot) × (allow_dot ≡ true)))
unfolding validate_relative_path
validate_relative_path_sound value allow_dot {result} h =
    ground (arith, accepted value, join-split slash value, text_eq_iff value dot)

-- A text whose components are good begins with one of them.
not-starts_with-slash :
    (value : Text)
    → All IsPart (split slash value)
    → (text_eq value [] || starts_with value (slash ∷ [])) ≡ false
unfolding text_eq starts_with
not-starts_with-slash [] h = absurd ((rw (split-nil slash) at h).0.named refl)
not-starts_with-slash (c ∷ value) h = elim (Bool-cases (slash == c)) [
  | inl e ↦ absurd ((rw (split-leading slash c value e) at h).0.named refl)
  | inr e ↦ rw e
]

-- Every path of the description is accepted, and returned as it is.
pub validate_relative_path_complete :
    (value : Text) (allow_dot : Bool)
    → IsRelative value
    → validate_relative_path value allow_dot ≡ ok value
validate_relative_path_complete value allow_dot r =
    let parts = IsRelative-split value r in
    let tests = IsPart-parts (split slash value) parts in
    complete ((has_unsafe_char_iff value).1 r.plain) (not-starts_with-slash value parts) tests.1
      tests.2
  where
    complete :
        has_unsafe_char value ≡ false
        → (text_eq value [] || starts_with value (slash ∷ [])) ≡ false
        → any is_special_part (split slash value) ≡ false
        → any ends_unportably (split slash value) ≡ false
        → validate_relative_path value allow_dot ≡ ok value
    complete c n s e = unfold validate_relative_path in ground (arith, join-split slash value)

zip-parts :
    (parts : List Text)
    → any is_unsafe_zip_part parts ≡ false
    → (any is_special_part parts ≡ false) × (any ends_unportably parts ≡ false)
unfolding is_unsafe_zip_part
zip-parts [] h = (refl, refl)
zip-parts (part ∷ parts) h = ground (arith, zip-parts parts)

-- The name of a file entry that is accepted is empty or a relative path, unchanged.
pub safe_zip_name_sound :
    (name : Text) {result : Text}
    → safe_zip_name name false ≡ ok result
    → (result ≡ name) × ((name ≡ []) ⊎ IsRelative name)
unfolding safe_zip_name strip_directory_mark
safe_zip_name_sound name h =
    ground (
      arith,
      accepted name,
      zip-parts (split slash name),
      join-split slash name,
      text_eq_iff name [],
    )

-- Where the dot is not allowed, an accepted text is a relative path.
pub validate_relative_path-IsRelative :
    (value : Text) {result : Text}
    → validate_relative_path value false ≡ ok result
    → (result ≡ value) × IsRelative value
validate_relative_path-IsRelative value {result} h =
    let r = validate_relative_path_sound value false h in (r.0, strict r.1)
  where
    strict : IsRelative value ⊎ ((value ≡ dot) × (false ≡ true)) → IsRelative value
    strict (inl r) = r
    strict (inr (_, no_way)) = cc

-- ===== src/Validation/Errors/Specs.antt =====
-- What the validation of a specification raises.
use chrono_nextos.Prelude.{
  ℕ, ◌≡◌, refl, String, Bool, true, Option, none, some, List, [], ◌∷◌, In, inl, inr,
}
use chrono_nextos.Prelude.Text.{Text}
use chrono_nextos.Fault.{Result, ok, err, ◌>>=◌, recipe_error, refuse}
use chrono_nextos.Json.{Value, Fields, get, as_text, as_object, as_list}
use chrono_nextos.Candidates.{
  hash_text, hash_texts, normalize_hash_list, crc_number, crc_value, crc_values, normalize_crc_list,
  hex_magic, ascii_magic, parse_magic, or_recipe_error,
}
use chrono_nextos.Specs.{
  number_keys, aliases_differ, check_bounds, count_bounds, size_bounds, check_number, check_numbers,
  check_required, required_paths, validate_validation, validate_output_check,
}
use chrono_nextos.Specs.Returns.{
  Returns, HasNumber, check_numbers-HasNumber, number_either, Returns-exact, Returns-crossed,
}
use chrono_nextos.Validation.Errors.{
  OnlyRaises, OnlyRaises-ok, OnlyRaises-recipe_error, OnlyRaises-bind, OnlyRaises-if,
  OnlyRaises-refuse, raises, validate_relative_path-OnlyRaises, validate_template_fields-OnlyRaises,
}

-- A split on an option.
OnlyRaises-elim {ℓ κ} :
    {A : Type ℓ} {B : Type κ} (o : Option A) (r : Result B) (f : A → Result B)
    → OnlyRaises r
    → ((a : A) → OnlyRaises (f a))
    → OnlyRaises (elim o [ none ↦ r | some a ↦ f a ])
OnlyRaises-elim none r f hr hf = hr
OnlyRaises-elim (some a) r f hr hf = hf a

hash_text-OnlyRaises : (value : Value) → OnlyRaises (hash_text value)
hash_text-OnlyRaises value =
    OnlyRaises-elim (as_text value) _ _ (search raises) (λ s. search raises)

hash_texts-OnlyRaises : (values : List Value) → OnlyRaises (hash_texts values)
hash_texts-OnlyRaises [] = search raises
hash_texts-OnlyRaises (value ∷ values) =
    OnlyRaises-bind (hash_text value) _ (hash_text-OnlyRaises value)
      (λ hash. search (raises, hash_texts-OnlyRaises values))

pub normalize_hash_list-OnlyRaises : (value : Value) → OnlyRaises (normalize_hash_list value)
unfolding normalize_hash_list
normalize_hash_list-OnlyRaises value = search (raises, hash_texts-OnlyRaises)

crc_value-OnlyRaises : (value : Value) → OnlyRaises (crc_value value)
crc_value-OnlyRaises value =
    OnlyRaises-elim (crc_number value) _ _ (search raises) (λ n. search raises)

crc_values-OnlyRaises : (values : List Value) → OnlyRaises (crc_values values)
crc_values-OnlyRaises [] = search raises
crc_values-OnlyRaises (value ∷ values) =
    OnlyRaises-bind (crc_value value) _ (crc_value-OnlyRaises value)
      (λ crc. search (raises, crc_values-OnlyRaises values))

pub normalize_crc_list-OnlyRaises : (value : Value) → OnlyRaises (normalize_crc_list value)
unfolding normalize_crc_list
normalize_crc_list-OnlyRaises value = search (raises, crc_values-OnlyRaises)

or_recipe_error-OnlyRaises {ℓ} : {A : Type ℓ} (o : Option A) → OnlyRaises (or_recipe_error o)
or_recipe_error-OnlyRaises none = search raises
or_recipe_error-OnlyRaises (some a) = search raises

hex_magic-OnlyRaises : (value : Value) → OnlyRaises (hex_magic value)
hex_magic-OnlyRaises value =
    OnlyRaises-elim (as_text value) _ _ (search raises) (λ s. or_recipe_error-OnlyRaises _)

ascii_magic-OnlyRaises : (value : Value) → OnlyRaises (ascii_magic value)
ascii_magic-OnlyRaises value =
    OnlyRaises-elim (as_text value) _ _ (search raises) (λ s. search raises)

parse_magic-OnlyRaises : (spec : Fields) → OnlyRaises (parse_magic spec)
unfolding parse_magic
parse_magic-OnlyRaises spec = search (raises, hex_magic-OnlyRaises, ascii_magic-OnlyRaises) depth 20

check_numbers-OnlyRaises :
    (spec : Fields) (keys : List String) → OnlyRaises (check_numbers spec keys)
unfolding check_number
check_numbers-OnlyRaises spec [] = search raises
check_numbers-OnlyRaises spec (key ∷ keys) =
    OnlyRaises-bind (check_number spec key) _ (search raises)
      (λ _. check_numbers-OnlyRaises spec keys)

Returns-OnlyRaises {ℓ} : {A : Type ℓ} (r : Result A) → Returns r → OnlyRaises r
Returns-OnlyRaises (ok a) h = OnlyRaises-ok a
Returns-OnlyRaises (err e) (a, h) = cc

-- What comes after a check may use that it has passed.
OnlyRaises-bind_ok {ℓ κ} :
    {A : Type ℓ} {B : Type κ} (m : Result A) (f : A → Result B)
    → OnlyRaises m
    → ((a : A) → m ≡ ok a → OnlyRaises (f a))
    → OnlyRaises (m >>= f)
OnlyRaises-bind_ok (ok a) f hm hf = hf a refl
OnlyRaises-bind_ok (err e) f hm hf = record { only = λ e' h. hm.only e' cc }

abbrev Numbers : Fields → Type 0
Numbers spec = (key : String) → In key number_keys → HasNumber spec key

check_bounds-OnlyRaises :
    (has_exact has_minimum has_maximum : Bool) (exact minimum maximum : Value)
    → (has_exact ≡ true → (n : ℕ) × (exact ≡ Value.num n))
    → (has_minimum ≡ true → (n : ℕ) × (minimum ≡ Value.num n))
    → (has_maximum ≡ true → (n : ℕ) × (maximum ≡ Value.num n))
    → OnlyRaises (check_bounds has_exact exact has_minimum minimum has_maximum maximum)
check_bounds-OnlyRaises has_exact has_minimum has_maximum exact minimum maximum he hm hx =
    OnlyRaises-bind _ _
      (Returns-OnlyRaises _
        (Returns-exact has_exact has_minimum has_maximum exact minimum maximum he hm hx))
      (λ wrong. OnlyRaises-bind (refuse wrong recipe_error) _ (OnlyRaises-refuse wrong) (λ _.
        OnlyRaises-bind _ _
          (Returns-OnlyRaises _ (Returns-crossed has_minimum has_maximum minimum maximum hm hx))
          (λ crossed. OnlyRaises-refuse crossed)))

count_bounds-OnlyRaises : (spec : Fields) → Numbers spec → OnlyRaises (count_bounds spec)
count_bounds-OnlyRaises spec numbers =
    check_bounds-OnlyRaises _ _ _ _ _ _
      (number_either spec "exact_files" "exact_entries" (numbers _ (inr (inr (inr (inl refl)))))
        (numbers _ (inr (inr (inr (inr (inr (inr (inr (inr (inr (inl refl))))))))))))
      (number_either spec "min_files" "min_entries" (numbers _ (inr (inr (inr (inr (inl refl))))))
        (numbers _ (inr (inr (inr (inr (inr (inr (inr (inr (inr (inr (inl refl)))))))))))))
      (number_either spec "max_files" "max_entries"
        (numbers _ (inr (inr (inr (inr (inr (inl refl)))))))
        (numbers _ (inr (inr (inr (inr (inr (inr (inr (inr (inr (inr (inr (inl refl))))))))))))))

size_bounds-OnlyRaises : (spec : Fields) → Numbers spec → OnlyRaises (size_bounds spec)
size_bounds-OnlyRaises spec numbers =
    check_bounds-OnlyRaises _ _ _ _ _ _ (numbers "size" (inl refl))
      (numbers "min_size" (inr (inl refl))) (numbers "max_size" (inr (inr (inl refl))))

module _ (portable_path_key : Text → Text) where
  check_required-OnlyRaises :
      (seen : List Text) (items : List Value)
      → OnlyRaises (check_required portable_path_key seen items)
  unfolding check_required
  check_required-OnlyRaises seen [] = search raises
  check_required-OnlyRaises seen (item ∷ items) =
      let rest : (t : List Text) → OnlyRaises (check_required portable_path_key t items) =
        λ t. check_required-OnlyRaises t items in
      OnlyRaises-elim (as_text item) _ _ (search raises)
        (λ s. search (raises, validate_relative_path-OnlyRaises, rest))

  required_paths-OnlyRaises : (spec : Fields) → OnlyRaises (required_paths portable_path_key spec)
  required_paths-OnlyRaises spec =
      OnlyRaises-if _ _ _
        (OnlyRaises-elim (as_list (get "required_paths" spec)) _ _ OnlyRaises-recipe_error
          OnlyRaises-ok)
        (OnlyRaises-ok _)

  pub validate_validation-OnlyRaises :
      (spec : Fields) → OnlyRaises (validate_validation portable_path_key spec)
  unfolding validate_validation
  validate_validation-OnlyRaises spec =
      OnlyRaises-bind_ok (check_numbers spec number_keys) _
        (check_numbers-OnlyRaises spec number_keys)
        (λ u checked.
          let numbers = check_numbers-HasNumber spec number_keys checked in
          let counts = count_bounds-OnlyRaises spec numbers in
          let sizes = size_bounds-OnlyRaises spec numbers in
          OnlyRaises-bind (refuse (aliases_differ "exact_files" "exact_entries" spec) recipe_error)
            _ (OnlyRaises-refuse _)
            (λ _.
              OnlyRaises-bind (refuse (aliases_differ "min_files" "min_entries" spec) recipe_error)
                _ (OnlyRaises-refuse _)
                (λ _.
                  OnlyRaises-bind
                    (refuse (aliases_differ "max_files" "max_entries" spec) recipe_error) _
                    (OnlyRaises-refuse _)
                    (λ _. OnlyRaises-bind (count_bounds spec) _ counts (λ _.
                      OnlyRaises-bind (size_bounds spec) _ sizes (λ _.
                        search
                          (
                            raises, normalize_hash_list-OnlyRaises, normalize_crc_list-OnlyRaises,
                            parse_magic-OnlyRaises, required_paths-OnlyRaises,
                            check_required-OnlyRaises,
                          )
                          depth 40))))))

  pub validate_output_check-OnlyRaises :
      (value : Value) → OnlyRaises (validate_output_check portable_path_key value)
  unfolding validate_output_check
  validate_output_check-OnlyRaises value =
      OnlyRaises-elim (as_object value) _ _ (search raises) (λ check.
        OnlyRaises-elim (as_text (get "path" check)) _ _ (search raises) (λ path. search (
          raises, validate_relative_path-OnlyRaises, validate_template_fields-OnlyRaises,
          validate_validation-OnlyRaises,
        )))

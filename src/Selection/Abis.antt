-- ===== src/Selection/Abis.antt =====
-- The ABIs that `Recipe.abi_order` of nxextract/nxextract.py gives for an accepted recipe.
use chrono_nextos.Prelude.{
  ◌≡◌, refl, Bool, true, false, ◌||◌, List, [], ◌∷◌, All, Bool-cases, inl, inr, any, if◌then◌else◌,
}
use chrono_nextos.Prelude.Text.{Text, text_eq, codes, starts_with}
use chrono_nextos.Fault.{ok, recipe_error, refuse, ok-injective, >>=-eq-ok}
use chrono_nextos.Json.{Value, Fields, get, is_null, is_abi_text}
use chrono_nextos.Candidates.{lower}
use chrono_nextos.Validation.{text_where, some_list, distinct_texts}
use chrono_nextos.Validation.Rule.{is_some_text, some_texts}
use chrono_nextos.Validation.Document.{check_abi_order}
use chrono_nextos.Validation.Distinct.{text_where-accepts}
use chrono_nextos.Selection.Known.{text_where-value}
use chrono_nextos.Selection.Build.{default_abis, abi_order}

-- The ABIs of an accepted recipe.
abbrev pub AllAbis : List Text → Type 0
AllAbis abis = All (λ abi. is_abi_text abi ≡ true) abis

distinct_texts-some_texts :
    (seen : List Text) (values : List Value) {checked texts : List Text}
    → distinct_texts is_abi_text lower seen values ≡ ok checked
    → some_texts values ≡ ok texts
    → AllAbis texts
unfolding distinct_texts some_texts
distinct_texts-some_texts seen [] h k = rw (← ok-injective k) tt
distinct_texts-some_texts seen (value ∷ values) h k =
    let (s, read, h1) = >>=-eq-ok (text_where is_abi_text value) _ h in
    let (_, _, h2) = >>=-eq-ok (refuse (any (text_eq (lower s)) seen) recipe_error) _ h1 in
    let (_, more, _) = >>=-eq-ok (distinct_texts is_abi_text lower (lower s ∷ seen) values) _ h2 in
    let (t, again, k1) = >>=-eq-ok (text_where is_some_text value) _ k in
    let (rest, others, k2) = >>=-eq-ok (some_texts values) _ k1 in
    let a = text_where-value is_abi_text value read in
    let b = text_where-value is_some_text value again in
    let same : s ≡ t = cc in
    let first : is_abi_text t ≡ true = rw (← same) (text_where-accepts is_abi_text value read) in
    rw (← ok-injective k2) (first, distinct_texts-some_texts (lower s ∷ seen) values more others)

default_abis-AllAbis : (machine : Text) → AllAbis (default_abis machine)
unfolding default_abis is_abi_text
default_abis-AllAbis machine =
    either (text_eq machine (codes "aarch64") || text_eq machine (codes "arm64"))
      (starts_with machine (codes "arm"))
      (text_eq machine (codes "x86_64") || text_eq machine (codes "amd64"))
  where
    either :
        (a b c : Bool)
        → AllAbis (
            if a
            then codes "arm64-v8a" ∷ codes "armeabi-v7a" ∷ []
            else if b
            then codes "armeabi-v7a" ∷ codes "armeabi" ∷ []
            else if c
            then codes "x86_64" ∷ codes "x86" ∷ []
            else codes "arm64-v8a" ∷ codes "armeabi-v7a" ∷ codes "x86_64" ∷ codes "x86" ∷ [])
    either true b c = (refl, (refl, tt))
    either false true c = (refl, (refl, tt))
    either false false true = (refl, (refl, tt))
    either false false false = (refl, (refl, (refl, (refl, tt))))

-- An accepted recipe names no other ABIs than texts of their pattern.
pub abi_order-AllAbis :
    (machine : Text) (data_ : Fields) {abis : List Text}
    → check_abi_order data_ ≡ ok tt
    → abi_order machine data_ ≡ ok abis
    → AllAbis abis
unfolding check_abi_order abi_order
abi_order-AllAbis machine data_ c h = elim (Bool-cases (is_null (get "abi_order" data_))) [
  | inl e ↦ let g = rw e at h in rw (← ok-injective g) (default_abis-AllAbis machine)
  | inr e ↦
      let (values, listed, h1) = >>=-eq-ok (some_list (get "abi_order" data_)) _ (rw e at h) in
      let (again, relisted, c1) = >>=-eq-ok (some_list (get "abi_order" data_)) _ (rw e at c) in
      let (checked, distinct, _) = >>=-eq-ok (distinct_texts is_abi_text lower [] again) _ c1 in
      let same : again ≡ values = cc in distinct_texts-some_texts [] values (rw same at distinct) h1
]

-- ===== src/Manifest/Bounds.antt =====
-- Reads of a start element and the end of the chunk.
use chrono_nextos.Prelude.{
  ℕ, zero, suc, ◌+◌, ◌*◌, ◌≤◌, ◌<◌, ◌≡◌, refl, Bool, true, false, ◌||◌, Option, none, some, List,
  [], ◌∷◌, get_elem?, ltb, length, arith, ◌==◌, if◌then◌else◌, Bool-cases, inl, inr,
}
use chrono_nextos.Prelude.Text.{Text, codes}
use chrono_nextos.Manifest.Bytes.{
  value_error, Parsed, parsed, failed, ◌>>=◌, reject, or_failed, byte_at, field_byte, unpack_u16,
  unpack_u32,
}
use chrono_nextos.Manifest.{
  no_index, get_string, attribute_value, read_attribute, read_attributes, named_package,
  manifest_element, start_element, equals_name, Found,
}

get_elem?-inside :
    (bytes : List ℕ) (i : ℕ) → i < length bytes → (b : ℕ) × (get_elem? bytes i ≡ some b)
get_elem?-inside [] i h = absurd (omega arith)
get_elem?-inside (b ∷ bytes) zero h = (b, refl)
get_elem?-inside (b ∷ bytes) (suc i) h = get_elem?-inside bytes i (omega arith)

-- A computation whose only failure is a `ValueError`.
abbrev pub OnlyValueError {ℓ} : {A : Type ℓ} → Parsed A → Type 0
OnlyValueError (parsed a) = Unit
OnlyValueError (failed fault) = fault ≡ value_error

OnlyValueError-bind {ℓ κ} :
    {A : Type ℓ} {B : Type κ} (m : Parsed A) (f : A → Parsed B)
    → OnlyValueError m
    → ((a : A) → m ≡ parsed a → OnlyValueError (f a))
    → OnlyValueError (m >>= f)
OnlyValueError-bind (parsed a) f h k = k a refl
OnlyValueError-bind (failed fault) f h k = h

OnlyValueError-reject : (b : Bool) → OnlyValueError (reject b)
OnlyValueError-reject true = refl
OnlyValueError-reject false = tt

reject-false : (b : Bool) {u : Unit {0}} → reject b ≡ parsed u → b ≡ false
reject-false true h = cc
reject-false false h = refl

OnlyValueError-parsed {ℓ} : {A : Type ℓ} (m : Parsed A) (a : A) → m ≡ parsed a → OnlyValueError m
OnlyValueError-parsed m a e = rw e tt

OnlyValueError-byte : (bytes : List ℕ) (i : ℕ) → i < length bytes → OnlyValueError (byte_at bytes i)
unfolding byte_at
OnlyValueError-byte bytes i h = let (b, e) = get_elem?-inside bytes i h in rw e tt

unpack_u16-inside :
    (bytes : List ℕ) (i : ℕ) → i + 2 ≤ length bytes → (n : ℕ) × (unpack_u16 bytes i ≡ parsed n)
unfolding unpack_u16 field_byte
unpack_u16-inside bytes i h =
    let (low, el) = get_elem?-inside bytes i (omega (arith, h)) in
    let (high, eh) = get_elem?-inside bytes (i + 1) (omega (arith, h)) in
    (low + 256 * high, rw (el, eh) refl)

unpack_u32-inside :
    (bytes : List ℕ) (i : ℕ) → i + 4 ≤ length bytes → (n : ℕ) × (unpack_u32 bytes i ≡ parsed n)
unfolding unpack_u32
unpack_u32-inside bytes i h =
    let (low, el) = unpack_u16-inside bytes i (omega (arith, h)) in
    let (high, eh) = unpack_u16-inside bytes (i + 2) (omega (arith, h)) in
    (low + 65536 * high, rw (el, eh) refl)

OnlyValueError-u16 :
    (bytes : List ℕ) (i : ℕ) → i + 2 ≤ length bytes → OnlyValueError (unpack_u16 bytes i)
OnlyValueError-u16 bytes i h =
    let (n, e) = unpack_u16-inside bytes i h in OnlyValueError-parsed _ n e

OnlyValueError-u32 :
    (bytes : List ℕ) (i : ℕ) → i + 4 ≤ length bytes → OnlyValueError (unpack_u32 bytes i)
OnlyValueError-u32 bytes i h =
    let (n, e) = unpack_u32-inside bytes i h in OnlyValueError-parsed _ n e

OnlyValueError-or {ℓ} : {A : Type ℓ} (o : Option A) → OnlyValueError (or_failed value_error o)
OnlyValueError-or none = refl
OnlyValueError-or (some a) = tt

OnlyValueError-get_string :
    (strings : List Text) (index : ℕ) → OnlyValueError (get_string strings index)
unfolding get_string
OnlyValueError-get_string strings index = elim (Bool-cases (index == no_index)) [
  | inl e ↦ rw e tt
  | inr e ↦ rw e (
      OnlyValueError-bind (or_failed value_error (get_elem? strings index)) _ (OnlyValueError-or _)
        (λ _ _. tt))
]

OnlyValueError-attribute :
    (strings : List Text) (raw kind n : ℕ) → OnlyValueError (attribute_value strings raw kind n)
unfolding attribute_value
OnlyValueError-attribute strings raw kind n = elim (Bool-cases (raw == no_index)) [
  | inr e ↦ rw e (
      OnlyValueError-bind (or_failed value_error (get_elem? strings raw)) _ (OnlyValueError-or _)
        (λ _ _. tt))
  | inl e ↦ elim (Bool-cases (kind == 3)) [
    | inl k ↦ rw (e, k) (OnlyValueError-get_string strings n)
    | inr k ↦ rw (e, k) tt
  ]
]

ltb-false : (a b : ℕ) → ltb a b ≡ false → b ≤ a
ltb-false a b h = ground arith

OnlyValueError-read_attribute :
    (strings : List Text) (chunk : List ℕ) (position : ℕ) (found : Found)
    → OnlyValueError (read_attribute strings chunk position found)
unfolding read_attribute
OnlyValueError-read_attribute strings chunk position found =
    OnlyValueError-bind (reject (ltb (length chunk) (position + 20))) _ (OnlyValueError-reject _)
      (λ _ r.
        let inside : position + 20 ≤ length chunk =
          ltb-false (length chunk) (position + 20) (reject-false _ r) in
        OnlyValueError-bind (unpack_u32 chunk (position + 4)) _
          (OnlyValueError-u32 chunk _ (omega (arith, inside)))
          (λ name _.
            OnlyValueError-bind (unpack_u32 chunk (position + 8)) _
              (OnlyValueError-u32 chunk _ (omega (arith, inside)))
              (λ raw _.
                OnlyValueError-bind (byte_at chunk (position + 15)) _
                  (OnlyValueError-byte chunk _ (omega (arith, inside)))
                  (λ kind _.
                    OnlyValueError-bind (unpack_u32 chunk (position + 16)) _
                      (OnlyValueError-u32 chunk _ (omega (arith, inside)))
                      (λ n _.
                        OnlyValueError-bind (get_string strings name) _
                          (OnlyValueError-get_string strings name)
                          (λ key _.
                            OnlyValueError-bind (attribute_value strings raw kind n) _
                              (OnlyValueError-attribute strings raw kind n) (λ _ _. tt)))))))

OnlyValueError-read_attributes :
    (count : ℕ) (strings : List Text) (chunk : List ℕ) (position size : ℕ) (found : Found)
    → OnlyValueError (read_attributes count strings chunk position size found)
unfolding read_attributes
OnlyValueError-read_attributes zero strings chunk position size found = tt
OnlyValueError-read_attributes (suc count) strings chunk position size found =
    OnlyValueError-bind (read_attribute strings chunk position found) _
      (OnlyValueError-read_attribute strings chunk position found)
      (λ next _. OnlyValueError-read_attributes count strings chunk (position + size) size next)

OnlyValueError-named_package : (found : Found) → OnlyValueError (named_package found)
unfolding named_package
OnlyValueError-named_package (none, split) = refl
OnlyValueError-named_package (some [], split) = refl
OnlyValueError-named_package (some (c ∷ name), split) = tt

OnlyValueError-manifest_element :
    (strings : List Text) (chunk : List ℕ)
    → 36 ≤ length chunk
    → OnlyValueError (manifest_element strings chunk)
unfolding manifest_element
OnlyValueError-manifest_element strings chunk h =
    OnlyValueError-bind (unpack_u16 chunk 24) _ (OnlyValueError-u16 chunk 24 (omega (arith, h)))
      (λ start _.
        OnlyValueError-bind (unpack_u16 chunk 26) _ (OnlyValueError-u16 chunk 26 (omega (arith, h)))
          (λ size _.
            OnlyValueError-bind (unpack_u16 chunk 28) _
              (OnlyValueError-u16 chunk 28 (omega (arith, h)))
              (λ count _.
                OnlyValueError-bind (reject (ltb size 20 || ltb 4096 count)) _
                  (OnlyValueError-reject _)
                  (λ _ _.
                    OnlyValueError-bind
                      (read_attributes count strings chunk (16 + start) size (none, [])) _
                      (OnlyValueError-read_attributes count strings chunk (16 + start) size
                        (none, []))
                      (λ found _. OnlyValueError-named_package found)))))

-- Whatever the bytes of a start element and the strings of the pool are, reading it never leaves the
-- chunk: its only failure is a `ValueError`, which `Archive._open` reports as a `SourceError`.
pub start_element-OnlyValueError :
    (strings : List Text) (header_size : ℕ) (chunk : List ℕ)
    → OnlyValueError (start_element strings header_size chunk)
unfolding start_element
start_element-OnlyValueError strings header_size chunk =
    OnlyValueError-bind (reject (ltb header_size 16 || ltb (length chunk) 36)) _
      (OnlyValueError-reject _)
      (λ _ r.
        let long : 36 ≤ length chunk =
          or_long (ltb header_size 16) (length chunk) (reject-false _ r) in
        OnlyValueError-bind (unpack_u32 chunk 20) _
          (OnlyValueError-u32 chunk 20 (omega (arith, long)))
          (λ index _.
            OnlyValueError-bind (get_string strings index) _
              (OnlyValueError-get_string strings index) (λ name _. branch name long)))
  where
    or_long : (b : Bool) (n : ℕ) → (b || ltb n 36) ≡ false → 36 ≤ n
    or_long b n h = ground arith

    branch :
        (name : Option Text)
        → 36 ≤ length chunk
        → OnlyValueError (
            if equals_name name (codes "manifest")
            then manifest_element strings chunk
            else parsed none)
    branch name long = elim (Bool-cases (equals_name name (codes "manifest"))) [
      | inl e ↦ rw e (OnlyValueError-manifest_element strings chunk long)
      | inr e ↦ rw e tt
    ]

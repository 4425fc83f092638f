-- ===== src/Candidates/Hex.antt =====
-- The hexadecimal texts of a recipe.
use chrono_nextos.Prelude.{
  ℕ, suc, ◌+◌, ◌*◌, ◌-◌, ◌/◌, ◌%◌, ◌^◌, ◌<◌, ◌≡◌, refl, ap, ◌∙◌, Bool, true, ◌&&◌, some, List, [],
  ◌∷◌, arith, All, leb, length, all, ◌==◌, if◌then◌else◌, Bool-cases, inl, inr,
}
use chrono_nextos.Prelude.Text.{Text}
use chrono_nextos.Fault.{ok, err, recipe_error, >>=-eq-ok, ok-injective}
use chrono_nextos.Json.{Value, is_null, is_lower_hex, is_hex_text, entry, end}
use chrono_nextos.Candidates.{
  hex_digit, is_hex, lower, lower_char, hash_text, hash_texts, normalize_hash_list, crc_value,
  crc_values, normalize_crc_list, from_hex, values_of, parse_magic,
}

-- The digit of a number below sixteen, and a byte in two of them.
abbrev pub to_digit : ℕ → ℕ
to_digit n = if leb 10 n then n - 10 + b'a' else n + b'0'

abbrev pub to_hex : List ℕ → Text
to_hex [] = []
to_hex (b ∷ bytes) = to_digit (b / 16) ∷ to_digit (b % 16) ∷ to_hex bytes

hex_digit-to_digit : (n : ℕ) → n < 16 → hex_digit (to_digit n) ≡ some n
hex_digit-to_digit n h = ground arith

from_hex-pair :
    (c d : ℕ) (s : Text) {high low : ℕ} {bytes : List ℕ}
    → hex_digit c ≡ some high
    → hex_digit d ≡ some low
    → from_hex s ≡ some bytes
    → from_hex (c ∷ d ∷ s) ≡ some ((high * 16 + low) ∷ bytes)
unfolding from_hex
from_hex-pair c d s hc hd hs = rw (from_hex, hc, hd, hs) refl

from_hex-to_hex : (bytes : List ℕ) → All (λ b. b < 256) bytes → from_hex (to_hex bytes) ≡ some bytes
unfolding from_hex
from_hex-to_hex [] h = refl
from_hex-to_hex (b ∷ bytes) h =
    let value : (b / 16) * 16 + b % 16 ≡ b = omega arith in
    from_hex-pair (to_digit (b / 16)) (to_digit (b % 16)) (to_hex bytes)
      (hex_digit-to_digit (b / 16) (omega (arith, h.0))) (hex_digit-to_digit (b % 16) (omega arith))
      (from_hex-to_hex bytes h.1)
    ∙ ap (λ x. some (x ∷ bytes)) value

-- The magic of a specification that holds any bytes as hexadecimal text is these bytes.
pub parse_magic-to_hex :
    (bytes : List ℕ)
    → All (λ b. b < 256) bytes
    → parse_magic (entry "magic_hex" (Value.str (to_hex bytes)) end) ≡ ok (some bytes)
unfolding parse_magic
parse_magic-to_hex bytes h = rw (from_hex-to_hex bytes h) refl

is_lower_hex-lower_char : (c : ℕ) → is_hex c ≡ true → is_lower_hex (lower_char c) ≡ true
is_lower_hex-lower_char c h = ground arith

all-lower : (s : Text) → all is_hex s ≡ true → all is_lower_hex (lower s) ≡ true
all-lower [] h = refl
all-lower (c ∷ s) h = ground (arith, is_lower_hex-lower_char c, all-lower s)

length-lower : (s : Text) → length (lower s) ≡ length s
length-lower [] = refl
length-lower (c ∷ s) = ap suc (length-lower s)

-- A SHA-256 digest as the program compares it.
abbrev pub IsDigest : Text → Type 0
IsDigest s = is_hex_text 64 s ≡ true

hash_text-IsDigest : (value : Value) {hash : Text} → hash_text value ≡ ok hash → IsDigest hash
unfolding is_hex_text
hash_text-IsDigest (Value.str s) {hash} h = elim (Bool-cases ((length s == 64) && all is_hex s)) [
  | inl e ↦
      let same : lower s ≡ hash = ok-injective (rw e at h) in
      rw (← same)
        (both (length s == 64) (all is_hex s) e ((λ x. rw (length-lower s) x), all-lower s))
  | inr e ↦ let no_way : err recipe_error ≡ ok hash = rw e at h in cc
]
  where
    both :
        (a b : Bool)
        → (a && b) ≡ true
        → (a ≡ true → (length (lower s) == 64) ≡ true)
          × (b ≡ true → all is_lower_hex (lower s) ≡ true)
        → ((length (lower s) == 64) && all is_lower_hex (lower s)) ≡ true
    both a b e (ha, hb) = ground arith
hash_text-IsDigest Value.null h = cc
hash_text-IsDigest (Value.bool b) h = cc
hash_text-IsDigest (Value.num n) h = cc
hash_text-IsDigest (Value.negative n) h = cc
hash_text-IsDigest (Value.arr a) h = cc
hash_text-IsDigest (Value.obj o) h = cc

hash_texts-IsDigest :
    (values : List Value) {hashes : List Text} → hash_texts values ≡ ok hashes → All IsDigest hashes
hash_texts-IsDigest [] {hashes} h = let e : [] ≡ hashes = cc in rw (← e) tt
hash_texts-IsDigest (value ∷ values) {hashes} h =
    let (hash, first, h1) = >>=-eq-ok (hash_text value) _ h in
    let (rest, more, h2) = >>=-eq-ok (hash_texts values) _ h1 in
    let e : hash ∷ rest ≡ hashes = ok-injective h2 in
    rw (← e) (hash_text-IsDigest value first, hash_texts-IsDigest values more)

-- Every digest that a specification is read as has 64 lower-case hexadecimal digits, as the digests
-- that it is compared with have.
pub normalize_hash_list-IsDigest :
    (value : Value) {hashes : List Text}
    → normalize_hash_list value ≡ ok hashes
    → All IsDigest hashes
unfolding normalize_hash_list
normalize_hash_list-IsDigest value {hashes} h = elim (Bool-cases (is_null value)) [
  | inl e ↦ let same : [] ≡ hashes = ok-injective (rw e at h) in rw (← same) tt
  | inr e ↦ hash_texts-IsDigest (values_of value) (rw e at h)
]

crc_value_bound : (value : Value) {n : ℕ} → crc_value value ≡ ok n → n < 2 ^ 32
crc_value_bound value h = ground arith

crc_values_bound :
    (values : List Value) {crcs : List ℕ} → crc_values values ≡ ok crcs → All (λ n. n < 2 ^ 32) crcs
crc_values_bound [] {crcs} h = let e : [] ≡ crcs = cc in rw (← e) tt
crc_values_bound (value ∷ values) {crcs} h =
    let (crc, first, h1) = >>=-eq-ok (crc_value value) _ h in
    let (rest, more, h2) = >>=-eq-ok (crc_values values) _ h1 in
    let e : crc ∷ rest ≡ crcs = ok-injective h2 in
    rw (← e) (crc_value_bound value first, crc_values_bound values more)

-- Every CRC-32 that a specification is read as is a number of 32 bits.
pub normalize_crc_list_bound :
    (value : Value) {crcs : List ℕ}
    → normalize_crc_list value ≡ ok crcs
    → All (λ n. n < 2 ^ 32) crcs
unfolding normalize_crc_list
normalize_crc_list_bound value {crcs} h = elim (Bool-cases (is_null value)) [
  | inl e ↦ let same : [] ≡ crcs = ok-injective (rw e at h) in rw (← same) tt
  | inr e ↦ crc_values_bound (values_of value) (rw e at h)
]

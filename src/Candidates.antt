-- ===== src/Candidates.antt =====
-- The fields of a specification of a file in nxextract/nxextract.py: the lists of CRC-32 and SHA-256
-- digests and the magic. A recipe's validation has made every number a natural one.
pub mod Hex
pub mod Checks
pub mod Same
use chrono_nextos.Prelude.{
  ℕ, zero, suc, String, ◌+◌, ◌*◌, ◌-◌, ◌%◌, Bool, true, false, not, ◌&&◌, ◌||◌, Option, none, some,
  List, [], ◌∷◌, take, drop, get_elem?, ltb, leb, length, any, all, ◌==◌, if◌then◌else◌,
}
use chrono_nextos.Prelude.Text.{Text, text_eq, codes}
use chrono_nextos.Fault.{Fault, Result, ok, err, recipe_error, other, refuse, ◌>>=◌, ◌>>◌}
use chrono_nextos.Json.{
  Value, null, num, Fields, get, has_key, as_text, as_list, is_null, equals_number,
}

-- Texts of the recipe -------------------------------------------------------------------------

-- `str.lower` on ASCII.
abbrev pub lower_char : ℕ → ℕ
lower_char c = if leb b'A' c && leb c b'Z' then c + 32 else c

abbrev pub lower : Text → Text
lower [] = []
lower (c ∷ s) = lower_char c ∷ lower s

-- `[0-9a-fA-F]`, and the digit's value.
abbrev pub hex_digit : ℕ → Option ℕ
hex_digit c =
    if leb b'0' c && leb c b'9'
    then some (c - b'0')
    else if leb b'a' c && leb c b'f'
    then some (c - b'a' + 10)
    else if leb b'A' c && leb c b'F'
    then some (c - b'A' + 10)
    else none

abbrev pub is_hex : ℕ → Bool
is_hex c = elim (hex_digit c) [ none ↦ false | some digit ↦ true ]

-- `value if isinstance(value, list) else [value]`
abbrev pub values_of : Value → List Value
values_of value = elim (as_list value) [ none ↦ value ∷ [] | some values ↦ values ]

abbrev pub hash_text : Value → Result Text
hash_text value = elim (as_text value) [
  | none ↦ err recipe_error
  | some s ↦ if (length s == 64) && all is_hex s then ok (lower s) else err recipe_error
]

abbrev pub hash_texts : List Value → Result (List Text)
hash_texts [] = ok []
hash_texts (value ∷ values) = do hash ← hash_text value; rest ← hash_texts values; ok (hash ∷ rest)

unfoldable pub normalize_hash_list : Value → Result (List Text)
normalize_hash_list value = if is_null value then ok [] else hash_texts (values_of value)

-- `int(item, 16)`
abbrev pub hex_number : ℕ → Text → Option ℕ
hex_number n [] = some n
hex_number n (c ∷ s) = elim (hex_digit c) [
  | none ↦ none
  | some digit ↦ hex_number (n * 16 + digit) s
]

abbrev pub hex_text_number : Text → Option ℕ
hex_text_number s = if leb 1 (length s) && leb (length s) 8 then hex_number 0 s else none

-- An item as a number, where it is one; Python's Booleans are integers.
abbrev pub crc_number : Value → Option ℕ
crc_number (Value.num n) = some n
crc_number (Value.bool true) = some 1
crc_number (Value.bool false) = some 0
crc_number (Value.str s) = hex_text_number s
crc_number _ = none

-- Negative numbers are out of range.
abbrev pub crc_value : Value → Result ℕ
crc_value value = elim (crc_number value) [
  | none ↦ err recipe_error
  | some n ↦ if leb n 4294967295 then ok n else err recipe_error
]

abbrev pub crc_values : List Value → Result (List ℕ)
crc_values [] = ok []
crc_values (value ∷ values) = do crc ← crc_value value; rest ← crc_values values; ok (crc ∷ rest)

unfoldable pub normalize_crc_list : Value → Result (List ℕ)
normalize_crc_list value = if is_null value then ok [] else crc_values (values_of value)

-- `bytes.fromhex` of an even number of digits.
unfoldable pub from_hex : Text → Option (List ℕ)
from_hex [] = some []
from_hex (c ∷ []) = none
from_hex (c ∷ d ∷ s) = elim (hex_digit c) [
  | none ↦ none
  | some high ↦ elim (hex_digit d) [
    | none ↦ none
    | some low ↦ elim (from_hex s) [ none ↦ none | some bytes ↦ some ((high * 16 + low) ∷ bytes) ]
  ]
]

abbrev pub or_recipe_error {ℓ} : {A : Type ℓ} → Option A → Result A
or_recipe_error none = err recipe_error
or_recipe_error (some a) = ok a

abbrev pub hex_magic : Value → Result (List ℕ)
hex_magic value = elim (as_text value) [
  | none ↦ err recipe_error
  | some s ↦ or_recipe_error (from_hex s)
]

abbrev pub ascii_magic : Value → Result (List ℕ)
ascii_magic value = elim (as_text value) [
  | none ↦ err recipe_error
  | some s ↦ if all (λ c. ltb c 128) s then ok s else err recipe_error
]

unfoldable pub parse_magic : Fields → Result (Option (List ℕ))
unfolding from_hex
parse_magic spec = do
  refuse (has_key "magic_hex" spec && has_key "magic_ascii" spec) recipe_error
  if has_key "magic_hex" spec
      then (hex_magic (get "magic_hex" spec) >>= λ magic. ok (some magic))
      else if has_key "magic_ascii" spec
      then (ascii_magic (get "magic_ascii" spec) >>= λ magic. ok (some magic))
      else ok none

-- ===== src/Json.antt =====
-- JSON values as Python's `json` gives them, for the documents that nxextract/nxextract.py reads
-- and writes. Numbers are integers: no document of the extractor holds a fraction but the delays
-- of the user interface, which are not modelled.
use text.Mathlib.Text.{◌==◌ as string_eq}
use chrono_nextos.Prelude.{
  ℕ, String, Bool, true, false, ◌&&◌, ◌||◌, Option, none, some, List, [], ◌∷◌, ◌==◌, leb, all,
  length, if◌then◌else◌,
}
use chrono_nextos.Prelude.Text.{Text, text_eq}
use chrono_nextos.Fault.{Result, ok, err, recipe_error}

mutual
  pub data Value : Type 0 where
    null : Value
    bool : Bool → Value
    num : ℕ → Value
    -- -(n + 1)
    negative : ℕ → Value
    str : Text → Value
    arr : Items → Value
    obj : Fields → Value

  pub data Items : Type 0 where
    nil : Items
    cons : Value → Items → Items

  pub data Fields : Type 0 where
    end : Fields
    entry : String → Value → Fields → Fields

-- `d.get(key)`: `None`, JSON's null, where the key is missing.
abbrev pub get : String → Fields → Value
get key end = null
get key (entry k v rest) = if string_eq key k then v else get key rest

abbrev pub has_key : String → Fields → Bool
has_key key end = false
has_key key (entry k v rest) = string_eq key k || has_key key rest

-- `result[key] = value` for a new key: a dict keeps the order of insertion.
abbrev pub insert_last : String → Value → Fields → Fields
insert_last key value end = entry key value end
insert_last key value (entry k v rest) = entry k v (insert_last key value rest)

-- `_json_no_duplicates`, on the pairs in the order of the document.
unfoldable pub no_duplicates_loop : Fields → Fields → Result Fields
no_duplicates_loop result end = ok result
no_duplicates_loop result (entry key value pairs) = elim (has_key key result) [
  | true ↦ err recipe_error
  | false ↦ no_duplicates_loop (insert_last key value result) pairs
]

unfoldable pub json_no_duplicates : Fields → Result Fields
unfolding no_duplicates_loop
json_no_duplicates pairs = no_duplicates_loop end pairs

-- `isinstance(value, dict)`, with the dict.
abbrev pub as_object : Value → Option Fields
as_object (obj fields) = some fields
as_object _ = none

-- `isinstance(value, str)`, with the text.
abbrev pub as_text : Value → Option Text
as_text (str s) = some s
as_text _ = none

abbrev pub as_bool : Value → Option Bool
as_bool (bool b) = some b
as_bool _ = none

abbrev pub items : Items → List Value
items nil = []
items (cons v rest) = v ∷ items rest

abbrev pub as_list : Value → Option (List Value)
as_list (arr xs) = some (items xs)
as_list _ = none

abbrev pub is_null : Value → Bool
is_null null = true
is_null _ = false

-- `value == s` for a text, and `value == n` for a number: in Python `True == 1`.
abbrev pub equals_text : Value → Text → Bool
equals_text (str s) t = text_eq s t
equals_text _ t = false

abbrev pub equals_number : Value → ℕ → Bool
equals_number (num m) n = m == n
equals_number (bool true) n = 1 == n
equals_number (bool false) n = 0 == n
equals_number _ n = false

abbrev pub list_value : List Value → Items
list_value [] = nil
list_value (v ∷ vs) = cons v (list_value vs)

-- `[0-9a-f]{n}`
abbrev pub is_lower_hex : ℕ → Bool
is_lower_hex c = (leb b'0' c && leb c b'9') || (leb b'a' c && leb c b'f')

unfoldable pub is_hex_text : ℕ → Text → Bool
is_hex_text n s = (length s == n) && all is_lower_hex s

-- `[A-Za-z0-9._-]`
abbrev pub is_safe_char : ℕ → Bool
is_safe_char c =
    (leb b'0' c && leb c b'9')
    || (leb b'A' c && leb c b'Z')
    || (leb b'a' c && leb c b'z')
    || (c == b'.')
    || (c == b'_')
    || (c == b'-')

-- `re.fullmatch(r"[A-Za-z0-9._-]{1,64}", s)`
unfoldable pub is_abi_text : Text → Bool
is_abi_text s = leb 1 (length s) && leb (length s) 64 && all is_safe_char s

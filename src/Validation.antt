-- ===== src/Validation.antt =====
-- The validation of a recipe, `Recipe._validate` of nxextract/nxextract.py: the texts that the recipe's
-- patterns accept, and the readings of JSON values that its parts share.
pub mod Input
pub mod Rule
pub mod Hooks
pub mod Document
pub mod Errors
pub mod Distinct
pub mod Accepted
use chrono_nextos.Prelude.{
  ℕ, zero, suc, String, ◌+◌, ◌*◌, ◌/◌, ◌%◌, ◌-◌, ◌≡◌, refl, Bool, true, false, not, ◌&&◌, ◌||◌,
  Option, none, some, List, [], ◌∷◌, ◌++◌, reverse, ltb, leb, ◌==◌, length, any, all, if◌then◌else◌,
}
use chrono_nextos.Prelude.Text.{Text, text_eq, codes, split, starts_with}
use chrono_nextos.Fault.{Result, ok, err, recipe_error, refuse, ◌>>=◌, ◌>>◌}
use chrono_nextos.Json.{
  Value, null, bool, num, negative, str, arr, obj, Items, nil, cons, Fields, end, get, has_key,
  as_object, as_text, as_bool, as_list, is_safe_char,
}
use chrono_nextos.Paths.{validate_relative_path}

-- Patterns --------------------------------------------------------------------------------------

-- `[A-Za-z0-9]`
abbrev pub is_alphanumeric : ℕ → Bool
is_alphanumeric c =
    (leb b'0' c && leb c b'9') || (leb b'A' c && leb c b'Z') || (leb b'a' c && leb c b'z')

-- `[A-Za-z0-9][A-Za-z0-9._-]{0,63}`
unfoldable pub is_identifier : Text → Bool
is_identifier [] = false
is_identifier (c ∷ s) = is_alphanumeric c && leb (length s) 63 && all is_safe_char s

-- `\.[A-Za-z0-9][A-Za-z0-9._+-]{0,31}`
unfoldable pub is_extension : Text → Bool
is_extension [] = false
is_extension (c ∷ []) = false
is_extension (c ∷ d ∷ s) =
    (c == b'.')
    && is_alphanumeric d
    && leb (length s) 31
    && all (λ e. is_safe_char e || (e == b'+')) s

-- `[A-Za-z0-9_]+(?:\.[A-Za-z0-9_]+)+`: at least two parts between dots.
abbrev pub is_word : Text → Bool
is_word part = leb 1 (length part) && all (λ c. is_alphanumeric c || (c == b'_')) part

unfoldable pub is_package_name : Text → Bool
is_package_name s =
    leb (length s) 255 && leb 2 (length (split b'.' s)) && all is_word (split b'.' s)

-- `[A-Za-z0-9._-]{1,255}`
unfoldable pub is_split_name : Text → Bool
is_split_name s = leb 1 (length s) && leb (length s) 255 && all is_safe_char s

-- `[A-Za-z_][A-Za-z0-9_]*`
unfoldable pub is_variable_name : Text → Bool
is_variable_name [] = false
is_variable_name (c ∷ s) =
    (is_alphanumeric c || (c == b'_'))
    && not (leb b'0' c && leb c b'9')
    && all (λ d. is_alphanumeric d || (d == b'_')) s

-- `str.isspace` of one character.
abbrev pub is_blank : ℕ → Bool
is_blank c =
    (leb 9 c && leb c 13)
    || (leb 28 c && leb c 32)
    || any (λ d. c == d) (133 ∷ 160 ∷ 5760 ∷ [])
    || (leb 8192 c && leb c 8202)
    || any (λ d. c == d) (8232 ∷ 8233 ∷ 8239 ∷ 8287 ∷ 12288 ∷ [])

-- Numbers as texts -------------------------------------------------------------------------------

-- `str(n)`: the digits before `later`, on as much fuel as there may be digits.
decimal_digits : ℕ → ℕ → Text → Text
decimal_digits zero n later = later
decimal_digits (suc fuel) n later = elim (ltb n 10) [
  | true ↦ (b'0' + n) ∷ later
  | false ↦ decimal_digits fuel (n / 10) ((b'0' + n % 10) ∷ later)
]

unfoldable pub decimal : ℕ → Text
unfolding decimal_digits
decimal n = decimal_digits (suc n) n []

-- `str(v)` of a text or of an integer that is no Boolean.
abbrev pub as_printed : Value → Option Text
as_printed (str s) = some s
as_printed (num n) = some (decimal n)
as_printed (negative n) = some (b'-' ∷ decimal (suc n))
as_printed _ = none

abbrev pub strip_left : Text → Text
strip_left [] = []
strip_left (c ∷ s) = if is_blank c then strip_left s else c ∷ s

-- `s.strip()`
abbrev pub strip : Text → Text
strip s = reverse (strip_left (reverse (strip_left s)))

-- The digits of `int(s, 8)`: a single underscore may stand between two digits.
abbrev pub octal_digits : ℕ → Bool → Text → Option ℕ
octal_digits n after_digit [] = if after_digit then some n else none
octal_digits n after_digit (c ∷ s) =
    let between = octal_digits n false s in
    let more = octal_digits (n * 8 + (c - b'0')) true s in
    if leb b'0' c && leb c b'7' then more else if (c == b'_') && after_digit then between else none

-- `0o` and one underscore may lead the digits.
abbrev pub skip_underscore : Text → Text
skip_underscore [] = []
skip_underscore (c ∷ s) = if c == b'_' then s else c ∷ s

abbrev pub unmarked : Text → Text
unmarked (c ∷ d ∷ s) =
    if (c == b'0') && ((d == b'o') || (d == b'O')) then skip_underscore s else c ∷ d ∷ s
unmarked s = s

abbrev pub unsigned_octal : Text → Option ℕ
unsigned_octal s = octal_digits 0 false (unmarked s)

-- Whether `int(s, 8)` is a number from 0 to 0o777; digits outside ASCII are not read.
abbrev pub in_range : Bool → Option ℕ → Bool
in_range minus none = false
in_range minus (some n) = leb n (if minus then 0 else 511)

abbrev pub signed_mode : Text → Bool
signed_mode [] = false
signed_mode (c ∷ s) =
    if c == b'-'
    then in_range true (unsigned_octal s)
    else if c == b'+'
    then in_range false (unsigned_octal s)
    else in_range false (unsigned_octal (c ∷ s))

unfoldable pub is_mode : Text → Bool
is_mode s = signed_mode (strip s)

-- Readings of values ---------------------------------------------------------------------------

-- `fields.get(key, default)`
abbrev pub get_or : String → Value → Fields → Value
get_or key default fields = if has_key key fields then get key fields else default

-- Python's truth of a value.
abbrev pub truthy : Value → Bool
truthy null = false
truthy (bool b) = b
truthy (num n) = not (n == 0)
truthy (negative n) = true
truthy (str s) = not (text_eq s [])
truthy (arr nil) = false
truthy (arr (cons v vs)) = true
truthy (obj end) = false
truthy (obj (Fields.entry k v vs)) = true

-- A value that is no text, object or list is refused with the recipe's error.
abbrev pub the {ℓ} : {A : Type ℓ} → Option A → Result A
the none = err recipe_error
the (some a) = ok a

-- `not isinstance(v, str) or not p(v)` refused, with the text.
abbrev pub text_where : (Text → Bool) → Value → Result Text
text_where accepts value =
    the (as_text value) >>= λ s. refuse (not (accepts s)) recipe_error >>= λ _. ok s

-- `isinstance(v, list) and v` demanded, with the list.
abbrev pub some_list : Value → Result (List Value)
some_list value =
    the (as_list value) >>= λ vs. refuse (leb (length vs) 0) recipe_error >>= λ _. ok vs

-- `key in fields and not isinstance(fields[key], bool)` refused.
abbrev pub boolean_if_there : String → Fields → Result (Unit {0})
boolean_if_there key fields =
    if has_key key fields then (the (as_bool (get key fields)) >>= λ _. ok tt) else ok tt

-- `validate_relative_path` of any value.
abbrev pub relative_path : Value → Result Text
relative_path value = the (as_text value) >>= λ s. validate_relative_path s false

-- Texts that a pattern accepts and whose keys are all new, with the texts.
unfoldable pub distinct_texts :
    (Text → Bool) → (Text → Text) → List Text → List Value → Result (List Text)
distinct_texts accepts key_of seen [] = ok []
distinct_texts accepts key_of seen (value ∷ values) = text_where accepts value >>= λ s.
    refuse (any (text_eq (key_of s)) seen) recipe_error >>= λ _.
    distinct_texts accepts key_of (key_of s ∷ seen) values >>= λ rest. ok (s ∷ rest)

decimal_runs : decimal 30072 ≡ codes "30072"
unfolding decimal
decimal_runs = refl

mode_runs :
    (is_mode (codes " 0o755") ≡ true)
    × (is_mode (codes "6_44") ≡ true)
    × (is_mode (codes "1000") ≡ false)
    × (is_mode (codes "-1") ≡ false)
    × (is_mode (codes "8") ≡ false)
unfolding is_mode
mode_runs = (refl, refl, refl, refl, refl)

package_runs :
    (is_package_name (codes "org.next_os.g1") ≡ true)
    × (is_package_name (codes "game") ≡ false)
    × (is_package_name (codes "a..b") ≡ false)
unfolding is_package_name split
package_runs = (refl, refl, refl)

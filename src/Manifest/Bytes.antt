-- ===== src/Manifest/Bytes.antt =====
-- Bytes of nxextract/nxextract.py's manifest reader: `struct.unpack_from`, the lengths of strings, and
-- the strict decoders of UTF-8 and UTF-16.
use chrono_nextos.Prelude.{
  ℕ, zero, suc, ◌+◌, ◌-◌, ◌*◌, ◌/◌, ◌%◌, ◌≡◌, refl, Bool, true, false, ◌&&◌, ◌||◌, Option, none,
  some, List, [], ◌∷◌, take, drop, get_elem?, ltb, leb, ◌==◌, if◌then◌else◌,
}
use chrono_nextos.Prelude.Text.{Text, codes}

-- What the reader raises: a `ValueError` (a decoding error is one), an `IndexError` of `data[i]`, or
-- a `struct.error`, which are no `ValueError`.
pub data ParseFault : Type 0 where
  value_error index_error struct_error : ParseFault

pub data Parsed {ℓ} (A : Type ℓ) : Type ℓ where
  parsed : A → Parsed A
  failed : ParseFault → Parsed A

infixl 5 ◌>>=◌ ◌>>◌
abbrev pub ◌>>=◌ {ℓ κ} : {S : Type ℓ} {T : Type κ} → Parsed S → (S → Parsed T) → Parsed T
parsed found >>= later = later found
failed fault >>= later = failed fault

abbrev pub ◌>>◌ {ℓ} : {T : Type ℓ} → Parsed (Unit {0}) → Parsed T → Parsed T
check >> later = check >>= λ _. later

-- `if test: raise ValueError`
abbrev pub reject : Bool → Parsed (Unit {0})
reject true = failed value_error
reject false = parsed tt

abbrev pub or_failed {ℓ} : {A : Type ℓ} → ParseFault → Option A → Parsed A
or_failed fault none = failed fault
or_failed fault (some a) = parsed a

-- `data[offset]`
unfoldable pub byte_at : List ℕ → ℕ → Parsed ℕ
byte_at bytes offset = or_failed index_error (get_elem? bytes offset)

-- One byte of a `struct` field.
unfoldable pub field_byte : List ℕ → ℕ → Parsed ℕ
field_byte bytes offset = or_failed struct_error (get_elem? bytes offset)

-- "<H" and "<I"
unfoldable pub unpack_u16 : List ℕ → ℕ → Parsed ℕ
unfolding field_byte
unpack_u16 bytes offset = field_byte bytes offset >>= λ low.
    field_byte bytes (offset + 1) >>= λ high. parsed (low + 256 * high)

unfoldable pub unpack_u32 : List ℕ → ℕ → Parsed ℕ
unfolding unpack_u16
unpack_u32 bytes offset = unpack_u16 bytes offset >>= λ low.
    unpack_u16 bytes (offset + 2) >>= λ high. parsed (low + 65536 * high)

-- `data[start:end]`
abbrev pub slice : ℕ → ℕ → List ℕ → List ℕ
slice start end_ bytes = take (end_ - start) (drop start bytes)

-- `_decode_length8`: for a byte, `first & 0x80` is set from 128 on, `first & 0x7F` is the remainder by
-- 128, and `| second` adds a byte to a multiple of 256.
unfoldable pub decode_length8 : List ℕ → ℕ → Parsed (ℕ × ℕ)
unfolding byte_at
decode_length8 bytes offset = byte_at bytes offset >>= λ first.
    if leb 128 first
    then (byte_at bytes (offset + 1) >>= λ second.
        parsed ((first % 128) * 256 + second, offset + 2))
    else parsed (first, offset + 1)

-- `_decode_length16`
unfoldable pub decode_length16 : List ℕ → ℕ → Parsed (ℕ × ℕ)
unfolding unpack_u16
decode_length16 bytes offset = unpack_u16 bytes offset >>= λ first.
    if leb 32768 first
    then (unpack_u16 bytes (offset + 2) >>= λ second.
        parsed ((first % 32768) * 65536 + second, offset + 4))
    else parsed (first, offset + 2)

abbrev cons_text : ℕ → Option Text → Option Text
cons_text c none = none
cons_text c (some s) = some (c ∷ s)

-- A code point of several bytes is not shorter than it needs to be, no surrogate, and in range.
abbrev is_scalar : ℕ → ℕ → Bool
is_scalar least c = leb least c && (ltb c 0xD800 || leb 0xE000 c) && ltb c 0x110000

-- `decode("utf-8", "strict")`: `need` more bytes, the bits so far, the least value of this length.
unfoldable pub utf8_loop : List ℕ → ℕ → ℕ → ℕ → Option Text
utf8_loop [] zero bits least = some []
utf8_loop [] (suc need) bits least = none
utf8_loop (b ∷ bytes) zero bits least = elim (ltb b 0x80) [
  | true ↦ cons_text b (utf8_loop bytes 0 0 0)
  | false ↦ elim (leb 0xC2 b && ltb b 0xE0) [
    | true ↦ utf8_loop bytes 1 (b % 32) 0x80
    | false ↦ elim (leb 0xE0 b && ltb b 0xF0) [
      | true ↦ utf8_loop bytes 2 (b % 16) 0x800
      | false ↦ elim (leb 0xF0 b && ltb b 0xF5) [
        | true ↦ utf8_loop bytes 3 (b % 8) 0x10000
        | false ↦ none
      ]
    ]
  ]
]
utf8_loop (b ∷ bytes) (suc need) bits least = elim (leb 0x80 b && ltb b 0xC0) [
  | false ↦ none
  | true ↦ elim (need == 0) [
    | false ↦ utf8_loop bytes need (bits * 64 + b % 64) least
    | true ↦ elim (is_scalar least (bits * 64 + b % 64)) [
      | true ↦ cons_text (bits * 64 + b % 64) (utf8_loop bytes 0 0 0)
      | false ↦ none
    ]
  ]
]

unfoldable pub decode_utf8 : List ℕ → Parsed Text
unfolding utf8_loop
decode_utf8 bytes = or_failed value_error (utf8_loop bytes 0 0 0)

-- `decode("utf-16le", "strict")`: a high surrogate that waits for its low one.
unfoldable pub utf16_loop : List ℕ → Option ℕ → Option Text
utf16_loop [] none = some []
utf16_loop [] (some high) = none
utf16_loop (b ∷ []) pending = none
utf16_loop (low ∷ high ∷ bytes) none =
    elim (ltb (low + 256 * high) 0xD800 || leb 0xE000 (low + 256 * high)) [
      | true ↦ cons_text (low + 256 * high) (utf16_loop bytes none)
      | false ↦ elim (ltb (low + 256 * high) 0xDC00) [
        | true ↦ utf16_loop bytes (some (low + 256 * high - 0xD800))
        | false ↦ none
      ]
    ]
utf16_loop (low ∷ high ∷ bytes) (some first) =
    elim (leb 0xDC00 (low + 256 * high) && ltb (low + 256 * high) 0xE000) [
      | true ↦
          cons_text (0x10000 + first * 1024 + (low + 256 * high - 0xDC00)) (utf16_loop bytes none)
      | false ↦ none
    ]

unfoldable pub decode_utf16 : List ℕ → Parsed Text
unfolding utf16_loop
decode_utf16 bytes = or_failed value_error (utf16_loop bytes none)

-- `str(n)`, of a number with at most `fuel` digits.
decimal_loop : ℕ → ℕ → Text → Text
decimal_loop zero n digits = digits
decimal_loop (suc fuel) n digits =
    let more = decimal_loop fuel (n / 10) ((b'0' + n % 10) ∷ digits) in
    if ltb n 10 then (b'0' + n) ∷ digits else more

-- A number of 32 bits has at most ten digits.
unfoldable pub decimal_u32 : ℕ → Text
unfolding decimal_loop
decimal_u32 n = decimal_loop 10 n []

euro_runs : decode_utf8 (0x61 ∷ 0xE2 ∷ 0x82 ∷ 0xAC ∷ []) ≡ parsed (0x61 ∷ 0x20AC ∷ [])
unfolding decode_utf8
euro_runs = refl

pair_runs : decode_utf16 (0x3D ∷ 0xD8 ∷ 0x00 ∷ 0xDE ∷ []) ≡ parsed (0x1F600 ∷ [])
unfolding decode_utf16
pair_runs = refl

decimal_runs : decimal_u32 4294967295 ≡ codes "4294967295"
unfolding decimal_u32
decimal_runs = refl

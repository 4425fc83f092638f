-- ===== src/Manifest.antt =====
-- `AndroidStringPool` and `parse_android_manifest` of nxextract/nxextract.py: the package and the
-- split that a binary Android manifest names. A manifest in plain XML is read by the standard
-- library's parser, of which `plain_manifest` gives the two attributes of the root.
pub mod Bytes
pub mod Bounds
pub mod Lengths
pub mod Ends
use chrono_nextos.Prelude.{
  ℕ, zero, suc, ◌+◌, ◌-◌, ◌*◌, ◌/◌, ◌%◌, Bool, true, false, not, ◌&&◌, ◌||◌, Option, none, some,
  List, [], ◌∷◌, get_elem?, ltb, leb, length, any, ◌==◌, if◌then◌else◌,
}
use chrono_nextos.Prelude.Text.{Text, text_eq, codes}
use chrono_nextos.Manifest.Bytes.{
  ParseFault, value_error, Parsed, parsed, failed, ◌>>=◌, ◌>>◌, reject, or_failed, byte_at,
  unpack_u16, unpack_u32, slice, decode_length8, decode_length16, decode_utf8, decode_utf16,
  decimal_u32,
}

-- 0xFFFFFFFF: no string.
abbrev pub no_index : ℕ
no_index = 4294967295

-- The string pool -----------------------------------------------------------------------------

unfoldable pub utf8_string : List ℕ → ℕ → ℕ → Parsed Text
utf8_string chunk chunk_size position = do
  (_, length_at) ← decode_length8 chunk position
  (byte_length, start) ← decode_length8 chunk length_at
  reject (ltb chunk_size (start + byte_length))
  decode_utf8 (slice start (start + byte_length) chunk)

unfoldable pub utf16_string : List ℕ → ℕ → ℕ → Parsed Text
utf16_string chunk chunk_size position = do
  (char_length, start) ← decode_length16 chunk position
  reject (ltb chunk_size (start + char_length * 2))
  decode_utf16 (slice start (start + char_length * 2) chunk)

-- The loop over the offsets.
unfoldable pub pool_strings : Bool → List ℕ → ℕ → ℕ → List ℕ → Parsed (List Text)
unfolding utf8_string utf16_string
pool_strings utf8 chunk chunk_size strings_start [] = parsed []
pool_strings utf8 chunk chunk_size strings_start (item ∷ offsets) = do
  reject (leb chunk_size (strings_start + item))
  text ←
      if utf8
      then utf8_string chunk chunk_size (strings_start + item)
      else utf16_string chunk chunk_size (strings_start + item)
  rest ← pool_strings utf8 chunk chunk_size strings_start offsets
  parsed (text ∷ rest)

-- `struct.unpack_from("<%dI" % count, chunk, position)`
unfoldable pub unpack_offsets : ℕ → List ℕ → ℕ → Parsed (List ℕ)
unpack_offsets zero chunk position = parsed []
unpack_offsets (suc count) chunk position = do
  first ← unpack_u32 chunk position
  rest ← unpack_offsets count chunk (position + 4)
  parsed (first ∷ rest)

-- `bool(flags & 0x100)`
abbrev pub is_utf8 : ℕ → Bool
is_utf8 flags = (flags / 256) % 2 == 1

-- `AndroidStringPool.__init__`
unfoldable pub string_pool : List ℕ → Parsed (List Text)
unfolding pool_strings unpack_offsets
string_pool chunk = do
  reject (ltb (length chunk) 28)
  chunk_type ← unpack_u16 chunk 0
  header_size ← unpack_u16 chunk 2
  chunk_size ← unpack_u32 chunk 4
  reject (not (chunk_type == 1) || ltb (length chunk) chunk_size || ltb header_size 28)
  count ← unpack_u32 chunk 8
  flags ← unpack_u32 chunk 16
  strings_start ← unpack_u32 chunk 20
  reject (ltb 1000000 count || ltb chunk_size (header_size + count * 4))
  offsets ← unpack_offsets count chunk header_size
  pool_strings (is_utf8 flags) chunk chunk_size strings_start offsets

-- `AndroidStringPool.get`
unfoldable pub get_string : List Text → ℕ → Parsed (Option Text)
get_string strings index =
    if index == no_index
    then parsed none
    else or_failed value_error (get_elem? strings index) >>= λ text. parsed (some text)

-- The start element ---------------------------------------------------------------------------

abbrev pub equals_name : Option Text → Text → Bool
equals_name none name = false
equals_name (some text) name = text_eq text name

abbrev pub or_empty : Option Text → Text
or_empty none = []
or_empty (some text) = text

-- The value of an attribute: its raw string, a string, or a number.
unfoldable pub attribute_value : List Text → ℕ → ℕ → ℕ → Parsed (Option Text)
unfolding get_string
attribute_value strings raw_value value_type value_data =
    if not (raw_value == no_index)
    then get_string strings raw_value
    else if value_type == 3
    then get_string strings value_data
    else parsed (some (decimal_u32 value_data))

-- What the loop has found: `package_name` and `split`.
abbrev pub Found : Type 0
Found = Option Text × Text

abbrev pub keep_value : Option Text → Option Text → Found → Found
keep_value key value (package_name, split) =
    if equals_name key (codes "package")
    then (value, split)
    else if equals_name key (codes "split")
    then (package_name, or_empty value)
    else (package_name, split)

-- The body of the loop over the attributes, at `position`.
unfoldable pub read_attribute : List Text → List ℕ → ℕ → Found → Parsed Found
unfolding attribute_value get_string
read_attribute strings chunk position found = do
  reject (ltb (length chunk) (position + 20))
  attribute_name ← unpack_u32 chunk (position + 4)
  raw_value ← unpack_u32 chunk (position + 8)
  value_type ← byte_at chunk (position + 15)
  value_data ← unpack_u32 chunk (position + 16)
  key ← get_string strings attribute_name
  value ← attribute_value strings raw_value value_type value_data
  parsed (keep_value key value found)

unfoldable pub read_attributes : ℕ → List Text → List ℕ → ℕ → ℕ → Found → Parsed Found
unfolding read_attribute
read_attributes zero strings chunk position attribute_size found = parsed found
read_attributes (suc count) strings chunk position attribute_size found = do
  next ← read_attribute strings chunk position found
  read_attributes count strings chunk (position + attribute_size) attribute_size next

-- `if not package_name`
unfoldable pub named_package : Found → Parsed (Option (Text × Text))
named_package (none, split) = failed value_error
named_package (some [], split) = failed value_error
named_package (some (c ∷ name), split) = parsed (some (c ∷ name, split))

unfoldable pub manifest_element : List Text → List ℕ → Parsed (Option (Text × Text))
unfolding read_attributes named_package
manifest_element strings chunk = do
  attribute_start ← unpack_u16 chunk 24
  attribute_size ← unpack_u16 chunk 26
  attribute_count ← unpack_u16 chunk 28
  reject (ltb attribute_size 20 || ltb 4096 attribute_count)
  found ←
      read_attributes attribute_count strings chunk (16 + attribute_start) attribute_size (none, [])
  named_package found

-- A start element: `none` where it is not the manifest's, and the loop continues.
unfoldable pub start_element : List Text → ℕ → List ℕ → Parsed (Option (Text × Text))
unfolding manifest_element get_string
start_element strings header_size chunk = do
  reject (ltb header_size 16 || ltb (length chunk) 36)
  name_index ← unpack_u32 chunk 20
  name ← get_string strings name_index
  if equals_name name (codes "manifest") then manifest_element strings chunk else parsed none

-- The document --------------------------------------------------------------------------------

-- One chunk: the pool after it, and what a start element has given.
abbrev pub Step : Type 0
Step = Option (List Text) × Option (Text × Text)

unfoldable pub chunk_step : Option (List Text) → ℕ → ℕ → List ℕ → Parsed Step
unfolding string_pool start_element
chunk_step pool chunk_type header_size chunk =
    if chunk_type == 1
    then (string_pool chunk >>= λ strings. parsed (some strings, none))
    else if chunk_type == 0x102
    then elim pool [
      | none ↦ parsed (none, none)
      | some strings ↦
          start_element strings header_size chunk >>= λ found. parsed (some strings, found)
    ]
    else parsed (pool, none)

-- The header of the chunk at `offset`, with its checks: its type, its header's size and its size.
unfoldable pub chunk_header : List ℕ → ℕ → ℕ → Parsed (ℕ × ℕ × ℕ)
chunk_header bytes xml_size offset = do
  chunk_type ← unpack_u16 bytes offset
  header_size ← unpack_u16 bytes (offset + 2)
  chunk_size ← unpack_u32 bytes (offset + 4)
  reject (ltb header_size 8 || ltb chunk_size header_size || ltb xml_size (offset + chunk_size))
  parsed (chunk_type, header_size, chunk_size)

-- What a turn of the loop gives: an error, the result, or the pool and the next offset.
pub data Turn : Type 0 where
  stopped : ParseFault → Turn
  answered : Text × Text → Turn
  onward : Option (List Text) → ℕ → Turn

unfoldable pub after_chunk : ℕ → Parsed Step → Turn
after_chunk next (failed fault) = stopped fault
after_chunk next (parsed (pool, some answer)) = answered answer
after_chunk next (parsed (pool, none)) = onward pool next

unfoldable pub turn : List ℕ → ℕ → Option (List Text) → ℕ → Turn
unfolding chunk_header chunk_step after_chunk
turn bytes xml_size pool offset = elim (chunk_header bytes xml_size offset) [
  | failed fault ↦ stopped fault
  | parsed (chunk_type, header_size, chunk_size) ↦
      after_chunk (offset + chunk_size)
        (chunk_step pool chunk_type header_size (slice offset (offset + chunk_size) bytes))
]

-- The loop `while offset + 8 <= xml_size`; `none` where the fuel has run out.
unfoldable pub walk : ℕ → List ℕ → ℕ → Option (List Text) → ℕ → Option (Parsed (Text × Text))
unfolding turn
walk zero bytes xml_size pool offset = none
walk (suc fuel) bytes xml_size pool offset = elim (leb (offset + 8) xml_size) [
  | false ↦ some (failed value_error)
  | true ↦ elim (turn bytes xml_size pool offset) [
    | stopped fault ↦ some (failed fault)
    | answered answer ↦ some (parsed answer)
    | onward next_pool next ↦ walk fuel bytes xml_size next_pool next
  ]
]

-- The checks before the loop: the size of the header and of the document.
unfoldable pub document_header : List ℕ → Parsed (ℕ × ℕ)
document_header bytes = do
  reject (ltb (length bytes) 8)
  xml_type ← unpack_u16 bytes 0
  xml_header ← unpack_u16 bytes 2
  xml_size ← unpack_u32 bytes 4
  reject (not (xml_type == 3) || ltb xml_header 8 || ltb (length bytes) xml_size)
  parsed (xml_header, xml_size)

-- The binary half of `parse_android_manifest`. Each chunk has at least eight bytes, so the loop
-- makes fewer turns than the document has bytes.
unfoldable pub parse_binary_manifest : List ℕ → Option (Parsed (Text × Text))
unfolding document_header walk
parse_binary_manifest bytes = elim (document_header bytes) [
  | failed fault ↦ some (failed fault)
  | parsed (xml_header, xml_size) ↦ walk (suc (length bytes)) bytes xml_size none xml_header
]

-- `bytes.lstrip()` takes away ASCII white space.
abbrev pub is_space : ℕ → Bool
is_space b = b == 32 || (leb 9 b && leb b 13)

unfoldable pub is_plain : List ℕ → Bool
is_plain [] = false
is_plain (b ∷ bytes) = if is_space b then is_plain bytes else b == b'<'

module _ (plain_manifest : List ℕ → Parsed (Option Text × Option Text)) where
  unfoldable pub parse_android_manifest : List ℕ → Option (Parsed (Text × Text))
  unfolding is_plain parse_binary_manifest
  parse_android_manifest bytes =
      if is_plain bytes
      then some (
          plain_manifest bytes >>= λ (package_name, split).
          named_package (package_name, or_empty split) >>= λ found. or_failed value_error found)
      else parse_binary_manifest bytes

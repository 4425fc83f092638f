-- ===== src/Tests/Manifests.antt =====
-- The reader of Android manifests on a small document, and on a string pool that is cut short.
use chrono_nextos.Prelude.{ℕ, ◌≡◌, refl, arith, some, List, [], ◌∷◌, ◌++◌}
use chrono_nextos.Prelude.Text.{Text, codes, text_eq}
use chrono_nextos.Manifest.Bytes.{
  Parsed, parsed, failed, index_error, byte_at, field_byte, unpack_u16, unpack_u32, decode_length8,
  decode_length16, decode_utf8, decimal_u32,
}
use chrono_nextos.Manifest.{
  string_pool, utf8_string, utf16_string, pool_strings, unpack_offsets, get_string, attribute_value,
  read_attribute, read_attributes, named_package, manifest_element, start_element, chunk_step,
  chunk_header, after_chunk, turn, walk, document_header, parse_binary_manifest,
}
use chrono_nextos.Manifest.Bounds.{OnlyValueError, start_element-OnlyValueError}
use chrono_nextos.Manifest.Lengths.{
  length8, length16, decode_length8-length8, decode_length16-length16,
}
use chrono_nextos.Manifest.Ends.{parse_binary_manifest-total}

-- A pool of five strings, and a start element with a package and a split.
abbrev document : List ℕ
document =
    3 ∷ 0 ∷ 8 ∷ 0 ∷ 172 ∷ 0 ∷ 0 ∷ 0 ∷ 1 ∷ 0 ∷ 28 ∷ 0 ∷ 88 ∷ 0 ∷ 0 ∷ 0 ∷ 5 ∷ 0 ∷ 0 ∷ 0 ∷ 0 ∷ 0 ∷ 0
    ∷ 0 ∷ 0 ∷ 1 ∷ 0 ∷ 0 ∷ 48 ∷ 0 ∷ 0 ∷ 0 ∷ 0 ∷ 0 ∷ 0 ∷ 0 ∷ 0 ∷ 0 ∷ 0 ∷ 0 ∷ 11 ∷ 0 ∷ 0 ∷ 0 ∷ 21 ∷ 0
    ∷ 0 ∷ 0 ∷ 27 ∷ 0 ∷ 0 ∷ 0 ∷ 35 ∷ 0 ∷ 0 ∷ 0 ∷ 8 ∷ 8 ∷ 109 ∷ 97 ∷ 110 ∷ 105 ∷ 102 ∷ 101 ∷ 115 ∷ 116
    ∷ 0 ∷ 7 ∷ 7 ∷ 112 ∷ 97 ∷ 99 ∷ 107 ∷ 97 ∷ 103 ∷ 101 ∷ 0 ∷ 3 ∷ 3 ∷ 97 ∷ 46 ∷ 98 ∷ 0 ∷ 5 ∷ 5 ∷ 115
    ∷ 112 ∷ 108 ∷ 105 ∷ 116 ∷ 0 ∷ 2 ∷ 2 ∷ 104 ∷ 100 ∷ 0 ∷ 2 ∷ 1 ∷ 16 ∷ 0 ∷ 76 ∷ 0 ∷ 0 ∷ 0 ∷ 1 ∷ 0
    ∷ 0 ∷ 0 ∷ 255 ∷ 255 ∷ 255 ∷ 255 ∷ 255 ∷ 255 ∷ 255 ∷ 255 ∷ 0 ∷ 0 ∷ 0 ∷ 0 ∷ 20 ∷ 0 ∷ 20 ∷ 0 ∷ 2
    ∷ 0 ∷ 0 ∷ 0 ∷ 0 ∷ 0 ∷ 0 ∷ 0 ∷ 255 ∷ 255 ∷ 255 ∷ 255 ∷ 1 ∷ 0 ∷ 0 ∷ 0 ∷ 2 ∷ 0 ∷ 0 ∷ 0 ∷ 8 ∷ 0 ∷ 0
    ∷ 3 ∷ 2 ∷ 0 ∷ 0 ∷ 0 ∷ 255 ∷ 255 ∷ 255 ∷ 255 ∷ 3 ∷ 0 ∷ 0 ∷ 0 ∷ 255 ∷ 255 ∷ 255 ∷ 255 ∷ 8 ∷ 0 ∷ 0
    ∷ 3 ∷ 4 ∷ 0 ∷ 0 ∷ 0 ∷ []

document_runs : parse_binary_manifest document ≡ some (parsed (codes "a.b", codes "hd"))
unfolding parse_binary_manifest document_header walk turn after_chunk chunk_header chunk_step
    start_element manifest_element named_package read_attributes read_attribute attribute_value
    get_string unpack_offsets pool_strings utf8_string utf16_string string_pool decimal_u32
    decode_utf8 decode_length8 decode_length16 unpack_u32 unpack_u16 field_byte byte_at text_eq
document_runs = refl

-- The length of the only string has a second byte, which lies behind the end of the chunk.
abbrev cut_pool : List ℕ
cut_pool =
    1 ∷ 0 ∷ 28 ∷ 0 ∷ 33 ∷ 0 ∷ 0 ∷ 0 ∷ 1 ∷ 0 ∷ 0 ∷ 0 ∷ 0 ∷ 0 ∷ 0 ∷ 0 ∷ 0 ∷ 1 ∷ 0 ∷ 0 ∷ 32 ∷ 0 ∷ 0 ∷ 0
    ∷ 0 ∷ 0 ∷ 0 ∷ 0 ∷ 0 ∷ 0 ∷ 0 ∷ 0 ∷ 128 ∷ []

cut_pool_runs : string_pool cut_pool ≡ failed index_error
unfolding unpack_offsets pool_strings utf8_string utf16_string string_pool decode_utf8
    decode_length8 decode_length16 unpack_u32 unpack_u16 field_byte byte_at
cut_pool_runs = refl

parse_binary_manifest-total_example :
    (r : Parsed (Text × Text)) × (parse_binary_manifest document ≡ some r)
parse_binary_manifest-total_example = parse_binary_manifest-total document

start_element-OnlyValueError_example :
    OnlyValueError (start_element (codes "manifest" ∷ []) 16 document)
start_element-OnlyValueError_example =
    start_element-OnlyValueError (codes "manifest" ∷ []) 16 document

decode_length8-length8_example :
    decode_length8 ((7 ∷ []) ++ (length8 300 ++ (9 ∷ []))) 1 ≡ parsed (300, 3)
decode_length8-length8_example = decode_length8-length8 (7 ∷ []) (9 ∷ []) 300 (omega arith)

decode_length16-length16_example :
    decode_length16 ((7 ∷ []) ++ (length16 70000 ++ (9 ∷ []))) 1 ≡ parsed (70000, 5)
decode_length16-length16_example = decode_length16-length16 (7 ∷ []) (9 ∷ []) 70000 (omega arith)

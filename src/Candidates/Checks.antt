-- ===== src/Candidates/Checks.antt =====
-- The validation of one candidate file in nxextract/nxextract.py, for a member of an archive and for a
-- loose file: `_size_valid`, the magic, the ELF machine, and the counts of a selection by
-- `validate_summary`. The digests are those of the standard library.
use chrono_nextos.Prelude.{
  ℕ, String, ◌+◌, ◌*◌, Bool, true, false, not, ◌||◌, Option, none, some, List, [], ◌∷◌, take, drop,
  get_elem?, ltb, length, any, ◌==◌, if◌then◌else◌,
}
use chrono_nextos.Prelude.Text.{Text, text_eq, codes}
use chrono_nextos.Fault.{
  Fault, Result, ok, err, recipe_error, os_error, runtime_error, not_implemented_error,
  bad_zip_file, other, refuse, ◌>>=◌, ◌>>◌,
}
use chrono_nextos.Json.{Value, Fields, get, has_key, as_text, is_null, equals_number}
use chrono_nextos.Candidates.{lower, normalize_hash_list, normalize_crc_list, parse_magic}

-- Sizes and counts ----------------------------------------------------------------------------

-- `n < value` and `value < n` of a number; any other value is a `TypeError`.
abbrev pub below : ℕ → Value → Result Bool
below n (Value.num m) = ok (ltb n m)
below n (Value.negative m) = ok false
below n (Value.bool b) = ok (ltb n (if b then 1 else 0))
below n _ = err other

abbrev pub above : ℕ → Value → Result Bool
above n (Value.num m) = ok (ltb m n)
above n (Value.negative m) = ok true
above n (Value.bool b) = ok (ltb (if b then 1 else 0) n)
above n _ = err other

-- One of the tests `if present and test: return False`, before the others.
abbrev pub unless : Bool → Result Bool → Result Bool → Result Bool
unless false test rest = rest
unless true (ok true) rest = ok false
unless true (ok false) rest = rest
unless true (err e) rest = err e

unfoldable pub size_valid : ℕ → Fields → Result Bool
size_valid size spec =
    unless (has_key "size" spec) (ok (not (equals_number (get "size" spec) size))) (
      unless (has_key "min_size" spec) (below size (get "min_size" spec))
        (unless (has_key "max_size" spec) (above size (get "max_size" spec)) (ok true)))

-- `spec.get(key, spec.get(alias))`
abbrev pub get_either : String → String → Fields → Value
get_either key alias spec = if has_key key spec then get key spec else get alias spec

unfoldable pub validate_summary : ℕ → ℕ → Fields → Result Bool
validate_summary count total spec =
    let exact_count = get_either "exact_files" "exact_entries" spec in
    let minimum_count = get_either "min_files" "min_entries" spec in
    let maximum_count = get_either "max_files" "max_entries" spec in
    unless (not (is_null exact_count)) (ok (not (equals_number exact_count count))) (
      unless (not (is_null minimum_count)) (below count minimum_count) (
        unless (not (is_null maximum_count)) (above count maximum_count) (
          unless (has_key "exact_bytes" spec)
            (ok (not (equals_number (get "exact_bytes" spec) total)))
            (unless (has_key "min_bytes" spec) (below total (get "min_bytes" spec))
              (unless (has_key "max_bytes" spec) (above total (get "max_bytes" spec)) (ok true))))))

-- ELF -----------------------------------------------------------------------------------------

abbrev pub bytes_eq : List ℕ → List ℕ → Bool
bytes_eq = text_eq

abbrev pub u16_little : Option ℕ → Option ℕ → Option ℕ
u16_little (some low) (some high) = some (low + 256 * high)
u16_little _ _ = none

unfoldable pub elf_machine_from_header : List ℕ → Option ℕ
elf_machine_from_header header =
    if ltb (length header) 20 || not (bytes_eq (take 4 header) (127 ∷ 69 ∷ 76 ∷ 70 ∷ []))
    then none
    else elim (get_elem? header 5) [
      | none ↦ none
      | some class_ ↦
          if class_ == 1
          then u16_little (get_elem? header 18) (get_elem? header 19)
          else if class_ == 2
          then u16_little (get_elem? header 19) (get_elem? header 18)
          else none
    ]

-- `ELF_MACHINES`
abbrev pub elf_machines : List (Text × ℕ)
elf_machines =
    (codes "arm", 40)
    ∷ (codes "armeabi", 40)
    ∷ (codes "armeabi-v7a", 40)
    ∷ (codes "aarch64", 183)
    ∷ (codes "arm64", 183)
    ∷ (codes "arm64-v8a", 183)
    ∷ (codes "x86", 3)
    ∷ (codes "x86_64", 62)
    ∷ []

abbrev pub machine_of : Text → List (Text × ℕ) → Result ℕ
machine_of name [] = err recipe_error
machine_of name ((key, machine) ∷ more) =
    if text_eq name key then ok machine else machine_of name more

-- `str` of a value that is no text is no name of a machine. An ABI that is not given is empty.
unfoldable pub expected_elf_machine : Fields → Text → Result ℕ
expected_elf_machine spec abi = elim (as_text (get "elf_machine" spec)) [
  | none ↦ err recipe_error
  | some machine ↦
      if text_eq (lower machine) (codes "{abi}")
      then (refuse (text_eq abi []) recipe_error >> machine_of (lower abi) elf_machines)
      else machine_of (lower machine) elf_machines
]

-- Candidates ----------------------------------------------------------------------------------

-- `int(spec.get("magic_offset", 0))`
abbrev pub magic_offset : Fields → Result ℕ
magic_offset spec =
    if has_key "magic_offset" spec
    then elim (get "magic_offset" spec) [ Value.num n ↦ ok n | _ ↦ err other ]
    else ok 0

-- `if wrong: return False`
abbrev pub stop_if : Bool → Result Bool → Result Bool
stop_if true rest = ok false
stop_if false rest = rest

-- The bytes at the offset of the magic differ from it.
abbrev pub magic_unlike : Option (List ℕ) → ℕ → List ℕ → Bool
magic_unlike none offset bytes = false
magic_unlike (some magic) offset bytes =
    not (bytes_eq (take (length magic) (drop offset bytes)) magic)

abbrev pub machine_differs : ℕ → Option ℕ → Bool
machine_differs expected none = true
machine_differs expected (some machine) = not (machine == expected)

-- `except (OSError, RuntimeError, zipfile.BadZipFile)`; `NotImplementedError` is a `RuntimeError`.
abbrev pub is_read_error : Fault → Bool
is_read_error os_error = true
is_read_error runtime_error = true
is_read_error not_implemented_error = true
is_read_error bad_zip_file = true
is_read_error _ = false

-- What is read of a member differs, or cannot be read; an error that is not caught is raised.
abbrev pub after_read : Result (List ℕ) → (List ℕ → Result Bool) → Result Bool
after_read (ok bytes) test = test bytes
after_read (err e) test = if is_read_error e then ok true else err e

abbrev pub magic_differs : Option (List ℕ) → ℕ → Result (List ℕ) → Result Bool
magic_differs none offset read = ok false
magic_differs (some magic) offset read =
    after_read read (λ bytes. ok (magic_unlike (some magic) offset bytes))

-- The header is read before the expected machine is looked up.
abbrev pub elf_differs : Fields → Text → Result (List ℕ) → Result Bool
elf_differs spec abi read =
    if has_key "elf_machine" spec
    then after_read read (λ bytes. expected_elf_machine spec abi >>= λ expected.
        ok (machine_differs expected (elf_machine_from_header (take 64 bytes))))
    else ok false

-- `values and value not in values`
abbrev pub not_listed : ℕ → List ℕ → Bool
not_listed n [] = false
not_listed n (v ∷ vs) = not (any (λ x. n == x) (v ∷ vs))

-- A member of an archive: what its directory entry says, and what reading it gives, each time that it
-- is read: for the magic, for the header, for the digest and as a manifest.
pub record Member : Type 0 where
  pub file_size : ℕ
  pub crc : ℕ
  pub magic_read : Result (List ℕ)
  pub header_read : Result (List ℕ)
  pub digest_read : Result (List ℕ)
  pub manifest_read : Result (List ℕ)

module _ (crc32 : List ℕ → ℕ) (sha256 : List ℕ → Text) where
  abbrev pub hash_unlike : List Text → List ℕ → Bool
  hash_unlike [] bytes = false
  hash_unlike (h ∷ hs) bytes = not (any (text_eq (sha256 bytes)) (h ∷ hs))

  abbrev pub hash_differs : List Text → Result (List ℕ) → Result Bool
  hash_differs [] read = ok false
  hash_differs (h ∷ hs) read = after_read read (λ bytes. ok (hash_unlike (h ∷ hs) bytes))

  unfoldable pub validate_member_candidate : Member → Fields → Text → Result Bool
  unfolding size_valid parse_magic normalize_crc_list normalize_hash_list expected_elf_machine
      elf_machine_from_header
  validate_member_candidate info spec abi = size_valid info.file_size spec >>= λ sized.
      stop_if (not sized) (
        normalize_crc_list (get "crc32" spec) >>= λ crcs. stop_if (not_listed info.crc crcs) (
          parse_magic spec >>= λ magic. magic_offset spec >>= λ offset.
          magic_differs magic offset info.magic_read >>= λ unlike. stop_if unlike (
            elf_differs spec abi info.header_read >>= λ elf. stop_if elf (
              normalize_hash_list (get "sha256" spec) >>= λ hashes.
              hash_differs hashes info.digest_read >>= λ unlisted. stop_if unlisted (ok true)))))

  -- A loose file that can be read, by its bytes.
  unfoldable pub validate_loose_candidate : List ℕ → Fields → Text → Result Bool
  unfolding size_valid parse_magic normalize_crc_list normalize_hash_list expected_elf_machine
      elf_machine_from_header
  validate_loose_candidate bytes spec abi = size_valid (length bytes) spec >>= λ sized.
      stop_if (not sized) (
        parse_magic spec >>= λ magic. magic_offset spec >>= λ offset.
        stop_if (magic_unlike magic offset bytes) (
          elf_differs spec abi (ok bytes) >>= λ elf. stop_if elf (
            normalize_crc_list (get "crc32" spec) >>= λ crcs.
            stop_if (not_listed (crc32 bytes) crcs) (
              normalize_hash_list (get "sha256" spec) >>= λ hashes.
              stop_if (hash_unlike hashes bytes) (ok true)))))

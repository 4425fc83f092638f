-- ===== src/Tests/Files.antt =====
-- The validation of a small ELF file, and the texts of its specification.
use chrono_nextos.Prelude.{ℕ, ◌≡◌, ◌<◌, ◌^◌, refl, arith, true, false, some, List, [], ◌∷◌, All}
use chrono_nextos.Prelude.Text.{Text, text_eq, codes}
use chrono_nextos.Fault.{ok}
use chrono_nextos.Json.{Value, Fields, entry, end, get}
use chrono_nextos.Candidates.{normalize_crc_list, normalize_hash_list, from_hex, parse_magic}
use chrono_nextos.Candidates.Checks.{
  size_valid, elf_differs, elf_machine_from_header, expected_elf_machine, validate_summary,
  validate_member_candidate, validate_loose_candidate,
}
use chrono_nextos.Candidates.Hex.{
  to_hex, IsDigest, parse_magic-to_hex, normalize_hash_list-IsDigest, normalize_crc_list_bound,
}
use chrono_nextos.Candidates.Same.{member_of, validate_member_candidate-validate_loose_candidate}
use chrono_nextos.Specs.{validate_validation, check_number, check_required, machine_known}
use chrono_nextos.Specs.Total.{IsMachine, validate_candidates-Returns, validate_summary-Returns}
use chrono_nextos.Specs.Returns.{Returns}

-- The header of a 64-bit library for AArch64.
abbrev library : List ℕ
library =
    127 ∷ 69 ∷ 76 ∷ 70 ∷ 2 ∷ 1 ∷ 1 ∷ 0 ∷ 0 ∷ 0 ∷ 0 ∷ 0 ∷ 0 ∷ 0 ∷ 0 ∷ 0 ∷ 3 ∷ 0 ∷ 183 ∷ 0 ∷ 1 ∷ 0
    ∷ []

abbrev no_crc : List ℕ → ℕ
no_crc bytes = 5

abbrev no_digest : List ℕ → Text
no_digest bytes = codes "aa"

abbrev a_spec : Fields
a_spec = entry "min_size" (Value.num 20) (
    entry "magic_hex" (Value.str (codes "7F454c46")) (
      entry "elf_machine" (Value.str (codes "{ABI}"))
        (entry "crc32" (Value.str (codes "0005")) end)))

abbrev an_abi : Text
an_abi = codes "arm64-v8a"

crc-read : normalize_crc_list (get "crc32" a_spec) ≡ ok (5 ∷ [])
unfolding normalize_crc_list
crc-read = refl

magic-read : parse_magic a_spec ≡ ok (some (127 ∷ 69 ∷ 76 ∷ 70 ∷ []))
unfolding parse_magic from_hex
magic-read = refl

elf-read : elf_differs a_spec an_abi (ok library) ≡ ok false
unfolding elf_machine_from_header expected_elf_machine text_eq
elf-read = refl

library_runs : validate_loose_candidate no_crc no_digest library a_spec an_abi ≡ ok true
unfolding validate_loose_candidate size_valid parse_magic from_hex normalize_crc_list
    normalize_hash_list elf_machine_from_header expected_elf_machine text_eq
library_runs = refl

summary_runs : validate_summary 3 10 (entry "max_entries" (Value.num 2) end) ≡ ok false
unfolding validate_summary
summary_runs = refl

validate_member_candidate-validate_loose_candidate_example :
    validate_member_candidate no_crc no_digest (member_of no_crc no_digest library) a_spec an_abi
    ≡ validate_loose_candidate no_crc no_digest library a_spec an_abi
validate_member_candidate-validate_loose_candidate_example =
    validate_member_candidate-validate_loose_candidate no_crc no_digest library a_spec an_abi
      crc-read magic-read refl elf-read

parse_magic-to_hex_example :
    parse_magic (entry "magic_hex" (Value.str (to_hex (127 ∷ 250 ∷ []))) end)
    ≡ ok (some (127 ∷ 250 ∷ []))
parse_magic-to_hex_example = parse_magic-to_hex (127 ∷ 250 ∷ []) (omega arith, (omega arith, tt))

abbrev a_hash : Text
a_hash = codes "0123456789ABCDEF0123456789abcdef0123456789abcdef0123456789abcdef"

abbrev a_lower_hash : Text
a_lower_hash = codes "0123456789abcdef0123456789abcdef0123456789abcdef0123456789abcdef"

hash-read : normalize_hash_list (Value.str a_hash) ≡ ok (a_lower_hash ∷ [])
unfolding normalize_hash_list
hash-read = refl

normalize_hash_list-IsDigest_example : All IsDigest (a_lower_hash ∷ [])
normalize_hash_list-IsDigest_example = normalize_hash_list-IsDigest (Value.str a_hash) hash-read

normalize_crc_list_bound_example : All (λ n. n < 2 ^ 32) (5 ∷ [])
normalize_crc_list_bound_example = normalize_crc_list_bound (get "crc32" a_spec) crc-read

abbrev same_key : Text → Text
same_key s = s

a_spec-valid : validate_validation same_key a_spec ≡ ok tt
unfolding validate_validation check_number check_required machine_known normalize_hash_list
    normalize_crc_list parse_magic from_hex text_eq
a_spec-valid = refl

an_abi-IsMachine : IsMachine same_key a_spec a_spec-valid an_abi
unfolding text_eq
an_abi-IsMachine = (refl, (183, refl))

validate_candidates-Returns_example :
    Returns (
      validate_member_candidate no_crc no_digest (member_of no_crc no_digest library) a_spec an_abi)
    × Returns (validate_loose_candidate no_crc no_digest library a_spec an_abi)
validate_candidates-Returns_example =
    validate_candidates-Returns same_key a_spec a_spec-valid no_crc no_digest an_abi
      an_abi-IsMachine (member_of no_crc no_digest library) library (λ e h. cc) (λ e h. cc)
      (λ e h. cc)

validate_summary-Returns_example : Returns (validate_summary 3 10 a_spec)
validate_summary-Returns_example = validate_summary-Returns same_key a_spec a_spec-valid 3 10

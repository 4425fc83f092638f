-- ===== src/Candidates/Same.antt =====
-- A member of an archive and a loose file with the same bytes.
use chrono_nextos.Prelude.{
  ℕ, ◌≡◌, refl, ap, Bool, true, false, not, Option, none, some, List, [], ◌∷◌, length,
}
use chrono_nextos.Prelude.Text.{Text}
use chrono_nextos.Fault.{Result, ok, err, ◌>>=◌}
use chrono_nextos.Json.{Fields, get}
use chrono_nextos.Candidates.{normalize_hash_list, normalize_crc_list, parse_magic}
use chrono_nextos.Candidates.Checks.{
  Member, size_valid, magic_offset, magic_differs, magic_unlike, hash_differs, hash_unlike,
  elf_differs, not_listed, stop_if, validate_member_candidate, validate_loose_candidate,
}

module _ (crc32 : List ℕ → ℕ) (sha256 : List ℕ → Text) where
  -- A member of bytes, as an archive that is not damaged has it.
  abbrev pub member_of : List ℕ → Member
  member_of bytes = record {
    file_size = length bytes;
    crc = crc32 bytes;
    magic_read = ok bytes;
    header_read = ok bytes;
    digest_read = ok bytes;
    manifest_read = ok bytes;
  }

  magic_differs-ok :
      (magic : Option (List ℕ)) (offset : ℕ) (bytes : List ℕ)
      → magic_differs magic offset (ok bytes) ≡ ok (magic_unlike magic offset bytes)
  magic_differs-ok none offset bytes = refl
  magic_differs-ok (some magic) offset bytes = refl

  hash_differs-ok :
      (hashes : List Text) (bytes : List ℕ)
      → hash_differs crc32 sha256 hashes (ok bytes) ≡ ok (hash_unlike crc32 sha256 hashes bytes)
  hash_differs-ok [] bytes = refl
  hash_differs-ok (h ∷ hs) bytes = refl

  hashes-ok :
      (spec : Fields) (bytes : List ℕ)
      → (normalize_hash_list (get "sha256" spec) >>= λ hashes.
          hash_differs crc32 sha256 hashes (ok bytes) >>= λ unlisted. stop_if unlisted (ok true))
        ≡ (normalize_hash_list (get "sha256" spec) >>= λ hashes.
            stop_if (hash_unlike crc32 sha256 hashes bytes) (ok true))
  hashes-ok spec bytes = each (normalize_hash_list (get "sha256" spec))
    where
      each :
          (r : Result (List Text))
          → (r >>= λ hashes. hash_differs crc32 sha256 hashes (ok bytes) >>= λ unlisted.
              stop_if unlisted (ok true))
            ≡ (r >>= λ hashes. stop_if (hash_unlike crc32 sha256 hashes bytes) (ok true))
      each (ok hashes) = rw (hash_differs-ok hashes bytes) refl
      each (err e) = refl

  swap :
      (a b c : Bool) (rest : Result Bool)
      → stop_if a (stop_if b (stop_if c rest)) ≡ stop_if b (stop_if c (stop_if a rest))
  swap true true true rest = refl
  swap true true false rest = refl
  swap true false true rest = refl
  swap true false false rest = refl
  swap false true c rest = refl
  swap false false true rest = refl
  swap false false false rest = refl

  -- For a specification that the checks can read, a file is accepted as a member of an archive that
  -- is not damaged just where it is accepted as a loose file, though the order of the checks differs.
  pub validate_member_candidate-validate_loose_candidate :
      (bytes : List ℕ) (spec : Fields) (abi : Text) {crcs : List ℕ} {magic : Option (List ℕ)}
      {offset : ℕ} {elf : Bool}
      → normalize_crc_list (get "crc32" spec) ≡ ok crcs
      → parse_magic spec ≡ ok magic
      → magic_offset spec ≡ ok offset
      → elf_differs spec abi (ok bytes) ≡ ok elf
      → validate_member_candidate crc32 sha256 (member_of bytes) spec abi
        ≡ validate_loose_candidate crc32 sha256 bytes spec abi
  unfolding validate_member_candidate validate_loose_candidate
  validate_member_candidate-validate_loose_candidate bytes spec abi {crcs} {magic} {offset} {elf} hc
        hm ho he =
      rw
        (
          validate_member_candidate,
          validate_loose_candidate,
          hc,
          hm,
          ho,
          magic_differs-ok magic offset bytes,
          he,
          hashes-ok spec bytes,
        )
        (ap (λ t. size_valid (length bytes) spec >>= λ sized. stop_if (not sized) t)
          (swap (not_listed (crc32 bytes) crcs) (magic_unlike magic offset bytes) elf _))

-- ===== src/Specs/Total.antt =====
-- The checks of a candidate, for a specification that the recipe's validation accepts.
use chrono_nextos.Prelude.{
  ℕ, String, ◌≡◌, inl, inr, refl, Bool, true, false, not, ◌&&◌, ◌||◌, Option, none, some, List, [],
  ◌∷◌, arith, In, Bool-cases, length, take, any,
}
use chrono_nextos.Prelude.Text.{Text, text_eq, codes}
use chrono_nextos.Fault.{Fault, Result, ok, err, recipe_error, refuse, refuse-ok, ◌>>=◌, >>=-eq-ok}
use chrono_nextos.Json.{Fields, get, has_key, as_text, is_null, equals_text}
use chrono_nextos.Candidates.{normalize_crc_list, normalize_hash_list, parse_magic, lower}
use chrono_nextos.Candidates.Checks.{
  size_valid, validate_summary, magic_offset, expected_elf_machine, machine_of, elf_machines,
  elf_differs, machine_differs, elf_machine_from_header, Member, magic_differs, magic_unlike,
  after_read, is_read_error, hash_unlike, not_listed, hash_differs, validate_member_candidate,
  validate_loose_candidate,
}
use chrono_nextos.Specs.{
  check_numbers, number_keys, machine_known, is_machine, validate_validation, aliases_differ,
  count_bounds, size_bounds, file_types, is_fingerprint,
}
use chrono_nextos.Specs.Returns.{
  Returns, HasNumber, check_numbers-HasNumber, Returns-unless, Returns-below, Returns-above,
  Returns-bind, Returns-stop_if, number_either,
}

machine_of-Returns :
    (name : Text) (known : List (Text × ℕ))
    → is_machine name known ≡ true
    → Returns (machine_of name known)
machine_of-Returns name [] h = cc
machine_of-Returns name ((key, machine) ∷ more) h = elim (Bool-cases (text_eq name key)) [
  | inl e ↦ (machine, rw e refl)
  | inr e ↦ let (found, is) = machine_of-Returns name more (rw e at h) in (found, rw e is)
]

expected_elf_machine-Returns :
    (spec : Fields) (abi : Text)
    → machine_known (get "elf_machine" spec) ≡ true
    → (text_eq abi [] ≡ false) × Returns (machine_of (lower abi) elf_machines)
    → Returns (expected_elf_machine spec abi)
unfolding expected_elf_machine machine_known
expected_elf_machine-Returns spec abi known m = named (as_text (get "elf_machine" spec)) refl
  where
    named :
        (o : Option Text)
        → as_text (get "elf_machine" spec) ≡ o
        → Returns (expected_elf_machine spec abi)
    named none e = let no_way : false ≡ true = rw (machine_known, e) at known in cc
    named (some machine) e = elim (Bool-cases (text_eq (lower machine) (codes "{abi}"))) [
      | inl same ↦ (m.1.0, rw (expected_elf_machine, e, same, m.0) m.1.1)
      | inr other ↦
          let found : is_machine (lower machine) elf_machines ≡ true =
            rw (machine_known, e, other) at known in
          let (n, is) = machine_of-Returns (lower machine) elf_machines found in
          (n, rw (expected_elf_machine, e, other) is)
    ]

module _ (portable_path_key : Text → Text) (spec : Fields)
    (valid : validate_validation portable_path_key spec ≡ ok tt) where
  numbers : (key : String) → In key number_keys → HasNumber spec key
  unfolding validate_validation
  numbers =
      let (_, checked, _) = >>=-eq-ok (check_numbers spec number_keys) _ valid in
      check_numbers-HasNumber spec number_keys checked

  -- For a specification that the recipe's validation accepts, the check of a size never fails.
  size_valid-Returns : (size : ℕ) → Returns (size_valid size spec)
  unfolding size_valid
  size_valid-Returns size =
      Returns-unless (has_key "size" spec) _ _ (λ _. (_, refl))
        (Returns-unless (has_key "min_size" spec) _ _
          (λ t. Returns-below size _ (numbers "min_size" (inr (inl refl)) t))
          (Returns-unless (has_key "max_size" spec) _ _
            (λ t. Returns-above size _ (numbers "max_size" (inr (inr (inl refl))) t)) (true, refl)))

  magic_offset-Returns : Returns (magic_offset spec)
  magic_offset-Returns = elim (Bool-cases (has_key "magic_offset" spec)) [
    | inr e ↦ (0, rw e refl)
    | inl e ↦ let (n, is) = numbers "magic_offset" last e in (n, rw (e, is) refl)
  ]
    where
      last : In "magic_offset" number_keys
      last = inr (inr (inr (inr (inr (inr (inr (inr (inr (inr (inr (inr (inl refl))))))))))))

  -- The digests, the magic and the machine of the specification, as the validation has read them.
  record Accepted : Type 0 where
    hashes_ok : Returns (normalize_hash_list (get "sha256" spec))
    crcs_ok : Returns (normalize_crc_list (get "crc32" spec))
    magic_ok : Returns (parse_magic spec)
    machine_ok : has_key "elf_machine" spec ≡ true → machine_known (get "elf_machine" spec) ≡ true

  accepted : Accepted
  unfolding validate_validation
  accepted =
      let (_, _, h0) = >>=-eq-ok (check_numbers spec number_keys) _ valid in
      let (_, _, h1) =
        >>=-eq-ok (refuse (aliases_differ "exact_files" "exact_entries" spec) recipe_error) _ h0 in
      let (_, _, h2) =
        >>=-eq-ok (refuse (aliases_differ "min_files" "min_entries" spec) recipe_error) _ h1 in
      let (_, _, h3) =
        >>=-eq-ok (refuse (aliases_differ "max_files" "max_entries" spec) recipe_error) _ h2 in
      let (_, _, h4) = >>=-eq-ok (count_bounds spec) _ h3 in
      let (_, _, h5) = >>=-eq-ok (size_bounds spec) _ h4 in
      let (hashes, eh, h6) = >>=-eq-ok (normalize_hash_list (get "sha256" spec)) _ h5 in
      let (crcs, ec, h7) = >>=-eq-ok (normalize_crc_list (get "crc32" spec)) _ h6 in
      let (magic, em, h8) = >>=-eq-ok (parse_magic spec) _ h7 in
      let (_, _, h9) =
        >>=-eq-ok
          (refuse
            (not (is_null (get "type" spec) || any (equals_text (get "type" spec)) file_types))
            recipe_error)
          _ h8 in
      let (_, _, h10) =
        >>=-eq-ok (refuse (not (is_fingerprint (get "tree_fingerprint" spec))) recipe_error) _ h9 in
      let (_, elf, _) =
        >>=-eq-ok
          (refuse (has_key "elf_machine" spec && not (machine_known (get "elf_machine" spec)))
            recipe_error)
          _ h10 in
      record {
        hashes_ok = (hashes, eh);
        crcs_ok = (crcs, ec);
        magic_ok = (magic, em);
        machine_ok = λ there.
            yes (has_key "elf_machine" spec) (machine_known (get "elf_machine" spec)) there
              (refuse-ok _ _ elf);
      }
    where
      yes : (a b : Bool) → a ≡ true → (a && not b) ≡ false → b ≡ true
      yes a b x y = ground arith

  -- The ABI is the name of a machine.
  abbrev pub IsMachine : Text → Type 0
  IsMachine abi = (text_eq abi [] ≡ false) × Returns (machine_of (lower abi) elf_machines)

  -- What reading raises is caught by the checks.
  abbrev pub IsCaught : Result (List ℕ) → Type 0
  IsCaught read = (e : Fault) → read ≡ err e → is_read_error e ≡ true

  Returns-after_read :
      (read : Result (List ℕ)) (test : List ℕ → Result Bool)
      → IsCaught read
      → ((bytes : List ℕ) → Returns (test bytes))
      → Returns (after_read read test)
  Returns-after_read (ok bytes) test c h = h bytes
  Returns-after_read (err e) test c h = (true, rw (c e refl) refl)

  magic_differs-Returns :
      (magic : Option (List ℕ)) (offset : ℕ) (read : Result (List ℕ))
      → IsCaught read
      → Returns (magic_differs magic offset read)
  magic_differs-Returns none offset read c = (false, refl)
  magic_differs-Returns (some magic) offset read c =
      Returns-after_read read _ c (λ bytes. (_, refl))

  elf_differs-Returns :
      (abi : Text) (read : Result (List ℕ))
      → IsMachine abi
      → IsCaught read
      → Returns (elf_differs spec abi read)
  elf_differs-Returns abi read m c = elim (Bool-cases (has_key "elf_machine" spec)) [
    | inr e ↦ (false, rw e refl)
    | inl e ↦
        let (found, is) =
          Returns-after_read read
            (λ bytes. expected_elf_machine spec abi >>= λ expected.
              ok (machine_differs expected (elf_machine_from_header (take 64 bytes))))
            c
            (λ bytes.
              Returns-bind (expected_elf_machine spec abi) _
                (expected_elf_machine-Returns spec abi (accepted.machine_ok e) m)
                (λ expected. (_, refl))) in
        (found, rw e is)
  ]

  module _ (crc32 : List ℕ → ℕ) (sha256 : List ℕ → Text) (abi : Text) (m : IsMachine abi) where
    hash_differs-Returns :
        (hashes : List Text) (read : Result (List ℕ))
        → IsCaught read
        → Returns (hash_differs crc32 sha256 hashes read)
    hash_differs-Returns [] read c = (false, refl)
    hash_differs-Returns (h ∷ hs) read c = Returns-after_read read _ c (λ bytes. (_, refl))

    member-Returns :
        (info : Member)
        → IsCaught info.magic_read
        → IsCaught info.header_read
        → IsCaught info.digest_read
        → Returns (validate_member_candidate crc32 sha256 info spec abi)
    unfolding validate_member_candidate
    member-Returns info cm ch cd =
        Returns-bind (size_valid info.file_size spec) _ (size_valid-Returns info.file_size)
          (λ sized. Returns-stop_if (not sized) _ (
            Returns-bind (normalize_crc_list (get "crc32" spec)) _ accepted.crcs_ok (λ crcs.
              Returns-stop_if (not_listed info.crc crcs) _ (
                Returns-bind (parse_magic spec) _ accepted.magic_ok (λ magic.
                  Returns-bind (magic_offset spec) _ magic_offset-Returns (λ offset.
                    Returns-bind (magic_differs magic offset info.magic_read) _
                      (magic_differs-Returns magic offset info.magic_read cm)
                      (λ unlike. Returns-stop_if unlike _ (
                        Returns-bind (elf_differs spec abi info.header_read) _
                          (elf_differs-Returns abi info.header_read m ch)
                          (λ elf. Returns-stop_if elf _ (
                            Returns-bind (normalize_hash_list (get "sha256" spec)) _
                              accepted.hashes_ok
                              (λ hs.
                                Returns-bind (hash_differs crc32 sha256 hs info.digest_read) _
                                  (hash_differs-Returns hs info.digest_read cd)
                                  (λ unlisted. Returns-stop_if unlisted _ (true, refl)))))))))))))

    loose-Returns :
        (bytes : List ℕ) → Returns (validate_loose_candidate crc32 sha256 bytes spec abi)
    unfolding validate_loose_candidate
    loose-Returns bytes =
        Returns-bind (size_valid (length bytes) spec) _ (size_valid-Returns (length bytes))
          (λ sized. Returns-stop_if (not sized) _ (
            Returns-bind (parse_magic spec) _ accepted.magic_ok (λ magic.
              Returns-bind (magic_offset spec) _ magic_offset-Returns (λ offset.
                Returns-stop_if (magic_unlike magic offset bytes) _ (
                  Returns-bind (elf_differs spec abi (ok bytes)) _
                    (elf_differs-Returns abi (ok bytes) m (λ e h. cc))
                    (λ elf. Returns-stop_if elf _ (
                      Returns-bind (normalize_crc_list (get "crc32" spec)) _ accepted.crcs_ok
                        (λ crcs. Returns-stop_if (not_listed (crc32 bytes) crcs) _ (
                          Returns-bind (normalize_hash_list (get "sha256" spec)) _
                            accepted.hashes_ok
                            (λ hs.
                              Returns-stop_if (hash_unlike crc32 sha256 hs bytes) _
                                (true, refl)))))))))))

    -- For a specification that the recipe's validation accepts and an ABI of a known machine, the
    -- check of an archive's member whose reading raises nothing but `OSError`, `RuntimeError` and
    -- `BadZipFile`, and that of a loose file that can be read, never raise: each says yes or no.
    pub validate_candidates-Returns :
        (info : Member) (bytes : List ℕ)
        → IsCaught info.magic_read
        → IsCaught info.header_read
        → IsCaught info.digest_read
        → Returns (validate_member_candidate crc32 sha256 info spec abi)
          × Returns (validate_loose_candidate crc32 sha256 bytes spec abi)
    validate_candidates-Returns info bytes cm ch cd =
        (member-Returns info cm ch cd, loose-Returns bytes)

  -- For such a specification the check of a selection's count and size never raises either.
  pub validate_summary-Returns : (count total : ℕ) → Returns (validate_summary count total spec)
  unfolding validate_summary
  validate_summary-Returns count total =
      Returns-unless _ _ _ (λ _. (_, refl))
        (Returns-unless _ _ _
          (λ t. Returns-below count _ (
            number_either spec "min_files" "min_entries"
              (numbers "min_files" (inr (inr (inr (inr (inl refl))))))
              (numbers "min_entries"
                (inr (inr (inr (inr (inr (inr (inr (inr (inr (inr (inl refl))))))))))))
              t))
          (Returns-unless _ _ _
            (λ t. Returns-above count _ (
              number_either spec "max_files" "max_entries"
                (numbers "max_files" (inr (inr (inr (inr (inr (inl refl)))))))
                (numbers "max_entries"
                  (inr (inr (inr (inr (inr (inr (inr (inr (inr (inr (inr (inl refl)))))))))))))
                t))
            (Returns-unless (has_key "exact_bytes" spec) _ _ (λ _. (_, refl))
              (Returns-unless (has_key "min_bytes" spec) _ _
                (λ t.
                  Returns-below total _
                    (numbers "min_bytes" (inr (inr (inr (inr (inr (inr (inr (inl refl)))))))) t))
                (Returns-unless (has_key "max_bytes" spec) _ _
                  (λ t. Returns-above total _ (
                    numbers "max_bytes" (inr (inr (inr (inr (inr (inr (inr (inr (inl refl)))))))))
                      t))
                  (true, refl))))))

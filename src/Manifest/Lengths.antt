-- ===== src/Manifest/Lengths.antt =====
-- The lengths in front of the strings of a pool.
use chrono_nextos.Prelude.{
  ℕ, zero, suc, ◌+◌, ◌*◌, ◌/◌, ◌%◌, ◌^◌, ◌<◌, ◌≡◌, refl, ap₂, true, List, [], ◌∷◌, ◌++◌, get_elem?,
  leb, length, arith, if◌then◌else◌, Bool-cases, inl, inr,
}
use chrono_nextos.Manifest.Bytes.{
  parsed, byte_at, field_byte, unpack_u16, decode_length8, decode_length16,
}

-- A length below 2 ^ 15 in one or two bytes, and one below 2 ^ 31 in one or two fields of 16 bits.
abbrev pub length8 : ℕ → List ℕ
length8 n = if leb 128 n then (128 + n / 256) ∷ n % 256 ∷ [] else n ∷ []

abbrev pub u16_bytes : ℕ → List ℕ
u16_bytes n = n % 256 ∷ n / 256 ∷ []

abbrev pub length16 : ℕ → List ℕ
length16 n =
    if leb 32768 n then u16_bytes (32768 + n / 65536) ++ u16_bytes (n % 65536) else u16_bytes n

get_elem?-after :
    (before bytes : List ℕ) (i j : ℕ)
    → j ≡ length before + i
    → get_elem? (before ++ bytes) j ≡ get_elem? bytes i
get_elem?-after [] bytes i j e = let same : j ≡ i = omega (arith, e) in rw same refl
get_elem?-after (b ∷ before) bytes i zero e = absurd (omega (arith, e))
get_elem?-after (b ∷ before) bytes i (suc j) e = get_elem?-after before bytes i j (omega (arith, e))

-- A length that is written in one or two bytes behind any others is read back, with the place of the
-- byte after it.
pub decode_length8-length8 :
    (before after : List ℕ) (n : ℕ)
    → n < 2 ^ 15
    → decode_length8 (before ++ (length8 n ++ after)) (length before)
      ≡ parsed (n, length before + length (length8 n))
unfolding decode_length8 byte_at
decode_length8-length8 before after n h = elim (Bool-cases (leb 128 n)) [
  | inl e ↦
      rw
        (
          e,
          get_elem?-after before ((128 + n / 256) ∷ n % 256 ∷ after) 0 (length before)
              (omega arith),
          first_long,
          get_elem?-after before ((128 + n / 256) ∷ n % 256 ∷ after) 1 (length before + 1) refl,
        )
        (ap₂ (λ (x y : ℕ). parsed (x, y)) value refl)
  | inr e ↦ rw (e, get_elem?-after before (n ∷ after) 0 (length before) (omega arith), e) refl
]
  where
    first_long : leb 128 (128 + n / 256) ≡ true
    first_long = ground arith

    value : ((128 + n / 256) % 128) * 256 + n % 256 ≡ n
    value = omega (arith, h)

unpack_u16-after :
    (before bytes : List ℕ) (i j n : ℕ)
    → j ≡ length before + i
    → unpack_u16 bytes i ≡ parsed n
    → unpack_u16 (before ++ bytes) j ≡ parsed n
unfolding unpack_u16 field_byte
unpack_u16-after before bytes i j n e h =
    rw
      (
        get_elem?-after before bytes i j e,
        get_elem?-after before bytes (i + 1) (j + 1) (omega (arith, e)),
      )
      h

unpack_u16-bytes : (n : ℕ) (after : List ℕ) → unpack_u16 (u16_bytes n ++ after) 0 ≡ parsed n
unfolding unpack_u16 field_byte
unpack_u16-bytes n after = let value : n % 256 + 256 * (n / 256) ≡ n = omega arith in rw value refl

-- A length that is written in one or two fields of 16 bits behind any other bytes is read back, with
-- the place of the byte after it.
pub decode_length16-length16 :
    (before after : List ℕ) (n : ℕ)
    → n < 2 ^ 31
    → decode_length16 (before ++ (length16 n ++ after)) (length before)
      ≡ parsed (n, length before + length (length16 n))
unfolding decode_length16
decode_length16-length16 before after n h = elim (Bool-cases (leb 32768 n)) [
  | inl e ↦
      rw
        (
          e,
          unpack_u16-after before
              (u16_bytes (32768 + n / 65536) ++ (u16_bytes (n % 65536) ++ after)) 0 (length before)
              (32768 + n / 65536) (omega arith)
              (unpack_u16-bytes (32768 + n / 65536) (u16_bytes (n % 65536) ++ after)),
          first_long,
          unpack_u16-after before
              (u16_bytes (32768 + n / 65536) ++ (u16_bytes (n % 65536) ++ after)) 2
              (length before + 2) (n % 65536) refl (unpack_u16-bytes (n % 65536) after),
        )
        (ap₂ (λ (x y : ℕ). parsed (x, y)) value refl)
  | inr e ↦
      rw
        (
          e,
          unpack_u16-after before (u16_bytes n ++ after) 0 (length before) n (omega arith)
              (unpack_u16-bytes n after),
          e,
        )
        refl
]
  where
    first_long : leb 32768 (32768 + n / 65536) ≡ true
    first_long = ground arith

    value : ((32768 + n / 65536) % 32768) * 65536 + n % 65536 ≡ n
    value = omega (arith, h)

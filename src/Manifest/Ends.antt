-- ===== src/Manifest/Ends.antt =====
-- The end of the loop over the chunks of a manifest.
use chrono_nextos.Prelude.{
  ℕ, zero, suc, ◌+◌, ◌≤◌, ◌≡◌, refl, true, Option, none, some, List, leb, leb→le, length, arith,
  Bool-cases, inl, inr,
}
use chrono_nextos.Prelude.Text.{Text}
use chrono_nextos.Manifest.Bytes.{value_error, Parsed, parsed, failed, slice}
use chrono_nextos.Manifest.{
  Turn, stopped, answered, onward, Step, after_chunk, chunk_step, chunk_header, turn, walk,
  document_header, parse_binary_manifest,
}

chunk_header-size :
    (bytes : List ℕ) (xml_size offset : ℕ) {t h c : ℕ}
    → chunk_header bytes xml_size offset ≡ parsed (t, h, c)
    → 8 ≤ c
unfolding chunk_header
chunk_header-size bytes xml_size offset e = ground arith

onward-after_chunk :
    (next : ℕ) (r : Parsed Step) {pool : Option (List Text)} {n : ℕ}
    → after_chunk next r ≡ onward pool n
    → next ≡ n
unfolding after_chunk
onward-after_chunk next (failed fault) e = cc
onward-after_chunk next (parsed (pool, some answer)) e = cc
onward-after_chunk next (parsed (pool, none)) e = cc

turn-advances :
    (bytes : List ℕ) (xml_size : ℕ) (pool : Option (List Text)) (offset : ℕ)
    {next_pool : Option (List Text)} {next : ℕ}
    → turn bytes xml_size pool offset ≡ onward next_pool next
    → offset + 8 ≤ next
unfolding turn
turn-advances bytes xml_size pool offset {next_pool} {next} e =
    by_header (chunk_header bytes xml_size offset) refl e
  where
    by_header :
        (r : Parsed (ℕ × ℕ × ℕ))
        → chunk_header bytes xml_size offset ≡ r
        → elim r [
          | failed fault ↦ stopped fault
          | parsed (chunk_type, header_size, chunk_size) ↦
              after_chunk
                (offset + chunk_size)
                (chunk_step pool chunk_type header_size (slice offset (offset + chunk_size) bytes))
        ]
          ≡ onward next_pool next
        → offset + 8 ≤ next
    by_header (failed fault) x e = cc
    by_header (parsed (t, h, c)) x e =
        let big : 8 ≤ c = chunk_header-size bytes xml_size offset x in
        let same : offset + c ≡ next =
          onward-after_chunk (offset + c) (chunk_step pool t h (slice offset (offset + c) bytes))
            e in
        omega (arith, big, same)

walk-total :
    (fuel : ℕ) (bytes : List ℕ) (xml_size : ℕ) (pool : Option (List Text)) (offset : ℕ)
    → 1 ≤ fuel
    → xml_size ≤ offset + fuel
    → (r : Parsed (Text × Text)) × (walk fuel bytes xml_size pool offset ≡ some r)
unfolding walk
walk-total zero bytes xml_size pool offset one enough = absurd (omega (arith, one))
walk-total (suc fuel) bytes xml_size pool offset one enough =
    elim (Bool-cases (leb (offset + 8) xml_size)) [
      | inr e ↦ (failed value_error, rw (walk, e) refl)
      | inl e ↦
          by_turn (λ next_pool next. walk-total fuel bytes xml_size next_pool next) e
            (turn bytes xml_size pool offset) refl
    ]
  where
    by_turn :
        ((next_pool : Option (List Text)) (next : ℕ)
          → 1 ≤ fuel
          → xml_size ≤ next + fuel
          → (r : Parsed (Text × Text)) × (walk fuel bytes xml_size next_pool next ≡ some r))
        → leb (offset + 8) xml_size ≡ true
        → (t : Turn) → turn bytes xml_size pool offset ≡ t
        → (r : Parsed (Text × Text)) × (walk (suc fuel) bytes xml_size pool offset ≡ some r)
    by_turn again e (stopped fault) x = (failed fault, rw (walk, e, x) refl)
    by_turn again e (answered answer) x = (parsed answer, rw (walk, e, x) refl)
    by_turn again e (onward next_pool next) x =
        let more : offset + 8 ≤ xml_size = leb→le (offset + 8) xml_size e in
        let far : offset + 8 ≤ next = turn-advances bytes xml_size pool offset x in
        let (r, done) =
          again next_pool next (omega (arith, more, enough)) (omega (arith, far, enough)) in
        (r, rw (walk, e, x) done)

header-fits :
    (bytes : List ℕ) {xml_header xml_size : ℕ}
    → document_header bytes ≡ parsed (xml_header, xml_size)
    → xml_size ≤ length bytes
unfolding document_header
header-fits bytes e = ground arith

-- The loop over the chunks of any document ends, with a package and a split or an error, in at most
-- one turn more than the document has bytes.
pub parse_binary_manifest-total :
    (bytes : List ℕ) → (r : Parsed (Text × Text)) × (parse_binary_manifest bytes ≡ some r)
unfolding parse_binary_manifest
parse_binary_manifest-total bytes = by_header (document_header bytes) refl
  where
    by_header :
        (h : Parsed (ℕ × ℕ))
        → document_header bytes ≡ h
        → (r : Parsed (Text × Text)) × (parse_binary_manifest bytes ≡ some r)
    by_header (failed fault) x = (failed fault, rw (parse_binary_manifest, x) refl)
    by_header (parsed (xml_header, xml_size)) x =
        let fits : xml_size ≤ length bytes = header-fits bytes x in
        let (r, done) =
          walk-total (suc (length bytes)) bytes xml_size none xml_header (omega arith)
            (omega (arith, fits)) in
        (r, rw (parse_binary_manifest, x) done)

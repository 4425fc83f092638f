-- ===== src/Installed/Stream.antt =====
-- What the digest of a payload is fed with tells the objects of the payload.
use chrono_nextos.Prelude.{
  ℕ, zero, suc, ◌*◌, ◌/◌, ◌%◌, ◌<◌, ◌≡◌, ◌≢◌, refl, sym, ap, ap₂, ◌∙◌, Bool, true, not, List, [],
  ◌∷◌, ◌++◌, arith, length, ltb, ltb→lt, ◌&&◌,
}
use chrono_nextos.Prelude.Text.{Text}
use chrono_nextos.Fault.{ok, other, refuse, refuse-not-ok, ok-injective, >>=-eq-ok}
use chrono_nextos.Installed.{
  SealedObject, sealed_file, sealed_directory, little_endian, limit, emit_path, emit, can_pack,
  digest_input,
}

tail_eq : {a b : ℕ} {x y : List ℕ} → a ∷ x ≡ b ∷ y → (a ≡ b) × (x ≡ y)
tail_eq h = (cc, cc)

low_high : (a b : ℕ) → a % 256 ≡ b % 256 → a / 256 ≡ b / 256 → a ≡ b
low_high a b h k = omega arith

high_bound : (a l : ℕ) → a < 256 * l → a / 256 < l
high_bound a l h = omega arith

little_endian-append_injective :
    (width a b : ℕ) (x y : List ℕ)
    → a < limit width
    → b < limit width
    → little_endian width a ++ x ≡ little_endian width b ++ y
    → (a ≡ b) × (x ≡ y)
little_endian-append_injective zero a b x y ha hb h = (omega arith, h)
little_endian-append_injective (suc width) a b x y ha hb h =
    let (low, rest) = tail_eq h in
    let (high, tails) =
      little_endian-append_injective width (a / 256) (b / 256) x y (high_bound a (limit width) ha)
        (high_bound b (limit width) hb) rest in
    (low_high a b low high, tails)

append_injective : (s t x y : List ℕ) → length s ≡ length t → s ++ x ≡ t ++ y → (s ≡ t) × (x ≡ y)
append_injective [] [] x y l h = (refl, h)
append_injective [] (d ∷ t) x y l h = absurd (omega arith)
append_injective (c ∷ s) [] x y l h = absurd (omega arith)
append_injective (c ∷ s) (d ∷ t) x y l h =
    let (first, rest) = tail_eq h in
    let (same, tails) = append_injective s t x y (omega arith) rest in
    (ap₂ (λ a b. a ∷ b) first same, tails)

and-true_three : (a b c : Bool) → (a && b && c) ≡ true → (a ≡ true) × (b ≡ true) × (c ≡ true)
and-true_three a b c h = ground arith

module _ (utf8 : Text → List ℕ) (utf8_injective : (s t : Text) → utf8 s ≡ utf8 t → s ≡ t) where
  abbrev Short : Text → Type 0
  Short s = length (utf8 s) < limit 4

  emit_path-injective :
      (s t : Text) (x y : List ℕ)
      → Short s
      → Short t
      → emit_path utf8 s x ≡ emit_path utf8 t y
      → (s ≡ t) × (x ≡ y)
  emit_path-injective s t x y hs ht h =
      let (lengths, rest) =
        little_endian-append_injective 4 (length (utf8 s)) (length (utf8 t)) (utf8 s ++ x)
          (utf8 t ++ y) hs ht h in
      let (same, tails) = append_injective (utf8 s) (utf8 t) x y lengths rest in
      (utf8_injective s t same, tails)

  emit-injective :
      (a b : SealedObject) (x y : List ℕ)
      → can_pack utf8 a ≡ true
      → can_pack utf8 b ≡ true
      → emit utf8 a x ≡ emit utf8 b y
      → (a ≡ b) × (x ≡ y)
  unfolding emit can_pack
  emit-injective (sealed_directory s) (sealed_directory t) x y pa pb h =
      let (same, tails) =
        emit_path-injective s t x y (ltb→lt _ _ pa) (ltb→lt _ _ pb) (tail_eq h).1 in
      (ap sealed_directory same, tails)
  emit-injective (sealed_directory s) (sealed_file t size mtime) x y pa pb h =
      let kinds : ◌≡◌ {A = ℕ} b'D' b'F' = (tail_eq h).0 in absurd (omega arith)
  emit-injective (sealed_file t size mtime) (sealed_directory s) x y pa pb h =
      let kinds : ◌≡◌ {A = ℕ} b'F' b'D' = (tail_eq h).0 in absurd (omega arith)
  emit-injective (sealed_file s n m) (sealed_file t k l) x y pa pb h =
      let (s_short, n_small, m_small) =
        and-true_three (ltb (length (utf8 s)) (limit 4)) (ltb n (limit 8)) (ltb m (limit 8)) pa in
      let (t_short, k_small, l_small) =
        and-true_three (ltb (length (utf8 t)) (limit 4)) (ltb k (limit 8)) (ltb l (limit 8)) pb in
      let (path, rest) =
        emit_path-injective s t _ _ (ltb→lt _ _ s_short) (ltb→lt _ _ t_short) (tail_eq h).1 in
      let (size, more) =
        little_endian-append_injective 8 n k _ _ (ltb→lt _ _ n_small) (ltb→lt _ _ k_small) rest in
      let (mtime, tails) =
        little_endian-append_injective 8 m l x y (ltb→lt _ _ m_small) (ltb→lt _ _ l_small) more in
      (cc, tails)

  emit-ne-nil : (a : SealedObject) (x : List ℕ) → emit utf8 a x ≢ []
  unfolding emit
  emit-ne-nil (sealed_file s n m) x e = cc
  emit-ne-nil (sealed_directory s) x e = cc

  -- Two payloads whose digests are fed with the same bytes have the same objects.
  pub digest_input-injective :
      (a b : List SealedObject) {input : List ℕ}
      → digest_input utf8 a ≡ ok input
      → digest_input utf8 b ≡ ok input
      → a ≡ b
  unfolding digest_input emit
  digest_input-injective [] [] h k = refl
  digest_input-injective [] (b ∷ bs) h k =
      let (_, _, k1) = >>=-eq-ok (refuse (not (can_pack utf8 b)) other) _ k in
      let (y, _, k2) = >>=-eq-ok (digest_input utf8 bs) _ k1 in
      absurd (emit-ne-nil b y (ok-injective (k2 ∙ sym h)))
  digest_input-injective (a ∷ as_) [] h k =
      let (_, _, h1) = >>=-eq-ok (refuse (not (can_pack utf8 a)) other) _ h in
      let (x, _, h2) = >>=-eq-ok (digest_input utf8 as_) _ h1 in
      absurd (emit-ne-nil a x (ok-injective (h2 ∙ sym k)))
  digest_input-injective (a ∷ as_) (b ∷ bs) h k =
      let (_, pa, h1) = >>=-eq-ok (refuse (not (can_pack utf8 a)) other) _ h in
      let (x, ha, h2) = >>=-eq-ok (digest_input utf8 as_) _ h1 in
      let (_, pb, k1) = >>=-eq-ok (refuse (not (can_pack utf8 b)) other) _ k in
      let (y, hb, k2) = >>=-eq-ok (digest_input utf8 bs) _ k1 in
      let (same, rest) =
        emit-injective a b x y (refuse-not-ok _ _ pa) (refuse-not-ok _ _ pb)
          (ok-injective (h2 ∙ sym k2)) in
      ap₂ (λ p q. p ∷ q) same (digest_input-injective as_ bs ha (hb ∙ ap ok (sym rest)))

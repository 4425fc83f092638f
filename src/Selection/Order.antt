-- ===== src/Selection/Order.antt =====
-- The order of the sort keys in nxextract/nxextract.py, and the first element of what is sorted by one.
use chrono_nextos.Prelude.{
  ◌≡◌, ◌⊎◌, inl, inr, refl, Bool, true, List, [], ◌∷◌, arith, All, In, Bool-cases,
}
use chrono_nextos.Prelude.Text.{Text}
use chrono_nextos.Selection.{text_le, insert_sorted, sorted}
use chrono_nextos.Selection.Build.{rank_le}

text_le_total : (s t : Text) → (text_le s t ≡ true) ⊎ (text_le t s ≡ true)
text_le_total [] t = inl refl
text_le_total (c ∷ s) [] = inr refl
text_le_total (c ∷ s) (d ∷ t) = ground (arith, text_le_total s t)

text_le_trans : (s t u : Text) → text_le s t ≡ true → text_le t u ≡ true → text_le s u ≡ true
text_le_trans [] t u h k = refl
text_le_trans (c ∷ s) [] u h k = cc
text_le_trans (c ∷ s) (d ∷ t) [] h k = cc
text_le_trans (c ∷ s) (d ∷ t) (e ∷ u) h k = ground (arith, text_le_trans s t u)

-- A test that compares any two elements and chains.
pub record IsOrder {ℓ} {A : Type ℓ} (le : A → A → Bool) : Type ℓ where
  pub total : (a b : A) → (le a b ≡ true) ⊎ (le b a ≡ true)
  pub trans : (a b c : A) → le a b ≡ true → le b c ≡ true → le a c ≡ true

pub text_le-IsOrder : IsOrder text_le
text_le-IsOrder = record { total = text_le_total; trans = text_le_trans }

pub rank_le-IsOrder : IsOrder rank_le
rank_le-IsOrder = record {
  total = λ (a, s, d) (b, t, e). ground (arith, text_le_total d e);
  trans = λ (a, s, d) (b, t, e) (c, u, f) h k. ground (arith, text_le_trans d e f);
}

module _ {ℓ} {A : Type ℓ} (le : A → A → Bool) where
  -- Each element is before all later ones.
  abbrev pub IsSorted : List A → Type ℓ
  IsSorted [] = Unit
  IsSorted (a ∷ rest) = All (λ b. le a b ≡ true) rest × IsSorted rest

  In-insert_sorted : (a b : A) (xs : List A) → In b (insert_sorted le a xs) → (b ≡ a) ⊎ In b xs
  unfolding insert_sorted
  In-insert_sorted a b [] i = i
  In-insert_sorted a b (x ∷ xs) i = elim (Bool-cases (le a x)) [
    | inl e ↦ rw (insert_sorted, e) at i
    | inr e ↦ elim (rw (insert_sorted, e) at i) [
      | inl p ↦ inr (inl p)
      | inr j ↦ elim (In-insert_sorted a b xs j) [ inl p ↦ inl p | inr k ↦ inr (inr k) ]
    ]
  ]

  pub In-sorted : (b : A) (xs : List A) → In b (sorted le xs) → In b xs
  unfolding sorted
  In-sorted b [] i = i
  In-sorted b (a ∷ xs) i = elim (In-insert_sorted a b (sorted le xs) i) [
    | inl p ↦ inl p
    | inr j ↦ inr (In-sorted b xs j)
  ]

  insert_sorted-In : (a b : A) (xs : List A) → (b ≡ a) ⊎ In b xs → In b (insert_sorted le a xs)
  unfolding insert_sorted
  insert_sorted-In a b [] i = i
  insert_sorted-In a b (x ∷ xs) i = elim (Bool-cases (le a x)) [
    | inl e ↦ rw (insert_sorted, e) i
    | inr e ↦
        rw (insert_sorted, e)
          (elim i [
            | inl p ↦ inr (insert_sorted-In a b xs (inl p))
            | inr j ↦ elim j [ inl p ↦ inl p | inr k ↦ inr (insert_sorted-In a b xs (inr k)) ]
          ])
  ]

  pub sorted-In : (b : A) (xs : List A) → In b xs → In b (sorted le xs)
  unfolding sorted
  sorted-In b [] i = i
  sorted-In b (a ∷ xs) (inl p) = insert_sorted-In a b (sorted le xs) (inl p)
  sorted-In b (a ∷ xs) (inr j) = insert_sorted-In a b (sorted le xs) (inr (sorted-In b xs j))

  module _ (order : IsOrder le) where
    All-trans :
        (a b : A) (xs : List A)
        → le a b ≡ true
        → All (λ c. le b c ≡ true) xs
        → All (λ c. le a c ≡ true) xs
    All-trans a b [] h hs = tt
    All-trans a b (c ∷ xs) h hs = (order.trans a b c h hs.0, All-trans a b xs h hs.1)

    All-insert :
        (a b : A) (xs : List A)
        → le b a ≡ true
        → All (λ c. le b c ≡ true) xs
        → All (λ c. le b c ≡ true) (insert_sorted le a xs)
    unfolding insert_sorted
    All-insert a b [] h hs = (h, tt)
    All-insert a b (x ∷ xs) h hs = elim (Bool-cases (le a x)) [
      | inl e ↦ rw (insert_sorted, e) (h, hs)
      | inr e ↦ rw (insert_sorted, e) (hs.0, All-insert a b xs h hs.1)
    ]

    insert_sorted-IsSorted : (a : A) (xs : List A) → IsSorted xs → IsSorted (insert_sorted le a xs)
    unfolding insert_sorted
    insert_sorted-IsSorted a [] s = (tt, tt)
    insert_sorted-IsSorted a (x ∷ xs) s = elim (Bool-cases (le a x)) [
      | inl e ↦ rw (insert_sorted, e) ((e, All-trans a x xs e s.0), s)
      | inr e ↦
          let other : le x a ≡ true = elim (order.total a x) [ inl p ↦ cc | inr p ↦ p ] in
          rw (insert_sorted, e) (All-insert a x xs other s.0, insert_sorted-IsSorted a xs s.1)
    ]

    pub sorted-IsSorted : (xs : List A) → IsSorted (sorted le xs)
    unfolding sorted
    sorted-IsSorted [] = tt
    sorted-IsSorted (a ∷ xs) = insert_sorted-IsSorted a (sorted le xs) (sorted-IsSorted xs)

    pub IsOrder-refl : (a : A) → le a a ≡ true
    IsOrder-refl a = elim (order.total a a) [ inl p ↦ p | inr p ↦ p ]

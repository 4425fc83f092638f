-- ===== src/Selection/Table.antt =====
-- The tables of items by the portable keys of their destinations, which `_choose_many` and
-- `build_plan_for` of nxextract/nxextract.py fill.
use chrono_nextos.Prelude.{
  ◌≡◌, ◌≢◌, refl, sym, none, List, [], ◌∷◌, ◌++◌, All, All-append, Bool-cases, inl, inr,
}
use chrono_nextos.Prelude.Text.{Text, text_eq, text_eq_iff}
use chrono_nextos.Selection.{SourceItem, find_key}

-- No key is one of the later keys.
abbrev pub TableApart : List (Text × SourceItem) → Type 0
TableApart [] = Unit
TableApart (e ∷ rest) = All (λ f. e.0 ≢ f.0) rest × TableApart rest

find_key-none :
    (key : Text) (table : List (Text × SourceItem))
    → find_key text_eq key table ≡ none
    → All (λ e. e.0 ≢ key) table
find_key-none key [] h = tt
find_key-none key ((k, item) ∷ rest) h = elim (Bool-cases (text_eq key k)) [
  | inl e ↦ let g = rw e at h in cc
  | inr e ↦ (λ p. cc (e, (text_eq_iff key k).1 (sym p)), find_key-none key rest (rw e at h))
]

TableApart-append :
    (table : List (Text × SourceItem)) (entry : Text × SourceItem)
    → TableApart table
    → All (λ e. e.0 ≢ entry.0) table
    → TableApart (table ++ (entry ∷ []))
TableApart-append [] entry a n = (tt, tt)
TableApart-append (e ∷ rest) entry a n = (
  All-append (λ f. e.0 ≢ f.0) rest (entry ∷ []) a.0 (n.0, tt),
  TableApart-append rest entry a.1 n.1,
)

module _ {κ} (portable_path_key : Text → Text) (P : SourceItem → Type κ) where
  -- An item with the property, under the key of its destination.
  abbrev pub IsEntry : Text × SourceItem → Type κ
  IsEntry e = (e.0 ≡ portable_path_key e.1.destination) × P e.1

  pub record IsTable (table : List (Text × SourceItem)) : Type κ where
    pub entries : All IsEntry table
    pub keys_apart : TableApart table

  pub IsTable-append :
      (table : List (Text × SourceItem)) (item : SourceItem)
      → IsTable table
      → P item
      → find_key text_eq (portable_path_key item.destination) table ≡ none
      → IsTable (table ++ ((portable_path_key item.destination, item) ∷ []))
  IsTable-append table item t p new = record {
    entries = All-append IsEntry table (_ ∷ []) t.entries ((refl, p), tt);
    keys_apart =
        TableApart-append table (portable_path_key item.destination, item) t.keys_apart
          (find_key-none _ table new);
  }

-- ===== src/Paths/Escape.antt =====
-- `safe_join` and its root.
use mathlib.Core.List.{reverse-append, append_assoc, append-nil}
use chrono_nextos.Prelude.{
  ◌≡◌, refl, sym, ap, ◌∙◌, true, false, ◌||◌, drop, List, [], ◌∷◌, ◌++◌, reverse, arith, All,
  All-append, inl, inr, ◌⊎◌, if◌then◌else◌,
}
use chrono_nextos.Prelude.Text.{Text, text_eq, text_eq_iff, split}
use chrono_nextos.Fault.{ok, err, nx_error, ◌>>=◌, >>=-eq-ok}
use chrono_nextos.Paths.{slash, dot, dot_dot, normalize, leads, safe_join, validate_relative_path}
use chrono_nextos.Paths.Parts.{IsPart}
use chrono_nextos.Paths.Safety.{
  IsRelative, IsRelative-split, validate_relative_path_sound, validate_relative_path_complete,
}

normalize-parts :
    (parts done : List Text) → All IsPart parts → normalize done parts ≡ reverse done ++ parts
unfolding normalize
normalize-parts [] done h = sym (append-nil (reverse done))
normalize-parts (part ∷ parts) done h =
    ap (λ d. normalize d parts) kept
    ∙ normalize-parts parts (part ∷ done) h.1
    ∙ rw (reverse-append (part ∷ []) done, append_assoc)
  where
    kept :
        (if text_eq part [] || text_eq part dot
          then done
          else if text_eq part dot_dot
          then drop 1 done
          else part ∷ done)
        ≡ part ∷ done
    kept = ground (
      arith,
      h.0.named,
      h.0.not_here,
      h.0.not_up,
      text_eq_iff part [],
      text_eq_iff part dot,
      text_eq_iff part dot_dot,
    )

leads-append : (root parts : List Text) → leads root (root ++ parts) ≡ true
unfolding leads
leads-append [] parts = refl
leads-append (r ∷ root) parts = ground (arith, text_eq_iff r r, leads-append root parts)

-- Below a normal root a relative path is joined component by component, so its destination is the
-- root followed by the components, and the check of the common path never refuses it.
pub safe_join-below :
    (root : List Text) (relative : Text)
    → All IsPart root
    → IsRelative relative
    → safe_join root relative ≡ ok (root ++ split slash relative)
unfolding safe_join
safe_join-below root relative h r = rw (validate_relative_path_complete relative false r) (
    rw
      (normalize-parts (root ++ split slash relative) []
        (All-append IsPart root (split slash relative) h (IsRelative-split relative r)))
      (rw (leads-append root (split slash relative))))

-- Whatever text is joined, a destination that `safe_join` returns lies below the root, and no
-- component of it leads back up.
pub safe_join-contained :
    (root : List Text) (relative : Text) {destination : List Text}
    → All IsPart root
    → safe_join root relative ≡ ok destination
    → (destination ≡ root ++ split slash relative) × All IsPart (split slash relative)
safe_join-contained root relative {destination} h joined =
    contained (accepted (unfold safe_join in joined))
  where
    accepted :
        (do
          checked ← validate_relative_path relative false
          let found = normalize [] (root ++ split slash checked)
          if leads root found then ok found else err nx_error)
          ≡ ok destination
        → IsRelative relative
    accepted e =
        let (checked, v, _) = >>=-eq-ok (validate_relative_path relative false) _ e in
        relative_of (validate_relative_path_sound relative false v).1
      where
        relative_of :
            IsRelative relative ⊎ ((relative ≡ dot) × (false ≡ true)) → IsRelative relative
        relative_of (inl r) = r
        relative_of (inr (_, no_way)) = cc

    contained :
        IsRelative relative
        → (destination ≡ root ++ split slash relative) × All IsPart (split slash relative)
    contained r = (ground (arith, safe_join-below root relative h r), IsRelative-split relative r)

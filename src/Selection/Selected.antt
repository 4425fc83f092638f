-- ===== src/Selection/Selected.antt =====
-- The end of `resolve_plan` in nxextract/nxextract.py: the plan that is selected of those that were built.
use chrono_nextos.Prelude.{
  ◌≡◌, inl, inr, refl, sym, ap, ◌∙◌, true, not, List, [], ◌∷◌, All-at, In, and-true, all,
}
use chrono_nextos.Prelude.Text.{Text, text_eq, text_eq_iff}
use chrono_nextos.Fault.{ok, plan_error, refuse, refuse-not-ok, ok-injective, >>=-eq-ok}
use chrono_nextos.Selection.{Plan, sorted}
use chrono_nextos.Selection.Order.{
  IsOrder, rank_le-IsOrder, IsSorted, In-sorted, sorted-In, sorted-IsSorted, IsOrder-refl,
}
use chrono_nextos.Specs.Returns.{Returns}
use chrono_nextos.Selection.Build.{plan_le, plan_rank, first_plan, select_plan}

plan_le-IsOrder : (abis : List Text) → IsOrder (plan_le abis)
plan_le-IsOrder abis = record {
  total = λ p q. rank_le-IsOrder.total (plan_rank abis p) (plan_rank abis q);
  trans = λ p q r. rank_le-IsOrder.trans (plan_rank abis p) (plan_rank abis q) (plan_rank abis r);
}

-- A plan of the list that agrees with all of them in its fingerprint, and that none precedes.
pub record IsSelected (abis : List Text) (plans : List Plan) (plan : Plan) : Type 0 where
  pub one_of : In plan plans
  pub alike : (other : Plan) → In other plans → other.fingerprint ≡ plan.fingerprint
  pub first : (other : Plan) → In other plans → plan_le abis plan other ≡ true

all-text_eq :
    (fingerprint : Text) (plans : List Plan)
    → all (λ p. text_eq fingerprint p.fingerprint) plans ≡ true
    → (p : Plan) → In p plans
    → fingerprint ≡ p.fingerprint
all-text_eq fingerprint [] h p i = absurd (i tt)
all-text_eq fingerprint (q ∷ plans) h p i =
    let e = and-true (text_eq fingerprint q.fingerprint) _ h in
    elim i [
      | inl same ↦ (text_eq_iff fingerprint q.fingerprint).0 e.0 ∙ ap Plan.fingerprint (sym same)
      | inr j ↦ all-text_eq fingerprint plans e.1 p j
    ]

-- The first plan of those that are sorted.
first_plan-first :
    (abis : List Text) (plans : List Plan) (plan : Plan)
    → first_plan plans ≡ ok plan
    → IsSorted (plan_le abis) plans
    → In plan plans × ((other : Plan) → In other plans → plan_le abis plan other ≡ true)
first_plan-first abis [] plan h s = cc
first_plan-first abis (p ∷ plans) plan h s =
    let e : p ≡ plan = ok-injective h in
    let one : In plan (p ∷ plans) = inl (sym e) in
    (
      one,
      λ other i. elim i [
        | inl same ↦ rw (same, e) (IsOrder-refl (plan_le abis) (plan_le-IsOrder abis) plan)
        | inr j ↦ rw (← e) (All-at (λ q. plan_le abis p q ≡ true) plans s.0 j)
      ],
    )

pub select_plan-IsSelected :
    (abis : List Text) (plans : List Plan) {plan : Plan}
    → select_plan abis plans ≡ ok plan
    → IsSelected abis plans plan
unfolding select_plan
select_plan-IsSelected abis [] h = cc
select_plan-IsSelected abis (p ∷ plans) {plan} h =
    let (_, same, h1) =
      >>=-eq-ok (refuse (not (all (λ q. text_eq p.fingerprint q.fingerprint) plans)) plan_error) _
        h in
    let order = plan_le-IsOrder abis in
    let (one, first) =
      first_plan-first abis (sorted (plan_le abis) (p ∷ plans)) plan h1
        (sorted-IsSorted (plan_le abis) order (p ∷ plans)) in
    let prints : (q : Plan) → In q (p ∷ plans) → p.fingerprint ≡ q.fingerprint = λ q i. elim i [
      | inl e ↦ ap Plan.fingerprint (sym e)
      | inr j ↦ all-text_eq p.fingerprint plans (refuse-not-ok _ _ same) q j
    ] in
    let member = In-sorted (plan_le abis) plan (p ∷ plans) one in
    record {
      one_of = member;
      alike = λ other i. sym (prints other i) ∙ prints plan member;
      first = λ other i. first other (sorted-In (plan_le abis) other (p ∷ plans) i);
    }

text_eq-all :
    (fingerprint : Text) (plans : List Plan)
    → ((p : Plan) → In p plans → p.fingerprint ≡ fingerprint)
    → all (λ p. text_eq fingerprint p.fingerprint) plans ≡ true
text_eq-all fingerprint [] h = refl
text_eq-all fingerprint (q ∷ plans) h =
    rw ((text_eq_iff fingerprint q.fingerprint).1 (sym (h q (inl refl))))
      (text_eq-all fingerprint plans (λ p i. h p (inr i)))

first_plan-Returns : (plans : List Plan) (p : Plan) → In p plans → Returns (first_plan plans)
first_plan-Returns [] p i = absurd (i tt)
first_plan-Returns (q ∷ plans) p i = (q, refl)

pub select_plan-Returns :
    (abis : List Text) (plans : List Plan) (p : Plan)
    → In p plans
    → ((q : Plan) → In q plans → q.fingerprint ≡ p.fingerprint)
    → Returns (select_plan abis plans)
unfolding select_plan
select_plan-Returns abis [] p i alike = absurd (i tt)
select_plan-Returns abis (q ∷ plans) p i alike =
    let prints =
      text_eq-all q.fingerprint plans (λ r j. alike r (inr j) ∙ sym (alike q (inl refl))) in
    rw prints (
      first_plan-Returns (sorted (plan_le abis) (q ∷ plans)) p
        (sorted-In (plan_le abis) p (q ∷ plans) i))

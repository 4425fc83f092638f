-- ===== src/Selection/Resolution.antt =====
-- `resolve_plan` of nxextract/nxextract.py against what it promises.
use mathlib.Core.Path.{subst}
use chrono_nextos.Prelude.{
  ℕ, ◌≡◌, ◌⊎◌, inl, inr, refl, sym, ap, ◌∙◌, true, List, [], ◌∷◌, All, In, In-append_inv,
  Bool-cases, if◌then◌else◌,
}
use chrono_nextos.Prelude.Text.{Text}
use chrono_nextos.Fault.{Fault, Result, ok, err, ok-injective, ◌>>=◌, >>=-eq-ok}
use chrono_nextos.Json.{Value}
use chrono_nextos.Selection.{CandidateGroup, Plan}
use chrono_nextos.Specs.Returns.{Returns}
use chrono_nextos.Selection.Build.{
  Print, plan_le, is_failure, build_plan_for, keep_success, try_attempts, with_group, attempts,
  resolve_plan,
}
use chrono_nextos.Selection.Selected.{select_plan-IsSelected, select_plan-Returns}

Result-cases {ℓ} :
    {A : Type ℓ} (r : Result A) → ((a : A) × (r ≡ ok a)) ⊎ ((e : Fault) × (r ≡ err e))
Result-cases (ok a) = inl (a, refl)
Result-cases (err e) = inr (e, refl)

-- What the two loops try, and what they keep.
with_group-In :
    (group : CandidateGroup) (abis : List Text) (g : CandidateGroup) (a : Text)
    → In (g, a) (with_group group abis)
    → (g ≡ group) × In a abis
with_group-In group [] g a i = absurd (i tt)
with_group-In group (abi ∷ abis) g a (inl e) = (ap (λ t. t.0) e, inl (ap (λ t. t.1) e))
with_group-In group (abi ∷ abis) g a (inr j) =
    let (e, k) = with_group-In group abis g a j in (e, inr k)

pub attempts-In :
    (groups : List CandidateGroup) (abis : List Text) (g : CandidateGroup) (a : Text)
    → In (g, a) (attempts groups abis)
    → In g groups × In a abis
attempts-In [] abis g a i = absurd (i tt)
attempts-In (group ∷ groups) abis g a i =
    elim (In-append_inv (g, a) (with_group group abis) (attempts groups abis) i) [
      | inl j ↦ let (e, k) = with_group-In group abis g a j in (inl e, k)
      | inr j ↦ let (e, k) = attempts-In groups abis g a j in (inr e, k)
    ]

module _ (portable_path_key casefold lower_text : Text → Text) (crc32 : List ℕ → ℕ)
    (sha256 : List ℕ → Text) (digest : List Print → Text) (commit : List Text)
    (rules : List Value) where
  abbrev build : CandidateGroup × Text → Result Plan
  build (group, abi) =
      build_plan_for portable_path_key casefold lower_text crc32 sha256 digest commit rules group
        abi

  abbrev keep : List (CandidateGroup × Text) → Result (List Plan)
  keep tried =
      try_attempts portable_path_key casefold lower_text crc32 sha256 digest commit rules tried

  -- A plan that one of the attempts has built.
  abbrev pub Built : List (CandidateGroup × Text) → Plan → Type 0
  Built tried plan = (a : CandidateGroup × Text) × In a tried × (build a ≡ ok plan)

  -- An attempt that leads to the next candidate where it builds no plan.
  abbrev pub Tolerable : CandidateGroup × Text → Type 0
  Tolerable a = Returns (build a) ⊎ ((e : Fault) × (build a ≡ err e) × (is_failure e ≡ true))

  keep-ok :
      (a : CandidateGroup × Text) (more : List (CandidateGroup × Text)) {p : Plan}
      → build a ≡ ok p
      → keep (a ∷ more) ≡ (keep more >>= λ plans. ok (p ∷ plans))
  unfolding try_attempts keep_success
  keep-ok (group, abi) more e = rw (try_attempts, e) refl

  keep-err :
      (a : CandidateGroup × Text) (more : List (CandidateGroup × Text)) {e : Fault}
      → build a ≡ err e
      → keep (a ∷ more) ≡ (if is_failure e then keep more else err e)
  unfolding try_attempts keep_success
  keep-err (group, abi) more e = rw (try_attempts, e) refl

  Built-more :
      (a : CandidateGroup × Text) (more : List (CandidateGroup × Text)) (p : Plan)
      → Built more p
      → Built (a ∷ more) p
  Built-more a more p (b, i, made) = (b, inr i, made)

  -- What is kept is what the attempts have built.
  try_attempts-Built :
      (tried : List (CandidateGroup × Text)) {plans : List Plan}
      → keep tried ≡ ok plans
      → ((p : Plan) → In p plans → Built tried p) × ((p : Plan) → Built tried p → In p plans)
  unfolding try_attempts
  try_attempts-Built [] {plans} h =
      let e : [] ≡ plans = ok-injective h in
      (λ p i. absurd ((rw (← e) at i) tt), λ p (b, i, _). absurd (i tt))
  try_attempts-Built (a ∷ more) {plans} h = elim (Result-cases (build a)) [
    | inl (made, e) ↦
        let (rest, kept, h1) = >>=-eq-ok (keep more) _ (sym (keep-ok a more e) ∙ h) in
        let (sound, complete) = try_attempts-Built more kept in
        subst
          (λ ps.
            ((p : Plan) → In p ps → Built (a ∷ more) p)
            × ((p : Plan) → Built (a ∷ more) p → In p ps))
          (ok-injective h1)
          (
            λ p i. elim i [
              | inl same ↦ (a, inl refl, rw same e)
              | inr j ↦ Built-more a more p (sound p j)
            ],
            λ p (b, i, is). elim i [
              | inl same ↦ inl (ok-injective (sym is ∙ ap build same ∙ e))
              | inr j ↦ inr (complete p (b, j, is))
            ],
          )
    | inr (fault, e) ↦ elim (Bool-cases (is_failure fault)) [
      | inr f ↦ let g = rw f at (sym (keep-err a more e) ∙ h) in cc
      | inl f ↦
          let (sound, complete) = try_attempts-Built more (rw f at (sym (keep-err a more e) ∙ h)) in
          (
            λ p i. Built-more a more p (sound p i),
            λ p (b, i, is). elim i [
              | inl same ↦ let g = sym is ∙ ap build same ∙ e in cc
              | inr j ↦ complete p (b, j, is)
            ],
          )
    ]
  ]

  try_attempts-Returns :
      (tried : List (CandidateGroup × Text)) → All Tolerable tried → Returns (keep tried)
  unfolding try_attempts
  try_attempts-Returns [] t = ([], refl)
  try_attempts-Returns (a ∷ more) t =
      let (plans, kept) = try_attempts-Returns more t.1 in
      elim t.0 [
        | inl (p, e) ↦ (p ∷ plans, keep-ok a more e ∙ rw kept refl)
        | inr (fault, e, f) ↦ (plans, keep-err a more e ∙ rw f kept)
      ]

  -- The specification of `resolve_plan`: a plan that some group and ABI give, with the fingerprint of
  -- all such plans, and at least as high in the order as any of them.
  pub record IsResolution (groups : List CandidateGroup) (abis : List Text) (plan : Plan)
      : Type 0 where
    pub built : Built (attempts groups abis) plan
    pub alike :
        (other : Plan) → Built (attempts groups abis) other → other.fingerprint ≡ plan.fingerprint
    pub first : (other : Plan) → Built (attempts groups abis) other → plan_le abis plan other ≡ true

  abbrev resolve : List CandidateGroup → List Text → Result Plan
  resolve groups abis =
      resolve_plan portable_path_key casefold lower_text crc32 sha256 digest commit rules groups
        abis

  -- A plan that is returned is one that some group and ABI give; all plans that the groups and ABIs
  -- give have its fingerprint, and none of them comes before it in the order by ABI, by kind of
  -- source and by description.
  pub resolve_plan-IsResolution :
      (groups : List CandidateGroup) (abis : List Text) {plan : Plan}
      → resolve groups abis ≡ ok plan
      → IsResolution groups abis plan
  unfolding resolve_plan
  resolve_plan-IsResolution groups abis {plan} h =
      let (plans, kept, h1) = >>=-eq-ok (keep (attempts groups abis)) _ h in
      let (sound, complete) = try_attempts-Built (attempts groups abis) kept in
      let s = select_plan-IsSelected abis plans h1 in
      record {
        built = sound plan s.one_of;
        alike = λ other b. s.alike other (complete other b);
        first = λ other b. s.first other (complete other b);
      }

  -- Where each attempt builds a plan or fails with an error that leads to the next candidate, some
  -- attempt builds one, and all that are built have one fingerprint, a plan is returned, and it meets
  -- the specification.
  pub resolve_plan-Returns :
      (groups : List CandidateGroup) (abis : List Text) (plan : Plan)
      → All Tolerable (attempts groups abis)
      → Built (attempts groups abis) plan
      → ((other : Plan) → Built (attempts groups abis) other → other.fingerprint ≡ plan.fingerprint)
      → (chosen : Plan) × (resolve groups abis ≡ ok chosen) × IsResolution groups abis chosen
  unfolding resolve_plan
  resolve_plan-Returns groups abis plan t b alike =
      let (plans, kept) = try_attempts-Returns (attempts groups abis) t in
      let (sound, complete) = try_attempts-Built (attempts groups abis) kept in
      let (chosen, selected) =
        select_plan-Returns abis plans plan (complete plan b) (λ q i. alike q (sound q i)) in
      let returned : resolve groups abis ≡ ok chosen = rw kept selected in
      (chosen, returned, resolve_plan-IsResolution groups abis returned)

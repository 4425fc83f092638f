-- ===== src/Specs/Returns.antt =====
-- When a check of a specification is no exception.
use chrono_nextos.Prelude.{
  ℕ, String, ◌≡◌, inl, inr, refl, Bool, true, false, not, ◌&&◌, List, [], ◌∷◌, arith, In,
  Bool-cases,
}
use chrono_nextos.Fault.{Result, ok, err, refuse-ok, ◌>>=◌, >>=-eq-ok}
use chrono_nextos.Json.{Value, null, num, Fields, get, has_key, is_null}
use chrono_nextos.Candidates.Checks.{below, above, unless, stop_if, get_either}
use chrono_nextos.Marker.{is_natural}
use chrono_nextos.Specs.{check_number, check_numbers, less, and_also, either}

-- A result that is no exception.
abbrev pub Returns {ℓ} : {A : Type ℓ} → Result A → Type ℓ
Returns {A} r = (a : A) × (r ≡ ok a)

-- Where a key is there, its value is a natural number.
abbrev pub HasNumber : Fields → String → Type 0
HasNumber spec key = has_key key spec ≡ true → (n : ℕ) × (get key spec ≡ num n)

natural_of : (value : Value) → is_natural value ≡ true → (n : ℕ) × (value ≡ num n)
natural_of (Value.num n) h = (n, refl)
natural_of Value.null h = cc
natural_of (Value.bool b) h = cc
natural_of (Value.negative n) h = cc
natural_of (Value.str s) h = cc
natural_of (Value.arr a) h = cc
natural_of (Value.obj o) h = cc

check_number-HasNumber :
    (spec : Fields) (key : String) {u : Unit {0}}
    → check_number spec key ≡ ok u
    → HasNumber spec key
unfolding check_number
check_number-HasNumber spec key h there =
    natural_of (get key spec)
      (yes (has_key key spec) (is_natural (get key spec)) there (refuse-ok _ _ h))
  where
    yes : (a b : Bool) → a ≡ true → (a && not b) ≡ false → b ≡ true
    yes a b x y = ground arith

pub check_numbers-HasNumber :
    (spec : Fields) (keys : List String) {u : Unit {0}}
    → check_numbers spec keys ≡ ok u
    → (key : String) → In key keys
    → HasNumber spec key
check_numbers-HasNumber spec [] h key i = absurd (i tt)
check_numbers-HasNumber spec (k ∷ keys) h key i =
    let (_, first, rest) = >>=-eq-ok (check_number spec k) (λ _. check_numbers spec keys) h in
    elim i [
      | inl e ↦ rw e (check_number-HasNumber spec k first)
      | inr j ↦ check_numbers-HasNumber spec keys rest key j
    ]

pub Returns-unless :
    (present : Bool) (test rest : Result Bool)
    → (present ≡ true → Returns test)
    → Returns rest
    → Returns (unless present test rest)
Returns-unless false test rest h r = r
Returns-unless true (ok true) rest h r = (false, refl)
Returns-unless true (ok false) rest h r = r
Returns-unless true (err e) rest h r = let (b, e) = h refl in cc

pub Returns-below : (n : ℕ) (value : Value) → (m : ℕ) × (value ≡ num m) → Returns (below n value)
Returns-below n value (m, e) = rw e (_, refl)

pub Returns-above : (n : ℕ) (value : Value) → (m : ℕ) × (value ≡ num m) → Returns (above n value)
Returns-above n value (m, e) = rw e (_, refl)

pub Returns-bind {ℓ κ} :
    {A : Type ℓ} {B : Type κ} (m : Result A) (f : A → Result B)
    → Returns m
    → ((a : A) → Returns (f a))
    → Returns (m >>= f)
Returns-bind (ok a) f r k = k a
Returns-bind (err e) f (a, h) k = cc

pub Returns-stop_if : (b : Bool) (rest : Result Bool) → Returns rest → Returns (stop_if b rest)
Returns-stop_if true rest r = (false, refl)
Returns-stop_if false rest r = r

pub get-missing :
    (key : String) (fields : Fields) → has_key key fields ≡ false → get key fields ≡ null
get-missing key Fields.end h = refl
get-missing key (Fields.entry k v rest) h = ground (arith, get-missing key rest)

pub number_either :
    (spec : Fields) (key alias_ : String)
    → HasNumber spec key
    → HasNumber spec alias_
    → not (is_null (get_either key alias_ spec)) ≡ true
    → (n : ℕ) × (get_either key alias_ spec ≡ num n)
number_either spec key alias_ hk ha there = elim (Bool-cases (has_key key spec)) [
  | inl e ↦ let (n, is) = hk e in (n, rw (e, is) refl)
  | inr e ↦ elim (Bool-cases (has_key alias_ spec)) [
    | inl f ↦ let (n, is) = ha f in (n, rw (e, is) refl)
    | inr f ↦ let no_way : false ≡ true = rw (e, get-missing alias_ spec f) at there in cc
  ]
]

-- Comparisons of bounds that are numbers where they are given.
abbrev IsNumber : Value → Type 0
IsNumber value = (n : ℕ) × (value ≡ num n)

Returns-less : (a b : Value) → IsNumber a → IsNumber b → Returns (less a b)
Returns-less a b (n, ea) (m, eb) = rw (ea, eb) (_, refl)

Returns-and_also :
    (p : Bool) (test : Result Bool) → (p ≡ true → Returns test) → Returns (and_also p test)
Returns-and_also false test h = (false, refl)
Returns-and_also true test h = h refl

Returns-either : (a b : Result Bool) → Returns a → Returns b → Returns (either a b)
Returns-either (ok true) b ha hb = (true, refl)
Returns-either (ok false) b ha hb = hb
Returns-either (err e) b (x, h) hb = cc

pub Returns-exact :
    (has_exact has_minimum has_maximum : Bool) (exact minimum maximum : Value)
    → (has_exact ≡ true → IsNumber exact)
    → (has_minimum ≡ true → IsNumber minimum)
    → (has_maximum ≡ true → IsNumber maximum)
    → Returns (
        and_also has_exact (
          either
            (and_also has_minimum (less exact minimum))
            (and_also has_maximum (less maximum exact))))
Returns-exact has_exact has_minimum has_maximum exact minimum maximum he hm hx =
    Returns-and_also has_exact _ (λ e.
      Returns-either _ _
        (Returns-and_also has_minimum _ (λ m. Returns-less exact minimum (he e) (hm m)))
        (Returns-and_also has_maximum _ (λ x. Returns-less maximum exact (hx x) (he e))))

pub Returns-crossed :
    (has_minimum has_maximum : Bool) (minimum maximum : Value)
    → (has_minimum ≡ true → IsNumber minimum)
    → (has_maximum ≡ true → IsNumber maximum)
    → Returns (and_also has_minimum (and_also has_maximum (less maximum minimum)))
Returns-crossed has_minimum has_maximum minimum maximum hm hx =
    Returns-and_also has_minimum _
      (λ m. Returns-and_also has_maximum _ (λ x. Returns-less maximum minimum (hx x) (hm m)))

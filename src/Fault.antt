-- ===== src/Fault.antt =====
-- The exception classes of nxextract/nxextract.py and the results of functions that raise them.
-- The text of a message is not kept: no code branches on it.
use chrono_nextos.Prelude.{String, ◌≡◌, refl, Bool, true, false, not}

-- The classes that `stable_error_code` tells apart; `other` is any other `Exception`.
pub data Fault : Type 0 where
  recipe_error source_error plan_error validation_error nx_error : Fault
  bad_zip_file not_implemented_error runtime_error os_error other : Fault

unfoldable pub stable_error_code : Fault → String
stable_error_code recipe_error = "NXE1001"
stable_error_code bad_zip_file = "NXE2002"
stable_error_code source_error = "NXE2001"
stable_error_code plan_error = "NXE3001"
stable_error_code validation_error = "NXE4001"
stable_error_code not_implemented_error = "NXE5002"
stable_error_code runtime_error = "NXE5001"
stable_error_code os_error = "NXE6001"
stable_error_code nx_error = "NXE7001"
stable_error_code other = "NXE9001"

-- `isinstance(error, NXError)`
unfoldable pub is_nx_error : Fault → Bool
is_nx_error recipe_error = true
is_nx_error source_error = true
is_nx_error plan_error = true
is_nx_error validation_error = true
is_nx_error nx_error = true
is_nx_error _ = false

pub data Result {ℓ} (A : Type ℓ) : Type ℓ where
  ok : A → Result A
  err : Fault → Result A

infixl 5 ◌>>=◌ ◌>>◌
abbrev pub ◌>>=◌ {ℓ κ} : {X : Type ℓ} {Y : Type κ} → Result X → (X → Result Y) → Result Y
ok x >>= next = next x
err fault >>= next = err fault

abbrev pub ◌>>◌ {ℓ} : {B : Type ℓ} → Result (Unit {0}) → Result B → Result B
m >> k = m >>= λ _. k

-- `if test: raise error`
abbrev pub refuse : Bool → Fault → Result (Unit {0})
refuse true e = err e
refuse false e = ok tt

pub refuse-ok : (b : Bool) (e : Fault) {u : Unit {0}} → refuse b e ≡ ok u → b ≡ false
refuse-ok true e h = cc
refuse-ok false e h = refl

-- What is returned has been returned step by step.
pub >>=-eq-ok {ℓ κ} :
    {X : Type ℓ} {Y : Type κ} (first : Result X) (next : X → Result Y) {y : Y}
    → (first >>= next) ≡ ok y
    → (x : X) × (first ≡ ok x) × (next x ≡ ok y)
>>=-eq-ok (ok x) next returned = (x, refl, returned)
>>=-eq-ok (err e) next returned = cc

pub refuse-not-ok : (b : Bool) (e : Fault) {u : Unit {0}} → refuse (not b) e ≡ ok u → b ≡ true
refuse-not-ok true e h = refl
refuse-not-ok false e h = cc

pub ok-injective {ℓ} : {A : Type ℓ} {a b : A} → ok a ≡ ok b → a ≡ b
ok-injective h = cc

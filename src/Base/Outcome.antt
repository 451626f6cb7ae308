-- ===== src/Base/Outcome.antt =====
-- What a call of a kernel function can come to: a result, a failed `assert` (which calls `panic` of
-- include/truth/panic.h and halts the machine), an access that C leaves undefined, or no return at
-- all, at a lock that its caller has.
use mathlib.Core.Path.{◌≡◌, refl, ap}
use mathlib.Core.Bool.{Bool, true, false}

pub data Run {ℓ} (A : Type ℓ) : Type ℓ where
  ok : A → Run A
  panic : Run A
  fault : Run A
  stuck : Run A

-- A call that does not return ends the computation; else its result goes on.
abbrev pub ◌>>=◌ {ℓ κ} : {A : Type ℓ} {B : Type κ} (call : Run A) (go_on : A → Run B) → Run B
fault >>= go_on = fault
stuck >>= go_on = stuck
panic >>= go_on = panic
ok result >>= go_on = go_on result

abbrev pub ◌>>◌ {ℓ} : {B : Type ℓ} (check : Run (Unit {0})) (then_do : Run B) → Run B
check >> then_do = check >>= (λ _. then_do)

infixl 5 ◌>>=◌ ◌>>◌
-- The macro `assert`.
abbrev pub assert : Bool → Run (Unit {0})
assert true = ok tt
assert false = panic

-- A sequence of calls that has returned: its first call has, and then the rest.
pub >>=-eq-ok {ℓ κ} :
    {A : Type ℓ} {B : Type κ} (call : Run A) (go_on : A → Run B) {result : B}
    (returned : (call >>= go_on) ≡ ok result)
    → (value : A) × (call ≡ ok value) × (go_on value ≡ ok result)
>>=-eq-ok fault go_on returned = cc
>>=-eq-ok stuck go_on returned = cc
>>=-eq-ok panic go_on returned = cc
>>=-eq-ok (ok value) go_on returned = (value, refl, returned)

abbrev pub result_or {ℓ} : {A : Type ℓ} → A → Run A → A
result_or other (ok result) = result
result_or other _ = other

-- A call that returns has one result.
pub ok_injective {ℓ} : {A : Type ℓ} {a b : A} → ok a ≡ ok b → a ≡ b
ok_injective {a = a} e = ap (result_or a) e

pub fault_returns {ℓ κ} : {A : Type ℓ} {a : A} {P : Type κ} → fault ≡ ok a → P
fault_returns e = cc

-- ===== src/Prelude/Panics.antt =====
-- What a call does that may panic: an `assert!`, an `unwrap` of nothing, an index out of range.
use mathlib.Core.Path.{◌≡◌, refl}
use mathlib.Core.Bool.{Bool, true, false}
use mathlib.Core.Option.{Option, none, some}

pub data Outcome {ℓ} (A : Type ℓ) : Type ℓ where
  ok : A → Outcome A
  panic : Outcome A

-- What follows a call that returned; a panic stays one.
infixl 5 ◌>>=◌
abbrev pub ◌>>=◌ {ℓ κ} :
    {Found : Type ℓ} {Next : Type κ} → Outcome Found → (Found → Outcome Next) → Outcome Next
panic >>= next = panic
ok found >>= next = next found

-- `o.unwrap()`
abbrev pub unwrap {ℓ} : {A : Type ℓ} → Option A → Outcome A
unwrap none = panic
unwrap (some a) = ok a

-- `assert!(b)`
abbrev pub check : Bool → Outcome (Unit {0})
check true = ok tt
check false = panic

infixl 5 ◌>>◌
abbrev pub ◌>>◌ {ℓ} : {Next : Type ℓ} → Outcome (Unit {0}) → Outcome Next → Outcome Next
checked >> next = checked >>= λ _. next

-- The parts of a call that returned.
pub >>=-eq-ok {ℓ κ} :
    {Found : Type ℓ} {Next : Type κ} (o : Outcome Found) (next : Found → Outcome Next) {last : Next}
    → (o >>= next) ≡ ok last
    → (found : Found) × (o ≡ ok found) × (next found ≡ ok last)
>>=-eq-ok panic next returned = cc
>>=-eq-ok (ok found) next returned = (found, refl, returned)

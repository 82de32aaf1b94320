-- ===== src/Session/Check.antt =====
-- Chains of checks that only read: a value, or the exception of the first check that fails.
use online_banking_system.Prelude.{◌≡◌, refl, Bool, true, false, Option, none, some}
use online_banking_system.Db.{Error}

-- What a method leaves behind: the exception, or the value.
pub data Result {ℓ} (A : Type ℓ) : Type ℓ where
  err : Error → Result A
  ok : A → Result A

module _ {ℓ κ} {A : Type ℓ} {B : Type κ} where
  infixl 5 ◌>>=◌
  abbrev pub ◌>>=◌ : Result A → (A → Result B) → Result B
  err e >>= next = err e
  ok value >>= next = next value

-- A check whose value is not used.
infixl 5 ◌>>◌
abbrev pub ◌>>◌ {ℓ} : {A : Type ℓ} → Result (Unit {0}) → Result A → Result A
guard >> rest = guard >>= (λ _. rest)

-- `if not b: raise e`
abbrev pub require : Bool → Error → Result (Unit {0})
require true e = ok tt
require false e = err e

-- `if b: raise e`
abbrev pub refuse : Bool → Error → Result (Unit {0})
refuse true e = err e
refuse false e = ok tt

-- `if x is None: raise e`
abbrev pub or_raise {ℓ} : {A : Type ℓ} → Option A → Error → Result A
or_raise none e = err e
or_raise (some a) e = ok a

-- What passed a refusal.
pub refuse-ok : (b : Bool) (e : Error) → refuse b e ≡ ok tt → b ≡ false
refuse-ok true e passed = cc passed
refuse-ok false e passed = refl

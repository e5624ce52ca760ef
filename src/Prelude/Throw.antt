-- ===== src/Prelude/Throw.antt =====
-- A computation that may throw `new Error(message)`, as a value.
use Prim.Native.String.{String}
use mathlib.Core.Path.{◌≡◌, refl}
use mathlib.Core.Bool.{Bool, true, false}
use native.Mathlib.Omega.{arith}

pub data Result {ℓ} (A : Type ℓ) : Type ℓ where
  err : (message : String) → Result A
  ok : (value : A) → Result A

-- A throw leaves the rest undone.
abbrev pub ◌>>=◌ {ℓ κ} : {A : Type ℓ} {B : Type κ} (m : Result A) (rest : A → Result B) → Result B
err message >>= rest = err message
ok value >>= rest = rest value

-- `if (!test) throw new Error(message)`
abbrev pub require : Bool → String → Result (Unit {0})
require true message = ok tt
require false message = err message

abbrev pub ◌>>◌ {κ} : {B : Type κ} (test : Result (Unit {0})) (rest : Result B) → Result B
test >> rest = test >>= λ _. rest

infixl 5 ◌>>=◌ ◌>>◌
-- A bind that returned had a first part that returned.
pub >>=-eq-ok {ℓ κ} :
    {A : Type ℓ} {B : Type κ} (m : Result A) (rest : A → Result B) {b : B}
    → (m >>= rest) ≡ ok b
    → (a : A) × (m ≡ ok a) × (rest a ≡ ok b)
>>=-eq-ok (err message) rest h = cc
>>=-eq-ok (ok value) rest h = (value, refl, h)

pub require-eq-ok : (b : Bool) (m : String) → require b m ≡ ok tt → b ≡ true
require-eq-ok b m h = ground arith

-- ===== src/Prelude/Results.antt =====
-- Results of code that throws, and of loops on fuel.
use Prim.Native.Nat.{ℕ}
use Prim.Native.String.{String}
use mathlib.Core.Path.{◌≡◌, refl}
use mathlib.Core.Bool.{Bool, true, false}
use mathlib.Core.List.{List}

-- What the code throws: `std::runtime_error(message)`, the same with a text appended to the message,
-- a `boost::system::system_error`, the `std::invalid_argument` and `std::out_of_range` of `std::stoi`,
-- and `out_of_bounds` for an access outside of an array, which C++ leaves undefined.
pub data Error : Type 0 where
  runtime_error : String → Error
  runtime_error_about : String → List ℕ → Error
  system_error : Error
  invalid_argument : Error
  out_of_range : Error
  out_of_bounds : Error

-- `stuck`: the fuel of a loop ran out.
pub data Result {ℓ} (A : Type ℓ) : Type ℓ where
  ok : A → Result A
  err : Error → Result A
  stuck : Result A

-- `require(test, message)` of core/utils.cpp.
abbrev pub require : Bool → String → Result (Unit {0})
require false message = err (runtime_error message)
require true message = ok tt

infixl 5 ◌>>=◌ ◌>>◌
abbrev pub ◌>>=◌ {ℓ κ} : {A : Type ℓ} {B : Type κ} → Result A → (A → Result B) → Result B
stuck >>= next = stuck
err thrown >>= next = err thrown
ok value >>= next = next value

abbrev pub ◌>>◌ {κ} : {B : Type κ} → Result (Unit {0}) → Result B → Result B
check >> rest = check >>= λ _. rest

-- A bind that returns has a first part that returns.
pub >>=-eq-ok {ℓ κ} :
    {A : Type ℓ} {B : Type κ} (first : Result A) (next : A → Result B) {result : B}
    → (first >>= next) ≡ ok result
    → (value : A) × (first ≡ ok value) × (next value ≡ ok result)
>>=-eq-ok stuck next returns = cc
>>=-eq-ok (err thrown) next returns = cc
>>=-eq-ok (ok value) next returns = (value, refl, returns)

pub ok_injective {ℓ} : {A : Type ℓ} {a b : A} → ok a ≡ ok b → a ≡ b
ok_injective e = cc

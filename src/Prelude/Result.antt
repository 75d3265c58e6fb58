-- ===== src/Prelude/Result.antt =====
-- Python's exceptions as values, and the chains of statements that may raise.
use Prim.Native.Nat.{ℕ}
use mathlib.Core.Bool.{Bool, true, false}
use mathlib.Core.Path.{◌≡◌, refl}
use mathlib.Core.Logic.{◌⊎◌, inl, inr}

-- What the modelled code raises. `http` is FastAPI's `HTTPException` with its status code.
pub data Error : Type 0 where
  http : ℕ → Error
  stale_turn step_mismatch value_error type_error overflow_error validation_error : Error
  integrity_error model_not_allowed multiple_results provider_error key_error assertion_error :
      Error
  runtime_error index_error attribute_error system_exit zero_division_error : Error

pub data Result {ℓ} (A : Type ℓ) : Type ℓ where
  err : Error → Result A
  ok : A → Result A

-- What follows a statement: nothing, if the statement raised.
abbrev pub follow {ℓ κ} : {A : Type ℓ} {B : Type κ} → (A → Result B) → Result A → Result B
follow f (err e) = err e
follow f (ok a) = f a

infixl 5 ◌>>=◌ ◌>>◌
abbrev pub ◌>>=◌ {ℓ κ} : {A : Type ℓ} {B : Type κ} → Result A → (A → Result B) → Result B
r >>= f = follow f r

abbrev pub ◌>>◌ {κ} : {B : Type κ} → Result (Unit {0}) → Result B → Result B
r >> s = follow (λ _. s) r

-- `if test: raise error`
abbrev pub raise_if : Bool → Error → Result (Unit {0})
raise_if false error = ok tt
raise_if true error = err error

-- A chain that got through got through its first statement.
pub >>=-ok_inv {ℓ κ} :
    {A : Type ℓ} {B : Type κ} (r : Result A) (f : A → Result B) {b : B}
    → (r >>= f) ≡ ok b
    → (a : A) × (r ≡ ok a) × (f a ≡ ok b)
>>=-ok_inv (err e) f h = cc
>>=-ok_inv (ok a) f h = (a, refl, h)

pub Result-cases {ℓ} :
    {A : Type ℓ} (r : Result A) → ((a : A) × (r ≡ ok a)) ⊎ ((e : Error) × (r ≡ err e))
Result-cases (ok a) = inl (a, refl)
Result-cases (err e) = inr (e, refl)

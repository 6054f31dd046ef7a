-- ===== src/Result.antt =====
-- What a Python function returns or raises. `value_error` carries the message of a `ValueError`;
-- `unicode_error` is the `UnicodeError` below it; `struct_error`, of the module `struct`, is not a
-- `ValueError`. `no_fuel` and `outside` are no Python errors: a loop of the model ran out of fuel,
-- and a number is negative that the model takes to be natural.
use mathlib.Core.Path.{subst}
use ssync.Prelude.{arith, String, ◌≡◌, refl, Bool, true, false, ◌⊎◌, inl, inr}

pub data Error : Type 0 where
  value_error : String → Error
  unicode_error : Error
  struct_error : Error
  attribute_error : Error
  timeout_error : Error
  no_fuel : Error
  outside : Error

pub data Result {ℓ} (A : Type ℓ) : Type ℓ where
  ok : A → Result A
  err : Error → Result A

infixl 5 ◌>>=◌ ◌>>◌
-- The rest of a function runs on what the call returned; an error ends it.
abbrev pub ◌>>=◌ {μ ν} : {X : Type μ} {Y : Type ν} (r : Result X) → (X → Result Y) → Result Y
err raised >>= continue = err raised
ok returned >>= continue = continue returned

abbrev pub ◌>>◌ {ν} : {Y : Type ν} → Result (Unit {0}) → Result Y → Result Y
check >> rest = check >>= λ _. rest

-- `if test: raise ValueError(message)`
abbrev pub raise_if : Bool → String → Result (Unit {0})
raise_if true message = err (value_error message)
raise_if false message = ok tt

-- What `except ValueError` catches.
abbrev pub is_value_error : Error → Bool
is_value_error (value_error message) = true
is_value_error unicode_error = true
is_value_error _ = false

pub Result-cases {ℓ} :
    {A : Type ℓ} (r : Result A) → ((a : A) × (r ≡ ok a)) ⊎ ((e : Error) × (r ≡ err e))
Result-cases (ok a) = inl (a, refl)
Result-cases (err e) = inr (e, refl)

-- The call returns, or raises an error that `except ValueError` catches.
pub record OnlyValueErrors {ℓ} {A : Type ℓ} (r : Result A) : Type ℓ where
  pub caught : (e : Error) → r ≡ err e → is_value_error e ≡ true

-- A `try ... except ValueError` around the call does not let an error through.
abbrev pub returns_or_caught {ℓ} : {A : Type ℓ} → Result A → Bool
returns_or_caught (ok a) = true
returns_or_caught (err e) = is_value_error e

pub OnlyValueErrors→caught {ℓ} :
    {A : Type ℓ} (r : Result A) → OnlyValueErrors r → returns_or_caught r ≡ true
OnlyValueErrors→caught (ok a) h = refl
OnlyValueErrors→caught (err e) h = h.caught e refl

module _ {ℓ} {A : Type ℓ} where
  pub OnlyValueErrors-ok : (a : A) → OnlyValueErrors (ok a)
  OnlyValueErrors-ok a = record { caught = λ e p. cc }

  pub OnlyValueErrors-value_error :
      (message : String) → OnlyValueErrors {A = A} (err (value_error message))
  OnlyValueErrors-value_error message = record { caught = λ e p. ground arith }

  pub OnlyValueErrors-unicode_error : OnlyValueErrors {A = A} (err unicode_error)
  OnlyValueErrors-unicode_error = record { caught = λ e p. ground arith }

module _ {ℓ κ} {A : Type ℓ} {B : Type κ} where
  pub OnlyValueErrors-bind :
      (m : Result A) (f : A → Result B)
      → OnlyValueErrors m
      → ((a : A) → OnlyValueErrors (f a))
      → OnlyValueErrors (m >>= f)
  OnlyValueErrors-bind (ok a) f h k = k a
  OnlyValueErrors-bind (err e) f h k = record { caught = λ x p. h.caught x (cc) }

module _ {ℓ} {B : Type ℓ} where
  -- Behind a test that did not raise.
  pub OnlyValueErrors-raise_if :
      (b : Bool) (message : String) (k : Result B)
      → (b ≡ false → OnlyValueErrors k)
      → OnlyValueErrors (raise_if b message >> k)
  OnlyValueErrors-raise_if true message k h = OnlyValueErrors-value_error message
  OnlyValueErrors-raise_if false message k h = h refl

-- A property of what a call returns, where it returns.
pub record Ensures {ℓ κ} {A : Type ℓ} (P : A → Type κ) (r : Result A) : Type (ℓ ⊔ κ) where
  pub at : (a : A) → r ≡ ok a → P a

module _ {ℓ κ μ} {A : Type ℓ} {B : Type κ} {P : B → Type μ} where
  pub Ensures-bind :
      (m : Result A) (f : A → Result B)
      → ((a : A) → m ≡ ok a → Ensures P (f a))
      → Ensures P (m >>= f)
  Ensures-bind (ok a) f h = h a refl
  Ensures-bind (err e) f h = record { at = λ b p. cc }

module _ {ℓ μ} {B : Type ℓ} {P : B → Type μ} where
  pub Ensures-ok : (b : B) → P b → Ensures P (ok b)
  Ensures-ok b h = record { at = λ a e. subst P (cc) h }

  pub Ensures-err : (e : Error) → Ensures P (err e)
  Ensures-err e = record { at = λ a p. cc }

  pub Ensures-raise_if :
      (b : Bool) (message : String) (k : Result B)
      → (b ≡ false → Ensures P k)
      → Ensures P (raise_if b message >> k)
  Ensures-raise_if true message k h = Ensures-err (value_error message)
  Ensures-raise_if false message k h = h refl

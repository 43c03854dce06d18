-- ===== src/Result.antt =====
-- The errors of vsm/errors.py with Python's `KeyError` and Pydantic's `ValidationError`, and functions that return a value or raise
-- one of them. A message is the fixed text of the source, with an identifier behind it where the
-- source puts one at its end; identifiers in its middle are left out.
use mathlib.Core.Path.{subst}
use nanihold_os.Prelude.{ℕ, String, ◌≡◌, refl, Bool, true, false, Option, none, some, if◌then◌else◌}

pub data Error : Type 0 where
  configuration_error : String → Error
  invariant_violation : String → Error
  stream_conflict : String → ℕ → ℕ → Error
  model_mismatch : String → Error
  reconciliation_required : String → Error
  key_error : String → Error
  validation_error : String → Error

-- What a method returns, or what it raises.
pub data Result {ℓ} (V : Type ℓ) : Type ℓ where
  err : Error → Result V
  ok : V → Result V

infixl 5 ◌>>=◌
infixl 5 ◌>>◌
-- The rest of a method runs on the value that the first part has returned.
abbrev pub ◌>>=◌ {κ ℓ} : {V : Type κ} {W : Type ℓ} → Result V → (V → Result W) → Result W
err raised >>= rest = err raised
ok value >>= rest = rest value

-- A guard, and the rest of the method.
abbrev pub ◌>>◌ {ℓ} : {W : Type ℓ} → Result (Unit {0}) → Result W → Result W
guard >> rest = guard >>= (λ passed. rest)

-- `if test: raise InvariantViolation(message)`
abbrev pub raise_if : Bool → String → Result (Unit {0})
raise_if true message = err (invariant_violation message)
raise_if false message = ok tt

-- `if x is None: raise InvariantViolation(message)`
abbrev pub require_some {ℓ} : {A : Type ℓ} → Option A → String → Result A
require_some none message = err (invariant_violation message)
require_some (some a) message = ok a

-- A lookup `d[key]`: Python's `KeyError` where the key is missing.
abbrev pub require_key {ℓ} : {A : Type ℓ} → Option A → String → Result A
require_key none key = err (key_error key)
require_key (some a) key = ok a

-- Every value that is returned satisfies `P`.
pub record Ensures {ℓ κ} {A : Type ℓ} (P : A → Type κ) (r : Result A) : Type (ℓ ⊔ κ) where
  pub at : (a : A) → r ≡ ok a → P a

module _ {ℓ κ} {A : Type ℓ} {P : A → Type κ} where
  pub Ensures-ok : {a : A} → P a → Ensures P (ok a)
  Ensures-ok h = record { at = λ b e. subst P (cc) h }

  pub Ensures-err : (e : Error) → Ensures P (err e)
  Ensures-err e = record { at = λ b q. cc }

  -- What follows a guard that let the call pass may use that its test was false.
  pub Ensures-raise_if :
      (b : Bool) (message : String) (m : Unit {0} → Result A)
      → (b ≡ false → Ensures P (m tt))
      → Ensures P (raise_if b message >>= m)
  Ensures-raise_if true message m k = Ensures-err _
  Ensures-raise_if false message m k = k refl

  pub Ensures-bind :
      {B : Type ℓ} (r : Result B) (f : B → Result A)
      → ((b : B) → r ≡ ok b → Ensures P (f b))
      → Ensures P (r >>= f)
  Ensures-bind (ok b) f k = k b refl
  Ensures-bind (err e) f k = Ensures-err e

  pub Ensures-require :
      {B : Type ℓ} (o : Option B) (message : String) (f : B → Result A)
      → ((b : B) → o ≡ some b → Ensures P (f b))
      → Ensures P (require_some o message >>= f)
  Ensures-require (some b) message f k = k b refl
  Ensures-require none message f k = Ensures-err _

  pub Ensures-if :
      (b : Bool) (m n : Result A)
      → (b ≡ true → Ensures P m)
      → (b ≡ false → Ensures P n)
      → Ensures P (if b then m else n)
  Ensures-if true m n km kn = km refl
  Ensures-if false m n km kn = kn refl

-- ===== src/Shared/Outcome.antt =====
-- Errors as values: `taskError` of internal/platform/kernel.go and `apiError` of
-- internal/platform/app.go, and the results of functions that return an `error`.
use mathlib.Core.Path.{◌≡◌, refl, ap, subst}
use mathlib.Core.Logic.{◌⊎◌, inl, inr}
use mathlib.Core.Bool.{Bool, true, false}
use mathlib.Core.Option.{Option, none, some}
use Prim.Native.Nat.{ℕ}
use resume_platform.Shared.Tests.{if◌then◌else◌, if_none}
use Prim.Native.String.{String}

-- What an `error` value carries: a code and a message, or an HTTP status and a message.
pub data Failure : Type 0 where
  task_error : String → String → Failure
  api_error : ℕ → String → Failure

-- `func bad(message string) error`
abbrev pub bad : String → Failure
bad message = api_error 400 message

-- `(value, nil)` or `(…, error)`; an `error` alone is a result of `Unit`.
pub data Result {ℓ} (A : Type ℓ) : Type ℓ where
  err : Failure → Result A
  ok : A → Result A

-- `if err != nil { return …, err }` after a call, and the rest of the function.
module _ {ℓ κ} {A : Type ℓ} {B : Type κ} where
  infixl 5 ◌>>=◌
  abbrev pub ◌>>=◌ : Result A → (A → Result B) → Result B
  err failure >>= rest = err failure
  ok value >>= rest = rest value

module _ {κ} {B : Type κ} where
  infixl 5 ◌>>◌
  abbrev pub ◌>>◌ : Result (Unit {0}) → Result B → Result B
  err failure >> rest = err failure
  ok _ >> rest = rest

-- `if test { return failure }`
abbrev pub refuse_if : Bool → Failure → Result (Unit {0})
refuse_if false failure = ok tt
refuse_if true failure = err failure

ok_injective : {A : Type 0} (a b : A) → ok a ≡ ok b → a ≡ b
ok_injective a b h = ap (λ r. elim r [ err _ ↦ a | ok c ↦ c ]) h

-- A call either fails or returns a value.
module _ {ℓ} {A : Type ℓ} where
  pub Result-cases :
      (call : Result A) → ((a : A) × (call ≡ ok a)) ⊎ ((failure : Failure) × (call ≡ err failure))
  Result-cases (err failure) = inr (failure, refl)
  Result-cases (ok value) = inl (value, refl)

-- What holds of every value that a call returns, and a rule for each way to build the call.
pub record Ensures {A : Type 0} (P : A → Type 0) (call : Result A) : Type 0 where
  pub at : (a : A) → call ≡ ok a → P a

module _ {A : Type 0} {P : A → Type 0} where
  pub Ensures-ok : (a : A) → P a → Ensures P (ok a)
  Ensures-ok a p = record { at = λ b h. subst P (ok_injective a b h) p }

  pub Ensures-err : (failure : Failure) → Ensures P (err failure)
  Ensures-err failure = record { at = λ b h. cc }

  pub Ensures-if :
      (test : Bool) (yes_call no_call : Result A)
      → (test ≡ true → Ensures P yes_call)
      → (test ≡ false → Ensures P no_call)
      → Ensures P (if test then yes_call else no_call)
  Ensures-if true c d p q = p refl
  Ensures-if false c d p q = q refl

  pub Ensures-refuse :
      (test : Bool) (failure : Failure) (rest : Result A)
      → (test ≡ false → Ensures P rest)
      → Ensures P (refuse_if test failure >> rest)
  Ensures-refuse false failure rest p = p refl
  Ensures-refuse true failure rest p = Ensures-err failure

  pub Ensures-if_none :
      {B : Type 0} (o : Option B) (missing : Result A) (rest : B → Result A)
      → (o ≡ none → Ensures P missing)
      → ((b : B) → o ≡ some b → Ensures P (rest b))
      → Ensures P (if_none o missing rest)
  Ensures-if_none none missing rest p q = p refl
  Ensures-if_none (some b) missing rest p q = q b refl

  pub Ensures-bind :
      {B : Type 0} (call : Result B) (rest : B → Result A)
      → ((b : B) → call ≡ ok b → Ensures P (rest b))
      → Ensures P (call >>= rest)
  Ensures-bind (err failure) rest p = Ensures-err failure
  Ensures-bind (ok b) rest p = p b refl

-- ===== src/Candidate/Transaction.antt =====
-- A database transaction: it reads and writes the rows and commits, or it fails and nothing is
-- written (`defer tx.Rollback(ctx)`).
pub mod Rules
pub mod Triples
use resume_platform.Shared.{Bool, true, false, Result, ok, err, Failure}

abbrev pub Tx : Type 0 → Type 0 → Type 0
Tx S A = S → Result (A × S)

module _ {S A : Type 0} where
  pub pure : A → Tx S A
  pure a s = ok (a, s)

  pub fail : Failure → Tx S A
  fail e s = err e

  pub gets : (S → A) → Tx S A
  gets f s = ok (f s, s)

module _ {S : Type 0} where
  pub modify : (S → S) → Tx S (Unit {0})
  modify f s = ok (tt, f s)

  pub refuse_when : Bool → Failure → Tx S (Unit {0})
  refuse_when true e s = err e
  refuse_when false e s = ok (tt, s)

module _ {S A B : Type 0} where
  abbrev continue : Result (A × S) → (A → Tx S B) → Result (B × S)
  continue (ok (a, s)) f = f a s
  continue (err e) f = err e

  infixl 10 ◌>>=◌ ◌>>◌
  -- Opening this opens `pure`, `fail`, `gets`, `modify` and `refuse_when` too.
  unfoldable pub ◌>>=◌ : Tx S A → (A → Tx S B) → Tx S B
  unfolding pure fail gets modify refuse_when
  ◌>>=◌ m f s = continue (m s) f

  abbrev pub ◌>>◌ : Tx S A → Tx S B → Tx S B
  m >> n = m >>= λ _. n

-- ===== src/Candidate/Transaction/Rules.antt =====
-- Relations between the states before and after a transaction that commits, one rule for each way
-- to build a transaction.
use resume_platform.Shared.{◌≡◌, refl, Bool, true, false, Result, ok, err, Failure, if◌then◌else◌}
use resume_platform.Candidate.Transaction.{
  Tx, pure, fail, gets, modify, refuse_when, continue, ◌>>=◌,
}

-- Where `m` commits, it relates the state before to the state after.
pub record Relates {S A : Type 0} (R : S → S → Type 0) (m : Tx S A) : Type 0 where
  pub at : (s s' : S) (a : A) → m s ≡ ok (a, s') → R s s'

-- A relation that holds of doing nothing and of doing two things in turn.
pub record IsPreorder {S : Type 0} (R : S → S → Type 0) : Type 0 where
  pub stay : (s : S) → R s s
  pub chain : (s t u : S) → R s t → R t u → R s u

module _ {S A : Type 0} {R : S → S → Type 0} (p : IsPreorder R) where
  pub Relates-pure : (a : A) → Relates R (pure a)
  unfolding pure
  Relates-pure a = record { at = λ s s' b h. let e : s ≡ s' = cc in rw (← e) (p.stay s) }

  pub Relates-fail : (e : Failure) → Relates R (fail {A = A} e)
  unfolding fail
  Relates-fail e = record { at = λ s s' b h. cc }

  pub Relates-gets : (f : S → A) → Relates R (gets f)
  unfolding gets
  Relates-gets f = record { at = λ s s' b h. let e : s ≡ s' = cc in rw (← e) (p.stay s) }

  pub Relates-if :
      (b : Bool) (m n : Tx S A)
      → (b ≡ true → Relates R m)
      → (b ≡ false → Relates R n)
      → Relates R (if b then m else n)
  Relates-if true m n km kn = km refl
  Relates-if false m n km kn = kn refl

module _ {S : Type 0} {R : S → S → Type 0} where
  pub Relates-modify : (f : S → S) → ((s : S) → R s (f s)) → Relates R (modify f)
  unfolding modify
  Relates-modify f h = record { at = λ s s' b q. let e : f s ≡ s' = cc in rw (← e) (h s) }

  pub Relates-refuse_when : IsPreorder R → (b : Bool) (e : Failure) → Relates R (refuse_when b e)
  unfolding refuse_when
  Relates-refuse_when p true e = record { at = λ s s' b q. cc }
  Relates-refuse_when p false e = record {
    at = λ s s' b q. let r : s ≡ s' = cc in rw (← r) (p.stay s);
  }

module _ {S A B : Type 0} {R : S → S → Type 0} (p : IsPreorder R) where
  Relates-continue :
      (r : Result (A × S)) (f : A → Tx S B) (s s' : S) (b : B)
      → ((a : A) (t : S) → r ≡ ok (a, t) → R s t)
      → ((a : A) → Relates R (f a))
      → continue r f ≡ ok (b, s')
      → R s s'
  Relates-continue (ok (a, t)) f s s' b km kf h = p.chain s t s' (km a t refl) ((kf a).at t s' b h)
  Relates-continue (err e) f s s' b km kf h = cc

  pub Relates-bind :
      (m : Tx S A) (f : A → Tx S B)
      → Relates R m
      → ((a : A) → Relates R (f a))
      → Relates R (m >>= f)
  unfolding ◌>>=◌
  Relates-bind m f km kf = record {
    at = λ s s' b h. Relates-continue (m s) f s s' b (λ a t. km.at s t a) kf h;
  }

pub ruleset relates_rules = (
  Relates-pure, Relates-fail, Relates-gets, Relates-if, Relates-modify, Relates-refuse_when,
  Relates-bind,
)

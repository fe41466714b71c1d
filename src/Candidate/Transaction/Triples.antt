-- ===== src/Candidate/Transaction/Triples.antt =====
-- What holds after a transaction that commits, given what holds before: one rule for each way to
-- build a transaction.
use resume_platform.Shared.{
  ◌≡◌, refl, Bool, true, false, Option, none, some, Result, ok, err, Failure, if◌then◌else◌,
  if_none,
}
use resume_platform.Candidate.Transaction.Rules.{Relates}
use resume_platform.Candidate.Transaction.{
  Tx, pure, fail, gets, modify, refuse_when, continue, ◌>>=◌,
}

pub record Triple {S A : Type 0} (P : S → Type 0) (m : Tx S A) (Q : A → S → Type 0) : Type 0 where
  pub at : (s s' : S) (a : A) → P s → m s ≡ ok (a, s') → Q a s'

module _ {S A : Type 0} {P : S → Type 0} {Q : A → S → Type 0} where
  pub Triple-pure : (a : A) → ((s : S) → P s → Q a s) → Triple P (pure a) Q
  unfolding pure
  Triple-pure a h = record {
    at = λ s s' b p q. let e : s ≡ s' = cc in let f : a ≡ b = cc in rw (← e) (rw (← f) (h s p));
  }

  pub Triple-fail : (e : Failure) → Triple P (fail e) Q
  unfolding fail
  Triple-fail e = record { at = λ s s' b p q. cc }

  pub Triple-if :
      (b : Bool) (m n : Tx S A)
      → (b ≡ true → Triple P m Q)
      → (b ≡ false → Triple P n Q)
      → Triple P (if b then m else n) Q
  Triple-if true m n km kn = km refl
  Triple-if false m n km kn = kn refl

  pub Triple-if_none :
      {B : Type 0} (o : Option B) (m : Tx S A) (f : B → Tx S A)
      → (o ≡ none → Triple P m Q)
      → ((b : B) → o ≡ some b → Triple P (f b) Q)
      → Triple P (if_none o m f) Q
  Triple-if_none none m f km kf = km refl
  Triple-if_none (some b) m f km kf = kf b refl

  pub Triple-weaken :
      {P' : S → Type 0} (m : Tx S A) → ((s : S) → P s → P' s) → Triple P' m Q → Triple P m Q
  Triple-weaken m h k = record { at = λ s s' a p q. k.at s s' a (h s p) q }

module _ {S : Type 0} {P : S → Type 0} where
  pub Triple-modify :
      {Q : S → Type 0} (f : S → S) → ((s : S) → P s → Q (f s)) → Triple P (modify f) (λ _ s. Q s)
  unfolding modify
  Triple-modify f h = record { at = λ s s' b p q. let e : f s ≡ s' = cc in rw (← e) (h s p) }

  pub Triple-refuse :
      (b : Bool) (e : Failure) → Triple P (refuse_when b e) (λ _ s. P s × (b ≡ false))
  unfolding refuse_when
  Triple-refuse true e = record { at = λ s s' b p q. cc }
  Triple-refuse false e = record { at = λ s s' b p q. let r : s ≡ s' = cc in (rw (← r) p, refl) }

  pub Triple-gets : {A : Type 0} (f : S → A) → Triple P (gets f) (λ a s. P s × (f s ≡ a))
  unfolding gets
  Triple-gets f = record {
    at = λ s s' b p q. let r : s ≡ s' = cc in let e : f s ≡ b = cc in (rw (← r) p, rw (← r) e);
  }

module _ {S A B : Type 0} {Q : B → S → Type 0} where
  Triple-continue :
      (R : A → S → Type 0) (r : Result (A × S)) (f : A → Tx S B) (s' : S) (b : B)
      → ((a : A) (t : S) → r ≡ ok (a, t) → R a t)
      → ((a : A) → Triple (R a) (f a) Q)
      → continue r f ≡ ok (b, s')
      → Q b s'
  Triple-continue R (ok (a, t)) f s' b km kf h = (kf a).at t s' b (km a t refl) h
  Triple-continue R (err e) f s' b km kf h = cc

  pub Triple-bind :
      {P : S → Type 0} {R : A → S → Type 0} (m : Tx S A) (f : A → Tx S B)
      → Triple P m R
      → ((a : A) → Triple (R a) (f a) Q)
      → Triple P (m >>= f) Q
  unfolding ◌>>=◌
  Triple-bind {R} m f km kf = record {
    at = λ s s' b p h. Triple-continue R (m s) f s' b (λ a t. km.at s t a p) kf h;
  }

-- The states that a change leads to.
abbrev pub Image : {S : Type 0} → (S → S) → (S → Type 0) → S → Type 0
Image {S} f P s = (e : S) × P e × (s ≡ f e)

pub Triple-Image : {S : Type 0} {P : S → Type 0} (f : S → S) → Triple P (modify f) (λ _. Image f P)
Triple-Image f = Triple-modify f λ s p. (s, p, refl)

-- A transaction that keeps to a relation, where the relation takes the one predicate to the other.
pub Triple-of-relation :
    {S A : Type 0} {R : S → S → Type 0} {P Q : S → Type 0} (m : Tx S A)
    → Relates R m
    → ((s t : S) → R s t → P s → Q t)
    → Triple P m (λ _ s. Q s)
Triple-of-relation m k h = record { at = λ s s' a p q. h s s' (k.at s s' a q) p }

pub Triple-after :
    {S A : Type 0} {P : S → Type 0} {Q Q' : A → S → Type 0} (m : Tx S A)
    → Triple P m Q
    → ((a : A) (s : S) → Q a s → Q' a s)
    → Triple P m Q'
Triple-after m k h = record { at = λ s s' a p q. h a s' (k.at s s' a p q) }

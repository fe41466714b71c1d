-- ===== src/Shared/Int.antt =====
-- Signed numbers, as far as the ordering tuples of the allocation need them.
use Prim.Native.Nat.{ℕ, zero, suc}
use mathlib.Core.Path.{◌≡◌}
use mathlib.Core.Bool.{Bool, true, false}
use mathlib.Core.List.{List, [], ◌∷◌}
use native.Mathlib.Omega.{arith}
use resume_platform.Shared.Tests.{◌==◌, ltb, if◌then◌else◌}

-- `negsuc n` is -(n + 1).
pub data ℤ : Type 0 where
  pos : ℕ → ℤ
  negsuc : ℕ → ℤ

-- -n
abbrev pub neg : ℕ → ℤ
neg zero = pos 0
neg (suc n) = negsuc n

abbrev pub int_eq : ℤ → ℤ → Bool
int_eq (pos a) (pos b) = a == b
int_eq (negsuc a) (negsuc b) = a == b
int_eq _ _ = false

abbrev pub int_lt : ℤ → ℤ → Bool
int_lt (pos a) (pos b) = ltb a b
int_lt (negsuc a) (negsuc b) = ltb b a
int_lt (negsuc a) (pos b) = true
int_lt (pos a) (negsuc b) = false

pub int_eq_sound : (a b : ℤ) → int_eq a b ≡ true → a ≡ b
int_eq_sound (pos a) (pos b) h = ground arith
int_eq_sound (negsuc a) (negsuc b) h = ground arith
int_eq_sound (pos a) (negsuc b) h = cc
int_eq_sound (negsuc a) (pos b) h = cc

-- The comparison of two tuples: the first place where they differ decides.
unfoldable pub lex_less : List ℤ → List ℤ → Bool
lex_less [] ys = false
lex_less (x ∷ xs) [] = false
lex_less (x ∷ xs) (y ∷ ys) = if int_eq x y then lex_less xs ys else int_lt x y

int_eq_refl : (a : ℤ) → int_eq a a ≡ true
int_eq_refl (pos a) = ground arith
int_eq_refl (negsuc a) = ground arith

pub lex_less_irrefl : (xs : List ℤ) → lex_less xs xs ≡ false
unfolding lex_less
lex_less_irrefl [] = ground arith
lex_less_irrefl (x ∷ xs) = ground (arith, int_eq_refl x, lex_less_irrefl xs)

lex_step_trans :
    (x y z : ℤ) (p q r : Bool)
    → (p ≡ true → q ≡ true → r ≡ true)
    → (if int_eq x y then p else int_lt x y) ≡ true
    → (if int_eq y z then q else int_lt y z) ≡ true
    → (if int_eq x z then r else int_lt x z) ≡ true
lex_step_trans (pos x) (pos y) (pos z) p q r k a b = ground arith
lex_step_trans (negsuc x) (negsuc y) (negsuc z) p q r k a b = ground arith
lex_step_trans (negsuc x) (negsuc y) (pos z) p q r k a b = ground arith
lex_step_trans (negsuc x) (pos y) (pos z) p q r k a b = ground arith
lex_step_trans (pos x) (negsuc y) z p q r k a b = cc
lex_step_trans (negsuc x) (pos y) (negsuc z) p q r k a b = cc
lex_step_trans (pos x) (pos y) (negsuc z) p q r k a b = cc

pub lex_less_trans :
    (xs ys zs : List ℤ) → lex_less xs ys ≡ true → lex_less ys zs ≡ true → lex_less xs zs ≡ true
unfolding lex_less
lex_less_trans [] ys zs a b = cc
lex_less_trans (x ∷ xs) [] zs a b = cc
lex_less_trans (x ∷ xs) (y ∷ ys) [] a b = cc
lex_less_trans (x ∷ xs) (y ∷ ys) (z ∷ zs) a b =
    lex_step_trans x y z (lex_less xs ys) (lex_less ys zs) (lex_less xs zs)
      (lex_less_trans xs ys zs) a b

-- What does not come before c does not come before anything that comes before c.
pub lex_less-keep :
    (a c d : List ℤ) → lex_less a c ≡ false → lex_less d c ≡ true → lex_less a d ≡ false
lex_less-keep a c d h k = ground (arith, lex_less_trans a d c)

pub lex_less_asym : (a b : List ℤ) → lex_less a b ≡ true → lex_less b a ≡ false
lex_less_asym a b h = ground (arith, lex_less_trans a b a, lex_less_irrefl a)

pub int_lt_irrefl : (a : ℤ) → int_lt a a ≡ false
int_lt_irrefl (pos a) = ground arith
int_lt_irrefl (negsuc a) = ground arith

pub int_lt_asym : (a b : ℤ) → int_lt a b ≡ true → int_lt b a ≡ false
int_lt_asym a b h = ground arith

pub int_lt_cotrans : (a b c : ℤ) → int_lt a b ≡ false → int_lt b c ≡ false → int_lt a c ≡ false
int_lt_cotrans a b c h k = ground arith

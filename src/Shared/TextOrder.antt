-- ===== src/Shared/TextOrder.antt =====
-- Go's `<` on strings: the order by code points, which is the order of the UTF-8 bytes.
use Prim.Native.Nat.{Ordering, compare as compare_ℕ}
use Prim.Native.Char.{Char, code}
use Prim.Native.String.compare
use Prim.Native.String.{String, compare, then as compare_then}
use mathlib.Core.Path.{◌≡◌}
use mathlib.Core.Bool.{Bool, true, false}
use native.Mathlib.Omega.{arith}

abbrev pub text_lt : String → String → Bool
text_lt a b = elim (compare a b) [ Ordering.lt ↦ true | _ ↦ false ]

nil_cons : (d : Char) (t : String) → compare "" (String.◌∷◌ d t) ≡ Ordering.lt
nil_cons d t = λ i. compare.nil-cons d t i

cons_nil : (d : Char) (t : String) → compare (String.◌∷◌ d t) "" ≡ Ordering.gt
cons_nil d t = λ i. compare.cons-nil d t i

nil_nil : compare "" "" ≡ Ordering.eq
nil_nil = λ i. compare.nil-nil i

compare_cons :
    (c d : Char) (s t : String)
    → compare (String.◌∷◌ c s) (String.◌∷◌ d t)
      ≡ compare_then (compare_ℕ (code c) (code d)) (compare s t)
compare_cons c d s t = λ i. compare.cons-cons c d s t i

pub text_lt_asym : (a b : String) → text_lt a b ≡ true → text_lt b a ≡ false
text_lt_asym String.[] String.[] h = ground (arith, nil_nil)
text_lt_asym String.[] (String.◌∷◌ d t) h = ground (arith, cons_nil d t)
text_lt_asym (String.◌∷◌ c s) String.[] h = ground (arith, cons_nil c s)
text_lt_asym (String.◌∷◌ c s) (String.◌∷◌ d t) h =
    ground (arith, text_lt_asym s t, compare_cons c d s t, compare_cons d c t s)

pub text_lt_cotrans :
    (a b c : String) → text_lt a b ≡ false → text_lt b c ≡ false → text_lt a c ≡ false
text_lt_cotrans String.[] String.[] c h k = ground arith
text_lt_cotrans String.[] (String.◌∷◌ d t) c h k = ground (arith, nil_cons d t)
text_lt_cotrans (String.◌∷◌ c s) b String.[] h k = ground (arith, cons_nil c s)
text_lt_cotrans (String.◌∷◌ c s) String.[] (String.◌∷◌ e u) h k = ground (arith, nil_cons e u)
text_lt_cotrans (String.◌∷◌ c s) (String.◌∷◌ d t) (String.◌∷◌ e u) h k =
    ground (
      arith,
      text_lt_cotrans s t u,
      compare_cons c d s t,
      compare_cons d e t u,
      compare_cons c e s u,
    )

-- ===== src/Shared/Text.antt =====
-- Text as the Go standard library treats it.
use Prim.Native.Nat.{ℕ, ◌+◌}
use Prim.Native.Char.{code}
use Prim.Native.String.{String}
use mathlib.Core.Path.{◌≡◌, refl, ap}
use mathlib.Core.Bool.{Bool, true, ◌&&◌, ◌||◌}
use native.Mathlib.Omega.{arith}
use text.Mathlib.Text.{◌==◌ as str_eq}
use resume_platform.Shared.Tests.{◌==◌, leb, ltb, if◌then◌else◌}

-- `unicode.IsSpace`, on a code point.
unfoldable pub is_space : ℕ → Bool
is_space c =
    (leb 9 c && leb c 13)
    || (c == 32
        || (c == 0x85
            || (c == 0xa0
                || (c == 0x1680
                    || ((leb 0x2000 c && leb c 0x200a)
                        || (c == 0x2028
                            || (c == 0x2029 || (c == 0x202f || (c == 0x205f || c == 0x3000)))))))))

trim_left : String → String
trim_left String.[] = String.[]
trim_left (String.◌∷◌ c s) =
    let rest = trim_left s in if is_space (code c) then rest else String.◌∷◌ c s

trim_right : String → String
trim_right String.[] = String.[]
trim_right (String.◌∷◌ c s) =
    let rest = trim_right s in
    if str_eq rest "" && is_space (code c) then String.[] else String.◌∷◌ c rest

-- `strings.TrimSpace`
unfoldable pub trim_space : String → String
unfolding trim_left trim_right is_space
trim_space s = trim_right (trim_left s)

-- Whether a text has no other character than spaces.
unfoldable pub is_blank : String → Bool
is_blank String.[] = true
is_blank (String.◌∷◌ c s) = is_space (code c) && is_blank s

trim_left-is_blank : (s : String) → is_blank s ≡ true → trim_left s ≡ ""
unfolding is_blank trim_left
trim_left-is_blank String.[] h = refl
trim_left-is_blank (String.◌∷◌ c s) h = ground (arith, trim_left-is_blank s)

pub trim_space-is_blank : (s : String) → is_blank s ≡ true → trim_space s ≡ ""
unfolding trim_space trim_right
trim_space-is_blank s h = ap trim_right (trim_left-is_blank s h)

-- The bytes of a character and of a text in UTF-8: Go's `len` of a string.
abbrev pub rune_len : ℕ → ℕ
rune_len c = if ltb c 0x80 then 1 else if ltb c 0x800 then 2 else if ltb c 0x10000 then 3 else 4

unfoldable pub text_len : String → ℕ
text_len String.[] = 0
text_len (String.◌∷◌ c s) = rune_len (code c) + text_len s

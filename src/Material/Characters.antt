-- ===== src/Material/Characters.antt =====
-- The functions of the Go packages `strings`, `strconv` and `utf8` that the extractor calls, on code
-- points.
use resume_platform.Shared.{
  ℕ, ◌+◌, ◌*◌, ◌-◌, Bool, false, ◌&&◌, Option, none, some, List, [], ◌∷◌, ◌++◌, any, leb, ltb, ◌==◌,
  if◌then◌else◌, rune_len,
}
use resume_platform.Shared.Text.{is_space}

abbrev pub lf : ℕ
lf = 0x0a

abbrev pub ff : ℕ
ff = 0x0c

abbrev pub cr : ℕ
cr = 0x0d

-- The length of a text in UTF-8.
unfoldable pub byte_len : List ℕ → ℕ
byte_len [] = 0
byte_len (c ∷ s) = rune_len c + byte_len s

abbrev pub contains_rune : ℕ → List ℕ → Bool
contains_rune c s = any (λ d. d == c) s

abbrev pub starts_lf : List ℕ → Bool
starts_lf [] = false
starts_lf (c ∷ s) = c == lf

-- `strings.ReplaceAll(s, "\r\n", "\n")`: a CR goes where an LF follows it.
unfoldable pub drop_cr : List ℕ → List ℕ
drop_cr [] = []
drop_cr (c ∷ s) = let rest = drop_cr s in if c == cr && starts_lf s then rest else c ∷ rest

-- `strings.ReplaceAll(s, "\r", "\n")`
abbrev pub cr_to_lf : ℕ → ℕ
cr_to_lf c = if c == cr then lf else c

unfoldable pub replace_cr : List ℕ → List ℕ
replace_cr [] = []
replace_cr (c ∷ s) = cr_to_lf c ∷ replace_cr s

-- `strings.TrimSuffix(s, "\f")`
unfoldable pub trim_ff : List ℕ → List ℕ
trim_ff [] = []
trim_ff (c ∷ []) = if c == ff then [] else c ∷ []
trim_ff (c ∷ d ∷ s) = c ∷ trim_ff (d ∷ s)

unfoldable pub attach : ℕ → List (List ℕ) → List (List ℕ)
attach c [] = (c ∷ []) ∷ []
attach c (p ∷ ps) = (c ∷ p) ∷ ps

-- `strings.Split`, by one separator: there is always a part.
unfoldable pub split : ℕ → List ℕ → List (List ℕ)
unfolding attach
split sep [] = [] ∷ []
split sep (c ∷ s) = if c == sep then [] ∷ split sep s else attach c (split sep s)

-- `strings.Join`, with one separator
unfoldable pub join : ℕ → List (List ℕ) → List ℕ
join sep [] = []
join sep (p ∷ []) = p
join sep (p ∷ q ∷ ps) = p ++ (sep ∷ join sep (q ∷ ps))

-- The loop of `visible`: the characters that are no space.
unfoldable pub visible : List ℕ → ℕ
unfolding is_space
visible [] = 0
visible (c ∷ s) = (if is_space c then 0 else 1) + visible s

-- `strings.Fields`: the part that is being read, and the parts after it.
take_field : ℕ → List ℕ × List (List ℕ) → List ℕ × List (List ℕ)
take_field c ([], fields) = if is_space c then ([], fields) else (c ∷ [], fields)
take_field c (d ∷ p, fields) = if is_space c then ([], (d ∷ p) ∷ fields) else (c ∷ d ∷ p, fields)

scan_fields : List ℕ → List ℕ × List (List ℕ)
unfolding take_field is_space
scan_fields [] = ([], [])
scan_fields (c ∷ s) = take_field c (scan_fields s)

close_field : List ℕ × List (List ℕ) → List (List ℕ)
close_field ([], fields) = fields
close_field (c ∷ p, fields) = (c ∷ p) ∷ fields

unfoldable pub text_fields : List ℕ → List (List ℕ)
unfolding scan_fields close_field
text_fields s = close_field (scan_fields s)

digits : ℕ → List ℕ → Option ℕ
digits value [] = some value
digits value (c ∷ s) = if leb b'0' c && leb c b'9' then digits (value * 10 + (c - b'0')) s else none

abbrev or_zero : Option ℕ → ℕ
or_zero none = 0
or_zero (some n) = n

-- The number of `strconv.Atoi`, as far as the tests `1 <= n` and `256 <= n` read it: an error and a
-- negative number count as 0, and a number beyond 2^63 is large either way.
unfoldable pub atoi : List ℕ → ℕ
unfolding digits
atoi [] = 0
atoi (c ∷ []) = or_zero (digits 0 (c ∷ []))
atoi (c ∷ d ∷ s) = or_zero (digits 0 (if c == b'+' then d ∷ s else c ∷ d ∷ s))

-- `utf8.ValidString`, of the bytes of a text. After a first byte: the range of the next byte, and how
-- many bytes are still to come.
abbrev after_lead : ℕ → Option (ℕ × ℕ × ℕ)
after_lead b =
    if ltb b 0x80
    then some (0x80, 0xBF, 0)
    else if leb 0xC2 b && leb b 0xDF
    then some (0x80, 0xBF, 1)
    else if b == 0xE0
    then some (0xA0, 0xBF, 2)
    else if b == 0xED
    then some (0x80, 0x9F, 2)
    else if leb 0xE1 b && leb b 0xEF
    then some (0x80, 0xBF, 2)
    else if b == 0xF0
    then some (0x90, 0xBF, 3)
    else if leb 0xF1 b && leb b 0xF3
    then some (0x80, 0xBF, 3)
    else if b == 0xF4
    then some (0x80, 0x8F, 3)
    else none

abbrev after_byte : ℕ → ℕ → ℕ → ℕ → Option (ℕ × ℕ × ℕ)
after_byte low high left b =
    if left == 0
    then after_lead b
    else if leb low b && leb b high
    then some (0x80, 0xBF, left - 1)
    else none

abbrev utf8_bytes : ℕ → ℕ → ℕ → List ℕ → Bool
utf8_bytes low high left [] = left == 0
utf8_bytes low high left (b ∷ s) = elim (after_byte low high left b) [
  | none ↦ false
  | some next ↦ utf8_bytes next.0 next.1 next.2 s
]

unfoldable pub valid_utf8 : List ℕ → Bool
valid_utf8 s = utf8_bytes 0x80 0xBF 0 s

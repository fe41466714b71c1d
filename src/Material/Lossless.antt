-- ===== src/Material/Lossless.antt =====
-- What the extractor does to a text: it changes line and page ends only, and splits at page ends.
use resume_platform.Shared.{
  ℕ, ◌≡◌, refl, ap, ◌∙◌, Bool, false, ◌||◌, Option, none, some, List, [], ◌∷◌, any, length, ok,
  arith, ltb, ◌==◌, if◌then◌else◌, Bool-cases, inl, inr,
}
use resume_platform.Shared.Text.{is_space}
use resume_platform.Material.Characters.{
  ff, cr, byte_len, contains_rune, drop_cr, replace_cr, trim_ff, attach, split, join,
}
use resume_platform.Material.Extractor.{
  Text, max_text_bytes, normalize, warnings_of, status_of, canonical,
}

-- The characters that are no space, in order.
unfoldable pub letters : List ℕ → List ℕ
unfolding is_space
letters [] = []
letters (c ∷ s) = let rest = letters s in if is_space c then rest else c ∷ rest

letters-drop_cr : (s : List ℕ) → letters (drop_cr s) ≡ letters s
unfolding letters drop_cr
letters-drop_cr [] = refl
letters-drop_cr (c ∷ s) = ground (arith, letters-drop_cr s)

letters-replace_cr : (s : List ℕ) → letters (replace_cr s) ≡ letters s
unfolding letters replace_cr
letters-replace_cr [] = refl
letters-replace_cr (c ∷ s) = ground (arith, letters-replace_cr s)

letters-trim_ff : (s : List ℕ) → letters (trim_ff s) ≡ letters s
unfolding letters trim_ff
letters-trim_ff [] = refl
letters-trim_ff (c ∷ []) = ground arith
letters-trim_ff (c ∷ d ∷ s) = ground (arith, letters-trim_ff (d ∷ s))

letters-normalize : (s : List ℕ) → letters (normalize s) ≡ letters s
unfolding normalize
letters-normalize s =
    letters-trim_ff (replace_cr (drop_cr s)) ∙ letters-replace_cr (drop_cr s) ∙ letters-drop_cr s

join-attach : (sep c : ℕ) (ps : List (List ℕ)) → join sep (attach c ps) ≡ c ∷ join sep ps
unfolding join attach
join-attach sep c [] = refl
join-attach sep c (p ∷ []) = refl
join-attach sep c (p ∷ q ∷ ps) = refl

attach-cons :
    (c : ℕ) (ps : List (List ℕ)) → (p : List ℕ) × (qs : List (List ℕ)) × (attach c ps ≡ p ∷ qs)
unfolding attach
attach-cons c [] = (c ∷ [], [], refl)
attach-cons c (p ∷ ps) = (c ∷ p, ps, refl)

split-cons : (sep : ℕ) (s : List ℕ) → (p : List ℕ) × (ps : List (List ℕ)) × (split sep s ≡ p ∷ ps)
unfolding split
split-cons sep [] = ([], [], refl)
split-cons sep (c ∷ s) = elim (Bool-cases (c == sep)) [
  | inl e ↦ ([], split sep s, rw e)
  | inr e ↦ let (p, ps, q) = attach-cons c (split sep s) in (p, ps, rw e q)
]

join_new_part : (sep : ℕ) (s : List ℕ) → join sep ([] ∷ split sep s) ≡ sep ∷ join sep (split sep s)
unfolding join
join_new_part sep s = let (p, ps, q) = split-cons sep s in rw q

pub join-split : (sep : ℕ) (s : List ℕ) → join sep (split sep s) ≡ s
unfolding split
join-split sep [] = unfold join in refl
join-split sep (c ∷ s) =
    ground (arith, join-split sep s, join_new_part sep s, join-attach sep c (split sep s))

-- Whether a character stands in some text.
abbrev pub any_part : ℕ → List (List ℕ) → Bool
any_part d ps = any (contains_rune d) ps

any_part-attach :
    (d c : ℕ) (ps : List (List ℕ)) → any_part d (attach c ps) ≡ (c == d || any_part d ps)
unfolding attach
any_part-attach d c [] = ground arith
any_part-attach d c (p ∷ ps) = ground arith

-- The separator stands in no part, and another character only where it stands in the text.
pub any_part-split_sep : (sep : ℕ) (s : List ℕ) → any_part sep (split sep s) ≡ false
unfolding split
any_part-split_sep sep [] = refl
any_part-split_sep sep (c ∷ s) =
    ground (arith, any_part-split_sep sep s, any_part-attach sep c (split sep s))

pub any_part-split :
    (d sep : ℕ) (s : List ℕ) → contains_rune d s ≡ false → any_part d (split sep s) ≡ false
unfolding split
any_part-split d sep [] h = refl
any_part-split d sep (c ∷ s) h =
    ground (arith, any_part-split d sep s, any_part-attach d c (split sep s))

contains-drop_cr :
    (d : ℕ) (s : List ℕ) → contains_rune d s ≡ false → contains_rune d (drop_cr s) ≡ false
unfolding drop_cr
contains-drop_cr d [] h = refl
contains-drop_cr d (c ∷ s) h = ground (arith, contains-drop_cr d s)

contains-replace_cr :
    (s : List ℕ) → contains_rune 0 s ≡ false → contains_rune 0 (replace_cr s) ≡ false
unfolding replace_cr
contains-replace_cr [] h = refl
contains-replace_cr (c ∷ s) h = ground (arith, contains-replace_cr s)

no_cr-replace_cr : (s : List ℕ) → contains_rune cr (replace_cr s) ≡ false
unfolding replace_cr
no_cr-replace_cr [] = refl
no_cr-replace_cr (c ∷ s) = ground (arith, no_cr-replace_cr s)

contains-trim_ff :
    (d : ℕ) (s : List ℕ) → contains_rune d s ≡ false → contains_rune d (trim_ff s) ≡ false
unfolding trim_ff
contains-trim_ff d [] h = refl
contains-trim_ff d (c ∷ []) h = ground arith
contains-trim_ff d (c ∷ e ∷ s) h = ground (arith, contains-trim_ff d (e ∷ s))

pub no_cr-normalize : (s : List ℕ) → contains_rune cr (normalize s) ≡ false
unfolding normalize
no_cr-normalize s = contains-trim_ff cr _ (no_cr-replace_cr (drop_cr s))

pub no_nul-normalize :
    (s : List ℕ) → contains_rune 0 s ≡ false → contains_rune 0 (normalize s) ≡ false
unfolding normalize
no_nul-normalize s h = contains-trim_ff 0 _ (contains-replace_cr _ (contains-drop_cr 0 s h))

-- What an accepted output is split into.
pub canonical-inverse :
    (digest : List ℕ → List ℕ) (output : Option (List ℕ)) (images : List ℕ) (count : ℕ) (t : Text)
    → canonical digest output images count ≡ ok t
    → (raw : List ℕ) × (output ≡ some raw)
      × (contains_rune 0 raw ≡ false)
      × (t.pages ≡ split ff (normalize raw))
      × (length t.pages ≡ count)
      × (ltb max_text_bytes (byte_len (join ff t.pages)) ≡ false)
      × (t.text_sha256 ≡ digest (join ff t.pages))
      × (t.warnings ≡ warnings_of images t.pages)
      × (t.status ≡ status_of t.warnings)
unfolding canonical
canonical-inverse digest none images count t h = absurd (ground arith)
canonical-inverse digest (some raw) images count t h = (
  raw,
  refl,
  ground arith,
  ground arith,
  ground arith,
  ground arith,
  ground arith,
  ground arith,
  ground arith,
)

-- An accepted output loses nothing but line ends: there are as many pages as the document has, they
-- make up the normalized output, and their characters that are no space are those of the output, in
-- order.
pub canonical-letters :
    (digest : List ℕ → List ℕ) (raw images : List ℕ) (count : ℕ) (t : Text)
    → canonical digest (some raw) images count ≡ ok t
    → (length t.pages ≡ count)
      × (join ff t.pages ≡ normalize raw)
      × (letters (join ff t.pages) ≡ letters raw)
canonical-letters digest raw images count t h =
    let found = canonical-inverse digest (some raw) images count t h in
    let same : raw ≡ found.0 = cc (found.1) in
    let whole : join ff t.pages ≡ normalize raw =
      rw same (ap (join ff) found.3 ∙ join-split ff (normalize found.0)) in
    (found.4, whole, ap letters whole ∙ letters-normalize raw)

-- ===== src/Material/Tests.antt =====
-- A document of one page, whose text is extracted, kept and read again.
use resume_platform.Shared.{
  ap, subst, none, err, Result, ℕ, zero, suc, ◌≡◌, refl, true, false, Option, some, List, [], ◌∷◌,
  length, ok, Ensures,
}
use resume_platform.Shared.Text.{is_space}
use resume_platform.Material.Characters.{
  valid_utf8, ff, byte_len, drop_cr, replace_cr, trim_ff, attach, split, join, visible, text_fields,
}
use resume_platform.Material.Extractor.{
  Text, Options, Tools, Extraction, needs_attention, little_text, normalize, image_page,
  total_visible, scanned, warnings_of, canonical, run,
}
use resume_platform.Material.Validation.{digest_form}
use resume_platform.Material.Lossless.{letters, canonical-letters}
use resume_platform.Material.Accepted.{Accepts, run-valid_text}
use resume_platform.Material.Cache.{
  Kept, Artifact, file_digest, inspection, fits, extract_text, extract_text-fits,
  extract_text-again,
}

abbrev repeat : ℕ → List ℕ
repeat zero = []
repeat (suc n) = b'0' ∷ repeat n

-- In place of SHA-256: every text has the same digest.
abbrev zeros : List ℕ → List ℕ
zeros s = repeat 64

zeros-form : (bytes : List ℕ) → digest_form (zeros bytes) ≡ true
unfolding digest_form
zeros-form bytes = refl

-- "a", CR, LF, "b", CR and a form feed at the end
abbrev output : List ℕ
output = b'a' ∷ 0x0d ∷ 0x0a ∷ b'b' ∷ 0x0d ∷ 0x0c ∷ []

abbrev extracted : Text
extracted = record {
  file_sha256 = [];
  text_sha256 = repeat 64;
  extractor_version = [];
  pages = (b'a' ∷ 0x0a ∷ b'b' ∷ 0x0a ∷ []) ∷ [];
  status = needs_attention;
  warnings = little_text ∷ [];
}

output-extracted : canonical zeros (some output) [] 1 ≡ ok extracted
unfolding canonical normalize drop_cr replace_cr trim_ff split attach join byte_len warnings_of
    total_visible scanned visible image_page text_fields is_space
output-extracted = refl

canonical-letters_example :
    (length extracted.pages ≡ 1)
    × (join ff extracted.pages ≡ normalize output)
    × (letters (join ff extracted.pages) ≡ letters output)
canonical-letters_example = canonical-letters zeros output [] 1 extracted output-extracted

abbrev tools : Tools
tools = record {
  version = ok (some (b'2' ∷ b'4' ∷ []));
  info = ok (record { encrypted = false; pages = some 1; diagnostics = [] });
  text = ok (some output, []);
  images = ok ([], []);
}

abbrev document : Option (List ℕ)
document = some (b'%' ∷ b'P' ∷ [])

abbrev options : Options
options = record { sha256 = repeat 64; size = 2; pages = 100; inspect = false }

tools-utf8 : (v : List ℕ) → tools.version ≡ ok (some v) → valid_utf8 v ≡ true
unfolding valid_utf8
tools-utf8 v h =
    let same : b'2' ∷ b'4' ∷ [] ≡ v =
      ap
        (λ (r : Result (Option (List ℕ))). elim r [
          | err _ ↦ []
          | ok o ↦ (elim o [ none ↦ [] | some s ↦ s ])
        ])
        h in
    subst (λ s. valid_utf8 s ≡ true) same refl

run-valid_text_example : Ensures (Accepts zeros) (run zeros tools document options)
run-valid_text_example = run-valid_text zeros tools document options zeros-form tools-utf8

abbrev artifact : Artifact
artifact = record { checksum = []; content = document }

extract_text-fits_example :
    Ensures
      (λ (r : Text × List Kept).
        (file : List ℕ × ℕ) × (info : Extraction) × (file_digest zeros artifact.content ≡ ok file)
        × (run zeros tools document (inspection 100 file) ≡ ok info)
        × (fits zeros file.0 info.extractor_version r.0 ≡ true))
      (extract_text zeros (run zeros tools document) 100 artifact [])
extract_text-fits_example = extract_text-fits zeros (run zeros tools document) 100 artifact []

extract_text-again_example :
    Ensures
      (λ (r : Text × List Kept).
        extract_text zeros (run zeros tools document) 100 artifact r.1 ≡ ok r)
      (extract_text zeros (run zeros tools document) 100 artifact [])
extract_text-again_example =
    extract_text-again zeros (run zeros tools document) (run zeros tools document) 100 artifact []
      (λ o h. refl)

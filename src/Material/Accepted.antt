-- ===== src/Material/Accepted.antt =====
-- The platform accepts every text that the extractor returns.
use resume_platform.Shared.{
  ℕ, suc, ◌+◌, ◌≡◌, ◌≤◌, refl, ap, sym, subst, ◌∙◌, Bool, true, false, not, ◌&&◌, ◌||◌, Option,
  none, some, List, [], ◌∷◌, ◌++◌, any, length, ok, Ensures, Ensures-ok, Ensures-if, Ensures-refuse,
  Ensures-bind, arith, ltb, ◌==◌, Bool-cases, inl, inr,
}
use resume_platform.Material.Characters.{
  valid_utf8, ff, cr, byte_len, contains_rune, split, join, visible,
}
use resume_platform.Material.Extractor.{
  Text, Warning, tool_diagnostics, max_text_bytes, normalize, scanned, warnings_of, status_of,
  total_visible, image_page, canonical, or_none, max_pages, list_eq, version_prefix, named_version,
  flagged, Options, Tools, Extraction, snapshot, extract_pages, run,
}
use resume_platform.Material.Validation.{
  digest_form, control_page, is_ready, known_text_status, no_warnings, valid_text,
}
use resume_platform.Material.Lossless.{
  any_part, any_part-split_sep, any_part-split, no_cr-normalize, no_nul-normalize,
  canonical-inverse,
}

pub list_eq_refl : (s : List ℕ) → list_eq s s ≡ true
list_eq_refl [] = refl
list_eq_refl (c ∷ s) = ground (arith, list_eq_refl s)

length-append : {A : Type 0} (xs ys : List A) → length (xs ++ ys) ≡ length xs + length ys
length-append [] ys = omega arith
length-append (x ∷ xs) ys = omega (arith, length-append xs ys)

byte_len-append : (s t : List ℕ) → byte_len (s ++ t) ≡ byte_len s + byte_len t
unfolding byte_len
byte_len-append [] t = omega arith
byte_len-append (c ∷ s) t = omega (arith, byte_len-append s t)

length-scanned :
    (image : ℕ → Bool) (i : ℕ) (ps : List (List ℕ)) → length (scanned image i ps) ≤ length ps
unfolding scanned
length-scanned image i [] = omega arith
length-scanned image i (p ∷ ps) = ground (arith, length-scanned image (suc i) ps)

-- Pages without these characters one by one are without them together.
any_control :
    (ps : List (List ℕ))
    → any_part cr ps ≡ false
    → any_part ff ps ≡ false
    → any_part 0 ps ≡ false
    → any control_page ps ≡ false
unfolding control_page
any_control [] a b c = refl
any_control (p ∷ ps) a b c = ground (arith, any_control ps)

normalized_pages :
    (raw : List ℕ)
    → contains_rune 0 raw ≡ false
    → any control_page (split ff (normalize raw)) ≡ false
normalized_pages raw h =
    any_control (split ff (normalize raw)) (any_part-split cr ff _ (no_cr-normalize raw))
      (any_part-split_sep ff (normalize raw)) (any_part-split 0 ff _ (no_nul-normalize raw h))

length-warnings_of :
    (images : List ℕ) (ps : List (List ℕ)) → length (warnings_of images ps) ≤ length ps + 1
unfolding warnings_of
length-warnings_of images ps = elim (Bool-cases (ltb (total_visible ps) 50)) [
  | inl e ↦ rw e (omega (arith, length-scanned (image_page images (length ps)) 1 ps))
  | inr e ↦ rw e (omega (arith, length-scanned (image_page images (length ps)) 1 ps))
]

-- A text without warnings has at least fifty visible characters.
ready_visible :
    (images : List ℕ) (ps : List (List ℕ))
    → is_ready (status_of (warnings_of images ps)) ≡ true
    → (total_visible ps == 0) ≡ false
unfolding warnings_of
ready_visible images ps h = ground arith

status_known : (ws : List Warning) → known_text_status (status_of ws) ≡ true
status_known [] = refl
status_known (w ∷ ws) = refl

status_told : (ws : List Warning) → not (not (is_ready (status_of ws)) && no_warnings ws) ≡ true
status_told [] = refl
status_told (w ∷ ws) = refl

no_warnings-append : (ws : List Warning) (w : Warning) → no_warnings (ws ++ w ∷ []) ≡ false
no_warnings-append [] w = refl
no_warnings-append (v ∷ ws) w = refl

holds_of_some : {A : Type 0} (P : A → Type 0) (a b : A) → some a ≡ some b → P a → P b
holds_of_some P a b h = subst P (ap (λ o. elim o [ none ↦ a | some c ↦ c ]) h)

module _ (digest : List ℕ → List ℕ) where
  -- A text with the facts that the extractor establishes, complete with or without a report.
  flagged_accepted :
      (t : Text) (reported : Bool) (checksum version : List ℕ)
      → t.status ≡ status_of t.warnings
      → any control_page t.pages ≡ false
      → length t.warnings ≤ 101
      → (is_ready (status_of t.warnings) ≡ true → (total_visible t.pages == 0) ≡ false)
      → list_eq (digest (join ff t.pages)) t.text_sha256 ≡ true
      → ltb max_text_bytes (byte_len (join ff t.pages)) ≡ false
      → digest_form checksum ≡ true
      → 1 ≤ length version
      → length version ≤ 128
      → valid_utf8 version ≡ true
      → 1 ≤ length t.pages
      → length t.pages ≤ 100
      → valid_text digest
          (record (flagged reported t) { file_sha256 = checksum; extractor_version = version })
        ≡ true
  unfolding valid_text
  flagged_accepted t false checksum version s clean few read same size d v w u lo hi =
      rw s (ground (arith, status_known t.warnings, status_told t.warnings))
  flagged_accepted t true checksum version s clean few read same size d v w u lo hi = ground (
    arith,
    no_warnings-append t.warnings tool_diagnostics,
    length-append t.warnings (tool_diagnostics ∷ []),
  )

  completed-valid_text :
      (output : Option (List ℕ)) (images : List ℕ) (count : ℕ) (t : Text)
      → canonical digest output images count ≡ ok t
      → (checksum version : List ℕ) (reported : Bool) → digest_form checksum ≡ true
      → 1 ≤ length version
      → length version ≤ 128
      → valid_utf8 version ≡ true
      → 1 ≤ count
      → count ≤ 100
      → valid_text digest
          (record (flagged reported t) { file_sha256 = checksum; extractor_version = version })
        ≡ true
  completed-valid_text output images count t h checksum version reported d v w u lo hi =
      let found = canonical-inverse digest output images count t h in
      flagged_accepted t reported checksum version found.8
        (rw (found.3) (normalized_pages found.0 found.2))
        (omega (arith, ap length found.7, length-warnings_of images t.pages, found.4))
        (λ q. ready_visible images t.pages (subst (λ ws. is_ready (status_of ws) ≡ true) found.7 q))
        (rw (found.6) (list_eq_refl (digest (join ff t.pages)))) found.5 d v w u
        (omega (arith, found.4)) (omega (arith, found.4))

  snapshot_digest :
      (o : Options) (file : Option (List ℕ)) (checksum : List ℕ)
      → ((bytes : List ℕ) → digest_form (digest bytes) ≡ true)
      → snapshot digest o file ≡ ok checksum
      → digest_form checksum ≡ true
  unfolding snapshot
  snapshot_digest o none checksum form h = cc
  snapshot_digest o (some []) checksum form h = cc
  snapshot_digest o (some (b ∷ bytes)) checksum form h =
      let same : digest (b ∷ bytes) ≡ checksum = ground arith in rw (← same) (form (b ∷ bytes))

  named_version_bounds :
      (found : Option (List ℕ)) (version : List ℕ)
      → named_version found ≡ ok version
      → ((v : List ℕ) → found ≡ some v → valid_utf8 v ≡ true)
      → (1 ≤ length version) × (length version ≤ 128) × (valid_utf8 version ≡ true)
  unfolding valid_utf8
  named_version_bounds none version h encoded = cc
  named_version_bounds (some v) version h encoded =
      let same : version_prefix ++ v ≡ version = ground arith in
      let size : length version ≡ 23 + length v =
        ap length (sym same) ∙ length-append version_prefix v in
      let bytes : valid_utf8 (version_prefix ++ v) ≡ true = encoded v refl in
      (ground arith, ground arith, subst (λ s. valid_utf8 s ≡ true) same bytes)

  abbrev pub Accepts : Extraction → Type 0
  Accepts e = (text : Text) → e.text ≡ some text → valid_text digest text ≡ true

  extract_pages-Accepts :
      (tools : Tools) (o : Options) (checksum version : List ℕ)
      → digest_form checksum ≡ true
      → 1 ≤ length version
      → length version ≤ 128
      → valid_utf8 version ≡ true
      → o.pages ≤ 100
      → Ensures Accepts (extract_pages digest tools o checksum version)
  unfolding extract_pages
  extract_pages-Accepts tools o checksum version d v w u hi = Ensures-bind tools.info _ λ info p.
      Ensures-refuse info.encrypted _ _ λ open_file.
        Ensures-refuse (ltb (or_none info.pages) 1 || ltb o.pages (or_none info.pages)) _ _ λ range.
          Ensures-bind tools.text _ λ (text, diagnostics) q.
            Ensures-bind tools.images _ λ (images, diagnostics') r.
              Ensures-bind (canonical digest text images (or_none info.pages)) _ λ t h.
                let reported =
                  ltb 0 (visible info.diagnostics)
                  || (ltb 0 (visible diagnostics) || ltb 0 (visible diagnostics')) in
                Ensures-ok _ λ result e.
                  holds_of_some (λ s. valid_text digest s ≡ true) _ result e
                    (completed-valid_text text images (or_none info.pages) t h checksum version
                      reported d v w u (ground arith) (ground arith))

  -- Where a digest is 32 bytes in lower-case hexadecimal and the tool prints its version in UTF-8,
  -- every text that a run returns is one that the platform accepts.
  pub run-valid_text :
      (tools : Tools) (file : Option (List ℕ)) (o : Options)
      → ((bytes : List ℕ) → digest_form (digest bytes) ≡ true)
      → ((v : List ℕ) → tools.version ≡ ok (some v) → valid_utf8 v ≡ true)
      → Ensures Accepts (run digest tools file o)
  unfolding run
  run-valid_text tools file o form encoded =
      Ensures-refuse (ltb o.pages 1 || ltb max_pages o.pages) _ _ λ range.
        Ensures-bind (snapshot digest o file) _ λ checksum p.
          Ensures-bind tools.version _ λ found q. Ensures-bind (named_version found) _ λ version r.
            Ensures-if o.inspect _ _
              (λ _. Ensures-ok _ (λ (text : Text) (e : none ≡ some text). cc))
              λ _.
                let (low, high, bytes) =
                  named_version_bounds found version r λ v e. encoded v (q ∙ ap ok e) in
                extract_pages-Accepts tools o checksum version
                  (snapshot_digest o file checksum form p) low high bytes (ground arith)

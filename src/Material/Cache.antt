-- ===== src/Material/Cache.antt =====
-- `extractText` of internal/platform/kernel.go: the text of a resume from the table
-- `core_resumetextextraction`, or from the extractor where no kept text passes the checks.
use resume_platform.Shared.{
  ℕ, ◌≡◌, ◌∙◌, refl, Bool, true, false, not, ◌&&◌, Option, none, some, List, [], ◌∷◌, length,
  Result, ok, err, task_error, refuse_if, ◌>>=◌, ◌>>◌, Ensures, Ensures-ok, Ensures-err,
  Ensures-refuse, Ensures-bind, Ensures-if_none, Option-cases, Bool-cases, inl, inr, arith,
  if◌then◌else◌, if_none,
}
use resume_platform.Material.Extractor.{Text, Options, Extraction, list_eq}
use resume_platform.Material.Validation.{valid_text}
use resume_platform.Material.Accepted.{list_eq_refl}

-- A row; the payload is `none` where it is no encoding of a text.
pub record Kept : Type 0 where
  pub file_sha256 : List ℕ
  pub extractor_version : List ℕ
  pub payload : Option Text

-- What the volunteer says of its file, and what stands in the file: `none` where `resumeFile` or
-- `fileDigest` cannot read it.
pub record Artifact : Type 0 where
  pub checksum : List ℕ
  pub content : Option (List ℕ)

-- `WHERE file_sha256=$1 AND extractor_version=$2`
unfoldable pub find_kept : List ℕ → List ℕ → List Kept → Option Kept
find_kept checksum version [] = none
find_kept checksum version (k ∷ ks) =
    if list_eq k.file_sha256 checksum && list_eq k.extractor_version version
    then some k
    else find_kept checksum version ks

-- `INSERT … ON CONFLICT(file_sha256,extractor_version) DO UPDATE SET payload`
unfoldable pub keep_text : List ℕ → List ℕ → Text → List Kept → List Kept
keep_text checksum version text [] =
    record { file_sha256 = checksum; extractor_version = version; payload = some text } ∷ []
keep_text checksum version text (k ∷ ks) =
    if list_eq k.file_sha256 checksum && list_eq k.extractor_version version
    then record k { payload = some text } ∷ ks
    else k ∷ keep_text checksum version text ks

abbrev is_empty : List ℕ → Bool
is_empty [] = true
is_empty (c ∷ s) = false

-- The options of the two calls of the extractor, for a file with this digest and size.
abbrev pub inspection : ℕ → List ℕ × ℕ → Options
inspection max_pages (checksum, size) = record {
  sha256 = checksum;
  size = size;
  pages = max_pages;
  inspect = true;
}

abbrev pub extraction : ℕ → List ℕ × ℕ → Options
extraction max_pages (checksum, size) = record {
  sha256 = checksum;
  size = size;
  pages = max_pages;
  inspect = false;
}

module _ (digest : List ℕ → List ℕ) where
  -- The checks that a kept text and an extracted one have to pass.
  abbrev pub fits : List ℕ → List ℕ → Text → Bool
  fits checksum version t =
      list_eq t.file_sha256 checksum && (list_eq t.extractor_version version && valid_text digest t)

  abbrev usable : List ℕ → List ℕ → Option Text → Option Text
  usable checksum version none = none
  usable checksum version (some t) = if fits checksum version t then some t else none

  -- The kept text, where there is one that may be used.
  unfoldable pub cached_text : List ℕ → List ℕ → List Kept → Option Text
  cached_text checksum version kept = elim (find_kept checksum version kept) [
    | none ↦ none
    | some k ↦ usable checksum version k.payload
  ]

  -- `fileDigest`
  unfoldable pub file_digest : Option (List ℕ) → Result (List ℕ × ℕ)
  file_digest none = err (task_error "pdf_missing" "PDF 简历文件缺失或不可读")
  file_digest (some []) = err (task_error "pdf_damaged" "PDF 文件为空")
  file_digest (some (b ∷ bytes)) = ok (digest (b ∷ bytes), length (b ∷ bytes))

  -- `extractor` is `a.Extract`, which is `run` unless a test replaces it.
  module _ (extractor : Options → Result Extraction) (max_pages : ℕ) where
    unfoldable pub checked_extraction : Options → List ℕ → List ℕ → Result Text
    checked_extraction o checksum version = do
      extracted ← extractor o
      if_none (usable checksum version extracted.text)
          (err (task_error "resume_text_invalid" "提取文本校验失败，请重试材料")) λ t. ok t

    unfoldable pub extract_text : Artifact → List Kept → Result (Text × List Kept)
    unfolding checked_extraction
    extract_text a kept = do
      file ← file_digest a.content
      refuse_if (not (is_empty a.checksum) && not (list_eq a.checksum file.0))
          (task_error "pdf_changed" "PDF 已更换，请重新提交任务")
      info ← extractor (inspection max_pages file)
      if_none (cached_text file.0 info.extractor_version kept)
          (checked_extraction (extraction max_pages file) file.0 info.extractor_version >>= λ t.
            ok (t, keep_text file.0 info.extractor_version t kept))
          λ t. ok (t, kept)

module _ (digest : List ℕ → List ℕ) where
  usable-fits :
      (checksum version : List ℕ) (o : Option Text) (t : Text)
      → usable digest checksum version o ≡ some t
      → fits digest checksum version t ≡ true
  usable-fits checksum version none t h = cc
  usable-fits checksum version (some s) t h = elim (Bool-cases (fits digest checksum version s)) [
    | inl e ↦ let same : s ≡ t = ground arith in rw (← same) e
    | inr e ↦ absurd (ground arith)
  ]

  cached_text-fits :
      (checksum version : List ℕ) (kept : List Kept) (t : Text)
      → cached_text digest checksum version kept ≡ some t
      → fits digest checksum version t ≡ true
  unfolding cached_text
  cached_text-fits checksum version kept t h =
      elim (Option-cases (find_kept checksum version kept)) [
        | inl e ↦ absurd (ground arith)
        | inr (k, e) ↦ usable-fits checksum version k.payload t (ground arith)
      ]

  cached_text-keep_text :
      (checksum version : List ℕ) (t : Text) (kept : List Kept)
      → fits digest checksum version t ≡ true
      → cached_text digest checksum version (keep_text checksum version t kept) ≡ some t
  unfolding cached_text find_kept keep_text
  cached_text-keep_text checksum version t [] h =
      ground (arith, list_eq_refl checksum, list_eq_refl version)
  cached_text-keep_text checksum version t (k ∷ ks) h =
      ground (arith, cached_text-keep_text checksum version t ks)

  checked_extraction-fits :
      (extractor : Options → Result Extraction) (limit : ℕ) (o : Options)
      (checksum version : List ℕ)
      → Ensures
          (λ t. fits digest checksum version t ≡ true)
          (checked_extraction digest extractor limit o checksum version)
  unfolding checked_extraction
  checked_extraction-fits extractor limit o checksum version =
      Ensures-bind (extractor o) _ λ extracted p.
        Ensures-if_none (usable digest checksum version extracted.text) _ _ (λ q. Ensures-err _)
          λ t q. Ensures-ok t (usable-fits checksum version extracted.text t q)

  -- Whatever the table holds and whatever the extractor answers, a text that is handed on belongs to
  -- the file as it stands, has the version of the extractor that was asked, and passes `validText`.
  pub extract_text-fits :
      (extractor : Options → Result Extraction) (limit : ℕ) (a : Artifact) (kept : List Kept)
      → Ensures
          (λ (r : Text × List Kept).
            (file : List ℕ × ℕ) × (info : Extraction) × (file_digest digest a.content ≡ ok file)
            × (extractor (inspection limit file) ≡ ok info)
            × (fits digest file.0 info.extractor_version r.0 ≡ true))
          (extract_text digest extractor limit a kept)
  unfolding extract_text
  extract_text-fits extractor limit a kept =
      Ensures-bind (file_digest digest a.content) _ λ found p.
        Ensures-refuse (not (is_empty a.checksum) && not (list_eq a.checksum found.0)) _ _ λ same.
          Ensures-bind (extractor _) _ λ info q.
            Ensures-if_none (cached_text digest found.0 info.extractor_version kept) _ _
              (λ missing.
                Ensures-bind
                  (checked_extraction digest extractor limit _ found.0 info.extractor_version) _
                  λ t r. Ensures-ok _ (
                    found,
                    info,
                    p,
                    q,
                    (checked_extraction-fits extractor limit _ found.0 info.extractor_version).at t
                        r,
                  ))
              λ t r.
                Ensures-ok _
                  (found, info, p, q, cached_text-fits found.0 info.extractor_version kept t r)

  -- A text that was handed on is handed on again from the table: a second call on the same file gives
  -- it and leaves the table as it is, whatever the extractor would make of the file by then, as long
  -- as it reports the same version.
  pub extract_text-again :
      (extractor later : Options → Result Extraction) (limit : ℕ) (a : Artifact) (kept : List Kept)
      → ((o : Options) → o.inspect ≡ true → later o ≡ extractor o)
      → Ensures
          (λ (r : Text × List Kept). extract_text digest later limit a r.1 ≡ ok r)
          (extract_text digest extractor limit a kept)
  unfolding extract_text
  extract_text-again extractor later limit a kept same_version =
      Ensures-bind (file_digest digest a.content) _ λ found p.
        Ensures-refuse (not (is_empty a.checksum) && not (list_eq a.checksum found.0)) _ _ λ same.
          Ensures-bind (extractor (inspection limit found)) _ λ info q.
            let asked : later (inspection limit found) ≡ ok info =
              same_version (inspection limit found) refl ∙ q in
            Ensures-if_none (cached_text digest found.0 info.extractor_version kept) _ _
              (λ missing.
                Ensures-bind
                  (checked_extraction digest extractor limit (extraction limit found) found.0
                    info.extractor_version)
                  _
                  λ t r.
                    let fit =
                      (checked_extraction-fits extractor limit (extraction limit found) found.0
                          info.extractor_version).at
                        t r in
                    Ensures-ok _ (
                      rw p (
                        rw same (
                          rw asked (
                            rw (cached_text-keep_text found.0 info.extractor_version t kept fit)
                              refl)))))
              λ t r. Ensures-ok _ (rw p (rw same (rw asked (rw r refl))))

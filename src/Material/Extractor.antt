-- ===== src/Material/Extractor.antt =====
-- `run` and `canonical` of internal/pdftext/extractor.go. The tools of Poppler and the digest are
-- parameters: a tool answers or fails, and what the source reads of an answer by a regular
-- expression is a field of it.
use resume_platform.Shared.{
  ℕ, zero, suc, ◌+◌, Bool, true, false, not, ◌&&◌, ◌||◌, Option, none, some, List, [], ◌∷◌, ◌++◌,
  any, length, Result, ok, err, task_error, refuse_if, ◌>>=◌, ◌>>◌, ltb, leb, ◌==◌, if◌then◌else◌,
}
use resume_platform.Material.Characters.{
  lf, ff, byte_len, contains_rune, drop_cr, replace_cr, trim_ff, split, join, visible, text_fields,
  atoi,
}

abbrev pub max_text_bytes : ℕ
max_text_bytes = 0x100000

abbrev pub max_pages : ℕ
max_pages = 100

-- The texts that `canonical` and `run` append to the warnings; a page is named by its number.
pub data Warning : Type 0 where
  little_text : Warning
  scanned_page : ℕ → Warning
  tool_diagnostics : Warning
  other_warning : List ℕ → Warning

pub data TextStatus : Type 0 where
  ready needs_attention other_status : TextStatus

-- `Text`; the digests are in hexadecimal.
pub record Text : Type 0 where
  pub file_sha256 : List ℕ
  pub text_sha256 : List ℕ
  pub extractor_version : List ℕ
  pub pages : List (List ℕ)
  pub status : TextStatus
  pub warnings : List Warning

-- The text of a tool's output, line ends and the last form feed normalized.
unfoldable pub normalize : List ℕ → List ℕ
normalize raw = trim_ff (replace_cr (drop_cr raw))

abbrev number_at : ℕ → List (List ℕ) → ℕ
number_at i [] = 0
number_at zero (f ∷ fs) = atoi f
number_at (suc i) (f ∷ fs) = number_at i fs

-- A line of `pdfimages -list` that shows a large image on this page.
abbrev shows_image : ℕ → ℕ → List (List ℕ) → Bool
shows_image count page fields =
    leb 5 (length fields)
    && (number_at 0 fields == page
        && (leb 1 page
            && (leb page count && (leb 256 (number_at 3 fields) && leb 256 (number_at 4 fields)))))

-- `imagePages[page]`
unfoldable pub image_page : List ℕ → ℕ → ℕ → Bool
image_page images count page =
    any (λ line. shows_image count page (text_fields line)) (split lf images)

-- The two loops over the pages; `i` is the number of the first one.
unfoldable pub total_visible : List (List ℕ) → ℕ
total_visible [] = 0
total_visible (p ∷ ps) = visible p + total_visible ps

unfoldable pub scanned : (ℕ → Bool) → ℕ → List (List ℕ) → List Warning
scanned image i [] = []
scanned image i (p ∷ ps) =
    let rest = scanned image (suc i) ps in
    if ltb (visible p) 50 && image i then scanned_page i ∷ rest else rest

unfoldable pub warnings_of : List ℕ → List (List ℕ) → List Warning
warnings_of images pages =
    (if ltb (total_visible pages) 50 then little_text ∷ [] else [])
    ++ scanned (image_page images (length pages)) 1 pages

abbrev pub status_of : List Warning → TextStatus
status_of [] = ready
status_of (w ∷ ws) = needs_attention

module _ (digest : List ℕ → List ℕ) where
  -- `canonical`; the raw output is `none` where it is no UTF-8.
  unfoldable pub canonical : Option (List ℕ) → List ℕ → ℕ → Result Text
  canonical none images count = err (task_error "pdf_damaged" "提取文字编码无效，无法保证完整文本")
  canonical (some raw) images count = do
    refuse_if (contains_rune 0 raw) (task_error "pdf_damaged" "提取文字编码无效，无法保证完整文本")
    let pages = split ff (normalize raw)
    refuse_if (not (length pages == count)) (task_error "pdf_damaged" "提取分页无效，无法保证完整文本")
    refuse_if (ltb max_text_bytes (byte_len (join ff pages)))
        (task_error "resume_text_too_large" "提取文本超过 1 MiB 上限，未截断全文")
    ok (record {
      file_sha256 = [];
      text_sha256 = digest (join ff pages);
      extractor_version = [];
      pages = pages;
      status = status_of (warnings_of images pages);
      warnings = warnings_of images pages;
    })

-- `Options`, without the path.
pub record Options : Type 0 where
  pub sha256 : List ℕ
  pub size : ℕ
  pub pages : ℕ
  pub inspect : Bool

pub record Extraction : Type 0 where
  pub file_sha256 : List ℕ
  pub extractor_version : List ℕ
  pub text : Option Text

pub record Info : Type 0 where
  pub encrypted : Bool
  pub pages : Option ℕ
  pub diagnostics : List ℕ

-- The commands that `run` calls on the file, with their diagnostics where the source reads them.
pub record Tools : Type 0 where
  pub version : Result (Option (List ℕ))
  pub info : Result Info
  pub text : Result (Option (List ℕ) × List ℕ)
  pub images : Result (List ℕ × List ℕ)

abbrev pub list_eq : List ℕ → List ℕ → Bool
list_eq [] [] = true
list_eq (a ∷ xs) (b ∷ ys) = a == b && list_eq xs ys
list_eq _ _ = false

abbrev pub or_none : Option ℕ → ℕ
or_none none = 0
or_none (some n) = n

-- "poppler-layout-go/v2.1:" and the version of the tool, as bytes
abbrev pub version_prefix : List ℕ
version_prefix =
    b'p' ∷ b'o' ∷ b'p' ∷ b'p' ∷ b'l' ∷ b'e' ∷ b'r' ∷ b'-' ∷ b'l' ∷ b'a' ∷ b'y' ∷ b'o' ∷ b'u' ∷ b't'
    ∷ b'-' ∷ b'g' ∷ b'o' ∷ b'/' ∷ b'v' ∷ b'2' ∷ b'.' ∷ b'1' ∷ b':' ∷ []

abbrev pub named_version : Option (List ℕ) → Result (List ℕ)
named_version none = err (task_error "text_extractor_unavailable" "无法确认 PDF 提取器版本")
named_version (some v) =
    if ltb 80 (length v)
    then err (task_error "text_extractor_unavailable" "无法确认 PDF 提取器版本")
    else ok (version_prefix ++ v)

-- What `run` appends where a tool reported something.
abbrev pub flagged : Bool → Text → Text
flagged false text = text
flagged true text = record text {
  status = needs_attention;
  warnings = text.warnings ++ tool_diagnostics ∷ [];
}

module _ (digest : List ℕ → List ℕ) where
  -- `snapshot`, of the bytes of the file; `none` where there is no regular file to read.
  unfoldable pub snapshot : Options → Option (List ℕ) → Result (List ℕ)
  snapshot o none = err (task_error "pdf_missing" "PDF 简历文件缺失或不可读，请重新提供文件")
  snapshot o (some []) = err (task_error "pdf_damaged" "PDF 文件为空，请重新提供文件")
  snapshot o (some (b ∷ bytes)) =
      if not (list_eq (digest (b ∷ bytes)) o.sha256) || not (length (b ∷ bytes) == o.size)
      then err (task_error "pdf_changed" "PDF 已更换，请重新提交任务以使用新材料")
      else ok (digest (b ∷ bytes))

  unfoldable pub extract_pages : Tools → Options → List ℕ → List ℕ → Result Extraction
  extract_pages t o checksum version = do
    info ← t.info
    refuse_if info.encrypted (task_error "pdf_encrypted" "PDF 已加密，请提供未加密文件")
    let count = or_none info.pages
    refuse_if (ltb count 1 || ltb o.pages count) (task_error "pdf_page_limit" "PDF 页数无效或超过材料页数上限")
    (raw, text_diagnostics) ← t.text
    (images, image_diagnostics) ← t.images
    text ← canonical digest raw images count
    let reported =
        ltb 0 (visible info.diagnostics)
        || (ltb 0 (visible text_diagnostics) || ltb 0 (visible image_diagnostics))
    ok (record {
      file_sha256 = checksum;
      extractor_version = version;
      text =
          some (record (flagged reported text) {
            file_sha256 = checksum;
            extractor_version = version;
          });
    })

  -- `run`
  unfoldable pub run : Tools → Option (List ℕ) → Options → Result Extraction
  unfolding extract_pages
  run t file o = do
    refuse_if (ltb o.pages 1 || ltb max_pages o.pages)
        (task_error "pdf_page_limit" "PDF 页数上限必须在 1 到 100 之间")
    checksum ← snapshot o file
    found ← t.version
    version ← named_version found
    if o.inspect
        then ok (record { file_sha256 = checksum; extractor_version = version; text = none })
        else extract_pages t o checksum version

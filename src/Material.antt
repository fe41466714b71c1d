-- ===== src/Material.antt =====
-- The full text of a resume: internal/pdftext/extractor.go, which takes it from a PDF, and
-- `validText` and `extractText` of internal/platform/kernel.go, which check and keep it. A Go string
-- is the list of its code points, so the UTF-8 checks of `validText` hold of every one; only the raw
-- output of a tool may be no UTF-8.
pub mod Characters
pub mod Extractor
pub mod Validation
pub mod Lossless
pub mod Accepted
pub mod Cache
pub mod Tests

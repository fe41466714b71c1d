-- ===== src/Material/Validation.antt =====
-- `validText` of internal/platform/kernel.go: whether an extracted or a kept text may be used. Pages
-- and warnings are code points, which have an encoding in UTF-8 always, so that only the version,
-- which is bytes, is tested for it.
use resume_platform.Shared.{
  ℕ, Bool, true, false, not, ◌&&◌, ◌||◌, List, [], ◌∷◌, any, all, length, ltb, leb, ◌==◌,
}
use resume_platform.Material.Characters.{valid_utf8, ff, cr, byte_len, contains_rune, join}
use resume_platform.Material.Extractor.{
  Text, TextStatus, ready, other_status, Warning, max_text_bytes, list_eq, total_visible,
}

abbrev is_digit : ℕ → Bool
is_digit c = leb b'0' c && leb c b'9'

abbrev is_hex : ℕ → Bool
is_hex c = is_digit c || ((leb b'a' c && leb c b'f') || (leb b'A' c && leb c b'F'))

abbrev is_upper : ℕ → Bool
is_upper c = leb b'A' c && leb c b'Z'

-- `hex.DecodeString` gives 32 bytes, and `strings.ToLower` changes nothing.
unfoldable pub digest_form : List ℕ → Bool
digest_form s = length s == 64 && (all is_hex s && not (any is_upper s))

-- A page with a character of "\r\f\x00"
unfoldable pub control_page : List ℕ → Bool
control_page p = contains_rune cr p || (contains_rune ff p || contains_rune 0 p)

abbrev pub is_ready : TextStatus → Bool
is_ready ready = true
is_ready _ = false

abbrev pub known_text_status : TextStatus → Bool
known_text_status other_status = false
known_text_status _ = true

abbrev pub no_warnings : List Warning → Bool
no_warnings [] = true
no_warnings (w ∷ ws) = false

module _ (digest : List ℕ → List ℕ) where
  -- `validText`. The version is a list of bytes, the pages and warnings are lists of characters, which
  -- JSON and the check of the tool's output give. A text is blank where `strings.TrimSpace` leaves nothing of its pages.
  unfoldable pub valid_text : Text → Bool
  valid_text t =
      not (
        ltb (length t.pages) 1
        || (ltb 100 (length t.pages)
            || (ltb (length t.extractor_version) 1
                || (ltb 128 (length t.extractor_version)
                    || (not (valid_utf8 t.extractor_version)
                        || (not (known_text_status t.status) || ltb 200 (length t.warnings)))))))
      && (digest_form t.file_sha256
          && (not (not (is_ready t.status) && no_warnings t.warnings)
              && (not (any control_page t.pages)
                  && (not (is_ready t.status && total_visible t.pages == 0)
                      && (leb (byte_len (join ff t.pages)) max_text_bytes
                          && list_eq (digest (join ff t.pages)) t.text_sha256)))))

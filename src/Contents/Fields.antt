-- ===== src/Contents/Fields.antt =====
-- contents.service.ts: the validation of the fields of a content, and the errors of a write.
use ai_content_operating_sys.Base.{ℕ, ◌||◌, List, any, length, ltb}
use ai_content_operating_sys.Errors.{
  Failure, Action, pure, throw, throw_if, ◌>>◌, coded, known, p2002, bad_request, conflict_status,
  validation, content_html_unsafe, content_slug_conflict,
}
use ai_content_operating_sys.Text.{Text, Unicode, is_empty, byte_length, trim, collapse_spaces}
use ai_content_operating_sys.Database.Store.{Store}
use ai_content_operating_sys.Contents.Domain.Html.{
  HtmlLibrary, max_content_html_bytes, contains_executable_html, sanitize_editorial_html,
}
use ai_content_operating_sys.Contents.Domain.Labels.{normalize_content_labels}
use ai_content_operating_sys.Contents.Domain.Slug.{normalize_content_slug}

abbrev pub max_content_labels : ℕ
max_content_labels = 30

abbrev pub max_content_label_length : ℕ
max_content_label_length = 80

abbrev pub invalid : Failure
invalid = coded bad_request validation

-- `validHtml`
unfoldable pub valid_html : HtmlLibrary → Text → Action Store Text
unfolding byte_length contains_executable_html sanitize_editorial_html
valid_html lib value = do
  throw_if (ltb max_content_html_bytes (byte_length value)) invalid
  throw_if (contains_executable_html value) (coded bad_request content_html_unsafe)
  pure (sanitize_editorial_html lib value)

-- `validLabels`
unfoldable pub valid_labels : Unicode → List Text → Action Store (List Text)
unfolding normalize_content_labels
valid_labels u value = do
  let labels = normalize_content_labels u value
  throw_if
      (ltb max_content_labels (length labels)
        || any (λ label. ltb max_content_label_length (length label)) labels)
      invalid
  pure labels

-- `normalizedTitle`
unfoldable pub normalized_title : Text → Action Store Text
unfolding trim collapse_spaces
normalized_title value = do
  let title = collapse_spaces (trim value)
  throw_if (is_empty title) invalid
  pure title

-- `validSlug`
unfoldable pub valid_slug : Unicode → Text → Action Store Text
unfolding normalize_content_slug
valid_slug u value = do
  let slug = normalize_content_slug u value
  throw_if (is_empty slug || ltb 120 (length slug)) invalid
  pure slug

-- `handleWriteError`
unfoldable pub handle_write_error : {A : Type 0} → Failure → Action Store A
handle_write_error (known p2002) = throw (coded conflict_status content_slug_conflict)
handle_write_error e = throw e

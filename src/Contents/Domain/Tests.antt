-- ===== src/Contents/Domain/Tests.antt =====
-- The normal forms on small inputs.
use ai_content_operating_sys.Base.{
  ◌+◌, ◌*◌, ◌≤◌, ◌<◌, ◌≡◌, refl, true, false, List, [], ◌∷◌, any, length, ltb,
}
use ai_content_operating_sys.Errors.{ok, and_then}
use ai_content_operating_sys.Text.{Text, Unicode, units}
use ai_content_operating_sys.Database.Store.{empty}
use ai_content_operating_sys.Contents.Domain.Html.{reading_minutes}
use ai_content_operating_sys.Contents.Domain.Labels.{normalize_content_labels}
use ai_content_operating_sys.Contents.Domain.Slug.{normalize_content_slug}
use ai_content_operating_sys.Contents.Domain.Words.{IsSlugText}
use ai_content_operating_sys.Contents.Domain.Normal.{is_joined, valid_slug_lem, reading_minutes_lem}
use ai_content_operating_sys.Contents.Domain.Order.{is_sorted, is_distinct, valid_labels_lem}
use ai_content_operating_sys.Contents.Fields.{valid_slug, valid_labels}

abbrev plain_unicode : Unicode
plain_unicode = record {
  to_lower_case = λ s. s;
  to_locale_lower_case = λ s. s;
  nfkd = λ s. s;
  nfkc = λ s. s;
  is_letter_or_number = λ c. true;
}

slugs :
    valid_slug plain_unicode (units " --my  new__post- ") empty ≡ (ok (units "my-new-post"), empty)
unfolding valid_slug and_then normalize_content_slug
slugs = refl

valid_slug_lem_example :
    (is_joined true (units "my-new-post") ≡ true)
    × IsSlugText plain_unicode (units "my-new-post")
    × (length (units "my-new-post") ≤ 120)
    × (empty ≡ empty)
valid_slug_lem_example = valid_slug_lem plain_unicode (units " --my  new__post- ") slugs

abbrev labels : List Text
labels = units "ant" ∷ units "bee" ∷ []

labelled :
    valid_labels plain_unicode (units "bee" ∷ units " ant " ∷ [] ∷ units "bee" ∷ []) empty
    ≡ (ok labels, empty)
unfolding valid_labels and_then normalize_content_labels
labelled = refl

valid_labels_lem_example :
    (is_sorted labels ≡ true)
    × (is_distinct labels ≡ true)
    × (length labels ≤ 30)
    × (any (λ label. ltb 80 (length label)) labels ≡ false)
    × (empty ≡ empty)
valid_labels_lem_example =
    valid_labels_lem plain_unicode (units "bee" ∷ units " ant " ∷ [] ∷ units "bee" ∷ []) labelled

reading_minutes_lem_example :
    (226 ≤ 225 * reading_minutes 226) × (225 * reading_minutes 226 < 226 + 225)
reading_minutes_lem_example = reading_minutes_lem 226

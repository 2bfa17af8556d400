-- ===== src/Contents/Drafts/Fields.antt =====
-- The fields that an AI draft offers, validated (`applyAiGenerationCandidate`).
use ai_content_operating_sys.Base.{◌≡◌, refl, ap, ◌∙◌, subst}
use ai_content_operating_sys.Errors.{ok, steps, and_then-Steps, ok_injective}
use ai_content_operating_sys.Errors.Atomic.{read_only}
use ai_content_operating_sys.Database.Client.{Client}
use ai_content_operating_sys.Database.ContentRows.{
  ContentItem, ContentProfile, AiGenerationCandidate,
}
use ai_content_operating_sys.Database.Store.{Store}
use ai_content_operating_sys.Contents.Domain.Html.{HtmlLibrary, calculate_content_metrics}
use ai_content_operating_sys.Contents.Fields.{normalized_title, valid_html, valid_labels}
use ai_content_operating_sys.Contents.Revisions.{Draws}
use ai_content_operating_sys.Contents.Applying.{
  DraftFields, UsableDraft, draft_fields, suggested, non_empty,
}
use ai_content_operating_sys.Contents.Rollback.Checks.{
  normalized_title-Reads, valid_html-Reads, valid_labels-Reads,
}
use ai_content_operating_sys.Contents.Rollback.Drafts.{suggested-Reads}

-- The title, the text, the labels and the slug are what the validators returned for those of the draft
-- (the slug of the item, where the draft suggests none); the rest is as the draft and its profile say.
pub record Offered (lib : HtmlLibrary) (candidate : AiGenerationCandidate) (offer : UsableDraft)
    (profile : ContentProfile) (current : ContentItem) (s : Store) (fields : DraftFields)
    : Type 0 where
  pub title : normalized_title offer.title s ≡ (ok fields.title, s)
  pub body : valid_html lib offer.html s ≡ (ok fields.html, s)
  pub labels : valid_labels lib.unicode candidate.suggested_labels s ≡ (ok fields.labels, s)
  pub slug :
      suggested lib.unicode (non_empty candidate.suggested_slug) current.slug s
      ≡ (ok fields.slug, s)
  pub metrics : fields.metrics ≡ calculate_content_metrics lib fields.html
  pub excerpt : fields.excerpt ≡ candidate.excerpt
  pub meta_description : fields.meta_description ≡ candidate.meta_description
  pub language : fields.language ≡ profile.language
  pub locale : fields.locale ≡ profile.locale
  pub profile_id : fields.content_profile_id ≡ candidate.content_profile_id

module _ (db : Client) (lib : HtmlLibrary) (draws : Draws) where
  pub draft_fields-Offered :
      (candidate : AiGenerationCandidate) (offer : UsableDraft) (profile : ContentProfile)
      (current : ContentItem) (s t : Store) {fields : DraftFields}
      → draft_fields db lib draws candidate offer profile current s ≡ (ok fields, t)
      → Offered lib candidate offer profile current s fields
  unfolding draft_fields
  draft_fields-Offered candidate offer profile current s t {fields} h =
      elim (and_then-Steps _ _ h) [
        | steps html s₁ e₁ h₁ ↦ elim (and_then-Steps _ _ h₁) [
          | steps labels s₂ e₂ h₂ ↦ elim (and_then-Steps _ _ h₂) [
            | steps title s₃ e₃ h₃ ↦ elim (and_then-Steps _ _ h₃) [
              | steps slug s₄ e₄ h₄ ↦
                  let q₁ = read_only _ (valid_html-Reads lib offer.html) e₁ in
                  let q₂ = read_only _ (valid_labels-Reads lib lib.unicode _) e₂ in
                  let q₃ = read_only _ (normalized_title-Reads lib offer.title) e₃ in
                  let q₄ = read_only _ (suggested-Reads db lib draws lib.unicode _ _) e₄ in
                  let back₂ : s₂ ≡ s = q₂ ∙ q₁ in
                  let back₃ : s₃ ≡ s = q₃ ∙ back₂ in
                  let is_fields = ok_injective _ _ (ap (λ z. z.0) h₄) in
                  subst (Offered lib candidate offer profile current s) is_fields (record {
                    title = rw (back₃, back₂) at e₃;
                    body = rw q₁ at e₁;
                    labels = rw (back₂, q₁) at e₂;
                    slug = rw (q₄ ∙ back₃, back₃) at e₄;
                    metrics = refl;
                    excerpt = refl;
                    meta_description = refl;
                    language = refl;
                    locale = refl;
                    profile_id = refl;
                  })
            ]
          ]
        ]
      ]

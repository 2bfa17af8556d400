-- ===== src/Contents/Tests/Drafts.antt =====
-- A new content and an accepted draft on it.
use ai_content_operating_sys.Database.IdentityRows.{Website, WebsitePlatform, WebsiteStatus}
use ai_content_operating_sys.Base.{true, [], ◌∷◌, none, some}
use ai_content_operating_sys.Text.{units}
use ai_content_operating_sys.Auth.Permissions.{writer}
use ai_content_operating_sys.Database.Client.{in_memory}
use ai_content_operating_sys.Database.ContentRows.{
  ContentItem, ContentProfile, AiGenerationCandidate, ProfileStatus, CandidateStatus,
}
use ai_content_operating_sys.Database.Store.{Store}
use ai_content_operating_sys.Contents.Domain.Status.{draft, in_review}
use ai_content_operating_sys.Contents.Editing.{CreateContent, new_item, create_content}
use ai_content_operating_sys.Contents.Applying.{
  AiGenerationApplyResult, apply_ai_generation_candidate,
}
use ai_content_operating_sys.Contents.Tests.Fixtures.{plain_html, ada, as_role, store_in, draws}

abbrev new_content : CreateContent
new_content = record {
  title = units "My title";
  slug = none;
  excerpt = none;
  html_content = units "<p>Hi</p>";
  meta_title = none;
  meta_description = none;
  canonical_url = none;
  language = units "fr";
  locale = none;
  featured_image_reference = none;
  labels = none;
  editorial_status = none;
  content_profile_id = none;
  assigned_to_user_id = none;
  change_reason = none;
}

abbrev site_row : Website
site_row = record {
  id = 2;
  workspace_id = 1;
  name = [];
  slug = [];
  platform = WebsitePlatform.blogger;
  language = [];
  locale = none;
  timezone = [];
  description = none;
  status = WebsiteStatus.live;
  deleted_at = none;
}

abbrev with_site : Store
with_site = record (store_in draft) { websites = site_row ∷ [] }

abbrev created_store : Store
created_store =
    (create_content in_memory plain_html draws ada (as_role writer) 2 new_content with_site).1

abbrev created_item : ContentItem
created_item =
    new_item plain_html 4 7 1 2 new_content (units "My title") (units "My-title")
      (units "<p>Hi</p>") []

abbrev profile : ContentProfile
profile = record {
  id = 5;
  workspace_id = 1;
  website_id = 2;
  name = [];
  language = units "en";
  locale = none;
  country_code = none;
  tone = [];
  target_audience = none;
  editorial_rules = [];
  prohibited_topics = [];
  is_default = true;
  status = ProfileStatus.active;
}

abbrev candidate : AiGenerationCandidate
candidate = record {
  id = 6;
  workspace_id = 1;
  website_id = 2;
  content_item_id = 3;
  content_profile_id = 5;
  ai_run_id = some 8;
  applied_by_user_id = none;
  status = CandidateStatus.ready;
  base_revision_number = 1;
  title = some (units "Generated");
  excerpt = none;
  html_content = some (units "<p>Text</p>");
  suggested_slug = none;
  meta_description = none;
  suggested_labels = [];
  applied_revision_number = none;
  applied_at = none;
}

abbrev with_draft : Store
with_draft = record (store_in in_review) { candidates = candidate ∷ []; profiles = profile ∷ [] }

abbrev drafted_store : Store
drafted_store =
    (apply_ai_generation_candidate in_memory plain_html draws ada (as_role writer) 2 3 6
      with_draft).1

abbrev draft_result : AiGenerationApplyResult
draft_result = record {
  candidate_id = 6;
  content_item_id = 3;
  revision_number = some 2;
  ai_run_id = some 8;
}

-- ===== src/Contents/Tests/Fixtures.antt =====
-- A small workspace.
use ai_content_operating_sys.Base.{ℕ, sym, ◌∙◌, true, false, [], ◌∷◌, none}
use mathlib.Core.List.Memᴰ
use ai_content_operating_sys.Text.{Unicode, units}
use ai_content_operating_sys.Auth.Permissions.{WorkspaceRole, writer, permissions_for_role}
use ai_content_operating_sys.Auth.Types.{AuthContext, WorkspaceContext}
use ai_content_operating_sys.Database.Client.{in_memory}
use ai_content_operating_sys.Database.ContentRows.{ContentItem, PublicationStatus}
use ai_content_operating_sys.Database.Store.{Store, empty}
use ai_content_operating_sys.Contents.Domain.Status.{EditorialStatus, draft, in_review}
use ai_content_operating_sys.Contents.Domain.Html.{HtmlLibrary}
use ai_content_operating_sys.Contents.Revisions.{Draws, snapshot}
use ai_content_operating_sys.Contents.Transition.{TransitionContent, transition}
use ai_content_operating_sys.Contents.Versioning.{UniqueIds}

abbrev pub plain_unicode : Unicode
plain_unicode = record {
  to_lower_case = λ s. s;
  to_locale_lower_case = λ s. s;
  nfkd = λ s. s;
  nfkc = λ s. s;
  is_letter_or_number = λ c. true;
}

abbrev pub plain_html : HtmlLibrary
plain_html = record { sanitize_html = λ options s. s; unicode = plain_unicode }

abbrev pub ada : AuthContext
ada = record {
  user_id = 7;
  email = [];
  session_id = 1;
  security_version = 1;
  must_change_password = false;
}

abbrev pub as_role : WorkspaceRole → WorkspaceContext
as_role role = record {
  id = 1;
  member_id = 1;
  role = role;
  permissions = permissions_for_role role;
}

abbrev pub item_in : EditorialStatus → ℕ → ContentItem
item_in status version = record {
  id = 3;
  workspace_id = 1;
  website_id = 2;
  content_profile_id = none;
  title = units "Title";
  slug = units "title";
  excerpt = none;
  html_content = units "<p>Hi</p>";
  plain_text_content = units "Hi";
  meta_title = none;
  meta_description = none;
  canonical_url = none;
  language = units "fr";
  locale = none;
  featured_image_reference = none;
  labels = [];
  word_count = 1;
  estimated_reading_minutes = 1;
  editorial_status = status;
  publication_status = PublicationStatus.not_published;
  version = version;
  created_by_user_id = 7;
  assigned_to_user_id = none;
  archived_at = none;
}

abbrev pub store_in : EditorialStatus → Store
store_in status = record empty {
  items = item_in status 1 ∷ [];
  revisions = snapshot 10 (item_in status 1) 7 none ∷ [];
}

abbrev pub draws : Draws
draws = record { now = 100; item_id = 4; revision_id = 11; review_id = 20 }

pub one_UniqueIds : (item : ContentItem) → UniqueIds (item ∷ [])
one_UniqueIds item a b ma mb e = Memᴰ.eq_of_singleton ma ∙ sym (Memᴰ.eq_of_singleton mb)

abbrev pub submit : TransitionContent
submit = record { next_status = in_review; expected_version = 1; reason = none }

abbrev pub submitted : Store
submitted = (transition in_memory draws ada (as_role writer) 2 3 submit (store_in draft)).1

-- ===== src/Contents/Editing.antt =====
-- contents.service.ts: `create`, `get`, `update`, `revision` and websites.service.ts
-- `requireWebsite`.

use ai_content_operating_sys.Base.{
  ℕ, ◌+◌, Bool, true, not, ◌&&◌, ◌||◌, List, [], ◌==◌, Option, none, some, is_some, get_or,
  if◌then◌else◌,
}
use ai_content_operating_sys.Errors.{
  ok, Action, pure, throw_if, or_throw, transaction, catch, ◌>>=◌, ◌>>◌,
}
use ai_content_operating_sys.Text.{Text, Unicode, optional_text}
use ai_content_operating_sys.Auth.Permissions.{
  contents_update, contents_seo_update, contents_assign,
}
use ai_content_operating_sys.Auth.Types.{AuthContext, WorkspaceContext}
use ai_content_operating_sys.Database.Client.{Client}
use ai_content_operating_sys.Database.ContentRows.{
  ContentItem, ContentRevision, PublicationStatus, item_clash,
}
use ai_content_operating_sys.Database.Store.{
  Store, content_item, content_revision, website, find_first, create,
}
use ai_content_operating_sys.Contents.Domain.Status.{EditorialStatus, idea, draft, archived, same}
use ai_content_operating_sys.Contents.Domain.Html.{
  HtmlLibrary, calculate_content_metrics, set_metrics,
}
use ai_content_operating_sys.Contents.Fields.{
  valid_html, valid_labels, normalized_title, valid_slug, handle_write_error, invalid,
}
use ai_content_operating_sys.Contents.Rules.{
  invalid_transition, content_not_found, require_permission, assert_writer_can_edit,
}
use ai_content_operating_sys.Contents.Revisions.{
  Draws, find_content, validate_references, create_revision, update_with_revision, audit_content,
  audit_revision_and_change,
}
use ai_content_operating_sys.Contents.Reviewing.{revision_at}

-- An optional field of a request is `none` when it is not given.
pub record CreateContent : Type 0 where
  pub title : Text
  pub slug : Option Text
  pub excerpt : Option Text
  pub html_content : Text
  pub meta_title : Option Text
  pub meta_description : Option Text
  pub canonical_url : Option Text
  pub language : Text
  pub locale : Option Text
  pub featured_image_reference : Option Text
  pub labels : Option (List Text)
  pub editorial_status : Option EditorialStatus
  pub content_profile_id : Option ℕ
  pub assigned_to_user_id : Option ℕ
  pub change_reason : Option Text

-- `some none` is a field given as null.
pub record UpdateContent : Type 0 where
  pub expected_version : ℕ
  pub title : Option Text
  pub slug : Option Text
  pub excerpt : Option (Option Text)
  pub html_content : Option Text
  pub meta_title : Option (Option Text)
  pub meta_description : Option (Option Text)
  pub canonical_url : Option (Option Text)
  pub language : Option Text
  pub locale : Option (Option Text)
  pub featured_image_reference : Option (Option Text)
  pub labels : Option (List Text)
  pub content_profile_id : Option (Option ℕ)
  pub assigned_to_user_id : Option (Option ℕ)
  pub change_reason : Option Text

-- `changedGeneral.length`, `changedSeo.length`, `assignmentChanged`
abbrev pub changed_general : UpdateContent → Bool
changed_general i =
    is_some i.title
    || is_some i.excerpt
    || is_some i.html_content
    || is_some i.language
    || is_some i.locale
    || is_some i.featured_image_reference
    || is_some i.content_profile_id

abbrev pub changed_seo : UpdateContent → Bool
changed_seo i =
    is_some i.slug
    || is_some i.meta_title
    || is_some i.meta_description
    || is_some i.canonical_url
    || is_some i.labels

abbrev pub assignment_changed : UpdateContent → Bool
assignment_changed i = is_some i.assigned_to_user_id

-- The fields of an update once validated.
pub record Validated : Type 0 where
  pub html : Option Text
  pub title : Option Text
  pub slug : Option Text
  pub labels : Option (List Text)

-- `x !== undefined ? f(x) : …`
abbrev pub validated : {A B : Type 0} → Option A → (A → Action Store B) → Action Store (Option B)
validated none f = pure none
validated (some a) f = f a >>= λ b. pure (some b)

abbrev pub given : Option (Option Text) → Option Text → Option Text
given none old = old
given (some v) old = optional_text v

abbrev pub with_html : HtmlLibrary → Option Text → ContentItem → ContentItem
with_html lib none r = r
with_html lib (some html) r = record (set_metrics (calculate_content_metrics lib html) r) {
  html_content = html;
}

abbrev lowered : Unicode → Option Text → Text → Text
lowered u none old = old
lowered u (some v) old = u.to_lower_case v

-- The `data` of the update.
abbrev pub apply_update : HtmlLibrary → UpdateContent → Validated → ContentItem → ContentItem
apply_update lib i v r = record (with_html lib v.html r) {
  title = get_or v.title r.title;
  slug = get_or v.slug r.slug;
  excerpt = given i.excerpt r.excerpt;
  meta_title = given i.meta_title r.meta_title;
  meta_description = given i.meta_description r.meta_description;
  canonical_url = given i.canonical_url r.canonical_url;
  language = lowered lib.unicode i.language r.language;
  locale = get_or i.locale r.locale;
  featured_image_reference = given i.featured_image_reference r.featured_image_reference;
  labels = get_or v.labels r.labels;
  content_profile_id = get_or i.content_profile_id r.content_profile_id;
  assigned_to_user_id = get_or i.assigned_to_user_id r.assigned_to_user_id;
  version = r.version + 1;
}

abbrev flatten : Option (Option ℕ) → Option ℕ
flatten none = none
flatten (some o) = o

-- A content is created as an idea or as a draft.
abbrev pub may_create_as : Option EditorialStatus → Bool
may_create_as none = true
may_create_as (some status) = same status idea || same status draft

abbrev pub when : Bool → Action Store (Unit {0}) → Action Store (Unit {0})
when c m s = if c then m s else (ok tt, s)

-- The new row: `version` has the default 1.
abbrev pub new_item :
    HtmlLibrary → ℕ → ℕ → ℕ → ℕ → CreateContent → Text → Text → Text → List Text → ContentItem
new_item lib item_id actor workspace_id website_id i title slug html labels =
    let m = calculate_content_metrics lib html in
    record {
      id = item_id;
      workspace_id = workspace_id;
      website_id = website_id;
      content_profile_id = i.content_profile_id;
      title = title;
      slug = slug;
      excerpt = optional_text i.excerpt;
      html_content = html;
      plain_text_content = m.plain_text_content;
      meta_title = optional_text i.meta_title;
      meta_description = optional_text i.meta_description;
      canonical_url = optional_text i.canonical_url;
      language = lib.unicode.to_lower_case i.language;
      locale = i.locale;
      featured_image_reference = optional_text i.featured_image_reference;
      labels = labels;
      word_count = m.word_count;
      estimated_reading_minutes = m.estimated_reading_minutes;
      editorial_status = get_or i.editorial_status idea;
      publication_status = PublicationStatus.not_published;
      version = 1;
      created_by_user_id = actor;
      assigned_to_user_id = i.assigned_to_user_id;
      archived_at = none;
    }

-- The validation of an update, in the order of the source.
unfoldable pub validate_update : HtmlLibrary → UpdateContent → Action Store Validated
unfolding valid_html normalized_title valid_slug valid_labels
validate_update lib i = do
  html ← validated i.html_content (valid_html lib)
  title ← validated i.title normalized_title
  slug ← validated i.slug (valid_slug lib.unicode)
  labels ← validated i.labels (valid_labels lib.unicode)
  pure (record { html = html; title = title; slug = slug; labels = labels })

-- The checks of `update` on the item that was read, before the references.
unfoldable pub check_update :
    AuthContext → WorkspaceContext → UpdateContent → ContentItem → Action Store (Unit {0})
unfolding require_permission assert_writer_can_edit
check_update actor workspace i current = do
  throw_if (same current.editorial_status archived) invalid_transition
  throw_if (not (changed_general i || changed_seo i || assignment_changed i)) invalid
  when (changed_general i) (require_permission workspace contents_update)
  when (changed_seo i) (require_permission workspace contents_seo_update)
  when (assignment_changed i) (require_permission workspace contents_assign)
  assert_writer_can_edit actor.user_id workspace current

module _ (db : Client) where
  -- `WebsitesService.requireWebsite`
  unfoldable pub require_website : ℕ → ℕ → Action Store (Unit {0})
  require_website workspace_id website_id = do
    site ←
        find_first db website
          (λ w. w.id == website_id && w.workspace_id == workspace_id && not (is_some w.deleted_at))
    throw_if (not (is_some site)) content_not_found

  -- `get`
  unfoldable pub get : ℕ → ℕ → ℕ → Action Store ContentItem
  unfolding require_website
  get workspace_id website_id content_id =
      require_website workspace_id website_id >> find_content db workspace_id website_id content_id

  -- `revision`
  unfoldable pub revision : ℕ → ℕ → ℕ → ℕ → Action Store ContentRevision
  revision workspace_id website_id content_id number = do
    _ ← find_content db workspace_id website_id content_id
    found ← find_first db content_revision (revision_at workspace_id website_id content_id number)
    or_throw found content_not_found

module _ (db : Client) (lib : HtmlLibrary) (draws : Draws) where
  -- The transaction of `create`.
  unfoldable pub write_new : ContentItem → ℕ → Option Text → Action Store ContentItem
  unfolding create_revision
  write_new item actor reason = transaction do
    created ← create db content_item item_clash item
    _ ← create_revision db draws created actor reason none
    pure created

  -- `create`
  unfoldable pub create_content :
      AuthContext → WorkspaceContext → ℕ → CreateContent → Action Store ContentItem
  unfolding require_website require_permission valid_html normalized_title valid_slug valid_labels
      write_new handle_write_error
  create_content actor workspace website_id i = do
    require_website db workspace.id website_id
    when (is_some i.assigned_to_user_id) (require_permission workspace contents_assign)
    throw_if (not (may_create_as i.editorial_status)) invalid_transition
    validate_references db workspace.id website_id i.content_profile_id i.assigned_to_user_id
    title ← normalized_title i.title
    slug ← valid_slug lib.unicode (get_or i.slug title)
    html ← valid_html lib i.html_content
    labels ← valid_labels lib.unicode (get_or i.labels [])
    let item =
        new_item lib draws.item_id actor.user_id workspace.id website_id i title slug html labels
    catch
        (do
          created ← write_new item actor.user_id i.change_reason
          audit_revision_and_change db "content.created" created actor.user_id
          pure created)
        handle_write_error

  -- The entries of an update.
  unfoldable pub audit_update :
      ℕ → ℕ → ℕ → ℕ → UpdateContent → ContentItem → Action Store (Unit {0})
  audit_update actor workspace_id website_id content_id i updated = do
    audit_revision_and_change db "content.updated" updated actor
    when (assignment_changed i)
        (audit_content db "content.assigned" actor workspace_id website_id content_id)
    when (changed_seo i)
        (audit_content db "content.seo_updated" actor workspace_id website_id content_id)

  -- `update`
  unfoldable pub update :
      AuthContext → WorkspaceContext → ℕ → ℕ → UpdateContent → Action Store ContentItem
  update actor workspace website_id content_id i = do
    current ← find_content db workspace.id website_id content_id
    check_update actor workspace i current
    validate_references db workspace.id website_id (flatten i.content_profile_id)
        (flatten i.assigned_to_user_id)
    v ← validate_update lib i
    catch
        (do
          updated ←
              update_with_revision db draws workspace.id website_id content_id i.expected_version
                (apply_update lib i v) actor.user_id i.change_reason
          audit_update actor.user_id workspace.id website_id content_id i updated
          pure updated)
        handle_write_error

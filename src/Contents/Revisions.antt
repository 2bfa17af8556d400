-- ===== src/Contents/Revisions.antt =====
-- contents.service.ts: finding an item, and the versioned write that every change goes through.
use Prim.Native.String.{String}
use ai_content_operating_sys.Base.{
  ℕ, Bool, true, false, not, ◌&&◌, Option, none, some, ◌==◌, if◌then◌else◌, is_some,
}
use ai_content_operating_sys.Errors.{
  Action, pure, throw, throw_if, or_throw, transaction, ◌>>=◌, ◌>>◌, coded, bad_request,
  content_profile_invalid, content_assignment_invalid,
}
use ai_content_operating_sys.Text.{Text, optional_text}
use ai_content_operating_sys.Audit.{record_audit}
use ai_content_operating_sys.Database.Client.{Client}
use ai_content_operating_sys.Database.ContentRows.{
  ContentItem, ContentRevision, RevisionOrigin, manual, ProfileStatus, revision_clash,
}
use ai_content_operating_sys.Database.IdentityRows.{User, WorkspaceMember, is_active}
use ai_content_operating_sys.Database.Store.{
  Store, content_item, content_revision, content_profile, workspace_member, user, find_first,
  find_first_or_throw, count_rows, update_many, create,
}
use ai_content_operating_sys.Contents.Rules.{content_not_found, stale}

-- What the runtime draws for one request: the clock, and the ids that the database generates.
pub record Draws : Type 0 where
  pub now : ℕ
  pub item_id : ℕ
  pub revision_id : ℕ
  pub review_id : ℕ

-- `{ id: contentId, workspaceId, websiteId }`
abbrev pub scoped : ℕ → ℕ → ℕ → ContentItem → Bool
scoped workspace_id website_id content_id r =
    r.id == content_id && r.workspace_id == workspace_id && r.website_id == website_id

-- The `provenance` of a revision that comes from an AI draft.
pub record Provenance : Type 0 where
  pub origin : RevisionOrigin
  pub ai_run_id : ℕ
  pub candidate_id : ℕ
  pub base_revision_number : ℕ

-- The columns of a revision: a copy of the item at its version.
abbrev pub snapshot : ℕ → ContentItem → ℕ → Option Text → ContentRevision
snapshot revision_id item changed_by reason = record {
  id = revision_id;
  workspace_id = item.workspace_id;
  website_id = item.website_id;
  content_item_id = item.id;
  revision_number = item.version;
  title = item.title;
  slug = item.slug;
  excerpt = item.excerpt;
  html_content = item.html_content;
  plain_text_content = item.plain_text_content;
  meta_title = item.meta_title;
  meta_description = item.meta_description;
  canonical_url = item.canonical_url;
  language = item.language;
  locale = item.locale;
  featured_image_reference = item.featured_image_reference;
  labels = item.labels;
  word_count = item.word_count;
  estimated_reading_minutes = item.estimated_reading_minutes;
  editorial_status = item.editorial_status;
  publication_status = item.publication_status;
  assigned_to_user_id = item.assigned_to_user_id;
  content_profile_id = item.content_profile_id;
  changed_by_user_id = changed_by;
  change_reason = reason;
  origin = manual;
  ai_run_id = none;
  ai_generation_candidate_id = none;
  base_revision_number = none;
}

abbrev pub with_provenance : Option Provenance → ContentRevision → ContentRevision
with_provenance none r = r
with_provenance (some p) r = record r {
  origin = p.origin;
  ai_run_id = some p.ai_run_id;
  ai_generation_candidate_id = some p.candidate_id;
  base_revision_number = some p.base_revision_number;
}

abbrev pub is_usable : ProfileStatus → Bool
is_usable ProfileStatus.active = true
is_usable ProfileStatus.inactive = false

abbrev active_member : Option WorkspaceMember → Option User → Bool
active_member (some member) (some u) = is_active u.status
active_member _ _ = false

module _ (db : Client) where
  -- `find`
  unfoldable pub find_content : ℕ → ℕ → ℕ → Action Store ContentItem
  unfolding find_first
  find_content workspace_id website_id content_id = do
    item ← find_first db content_item (scoped workspace_id website_id content_id)
    or_throw item content_not_found

  -- `validateReferences`, the profile: `contentProfileId` may be null.
  unfoldable pub validate_profile : ℕ → ℕ → Option ℕ → Action Store (Unit {0})
  validate_profile workspace_id website_id none = pure tt
  validate_profile workspace_id website_id (some profile_id) = do
    profile ← find_first db content_profile (λ r.
        r.id == profile_id
        && r.workspace_id == workspace_id
        && r.website_id == website_id
        && is_usable r.status)
    throw_if (not (is_some profile)) (coded bad_request content_profile_invalid)

  -- `validateReferences`, the assignee: a member of the workspace, with the user that it includes
  unfoldable pub validate_assignee : ℕ → Option ℕ → Action Store (Unit {0})
  validate_assignee workspace_id none = pure tt
  validate_assignee workspace_id (some assignee_id) = do
    member ←
        find_first db workspace_member
          (λ r. r.user_id == assignee_id && r.workspace_id == workspace_id)
    account ← find_first db user (λ u. u.id == assignee_id)
    throw_if (not (active_member member account)) (coded bad_request content_assignment_invalid)

  unfoldable pub validate_references : ℕ → ℕ → Option ℕ → Option ℕ → Action Store (Unit {0})
  unfolding validate_profile validate_assignee
  validate_references workspace_id website_id profile_id assignee_id =
      validate_profile workspace_id website_id profile_id
      >> validate_assignee workspace_id assignee_id

  -- An entry about a content item.
  unfoldable pub audit_content : String → ℕ → ℕ → ℕ → ℕ → Action Store (Unit {0})
  audit_content action actor workspace_id website_id content_id = record_audit db (record {
    action = action;
    actor_user_id = some actor;
    workspace_id = some workspace_id;
    website_id = some website_id;
    target_type = "ContentItem";
    target_id = some content_id;
  })

  -- `auditRevision`
  unfoldable pub audit_revision : ContentItem → ℕ → Action Store (Unit {0})
  unfolding audit_content
  audit_revision item actor =
      audit_content "content.revision_created" actor item.workspace_id item.website_id item.id

  -- `auditRevisionAndChange`
  unfoldable pub audit_revision_and_change : String → ContentItem → ℕ → Action Store (Unit {0})
  unfolding audit_content audit_revision
  audit_revision_and_change action item actor =
      audit_content action actor item.workspace_id item.website_id item.id
      >> audit_revision item actor

module _ (db : Client) (draws : Draws) where
  -- `createRevision`
  unfoldable pub create_revision :
      ContentItem → ℕ → Option Text → Option Provenance → Action Store ContentRevision
  unfolding optional_text
  create_revision item changed_by reason provenance = create db content_revision revision_clash (
      with_provenance provenance
        (snapshot draws.revision_id item changed_by (optional_text reason)))

  -- `updateWithRevision`
  unfoldable pub update_with_revision :
      ℕ → ℕ → ℕ → ℕ → (ContentItem → ContentItem) → ℕ → Option Text → Action Store ContentItem
  unfolding create_revision
  update_with_revision workspace_id website_id content_id expected_version change changed_by
        reason =
      let here = scoped workspace_id website_id content_id in
      transaction do
        changed ← update_many db content_item (λ r. here r && r.version == expected_version) change
        if changed == 1
            then (do
              updated ← find_first_or_throw db content_item here
              _ ← create_revision updated changed_by reason none
              pure updated)
            else (do
              exists ← count_rows db content_item here
              throw (if exists == 0 then content_not_found else stale))

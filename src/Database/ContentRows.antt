-- ===== src/Database/ContentRows.antt =====
-- Rows of packages/database/prisma/schema.prisma: content, its revisions and reviews, AI drafts.
use ai_content_operating_sys.Base.{ℕ, Bool, ◌||◌, ◌&&◌, List, Option, ◌==◌}
use ai_content_operating_sys.Text.{Text, equal}
use ai_content_operating_sys.Contents.Domain.Status.{EditorialStatus}

pub data PublicationStatus : Type 0 where
  not_published draft_sent publishing published failed : PublicationStatus

pub data ReviewDecision : Type 0 where
  approved changes_requested : ReviewDecision

pub data RevisionOrigin : Type 0 where
  manual ai_generated : RevisionOrigin

pub data CandidateStatus : Type 0 where
  pending ready failed applied discarded : CandidateStatus

pub data ProfileStatus : Type 0 where
  active inactive : ProfileStatus

-- Names with their values as JSON text.
abbrev pub EditorialRules : Type 0
EditorialRules = List (Text × Text)

pub record ContentItem : Type 0 where
  pub id : ℕ
  pub workspace_id : ℕ
  pub website_id : ℕ
  pub content_profile_id : Option ℕ
  pub title : Text
  pub slug : Text
  pub excerpt : Option Text
  pub html_content : Text
  pub plain_text_content : Text
  pub meta_title : Option Text
  pub meta_description : Option Text
  pub canonical_url : Option Text
  pub language : Text
  pub locale : Option Text
  pub featured_image_reference : Option Text
  pub labels : List Text
  pub word_count : ℕ
  pub estimated_reading_minutes : ℕ
  pub editorial_status : EditorialStatus
  pub publication_status : PublicationStatus
  pub version : ℕ
  pub created_by_user_id : ℕ
  pub assigned_to_user_id : Option ℕ
  pub archived_at : Option ℕ

pub record ContentRevision : Type 0 where
  pub id : ℕ
  pub workspace_id : ℕ
  pub website_id : ℕ
  pub content_item_id : ℕ
  pub revision_number : ℕ
  pub title : Text
  pub slug : Text
  pub excerpt : Option Text
  pub html_content : Text
  pub plain_text_content : Text
  pub meta_title : Option Text
  pub meta_description : Option Text
  pub canonical_url : Option Text
  pub language : Text
  pub locale : Option Text
  pub featured_image_reference : Option Text
  pub labels : List Text
  pub word_count : ℕ
  pub estimated_reading_minutes : ℕ
  pub editorial_status : EditorialStatus
  pub publication_status : PublicationStatus
  pub assigned_to_user_id : Option ℕ
  pub content_profile_id : Option ℕ
  pub changed_by_user_id : ℕ
  pub change_reason : Option Text
  pub origin : RevisionOrigin
  pub ai_run_id : Option ℕ
  pub ai_generation_candidate_id : Option ℕ
  pub base_revision_number : Option ℕ

pub record ContentReview : Type 0 where
  pub id : ℕ
  pub workspace_id : ℕ
  pub website_id : ℕ
  pub content_item_id : ℕ
  pub content_revision_id : ℕ
  pub reviewer_user_id : ℕ
  pub decision : ReviewDecision
  pub note : Option Text
  pub reviewed_revision_number : ℕ

pub record AiGenerationCandidate : Type 0 where
  pub id : ℕ
  pub workspace_id : ℕ
  pub website_id : ℕ
  pub content_item_id : ℕ
  pub content_profile_id : ℕ
  pub ai_run_id : Option ℕ
  pub applied_by_user_id : Option ℕ
  pub status : CandidateStatus
  pub base_revision_number : ℕ
  pub title : Option Text
  pub excerpt : Option Text
  pub html_content : Option Text
  pub suggested_slug : Option Text
  pub meta_description : Option Text
  pub suggested_labels : List Text
  pub applied_revision_number : Option ℕ
  pub applied_at : Option ℕ

pub record ContentProfile : Type 0 where
  pub id : ℕ
  pub workspace_id : ℕ
  pub website_id : ℕ
  pub name : Text
  pub language : Text
  pub locale : Option Text
  pub country_code : Option Text
  pub tone : Text
  pub target_audience : Option Text
  pub editorial_rules : EditorialRules
  pub prohibited_topics : List Text
  pub is_default : Bool
  pub status : ProfileStatus

-- `@@unique` and `@id` of the schema: two rows that may not stand together
abbrev pub item_clash : ContentItem → ContentItem → Bool
item_clash a b =
    a.id == b.id
    || a.workspace_id == b.workspace_id && a.website_id == b.website_id && equal a.slug b.slug

abbrev pub revision_clash : ContentRevision → ContentRevision → Bool
revision_clash a b =
    a.id == b.id || a.content_item_id == b.content_item_id && a.revision_number == b.revision_number

abbrev pub review_clash : ContentReview → ContentReview → Bool
review_clash a b = a.id == b.id

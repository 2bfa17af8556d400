-- ===== src/Database/IntegrationRows.antt =====
-- Rows of packages/database/prisma/schema.prisma: connections, synchronizations, external posts. The
-- provider is always Blogger and the kind of a term always a label, so they have no field.
use ai_content_operating_sys.Base.{ℕ, Bool, ◌&&◌, ◌||◌, List, Option, ◌==◌}
use ai_content_operating_sys.Text.{Text, equal}
use ai_content_operating_sys.Errors.{ErrorCode}

pub data IntegrationMode : Type 0 where
  mock live : IntegrationMode

pub data ConnectionStatus : Type 0 where
  pending connected degraded expired revoked disconnected : ConnectionStatus

pub record WebsiteConnection : Type 0 where
  pub id : ℕ
  pub workspace_id : ℕ
  pub website_id : ℕ
  pub mode : IntegrationMode
  pub status : ConnectionStatus
  pub external_account_id : Option Text
  pub external_site_id : Option Text
  pub encrypted_credentials : Option Text
  pub credential_key_version : Option Text
  pub last_successful_sync_at : Option ℕ
  pub last_error_code : Option ErrorCode
  pub last_error_at : Option ℕ
  pub revoked_at : Option ℕ

pub data ExternalPostStatus : Type 0 where
  draft published scheduled deleted : ExternalPostStatus

pub record ExternalPost : Type 0 where
  pub id : ℕ
  pub workspace_id : ℕ
  pub website_id : ℕ
  pub connection_id : ℕ
  pub external_post_id : Text
  pub external_blog_id : Text
  pub title : Text
  pub slug_or_url : Option Text
  pub status : ExternalPostStatus
  pub content_hash : Text
  pub labels : List Text
  pub published_at : Option ℕ
  pub updated_externally_at : ℕ
  pub last_imported_at : ℕ
  pub deleted_externally_at : Option ℕ

pub record ExternalTaxonomyTerm : Type 0 where
  pub id : ℕ
  pub workspace_id : ℕ
  pub website_id : ℕ
  pub connection_id : ℕ
  pub name : Text
  pub normalized_name : Text
  pub usage_count : ℕ
  pub last_seen_at : ℕ

pub data SyncStatus : Type 0 where
  sync_pending running completed sync_failed cancelled : SyncStatus

pub record IntegrationSyncRun : Type 0 where
  pub id : ℕ
  pub workspace_id : ℕ
  pub website_id : ℕ
  pub connection_id : ℕ
  pub status : SyncStatus
  pub correlation_id : ℕ
  pub started_at : Option ℕ
  pub completed_at : Option ℕ
  pub cursor : Option Text
  pub items_processed : ℕ
  pub items_created : ℕ
  pub items_updated : ℕ
  pub items_failed : ℕ
  pub error_code : Option ErrorCode

abbrev pub post_clash : ExternalPost → ExternalPost → Bool
post_clash a b =
    a.id == b.id
    || a.connection_id == b.connection_id && equal a.external_post_id b.external_post_id

abbrev pub term_clash : ExternalTaxonomyTerm → ExternalTaxonomyTerm → Bool
term_clash a b =
    a.id == b.id || a.connection_id == b.connection_id && equal a.normalized_name b.normalized_name

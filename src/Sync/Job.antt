-- ===== src/Sync/Job.antt =====
-- apps/worker/src/blogger-sync.ts: what a synchronization job works on. The provider (with the
-- decryption of its credentials) and the digest of a content are parameters.
use Prim.Native.String.{String}
use ai_content_operating_sys.Base.{ℕ, Bool, true, false, ◌&&◌, List, [], any, Option, ◌==◌}
use ai_content_operating_sys.Errors.{
  ErrorCode, blogger_upstream_unavailable, integration_connection_expired, Failure, provider,
  Result, Action,
}
use ai_content_operating_sys.Text.{Text, Unicode, equal}
use ai_content_operating_sys.Database.Client.{Client}
use ai_content_operating_sys.Database.IdentityRows.{AuditLog}
use ai_content_operating_sys.Database.IntegrationRows.{
  WebsiteConnection, ConnectionStatus, ExternalPost, ExternalPostStatus, IntegrationSyncRun,
}
use ai_content_operating_sys.Database.Store.{Store}

-- `ProviderPost`, its times as numbers
pub record ProviderPost : Type 0 where
  pub id : Text
  pub title : Text
  pub html_content : Text
  pub url : Option Text
  pub status : ExternalPostStatus
  pub labels : List Text
  pub published_at : Option ℕ
  pub updated_at : ℕ

-- `ProviderPostPage`
pub record ProviderPostPage : Type 0 where
  pub items : List ProviderPost
  pub next_page_token : Option Text

-- An entry of `ProviderTaxonomyResult.labels`
pub record ProviderLabel : Type 0 where
  pub name : Text
  pub usage_count : ℕ

-- What the worker calls of a provider, for a connection.
pub record Provider : Type 0 where
  pub list_posts : Option Text → Result ProviderPostPage
  pub list_taxonomy : Result (List ProviderLabel)

-- The job's environment: `connect` is `provider` and `context` (the decryption may throw), `draw` the
-- ids that the database generates, `attempts` and `attempts_made` those of the queue.
pub record Worker : Type 1 where
  pub db : Client
  pub unicode : Unicode
  pub digest : Text → Text
  pub connect : WebsiteConnection → Text → Result Provider
  pub draw : Text → ℕ
  pub now : ℕ
  pub attempts : ℕ
  pub attempts_made : ℕ

-- `BloggerSyncJobData`
pub record BloggerSyncJobData : Type 0 where
  pub sync_run_id : ℕ
  pub workspace_id : ℕ
  pub website_id : ℕ
  pub connection_id : ℕ
  pub correlation_id : ℕ

-- `BloggerSyncJobResult`
pub record BloggerSyncJobResult : Type 0 where
  pub sync_run_id : ℕ
  pub correlation_id : ℕ
  pub is_completed : Bool
  pub items_processed : ℕ
  pub items_created : ℕ
  pub items_updated : ℕ
  pub items_failed : ℕ
  pub error_code : Option ErrorCode

-- What the loop accumulates.
pub record Progress : Type 0 where
  pub seen : List Text
  pub created : ℕ
  pub updated : ℕ
  pub processed : ℕ

abbrev pub no_progress : Progress
no_progress = record { seen = []; created = 0; updated = 0; processed = 0 }

abbrev pub never_clash : AuditLog → AuditLog → Bool
never_clash _ _ = false

abbrev pub is_deleted : ExternalPostStatus → Bool
is_deleted ExternalPostStatus.deleted = true
is_deleted _ = false

-- `connectionId_provider_externalPostId`
abbrev pub same_post : ℕ → Text → ExternalPost → Bool
same_post connection_id id r = r.connection_id == connection_id && equal r.external_post_id id

-- `seen.has(id)`
abbrev pub has : List Text → Text → Bool
has seen id = any (λ x. equal x id) seen

-- `status === …` of a connection after a failed run
abbrev pub failed_status : ErrorCode → ConnectionStatus
failed_status integration_connection_expired = ConnectionStatus.expired
failed_status _ = ConnectionStatus.degraded

abbrev pub failed_action : ErrorCode → String
failed_action integration_connection_expired = "blogger.connection.expired"
failed_action _ = "blogger.connection.degraded"

-- `error instanceof ProviderError ? error.code : …`
abbrev pub code_of : Failure → ErrorCode
code_of (provider code _) = code
code_of _ = blogger_upstream_unavailable

abbrev pub is_retryable : Failure → Bool
is_retryable (provider _ retryable) = retryable
is_retryable _ = false

-- `result`
abbrev pub result_of : Bool → Option ErrorCode → IntegrationSyncRun → BloggerSyncJobResult
result_of completed code run = record {
  sync_run_id = run.id;
  correlation_id = run.correlation_id;
  is_completed = completed;
  items_processed = run.items_processed;
  items_created = run.items_created;
  items_updated = run.items_updated;
  items_failed = run.items_failed;
  error_code = code;
}

abbrev pub of_result : {A : Type 0} → Result A → Action Store A
of_result r s = (r, s)

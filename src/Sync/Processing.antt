-- ===== src/Sync/Processing.antt =====
-- apps/worker/src/blogger-sync.ts: the labels of a blog, and a synchronization job from its start to
-- its end.

use ai_content_operating_sys.Base.{
  ℕ, ◌+◌, Bool, true, false, not, ◌&&◌, List, [], ◌∷◌, map, Option, none, some, is_some, get_or,
  ltb, ◌==◌, if◌then◌else◌,
}
use ai_content_operating_sys.Errors.{
  ErrorCode, integration_not_configured, Failure, other, Action, pure, throw, or_throw, transaction,
  catch, ◌>>=◌, ◌>>◌,
}
use ai_content_operating_sys.Text.{Text, trim, equal}
use ai_content_operating_sys.Database.IntegrationRows.{
  WebsiteConnection, ConnectionStatus, ExternalTaxonomyTerm, IntegrationSyncRun, SyncStatus,
  term_clash,
}
use ai_content_operating_sys.Database.Store.{
  Store, website_connection, external_taxonomy_term, integration_sync_run, find_first, update_one,
  update_many, create,
}
use ai_content_operating_sys.Sync.Job.{
  Provider, BloggerSyncJobData, BloggerSyncJobResult, Progress, ProviderLabel, Worker, code_of,
  failed_action, failed_status, has, is_retryable, no_progress, of_result, result_of,
}
use ai_content_operating_sys.Sync.Importing.{delete_missing, log, sync_pages}

module _ (w : Worker) where
  abbrev pub normalized_label : Text → Text
  normalized_label name = w.unicode.to_locale_lower_case (w.unicode.nfkc (trim name))

  unfoldable pub upsert_label : WebsiteConnection → ProviderLabel → Action Store (Unit {0})
  upsert_label connection label = do
    let same : ExternalTaxonomyTerm → Bool = λ r.
        r.connection_id == connection.id && equal r.normalized_name (normalized_label label.name)
    existing ← find_first w.db external_taxonomy_term same
    if is_some existing
        then (do
          _ ← update_many w.db external_taxonomy_term same (λ r. record r {
            name = label.name;
            usage_count = label.usage_count;
            last_seen_at = w.now;
          })
          pure tt)
        else (do
          _ ← create w.db external_taxonomy_term term_clash (record {
            id = w.draw (normalized_label label.name);
            workspace_id = connection.workspace_id;
            website_id = connection.website_id;
            connection_id = connection.id;
            name = label.name;
            normalized_name = normalized_label label.name;
            usage_count = label.usage_count;
            last_seen_at = w.now;
          })
          pure tt)

  unfoldable pub upsert_labels : WebsiteConnection → List ProviderLabel → Action Store (Unit {0})
  upsert_labels connection [] = pure tt
  upsert_labels connection (label ∷ labels) =
      upsert_label connection label >> upsert_labels connection labels

  -- The labels that the provider no longer lists.
  unfoldable pub reset_labels : ℕ → List ProviderLabel → Action Store ℕ
  reset_labels connection_id labels =
      update_many w.db external_taxonomy_term
        (λ r.
          r.connection_id == connection_id
          && not (has (map (λ l. normalized_label l.name) labels) r.normalized_name))
        (λ r. record r { usage_count = 0 })

  -- The run when it is completed.
  abbrev pub completed_row : Progress → IntegrationSyncRun → IntegrationSyncRun
  completed_row p r = record r {
    status = SyncStatus.completed;
    completed_at = some w.now;
    cursor = none;
    items_processed = p.processed;
    items_created = p.created;
    items_updated = p.updated;
    error_code = none;
  }

  -- The last transaction of `process`.
  unfoldable pub complete_run :
      IntegrationSyncRun → WebsiteConnection → Progress → Action Store IntegrationSyncRun
  complete_run run connection p = transaction do
    final_run ← update_one w.db integration_sync_run (λ r. r.id == run.id) (completed_row p)
    _ ←
        update_one w.db website_connection (λ c. c.id == connection.id)
          (λ c. record c {
            status = ConnectionStatus.connected;
            last_successful_sync_at = some w.now;
            last_error_code = none;
            last_error_at = none;
          })
    _ ←
        log w "blogger.sync.completed" connection.workspace_id connection.website_id
          "IntegrationSyncRun" (some run.id)
    pure final_run

  -- What follows the loop over the pages, in the `try` of `process`.
  unfoldable pub finish_run :
      IntegrationSyncRun
      → WebsiteConnection
      → Provider
      → Progress
      → Action Store BloggerSyncJobResult
  finish_run run connection source p = do
    delete_missing w connection.id p.seen
    labels ← of_result source.list_taxonomy
    upsert_labels connection labels
    _ ← reset_labels connection.id labels
    completed ← complete_run run connection p
    pure (result_of true none completed)

  -- A job whose fuel is spent has no answer yet.
  unfoldable pub after_loop :
      IntegrationSyncRun
      → WebsiteConnection
      → Provider
      → Option Progress
      → Action Store (Option BloggerSyncJobResult)
  after_loop run connection source none = pure none
  after_loop run connection source (some p) = do
    answer ← finish_run run connection source p
    pure (some answer)

  -- The body of the `try` of `process`, `none` when the fuel of the loop is spent.
  unfoldable pub synchronize :
      ℕ → IntegrationSyncRun → WebsiteConnection → Text → Action Store (Option BloggerSyncJobResult)
  synchronize fuel run connection site = do
    source ← of_result (w.connect connection site)
    done ← sync_pages w fuel run.id connection site source none no_progress
    after_loop run connection source done

  -- `fail`
  unfoldable pub fail_run : ℕ → BloggerSyncJobData → ErrorCode → Action Store BloggerSyncJobResult
  fail_run run_id job code = do
    run ← transaction do
      failed ←
          update_one w.db integration_sync_run (λ r. r.id == run_id)
            (λ r. record r {
              status = SyncStatus.sync_failed;
              completed_at = some w.now;
              items_failed = r.items_failed + 1;
              error_code = some code;
            })
      _ ←
          update_many w.db website_connection
            (λ c.
              c.id == job.connection_id
              && c.workspace_id == job.workspace_id
              && c.website_id == job.website_id)
            (λ c. record c {
              status = failed_status code;
              last_error_code = some code;
              last_error_at = some w.now;
            })
      _ ←
          log w "blogger.sync.failed" job.workspace_id job.website_id "IntegrationSyncRun"
            (some run_id)
      _ ←
          log w (failed_action code) job.workspace_id job.website_id "WebsiteConnection"
            (some job.connection_id)
      pure failed
    pure (result_of false (some code) run)

  -- The `catch` of `process`: an error to retry goes back to the queue while attempts are left.
  unfoldable pub recover_job :
      IntegrationSyncRun → BloggerSyncJobData → Failure → Action Store (Option BloggerSyncJobResult)
  recover_job run job error =
      if is_retryable error && ltb (w.attempts_made + 1) w.attempts
      then throw error
      else (do answer ← fail_run run.id job (code_of error); pure (some answer))

  -- The run is marked as running.
  unfoldable pub start_run : IntegrationSyncRun → Action Store IntegrationSyncRun
  start_run run =
      update_one w.db integration_sync_run (λ r. r.id == run.id)
        (λ r. record r {
          status = SyncStatus.running;
          started_at = some (get_or run.started_at w.now);
        })

  -- The connection of a job, with its site, and the run from its start.
  unfoldable pub run_job :
      ℕ
      → BloggerSyncJobData
      → IntegrationSyncRun
      → WebsiteConnection
      → Text
      → Action Store (Option BloggerSyncJobResult)
  run_job fuel job run connection site = do
    _ ← start_run run
    catch (synchronize fuel run connection site) (recover_job run job)

  -- `connection?.externalSiteId`, an empty one counting as none
  abbrev pub configured : Option WebsiteConnection → Option (WebsiteConnection × Text)
  configured none = none
  configured (some c) = of_site c c.external_site_id
    where
      of_site : WebsiteConnection → Option Text → Option (WebsiteConnection × Text)
      of_site c none = none
      of_site c (some []) = none
      of_site c (some (x ∷ site)) = some (c, x ∷ site)

  abbrev pub run_configured :
      ℕ
      → BloggerSyncJobData
      → IntegrationSyncRun
      → Option (WebsiteConnection × Text)
      → Action Store (Option BloggerSyncJobResult)
  run_configured fuel job run none = do
    answer ← fail_run run.id job integration_not_configured
    pure (some answer)
  run_configured fuel job run (some (connection, site)) = run_job fuel job run connection site

  abbrev pub is_completed_run : SyncStatus → Bool
  is_completed_run SyncStatus.completed = true
  is_completed_run _ = false

  -- `process`; a run that is not there is a plain error.
  unfoldable pub process : ℕ → BloggerSyncJobData → Action Store (Option BloggerSyncJobResult)
  process fuel job = do
    found ← find_first w.db integration_sync_run (λ r.
        r.id == job.sync_run_id
        && r.workspace_id == job.workspace_id
        && r.website_id == job.website_id
        && r.connection_id == job.connection_id)
    run ← or_throw found other
    if is_completed_run run.status then pure (some (result_of true none run)) else (do
      connection ← find_first w.db website_connection (λ c.
          c.id == job.connection_id
          && c.workspace_id == job.workspace_id
          && c.website_id == job.website_id
          && not (is_some c.revoked_at))
      run_configured fuel job run (configured connection))

-- ===== src/Sync/Importing.antt =====
-- apps/worker/src/blogger-sync.ts: the posts of a blog, page by page.
use Prim.Native.String.{String}
use ai_content_operating_sys.Base.{
  ℕ, zero, suc, ◌+◌, Bool, not, List, [], ◌∷◌, any, filter, Option, none, some, is_some, ◌==◌,
  if◌then◌else◌,
}
use ai_content_operating_sys.Errors.{Action, pure, ◌>>=◌, ◌>>◌}
use ai_content_operating_sys.Text.{Text}
use ai_content_operating_sys.Database.IdentityRows.{AuditLog}
use ai_content_operating_sys.Database.IntegrationRows.{
  WebsiteConnection, ExternalPost, ExternalPostStatus, IntegrationSyncRun, post_clash,
}
use ai_content_operating_sys.Database.Store.{
  Store, external_post, integration_sync_run, audit_log, find_first, find_many, update_one,
  update_many, create,
}
use ai_content_operating_sys.Sync.Job.{
  Progress, Provider, ProviderPost, Worker, has, is_deleted, never_clash, of_result, same_post,
}

module _ (w : Worker) where
  abbrev pub log : String → ℕ → ℕ → String → Option ℕ → Action Store AuditLog
  log action workspace_id website_id target_type target_id =
      create w.db audit_log never_clash (record {
        action = action;
        actor_user_id = none;
        workspace_id = some workspace_id;
        website_id = some website_id;
        target_type = target_type;
        target_id = target_id;
      })

  -- `values` of `upsertPost`
  unfoldable pub imported : ProviderPost → ExternalPost → ExternalPost
  imported post r = record r {
    title = post.title;
    slug_or_url = post.url;
    status = post.status;
    content_hash = w.digest post.html_content;
    labels = post.labels;
    published_at = post.published_at;
    updated_externally_at = post.updated_at;
    last_imported_at = w.now;
    deleted_externally_at = if is_deleted post.status then some w.now else none;
  }

  unfoldable pub new_post : WebsiteConnection → Text → ProviderPost → ExternalPost
  new_post connection site post = record {
    id = w.draw post.id;
    workspace_id = connection.workspace_id;
    website_id = connection.website_id;
    connection_id = connection.id;
    external_post_id = post.id;
    external_blog_id = site;
    title = post.title;
    slug_or_url = post.url;
    status = post.status;
    content_hash = w.digest post.html_content;
    labels = post.labels;
    published_at = post.published_at;
    updated_externally_at = post.updated_at;
    last_imported_at = w.now;
    deleted_externally_at = if is_deleted post.status then some w.now else none;
  }

  -- `upsertPost`, for a post that exists or not
  unfoldable pub upsert_post :
      Bool → WebsiteConnection → Text → ProviderPost → Action Store (Unit {0})
  upsert_post existed connection site post =
      if existed
      then (do
        _ ← update_many w.db external_post (same_post connection.id post.id) (imported post)
        pure tt)
      else (do _ ← create w.db external_post post_clash (new_post connection site post); pure tt)

  -- One turn of the loop over the posts of a page.
  unfoldable pub import_post :
      WebsiteConnection → Text → Progress → ProviderPost → Action Store Progress
  import_post connection site p post = do
    existed ← find_first w.db external_post (same_post connection.id post.id)
    upsert_post (is_some existed) connection site post
    _ ← if is_some existed then pure tt else (do
      _ ←
          log "blogger.post.imported" connection.workspace_id connection.website_id "ExternalPost"
            none
      pure tt)
    pure (record {
      seen = post.id ∷ p.seen;
      created = if is_some existed then p.created else p.created + 1;
      updated = if is_some existed then p.updated + 1 else p.updated;
      processed = p.processed + 1;
    })

  unfoldable pub import_posts :
      WebsiteConnection → Text → Progress → List ProviderPost → Action Store Progress
  import_posts connection site p [] = pure p
  import_posts connection site p (post ∷ posts) = do
    next ← import_post connection site p post
    import_posts connection site next posts

  -- The cursor and the counts after a page.
  unfoldable pub record_page : ℕ → Option Text → Progress → Action Store IntegrationSyncRun
  record_page run_id token p =
      update_one w.db integration_sync_run (λ r. r.id == run_id)
        (λ r. record r {
          cursor = token;
          items_processed = p.processed;
          items_created = p.created;
          items_updated = p.updated;
        })

  -- `while (pageToken)`: an empty token ends the loop, as none does.
  abbrev pub after_page :
      (Text → Action Store (Option Progress))
      → Option Text
      → Progress
      → Action Store (Option Progress)
  after_page loop none p = pure (some p)
  after_page loop (some []) p = pure (some p)
  after_page loop (some (c ∷ t)) p = loop (c ∷ t)

  -- The loop over the pages, on fuel; `none` when the fuel is spent.
  unfoldable pub sync_pages :
      ℕ
      → ℕ
      → WebsiteConnection
      → Text
      → Provider
      → Option Text
      → Progress
      → Action Store (Option Progress)
  sync_pages zero run_id connection site source token p = pure none
  sync_pages (suc fuel) run_id connection site source token p = do
    page ← of_result (source.list_posts token)
    next ← import_posts connection site p page.items
    _ ← record_page run_id page.next_page_token next
    after_page (λ t. sync_pages fuel run_id connection site source (some t) next)
        page.next_page_token next

  unfoldable pub mark_deleted : List ExternalPost → Action Store (Unit {0})
  mark_deleted [] = pure tt
  mark_deleted (m ∷ ms) = do
    _ ←
        update_many w.db external_post (λ r. any (λ x. x.id == r.id) (m ∷ ms))
          (λ r. record r {
            status = ExternalPostStatus.deleted;
            deleted_externally_at = some w.now;
          })
    pure tt

  -- The posts of the connection that the provider did not list are marked as deleted.
  unfoldable pub delete_missing : ℕ → List Text → Action Store (Unit {0})
  delete_missing connection_id seen = do
    existing ← find_many w.db external_post (λ r. r.connection_id == connection_id)
    mark_deleted (filter (λ r. not (has seen r.external_post_id)) existing)

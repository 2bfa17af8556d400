-- ===== src/Sync/Tests.antt =====
-- A blog of two posts on two pages, a post that is gone, and a provider that fails.
use ai_content_operating_sys.Base.{
  ℕ, ◌≡◌, ◌⊎◌, refl, true, false, [], ◌∷◌, Option, none, some, arith,
}
use ai_content_operating_sys.Errors.{
  Result, ok, err, provider, blogger_rate_limited, and_then, commit, rescue,
}
use ai_content_operating_sys.Text.{Text, units}
use ai_content_operating_sys.Database.Client.{in_memory}
use ai_content_operating_sys.Database.IntegrationRows.{
  IntegrationMode, WebsiteConnection, ConnectionStatus, ExternalPost, ExternalPostStatus,
  IntegrationSyncRun, SyncStatus,
}
use ai_content_operating_sys.Database.Store.{
  Store, empty, find_first, find_first_or_throw, update_one, update_many, create,
}
use ai_content_operating_sys.Sync.Job.{
  ProviderPost, ProviderPostPage, Provider, Worker, BloggerSyncJobData, BloggerSyncJobResult,
  no_progress,
}
use ai_content_operating_sys.Sync.Importing.{sync_pages}
use ai_content_operating_sys.Sync.Processing.{
  after_loop, finish_run, start_run, synchronize, fail_run, recover_job, run_job,
}
use ai_content_operating_sys.Sync.Pages.{Listing, last_page, next_page}
use ai_content_operating_sys.Sync.Loop.{sync_pages-Listing}
use ai_content_operating_sys.Sync.Completed.{Synchronized}
use ai_content_operating_sys.Sync.Jobs.{FailedJob, run_job_lem}

abbrev post : Text → ProviderPost
post id = record {
  id = id;
  title = [];
  html_content = [];
  url = none;
  status = ExternalPostStatus.published;
  labels = [];
  published_at = none;
  updated_at = 3;
}

abbrev first_page : ProviderPostPage
first_page = record { items = post (units "a") ∷ []; next_page_token = some (units "more") }

abbrev second_page : ProviderPostPage
second_page = record { items = post (units "b") ∷ []; next_page_token = none }

abbrev page_at : Option Text → Result ProviderPostPage
page_at none = ok first_page
page_at (some t) = ok second_page

abbrev blog : Provider
blog = record {
  list_posts = page_at;
  list_taxonomy = ok (record { name = units "news"; usage_count = 2 } ∷ []);
}

abbrev id_of : Text → ℕ
id_of [] = 0
id_of (c ∷ s) = c

abbrev worker : Worker
worker = record {
  db = in_memory;
  unicode = record {
    to_lower_case = λ t. t;
    to_locale_lower_case = λ t. t;
    nfkd = λ t. t;
    nfkc = λ t. t;
    is_letter_or_number = λ c. true;
  };
  digest = λ t. t;
  connect = λ c site. ok blog;
  draw = id_of;
  now = 9;
  attempts = 3;
  attempts_made = 2;
}

abbrev connection : WebsiteConnection
connection = record {
  id = 1;
  workspace_id = 1;
  website_id = 1;
  mode = IntegrationMode.mock;
  status = ConnectionStatus.connected;
  external_account_id = none;
  external_site_id = some (units "site");
  encrypted_credentials = none;
  credential_key_version = none;
  last_successful_sync_at = none;
  last_error_code = none;
  last_error_at = none;
  revoked_at = none;
}

abbrev run : IntegrationSyncRun
run = record {
  id = 5;
  workspace_id = 1;
  website_id = 1;
  connection_id = 1;
  status = SyncStatus.running;
  correlation_id = 8;
  started_at = none;
  completed_at = none;
  cursor = none;
  items_processed = 0;
  items_created = 0;
  items_updated = 0;
  items_failed = 0;
  error_code = none;
}

abbrev job : BloggerSyncJobData
job = record {
  sync_run_id = 5;
  workspace_id = 1;
  website_id = 1;
  connection_id = 1;
  correlation_id = 8;
}

abbrev gone : ExternalPost
gone = new_row
  where
    new_row : ExternalPost
    new_row = record {
      id = 3;
      workspace_id = 1;
      website_id = 1;
      connection_id = 1;
      external_post_id = units "z";
      external_blog_id = units "site";
      title = [];
      slug_or_url = none;
      status = ExternalPostStatus.published;
      content_hash = [];
      labels = [];
      published_at = none;
      updated_externally_at = 1;
      last_imported_at = 1;
      deleted_externally_at = none;
    }

abbrev before : Store
before = record empty {
  connections = connection ∷ [];
  external_posts = gone ∷ [];
  sync_runs = run ∷ [];
}

abbrev after : Store
after = (synchronize worker 2 run connection (units "site") before).1

abbrev answer : BloggerSyncJobResult
answer = record {
  sync_run_id = 5;
  correlation_id = 8;
  is_completed = true;
  items_processed = 2;
  items_created = 2;
  items_updated = 0;
  items_failed = 0;
  error_code = none;
}

two_pages : Listing blog none 2 (post (units "a") ∷ post (units "b") ∷ [])
two_pages =
    next_page first_page (units "more") 1 (post (units "b") ∷ []) refl refl refl
      (last_page second_page refl refl)

sync_pages-Listing_example : ¬ (
    sync_pages worker 2 5 connection (units "site") blog none no_progress before
    ≡ (ok none, before))
sync_pages-Listing_example =
    sync_pages-Listing worker 5 connection (units "site") blog 2 2 none
      (post (units "a") ∷ post (units "b") ∷ []) no_progress before before two_pages (omega arith)

abbrev limited_blog : Provider
limited_blog = record {
  list_posts = λ token. err (provider blogger_rate_limited true);
  list_taxonomy = ok [];
}

abbrev limited_worker : Worker
limited_worker = record worker { connect = λ c site. ok limited_blog }

abbrev failed_after : Store
failed_after = (run_job limited_worker 2 job run connection (units "site") before).1

abbrev failed_answer : BloggerSyncJobResult
failed_answer = record {
  sync_run_id = 5;
  correlation_id = 8;
  is_completed = false;
  items_processed = 0;
  items_created = 0;
  items_updated = 0;
  items_failed = 1;
  error_code = some blogger_rate_limited;
}

fails :
    run_job limited_worker 2 job run connection (units "site") before
    ≡ (ok (some failed_answer), failed_after)
unfolding run_job start_run recover_job fail_run synchronize after_loop finish_run sync_pages
    find_first find_first_or_throw update_one update_many create and_then commit rescue
fails = refl

run_job_lem_example :
    ((source : Provider) × (limited_worker.connect connection (units "site") ≡ ok source)
      × Synchronized connection source failed_after failed_answer)
    ⊎ FailedJob limited_worker 2 run connection (units "site") before failed_after failed_answer
run_job_lem_example =
    run_job_lem limited_worker 2 job run connection (units "site") before failed_after fails

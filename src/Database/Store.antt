-- ===== src/Database/Store.antt =====
-- The tables with the counters of the Redis store, and the calls of the client on each as actions.
use ai_content_operating_sys.Base.{ℕ, Bool, List, [], Option}
use ai_content_operating_sys.Errors.{
  Result, ok, err, Action, or_throw, known, p2025, and_then, ◌>>=◌, transaction, commit,
}
use ai_content_operating_sys.Database.Client.{Client}
use ai_content_operating_sys.Database.ContentRows.{
  ContentItem, ContentRevision, ContentReview, AiGenerationCandidate, ContentProfile,
}
use ai_content_operating_sys.Database.IdentityRows.{
  User, Workspace, WorkspaceMember, Website, Session, AuditLog, Counter,
}
use ai_content_operating_sys.Database.IntegrationRows.{
  WebsiteConnection, ExternalPost, ExternalTaxonomyTerm, IntegrationSyncRun,
}

pub record Store : Type 0 where
  pub items : List ContentItem
  pub revisions : List ContentRevision
  pub reviews : List ContentReview
  pub candidates : List AiGenerationCandidate
  pub profiles : List ContentProfile
  pub users : List User
  pub workspaces : List Workspace
  pub members : List WorkspaceMember
  pub websites : List Website
  pub sessions : List Session
  pub connections : List WebsiteConnection
  pub external_posts : List ExternalPost
  pub taxonomy_terms : List ExternalTaxonomyTerm
  pub sync_runs : List IntegrationSyncRun
  pub audit_logs : List AuditLog
  pub counters : List Counter

abbrev pub empty : Store
empty = record {
  items = [];
  revisions = [];
  reviews = [];
  candidates = [];
  profiles = [];
  users = [];
  workspaces = [];
  members = [];
  websites = [];
  sessions = [];
  connections = [];
  external_posts = [];
  taxonomy_terms = [];
  sync_runs = [];
  audit_logs = [];
  counters = [];
}

-- One table of the store.
pub record Table (Row : Type 0) : Type 0 where
  pub rows : Store → List Row
  pub replace : Store → List Row → Store

abbrev pub content_item : Table ContentItem
content_item = record { rows = λ s. s.items; replace = λ s t. record s { items = t } }

abbrev pub content_revision : Table ContentRevision
content_revision = record { rows = λ s. s.revisions; replace = λ s t. record s { revisions = t } }

abbrev pub content_review : Table ContentReview
content_review = record { rows = λ s. s.reviews; replace = λ s t. record s { reviews = t } }

abbrev pub ai_generation_candidate : Table AiGenerationCandidate
ai_generation_candidate = record {
  rows = λ s. s.candidates;
  replace = λ s t. record s { candidates = t };
}

abbrev pub content_profile : Table ContentProfile
content_profile = record { rows = λ s. s.profiles; replace = λ s t. record s { profiles = t } }

abbrev pub user : Table User
user = record { rows = λ s. s.users; replace = λ s t. record s { users = t } }

abbrev pub workspace : Table Workspace
workspace = record { rows = λ s. s.workspaces; replace = λ s t. record s { workspaces = t } }

abbrev pub workspace_member : Table WorkspaceMember
workspace_member = record { rows = λ s. s.members; replace = λ s t. record s { members = t } }

abbrev pub website : Table Website
website = record { rows = λ s. s.websites; replace = λ s t. record s { websites = t } }

abbrev pub session : Table Session
session = record { rows = λ s. s.sessions; replace = λ s t. record s { sessions = t } }

abbrev pub website_connection : Table WebsiteConnection
website_connection = record {
  rows = λ s. s.connections;
  replace = λ s t. record s { connections = t };
}

abbrev pub external_post : Table ExternalPost
external_post = record {
  rows = λ s. s.external_posts;
  replace = λ s t. record s { external_posts = t };
}

abbrev pub external_taxonomy_term : Table ExternalTaxonomyTerm
external_taxonomy_term = record {
  rows = λ s. s.taxonomy_terms;
  replace = λ s t. record s { taxonomy_terms = t };
}

abbrev pub integration_sync_run : Table IntegrationSyncRun
integration_sync_run = record {
  rows = λ s. s.sync_runs;
  replace = λ s t. record s { sync_runs = t };
}

abbrev pub audit_log : Table AuditLog
audit_log = record { rows = λ s. s.audit_logs; replace = λ s t. record s { audit_logs = t } }

module _ (db : Client) {Row : Type 0} where
  -- `findFirst({ where })`
  unfoldable pub find_first : Table Row → (Row → Bool) → Action Store (Option Row)
  find_first t p s = (ok (db.find_first p (t.rows s)), s)

  -- `findFirstOrThrow({ where })`
  unfoldable pub find_first_or_throw : Table Row → (Row → Bool) → Action Store Row
  unfolding find_first and_then
  find_first_or_throw t p = do or_throw (← find_first t p) (known p2025)

  -- `count({ where })`
  unfoldable pub count_rows : Table Row → (Row → Bool) → Action Store ℕ
  count_rows t p s = (ok (db.count_rows p (t.rows s)), s)

  abbrev updated : Table Row → Store → Result (ℕ × List Row) → Result ℕ × Store
  updated t s (ok (n, rows)) = (ok n, t.replace s rows)
  updated t s (err e) = (err e, s)

  -- `updateMany({ where, data })`, with the number of rows changed
  unfoldable pub update_many : Table Row → (Row → Bool) → (Row → Row) → Action Store ℕ
  update_many t p f s = updated t s (db.update_many p f (t.rows s))

  abbrev created : Table Row → Store → Row → Result (List Row) → Result Row × Store
  created t s r (ok rows) = (ok r, t.replace s rows)
  created t s r (err e) = (err e, s)

  -- `create({ data })`
  unfoldable pub create : Table Row → (Row → Row → Bool) → Row → Action Store Row
  create t clash r s = created t s r (db.create clash r (t.rows s))

  -- `update({ where, data })` of one row, by its key
  unfoldable pub update_one : Table Row → (Row → Bool) → (Row → Row) → Action Store Row
  unfolding update_many find_first_or_throw and_then commit
  update_one t p f = transaction do _ ← update_many t p f; find_first_or_throw t p

  -- `findMany({ where })`, in some order
  unfoldable pub find_many : Table Row → (Row → Bool) → Action Store (List Row)
  find_many t p s = (ok (db.find_many p (t.rows s)), s)

  abbrev deleted : Table Row → Store → Result (List Row) → Result (Unit {0}) × Store
  deleted t s (ok rows) = (ok tt, t.replace s rows)
  deleted t s (err e) = (err e, s)

  -- `delete({ where })` of a row that is there
  unfoldable pub delete : Table Row → (Row → Bool) → Action Store (Unit {0})
  delete t p s = deleted t s (db.delete_many p (t.rows s))

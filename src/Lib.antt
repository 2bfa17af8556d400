-- ===== src/Lib.antt =====
-- The editorial core of the AI Content Operating System: a NestJS service over a Prisma database, in
-- which the members of a workspace write, review, approve and archive the contents of its websites,
-- with drafts proposed by an AI provider.
--
-- A request goes through three guards (authentication, workspace, permission), then to a service, which
-- reads and writes the tables through the Prisma client and leaves entries in the audit log. Every
-- change of a content is a write on the version that the caller has seen, and leaves a revision.
--
-- Base: Boolean tests, lists over native numbers, and the names of the libraries, for every module.
-- Errors: the error codes of packages/shared/src/index.ts, and calls that read and write a store and
--   may throw, with transactions; Errors.Atomic has the calls that write nothing when they throw.
-- Text: strings as lists of UTF-16 code units, with the methods that the source calls.
-- Database: the rows of packages/database/prisma/schema.prisma, the store of all tables, and the client
--   as a record of operations with the laws that the services rely on. A client in memory meets them.
--   IdentityRows, ContentRows and IntegrationRows are the tables.
-- Audit: apps/api/src/common/audit/audit.service.ts.
-- Auth: apps/api/src/common/auth, the permission map and the guards, and apps/api/src/modules/auth:
--   Passwords is password.service.ts; Tokens, RateLimit, Sessions and Entry are the refresh tokens, the
--   limit on attempts, the sessions and the login of auth.service.ts; Rotation, Reuse, Revocation,
--   LoggedIn and PasswordChange say what a refresh, a reuse, a logout, a login and a new password leave.
-- Contents: apps/api/src/modules/contents. Domain is content-domain.ts; Rules, Fields, Revisions,
--   Transition, Reviewing, Editing and Applying are the operations of contents.service.ts (and decide
--   of content-review.service.ts); Versioning, Moves, Decisions, Edits and Drafts say what each leaves;
--   Rollback is about requests that throw (the route of a decision is decide of
--   content-review.service.ts, which reads the account of its caller after the commit); Requests,
--   Steps, Consistent and Refinement put them together: the requests as data, an abstract view of a
--   change, its invariant, the refinement.
-- Workspaces: apps/api/src/modules/workspaces; Managing has the workspaces and Founding their first
--   owner, Members the members and their roles, Owners the last active owner.
-- Websites: apps/api/src/modules/websites; Slugs, Requests and Runs are about the slugs of a workspace,
--   Conflicts about a slug that is taken.
-- ContentProfiles: apps/api/src/modules/content-profiles; Defaults, Requests and Runs are about the
--   default profile of a website.
-- Users: apps/api/src/modules/users; Managers, Deactivation and SignedOut say who manages an account
--   and what a deactivation and a new password leave.
-- Sync: apps/worker/src/blogger-sync.ts. Job, Importing and Processing are the definitions; Pages and
--   Loop are about the posts, Missing about those that a blog no longer has, Completed and Jobs about
--   how a job ends.
-- AiExecution: packages/integrations/src/ai-execution.ts, an AI request with its retries.
--
-- A request takes its clock and the ids that the database generates as an argument (Draws). Ids and
-- times are numbers. What comes from elsewhere is an argument: the client (Database.Client), the
-- package sanitize-html and the Unicode tables (Contents.Domain.Html), the verification of tokens
-- (Auth.Guards), keyed digests and random bytes (Auth.Tokens), argon2 (Auth.Passwords), the store of
-- counters (Auth.RateLimit), the size of rules as JSON (ContentProfiles.Managing), the posts and labels
-- that a provider answers, with the decryption of its credentials (Sync.Job), the answers of an AI
-- provider (AiExecution). The loop of the AI request runs on fuel, one attempt for each of maxRetries
-- retries and the first. The loop over the pages of a blog runs on fuel, one unit for each page that
-- the provider lists; a provider whose pages do not end has no such number, and a synchronization
-- whose fuel is spent has no answer.
--
-- Not modelled: messages and metadata of errors and audit entries, creation and update times, the
-- listing and presentation of rows, concurrent transactions (requests follow one another; the
-- conditions of a write are tested on the store that the write sees). The publication of contents, the
-- generation of articles, the configuration of the AI, the connections and publications of Blogger,
-- the providers, the environment and the web client have no module here.
pub mod Base
pub mod Errors
pub mod Text
pub mod Database
pub mod Audit
pub mod Auth
pub mod Contents
pub mod AiExecution
pub mod Workspaces
pub mod Users
pub mod ContentProfiles
pub mod Sync
pub mod Websites

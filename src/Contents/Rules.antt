-- ===== src/Contents/Rules.antt =====
-- contents.service.ts: who may edit and who may move a content, and the errors that it throws.
use ai_content_operating_sys.Base.{
  ℕ, Bool, true, false, not, ◌&&◌, ◌||◌, List, [], ◌∷◌, any, is, ◌==◌,
}
use ai_content_operating_sys.Errors.{
  Failure, coded, Action, throw_if, ◌>>=◌, ◌>>◌, conflict_status, forbidden_status,
  not_found_status, bad_request, content_invalid_transition, workspace_access_denied,
  content_stale_update, content_review_stale,
}
use ai_content_operating_sys.Errors
use ai_content_operating_sys.Auth.Permissions.{
  Permission, WorkspaceRole, reviewer, writer, includes, contents_transition,
}
use ai_content_operating_sys.Auth.Types.{WorkspaceContext}
use ai_content_operating_sys.Database.ContentRows.{ContentItem}
use ai_content_operating_sys.Database.Store.{Store}
use ai_content_operating_sys.Contents.Domain.Status.{
  EditorialStatus, idea, researching, outlined, draft, in_review, changes_requested, approved, same,
  one_of,
}

-- `invalidTransition`, `forbidden`, `notFound`, `stale`, `staleReview`
abbrev pub invalid_transition : Failure
invalid_transition = coded conflict_status content_invalid_transition

abbrev pub forbidden : Failure
forbidden = coded forbidden_status workspace_access_denied

abbrev pub content_not_found : Failure
content_not_found = coded not_found_status Errors.not_found

abbrev pub stale : Failure
stale = coded conflict_status content_stale_update

abbrev pub stale_review : Failure
stale_review = coded conflict_status content_review_stale

abbrev pub writer_editable_statuses : List EditorialStatus
writer_editable_statuses = idea ∷ researching ∷ outlined ∷ draft ∷ changes_requested ∷ []

abbrev pub has : List (EditorialStatus × EditorialStatus) → EditorialStatus → EditorialStatus → Bool
has edges current next = any (λ e. same e.0 current && same e.1 next) edges

abbrev pub writer_transitions : List (EditorialStatus × EditorialStatus)
writer_transitions =
    (idea, researching)
    ∷ (idea, draft)
    ∷ (researching, outlined)
    ∷ (researching, draft)
    ∷ (outlined, draft)
    ∷ (draft, in_review)
    ∷ (changes_requested, draft)
    ∷ []

abbrev pub reviewer_transitions : List (EditorialStatus × EditorialStatus)
reviewer_transitions = (in_review, changes_requested) ∷ (in_review, approved) ∷ []

abbrev pub is_writer : WorkspaceRole → Bool
is_writer writer = true
is_writer _ = false

abbrev pub is_reviewer : WorkspaceRole → Bool
is_reviewer reviewer = true
is_reviewer _ = false

-- `requirePermission`
unfoldable pub require_permission : WorkspaceContext → Permission → Action Store (Unit {0})
require_permission workspace permission =
    throw_if (not (includes workspace.permissions permission)) forbidden

-- `assertWriterCanEdit`
unfoldable pub assert_writer_can_edit : ℕ → WorkspaceContext → ContentItem → Action Store (Unit {0})
assert_writer_can_edit actor workspace item =
    throw_if
      (is_writer workspace.role
        && (not (one_of writer_editable_statuses item.editorial_status)
            || not (item.created_by_user_id == actor) && not (is item.assigned_to_user_id actor)))
      forbidden

-- `assertRoleTransition`
unfoldable pub assert_role_transition :
    WorkspaceContext → EditorialStatus → EditorialStatus → Action Store (Unit {0})
unfolding require_permission
assert_role_transition workspace current next = do
  require_permission workspace contents_transition
  throw_if (is_writer workspace.role && not (has writer_transitions current next)) forbidden
  throw_if (is_reviewer workspace.role && not (has reviewer_transitions current next)) forbidden

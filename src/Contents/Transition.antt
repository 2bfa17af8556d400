-- ===== src/Contents/Transition.antt =====
-- contents.service.ts: `transition` and `archive`.
use ai_content_operating_sys.Base.{ℕ, ◌+◌, Bool, not, ◌&&◌, ◌||◌, Option, some}
use ai_content_operating_sys.Errors.{
  Action, pure, throw_if, ◌>>=◌, ◌>>◌, coded, bad_request, content_invalid_transition,
}
use ai_content_operating_sys.Text.{Text}
use ai_content_operating_sys.Auth.Types.{AuthContext, WorkspaceContext}
use ai_content_operating_sys.Database.Client.{Client}
use ai_content_operating_sys.Database.ContentRows.{ContentItem}
use ai_content_operating_sys.Database.Store.{Store}
use ai_content_operating_sys.Contents.Domain.Status.{
  EditorialStatus, in_review, approved, changes_requested, archived, same,
  can_transition_editorial_status,
}
use ai_content_operating_sys.Contents.Rules.{
  invalid_transition, assert_writer_can_edit, assert_role_transition,
}
use ai_content_operating_sys.Contents.Revisions.{
  Draws, find_content, update_with_revision, audit_content, audit_revision,
}

pub record TransitionContent : Type 0 where
  pub next_status : EditorialStatus
  pub expected_version : ℕ
  pub reason : Option Text

pub record ArchiveContent : Type 0 where
  pub expected_version : ℕ
  pub reason : Option Text

-- a move that belongs to the review center
abbrev pub is_review_decision : EditorialStatus → EditorialStatus → Bool
is_review_decision current next =
    same current in_review && (same next approved || same next changes_requested)

-- `{ editorialStatus, version: { increment: 1 } }`
abbrev pub move_to : EditorialStatus → ContentItem → ContentItem
move_to next r = record r { editorial_status = next; version = r.version + 1 }

-- `{ editorialStatus: ARCHIVED, archivedAt, version: { increment: 1 } }`
abbrev pub move_to_archive : ℕ → ContentItem → ContentItem
move_to_archive now r = record r {
  editorial_status = archived;
  archived_at = some now;
  version = r.version + 1;
}

-- The checks of `transition` on the item that was read.
unfoldable pub check_transition :
    AuthContext → WorkspaceContext → TransitionContent → ContentItem → Action Store (Unit {0})
unfolding assert_writer_can_edit assert_role_transition
check_transition actor workspace input current = do
  throw_if (is_review_decision current.editorial_status input.next_status) invalid_transition
  throw_if (same input.next_status archived) (coded bad_request content_invalid_transition)
  assert_writer_can_edit actor.user_id workspace current
  assert_role_transition workspace current.editorial_status input.next_status
  throw_if (not (can_transition_editorial_status current.editorial_status input.next_status))
      invalid_transition

module _ (db : Client) (draws : Draws) where
  unfoldable pub transition :
      AuthContext → WorkspaceContext → ℕ → ℕ → TransitionContent → Action Store ContentItem
  transition actor workspace website_id content_id input = do
    current ← find_content db workspace.id website_id content_id
    check_transition actor workspace input current
    updated ←
        update_with_revision db draws workspace.id website_id content_id input.expected_version
          (move_to input.next_status) actor.user_id input.reason
    audit_content db "content.status_changed" actor.user_id workspace.id website_id content_id
    audit_revision db updated actor.user_id
    pure updated

  unfoldable pub archive :
      AuthContext → WorkspaceContext → ℕ → ℕ → ArchiveContent → Action Store ContentItem
  archive actor workspace website_id content_id input = do
    current ← find_content db workspace.id website_id content_id
    throw_if (not (can_transition_editorial_status current.editorial_status archived))
        invalid_transition
    updated ←
        update_with_revision db draws workspace.id website_id content_id input.expected_version
          (move_to_archive draws.now) actor.user_id input.reason
    audit_content db "content.archived" actor.user_id workspace.id website_id content_id
    audit_revision db updated actor.user_id
    pure updated

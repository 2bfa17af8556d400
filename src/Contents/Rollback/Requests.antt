-- ===== src/Contents/Rollback/Requests.antt =====
-- `create`, `update`, `transition`, `archive` and `decideReview`, when they throw.

use ai_content_operating_sys.Database.Reads.{find_first-Reads}
use ai_content_operating_sys.Base.{ℕ, Option, get_or, []}
use ai_content_operating_sys.Errors.Atomic.{
  Reads, NeverThrows, Atomic, pure-NeverThrows, transaction-Atomic, throw_if-Reads, bind-Reads,
  bind-Atomic, then-Atomic, catch-Atomic,
}
use ai_content_operating_sys.Text.{Text}
use ai_content_operating_sys.Auth.Types.{AuthContext, WorkspaceContext}
use ai_content_operating_sys.Database.Client.{Client}
use ai_content_operating_sys.Database.ContentRows.{ContentItem}
use ai_content_operating_sys.Database.Store.{website}
use ai_content_operating_sys.Contents.Domain.Html.{HtmlLibrary}
use ai_content_operating_sys.Contents.Revisions.{Draws, update_with_revision}
use ai_content_operating_sys.Contents.Transition.{
  TransitionContent, ArchiveContent, transition, archive,
}
use ai_content_operating_sys.Contents.Reviewing.{CreateContentReview, write_decision, decide_review}
use ai_content_operating_sys.Contents.Editing.{
  CreateContent, UpdateContent, require_website, write_new, create_content, audit_update, update,
}
use ai_content_operating_sys.Contents.Rollback.Checks.{
  then_NeverThrows, require_permission-Reads, check_transition-Reads, check_decision-Reads,
  handle_write_error-Reads, valid_html-Reads, valid_labels-Reads, normalized_title-Reads,
  valid_slug-Reads, validate_update-Reads, when-Reads, when-NeverThrows, check_update-Reads,
}
use ai_content_operating_sys.Contents.Rollback.Reads.{
  find_content-Reads, validate_references-Reads, audit_content-NeverThrows,
  audit_revision-NeverThrows, audit_revision_and_change-NeverThrows,
}

module _ (db : Client) (draws : Draws) where
  pub update_with_revision-Atomic :
      (w site id version : ℕ) (change : ContentItem → ContentItem) (by : ℕ) (reason : Option Text)
      → Atomic (update_with_revision db draws w site id version change by reason)
  unfolding update_with_revision
  update_with_revision-Atomic w site id version change by reason = transaction-Atomic _

  pub transition-Atomic :
      (actor : AuthContext) (workspace : WorkspaceContext) (site id : ℕ) (input : TransitionContent)
      → Atomic (transition db draws actor workspace site id input)
  unfolding transition
  transition-Atomic actor workspace site id input =
      bind-Atomic _ _ (find_content-Reads db workspace.id site id) (λ current.
        bind-Atomic _ _ (check_transition-Reads actor workspace input current) (λ _.
          then-Atomic _ _ (update_with_revision-Atomic _ _ _ _ _ _ _) (λ updated.
            then_NeverThrows _ _ (audit_content-NeverThrows db _ _ _ _ _) (
              then_NeverThrows _ _ (audit_revision-NeverThrows db updated _)
                (pure-NeverThrows updated)))))

  pub archive-Atomic :
      (actor : AuthContext) (workspace : WorkspaceContext) (site id : ℕ) (input : ArchiveContent)
      → Atomic (archive db draws actor workspace site id input)
  unfolding archive
  archive-Atomic actor workspace site id input =
      bind-Atomic _ _ (find_content-Reads db workspace.id site id) (λ current.
        bind-Atomic _ _ (throw_if-Reads _ _) (λ _.
          then-Atomic _ _ (update_with_revision-Atomic _ _ _ _ _ _ _) (λ updated.
            then_NeverThrows _ _ (audit_content-NeverThrows db _ _ _ _ _) (
              then_NeverThrows _ _ (audit_revision-NeverThrows db updated _)
                (pure-NeverThrows updated)))))

  pub write_decision-Atomic :
      (actor : AuthContext) (workspace : WorkspaceContext) (site id : ℕ)
      (input : CreateContentReview)
      → Atomic (write_decision db draws actor workspace site id input)
  unfolding write_decision
  write_decision-Atomic actor workspace site id input = transaction-Atomic _

  pub decide_review-Atomic :
      (actor : AuthContext) (workspace : WorkspaceContext) (site id : ℕ)
      (input : CreateContentReview)
      → Atomic (decide_review db draws actor workspace site id input)
  unfolding decide_review
  decide_review-Atomic actor workspace site id input =
      bind-Atomic _ _ (find_content-Reads db workspace.id site id) (λ current.
        bind-Atomic _ _ (check_decision-Reads workspace input current)
          (λ _. write_decision-Atomic actor workspace site id input))

module _ (db : Client) (lib : HtmlLibrary) (draws : Draws) where
  pub audit_update-NeverThrows :
      (actor w site id : ℕ) (i : UpdateContent) (item : ContentItem)
      → NeverThrows (audit_update db lib draws actor w site id i item)
  unfolding audit_update
  audit_update-NeverThrows actor w site id i item =
      then_NeverThrows _ _ (audit_revision_and_change-NeverThrows db _ item _) (
        then_NeverThrows _ _ (when-NeverThrows _ _ (audit_content-NeverThrows db _ _ _ _ _))
          (when-NeverThrows _ _ (audit_content-NeverThrows db _ _ _ _ _)))

  pub update-Atomic :
      (actor : AuthContext) (workspace : WorkspaceContext) (site id : ℕ) (i : UpdateContent)
      → Atomic (update db lib draws actor workspace site id i)
  unfolding update
  update-Atomic actor workspace site id i =
      bind-Atomic _ _ (find_content-Reads db workspace.id site id) (λ current.
        bind-Atomic _ _ (check_update-Reads actor workspace i current) (λ _.
          bind-Atomic _ _ (validate_references-Reads db _ _ _ _) (λ _.
            bind-Atomic _ _ (validate_update-Reads lib i) (λ v.
              catch-Atomic _ _
                (then-Atomic _ _ (update_with_revision-Atomic db draws _ _ _ _ _ _ _) (λ updated.
                  then_NeverThrows _ _ (audit_update-NeverThrows _ _ _ _ i updated)
                    (pure-NeverThrows updated)))
                handle_write_error-Reads))))

  pub write_new-Atomic :
      (item : ContentItem) (actor : ℕ) (reason : Option Text)
      → Atomic (write_new db lib draws item actor reason)
  unfolding write_new
  write_new-Atomic item actor reason = transaction-Atomic _

  pub require_website-Reads : (w site : ℕ) → Reads (require_website db w site)
  unfolding require_website
  require_website-Reads w site =
      bind-Reads _ _ (find_first-Reads db website _) (λ _. throw_if-Reads _ _)

  pub create_content-Atomic :
      (actor : AuthContext) (workspace : WorkspaceContext) (site : ℕ) (i : CreateContent)
      → Atomic (create_content db lib draws actor workspace site i)
  unfolding create_content
  create_content-Atomic actor workspace site i =
      bind-Atomic _ _ (require_website-Reads workspace.id site) (λ _.
        bind-Atomic _ _ (when-Reads _ _ (require_permission-Reads workspace _)) (λ _.
          bind-Atomic _ _ (throw_if-Reads _ _) (λ _.
            bind-Atomic _ _ (validate_references-Reads db _ _ _ _) (λ _.
              bind-Atomic _ _ (normalized_title-Reads lib i.title) (λ title.
                bind-Atomic _ _ (valid_slug-Reads lib lib.unicode (get_or i.slug title)) (λ slug.
                  bind-Atomic _ _ (valid_html-Reads lib i.html_content) (λ html.
                    bind-Atomic _ _ (valid_labels-Reads lib lib.unicode (get_or i.labels []))
                      (λ labels.
                        catch-Atomic _ _
                          (then-Atomic _ _ (write_new-Atomic _ _ i.change_reason) (λ created.
                            then_NeverThrows _ _
                              (audit_revision_and_change-NeverThrows db _ created _)
                              (pure-NeverThrows created)))
                          handle_write_error-Reads))))))))

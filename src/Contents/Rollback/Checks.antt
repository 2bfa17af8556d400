-- ===== src/Contents/Rollback/Checks.antt =====
-- The checks and the validation of the content requests, which read only.

use ai_content_operating_sys.Base.{ℕ, Bool, true, false, List, Option, none, some, arith}
use ai_content_operating_sys.Errors.{Failure, Action, ◌>>◌}
use ai_content_operating_sys.Errors.Atomic.{
  Reads, NeverThrows, pure-Reads, pure-NeverThrows, throw_if-Reads, bind-Reads, bind-NeverThrows,
}
use ai_content_operating_sys.Text.{Text, Unicode}
use ai_content_operating_sys.Auth.Permissions.{Permission}
use ai_content_operating_sys.Auth.Types.{AuthContext, WorkspaceContext}
use ai_content_operating_sys.Database.ContentRows.{ContentItem}
use ai_content_operating_sys.Database.Store.{Store}
use ai_content_operating_sys.Contents.Domain.Status.{EditorialStatus}
use ai_content_operating_sys.Contents.Domain.Html.{HtmlLibrary}
use ai_content_operating_sys.Contents.Rules.{
  require_permission, assert_writer_can_edit, assert_role_transition,
}
use ai_content_operating_sys.Contents.Transition.{TransitionContent, check_transition}
use ai_content_operating_sys.Contents.Reviewing.{status_after, CreateContentReview, check_decision}
use ai_content_operating_sys.Contents.Fields.{
  valid_html, valid_labels, normalized_title, valid_slug, handle_write_error,
}
use ai_content_operating_sys.Contents.Editing.{
  UpdateContent, validated, validate_update, check_update, when,
}

-- A chain of checks.
pub then_Reads :
    {B : Type 0} (m : Action Store (Unit {0})) (k : Action Store B)
    → Reads m
    → Reads k
    → Reads (m >> k)
then_Reads m k first rest = bind-Reads m _ first (λ _. rest)

pub then_NeverThrows :
    {B : Type 0} (m : Action Store (Unit {0})) (k : Action Store B)
    → NeverThrows m
    → NeverThrows k
    → NeverThrows (m >> k)
then_NeverThrows m k first rest = bind-NeverThrows m _ first (λ _. rest)

pub require_permission-Reads :
    (workspace : WorkspaceContext) (p : Permission) → Reads (require_permission workspace p)
unfolding require_permission
require_permission-Reads workspace p = throw_if-Reads _ _

pub assert_writer_can_edit-Reads :
    (actor : ℕ) (workspace : WorkspaceContext) (item : ContentItem)
    → Reads (assert_writer_can_edit actor workspace item)
unfolding assert_writer_can_edit
assert_writer_can_edit-Reads actor workspace item = throw_if-Reads _ _

pub assert_role_transition-Reads :
    (workspace : WorkspaceContext) (current next : EditorialStatus)
    → Reads (assert_role_transition workspace current next)
unfolding assert_role_transition
assert_role_transition-Reads workspace current next =
    then_Reads _ _ (require_permission-Reads workspace _)
      (then_Reads _ _ (throw_if-Reads _ _) (throw_if-Reads _ _))

pub check_transition-Reads :
    (actor : AuthContext) (workspace : WorkspaceContext) (input : TransitionContent)
    (current : ContentItem)
    → Reads (check_transition actor workspace input current)
unfolding check_transition
check_transition-Reads actor workspace input current = then_Reads _ _ (throw_if-Reads _ _) (
    then_Reads _ _ (throw_if-Reads _ _) (
      then_Reads _ _ (assert_writer_can_edit-Reads actor.user_id workspace current) (
        then_Reads _ _
          (assert_role_transition-Reads workspace current.editorial_status input.next_status)
          (throw_if-Reads _ _))))

pub check_decision-Reads :
    (workspace : WorkspaceContext) (input : CreateContentReview) (current : ContentItem)
    → Reads (check_decision workspace input current)
unfolding check_decision
check_decision-Reads workspace input current =
    then_Reads _ _
      (assert_role_transition-Reads workspace current.editorial_status
        (status_after input.decision))
      (then_Reads _ _ (throw_if-Reads _ _)
        (then_Reads _ _ (throw_if-Reads _ _) (throw_if-Reads _ _)))

pub handle_write_error-Reads : {A : Type 0} (e : Failure) → Reads (handle_write_error {A = A} e)
unfolding handle_write_error
handle_write_error-Reads e = record { same = λ s. ground arith }

module _ (lib : HtmlLibrary) where
  pub valid_html-Reads : (value : Text) → Reads (valid_html lib value)
  unfolding valid_html
  valid_html-Reads value =
      then_Reads _ _ (throw_if-Reads _ _) (then_Reads _ _ (throw_if-Reads _ _) (pure-Reads _))

  pub valid_labels-Reads : (u : Unicode) (value : List Text) → Reads (valid_labels u value)
  unfolding valid_labels
  valid_labels-Reads u value = then_Reads _ _ (throw_if-Reads _ _) (pure-Reads _)

  pub normalized_title-Reads : (value : Text) → Reads (normalized_title value)
  unfolding normalized_title
  normalized_title-Reads value = then_Reads _ _ (throw_if-Reads _ _) (pure-Reads _)

  pub valid_slug-Reads : (u : Unicode) (value : Text) → Reads (valid_slug u value)
  unfolding valid_slug
  valid_slug-Reads u value = then_Reads _ _ (throw_if-Reads _ _) (pure-Reads _)

  pub validated-Reads :
      {A B : Type 0} (o : Option A) (f : A → Action Store B)
      → ((a : A) → Reads (f a))
      → Reads (validated o f)
  validated-Reads none f reads = pure-Reads _
  validated-Reads (some a) f reads = bind-Reads _ _ (reads a) (λ b. pure-Reads _)

  pub validate_update-Reads : (i : UpdateContent) → Reads (validate_update lib i)
  unfolding validate_update
  validate_update-Reads i =
      bind-Reads _ _ (validated-Reads i.html_content _ valid_html-Reads) (λ html.
        bind-Reads _ _ (validated-Reads i.title _ normalized_title-Reads) (λ title.
          bind-Reads _ _ (validated-Reads i.slug _ (valid_slug-Reads lib.unicode)) (λ slug.
            bind-Reads _ _ (validated-Reads i.labels _ (valid_labels-Reads lib.unicode))
              (λ labels. pure-Reads _))))

pub when-Reads : (c : Bool) (m : Action Store (Unit {0})) → Reads m → Reads (when c m)
when-Reads true m p = p
when-Reads false m p = pure-Reads tt

pub when-NeverThrows :
    (c : Bool) (m : Action Store (Unit {0})) → NeverThrows m → NeverThrows (when c m)
when-NeverThrows true m p = p
when-NeverThrows false m p = pure-NeverThrows tt

pub check_update-Reads :
    (actor : AuthContext) (workspace : WorkspaceContext) (i : UpdateContent) (current : ContentItem)
    → Reads (check_update actor workspace i current)
unfolding check_update
check_update-Reads actor workspace i current = then_Reads _ _ (throw_if-Reads _ _) (
    then_Reads _ _ (throw_if-Reads _ _) (
      then_Reads _ _ (when-Reads _ _ (require_permission-Reads workspace _)) (
        then_Reads _ _ (when-Reads _ _ (require_permission-Reads workspace _)) (
          then_Reads _ _ (when-Reads _ _ (require_permission-Reads workspace _))
            (assert_writer_can_edit-Reads actor.user_id workspace current)))))

-- ===== src/Contents/Edits/Checks.antt =====
-- Who may update a content, and what an update or a creation audits.
use Prim.Native.String.{String}
use ai_content_operating_sys.Base.{
  not-eq-false, ℕ, ◌≡◌, ◌∙◌, Bool, true, false, not, ◌&&◌, ◌||◌, ◌==◌, arith, inl, inr, is,
}
use ai_content_operating_sys.Errors.{
  Result, ok, Failure, Action, steps, and_then-Steps, passed, catch-cases, rescue,
}
use ai_content_operating_sys.Audit.{Quiet, record_audit-Quiet, pure-Quiet, then_Quiet}
use ai_content_operating_sys.Auth.Permissions.{
  Permission, includes, contents_update, contents_seo_update, contents_assign,
}
use ai_content_operating_sys.Auth.Types.{AuthContext, WorkspaceContext}
use ai_content_operating_sys.Database.Client.{Client}
use ai_content_operating_sys.Database.ContentRows.{ContentItem}
use ai_content_operating_sys.Database.Store.{Store}
use ai_content_operating_sys.Contents.Domain.Status.{archived, one_of, same}
use ai_content_operating_sys.Contents.Domain.Html.{HtmlLibrary}
use ai_content_operating_sys.Contents.Fields.{handle_write_error}
use ai_content_operating_sys.Contents.Rules.{
  assert_writer_can_edit, is_writer, writer_editable_statuses, require_permission,
}
use ai_content_operating_sys.Contents.Revisions.{
  Draws, audit_content, audit_revision, audit_revision_and_change,
}
use ai_content_operating_sys.Contents.Editing.{
  UpdateContent, changed_general, changed_seo, assignment_changed, when, check_update, audit_update,
}

pub always_throws :
    {A : Type 0} (e : Failure) (s t : Store) (a : A) → ¬ (handle_write_error e s ≡ (ok a, t))
unfolding handle_write_error
always_throws e s t a h = ground arith

-- A handler that always throws answers nothing.
pub not_handled :
    {A : Type 0} (r : Result A × Store) {t : Store} {a : A}
    → rescue handle_write_error r ≡ (ok a, t)
    → r ≡ (ok a, t)
not_handled r h = elim (catch-cases handle_write_error r h) [
  | inl k ↦ k
  | inr (e, u, _, k) ↦ absurd (always_throws e _ _ _ k)
]

-- Who may change what: a permission for each group of fields, and the rules of a writer.
pub record MayUpdate (actor : ℕ) (workspace : WorkspaceContext) (i : UpdateContent)
    (current : ContentItem) : Type 0 where
  pub not_archived : same current.editorial_status archived ≡ false
  pub something : (changed_general i || changed_seo i || assignment_changed i) ≡ true
  pub general : changed_general i ≡ true → includes workspace.permissions contents_update ≡ true
  pub seo : changed_seo i ≡ true → includes workspace.permissions contents_seo_update ≡ true
  pub assignment :
      assignment_changed i ≡ true → includes workspace.permissions contents_assign ≡ true
  pub writer_status :
      is_writer workspace.role ≡ true
      → one_of writer_editable_statuses current.editorial_status ≡ true
  pub writer_own :
      is_writer workspace.role ≡ true
      → (current.created_by_user_id == actor || is current.assigned_to_user_id actor) ≡ true

pub permitted_when :
    (c : Bool) (workspace : WorkspaceContext) (p : Permission) {s u : Store} {x : Unit {0}}
    → when c (require_permission workspace p) s ≡ (ok x, u)
    → (c ≡ true → includes workspace.permissions p ≡ true) × (u ≡ s)
unfolding require_permission
permitted_when true workspace p h = let (may, q) = passed _ _ h in (λ _. not-eq-false _ may, q)
permitted_when false workspace p h = (λ e. absurd (ground arith), ground arith)

pub writer_rules :
    (w e o a : Bool)
    → (w && (not e || not o && not a)) ≡ false
    → w ≡ true
    → (e ≡ true) × ((o || a) ≡ true)
writer_rules w e o a h q = ground arith

pub check_update-MayUpdate :
    (actor : AuthContext) (workspace : WorkspaceContext) (i : UpdateContent) (current : ContentItem)
    {s u : Store} {x : Unit {0}}
    → check_update actor workspace i current s ≡ (ok x, u)
    → MayUpdate actor.user_id workspace i current × (u ≡ s)
unfolding check_update assert_writer_can_edit
check_update-MayUpdate actor workspace i current h = elim (and_then-Steps _ _ h) [
  | steps _ s₁ e₁ h₁ ↦ elim (and_then-Steps _ _ h₁) [
    | steps _ s₂ e₂ h₂ ↦ elim (and_then-Steps _ _ h₂) [
      | steps _ s₃ e₃ h₃ ↦ elim (and_then-Steps _ _ h₃) [
        | steps _ s₄ e₄ h₄ ↦ elim (and_then-Steps _ _ h₄) [
          | steps _ s₅ e₅ h₅ ↦
              let (live, q₁) = passed _ _ e₁ in
              let (some_change, q₂) = passed _ _ e₂ in
              let (general, q₃) = permitted_when _ workspace contents_update e₃ in
              let (seo, q₄) = permitted_when _ workspace contents_seo_update e₄ in
              let (assignment, q₅) = permitted_when _ workspace contents_assign e₅ in
              let (writer, q₆) = passed _ _ h₅ in
              (
                record {
                  not_archived = live;
                  something = not-eq-false _ some_change;
                  general = general;
                  seo = seo;
                  assignment = assignment;
                  writer_status = λ w. (writer_rules _ _ _ _ writer w).0;
                  writer_own = λ w. (writer_rules _ _ _ _ writer w).1;
                },
                q₆ ∙ q₅ ∙ q₄ ∙ q₃ ∙ q₂ ∙ q₁,
              )
        ]
      ]
    ]
  ]
]

pub when-Quiet : (c : Bool) (m : Action Store (Unit {0})) → Quiet m → Quiet (when c m)
when-Quiet true m q = q
when-Quiet false m q = pure-Quiet tt

module _ (db : Client) where
  pub audit_content-Quiet :
      (action : String) (actor w site id : ℕ) → Quiet (audit_content db action actor w site id)
  unfolding audit_content
  audit_content-Quiet action actor w site id = record_audit-Quiet db _

  pub audit_revision_and_change-Quiet :
      (action : String) (item : ContentItem) (actor : ℕ)
      → Quiet (audit_revision_and_change db action item actor)
  unfolding audit_revision_and_change audit_revision
  audit_revision_and_change-Quiet action item actor =
      then_Quiet _ _ (audit_content-Quiet _ _ _ _ _) (audit_content-Quiet _ _ _ _ _)

module _ (db : Client) (lib : HtmlLibrary) (draws : Draws) where
  pub audit_update-Quiet :
      (actor w site id : ℕ) (i : UpdateContent) (item : ContentItem)
      → Quiet (audit_update db lib draws actor w site id i item)
  unfolding audit_update
  audit_update-Quiet actor w site id i item =
      then_Quiet _ _ (audit_revision_and_change-Quiet db _ item _) (
        then_Quiet _ _ (when-Quiet _ _ (audit_content-Quiet db _ _ _ _ _))
          (when-Quiet _ _ (audit_content-Quiet db _ _ _ _ _)))

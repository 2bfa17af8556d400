-- ===== src/Contents/Rollback/Reads.antt =====
-- Reading the tables for a content request, and writing its audit entries.
use Prim.Native.String.{String}
use ai_content_operating_sys.Base.{ℕ, Option, none, some}
use ai_content_operating_sys.Errors.Atomic.{
  Reads, NeverThrows, pure-Reads, or_throw-Reads, throw_if-Reads, bind-Reads,
}
use ai_content_operating_sys.Audit.{record_audit, record_audit-SameData}
use ai_content_operating_sys.Database.Client.{Client}
use ai_content_operating_sys.Database.ContentRows.{ContentItem}
use ai_content_operating_sys.Database.IdentityRows.{AuditLog}
use ai_content_operating_sys.Database.Reads.{find_first-Reads}
use ai_content_operating_sys.Database.Store.{content_item, content_profile, workspace_member, user}
use ai_content_operating_sys.Contents.Revisions.{
  find_content, validate_profile, validate_assignee, validate_references, audit_content,
  audit_revision, audit_revision_and_change,
}
use ai_content_operating_sys.Contents.Rollback.Checks.{then_Reads, then_NeverThrows}

module _ (db : Client) where
  pub find_content-Reads : (w site id : ℕ) → Reads (find_content db w site id)
  unfolding find_content
  find_content-Reads w site id =
      bind-Reads _ _ (find_first-Reads db content_item _) (λ item. or_throw-Reads item _)

  pub validate_profile-Reads : (w site : ℕ) (o : Option ℕ) → Reads (validate_profile db w site o)
  unfolding validate_profile
  validate_profile-Reads w site none = pure-Reads tt
  validate_profile-Reads w site (some id) =
      bind-Reads _ _ (find_first-Reads db content_profile _) (λ _. throw_if-Reads _ _)

  pub validate_assignee-Reads : (w : ℕ) (o : Option ℕ) → Reads (validate_assignee db w o)
  unfolding validate_assignee
  validate_assignee-Reads w none = pure-Reads tt
  validate_assignee-Reads w (some id) =
      bind-Reads _ _ (find_first-Reads db workspace_member _)
        (λ _. bind-Reads _ _ (find_first-Reads db user _) (λ _. throw_if-Reads _ _))

  pub validate_references-Reads :
      (w site : ℕ) (profile assignee : Option ℕ)
      → Reads (validate_references db w site profile assignee)
  unfolding validate_references
  validate_references-Reads w site profile assignee =
      then_Reads _ _ (validate_profile-Reads w site profile) (validate_assignee-Reads w assignee)

  pub record_audit-NeverThrows : (entry : AuditLog) → NeverThrows (record_audit db entry)
  record_audit-NeverThrows entry = record {
    returns = λ s. (tt, (record_audit-SameData db entry s).0);
  }

  pub audit_content-NeverThrows :
      (action : String) (actor w site id : ℕ)
      → NeverThrows (audit_content db action actor w site id)
  unfolding audit_content
  audit_content-NeverThrows action actor w site id = record_audit-NeverThrows _

  pub audit_revision-NeverThrows :
      (item : ContentItem) (actor : ℕ) → NeverThrows (audit_revision db item actor)
  unfolding audit_revision
  audit_revision-NeverThrows item actor = audit_content-NeverThrows _ _ _ _ _

  pub audit_revision_and_change-NeverThrows :
      (action : String) (item : ContentItem) (actor : ℕ)
      → NeverThrows (audit_revision_and_change db action item actor)
  unfolding audit_revision_and_change
  audit_revision_and_change-NeverThrows action item actor =
      then_NeverThrows _ _ (audit_content-NeverThrows _ _ _ _ _) (audit_revision-NeverThrows item _)

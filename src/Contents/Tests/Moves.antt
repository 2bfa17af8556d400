-- ===== src/Contents/Tests/Moves.antt =====
-- Transitions, decisions and updates on it.
use ai_content_operating_sys.Base.{◌≡◌, refl, true, none, some, is_some}
use ai_content_operating_sys.Errors.{ok, and_then, commit, rescue}
use ai_content_operating_sys.Text.{
  units, optional_text, trim, collapse_spaces, byte_length, code_points,
}
use ai_content_operating_sys.Auth.Permissions.{
  admin, writer, reviewer, permissions_for_role, includes,
}
use ai_content_operating_sys.Database.Client.{in_memory}
use ai_content_operating_sys.Database.ContentRows.{ContentItem, ContentReview, ReviewDecision}
use ai_content_operating_sys.Database.Store.{
  Store, find_first, find_first_or_throw, update_many, create,
}
use ai_content_operating_sys.Contents.Domain.Status.{
  draft, in_review, approved, archived, can_transition_editorial_status,
}
use ai_content_operating_sys.Contents.Domain.Html.{
  contains_executable_html, sanitize_editorial_html, calculate_content_metrics,
}
use ai_content_operating_sys.Contents.Domain.Labels.{normalize_content_labels}
use ai_content_operating_sys.Contents.Domain.Slug.{normalize_content_slug}
use ai_content_operating_sys.Contents.Domain.Editorial.{◌⟶◌}
use ai_content_operating_sys.Contents.Fields.{
  valid_html, valid_labels, normalized_title, valid_slug, handle_write_error,
}
use ai_content_operating_sys.Contents.Rules.{
  assert_writer_can_edit, assert_role_transition, require_permission,
}
use ai_content_operating_sys.Contents.Revisions.{
  snapshot, find_content, update_with_revision, create_revision, audit_content, audit_revision,
  audit_revision_and_change, validate_references, validate_profile, validate_assignee,
}
use ai_content_operating_sys.Contents.Transition.{
  move_to, move_to_archive, ArchiveContent, transition, archive, check_transition,
}
use ai_content_operating_sys.Contents.Reviewing.{
  needs_note, CreateContentReview, review_of, check_decision, write_decision, record_decision,
  decide_review,
}
use ai_content_operating_sys.Contents.Editing.{
  UpdateContent, validate_update, check_update, require_website, write_new, create_content,
  audit_update, update,
}
use ai_content_operating_sys.Contents.Applying.{
  check_candidate, draft_fields, apply_fields, claim_and_write, write_draft, read_replay, recover,
  audit_applied, apply_ai_generation_candidate,
}
use ai_content_operating_sys.Contents.Versioning.{Versioned, claimed, SameBesidesContent}
use ai_content_operating_sys.Contents.Moves.{Allowed, RoleAllows, transition_lem, archive_lem}
use ai_content_operating_sys.Contents.Decisions.{Decided, decide_review_lem}
use ai_content_operating_sys.Audit.{record_audit}
use ai_content_operating_sys.Contents.Tests.Fixtures.{
  plain_html, ada, as_role, item_in, store_in, draws, one_UniqueIds, submit, submitted,
}

submits :
    transition in_memory draws ada (as_role writer) 2 3 submit (store_in draft)
    ≡ (ok (item_in in_review 2), submitted)
unfolding transition archive decide_review update create_content apply_ai_generation_candidate
    check_transition check_decision write_decision record_decision check_update validate_update
    validate_references validate_profile validate_assignee write_new require_website audit_update
    audit_revision_and_change valid_html valid_labels normalized_title valid_slug handle_write_error
    check_candidate draft_fields apply_fields claim_and_write write_draft read_replay recover
    audit_applied update_with_revision find_content find_first find_first_or_throw update_many
    create create_revision and_then commit rescue optional_text audit_content audit_revision
    record_audit assert_writer_can_edit assert_role_transition require_permission
    can_transition_editorial_status permissions_for_role includes contains_executable_html
    byte_length sanitize_editorial_html calculate_content_metrics normalize_content_labels
    normalize_content_slug trim collapse_spaces code_points
submits = refl

transition_lem_example :
    (before : ContentItem) × Versioned
      (claimed 1 2 3 1)
      (move_to in_review)
      (snapshot 11 (item_in in_review 2) 7 (optional_text none))
      (store_in draft)
      submitted
      before
      (item_in in_review 2)
    × (before.editorial_status ⟶ in_review)
    × Allowed (as_role writer) before.editorial_status in_review
    × SameBesidesContent (store_in draft) submitted
transition_lem_example =
    transition_lem in_memory draws ada (as_role writer) 2 3 submit (one_UniqueIds _) submits

abbrev retire : ArchiveContent
retire = record { expected_version = 1; reason = some (units "old") }

abbrev retired : Store
retired = (archive in_memory draws ada (as_role admin) 2 3 retire (store_in draft)).1

abbrev retired_item : ContentItem
retired_item = record (item_in archived 2) { archived_at = some 100 }

retires :
    archive in_memory draws ada (as_role admin) 2 3 retire (store_in draft)
    ≡ (ok retired_item, retired)
unfolding transition archive decide_review update create_content apply_ai_generation_candidate
    check_transition check_decision write_decision record_decision check_update validate_update
    validate_references validate_profile validate_assignee write_new require_website audit_update
    audit_revision_and_change valid_html valid_labels normalized_title valid_slug handle_write_error
    check_candidate draft_fields apply_fields claim_and_write write_draft read_replay recover
    audit_applied update_with_revision find_content find_first find_first_or_throw update_many
    create create_revision and_then commit rescue optional_text audit_content audit_revision
    record_audit assert_writer_can_edit assert_role_transition require_permission
    can_transition_editorial_status permissions_for_role includes contains_executable_html
    byte_length sanitize_editorial_html calculate_content_metrics normalize_content_labels
    normalize_content_slug trim collapse_spaces code_points
retires = refl

archive_lem_example :
    (before : ContentItem) × Versioned
      (claimed 1 2 3 1)
      (move_to_archive 100)
      (snapshot 11 retired_item 7 (optional_text (some (units "old"))))
      (store_in draft)
      retired
      before
      retired_item
    × (before.editorial_status ⟶ archived)
    × SameBesidesContent (store_in draft) retired
archive_lem_example =
    archive_lem in_memory draws ada (as_role admin) 2 3 retire (one_UniqueIds _) retires

abbrev approve_it : CreateContentReview
approve_it = record {
  decision = ReviewDecision.approved;
  reviewed_revision_number = 1;
  note = none;
}

abbrev approved_store : Store
approved_store =
    (decide_review in_memory draws ada (as_role reviewer) 2 3 approve_it (store_in in_review)).1

abbrev approval : ContentReview
approval = review_of 20 7 1 2 3 approve_it (snapshot 10 (item_in in_review 1) 7 none)

approves :
    decide_review in_memory draws ada (as_role reviewer) 2 3 approve_it (store_in in_review)
    ≡ (ok (item_in approved 2, approval), approved_store)
unfolding transition archive decide_review update create_content apply_ai_generation_candidate
    check_transition check_decision write_decision record_decision check_update validate_update
    validate_references validate_profile validate_assignee write_new require_website audit_update
    audit_revision_and_change valid_html valid_labels normalized_title valid_slug handle_write_error
    check_candidate draft_fields apply_fields claim_and_write write_draft read_replay recover
    audit_applied update_with_revision find_content find_first find_first_or_throw update_many
    create create_revision and_then commit rescue optional_text audit_content audit_revision
    record_audit assert_writer_can_edit assert_role_transition require_permission
    can_transition_editorial_status permissions_for_role includes contains_executable_html
    byte_length sanitize_editorial_html calculate_content_metrics normalize_content_labels
    normalize_content_slug trim collapse_spaces code_points
approves = refl

decide_review_lem_example :
    (before : ContentItem) × Decided in_memory draws ada
      (as_role reviewer)
      2
      3
      approve_it
      (store_in in_review)
      approved_store
      before
      (item_in approved 2)
      approval
    × RoleAllows (as_role reviewer) before.editorial_status approved
    × (needs_note ReviewDecision.approved ≡ true → is_some approval.note ≡ true)
decide_review_lem_example =
    decide_review_lem in_memory draws ada (as_role reviewer) 2 3 approve_it (one_UniqueIds _)
      approves

abbrev no_update : UpdateContent
no_update = record {
  expected_version = 1;
  title = none;
  slug = none;
  excerpt = none;
  html_content = none;
  meta_title = none;
  meta_description = none;
  canonical_url = none;
  language = none;
  locale = none;
  featured_image_reference = none;
  labels = none;
  content_profile_id = none;
  assigned_to_user_id = none;
  change_reason = none;
}

abbrev retitle : UpdateContent
retitle = record no_update { title = some (units "  New   title ") }

abbrev retitled : Store
retitled = (update in_memory plain_html draws ada (as_role writer) 2 3 retitle (store_in draft)).1

abbrev retitled_item : ContentItem
retitled_item = record (item_in draft 2) { title = units "New title" }

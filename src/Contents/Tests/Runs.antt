-- ===== src/Contents/Tests/Runs.antt =====
-- Sequences of requests on it.
use ai_content_operating_sys.Base.{
  ◌≡◌, refl, sym, ap, true, false, [], ◌∷◌, none, arith, Memᴰ, subst, ◌↔◌,
}
use mathlib.Core.List.Memᴰ
use ai_content_operating_sys.Errors.{ok, err, and_then, commit, rescue}
use ai_content_operating_sys.Text.{optional_text, trim, collapse_spaces, byte_length, code_points}
use ai_content_operating_sys.Auth.Permissions.{writer, reviewer, permissions_for_role, includes}
use ai_content_operating_sys.Database.IdentityRows.{User, UserStatus}
use ai_content_operating_sys.Database.Client.{in_memory}
use ai_content_operating_sys.Database.Store.{
  Store, find_first, find_first_or_throw, update_many, create,
}
use ai_content_operating_sys.Contents.Domain.Status.{
  EditorialStatus, draft, in_review, can_transition_editorial_status,
}
use ai_content_operating_sys.Contents.Domain.Html.{
  contains_executable_html, sanitize_editorial_html, calculate_content_metrics,
}
use ai_content_operating_sys.Contents.Domain.Labels.{normalize_content_labels}
use ai_content_operating_sys.Contents.Domain.Slug.{normalize_content_slug}
use ai_content_operating_sys.Contents.Domain.Editorial.{◌⟶◌, can_transition_editorial_status_iff}
use ai_content_operating_sys.Contents.Fields.{
  valid_html, valid_labels, normalized_title, valid_slug, handle_write_error,
}
use ai_content_operating_sys.Contents.Rules.{
  forbidden, assert_writer_can_edit, assert_role_transition, require_permission,
}
use ai_content_operating_sys.Contents.Revisions.{
  snapshot, find_content, update_with_revision, create_revision, audit_content, audit_revision,
  audit_revision_and_change, validate_references, validate_profile, validate_assignee,
}
use ai_content_operating_sys.Contents.Transition.{transition, archive, check_transition}
use ai_content_operating_sys.Contents.Reviewing.{
  check_decision, write_decision, record_decision, decide_review, decide,
}
use ai_content_operating_sys.Contents.Editing.{
  validate_update, check_update, require_website, write_new, create_content, audit_update, update,
}
use ai_content_operating_sys.Contents.Applying.{
  check_candidate, draft_fields, apply_fields, claim_and_write, write_draft, read_replay, recover,
  audit_applied, apply_ai_generation_candidate,
}
use ai_content_operating_sys.Contents.Moves.{transition_reviewer}
use ai_content_operating_sys.Contents.Steps.{Captures, IsConsistent, needs_approval, ContentStep}
use ai_content_operating_sys.Contents.Requests.{Request, moving, run, serve, run_all}
use ai_content_operating_sys.Contents.Refinement.{
  run_all-IsConsistent, run-ContentStep, run_rollback,
}
use ai_content_operating_sys.Audit.{record_audit}
use ai_content_operating_sys.Contents.Tests.Fixtures.{
  plain_html, ada, as_role, item_in, store_in, draws, one_UniqueIds, submit, submitted,
}

transition_reviewer_example : ¬ (
    transition in_memory draws ada (as_role reviewer) 2 3 submit (store_in draft)
    ≡ (ok (item_in in_review 2), submitted))
transition_reviewer_example =
    transition_reviewer in_memory draws ada (as_role reviewer) 2 3 submit (store_in draft) submitted
      (item_in in_review 2) refl (one_UniqueIds _)

abbrev submission : Request
submission = record {
  actor = ada;
  workspace = as_role writer;
  website_id = 2;
  draws = draws;
  call = moving 3 submit;
}

store_in-IsConsistent :
    (status : EditorialStatus) → needs_approval status ≡ false → IsConsistent (store_in status)
store_in-IsConsistent status early = record {
  unique = one_UniqueIds (item_in status 1);
  captured = λ x m. (
    snapshot 10 (item_in status 1) 7 none,
    Memᴰ.head refl,
    subst (Captures _) (sym (Memᴰ.eq_of_singleton m))
        (record { of = refl; number = refl; title = refl; html = refl; status = refl }),
  );
  owned = λ r m. (
    item_in status 1,
    Memᴰ.head refl,
    sym (ap (λ z. z.content_item_id) (Memᴰ.eq_of_singleton m)),
  );
  bounded = λ r x mr mx e.
      let p : r.revision_number ≡ 1 = ap (λ z. z.revision_number) (Memᴰ.eq_of_singleton mr) in
      let q : x.version ≡ 1 = ap (λ z. z.version) (Memᴰ.eq_of_singleton mx) in omega arith;
  approved = λ x m n.
      let p : needs_approval status ≡ true =
        subst (λ z. needs_approval z.editorial_status ≡ true) (Memᴰ.eq_of_singleton m) n in
      absurd (ground arith);
}

run-ContentStep_example :
    ContentStep (store_in draft) (run in_memory plain_html submission (store_in draft)).1
run-ContentStep_example =
    run-ContentStep in_memory plain_html submission (store_in draft) (one_UniqueIds _)

run_all-IsConsistent_example :
    IsConsistent (run_all in_memory plain_html (submission ∷ submission ∷ []) (store_in draft))
run_all-IsConsistent_example =
    run_all-IsConsistent in_memory plain_html (submission ∷ submission ∷ []) (store_in draft)
      (store_in-IsConsistent draft refl)

abbrev misplaced : Request
misplaced = record submission { workspace = as_role reviewer }

abbrev ada_account : User
ada_account = record {
  id = 7;
  email = [];
  display_name = none;
  password_hash = [];
  status = UserStatus.active;
  must_change_password = false;
  security_version = 1;
  last_login_at = none;
  password_changed_at = none;
}

abbrev with_ada : Store
with_ada = record (store_in draft) { users = ada_account ∷ [] }

refuses : run in_memory plain_html misplaced with_ada ≡ (err forbidden, with_ada)
unfolding run serve transition archive decide decide_review update create_content
    apply_ai_generation_candidate check_transition check_decision write_decision record_decision
    check_update validate_update validate_references validate_profile validate_assignee write_new
    require_website audit_update audit_revision_and_change valid_html valid_labels normalized_title
    valid_slug handle_write_error check_candidate draft_fields apply_fields claim_and_write
    write_draft read_replay recover audit_applied update_with_revision find_content find_first
    find_first_or_throw update_many create create_revision and_then commit rescue optional_text
    audit_content audit_revision record_audit assert_writer_can_edit assert_role_transition
    require_permission can_transition_editorial_status permissions_for_role includes
    contains_executable_html byte_length sanitize_editorial_html calculate_content_metrics
    normalize_content_labels normalize_content_slug trim collapse_spaces code_points
refuses = refl

run_rollback_example : with_ada ≡ with_ada
run_rollback_example =
    run_rollback in_memory plain_html misplaced with_ada with_ada forbidden ada_account
      (Memᴰ.head refl) refl refuses

can_transition_editorial_status_iff_example :
    (can_transition_editorial_status draft in_review ≡ true) ↔ (draft ⟶ in_review)
can_transition_editorial_status_iff_example = can_transition_editorial_status_iff draft in_review

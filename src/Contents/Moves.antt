-- ===== src/Contents/Moves.antt =====
-- What `transition` and `archive` do.
use Prim.Native.String.{String}
use ai_content_operating_sys.Base.{
  not-eq-false, unless, ℕ, ◌≡◌, ap, ◌∙◌, true, false, arith, subst, and-true,
}
use ai_content_operating_sys.Errors.{ok, ◌>>=◌, pure, and_then, steps, and_then-Steps, passed}
use ai_content_operating_sys.Text.{optional_text}
use ai_content_operating_sys.Audit.{record_audit_done, SameData-trans, SameData}
use ai_content_operating_sys.Auth.Permissions.{contents_transition, includes}
use ai_content_operating_sys.Auth.Types.{AuthContext, WorkspaceContext}
use ai_content_operating_sys.Database.Client.{Client}
use ai_content_operating_sys.Database.ContentRows.{ContentItem}
use ai_content_operating_sys.Database.Store.{Store}
use ai_content_operating_sys.Contents.Domain.Status.{
  EditorialStatus, archived, same, can_transition_editorial_status,
}
use ai_content_operating_sys.Contents.Domain.Editorial.{◌⟶◌, step_sound}
use ai_content_operating_sys.Contents.Rules.{
  assert_role_transition, is_writer, is_reviewer, has, writer_transitions, reviewer_transitions,
}
use ai_content_operating_sys.Contents.Revisions.{
  Draws, snapshot, update_with_revision, audit_content, audit_revision,
}
use ai_content_operating_sys.Contents.Transition.{
  TransitionContent, ArchiveContent, is_review_decision, move_to, move_to_archive, check_transition,
  transition, archive,
}
use ai_content_operating_sys.Contents.Versioning.{
  UniqueIds, claimed, Versioned, Versioned-SameData, SameBesidesContent, audited_write, scoped_same,
  find_content_found, update_with_revision-Versioned,
}

-- What `assertRoleTransition` lets through.
pub record RoleAllows (workspace : WorkspaceContext) (current next : EditorialStatus) : Type 0 where
  pub permitted : includes workspace.permissions contents_transition ≡ true
  pub as_writer : is_writer workspace.role ≡ true → has writer_transitions current next ≡ true
  pub as_reviewer : is_reviewer workspace.role ≡ true → has reviewer_transitions current next ≡ true

pub assert_role_transition_passed :
    (workspace : WorkspaceContext) (current next : EditorialStatus) {s u : Store} {x : Unit {0}}
    → assert_role_transition workspace current next s ≡ (ok x, u)
    → RoleAllows workspace current next × (u ≡ s)
unfolding assert_role_transition
assert_role_transition_passed workspace current next h = elim (and_then-Steps _ _ h) [
  | steps _ s₁ e₁ h₁ ↦ elim (and_then-Steps _ _ h₁) [
    | steps _ s₂ e₂ h₂ ↦
        let (may, q₁) = passed _ _ e₁ in
        let (write, q₂) = passed _ _ e₂ in
        let (review, q₃) = passed _ _ h₂ in
        (
          record {
            permitted = not-eq-false _ may;
            as_writer = unless _ _ write;
            as_reviewer = unless _ _ review;
          },
          q₃ ∙ q₂ ∙ q₁,
        )
  ]
]

-- What a transition that passed its checks may do.
pub record Allowed (workspace : WorkspaceContext) (current next : EditorialStatus) : Type 0 where
  pub edge : can_transition_editorial_status current next ≡ true
  pub not_a_decision : is_review_decision current next ≡ false
  pub not_archive : same next archived ≡ false
  pub roles : RoleAllows workspace current next

module _ (actor : AuthContext) (workspace : WorkspaceContext) (input : TransitionContent) where
  pub check_transition-Allowed :
      (current : ContentItem) {s u : Store}
      → check_transition actor workspace input current s ≡ (ok tt, u)
      → Allowed workspace current.editorial_status input.next_status × (u ≡ s)
  unfolding check_transition
  check_transition-Allowed current h = elim (and_then-Steps _ _ h) [
    | steps _ s₁ e₁ h₁ ↦ elim (and_then-Steps _ _ h₁) [
      | steps _ s₂ e₂ h₂ ↦ elim (and_then-Steps _ _ h₂) [
        | steps _ s₃ e₃ h₃ ↦ elim (and_then-Steps _ _ h₃) [
          | steps _ s₄ e₄ h₄ ↦
              let (decision, q₁) = passed _ _ e₁ in
              let (archiving, q₂) = passed _ _ e₂ in
              let (_, q₃) = passed _ _ e₃ in
              let (roles, q₄) = assert_role_transition_passed workspace _ _ e₄ in
              let (edge, q₅) = passed _ _ h₄ in
              (
                record {
                  edge = not-eq-false _ edge;
                  not_a_decision = decision;
                  not_archive = archiving;
                  roles = roles;
                },
                q₅ ∙ q₄ ∙ q₃ ∙ q₂ ∙ q₁,
              )
        ]
      ]
    ]
  ]

module _ (db : Client) (actor : ℕ) (workspace_id website_id content_id : ℕ) where
  -- The two entries that follow a move.
  audited_move :
      (action : String) (updated : ContentItem) {s t : Store} {after : ContentItem}
      → and_then
          (λ _. audit_revision db updated actor >>= λ _. pure updated)
          (audit_content db action actor workspace_id website_id content_id s)
        ≡ (ok after, t)
      → (updated ≡ after) × SameData s t
  unfolding audit_content audit_revision
  audited_move action updated h = elim (and_then-Steps _ _ h) [
    | steps _ u e k ↦ elim (and_then-Steps _ _ k) [
      | steps _ v d done ↦ (
        cc,
        SameData-trans (record_audit_done db _ e)
            (subst (SameData u) (ap (λ z. z.1) done) (record_audit_done db _ d)),
      )
    ]
  ]

reviewer_stuck :
    (current next : EditorialStatus)
    → has reviewer_transitions current next ≡ true
    → ¬ (is_review_decision current next ≡ false)
reviewer_stuck current next h q = ground arith

module _ (db : Client) (draws : Draws) (actor : AuthContext) (workspace : WorkspaceContext)
    (website_id content_id : ℕ) where
  -- A transition that returns moved one item, at the expected version, along an edge of the life
  -- cycle that is neither a review decision nor archiving and that the role allows; it recorded one
  -- revision, a copy of the item, and changed nothing else but the audit log.
  pub transition_lem :
      (input : TransitionContent) {s t : Store} {after : ContentItem}
      → UniqueIds s.items
      → transition db draws actor workspace website_id content_id input s ≡ (ok after, t)
      → (before : ContentItem) × Versioned
          (claimed workspace.id website_id content_id input.expected_version)
          (move_to input.next_status)
          (snapshot draws.revision_id after actor.user_id (optional_text input.reason))
          s
          t
          before
          after
        × (before.editorial_status ⟶ input.next_status)
        × Allowed workspace before.editorial_status input.next_status
        × SameBesidesContent s t
  unfolding transition
  transition_lem input {s} {t} {after} unique h = elim (and_then-Steps _ _ h) [
    | steps current s₁ e₁ h₁ ↦ elim (and_then-Steps _ _ h₁) [
      | steps _ s₂ e₂ h₂ ↦ elim (and_then-Steps _ _ h₂) [
        | steps updated s₃ e₃ h₃ ↦
            let (m, here, q₁) = find_content_found db workspace.id website_id content_id e₁ in
            let (allowed, q₂) = check_transition-Allowed actor workspace input current e₂ in
            let (p, same) =
              audited_move db actor.user_id workspace.id website_id content_id _ updated h₃ in
            let e : update_with_revision db draws workspace.id website_id content_id
                  input.expected_version (move_to input.next_status) actor.user_id input.reason s
                ≡ (ok after, s₃) =
              rw (← q₁, ← q₂, ← p) e₃ in
            let (before, v, rest) =
              update_with_revision-Versioned db draws workspace.id website_id content_id
                input.expected_version _ actor.user_id input.reason unique e in
            let q : current ≡ before =
              scoped_same workspace.id website_id content_id current before unique m v.was_there
                here (and-true _ _ v.was_claimed).0 in
            let fine : Allowed workspace before.editorial_status input.next_status =
              subst (λ x. Allowed workspace x.editorial_status input.next_status) q allowed in
            (
              before,
              Versioned-SameData v same,
              step_sound _ _ fine.edge,
              fine,
              audited_write rest same,
            )
      ]
    ]
  ]

  -- Archiving that returns has archived one item, from any other status, in the same way.
  pub archive_lem :
      (input : ArchiveContent) {s t : Store} {after : ContentItem}
      → UniqueIds s.items
      → archive db draws actor workspace website_id content_id input s ≡ (ok after, t)
      → (before : ContentItem) × Versioned
          (claimed workspace.id website_id content_id input.expected_version)
          (move_to_archive draws.now)
          (snapshot draws.revision_id after actor.user_id (optional_text input.reason))
          s
          t
          before
          after
        × (before.editorial_status ⟶ archived)
        × SameBesidesContent s t
  unfolding archive
  archive_lem input {s} {t} {after} unique h = elim (and_then-Steps _ _ h) [
    | steps current s₁ e₁ h₁ ↦ elim (and_then-Steps _ _ h₁) [
      | steps _ s₂ e₂ h₂ ↦ elim (and_then-Steps _ _ h₂) [
        | steps updated s₃ e₃ h₃ ↦
            let (m, here, q₁) = find_content_found db workspace.id website_id content_id e₁ in
            let (may, q₂) = passed _ _ e₂ in
            let (p, same) =
              audited_move db actor.user_id workspace.id website_id content_id _ updated h₃ in
            let e : update_with_revision db draws workspace.id website_id content_id
                  input.expected_version (move_to_archive draws.now) actor.user_id input.reason s
                ≡ (ok after, s₃) =
              rw (← q₁, ← q₂, ← p) e₃ in
            let (before, v, rest) =
              update_with_revision-Versioned db draws workspace.id website_id content_id
                input.expected_version _ actor.user_id input.reason unique e in
            let q : current ≡ before =
              scoped_same workspace.id website_id content_id current before unique m v.was_there
                here (and-true _ _ v.was_claimed).0 in
            let edge : before.editorial_status ⟶ archived =
              subst (λ x. x.editorial_status ⟶ archived) q (step_sound _ _ (not-eq-false _ may)) in
            (before, Versioned-SameData v same, edge, audited_write rest same)
      ]
    ]
  ]

  -- A reviewer's transition never returns: what it may do is a decision of the review center.
  pub transition_reviewer :
      (input : TransitionContent) (s t : Store) (after : ContentItem)
      → is_reviewer workspace.role ≡ true
      → UniqueIds s.items
      → ¬ (transition db draws actor workspace website_id content_id input s ≡ (ok after, t))
  transition_reviewer input s t after role unique h =
      let (before, _, _, allowed, _) = transition_lem input unique h in
      absurd (
        reviewer_stuck before.editorial_status input.next_status (allowed.roles.as_reviewer role)
          allowed.not_a_decision)

-- ===== src/Contents/Rollback/Deciding.antt =====
-- content-review.service.ts `decide`, when it returns and when it throws.
use ai_content_operating_sys.Base.{
  ℕ, ◌≡◌, ◌⊎◌, sym, ap, ◌∙◌, subst, Bool, false, ◌==◌, any, arith, inl, inr, some,
}
use ai_content_operating_sys.Errors.{
  ok, err, Failure, Action, pure, ◌>>=◌, ◌>>◌, steps, and_then-Steps, passed, commit-eq-ok,
}
use ai_content_operating_sys.Errors.Atomic.{
  Reads, Reads-Atomic, read_only, NeverThrows, threw, pure-Reads, bind-Reads, or_throw-Reads,
}
use ai_content_operating_sys.Audit.{
  SameData, SameData-refl, Quiet, then_Quiet, record_audit, record_audit-Quiet,
}
use ai_content_operating_sys.Auth.Types.{AuthContext, WorkspaceContext}
use ai_content_operating_sys.Database.Client.{Client}
use ai_content_operating_sys.Database.ContentRows.{ContentItem, ContentReview}
use ai_content_operating_sys.Database.IdentityRows.{User, AuditLog}
use ai_content_operating_sys.Database.Laws.{find_first_or_throw_failed, update_many_done}
use ai_content_operating_sys.Database.Reads.{find_first-Reads, find_first_or_throw-Reads}
use ai_content_operating_sys.Database.Store.{
  Store, content_item, content_revision, user, find_first_or_throw,
}
use ai_content_operating_sys.Contents.Decisions.{write_rest}
use ai_content_operating_sys.Contents.Edits.Checks.{audit_content-Quiet}
use ai_content_operating_sys.Contents.Revisions.{Draws, audit_content}
use ai_content_operating_sys.Contents.Reviewing.{
  CreateContentReview, review_action, write_decision, decide_review, decide,
}
use ai_content_operating_sys.Contents.Rollback.Checks.{
  require_permission-Reads, check_decision-Reads,
}
use ai_content_operating_sys.Contents.Rollback.Reads.{
  find_content-Reads, record_audit-NeverThrows, audit_content-NeverThrows,
}
use ai_content_operating_sys.Contents.Rollback.Requests.{decide_review-Atomic}

Reads-Quiet : {A : Type 0} (m : Action Store A) → Reads m → Quiet m
Reads-Quiet m reads = record {
  same = λ s. subst (SameData s) (sym (reads.same s)) (SameData-refl s);
}

-- What never throws does not end a call.
never_threw :
    {A : Type 0} (m : Action Store A) (s t : Store) (e : Failure)
    → NeverThrows m
    → ¬ (m s ≡ (err e, t))
never_threw m s t e quiet h =
    let (a, q) = quiet.returns s in
    let z : (m s).0 ≡ err e = ap (λ x. x.0) h in absurd (ground arith)

module _ (db : Client) (draws : Draws) (actor : AuthContext) (workspace : WorkspaceContext)
    (site id : ℕ) (input : CreateContentReview) where
  -- The decision of a review changes no account.
  write_decision_users :
      (s t : Store) {r : ContentItem × ContentReview}
      → write_decision db draws actor workspace site id input s ≡ (ok r, t)
      → t.users ≡ s.users
  unfolding write_decision
  write_decision_users s t {r} h = elim (and_then-Steps _ _ (commit-eq-ok _ _ h)) [
    | steps found s₁ e₁ h₁ ↦ elim (and_then-Steps _ _ h₁) [
      | steps reviewed s₂ e₂ h₂ ↦ elim (and_then-Steps _ _ h₂) [
        | steps changed s₃ e₃ h₃ ↦ elim (and_then-Steps _ _ h₃) [
          | steps _ s₄ e₄ h₄ ↦
              let q₁ = read_only _ (find_first-Reads db content_revision _) e₁ in
              let q₂ = read_only _ (or_throw-Reads found _) e₂ in
              let (_, q₃) = update_many_done db content_item _ _ e₃ in
              let (_, q₄) = passed _ _ e₄ in
              let (_, _, _, _, q₅) =
                write_rest db draws actor workspace site id input reviewed {item = r.0}
                  {review = r.1} h₄ in
              ap (λ z. z.users) q₅
              ∙ ap (λ z. z.users) q₄
              ∙ ap (λ z. z.users) q₃
              ∙ ap (λ z. z.users) (q₂ ∙ q₁)
        ]
      ]
    ]
  ]

  decide_review_users :
      (s t : Store) {r : ContentItem × ContentReview}
      → decide_review db draws actor workspace site id input s ≡ (ok r, t)
      → t.users ≡ s.users
  unfolding decide_review
  decide_review_users s t h = elim (and_then-Steps _ _ h) [
    | steps current s₁ e₁ h₁ ↦ elim (and_then-Steps _ _ h₁) [
      | steps _ s₂ e₂ h₂ ↦
          let q₁ = read_only _ (find_content-Reads db workspace.id site id) e₁ in
          let q₂ = read_only _ (check_decision-Reads workspace input current) e₂ in
          write_decision_users s₂ t h₂ ∙ ap (λ z. z.users) (q₂ ∙ q₁)
    ]
  ]

  -- What `decide` does after the decision.
  abbrev entry_of : ContentReview → AuditLog
  entry_of review = record {
    action = review_action input.decision;
    actor_user_id = some actor.user_id;
    workspace_id = some workspace.id;
    website_id = some site;
    target_type = "ContentReview";
    target_id = some review.id;
  }

  abbrev is_actor : User → Bool
  is_actor u = u.id == actor.user_id

  abbrev read_reviewer : ContentReview → Action Store ContentReview
  read_reviewer review = find_first_or_throw db user is_actor >>= λ _. pure review

  abbrev audit_revision_made : Action Store (Unit {0})
  audit_revision_made =
      audit_content db "content.revision_created" actor.user_id workspace.id site id

  abbrev report : ContentReview → Action Store ContentReview
  report review = record_audit db (entry_of review) >> (audit_revision_made >> read_reviewer review)

  report-Quiet : (review : ContentReview) → Quiet (report review)
  report-Quiet review = then_Quiet _ _ (record_audit-Quiet db _) (
      then_Quiet _ _ (audit_content-Quiet db _ _ _ _ _) (
        Reads-Quiet _
          (bind-Reads _ _ (find_first_or_throw-Reads db user is_actor) (λ _. pure-Reads review))))

  -- It throws only for an account that is not there.
  report_threw :
      (review : ContentReview) (s t : Store) (e : Failure)
      → report review s ≡ (err e, t)
      → any is_actor s.users ≡ false
  report_threw review s t e h =
      elim (threw (λ _. audit_revision_made >> read_reviewer review) _ h) [
        | inl k ↦ absurd (never_threw _ s t e (record_audit-NeverThrows db (entry_of review)) k)
        | inr (_, s₁, e₁, h₁) ↦ elim (threw (λ _. read_reviewer review) _ h₁) [
          | inl k ↦ absurd (never_threw _ s₁ t e (audit_content-NeverThrows db _ _ _ _ _) k)
          | inr (_, s₂, e₂, h₂) ↦ elim (threw (λ _. pure review) _ h₂) [
            | inl k ↦
                let missing = find_first_or_throw_failed db user is_actor s₂ k in
                let q₁ = subst (λ z. SameData s z.1) e₁ ((record_audit-Quiet db _).same s) in
                let q₂ =
                  subst (λ z. SameData s₁ z.1) e₂ ((audit_content-Quiet db _ _ _ _ _).same s₁) in
                let users : s₂.users ≡ s.users =
                  ap (λ z. z.users) q₂.others ∙ ap (λ z. z.users) q₁.others in
                subst (λ z. any is_actor z ≡ false) users missing
            | inr (_, s₃, _, h₃) ↦ absurd (ground arith)
          ]
        ]
      ]

  -- The decision of a review, and what `decide` did after it, which leaves entries only.
  pub record Reported (s t : Store) : Type 0 where
    pub item : ContentItem
    pub review : ContentReview
    pub middle : Store
    pub made : decide_review db draws actor workspace site id input s ≡ (ok (item, review), middle)
    pub entries : SameData middle t

  pub decide_returned :
      (s t : Store) {answer : ContentReview}
      → decide db draws actor workspace site id input s ≡ (ok answer, t)
      → Reported s t
  unfolding decide
  decide_returned s t h = elim (and_then-Steps _ _ h) [
    | steps _ s₁ e₁ h₁ ↦ elim (and_then-Steps _ _ h₁) [
      | steps both u e₂ h₂ ↦
          let q = read_only _ (require_permission-Reads workspace _) e₁ in
          record {
            item = both.0;
            review = both.1;
            middle = u;
            made = rw q at e₂;
            entries = subst (λ z. SameData u z.1) h₂ ((report-Quiet both.1).same u);
          }
    ]
  ]

  -- A decision that throws has changed nothing, or was made, its caller having no account.
  pub decide_threw :
      (s t : Store) (e : Failure)
      → decide db draws actor workspace site id input s ≡ (err e, t)
      → (t ≡ s) ⊎ (Reported s t × (any is_actor s.users ≡ false))
  unfolding decide
  decide_threw s t e h = elim (threw _ _ h) [
    | inl k ↦ inl ((Reads-Atomic _ (require_permission-Reads workspace _)).rollback s t e k)
    | inr (_, s₁, e₁, h₁) ↦
        let q = read_only _ (require_permission-Reads workspace _) e₁ in
        elim (threw _ _ h₁) [
          | inl k ↦
              inl (
                (decide_review-Atomic db draws actor workspace site id input).rollback s₁ t e k ∙ q)
          | inr (both, u, e₂, h₂) ↦
              let made = rw q at e₂ in
              inr (
                record {
                  item = both.0;
                  review = both.1;
                  middle = u;
                  made = made;
                  entries = subst (λ z. SameData u z.1) h₂ ((report-Quiet both.1).same u);
                },
                subst (λ z. any is_actor z ≡ false) (decide_review_users s u made)
                    (report_threw both.1 u t e h₂),
              )
        ]
  ]

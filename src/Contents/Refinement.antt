-- ===== src/Contents/Refinement.antt =====
-- The content requests as abstract changes of the contents.
pub mod Changes
use ai_content_operating_sys.Base.{
  ℕ, ◌+◌, ◌≡◌, refl, sym, ap, ◌∙◌, true, false, List, [], ◌∷◌, Option, none, some, arith, subst,
  inl, inr, ◌⊎◌, Memᴰ, any, ◌==◌, ==_iff, get_or, and-true,
}
use ai_content_operating_sys.Errors.{
  Result, ok, err, Failure, pure, and_then, steps, and_then-Steps, Result-cases,
}
use ai_content_operating_sys.Errors.Atomic.{threw}
use ai_content_operating_sys.Text.{Text}
use ai_content_operating_sys.Auth.Types.{AuthContext, WorkspaceContext}
use ai_content_operating_sys.Database.Client.{Client}
use ai_content_operating_sys.Database.ContentRows.{ContentItem, ContentReview}
use ai_content_operating_sys.Database.Store.{Store}
use ai_content_operating_sys.Contents.Domain.Status.{
  EditorialStatus, idea, in_review, archived, same,
}
use ai_content_operating_sys.Contents.Domain.Editorial.{◌⟶◌}
use ai_content_operating_sys.Contents.Domain.Html.{HtmlLibrary}
use ai_content_operating_sys.Contents.Revisions.{Draws, snapshot}
use ai_content_operating_sys.Contents.Reviewing.{CreateContentReview, status_after, decide_review}
use ai_content_operating_sys.Contents.Editing.{
  UpdateContent, Validated, CreateContent, apply_update, create_content, update, with_html,
  may_create_as,
}
use ai_content_operating_sys.Contents.Transition.{
  TransitionContent, ArchiveContent, transition, archive, is_review_decision,
}
use ai_content_operating_sys.Contents.Applying.{
  AiGenerationApplyResult, apply_ai_generation_candidate,
}
use ai_content_operating_sys.Contents.Versioning.{UniqueIds, Versioned-SameData, scoped-id}
use ai_content_operating_sys.Contents.Moves.{transition_lem, archive_lem}
use ai_content_operating_sys.Contents.Decisions.{decide_review_lem}
use ai_content_operating_sys.Contents.Edits.{update_lem, create_content_lem}
use ai_content_operating_sys.Contents.Rollback.Requests.{
  transition-Atomic, archive-Atomic, decide_review-Atomic, update-Atomic, create_content-Atomic,
}
use ai_content_operating_sys.Contents.Rollback.Deciding.{Reported, decide_returned, decide_threw}
use ai_content_operating_sys.Audit.{SameData}
use ai_content_operating_sys.Database.Counting.{there-any}
use ai_content_operating_sys.Database.IdentityRows.{User}
use ai_content_operating_sys.Contents.Rollback.Drafts.{apply_ai_generation_candidate-Atomic}
use ai_content_operating_sys.Contents.Requests.{
  Call, Request, creating, updating, moving, archiving, deciding, applying, serve, run, run_all,
}
use ai_content_operating_sys.Contents.Steps.{
  Captures, EditorialStep, ContentStep, IsConsistent, edited, moved, decided, unchanged, created,
  changed, needs_approval,
}
use ai_content_operating_sys.Contents.Consistent.{ContentStep-IsConsistent}
use ai_content_operating_sys.Contents.Refinement.Changes.{
  update_step, create_step, transition_step, archive_step, decide_step, apply_step,
  ContentStep-SameData,
}

-- A result that is not looked at.
discarded :
    {A : Type 0} (r : Result A × Store) {t : Store} {x : Unit {0}}
    → and_then (λ _. pure tt) r ≡ (ok x, t)
    → (a : A) × (r ≡ (ok a, t))
discarded r {t = t} h = elim (and_then-Steps _ _ h) [
  | steps a u e k ↦ let q : u ≡ t = ap (λ z. z.1) k in (a, subst (λ z. r ≡ (ok a, z)) q e)
]

-- Its errors are those of the call.
discarded_threw :
    {A : Type 0} (r : Result A × Store) {t : Store} {e : Failure}
    → and_then (λ _. pure tt) r ≡ (err e, t)
    → r ≡ (err e, t)
discarded_threw r h = elim (threw _ _ h) [ inl k ↦ k | inr (a, u, _, k) ↦ absurd (ground arith) ]

module _ (db : Client) (lib : HtmlLibrary) where
  -- A decision that was made, but not answered: its caller has no account.
  record HalfServed (actor : AuthContext) (workspace : WorkspaceContext) (site : ℕ) (draws : Draws)
      (s t : Store) : Type 0 where
    id : ℕ
    input : CreateContentReview
    reported : Reported db draws actor workspace site id input s t
    no_account : any (λ u. u.id == actor.user_id) s.users ≡ false

  reported_step :
      (actor : AuthContext) (workspace : WorkspaceContext) (site : ℕ) (draws : Draws) {s t : Store}
      → UniqueIds s.items
      → (id : ℕ) (i : CreateContentReview) → Reported db draws actor workspace site id i s t
      → ContentStep s t
  reported_step actor workspace site draws unique id i reported =
      ContentStep-SameData (decide_step db lib actor workspace site draws unique id i reported.made)
        reported.entries

  serve-ContentStep :
      (actor : AuthContext) (workspace : WorkspaceContext) (site : ℕ) (draws : Draws) (call : Call)
      {s t : Store} {x : Unit {0}}
      → UniqueIds s.items
      → serve db lib actor workspace site draws call s ≡ (ok x, t)
      → ContentStep s t
  unfolding serve
  serve-ContentStep actor workspace site draws (creating i) unique h =
      let (item, e) = discarded _ h in create_step db lib actor workspace site draws unique i e
  serve-ContentStep actor workspace site draws (updating id i) unique h =
      let (item, e) = discarded _ h in update_step db lib actor workspace site draws unique id i e
  serve-ContentStep actor workspace site draws (moving id i) unique h =
      let (item, e) = discarded _ h in
      transition_step db lib actor workspace site draws unique id i e
  serve-ContentStep actor workspace site draws (archiving id i) unique h =
      let (item, e) = discarded _ h in archive_step db lib actor workspace site draws unique id i e
  serve-ContentStep actor workspace site draws (deciding id i) unique h =
      let (answer, e) = discarded _ h in
      reported_step actor workspace site draws unique id i
        (decide_returned db draws actor workspace site id i _ _ e)
  serve-ContentStep actor workspace site draws (applying id candidate) unique h =
      let (r, e) = discarded _ h in
      apply_step db lib actor workspace site draws unique id candidate e

  -- A call that throws has changed nothing, or is a decision that was made for a caller without an
  -- account.
  serve_threw :
      (actor : AuthContext) (workspace : WorkspaceContext) (site : ℕ) (draws : Draws) (call : Call)
      (s t : Store) (e : Failure)
      → serve db lib actor workspace site draws call s ≡ (err e, t)
      → (t ≡ s) ⊎ HalfServed actor workspace site draws s t
  unfolding serve
  serve_threw actor workspace site draws (creating i) s t e h = inl (
      (create_content-Atomic db lib draws actor workspace site i).rollback s t e
        (discarded_threw _ h))
  serve_threw actor workspace site draws (updating id i) s t e h =
      inl (
        (update-Atomic db lib draws actor workspace site id i).rollback s t e (discarded_threw _ h))
  serve_threw actor workspace site draws (moving id i) s t e h =
      inl (
        (transition-Atomic db draws actor workspace site id i).rollback s t e (discarded_threw _ h))
  serve_threw actor workspace site draws (archiving id i) s t e h =
      inl ((archive-Atomic db draws actor workspace site id i).rollback s t e (discarded_threw _ h))
  serve_threw actor workspace site draws (deciding id i) s t e h =
      elim (decide_threw db draws actor workspace site id i s t e (discarded_threw _ h)) [
        | inl same ↦ inl same
        | inr (reported, missing) ↦
            inr (record { id = id; input = i; reported = reported; no_account = missing })
      ]
  serve_threw actor workspace site draws (applying id candidate) s t e h = inl (
      (apply_ai_generation_candidate-Atomic db lib draws actor workspace site id candidate).rollback
        s t e (discarded_threw _ h))

  -- A request that throws, of a caller who has an account, leaves every table as it was, the audit log
  -- included.
  pub run_rollback :
      (r : Request) (s t : Store) (e : Failure) (person : User)
      → Memᴰ person s.users
      → person.id ≡ r.actor.user_id
      → run db lib r s ≡ (err e, t)
      → t ≡ s
  unfolding run
  run_rollback r s t e person there is_caller h =
      elim (serve_threw r.actor r.workspace r.website_id r.draws r.call s t e h) [
        | inl same ↦ same
        | inr half ↦
            let found =
              there-any (λ u. u.id == r.actor.user_id) s.users there ((==_iff _ _).1 is_caller) in
            let missing = half.no_account in absurd (ground arith)
      ]

  -- A request, answered or refused, is one abstract change of the contents: one row added with its
  -- first revision, one row changed with its next revision, or none.
  pub run-ContentStep :
      (r : Request) (s : Store) → UniqueIds s.items → ContentStep s (run db lib r s).1
  unfolding run
  run-ContentStep r s unique = elim (Result-cases (run db lib r s)) [
    | inl (x, t, e) ↦
        rw e (serve-ContentStep r.actor r.workspace r.website_id r.draws r.call unique e)
    | inr (x, t, e) ↦ elim (serve_threw r.actor r.workspace r.website_id r.draws r.call s t x e) [
      | inl q ↦
          rw e (unchanged (ap (λ z. z.items) q) (ap (λ z. z.revisions) q) (ap (λ z. z.reviews) q))
      | inr half ↦ rw e (
          reported_step r.actor r.workspace r.website_id r.draws unique half.id half.input
            half.reported)
    ]
  ]

  -- Any sequence of requests keeps the contents consistent.
  pub run_all-IsConsistent :
      (rs : List Request) (s : Store) → IsConsistent s → IsConsistent (run_all db lib rs s)
  unfolding run_all
  run_all-IsConsistent [] s c = c
  run_all-IsConsistent (r ∷ rs) s c =
      run_all-IsConsistent rs _ (ContentStep-IsConsistent (run-ContentStep r s c.unique) c)

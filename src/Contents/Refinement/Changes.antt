-- ===== src/Contents/Refinement/Changes.antt =====
-- Each operation on contents as an abstract change.
use ai_content_operating_sys.Base.{
  ℕ, ◌+◌, ◌≡◌, refl, sym, ap, ◌∙◌, true, false, Option, none, some, arith, subst, inl, inr, get_or,
  and-true,
}
use ai_content_operating_sys.Errors.{ok}
use ai_content_operating_sys.Text.{Text}
use ai_content_operating_sys.Auth.Types.{AuthContext, WorkspaceContext}
use ai_content_operating_sys.Database.Client.{Client}
use ai_content_operating_sys.Database.ContentRows.{ContentItem, ContentReview}
use ai_content_operating_sys.Database.Store.{Store}
use ai_content_operating_sys.Contents.Domain.Status.{
  EditorialStatus, idea, in_review, archived, same,
}
use ai_content_operating_sys.Contents.Domain.Editorial.{◌⟶◌}
use ai_content_operating_sys.Contents.Domain.Html.{HtmlLibrary}
use ai_content_operating_sys.Contents.Revisions.{Draws, snapshot}
use ai_content_operating_sys.Contents.Reviewing.{CreateContentReview, status_after, decide_review}
use ai_content_operating_sys.Contents.Editing.{
  UpdateContent, Validated, CreateContent, apply_update, create_content, update, with_html,
  may_create_as,
}
use ai_content_operating_sys.Contents.Transition.{
  TransitionContent, ArchiveContent, transition, archive, is_review_decision,
}
use ai_content_operating_sys.Contents.Applying.{
  AiGenerationApplyResult, apply_ai_generation_candidate,
}
use ai_content_operating_sys.Contents.Versioning.{UniqueIds, Versioned-SameData, scoped-id}
use ai_content_operating_sys.Contents.Moves.{transition_lem, archive_lem}
use ai_content_operating_sys.Contents.Decisions.{decide_review_lem}
use ai_content_operating_sys.Contents.Edits.{update_lem, create_content_lem}
use ai_content_operating_sys.Contents.Drafts.{either_way}
use ai_content_operating_sys.Audit.{SameData}
use ai_content_operating_sys.Contents.Steps.{
  Captures, EditorialStep, ContentStep, edited, moved, decided, unchanged, created, changed,
  needs_approval,
}

snapshot-Captures :
    (id : ℕ) (item : ContentItem) (by : ℕ) (reason : Option Text)
    → Captures (snapshot id item by reason) item
snapshot-Captures id item by reason = record {
  of = refl;
  number = refl;
  title = refl;
  html = refl;
  status = refl;
}

html_keeps :
    (lib : HtmlLibrary) (html : Option Text) (item : ContentItem)
    → ((with_html lib html item).id ≡ item.id)
      × ((with_html lib html item).editorial_status ≡ item.editorial_status)
html_keeps lib none item = (refl, refl)
html_keeps lib (some html) item = (refl, refl)

-- An update keeps the identity and the status.
update_keeps :
    (lib : HtmlLibrary) (i : UpdateContent) (v : Validated) (item : ContentItem)
    → ((apply_update lib i v item).id ≡ item.id)
      × ((apply_update lib i v item).version ≡ item.version + 1)
      × ((apply_update lib i v item).editorial_status ≡ item.editorial_status)
update_keeps lib i v item = let kept = html_keeps lib v.html item in (kept.0, refl, kept.1)

created_early :
    (o : Option EditorialStatus) → may_create_as o ≡ true → needs_approval (get_or o idea) ≡ false
created_early none h = refl
created_early (some status) h = ground arith

not_decision : (status : EditorialStatus) → is_review_decision status archived ≡ false
not_decision status = ground arith

same_eq : (a b : EditorialStatus) → same a b ≡ true → a ≡ b
same_eq a b h = ground arith

module _ (db : Client) (lib : HtmlLibrary) (actor : AuthContext) (workspace : WorkspaceContext)
    (site : ℕ) (draws : Draws) {s t : Store} (unique : UniqueIds s.items) where
  pub update_step :
      (id : ℕ) (i : UpdateContent) {after : ContentItem}
      → update db lib draws actor workspace site id i s ≡ (ok after, t)
      → ContentStep s t
  update_step id i h =
      let (before, v, w, _, _, others) =
        update_lem db lib draws actor workspace site id i unique h in
      let (kept, grown, status) = update_keeps lib i v before in
      changed _ _ _ before _ w (snapshot-Captures _ _ _ _) (ap (λ z. z.id) w.changed ∙ kept)
        (ap (λ z. z.version) w.changed ∙ grown)
        (edited (ap (λ z. z.editorial_status) w.changed ∙ status)
          (ap (λ z. z.reviews) others.others))

  pub create_step :
      (i : CreateContent) {item : ContentItem}
      → create_content db lib draws actor workspace site i s ≡ (ok item, t)
      → ContentStep s t
  create_step i {item} h =
      let c = create_content_lem db lib draws actor workspace site i h in
      let early : needs_approval item.editorial_status ≡ false =
        ap (λ z. needs_approval z.editorial_status) c.is_new
        ∙ created_early i.editorial_status c.early in
      created item _ c.items c.free c.revisions (snapshot-Captures _ _ _ _) early
        (ap (λ z. z.reviews) c.others.others)

  pub transition_step :
      (id : ℕ) (i : TransitionContent) {after : ContentItem}
      → transition db draws actor workspace site id i s ≡ (ok after, t)
      → ContentStep s t
  transition_step id i {after} h =
      let (before, w, edge, allowed, others) =
        transition_lem db draws actor workspace site id i unique h in
      let now : after.editorial_status ≡ i.next_status = ap (λ z. z.editorial_status) w.changed in
      changed _ _ _ before _ w (snapshot-Captures _ _ _ _) (ap (λ z. z.id) w.changed)
        (ap (λ z. z.version) w.changed)
        (moved (subst (λ z. before.editorial_status ⟶ z) (sym now) edge)
          (subst (λ z. is_review_decision before.editorial_status z ≡ false) (sym now)
            allowed.not_a_decision)
          (ap (λ z. z.reviews) others.others))

  pub archive_step :
      (id : ℕ) (i : ArchiveContent) {after : ContentItem}
      → archive db draws actor workspace site id i s ≡ (ok after, t)
      → ContentStep s t
  archive_step id i {after} h =
      let (before, w, edge, others) = archive_lem db draws actor workspace site id i unique h in
      let now : after.editorial_status ≡ archived = ap (λ z. z.editorial_status) w.changed in
      changed _ _ _ before _ w (snapshot-Captures _ _ _ _) (ap (λ z. z.id) w.changed)
        (ap (λ z. z.version) w.changed)
        (moved (subst (λ z. before.editorial_status ⟶ z) (sym now) edge)
          (subst (λ z. is_review_decision before.editorial_status z ≡ false) (sym now)
            (not_decision before.editorial_status))
          (ap (λ z. z.reviews) others.others))

  pub decide_step :
      (id : ℕ) (i : CreateContentReview) {item : ContentItem} {review : ContentReview}
      → decide_review db draws actor workspace site id i s ≡ (ok (item, review), t)
      → ContentStep s t
  decide_step id i {item} {review} h =
      let (before, d, _, _) = decide_review_lem db draws actor workspace site id i unique h in
      let was_claimed = and-true _ _ d.written.was_claimed in
      let about : before.id ≡ id =
        scoped-id workspace.id site id before (and-true _ _ was_claimed.0).0 in
      let was : before.editorial_status ≡ in_review = same_eq _ _ was_claimed.1 in
      changed _ _ _ before _ d.written (snapshot-Captures _ _ _ _)
        (ap (λ z. z.id) d.written.changed) (ap (λ z. z.version) d.written.changed)
        (decided review was
          (ap (λ z. z.editorial_status) d.written.changed
            ∙ ap (λ z. status_after z.decision) (sym d.recorded))
          (ap (λ z. z.content_item_id) d.recorded ∙ sym about) d.reviews)

  pub apply_step :
      (id candidate : ℕ) {r : AiGenerationApplyResult}
      → apply_ai_generation_candidate db lib draws actor workspace site id candidate s ≡ (ok r, t)
      → ContentStep s t
  apply_step id candidate h =
      elim (either_way db lib draws actor workspace site id candidate unique h) [
        | inl r ↦ unchanged r.same_contents.items r.same_contents.revisions r.same_contents.reviews
        | inr a ↦
            let w = a.drafted.written in
            changed _ _ _ a.before a.after w
              (record { of = refl; number = refl; title = refl; html = refl; status = refl })
              (ap (λ z. z.id) w.changed) (ap (λ z. z.version) w.changed)
              (EditorialStep.redrafted (ap (λ z. z.editorial_status) w.changed) a.drafted.reviews)
      ]

EditorialStep-SameData :
    {s t u : Store} {before after : ContentItem}
    → EditorialStep s t before after
    → SameData t u
    → EditorialStep s u before after
EditorialStep-SameData (edited same reviews) q =
    edited same (ap (λ z. z.reviews) q.others ∙ reviews)
EditorialStep-SameData (moved edge other reviews) q =
    moved edge other (ap (λ z. z.reviews) q.others ∙ reviews)
EditorialStep-SameData (decided review was now about reviews) q =
    decided review was now about (ap (λ z. z.reviews) q.others ∙ reviews)
EditorialStep-SameData (EditorialStep.redrafted now reviews) q =
    EditorialStep.redrafted now (ap (λ z. z.reviews) q.others ∙ reviews)

-- A change of the contents with entries in the audit log after it.
pub ContentStep-SameData : {s t u : Store} → ContentStep s t → SameData t u → ContentStep s u
ContentStep-SameData (unchanged items revisions reviews) q =
    unchanged (ap (λ z. z.items) q.others ∙ items) (ap (λ z. z.revisions) q.others ∙ revisions)
      (ap (λ z. z.reviews) q.others ∙ reviews)
ContentStep-SameData (created item revision items free revisions captures early reviews) q =
    created item revision (ap (λ z. z.items) q.others ∙ items) free
      (ap (λ z. z.revisions) q.others ∙ revisions) captures early
      (ap (λ z. z.reviews) q.others ∙ reviews)
ContentStep-SameData (changed claim change revision before after w captures id version step) q =
    changed claim change revision before after (Versioned-SameData w q) captures id version
      (EditorialStep-SameData step q)

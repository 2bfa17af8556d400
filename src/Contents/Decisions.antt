-- ===== src/Contents/Decisions.antt =====
-- What a review decision does.
use ai_content_operating_sys.Base.{
  not-eq-false, unless, ℕ, ◌≡◌, refl, sym, ap, ◌∙◌, Bool, true, false, ◌&&◌, ◌∷◌, map, some,
  is_some, any, ◌==◌, ==_iff, Memᴰ, subst, and-true,
}
use ai_content_operating_sys.Errors.{
  Result, ok, steps, and_then-Steps, passed, commit-eq-ok, or_throw_found,
}
use ai_content_operating_sys.Text.{optional_text}
use ai_content_operating_sys.Auth.Types.{AuthContext, WorkspaceContext}
use ai_content_operating_sys.Database.Client.{Client, update_row}
use ai_content_operating_sys.Database.ContentRows.{
  ContentItem, ContentRevision, ContentReview, review_clash, revision_clash,
}
use ai_content_operating_sys.Database.Store.{
  Store, content_item, content_revision, content_review, find_first,
}
use ai_content_operating_sys.Database.Laws.{
  find_first_found, find_first_or_throw_found, update_many_done, create_done,
}
use ai_content_operating_sys.Contents.Domain.Status.{in_review, same}
use ai_content_operating_sys.Contents.Revisions.{Draws, scoped, snapshot, create_revision}
use ai_content_operating_sys.Contents.Transition.{move_to}
use ai_content_operating_sys.Contents.Reviewing.{
  CreateContentReview, status_after, review_of, record_decision, needs_note, revision_at,
  check_decision, write_decision, decide_review,
}
use ai_content_operating_sys.Contents.Versioning.{
  UniqueIds, Versioned, Versioned-intro, scoped_same, find_content_found,
}
use ai_content_operating_sys.Contents.Moves.{RoleAllows, assert_role_transition_passed}

-- The `where` of a decision: the version that was reviewed, still in review.
abbrev pub reviewed_claim : ℕ → ℕ → ℕ → ℕ → ContentItem → Bool
reviewed_claim workspace_id website_id content_id number r =
    scoped workspace_id website_id content_id r
    && r.version == number
    && same r.editorial_status in_review

module _ (db : Client) (draws : Draws) (actor : AuthContext) (workspace : WorkspaceContext)
    (website_id content_id : ℕ) (input : CreateContentReview) where
  -- What a decision writes.
  pub record Decided (s t : Store) (before item : ContentItem) (review : ContentReview)
      : Type 0 where
    pub reviewed : ContentRevision
    pub was_there : Memᴰ reviewed s.revisions
    pub is_reviewed :
        revision_at workspace.id website_id content_id input.reviewed_revision_number reviewed
        ≡ true
    pub written :
        Versioned
          (reviewed_claim workspace.id website_id content_id input.reviewed_revision_number)
          (move_to (status_after input.decision))
          (snapshot draws.revision_id item actor.user_id (optional_text (optional_text input.note)))
          s
          t
          before
          item
    pub recorded :
        review
        ≡ review_of draws.review_id actor.user_id workspace.id website_id content_id input reviewed
    pub reviews : t.reviews ≡ review ∷ s.reviews
    pub others : t ≡ record s { items = t.items; revisions = t.revisions; reviews = t.reviews }

  abbrev snapshot_of : ContentItem → ContentRevision
  snapshot_of item =
      snapshot draws.revision_id item actor.user_id (optional_text (optional_text input.note))

  -- The rest of the transaction, once the item has been claimed.
  pub write_rest :
      (reviewed : ContentRevision) {u t : Store} {item : ContentItem} {review : ContentReview}
      → record_decision db draws actor workspace.id website_id content_id input reviewed u
        ≡ (ok (item, review), t)
      → Memᴰ item u.items
        × (scoped workspace.id website_id content_id item ≡ true)
        × (review
            ≡ review_of draws.review_id actor.user_id workspace.id website_id content_id input
                reviewed)
        × (any (revision_clash (snapshot_of item)) u.revisions ≡ false)
        × (t
            ≡ record u { reviews = review ∷ u.reviews; revisions = snapshot_of item ∷ u.revisions })
  unfolding record_decision create_revision
  write_rest reviewed {u} {t} {item} {review} h = elim (and_then-Steps _ _ h) [
    | steps item' v e k ↦ elim (and_then-Steps _ _ k) [
      | steps made w d l ↦ elim (and_then-Steps _ _ l) [
        | steps _ x c done ↦
            let (m, here, same₁) = find_first_or_throw_found db content_item _ e in
            let (made_as, same₂, _) = create_done db content_review review_clash _ d in
            let (_, same₃, free) = create_done db content_revision revision_clash _ c in
            let z : ◌≡◌ {A = Result (ContentItem × ContentReview) × Store} (ok (item', made), x)
                (ok (item, review), t) =
              done in
            let p : item' ≡ item = cc in
            let q : made ≡ review = cc in
            let r : x ≡ t = cc in
            let add_revision : Store → Store =
              λ z. record z { revisions = snapshot_of item' ∷ z.revisions } in
            let row =
              review_of draws.review_id actor.user_id workspace.id website_id content_id input
                reviewed in
            let add_review : Store → Store = λ z. record z { reviews = row ∷ z.reviews } in
            let reviewed_store : w ≡ add_review u = same₂ ∙ ap add_review same₁ in
            let whole : x ≡ add_revision (add_review u) = same₃ ∙ ap add_revision reviewed_store in
            rw (← p, ← q, ← r)
              (
                m,
                here,
                made_as,
                rw (same₂, same₁) at free,
                subst
                    (λ z. x ≡ record u {
                      reviews = z ∷ u.reviews;
                      revisions = snapshot_of item' ∷ u.revisions;
                    })
                    (sym made_as) whole,
              )
      ]
    ]
  ]

  write_decision_lem :
      {s t : Store} {item : ContentItem} {review : ContentReview}
      → UniqueIds s.items
      → write_decision db draws actor workspace website_id content_id input s
        ≡ (ok (item, review), t)
      → (before : ContentItem) × Decided s t before item review
  unfolding write_decision
  write_decision_lem {s} {t} {item} {review} unique h =
      elim (and_then-Steps _ _ (commit-eq-ok _ _ h)) [
        | steps found s₁ e₁ h₁ ↦ elim (and_then-Steps _ _ h₁) [
          | steps reviewed s₂ e₂ h₂ ↦ elim (and_then-Steps _ _ h₂) [
            | steps changed s₃ e₃ h₃ ↦ elim (and_then-Steps _ _ h₃) [
              | steps _ s₄ e₄ h₄ ↦
                  let (is_found, q₂) = or_throw_found found _ e₂ in
                  let e₁' : find_first db content_revision
                        (revision_at workspace.id website_id content_id
                          input.reviewed_revision_number)
                        s
                      ≡ (ok (some reviewed), s₁) =
                    rw (← is_found) e₁ in
                  let (there, at_number, q₁) = find_first_found db content_revision _ e₁' in
                  let (counted, q₃) =
                    update_many_done db content_item
                      (reviewed_claim workspace.id website_id content_id
                        input.reviewed_revision_number)
                      (move_to (status_after input.decision)) e₃ in
                  let (one, q₄) = passed _ _ e₄ in
                  let (m, here, made, free, q₅) = write_rest reviewed h₄ in
                  let wrote : s₄ ≡ record s {
                    items =
                        map
                          (update_row
                            (reviewed_claim workspace.id website_id content_id
                              input.reviewed_revision_number)
                            (move_to (status_after input.decision)))
                          s.items;
                  } =
                    q₄ ∙ rw (q₂ ∙ q₁) at q₃ in
                  let (before, v) =
                    Versioned-intro workspace.id website_id content_id
                      (reviewed_claim workspace.id website_id content_id
                        input.reviewed_revision_number)
                      (move_to (status_after input.decision)) (snapshot_of item) {s = s} {t = t}
                      item unique (λ r z. (and-true _ _ (and-true _ _ z).0).0)
                      (sym (rw (q₂ ∙ q₁) at counted) ∙ (==_iff _ _).0 (not-eq-false _ one))
                      (subst (λ x. Memᴰ item x.items) wrote m) here
                      (subst (λ x. any (revision_clash (snapshot_of item)) x.revisions ≡ false)
                        wrote free)
                      (ap (λ x. x.items) q₅ ∙ ap (λ x. x.items) wrote)
                      (ap (λ x. x.revisions) q₅ ∙ ap (λ x. snapshot_of item ∷ x.revisions) wrote) in
                  (
                    before,
                    record {
                      reviewed = reviewed;
                      was_there = there;
                      is_reviewed = at_number;
                      written = v;
                      recorded = made;
                      reviews = ap (λ x. x.reviews) q₅ ∙ ap (λ x. review ∷ x.reviews) wrote;
                      others = rw (q₅, wrote) refl;
                    },
                  )
            ]
          ]
        ]
      ]

  -- A decision that returns was allowed to the role, on an item in review, at the version that was
  -- reviewed, with a note when changes are requested; it left one review of that revision.
  pub decide_review_lem :
      {s t : Store} {item : ContentItem} {review : ContentReview}
      → UniqueIds s.items
      → decide_review db draws actor workspace website_id content_id input s
        ≡ (ok (item, review), t)
      → (before : ContentItem) × Decided s t before item review
        × RoleAllows workspace before.editorial_status (status_after input.decision)
        × (needs_note input.decision ≡ true → is_some review.note ≡ true)
  unfolding decide_review check_decision
  decide_review_lem {s} {t} {item} {review} unique h = elim (and_then-Steps _ _ h) [
    | steps current s₁ e₁ h₁ ↦ elim (and_then-Steps _ _ h₁) [
      | steps _ s₂ e₂ h₂ ↦ elim (and_then-Steps _ _ e₂) [
        | steps _ u₁ c₁ k₁ ↦ elim (and_then-Steps _ _ k₁) [
          | steps _ u₂ c₂ k₂ ↦ elim (and_then-Steps _ _ k₂) [
            | steps _ u₃ c₃ k₃ ↦
                let (m, here, q₁) = find_content_found db workspace.id website_id content_id e₁ in
                let (roles, p₁) = assert_role_transition_passed workspace _ _ c₁ in
                let (_, p₂) = passed _ _ c₂ in
                let (_, p₃) = passed _ _ c₃ in
                let (noted, p₄) = passed _ _ k₃ in
                let same_store : s₂ ≡ s = p₄ ∙ p₃ ∙ p₂ ∙ p₁ ∙ q₁ in
                let (before, d) = write_decision_lem unique (rw same_store at h₂) in
                let q : current ≡ before =
                  scoped_same workspace.id website_id content_id current before unique m
                    d.written.was_there here
                    (and-true _ _ (and-true _ _ d.written.was_claimed).0).0 in
                (
                  before,
                  d,
                  subst (λ x. RoleAllows workspace x.editorial_status (status_after input.decision))
                      q roles,
                  λ need.
                      subst (λ x. is_some x.note ≡ true) (sym d.recorded) (unless _ _ noted need),
                )
          ]
        ]
      ]
    ]
  ]

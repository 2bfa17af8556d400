-- ===== src/Contents/Consistent/Changed.antt =====
-- Consistency of the contents after a versioned write.
use ai_content_operating_sys.Base.{
  ◌+◌, ◌≤◌, ◌≡◌, refl, sym, ap, subst, ◌∙◌, Bool, true, false, Memᴰ, map, arith, ◌⊎◌, inl, inr,
  Bool-cases,
}
use mathlib.Core.List.Memᴰ
use ai_content_operating_sys.Database.Client.{update_row}
use ai_content_operating_sys.Database.ContentRows.{
  ContentItem, ContentRevision, ContentReview, ReviewDecision,
}
use ai_content_operating_sys.Database.Store.{Store}
use ai_content_operating_sys.Database.Laws.{Memᴰ-update_row}
use ai_content_operating_sys.Contents.Domain.Status.{EditorialStatus, draft}
use ai_content_operating_sys.Contents.Domain.Editorial.{
  ◌⟶◌, research, outline, write_idea, write_research, write_outline, submit, approve,
  request_changes, rework, ready, publish, retire,
}
use ai_content_operating_sys.Contents.Transition.{is_review_decision}
use ai_content_operating_sys.Contents.Reviewing.{status_after}
use ai_content_operating_sys.Contents.Versioning.{UniqueIds, Versioned}
use ai_content_operating_sys.Contents.Steps.{
  needs_approval, Captures, EditorialStep, Approval, IsConsistent, edited, moved, decided,
  redrafted,
}

-- The rows after a versioned write: the one that it made, and the others.
module _ {claim : ContentItem → Bool} {change : ContentItem → ContentItem}
    {revision : ContentRevision} {s t : Store} {before after : ContentItem}
    (v : Versioned claim change revision s t before after) where
  rows : {x : ContentItem} → Memᴰ x t.items → (x ≡ after) ⊎ (Memᴰ x s.items × (claim x ≡ false))
  rows {x} m =
      let (r, mr, e) = Memᴰ-update_row claim change s.items (subst (λ z. Memᴰ x z) v.items m) in
      elim (Bool-cases (claim r)) [
        | inl mine ↦
            let q : r ≡ before = v.only r mr mine in
            let e' : x ≡ change r = ground arith in inl (e' ∙ ap change q ∙ sym v.changed)
        | inr foreign ↦
            let e' : x ≡ r = ground arith in
            inr (
              subst (λ z. Memᴰ z s.items) (sym e') mr,
              subst (λ z. claim z ≡ false) (sym e') foreign,
            )
      ]

  -- Another row has another id.
  other_id :
      UniqueIds s.items
      → after.id ≡ before.id
      → {x : ContentItem} → Memᴰ x s.items
      → claim x ≡ false
      → ¬ (x.id ≡ after.id)
  other_id unique kept {x} m foreign e =
      let q : x ≡ before = unique x before m v.was_there (e ∙ kept) in
      let c : claim before ≡ true = v.was_claimed in
      let d : claim before ≡ false = subst (λ z. claim z ≡ false) q foreign in absurd (ground arith)

-- The statuses that take an approval are reached from each other, or by a decision.
ready_before :
    {b a : EditorialStatus}
    → b ⟶ a
    → is_review_decision b a ≡ false
    → needs_approval a ≡ true
    → needs_approval b ≡ true
ready_before research d n = absurd (ground arith)
ready_before outline d n = absurd (ground arith)
ready_before write_idea d n = absurd (ground arith)
ready_before write_research d n = absurd (ground arith)
ready_before write_outline d n = absurd (ground arith)
ready_before submit d n = absurd (ground arith)
ready_before approve d n = absurd (ground arith)
ready_before request_changes d n = absurd (ground arith)
ready_before rework d n = absurd (ground arith)
ready_before ready d n = refl
ready_before publish d n = refl
ready_before (retire ne) d n = absurd (ground arith)

approving :
    (d : ReviewDecision) → needs_approval (status_after d) ≡ true → d ≡ ReviewDecision.approved
approving ReviewDecision.approved n = refl
approving ReviewDecision.changes_requested n = absurd (ground arith)

-- What needed an approval still has it; what needs one now has been approved.
Approval-after :
    {s t : Store} {before after : ContentItem}
    → EditorialStep s t before after
    → after.id ≡ before.id
    → (needs_approval before.editorial_status ≡ true → Approval before s.reviews)
    → needs_approval after.editorial_status ≡ true
    → Approval after t.reviews
Approval-after {s} {t} {before} {after} (edited e q) kept old n =
    let (review, m, about, agreed) = old (subst (λ z. needs_approval z ≡ true) e n) in
    (review, subst (λ z. Memᴰ review z) (sym q) m, about ∙ sym kept, agreed)
Approval-after {s} {t} {before} {after} (moved edge d q) kept old n =
    let (review, m, about, agreed) = old (ready_before edge d n) in
    (review, subst (λ z. Memᴰ review z) (sym q) m, about ∙ sym kept, agreed)
Approval-after {s} {t} {before} {after} (decided review was now about q) kept old n =
    let agreed = approving review.decision (subst (λ z. needs_approval z ≡ true) now n) in
    (review, subst (λ z. Memᴰ review z) (sym q) (Memᴰ.head refl), about ∙ sym kept, agreed)
Approval-after {s} {t} {before} {after} (redrafted e q) kept old n =
    let none : needs_approval draft ≡ true = subst (λ z. needs_approval z ≡ true) e n in
    absurd (ground arith)

-- Reviews are never taken away.
reviews_grow :
    {s t : Store} {before after : ContentItem} {r : ContentReview}
    → EditorialStep s t before after
    → Memᴰ r s.reviews
    → Memᴰ r t.reviews
reviews_grow {r = r} (edited e q) m = subst (λ z. Memᴰ r z) (sym q) m
reviews_grow {r = r} (moved edge d q) m = subst (λ z. Memᴰ r z) (sym q) m
reviews_grow {r = r} (decided review was now about q) m =
    subst (λ z. Memᴰ r z) (sym q) (Memᴰ.tail m)
reviews_grow {r = r} (redrafted e q) m = subst (λ z. Memᴰ r z) (sym q) m

module _ {claim : ContentItem → Bool} {change : ContentItem → ContentItem}
    {revision : ContentRevision} {s t : Store} {before after : ContentItem}
    (v : Versioned claim change revision s t before after) (captures : Captures revision after)
    (kept : after.id ≡ before.id) (grown : after.version ≡ before.version + 1)
    (step : EditorialStep s t before after) (c : IsConsistent s) where
  new_revision : {r : ContentRevision} → Memᴰ r t.revisions → (r ≡ revision) ⊎ Memᴰ r s.revisions
  new_revision {r} m = elim (subst (λ z. Memᴰ r z) v.revisions m) [
    | Memᴰ.head e ↦ inl e
    | Memᴰ.tail old ↦ inr old
  ]

  old_revision : {r : ContentRevision} → Memᴰ r s.revisions → Memᴰ r t.revisions
  old_revision {r} m = subst (λ z. Memᴰ r z) (sym v.revisions) (Memᴰ.tail m)

  item_here : {x : ContentItem} → Memᴰ x s.items → claim x ≡ false → Memᴰ x t.items
  item_here {x} m foreign =
      let moved : Memᴰ (update_row claim change x) (map (update_row claim change) s.items) =
        Memᴰ.map (update_row claim change) m in
      let same : update_row claim change x ≡ x = ground arith in
      subst (λ z. Memᴰ x z) (sym v.items)
        (subst (λ z. Memᴰ z (map (update_row claim change) s.items)) same moved)

  after_here : Memᴰ after t.items
  after_here =
      let moved : Memᴰ (update_row claim change before) (map (update_row claim change) s.items) =
        Memᴰ.map (update_row claim change) v.was_there in
      let e : claim before ≡ true = v.was_claimed in
      let same : update_row claim change before ≡ change before = ground arith in
      subst (λ z. Memᴰ after z) (sym v.items)
        (subst (λ z. Memᴰ z (map (update_row claim change) s.items)) (same ∙ sym v.changed) moved)

  changed_unique : UniqueIds t.items
  changed_unique a b ma mb e = elim (rows v ma) [
    | inl p ↦ elim (rows v mb) [
      | inl q ↦ p ∙ sym q
      | inr (m, foreign) ↦ absurd (other_id v c.unique kept m foreign (sym e ∙ ap (λ z. z.id) p))
    ]
    | inr (m, foreign) ↦ elim (rows v mb) [
      | inl q ↦ absurd (other_id v c.unique kept m foreign (e ∙ ap (λ z. z.id) q))
      | inr (m', foreign') ↦ c.unique a b m m' e
    ]
  ]

  -- The item of an old revision is still there.
  owner_here :
      {r : ContentRevision}
      → Memᴰ r s.revisions
      → (x : ContentItem) × Memᴰ x t.items × (x.id ≡ r.content_item_id)
  owner_here {r} m =
      let (x, mx, e) = c.owned r m in
      elim (Bool-cases (claim x)) [
        | inl mine ↦
            let q : x ≡ before = v.only x mx mine in
            (after, after_here, kept ∙ sym (ap (λ z. z.id) q) ∙ e)
        | inr foreign ↦ (x, item_here mx foreign, e)
      ]

  changed_owned :
      (r : ContentRevision)
      → Memᴰ r t.revisions
      → (x : ContentItem) × Memᴰ x t.items × (x.id ≡ r.content_item_id)
  changed_owned r m = elim (new_revision m) [
    | inl e ↦ (after, after_here, sym (ap (λ z. z.content_item_id) e ∙ captures.of))
    | inr old ↦ owner_here old
  ]

  changed_captured :
      (x : ContentItem) → Memᴰ x t.items → (r : ContentRevision) × Memᴰ r t.revisions × Captures r x
  changed_captured x m = elim (rows v m) [
    | inl e ↦ (
      revision,
      subst (λ z. Memᴰ revision z) (sym v.revisions) (Memᴰ.head refl),
      subst (λ z. Captures revision z) (sym e) captures,
    )
    | inr (old, foreign) ↦ let (r, mr, h) = c.captured x old in (r, old_revision mr, h)
  ]

  -- An old revision of the changed item is not beyond its old version.
  old_bound :
      {r : ContentRevision}
      → Memᴰ r s.revisions
      → after.id ≡ r.content_item_id
      → r.revision_number ≤ after.version
  old_bound {r} m e =
      let h : r.revision_number ≤ before.version =
        c.bounded r before m v.was_there (sym kept ∙ e) in
      omega arith

  changed_bounded :
      (r : ContentRevision) (x : ContentItem)
      → Memᴰ r t.revisions
      → Memᴰ x t.items
      → x.id ≡ r.content_item_id
      → r.revision_number ≤ x.version
  changed_bounded r x mr mx e = elim (rows v mx) [
    | inl p ↦ elim (new_revision mr) [
      | inl q ↦
          let n : r.revision_number ≡ x.version =
            ap (λ z. z.revision_number) q ∙ captures.number ∙ sym (ap (λ z. z.version) p) in
          omega arith
      | inr old ↦
          subst (λ z. r.revision_number ≤ z.version) (sym p)
            (old_bound old (sym (ap (λ z. z.id) p) ∙ e))
    ]
    | inr (mine, foreign) ↦ elim (new_revision mr) [
      | inl q ↦
          absurd (
            other_id v c.unique kept mine foreign (e ∙ ap (λ z. z.content_item_id) q ∙ captures.of))
      | inr old ↦ c.bounded r x old mine e
    ]
  ]

  changed_approved :
      (x : ContentItem)
      → Memᴰ x t.items
      → needs_approval x.editorial_status ≡ true
      → Approval x t.reviews
  changed_approved x m n = elim (rows v m) [
    | inl e ↦
        subst (λ z. Approval z t.reviews) (sym e)
          (Approval-after step kept (c.approved before v.was_there)
            (subst (λ z. needs_approval z.editorial_status ≡ true) e n))
    | inr (old, foreign) ↦
        let (review, mr, about, agreed) = c.approved x old n in
        (review, reviews_grow step mr, about, agreed)
  ]

  pub changed-IsConsistent : IsConsistent t
  changed-IsConsistent = record {
    unique = changed_unique;
    captured = changed_captured;
    owned = changed_owned;
    bounded = changed_bounded;
    approved = changed_approved;
  }

-- ===== src/Contents/Consistent.antt =====
-- Consistency of the contents under an abstract change.
pub mod Changed
pub mod Created
use ai_content_operating_sys.Base.{
  ◌+◌, ◌≤◌, ◌≡◌, refl, sym, ap, subst, ◌∙◌, Bool, true, false, List, [], ◌∷◌, any, Memᴰ, map, arith,
  ◌⊎◌, inl, inr, Bool-cases,
}
use mathlib.Core.List.Memᴰ
use ai_content_operating_sys.Database.Client.{update_row}
use ai_content_operating_sys.Database.ContentRows.{
  ContentItem, ContentRevision, ContentReview, ReviewDecision, item_clash,
}
use ai_content_operating_sys.Database.Store.{Store}
use ai_content_operating_sys.Database.Laws.{Memᴰ-update_row}
use ai_content_operating_sys.Contents.Domain.Status.{EditorialStatus, draft}
use ai_content_operating_sys.Contents.Domain.Editorial.{
  ◌⟶◌, research, outline, write_idea, write_research, write_outline, submit, approve,
  request_changes, rework, ready, publish, retire,
}
use ai_content_operating_sys.Contents.Transition.{is_review_decision}
use ai_content_operating_sys.Contents.Reviewing.{status_after}
use ai_content_operating_sys.Contents.Versioning.{UniqueIds, Versioned}
use ai_content_operating_sys.Contents.Steps.{
  needs_approval, Captures, EditorialStep, ContentStep, Approval, IsConsistent, edited, moved,
  decided, redrafted, unchanged, created, changed,
}
use ai_content_operating_sys.Contents.Consistent.Changed.{changed-IsConsistent}
use ai_content_operating_sys.Contents.Consistent.Created.{created-IsConsistent}

unchanged-IsConsistent :
    {s t : Store}
    → t.items ≡ s.items
    → t.revisions ≡ s.revisions
    → t.reviews ≡ s.reviews
    → IsConsistent s
    → IsConsistent t
unchanged-IsConsistent {s} {t} p q r c = record {
  unique = subst UniqueIds (sym p) c.unique;
  captured = λ x m.
      let (w, mw, h) = c.captured x (subst (λ z. Memᴰ x z) p m) in
      (w, subst (λ z. Memᴰ w z) (sym q) mw, h);
  owned = λ w m.
      let (x, mx, e) = c.owned w (subst (λ z. Memᴰ w z) q m) in
      (x, subst (λ z. Memᴰ x z) (sym p) mx, e);
  bounded =
      λ w x mw mx e. c.bounded w x (subst (λ z. Memᴰ w z) q mw) (subst (λ z. Memᴰ x z) p mx) e;
  approved = λ x m n. subst (Approval x) (sym r) (c.approved x (subst (λ z. Memᴰ x z) p m) n);
}

-- A change of the contents keeps them consistent.
pub ContentStep-IsConsistent : {s t : Store} → ContentStep s t → IsConsistent s → IsConsistent t
ContentStep-IsConsistent (unchanged p q r) c = unchanged-IsConsistent p q r c
ContentStep-IsConsistent {s} {t} (created item revision p free q captures early r) c =
    created-IsConsistent s t item revision p free q captures early r c
ContentStep-IsConsistent (changed claim change revision before after v captures kept grown step) c =
    changed-IsConsistent v captures kept grown step c

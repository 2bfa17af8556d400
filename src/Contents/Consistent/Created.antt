-- ===== src/Contents/Consistent/Created.antt =====
-- Consistency of the contents after a creation.
use ai_content_operating_sys.Base.{
  ◌≤◌, ◌≡◌, refl, sym, ap, subst, ◌∙◌, Bool, true, false, List, [], ◌∷◌, any, Memᴰ, arith, ◌⊎◌, inl,
  inr,
}
use mathlib.Core.List.Memᴰ
use ai_content_operating_sys.Database.ContentRows.{ContentItem, ContentRevision, item_clash}
use ai_content_operating_sys.Database.Store.{Store}
use ai_content_operating_sys.Contents.Versioning.{UniqueIds}
use ai_content_operating_sys.Contents.Steps.{needs_approval, Captures, Approval, IsConsistent}

any-false-Memᴰ :
    {A : Type 0} (p : A → Bool) (t : List A) {x : A} → any p t ≡ false → Memᴰ x t → p x ≡ false
any-false-Memᴰ p [] h m = elim m [ ]
any-false-Memᴰ p (y ∷ ys) h (Memᴰ.head e) = rw e (ground arith)
any-false-Memᴰ p (y ∷ ys) h (Memᴰ.tail m) = any-false-Memᴰ p ys (ground arith) m

fresh-id :
    (item other : ContentItem) (items : List ContentItem)
    → any (item_clash item) items ≡ false
    → Memᴰ other items
    → ¬ (item.id ≡ other.id)
fresh-id item other items free m e =
    let none_here : item_clash item other ≡ false = any-false-Memᴰ (item_clash item) items free m in
    ground arith

module _ (s t : Store) (item : ContentItem) (revision : ContentRevision)
    (items : t.items ≡ item ∷ s.items) (free : any (item_clash item) s.items ≡ false)
    (revisions : t.revisions ≡ revision ∷ s.revisions) (captures : Captures revision item)
    (early : needs_approval item.editorial_status ≡ false) (reviews : t.reviews ≡ s.reviews)
    (c : IsConsistent s) where
  one_item : {x : ContentItem} → Memᴰ x t.items → (x ≡ item) ⊎ Memᴰ x s.items
  one_item {x} m = Memᴰ.cases_cons (subst (λ z. Memᴰ x z) items m)

  one_revision : {r : ContentRevision} → Memᴰ r t.revisions → (r ≡ revision) ⊎ Memᴰ r s.revisions
  one_revision {r} m = Memᴰ.cases_cons (subst (λ z. Memᴰ r z) revisions m)

  -- No revision is older than its item.
  unborn : {r : ContentRevision} → Memᴰ r s.revisions → ¬ (item.id ≡ r.content_item_id)
  unborn {r} m e = let (x, mx, q) = c.owned r m in fresh-id item x s.items free mx (e ∙ sym q)

  created_unique : UniqueIds t.items
  created_unique a b ma mb e = elim (one_item ma) [
    | inl p ↦ elim (one_item mb) [
      | inl q ↦ p ∙ sym q
      | inr m ↦ absurd (fresh-id item b s.items free m (sym (ap (λ z. z.id) p) ∙ e))
    ]
    | inr m ↦ elim (one_item mb) [
      | inl q ↦ absurd (fresh-id item a s.items free m (sym (ap (λ z. z.id) q) ∙ sym e))
      | inr m' ↦ c.unique a b m m' e
    ]
  ]

  created_bounded :
      (r : ContentRevision) (x : ContentItem)
      → Memᴰ r t.revisions
      → Memᴰ x t.items
      → x.id ≡ r.content_item_id
      → r.revision_number ≤ x.version
  created_bounded r x mr mx e = elim (one_item mx) [
    | inl p ↦ elim (one_revision mr) [
      | inl q ↦
          let n : r.revision_number ≡ x.version =
            ap (λ z. z.revision_number) q ∙ captures.number ∙ sym (ap (λ z. z.version) p) in
          omega arith
      | inr old ↦ absurd (unborn old (sym (ap (λ z. z.id) p) ∙ e))
    ]
    | inr mine ↦ elim (one_revision mr) [
      | inl q ↦ absurd (
          fresh-id item x s.items free mine (sym (e ∙ ap (λ z. z.content_item_id) q ∙ captures.of)))
      | inr old ↦ c.bounded r x old mine e
    ]
  ]

  created_approved :
      (x : ContentItem)
      → Memᴰ x t.items
      → needs_approval x.editorial_status ≡ true
      → Approval x t.reviews
  created_approved x m n = elim (one_item m) [
    | inl e ↦
        let n' : needs_approval item.editorial_status ≡ true =
          subst (λ z. needs_approval z.editorial_status ≡ true) e n in
        absurd (ground arith)
    | inr old ↦ subst (Approval x) (sym reviews) (c.approved x old n)
  ]

  pub created-IsConsistent : IsConsistent t
  created-IsConsistent = record {
    unique = created_unique;
    captured = λ x m. elim (one_item m) [
      | inl e ↦ (
        revision,
        subst (λ z. Memᴰ revision z) (sym revisions) (Memᴰ.head refl),
        subst (λ z. Captures revision z) (sym e) captures,
      )
      | inr old ↦
          let (r, mr, h) = c.captured x old in
          (r, subst (λ z. Memᴰ r z) (sym revisions) (Memᴰ.tail mr), h)
    ];
    owned = λ r m. elim (one_revision m) [
      | inl e ↦ (
        item,
        subst (λ z. Memᴰ item z) (sym items) (Memᴰ.head refl),
        sym (ap (λ z. z.content_item_id) e ∙ captures.of),
      )
      | inr old ↦
          let (x, mx, e) = c.owned r old in (x, subst (λ z. Memᴰ x z) (sym items) (Memᴰ.tail mx), e)
    ];
    bounded = created_bounded;
    approved = created_approved;
  }

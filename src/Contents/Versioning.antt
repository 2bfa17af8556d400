-- ===== src/Contents/Versioning.antt =====
-- What a versioned write does (`updateWithRevision` of contents.service.ts).
use ai_content_operating_sys.Base.{
  ℕ, ◌≡◌, refl, sym, ap, ◌∙◌, Bool, true, false, ◌&&◌, List, [], ◌∷◌, map, Option, none, ◌==◌, any,
  count, and-true, subst, ==_iff, arith, Memᴰ, Bool-cases, inl, inr,
}
use ai_content_operating_sys.Errors.{
  ok, err, Failure, pure, ◌>>=◌, and_then, steps, and_then-Steps, failed, commit-eq-ok,
  commit-eq-err,
}
use ai_content_operating_sys.Text.{Text, optional_text}
use ai_content_operating_sys.Audit.{SameData}
use ai_content_operating_sys.Database.Client.{Client, update_row}
use ai_content_operating_sys.Database.ContentRows.{ContentItem, ContentRevision, revision_clash}
use ai_content_operating_sys.Database.Store.{
  Store, content_item, content_revision, find_first_or_throw,
}
use ai_content_operating_sys.Database.Laws.{
  Memᴰ-update_row, find_first_or_throw_found, update_many_done, create_done,
}
use ai_content_operating_sys.Contents.Revisions.{
  Draws, scoped, snapshot, find_content, create_revision, update_with_revision,
}

-- The primary key: one row for an id.
abbrev pub UniqueIds : List ContentItem → Type 0
UniqueIds items = (a b : ContentItem) → Memᴰ a items → Memᴰ b items → a.id ≡ b.id → a ≡ b

-- The `where` of the write.
abbrev pub claimed : ℕ → ℕ → ℕ → ℕ → ContentItem → Bool
claimed workspace_id website_id content_id version r =
    scoped workspace_id website_id content_id r && r.version == version

-- The abstract effect of a write that turns `before` into `after`: no other row of the table is
-- touched, and one revision, a copy of `after`, is added.
pub record Versioned (claim : ContentItem → Bool) (change : ContentItem → ContentItem)
    (revision : ContentRevision) (s t : Store) (before after : ContentItem) : Type 0 where
  pub was_there : Memᴰ before s.items
  pub was_claimed : claim before ≡ true
  pub changed : after ≡ change before
  pub only : (r : ContentItem) → Memᴰ r s.items → claim r ≡ true → r ≡ before
  pub free : any (revision_clash revision) s.revisions ≡ false
  pub items : t.items ≡ map (update_row claim change) s.items
  pub revisions : t.revisions ≡ revision ∷ s.revisions

-- What is audited afterwards does not matter.
pub Versioned-SameData :
    {claim : ContentItem → Bool} {change : ContentItem → ContentItem} {revision : ContentRevision}
    {s t u : Store} {before after : ContentItem}
    → Versioned claim change revision s t before after
    → SameData t u
    → Versioned claim change revision s u before after
Versioned-SameData v same = record {
  was_there = v.was_there;
  was_claimed = v.was_claimed;
  changed = v.changed;
  only = v.only;
  free = v.free;
  items = ap (λ x. x.items) same.others ∙ v.items;
  revisions = ap (λ x. x.revisions) same.others ∙ v.revisions;
}

-- Only the content items, their revisions and the audit log differ.
pub record SameBesidesContent (s t : Store) : Type 0 where
  pub others : t ≡ record s { items = t.items; revisions = t.revisions; audit_logs = t.audit_logs }

pub audited_write :
    {s t u : Store}
    → t ≡ record s { items = t.items; revisions = t.revisions }
    → SameData t u
    → SameBesidesContent s u
audited_write {s} {t} {u} p q =
    let audited : Store → Store = λ x. record x { audit_logs = u.audit_logs } in
    let written : Store → Store =
      λ x. record s { items = x.items; revisions = x.revisions; audit_logs = u.audit_logs } in
    let e₁ : audited t ≡ written t = ap audited p in
    let e₂ : written u ≡ written t = ap written q.others in
    record { others = q.others ∙ e₁ ∙ sym e₂ }

-- Exactly one row counted: it is there.
count_one :
    {Row : Type 0} (p : Row → Bool) (t : List Row)
    → count p t ≡ 1
    → (r : Row) × Memᴰ r t × (p r ≡ true)
count_one p [] h = absurd (omega arith)
count_one p (x ∷ t) h = elim (Bool-cases (p x)) [
  | inl here ↦ (x, Memᴰ.head refl, here)
  | inr later ↦ let (r, m, q) = count_one p t (ground arith) in (r, Memᴰ.tail m, q)
]

module _ (workspace_id website_id content_id : ℕ) where
  pub scoped-id :
      (r : ContentItem) → scoped workspace_id website_id content_id r ≡ true → r.id ≡ content_id
  scoped-id r h = ground arith

  pub scoped_same :
      {items : List ContentItem} (a b : ContentItem)
      → UniqueIds items
      → Memᴰ a items
      → Memᴰ b items
      → scoped workspace_id website_id content_id a ≡ true
      → scoped workspace_id website_id content_id b ≡ true
      → a ≡ b
  scoped_same a b unique ma mb ha hb = unique a b ma mb (scoped-id a ha ∙ sym (scoped-id b hb))

  -- The row that is read back after a write to one claimed row is that row, changed.
  pub read_back :
      (claim : ContentItem → Bool) (change : ContentItem → ContentItem) (items : List ContentItem)
      (after : ContentItem)
      → UniqueIds items
      → ((r : ContentItem) → claim r ≡ true → scoped workspace_id website_id content_id r ≡ true)
      → count claim items ≡ 1
      → Memᴰ after (map (update_row claim change) items)
      → scoped workspace_id website_id content_id after ≡ true
      → (before : ContentItem) × Memᴰ before items × (claim before ≡ true) × (after ≡ change before)
  read_back claim change items after unique in_scope one m h =
      let (b, mb, cb) = count_one claim items one in
      let (r, mr, e) = Memᴰ-update_row claim change items m in
      elim (Bool-cases (claim r)) [
        | inl mine ↦ (r, mr, mine, ground arith)
        | inr foreign ↦
            let same : after ≡ r = ground arith in
            let e' : r ≡ b = scoped_same r b unique mr mb (rw (← same) h) (in_scope b cb) in
            absurd (ground arith)
      ]

  pub Versioned-intro :
      (claim : ContentItem → Bool) (change : ContentItem → ContentItem) (revision : ContentRevision)
      {s t : Store} (after : ContentItem)
      → UniqueIds s.items
      → ((r : ContentItem) → claim r ≡ true → scoped workspace_id website_id content_id r ≡ true)
      → count claim s.items ≡ 1
      → Memᴰ after (map (update_row claim change) s.items)
      → scoped workspace_id website_id content_id after ≡ true
      → any (revision_clash revision) s.revisions ≡ false
      → t.items ≡ map (update_row claim change) s.items
      → t.revisions ≡ revision ∷ s.revisions
      → (before : ContentItem) × Versioned claim change revision s t before after
  Versioned-intro claim change revision {s} {t} after unique sub one m here free items revisions =
      let (before, mb, cb, e) = read_back claim change s.items after unique sub one m here in
      (
        before,
        record {
          was_there = mb;
          was_claimed = cb;
          changed = e;
          only = λ r mr q. scoped_same r before unique mr mb (sub r q) (sub before cb);
          free = free;
          items = items;
          revisions = revisions;
        },
      )

module _ (db : Client) (workspace_id website_id content_id : ℕ) where
  pub find_content_found :
      {s u : Store} {item : ContentItem}
      → find_content db workspace_id website_id content_id s ≡ (ok item, u)
      → Memᴰ item s.items × (scoped workspace_id website_id content_id item ≡ true) × (u ≡ s)
  unfolding find_content and_then
  find_content_found {s} {u} {item} h =
      let (m, q) =
        db.find_first-some (scoped workspace_id website_id content_id) s.items item
          (ground arith) in
      (m, q, ground arith)

module _ (db : Client) (draws : Draws) (workspace_id website_id content_id : ℕ) where
  -- The rest of the write, once one row has been claimed: it is read back and recorded.
  read_and_record :
      (by : ℕ) (reason : Option Text) {u t : Store} {after : ContentItem}
      → and_then
          (λ updated. create_revision db draws updated by reason none >>= λ _. pure updated)
          (find_first_or_throw db content_item (scoped workspace_id website_id content_id) u)
        ≡ (ok after, t)
      → Memᴰ after u.items
        × (scoped workspace_id website_id content_id after ≡ true)
        × (t ≡ record u {
          revisions = snapshot draws.revision_id after by (optional_text reason) ∷ u.revisions;
        })
        × (any
              (revision_clash (snapshot draws.revision_id after by (optional_text reason)))
              u.revisions
            ≡ false)
  unfolding create_revision
  read_and_record by reason {u} {t} {after} h = elim (and_then-Steps _ _ h) [
    | steps found v e k ↦ elim (and_then-Steps _ _ k) [
      | steps revision w d done ↦
          let (m, here, same) = find_first_or_throw_found db content_item _ e in
          let (_, grown, free) = create_done db content_revision revision_clash _ d in
          let p : found ≡ after = cc in
          let q : w ≡ t = cc in rw (← p, ← q) (m, here, rw same at grown, rw same at free)
    ]
  ]

  module _ (number : ℕ) (change : ContentItem → ContentItem) (by : ℕ) (reason : Option Text) where
    -- A versioned write that returns has changed one row, at the expected version, and no other.
    pub update_with_revision-Versioned :
        {s t : Store} {after : ContentItem}
        → UniqueIds s.items
        → update_with_revision db draws workspace_id website_id content_id number change by reason s
          ≡ (ok after, t)
        → (before : ContentItem) × Versioned
            (claimed workspace_id website_id content_id number)
            change
            (snapshot draws.revision_id after by (optional_text reason))
            s
            t
            before
            after
          × (t ≡ record s { items = t.items; revisions = t.revisions })
    unfolding update_with_revision
    update_with_revision-Versioned {s} {t} {after} unique h =
        elim (and_then-Steps _ _ (commit-eq-ok _ _ h)) [
          | steps changed u e k ↦
              let (counted, wrote) =
                update_many_done db content_item (claimed workspace_id website_id content_id number)
                  change e in
              elim (Bool-cases (changed == 1)) [
                | inl one ↦
                    let revision = snapshot draws.revision_id after by (optional_text reason) in
                    let (m, in_scope, grown, free) = read_and_record by reason (rw one at k) in
                    let (before, v) =
                      Versioned-intro workspace_id website_id content_id
                        (claimed workspace_id website_id content_id number) change revision {s = s}
                        {t = t} after unique (λ r q. (and-true _ _ q).0)
                        (sym counted ∙ (==_iff _ _).0 one) (subst (λ x. Memᴰ after x.items) wrote m)
                        in_scope
                        (subst (λ x. any (revision_clash revision) x.revisions ≡ false) wrote free)
                        (ap (λ x. x.items) grown ∙ ap (λ x. x.items) wrote)
                        (ap (λ x. x.revisions) grown ∙ ap (λ x. revision ∷ x.revisions) wrote) in
                    (before, v, rw (grown, wrote) refl)
                | inr other ↦ elim (and_then-Steps _ _ (rw other at k)) [
                  | steps exists v d done ↦ absurd (failed _ done)
                ]
              ]
        ]

    -- One that throws has written nothing.
    pub update_with_revision_rollback :
        {s t : Store} {e : Failure}
        → update_with_revision db draws workspace_id website_id content_id number change by reason s
          ≡ (err e, t)
        → t ≡ s
    unfolding update_with_revision
    update_with_revision_rollback h = commit-eq-err _ _ h

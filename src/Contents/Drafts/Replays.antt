-- ===== src/Contents/Drafts/Replays.antt =====
-- A draft that had been applied before, which leaves the contents alone.
use ai_content_operating_sys.Base.{
  arith, refl, ℕ, ◌≡◌, sym, ap, ◌∙◌, Bool, true, false, ◌∷◌, map, count, ◌≤◌, ◌⊎◌, Option, none,
  some, any, ◌==◌, Memᴰ, subst, inl, inr, Bool-cases,
}
use ai_content_operating_sys.Audit.{SameData}
use ai_content_operating_sys.Database.Client.{update_row}
use ai_content_operating_sys.Database.ContentRows.{
  ContentItem, ContentRevision, AiGenerationCandidate, revision_clash,
}
use ai_content_operating_sys.Database.Store.{Store}
use ai_content_operating_sys.Contents.Versioning.{Versioned}
use ai_content_operating_sys.Contents.Applying.{replay, replay_of, is_applied, AppliedRevision}

-- Only other tables than the contents differ.
pub record SameContents (s t : Store) : Type 0 where
  pub items : t.items ≡ s.items
  pub revisions : t.revisions ≡ s.revisions
  pub reviews : t.reviews ≡ s.reviews

pub SameContents-eq : {s t : Store} → t ≡ s → SameContents s t
SameContents-eq e = record {
  items = ap (λ x. x.items) e;
  revisions = ap (λ x. x.revisions) e;
  reviews = ap (λ x. x.reviews) e;
}

-- A write after a change of other tables.
pub claimed_before :
    {claim : ContentItem → Bool} {change : ContentItem → ContentItem} {revision : ContentRevision}
    {s t u : Store} {before after : ContentItem}
    → SameContents s u
    → Versioned claim change revision u t before after
    → Versioned claim change revision s t before after
claimed_before {claim} {change} {revision} {s} {t} {u} {before} {after} c v = record {
  was_there = subst (λ z. Memᴰ before z) c.items v.was_there;
  was_claimed = v.was_claimed;
  changed = v.changed;
  only = λ r m. v.only r (subst (λ z. Memᴰ r z) (sym c.items) m);
  free = subst (λ z. any (revision_clash revision) z ≡ false) c.revisions v.free;
  items = v.items ∙ ap (map (update_row claim change)) c.items;
  revisions = v.revisions ∙ ap (λ z. revision ∷ z) c.revisions;
}

-- A draft that was applied before, at the revision that is answered; the contents and the drafts are
-- as they were, but for drafts that share their id.
pub record Replayed (id : ℕ) (s t : Store) (number : Option ℕ) : Type 0 where
  pub same_contents : SameContents s t
  pub taken : AiGenerationCandidate
  pub taken_there : Memᴰ taken t.candidates
  pub is_taken : taken.id ≡ id
  pub was_applied : is_applied taken.status ≡ true
  pub numbered : number ≡ taken.applied_revision_number
  pub drafts : (t.candidates ≡ s.candidates) ⊎ (2 ≤ count (λ x. x.id == id) s.candidates)

replay_of_found :
    (a b : Option ℕ) (r : AppliedRevision) → replay_of a b ≡ some r → a ≡ some r.revision_number
replay_of_found none b r h = absurd (ground arith)
replay_of_found (some n) none r h = absurd (ground arith)
replay_of_found (some n) (some run) r h = elim (Bool-cases (n == 0)) [
  | inl z ↦
      let h' : ◌≡◌ {A = Option AppliedRevision} none (some r) = rw z at h in absurd (ground arith)
  | inr z ↦
      let h' : ◌≡◌ {A = Option AppliedRevision}
          (some (record { revision_number = n; ai_run_id = run; replayed = true })) (some r) =
        rw z at h in
      let q : record { revision_number = n; ai_run_id = run; replayed = true } ≡ r = cc in
      ap (λ (x : AppliedRevision). some x.revision_number) q
]

pub replay_found :
    (o : Option AiGenerationCandidate) (r : AppliedRevision)
    → replay o ≡ some r
    → (x : AiGenerationCandidate) × (o ≡ some x)
      × (is_applied x.status ≡ true)
      × (x.applied_revision_number ≡ some r.revision_number)
replay_found none r h = absurd (ground arith)
replay_found (some x) r h = elim (Bool-cases (is_applied x.status)) [
  | inl a ↦ (x, refl, a, replay_of_found x.applied_revision_number x.ai_run_id r (rw a at h))
  | inr a ↦
      let h' : ◌≡◌ {A = Option AppliedRevision} none (some r) = rw a at h in absurd (ground arith)
]

pub SameContents-audited : {s t u : Store} → SameContents s t → SameData t u → SameContents s u
SameContents-audited c q = record {
  items = ap (λ x. x.items) q.others ∙ c.items;
  revisions = ap (λ x. x.revisions) q.others ∙ c.revisions;
  reviews = ap (λ x. x.reviews) q.others ∙ c.reviews;
}

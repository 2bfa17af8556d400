-- ===== src/Contents/Drafts.antt =====
-- What accepting an AI draft does (`applyAiGenerationCandidate`).
pub mod Fields
pub mod Replays
pub mod Writing
use ai_content_operating_sys.Database.Reads.{find_first-Reads}
use ai_content_operating_sys.Base.{
  arith, count, ◌≤◌, not-eq-false, ℕ, ◌≡◌, sym, ap, ◌∙◌, Bool, true, false, ◌&&◌, ◌∷◌, map, Option,
  some, any, ◌==◌, ==_iff, Memᴰ, subst, and-true, ◌⊎◌, inl, inr, Bool-cases,
}
use ai_content_operating_sys.Errors.{
  ok_injective, Result, ok, steps, and_then-Steps, passed, commit-eq-ok, catch-cases,
  or_throw_found,
}
use ai_content_operating_sys.Errors.Atomic.{read_only, then-Atomic, pure-NeverThrows}
use ai_content_operating_sys.Text.{optional_text}
use ai_content_operating_sys.Audit.{SameData, Quiet, pure-Quiet, then_Quiet, finished}
use ai_content_operating_sys.Auth.Types.{AuthContext, WorkspaceContext}
use ai_content_operating_sys.Database.Client.{Client, update_row}
use ai_content_operating_sys.Database.ContentRows.{
  ContentItem, ContentRevision, AiGenerationCandidate, ContentProfile, ai_generated, revision_clash,
}
use ai_content_operating_sys.Database.Store.{
  Store, content_item, content_revision, ai_generation_candidate, content_profile, find_first,
}
use ai_content_operating_sys.Database.Laws.{
  find_first_found, find_first_or_throw_found, update_many_done, create_done,
}
use ai_content_operating_sys.Contents.Domain.Status.{archived, same}
use ai_content_operating_sys.Contents.Domain.Html.{HtmlLibrary}
use ai_content_operating_sys.Contents.Revisions.{
  is_usable, Draws, snapshot, with_provenance, create_revision,
}
use ai_content_operating_sys.Contents.Versioning.{
  UniqueIds, claimed, Versioned, Versioned-intro, Versioned-SameData, find_content_found,
  scoped_same,
}
use ai_content_operating_sys.Contents.Edits.Checks.{audit_content-Quiet}
use ai_content_operating_sys.Contents.Applying.{
  usable_draft, draft_fields, already_applied, DraftFields, UsableDraft, AppliedRevision,
  AiGenerationApplyResult, is_applied, is_ready, candidate_at, apply_candidate, acceptance,
  fill_from_draft, write_draft, claim_and_write, audit_applied, apply_fields,
  apply_ai_generation_candidate, check_candidate,
}
use ai_content_operating_sys.Contents.Rollback.Checks.{then_NeverThrows}
use ai_content_operating_sys.Contents.Rollback.Drafts.{
  read_replay-Reads, recover-Reads, check_candidate-Reads, draft_fields-Reads,
  claim_and_write-Atomic, audit_applied-NeverThrows,
}
use ai_content_operating_sys.Contents.Drafts.Fields.{Offered, draft_fields-Offered}
use ai_content_operating_sys.Contents.Drafts.Replays.{
  Replayed, SameContents, SameContents-eq, claimed_before, SameContents-audited,
}
use ai_content_operating_sys.Contents.Drafts.Writing.{
  taken_after, draft_revision, Drafted, write_draft_lem, Outcome, Outcome-audited,
  claim_and_write_lem, audit_applied-Quiet, apply_fields_lem, replayed, redrafted,
}

module _ (db : Client) (lib : HtmlLibrary) (draws : Draws) (actor : AuthContext)
    (workspace : WorkspaceContext) (website_id content_id candidate_id : ℕ) where
  -- An accepted draft was ready, and of the item's current version, which is not archived; the item got
  -- the fields that the validators returned for it, and the draft is applied from then on.
  pub record Accepted (s t : Store) (number : Option ℕ) : Type 0 where
    pub candidate : AiGenerationCandidate
    pub offer : UsableDraft
    pub profile : ContentProfile
    pub fields : DraftFields
    pub before : ContentItem
    pub after : ContentItem
    pub there : Memᴰ candidate s.candidates
    pub about : candidate_at workspace.id website_id content_id candidate_id candidate ≡ true
    pub was_ready : is_ready candidate.status ≡ true
    pub not_archived : same before.editorial_status archived ≡ false
    pub is_offer : usable_draft candidate ≡ some offer
    pub profile_there : Memᴰ profile s.profiles
    pub profile_of : profile.id ≡ candidate.content_profile_id
    pub profile_usable : is_usable profile.status ≡ true
    pub offered : Offered lib candidate offer profile before s fields
    pub drafted :
        Drafted db lib draws actor workspace.id website_id content_id candidate offer.ai_run_id
          fields s t before after
    pub candidates :
        t.candidates
        ≡ taken_after db lib draws actor workspace.id website_id content_id candidate s.candidates
    pub numbered : number ≡ some after.version

  candidate_id_of :
      (x : AiGenerationCandidate)
      → candidate_at workspace.id website_id content_id candidate_id x ≡ true
      → x.id ≡ candidate_id
  candidate_id_of x h = ground arith

  number_of :
      (a b : AiGenerationApplyResult)
      → ◌≡◌ {A = Result AiGenerationApplyResult} (ok a) (ok b)
      → a.revision_number ≡ b.revision_number
  number_of a b h = let e : a ≡ b = cc in ap (λ z. z.revision_number) e

  same_pair :
      {A B : Type 0} (a : A) (b : B) (r : A × B)
      → ◌≡◌ {A = Result (A × B)} (ok (a, b)) (ok r)
      → (a ≡ r.0) × (b ≡ r.1)
  same_pair a b r h = let e = ok_injective _ _ h in (ap (λ z. z.0) e, ap (λ z. z.1) e)

  check_candidate_done :
      (candidate : AiGenerationCandidate) (profile : Option ContentProfile) {s t : Store}
      {r : UsableDraft × ContentProfile}
      → check_candidate candidate profile s ≡ (ok r, t)
      → (is_ready candidate.status ≡ true)
        × (usable_draft candidate ≡ some r.0)
        × (profile ≡ some r.1)
        × (is_usable r.1.status ≡ true)
        × (t ≡ s)
  unfolding check_candidate
  check_candidate_done candidate profile {r = r} h =
      let q = read_only _ (check_candidate-Reads db lib draws candidate profile) h in
      elim (and_then-Steps _ _ h) [
        | steps _ s₁ e₁ h₁ ↦ elim (and_then-Steps _ _ h₁) [
          | steps offer s₂ e₂ h₂ ↦ elim (and_then-Steps _ _ h₂) [
            | steps active s₃ e₃ h₃ ↦ elim (and_then-Steps _ _ h₃) [
              | steps _ s₄ e₄ h₄ ↦
                  let (can_apply, _) = passed _ _ e₁ in
                  let (is_offer, _) = or_throw_found (usable_draft candidate) _ e₂ in
                  let (is_active, _) = or_throw_found profile _ e₃ in
                  let (usable, _) = passed _ _ e₄ in
                  let (same_offer, same_active) = same_pair offer active r (ap (λ z. z.0) h₄) in
                  (
                    not-eq-false _ can_apply,
                    is_offer ∙ ap some same_offer,
                    is_active ∙ ap some same_active,
                    subst (λ z. is_usable z.status ≡ true) same_active (not-eq-false _ usable),
                    q,
                  )
            ]
          ]
        ]
      ]

  pub either_way :
      {s t : Store} {result : AiGenerationApplyResult}
      → UniqueIds s.items
      → apply_ai_generation_candidate db lib draws actor workspace website_id content_id
          candidate_id s
        ≡ (ok result, t)
      → Replayed candidate_id s t result.revision_number ⊎ Accepted s t result.revision_number
  unfolding apply_ai_generation_candidate
  either_way {s} {t} {result} unique h = elim (and_then-Steps _ _ h) [
    | steps found s₁ e₁ h₁ ↦ elim (and_then-Steps _ _ h₁) [
      | steps candidate s₂ e₂ h₂ ↦
          let (is_found, q₂) = or_throw_found found _ e₂ in
          let e₁' : find_first db ai_generation_candidate
                (candidate_at workspace.id website_id content_id candidate_id) s
              ≡ (ok (some candidate), s₁) =
            rw (← is_found) e₁ in
          let (there, about, q₁) = find_first_found db ai_generation_candidate _ e₁' in
          elim (Bool-cases (is_applied candidate.status)) [
            | inl before ↦
                let k = rw before at h₂ in
                let same : t ≡ s = sym (ap (λ z. z.1) k) ∙ q₂ ∙ q₁ in
                inl (record {
                  same_contents = SameContents-eq same;
                  taken = candidate;
                  taken_there = subst (λ z. Memᴰ candidate z.candidates) (sym same) there;
                  is_taken = candidate_id_of candidate about;
                  was_applied = before;
                  drafts = inl (ap (λ z. z.candidates) same);
                  numbered =
                      sym
                        (number_of (already_applied content_id candidate) result (ap (λ z. z.0) k));
                })
            | inr fresh ↦ elim (and_then-Steps _ _ (rw fresh at h₂)) [
              | steps profile s₃ e₃ h₃ ↦ elim (and_then-Steps _ _ h₃) [
                | steps checked s₄ e₄ h₄ ↦ elim (and_then-Steps _ _ h₄) [
                  | steps current s₅ e₅ h₅ ↦ elim (and_then-Steps _ _ h₅) [
                    | steps _ s₆ e₆ h₆ ↦ elim (and_then-Steps _ _ h₆) [
                      | steps _ s₇ e₇ h₇ ↦ elim (and_then-Steps _ _ h₇) [
                        | steps fields s₈ e₈ h₈ ↦ elim (and_then-Steps _ _ h₈) [
                          | steps done s₉ e₉ h₉ ↦
                              let q₃ = read_only _ (find_first-Reads db content_profile _) e₃ in
                              let (can_apply, is_offer, is_profile, usable, q₄) =
                                check_candidate_done candidate profile e₄ in
                              let e₃' : find_first db content_profile
                                    (λ p. p.id == candidate.content_profile_id) s₂
                                  ≡ (ok (some checked.1), s₃) =
                                rw (← is_profile) e₃ in
                              let (profile_there, profile_at, _) =
                                find_first_found db content_profile _ e₃' in
                              let (m, here, q₅) =
                                find_content_found db workspace.id website_id content_id e₅ in
                              let (_, q₆) = passed _ _ e₆ in
                              let (live, q₇) = passed _ _ e₇ in
                              let q₈ =
                                read_only _
                                  (draft_fields-Reads db lib draws candidate checked.0 checked.1
                                    current)
                                  e₈ in
                              let back₄ : s₄ ≡ s = q₄ ∙ q₃ ∙ q₂ ∙ q₁ in
                              let back₇ : s₇ ≡ s = q₇ ∙ q₆ ∙ q₅ ∙ back₄ in
                              let back₈ : s₈ ≡ s = q₈ ∙ back₇ in
                              let outcome =
                                apply_fields_lem db lib draws actor workspace.id website_id
                                  content_id candidate checked.0.ai_run_id fields {s = s} {t = s₉}
                                  {r = done} unique (rw back₈ at e₉) in
                              let final : s₉ ≡ t = ap (λ z. z.1) h₉ in
                              let result_is : ◌≡◌ {A = Result AiGenerationApplyResult}
                                  (ok (record {
                                    candidate_id = candidate.id;
                                    content_item_id = content_id;
                                    revision_number = some done.revision_number;
                                    ai_run_id = some done.ai_run_id;
                                  }))
                                  (ok result) =
                                ap (λ z. z.0) h₉ in
                              let numbered : some done.revision_number ≡ result.revision_number =
                                number_of _ result result_is in
                              let outcome' : Outcome db lib draws actor workspace.id website_id
                                  content_id candidate checked.0.ai_run_id done.revision_number
                                  fields s t =
                                subst
                                  (λ z.
                                    Outcome db lib draws actor workspace.id website_id content_id
                                      candidate checked.0.ai_run_id done.revision_number fields s z)
                                  final outcome in
                              elim outcome' [
                                | replayed r ↦ inl (record {
                                  same_contents = r.same_contents;
                                  taken = r.taken;
                                  taken_there = r.taken_there;
                                  is_taken = r.is_taken ∙ candidate_id_of candidate about;
                                  was_applied = r.was_applied;
                                  drafts =
                                      subst
                                        (λ z.
                                          (t.candidates ≡ s.candidates)
                                          ⊎ (2 ≤ count (λ x. x.id == z) s.candidates))
                                        (candidate_id_of candidate about) r.drafts;
                                  numbered = sym numbered ∙ r.numbered;
                                })
                                | redrafted before after d e c ↦
                                    let q : current ≡ before =
                                      scoped_same workspace.id website_id content_id current before
                                        unique (subst (λ z. Memᴰ current z.items) back₄ m)
                                        d.written.was_there here
                                        (and-true _ _ d.written.was_claimed).0 in
                                    inr (record {
                                      candidate = candidate;
                                      offer = checked.0;
                                      profile = checked.1;
                                      is_offer = is_offer;
                                      profile_there =
                                          subst (λ z. Memᴰ checked.1 z.profiles) (q₂ ∙ q₁)
                                            profile_there;
                                      profile_of = (==_iff _ _).0 profile_at;
                                      profile_usable = usable;
                                      offered =
                                          draft_fields-Offered db lib draws candidate checked.0
                                            checked.1 before s s (rw (back₈, back₇, q) at e₈);
                                      candidates = c;
                                      fields = fields;
                                      before = before;
                                      after = after;
                                      there = there;
                                      about = about;
                                      was_ready = can_apply;
                                      not_archived =
                                          subst (λ z. same z.editorial_status archived ≡ false) q
                                            live;
                                      drafted = d;
                                      numbered = sym numbered ∙ ap some e;
                                    })
                              ]
                        ]
                      ]
                    ]
                  ]
                ]
              ]
            ]
          ]
    ]
  ]

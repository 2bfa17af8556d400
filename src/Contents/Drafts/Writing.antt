-- ===== src/Contents/Drafts/Writing.antt =====
-- What the transaction of an accepted draft writes.
use ai_content_operating_sys.Base.{
  arith, not-eq-false, ℕ, ◌≡◌, sym, ap, ◌∙◌, Bool, true, false, ◌&&◌, ◌∷◌, List, map, count, some,
  any, ◌==◌, ==_iff, Memᴰ, subst, and-true, inl, inr, Bool-cases,
}
use ai_content_operating_sys.Errors.{
  Failure, known, coded, provider, other, p2002, p2025, p2034, or_throw_found, ok, steps,
  and_then-Steps, passed, commit-eq-ok, catch-cases,
}
use ai_content_operating_sys.Errors.Atomic.{then-Atomic, pure-NeverThrows}
use ai_content_operating_sys.Text.{optional_text}
use ai_content_operating_sys.Audit.{SameData, Quiet, pure-Quiet, then_Quiet, finished}
use ai_content_operating_sys.Auth.Types.{AuthContext}
use ai_content_operating_sys.Database.Client.{Client, update_row}
use ai_content_operating_sys.Database.ContentRows.{
  ContentItem, ContentRevision, AiGenerationCandidate, ai_generated, revision_clash,
}
use ai_content_operating_sys.Database.Store.{
  Store, find_first, content_item, content_revision, ai_generation_candidate,
}
use ai_content_operating_sys.Database.Counting.{count-zero_map, count_implied}
use ai_content_operating_sys.Database.Laws.{
  find_first_found, find_first_or_throw_found, update_many_done, create_done,
}
use ai_content_operating_sys.Contents.Domain.Html.{HtmlLibrary}
use ai_content_operating_sys.Contents.Revisions.{Draws, snapshot, with_provenance, create_revision}
use ai_content_operating_sys.Contents.Versioning.{
  UniqueIds, claimed, Versioned, Versioned-intro, Versioned-SameData,
}
use ai_content_operating_sys.Contents.Edits.Checks.{audit_content-Quiet, always_throws}
use ai_content_operating_sys.Contents.Applying.{
  replay, is_applied, read_replay, recover, DraftFields, AppliedRevision, is_ready, candidate_at,
  apply_candidate, acceptance, fill_from_draft, write_draft, claim_and_write, audit_applied,
  apply_fields,
}
use ai_content_operating_sys.Contents.Rollback.Checks.{then_NeverThrows}
use ai_content_operating_sys.Contents.Rollback.Drafts.{
  claim_and_write-Atomic, audit_applied-NeverThrows,
}
use ai_content_operating_sys.Contents.Drafts.Replays.{
  SameContents, SameContents-eq, claimed_before, SameContents-audited, Replayed, replay_found,
}

module _ (db : Client) (lib : HtmlLibrary) (draws : Draws) (actor : AuthContext)
    (workspace_id website_id content_id : ℕ) where
  -- The revision of an accepted draft.
  abbrev pub draft_revision : AiGenerationCandidate → ℕ → ContentItem → ContentRevision
  draft_revision candidate run item =
      with_provenance
        (some (record {
          origin = ai_generated;
          ai_run_id = run;
          candidate_id = candidate.id;
          base_revision_number = candidate.base_revision_number;
        }))
        (snapshot draws.revision_id item actor.user_id (optional_text (some acceptance)))

  -- The draft is taken: it is applied from then on.
  abbrev pub taken_after :
      AiGenerationCandidate → List AiGenerationCandidate → List AiGenerationCandidate
  taken_after candidate = map (
      update_row
        (λ x. candidate_at workspace_id website_id content_id candidate.id x && is_ready x.status)
        (apply_candidate actor.user_id draws.now candidate.base_revision_number))

  -- What an accepted draft writes in the contents.
  pub record Drafted (candidate : AiGenerationCandidate) (run : ℕ) (fields : DraftFields)
      (s t : Store) (before after : ContentItem) : Type 0 where
    pub written :
        Versioned
          (claimed workspace_id website_id content_id candidate.base_revision_number)
          (fill_from_draft fields)
          (draft_revision candidate run after)
          s
          t
          before
          after
    pub reviews : t.reviews ≡ s.reviews

  pub write_draft_lem :
      (candidate : AiGenerationCandidate) (run : ℕ) (fields : DraftFields) {s t : Store}
      {r : AppliedRevision}
      → UniqueIds s.items
      → write_draft db lib draws actor workspace_id website_id content_id candidate run fields s
        ≡ (ok r, t)
      → (before : ContentItem) × (after : ContentItem) × Drafted candidate run fields s t before
          after
        × (r.revision_number ≡ after.version)
        × (t.candidates ≡ s.candidates)
  unfolding write_draft create_revision
  write_draft_lem candidate run fields {s} {t} {r} unique h = elim (and_then-Steps _ _ h) [
    | steps changed s₁ e₁ h₁ ↦ elim (and_then-Steps _ _ h₁) [
      | steps _ s₂ e₂ h₂ ↦ elim (and_then-Steps _ _ h₂) [
        | steps updated s₃ e₃ h₃ ↦ elim (and_then-Steps _ _ h₃) [
          | steps _ s₄ e₄ h₄ ↦
              let (counted, q₁) =
                update_many_done db content_item
                  (claimed workspace_id website_id content_id candidate.base_revision_number)
                  (fill_from_draft fields) e₁ in
              let (one, q₂) = passed _ _ e₂ in
              let (m, here, q₃) = find_first_or_throw_found db content_item _ e₃ in
              let (_, q₄, free) = create_done db content_revision revision_clash _ e₄ in
              let wrote : s₃
                  ≡ content_item.replace s (
                      map
                        (update_row
                          (claimed workspace_id website_id content_id
                            candidate.base_revision_number)
                          (fill_from_draft fields))
                        s.items) =
                q₃ ∙ q₂ ∙ q₁ in
              let m₃ : Memᴰ updated s₃.items = subst (λ z. Memᴰ updated z.items) (sym q₃) m in
              let made : AppliedRevision = record {
                revision_number = updated.version;
                ai_run_id = run;
                replayed = false;
              } in
              let result : made ≡ r = cc in
              let q : s₄ ≡ t = cc in
              let (before, v) =
                Versioned-intro workspace_id website_id content_id
                  (claimed workspace_id website_id content_id candidate.base_revision_number)
                  (fill_from_draft fields) (draft_revision candidate run updated) {s = s} {t = t}
                  updated unique (λ x z. (and-true _ _ z).0)
                  (sym counted ∙ (==_iff _ _).0 (not-eq-false _ one))
                  (subst (λ x. Memᴰ updated x.items) wrote m₃) here
                  (subst
                    (λ x.
                      any (revision_clash (draft_revision candidate run updated)) x.revisions
                      ≡ false)
                    wrote free)
                  (ap (λ x. x.items) (sym q ∙ q₄) ∙ ap (λ x. x.items) wrote)
                  (ap (λ x. x.revisions) (sym q ∙ q₄)
                    ∙ ap (λ x. draft_revision candidate run updated ∷ x.revisions) wrote) in
              (
                before,
                updated,
                record {
                  written = v;
                  reviews = ap (λ x. x.reviews) (sym q ∙ q₄) ∙ ap (λ x. x.reviews) wrote;
                },
                sym (ap (λ z. z.revision_number) result),
                ap (λ x. x.candidates) (sym q ∙ q₄) ∙ ap (λ x. x.candidates) wrote,
              )
        ]
      ]
    ]
  ]

  -- A draft that another request took, or one that this request applied.
  pub data Outcome (candidate : AiGenerationCandidate) (run number : ℕ) (fields : DraftFields)
      (s t : Store) : Type 0 where
    replayed : Replayed candidate.id s t (some number) → Outcome candidate run number fields s t
    redrafted :
        (before after : ContentItem)
        → Drafted candidate run fields s t before after
        → number ≡ after.version
        → t.candidates ≡ taken_after candidate s.candidates
        → Outcome candidate run number fields s t

  pub Outcome-audited :
      {candidate : AiGenerationCandidate} {run number : ℕ} {fields : DraftFields} {s t u : Store}
      → Outcome candidate run number fields s t
      → SameData t u
      → Outcome candidate run number fields s u
  Outcome-audited (replayed r) q = replayed (record {
    same_contents = SameContents-audited r.same_contents q;
    taken = r.taken;
    taken_there = subst (λ z. Memᴰ r.taken z.candidates) (sym q.others) r.taken_there;
    is_taken = r.is_taken;
    was_applied = r.was_applied;
    numbered = r.numbered;
    drafts = elim r.drafts [
      | inl same ↦ inl (ap (λ x. x.candidates) q.others ∙ same)
      | inr twice ↦ inr twice
    ];
  })
  Outcome-audited (redrafted before after d e c) q =
      redrafted before after
        (record {
          written = Versioned-SameData d.written q;
          reviews = ap (λ x. x.reviews) q.others ∙ d.reviews;
        })
        e (ap (λ x. x.candidates) q.others ∙ c)

  -- A replay that answers has found the draft applied.
  read_replay_done :
      (here : AiGenerationCandidate → Bool) {s t : Store} {r : AppliedRevision}
      → read_replay db lib draws here s ≡ (ok r, t)
      → (x : AiGenerationCandidate) × Memᴰ x s.candidates
        × (here x ≡ true)
        × (is_applied x.status ≡ true)
        × (x.applied_revision_number ≡ some r.revision_number)
        × (t ≡ s)
  unfolding read_replay
  read_replay_done here {s} {t} {r} h = elim (and_then-Steps _ _ h) [
    | steps o u e k ↦
        let (is_replay, q) = or_throw_found (replay o) _ k in
        let (x, is_x, a, n) = replay_found o r is_replay in
        let e' : find_first db ai_generation_candidate here s ≡ (ok (some x), u) = rw (← is_x) e in
        let (there, at_x, q') = find_first_found db ai_generation_candidate here e' in
        (x, there, at_x, a, n, q ∙ q')
  ]

  recover_done :
      (here : AiGenerationCandidate → Bool) (x : Failure) (s t : Store) {r : AppliedRevision}
      → recover db lib draws here x s ≡ (ok r, t)
      → read_replay db lib draws here s ≡ (ok r, t)
  unfolding recover
  recover_done here (known p2034) s t h = h
  recover_done here (known p2002) s t h = absurd (always_throws (known p2002) _ _ _ h)
  recover_done here (known p2025) s t h = absurd (always_throws (known p2025) _ _ _ h)
  recover_done here (coded status code) s t h = absurd (always_throws (coded status code) _ _ _ h)
  recover_done here (provider code again) s t h =
      absurd (always_throws (provider code again) _ _ _ h)
  recover_done here other s t h = absurd (always_throws other _ _ _ h)

  pub claim_and_write_lem :
      (candidate : AiGenerationCandidate) (run : ℕ) (fields : DraftFields) {s t : Store}
      {r : AppliedRevision}
      → UniqueIds s.items
      → claim_and_write db lib draws actor workspace_id website_id content_id candidate run fields s
        ≡ (ok r, t)
      → Outcome candidate run r.revision_number fields s t
  unfolding claim_and_write
  claim_and_write_lem candidate run fields {s} {t} {r} unique h =
      elim (and_then-Steps _ _ (commit-eq-ok _ _ h)) [
        | steps taken s₁ e₁ h₁ ↦
            let ready_here : AiGenerationCandidate → Bool = λ x.
              candidate_at workspace_id website_id content_id candidate.id x && is_ready x.status in
            let (counted, q₁) =
              update_many_done db ai_generation_candidate
                (λ x.
                  candidate_at workspace_id website_id content_id candidate.id x
                  && is_ready x.status)
                (apply_candidate actor.user_id draws.now candidate.base_revision_number) e₁ in
            let claimed_only : SameContents s s₁ = record {
              items = ap (λ z. z.items) q₁;
              revisions = ap (λ z. z.revisions) q₁;
              reviews = ap (λ z. z.reviews) q₁;
            } in
            elim (Bool-cases (taken == 1)) [
              | inl one ↦
                  let (before, after, d, e, c) =
                    write_draft_lem candidate run fields {s = s₁} {t = t}
                      (subst UniqueIds (sym claimed_only.items) unique) (rw one at h₁) in
                  redrafted before after
                    (record {
                      written = claimed_before claimed_only d.written;
                      reviews = d.reviews ∙ claimed_only.reviews;
                    })
                    e (c ∙ ap (λ z. z.candidates) q₁)
              | inr missed ↦
                  let (x, there, at_x, a, n, q₂) = read_replay_done _ (rw missed at h₁) in
                  let same_id : x.id ≡ candidate.id = ground arith in
                  replayed (record {
                    same_contents = subst (λ z. SameContents s z) (sym q₂) claimed_only;
                    taken = x;
                    taken_there = subst (λ z. Memᴰ x z.candidates) (sym q₂) there;
                    is_taken = same_id;
                    was_applied = a;
                    numbered = sym n;
                    drafts = elim (Bool-cases (taken == 0)) [
                      | inl zero_taken ↦
                          let nothing : count ready_here s.candidates ≡ 0 =
                            sym counted ∙ (==_iff _ _).0 zero_taken in
                          inl (
                            ap (λ z. z.candidates) q₂
                            ∙ ap (λ z. z.candidates) q₁
                            ∙ count-zero_map ready_here
                                (apply_candidate actor.user_id draws.now
                                  candidate.base_revision_number)
                                s.candidates nothing)
                      | inr some_taken ↦
                          let fewer =
                            count_implied ready_here (λ x. x.id == candidate.id) s.candidates
                              (λ x m z. ground arith) in
                          inr (ground arith)
                    ];
                  })
            ]
      ]

  pub audit_applied-Quiet :
      (again : Bool)
      → Quiet (audit_applied db lib draws actor.user_id workspace_id website_id content_id again)
  unfolding audit_applied
  audit_applied-Quiet true = pure-Quiet tt
  audit_applied-Quiet false =
      then_Quiet _ _ (audit_content-Quiet db _ _ _ _ _) (audit_content-Quiet db _ _ _ _ _)

  pub apply_fields_lem :
      (candidate : AiGenerationCandidate) (run : ℕ) (fields : DraftFields) {s t : Store}
      {r : AppliedRevision}
      → UniqueIds s.items
      → apply_fields db lib draws actor workspace_id website_id content_id candidate run fields s
        ≡ (ok r, t)
      → Outcome candidate run r.revision_number fields s t
  unfolding apply_fields
  apply_fields_lem candidate run fields {s} {t} {r} unique h = elim (catch-cases _ _ h) [
    | inl k ↦ elim (and_then-Steps _ _ k) [
      | steps done u e l ↦
          let (p, quiet) = finished _ done (audit_applied-Quiet done.replayed) l in
          let e' : claim_and_write db lib draws actor workspace_id website_id content_id candidate
                run fields s
              ≡ (ok r, u) =
            rw (← p) e in
          Outcome-audited (claim_and_write_lem candidate run fields unique e') quiet
    ]
    | inr (x, u, e, k) ↦
        let body =
          then-Atomic _ _
            (claim_and_write-Atomic db lib draws actor workspace_id website_id content_id candidate
              run fields)
            (λ done.
              then_NeverThrows _ _
                (audit_applied-NeverThrows db lib draws actor.user_id workspace_id website_id
                  content_id done.replayed)
                (pure-NeverThrows done)) in
        let q₁ = body.rollback s u x e in
        let (y, there, at_y, a, n, q₂) = read_replay_done _ (recover_done _ x u t k) in
        let same_id : y.id ≡ candidate.id = ground arith in
        replayed (record {
          same_contents = SameContents-eq (q₂ ∙ q₁);
          taken = y;
          taken_there = subst (λ z. Memᴰ y z.candidates) (sym q₂) there;
          is_taken = same_id;
          was_applied = a;
          numbered = sym n;
          drafts = inl (ap (λ z. z.candidates) (q₂ ∙ q₁));
        })
  ]

-- ===== src/Contents/Rollback/Drafts.antt =====
-- `applyAiGenerationCandidate`, when it throws.

use ai_content_operating_sys.Database.Reads.{find_first-Reads}
use ai_content_operating_sys.Base.{ℕ, Bool, true, false, Option, none, some}
use ai_content_operating_sys.Errors.{Failure, known, provider, other, coded, p2002, p2025, p2034}
use ai_content_operating_sys.Errors.Atomic.{
  Reads, NeverThrows, Atomic, Reads-Atomic, pure-Reads, or_throw-Reads, pure-NeverThrows,
  transaction-Atomic, throw_if-Reads, bind-Reads, bind-Atomic, then-Atomic, if-Atomic, catch-Atomic,
}
use ai_content_operating_sys.Text.{Text, Unicode}
use ai_content_operating_sys.Auth.Types.{AuthContext, WorkspaceContext}
use ai_content_operating_sys.Database.Client.{Client}
use ai_content_operating_sys.Database.ContentRows.{
  ContentItem, AiGenerationCandidate, ContentProfile,
}
use ai_content_operating_sys.Database.Store.{content_profile, ai_generation_candidate}
use ai_content_operating_sys.Contents.Domain.Html.{HtmlLibrary}
use ai_content_operating_sys.Contents.Revisions.{Draws}
use ai_content_operating_sys.Contents.Applying.{
  DraftFields, UsableDraft, is_applied, suggested, non_empty, check_candidate, candidate_at,
  read_replay, claim_and_write, recover, draft_fields, audit_applied, apply_fields,
  apply_ai_generation_candidate,
}
use ai_content_operating_sys.Contents.Rollback.Checks.{
  then_Reads, then_NeverThrows, handle_write_error-Reads, valid_html-Reads, valid_labels-Reads,
  normalized_title-Reads, valid_slug-Reads,
}
use ai_content_operating_sys.Contents.Rollback.Reads.{find_content-Reads, audit_content-NeverThrows}

module _ (db : Client) (lib : HtmlLibrary) (draws : Draws) where
  pub read_replay-Reads :
      (here : AiGenerationCandidate → Bool) → Reads (read_replay db lib draws here)
  unfolding read_replay
  read_replay-Reads here =
      bind-Reads _ _ (find_first-Reads db ai_generation_candidate _) (λ other. or_throw-Reads _ _)

  pub recover-Reads :
      (here : AiGenerationCandidate → Bool) (e : Failure) → Reads (recover db lib draws here e)
  unfolding recover
  recover-Reads here (known p2034) = read_replay-Reads here
  recover-Reads here (known p2002) = handle_write_error-Reads (known p2002)
  recover-Reads here (known p2025) = handle_write_error-Reads (known p2025)
  recover-Reads here (coded status code) = handle_write_error-Reads (coded status code)
  recover-Reads here (provider code retryable) = handle_write_error-Reads (provider code retryable)
  recover-Reads here other = handle_write_error-Reads other

  pub suggested-Reads :
      (u : Unicode) (slug : Option Text) (old : Text) → Reads (suggested u slug old)
  suggested-Reads u none old = pure-Reads old
  suggested-Reads u (some slug) old = valid_slug-Reads lib u slug

  pub check_candidate-Reads :
      (candidate : AiGenerationCandidate) (profile : Option ContentProfile)
      → Reads (check_candidate candidate profile)
  unfolding check_candidate
  check_candidate-Reads candidate profile = then_Reads _ _ (throw_if-Reads _ _) (
      bind-Reads _ _ (or_throw-Reads _ _) (λ fields.
        bind-Reads _ _ (or_throw-Reads profile _)
          (λ active. then_Reads _ _ (throw_if-Reads _ _) (pure-Reads _))))

  pub draft_fields-Reads :
      (candidate : AiGenerationCandidate) (d : UsableDraft) (profile : ContentProfile)
      (current : ContentItem)
      → Reads (draft_fields db lib draws candidate d profile current)
  unfolding draft_fields
  draft_fields-Reads candidate d profile current =
      bind-Reads _ _ (valid_html-Reads lib d.html) (λ html.
        bind-Reads _ _ (valid_labels-Reads lib lib.unicode _) (λ labels.
          bind-Reads _ _ (normalized_title-Reads lib d.title) (λ title.
            bind-Reads _ _ (suggested-Reads lib.unicode (non_empty candidate.suggested_slug) _)
              (λ slug. pure-Reads _))))

  pub audit_applied-NeverThrows :
      (actor w site id : ℕ) (replayed : Bool)
      → NeverThrows (audit_applied db lib draws actor w site id replayed)
  unfolding audit_applied
  audit_applied-NeverThrows actor w site id true = pure-NeverThrows tt
  audit_applied-NeverThrows actor w site id false =
      then_NeverThrows _ _ (audit_content-NeverThrows db _ _ _ _ _)
        (audit_content-NeverThrows db _ _ _ _ _)

  pub claim_and_write-Atomic :
      (actor : AuthContext) (w site id : ℕ) (candidate : AiGenerationCandidate) (run : ℕ)
      (fields : DraftFields)
      → Atomic (claim_and_write db lib draws actor w site id candidate run fields)
  unfolding claim_and_write
  claim_and_write-Atomic actor w site id candidate run fields = transaction-Atomic _

  pub apply_fields-Atomic :
      (actor : AuthContext) (w site id : ℕ) (candidate : AiGenerationCandidate) (run : ℕ)
      (fields : DraftFields)
      → Atomic (apply_fields db lib draws actor w site id candidate run fields)
  unfolding apply_fields
  apply_fields-Atomic actor w site id candidate run fields =
      catch-Atomic _ _
        (then-Atomic _ _ (claim_and_write-Atomic actor w site id candidate run fields) (λ done.
          then_NeverThrows _ _ (audit_applied-NeverThrows _ _ _ _ done.replayed)
            (pure-NeverThrows done)))
        (recover-Reads (candidate_at w site id candidate.id))

  pub apply_ai_generation_candidate-Atomic :
      (actor : AuthContext) (workspace : WorkspaceContext) (site id candidate_id : ℕ)
      → Atomic (apply_ai_generation_candidate db lib draws actor workspace site id candidate_id)
  unfolding apply_ai_generation_candidate
  apply_ai_generation_candidate-Atomic actor workspace site id candidate_id =
      bind-Atomic _ _ (find_first-Reads db ai_generation_candidate _) (λ found.
        bind-Atomic _ _ (or_throw-Reads found _) (λ candidate.
          if-Atomic (is_applied candidate.status) _ _ (Reads-Atomic _ (pure-Reads _)) (
            bind-Atomic _ _ (find_first-Reads db content_profile _) (λ profile.
              bind-Atomic _ _ (check_candidate-Reads candidate profile) (λ checked.
                bind-Atomic _ _ (find_content-Reads db workspace.id site id) (λ current.
                  bind-Atomic _ _ (throw_if-Reads _ _) (λ _.
                    bind-Atomic _ _ (throw_if-Reads _ _) (λ _.
                      bind-Atomic _ _ (draft_fields-Reads candidate checked.0 checked.1 current)
                        (λ fields.
                          then-Atomic _ _
                            (apply_fields-Atomic actor workspace.id site id candidate
                              checked.0.ai_run_id fields)
                            (λ done. pure-NeverThrows _))))))))))

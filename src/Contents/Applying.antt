-- ===== src/Contents/Applying.antt =====
-- contents.service.ts: `applyAiGenerationCandidate`, an AI draft accepted by the user.
use ai_content_operating_sys.Base.{
  ℕ, ◌+◌, Bool, true, false, not, ◌&&◌, ◌==◌, List, ◌∷◌, ◌++◌, Option, none, some, if◌then◌else◌,
}
use ai_content_operating_sys.Errors.{
  Failure, Action, pure, throw_if, or_throw, transaction, catch, ◌>>=◌, ◌>>◌, coded, known, p2034,
  conflict_status, not_found_status, ai_generation_not_found, ai_generation_discarded,
  ai_generation_failed, ai_generation_stale, ai_generation_already_applied,
}
use ai_content_operating_sys.Text.{Text, Unicode, units, is_empty}
use ai_content_operating_sys.Auth.Types.{AuthContext, WorkspaceContext}
use ai_content_operating_sys.Database.Client.{Client}
use ai_content_operating_sys.Database.ContentRows.{
  ContentItem, CandidateStatus, AiGenerationCandidate, ContentProfile, ai_generated, ready, applied,
  discarded,
}
use ai_content_operating_sys.Database.Store.{
  Store, content_item, ai_generation_candidate, content_profile, find_first, find_first_or_throw,
  update_many,
}
use ai_content_operating_sys.Contents.Domain.Status.{draft, archived, same}
use ai_content_operating_sys.Contents.Domain.Html.{
  HtmlLibrary, Metrics, calculate_content_metrics, set_metrics,
}
use ai_content_operating_sys.Contents.Fields.{
  valid_html, valid_labels, normalized_title, valid_slug, handle_write_error,
}
use ai_content_operating_sys.Contents.Rules.{invalid_transition}
use ai_content_operating_sys.Contents.Revisions.{
  Draws, scoped, find_content, create_revision, audit_content, is_usable,
}

pub record AiGenerationApplyResult : Type 0 where
  pub candidate_id : ℕ
  pub content_item_id : ℕ
  pub revision_number : Option ℕ  -- the columns may be null when the draft was applied before
  pub ai_run_id : Option ℕ

-- the result of the transaction
pub record AppliedRevision : Type 0 where
  pub revision_number : ℕ
  pub ai_run_id : ℕ
  pub replayed : Bool

abbrev pub is_applied : CandidateStatus → Bool
is_applied applied = true
is_applied _ = false

abbrev pub is_ready : CandidateStatus → Bool
is_ready ready = true
is_ready _ = false

-- `candidate.status === DISCARDED ? … : …`
abbrev pub not_ready_code : CandidateStatus → Failure
not_ready_code discarded = coded conflict_status ai_generation_discarded
not_ready_code _ = coded conflict_status ai_generation_failed

-- `{ id, workspaceId, websiteId, contentItemId }`
abbrev pub candidate_at : ℕ → ℕ → ℕ → ℕ → AiGenerationCandidate → Bool
candidate_at workspace_id website_id content_id candidate_id r =
    r.id == candidate_id
    && r.workspace_id == workspace_id
    && r.website_id == website_id
    && r.content_item_id == content_id

-- `candidate.appliedRevisionNumber!`, `candidate.aiRunId!`
abbrev pub already_applied : ℕ → AiGenerationCandidate → AiGenerationApplyResult
already_applied content_id candidate = record {
  candidate_id = candidate.id;
  content_item_id = content_id;
  revision_number = candidate.applied_revision_number;
  ai_run_id = candidate.ai_run_id;
}

-- The claim on the draft: `{ status: APPLIED, appliedByUserId, appliedAt, appliedRevisionNumber }`
abbrev pub apply_candidate : ℕ → ℕ → ℕ → AiGenerationCandidate → AiGenerationCandidate
apply_candidate actor now base r = record r {
  status = applied;
  applied_by_user_id = some actor;
  applied_at = some now;
  applied_revision_number = some (base + 1);
}

-- The fields of a draft that is ready: `!title || !htmlContent || !aiRunId` throws.
pub record UsableDraft : Type 0 where
  pub title : Text
  pub html : Text
  pub ai_run_id : ℕ

abbrev pub non_empty : Option Text → Option Text
non_empty none = none
non_empty (some t) = if is_empty t then none else some t

abbrev usable : Option Text → Option Text → Option ℕ → Option UsableDraft
usable (some title) (some html) (some run) =
    some (record { title = title; html = html; ai_run_id = run })
usable _ _ _ = none

abbrev pub usable_draft : AiGenerationCandidate → Option UsableDraft
usable_draft r = usable (non_empty r.title) (non_empty r.html_content) r.ai_run_id

-- A draft that another request has applied: `replay.appliedRevisionNumber && replay.aiRunId`
abbrev pub replay_of : Option ℕ → Option ℕ → Option AppliedRevision
replay_of (some number) (some run) =
    if number == 0
    then none
    else some (record { revision_number = number; ai_run_id = run; replayed = true })
replay_of _ _ = none

abbrev pub replay : Option AiGenerationCandidate → Option AppliedRevision
replay none = none
replay (some r) =
    if is_applied r.status then replay_of r.applied_revision_number r.ai_run_id else none

-- `'Brouillon IA accepté après prévisualisation.'`, whose accents are not ASCII
abbrev pub acceptance : Text
acceptance =
    units "Brouillon IA accept"
    ++ 0xe9 ∷ units " apr"
    ++ 0xe8 ∷ units "s pr"
    ++ 0xe9 ∷ units "visualisation."

-- `candidate.suggestedSlug ? this.validSlug(candidate.suggestedSlug) : current.slug`
abbrev pub suggested : Unicode → Option Text → Text → Action Store Text
suggested u none old = pure old
suggested u (some slug) old = valid_slug u slug

-- The columns that the draft fills.
pub record DraftFields : Type 0 where
  pub title : Text
  pub slug : Text
  pub excerpt : Option Text
  pub html : Text
  pub metrics : Metrics
  pub meta_description : Option Text
  pub labels : List Text
  pub language : Text
  pub locale : Option Text
  pub content_profile_id : ℕ

abbrev pub fill_from_draft : DraftFields → ContentItem → ContentItem
fill_from_draft d r = record (set_metrics d.metrics r) {
  title = d.title;
  slug = d.slug;
  excerpt = d.excerpt;
  html_content = d.html;
  meta_description = d.meta_description;
  labels = d.labels;
  language = d.language;
  locale = d.locale;
  content_profile_id = some d.content_profile_id;
  editorial_status = draft;
  version = r.version + 1;
}

-- The checks on a draft that is not applied yet: what it offers, or the error.
unfoldable pub check_candidate :
    AiGenerationCandidate → Option ContentProfile → Action Store (UsableDraft × ContentProfile)
check_candidate candidate profile = do
  throw_if (not (is_ready candidate.status)) (not_ready_code candidate.status)
  fields ← or_throw (usable_draft candidate) (coded conflict_status ai_generation_failed)
  active ← or_throw profile (coded conflict_status ai_generation_failed)
  throw_if (not (is_usable active.status)) (coded conflict_status ai_generation_failed)
  pure (fields, active)

module _ (db : Client) (lib : HtmlLibrary) (draws : Draws) where
  -- The transaction of `applyAiGenerationCandidate`, once the claim on the draft is counted.
  unfoldable pub write_draft :
      AuthContext
      → ℕ
      → ℕ
      → ℕ
      → AiGenerationCandidate
      → ℕ
      → DraftFields
      → Action Store AppliedRevision
  unfolding create_revision
  write_draft actor workspace_id website_id content_id candidate run fields =
      let base = candidate.base_revision_number in
      do
        changed ←
            update_many db content_item
              (λ r. scoped workspace_id website_id content_id r && r.version == base)
              (fill_from_draft fields)
        throw_if (not (changed == 1)) (coded conflict_status ai_generation_stale)
        updated ← find_first_or_throw db content_item (scoped workspace_id website_id content_id)
        _ ← create_revision db draws updated actor.user_id (some acceptance) (
            some (record {
              origin = ai_generated;
              ai_run_id = run;
              candidate_id = candidate.id;
              base_revision_number = base;
            }))
        pure (record { revision_number = updated.version; ai_run_id = run; replayed = false })

  -- A draft that was taken meanwhile: applied by another request, or an error.
  unfoldable pub read_replay : (AiGenerationCandidate → Bool) → Action Store AppliedRevision
  read_replay here = do
    other ← find_first db ai_generation_candidate here
    or_throw (replay other) (coded conflict_status ai_generation_already_applied)

  -- The transaction of `applyAiGenerationCandidate`.
  unfoldable pub claim_and_write :
      AuthContext
      → ℕ
      → ℕ
      → ℕ
      → AiGenerationCandidate
      → ℕ
      → DraftFields
      → Action Store AppliedRevision
  unfolding write_draft read_replay
  claim_and_write actor workspace_id website_id content_id candidate run fields = transaction do
    claimed ←
        update_many db ai_generation_candidate
          (λ r. candidate_at workspace_id website_id content_id candidate.id r && is_ready r.status)
          (apply_candidate actor.user_id draws.now candidate.base_revision_number)
    if claimed == 1
        then write_draft actor workspace_id website_id content_id candidate run fields
        else read_replay (λ r.
          r.id == candidate.id && r.workspace_id == workspace_id && r.website_id == website_id)

  -- `catch`: a write conflict (P2034) is answered with the draft that won.
  unfoldable pub recover : (AiGenerationCandidate → Bool) → Failure → Action Store AppliedRevision
  unfolding read_replay handle_write_error
  recover here (known p2034) = read_replay here
  recover here e = handle_write_error e

  -- The fields of the draft, validated in the order of the source.
  unfoldable pub draft_fields :
      AiGenerationCandidate → UsableDraft → ContentProfile → ContentItem → Action Store DraftFields
  unfolding valid_html valid_labels normalized_title valid_slug
  draft_fields candidate d profile current = do
    html ← valid_html lib d.html
    labels ← valid_labels lib.unicode candidate.suggested_labels
    title ← normalized_title d.title
    slug ← suggested lib.unicode (non_empty candidate.suggested_slug) current.slug
    pure (record {
      title = title;
      slug = slug;
      excerpt = candidate.excerpt;
      html = html;
      metrics = calculate_content_metrics lib html;
      meta_description = candidate.meta_description;
      labels = labels;
      language = profile.language;
      locale = profile.locale;
      content_profile_id = candidate.content_profile_id;
    })

  unfoldable pub audit_applied : ℕ → ℕ → ℕ → ℕ → Bool → Action Store (Unit {0})
  audit_applied actor workspace_id website_id content_id true = pure tt
  audit_applied actor workspace_id website_id content_id false =
      audit_content db "content.ai_generation_applied" actor workspace_id website_id content_id
      >> audit_content db "content.revision_created" actor workspace_id website_id content_id

  -- What follows the checks: the write, then its two entries unless another request won.
  unfoldable pub apply_fields :
      AuthContext
      → ℕ
      → ℕ
      → ℕ
      → AiGenerationCandidate
      → ℕ
      → DraftFields
      → Action Store AppliedRevision
  apply_fields actor workspace_id website_id content_id candidate run fields =
      catch
        (do
          done ← claim_and_write actor workspace_id website_id content_id candidate run fields
          audit_applied actor.user_id workspace_id website_id content_id done.replayed
          pure done)
        (recover (candidate_at workspace_id website_id content_id candidate.id))

  -- `applyAiGenerationCandidate`
  unfoldable pub apply_ai_generation_candidate :
      AuthContext → WorkspaceContext → ℕ → ℕ → ℕ → Action Store AiGenerationApplyResult
  apply_ai_generation_candidate actor workspace website_id content_id candidate_id = do
    found ←
        find_first db ai_generation_candidate
          (candidate_at workspace.id website_id content_id candidate_id)
    candidate ← or_throw found (coded not_found_status ai_generation_not_found)
    if is_applied candidate.status then pure (already_applied content_id candidate) else (do
      profile ← find_first db content_profile (λ p. p.id == candidate.content_profile_id)
      (d, active) ← check_candidate candidate profile
      current ← find_content db workspace.id website_id content_id
      throw_if (not (current.version == candidate.base_revision_number))
          (coded conflict_status ai_generation_stale)
      throw_if (same current.editorial_status archived) invalid_transition
      fields ← draft_fields candidate d active current
      done ← apply_fields actor workspace.id website_id content_id candidate d.ai_run_id fields
      pure (record {
        candidate_id = candidate.id;
        content_item_id = content_id;
        revision_number = some done.revision_number;
        ai_run_id = some done.ai_run_id;
      }))

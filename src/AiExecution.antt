-- ===== src/AiExecution.antt =====
-- packages/integrations/src/ai-execution.ts and ai-errors.ts: an AI request with its retries. The
-- provider is a parameter: what it answers at each attempt.
pub mod Retries
pub mod Tests
use ai_content_operating_sys.Base.{
  ℕ, zero, suc, ◌+◌, ◌-◌, ◌*◌, ◌^◌, ◌≤◌, ◌<◌, ◌≡◌, refl, sym, ap, ◌∙◌, Bool, true, false, not, ◌&&◌,
  ◌||◌, List, [], ◌∷◌, length, Option, none, some, get_or, leb, ltb, arith, subst, ◌⊎◌, inl, inr,
  Bool-cases, if◌then◌else◌,
}

pub data AiErrorCode : Type 0 where
  authentication_failed rate_limited invalid_request timeout provider_unavailable : AiErrorCode
  malformed_response provider_error : AiErrorCode

-- `AiProviderError`, without its message, its category and its status
pub record AiProviderError : Type 0 where
  pub code : AiErrorCode
  pub retryable : Bool
  pub retry_after_ms : Option ℕ
  pub retry_count : ℕ

-- What `provider.generate` throws.
pub data Thrown : Type 0 where
  provider_error : AiProviderError → Thrown
  abort_error : Thrown
  unknown : Thrown

-- `normalizeAiProviderError`
abbrev pub normalize_ai_provider_error : Thrown → AiProviderError
normalize_ai_provider_error (Thrown.provider_error e) = e
normalize_ai_provider_error abort_error = record {
  code = timeout;
  retryable = true;
  retry_after_ms = none;
  retry_count = 0;
}
normalize_ai_provider_error unknown = record {
  code = AiErrorCode.provider_error;
  retryable = false;
  retry_after_ms = none;
  retry_count = 0;
}

pub data Attempt (A : Type 0) : Type 0 where
  generated : A → Attempt A
  threw : Thrown → Attempt A

pub record AiExecutionPolicy : Type 0 where
  pub timeout_ms : ℕ
  pub max_retries : ℕ
  pub base_delay_ms : Option ℕ

-- How an execution ends; `unfinished` is fuel that ran out.
pub data Execution (A : Type 0) : Type 0 where
  returned : A → ℕ → Execution A
  failed : AiProviderError → Execution A
  unfinished : Execution A

abbrev pub min : ℕ → ℕ → ℕ
min a b = if leb a b then a else b

-- `normalized.retryAfterMs ?? Math.min((policy.baseDelayMs ?? 100) * 2 ** retryCount, 5_000)`
abbrev pub delay : AiExecutionPolicy → ℕ → AiProviderError → ℕ
delay policy retries e =
    get_or e.retry_after_ms (min (get_or policy.base_delay_ms 100 * 2 ^ retries) 5000)

-- The loop, with the delays that it sleeps, first to last. An attempt is known by the retries before it.
abbrev pub after_attempt :
    {A : Type 0} → AiExecutionPolicy → ℕ → Attempt A → Execution A × List ℕ → Execution A × List ℕ
after_attempt policy retries (generated a) rest = (returned a retries, [])
after_attempt policy retries (threw x) rest =
    let e = normalize_ai_provider_error x in
    if not e.retryable || leb policy.max_retries retries
    then (failed (record e { retry_count = retries }), [])
    else (rest.0, delay policy retries e ∷ rest.1)

-- The loop, with the delays that it sleeps, first to last. An attempt is known by the retries
-- before it.
unfoldable pub attempt_from :
    {A : Type 0} → (ℕ → Attempt A) → AiExecutionPolicy → ℕ → ℕ → Execution A × List ℕ
attempt_from provider policy zero retries = (unfinished, [])
attempt_from provider policy (suc fuel) retries =
    let rest = attempt_from provider policy fuel (retries + 1) in
    after_attempt policy retries (provider retries) rest

-- `executeAiRequest`
unfoldable pub execute_ai_request :
    {A : Type 0} → (ℕ → Attempt A) → AiExecutionPolicy → Execution A × List ℕ
unfolding attempt_from
execute_ai_request provider policy = attempt_from provider policy (policy.max_retries + 1) 0

-- `requireSafeExecutionPolicy`, on whole numbers
abbrev pub is_safe_policy : AiExecutionPolicy → Bool
is_safe_policy policy =
    not (ltb policy.timeout_ms 50 || ltb 120000 policy.timeout_ms || ltb 5 policy.max_retries)

-- How an execution may end, after some retries that each followed an error that can be retried.
pub data Ends {A : Type 0} (provider : ℕ → Attempt A) (policy : AiExecutionPolicy)
    : ℕ → Execution A × List ℕ → Type 0 where
  success :
      {retries : ℕ} (a : A)
      → provider retries ≡ generated a
      → Ends provider policy retries (returned a retries, [])
  failure :
      {retries : ℕ} (x : Thrown)
      → provider retries ≡ threw x
      → (not (normalize_ai_provider_error x).retryable || leb policy.max_retries retries) ≡ true
      → Ends provider policy retries
          (failed (record (normalize_ai_provider_error x) { retry_count = retries }), [])
  retry :
      {retries : ℕ} (x : Thrown) {end : Execution A} {delays : List ℕ}
      → provider retries ≡ threw x
      → (normalize_ai_provider_error x).retryable ≡ true
      → retries < policy.max_retries
      → Ends provider policy (retries + 1) (end, delays)
      → Ends provider policy retries
          (end, delay policy retries (normalize_ai_provider_error x) ∷ delays)

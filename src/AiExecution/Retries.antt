-- ===== src/AiExecution/Retries.antt =====
-- How an AI request with its retries ends.
use ai_content_operating_sys.Base.{
  ℕ, zero, suc, ◌+◌, ◌≤◌, ◌<◌, ◌≡◌, refl, Bool, true, false, not, ◌||◌, List, [], length, leb,
  arith, subst, ◌⊎◌, inl, inr, Bool-cases,
}
use ai_content_operating_sys.AiExecution.{
  Thrown, normalize_ai_provider_error, Attempt, generated, threw, AiExecutionPolicy, Execution,
  unfinished, after_attempt, attempt_from, execute_ai_request, Ends, success, failure, retry,
  is_safe_policy,
}

Attempt-cases :
    {A : Type 0} (a : Attempt A) → ((x : A) × (a ≡ generated x)) ⊎ ((x : Thrown) × (a ≡ threw x))
Attempt-cases (generated x) = inl (x, refl)
Attempt-cases (threw x) = inr (x, refl)

retries_left : (r : Bool) (max n : ℕ) → (not r || leb max n) ≡ false → (r ≡ true) × (n < max)
retries_left r max n h = ground arith

module _ {A : Type 0} (provider : ℕ → Attempt A) (policy : AiExecutionPolicy) where
  after_attempt-Ends :
      (retries : ℕ) (end : Execution A) (delays : List ℕ)
      → (retries < policy.max_retries → Ends provider policy (retries + 1) (end, delays))
      → Ends provider policy retries (after_attempt policy retries (provider retries) (end, delays))
  after_attempt-Ends retries end delays later = elim (Attempt-cases (provider retries)) [
    | inl (a, e) ↦ rw e (success a e)
    | inr (x, e) ↦
        elim (Bool-cases
          (not (normalize_ai_provider_error x).retryable || leb policy.max_retries retries)) [
            | inl stop ↦ rw (e, stop) (failure x e stop)
            | inr again ↦
                let (retryable, left) = retries_left _ _ _ again in
                rw (e, again) (retry x e retryable left (later left))
          ]
  ]

  attempt_from-Ends :
      (fuel retries : ℕ)
      → retries + fuel ≡ policy.max_retries
      → Ends provider policy retries (attempt_from provider policy (suc fuel) retries)
  unfolding attempt_from
  attempt_from-Ends zero retries h =
      after_attempt-Ends retries unfinished [] (λ left. absurd (omega arith))
  attempt_from-Ends (suc fuel) retries h =
      let rest = attempt_from provider policy (suc fuel) (retries + 1) in
      after_attempt-Ends retries rest.0 rest.1
        (λ left. attempt_from-Ends fuel (retries + 1) (omega arith))

  -- An execution ends, after at most `maxRetries` retries: with the answer of the first attempt that
  -- generates, or with the first error that may not be retried or that comes after the last retry.
  pub execute_ai_request-Ends : Ends provider policy 0 (execute_ai_request provider policy)
  unfolding execute_ai_request
  execute_ai_request-Ends =
      let n : suc policy.max_retries ≡ policy.max_retries + 1 = omega arith in
      subst (λ z. Ends provider policy 0 (attempt_from provider policy z 0)) n
        (attempt_from-Ends policy.max_retries 0 (omega arith))

Ends-length :
    {A : Type 0} {provider : ℕ → Attempt A} {policy : AiExecutionPolicy} {retries : ℕ}
    {r : Execution A × List ℕ}
    → Ends provider policy retries r
    → retries ≤ policy.max_retries
    → length r.1 + retries ≤ policy.max_retries
Ends-length (success a e) h = omega arith
Ends-length (failure x e stop) h = omega arith
Ends-length (retry x {delays = delays} e retryable left rest) h =
    let q = Ends-length rest (omega arith) in omega arith

-- Under a safe policy a request sleeps at most five times.
pub execute_ai_request-sleeps :
    {A : Type 0} (provider : ℕ → Attempt A) (policy : AiExecutionPolicy)
    → is_safe_policy policy ≡ true
    → length (execute_ai_request provider policy).1 ≤ 5
execute_ai_request-sleeps provider policy safe =
    let q = Ends-length (execute_ai_request-Ends provider policy) (omega arith) in ground arith

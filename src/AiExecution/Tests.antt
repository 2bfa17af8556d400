-- ===== src/AiExecution/Tests.antt =====
-- A provider that fails once, then answers.
use ai_content_operating_sys.Base.{ℕ, ◌≤◌, ◌≡◌, refl, [], ◌∷◌, length, none, ◌==◌, if◌then◌else◌}
use ai_content_operating_sys.AiExecution.{
  abort_error, Attempt, generated, threw, AiExecutionPolicy, returned, attempt_from,
  execute_ai_request, Ends,
}
use ai_content_operating_sys.AiExecution.Retries.{
  execute_ai_request-Ends, execute_ai_request-sleeps,
}

abbrev second_try : ℕ → Attempt ℕ
second_try n = if n == 0 then threw abort_error else generated 42

abbrev policy : AiExecutionPolicy
policy = record { timeout_ms = 1000; max_retries = 2; base_delay_ms = none }

second_try_runs : execute_ai_request second_try policy ≡ (returned 42 1, 100 ∷ [])
unfolding execute_ai_request attempt_from
second_try_runs = refl

execute_ai_request-Ends_example : Ends second_try policy 0 (execute_ai_request second_try policy)
execute_ai_request-Ends_example = execute_ai_request-Ends second_try policy

execute_ai_request-sleeps_example : length (execute_ai_request second_try policy).1 ≤ 5
execute_ai_request-sleeps_example = execute_ai_request-sleeps second_try policy refl

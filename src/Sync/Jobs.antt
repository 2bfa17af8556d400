-- ===== src/Sync/Jobs.antt =====
-- apps/worker/src/blogger-sync.ts: how a job ends.
use ai_content_operating_sys.Base.{
  ℕ, ◌+◌, ◌≤◌, ◌≡◌, ◌⊎◌, refl, sym, ap, ◌∙◌, subst, Bool, false, true, ◌&&◌, List, Option, none,
  some, ltb, ◌==◌, ==_iff, arith, Memᴰ, Bool-cases, inl, inr,
}
use ai_content_operating_sys.Errors.{
  ErrorCode, Failure, ok, err, throw, steps, and_then-Steps, catch-cases, ok_injective, failed,
  commit-eq-ok,
}
use ai_content_operating_sys.Text.{Text}
use ai_content_operating_sys.Database.Client.{update_row}
use ai_content_operating_sys.Database.IntegrationRows.{
  WebsiteConnection, IntegrationSyncRun, SyncStatus,
}
use ai_content_operating_sys.Database.Laws.{
  Memᴰ-update_row, update_many_done, update_one_done, create_done,
}
use ai_content_operating_sys.Database.Store.{
  Store, integration_sync_run, website_connection, audit_log,
}
use ai_content_operating_sys.Sync.Job.{
  ProviderPost, Provider, Worker, BloggerSyncJobData, BloggerSyncJobResult, Progress, no_progress,
  never_clash, code_of, is_retryable,
}
use ai_content_operating_sys.Sync.Pages.{Listing}
use ai_content_operating_sys.Sync.Loop.{of_result_done, sync_pages-Listing}
use ai_content_operating_sys.Sync.Processing.{
  after_loop, synchronize, fail_run, recover_job, start_run, run_job,
}
use ai_content_operating_sys.Sync.Completed.{Synchronized, some_answer, synchronize_lem}

-- The run is there, failed with the code.
pub record FailedRun (run_id : ℕ) (code : ErrorCode) (t : Store) : Type 0 where
  pub row : IntegrationSyncRun
  pub row_there : Memᴰ row t.sync_runs
  pub row_of : row.id ≡ run_id
  pub row_failed : row.status ≡ SyncStatus.sync_failed
  pub row_code : row.error_code ≡ some code

-- A job that failed for good: the synchronization, from the store in which the run was started, threw
-- the error; the error is not to be retried, or no attempt is left; the run keeps its code.
pub record FailedJob (w : Worker) (fuel : ℕ) (run : IntegrationSyncRun)
    (connection : WebsiteConnection) (site : Text) (s t : Store) (answer : BloggerSyncJobResult)
    : Type 0 where
  pub running : IntegrationSyncRun
  pub started : Store
  pub starts : start_run w run s ≡ (ok running, started)
  pub error : Failure
  pub left : Store
  pub thrown : synchronize w fuel run connection site started ≡ (err error, left)
  pub final : (is_retryable error && ltb (w.attempts_made + 1) w.attempts) ≡ false
  pub not_completed : answer.is_completed ≡ false
  pub code : answer.error_code ≡ some (code_of error)
  pub failed_run : FailedRun run.id (code_of error) t

module _ (w : Worker) where
  abbrev failed_row : ErrorCode → IntegrationSyncRun → IntegrationSyncRun
  failed_row code r = record r {
    status = SyncStatus.sync_failed;
    completed_at = some w.now;
    items_failed = r.items_failed + 1;
    error_code = some code;
  }

  -- The row that was written, of those before.
  written_row :
      (run_id : ℕ) (code : ErrorCode) (r₀ r : IntegrationSyncRun)
      → r ≡ update_row (λ x. x.id == run_id) (failed_row code) r₀
      → (r.id == run_id) ≡ true
      → (r.status ≡ SyncStatus.sync_failed) × (r.error_code ≡ some code)
  written_row run_id code r₀ r e is_run = elim (Bool-cases (r₀.id == run_id)) [
    | inl hit ↦
        let e' : r ≡ failed_row code r₀ = rw hit at e in
        (ap (λ z. z.status) e', ap (λ z. z.error_code) e')
    | inr miss ↦
        let e' : r ≡ r₀ = rw miss at e in
        let hit : (r₀.id == run_id) ≡ true = subst (λ z. (z.id == run_id) ≡ true) e' is_run in
        absurd (ground arith)
  ]

  fail_done :
      (run_id : ℕ) (job : BloggerSyncJobData) (code : ErrorCode) (s t : Store)
      {answer : BloggerSyncJobResult}
      → fail_run w run_id job code s ≡ (ok answer, t)
      → (answer.is_completed ≡ false) × (answer.error_code ≡ some code) × FailedRun run_id code t
  unfolding fail_run
  fail_done run_id job code s t {answer} h = elim (and_then-Steps _ _ h) [
    | steps run u e k ↦ elim (and_then-Steps _ _ (commit-eq-ok _ _ e)) [
      | steps r s₁ e₁ h₁ ↦ elim (and_then-Steps _ _ h₁) [
        | steps c s₂ e₂ h₂ ↦ elim (and_then-Steps _ _ h₂) [
          | steps l s₃ e₃ h₃ ↦ elim (and_then-Steps _ _ h₃) [
            | steps l' s₄ e₄ h₄ ↦
                let is_answer = ok_injective _ _ (ap (λ z. z.0) k) in
                let (q₁, there, is_run) = update_one_done w.db integration_sync_run _ _ e₁ in
                let (_, q₂) = update_many_done w.db website_connection _ _ e₂ in
                let (_, q₃, _) = create_done w.db audit_log never_clash _ e₃ in
                let (_, q₄, _) = create_done w.db audit_log never_clash _ e₄ in
                let rows = subst (λ z. Memᴰ r z.sync_runs) q₁ there in
                let is_id : IntegrationSyncRun → Bool = λ x. x.id == run_id in
                let (r₀, _, w₀) = Memᴰ-update_row is_id (failed_row code) s.sync_runs rows in
                let (status, kept) = written_row run_id code r₀ r w₀ is_run in
                let runs : t.sync_runs ≡ s₁.sync_runs =
                  ap (λ z. z.1.sync_runs) (sym k)
                  ∙ ap (λ z. z.1.sync_runs) (sym h₄)
                  ∙ ap (λ z. z.sync_runs) q₄
                  ∙ ap (λ z. z.sync_runs) q₃
                  ∙ ap (λ z. z.sync_runs) q₂ in
                (
                  ap (λ (z : BloggerSyncJobResult). z.is_completed) (sym is_answer),
                  ap (λ (z : BloggerSyncJobResult). z.error_code) (sym is_answer),
                  record {
                    row = r;
                    row_there = subst (Memᴰ r) (sym runs) there;
                    row_of = (==_iff _ _).0 is_run;
                    row_failed = status;
                    row_code = kept;
                  },
                )
          ]
        ]
      ]
    ]
  ]

  -- The answer of a job that does not go back to the queue.
  recovered :
      (run : IntegrationSyncRun) (job : BloggerSyncJobData) (error : Failure) (s t : Store)
      {answer : BloggerSyncJobResult}
      → recover_job w run job error s ≡ (ok (some answer), t)
      → ((is_retryable error && ltb (w.attempts_made + 1) w.attempts) ≡ false)
        × (answer.is_completed ≡ false)
        × (answer.error_code ≡ some (code_of error))
        × FailedRun run.id (code_of error) t
  unfolding recover_job
  recovered run job error s t {answer} h =
      elim (Bool-cases (is_retryable error && ltb (w.attempts_made + 1) w.attempts)) [
        | inl again ↦
            let h' : throw error s ≡ (ok (some answer), t) = rw again at h in
            absurd (failed error h')
        | inr last ↦ elim (and_then-Steps _ _ (rw last at h)) [
          | steps made u e k ↦
              let q : u ≡ t = ap (λ z. z.1) k in
              let is_answer = some_answer w made answer (ap (λ z. z.0) k) in
              let e' : fail_run w run.id job (code_of error) s ≡ (ok answer, t) =
                rw (is_answer, q) at e in
              let (not_completed, code, failed_run) = fail_done run.id job (code_of error) s t e' in
              (last, not_completed, code, failed_run)
        ]
      ]

  -- A job of a configured connection that answers has completed the synchronization, or the
  -- synchronization threw an error that is not to be retried, or for which no attempt is left: then the
  -- job answers the code of that error, and the run is failed with it.
  pub run_job_lem :
      (fuel : ℕ) (job : BloggerSyncJobData) (run : IntegrationSyncRun)
      (connection : WebsiteConnection) (site : Text) (s t : Store) {answer : BloggerSyncJobResult}
      → run_job w fuel job run connection site s ≡ (ok (some answer), t)
      → ((source : Provider) × (w.connect connection site ≡ ok source)
          × Synchronized connection source t answer)
        ⊎ FailedJob w fuel run connection site s t answer
  unfolding run_job
  run_job_lem fuel job run connection site s t h = elim (and_then-Steps _ _ h) [
    | steps running u e k ↦ elim (catch-cases _ _ k) [
      | inl done ↦ inl (synchronize_lem w fuel run connection site u t done)
      | inr (error, v, thrown, back) ↦
          let (last, not_completed, code, failed_run) = recovered run job error v t back in
          inr (record {
            running = running;
            started = u;
            starts = e;
            error = error;
            left = v;
            thrown = thrown;
            final = last;
            not_completed = not_completed;
            code = code;
            failed_run = failed_run;
          })
    ]
  ]

  not_after_loop :
      (run : IntegrationSyncRun) (connection : WebsiteConnection) (source : Provider)
      (o : Option Progress) (s t : Store)
      → after_loop w run connection source o s ≡ (ok none, t)
      → (o ≡ none) × (s ≡ t)
  unfolding after_loop
  not_after_loop run connection source none s t h = (refl, ap (λ z. z.1) h)
  not_after_loop run connection source (some p) s t h = elim (and_then-Steps _ _ h) [
    | steps answer u e k ↦ absurd (ground arith)
  ]

  -- A synchronization of a provider that lists at most as many pages as there is fuel does not stop for
  -- the lack of it.
  pub synchronize-Listing :
      (fuel n : ℕ) (run : IntegrationSyncRun) (connection : WebsiteConnection) (site : Text)
      (source : Provider) (posts : List ProviderPost) (s t : Store)
      → w.connect connection site ≡ ok source
      → Listing source none n posts
      → n ≤ fuel
      → ¬ (synchronize w fuel run connection site s ≡ (ok none, t))
  unfolding synchronize
  synchronize-Listing fuel n run connection site source posts s t connected listing enough h =
      elim (and_then-Steps _ _ h) [
        | steps found s₁ e₁ h₁ ↦ elim (and_then-Steps _ _ h₁) [
          | steps done s₂ e₂ h₂ ↦
              let (is_found, _) = of_result_done (w.connect connection site) s s₁ e₁ in
              let same : found ≡ source = ok_injective _ _ (sym is_found ∙ connected) in
              let (spent, _) = not_after_loop run connection found done s₂ t h₂ in
              sync_pages-Listing w run.id connection site source fuel n none posts no_progress s₁ s₂
                listing enough (rw (same, spent) at e₂)
        ]
      ]

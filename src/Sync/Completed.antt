-- ===== src/Sync/Completed.antt =====
-- apps/worker/src/blogger-sync.ts: a synchronization that completes.
use ai_content_operating_sys.Base.{
  ℕ, ◌+◌, ◌≡◌, sym, ap, ◌∙◌, subst, Bool, true, false, ◌&&◌, List, [], ◌∷◌, any, length, Option,
  refl, none, some, is_some, ◌==◌, arith, Memᴰ, Bool-cases, inl, inr, if◌then◌else◌,
}
use ai_content_operating_sys.Errors.{
  Result, ok, pure, ◌>>=◌, steps, and_then-Steps, ok_injective, commit-eq-ok,
}
use ai_content_operating_sys.Text.{Text, equal}
use ai_content_operating_sys.Database.Client.{update_row}
use ai_content_operating_sys.Database.IntegrationRows.{
  WebsiteConnection, IntegrationSyncRun, ExternalTaxonomyTerm, term_clash,
}
use ai_content_operating_sys.Database.Store.{
  Store, external_taxonomy_term, integration_sync_run, website_connection, audit_log, update_many,
  create,
}
use ai_content_operating_sys.Database.Laws.{
  Memᴰ-update_row, update_many_done, update_one_done, create_done,
}
use ai_content_operating_sys.Database.Reads.{find_first-Reads}
use ai_content_operating_sys.Errors.Atomic.{read_only}
use ai_content_operating_sys.Sync.Job.{
  ProviderPost, ProviderLabel, Provider, Worker, BloggerSyncJobResult, Progress, no_progress,
  never_clash, same_post, has, result_of,
}
use ai_content_operating_sys.Sync.Importing.{sync_pages}
use ai_content_operating_sys.Sync.Processing.{
  normalized_label, upsert_label, upsert_labels, reset_labels, completed_row, complete_run,
  finish_run, after_loop, synchronize,
}
use ai_content_operating_sys.Sync.Pages.{Listing, see, has_row}
use ai_content_operating_sys.Sync.Loop.{of_result_done, sync_pages_lem}
use ai_content_operating_sys.Sync.Missing.{NoStale, delete_missing_done}

-- What a completed synchronization left, of the posts that the provider lists from the first page.
pub record Synchronized (connection : WebsiteConnection) (source : Provider) (t : Store)
    (answer : BloggerSyncJobResult) : Type 0 where
  pub pages : ℕ
  pub posts : List ProviderPost
  pub listing : Listing source none pages posts
  pub rows : (post : ProviderPost) → Memᴰ post posts → has_row connection.id post.id t ≡ true
  pub no_stale : NoStale connection.id (see [] posts) t
  pub is_completed : answer.is_completed ≡ true
  pub counted : answer.items_processed ≡ length posts
  pub counted_both : answer.items_created + answer.items_updated ≡ length posts

module _ (w : Worker) where
  label_kept :
      (connection : WebsiteConnection) (label : ProviderLabel) (s t : Store) {x : Unit {0}}
      → upsert_label w connection label s ≡ (ok x, t)
      → t.external_posts ≡ s.external_posts
  unfolding upsert_label
  label_kept connection label s t h = elim (and_then-Steps _ _ h) [
    | steps o s₁ e₁ h₁ ↦
        let q₁ = read_only _ (find_first-Reads w.db external_taxonomy_term _) e₁ in
        written (is_some o) s₁ q₁ h₁
  ]
    where
      same : ExternalTaxonomyTerm → Bool
      same r =
          r.connection_id == connection.id
          && equal r.normalized_name (normalized_label w label.name)

      written :
          (c : Bool) (s₁ : Store)
          → s₁ ≡ s
          → (if c
                then (do
                  _ ← update_many w.db external_taxonomy_term same (λ r. record r {
                    name = label.name;
                    usage_count = label.usage_count;
                    last_seen_at = w.now;
                  })
                  pure tt)
                else (do
                  _ ← create w.db external_taxonomy_term term_clash (record {
                    id = w.draw (normalized_label w label.name);
                    workspace_id = connection.workspace_id;
                    website_id = connection.website_id;
                    connection_id = connection.id;
                    name = label.name;
                    normalized_name = normalized_label w label.name;
                    usage_count = label.usage_count;
                    last_seen_at = w.now;
                  })
                  pure tt))
              s₁
            ≡ (ok tt, t)
          → t.external_posts ≡ s.external_posts
      written true s₁ q₁ h₁ = elim (and_then-Steps _ _ h₁) [
        | steps n u e k ↦
            let (_, q) = update_many_done w.db external_taxonomy_term _ _ e in
            ap (λ z. z.1.external_posts) (sym k)
            ∙ ap (λ z. z.external_posts) q
            ∙ ap (λ z. z.external_posts) q₁
      ]
      written false s₁ q₁ h₁ = elim (and_then-Steps _ _ h₁) [
        | steps r u e k ↦
            let (_, q, _) = create_done w.db external_taxonomy_term _ _ e in
            ap (λ z. z.1.external_posts) (sym k)
            ∙ ap (λ z. z.external_posts) q
            ∙ ap (λ z. z.external_posts) q₁
      ]

  labels_kept :
      (connection : WebsiteConnection) (labels : List ProviderLabel) (s t : Store) {x : Unit {0}}
      → upsert_labels w connection labels s ≡ (ok x, t)
      → t.external_posts ≡ s.external_posts
  unfolding upsert_labels
  labels_kept connection [] s t h = ap (λ z. z.1.external_posts) (sym h)
  labels_kept connection (label ∷ labels) s t h = elim (and_then-Steps _ _ h) [
    | steps _ u e k ↦ labels_kept connection labels u t k ∙ label_kept connection label s u e
  ]

  -- The run that the last transaction answers has the counts of the loop.
  completed_done :
      (run : IntegrationSyncRun) (connection : WebsiteConnection) (p : Progress) (s t : Store)
      {final : IntegrationSyncRun}
      → complete_run w run connection p s ≡ (ok final, t)
      → (t.external_posts ≡ s.external_posts)
        × (final.items_processed ≡ p.processed)
        × (final.items_created + final.items_updated ≡ p.created + p.updated)
  unfolding complete_run
  completed_done run connection p s t {final} h = elim (and_then-Steps _ _ (commit-eq-ok _ _ h)) [
    | steps r s₁ e₁ h₁ ↦ elim (and_then-Steps _ _ h₁) [
      | steps c s₂ e₂ h₂ ↦ elim (and_then-Steps _ _ h₂) [
        | steps l s₃ e₃ h₃ ↦
            let (q₁, there, is_run) = update_one_done w.db integration_sync_run _ _ e₁ in
            let (q₂, _, _) = update_one_done w.db website_connection _ _ e₂ in
            let (_, q₃, _) = create_done w.db audit_log never_clash _ e₃ in
            let is_final : r ≡ final = ok_injective _ _ (ap (λ z. z.0) h₃) in
            let rows = subst (λ z. Memᴰ r z.sync_runs) q₁ there in
            let is_id : IntegrationSyncRun → Bool = λ x. x.id == run.id in
            let (r₀, _, e) = Memᴰ-update_row is_id (completed_row w p) s.sync_runs rows in
            let (processed, both) = counts run p r₀ r e is_run in
            (
              ap (λ z. z.1.external_posts) (sym h₃)
                  ∙ ap (λ z. z.external_posts) q₃
                  ∙ ap (λ z. z.external_posts) q₂
                  ∙ ap (λ z. z.external_posts) q₁,
              ap (λ z. z.items_processed) (sym is_final) ∙ processed,
              ap (λ z. z.items_created + z.items_updated) (sym is_final) ∙ both,
            )
      ]
    ]
  ]
    where
      counts :
          (run : IntegrationSyncRun) (p : Progress) (r₀ r : IntegrationSyncRun)
          → r ≡ update_row (λ x. x.id == run.id) (completed_row w p) r₀
          → (r.id == run.id) ≡ true
          → (r.items_processed ≡ p.processed)
            × (r.items_created + r.items_updated ≡ p.created + p.updated)
      counts run p r₀ r e is_run = elim (Bool-cases (r₀.id == run.id)) [
        | inl hit ↦
            let e' : r ≡ completed_row w p r₀ = rw hit at e in
            (ap (λ z. z.items_processed) e', ap (λ z. z.items_created + z.items_updated) e')
        | inr miss ↦
            let e' : r ≡ r₀ = rw miss at e in
            let not_run : (r.id == run.id) ≡ false = ap (λ z. z.id == run.id) e' ∙ miss in
            absurd (ground arith)
      ]

  finish_run_lem :
      (fuel : ℕ) (run : IntegrationSyncRun) (connection : WebsiteConnection) (site : Text)
      (source : Provider) (p : Progress) (s u t : Store) {answer : BloggerSyncJobResult}
      → sync_pages w fuel run.id connection site source none no_progress s ≡ (ok (some p), u)
      → finish_run w run connection source p u ≡ (ok answer, t)
      → Synchronized connection source t answer
  unfolding finish_run reset_labels
  finish_run_lem fuel run connection site source p s u t {answer} loop h =
      elim (and_then-Steps _ _ h) [
        | steps _ s₁ e₁ h₁ ↦ elim (and_then-Steps _ _ h₁) [
          | steps labels s₂ e₂ h₂ ↦ elim (and_then-Steps _ _ h₂) [
            | steps _ s₃ e₃ h₃ ↦ elim (and_then-Steps _ _ h₃) [
              | steps n s₄ e₄ h₄ ↦ elim (and_then-Steps _ _ h₄) [
                | steps final s₅ e₅ h₅ ↦
                    let (pages, posts, listing, imports) =
                      sync_pages_lem w run.id connection site source fuel none no_progress s u
                        loop in
                    let (fresh, same) = delete_missing_done w connection.id p.seen u s₁ e₁ in
                    let (_, q₂) = of_result_done source.list_taxonomy s₁ s₂ e₂ in
                    let (_, q₄) = update_many_done w.db external_taxonomy_term _ _ e₄ in
                    let (q₅, processed, both) = completed_done run connection p s₄ s₅ e₅ in
                    let rows : t.external_posts ≡ s₁.external_posts =
                      ap (λ z. z.1.external_posts) (sym h₅)
                      ∙ q₅
                      ∙ ap (λ z. z.external_posts) q₄
                      ∙ labels_kept connection labels s₂ s₃ e₃
                      ∙ ap (λ z. z.external_posts) (sym q₂) in
                    let is_answer : result_of true none final ≡ answer =
                      ok_injective _ _ (ap (λ z. z.0) h₅) in
                    record {
                      pages = pages;
                      posts = posts;
                      listing = listing;
                      rows = λ post m.
                          ap (any (same_post connection.id post.id)) rows
                          ∙ same post.id
                          ∙ imports.rows post m;
                      no_stale = λ r m mine alive.
                          ap (λ z. has z r.external_post_id) (sym imports.seen)
                          ∙ fresh r (subst (Memᴰ r) rows m) mine alive;
                      is_completed = ap (λ z. z.is_completed) (sym is_answer);
                      counted =
                          whole (ap (λ z. z.items_processed) (sym is_answer) ∙ processed)
                            imports.processed;
                      counted_both =
                          whole (ap (λ z. z.items_created + z.items_updated) (sym is_answer) ∙ both)
                            imports.counted;
                    }
              ]
            ]
          ]
        ]
      ]
    where
      whole : {a b n : ℕ} → a ≡ b → b ≡ 0 + n → a ≡ n
      whole e e' = omega arith

  pub some_answer :
      (a b : BloggerSyncJobResult)
      → ◌≡◌ {A = Result (Option BloggerSyncJobResult)} (ok (some a)) (ok (some b))
      → a ≡ b
  some_answer a b h = cc

  after_loop_lem :
      (run : IntegrationSyncRun) (connection : WebsiteConnection) (source : Provider)
      (o : Option Progress) (s t : Store) {answer : BloggerSyncJobResult}
      → after_loop w run connection source o s ≡ (ok (some answer), t)
      → (p : Progress) × (o ≡ some p) × (finish_run w run connection source p s ≡ (ok answer, t))
  unfolding after_loop
  after_loop_lem run connection source none s t h = absurd (ground arith)
  after_loop_lem run connection source (some p) s t {answer} h = elim (and_then-Steps _ _ h) [
    | steps made u e k ↦
        let q : u ≡ t = ap (λ z. z.1) k in
        let is_answer = some_answer made answer (ap (λ z. z.0) k) in
        (p, refl, rw (is_answer, q) at e)
  ]

  pub synchronize_lem :
      (fuel : ℕ) (run : IntegrationSyncRun) (connection : WebsiteConnection) (site : Text)
      (s t : Store) {answer : BloggerSyncJobResult}
      → synchronize w fuel run connection site s ≡ (ok (some answer), t)
      → (source : Provider) × (w.connect connection site ≡ ok source)
        × Synchronized connection source t answer
  unfolding synchronize
  synchronize_lem fuel run connection site s t h = elim (and_then-Steps _ _ h) [
    | steps source s₁ e₁ h₁ ↦ elim (and_then-Steps _ _ h₁) [
      | steps done s₂ e₂ h₂ ↦
          let (connected, _) = of_result_done (w.connect connection site) s s₁ e₁ in
          let (p, is_p, finished) = after_loop_lem run connection source done s₂ t h₂ in
          let loop : sync_pages w fuel run.id connection site source none no_progress s₁
              ≡ (ok (some p), s₂) =
            rw (← is_p) e₂ in
          (
            source,
            connected,
            finish_run_lem fuel run connection site source p s₁ s₂ t loop finished,
          )
    ]
  ]

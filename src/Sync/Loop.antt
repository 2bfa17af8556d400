-- ===== src/Sync/Loop.antt =====
-- apps/worker/src/blogger-sync.ts: the loop over all the pages.
use ai_content_operating_sys.Base.{
  ℕ, zero, suc, ◌≤◌, ◌≡◌, ◌⊎◌, refl, sym, ap, ◌∙◌, subst, true, false, List, [], ◌∷◌, ◌++◌, Option,
  none, some, arith, inl, inr,
}
use ai_content_operating_sys.Errors.{Result, ok, Action, steps, and_then-Steps, ok_injective}
use ai_content_operating_sys.Text.{Text}
use ai_content_operating_sys.Database.IntegrationRows.{WebsiteConnection, IntegrationSyncRun}
use ai_content_operating_sys.Database.Store.{Store, integration_sync_run}
use ai_content_operating_sys.Database.Laws.{update_one_done}
use ai_content_operating_sys.Sync.Job.{
  ProviderPost, ProviderPostPage, Provider, Worker, Progress, of_result,
}
use ai_content_operating_sys.Sync.Importing.{import_posts, record_page, after_page, sync_pages}
use ai_content_operating_sys.Sync.Pages.{
  ends, Listing, last_page, next_page, Imported, both_done, same_rows, import_posts_done,
}

-- How the loop went on after a page.
after_done :
    (w : Worker) (loop : Text → Action Store (Option Progress)) (next : Option Text) (p : Progress)
    (s t : Store) {o : Option Progress}
    → after_page w loop next p s ≡ (ok o, t)
    → ((ends next ≡ true) × (o ≡ some p) × (s ≡ t))
      ⊎ ((x : Text) × (next ≡ some x) × (ends (some x) ≡ false) × (loop x s ≡ (ok o, t)))
after_done w loop none p s t h =
    inl (refl, sym (ok_injective _ _ (ap (λ z. z.0) h)), ap (λ z. z.1) h)
after_done w loop (some []) p s t h =
    inl (refl, sym (ok_injective _ _ (ap (λ z. z.0) h)), ap (λ z. z.1) h)
after_done w loop (some (c ∷ x)) p s t h = inr (c ∷ x, refl, refl, h)

some_eq : (p q : Progress) → ◌≡◌ {A = Option Progress} (some p) (some q) → p ≡ q
some_eq p q h = cc

same_token : (a b : Text) → ◌≡◌ {A = Option Text} (some a) (some b) → a ≡ b
same_token a b h = cc

pub of_result_done :
    {A : Type 0} (r : Result A) (s t : Store) {a : A}
    → of_result r s ≡ (ok a, t)
    → (r ≡ ok a) × (s ≡ t)
of_result_done r s t h = (ap (λ z. z.0) h, ap (λ z. z.1) h)

module _ (w : Worker) (run_id : ℕ) (connection : WebsiteConnection) (site : Text)
    (source : Provider) where
  page_recorded :
      (token : Option Text) (p : Progress) (s t : Store) {r : IntegrationSyncRun}
      → record_page w run_id token p s ≡ (ok r, t)
      → t.external_posts ≡ s.external_posts
  unfolding record_page
  page_recorded token p s t h =
      let (q, _, _) = update_one_done w.db integration_sync_run _ _ h in
      ap (λ z. z.external_posts) q

  -- A loop that ends with its progress went through the pages of the provider, to the last one, and
  -- every post that they list has a row and is counted.
  pub sync_pages_lem :
      (fuel : ℕ) (token : Option Text) (p : Progress) (s t : Store) {p' : Progress}
      → sync_pages w fuel run_id connection site source token p s ≡ (ok (some p'), t)
      → (n : ℕ) × (posts : List ProviderPost) × Listing source token n posts
        × Imported connection.id posts p p' s t
  unfolding sync_pages
  sync_pages_lem zero token p s t h = absurd (ground arith)
  sync_pages_lem (suc fuel) token p s t {p'} h = elim (and_then-Steps _ _ h) [
    | steps page s₁ e₁ h₁ ↦ elim (and_then-Steps _ _ h₁) [
      | steps next s₂ e₂ h₂ ↦ elim (and_then-Steps _ _ h₂) [
        | steps r s₃ e₃ h₃ ↦
            let (listed, q₁) = of_result_done (source.list_posts token) s s₁ e₁ in
            let e₂' : import_posts w connection site p page.items s ≡ (ok next, s₂) = rw q₁ e₂ in
            let here = import_posts_done w connection site page.items p s s₂ e₂' in
            let here₃ =
              same_rows connection.id page.items p next s s₂ s₃
                (page_recorded page.next_page_token next s₂ s₃ e₃) here in
            elim (after_done w (λ x. sync_pages w fuel run_id connection site source (some x) next)
              page.next_page_token next s₃ t h₃) [
                | inl (end, is_p, q) ↦
                    let is_next : p' ≡ next = some_eq _ _ is_p in
                    (
                      1,
                      page.items,
                      last_page page listed end,
                      subst (λ z. Imported connection.id page.items p z s t) (sym is_next)
                          (subst (λ z. Imported connection.id page.items p next s z) q here₃),
                    )
                | inr (x, is_x, going, k) ↦
                    let (n, rest, more, there) = sync_pages_lem fuel (some x) next s₃ t k in
                    (
                      suc n,
                      page.items ++ rest,
                      next_page page x n rest listed is_x going more,
                      both_done connection.id page.items rest p next p' s s₃ t here₃ there,
                    )
              ]
      ]
    ]
  ]

  -- The loop has fuel enough when it has as much as the provider has pages: it does not stop for the
  -- lack of it.
  pub sync_pages-Listing :
      (fuel n : ℕ) (token : Option Text) (posts : List ProviderPost) (p : Progress) (s t : Store)
      → Listing source token n posts
      → n ≤ fuel
      → ¬ (sync_pages w fuel run_id connection site source token p s ≡ (ok none, t))
  unfolding sync_pages
  sync_pages-Listing zero n token posts p s t listing enough h = absurd (not_empty listing enough)
    where
      not_empty :
          {m : ℕ} {tok : Option Text} {ps : List ProviderPost} → Listing source tok m ps → ¬ (m ≤ 0)
      not_empty (last_page page e end) few = ground arith
      not_empty (next_page page x m rest e is_x going more) few = ground arith
  sync_pages-Listing (suc fuel) n token posts p s t listing enough h = elim (and_then-Steps _ _ h) [
    | steps page s₁ e₁ h₁ ↦ elim (and_then-Steps _ _ h₁) [
      | steps next s₂ e₂ h₂ ↦ elim (and_then-Steps _ _ h₂) [
        | steps r s₃ e₃ h₃ ↦
            let (listed, _) = of_result_done (source.list_posts token) s s₁ e₁ in
            elim (after_done w (λ x. sync_pages w fuel run_id connection site source (some x) next)
              page.next_page_token next s₃ t h₃) [
                | inl (end, is_p, q) ↦ absurd (ground arith)
                | inr (x, is_x, going, k) ↦
                    let (m, rest, more, few) = later page x listed is_x going listing enough in
                    sync_pages-Listing fuel m (some x) rest next s₃ t more few k
              ]
      ]
    ]
  ]
    where
      later :
          {m : ℕ} {tok : Option Text} {ps : List ProviderPost} (page : ProviderPostPage) (x : Text)
          → source.list_posts tok ≡ ok page
          → page.next_page_token ≡ some x
          → ends (some x) ≡ false
          → Listing source tok m ps
          → m ≤ suc fuel
          → (k : ℕ) × (rest : List ProviderPost) × Listing source (some x) k rest × (k ≤ fuel)
      later page x listed is_x going (last_page page' e end) few =
          let same : page ≡ page' = ok_injective _ _ (sym listed ∙ e) in
          let end' : ends (some x) ≡ true =
            subst (λ z. ends z ≡ true) is_x
              (subst (λ z. ends z.next_page_token ≡ true) (sym same) end) in
          absurd (ground arith)
      later page x listed is_x going (next_page page' y k rest e is_y going' more) few =
          let same : page ≡ page' = ok_injective _ _ (sym listed ∙ e) in
          let same_x : y ≡ x =
            same_token _ _ (sym is_y ∙ ap (λ z. z.next_page_token) (sym same) ∙ is_x) in
          (k, rest, subst (λ z. Listing source (some z) k rest) same_x more, omega arith)

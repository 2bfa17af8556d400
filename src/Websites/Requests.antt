-- ===== src/Websites/Requests.antt =====
-- The requests on the websites of a workspace (websites.service.ts), each keeping the slugs unique.
use ai_content_operating_sys.Base.{
  ℕ, ◌≡◌, refl, sym, ap, ◌∙◌, subst, false, ◌&&◌, List, [], ◌∷◌, any, map, Option, none, some, ◌==◌,
  arith, Memᴰ,
}
use ai_content_operating_sys.Errors.{ok, Action, pure, ◌>>=◌, steps, and_then-Steps, passed}
use ai_content_operating_sys.Errors.Atomic.{
  Reads, read_only, pure-Reads, or_throw-Reads, throw_if-Reads, bind-Reads,
}
use ai_content_operating_sys.Audit.{record_audit-Quiet, finished, record_audit_done}
use ai_content_operating_sys.Auth.Types.{AuthContext, WorkspaceContext}
use ai_content_operating_sys.Auth.Admission.{found_row}
use ai_content_operating_sys.Text.{edited_text, Text, Unicode}
use ai_content_operating_sys.Database.Client.{Client, update_row}
use ai_content_operating_sys.Database.IdentityRows.{Website, WebsiteStatus}
use ai_content_operating_sys.Database.Store.{Store, website, find_first}
use ai_content_operating_sys.Database.Laws.{update_one_done, create_done}
use ai_content_operating_sys.Database.Reads.{find_first-Reads}
use ai_content_operating_sys.Websites.Managing.{
  CreateWebsite, UpdateWebsite, WebsiteSummary, has_slug, website_clash, not_except, new_website,
  edited_website, find_website, assert_slug_available, create_website, check_slug, update_website,
  deactivate_website,
}
use ai_content_operating_sys.Websites.Slugs.{
  UniqueSlugs, InPlace, grow-UniqueSlugs, same_slug-UniqueSlugs, new_slug-UniqueSlugs,
}

-- A request of the controller, the id of a new row drawn before and the clock read before.
pub data WebsiteRequest : Type 0 where
  opening : ℕ → CreateWebsite → WebsiteRequest
  editing : ℕ → UpdateWebsite → WebsiteRequest
  closing : ℕ → ℕ → WebsiteRequest

abbrev dropped_answer : WebsiteSummary → Action Store (Unit {0})
dropped_answer w = pure tt

module _ (db : Client) (u : Unicode) (actor : AuthContext) (workspace : WorkspaceContext) where
  unfoldable pub run_website : WebsiteRequest → Action Store (Unit {0})
  run_website (opening id input) = create_website db u actor workspace id input >>= dropped_answer
  run_website (editing id input) = update_website db u actor workspace id input >>= dropped_answer
  run_website (closing now id) = deactivate_website db now actor workspace id

  -- The store after requests, answered or refused.
  unfoldable pub run_websites : List WebsiteRequest → Store → Store
  run_websites [] s = s
  run_websites (r ∷ rs) s = run_websites rs (run_website r s).1

edited_website-InPlace : (u : Unicode) (input : UpdateWebsite) → InPlace (edited_website u input)
unfolding edited_website
edited_website-InPlace u input = record { id = λ w. refl; place = λ w. refl }

abbrev closed : ℕ → Website → Website
closed now w = record w { status = WebsiteStatus.retired; deleted_at = some now }

closed-InPlace : (now : ℕ) → InPlace (closed now)
closed-InPlace now = record { id = λ w. refl; place = λ w. refl }

module _ (db : Client) where
  find_website_done :
      (w id : ℕ) {s t : Store} {r : Website}
      → find_website db w id s ≡ (ok r, t)
      → Memᴰ r s.websites × (r.id ≡ id) × (r.workspace_id ≡ w) × (t ≡ s)
  unfolding find_website
  find_website_done w id h = elim (and_then-Steps _ _ h) [
    | steps o s₁ e k ↦
        let (there, mine, q) = found_row db website _ _ e k in ground (arith, there, q)
  ]

  pub find_website-Reads : (w id : ℕ) → Reads (find_website db w id)
  unfolding find_website
  find_website-Reads w id = bind-Reads _ _ (find_first-Reads db website _) (λ o. or_throw-Reads o _)

  pub assert_slug_available-Reads :
      (w : ℕ) (slug : Text) (o : Option ℕ) → Reads (assert_slug_available db w slug o)
  unfolding assert_slug_available
  assert_slug_available-Reads w slug o =
      bind-Reads _ _ (find_first-Reads db website _) (λ o. throw_if-Reads _ _)

  pub check_slug-Reads : (w id : ℕ) (o : Option Text) → Reads (check_slug db w id o)
  unfolding check_slug
  check_slug-Reads w id none = pure-Reads tt
  check_slug-Reads w id (some []) = pure-Reads tt
  check_slug-Reads w id (some (c ∷ slug)) = assert_slug_available-Reads w (c ∷ slug) (some id)

  -- A slug that passed the test is on no other website of the workspace.
  available :
      (w : ℕ) (slug : Text) (o : Option ℕ) (s : Store) {t : Store} {x : Unit {0}}
      → assert_slug_available db w slug o s ≡ (ok x, t)
      → any (λ y. has_slug w slug y && not_except o y) s.websites ≡ false
  unfolding assert_slug_available find_first
  available w slug o s h = elim (and_then-Steps _ _ h) [
    | steps found s₁ e k ↦
        let (free, _) = passed _ _ k in
        let is_found = ap (λ z. z.0) e in db.find_first-none _ s.websites (ground arith)
  ]

  -- A written row, its slug kept or free.
  written-UniqueSlugs :
      (r : Website) (f : Website → Website) (o : Option Text) (s : Store) {t : Store} {x : Unit {0}}
      → InPlace f
      → ((w : Website) → (f w).slug ≡ edited_text (λ z. z) o w.slug)
      → Memᴰ r s.websites
      → check_slug db r.workspace_id r.id o s ≡ (ok x, t)
      → UniqueSlugs s.websites
      → UniqueSlugs (map (update_row (λ w. w.id == r.id) f) s.websites)
  unfolding check_slug
  written-UniqueSlugs r f none s in_place slugs there h before =
      same_slug-UniqueSlugs r s.websites f in_place before there slugs
  written-UniqueSlugs r f (some []) s in_place slugs there h before =
      same_slug-UniqueSlugs r s.websites f in_place before there slugs
  written-UniqueSlugs r f (some (c ∷ slug)) s in_place slugs there h before =
      new_slug-UniqueSlugs r s.websites f in_place before there (c ∷ slug) slugs
        (available r.workspace_id (c ∷ slug) (some r.id) s h)

  pub create_website-UniqueSlugs :
      (u : Unicode) (actor : AuthContext) (workspace : WorkspaceContext) (id : ℕ)
      (input : CreateWebsite) (s t : Store) {answer : WebsiteSummary}
      → create_website db u actor workspace id input s ≡ (ok answer, t)
      → UniqueSlugs s.websites
      → UniqueSlugs t.websites
  unfolding create_website
  create_website-UniqueSlugs u actor workspace id input s t h before = elim (and_then-Steps _ _ h) [
    | steps _ s₁ e₁ h₁ ↦ elim (and_then-Steps _ _ h₁) [
      | steps row s₂ e₂ h₂ ↦
          let q₁ = read_only _ (assert_slug_available-Reads _ _ _) e₁ in
          let (_, grown, free) = create_done db website website_clash _ e₂ in
          let rows : s₂.websites ≡ new_website u id workspace.id input ∷ s₁.websites =
            ap (λ z. z.websites) grown in
          let after = grow-UniqueSlugs _ s₁.websites free (rw q₁ before) in
          let (_, audited) = finished _ _ (record_audit-Quiet db _) h₂ in
          subst (λ z. UniqueSlugs z.websites) (sym audited.others)
            (subst UniqueSlugs (sym rows) after)
    ]
  ]

  pub update_website-UniqueSlugs :
      (u : Unicode) (actor : AuthContext) (workspace : WorkspaceContext) (id : ℕ)
      (input : UpdateWebsite) (s t : Store) {answer : WebsiteSummary}
      → update_website db u actor workspace id input s ≡ (ok answer, t)
      → UniqueSlugs s.websites
      → UniqueSlugs t.websites
  unfolding update_website edited_website
  update_website-UniqueSlugs u actor workspace id input s t h before = elim (and_then-Steps _ _ h) [
    | steps r s₁ e₁ h₁ ↦ elim (and_then-Steps _ _ h₁) [
      | steps _ s₂ e₂ h₂ ↦ elim (and_then-Steps _ _ h₂) [
        | steps row s₃ e₃ h₃ ↦
            let (there, is_id, in_place, q₁) = find_website_done workspace.id id e₁ in
            let q₂ = read_only _ (check_slug-Reads workspace.id id input.slug) e₂ in
            let (q₃, _, _) = update_one_done db website _ (edited_website u input) e₃ in
            let e₂' : check_slug db r.workspace_id r.id input.slug s₁ ≡ (ok tt, s₂) =
              rw (in_place, is_id) e₂ in
            let after =
              written-UniqueSlugs r (edited_website u input) input.slug s₁
                (edited_website-InPlace u input) (λ w. refl) (rw q₁ there) e₂' (rw q₁ before) in
            let rows : s₃.websites
                ≡ map (update_row (λ w. w.id == r.id) (edited_website u input)) s₁.websites =
              ap (λ z. z.websites) q₃
              ∙ ap (λ z. map (update_row (λ w. w.id == id) (edited_website u input)) z.websites) q₂
              ∙ ap (λ z. map (update_row (λ w. w.id == z) (edited_website u input)) s₁.websites)
                  (sym is_id) in
            let (_, audited) = finished _ _ (record_audit-Quiet db _) h₃ in
            subst (λ z. UniqueSlugs z.websites) (sym audited.others)
              (subst UniqueSlugs (sym rows) after)
      ]
    ]
  ]

  pub deactivate_website-UniqueSlugs :
      (now : ℕ) (actor : AuthContext) (workspace : WorkspaceContext) (id : ℕ) (s t : Store)
      {x : Unit {0}}
      → deactivate_website db now actor workspace id s ≡ (ok x, t)
      → UniqueSlugs s.websites
      → UniqueSlugs t.websites
  unfolding deactivate_website
  deactivate_website-UniqueSlugs now actor workspace id s t h before = elim (and_then-Steps _ _ h) [
    | steps r s₁ e₁ h₁ ↦ elim (and_then-Steps _ _ h₁) [
      | steps row s₂ e₂ h₂ ↦
          let (there, is_id, in_place, q₁) = find_website_done workspace.id id e₁ in
          let (q₂, _, _) = update_one_done db website _ (closed now) e₂ in
          let after =
            same_slug-UniqueSlugs r s₁.websites (closed now) (closed-InPlace now) (rw q₁ before)
              (rw q₁ there) (λ w. refl) in
          let rows : s₂.websites ≡ map (update_row (λ w. w.id == r.id) (closed now)) s₁.websites =
            ap (λ z. z.websites) q₂
            ∙ ap (λ z. map (update_row (λ w. w.id == z) (closed now)) s₁.websites) (sym is_id) in
          let audited = record_audit_done db _ h₂ in
          subst (λ z. UniqueSlugs z.websites) (sym audited.others)
            (subst UniqueSlugs (sym rows) after)
    ]
  ]

-- ===== src/Websites/Conflicts.antt =====
-- A slug that is taken (websites.service.ts).
use ai_content_operating_sys.Base.{
  ℕ, ◌≡◌, refl, ◌⊎◌, [], ◌∷◌, true, false, ◌&&◌, Option, none, some, arith, Memᴰ, ◌==◌, ==_refl,
  inl, inr,
}
use ai_content_operating_sys.Errors.{
  ok, err, coded, conflict_status, website_slug_conflict, and_then,
}
use ai_content_operating_sys.Text.{Text, Unicode, is_empty}
use ai_content_operating_sys.Text.Equality.{equal_refl}
use ai_content_operating_sys.Auth.Types.{AuthContext, WorkspaceContext}
use ai_content_operating_sys.Database.Client.{Client}
use ai_content_operating_sys.Database.Counting.{there-any}
use ai_content_operating_sys.Database.IdentityRows.{Website}
use ai_content_operating_sys.Database.Store.{Store, find_first}
use ai_content_operating_sys.Websites.Managing.{
  CreateWebsite, has_slug, not_except, assert_slug_available, create_website, UpdateWebsite,
  check_slug, update_website, find_website,
}

module _ (db : Client) where
  taken_slug :
      (w : ℕ) (slug : Text) (o : Option ℕ) (s : Store) (x : Website)
      → Memᴰ x s.websites
      → (has_slug w slug x && not_except o x) ≡ true
      → assert_slug_available db w slug o s ≡ (err (coded conflict_status website_slug_conflict), s)
  unfolding assert_slug_available find_first and_then
  taken_slug w slug o s x there h =
      let taken = there-any (λ y. has_slug w slug y && not_except o y) s.websites there h in
      elim (found_cases (db.find_first (λ y. has_slug w slug y && not_except o y) s.websites)) [
        | inl e ↦ absurd (let free = db.find_first-none _ s.websites e in ground arith)
        | inr (y, e) ↦ rw e refl
      ]
    where
      found_cases : (r : Option Website) → (r ≡ none) ⊎ ((y : Website) × (r ≡ some y))
      found_cases none = inl refl
      found_cases (some y) = inr (y, refl)

  -- A new website with the slug of a website of the workspace, deactivated or not, is refused as a
  -- conflict, and nothing is written.
  pub create_website_conflict :
      (u : Unicode) (actor : AuthContext) (workspace : WorkspaceContext) (id : ℕ)
      (input : CreateWebsite) (s : Store) (x : Website)
      → Memᴰ x s.websites
      → x.workspace_id ≡ workspace.id
      → x.slug ≡ input.slug
      → create_website db u actor workspace id input s
        ≡ (err (coded conflict_status website_slug_conflict), s)
  unfolding create_website and_then
  create_website_conflict u actor workspace id input s x there in_place same =
      let here : (has_slug workspace.id input.slug x && not_except none x) ≡ true =
        rw (in_place, same, ==_refl workspace.id, equal_refl input.slug) refl in
      rw (taken_slug workspace.id input.slug none s x there here) refl

  check_slug_conflict :
      (w id : ℕ) (slug : Text) (o : Option Text) (s : Store) (x : Website)
      → o ≡ some slug
      → is_empty slug ≡ false
      → Memᴰ x s.websites
      → (has_slug w slug x && not_except (some id) x) ≡ true
      → check_slug db w id o s ≡ (err (coded conflict_status website_slug_conflict), s)
  unfolding check_slug
  check_slug_conflict w id [] o s x q full there h = absurd (ground arith)
  check_slug_conflict w id (c ∷ slug) o s x q full there h =
      rw q (taken_slug w (c ∷ slug) (some id) s x there h)

  -- A change of a website to the slug, not empty, of another website of the workspace, deactivated or
  -- not, is refused as a conflict, and nothing is written.
  pub update_website_conflict :
      (u : Unicode) (actor : AuthContext) (workspace : WorkspaceContext) (id : ℕ)
      (input : UpdateWebsite) (s : Store) (r x : Website)
      → find_website db workspace.id id s ≡ (ok r, s)
      → Memᴰ x s.websites
      → x.workspace_id ≡ workspace.id
      → (x.id == id) ≡ false
      → input.slug ≡ some x.slug
      → is_empty x.slug ≡ false
      → update_website db u actor workspace id input s
        ≡ (err (coded conflict_status website_slug_conflict), s)
  unfolding update_website and_then
  update_website_conflict u actor workspace id input s r x found there in_place other same full =
      let here : (has_slug workspace.id x.slug x && not_except (some id) x) ≡ true =
        rw (in_place, other, ==_refl workspace.id, equal_refl x.slug) refl in
      rw (found, check_slug_conflict workspace.id id x.slug input.slug s x same full there here)
        refl

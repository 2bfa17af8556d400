-- ===== src/Websites/Runs.antt =====
-- Any sequence of requests on the websites of a workspace (websites.service.ts).
use ai_content_operating_sys.Base.{ℕ, sym, subst, List, [], ◌∷◌}
use ai_content_operating_sys.Errors.{pure, ◌>>◌}
use ai_content_operating_sys.Errors.Atomic.{
  NeverThrows, Atomic, pure-NeverThrows, bind-Atomic, then-Atomic, bind-NeverThrows,
}
use ai_content_operating_sys.Errors.Kept.{kept, dropped}
use ai_content_operating_sys.Audit.{record_audit}
use ai_content_operating_sys.Auth.Types.{AuthContext, WorkspaceContext}
use ai_content_operating_sys.Text.{Unicode}
use ai_content_operating_sys.Database.Client.{Client}
use ai_content_operating_sys.Database.IdentityRows.{AuditLog}
use ai_content_operating_sys.Database.Store.{Store, website}
use ai_content_operating_sys.Database.Reads.{create-Atomic, update_one-Atomic}
use ai_content_operating_sys.Websites.Managing.{
  CreateWebsite, UpdateWebsite, create_website, update_website, deactivate_website,
}
use ai_content_operating_sys.Websites.Slugs.{UniqueSlugs}
use ai_content_operating_sys.Contents.Rollback.Reads.{record_audit-NeverThrows}
use ai_content_operating_sys.Websites.Requests.{
  WebsiteRequest, opening, editing, closing, run_website, run_websites, find_website-Reads,
  assert_slug_available-Reads, check_slug-Reads, create_website-UniqueSlugs,
  update_website-UniqueSlugs, deactivate_website-UniqueSlugs,
}

module _ (db : Client) where
  -- The end of a request, after its write.
  answered-NeverThrows :
      {A : Type 0} (entry : AuditLog) (a : A) → NeverThrows (record_audit db entry >> pure a)
  answered-NeverThrows entry a =
      bind-NeverThrows _ _ (record_audit-NeverThrows db entry) (λ x. pure-NeverThrows a)

  create_website-Atomic :
      (u : Unicode) (actor : AuthContext) (workspace : WorkspaceContext) (id : ℕ)
      (input : CreateWebsite)
      → Atomic (create_website db u actor workspace id input)
  unfolding create_website
  create_website-Atomic u actor workspace id input =
      bind-Atomic _ _ (assert_slug_available-Reads db _ _ _)
        (λ x. then-Atomic _ _ (create-Atomic db website _ _) (λ w. answered-NeverThrows _ _))

  update_website-Atomic :
      (u : Unicode) (actor : AuthContext) (workspace : WorkspaceContext) (id : ℕ)
      (input : UpdateWebsite)
      → Atomic (update_website db u actor workspace id input)
  unfolding update_website
  update_website-Atomic u actor workspace id input =
      bind-Atomic _ _ (find_website-Reads db _ _) (λ w.
        bind-Atomic _ _ (check_slug-Reads db _ _ _)
          (λ x. then-Atomic _ _ (update_one-Atomic db website _ _) (λ r. answered-NeverThrows _ _)))

  deactivate_website-Atomic :
      (now : ℕ) (actor : AuthContext) (workspace : WorkspaceContext) (id : ℕ)
      → Atomic (deactivate_website db now actor workspace id)
  unfolding deactivate_website
  deactivate_website-Atomic now actor workspace id =
      bind-Atomic _ _ (find_website-Reads db _ _) (λ w.
        then-Atomic _ _ (update_one-Atomic db website _ _) (λ r. record_audit-NeverThrows db _))

module _ (db : Client) (u : Unicode) (actor : AuthContext) (workspace : WorkspaceContext) where
  run_website-UniqueSlugs :
      (r : WebsiteRequest) (s : Store)
      → UniqueSlugs s.websites
      → UniqueSlugs (run_website db u actor workspace r s).1.websites
  unfolding run_website
  run_website-UniqueSlugs (opening id input) s before =
      subst (λ z. UniqueSlugs z.websites)
        (sym (dropped (create_website db u actor workspace id input) s))
        (kept (λ z. UniqueSlugs z.websites) _ s
          (create_website-Atomic db u actor workspace id input)
          (λ a t. create_website-UniqueSlugs db u actor workspace id input s t) before)
  run_website-UniqueSlugs (editing id input) s before =
      subst (λ z. UniqueSlugs z.websites)
        (sym (dropped (update_website db u actor workspace id input) s))
        (kept (λ z. UniqueSlugs z.websites) _ s
          (update_website-Atomic db u actor workspace id input)
          (λ a t. update_website-UniqueSlugs db u actor workspace id input s t) before)
  run_website-UniqueSlugs (closing now id) s before =
      kept (λ z. UniqueSlugs z.websites) _ s (deactivate_website-Atomic db now actor workspace id)
        (λ a t. deactivate_website-UniqueSlugs db now actor workspace id s t) before

  -- Any sequence of requests on the websites of a workspace, answered or refused, keeps the ids of the
  -- websites unique, and the slugs unique in each workspace, those of deactivated websites included.
  pub run_websites-UniqueSlugs :
      (rs : List WebsiteRequest) (s : Store)
      → UniqueSlugs s.websites
      → UniqueSlugs (run_websites db u actor workspace rs s).websites
  unfolding run_websites
  run_websites-UniqueSlugs [] s before = before
  run_websites-UniqueSlugs (r ∷ rs) s before =
      run_websites-UniqueSlugs rs _ (run_website-UniqueSlugs r s before)

-- ===== src/ContentProfiles/Runs.antt =====
-- Any sequence of requests on the profiles, answered or refused (content-profiles.service.ts).
use ai_content_operating_sys.Base.{ℕ, sym, subst, List, [], ◌∷◌}
use ai_content_operating_sys.Errors.{pure, ◌>>◌}
use ai_content_operating_sys.Errors.Atomic.{
  NeverThrows, Atomic, pure-NeverThrows, throw_if-Reads, bind-Atomic, then-Atomic,
  transaction-Atomic, bind-NeverThrows,
}
use ai_content_operating_sys.Errors.Kept.{kept, dropped}
use ai_content_operating_sys.Audit.{record_audit}
use ai_content_operating_sys.Auth.Types.{AuthContext, WorkspaceContext}
use ai_content_operating_sys.Database.Client.{Client}
use ai_content_operating_sys.Database.IdentityRows.{AuditLog}
use ai_content_operating_sys.Database.Store.{Store, content_profile}
use ai_content_operating_sys.Database.Reads.{update_one-Atomic}
use ai_content_operating_sys.ContentProfiles.Managing.{
  Runtime, CreateContentProfile, UpdateContentProfile, write_profile, create_profile,
  update_profile, deactivate_profile, write_default, set_default,
}
use ai_content_operating_sys.ContentProfiles.Defaults.{OneDefault}
use ai_content_operating_sys.ContentProfiles.Requests.{
  ProfileRequest, create_request, update_request, deactivate_request, default_request, run_profile,
  run_profiles, find_profile-Reads, require_website-Reads, check_name-Reads, validate_json-Reads,
  check_rules-Reads, check_rename-Reads, deactivate_profile-OneDefault, update_profile-OneDefault,
}
use ai_content_operating_sys.ContentProfiles.Invariant.{
  create_profile-OneDefault, set_default-OneDefault,
}
use ai_content_operating_sys.Contents.Rollback.Reads.{record_audit-NeverThrows}

module _ (db : Client) where
  -- The end of a request, after its write.
  audited-NeverThrows :
      {A : Type 0} (entry : AuditLog) (a : A) → NeverThrows (record_audit db entry >> pure a)
  audited-NeverThrows entry a =
      bind-NeverThrows _ _ (record_audit-NeverThrows db entry) (λ x. pure-NeverThrows a)

  create_profile-Atomic :
      (runtime : Runtime) (actor : AuthContext) (workspace : WorkspaceContext) (id site : ℕ)
      (input : CreateContentProfile)
      → Atomic (create_profile db runtime actor workspace id site input)
  unfolding create_profile write_profile
  create_profile-Atomic runtime actor workspace id site input =
      bind-Atomic _ _ (require_website-Reads db _ _) (λ x₁.
        bind-Atomic _ _ (validate_json-Reads db runtime _ _) (λ x₂.
          bind-Atomic _ _ (check_name-Reads db _ _)
            (λ x₃. then-Atomic _ _ (transaction-Atomic _) (λ p. audited-NeverThrows _ p))))

  update_profile-Atomic :
      (runtime : Runtime) (actor : AuthContext) (workspace : WorkspaceContext) (site id : ℕ)
      (input : UpdateContentProfile)
      → Atomic (update_profile db runtime actor workspace site id input)
  unfolding update_profile
  update_profile-Atomic runtime actor workspace site id input =
      bind-Atomic _ _ (find_profile-Reads db _ _ _) (λ p.
        bind-Atomic _ _ (check_rules-Reads db runtime p input) (λ x₂.
          bind-Atomic _ _ (check_rename-Reads db _ _ _) (λ x₃.
            then-Atomic _ _ (update_one-Atomic db content_profile _ _)
              (λ r. audited-NeverThrows _ r))))

  deactivate_profile-Atomic :
      (actor : AuthContext) (workspace : WorkspaceContext) (site id : ℕ)
      → Atomic (deactivate_profile db actor workspace site id)
  unfolding deactivate_profile
  deactivate_profile-Atomic actor workspace site id =
      bind-Atomic _ _ (find_profile-Reads db _ _ _) (λ p.
        then-Atomic _ _ (update_one-Atomic db content_profile _ _)
          (λ r. record_audit-NeverThrows db _))

  set_default-Atomic :
      (actor : AuthContext) (workspace : WorkspaceContext) (site id : ℕ)
      → Atomic (set_default db actor workspace site id)
  unfolding set_default write_default
  set_default-Atomic actor workspace site id = bind-Atomic _ _ (find_profile-Reads db _ _ _) (λ p.
      bind-Atomic _ _ (throw_if-Reads _ _)
        (λ x. then-Atomic _ _ (transaction-Atomic _) (λ r. audited-NeverThrows _ r)))

module _ (db : Client) (runtime : Runtime) (actor : AuthContext)
    (workspace : WorkspaceContext) where
  run_profile-OneDefault :
      (r : ProfileRequest) (s : Store)
      → OneDefault s.profiles
      → OneDefault (run_profile db runtime actor workspace r s).1.profiles
  unfolding run_profile
  run_profile-OneDefault (create_request id site input) s before =
      subst (λ z. OneDefault z.profiles)
        (sym (dropped (create_profile db runtime actor workspace id site input) s))
        (kept (λ z. OneDefault z.profiles) _ s
          (create_profile-Atomic db runtime actor workspace id site input)
          (λ p t. create_profile-OneDefault db runtime actor workspace id site input s t) before)
  run_profile-OneDefault (update_request site id input) s before =
      subst (λ z. OneDefault z.profiles)
        (sym (dropped (update_profile db runtime actor workspace site id input) s))
        (kept (λ z. OneDefault z.profiles) _ s
          (update_profile-Atomic db runtime actor workspace site id input)
          (λ p t. update_profile-OneDefault db runtime actor workspace site id input s t) before)
  run_profile-OneDefault (deactivate_request site id) s before =
      kept (λ z. OneDefault z.profiles) _ s (deactivate_profile-Atomic db actor workspace site id)
        (λ x t. deactivate_profile-OneDefault db actor workspace site id s t) before
  run_profile-OneDefault (default_request site id) s before =
      subst (λ z. OneDefault z.profiles) (sym (dropped (set_default db actor workspace site id) s))
        (kept (λ z. OneDefault z.profiles) _ s (set_default-Atomic db actor workspace site id)
          (λ p t. set_default-OneDefault db actor workspace site id s t) before)

  -- Any sequence of requests on the profiles, answered or refused, keeps ids unique, at most one
  -- default profile for each website, and every default profile active.
  pub run_profiles-OneDefault :
      (rs : List ProfileRequest) (s : Store)
      → OneDefault s.profiles
      → OneDefault (run_profiles db runtime actor workspace rs s).profiles
  unfolding run_profiles
  run_profiles-OneDefault [] s before = before
  run_profiles-OneDefault (r ∷ rs) s before =
      run_profiles-OneDefault rs _ (run_profile-OneDefault r s before)

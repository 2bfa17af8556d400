-- ===== src/ContentProfiles/Requests.antt =====
-- The requests on the profiles, one after another (content-profiles.service.ts).
use ai_content_operating_sys.Base.{
  ℕ, ◌≡◌, sym, ◌∙◌, subst, Bool, List, [], ◌∷◌, Option, none, some, arith, Memᴰ,
}
use ai_content_operating_sys.Errors.{ok, Action, pure, ◌>>=◌, steps, and_then-Steps}
use ai_content_operating_sys.Errors.Atomic.{
  Reads, read_only, pure-Reads, or_throw-Reads, throw_if-Reads, bind-Reads, if-Reads,
}
use ai_content_operating_sys.Audit.{record_audit-Quiet, finished, record_audit_done}
use ai_content_operating_sys.Auth.Types.{AuthContext, WorkspaceContext}
use ai_content_operating_sys.Auth.Admission.{found_row}
use ai_content_operating_sys.Database.Client.{Client}
use ai_content_operating_sys.Database.ContentRows.{ContentProfile, EditorialRules}
use ai_content_operating_sys.Database.Store.{Store, content_profile, website, update_one}
use ai_content_operating_sys.Database.Laws.{update_one_done}
use ai_content_operating_sys.Database.Reads.{find_first-Reads}
use ai_content_operating_sys.Text.{Text}
use ai_content_operating_sys.Contents.Editing.{require_website}
use ai_content_operating_sys.ContentProfiles.Managing.{
  Runtime, CreateContentProfile, UpdateContentProfile, validate_json, find_profile, check_name,
  check_rules, check_rename, create_profile, update_profile, deactivate_profile, set_default,
}
use ai_content_operating_sys.ContentProfiles.Defaults.{
  OneDefault, Tame, deactivated-Tame, edited_profile-Tame, update-OneDefault,
}

-- A request of the controller, the id of a new row drawn before.
pub data ProfileRequest : Type 0 where
  create_request : ℕ → ℕ → CreateContentProfile → ProfileRequest
  update_request : ℕ → ℕ → UpdateContentProfile → ProfileRequest
  deactivate_request : ℕ → ℕ → ProfileRequest
  default_request : ℕ → ℕ → ProfileRequest

abbrev done : ContentProfile → Action Store (Unit {0})
done p = pure tt

module _ (db : Client) (runtime : Runtime) (actor : AuthContext)
    (workspace : WorkspaceContext) where
  unfoldable pub run_profile : ProfileRequest → Action Store (Unit {0})
  run_profile (create_request id site input) =
      create_profile db runtime actor workspace id site input >>= done
  run_profile (update_request site id input) =
      update_profile db runtime actor workspace site id input >>= done
  run_profile (deactivate_request site id) = deactivate_profile db actor workspace site id
  run_profile (default_request site id) = set_default db actor workspace site id >>= done

  -- The store after requests, answered or refused.
  unfoldable pub run_profiles : List ProfileRequest → Store → Store
  run_profiles [] s = s
  run_profiles (r ∷ rs) s = run_profiles rs (run_profile r s).1

module _ (db : Client) where
  pub find_profile_done :
      (w site id : ℕ) {s t : Store} {p : ContentProfile}
      → find_profile db w site id s ≡ (ok p, t)
      → Memᴰ p s.profiles × (p.id ≡ id) × (p.workspace_id ≡ w) × (p.website_id ≡ site) × (t ≡ s)
  unfolding find_profile
  find_profile_done w site id h = elim (and_then-Steps _ _ h) [
    | steps o u e k ↦
        let (there, mine, q) = found_row db content_profile _ _ e k in ground (arith, there, q)
  ]

  pub find_profile-Reads : (w site id : ℕ) → Reads (find_profile db w site id)
  unfolding find_profile
  find_profile-Reads w site id =
      bind-Reads _ _ (find_first-Reads db content_profile _) (λ o. or_throw-Reads o _)

  pub require_website-Reads : (w site : ℕ) → Reads (require_website db w site)
  unfolding require_website
  require_website-Reads w site =
      bind-Reads _ _ (find_first-Reads db website _) (λ o. throw_if-Reads _ _)

  pub check_name-Reads : (site : ℕ) (name : Text) → Reads (check_name db site name)
  unfolding check_name
  check_name-Reads site name =
      bind-Reads _ _ (find_first-Reads db content_profile _) (λ o. throw_if-Reads _ _)

  pub validate_json-Reads :
      (runtime : Runtime) (rules : EditorialRules) (topics : Option (List Text))
      → Reads (validate_json runtime rules topics)
  unfolding validate_json
  validate_json-Reads runtime rules topics =
      bind-Reads _ _ (throw_if-Reads _ _) (λ x. throw_if-Reads _ _)

  pub check_rules-Reads :
      (runtime : Runtime) (p : ContentProfile) (input : UpdateContentProfile)
      → Reads (check_rules db runtime p input)
  unfolding check_rules
  check_rules-Reads runtime p input =
      if-Reads _ _ _ (validate_json-Reads runtime _ _) (pure-Reads tt)

  pub check_rename-Reads :
      (site : ℕ) (p : ContentProfile) (name : Option Text) → Reads (check_rename db site p name)
  unfolding check_rename
  check_rename-Reads site p none = pure-Reads tt
  check_rename-Reads site p (some []) = pure-Reads tt
  check_rename-Reads site p (some (c ∷ s)) =
      if-Reads _ _ _ (check_name-Reads site _) (pure-Reads tt)

  pub update_one-OneDefault :
      (q : ContentProfile → Bool) (f : ContentProfile → ContentProfile) (s t : Store)
      {p : ContentProfile}
      → Tame f
      → update_one db content_profile q f s ≡ (ok p, t)
      → OneDefault s.profiles
      → OneDefault t.profiles
  update_one-OneDefault q f s t tame h before =
      let (e, _, _) = update_one_done db content_profile q f h in
      subst (λ z. OneDefault z.profiles) (sym e) (update-OneDefault q f s.profiles tame before)

  pub deactivate_profile-OneDefault :
      (actor : AuthContext) (workspace : WorkspaceContext) (site id : ℕ) (s t : Store)
      {x : Unit {0}}
      → deactivate_profile db actor workspace site id s ≡ (ok x, t)
      → OneDefault s.profiles
      → OneDefault t.profiles
  unfolding deactivate_profile
  deactivate_profile-OneDefault actor workspace site id s t h before = elim (and_then-Steps _ _ h) [
    | steps p s₁ e₁ h₁ ↦ elim (and_then-Steps _ _ h₁) [
      | steps _ s₂ e₂ h₂ ↦
          let q = read_only _ (find_profile-Reads workspace.id site id) e₁ in
          let changed = update_one-OneDefault _ _ s₁ s₂ deactivated-Tame e₂ (rw q before) in
          let audited = record_audit_done db _ h₂ in
          subst (λ z. OneDefault z.profiles) (sym audited.others) changed
    ]
  ]

  pub update_profile-OneDefault :
      (runtime : Runtime) (actor : AuthContext) (workspace : WorkspaceContext) (site id : ℕ)
      (input : UpdateContentProfile) (s t : Store) {x : ContentProfile}
      → update_profile db runtime actor workspace site id input s ≡ (ok x, t)
      → OneDefault s.profiles
      → OneDefault t.profiles
  unfolding update_profile
  update_profile-OneDefault runtime actor workspace site id input s t h before =
      elim (and_then-Steps _ _ h) [
        | steps p s₁ e₁ h₁ ↦ elim (and_then-Steps _ _ h₁) [
          | steps _ s₂ e₂ h₂ ↦ elim (and_then-Steps _ _ h₂) [
            | steps _ s₃ e₃ h₃ ↦ elim (and_then-Steps _ _ h₃) [
              | steps _ s₄ e₄ h₄ ↦
                  let q₁ = read_only _ (find_profile-Reads workspace.id site id) e₁ in
                  let q₂ = read_only _ (check_rules-Reads runtime p input) e₂ in
                  let q₃ = read_only _ (check_rename-Reads site p input.name) e₃ in
                  let same : s₃ ≡ s = q₃ ∙ q₂ ∙ q₁ in
                  let changed =
                    update_one-OneDefault _ _ s₃ s₄ (edited_profile-Tame runtime input) e₄
                      (rw same before) in
                  let (_, audited) = finished _ _ (record_audit-Quiet db _) h₄ in
                  subst (λ z. OneDefault z.profiles) (sym audited.others) changed
            ]
          ]
        ]
      ]

-- ===== src/ContentProfiles/Invariant.antt =====
-- Any sequence of requests on the profiles (content-profiles.service.ts).
use ai_content_operating_sys.Base.{
  ℕ, ◌≡◌, refl, sym, ap, ◌∙◌, subst, Bool, true, false, List, [], ◌∷◌, map, count, ◌==◌, arith,
  Memᴰ, Bool-cases, inl, inr, if◌then◌else◌, not-eq-false,
}
use ai_content_operating_sys.Errors.{ok, pure, steps, and_then-Steps, passed, commit-eq-ok}
use ai_content_operating_sys.Errors.Atomic.{read_only}
use ai_content_operating_sys.Audit.{record_audit-Quiet, finished}
use ai_content_operating_sys.Auth.Types.{AuthContext, WorkspaceContext}
use ai_content_operating_sys.Database.Client.{Client, update_row}
use ai_content_operating_sys.Database.ContentRows.{ContentProfile}
use ai_content_operating_sys.Database.Store.{Store, content_profile}
use ai_content_operating_sys.Database.Laws.{update_one_done, update_many_done, create_done}
use ai_content_operating_sys.ContentProfiles.Managing.{
  Runtime, CreateContentProfile, default_of, not_default, is_active_profile, new_profile,
  write_profile, create_profile, write_default, set_default, clear_default,
}
use ai_content_operating_sys.ContentProfiles.Defaults.{
  OneDefault, not_default-Tame, update-OneDefault, cleared, grow-OneDefault, as_default,
  set-OneDefault,
}
use ai_content_operating_sys.ContentProfiles.Requests.{
  find_profile_done, require_website-Reads, check_name-Reads, validate_json-Reads,
}

same_place :
    (w site : ℕ) (x : ContentProfile)
    → ((update_row (default_of w site) not_default x).id ≡ x.id)
      × ((update_row (default_of w site) not_default x).workspace_id ≡ x.workspace_id)
      × ((update_row (default_of w site) not_default x).website_id ≡ x.website_id)
      × ((update_row (default_of w site) not_default x).status ≡ x.status)
same_place w site x = elim (Bool-cases (default_of w site x)) [
  | inl hit ↦ rw hit (refl, refl, refl, refl)
  | inr miss ↦ rw miss (refl, refl, refl, refl)
]

module _ (db : Client) where
  -- Clearing the default of a website.
  clear_done :
      (w site : ℕ) (s t : Store) {n : ℕ}
      → clear_default db w site s ≡ (ok n, t)
      → OneDefault s.profiles
      → OneDefault t.profiles
        × (count (default_of w site) t.profiles ≡ 0)
        × (t.profiles ≡ map (update_row (default_of w site) not_default) s.profiles)
  clear_done w site s t h before =
      let (_, q) = update_many_done db content_profile (default_of w site) not_default h in
      let rows : t.profiles ≡ map (update_row (default_of w site) not_default) s.profiles =
        ap (λ z. z.profiles) q in
      (
        subst OneDefault (sym rows)
            (update-OneDefault _ not_default s.profiles not_default-Tame before),
        ap (count (default_of w site)) rows ∙ cleared w site s.profiles,
        rows,
      )

  -- The rows before the new one, of a profile that may be the default.
  cleared_if :
      (c : Bool) (w site : ℕ) (s t : Store) {n : ℕ}
      → (if c then clear_default db w site else pure 0) s ≡ (ok n, t)
      → OneDefault s.profiles
      → OneDefault t.profiles × (c ≡ true → count (default_of w site) t.profiles ≡ 0)
  cleared_if true w site s t h before =
      let (after, none_left, _) = clear_done w site s t h before in (after, λ _. none_left)
  cleared_if false w site s t h before =
      (subst (λ z. OneDefault z.profiles) (ap (λ z. z.1) h) before, λ e. absurd (ground arith))

  write_profile-OneDefault :
      (row : ContentProfile) (s t : Store) {p : ContentProfile}
      → is_active_profile row.status ≡ true
      → write_profile db row s ≡ (ok p, t)
      → OneDefault s.profiles
      → OneDefault t.profiles
  unfolding write_profile
  write_profile-OneDefault row s t live h before = elim (and_then-Steps _ _ (commit-eq-ok _ _ h)) [
    | steps n u e k ↦
        let (after, alone) =
          cleared_if row.is_default row.workspace_id row.website_id s u e before in
        let (_, grown, free) = create_done db content_profile _ row k in
        let rows : t.profiles ≡ row ∷ u.profiles = ap (λ z. z.profiles) grown in
        subst OneDefault (sym rows) (grow-OneDefault row u.profiles free live alone after)
  ]

  pub create_profile-OneDefault :
      (runtime : Runtime) (actor : AuthContext) (workspace : WorkspaceContext) (id site : ℕ)
      (input : CreateContentProfile) (s t : Store) {p : ContentProfile}
      → create_profile db runtime actor workspace id site input s ≡ (ok p, t)
      → OneDefault s.profiles
      → OneDefault t.profiles
  unfolding create_profile new_profile
  create_profile-OneDefault runtime actor workspace id site input s t h before =
      elim (and_then-Steps _ _ h) [
        | steps _ s₁ e₁ h₁ ↦ elim (and_then-Steps _ _ h₁) [
          | steps _ s₂ e₂ h₂ ↦ elim (and_then-Steps _ _ h₂) [
            | steps _ s₃ e₃ h₃ ↦ elim (and_then-Steps _ _ h₃) [
              | steps _ s₄ e₄ h₄ ↦
                  let q₁ = read_only _ (require_website-Reads db workspace.id site) e₁ in
                  let q₂ = read_only _ (validate_json-Reads db runtime _ _) e₂ in
                  let q₃ = read_only _ (check_name-Reads db site _) e₃ in
                  let same : s₃ ≡ s = q₃ ∙ q₂ ∙ q₁ in
                  let changed = write_profile-OneDefault _ s₃ s₄ refl e₄ (rw same before) in
                  let (_, audited) = finished _ _ (record_audit-Quiet db _) h₄ in
                  subst (λ z. OneDefault z.profiles) (sym audited.others) changed
            ]
          ]
        ]
      ]

  -- A profile that is not the default one is not changed when the default is cleared; the row that is
  -- made the default is there with its status.
  still_there :
      (w site : ℕ) (rows : List ContentProfile) (p : ContentProfile)
      → Memᴰ p rows
      → (p' : ContentProfile) × Memᴰ p' (map (update_row (default_of w site) not_default) rows)
        × (p'.id ≡ p.id)
        × (p'.workspace_id ≡ p.workspace_id)
        × (p'.website_id ≡ p.website_id)
        × (p'.status ≡ p.status)
  still_there w site [] p m = elim m [ ]
  still_there w site (x ∷ rows) p (Memᴰ.head e) =
      let x' = update_row (default_of w site) not_default x in
      let (a, b, c, d) = same_place w site x in
      (
        x',
        Memᴰ.head refl,
        a ∙ ap (λ z. z.id) (sym e),
        b ∙ ap (λ z. z.workspace_id) (sym e),
        c ∙ ap (λ z. z.website_id) (sym e),
        d ∙ ap (λ z. z.status) (sym e),
      )
  still_there w site (x ∷ rows) p (Memᴰ.tail m) =
      let (p', there, a, b, c, d) = still_there w site rows p m in (p', Memᴰ.tail there, a, b, c, d)

  write_default-OneDefault :
      (w site : ℕ) (p : ContentProfile) (s t : Store) {r : ContentProfile}
      → Memᴰ p s.profiles
      → p.workspace_id ≡ w
      → p.website_id ≡ site
      → is_active_profile p.status ≡ true
      → write_default db w site p.id s ≡ (ok r, t)
      → OneDefault s.profiles
      → OneDefault t.profiles
  unfolding write_default
  write_default-OneDefault w site p s t there in_place on_site live h before =
      elim (and_then-Steps _ _ (commit-eq-ok _ _ h)) [
        | steps n u e k ↦
            let (after, none_left, rows) = clear_done w site s u e before in
            let (p', there', same_id, same_w, same_site, same_status) =
              still_there w site s.profiles p there in
            let (q, _, _) = update_one_done db content_profile _ as_default k in
            let here : Memᴰ p' u.profiles = subst (Memᴰ p') (sym rows) there' in
            let live' : is_active_profile p'.status ≡ true =
              subst (λ z. is_active_profile z ≡ true) (sym same_status) live in
            let none' : count (default_of p'.workspace_id p'.website_id) u.profiles ≡ 0 =
              rw (same_w ∙ in_place, same_site ∙ on_site) none_left in
            let set = set-OneDefault p' u.profiles here live' none' after in
            let set' =
              subst (λ z. OneDefault (map (update_row (λ x. x.id == z) as_default) u.profiles))
                same_id set in
            subst (λ z. OneDefault z.profiles) (sym q) set'
      ]

  pub set_default-OneDefault :
      (actor : AuthContext) (workspace : WorkspaceContext) (site id : ℕ) (s t : Store)
      {p : ContentProfile}
      → set_default db actor workspace site id s ≡ (ok p, t)
      → OneDefault s.profiles
      → OneDefault t.profiles
  unfolding set_default
  set_default-OneDefault actor workspace site id s t h before = elim (and_then-Steps _ _ h) [
    | steps p s₁ e₁ h₁ ↦ elim (and_then-Steps _ _ h₁) [
      | steps _ s₂ e₂ h₂ ↦ elim (and_then-Steps _ _ h₂) [
        | steps row s₃ e₃ h₃ ↦
            let (there, is_id, in_place, on_site, q₁) =
              find_profile_done db workspace.id site id e₁ in
            let (live, q₂) = passed _ _ e₂ in
            let same : s₂ ≡ s = q₂ ∙ q₁ in
            let e₃' : write_default db workspace.id site p.id s₂ ≡ (ok row, s₃) = rw is_id e₃ in
            let changed =
              write_default-OneDefault workspace.id site p s₂ s₃ (rw same there) in_place on_site
                (not-eq-false _ live) e₃' (rw same before) in
            let (_, audited) = finished _ _ (record_audit-Quiet db _) h₃ in
            subst (λ z. OneDefault z.profiles) (sym audited.others) changed
      ]
    ]
  ]

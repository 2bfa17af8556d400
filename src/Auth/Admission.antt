-- ===== src/Auth/Admission.antt =====
-- What a request that passed the guards may rely on.
use ai_content_operating_sys.Base.{
  ℕ, ◌<◌, ◌≡◌, refl, sym, ap, ◌∙◌, Bool, true, false, not, ◌||◌, List, [], ◌∷◌, all, Option, some,
  is_some, ==_iff, Memᴰ, arith, subst, and-true, not-eq-false, unless,
}
use ai_content_operating_sys.Errors.{
  Failure, Result, ok, or_throw, or_throw_found, steps, and_then-Steps, passed,
}
use ai_content_operating_sys.Text.{Text}
use ai_content_operating_sys.Auth.Permissions.{
  Permission, WorkspaceRole, owner, admin, editor, reviewer, seo_manager, writer, viewer, includes,
  permissions_for_role, contents_reviews_approve,
}
use ai_content_operating_sys.Auth.Types.{AuthContext, WorkspaceContext}
use ai_content_operating_sys.Auth.Guards.{
  AccessClaims, bearer, verified, auth_of, check_session, authenticate, workspace_of,
  enter_workspace, permission_guard,
}
use ai_content_operating_sys.Database.Client.{Client}
use ai_content_operating_sys.Database.IdentityRows.{
  User, Session, Workspace, WorkspaceMember, is_active,
}
use ai_content_operating_sys.Database.Store.{
  Store, Table, find_first, session, user, workspace, workspace_member,
}
use ai_content_operating_sys.Database.Laws.{find_first_found}

-- `findUnique` of a row that has to be there.
pub found_row :
    (db : Client) {Row : Type 0} (t : Table Row) (p : Row → Bool) (e : Failure) {s₀ s₁ s₂ : Store}
    {o : Option Row} {r : Row}
    → find_first db t p s₀ ≡ (ok o, s₁)
    → or_throw o e s₁ ≡ (ok r, s₂)
    → Memᴰ r (t.rows s₀) × (p r ≡ true) × (s₂ ≡ s₀)
found_row db t p e {s₀} {s₁} {s₂} {o} {r} h k =
    let (there, q₂) = or_throw_found o e k in
    let h' : find_first db t p s₀ ≡ (ok (some r), s₁) = rw (← there) h in
    let (m, here, q₁) = find_first_found db t p h' in (m, here, q₂ ∙ q₁)

-- The live session of an active user that the token of the header names, and the user's current
-- version, which the token was made for.
pub record Authenticated (verify : Text → Option AccessClaims) (header : Option Text) (now : ℕ)
    (password_change_allowed : Bool) (s : Store) (auth : AuthContext) : Type 0 where
  pub claims : AccessClaims
  pub claimed : verified verify (bearer header) ≡ some claims
  pub login_row : Session
  pub person : User
  pub login_there : Memᴰ login_row s.sessions
  pub person_there : Memᴰ person s.users
  pub named : login_row.id ≡ claims.session_id
  pub owner : person.id ≡ login_row.user_id
  pub subject : login_row.user_id ≡ claims.sub
  pub not_revoked : is_some login_row.revoked_at ≡ false
  pub not_expired : now < login_row.expires_at
  pub active : is_active person.status ≡ true
  pub version : claims.version ≡ person.security_version
  pub password_changed : person.must_change_password ≡ true → password_change_allowed ≡ true
  pub is_auth : auth ≡ auth_of person login_row

neither : (a b : Bool) → (not a || b) ≡ false → (a ≡ true) × (b ≡ false)
neither a b h = ground arith

same_auth : (a b : AuthContext) → ◌≡◌ {A = Result AuthContext} (ok a) (ok b) → b ≡ a
same_auth a b h = let e : a ≡ b = cc in sym e

module _ (db : Client) (verify : Text → Option AccessClaims) (now : ℕ) (change_allowed : Bool) where
  -- A request that was authenticated has a bearer token that verifies; the session that it names is
  -- neither revoked nor expired, of the active user that it names, and of the user's current version;
  -- nothing changed, and a user who must change the password passes only where that is allowed.
  pub authenticate_lem :
      (header : Option Text) {s t : Store} {auth : AuthContext}
      → authenticate db verify now change_allowed header s ≡ (ok auth, t)
      → Authenticated verify header now change_allowed s auth × (t ≡ s)
  unfolding authenticate check_session
  authenticate_lem header {s} {t} {auth} h = elim (and_then-Steps _ _ h) [
    | steps claims s₁ e₁ h₁ ↦ elim (and_then-Steps _ _ h₁) [
      | steps o₂ s₂ e₂ h₂ ↦ elim (and_then-Steps _ _ h₂) [
        | steps login_row s₃ e₃ h₃ ↦ elim (and_then-Steps _ _ h₃) [
          | steps o₄ s₄ e₄ h₄ ↦ elim (and_then-Steps _ _ h₄) [
            | steps person s₅ e₅ h₅ ↦ elim (and_then-Steps _ _ h₅) [
              | steps _ s₆ e₆ h₆ ↦ elim (and_then-Steps _ _ h₆) [
                | steps _ s₇ e₇ h₇ ↦ elim (and_then-Steps _ _ h₇) [
                  | steps _ s₈ e₈ h₈ ↦ elim (and_then-Steps _ _ h₈) [
                    | steps _ s₉ e₉ h₉ ↦ elim (and_then-Steps _ _ h₉) [
                      | steps _ u e k ↦
                          let (claimed, q₁) = or_throw_found _ _ e₁ in
                          let (login_in, named, q₃) = found_row db session _ _ e₂ e₃ in
                          let (person_in, mine, q₅) = found_row db user _ _ e₄ e₅ in
                          let (live, q₆) = passed _ _ e₆ in
                          let (fresh, q₇) = passed _ _ e₇ in
                          let (active, q₈) = passed _ _ e₈ in
                          let (version, q₉) = passed _ _ e₉ in
                          let (changed, q) = passed _ _ e in
                          let (subject, not_revoked) = neither _ _ live in
                          let back₃ : s₃ ≡ s = q₃ ∙ q₁ in
                          let final : u ≡ t = ap (λ z. z.1) k in
                          (
                            record {
                              claims = claims;
                              claimed = claimed;
                              named = (==_iff _ _).0 named;
                              login_row = login_row;
                              person = person;
                              login_there = subst (λ z. Memᴰ login_row z.sessions) q₁ login_in;
                              person_there = subst (λ z. Memᴰ person z.users) back₃ person_in;
                              owner = (==_iff _ _).0 mine;
                              subject = (==_iff _ _).0 subject;
                              not_revoked = not_revoked;
                              not_expired = ground arith;
                              active = not-eq-false _ active;
                              version = (==_iff _ _).0 (not-eq-false _ version);
                              password_changed = unless _ _ changed;
                              is_auth = same_auth _ _ (ap (λ z. z.0) k);
                            },
                            sym final ∙ q ∙ q₉ ∙ q₈ ∙ q₇ ∙ q₆ ∙ q₅ ∙ back₃,
                          )
                    ]
                  ]
                ]
              ]
            ]
          ]
        ]
      ]
    ]
  ]

-- The member of an active workspace, an active user, whose role gives the permissions.
pub record Admitted (required : List Permission) (s : Store) (auth : AuthContext)
    (w : WorkspaceContext) : Type 0 where
  pub member : WorkspaceMember
  pub place : Workspace
  pub person : User
  pub member_there : Memᴰ member s.members
  pub place_there : Memᴰ place s.workspaces
  pub person_there : Memᴰ person s.users
  pub who : member.user_id ≡ auth.user_id
  pub in_place : place.id ≡ member.workspace_id
  pub is_person : person.id ≡ member.user_id
  pub open_workspace : place.is_active ≡ true
  pub active : is_active person.status ≡ true
  pub is_workspace : w ≡ workspace_of member
  pub permitted : all (includes (permissions_for_role member.role)) required ≡ true

both_active : (a b : Bool) → (not a || not b) ≡ false → (a ≡ true) × (b ≡ true)
both_active a b h = ground arith

permission_guard-allowed :
    (required : List Permission) (w : WorkspaceContext) {s t : Store} {x : Unit {0}}
    → permission_guard required (some w) s ≡ (ok x, t)
    → (all (includes w.permissions) required ≡ true) × (t ≡ s)
unfolding permission_guard
permission_guard-allowed [] w h = (refl, sym (ap (λ z. z.1) h))
permission_guard-allowed (p ∷ ps) w h = let (may, q) = passed _ _ h in (not-eq-false _ may, q)

same_workspace : (a b : WorkspaceContext) → ◌≡◌ {A = Result WorkspaceContext} (ok a) (ok b) → b ≡ a
same_workspace a b h = let e : a ≡ b = cc in sym e

module _ (db : Client) where
  -- A workspace that was entered, with the permissions checked, is one that the user is a member of.
  pub admitted_lem :
      (auth : AuthContext) (workspace_id : ℕ) (required : List Permission) {s t u : Store}
      {w : WorkspaceContext} {x : Unit {0}}
      → enter_workspace db auth workspace_id s ≡ (ok w, t)
      → permission_guard required (some w) t ≡ (ok x, u)
      → Admitted required s auth w × (w.id ≡ workspace_id) × (u ≡ s)
  unfolding enter_workspace
  admitted_lem auth workspace_id required {s} {t} {u} {w} h g = elim (and_then-Steps _ _ h) [
    | steps o₁ s₁ e₁ h₁ ↦ elim (and_then-Steps _ _ h₁) [
      | steps member s₂ e₂ h₂ ↦ elim (and_then-Steps _ _ h₂) [
        | steps o₃ s₃ e₃ h₃ ↦ elim (and_then-Steps _ _ h₃) [
          | steps place s₄ e₄ h₄ ↦ elim (and_then-Steps _ _ h₄) [
            | steps o₅ s₅ e₅ h₅ ↦ elim (and_then-Steps _ _ h₅) [
              | steps person s₆ e₆ h₆ ↦ elim (and_then-Steps _ _ h₆) [
                | steps _ v e k ↦
                    let (member_in, mine, q₂) = found_row db workspace_member _ _ e₁ e₂ in
                    let (place_in, here, q₄) = found_row db workspace _ _ e₃ e₄ in
                    let (person_in, me, q₆) = found_row db user _ _ e₅ e₆ in
                    let (open_, q₇) = passed _ _ e in
                    let (is_open, is_live) = both_active _ _ open_ in
                    let final : v ≡ t = ap (λ z. z.1) k in
                    let is_w : w ≡ workspace_of member = same_workspace _ _ (ap (λ z. z.0) k) in
                    let (permitted, q₈) = permission_guard-allowed required w g in
                    let (mine_user, mine_place) = and-true _ _ mine in
                    (
                      record {
                        member = member;
                        place = place;
                        person = person;
                        member_there = member_in;
                        place_there = subst (λ z. Memᴰ place z.workspaces) q₂ place_in;
                        person_there = subst (λ z. Memᴰ person z.users) (q₄ ∙ q₂) person_in;
                        who = (==_iff _ _).0 mine_user;
                        in_place = (==_iff _ _).0 here;
                        is_person = (==_iff _ _).0 me;
                        open_workspace = is_open;
                        active = is_live;
                        is_workspace = is_w;
                        permitted =
                            subst (λ z. all (includes z.permissions) required ≡ true) is_w
                              permitted;
                      },
                      ap (λ z. z.id) is_w ∙ (==_iff _ _).0 mine_place,
                      q₈ ∙ sym final ∙ q₇ ∙ q₆ ∙ q₄ ∙ q₂,
                    )
              ]
            ]
          ]
        ]
      ]
    ]
  ]

abbrev pub may_approve : WorkspaceRole → Bool
may_approve owner = true
may_approve admin = true
may_approve editor = true
may_approve reviewer = true
may_approve _ = false

-- Only owners, administrators, editors and reviewers may approve a content.
pub approvers :
    (role : WorkspaceRole)
    → includes (permissions_for_role role) contents_reviews_approve ≡ may_approve role
unfolding includes permissions_for_role
approvers owner = refl
approvers admin = refl
approvers editor = refl
approvers reviewer = refl
approvers seo_manager = refl
approvers writer = refl
approvers viewer = refl

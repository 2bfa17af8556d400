-- ===== src/Auth/Guards.antt =====
-- apps/api/src/common/auth: the three guards that a request goes through. The verification of a
-- token, by the package for JSON web tokens, is a parameter.
use ai_content_operating_sys.Base.{
  ℕ, Bool, false, not, ◌&&◌, ◌||◌, List, [], ◌∷◌, all, Option, none, some, is_some, leb, ◌==◌,
  if◌then◌else◌,
}
use ai_content_operating_sys.Errors.{
  Failure, Action, pure, throw_if, or_throw, ◌>>=◌, ◌>>◌, coded, unauthorized_status,
  forbidden_status, not_found_status, unauthorized, auth_session_revoked, auth_session_expired,
  user_inactive, auth_password_change_required, workspace_not_found, workspace_access_denied,
}
use ai_content_operating_sys.Text.{Text, units, after_prefix}
use ai_content_operating_sys.Auth.Permissions.{Permission, includes, permissions_for_role}
use ai_content_operating_sys.Auth.Types.{AuthContext, WorkspaceContext}
use ai_content_operating_sys.Database.Client.{Client}
use ai_content_operating_sys.Database.IdentityRows.{User, Session, WorkspaceMember, is_active}
use ai_content_operating_sys.Database.Store.{
  Store, find_first, session, user, workspace, workspace_member,
}

pub record AccessClaims : Type 0 where
  pub sub : ℕ
  pub session_id : ℕ
  pub version : ℕ

abbrev pub no_access : Failure
no_access = coded unauthorized_status unauthorized

abbrev pub revoked : Failure
revoked = coded unauthorized_status auth_session_revoked

-- `authorization?.startsWith('Bearer ')`, and `authorization.slice(7)`
abbrev pub bearer : Option Text → Option Text
bearer none = none
bearer (some header) = after_prefix (units "Bearer ") header

abbrev pub verified : (Text → Option AccessClaims) → Option Text → Option AccessClaims
verified verify none = none
verified verify (some token) = verify token

-- `request.auth`
abbrev pub auth_of : User → Session → AuthContext
auth_of u s = record {
  user_id = u.id;
  email = u.email;
  session_id = s.id;
  security_version = u.security_version;
  must_change_password = u.must_change_password;
}

-- The checks on the session of a token and on its user.
unfoldable pub check_session : ℕ → Bool → AccessClaims → Session → User → Action Store AuthContext
check_session now password_change_allowed claims s u = do
  throw_if (not (s.user_id == claims.sub) || is_some s.revoked_at) revoked
  throw_if (leb s.expires_at now) (coded unauthorized_status auth_session_expired)
  throw_if (not (is_active u.status)) (coded forbidden_status user_inactive)
  throw_if (not (claims.version == u.security_version)) no_access
  throw_if (u.must_change_password && not password_change_allowed)
      (coded forbidden_status auth_password_change_required)
  pure (auth_of u s)

module _ (db : Client) (verify : Text → Option AccessClaims) (now : ℕ) where
  -- `AccessTokenGuard.canActivate` on a route that is not public
  unfoldable pub authenticate : Bool → Option Text → Action Store AuthContext
  unfolding check_session after_prefix
  authenticate password_change_allowed header = do
    claims ← or_throw (verified verify (bearer header)) no_access
    found ← find_first db session (λ s. s.id == claims.session_id)
    s ← or_throw found revoked
    owner ← find_first db user (λ u. u.id == s.user_id)
    u ← or_throw owner revoked
    check_session now password_change_allowed claims s u

-- `AccessTokenGuard.canActivate`: a public route takes no authentication.
abbrev pub access_token_guard :
    Client
    → (Text → Option AccessClaims)
    → ℕ
    → Bool
    → Bool
    → Option Text
    → Action Store (Option AuthContext)
access_token_guard db verify now is_public password_change_allowed header =
    if is_public
    then pure none
    else (authenticate db verify now password_change_allowed header >>= λ a. pure (some a))

-- `request.workspace`
abbrev pub workspace_of : WorkspaceMember → WorkspaceContext
workspace_of m = record {
  id = m.workspace_id;
  member_id = m.id;
  role = m.role;
  permissions = permissions_for_role m.role;
}

abbrev pub no_workspace : Failure
no_workspace = coded not_found_status workspace_not_found

module _ (db : Client) where
  -- The member that `WorkspaceGuard` reads, with its workspace and its user.
  unfoldable pub enter_workspace : AuthContext → ℕ → Action Store WorkspaceContext
  unfolding permissions_for_role
  enter_workspace auth workspace_id = do
    found ←
        find_first db workspace_member
          (λ m. m.user_id == auth.user_id && m.workspace_id == workspace_id)
    m ← or_throw found no_workspace
    place ← find_first db workspace (λ w. w.id == m.workspace_id)
    w ← or_throw place no_workspace
    person ← find_first db user (λ u. u.id == m.user_id)
    u ← or_throw person no_workspace
    throw_if (not w.is_active || not (is_active u.status)) no_workspace
    pure (workspace_of m)

  -- `WorkspaceGuard.canActivate`; `none` is the answer `false`.
  abbrev pub workspace_guard :
      Option AuthContext → Option ℕ → Action Store (Option WorkspaceContext)
  workspace_guard none _ = pure none
  workspace_guard (some auth) none = pure none
  workspace_guard (some auth) (some workspace_id) =
      enter_workspace auth workspace_id >>= λ w. pure (some w)

abbrev pub allowed : Option WorkspaceContext → List Permission → Bool
allowed none required = false
allowed (some w) required = all (includes w.permissions) required

-- `PermissionGuard.canActivate`
unfoldable pub permission_guard :
    List Permission → Option WorkspaceContext → Action Store (Unit {0})
permission_guard [] w = pure tt
permission_guard (p ∷ ps) w =
    throw_if (not (allowed w (p ∷ ps))) (coded forbidden_status workspace_access_denied)

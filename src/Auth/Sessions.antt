-- ===== src/Auth/Sessions.antt =====
-- auth.service.ts: login, refresh, logout, the list and the revocation of sessions, and the change of
-- a password. The package for JSON web tokens is the argument `sign`.
use Prim.Native.String.{String}
use ai_content_operating_sys.Base.{
  ℕ, Bool, true, false, not, ◌&&◌, List, [], ◌∷◌, ◌++◌, map, filter, Option, none, some, is_some,
  ◌==◌,
}
use ai_content_operating_sys.Errors.{
  Failure, Action, pure, throw, throw_if, or_throw, gets, transaction, and_then, ◌>>=◌, ◌>>◌, coded,
  unauthorized_status, forbidden_status, not_found_status, bad_request, auth_invalid_credentials,
  auth_session_expired, auth_session_revoked, user_inactive, validation,
}
use ai_content_operating_sys.Errors
use ai_content_operating_sys.Text.{Text, take}
use ai_content_operating_sys.Audit.{record_audit}
use ai_content_operating_sys.Auth.Permissions.{WorkspaceRole, Permission, permissions_for_role}
use ai_content_operating_sys.Auth.Types.{AuthContext}
use ai_content_operating_sys.Auth.Passwords.{Argon2, assert_valid, hash_password, verify_password}
use ai_content_operating_sys.Database.Client.{Client}
use ai_content_operating_sys.Database.IdentityRows.{
  User, UserStatus, Session, Workspace, WorkspaceMember,
}
use ai_content_operating_sys.Database.Store.{
  Store, find_first_or_throw, find_many, update_one, update_many, session, user, workspace,
  workspace_member,
}

-- The header and the address of a request, and its clock.
pub record Request : Type 0 where
  pub now : ℕ
  pub user_agent : Option Text
  pub ip : Option Text

-- The settings, durations in milliseconds.
pub record Settings : Type 0 where
  pub jwt_access_ttl : ℕ
  pub refresh_token_ttl : ℕ
  pub login_rate_limit_window : ℕ
  pub login_rate_limit_max : ℕ
  pub password_min_length : ℕ

-- `SafeUserSummary`, without the creation and update times
pub record SafeUserSummary : Type 0 where
  pub id : ℕ
  pub email : Text
  pub display_name : Option Text
  pub status : UserStatus
  pub must_change_password : Bool
  pub last_login_at : Option ℕ
  pub password_changed_at : Option ℕ

-- An entry of `AuthUser.workspaces`.
pub record WorkspaceAccess : Type 0 where
  pub id : ℕ
  pub name : Text
  pub slug : Text
  pub role : WorkspaceRole
  pub permissions : List Permission

pub record AuthUser : Type 0 where
  pub summary : SafeUserSummary
  pub workspaces : List WorkspaceAccess

pub record AuthResult : Type 0 where
  pub access_token : Text
  pub expires_in : ℕ
  pub account : AuthUser
  pub refresh_token : Text

-- `value ? { value } : {}` on a text
abbrev pub not_empty : Option Text → Option Text
not_empty none = none
not_empty (some []) = none
not_empty (some (c ∷ s)) = some (c ∷ s)

-- `presentUser`
abbrev pub present_user : User → SafeUserSummary
present_user u = record {
  id = u.id;
  email = u.email;
  display_name = not_empty u.display_name;
  status = u.status;
  must_change_password = u.must_change_password;
  last_login_at = u.last_login_at;
  password_changed_at = u.password_changed_at;
}

abbrev pub access_of : WorkspaceMember → Workspace → WorkspaceAccess
access_of m w = record {
  id = w.id;
  name = w.name;
  slug = w.slug;
  role = m.role;
  permissions = permissions_for_role m.role;
}

-- The active workspaces of the memberships.
abbrev pub accesses : List Workspace → List WorkspaceMember → List WorkspaceAccess
accesses places [] = []
accesses places (m ∷ ms) =
    let rest = accesses places ms in
    map (access_of m) (filter (λ w. w.id == m.workspace_id && w.is_active) places) ++ rest

-- `presentAuthUser`
abbrev pub present_auth_user : User → List WorkspaceMember → List Workspace → AuthUser
present_auth_user u memberships places = record {
  summary = present_user u;
  workspaces = accesses places memberships;
}

abbrev pub session_clash : Session → Session → Bool
session_clash a b = a.id == b.id

abbrev pub invalid_credentials : Failure
invalid_credentials = coded unauthorized_status auth_invalid_credentials

-- `sessionError`
abbrev pub session_revoked : Failure
session_revoked = coded unauthorized_status auth_session_revoked

abbrev pub session_expired : Failure
session_expired = coded unauthorized_status auth_session_expired

-- `data: { revokedAt, revocationReason }`
abbrev pub revoke : ℕ → String → Session → Session
revoke now reason r = record r { revoked_at = some now; revocation_reason = some reason }

-- `revokedAt: null`
abbrev pub unrevoked : Session → Bool
unrevoked r = not (is_some r.revoked_at)

abbrev pub details : Option Text → ℕ → Option Text
unfolding take
details none n = none
details (some v) n = some (take n v)

module _ (db : Client) where
  abbrev pub audit_auth : String → Option ℕ → String → Option ℕ → Action Store (Unit {0})
  audit_auth action actor target_type target_id = record_audit db (record {
    action = action;
    actor_user_id = actor;
    workspace_id = none;
    website_id = none;
    target_type = target_type;
    target_id = target_id;
  })

  -- `revokeUserSessions`
  unfoldable pub revoke_user_sessions : ℕ → ℕ → String → Action Store ℕ
  revoke_user_sessions now user_id reason =
      update_many db session (λ r. r.user_id == user_id && unrevoked r) (revoke now reason)

  -- `revokeFamily`
  unfoldable pub revoke_family : ℕ → ℕ → String → Action Store ℕ
  revoke_family now family_id reason =
      update_many db session (λ r. r.family_id == family_id && unrevoked r) (revoke now reason)

  -- `authUser` with its presentation
  unfoldable pub me : ℕ → Action Store AuthUser
  me user_id = do
    u ← find_first_or_throw db user (λ x. x.id == user_id)
    memberships ← find_many db workspace_member (λ m. m.user_id == u.id)
    places ← find_many db workspace (λ _. true)
    pure (present_auth_user u memberships places)

  -- `logout`
  unfoldable pub logout : AuthContext → Request → Action Store (Unit {0})
  logout auth request = do
    _ ←
        update_many db session
          (λ r. r.id == auth.session_id && r.user_id == auth.user_id && unrevoked r)
          (revoke request.now "LOGOUT")
    audit_auth "auth.logout" (some auth.user_id) "Session" (some auth.session_id)

  -- `logoutAll`
  unfoldable pub logout_all : AuthContext → Request → Action Store (Unit {0})
  logout_all auth request = do
    _ ← revoke_user_sessions request.now auth.user_id "LOGOUT_ALL"
    audit_auth "auth.logout_all" (some auth.user_id) "User" (some auth.user_id)

  -- `revokeSession`; the answer tells whether it is the session of the request.
  unfoldable pub revoke_session : AuthContext → ℕ → Request → Action Store Bool
  revoke_session auth session_id request = do
    count ←
        update_many db session (λ r. r.id == session_id && r.user_id == auth.user_id && unrevoked r)
          (revoke request.now "USER_REVOKED")
    throw_if (count == 0) (coded not_found_status Errors.not_found)
    audit_auth "auth.session.revoked" (some auth.user_id) "Session" (some session_id)
    pure (session_id == auth.session_id)

module _ (db : Client) (argon : Argon2) (settings : Settings) where
  -- The transaction of `changePassword`.
  unfoldable pub write_password : ℕ → ℕ → ℕ → Text → Action Store ℕ
  write_password now user_id session_id password_hash = transaction do
    _ ←
        update_one db user (λ u. u.id == user_id)
          (λ u. record u {
            password_hash = password_hash;
            must_change_password = false;
            password_changed_at = some now;
          })
    update_many db session (λ r. r.user_id == user_id && not (r.id == session_id) && unrevoked r)
        (revoke now "PASSWORD_CHANGED")

  -- `changePassword`
  unfoldable pub change_password : AuthContext → Text → Text → Request → Action Store (Unit {0})
  change_password auth current_password new_password request = do
    u ← find_first_or_throw db user (λ x. x.id == auth.user_id)
    throw_if (not (verify_password argon u.password_hash current_password)) invalid_credentials
    assert_valid settings.password_min_length new_password
    throw_if (verify_password argon u.password_hash new_password) (coded bad_request validation)
    password_hash ← hash_password argon settings.password_min_length new_password
    _ ← write_password request.now u.id auth.session_id password_hash
    audit_auth db "auth.password.changed" (some u.id) "User" (some u.id)

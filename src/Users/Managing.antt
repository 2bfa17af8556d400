-- ===== src/Users/Managing.antt =====
-- users.service.ts: the accounts, managed by the owners and administrators of active workspaces.

use ai_content_operating_sys.Base.{
  ℕ, ◌+◌, Bool, true, false, not, ◌&&◌, ◌||◌, List, [], ◌∷◌, any, map, Option, none, some, is_some,
  ◌==◌, if◌then◌else◌,
}
use ai_content_operating_sys.Errors.{
  Failure, Action, pure, throw, throw_if, or_throw, transaction, ◌>>=◌, ◌>>◌, coded, bad_request,
  forbidden_status, not_found_status, conflict_status, validation, member_role_forbidden,
  user_email_conflict,
}
use ai_content_operating_sys.Errors
use ai_content_operating_sys.Text.{Text, Unicode, trim, optional_text, equal, is_empty}
use ai_content_operating_sys.Auth.Permissions.{WorkspaceRole}
use ai_content_operating_sys.Auth.Types.{AuthContext}
use ai_content_operating_sys.Auth.Passwords.{Argon2, hash_password, temporary_password}
use ai_content_operating_sys.Auth.Sessions.{
  SafeUserSummary, present_user, revoke_user_sessions, audit_auth,
}
use ai_content_operating_sys.Database.Client.{Client}
use ai_content_operating_sys.Database.IdentityRows.{User, UserStatus, Workspace, WorkspaceMember}
use ai_content_operating_sys.Database.Store.{Store, user, find_first, update_one, create}
use ai_content_operating_sys.Workspaces.Members.{
  is_owner, is_admin, assert_more_than_one_active_owner,
}

-- `workspace: { isActive: true }`
abbrev pub in_active_workspace : List Workspace → WorkspaceMember → Bool
in_active_workspace places m = any (λ w. w.id == m.workspace_id && w.is_active) places

abbrev pub manages : List Workspace → ℕ → WorkspaceMember → Bool
manages places user_id m =
    m.user_id == user_id && (is_owner m.role || is_admin m.role) && in_active_workspace places m

-- `{ userId, role: OWNER, workspace: { isActive: true } }`
abbrev pub owns : List Workspace → ℕ → WorkspaceMember → Bool
owns places user_id m = m.user_id == user_id && is_owner m.role && in_active_workspace places m

abbrev pub user_clash : User → User → Bool
user_clash a b = a.id == b.id || equal a.email b.email

abbrev pub user_not_found : Failure
user_not_found = coded not_found_status Errors.not_found

-- `emailConflict`
abbrev pub email_conflict : Failure
email_conflict = coded conflict_status user_email_conflict

-- `UpdateUserDto`
pub record UpdateUser : Type 0 where
  pub email : Option Text
  pub display_name : Option Text

abbrev pub present_empty : List WorkspaceMember → Bool
present_empty [] = true
present_empty (_ ∷ _) = false

-- `email ? … : …` on the normalized address
abbrev pub asked_email : Unicode → Option Text → Option Text
asked_email u none = none
asked_email u (some e) =
    if is_empty (u.to_lower_case (trim e)) then none else some (u.to_lower_case (trim e))

abbrev pub renamed : Option Text → Option Text → Option Text
renamed none old = old
renamed (some name) old = optional_text (some name)

abbrev pub with_email : Option Text → User → User
with_email none u = u
with_email (some e) u = record u { email = e }

module _ (db : Client) where
  -- `assertManager`
  unfoldable pub assert_manager : ℕ → Action Store (List WorkspaceRole)
  assert_manager user_id s =
      let memberships = db.find_many (manages s.workspaces user_id) s.members in
      (throw_if (present_empty memberships) (coded forbidden_status Errors.forbidden)
          >> pure (map (λ m. m.role) memberships))
        s

  -- `find`
  unfoldable pub find_user : ℕ → Action Store User
  find_user user_id = do
    found ← find_first db user (λ u. u.id == user_id)
    or_throw found user_not_found

  -- An administrator does not manage an owner.
  unfoldable pub assert_not_owner : ℕ → Action Store (Unit {0})
  assert_not_owner target_user_id s =
      throw_if (not (db.count_rows (owns s.workspaces target_user_id) s.members == 0))
        (coded forbidden_status member_role_forbidden) s

  -- `assertCanManage`
  unfoldable pub assert_can_manage : ℕ → ℕ → Action Store (Unit {0})
  assert_can_manage actor_user_id target_user_id = do
    roles ← assert_manager actor_user_id
    _ ← find_user target_user_id
    if any is_owner roles then pure tt else assert_not_owner target_user_id

  -- `create`, with the hash and the random bytes drawn before
  unfoldable pub create_user :
      Unicode
      → Argon2
      → ℕ
      → AuthContext
      → ℕ
      → Text
      → Option Text
      → Text
      → ℕ
      → Action Store (SafeUserSummary × Text)
  create_user u argon minimum actor user_id email display_name random now = do
    _ ← assert_manager actor.user_id
    taken ← find_first db user (λ x. equal x.email (u.to_lower_case (trim email)))
    throw_if (is_some taken) email_conflict
    password_hash ← hash_password argon minimum (temporary_password random)
    row ← create db user user_clash (record {
      id = user_id;
      email = u.to_lower_case (trim email);
      display_name = optional_text display_name;
      password_hash = password_hash;
      status = UserStatus.active;
      must_change_password = true;
      security_version = 1;
      last_login_at = none;
      password_changed_at = some now;
    })
    audit_auth db "user.created" (some actor.user_id) "User" (some row.id)
    pure (present_user row, temporary_password random)

  -- `get`
  unfoldable pub get_user : AuthContext → ℕ → Action Store SafeUserSummary
  get_user actor user_id = do
    _ ← assert_manager actor.user_id
    row ← find_user user_id
    pure (present_user row)

  -- The test that no other account has the address.
  unfoldable pub check_email : ℕ → Option Text → Action Store (Unit {0})
  check_email user_id none = pure tt
  check_email user_id (some email) = do
    conflict ← find_first db user (λ x. equal x.email email && not (x.id == user_id))
    throw_if (is_some conflict) email_conflict

  -- `update`
  unfoldable pub update_user : Unicode → AuthContext → ℕ → UpdateUser → Action Store SafeUserSummary
  update_user u actor user_id input = do
    assert_can_manage actor.user_id user_id
    check_email user_id (asked_email u input.email)
    row ←
        update_one db user (λ x. x.id == user_id)
          (λ x. record (with_email (asked_email u input.email) x) {
            display_name = renamed input.display_name x.display_name;
          })
    audit_auth db "user.updated" (some actor.user_id) "User" (some user_id)
    pure (present_user row)

  -- The loop over the workspaces that a user owns.
  unfoldable pub check_owned : List WorkspaceMember → Action Store (Unit {0})
  check_owned [] = pure tt
  check_owned (m ∷ ms) = assert_more_than_one_active_owner db m.workspace_id >> check_owned ms

  abbrev pub owned_memberships : ℕ → Action Store (List WorkspaceMember)
  owned_memberships user_id s = (Errors.ok (db.find_many (owns s.workspaces user_id) s.members), s)

  -- The transaction of `deactivate`.
  unfoldable pub write_deactivation : ℕ → ℕ → Action Store ℕ
  write_deactivation now user_id = transaction do
    owned ← owned_memberships user_id
    check_owned owned
    _ ←
        update_one db user (λ u. u.id == user_id)
          (λ u. record u {
            status = UserStatus.inactive;
            security_version = u.security_version + 1;
          })
    revoke_user_sessions db now user_id "USER_DEACTIVATED"

  -- `deactivate`
  unfoldable pub deactivate : AuthContext → ℕ → ℕ → Action Store (Unit {0})
  deactivate actor user_id now = do
    throw_if (actor.user_id == user_id) (coded bad_request validation)
    assert_can_manage actor.user_id user_id
    _ ← write_deactivation now user_id
    audit_auth db "user.deactivated" (some actor.user_id) "User" (some user_id)

  -- `reactivate`
  unfoldable pub reactivate : AuthContext → ℕ → Action Store (Unit {0})
  reactivate actor user_id = do
    assert_can_manage actor.user_id user_id
    _ ← update_one db user (λ u. u.id == user_id) (λ u. record u { status = UserStatus.active })
    audit_auth db "user.reactivated" (some actor.user_id) "User" (some user_id)

  -- The transaction of `resetPassword`.
  unfoldable pub write_reset : ℕ → ℕ → Text → Action Store User
  write_reset now user_id password_hash = transaction do
    row ←
        update_one db user (λ u. u.id == user_id)
          (λ u. record u {
            password_hash = password_hash;
            must_change_password = true;
            password_changed_at = some now;
            security_version = u.security_version + 1;
          })
    _ ← revoke_user_sessions db now user_id "ADMIN_PASSWORD_RESET"
    pure row

  -- `resetPassword`
  unfoldable pub reset_password :
      Argon2 → ℕ → AuthContext → ℕ → Text → ℕ → Action Store (SafeUserSummary × Text)
  reset_password argon minimum actor user_id random now = do
    assert_can_manage actor.user_id user_id
    password_hash ← hash_password argon minimum (temporary_password random)
    row ← write_reset now user_id password_hash
    audit_auth db "user.password.reset" (some actor.user_id) "User" (some user_id)
    pure (present_user row, temporary_password random)

  -- `revokeSessions`
  unfoldable pub revoke_sessions : AuthContext → ℕ → ℕ → Action Store (Unit {0})
  revoke_sessions actor user_id now = do
    assert_can_manage actor.user_id user_id
    _ ← revoke_user_sessions db now user_id "ADMIN_REVOKED"
    audit_auth db "user.sessions.revoked" (some actor.user_id) "User" (some user_id)

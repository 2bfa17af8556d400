-- ===== src/Users/Tests.antt =====
-- An owner, an administrator and a writer of one workspace.
use ai_content_operating_sys.Base.{
  ℕ, ◌≡◌, ◌≢◌, refl, true, false, [], ◌∷◌, Option, none, some, arith,
}
use ai_content_operating_sys.Errors.{ok, and_then, commit, rescue}
use ai_content_operating_sys.Text.{Text, units, after_prefix, trim}
use ai_content_operating_sys.Audit.{record_audit}
use ai_content_operating_sys.Auth.Permissions.{WorkspaceRole, owner, writer}
use ai_content_operating_sys.Auth.Types.{AuthContext}
use ai_content_operating_sys.Auth.Guards.{AccessClaims, auth_of, check_session, authenticate}
use ai_content_operating_sys.Auth.Passwords.{
  Argon2, assert_valid, hash_password, temporary_password,
}
use ai_content_operating_sys.Auth.Sessions.{SafeUserSummary, present_user, revoke_user_sessions}
use ai_content_operating_sys.Database.Client.{in_memory}
use ai_content_operating_sys.Database.IdentityRows.{User, UserStatus, WorkspaceMember, Session}
use ai_content_operating_sys.Database.Store.{
  Store, empty, find_first, find_first_or_throw, update_one, update_many, create,
}
use ai_content_operating_sys.Workspaces.Members.{assert_more_than_one_active_owner}
use ai_content_operating_sys.Users.Managing.{
  assert_manager, find_user, assert_can_manage, check_owned, write_deactivation, deactivate,
  write_reset, reset_password,
}
use ai_content_operating_sys.Users.Managers.{Manager, assert_can_manage_lem}
use ai_content_operating_sys.Users.Deactivation.{UniqueMemberships, Deactivated, deactivate_lem}
use ai_content_operating_sys.Users.SignedOut.{Reset, reset_password_lem, deactivate-authenticate}

abbrev person : ℕ → User
person id = record {
  id = id;
  email = [];
  display_name = none;
  password_hash = [];
  status = UserStatus.active;
  must_change_password = false;
  security_version = 1;
  last_login_at = none;
  password_changed_at = none;
}

abbrev membership_of : ℕ → WorkspaceRole → WorkspaceMember
membership_of id role = record { id = id; user_id = id; workspace_id = 1; role = role }

abbrev signed_in : ℕ → Session
signed_in id = record {
  id = id;
  user_id = id;
  token_hash = [];
  family_id = id;
  user_agent = none;
  ip_address = none;
  expires_at = 50;
  last_used_at = 5;
  revoked_at = none;
  revocation_reason = none;
}

abbrev office : Store
office = record empty {
  users = person 1 ∷ person 2 ∷ person 3 ∷ [];
  workspaces =
      record { id = 1; name = []; slug = []; is_active = true; deactivated_at = none } ∷ [];
  members = membership_of 1 owner ∷ membership_of 2 owner ∷ membership_of 3 writer ∷ [];
  sessions = signed_in 1 ∷ signed_in 2 ∷ [];
}

abbrev first_owner : AuthContext
first_owner = auth_of (person 1) (signed_in 1)

office-UniqueMemberships : UniqueMemberships office.members
office-UniqueMemberships user_id workspace_id = ground arith

manages_two : assert_can_manage in_memory 1 2 office ≡ (ok tt, office)
unfolding assert_can_manage assert_manager find_user find_first and_then
manages_two = refl

assert_can_manage_lem_example : Manager office 1 2 × (office ≡ office)
assert_can_manage_lem_example = assert_can_manage_lem in_memory 1 2 office office manages_two

abbrev left_office : Store
left_office = (deactivate in_memory first_owner 2 9 office).1

deactivates : deactivate in_memory first_owner 2 9 office ≡ (ok tt, left_office)
unfolding deactivate write_deactivation assert_can_manage assert_manager find_user check_owned
    assert_more_than_one_active_owner revoke_user_sessions find_first find_first_or_throw update_one
    update_many create record_audit and_then commit rescue
deactivates = refl

deactivate_lem_example : Deactivated 1 2 office left_office
deactivate_lem_example =
    deactivate_lem in_memory first_owner 2 9 office left_office office-UniqueMemberships deactivates

abbrev token_of_one : Text → Option AccessClaims
token_of_one token = some (record { sub = 1; session_id = 1; version = 1 })

still_in :
    authenticate in_memory token_of_one 10 false (some (units "Bearer token")) left_office
    ≡ (ok first_owner, left_office)
unfolding deactivate write_deactivation assert_can_manage assert_manager find_user check_owned
    assert_more_than_one_active_owner revoke_user_sessions find_first find_first_or_throw update_one
    update_many create record_audit and_then commit rescue authenticate check_session after_prefix
still_in = refl

deactivate-authenticate_example : ◌≢◌ {A = ℕ} 1 2
deactivate-authenticate_example =
    deactivate-authenticate in_memory token_of_one false (some (units "Bearer token")) first_owner 2
      9 10 office left_office left_office office-UniqueMemberships deactivates still_in

abbrev tagged : Argon2
tagged = record { hash = λ password. 0 ∷ password; verify = λ hash password. some false }

abbrev reset_office : Store
reset_office = (reset_password in_memory tagged 12 first_owner 2 (units "abcdefgh") 9 office).1

abbrev reset_two : SafeUserSummary × Text
reset_two = (
  record (present_user (person 2)) { must_change_password = true; password_changed_at = some 9 },
  temporary_password (units "abcdefgh"),
)

resets :
    reset_password in_memory tagged 12 first_owner 2 (units "abcdefgh") 9 office
    ≡ (ok reset_two, reset_office)
unfolding reset_password write_reset hash_password assert_valid trim assert_can_manage
    assert_manager find_user revoke_user_sessions find_first find_first_or_throw update_one
    update_many create record_audit and_then commit rescue
resets = refl

reset_password_lem_example :
    Reset tagged 1 2 (temporary_password (units "abcdefgh")) 9 office reset_office
reset_password_lem_example =
    reset_password_lem in_memory tagged 12 first_owner 2 (units "abcdefgh") 9 office reset_office
      resets

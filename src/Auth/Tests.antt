-- ===== src/Auth/Tests.antt =====
-- One user, one session and one workspace.
use ai_content_operating_sys.Base.{◌≡◌, refl, true, false, [], ◌∷◌, Option, none, some}
use ai_content_operating_sys.Errors.{ok, and_then}
use ai_content_operating_sys.Text.{Text, units, after_prefix}
use ai_content_operating_sys.Auth.Permissions.{
  editor, includes, permissions_for_role, contents_update, contents_reviews_approve,
}
use ai_content_operating_sys.Auth.Guards.{
  AccessClaims, auth_of, check_session, authenticate, workspace_of, enter_workspace,
  permission_guard,
}
use ai_content_operating_sys.Auth.Admission.{
  Authenticated, authenticate_lem, Admitted, admitted_lem, approvers,
}
use ai_content_operating_sys.Database.Client.{in_memory}
use ai_content_operating_sys.Database.IdentityRows.{
  User, UserStatus, Session, Workspace, WorkspaceMember,
}
use ai_content_operating_sys.Database.Store.{Store, empty, find_first}

abbrev grace : User
grace = record {
  id = 7;
  email = [];
  display_name = none;
  password_hash = [];
  status = UserStatus.active;
  must_change_password = false;
  security_version = 3;
  last_login_at = none;
  password_changed_at = none;
}

abbrev grace_login : Session
grace_login = record {
  id = 9;
  user_id = 7;
  token_hash = [];
  family_id = 1;
  user_agent = none;
  ip_address = none;
  expires_at = 50;
  last_used_at = 5;
  revoked_at = none;
  revocation_reason = none;
}

abbrev place : Workspace
place = record { id = 1; name = []; slug = []; is_active = true; deactivated_at = none }

abbrev membership : WorkspaceMember
membership = record { id = 4; user_id = 7; workspace_id = 1; role = editor }

abbrev world : Store
world = record empty {
  users = grace ∷ [];
  sessions = grace_login ∷ [];
  workspaces = place ∷ [];
  members = membership ∷ [];
}

abbrev verify_any : Text → Option AccessClaims
verify_any token = some (record { sub = 7; session_id = 9; version = 3 })

abbrev header : Option Text
header = some (units "Bearer token")

authenticates :
    authenticate in_memory verify_any 10 false header world
    ≡ (ok (auth_of grace grace_login), world)
unfolding authenticate check_session find_first and_then after_prefix
authenticates = refl

authenticate_lem_example :
    Authenticated verify_any header 10 false world (auth_of grace grace_login) × (world ≡ world)
authenticate_lem_example = authenticate_lem in_memory verify_any 10 false header authenticates

enters :
    enter_workspace in_memory (auth_of grace grace_login) 1 world
    ≡ (ok (workspace_of membership), world)
unfolding enter_workspace find_first and_then permissions_for_role
enters = refl

passes :
    permission_guard (contents_update ∷ []) (some (workspace_of membership)) world ≡ (ok tt, world)
unfolding permission_guard includes permissions_for_role
passes = refl

admitted_lem_example :
    Admitted (contents_update ∷ []) world (auth_of grace grace_login) (workspace_of membership)
    × ((workspace_of membership).id ≡ 1)
    × (world ≡ world)
admitted_lem_example =
    admitted_lem in_memory (auth_of grace grace_login) 1 (contents_update ∷ []) enters passes

approvers_example : includes (permissions_for_role editor) contents_reviews_approve ≡ true
approvers_example = approvers editor

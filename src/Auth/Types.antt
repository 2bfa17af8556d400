-- ===== src/Auth/Types.antt =====
-- auth.types.ts: what the guards leave on a request.
use ai_content_operating_sys.Base.{ℕ, Bool, List}
use ai_content_operating_sys.Text.{Text}
use ai_content_operating_sys.Auth.Permissions.{Permission, WorkspaceRole}

pub record AuthContext : Type 0 where
  pub user_id : ℕ
  pub email : Text
  pub session_id : ℕ
  pub security_version : ℕ
  pub must_change_password : Bool

pub record WorkspaceContext : Type 0 where
  pub id : ℕ
  pub member_id : ℕ
  pub role : WorkspaceRole
  pub permissions : List Permission

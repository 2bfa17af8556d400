-- ===== src/Database/IdentityRows.antt =====
-- Rows of packages/database/prisma/schema.prisma: users, workspaces, members, websites, audit.
use Prim.Native.String.{String}
use ai_content_operating_sys.Base.{ℕ, Bool, true, false, Option}
use ai_content_operating_sys.Text.{Text}
use ai_content_operating_sys.Auth.Permissions.{WorkspaceRole}

pub data UserStatus : Type 0 where
  active inactive : UserStatus

abbrev pub is_active : UserStatus → Bool
is_active active = true
is_active inactive = false

pub record User : Type 0 where
  pub id : ℕ
  pub email : Text
  pub display_name : Option Text
  pub password_hash : Text
  pub status : UserStatus
  pub must_change_password : Bool
  pub security_version : ℕ
  pub last_login_at : Option ℕ
  pub password_changed_at : Option ℕ

pub record Workspace : Type 0 where
  pub id : ℕ
  pub name : Text
  pub slug : Text
  pub is_active : Bool
  pub deactivated_at : Option ℕ

pub record WorkspaceMember : Type 0 where
  pub id : ℕ
  pub user_id : ℕ
  pub workspace_id : ℕ
  pub role : WorkspaceRole

pub data WebsitePlatform : Type 0 where
  blogger wordpress other_platform : WebsitePlatform

-- `ACTIVE`, `INACTIVE` and `DRAFT`
pub data WebsiteStatus : Type 0 where
  live retired drafted : WebsiteStatus

pub record Website : Type 0 where
  pub id : ℕ
  pub workspace_id : ℕ
  pub name : Text
  pub slug : Text
  pub platform : WebsitePlatform
  pub language : Text
  pub locale : Option Text
  pub timezone : Text
  pub description : Option Text
  pub status : WebsiteStatus
  pub deleted_at : Option ℕ

pub record Session : Type 0 where
  pub id : ℕ
  pub user_id : ℕ
  pub token_hash : Text
  pub family_id : ℕ
  pub user_agent : Option Text
  pub ip_address : Option Text
  pub expires_at : ℕ
  pub last_used_at : ℕ
  pub revoked_at : Option ℕ
  pub revocation_reason : Option String

-- Without the request's details and the metadata.
pub record AuditLog : Type 0 where
  pub action : String
  pub actor_user_id : Option ℕ
  pub workspace_id : Option ℕ
  pub website_id : Option ℕ
  pub target_type : String
  pub target_id : Option ℕ

-- A key of the Redis store.
pub record Counter : Type 0 where
  pub key : Text
  pub value : ℕ
  pub dies_at : Option ℕ

-- ===== src/Workspaces/Managing.antt =====
-- workspaces.service.ts: the workspaces, without their members.
use Prim.Native.String.{String}
use ai_content_operating_sys.Base.{
  ℕ, Bool, true, false, not, ◌&&◌, ◌||◌, List, [], ◌∷◌, Option, none, some, is_some, ◌==◌,
}
use ai_content_operating_sys.Errors.{
  Failure, Action, pure, throw_if, transaction, ◌>>=◌, ◌>>◌, coded, conflict_status,
}
use ai_content_operating_sys.Errors
use ai_content_operating_sys.Text.{Text, equal, trim, edited_text}
use ai_content_operating_sys.Audit.{record_audit}
use ai_content_operating_sys.Auth.Permissions.{
  Permission, WorkspaceRole, owner, permissions_for_role,
}
use ai_content_operating_sys.Auth.Types.{AuthContext, WorkspaceContext}
use ai_content_operating_sys.Database.Client.{Client}
use ai_content_operating_sys.Database.IdentityRows.{Workspace, WorkspaceMember}
use ai_content_operating_sys.Database.Store.{
  Store, workspace, workspace_member, find_first, find_first_or_throw, update_one, create,
}
use ai_content_operating_sys.Workspaces.Members.{member_clash}

-- `WorkspaceSummary`, without the creation and update times
pub record WorkspaceSummary : Type 0 where
  pub id : ℕ
  pub name : Text
  pub slug : Text
  pub is_active : Bool
  pub deactivated_at : Option ℕ
  pub role : WorkspaceRole
  pub permissions : List Permission

-- `presentWorkspace`
unfoldable pub present_workspace : Workspace → WorkspaceRole → WorkspaceSummary
present_workspace w role = record {
  id = w.id;
  name = w.name;
  slug = w.slug;
  is_active = w.is_active;
  deactivated_at = w.deactivated_at;
  role = role;
  permissions = permissions_for_role role;
}

abbrev pub workspace_clash : Workspace → Workspace → Bool
workspace_clash a b = a.id == b.id || equal a.slug b.slug

-- `CreateWorkspaceDto`
pub record CreateWorkspace : Type 0 where
  pub name : Text
  pub slug : Text

-- `UpdateWorkspaceDto`
pub record UpdateWorkspace : Type 0 where
  pub name : Option Text
  pub slug : Option Text

abbrev pub new_workspace : ℕ → CreateWorkspace → Workspace
new_workspace id input = record {
  id = id;
  name = trim input.name;
  slug = input.slug;
  is_active = true;
  deactivated_at = none;
}

-- The creator is the first owner.
abbrev pub founder : ℕ → ℕ → ℕ → WorkspaceMember
founder id user_id workspace_id = record {
  id = id;
  user_id = user_id;
  workspace_id = workspace_id;
  role = owner;
}

-- `data` of `update`; an empty text counts as none.
abbrev pub edited_workspace : UpdateWorkspace → Workspace → Workspace
edited_workspace input w = record w {
  name = edited_text trim input.name w.name;
  slug = edited_text (λ s. s) input.slug w.slug;
}

module _ (db : Client) where
  abbrev pub audit_workspace : String → ℕ → ℕ → Action Store (Unit {0})
  audit_workspace action actor workspace_id = record_audit db (record {
    action = action;
    actor_user_id = some actor;
    workspace_id = some workspace_id;
    website_id = none;
    target_type = "Workspace";
    target_id = some workspace_id;
  })

  -- The transaction of `create`.
  unfoldable pub write_workspace : ℕ → ℕ → Workspace → Action Store Workspace
  write_workspace member_id user_id row = transaction do
    created ← create db workspace workspace_clash row
    _ ← create db workspace_member member_clash (founder member_id user_id created.id)
    pure created

  -- `create`, the ids of the workspace and of the member drawn before
  unfoldable pub create_workspace :
      ℕ → ℕ → AuthContext → CreateWorkspace → Action Store WorkspaceSummary
  create_workspace id member_id actor input = do
    duplicate ← find_first db workspace (λ w. equal w.slug input.slug)
    throw_if (is_some duplicate) (coded conflict_status Errors.conflict)
    row ← write_workspace member_id actor.user_id (new_workspace id input)
    audit_workspace "workspace.created" actor.user_id row.id
    pure (present_workspace row owner)

  -- `get`
  unfoldable pub get_workspace : WorkspaceContext → Action Store WorkspaceSummary
  get_workspace context = do
    row ← find_first_or_throw db workspace (λ w. w.id == context.id)
    pure (present_workspace row context.role)

  -- The test of `update` on the slug.
  unfoldable pub check_workspace_slug : ℕ → Option Text → Action Store (Unit {0})
  check_workspace_slug id none = pure tt
  check_workspace_slug id (some []) = pure tt
  check_workspace_slug id (some (c ∷ slug)) = do
    duplicate ← find_first db workspace (λ w. equal w.slug (c ∷ slug) && not (w.id == id))
    throw_if (is_some duplicate) (coded conflict_status Errors.conflict)

  -- `update`
  unfoldable pub update_workspace :
      AuthContext → WorkspaceContext → UpdateWorkspace → Action Store WorkspaceSummary
  update_workspace actor context input = do
    check_workspace_slug context.id input.slug
    row ← update_one db workspace (λ w. w.id == context.id) (edited_workspace input)
    audit_workspace "workspace.updated" actor.user_id context.id
    pure (present_workspace row context.role)

  -- `deactivate`
  unfoldable pub deactivate_workspace : ℕ → AuthContext → WorkspaceContext → Action Store (Unit {0})
  deactivate_workspace now actor context = do
    _ ←
        update_one db workspace (λ w. w.id == context.id)
          (λ w. record w { is_active = false; deactivated_at = some now })
    audit_workspace "workspace.deactivated" actor.user_id context.id

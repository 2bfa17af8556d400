-- ===== src/Workspaces/Tests.antt =====
-- Two owners and a writer.
use ai_content_operating_sys.Base.{ℕ, ◌≡◌, refl, false, true, [], ◌∷◌, none, arith, Memᴰ}
use ai_content_operating_sys.Errors.{ok, and_then, commit, rescue}
use ai_content_operating_sys.Audit.{record_audit}
use ai_content_operating_sys.Auth.Permissions.{WorkspaceRole, owner, writer}
use ai_content_operating_sys.Auth.Types.{AuthContext, WorkspaceContext}
use ai_content_operating_sys.Database.Client.{in_memory}
use ai_content_operating_sys.Database.IdentityRows.{User, UserStatus, WorkspaceMember, is_active}
use ai_content_operating_sys.Database.Store.{
  Store, empty, find_first, find_first_or_throw, update_many, create, delete,
}
use ai_content_operating_sys.Workspaces.Members.{
  find_member, assert_more_than_one_active_owner, write_role, change_role, delete_member,
  remove_member,
}
use ai_content_operating_sys.Text.{units, trim}
use ai_content_operating_sys.Workspaces.Managing.{
  CreateWorkspace, WorkspaceSummary, present_workspace, new_workspace, write_workspace,
  create_workspace,
}
use ai_content_operating_sys.Workspaces.Founding.{Founded, create_workspace_lem}
use ai_content_operating_sys.Workspaces.Owners.{
  UniqueMembers, HasOwner, remove_member-HasOwner, change_role-HasOwner,
}

abbrev account : ℕ → User
account id = record {
  id = id;
  email = [];
  display_name = none;
  password_hash = [];
  status = UserStatus.active;
  must_change_password = false;
  security_version = 1;
  last_login_at = none;
  password_changed_at = none;
}

abbrev member : ℕ → WorkspaceRole → WorkspaceMember
member id role = record { id = id; user_id = id; workspace_id = 1; role = role }

abbrev team : Store
team = record empty {
  users = account 1 ∷ account 2 ∷ [];
  members = member 1 owner ∷ member 2 owner ∷ [];
}

abbrev boss : AuthContext
boss = record {
  user_id = 1;
  email = [];
  session_id = 1;
  security_version = 1;
  must_change_password = false;
}

abbrev as_owner : WorkspaceContext
as_owner = record { id = 1; member_id = 1; role = owner; permissions = [] }

team-UniqueMembers : UniqueMembers team.members
team-UniqueMembers id = ground arith

abbrev removed : Store
removed = (remove_member in_memory boss as_owner 2 team).1

removes : remove_member in_memory boss as_owner 2 team ≡ (ok tt, removed)
unfolding remove_member find_member delete_member assert_more_than_one_active_owner delete
    find_first and_then commit rescue record_audit create
removes = refl

remove_member-HasOwner_example : HasOwner 1 removed
remove_member-HasOwner_example =
    remove_member-HasOwner in_memory boss as_owner 2 team removed team-UniqueMembers (omega arith)
      removes

abbrev demoted : Store
demoted = (change_role in_memory boss as_owner 2 writer team).1

demotes : change_role in_memory boss as_owner 2 writer team ≡ (ok (member 2 writer), demoted)
unfolding change_role find_member write_role assert_more_than_one_active_owner update_many
    find_first find_first_or_throw and_then commit rescue record_audit create
demotes = refl

change_role-HasOwner_example : HasOwner 1 demoted
change_role-HasOwner_example =
    change_role-HasOwner in_memory boss as_owner 2 writer team demoted team-UniqueMembers
      (omega arith) demotes

abbrev venture : CreateWorkspace
venture = record { name = units "Venture"; slug = units "venture" }

abbrev founded_store : Store
founded_store = (create_workspace in_memory 7 8 boss venture team).1

abbrev founded_answer : WorkspaceSummary
founded_answer = present_workspace (new_workspace 7 venture) owner

founds : create_workspace in_memory 7 8 boss venture team ≡ (ok founded_answer, founded_store)
unfolding create_workspace write_workspace present_workspace find_first and_then commit rescue
    record_audit create trim
founds = refl

create_workspace_lem_example :
    Founded 7 8 1 venture team founded_store
    × (founded_answer ≡ present_workspace (new_workspace 7 venture) owner)
    × ((u : User)
        → Memᴰ u team.users
        → u.id ≡ 1
        → is_active u.status ≡ true
        → HasOwner 7 founded_store)
create_workspace_lem_example =
    create_workspace_lem in_memory 7 8 boss venture team founded_store founds

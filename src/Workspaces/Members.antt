-- ===== src/Workspaces/Members.antt =====
-- workspaces.service.ts: the members of a workspace and their roles.
use Prim.Native.String.{String}
use ai_content_operating_sys.Base.{
  ℕ, Bool, true, false, not, ◌&&◌, ◌||◌, List, any, none, some, is_some, leb, ◌==◌, if◌then◌else◌,
}
use ai_content_operating_sys.Errors.{
  Failure, Action, pure, throw_if, or_throw, transaction, ◌>>=◌, ◌>>◌, coded, forbidden_status,
  not_found_status, conflict_status, member_role_forbidden, member_already_exists,
  workspace_last_owner,
}
use ai_content_operating_sys.Errors
use ai_content_operating_sys.Text.{Text, Unicode, trim, equal}
use ai_content_operating_sys.Audit.{record_audit}
use ai_content_operating_sys.Auth.Permissions.{WorkspaceRole, owner, admin}
use ai_content_operating_sys.Auth.Types.{AuthContext, WorkspaceContext}
use ai_content_operating_sys.Database.Client.{Client}
use ai_content_operating_sys.Database.IdentityRows.{User, WorkspaceMember, is_active}
use ai_content_operating_sys.Database.Store.{
  Store, workspace_member, user, find_first, find_first_or_throw, update_many, create, delete,
}

abbrev pub is_owner : WorkspaceRole → Bool
is_owner owner = true
is_owner _ = false

abbrev pub is_admin : WorkspaceRole → Bool
is_admin admin = true
is_admin _ = false

-- `roleForbidden`
abbrev pub role_forbidden : Failure
role_forbidden = coded forbidden_status member_role_forbidden

-- `assertRoleAssignment`
abbrev pub assert_role_assignment : WorkspaceRole → WorkspaceRole → Action Store (Unit {0})
assert_role_assignment actor_role role =
    throw_if (is_admin actor_role && is_owner role) role_forbidden

-- `assertRoleMutation`
abbrev pub assert_role_mutation :
    WorkspaceRole → WorkspaceRole → WorkspaceRole → Action Store (Unit {0})
assert_role_mutation actor_role current next =
    throw_if (is_admin actor_role && (is_owner current || is_owner next)) role_forbidden

-- `{ workspaceId, role: OWNER, user: { status: ACTIVE } }`
abbrev pub active_owner : ℕ → List User → WorkspaceMember → Bool
active_owner workspace_id users m =
    m.workspace_id == workspace_id
    && is_owner m.role
    && any (λ u. u.id == m.user_id && is_active u.status) users

abbrev pub member_clash : WorkspaceMember → WorkspaceMember → Bool
member_clash a b = a.id == b.id || a.user_id == b.user_id && a.workspace_id == b.workspace_id

module _ (db : Client) where
  -- `member`, without the user that it includes
  unfoldable pub find_member : ℕ → ℕ → Action Store WorkspaceMember
  find_member workspace_id member_id = do
    found ←
        find_first db workspace_member (λ m. m.id == member_id && m.workspace_id == workspace_id)
    or_throw found (coded not_found_status Errors.not_found)

  -- `assertMoreThanOneActiveOwner`
  unfoldable pub assert_more_than_one_active_owner : ℕ → Action Store (Unit {0})
  assert_more_than_one_active_owner workspace_id s =
      throw_if (leb (db.count_rows (active_owner workspace_id s.users) s.members) 1)
        (coded conflict_status workspace_last_owner) s

  abbrev audit_member : String → ℕ → ℕ → ℕ → Action Store (Unit {0})
  audit_member action actor workspace_id member_id = record_audit db (record {
    action = action;
    actor_user_id = some actor;
    workspace_id = some workspace_id;
    website_id = none;
    target_type = "WorkspaceMember";
    target_id = some member_id;
  })

  -- `addMember`
  unfoldable pub add_member :
      Unicode
      → ℕ
      → AuthContext
      → WorkspaceContext
      → Text
      → WorkspaceRole
      → Action Store WorkspaceMember
  unfolding trim equal
  add_member u member_id actor workspace email role = do
    assert_role_assignment workspace.role role
    found ← find_first db user (λ x. equal x.email (u.to_lower_case (trim email)))
    account ← or_throw found (coded not_found_status Errors.not_found)
    throw_if (not (is_active account.status)) (coded not_found_status Errors.not_found)
    duplicate ←
        find_first db workspace_member
          (λ m. m.user_id == account.id && m.workspace_id == workspace.id)
    throw_if (is_some duplicate) (coded conflict_status member_already_exists)
    member ←
        create db workspace_member member_clash (record {
          id = member_id;
          user_id = account.id;
          workspace_id = workspace.id;
          role = role;
        })
    audit_member "workspace.member.added" actor.user_id workspace.id member.id
    pure member

  -- The transaction of `changeRole`.
  unfoldable pub write_role : ℕ → WorkspaceMember → WorkspaceRole → Action Store WorkspaceMember
  unfolding assert_more_than_one_active_owner
  write_role workspace_id member role = transaction do
    if is_owner member.role && not (is_owner role)
        then assert_more_than_one_active_owner workspace_id
        else pure tt
    _ ← update_many db workspace_member (λ m. m.id == member.id) (λ m. record m { role = role })
    find_first_or_throw db workspace_member (λ m. m.id == member.id)

  -- `changeRole`
  unfoldable pub change_role :
      AuthContext → WorkspaceContext → ℕ → WorkspaceRole → Action Store WorkspaceMember
  change_role actor workspace member_id role = do
    member ← find_member workspace.id member_id
    assert_role_mutation workspace.role member.role role
    updated ← write_role workspace.id member role
    audit_member "workspace.member.role_changed" actor.user_id workspace.id member_id
    pure updated

  -- The transaction of `removeMember`.
  unfoldable pub delete_member : ℕ → WorkspaceMember → Action Store (Unit {0})
  unfolding assert_more_than_one_active_owner
  delete_member workspace_id member = transaction do
    if is_owner member.role then assert_more_than_one_active_owner workspace_id else pure tt
    delete db workspace_member (λ m. m.id == member.id)

  -- `removeMember`
  unfoldable pub remove_member : AuthContext → WorkspaceContext → ℕ → Action Store (Unit {0})
  remove_member actor workspace member_id = do
    member ← find_member workspace.id member_id
    throw_if (is_admin workspace.role && is_owner member.role) role_forbidden
    delete_member workspace.id member
    audit_member "workspace.member.removed" actor.user_id workspace.id member_id

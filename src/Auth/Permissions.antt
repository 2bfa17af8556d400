-- ===== src/Auth/Permissions.antt =====
-- permissions.ts: the fixed permission map of the workspace roles.
use ai_content_operating_sys.Base.{Bool, not, List, [], ◌∷◌, ◌++◌, any, filter}
use mathlib.Core.Bool.{decide}

pub data Permission : Type 0 where
  workspace_read workspace_update workspace_deactivate members_read members_create : Permission
  members_update members_delete users_read users_create users_update users_deactivate : Permission
  users_reset_password websites_read websites_create websites_update websites_delete : Permission
  content_profiles_read content_profiles_create content_profiles_update : Permission
  content_profiles_delete contents_read contents_create contents_update contents_assign : Permission
  contents_transition contents_archive contents_revisions_read contents_seo_update : Permission
  contents_comments_read contents_comments_create contents_comments_resolve : Permission
  contents_reviews_read contents_reviews_approve contents_reviews_request_changes : Permission
  contents_publication_read contents_publication_create_draft : Permission
  contents_publication_update_draft integrations_read integrations_connect integrations_update :
      Permission
  integrations_disconnect integrations_test integrations_sync external_posts_read : Permission
  external_posts_import provider_publishing_create_draft provider_publishing_update : Permission
  provider_publishing_publish provider_publishing_delete ai_config_read ai_config_update :
      Permission
  ai_config_test ai_runs_read contents_ai_generate contents_ai_apply audit_read : Permission

pub data WorkspaceRole : Type 0 where
  owner admin editor reviewer seo_manager writer viewer : WorkspaceRole

unfoldable pub Permission-discrete : Discrete Permission
Permission-discrete = hlevel

unfoldable pub WorkspaceRole-discrete : Discrete WorkspaceRole
WorkspaceRole-discrete = hlevel

-- `permissions.includes(permission)`
unfoldable pub includes : List Permission → Permission → Bool
unfolding Permission-discrete decide
includes xs p = any (λ x. decide (Permission-discrete x p)) xs

abbrev pub all_permissions : List Permission
all_permissions =
    workspace_read ∷ workspace_update ∷ workspace_deactivate ∷ members_read ∷ members_create
    ∷ members_update ∷ members_delete ∷ users_read ∷ users_create ∷ users_update ∷ users_deactivate
    ∷ users_reset_password ∷ websites_read ∷ websites_create ∷ websites_update ∷ websites_delete
    ∷ content_profiles_read ∷ content_profiles_create ∷ content_profiles_update
    ∷ content_profiles_delete ∷ contents_read ∷ contents_create ∷ contents_update ∷ contents_assign
    ∷ contents_transition ∷ contents_archive ∷ contents_revisions_read ∷ contents_seo_update
    ∷ contents_comments_read ∷ contents_comments_create ∷ contents_comments_resolve
    ∷ contents_reviews_read ∷ contents_reviews_approve ∷ contents_reviews_request_changes
    ∷ contents_publication_read ∷ contents_publication_create_draft
    ∷ contents_publication_update_draft ∷ integrations_read ∷ integrations_connect
    ∷ integrations_update ∷ integrations_disconnect ∷ integrations_test ∷ integrations_sync
    ∷ external_posts_read ∷ external_posts_import ∷ provider_publishing_create_draft
    ∷ provider_publishing_update ∷ provider_publishing_publish ∷ provider_publishing_delete
    ∷ ai_config_read ∷ ai_config_update ∷ ai_config_test ∷ ai_runs_read ∷ contents_ai_generate
    ∷ contents_ai_apply ∷ audit_read ∷ []

abbrev pub read_permissions : List Permission
read_permissions =
    workspace_read ∷ members_read ∷ websites_read ∷ content_profiles_read ∷ contents_read
    ∷ contents_revisions_read ∷ contents_comments_read ∷ contents_reviews_read
    ∷ contents_publication_read ∷ integrations_read ∷ external_posts_read ∷ ai_config_read
    ∷ ai_runs_read ∷ []

-- `ROLE_PERMISSIONS`
unfoldable pub permissions_for_role : WorkspaceRole → List Permission
unfolding Permission-discrete decide
permissions_for_role owner = all_permissions
permissions_for_role admin =
    filter (λ p. not (decide (Permission-discrete p workspace_deactivate))) all_permissions
permissions_for_role editor =
    read_permissions
    ++ (websites_create ∷ websites_update ∷ websites_delete ∷ content_profiles_create
        ∷ content_profiles_update ∷ content_profiles_delete ∷ integrations_test ∷ ai_config_test
        ∷ contents_ai_generate ∷ contents_ai_apply ∷ integrations_sync ∷ external_posts_import
        ∷ provider_publishing_create_draft ∷ provider_publishing_update ∷ contents_create
        ∷ contents_update ∷ contents_assign ∷ contents_transition ∷ contents_archive
        ∷ contents_seo_update ∷ contents_comments_create ∷ contents_comments_resolve
        ∷ contents_reviews_approve ∷ contents_reviews_request_changes
        ∷ contents_publication_create_draft ∷ contents_publication_update_draft ∷ [])
permissions_for_role reviewer =
    read_permissions
    ++ (contents_transition ∷ contents_comments_create ∷ contents_comments_resolve
        ∷ contents_reviews_approve ∷ contents_reviews_request_changes ∷ [])
permissions_for_role seo_manager = read_permissions ++ (contents_seo_update ∷ [])
permissions_for_role writer =
    read_permissions
    ++ (provider_publishing_create_draft ∷ contents_create ∷ contents_update ∷ contents_transition
        ∷ contents_comments_create ∷ [])
permissions_for_role viewer = read_permissions

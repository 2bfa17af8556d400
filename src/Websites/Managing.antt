-- ===== src/Websites/Managing.antt =====
-- websites.service.ts: the websites of a workspace.
use Prim.Native.String.{String}
use ai_content_operating_sys.Base.{
  ℕ, Bool, true, not, ◌&&◌, ◌||◌, [], ◌∷◌, Option, none, some, is_some, get_or, ◌==◌,
}
use ai_content_operating_sys.Errors.{
  Failure, Action, pure, throw_if, or_throw, ◌>>=◌, ◌>>◌, coded, not_found_status, conflict_status,
  website_slug_conflict,
}
use ai_content_operating_sys.Errors
use ai_content_operating_sys.Text.{Text, Unicode, equal, trim, optional_text, edited_text}
use ai_content_operating_sys.Audit.{record_audit}
use ai_content_operating_sys.Auth.Types.{AuthContext, WorkspaceContext}
use ai_content_operating_sys.Auth.Sessions.{not_empty}
use ai_content_operating_sys.Database.Client.{Client}
use ai_content_operating_sys.Database.IdentityRows.{Website, WebsitePlatform, WebsiteStatus}
use ai_content_operating_sys.Database.Store.{Store, website, find_first, update_one, create}

-- `CreateWebsiteDto`
pub record CreateWebsite : Type 0 where
  pub name : Text
  pub slug : Text
  pub platform : WebsitePlatform
  pub language : Text
  pub locale : Option Text
  pub timezone : Text
  pub description : Option Text
  pub status : Option WebsiteStatus

-- `UpdateWebsiteDto`
pub record UpdateWebsite : Type 0 where
  pub name : Option Text
  pub slug : Option Text
  pub platform : Option WebsitePlatform
  pub language : Option Text
  pub locale : Option Text
  pub timezone : Option Text
  pub description : Option Text
  pub status : Option WebsiteStatus

-- `WebsiteSummary`, without the creation and update times
pub record WebsiteSummary : Type 0 where
  pub id : ℕ
  pub workspace_id : ℕ
  pub name : Text
  pub slug : Text
  pub platform : WebsitePlatform
  pub language : Text
  pub locale : Option Text
  pub timezone : Text
  pub description : Option Text
  pub status : WebsiteStatus

-- `present`
unfoldable pub present_website : Website → WebsiteSummary
present_website w = record {
  id = w.id;
  workspace_id = w.workspace_id;
  name = w.name;
  slug = w.slug;
  platform = w.platform;
  language = w.language;
  locale = not_empty w.locale;
  timezone = w.timezone;
  description = not_empty w.description;
  status = w.status;
}

-- `workspaceId_slug`
abbrev pub has_slug : ℕ → Text → Website → Bool
has_slug workspace_id slug w = w.workspace_id == workspace_id && equal w.slug slug

abbrev pub website_clash : Website → Website → Bool
website_clash a b = b.id == a.id || has_slug a.workspace_id a.slug b

-- `exceptId ? { id: { not: exceptId } } : {}`
abbrev pub not_except : Option ℕ → Website → Bool
not_except none w = true
not_except (some id) w = not (w.id == id)

unfoldable pub new_website : Unicode → ℕ → ℕ → CreateWebsite → Website
new_website u id workspace_id input = record {
  id = id;
  workspace_id = workspace_id;
  name = trim input.name;
  slug = input.slug;
  platform = input.platform;
  language = u.to_lower_case input.language;
  locale = input.locale;
  timezone = input.timezone;
  description = optional_text input.description;
  status = get_or input.status WebsiteStatus.drafted;
  deleted_at = none;
}

-- `input.locale !== undefined ? { locale: input.locale || null } : {}`
abbrev pub edited_locale : Option Text → Option Text → Option Text
edited_locale none old = old
edited_locale (some locale) old = not_empty (some locale)

abbrev pub edited_description : Option Text → Option Text → Option Text
edited_description none old = old
edited_description (some description) old = optional_text (some description)

-- `data` of `update`; an empty text counts as none.
unfoldable pub edited_website : Unicode → UpdateWebsite → Website → Website
edited_website u input w = record w {
  name = edited_text trim input.name w.name;
  slug = edited_text (λ s. s) input.slug w.slug;
  platform = get_or input.platform w.platform;
  language = edited_text u.to_lower_case input.language w.language;
  locale = edited_locale input.locale w.locale;
  timezone = edited_text (λ s. s) input.timezone w.timezone;
  description = edited_description input.description w.description;
  status = get_or input.status w.status;
}

module _ (db : Client) where
  abbrev pub audit_website : String → ℕ → ℕ → ℕ → Action Store (Unit {0})
  audit_website action actor workspace_id website_id = record_audit db (record {
    action = action;
    actor_user_id = some actor;
    workspace_id = some workspace_id;
    website_id = some website_id;
    target_type = "Website";
    target_id = some website_id;
  })

  -- `find`
  unfoldable pub find_website : ℕ → ℕ → Action Store Website
  find_website workspace_id website_id = do
    found ←
        find_first db website
          (λ w. w.id == website_id && w.workspace_id == workspace_id && not (is_some w.deleted_at))
    or_throw found (coded not_found_status Errors.not_found)

  -- `assertSlugAvailable`: a website that was deactivated keeps its slug.
  unfoldable pub assert_slug_available : ℕ → Text → Option ℕ → Action Store (Unit {0})
  assert_slug_available workspace_id slug except_id = do
    duplicate ← find_first db website (λ w. has_slug workspace_id slug w && not_except except_id w)
    throw_if (is_some duplicate) (coded conflict_status website_slug_conflict)

  -- `create`
  unfoldable pub create_website :
      Unicode → AuthContext → WorkspaceContext → ℕ → CreateWebsite → Action Store WebsiteSummary
  create_website u actor workspace website_id input = do
    assert_slug_available workspace.id input.slug none
    row ← create db website website_clash (new_website u website_id workspace.id input)
    audit_website "website.created" actor.user_id workspace.id row.id
    pure (present_website row)

  -- `get`
  unfoldable pub get_website : ℕ → ℕ → Action Store WebsiteSummary
  get_website workspace_id website_id = do
    row ← find_website workspace_id website_id
    pure (present_website row)

  -- The test of `update` on the slug.
  unfoldable pub check_slug : ℕ → ℕ → Option Text → Action Store (Unit {0})
  check_slug workspace_id website_id none = pure tt
  check_slug workspace_id website_id (some []) = pure tt
  check_slug workspace_id website_id (some (c ∷ slug)) =
      assert_slug_available workspace_id (c ∷ slug) (some website_id)

  -- `update`
  unfoldable pub update_website :
      Unicode → AuthContext → WorkspaceContext → ℕ → UpdateWebsite → Action Store WebsiteSummary
  update_website u actor workspace website_id input = do
    _ ← find_website workspace.id website_id
    check_slug workspace.id website_id input.slug
    row ← update_one db website (λ w. w.id == website_id) (edited_website u input)
    audit_website "website.updated" actor.user_id workspace.id website_id
    pure (present_website row)

  -- `deactivate`
  unfoldable pub deactivate_website :
      ℕ → AuthContext → WorkspaceContext → ℕ → Action Store (Unit {0})
  deactivate_website now actor workspace website_id = do
    _ ← find_website workspace.id website_id
    _ ←
        update_one db website (λ w. w.id == website_id)
          (λ w. record w { status = WebsiteStatus.retired; deleted_at = some now })
    audit_website "website.deactivated" actor.user_id workspace.id website_id

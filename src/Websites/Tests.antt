-- ===== src/Websites/Tests.antt =====
-- Two websites of a workspace, one of them closed and its slug asked for again.
use ai_content_operating_sys.Base.{
  ℕ, ◌≡◌, refl, [], ◌∷◌, List, none, some, arith, Memᴰ, false, true,
}
use ai_content_operating_sys.Errors.{
  ok, err, coded, conflict_status, website_slug_conflict, and_then, commit,
}
use ai_content_operating_sys.Text.{Text, Unicode, units, trim, optional_text, equal}
use ai_content_operating_sys.Audit.{record_audit}
use ai_content_operating_sys.Auth.Permissions.{admin}
use ai_content_operating_sys.Auth.Types.{AuthContext, WorkspaceContext}
use ai_content_operating_sys.Database.Client.{in_memory}
use ai_content_operating_sys.Database.IdentityRows.{Website, WebsitePlatform, WebsiteStatus}
use ai_content_operating_sys.Database.Store.{
  Store, empty, find_first, find_first_or_throw, update_one, create,
}
use ai_content_operating_sys.Websites.Managing.{
  CreateWebsite, UpdateWebsite, create_website, update_website, find_website, new_website,
  edited_website, deactivate_website, assert_slug_available, check_slug,
}
use ai_content_operating_sys.Websites.Slugs.{UniqueSlugs}
use ai_content_operating_sys.Websites.Requests.{
  WebsiteRequest, opening, editing, closing, run_website, run_websites,
}
use ai_content_operating_sys.Websites.Runs.{run_websites-UniqueSlugs}
use ai_content_operating_sys.Websites.Conflicts.{create_website_conflict, update_website_conflict}

abbrev plain_letters : Unicode
plain_letters = record {
  to_lower_case = λ s. s;
  to_locale_lower_case = λ s. s;
  nfkd = λ s. s;
  nfkc = λ s. s;
  is_letter_or_number = λ c. true;
}

abbrev publisher : AuthContext
publisher = record {
  user_id = 1;
  email = [];
  session_id = 1;
  security_version = 1;
  must_change_password = false;
}

abbrev house : WorkspaceContext
house = record { id = 1; member_id = 1; role = admin; permissions = [] }

abbrev asking : Text → CreateWebsite
asking slug = record {
  name = units "Site";
  slug = slug;
  platform = WebsitePlatform.blogger;
  language = units "fr";
  locale = none;
  timezone = units "UTC";
  description = none;
  status = none;
}

abbrev to_slug : Text → UpdateWebsite
to_slug slug = record {
  name = none;
  slug = some slug;
  platform = none;
  language = none;
  locale = none;
  timezone = none;
  description = none;
  status = none;
}

abbrev site_row : ℕ → Text → Website
site_row id slug = record {
  id = id;
  workspace_id = 1;
  name = units "Site";
  slug = slug;
  platform = WebsitePlatform.blogger;
  language = units "fr";
  locale = none;
  timezone = units "UTC";
  description = none;
  status = WebsiteStatus.drafted;
  deleted_at = none;
}

abbrev blog : Website
blog = site_row 2 (units "blog")

abbrev closed_shop : Website
closed_shop = record (site_row 3 (units "shop")) {
  status = WebsiteStatus.retired;
  deleted_at = some 5;
}

abbrev registry : Store
registry = record empty { websites = blog ∷ closed_shop ∷ [] }

abbrev asked : List WebsiteRequest
asked =
    opening 2 (asking (units "blog"))
    ∷ opening 3 (asking (units "shop"))
    ∷ closing 5 3
    ∷ editing 2 (to_slug (units "shop"))
    ∷ editing 2 (to_slug (units "news"))
    ∷ []

empty-UniqueSlugs : UniqueSlugs empty.websites
empty-UniqueSlugs = record { unique = λ id. omega arith; one = λ w slug. omega arith }

asked_rows :
    (run_websites in_memory plain_letters publisher house asked empty).websites
    ≡ closed_shop ∷ site_row 2 (units "news") ∷ []
unfolding run_websites run_website create_website update_website deactivate_website find_website
    assert_slug_available check_slug new_website edited_website find_first find_first_or_throw
    update_one create record_audit and_then commit trim optional_text equal
asked_rows = refl

run_websites-UniqueSlugs_example :
    UniqueSlugs (run_websites in_memory plain_letters publisher house asked empty).websites
run_websites-UniqueSlugs_example =
    run_websites-UniqueSlugs in_memory plain_letters publisher house asked empty empty-UniqueSlugs

shop_taken :
    create_website in_memory plain_letters publisher house 4 (asking (units "shop")) registry
    ≡ (err (coded conflict_status website_slug_conflict), registry)
shop_taken =
    create_website_conflict in_memory plain_letters publisher house 4 (asking (units "shop"))
      registry closed_shop (Memᴰ.tail (Memᴰ.head refl)) refl refl

blog_found : find_website in_memory 1 2 registry ≡ (ok blog, registry)
unfolding find_website find_first and_then
blog_found = refl

update_website_conflict_example :
    update_website in_memory plain_letters publisher house 2 (to_slug (units "shop")) registry
    ≡ (err (coded conflict_status website_slug_conflict), registry)
update_website_conflict_example =
    update_website_conflict in_memory plain_letters publisher house 2 (to_slug (units "shop"))
      registry blog closed_shop blog_found (Memᴰ.tail (Memᴰ.head refl)) refl refl refl refl

-- ===== src/ContentProfiles/Tests.antt =====
-- Two profiles of a website, each made the default in turn.
use ai_content_operating_sys.Base.{true, false, [], ◌∷◌, List, none, some, arith}
use ai_content_operating_sys.Text.{Text, units}
use ai_content_operating_sys.Auth.Permissions.{admin}
use ai_content_operating_sys.Auth.Types.{AuthContext, WorkspaceContext}
use ai_content_operating_sys.Database.Client.{in_memory}
use ai_content_operating_sys.Database.IdentityRows.{Website, WebsitePlatform, WebsiteStatus}
use ai_content_operating_sys.Database.Store.{Store, empty}
use ai_content_operating_sys.ContentProfiles.Managing.{Runtime, CreateContentProfile}
use ai_content_operating_sys.ContentProfiles.Defaults.{OneDefault}
use ai_content_operating_sys.ContentProfiles.Requests.{
  ProfileRequest, create_request, deactivate_request, default_request, run_profiles,
}
use ai_content_operating_sys.ContentProfiles.Runs.{run_profiles-OneDefault}

abbrev runtime : Runtime
runtime = record { to_lower_case = λ t. t; to_upper_case = λ t. t; json_bytes = λ rules topics. 2 }

abbrev editor_in_chief : AuthContext
editor_in_chief = record {
  user_id = 1;
  email = [];
  session_id = 1;
  security_version = 1;
  must_change_password = false;
}

abbrev desk : WorkspaceContext
desk = record { id = 1; member_id = 1; role = admin; permissions = [] }

abbrev journal : Website
journal = record {
  id = 2;
  workspace_id = 1;
  name = [];
  slug = [];
  platform = WebsitePlatform.blogger;
  language = [];
  locale = none;
  timezone = [];
  description = none;
  status = WebsiteStatus.live;
  deleted_at = none;
}

abbrev newsroom : Store
newsroom = record empty { websites = journal ∷ [] }

abbrev named : Text → CreateContentProfile
named name = record {
  name = name;
  language = units "fr";
  locale = none;
  country_code = none;
  tone = units "calm";
  target_audience = none;
  editorial_rules = [];
  prohibited_topics = none;
  is_default = some true;
}

abbrev requests : List ProfileRequest
requests =
    create_request 10 2 (named (units "one"))
    ∷ create_request 11 2 (named (units "two"))
    ∷ default_request 2 10
    ∷ deactivate_request 2 11
    ∷ default_request 2 11
    ∷ []

newsroom-OneDefault : OneDefault newsroom.profiles
newsroom-OneDefault = record {
  unique = λ id. omega arith;
  one = λ w site. omega arith;
  live = λ p m h. elim m [ ];
}

run_profiles-OneDefault_example :
    OneDefault (run_profiles in_memory runtime editor_in_chief desk requests newsroom).profiles
run_profiles-OneDefault_example =
    run_profiles-OneDefault in_memory runtime editor_in_chief desk requests newsroom
      newsroom-OneDefault

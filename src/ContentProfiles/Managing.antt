-- ===== src/ContentProfiles/Managing.antt =====
-- content-profiles.service.ts: the editorial profiles of a website.
use Prim.Native.String.{String}
use ai_content_operating_sys.Base.{
  ℕ, Bool, true, false, not, ◌&&◌, ◌||◌, List, [], ◌∷◌, any, Option, none, some, is_some, get_or,
  ltb, ◌==◌, ◌+◌, if◌then◌else◌,
}
use ai_content_operating_sys.Errors.{
  Failure, Action, pure, throw_if, or_throw, transaction, ◌>>=◌, ◌>>◌, coded, bad_request,
  not_found_status, conflict_status, validation, content_profile_default_conflict,
}
use ai_content_operating_sys.Errors
use ai_content_operating_sys.Text.{Text, units, between, equal, trim, optional_text, after_prefix}
use ai_content_operating_sys.Audit.{record_audit}
use ai_content_operating_sys.Auth.Types.{AuthContext, WorkspaceContext}
use ai_content_operating_sys.Auth.Sessions.{not_empty}
use ai_content_operating_sys.Database.Client.{Client}
use ai_content_operating_sys.Database.ContentRows.{ContentProfile, ProfileStatus, EditorialRules}
use ai_content_operating_sys.Database.Store.{
  Store, content_profile, find_first, update_one, update_many, create,
}
use ai_content_operating_sys.Contents.Editing.{require_website}

-- The runtime: case mappings, and the bytes of `JSON.stringify({ editorialRules, prohibitedTopics })`.
pub record Runtime : Type 0 where
  pub to_lower_case : Text → Text
  pub to_upper_case : Text → Text
  pub json_bytes : EditorialRules → Option (List Text) → ℕ

-- `CreateContentProfileDto`
pub record CreateContentProfile : Type 0 where
  pub name : Text
  pub language : Text
  pub locale : Option Text
  pub country_code : Option Text
  pub tone : Text
  pub target_audience : Option Text
  pub editorial_rules : EditorialRules
  pub prohibited_topics : Option (List Text)
  pub is_default : Option Bool

-- `UpdateContentProfileDto`
pub record UpdateContentProfile : Type 0 where
  pub name : Option Text
  pub language : Option Text
  pub locale : Option Text
  pub country_code : Option Text
  pub tone : Option Text
  pub target_audience : Option Text
  pub editorial_rules : Option EditorialRules
  pub prohibited_topics : Option (List Text)
  pub status : Option ProfileStatus

-- A letter as the flag `i` reads it.
abbrev pub folded : ℕ → ℕ
folded c = if between 0x41 0x5a c then c + 0x20 else c

abbrev pub fold_case : Text → Text
fold_case [] = []
fold_case (c ∷ s) = folded c ∷ fold_case s

-- `/word/.test(text)`
unfoldable pub contains : Text → Text → Bool
contains word [] = is_some (after_prefix word [])
contains word (c ∷ s) = let rest = contains word s in is_some (after_prefix word (c ∷ s)) || rest

-- `/prompt|provider|model/i`
abbrev pub about_ai : Text → Bool
about_ai key =
    contains (units "prompt") (fold_case key)
    || contains (units "provider") (fold_case key)
    || contains (units "model") (fold_case key)

-- `conflict`
abbrev pub profile_conflict : Failure
profile_conflict = coded conflict_status Errors.conflict

abbrev pub profile_clash : ContentProfile → ContentProfile → Bool
profile_clash a b = a.id == b.id || a.website_id == b.website_id && equal a.name b.name

-- `validateJson`
unfoldable pub validate_json :
    Runtime → EditorialRules → Option (List Text) → Action Store (Unit {0})
validate_json runtime rules topics = do
  throw_if (ltb 16384 (runtime.json_bytes rules topics)) (coded bad_request validation)
  throw_if (any (λ rule. about_ai rule.0) rules) (coded bad_request validation)

-- `{ workspaceId, websiteId, isDefault: true }`
abbrev pub default_of : ℕ → ℕ → ContentProfile → Bool
default_of workspace_id website_id p =
    p.workspace_id == workspace_id && p.website_id == website_id && p.is_default

abbrev pub not_default : ContentProfile → ContentProfile
not_default p = record p { is_default = false }

abbrev pub is_active_profile : ProfileStatus → Bool
is_active_profile ProfileStatus.active = true
is_active_profile ProfileStatus.inactive = false

-- `value ? f(value) : old`, for a text
abbrev pub replaced : Option Text → (Text → Text) → Text → Text
replaced none f old = old
replaced (some []) f old = old
replaced (some (c ∷ s)) f old = f (c ∷ s)

-- `value !== undefined ? value || null : old`
abbrev pub reset_text : Option Text → Option Text → Option Text
reset_text none old = old
reset_text (some v) old = not_empty (some v)

-- The same, of `countryCode`.
abbrev pub reset_upper : Runtime → Option Text → Option Text → Option Text
reset_upper runtime none old = old
reset_upper runtime (some v) old = not_empty (some (runtime.to_upper_case v))

abbrev pub reset_trimmed : Option Text → Option Text → Option Text
reset_trimmed none old = old
reset_trimmed (some v) old = optional_text (some v)

-- The status, and a profile that is made inactive is no default.
abbrev pub with_status : Option ProfileStatus → ContentProfile → ContentProfile
with_status none p = p
with_status (some ProfileStatus.active) p = record p { status = ProfileStatus.active }
with_status (some ProfileStatus.inactive) p = record p {
  status = ProfileStatus.inactive;
  is_default = false;
}

abbrev pub upper_of : Runtime → Option Text → Option Text
upper_of runtime none = none
upper_of runtime (some v) = some (runtime.to_upper_case v)

unfoldable pub new_profile : Runtime → ℕ → ℕ → ℕ → CreateContentProfile → ContentProfile
new_profile runtime id workspace_id website_id input = record {
  id = id;
  workspace_id = workspace_id;
  website_id = website_id;
  name = trim input.name;
  language = runtime.to_lower_case input.language;
  locale = input.locale;
  country_code = upper_of runtime input.country_code;
  tone = trim input.tone;
  target_audience = optional_text input.target_audience;
  editorial_rules = input.editorial_rules;
  prohibited_topics = get_or input.prohibited_topics [];
  is_default = get_or input.is_default false;
  status = ProfileStatus.active;
}

unfoldable pub edited_profile : Runtime → UpdateContentProfile → ContentProfile → ContentProfile
edited_profile runtime input p = with_status input.status (record p {
  name = replaced input.name trim p.name;
  language = replaced input.language runtime.to_lower_case p.language;
  locale = reset_text input.locale p.locale;
  country_code = reset_upper runtime input.country_code p.country_code;
  tone = replaced input.tone trim p.tone;
  target_audience = reset_trimmed input.target_audience p.target_audience;
  editorial_rules = get_or input.editorial_rules p.editorial_rules;
  prohibited_topics = get_or input.prohibited_topics p.prohibited_topics;
})

module _ (db : Client) where
  abbrev pub audit_profile : String → ℕ → ℕ → ℕ → ℕ → Action Store (Unit {0})
  audit_profile action actor workspace_id website_id profile_id = record_audit db (record {
    action = action;
    actor_user_id = some actor;
    workspace_id = some workspace_id;
    website_id = some website_id;
    target_type = "ContentProfile";
    target_id = some profile_id;
  })

  -- `find`
  unfoldable pub find_profile : ℕ → ℕ → ℕ → Action Store ContentProfile
  find_profile workspace_id website_id profile_id = do
    found ←
        find_first db content_profile
          (λ p. p.id == profile_id && p.workspace_id == workspace_id && p.website_id == website_id)
    or_throw found (coded not_found_status Errors.not_found)

  unfoldable pub check_name : ℕ → Text → Action Store (Unit {0})
  check_name website_id name = do
    duplicate ← find_first db content_profile (λ p. p.website_id == website_id && equal p.name name)
    throw_if (is_some duplicate) profile_conflict

  abbrev pub clear_default : ℕ → ℕ → Action Store ℕ
  clear_default workspace_id website_id =
      update_many db content_profile (default_of workspace_id website_id) not_default

  -- The transaction of `create`.
  unfoldable pub write_profile : ContentProfile → Action Store ContentProfile
  write_profile row = transaction do
    _ ← if row.is_default then clear_default row.workspace_id row.website_id else pure 0
    create db content_profile profile_clash row

  -- `create`
  unfoldable pub create_profile :
      Runtime
      → AuthContext
      → WorkspaceContext
      → ℕ
      → ℕ
      → CreateContentProfile
      → Action Store ContentProfile
  create_profile runtime actor workspace profile_id website_id input = do
    require_website db workspace.id website_id
    validate_json runtime input.editorial_rules input.prohibited_topics
    check_name website_id (trim input.name)
    row ← write_profile (new_profile runtime profile_id workspace.id website_id input)
    audit_profile "content_profile.created" actor.user_id workspace.id website_id row.id
    pure row

  -- `get`
  unfoldable pub get_profile : ℕ → ℕ → ℕ → Action Store ContentProfile
  get_profile workspace_id website_id profile_id = do
    require_website db workspace_id website_id
    find_profile workspace_id website_id profile_id

  -- The tests of `update` on the rules.
  unfoldable pub check_rules :
      Runtime → ContentProfile → UpdateContentProfile → Action Store (Unit {0})
  check_rules runtime current input =
      if is_some input.editorial_rules || is_some input.prohibited_topics
      then validate_json runtime (get_or input.editorial_rules current.editorial_rules)
          input.prohibited_topics
      else pure tt

  -- The test of `update` on the name.
  unfoldable pub check_rename : ℕ → ContentProfile → Option Text → Action Store (Unit {0})
  check_rename website_id current none = pure tt
  check_rename website_id current (some []) = pure tt
  check_rename website_id current (some (c ∷ s)) =
      if not (equal (trim (c ∷ s)) current.name)
      then check_name website_id (trim (c ∷ s))
      else pure tt

  -- `update`
  unfoldable pub update_profile :
      Runtime
      → AuthContext
      → WorkspaceContext
      → ℕ
      → ℕ
      → UpdateContentProfile
      → Action Store ContentProfile
  update_profile runtime actor workspace website_id profile_id input = do
    current ← find_profile workspace.id website_id profile_id
    check_rules runtime current input
    check_rename website_id current input.name
    row ← update_one db content_profile (λ p. p.id == profile_id) (edited_profile runtime input)
    audit_profile "content_profile.updated" actor.user_id workspace.id website_id profile_id
    pure row

  -- `deactivate`
  unfoldable pub deactivate_profile :
      AuthContext → WorkspaceContext → ℕ → ℕ → Action Store (Unit {0})
  deactivate_profile actor workspace website_id profile_id = do
    _ ← find_profile workspace.id website_id profile_id
    _ ←
        update_one db content_profile (λ p. p.id == profile_id)
          (λ p. record p { status = ProfileStatus.inactive; is_default = false })
    audit_profile "content_profile.deactivated" actor.user_id workspace.id website_id profile_id

  -- The transaction of `setDefault`.
  unfoldable pub write_default : ℕ → ℕ → ℕ → Action Store ContentProfile
  write_default workspace_id website_id profile_id = transaction do
    _ ← clear_default workspace_id website_id
    update_one db content_profile (λ p. p.id == profile_id) (λ p. record p { is_default = true })

  -- `setDefault`
  unfoldable pub set_default : AuthContext → WorkspaceContext → ℕ → ℕ → Action Store ContentProfile
  set_default actor workspace website_id profile_id = do
    profile ← find_profile workspace.id website_id profile_id
    throw_if (not (is_active_profile profile.status))
        (coded conflict_status content_profile_default_conflict)
    row ← write_default workspace.id website_id profile_id
    audit_profile "content_profile.default_changed" actor.user_id workspace.id website_id profile_id
    pure row

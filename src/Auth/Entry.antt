-- ===== src/Auth/Entry.antt =====
-- auth.service.ts: login and refresh.
use ai_content_operating_sys.Base.{
  ℕ, ◌+◌, ◌/◌, Bool, not, ◌||◌, ◌++◌, Option, none, some, is_some, get_or, leb, ◌==◌, if◌then◌else◌,
}
use ai_content_operating_sys.Errors.{
  Action, pure, throw, or_throw, transaction, ◌>>=◌, ◌>>◌, coded, forbidden_status, user_inactive,
}
use ai_content_operating_sys.Text.{Text, Unicode, units, trim, equal}
use ai_content_operating_sys.Auth.Guards.{AccessClaims}
use ai_content_operating_sys.Auth.Passwords.{Argon2, verify_password}
use ai_content_operating_sys.Auth.Tokens.{
  Secrets, create_refresh_token, session_id_from_refresh_token, verifiers_match, stable_hash,
}
use ai_content_operating_sys.Auth.RateLimit.{Redis, consume_rate_limit}
use ai_content_operating_sys.Auth.Sessions.{
  Request, Settings, AuthResult, session_clash, invalid_credentials, session_revoked,
  session_expired, details, audit_auth, revoke_family, me,
}
use ai_content_operating_sys.Database.Client.{Client}
use ai_content_operating_sys.Database.IdentityRows.{User, Session, is_active}
use ai_content_operating_sys.Database.Store.{
  Store, find_first, find_first_or_throw, update_one, create, session, user,
}

-- What the services of a request share: the clients, the secrets and the settings.
pub record Deps : Type 1 where
  pub db : Client
  pub redis : Redis
  pub argon : Argon2
  pub secrets : Secrets
  pub unicode : Unicode
  pub settings : Settings
  pub sign : AccessClaims → Text → Text
  pub dummy_hash : Text

-- What is drawn for a login.
pub record LoginDraws : Type 0 where
  pub session_id : ℕ
  pub family_id : ℕ
  pub random : Text

abbrev pub hash_of : Option User → Text → Text
hash_of none dummy = dummy
hash_of (some u) dummy = u.password_hash

-- A user who may enter: `!user || !passwordValid || user.status !== ACTIVE`, negated.
abbrev pub entering : Bool → Option User → Option User
entering valid none = none
entering valid (some u) = if not valid || not (is_active u.status) then none else some u

module _ (lib : Deps) where
  -- `authResult`
  unfoldable pub auth_result : ℕ → ℕ → Text → Action Store AuthResult
  auth_result user_id session_id refresh_token = do
    u ← find_first_or_throw lib.db user (λ x. x.id == user_id)
    account ← me lib.db user_id
    pure (record {
      access_token =
          lib.sign (record { sub = u.id; session_id = session_id; version = u.security_version })
            u.email;
      expires_in = lib.settings.jwt_access_ttl / 1000;
      account = account;
      refresh_token = refresh_token;
    })

  unfoldable pub new_session : ℕ → LoginDraws → Text → Request → Session
  new_session user_id draws refresh_token request = record {
    id = draws.session_id;
    user_id = user_id;
    token_hash = lib.secrets.hmac refresh_token;
    family_id = draws.family_id;
    user_agent = details request.user_agent 512;
    ip_address = details request.ip 64;
    expires_at = request.now + lib.settings.refresh_token_ttl;
    last_used_at = request.now;
    revoked_at = none;
    revocation_reason = none;
  }

  -- The transaction of `login`.
  unfoldable pub write_login : ℕ → LoginDraws → Text → Request → Action Store Session
  write_login user_id draws refresh_token request = transaction do
    _ ←
        update_one lib.db user (λ u. u.id == user_id)
          (λ u. record u { last_login_at = some request.now })
    create lib.db session session_clash (new_session user_id draws refresh_token request)

  abbrev pub refuse_login : Action Store User
  refuse_login = audit_auth lib.db "auth.login.failed" none "User" none >> throw invalid_credentials

  abbrev pub accept_login : Option User → Action Store User
  accept_login none = refuse_login
  accept_login (some u) = pure u

  -- `login`
  unfoldable pub login : Text → Text → LoginDraws → Request → Action Store AuthResult
  login email_input password draws request = do
    let email = lib.unicode.to_lower_case (trim email_input)
    consume_rate_limit lib.redis request.now lib.settings.login_rate_limit_window
        lib.settings.login_rate_limit_max (units "login")
        (get_or request.ip (units "undefined") ++ units ":" ++ stable_hash lib.secrets email)
    found ← find_first lib.db user (λ x. equal x.email email)
    u ←
        accept_login
          (entering (verify_password lib.argon (hash_of found lib.dummy_hash) password) found)
    let refresh_token = create_refresh_token lib.secrets draws.session_id draws.random
    _ ← write_login u.id draws refresh_token request
    audit_auth lib.db "auth.login.succeeded" (some u.id) "Session" (some draws.session_id)
    auth_result u.id draws.session_id refresh_token

  -- The session that a token names.
  unfoldable pub named_session : Option Text → Action Store (Option Session)
  named_session none = pure none
  named_session (some id) = find_first lib.db session (λ r. r.id == lib.secrets.read_id id)

  -- A token that is not the last one of its session, or of a revoked session.
  unfoldable pub check_reuse : Session → Text → Request → Action Store (Unit {0})
  check_reuse r token request =
      if not (verifiers_match r.token_hash (lib.secrets.hmac token)) || is_some r.revoked_at
      then (do
        _ ← revoke_family lib.db request.now r.family_id "REFRESH_REUSE_DETECTED"
        audit_auth lib.db "auth.refresh.reuse_detected" (some r.user_id) "Session" (some r.id)
        throw session_revoked)
      else pure tt

  unfoldable pub check_expired : Session → Request → Action Store (Unit {0})
  check_expired r request =
      if leb r.expires_at request.now
      then (do _ ← revoke_family lib.db request.now r.family_id "EXPIRED"; throw session_expired)
      else pure tt

  unfoldable pub check_active : Session → User → Request → Action Store (Unit {0})
  check_active r u request =
      if not (is_active u.status)
      then (do
        _ ← revoke_family lib.db request.now r.family_id "USER_INACTIVE"
        throw (coded forbidden_status user_inactive))
      else pure tt

  -- The session with the verifier of its next token.
  unfoldable pub rotated : Text → Request → Session → Session
  rotated token request r = record r {
    token_hash = lib.secrets.hmac token;
    last_used_at = request.now;
    expires_at = request.now + lib.settings.refresh_token_ttl;
    user_agent = details request.user_agent 512;
    ip_address = details request.ip 64;
  }

  -- `refresh`
  unfoldable pub refresh : Option Text → Text → Request → Action Store AuthResult
  refresh refresh_token random request = do
    consume_rate_limit lib.redis request.now lib.settings.login_rate_limit_window
        lib.settings.login_rate_limit_max (units "refresh") (get_or request.ip (units "unknown"))
    found ← named_session (session_id_from_refresh_token refresh_token)
    token ← or_throw refresh_token session_revoked
    r ← or_throw found session_revoked
    u ← find_first_or_throw lib.db user (λ x. x.id == r.user_id)
    check_reuse r token request
    check_expired r request
    check_active r u request
    let rotated_token = create_refresh_token lib.secrets r.id random
    _ ← update_one lib.db session (λ x. x.id == r.id) (rotated rotated_token request)
    auth_result r.user_id r.id rotated_token

-- ===== src/Auth/SessionTests.antt =====
-- A user who signs in, refreshes the session and changes the password.
use ai_content_operating_sys.Base.{
  ℕ, ◌<◌, ◌≡◌, ◌≢◌, ◌⊎◌, refl, suc, ◌+◌, true, false, [], ◌∷◌, ◌++◌, Option, none, some, arith,
}
use ai_content_operating_sys.Errors.{ok, err, and_then, commit, rescue}
use ai_content_operating_sys.Text.{Text, units, equal, trim, take, after_prefix}
use ai_content_operating_sys.Audit.{record_audit}
use ai_content_operating_sys.Auth.Types.{AuthContext}
use ai_content_operating_sys.Auth.Guards.{AccessClaims, check_session, authenticate}
use ai_content_operating_sys.Auth.Passwords.{assert_valid, hash_password, verify_password}
use ai_content_operating_sys.Auth.Tokens.{
  until_dot, hex_bytes, create_refresh_token, session_id_from_refresh_token, verifiers_match,
  stable_hash,
}
use ai_content_operating_sys.Auth.TokenForm.{session_id_from_refresh_token-create_refresh_token}
use ai_content_operating_sys.Auth.RateLimit.{
  reading, rate_key, consume_rate_limit, OnlyCounters, consume_rate_limit_lem,
}
use ai_content_operating_sys.Auth.Counters.{bump, expire, redis_in_memory}
use ai_content_operating_sys.Auth.Sessions.{
  Request, AuthResult, present_auth_user, session_revoked, revoke_family, me, logout,
  write_password, change_password,
}
use ai_content_operating_sys.Auth.Entry.{
  Deps, LoginDraws, new_session, write_login, login, auth_result, named_session, check_reuse,
  check_expired, check_active, rotated, refresh,
}
use ai_content_operating_sys.Auth.Revocation.{AllRevoked, logout-authenticate}
use ai_content_operating_sys.Auth.Rotation.{Refreshed, refresh_lem, refresh_once}
use ai_content_operating_sys.Auth.Reuse.{of_family, refresh_revokes}
use ai_content_operating_sys.Auth.PasswordChange.{Changed, change_password_lem}
use ai_content_operating_sys.Auth.LoggedIn.{LoggedIn, login_lem}
use ai_content_operating_sys.Database.Client.{in_memory}
use ai_content_operating_sys.Database.IdentityRows.{User, UserStatus, Session}
use ai_content_operating_sys.Database.Store.{
  Store, empty, find_first, find_first_or_throw, find_many, update_one, update_many, create,
}

abbrev uuid_text : Text
uuid_text = units "0d3c1b2a-1111-4222-8333-abcdefabcdef"

-- A digest that keeps the last two units of a token.
abbrev last_two : Text → Text
last_two [] = []
last_two (a ∷ []) = []
last_two (a ∷ b ∷ []) = a ∷ b ∷ []
last_two (a ∷ b ∷ c ∷ s) = last_two (b ∷ c ∷ s)

abbrev lib : Deps
lib = record {
  db = in_memory;
  redis = redis_in_memory;
  argon = record {
    hash = λ password. password;
    verify = λ hash password. some (equal hash password);
  };
  secrets = record {
    hmac = λ token. last_two token;
    print_id = λ id. uuid_text;
    read_id = λ text. 5;
  };
  unicode = record {
    to_lower_case = λ t. t;
    to_locale_lower_case = λ t. t;
    nfkd = λ t. t;
    nfkc = λ t. t;
    is_letter_or_number = λ c. true;
  };
  settings = record {
    jwt_access_ttl = 900000;
    refresh_token_ttl = 1000;
    login_rate_limit_window = 60;
    login_rate_limit_max = 3;
    password_min_length = 12;
  };
  sign = λ claims email. [];
  dummy_hash = [];
}

abbrev ada : User
ada = record {
  id = 7;
  email = units "ada@example.org";
  display_name = none;
  password_hash = units "correct horse 1";
  status = UserStatus.active;
  must_change_password = false;
  security_version = 1;
  last_login_at = none;
  password_changed_at = none;
}

abbrev site : Store
site = record empty { users = ada ∷ [] }

abbrev at : ℕ → Request
at now = record { now = now; user_agent = none; ip = some (units "::1") }

abbrev first_draws : LoginDraws
first_draws = record { session_id = 5; family_id = 6; random = units "aa" }

abbrev token_of : Text → Text
token_of random = uuid_text ++ (0x2e ∷ random)

abbrev signed_site : Store
signed_site =
    (login lib (units " ada@example.org") (units "correct horse 1") first_draws (at 10) site).1

abbrev answer_with : Text → AuthResult
answer_with random = record {
  access_token = [];
  expires_in = 900;
  account = present_auth_user (record ada { last_login_at = some 10 }) [] [];
  refresh_token = token_of random;
}

signs_in :
    login lib (units " ada@example.org") (units "correct horse 1") first_draws (at 10) site
    ≡ (ok (answer_with (units "aa")), signed_site)
unfolding login consume_rate_limit bump expire reading stable_hash trim equal verify_password
    create_refresh_token write_login new_session auth_result me update_one update_many find_first
    find_first_or_throw find_many create record_audit and_then commit rescue take
signs_in = refl

login_lem_example :
    LoggedIn lib
      (units "ada@example.org")
      (units "correct horse 1")
      first_draws
      (at 10)
      site
      signed_site
      (answer_with (units "aa"))
unfolding trim
login_lem_example =
    login_lem lib (units " ada@example.org") (units "correct horse 1") first_draws (at 10) site
      signed_site (omega arith) signs_in

abbrev rotated_site : Store
rotated_site = (refresh lib (some (token_of (units "aa"))) (units "bb") (at 20) signed_site).1

refreshes :
    refresh lib (some (token_of (units "aa"))) (units "bb") (at 20) signed_site
    ≡ (ok (answer_with (units "bb")), rotated_site)
unfolding login consume_rate_limit bump expire reading stable_hash trim equal verify_password
    create_refresh_token write_login new_session auth_result me update_one update_many find_first
    find_first_or_throw find_many create record_audit and_then commit rescue take refresh
    session_id_from_refresh_token until_dot named_session check_reuse check_expired check_active
    verifiers_match hex_bytes revoke_family rotated
refreshes = refl

refresh_lem_example :
    Refreshed lib 20
      (token_of (units "aa"))
      (units "bb")
      (at 20)
      signed_site
      rotated_site
      (answer_with (units "bb"))
refresh_lem_example =
    refresh_lem lib (token_of (units "aa")) (units "bb") (at 20) signed_site rotated_site
      (omega arith) refreshes

differ : hex_bytes (units "aa") ≢ hex_bytes (units "bb")
unfolding hex_bytes
differ h = absurd (ground arith)

abbrev refused_site : Store
refused_site = (refresh lib (some (token_of (units "aa"))) (units "cc") (at 30) rotated_site).1

refresh_once_example : ¬ (
    refresh lib (some (token_of (units "aa"))) (units "cc") (at 30) rotated_site
    ≡ (ok (answer_with (units "cc")), refused_site))
refresh_once_example =
    refresh_once lib (token_of (units "aa")) (units "bb") (units "cc") (at 20) (at 30) signed_site
      rotated_site refused_site (omega arith) differ refreshes

refuses :
    refresh lib (some (token_of (units "aa"))) (units "cc") (at 30) rotated_site
    ≡ (err session_revoked, refused_site)
unfolding login consume_rate_limit bump expire reading stable_hash trim equal verify_password
    create_refresh_token write_login new_session auth_result me update_one update_many find_first
    find_first_or_throw find_many create record_audit and_then commit rescue take refresh
    session_id_from_refresh_token until_dot named_session check_reuse check_expired check_active
    verifiers_match hex_bytes revoke_family rotated
refuses = refl

refresh_revokes_example :
    ((named_session lib
        (session_id_from_refresh_token (some (token_of (units "aa"))))
        rotated_site).0
      ≡ ok none)
    ⊎ ((r : Session) × ((named_session lib
            (session_id_from_refresh_token (some (token_of (units "aa"))))
            rotated_site).0
          ≡ ok (some r))
        × AllRevoked (of_family r.family_id) refused_site.sessions)
refresh_revokes_example =
    refresh_revokes lib (token_of (units "aa")) (units "cc") (at 30) rotated_site refused_site
      (omega arith) refuses

session_id_from_refresh_token-create_refresh_token_example :
    session_id_from_refresh_token (some (create_refresh_token lib.secrets 5 (units "aa")))
    ≡ some uuid_text
session_id_from_refresh_token-create_refresh_token_example =
    session_id_from_refresh_token-create_refresh_token lib.secrets 5 (units "aa") refl

abbrev by_ada : AuthContext
by_ada = record {
  user_id = 7;
  email = units "ada@example.org";
  session_id = 5;
  security_version = 1;
  must_change_password = false;
}

abbrev login_of : ℕ → Session
login_of id = record {
  id = id;
  user_id = 7;
  token_hash = [];
  family_id = id;
  user_agent = none;
  ip_address = none;
  expires_at = 50;
  last_used_at = 5;
  revoked_at = none;
  revocation_reason = none;
}

abbrev two_sessions : Store
two_sessions = record site { sessions = login_of 5 ∷ login_of 6 ∷ [] }

abbrev changed_site : Store
changed_site =
    (change_password in_memory lib.argon lib.settings by_ada (units "correct horse 1")
      (units "battery staple 2") (at 20) two_sessions).1

changes :
    change_password in_memory lib.argon lib.settings by_ada
      (units "correct horse 1")
      (units "battery staple 2")
      (at 20)
      two_sessions
    ≡ (ok tt, changed_site)
unfolding change_password write_password hash_password assert_valid verify_password equal trim
    update_one update_many find_first find_first_or_throw create record_audit and_then commit rescue
changes = refl

change_password_lem_example :
    Changed lib.argon lib.settings by_ada
      (units "correct horse 1")
      (units "battery staple 2")
      20
      two_sessions
      changed_site
change_password_lem_example =
    change_password_lem in_memory lib.argon lib.settings by_ada (units "correct horse 1")
      (units "battery staple 2") (at 20) two_sessions changed_site changes

abbrev left_site : Store
left_site = (logout in_memory (record by_ada { session_id = 6 }) (at 20) two_sessions).1

leaves :
    logout in_memory (record by_ada { session_id = 6 }) (at 20) two_sessions ≡ (ok tt, left_site)
unfolding logout update_many create record_audit and_then rescue
leaves = refl

abbrev token_of_five : Text → Option AccessClaims
token_of_five token = some (record { sub = 7; session_id = 5; version = 1 })

stays :
    authenticate in_memory token_of_five 30 false (some (units "Bearer token")) left_site
    ≡ (ok by_ada, left_site)
unfolding logout update_many create record_audit and_then rescue authenticate check_session
    after_prefix find_first
stays = refl

logout-authenticate_example : ¬ ((5 ≡ by_ada.session_id + 1) × (7 ≡ by_ada.user_id))
logout-authenticate_example =
    logout-authenticate in_memory token_of_five 30 false (record by_ada { session_id = 6 }) (at 20)
      (some (units "Bearer token")) two_sessions left_site left_site leaves stays

abbrev counted_site : Store
counted_site = (consume_rate_limit redis_in_memory 10 60 3 (units "login") (units "x") site).1

counts :
    consume_rate_limit redis_in_memory 10 60 3 (units "login") (units "x") site
    ≡ (ok tt, counted_site)
unfolding consume_rate_limit bump expire reading equal and_then
counts = refl

consume_rate_limit_lem_example :
    (reading 10 (rate_key (units "login") (units "x")) site.counters < 3)
    × (reading 10 (rate_key (units "login") (units "x")) counted_site.counters
        ≡ suc (reading 10 (rate_key (units "login") (units "x")) site.counters))
    × OnlyCounters site counted_site
consume_rate_limit_lem_example =
    consume_rate_limit_lem redis_in_memory 10 60 3 (units "login") (units "x") site counted_site
      (omega arith) counts

-- ===== src/Auth/LoggedIn.antt =====
-- auth.service.ts: a login that returns.
use ai_content_operating_sys.Base.{
  ◌≡◌, ◌≤◌, ◌<◌, sym, ap, ◌∙◌, subst, Bool, true, not, ◌||◌, ◌++◌, ◌∷◌, Option, none, some, arith,
  Memᴰ, Bool-cases, inl, inr, get_or,
}
use ai_content_operating_sys.Errors.{ok, steps, and_then-Steps, commit-eq-ok, failed}
use ai_content_operating_sys.Text.{Text, trim, equal, units}
use ai_content_operating_sys.Audit.{record_audit_done}
use ai_content_operating_sys.Auth.Passwords.{verify_password}
use ai_content_operating_sys.Auth.Tokens.{create_refresh_token, stable_hash}
use ai_content_operating_sys.Auth.RateLimit.{reading, rate_key, consume_rate_limit_lem}
use ai_content_operating_sys.Auth.Sessions.{Request, AuthResult, invalid_credentials}
use ai_content_operating_sys.Auth.Entry.{
  Deps, LoginDraws, hash_of, entering, new_session, write_login, accept_login, login,
}
use ai_content_operating_sys.Auth.Rotation.{auth_result_done}
use ai_content_operating_sys.Database.IdentityRows.{User, Session, is_active}
use ai_content_operating_sys.Database.Store.{Store, session, user, find_first}
use ai_content_operating_sys.Database.Laws.{find_first_found, update_one_done, create_done}

-- The address and the digest of the email that a limit counts under.
abbrev pub login_key : Deps → Text → Request → Text
login_key lib email request =
    rate_key (units "login")
      (get_or request.ip (units "undefined") ++ units ":" ++ stable_hash lib.secrets email)

-- Who entered, and with which session.
pub record LoggedIn (lib : Deps) (email password : Text) (draws : LoginDraws) (request : Request)
    (s t : Store) (answer : AuthResult) : Type 0 where
  pub person : User
  pub person_there : Memᴰ person s.users
  pub is_email : equal person.email email ≡ true
  pub active : is_active person.status ≡ true
  pub knew : verify_password lib.argon person.password_hash password ≡ true
  pub few :
      reading request.now (login_key lib email request) s.counters
      < lib.settings.login_rate_limit_max
  pub answers :
      answer.refresh_token ≡ create_refresh_token lib.secrets draws.session_id draws.random
  pub sessions_after :
      t.sessions ≡ new_session lib person.id draws answer.refresh_token request ∷ s.sessions

entering_done :
    (valid : Bool) (o : Option User) (u : User)
    → entering valid o ≡ some u
    → (o ≡ some u) × (valid ≡ true) × (is_active u.status ≡ true)
entering_done valid none u h = absurd (ground arith)
entering_done valid (some v) u h = elim (Bool-cases (not valid || not (is_active v.status))) [
  | inl bad ↦ absurd (ground arith)
  | inr good ↦
      let e : ◌≡◌ {A = Option User} (some v) (some u) = rw good at h in
      let e' : v ≡ u = cc in
      let live : is_active v.status ≡ true = ground arith in
      (e, ground arith, subst (λ z. is_active z.status ≡ true) e' live)
]

module _ (lib : Deps) where
  accept_done :
      (o : Option User) {s t : Store} {u : User}
      → accept_login lib o s ≡ (ok u, t)
      → (o ≡ some u) × (t ≡ s)
  accept_done none h = elim (and_then-Steps _ _ h) [
    | steps _ v e k ↦ absurd (failed invalid_credentials k)
  ]
  accept_done (some v) h = ground arith

  -- A login that returns is of an active user with that email and password, within the limit of the
  -- attempts, and leaves one more session, for the token that it answers, for a window of the limit
  -- that is not empty.
  pub login_lem :
      (email password : Text) (draws : LoginDraws) (request : Request) (s t : Store)
      {answer : AuthResult}
      → 1 ≤ lib.settings.login_rate_limit_window
      → login lib email password draws request s ≡ (ok answer, t)
      → LoggedIn lib (lib.unicode.to_lower_case (trim email)) password draws request s t answer
  unfolding login write_login
  login_lem email password draws request s t {answer} some_time h = elim (and_then-Steps _ _ h) [
    | steps _ s₁ e₁ h₁ ↦ elim (and_then-Steps _ _ h₁) [
      | steps found s₂ e₂ h₂ ↦ elim (and_then-Steps _ _ h₂) [
        | steps u s₃ e₃ h₃ ↦ elim (and_then-Steps _ _ h₃) [
          | steps _ s₄ e₄ h₄ ↦ elim (and_then-Steps _ _ (commit-eq-ok _ _ e₄)) [
            | steps _ s₅ e₅ h₅ ↦ elim (and_then-Steps _ _ h₄) [
              | steps _ s₆ e₆ h₆ ↦
                  let (few, _, counting) =
                    consume_rate_limit_lem lib.redis request.now _ _ _ _ s s₁ some_time e₁ in
                  let (accepted, q₃) = accept_done _ e₃ in
                  let (found_u, knew, active) = entering_done _ _ _ accepted in
                  let e₂' : find_first lib.db user
                        (λ x. equal x.email (lib.unicode.to_lower_case (trim email))) s₁
                      ≡ (ok (some u), s₂) =
                    rw (← found_u) e₂ in
                  let (there, mine, q₂) = find_first_found lib.db user _ e₂' in
                  let (q₅, _, _) = update_one_done lib.db user _ _ e₅ in
                  let (_, q₄, _) = create_done lib.db session _ _ h₅ in
                  let audited = record_audit_done lib.db _ e₆ in
                  let (answers, q) = auth_result_done lib u.id draws.session_id _ h₆ in
                  let old : s₅.sessions ≡ s.sessions =
                    ap (λ z. z.sessions) q₅
                    ∙ ap (λ z. z.sessions) (q₃ ∙ q₂)
                    ∙ ap (λ z. z.sessions) counting.others in
                  let made : Text → Session = λ x. new_session lib u.id draws x request in
                  let token = create_refresh_token lib.secrets draws.session_id draws.random in
                  let grown : t.sessions ≡ made token ∷ s₅.sessions =
                    ap (λ z. z.sessions) q
                    ∙ ap (λ z. z.sessions) audited.others
                    ∙ ap (λ z. z.sessions) q₄ in
                  record {
                    person = u;
                    person_there = subst (λ z. Memᴰ u z.users) counting.others there;
                    is_email = mine;
                    active = active;
                    knew =
                        subst
                          (λ z.
                            verify_password lib.argon (hash_of z lib.dummy_hash) password ≡ true)
                          found_u knew;
                    few = few;
                    answers = answers;
                    sessions_after =
                        grown
                        ∙ ap (λ z. made token ∷ z) old
                        ∙ ap (λ z. made z ∷ s.sessions) (sym answers);
                  }
            ]
          ]
        ]
      ]
    ]
  ]

-- ===== src/Auth/Reuse.antt =====
-- auth.service.ts: a refresh with a token that was used before, or of a revoked session.
use ai_content_operating_sys.Base.{
  ℕ, ◌≤◌, ◌≡◌, ◌⊎◌, refl, sym, ap, ◌∙◌, subst, Bool, true, false, not, ◌||◌, Option, none, some,
  is_some, ◌==◌, arith, inl, inr, if◌then◌else◌,
}
use ai_content_operating_sys.Errors.{
  or_throw_found, Failure, Action, Result, ok, err, pure, throw, or_throw, ◌>>=◌, ◌>>◌,
}
use ai_content_operating_sys.Errors.Atomic.{threw}
use ai_content_operating_sys.Errors.Avoids.{
  Avoids, NeverThrows-Avoids, bind-Avoids, throw-Avoids, pure-Avoids, throw_if-Avoids, if-Avoids,
}
use ai_content_operating_sys.Text.{Text}
use ai_content_operating_sys.Audit.{
  record_audit, SameData, SameData-refl, Quiet, then_Quiet, record_audit-Quiet,
}
use ai_content_operating_sys.Auth.Tokens.{
  create_refresh_token, session_id_from_refresh_token, verifiers_match,
}
use ai_content_operating_sys.Auth.RateLimit.{
  Redis, incr, pexpire, consume_rate_limit, consume_rate_limit_lem,
}
use ai_content_operating_sys.Auth.Revocation.{AllRevoked, revoke_call}
use ai_content_operating_sys.Auth.Sessions.{Request, audit_auth, revoke_family, me, session_revoked}
use ai_content_operating_sys.Auth.Entry.{
  Deps, named_session, check_reuse, check_expired, check_active, rotated, auth_result, refresh,
}
use ai_content_operating_sys.Database.Client.{Client}
use ai_content_operating_sys.Database.IdentityRows.{User, Session, AuditLog}
use ai_content_operating_sys.Database.Store.{
  Store, session, user, workspace, workspace_member, find_first, find_first_or_throw, update_one,
}
use ai_content_operating_sys.Database.Laws.{outcome}
use ai_content_operating_sys.Database.Reads.{
  find_first-NeverThrows, find_many-NeverThrows, find_first_or_throw-Avoids, update_many-Avoids,
  update_one-Avoids,
}

-- Every session of a family.
abbrev pub of_family : ℕ → Session → Bool
of_family family_id r = r.family_id == family_id

module _ (redis : Redis) (now window maximum : ℕ) where
  incr-Avoids : (key : Text) → Avoids session_revoked (incr redis now window maximum key)
  incr-Avoids key = record {
    never = λ s t h. elim (outcome (redis.incr now key s.counters)) [
      | inl (r, e) ↦ absurd (ground arith)
      | inr (y, e) ↦ let theirs = redis.incr-err now key s.counters y e in absurd (ground arith)
    ];
  }

  pexpire-Avoids : (key : Text) → Avoids session_revoked (pexpire redis now window maximum key)
  pexpire-Avoids key = record {
    never = λ s t h. elim (outcome (redis.pexpire now key window s.counters)) [
      | inl r ↦ absurd (ground arith)
      | inr (y, e) ↦
          let theirs = redis.pexpire-err now key window s.counters y e in absurd (ground arith)
    ];
  }

  consume-Avoids :
      (scope identity : Text)
      → Avoids session_revoked (consume_rate_limit redis now window maximum scope identity)
  unfolding consume_rate_limit
  consume-Avoids scope identity = bind-Avoids _ _ _ (incr-Avoids _) (λ n.
      bind-Avoids _ _ _ (if-Avoids _ _ _ _ (pexpire-Avoids _) (pure-Avoids _ tt))
        (λ _. throw_if-Avoids _ _ _ (λ e. absurd (ground arith))))

-- What a guard threw was thrown by its body.
thrown_by :
    (c : Bool) (m : Action Store (Unit {0})) {e : Failure} {s t : Store}
    → (if c then m else pure tt) s ≡ (err e, t)
    → m s ≡ (err e, t)
thrown_by true m h = h
thrown_by false m h = absurd (ground arith)

-- A throw after an audit entry leaves the tables as they were.
thrown_after :
    (db : Client) (entry : AuditLog) (e : Failure) (s t : Store) {r : Result (Unit {0})}
    → (record_audit db entry >> throw e) s ≡ (r, t)
    → SameData s t
thrown_after db entry e s t h =
    let throws : Quiet {A = Unit {0}} (throw e) = record { same = λ u. SameData-refl u } in
    let q = (then_Quiet _ _ (record_audit-Quiet db entry) throws).same s in
    subst (SameData s) (ap (λ z. z.1) h) q

module _ (lib : Deps) where
  -- A check that throws ends with the family revoked.
  check_reuse_revokes :
      (r : Session) (token : Text) (request : Request) (s t : Store)
      → check_reuse lib r token request s ≡ (err session_revoked, t)
      → AllRevoked (of_family r.family_id) t.sessions
  unfolding check_reuse revoke_family
  check_reuse_revokes r token request s t h =
      let reused =
        not (verifiers_match r.token_hash (lib.secrets.hmac token)) || is_some r.revoked_at in
      let body : ((do
        _ ← revoke_family lib.db request.now r.family_id "REFRESH_REUSE_DETECTED"
        audit_auth lib.db "auth.refresh.reuse_detected" (some r.user_id) "Session" (some r.id)
        throw session_revoked)
            s)
          ≡ (err session_revoked, t) =
        thrown_by reused _ h in
      elim (threw _ _ body) [
        | inl r' ↦
            absurd ((update_many-Avoids lib.db session session_revoked refl _ _).never _ _ r')
        | inr (n, u, e, k) ↦
            let p = of_family r.family_id in
            let done : AllRevoked p u.sessions =
              revoke_call request.now "REFRESH_REUSE_DETECTED" p _ (λ x. refl) (λ x. refl) lib.db s
                u e in
            let same = thrown_after lib.db _ _ u t k in
            subst (AllRevoked p) (sym (ap (λ z. z.sessions) same.others)) done
      ]

  check_expired-Avoids :
      (r : Session) (request : Request) → Avoids session_revoked (check_expired lib r request)
  unfolding check_expired revoke_family
  check_expired-Avoids r request =
      if-Avoids _ _ _ _
        (bind-Avoids _ _ _ (update_many-Avoids lib.db session _ refl _ _)
          (λ _. throw-Avoids _ _ (λ e. absurd (ground arith))))
        (pure-Avoids _ tt)

  check_active-Avoids :
      (r : Session) (u : User) (request : Request)
      → Avoids session_revoked (check_active lib r u request)
  unfolding check_active revoke_family
  check_active-Avoids r u request =
      if-Avoids _ _ _ _
        (bind-Avoids _ _ _ (update_many-Avoids lib.db session _ refl _ _)
          (λ _. throw-Avoids _ _ (λ e. absurd (ground arith))))
        (pure-Avoids _ tt)

  me-Avoids : (user_id : ℕ) → Avoids session_revoked (me lib.db user_id)
  unfolding me
  me-Avoids user_id = bind-Avoids _ _ _ (find_first_or_throw-Avoids lib.db user _ refl _) (λ u.
      bind-Avoids _ _ _ (NeverThrows-Avoids _ _ (find_many-NeverThrows lib.db workspace_member _))
        (λ ms.
          bind-Avoids _ _ _ (NeverThrows-Avoids _ _ (find_many-NeverThrows lib.db workspace _))
            (λ ws. pure-Avoids _ _)))

  auth_result-Avoids :
      (user_id session_id : ℕ) (token : Text)
      → Avoids session_revoked (auth_result lib user_id session_id token)
  unfolding auth_result
  auth_result-Avoids user_id session_id token =
      bind-Avoids _ _ _ (find_first_or_throw-Avoids lib.db user _ refl _)
        (λ u. bind-Avoids _ _ _ (me-Avoids user_id) (λ account. pure-Avoids _ _))

  named_same :
      (o : Option Text) (s u : Store)
      → u.sessions ≡ s.sessions
      → (named_session lib o u).0 ≡ (named_session lib o s).0
  unfolding named_session find_first
  named_same none s u q = refl
  named_same (some id) s u q =
      ap (λ z. ok (lib.db.find_first (λ r. r.id == lib.secrets.read_id id) z)) q

  named-Avoids : (o : Option Text) → Avoids session_revoked (named_session lib o)
  unfolding named_session
  named-Avoids none = pure-Avoids _ none
  named-Avoids (some id) = NeverThrows-Avoids _ _ (find_first-NeverThrows lib.db session _)

  -- The checks of a refresh, and its rotation.
  check_revokes :
      (token random : Text) (request : Request) (r : Session) (s t : Store)
      → (do
        tok ← or_throw (some token) session_revoked
        r' ← or_throw (some r) session_revoked
        u ← find_first_or_throw lib.db user (λ x. x.id == r'.user_id)
        check_reuse lib r' tok request
        check_expired lib r' request
        check_active lib r' u request
        let rotated_token = create_refresh_token lib.secrets r'.id random
        _ ← update_one lib.db session (λ x. x.id == r'.id) (rotated lib rotated_token request)
        auth_result lib r'.user_id r'.id rotated_token)
          s
        ≡ (err session_revoked, t)
      → AllRevoked (of_family r.family_id) t.sessions
  check_revokes token random request r s t h = elim (threw _ _ h) [
    | inl e ↦ absurd (ground arith)
    | inr (tok, v, e', h') ↦ elim (threw _ _ h') [
      | inl e ↦ absurd (ground arith)
      | inr (r', s', e'', h'') ↦ elim (threw _ _ h'') [
        | inl e ↦
            absurd ((find_first_or_throw-Avoids lib.db user session_revoked refl _).never _ _ e)
        | inr (u, s₁, e₁, h₁) ↦ elim (threw _ _ h₁) [
          | inl e ↦
              let (is_r, _) = or_throw_found (some r) session_revoked e'' in
              let same : r' ≡ r = cc in
              let done = check_reuse_revokes r' tok request s₁ t e in
              subst (λ z. AllRevoked (of_family z.family_id) t.sessions) same done
          | inr (_, s₂, e₂, h₂) ↦ elim (threw _ _ h₂) [
            | inl e ↦ absurd ((check_expired-Avoids r' request).never _ _ e)
            | inr (_, s₃, e₃, h₃) ↦ elim (threw _ _ h₃) [
              | inl e ↦ absurd ((check_active-Avoids r' u request).never _ _ e)
              | inr (_, s₄, e₄, h₄) ↦ elim (threw _ _ h₄) [
                | inl e ↦
                    absurd ((update_one-Avoids lib.db session session_revoked refl _ _).never _ _ e)
                | inr (_, s₅, e₅, h₅) ↦
                    absurd ((auth_result-Avoids r'.user_id r'.id _).never _ _ h₅)
              ]
            ]
          ]
        ]
      ]
    ]
  ]

  -- A refresh that answers that the session is revoked names no session, or leaves every session of
  -- the family of the session that it names revoked, for a window of the limit that is not empty.
  pub refresh_revokes :
      (token random : Text) (request : Request) (s t : Store)
      → 1 ≤ lib.settings.login_rate_limit_window
      → refresh lib (some token) random request s ≡ (err session_revoked, t)
      → ((named_session lib (session_id_from_refresh_token (some token)) s).0 ≡ ok none)
        ⊎ ((r : Session) × ((named_session lib (session_id_from_refresh_token (some token)) s).0
              ≡ ok (some r))
            × AllRevoked (of_family r.family_id) t.sessions)
  unfolding refresh
  refresh_revokes token random request s t some_time h = elim (threw _ _ h) [
    | inl r ↦ absurd ((consume-Avoids lib.redis _ _ _ _ _).never _ _ r)
    | inr (_, s₁, e₁, h₁) ↦
        let (_, _, counting) = consume_rate_limit_lem lib.redis _ _ _ _ _ s s₁ some_time e₁ in
        let same =
          named_same (session_id_from_refresh_token (some token)) s s₁
            (ap (λ z. z.sessions) counting.others) in
        elim (threw _ _ h₁) [
          | inl r ↦ absurd ((named-Avoids _).never _ _ r)
          | inr (none, s₂, e₂, h₂) ↦ inl (sym same ∙ ap (λ z. z.0) e₂)
          | inr (some r, s₂, e₂, h₂) ↦
              inr (r, sym same ∙ ap (λ z. z.0) e₂, check_revokes token random request r s₂ t h₂)
        ]
  ]

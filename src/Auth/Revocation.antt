-- ===== src/Auth/Revocation.antt =====
-- auth.service.ts: what the revocations leave of the sessions.
use Prim.Native.String.{String}
use ai_content_operating_sys.Base.{
  ℕ, ◌≡◌, refl, sym, ap, ◌∙◌, subst, Bool, true, ◌&&◌, List, map, is_some, ◌==◌, arith, Memᴰ,
  Bool-cases, inl, inr, Option,
}
use ai_content_operating_sys.Errors.{ok, steps, and_then-Steps, passed}
use ai_content_operating_sys.Text.{Text}
use ai_content_operating_sys.Audit.{record_audit_done, SameData, finished, record_audit-Quiet}
use ai_content_operating_sys.Auth.Types.{AuthContext}
use ai_content_operating_sys.Auth.Guards.{AccessClaims, authenticate}
use ai_content_operating_sys.Auth.Admission.{authenticate_lem}
use ai_content_operating_sys.Auth.Sessions.{
  Request, revoke, unrevoked, revoke_user_sessions, logout, logout_all, revoke_session,
}
use ai_content_operating_sys.Database.Client.{Client, update_row}
use ai_content_operating_sys.Database.IdentityRows.{Session}
use ai_content_operating_sys.Database.Store.{Store, session, update_many}
use ai_content_operating_sys.Database.Laws.{Memᴰ-update_row, update_many_done}

-- Every session that a test picks is revoked.
abbrev pub AllRevoked : (Session → Bool) → List Session → Type 0
AllRevoked p rows = (r : Session) → Memᴰ r rows → p r ≡ true → is_some r.revoked_at ≡ true

module _ (now : ℕ) (reason : String) (p q : Session → Bool)
    (fits : (r : Session) → q r ≡ (p r && unrevoked r))
    (stable : (r : Session) → p (revoke now reason r) ≡ p r) where
  revoked_row :
      (r r' : Session)
      → r' ≡ update_row q (revoke now reason) r
      → p r' ≡ true
      → is_some r'.revoked_at ≡ true
  revoked_row r r' e h = elim (Bool-cases (q r)) [
    | inl gone ↦
        let e' : r' ≡ revoke now reason r = rw gone at e in ap (λ z. is_some z.revoked_at) e'
    | inr kept ↦
        let e' : r' ≡ r = rw kept at e in
        let h' : p r ≡ true = subst (λ z. p z ≡ true) e' h in
        let f = fits r in subst (λ z. is_some z.revoked_at ≡ true) (sym e') (ground arith)
  ]

  -- A revocation of what a test picks, where the test does not read what the revocation writes.
  pub revoke_all :
      (rows : List Session) → AllRevoked p (map (update_row q (revoke now reason)) rows)
  revoke_all rows r' m h =
      let (r, _, e) = Memᴰ-update_row q (revoke now reason) rows m in revoked_row r r' e h

  -- The same, of a call of the client.
  pub revoke_call :
      (db : Client) (s t : Store) {n : ℕ}
      → update_many db session q (revoke now reason) s ≡ (ok n, t)
      → AllRevoked p t.sessions
  revoke_call db s t {n} h =
      let (_, e) = update_many_done db session q (revoke now reason) h in
      subst (λ z. AllRevoked p z.sessions) (sym e) (revoke_all s.sessions)

-- The session of a user, by its id.
abbrev pub own_session : ℕ → ℕ → Session → Bool
own_session user_id session_id r = r.id == session_id && r.user_id == user_id

abbrev pub of_user : ℕ → Session → Bool
of_user user_id r = r.user_id == user_id

same_sessions : {s t : Store} → SameData s t → t.sessions ≡ s.sessions
same_sessions q = ap (λ z. z.sessions) q.others

own_session_fits :
    (user_id session_id : ℕ) (r : Session)
    → (r.id == session_id && r.user_id == user_id && unrevoked r)
      ≡ (own_session user_id session_id r && unrevoked r)
own_session_fits user_id session_id r = ground arith

module _ (db : Client) (auth : AuthContext) (request : Request) where
  pub logout_revoked :
      (s t : Store) {x : Unit {0}}
      → logout db auth request s ≡ (ok x, t)
      → AllRevoked (own_session auth.user_id auth.session_id) t.sessions
  unfolding logout
  logout_revoked s t h = elim (and_then-Steps _ _ h) [
    | steps n u e k ↦
        let p = own_session auth.user_id auth.session_id in
        let done : AllRevoked p u.sessions =
          revoke_call request.now "LOGOUT" p _ (own_session_fits auth.user_id auth.session_id)
            (λ r. refl) db s u e in
        subst (AllRevoked p) (sym (same_sessions (record_audit_done db _ k))) done
  ]

  pub logout_all_revoked :
      (s t : Store) {x : Unit {0}}
      → logout_all db auth request s ≡ (ok x, t)
      → AllRevoked (of_user auth.user_id) t.sessions
  unfolding logout_all revoke_user_sessions
  logout_all_revoked s t h = elim (and_then-Steps _ _ h) [
    | steps n u e k ↦
        let p = of_user auth.user_id in
        let done : AllRevoked p u.sessions =
          revoke_call request.now "LOGOUT_ALL" p _ (λ r. refl) (λ r. refl) db s u e in
        subst (AllRevoked p) (sym (same_sessions (record_audit_done db _ k))) done
  ]

  pub revoke_session_revoked :
      (session_id : ℕ) (s t : Store) {x : Bool}
      → revoke_session db auth session_id request s ≡ (ok x, t)
      → AllRevoked (own_session auth.user_id session_id) t.sessions
  unfolding revoke_session
  revoke_session_revoked session_id s t h = elim (and_then-Steps _ _ h) [
    | steps n u e k ↦ elim (and_then-Steps _ _ k) [
      | steps _ u₂ e₂ k₂ ↦
          let p = own_session auth.user_id session_id in
          let (_, q₂) = passed _ _ e₂ in
          let done : AllRevoked p u.sessions =
            revoke_call request.now "USER_REVOKED" p _ (own_session_fits auth.user_id session_id)
              (λ r. refl) db s u e in
          let (_, audited) = finished _ _ (record_audit-Quiet db _) k₂ in
          subst (AllRevoked p) (sym (same_sessions audited ∙ ap (λ z. z.sessions) q₂)) done
    ]
  ]

module _ (db : Client) (verify : Text → Option AccessClaims) (now : ℕ) (change_allowed : Bool) where
  -- A token of a revoked session authenticates nobody.
  pub revoked-authenticate :
      (header : Option Text) (p : Session → Bool) (s t : Store) {auth : AuthContext}
      → AllRevoked p s.sessions
      → ((r : Session) → r.id ≡ auth.session_id → r.user_id ≡ auth.user_id → p r ≡ true)
      → ¬ (authenticate db verify now change_allowed header s ≡ (ok auth, t))
  revoked-authenticate header p s t {auth} gone picks h =
      let (a, _) = authenticate_lem db verify now change_allowed header h in
      let same_id : a.login_row.id ≡ auth.session_id = sym (ap (λ z. z.session_id) a.is_auth) in
      let user : auth.user_id ≡ a.person.id = ap (λ z. z.user_id) a.is_auth in
      let same_user : a.login_row.user_id ≡ auth.user_id = sym (user ∙ a.owner) in
      let dead = gone a.login_row a.login_there (picks a.login_row same_id same_user) in
      let live = a.not_revoked in absurd (ground arith)

  -- After a logout that returned, the session authenticates no request of its user.
  pub logout-authenticate :
      (auth : AuthContext) (request : Request) (header : Option Text) (s t u : Store) {x : Unit {0}}
      {auth' : AuthContext}
      → logout db auth request s ≡ (ok x, t)
      → authenticate db verify now change_allowed header t ≡ (ok auth', u)
      → ¬ ((auth'.session_id ≡ auth.session_id) × (auth'.user_id ≡ auth.user_id))
  logout-authenticate auth request header s t u {x} {auth'} out h (e, e') =
      revoked-authenticate header (own_session auth.user_id auth.session_id) t u
        (logout_revoked db auth request s t out) (λ r q q'. ground arith) h

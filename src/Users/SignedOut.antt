-- ===== src/Users/SignedOut.antt =====
-- users.service.ts with the guard of the access tokens: accounts that are deactivated or reset.
use ai_content_operating_sys.Base.{
  ℕ, ◌≡◌, ◌≢◌, refl, sym, ap, ◌∙◌, subst, Bool, true, List, map, Option, some, ◌+◌, ◌==◌, ==_iff,
}
use ai_content_operating_sys.Errors.{ok, steps, and_then-Steps, commit-eq-ok, ok_injective, passed}
use ai_content_operating_sys.Text.{Text}
use ai_content_operating_sys.Audit.{record_audit-Quiet, finished}
use ai_content_operating_sys.Auth.Types.{AuthContext}
use ai_content_operating_sys.Auth.Guards.{AccessClaims, authenticate}
use ai_content_operating_sys.Auth.Passwords.{
  Argon2, assert_valid, hash_password, temporary_password,
}
use ai_content_operating_sys.Auth.Sessions.{SafeUserSummary, revoke_user_sessions}
use ai_content_operating_sys.Auth.Revocation.{
  AllRevoked, of_user, revoke_call, revoked-authenticate,
}
use ai_content_operating_sys.Database.Client.{Client, update_row}
use ai_content_operating_sys.Database.IdentityRows.{User}
use ai_content_operating_sys.Database.Store.{Store, session, user}
use ai_content_operating_sys.Database.Laws.{update_many_done, update_one_done}
use ai_content_operating_sys.Users.Managing.{deactivate, write_reset, reset_password}
use ai_content_operating_sys.Users.Managers.{Manager, assert_can_manage_lem}
use ai_content_operating_sys.Users.Deactivation.{UniqueMemberships, deactivate_lem}

-- A user without a live session is not authenticated.
signed_out-authenticate :
    (db : Client) (verify : Text → Option AccessClaims) (now : ℕ) (change_allowed : Bool)
    (header : Option Text) (target : ℕ) (s t : Store) {auth : AuthContext}
    → AllRevoked (of_user target) s.sessions
    → authenticate db verify now change_allowed header s ≡ (ok auth, t)
    → auth.user_id ≢ target
signed_out-authenticate db verify now change_allowed header target s t gone h e =
    revoked-authenticate db verify now change_allowed header (of_user target) s t gone
      (λ r q q'. (==_iff _ _).1 (q' ∙ e)) h

-- The reset row.
abbrev pub reset_row : Text → ℕ → User → User
reset_row password_hash now u = record u {
  password_hash = password_hash;
  must_change_password = true;
  password_changed_at = some now;
  security_version = u.security_version + 1;
}

-- What a reset did to the account and its sessions.
pub record Reset (argon : Argon2) (actor target : ℕ) (temporary : Text) (now : ℕ) (s t : Store)
    : Type 0 where
  pub manager : Manager s actor target
  pub users_after :
      t.users
      ≡ map (update_row (λ u. u.id == target) (reset_row (argon.hash temporary) now)) s.users
  pub signed_out : AllRevoked (of_user target) t.sessions

hash_password_done :
    (argon : Argon2) (minimum : ℕ) (password : Text) {s t : Store} {hash : Text}
    → hash_password argon minimum password s ≡ (ok hash, t)
    → (hash ≡ argon.hash password) × (t ≡ s)
unfolding hash_password assert_valid
hash_password_done argon minimum password {s} {t} {hash} h = elim (and_then-Steps _ _ h) [
  | steps _ u e k ↦
      let (_, q) = passed _ _ e in
      (sym (ok_injective _ _ (ap (λ z. z.0) k)), sym (ap (λ z. z.1) k) ∙ q)
]

module _ (db : Client) where
  -- A reset that returns was asked by a manager of the account, which keeps the hash of the temporary
  -- password that is answered, with a new version, and has no live session.
  pub reset_password_lem :
      (argon : Argon2) (minimum : ℕ) (actor : AuthContext) (target : ℕ) (random : Text) (now : ℕ)
      (s t : Store) {answer : SafeUserSummary × Text}
      → reset_password db argon minimum actor target random now s ≡ (ok answer, t)
      → Reset argon actor.user_id target answer.1 now s t
  unfolding reset_password write_reset revoke_user_sessions
  reset_password_lem argon minimum actor target random now s t {answer} h =
      elim (and_then-Steps _ _ h) [
        | steps _ s₁ e₁ h₁ ↦ elim (and_then-Steps _ _ h₁) [
          | steps hash s₂ e₂ h₂ ↦ elim (and_then-Steps _ _ h₂) [
            | steps row s₃ e₃ h₃ ↦ elim (and_then-Steps _ _ (commit-eq-ok _ _ e₃)) [
              | steps row' s₄ e₄ h₄ ↦ elim (and_then-Steps _ _ h₄) [
                | steps _ s₅ e₅ h₅ ↦
                    let (manager, q₁) = assert_can_manage_lem db actor.user_id target s s₁ e₁ in
                    let (is_hash, q₂) = hash_password_done argon minimum _ e₂ in
                    let (q₄, _, _) = update_one_done db user _ _ e₄ in
                    let gone =
                      revoke_call now "ADMIN_PASSWORD_RESET" (of_user target) _ (λ r. refl)
                        (λ r. refl) db s₄ s₅ e₅ in
                    let (_, q₅) = update_many_done db session _ _ e₅ in
                    let q₃ : s₅ ≡ s₃ = ap (λ z. z.1) h₅ in
                    let (is_answer, audited) = finished _ _ (record_audit-Quiet db _) h₃ in
                    let is_temporary : temporary_password random ≡ answer.1 =
                      ap (λ z. z.1) is_answer in
                    let change : Text → List User → List User =
                      λ x. map (update_row (λ u. u.id == target) (reset_row x now)) in
                    let people : t.users ≡ change hash s.users =
                      ap (λ z. z.users) audited.others
                      ∙ ap (λ z. z.users) (sym q₃)
                      ∙ ap (λ z. z.users) q₅
                      ∙ ap (λ z. z.users) q₄
                      ∙ ap (λ z. change hash z.users) (q₂ ∙ q₁) in
                    let rows : t.sessions ≡ s₅.sessions =
                      ap (λ z. z.sessions) audited.others ∙ ap (λ z. z.sessions) (sym q₃) in
                    record {
                      manager = manager;
                      users_after =
                          people
                          ∙ ap (λ z. change z s.users) is_hash
                          ∙ ap (λ z. change (argon.hash z) s.users) is_temporary;
                      signed_out = subst (AllRevoked (of_user target)) (sym rows) gone;
                    }
              ]
            ]
          ]
        ]
      ]

  -- After a deactivation that returned, no token authenticates the account, where each user has one
  -- membership of a workspace.
  pub deactivate-authenticate :
      (verify : Text → Option AccessClaims) (change_allowed : Bool) (header : Option Text)
      (actor : AuthContext) (target now later : ℕ) (s t u : Store) {x : Unit {0}}
      {auth : AuthContext}
      → UniqueMemberships s.members
      → deactivate db actor target now s ≡ (ok x, t)
      → authenticate db verify later change_allowed header t ≡ (ok auth, u)
      → auth.user_id ≢ target
  deactivate-authenticate verify change_allowed header actor target now later s t u unique h k =
      signed_out-authenticate db verify later change_allowed header target t u
        (deactivate_lem db actor target now s t unique h).signed_out k

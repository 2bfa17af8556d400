-- ===== src/Auth/PasswordChange.antt =====
-- auth.service.ts: what a change of a password leaves.
use ai_content_operating_sys.Base.{
  ℕ, ◌≡◌, refl, sym, ap, ◌∙◌, subst, Bool, true, false, not, ◌&&◌, List, [], ◌∷◌, map, some, ◌==◌,
  ==_iff, arith, Memᴰ, not-eq-false, any, length, ◌≤◌,
}
use ai_content_operating_sys.Errors.{
  Result, ok, Action, steps, and_then-Steps, passed, commit-eq-ok,
}
use ai_content_operating_sys.Text.{Text, trim, is_empty}
use ai_content_operating_sys.Audit.{record_audit_done}
use ai_content_operating_sys.Auth.Types.{AuthContext}
use ai_content_operating_sys.Auth.Passwords.{
  Argon2, is_latin_letter, is_digit, refused_password, assert_valid, hash_password, verify_password,
}
use ai_content_operating_sys.Auth.Sessions.{
  Request, Settings, revoke, unrevoked, write_password, change_password,
}
use ai_content_operating_sys.Auth.Revocation.{AllRevoked, revoke_call}
use ai_content_operating_sys.Database.Client.{Client, update_row}
use ai_content_operating_sys.Database.IdentityRows.{User, Session}
use ai_content_operating_sys.Database.Store.{Store, session, user, update_many}
use ai_content_operating_sys.Database.Laws.{
  find_first_or_throw_found, update_many_done, update_one_done,
}

-- The sessions of a user but one.
abbrev pub other_session : ℕ → ℕ → Session → Bool
other_session user_id session_id r = r.user_id == user_id && not (r.id == session_id)

other_session_fits :
    (user_id session_id : ℕ) (r : Session)
    → (r.user_id == user_id && not (r.id == session_id) && unrevoked r)
      ≡ (other_session user_id session_id r && unrevoked r)
other_session_fits user_id session_id r = ground arith

-- What a password must have.
pub record Acceptable (minimum : ℕ) (password : Text) : Type 0 where
  pub long : minimum ≤ length password
  pub short : length password ≤ 128
  pub visible : is_empty (trim password) ≡ false
  pub letter : any is_latin_letter password ≡ true
  pub digit : any is_digit password ≡ true

assert_valid_done :
    (minimum : ℕ) (password : Text) {s t : Store} {x : Unit {0}}
    → assert_valid minimum password s ≡ (ok x, t)
    → Acceptable minimum password × (t ≡ s)
unfolding assert_valid
assert_valid_done minimum password h =
    let (fine, q) = passed (refused_password minimum password) _ h in
    (
      record {
        long = ground arith;
        short = ground arith;
        visible = ground arith;
        letter = ground arith;
        digit = ground arith;
      },
      q,
    )

-- The user before, and the store after a change of the password.
pub record Changed (argon : Argon2) (settings : Settings) (auth : AuthContext) (current next : Text)
    (now : ℕ) (s t : Store) : Type 0 where
  pub person : User
  pub person_there : Memᴰ person s.users
  pub is_person : person.id ≡ auth.user_id
  pub knew : verify_password argon person.password_hash current ≡ true
  pub differs : verify_password argon person.password_hash next ≡ false
  pub acceptable : Acceptable settings.password_min_length next
  pub users_after :
      t.users
      ≡ map
          (update_row
            (λ u. u.id == person.id)
            (λ u. record u {
              password_hash = argon.hash next;
              must_change_password = false;
              password_changed_at = some now;
            }))
          s.users
  pub others_revoked : AllRevoked (other_session auth.user_id auth.session_id) t.sessions
  pub sessions_after :
      t.sessions
      ≡ map
          (update_row
            (λ r. r.user_id == person.id && not (r.id == auth.session_id) && unrevoked r)
            (revoke now "PASSWORD_CHANGED"))
          s.sessions
  pub kept :
      (r : Session)
      → Memᴰ r s.sessions
      → other_session auth.user_id auth.session_id r ≡ false
      → Memᴰ r t.sessions

update_row_kept :
    (p : Session → Bool) (f : Session → Session) (rows : List Session) {r : Session}
    → Memᴰ r rows
    → p r ≡ false
    → Memᴰ r (map (update_row p f) rows)
update_row_kept p f [] m h = elim m [ ]
update_row_kept p f (x ∷ rows) (Memᴰ.head e) h =
    let h' : p x ≡ false = subst (λ z. p z ≡ false) e h in rw h' (Memᴰ.head e)
update_row_kept p f (x ∷ rows) (Memᴰ.tail m) h = Memᴰ.tail (update_row_kept p f rows m h)

same_hash : (a b : Text) → ◌≡◌ {A = Result Text} (ok a) (ok b) → a ≡ b
same_hash a b h = cc

-- The revocation in the transaction of `changePassword`.
abbrev revoke_others : Client → ℕ → ℕ → ℕ → Action Store ℕ
revoke_others db now user_id session_id =
    update_many db session (λ r. r.user_id == user_id && not (r.id == session_id) && unrevoked r)
      (revoke now "PASSWORD_CHANGED")

module _ (db : Client) (now user_id session_id : ℕ) (s t : Store) {n : ℕ}
    (h : revoke_others db now user_id session_id s ≡ (ok n, t)) where
  others_revoked_done :
      AllRevoked (other_session user_id session_id) t.sessions
      × ((r : Session)
          → Memᴰ r s.sessions
          → other_session user_id session_id r ≡ false
          → Memᴰ r t.sessions)
      × (t.sessions
          ≡ map
              (update_row
                (λ r. r.user_id == user_id && not (r.id == session_id) && unrevoked r)
                (revoke now "PASSWORD_CHANGED"))
              s.sessions)
  others_revoked_done =
      let (_, q) = update_many_done db session _ _ h in
      (
        revoke_call now "PASSWORD_CHANGED" (other_session user_id session_id) _
            (other_session_fits user_id session_id) (λ r. refl) db s t h,
        λ r m e.
            subst (λ z. Memᴰ r z.sessions) (sym q)
              (update_row_kept _ (revoke now "PASSWORD_CHANGED") s.sessions m (ground arith)),
        ap (λ z. z.sessions) q,
      )

  users_kept : t.users ≡ s.users
  users_kept = let (_, q) = update_many_done db session _ _ h in ap (λ z. z.users) q

module _ (db : Client) (argon : Argon2) (settings : Settings) where
  -- A change of the password that returns was asked with the current password and an acceptable new
  -- one, of which the hash is kept; every other session of the user is revoked; the session of the
  -- request and the sessions of other users are kept as they were.
  pub change_password_lem :
      (auth : AuthContext) (current next : Text) (request : Request) (s t : Store) {x : Unit {0}}
      → change_password db argon settings auth current next request s ≡ (ok x, t)
      → Changed argon settings auth current next request.now s t
  unfolding change_password write_password hash_password
  change_password_lem auth current next request s t h = elim (and_then-Steps _ _ h) [
    | steps u s₁ e₁ h₁ ↦ elim (and_then-Steps _ _ h₁) [
      | steps _ s₂ e₂ h₂ ↦ elim (and_then-Steps _ _ h₂) [
        | steps _ s₃ e₃ h₃ ↦ elim (and_then-Steps _ _ h₃) [
          | steps _ s₄ e₄ h₄ ↦ elim (and_then-Steps _ _ h₄) [
            | steps hash s₅ e₅ h₅ ↦ elim (and_then-Steps _ _ h₅) [
              | steps _ s₆ e₆ h₆ ↦ elim (and_then-Steps _ _ (commit-eq-ok _ _ e₆)) [
                | steps _ s₇ e₇ h₇ ↦ elim (and_then-Steps _ _ e₅) [
                  | steps _ s₈ e₈ h₈ ↦
                      let (there, mine, q₁) = find_first_or_throw_found db user _ e₁ in
                      let (knew, q₂) = passed _ _ e₂ in
                      let (acceptable, q₃) = assert_valid_done _ _ e₃ in
                      let (differs, q₄) = passed _ _ e₄ in
                      let (_, q₈) = assert_valid_done _ _ e₈ in
                      let is_hash : argon.hash next ≡ hash = same_hash _ _ (ap (λ z. z.0) h₈) in
                      let q₅ : s₈ ≡ s₅ = ap (λ z. z.1) h₈ in
                      let (wrote, _, _) = update_one_done db user _ _ e₇ in
                      let same : s₅ ≡ s = sym q₅ ∙ q₈ ∙ q₄ ∙ q₃ ∙ q₂ ∙ q₁ in
                      let is_user : u.id ≡ auth.user_id = (==_iff _ _).0 mine in
                      let (revoked, kept, written) =
                        others_revoked_done db request.now u.id auth.session_id s₇ s₆ h₇ in
                      let audited = record_audit_done db _ h₆ in
                      let rows : t.sessions ≡ s₆.sessions = ap (λ z. z.sessions) audited.others in
                      let old_rows : s₇.sessions ≡ s.sessions =
                        ap (λ z. z.sessions) wrote ∙ ap (λ z. z.sessions) same in
                      let change : Text → List User → List User = λ new. map (
                        update_row (λ v. v.id == u.id)
                          (λ v. record v {
                            password_hash = new;
                            must_change_password = false;
                            password_changed_at = some request.now;
                          })) in
                      let people : t.users ≡ change hash s₅.users =
                        ap (λ z. z.users) audited.others
                        ∙ users_kept db request.now u.id auth.session_id s₇ s₆ h₇
                        ∙ ap (λ z. z.users) wrote in
                      record {
                        person = u;
                        person_there = there;
                        is_person = is_user;
                        knew = not-eq-false _ knew;
                        differs = differs;
                        acceptable = acceptable;
                        users_after =
                            people
                            ∙ ap (λ z. change z s₅.users) (sym is_hash)
                            ∙ ap (λ z. change (argon.hash next) z.users) same;
                        others_revoked =
                            subst (λ z. AllRevoked (other_session z auth.session_id) t.sessions)
                              is_user
                              (subst (AllRevoked (other_session u.id auth.session_id)) (sym rows)
                                revoked);
                        sessions_after = rows ∙ written ∙ ap (map _) old_rows;
                        kept = λ r m e. subst (Memᴰ r) (sym rows) (
                            kept r (subst (Memᴰ r) (sym old_rows) m) (
                              subst (λ z. other_session z auth.session_id r ≡ false) (sym is_user)
                                e));
                      }
                ]
              ]
            ]
          ]
        ]
      ]
    ]
  ]

-- ===== src/Auth/Rotation.antt =====
-- auth.service.ts: a refresh that returns, and the token it replaces.
use ai_content_operating_sys.Text.Equality.{equal-true}
use ai_content_operating_sys.Base.{
  ℕ, ◌<◌, ◌≤◌, ◌≡◌, refl, sym, ap, ◌∙◌, subst, Bool, true, false, not, ◌||◌, List, map, Option,
  none, some, is_some, leb, ◌==◌, ==_iff, arith, Memᴰ, Bool-cases, inl, inr, not-eq-false, ◌≢◌,
  if◌then◌else◌,
}
use ai_content_operating_sys.Errors.{
  Failure, Action, Result, ok, pure, throw, or_throw, and_then, steps, and_then-Steps, failed,
  or_throw_found,
}
use ai_content_operating_sys.Errors.Atomic.{Reads, read_only, pure-Reads, bind-Reads}
use ai_content_operating_sys.Database.Reads.{find_first_or_throw-Reads, find_many-Reads}
use ai_content_operating_sys.Auth.Admission.{found_row}
use ai_content_operating_sys.Text.{Text}
use ai_content_operating_sys.Auth.Tokens.{
  create_refresh_token, session_id_from_refresh_token, hex_bytes, verifiers_match,
}
use ai_content_operating_sys.Auth.RateLimit.{consume_rate_limit_lem}
use ai_content_operating_sys.Auth.Sessions.{Request, AuthResult, me, session_revoked}
use ai_content_operating_sys.Auth.Entry.{
  Deps, named_session, check_reuse, check_expired, check_active, rotated, auth_result, refresh,
}
use ai_content_operating_sys.Database.Client.{update_row}
use ai_content_operating_sys.Database.IdentityRows.{User, Session, is_active}
use ai_content_operating_sys.Database.Store.{Store, session, user, workspace, workspace_member}
use ai_content_operating_sys.Database.Laws.{
  Memᴰ-update_row, find_first_or_throw_found, update_one_done,
}

-- A call that ends with a throw does not return.
throws :
    {A B : Type 0} (r : Result A × Store) (e : Failure) {t : Store} {b : B}
    → ¬ (and_then (λ _. throw e) r ≡ (ok b, t))
throws r e h = elim (and_then-Steps _ _ h) [ steps a u e₁ k ↦ failed e k ]

guard_passed :
    (c : Bool) (m : Action Store (Unit {0})) {s t : Store} {x : Unit {0}}
    → ((u : Store) → ¬ (m s ≡ (ok tt, u)))
    → (if c then m else pure tt) s ≡ (ok x, t)
    → (c ≡ false) × (t ≡ s)
guard_passed true m never h = absurd (never _ h)
guard_passed false m never h = ground arith

reused_or : (a b : Bool) → (not a || b) ≡ false → (a ≡ true) × (b ≡ false)
reused_or a b h = ground arith

-- The session that a refreshed token was the last of, and what became of it.
pub record Refreshed (lib : Deps) (now : ℕ) (token random : Text) (request : Request) (s t : Store)
    (answer : AuthResult) : Type 0 where
  pub id : Text
  pub old : Session
  pub person : User
  pub names : session_id_from_refresh_token (some token) ≡ some id
  pub old_there : Memᴰ old s.sessions
  pub is_named : old.id ≡ lib.secrets.read_id id
  pub matching : verifiers_match old.token_hash (lib.secrets.hmac token) ≡ true
  pub not_revoked : is_some old.revoked_at ≡ false
  pub not_expired : now < old.expires_at
  pub person_there : Memᴰ person s.users
  pub owner : person.id ≡ old.user_id
  pub active : is_active person.status ≡ true
  pub next : answer.refresh_token ≡ create_refresh_token lib.secrets old.id random
  pub sessions_after :
      t.sessions
      ≡ map (update_row (λ r. r.id == old.id) (rotated lib answer.refresh_token request)) s.sessions

module _ (lib : Deps) where
  me-Reads : (user_id : ℕ) → Reads (me lib.db user_id)
  unfolding me
  me-Reads user_id = bind-Reads _ _ (find_first_or_throw-Reads lib.db user _) (λ u.
      bind-Reads _ _ (find_many-Reads lib.db workspace_member _)
        (λ ms. bind-Reads _ _ (find_many-Reads lib.db workspace _) (λ ws. pure-Reads _)))

  pub auth_result_done :
      (user_id session_id : ℕ) (token : Text) {s t : Store} {answer : AuthResult}
      → auth_result lib user_id session_id token s ≡ (ok answer, t)
      → (answer.refresh_token ≡ token) × (t ≡ s)
  unfolding auth_result
  auth_result_done user_id session_id token {s} {t} {answer} h = elim (and_then-Steps _ _ h) [
    | steps u s₁ e₁ h₁ ↦ elim (and_then-Steps _ _ h₁) [
      | steps account s₂ e₂ h₂ ↦
          let q₁ = read_only _ (find_first_or_throw-Reads lib.db user _) e₁ in
          let q₂ = read_only _ (me-Reads user_id) e₂ in ground (arith, q₁, q₂)
    ]
  ]

  named_found :
      (o : Option Text) (e : Failure) {s₀ s₁ s₂ : Store} {found : Option Session} {r : Session}
      → named_session lib o s₀ ≡ (ok found, s₁)
      → or_throw found e s₁ ≡ (ok r, s₂)
      → (id : Text) × (o ≡ some id)
        × Memᴰ r s₀.sessions
        × (r.id ≡ lib.secrets.read_id id)
        × (s₂ ≡ s₀)
  unfolding named_session
  named_found none e {s₀} {s₁} {s₂} {found} {r} h k =
      let (there, _) = or_throw_found _ e k in absurd (ground arith)
  named_found (some id) e {s₀} {s₁} {s₂} {found} {r} h k =
      let (there, mine, q) = found_row lib.db session _ e h k in
      (id, refl, there, (==_iff _ _).0 mine, q)

  check_reuse_done :
      (r : Session) (token : Text) (request : Request) {s t : Store} {x : Unit {0}}
      → check_reuse lib r token request s ≡ (ok x, t)
      → (verifiers_match r.token_hash (lib.secrets.hmac token) ≡ true)
        × (is_some r.revoked_at ≡ false)
        × (t ≡ s)
  unfolding check_reuse
  check_reuse_done r token request {s} {t} h =
      let (free, q) =
        guard_passed _ _ (λ u k. elim (and_then-Steps _ _ k) [ steps a u' e k' ↦ throws _ _ k' ])
          h in
      let (fits, live) = reused_or _ _ free in (fits, live, q)

  check_expired_done :
      (r : Session) (request : Request) {s t : Store} {x : Unit {0}}
      → check_expired lib r request s ≡ (ok x, t)
      → (request.now < r.expires_at) × (t ≡ s)
  unfolding check_expired
  check_expired_done r request {s} {t} h =
      let (fresh, q) = guard_passed (leb r.expires_at request.now) _ (λ u k. throws _ _ k) h in
      (ground arith, q)

  check_active_done :
      (r : Session) (u : User) (request : Request) {s t : Store} {x : Unit {0}}
      → check_active lib r u request s ≡ (ok x, t)
      → (is_active u.status ≡ true) × (t ≡ s)
  unfolding check_active
  check_active_done r u request {s} {t} h =
      let (live, q) = guard_passed _ _ (λ v k. throws _ _ k) h in (not-eq-false _ live, q)

  -- A refresh that returned had the last token of a live session of an active user, whose next token
  -- it answers, for a window of the limit that is not empty; no other session changed.
  pub refresh_lem :
      (token random : Text) (request : Request) (s t : Store) {answer : AuthResult}
      → 1 ≤ lib.settings.login_rate_limit_window
      → refresh lib (some token) random request s ≡ (ok answer, t)
      → Refreshed lib request.now token random request s t answer
  unfolding refresh
  refresh_lem token random request s t {answer} some_time h = elim (and_then-Steps _ _ h) [
    | steps _ s₁ e₁ h₁ ↦ elim (and_then-Steps _ _ h₁) [
      | steps found s₂ e₂ h₂ ↦ elim (and_then-Steps _ _ h₂) [
        | steps tok s₃ e₃ h₃ ↦ elim (and_then-Steps _ _ h₃) [
          | steps r s₄ e₄ h₄ ↦ elim (and_then-Steps _ _ h₄) [
            | steps u s₅ e₅ h₅ ↦ elim (and_then-Steps _ _ h₅) [
              | steps _ s₆ e₆ h₆ ↦ elim (and_then-Steps _ _ h₆) [
                | steps _ s₇ e₇ h₇ ↦ elim (and_then-Steps _ _ h₇) [
                  | steps _ s₈ e₈ h₈ ↦ elim (and_then-Steps _ _ h₈) [
                    | steps r' s₉ e₉ h₉ ↦
                        let (_, _, counting) =
                          consume_rate_limit_lem lib.redis request.now _ _ _ _ s s₁ some_time e₁ in
                        let (is_tok, q₃) = or_throw_found (some token) session_revoked e₃ in
                        let tok_is : tok ≡ token = cc in
                        let e₄' : or_throw found session_revoked s₂ ≡ (ok r, s₄) = rw q₃ at e₄ in
                        let (id, names, there, is_named, q₄) =
                          named_found (session_id_from_refresh_token (some token)) session_revoked
                            e₂ e₄' in
                        let (u_there, owner, q₅) = find_first_or_throw_found lib.db user _ e₅ in
                        let (fits, live, q₆) = check_reuse_done r tok request e₆ in
                        let (fresh, q₇) = check_expired_done r request e₇ in
                        let (active, q₈) = check_active_done r u request e₈ in
                        let (q₉, _, _) = update_one_done lib.db session _ _ e₉ in
                        let (next, q) = auth_result_done r.user_id r.id _ h₉ in
                        let back : s₈ ≡ s₁ = q₈ ∙ q₇ ∙ q₆ ∙ q₅ ∙ q₄ in
                        let rows : s₁.sessions ≡ s.sessions =
                          ap (λ z. z.sessions) counting.others in
                        let people : s₄.users ≡ s.users =
                          ap (λ z. z.users) q₄ ∙ ap (λ z. z.users) counting.others in
                        let start : s₈.sessions ≡ s.sessions = ap (λ z. z.sessions) back ∙ rows in
                        let change : Text → List Session → List Session =
                          λ x. map (update_row (λ y. y.id == r.id) (rotated lib x request)) in
                        let token' = create_refresh_token lib.secrets r.id random in
                        let final : t.sessions ≡ change token' s₈.sessions =
                          ap (λ z. z.sessions) (q ∙ q₉) in
                        record {
                          id = id;
                          old = r;
                          person = u;
                          names = names;
                          old_there = subst (Memᴰ r) rows there;
                          is_named = is_named;
                          matching =
                              subst (λ z. verifiers_match r.token_hash (lib.secrets.hmac z) ≡ true)
                                tok_is fits;
                          not_revoked = live;
                          not_expired = fresh;
                          person_there = subst (Memᴰ u) people u_there;
                          owner = (==_iff _ _).0 owner;
                          active = active;
                          next = next;
                          sessions_after =
                              final
                              ∙ ap (change token') start
                              ∙ ap (λ x. change x s.sessions) (sym next);
                        }
                  ]
                ]
              ]
            ]
          ]
        ]
      ]
    ]
  ]

rotated_row :
    (lib : Deps) (key : ℕ) (token : Text) (request : Request) (r r' : Session)
    → r' ≡ update_row (λ x. x.id == key) (rotated lib token request) r
    → r'.id ≡ key
    → r'.token_hash ≡ lib.secrets.hmac token
unfolding rotated
rotated_row lib key token request r r' e h = elim (Bool-cases (r.id == key)) [
  | inl here ↦ let e' : r' ≡ rotated lib token request r = rw here at e in ap (λ z. z.token_hash) e'
  | inr other ↦
      let e' : r' ≡ r = rw other at e in
      let same : r.id ≡ key = ap (λ z. z.id) (sym e') ∙ h in absurd (ground arith)
]

module _ (lib : Deps) where
  -- A token that was refreshed does not refresh again: its session now answers to the next token
  -- only, when the digests of the two tokens differ.
  pub refresh_once :
      (token random random' : Text) (request request' : Request) (s t u : Store)
      {answer answer' : AuthResult}
      → 1 ≤ lib.settings.login_rate_limit_window
      → hex_bytes (lib.secrets.hmac token) ≢ hex_bytes (lib.secrets.hmac answer.refresh_token)
      → refresh lib (some token) random request s ≡ (ok answer, t)
      → ¬ (refresh lib (some token) random' request' t ≡ (ok answer', u))
  unfolding verifiers_match
  refresh_once token random random' request request' s t u {answer} {answer'} some_time differ h k =
      let one = refresh_lem lib token random request s t some_time h in
      let two = refresh_lem lib token random' request' t u some_time k in
      let names : ◌≡◌ {A = Option Text} (some one.id) (some two.id) = sym one.names ∙ two.names in
      let same_id : one.id ≡ two.id = cc in
      let key : two.old.id ≡ one.old.id =
        two.is_named ∙ ap lib.secrets.read_id (sym same_id) ∙ sym one.is_named in
      let there = subst (Memᴰ two.old) one.sessions_after two.old_there in
      let (r, _, e) =
        Memᴰ-update_row (λ x. x.id == one.old.id) (rotated lib answer.refresh_token request)
          s.sessions there in
      let hash = rotated_row lib one.old.id answer.refresh_token request r two.old e key in
      let fits = subst (λ z. verifiers_match z (lib.secrets.hmac token) ≡ true) hash two.matching in
      differ (sym (equal-true _ _ fits))

-- ===== src/Auth/TokenForm.antt =====
-- auth.service.ts: the form of a refresh token.
use ai_content_operating_sys.Base.{
  ℕ, ◌≡◌, refl, Bool, true, false, not, List, [], ◌∷◌, ◌++◌, any, all, some, ◌==◌, ==_iff, arith,
  subst, Bool-cases, inl, inr, and-true,
}
use ai_content_operating_sys.Text.{Text}
use ai_content_operating_sys.Auth.Tokens.{
  Secrets, matches, uuid_pattern, until_dot, create_refresh_token, session_id_from_refresh_token,
}

until_dot-dot :
    (word rest : Text)
    → any (λ c. c == 0x2e) word ≡ false
    → until_dot (word ++ (0x2e ∷ rest)) ≡ word
unfolding until_dot
until_dot-dot [] rest h = refl
until_dot-dot (c ∷ word) rest h = ground (arith, until_dot-dot word rest)

no_dot :
    (ps : List (ℕ → Bool)) (word : Text)
    → all (λ p. not (p 0x2e)) ps ≡ true
    → matches ps word ≡ true
    → any (λ c. c == 0x2e) word ≡ false
no_dot [] [] h k = refl
no_dot [] (c ∷ word) h k = absurd (ground arith)
no_dot (p ∷ ps) [] h k = refl
no_dot (p ∷ ps) (c ∷ word) h k =
    let (refuses, others) = and-true _ _ h in
    let (takes, fits) = and-true _ _ k in
    let rest = no_dot ps word others fits in
    elim (Bool-cases (c == 0x2e)) [
      | inl dot ↦
          let e : c ≡ 0x2e = (==_iff c 0x2e).0 dot in
          let e' : p 0x2e ≡ true = subst (λ z. p z ≡ true) e takes in absurd (ground arith)
      | inr other ↦ ground arith
    ]

module _ (secrets : Secrets) where
  -- The session id of a new refresh token is the one that it was made for, when ids are printed as
  -- the service expects them.
  pub session_id_from_refresh_token-create_refresh_token :
      (session_id : ℕ) (random : Text)
      → matches uuid_pattern (secrets.print_id session_id) ≡ true
      → session_id_from_refresh_token (some (create_refresh_token secrets session_id random))
        ≡ some (secrets.print_id session_id)
  unfolding session_id_from_refresh_token create_refresh_token
  session_id_from_refresh_token-create_refresh_token session_id random uuid =
      let word = secrets.print_id session_id in
      let e = until_dot-dot word random (no_dot uuid_pattern word refl uuid) in rw (e, uuid) refl

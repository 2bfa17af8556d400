-- ===== src/Errors.antt =====
-- What a request can fail with: `ERROR_CODES` (packages/shared/src/index.ts), the coded HTTP
-- exception (apps/api/src/common/errors/coded-http.exception.ts, its French message left out), and
-- the errors that the database client throws. `Action` is a call that reads and writes the store
-- and may throw: what was written before the throw stays written, unless a transaction rolls back.
pub mod Atomic
pub mod Avoids
pub mod Kept
use ai_content_operating_sys.Base.{
  ◌⊎◌, inl, inr, arith, ◌≡◌, sym, ap, ◌∙◌, refl, Bool, true, false, Option, none, some,
  if◌then◌else◌,
}

pub data ErrorCode : Type 0 where
  validation not_found conflict unauthorized forbidden internal : ErrorCode
  infrastructure_unavailable auth_invalid_credentials auth_session_expired : ErrorCode
  auth_session_revoked auth_password_change_required rate_limit_exceeded : ErrorCode
  user_inactive user_email_conflict workspace_not_found workspace_access_denied : ErrorCode
  workspace_last_owner member_already_exists member_role_forbidden : ErrorCode
  website_slug_conflict content_profile_default_conflict content_slug_conflict : ErrorCode
  content_stale_update content_invalid_transition content_html_unsafe : ErrorCode
  content_assignment_invalid content_profile_invalid content_review_stale : ErrorCode
  content_review_note_required content_publication_not_ready : ErrorCode
  content_publication_conflict content_publication_missing : ErrorCode
  integration_not_configured integration_mode_invalid : ErrorCode
  integration_connection_not_found integration_connection_expired : ErrorCode
  integration_credential_decryption_failed integration_oauth_state_invalid : ErrorCode
  integration_oauth_state_expired integration_oauth_state_reused : ErrorCode
  blogger_account_unauthorized blogger_permission_denied blogger_blog_not_found : ErrorCode
  blogger_post_not_found blogger_rate_limited blogger_upstream_unavailable : ErrorCode
  blogger_token_refresh_failed blogger_duplicate_operation : ErrorCode
  blogger_public_publish_disabled blogger_delete_disabled blogger_invalid_html : ErrorCode
  blogger_sync_already_running ai_configuration_not_found ai_configuration_invalid : ErrorCode
  ai_credential_unavailable ai_monthly_limit_reached ai_provider_failed : ErrorCode
  ai_generation_not_found ai_generation_in_progress ai_generation_failed : ErrorCode
  ai_generation_stale ai_generation_already_applied ai_generation_discarded : ErrorCode

pub data HttpStatus : Type 0 where
  bad_request unauthorized_status forbidden_status not_found_status conflict_status : HttpStatus
  too_many_requests bad_gateway : HttpStatus

-- The codes of `PrismaClientKnownRequestError`: a unique constraint, a write conflict of a
-- serializable transaction, and a required record that is not there.
pub data KnownRequestError : Type 0 where
  p2002 p2034 p2025 : KnownRequestError

pub data Failure : Type 0 where
  coded : HttpStatus → ErrorCode → Failure
  known : KnownRequestError → Failure
  -- `ProviderError`, with its `retryable`
  provider : ErrorCode → Bool → Failure
  other : Failure

pub data Result {ℓ} (A : Type ℓ) : Type ℓ where
  ok : A → Result A
  err : Failure → Result A

abbrev pub Action : Type 0 → Type 0 → Type 0
Action S A = S → Result A × S

module _ {S A : Type 0} where
  abbrev pub pure : A → Action S A
  pure a s = (ok a, s)

  abbrev pub throw : Failure → Action S A
  throw e s = (err e, s)

  abbrev pub gets : (S → A) → Action S A
  gets f s = (ok (f s), s)

  -- `if (a == null) throw e`
  abbrev pub or_throw : Option A → Failure → Action S A
  or_throw none e = throw e
  or_throw (some a) _ = pure a

-- The rest of a call, after a step.
unfoldable pub and_then : {S A B : Type 0} → (A → Action S B) → Result A × S → Result B × S
and_then f (ok a, s) = f a s
and_then f (err e, s) = (err e, s)

infixl 5 ◌>>=◌ ◌>>◌
abbrev pub ◌>>=◌ : {S A B : Type 0} → Action S A → (A → Action S B) → Action S B
◌>>=◌ m f s = and_then f (m s)

abbrev pub ◌>>◌ : {S B : Type 0} → Action S (Unit {0}) → Action S B → Action S B
m >> k = m >>= λ _. k

-- `if (c) throw e`
abbrev pub throw_if : {S : Type 0} → Bool → Failure → Action S (Unit {0})
throw_if c e s = (if c then err e else ok tt, s)

unfoldable pub commit : {S A : Type 0} → S → Result A × S → Result A × S
commit before (ok a, s) = (ok a, s)
commit before (err e, s) = (err e, before)

-- `$transaction(async (transaction) => …)`: a throw undoes what was written.
abbrev pub transaction : {S A : Type 0} → Action S A → Action S A
transaction m s = commit s (m s)

unfoldable pub rescue : {S A : Type 0} → (Failure → Action S A) → Result A × S → Result A × S
rescue h (ok a, s) = (ok a, s)
rescue h (err e, s) = h e s

-- `try { … } catch (error) { h(error) }`
abbrev pub catch : {S A : Type 0} → Action S A → (Failure → Action S A) → Action S A
catch m h s = rescue h (m s)

-- How a call ended: a case split that keeps the equation.
pub Result-cases :
    {S A : Type 0} (r : Result A × S)
    → ((a : A) × (t : S) × (r ≡ (ok a, t))) ⊎ ((e : Failure) × (t : S) × (r ≡ (err e, t)))
Result-cases (ok a, t) = inl (a, t, refl)
Result-cases (err e, t) = inr (e, t, refl)

-- A call that returned went through each of its steps.
pub data Steps {S A B : Type 0} (f : A → Action S B) (r : Result A × S) (b : B) (t : S)
    : Type 0 where
  steps : (a : A) (u : S) → r ≡ (ok a, u) → f a u ≡ (ok b, t) → Steps f r b t

pub and_then-Steps :
    {S A B : Type 0} (f : A → Action S B) (r : Result A × S) {t : S} {b : B}
    → and_then f r ≡ (ok b, t)
    → Steps f r b t
unfolding and_then
and_then-Steps f (ok a, u) h = steps a u refl h
and_then-Steps f (err x, u) h = absurd (ground arith)

pub ok_injective {ℓ} : {A : Type ℓ} (a b : A) → ◌≡◌ {A = Result A} (ok a) (ok b) → a ≡ b
ok_injective a b h = cc

-- A check that let the call go on.
pub passed :
    {S : Type 0} (c : Bool) (e : Failure) {s u : S} {x : Unit {0}}
    → throw_if c e s ≡ (ok x, u)
    → (c ≡ false) × (u ≡ s)
passed c e h = ground arith

pub failed : {S A : Type 0} (x : Failure) {s t : S} {a : A} → ¬ (throw x s ≡ (ok a, t))
failed x h = ground arith

-- A committed transaction is its body.
pub commit-eq-ok :
    {S A : Type 0} (before : S) (r : Result A × S) {t : S} {a : A}
    → commit before r ≡ (ok a, t)
    → r ≡ (ok a, t)
unfolding commit
commit-eq-ok before (ok b, u) h = h
commit-eq-ok before (err x, u) h = absurd (ground arith)

-- A transaction that threw wrote nothing.
pub commit-eq-err :
    {S A : Type 0} (before : S) (r : Result A × S) {t : S} {e : Failure}
    → commit before r ≡ (err e, t)
    → t ≡ before
unfolding commit
commit-eq-err before (ok b, u) h = absurd (ground arith)
commit-eq-err before (err x, u) h = sym (ap (λ z. z.1) h)

-- How a guarded call returned: by itself, or by its handler.
pub catch-cases :
    {S A : Type 0} (h : Failure → Action S A) (r : Result A × S) {t : S} {a : A}
    → rescue h r ≡ (ok a, t)
    → (r ≡ (ok a, t)) ⊎ ((e : Failure) × (u : S) × (r ≡ (err e, u)) × (h e u ≡ (ok a, t)))
unfolding rescue
catch-cases h (ok b, u) k = inl k
catch-cases h (err e, u) k = inr (e, u, refl, k)

-- A value that was there.
pub or_throw_found :
    {S A : Type 0} (o : Option A) (e : Failure) {s t : S} {a : A}
    → or_throw o e s ≡ (ok a, t)
    → (o ≡ some a) × (t ≡ s)
or_throw_found none e h = absurd (ground arith)
or_throw_found (some b) e h = ground arith

-- ===== src/Auth/Passwords.antt =====
-- apps/api/src/modules/auth/password.service.ts: the policy of the passwords and their hashes. The
-- package argon2 is a parameter: a hash, and a verification that may throw.
use ai_content_operating_sys.Base.{
  ℕ, Bool, false, not, ◌||◌, ◌++◌, any, length, Option, get_or, ltb,
}
use ai_content_operating_sys.Errors.{Action, pure, throw_if, ◌>>◌, coded, bad_request, validation}
use ai_content_operating_sys.Text.{Text, units, between, is_empty, trim}

-- `argon2.hash` with its random salt drawn before, and `argon2.verify`, `none` when it throws.
pub record Argon2 : Type 0 where
  pub hash : Text → Text
  pub verify : Text → Text → Option Bool

-- `/[A-Za-zÀ-ÖØ-öø-ÿ]/`
abbrev pub is_latin_letter : ℕ → Bool
is_latin_letter c =
    between 0x41 0x5a c
    || between 0x61 0x7a c
    || between 0xc0 0xd6 c
    || between 0xd8 0xf6 c
    || between 0xf8 0xff c

-- `/\d/`
abbrev pub is_digit : ℕ → Bool
is_digit = between 0x30 0x39

abbrev pub refused_password : ℕ → Text → Bool
refused_password minimum password =
    ltb (length password) minimum
    || ltb 128 (length password)
    || is_empty (trim password)
    || not (any is_latin_letter password)
    || not (any is_digit password)

-- `assertValid`
unfoldable pub assert_valid : {S : Type 0} → ℕ → Text → Action S (Unit {0})
assert_valid minimum password =
    throw_if (refused_password minimum password) (coded bad_request validation)

-- `hash`
unfoldable pub hash_password : {S : Type 0} → Argon2 → ℕ → Text → Action S Text
hash_password argon minimum password = do assert_valid minimum password; pure (argon.hash password)

-- `verify`: a hash that cannot be read verifies nothing.
unfoldable pub verify_password : Argon2 → Text → Text → Bool
verify_password argon password_hash password = get_or (argon.verify password_hash password) false

-- `temporaryPassword`, of the random bytes in base64url
abbrev pub temporary_password : Text → Text
temporary_password random = units "Tmp-" ++ random ++ units "-7a"

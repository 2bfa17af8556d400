-- ===== src/Auth/Tokens.antt =====
-- auth.service.ts: the refresh tokens, which name their session, and the verifiers stored for them.
use ai_content_operating_sys.Base.{
  ℕ, Bool, true, false, ◌&&◌, ◌||◌, List, [], ◌∷◌, ◌++◌, Option, none, some, ◌==◌, ◌+◌, ◌-◌, ◌*◌,
  zero, suc, if◌then◌else◌,
}
use ai_content_operating_sys.Text.{Text, between, equal, take}

-- What the service takes from the runtime and the database: the keyed digest in hexadecimal
-- (`createHmac` with the configured secret), a session id as text, and the database's reading of one.
pub record Secrets : Type 0 where
  pub hmac : Text → Text
  pub print_id : ℕ → Text
  pub read_id : Text → ℕ

-- `[0-9a-f]` with the flag `i`
abbrev pub is_hex : ℕ → Bool
is_hex c = between 0x30 0x39 c || between 0x61 0x66 c || between 0x41 0x46 c

-- `[1-8]`
abbrev pub is_version : ℕ → Bool
is_version = between 0x31 0x38

-- `[89ab]` with the flag `i`
abbrev pub is_variant : ℕ → Bool
is_variant c = between 0x38 0x39 c || between 0x61 0x62 c || between 0x41 0x42 c

abbrev pub is_dash : ℕ → Bool
is_dash c = c == 0x2d

-- A regular expression without choices, `^…$`: a class for each unit.
abbrev pub matches : List (ℕ → Bool) → Text → Bool
matches [] [] = true
matches [] (_ ∷ _) = false
matches (_ ∷ _) [] = false
matches (p ∷ ps) (c ∷ s) = let rest = matches ps s in p c && rest

-- `p{n}` before the rest of an expression
abbrev pub repeat : ℕ → (ℕ → Bool) → List (ℕ → Bool) → List (ℕ → Bool)
repeat zero p rest = rest
repeat (suc n) p rest = p ∷ repeat n p rest

abbrev pub uuid_pattern : List (ℕ → Bool)
uuid_pattern = repeat 8 is_hex (
    is_dash
    ∷ repeat 4 is_hex (
        is_dash
        ∷ is_version
        ∷ repeat 3 is_hex (is_dash ∷ is_variant ∷ repeat 3 is_hex (is_dash ∷ repeat 12 is_hex []))))

-- `token.split('.', 1)[0]`
unfoldable pub until_dot : Text → Text
until_dot [] = []
until_dot (c ∷ s) = let rest = until_dot s in if c == 0x2e then [] else c ∷ rest

-- `createRefreshToken`, with the random bytes in base64url
unfoldable pub create_refresh_token : Secrets → ℕ → Text → Text
create_refresh_token secrets session_id random = secrets.print_id session_id ++ (0x2e ∷ random)

-- `sessionIdFromRefreshToken`
unfoldable pub session_id_from_refresh_token : Option Text → Option Text
unfolding until_dot
session_id_from_refresh_token none = none
session_id_from_refresh_token (some token) =
    if matches uuid_pattern (until_dot token) then some (until_dot token) else none

abbrev pub hex_value : ℕ → ℕ
hex_value c =
    if between 0x30 0x39 c then c - 0x30 else if between 0x61 0x66 c then c - 0x57 else c - 0x37

-- `Buffer.from(text, 'hex')`: the bytes before the first pair that is none.
unfoldable pub hex_bytes : Text → List ℕ
hex_bytes [] = []
hex_bytes (_ ∷ []) = []
hex_bytes (a ∷ b ∷ s) =
    let rest = hex_bytes s in
    if is_hex a && is_hex b then (hex_value a * 16 + hex_value b) ∷ rest else []

-- `verifiersMatch`
unfoldable pub verifiers_match : Text → Text → Bool
unfolding hex_bytes equal
verifiers_match stored candidate = equal (hex_bytes stored) (hex_bytes candidate)

-- `stableHash`
unfoldable pub stable_hash : Secrets → Text → Text
unfolding take
stable_hash secrets value = take 24 (secrets.hmac value)

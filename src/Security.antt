-- ===== src/Security.antt =====
-- Authentication and authorisation (backend/app/security.py). What the module takes from passlib,
-- cryptography, PyJWT and the operating system is the record `Crypto`; a clock reading is in
-- microseconds.
pub mod Keyring
pub mod Fixtures
pub mod Session
pub mod Totp
pub mod Proxy
pub mod Origin
mod Tests
use lab_gpu_server_monitor.Prelude.{
  ℕ, ◌+◌, ◌*◌, ◌/◌, Bool, true, false, not, ◌&&◌, ◌||◌, Option, none, some, List, [], ◌∷◌, ltb, leb,
  if◌then◌else◌, length, all, Text, codes, text_eq, ◌==◌, starts_with, strip, non_empty,
  utf8_length, nat_beq, nat_eq,
}
use lab_gpu_server_monitor.Prelude.Table.{lookup}
use lab_gpu_server_monitor.Prelude.Int.{ℤ, pos, negsuc, before, ltb_ℤ}
use lab_gpu_server_monitor.RateLimit.{second}
use lab_gpu_server_monitor.Account.{User, Users, Answer, ok, http, is_admin, mfa_enrolled}

-- The claims of a token, with `none` for a claim of another type than the code wants.
pub record Payload : Type 0 where
  pub sub : Option Text
  pub uid : Option ℕ
  pub aid : Option Text
  pub ver : Option ℕ
  pub mfa : Bool
  pub iat : ℕ
  pub exp : ℕ

pub record Crypto : Type 0 where
  -- `pwd_context.verify`, `none` where it raises, and `pwd_context.hash`
  pub verify : Text → Text → Option Bool
  pub hash : Text → Text
  -- Fernet under the key derived from a secret; `none` where it raises
  pub fernet_encrypt : Text → Text → Text
  pub fernet_decrypt : Text → Text → Option Text
  -- `_totp_at`
  pub totp_at : Text → ℤ → Text
  -- `jwt.encode`, and `jwt.decode` at a time with the checks that `decode_token` asks for
  pub encode : Payload → Text
  pub decode : ℕ → Text → Option Payload

pub record Settings : Type 0 where
  pub credential_keys : List Text
  pub require_admin_mfa : Bool
  pub token_minutes : ℕ

-- `hashed.startswith(("$2a$", "$2b$", "$2x$", "$2y$"))`
abbrev pub is_legacy : Text → Bool
is_legacy hashed =
    starts_with (codes "$2a$") hashed
    || starts_with (codes "$2b$") hashed
    || starts_with (codes "$2x$") hashed
    || starts_with (codes "$2y$") hashed

abbrev pub true_or_false : Option Bool → Bool
true_or_false none = false
true_or_false (some b) = b

unfoldable pub verify_password : Crypto → Text → Text → Bool
verify_password c password hashed =
    if is_legacy hashed && ltb 72 (utf8_length password)
    then false
    else true_or_false (c.verify password hashed)

-- `encrypt_text`; `none` where no key is configured
unfoldable pub encrypt_text : Crypto → List Text → Text → Option Text
encrypt_text c keys [] = some []
encrypt_text c [] (p ∷ plain) = none
encrypt_text c (key ∷ keys) (p ∷ plain) = some (c.fernet_encrypt key (p ∷ plain))

-- the loop of `decrypt_text`
unfoldable pub decrypt_with : Crypto → List Text → Text → Option Text
decrypt_with c [] token = none
decrypt_with c (key ∷ keys) token = elim (c.fernet_decrypt key token) [
  | some plain ↦ some plain
  | none ↦ decrypt_with c keys token
]

-- `none` is `CredentialDecryptionError`
unfoldable pub decrypt_text : Crypto → List Text → Text → Option Text
unfolding decrypt_with
decrypt_text c keys [] = some []
decrypt_text c keys (t ∷ token) = decrypt_with c keys (t ∷ token)

abbrev pub is_digit : ℕ → Bool
is_digit c = leb b'0' c && leb c b'9'

abbrev pub totp_accepts : Crypto → Text → Text → ℤ → ℤ → Bool
totp_accepts c secret code last counter = ltb_ℤ last counter && c.totp_at secret counter == code

-- the loop of `verify_totp`
unfoldable pub first_accepted : Crypto → Text → Text → ℤ → List ℤ → Option ℤ
first_accepted c secret code last [] = none
first_accepted c secret code last (counter ∷ more) =
    if totp_accepts c secret code last counter
    then some counter
    else first_accepted c secret code last more

-- `code.isdigit()` is read over the ASCII digits; another digit is no part of an OTP.
unfoldable pub verify_totp : Crypto → ℕ → Text → Text → ℤ → Option ℤ
unfolding first_accepted
verify_totp c now secret code last =
    let current = now / second / 30 in
    if not (nat_beq (length code) 6) || not (all is_digit code)
    then none
    else first_accepted c secret code last (pos current ∷ before current ∷ pos (current + 1) ∷ [])

-- `create_access_token`, with the version that the caller owns
unfoldable pub create_access_token : Crypto → Settings → ℕ → User → Bool → ℕ → Text
create_access_token c s now user mfa_verified version = c.encode (record {
  sub = some user.username;
  uid = some user.id;
  aid = some user.auth_id;
  ver = some version;
  mfa = mfa_verified;
  iat = now / second;
  exp = now + s.token_minutes * 60 * second;
})

-- The parts of a request that `get_current_user` reads: the Authorization header, what
-- `OAuth2PasswordBearer` makes of it, and the session cookie.
pub record Credentials : Type 0 where
  pub authorization : Text
  pub bearer : Text
  pub cookie : Text

abbrev pub token_of : Credentials → Text
token_of r = if non_empty r.bearer then r.bearer else r.cookie

abbrev pub text_is : Text → Option Text → Bool
text_is t none = false
text_is t (some s) = t == s

abbrev pub number_is : ℕ → Option ℕ → Bool
number_is n none = false
number_is n (some m) = nat_beq n m

abbrev pub row_matches : Payload → Text → User → Bool
row_matches p username row =
    row.is_active
    && (row.username == username
        && (text_is row.auth_id p.aid && number_is row.token_version p.ver))

-- the part of `get_current_user` after the token is decoded
unfoldable pub user_of : Payload → Users → Answer (User × Bool)
user_of p users = elim p.sub [
  | none ↦ http 401
  | some username ↦ elim p.uid [
    | none ↦ http 401
    | some uid ↦ elim (lookup uid users) [
      | none ↦ http 401
      | some row ↦ if row_matches p username row then ok (row, p.mfa) else http 401
    ]
  ]
]

-- `get_current_user`: the user, and `request.state.auth_mfa`
unfoldable pub get_current_user : Crypto → ℕ → Credentials → Users → Answer (User × Bool)
unfolding user_of
get_current_user c now r users =
    if non_empty (strip r.authorization) && not (non_empty r.bearer)
    then http 401
    else if not (non_empty (token_of r))
    then http 401
    else elim (c.decode now (token_of r)) [ none ↦ http 401 | some p ↦ user_of p users ]

unfoldable pub require_admin : Settings → User × Bool → Answer User
require_admin s (user, auth_mfa) =
    if not (is_admin user)
    then http 403
    else if s.require_admin_mfa && (not (mfa_enrolled user) || not auth_mfa)
    then http 403
    else ok user

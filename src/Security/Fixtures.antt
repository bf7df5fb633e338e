-- ===== src/Security/Fixtures.antt =====
-- A toy cryptography and one account, for tests: a seal is the key, a NUL and the text; the only
-- token is "t"; the code of every time step is the step's last digit, six times.
use lab_gpu_server_monitor.Prelude.{
  ℕ, ◌+◌, ◌%◌, true, Option, none, some, [], ◌∷◌, ◌++◌, if◌then◌else◌, Text, codes, text_beq,
  nat_beq,
}
use lab_gpu_server_monitor.Prelude.Int.{ℤ, pos, negsuc}
use lab_gpu_server_monitor.Account.{User, Users}
use lab_gpu_server_monitor.Security.{Crypto, Settings, Payload, Credentials}

abbrev pub claims : Payload
claims = record {
  sub = some (codes "ann");
  uid = some 1;
  aid = some (codes "a1");
  ver = some 3;
  mfa = true;
  iat = 0;
  exp = 9;
}

abbrev pub open_seal : Text → Text → Option Text
open_seal [] [] = none
open_seal [] (c ∷ t) = if nat_beq c 0 then some t else none
open_seal (k ∷ key) [] = none
open_seal (k ∷ key) (c ∷ t) = if nat_beq k c then open_seal key t else none

abbrev pub digit_of : ℤ → ℕ
digit_of (pos n) = b'0' + n % 10
digit_of (negsuc n) = b'0'

abbrev pub toy : Crypto
toy = record {
  verify = λ p h. some (text_beq p h);
  hash = λ p. p;
  fernet_encrypt = λ key plain. key ++ 0 ∷ plain;
  fernet_decrypt = open_seal;
  totp_at = λ s k. let d = digit_of k in d ∷ d ∷ d ∷ d ∷ d ∷ d ∷ [];
  encode = λ p. codes "t";
  decode = λ now t. if text_beq t (codes "t") then some claims else none;
}

abbrev pub ann : User
ann = record {
  id = 1;
  username = codes "ann";
  password_hash = codes "pw";
  display_name = [];
  email = [];
  role = codes "admin";
  is_active = true;
  auth_id = codes "a1";
  token_version = 3;
  mfa_secret = codes "s";
  mfa_confirmed = true;
  mfa_last_counter = negsuc 0;
}

abbrev pub users : Users
users = (1, ann) ∷ []

abbrev pub request : Credentials
request = record { authorization = codes "Bearer t"; bearer = codes "t"; cookie = [] }

abbrev pub strict : Settings
strict = record { credential_keys = []; require_admin_mfa = true; token_minutes = 60 }

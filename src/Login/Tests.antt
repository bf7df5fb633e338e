-- ===== src/Login/Tests.antt =====
-- Logins of one administrator, and the theorems on logins at them.
use lab_gpu_server_monitor.Prelude.{
  ◌*◌, ◌≡◌, refl, true, false, none, [], ◌∷◌, ◌++◌, Text, codes, text_beq, starts_with, strip,
  lstrip, utf8_length, text_eq, nat_eq, some,
}
use lab_gpu_server_monitor.Prelude.Int.{ℤ, pos, ltb_ℤ}
use lab_gpu_server_monitor.Prelude.Table.Eviction.{drop_oldest}
use lab_gpu_server_monitor.RateLimit
use lab_gpu_server_monitor.RateLimit.{second}
use lab_gpu_server_monitor.Account.{
  User, World, Answer, ok, http, update_where, increment_token_version, commit_mfa_transition,
}
use lab_gpu_server_monitor.Security.{
  verify_password, encrypt_text, decrypt_with, decrypt_text, first_accepted, verify_totp,
  create_access_token,
}
use lab_gpu_server_monitor.Security.Origin.{foreign, enforce_login_origin}
use lab_gpu_server_monitor.Security.Fixtures.{toy, ann}
use lab_gpu_server_monitor.Login.{
  Env, LoginRequest, second_factor, with_counter, check_second_factor, authenticate, mfa_setup,
  mfa_confirm, mfa_disable, logout,
}
use lab_gpu_server_monitor.Login.Outcome.{Proves, authenticate-Proves}
use lab_gpu_server_monitor.Login.Replay.{authenticate_no_replay}

program : Unit {0}
unfolding RateLimit.check RateLimit.locked_for RateLimit.record_failure RateLimit.record_success
    RateLimit.record_one RateLimit.drop_stale RateLimit.hit drop_oldest update_where
    increment_token_version commit_mfa_transition verify_password encrypt_text decrypt_with
    decrypt_text first_accepted verify_totp create_access_token foreign enforce_login_origin
    check_second_factor authenticate mfa_setup mfa_confirm mfa_disable logout text_beq starts_with
    strip lstrip utf8_length
program = tt

abbrev env : Env
env = record {
  crypto = toy;
  settings = record {
    credential_keys = codes "k" ∷ [];
    require_admin_mfa = true;
    token_minutes = 60;
  };
  casefold = λ s. s;
  urlsplit = λ s. none;
  allow_insecure_http = false;
  now = 60 * second;
}

-- Ann, with her secret sealed under the key.
abbrev admin : User
admin = record ann { mfa_secret = codes "k" ++ 0 ∷ codes "s" }

abbrev world : World
world = record {
  users = (1, admin) ∷ [];
  audit_log = [];
  limiter = RateLimit.new_limiter;
  step_up_limiter = RateLimit.new_limiter;
}

abbrev form : Text → Text → LoginRequest
form password otp = record {
  headers = record { sec_fetch_site = []; origin = []; host = codes "h" };
  ip = codes "10.1";
  username = codes "ann";
  password = password;
  otp = otp;
}

abbrev good : Answer Text × World
good = authenticate env (form (codes "pw") (codes "111111")) world

let_in_once : good.0 ≡ ok (codes "t")
unfolding program
let_in_once = refl

-- The same code again, a moment later.
not_twice : (authenticate env (form (codes "pw") (codes "111111")) good.1).0 ≡ http 401
unfolding program
not_twice = refl

good_outcome : good ≡ (ok (codes "t"), good.1)
unfolding program
good_outcome = refl

authenticate-Proves_example : Proves env (form (codes "pw") (codes "111111")) world good.1
authenticate-Proves_example =
    authenticate-Proves env (form (codes "pw") (codes "111111")) world good.1 (codes "t")
      good_outcome

abbrev bad : Answer Text × World
bad = authenticate env (form (codes "no") (codes "111111")) world

bad_outcome : bad ≡ (http 401, bad.1)
unfolding program
bad_outcome = refl

authenticate_no_replay_example :
    (k : ℤ) × (j : ℤ) × (second_factor env admin (codes "111111") ≡ some k)
    × (second_factor env (with_counter (pos 1) admin) (codes "333333") ≡ some j)
    × (ltb_ℤ k j ≡ true)
unfolding program
authenticate_no_replay_example =
    authenticate_no_replay env env (form (codes "pw") (codes "111111"))
      (form (codes "pw") (codes "333333")) ((env, form (codes "no") (codes "111111")) ∷ []) world
      (codes "t") (codes "t") admin (with_counter (pos 1) admin) refl refl refl refl refl refl refl

-- ===== src/Login.antt =====
-- The routes of backend/app/api/auth.py: login with its second factor, enrolment and removal of the
-- second factor, logout. A route takes the environment, what the request holds, and the shared
-- world; it returns its answer and the world that it leaves. A request's own steps are not
-- interleaved with another's here; the conditional updates of Account stand where they could be.
pub mod Outcome
pub mod Replay
mod Tests
use lab_gpu_server_monitor.Prelude.{
  ℕ, ◌+◌, Bool, true, false, not, ◌&&◌, ◌||◌, Option, none, some, [], ◌∷◌, ◌++◌, if◌then◌else◌,
  Text, codes, text_eq, nat_eq, non_empty,
}
use lab_gpu_server_monitor.Prelude.Table.{lookup, insert}
use lab_gpu_server_monitor.Prelude.Int.{ℤ, negsuc}
use lab_gpu_server_monitor.RateLimit
use lab_gpu_server_monitor.Account.{
  User, Users, World, Answer, ok, http, audit, named, is_admin, mfa_enrolled, update_where,
  increment_token_version, commit_mfa_transition,
}
use lab_gpu_server_monitor.Security.{
  Crypto, Settings, verify_password, decrypt_text, encrypt_text, verify_totp, create_access_token,
}
use lab_gpu_server_monitor.Security.Origin.{Headers, UrlParts, enforce_login_origin}

pub record Env : Type 0 where
  pub crypto : Crypto
  pub settings : Settings
  pub casefold : Text → Text
  pub urlsplit : Text → Option UrlParts
  pub allow_insecure_http : Bool
  -- the clock, in microseconds
  pub now : ℕ

-- A login: its headers, the address that `resolve_client_ip` gives, and the form.
pub record LoginRequest : Type 0 where
  pub headers : Headers
  pub ip : Text
  pub username : Text
  pub password : Text
  pub otp : Text

abbrev pub ip_detail : Text → Text
ip_detail ip = codes "ip=" ++ ip

-- A login that fails: it is counted and audited, and answered alike whatever the cause.
abbrev pub refuse : {A : Type 0} → Env → Text → Text → Text → World → Answer A × World
refuse env ip username action w = (
  http 401,
  audit username action (ip_detail ip)
      (record w { limiter = RateLimit.record_failure env.casefold env.now ip username w.limiter }),
)

abbrev pub needs_code : Env → User → Bool
needs_code env user = is_admin user && (env.settings.require_admin_mfa && mfa_enrolled user)

-- `decrypt_text` and `verify_totp` under one `try`
abbrev pub second_factor : Env → User → Text → Option ℤ
second_factor env user otp =
    elim (decrypt_text env.crypto env.settings.credential_keys user.mfa_secret) [
      | none ↦ none
      | some secret ↦ verify_totp env.crypto env.now secret otp user.mfa_last_counter
    ]

abbrev pub with_counter : ℤ → User → User
with_counter counter row = record row { mfa_last_counter = counter }

-- the end of `_authenticate`
abbrev pub let_in : Env → Text → Text → User → Bool → ℕ → World → Answer Text × World
let_in env ip username user mfa version w = (
  ok (create_access_token env.crypto env.settings env.now user mfa version),
  audit user.username (codes "login") (ip_detail ip)
      (record w { limiter = RateLimit.record_success env.casefold ip username w.limiter }),
)

-- what follows once the password is right and the account active
unfoldable pub check_second_factor : Env → LoginRequest → User → World → Answer Text × World
check_second_factor env r user w =
    if needs_code env user
    then (elim (second_factor env user r.otp) [
      | none ↦ refuse env r.ip r.username (codes "login.failed.mfa") w
      | some counter ↦ elim (commit_mfa_transition user (with_counter counter) w.users) [
        | none ↦ refuse env r.ip r.username (codes "login.failed.mfa_replay") w
        | some users ↦
            let_in env r.ip r.username (with_counter counter user) true user.token_version
              (record w { users = users })
      ]
    ])
    else let_in env r.ip r.username user false user.token_version w

-- `_authenticate`; the answer is the session's token
unfoldable pub authenticate : Env → LoginRequest → World → Answer Text × World
authenticate env r w =
    if not (enforce_login_origin env.casefold env.urlsplit env.allow_insecure_http r.headers)
    then (http 403, w)
    else if not (RateLimit.check env.casefold env.now r.ip r.username w.limiter).0
    then (http 429, w)
    else elim (named r.username w.users) [
      | none ↦ refuse env r.ip r.username (codes "login.failed") w
      | some user ↦
          if not (verify_password env.crypto r.password user.password_hash)
          then refuse env r.ip r.username (codes "login.failed") w
          else if not user.is_active
          then refuse env r.ip r.username (codes "login.failed.disabled") w
          else check_second_factor env r user w
    ]

abbrev pub with_secret : Text → User → User
with_secret sealed row = record row {
  mfa_secret = sealed;
  mfa_confirmed = false;
  mfa_last_counter = negsuc 0;
}

-- `mfa_setup`, for the user that `get_current_user` found; the new secret is the environment's.
-- `none` from `encrypt_text` is the RuntimeError of a missing key.
unfoldable pub mfa_setup : Env → Text → User → World → Answer Text × World
mfa_setup env secret user w =
    if not (is_admin user)
    then (http 403, w)
    else if mfa_enrolled user
    then (http 409, w)
    else elim (encrypt_text env.crypto env.settings.credential_keys secret) [
      | none ↦ (http 500, w)
      | some sealed ↦ elim (update_where user.id (λ _. true) (with_secret sealed) w.users) [
        | none ↦ (http 500, w)
        | some users ↦
            (ok secret, audit user.username (codes "mfa.setup") [] (record w { users = users }))
      ]
    ]

abbrev pub confirmed : ℤ → User → User
confirmed counter row = record row {
  mfa_confirmed = true;
  mfa_last_counter = counter;
  token_version = row.token_version + 1;
}

unfoldable pub mfa_confirm : Env → Text → User → World → Answer Text × World
mfa_confirm env code user w =
    if not (is_admin user)
    then (http 403, w)
    else if not (non_empty user.mfa_secret)
    then (http 400, w)
    else elim (decrypt_text env.crypto env.settings.credential_keys user.mfa_secret) [
      | none ↦ (http 500, w)
      | some secret ↦ elim (verify_totp env.crypto env.now secret code user.mfa_last_counter) [
        | none ↦ (http 400, w)
        | some counter ↦ elim (commit_mfa_transition user (confirmed counter) w.users) [
          | none ↦ (http 400, w)
          | some users ↦ (
            ok (
                create_access_token env.crypto env.settings env.now user true
                  (user.token_version + 1)),
            audit user.username (codes "mfa.confirm") [] (record w { users = users }),
          )
        ]
      ]
    ]

-- the bucket of `check_step_up_limit`
abbrev pub step_up_bucket : User → Text → Text
step_up_bucket user purpose = user.username ++ (b':' ∷ purpose)

-- A step-up confirmation that fails.
abbrev pub step_up_failed :
    {A : Type 0} → Env → Text → Text → User → Text → ℕ → World → Answer A × World
step_up_failed env ip bucket user action code w = (
  http code,
  audit user.username action (ip_detail ip) (record w {
    step_up_limiter = RateLimit.record_failure env.casefold env.now ip bucket w.step_up_limiter;
  }),
)

abbrev pub disabled : User → User
disabled row = record row {
  mfa_secret = [];
  mfa_confirmed = false;
  mfa_last_counter = negsuc 0;
  token_version = row.token_version + 1;
}

unfoldable pub mfa_disable : Env → Text → Text → Text → User → World → Answer Text × World
mfa_disable env ip password code user w =
    let bucket = step_up_bucket user (codes "mfa-disable") in
    let fail = λ (action : Text). step_up_failed {A = Text} env ip bucket user action 403 w in
    if not (is_admin user)
    then (http 403, w)
    else if not (RateLimit.check env.casefold env.now ip bucket w.step_up_limiter).0
    then (http 429, w)
    else if not (mfa_enrolled user) || not (verify_password env.crypto password user.password_hash)
    then fail (codes "mfa.disable_failed")
    else elim (decrypt_text env.crypto env.settings.credential_keys user.mfa_secret) [
      | none ↦ (http 500, w)
      | some secret ↦ elim (verify_totp env.crypto env.now secret code user.mfa_last_counter) [
        | none ↦ fail (codes "mfa.disable_failed")
        | some counter ↦ elim (commit_mfa_transition user disabled w.users) [
          | none ↦ fail (codes "mfa.disable_replay")
          | some users ↦ (
            ok (
                create_access_token env.crypto env.settings env.now user false
                  (user.token_version + 1)),
            audit user.username (codes "mfa.disable") [] (record w {
              users = users;
              step_up_limiter = RateLimit.record_success env.casefold ip bucket w.step_up_limiter;
            }),
          )
        ]
      ]
    ]

-- `logout`; `none` from the update is the RuntimeError of a missing row
unfoldable pub logout : User → World → Answer (Unit {0}) × World
logout user w = elim (increment_token_version user.id w.users) [
  | none ↦ (http 500, w)
  | some users ↦ (ok tt, audit user.username (codes "logout") [] (record w { users = users }))
]

-- ===== src/Login/Outcome.antt =====
-- What a login means: the ways it can end.
use lab_gpu_server_monitor.Prelude.{
  ℕ, ◌≡◌, ◌⊎◌, inl, inr, true, false, some, Text, text_eq, nat_eq, arith, Option-cases, Bool-cases,
}
use lab_gpu_server_monitor.Prelude.Int.{ℤ}
use lab_gpu_server_monitor.RateLimit
use lab_gpu_server_monitor.Account.{User, World, ok, http, named, commit_mfa_transition}
use lab_gpu_server_monitor.Security.{verify_password}
use lab_gpu_server_monitor.Security.Origin.{enforce_login_origin}
use lab_gpu_server_monitor.Login.{
  Env, LoginRequest, needs_code, second_factor, with_counter, check_second_factor, authenticate,
}

-- What a login that is let in has shown: an origin of this site, a source that is not locked out,
-- the password of an active account, and, where the account needs one, a second factor that has
-- been consumed in the same step.
pub record Proves (env : Env) (r : LoginRequest) (w : World) (w' : World) : Type 0 where
  pub user : User
  pub same_site :
      enforce_login_origin env.casefold env.urlsplit env.allow_insecure_http r.headers ≡ true
  pub not_locked : (RateLimit.check env.casefold env.now r.ip r.username w.limiter).0 ≡ true
  pub account : named r.username w.users ≡ some user
  pub password : verify_password env.crypto r.password user.password_hash ≡ true
  pub active : user.is_active ≡ true
  pub factor :
      ((needs_code env user ≡ false) × (w'.users ≡ w.users))
      ⊎ ((counter : ℤ) × (second_factor env user r.otp ≡ some counter)
          × (commit_mfa_transition user (with_counter counter) w.users ≡ some w'.users))

factor_proved :
    (env : Env) (r : LoginRequest) (user : User) (w w' : World) (token : Text)
    → check_second_factor env r user w ≡ (ok token, w')
    → ((needs_code env user ≡ false) × (w'.users ≡ w.users))
      ⊎ ((counter : ℤ) × (second_factor env user r.otp ≡ some counter)
          × (commit_mfa_transition user (with_counter counter) w.users ≡ some w'.users))
unfolding check_second_factor
factor_proved env r user w w' token h = elim (Bool-cases (needs_code env user)) [
  | inr plain ↦ inl (plain, ground arith)
  | inl needed ↦ elim (Option-cases (second_factor env user r.otp)) [
    | inl wrong ↦ absurd (ground arith)
    | inr (counter, right) ↦
        elim (Option-cases (commit_mfa_transition user (with_counter counter) w.users)) [
          | inl replayed ↦ absurd (ground arith)
          | inr (users, committed) ↦ inr (counter, right, ground arith)
        ]
  ]
]

-- A token is given only where the origin was admitted and the throttle let the source try, to an
-- active account whose password was given and, where it needs a code, a fresh right code too, which
-- is spent in the same step; a login without a code changes no account.
pub authenticate-Proves :
    (env : Env) (r : LoginRequest) (w w' : World) (token : Text)
    → authenticate env r w ≡ (ok token, w')
    → Proves env r w w'
unfolding authenticate
authenticate-Proves env r w w' token h = elim (Option-cases (named r.username w.users)) [
  | inl unknown ↦ absurd (ground arith)
  | inr (user, found) ↦
      let went_on : check_second_factor env r user w ≡ (ok token, w') = ground arith in
      record {
        user = user;
        same_site = ground arith;
        not_locked = ground arith;
        account = found;
        password = ground arith;
        active = ground arith;
        factor = factor_proved env r user w w' token went_on;
      }
]

-- A login that is refused changes no account: a 403 or a 429 changes nothing at all, and each 401 counts
-- one failure against the source and its pair with the account.
pub authenticate-refused :
    (env : Env) (r : LoginRequest) (w w' : World) (code : ℕ)
    → authenticate env r w ≡ (http code, w')
    → ((w' ≡ w) × ((code ≡ 403) ⊎ (code ≡ 429)))
      ⊎ ((code ≡ 401)
          × (w'.users ≡ w.users)
          × (w'.step_up_limiter ≡ w.step_up_limiter)
          × (w'.limiter ≡ RateLimit.record_failure env.casefold env.now r.ip r.username w.limiter))
unfolding authenticate check_second_factor
authenticate-refused env r w w' code h = ground arith

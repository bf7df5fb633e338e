-- ===== src/UserAdmin/Tests.antt =====
-- The administration of two users, and the theorems on it at concrete requests.
use lab_gpu_server_monitor.Prelude.{
  ℕ, ◌*◌, ◌<◌, ◌≡◌, ◌≢◌, refl, true, false, none, some, [], ◌∷◌, codes, text_beq, strip, lstrip,
  arith, text_eq, nat_eq,
}
use lab_gpu_server_monitor.Prelude.Table.{lookup}
use lab_gpu_server_monitor.RateLimit
use lab_gpu_server_monitor.RateLimit.{second}
use lab_gpu_server_monitor.Account.{
  User, Users, World, ok, http, bumped, update_where, increment_token_version, save_and_revoke,
}
use lab_gpu_server_monitor.Security.{user_of, get_current_user}
use lab_gpu_server_monitor.Security.Fixtures.{toy, users, ann, claims, request}
use lab_gpu_server_monitor.Login.{Env, logout}
use lab_gpu_server_monitor.UserAdmin.{
  UserUpdate, create_user, update_user, delete_user, reset_user_mfa, edited,
}
use lab_gpu_server_monitor.UserAdmin.Survival.{delete, administer, CanAct, administer-CanAct}
use lab_gpu_server_monitor.UserAdmin.Revocation.{IsRevoked}
use lab_gpu_server_monitor.UserAdmin.Revocation.Forever.{log_out, serve, serve_all, revoked_forever}

program : Unit {0}
unfolding update_where increment_token_version save_and_revoke user_of get_current_user logout
    create_user update_user delete_user reset_user_mfa administer serve serve_all text_beq strip
    lstrip
program = tt

abbrev env : Env
env = record {
  crypto = toy;
  settings = record { credential_keys = []; require_admin_mfa = false; token_minutes = 60 };
  casefold = λ s. s;
  urlsplit = λ s. none;
  allow_insecure_http = false;
  now = 60 * second;
}

abbrev bob : User
bob = record ann { id = 2; username = codes "bob"; auth_id = codes "b1"; role = codes "viewer" }

abbrev world : World
world = record {
  users = (1, ann) ∷ (2, bob) ∷ [];
  audit_log = [];
  limiter = RateLimit.new_limiter;
  step_up_limiter = RateLimit.new_limiter;
}

abbrev demotion : UserUpdate
demotion = record {
  display_name = none;
  email = none;
  role = some (codes "viewer");
  is_active = none;
  password = none;
}

no_self_demotion : update_user env 1 demotion ann world ≡ (http 400, world)
unfolding program
no_self_demotion = refl

abbrev promotion : UserUpdate
promotion = record demotion { role = some (codes "admin") }

promoted :
    (update_user env 2 promotion ann world).1.users
    ≡ (1, ann) ∷ (2, bumped (edited env promotion bob)) ∷ []
unfolding program
promoted = refl

ann-CanAct : CanAct 1 world
ann-CanAct = record { row = ann; found = refl; admin = refl; active = refl }

administer-CanAct_example : CanAct 1 (administer env ann (delete 2) world)
administer-CanAct_example = administer-CanAct env ann (delete 2) world tt ann-CanAct

abbrev later : Users
later = (1, record ann { token_version = 4 }) ∷ []

later-over :
    (id : ℕ) (row : User)
    → lookup id later ≡ some row
    → row.auth_id ≡ codes "a1"
    → 3 < row.token_version
later-over id row found own = ground arith

later-IsRevoked : IsRevoked (codes "a1") 3 later
later-IsRevoked = record { distinct = (refl, tt); over = later-over }

revoked_forever_example :
    get_current_user toy 0 request
      (serve_all ((env, log_out ann) ∷ []) (record world { users = later })).users
    ≢ ok (ann, true)
unfolding program
revoked_forever_example =
    revoked_forever toy 0 request claims (codes "a1") 3 ((env, log_out ann) ∷ [])
      (record world { users = later }) ann true refl refl refl (tt, tt) later-IsRevoked

only_ann :
    (j : ℕ) (other : User) → lookup j users ≡ some other → other.auth_id ≡ ann.auth_id → j ≡ 1
only_ann j other found own = ground arith

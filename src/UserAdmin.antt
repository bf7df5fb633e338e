-- ===== src/UserAdmin.antt =====
-- The routes of backend/app/api/users.py. `admin` and `current` are the users that `require_admin`
-- and `get_current_user` found. What the database and `new_token` choose for a new row, its id and
-- its `auth_id`, are arguments.
pub mod Survival
pub mod Revocation
mod Tests
use lab_gpu_server_monitor.Prelude.{
  ℕ, ◌+◌, Bool, true, false, not, ◌&&◌, ◌||◌, Option, none, some, [], ◌∷◌, ◌++◌, if◌then◌else◌,
  Text, codes, text_eq, nat_eq, non_empty, nat_beq, ◌==◌,
}
use lab_gpu_server_monitor.Prelude.Table.{lookup, insert, erase}
use lab_gpu_server_monitor.Prelude.Int.{negsuc}
use lab_gpu_server_monitor.RateLimit
use lab_gpu_server_monitor.Account.{
  User, Users, World, Answer, ok, http, audit, named, admin_role, update_where, save_and_revoke,
}
use lab_gpu_server_monitor.Security.{verify_password, create_access_token}
use lab_gpu_server_monitor.Login.{Env, step_up_bucket, step_up_failed}

pub record UserCreate : Type 0 where
  pub username : Text
  pub password : Text
  pub display_name : Text
  pub email : Text
  pub role : Text

-- a field that the request leaves out is `none`
pub record UserUpdate : Type 0 where
  pub display_name : Option Text
  pub email : Option Text
  pub role : Option Text
  pub is_active : Option Bool
  pub password : Option Text

abbrev pub or_old {ℓ} : {A : Type ℓ} → Option A → A → A
or_old none old = old
or_old (some new) old = new

abbrev pub given : Option Text → Bool
given none = false
given (some t) = non_empty t

abbrev pub text_or : Text → Text → Text
text_or [] d = d
text_or (c ∷ t) d = c ∷ t

unfoldable pub create_user : Env → ℕ → Text → UserCreate → User → World → Answer User × World
create_user env id auth_id body admin w = elim (named body.username w.users) [
  | some _ ↦ (http 409, w)
  | none ↦
      let user : User = record {
        id = id;
        username = body.username;
        password_hash = env.crypto.hash body.password;
        display_name = text_or body.display_name body.username;
        email = body.email;
        role = body.role;
        is_active = true;
        auth_id = auth_id;
        token_version = 1;
        mfa_secret = [];
        mfa_confirmed = false;
        mfa_last_counter = negsuc 0;
      } in
      (
        ok user,
        audit admin.username (codes "user.create")
            (codes "created user " ++ (user.username ++ (codes " role=" ++ user.role)))
            (record w { users = insert id user w.users }),
      )
]

abbrev pub role_changed : UserUpdate → User → Bool
role_changed body user = elim body.role [ none ↦ false | some role ↦ not (role == user.role) ]

abbrev same_flag : Bool → Bool → Bool
same_flag true b = b
same_flag false b = not b

abbrev pub active_changed : UserUpdate → User → Bool
active_changed body user = elim body.is_active [
  | none ↦ false
  | some flag ↦ not (same_flag flag user.is_active)
]

-- the row after the assignments of `update_user`
abbrev pub edited : Env → UserUpdate → User → User
edited env body user = record user {
  display_name = or_old body.display_name user.display_name;
  email = or_old body.email user.email;
  role = or_old body.role user.role;
  is_active = or_old body.is_active user.is_active;
  password_hash =
      if given body.password then env.crypto.hash (or_old body.password []) else user.password_hash;
}

abbrev pub demotes : UserUpdate → Bool
demotes body = elim body.role [ none ↦ false | some role ↦ not (role == admin_role) ]

abbrev pub deactivates : UserUpdate → Bool
deactivates body = elim body.is_active [ none ↦ false | some flag ↦ not flag ]

abbrev pub revokes : UserUpdate → User → Bool
revokes body user = given body.password || (active_changed body user || role_changed body user)

-- The answer shows no version, so it is that of the row as it was edited.
unfoldable pub update_user : Env → ℕ → UserUpdate → User → World → Answer User × World
update_user env id body admin w = elim (lookup id w.users) [
  | none ↦ (http 404, w)
  | some user ↦
      if nat_beq id admin.id && (demotes body || deactivates body)
      then (http 400, w)
      else let row = edited env body user in
        let done : Users → Answer User × World = λ users. (
          ok row,
          audit admin.username (codes "user.update") (codes "updated user " ++ user.username)
              (record w { users = users }),
        ) in
        if revokes body user
        then (elim (save_and_revoke id row w.users) [
          | none ↦ (http 500, w)
          | some users ↦ done users
        ])
        else done (insert id row w.users)
]

unfoldable pub delete_user : ℕ → User → World → Answer (Unit {0}) × World
delete_user id admin w = elim (lookup id w.users) [
  | none ↦ (http 404, w)
  | some user ↦ if nat_beq id admin.id then (http 400, w) else (
    ok tt,
    audit admin.username (codes "user.delete") (codes "deleted user " ++ user.username)
        (record w { users = erase id w.users }),
  )
]

abbrev pub new_password : Text → User → User
new_password hash row = record row { password_hash = hash; token_version = row.token_version + 1 }

abbrev pub unchanged_since : User → User → Bool
unchanged_since seen row =
    row.password_hash == seen.password_hash && nat_beq row.token_version seen.token_version

unfoldable pub change_password :
    Env → Text → Text → Text → Bool → User → World → Answer Text × World
change_password env ip old_password password auth_mfa current w =
    let bucket = step_up_bucket current (codes "password-change") in
    if not (RateLimit.check env.casefold env.now ip bucket w.step_up_limiter).0
    then (http 429, w)
    else if not (verify_password env.crypto old_password current.password_hash)
    then step_up_failed env ip bucket current (codes "user.password_failed") 400 w
    else elim (update_where current.id (unchanged_since current)
        (new_password (env.crypto.hash password)) w.users) [
          | none ↦ (http 409, w)
          | some users ↦ (
            ok (
                create_access_token env.crypto env.settings env.now current auth_mfa
                  (current.token_version + 1)),
            audit current.username (codes "user.password") (codes "changed own password")
                (record w {
                  users = users;
                  step_up_limiter =
                      RateLimit.record_success env.casefold ip bucket w.step_up_limiter;
                }),
          )
        ]

abbrev pub without_mfa : User → User
without_mfa row = record row { mfa_secret = []; mfa_confirmed = false; mfa_last_counter = negsuc 0 }

unfoldable pub reset_user_mfa : ℕ → User → World → Answer (Unit {0}) × World
reset_user_mfa id admin w = elim (lookup id w.users) [
  | none ↦ (http 404, w)
  | some user ↦
      if nat_beq id admin.id
      then (http 400, w)
      else elim (save_and_revoke id (without_mfa user) w.users) [
        | none ↦ (http 500, w)
        | some users ↦ (
          ok tt,
          audit admin.username (codes "user.mfa_reset") (codes "reset MFA for " ++ user.username)
              (record w { users = users }),
        )
      ]
]

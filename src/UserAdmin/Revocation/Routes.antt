-- ===== src/UserAdmin/Revocation/Routes.antt =====
-- What each route of backend/app/api/auth.py and backend/app/api/users.py does to the users, seen
-- from the sessions of one `auth_id`.
use lab_gpu_server_monitor.Prelude.{
  ℕ, ◌≤◌, ◌≡◌, ◌≢◌, refl, ap, ◌⊎◌, inl, inr, Option-cases, Bool-cases, Bool, true, ◌&&◌, ◌||◌, some,
  Text, text_eq, nat_eq, nat_beq, arith,
}
use lab_gpu_server_monitor.Prelude.Int.{ℤ}
use lab_gpu_server_monitor.Prelude.Table.{lookup}
use lab_gpu_server_monitor.Account.{
  User, Users, World, Answer, ok, http, named, update_where, increment_token_version,
  commit_mfa_transition, save_and_revoke_lem, bumped, mfa_enrolled, is_admin,
}
use lab_gpu_server_monitor.Security.{verify_totp, decrypt_text, encrypt_text}
use lab_gpu_server_monitor.Login.{
  Env, LoginRequest, with_counter, with_secret, confirmed, disabled, authenticate, mfa_setup,
  mfa_confirm, mfa_disable, logout,
}
use lab_gpu_server_monitor.Login.Outcome.{authenticate-Proves, authenticate-refused}
use lab_gpu_server_monitor.UserAdmin.{
  UserCreate, UserUpdate, create_user, update_user, delete_user, change_password, reset_user_mfa,
  edited, revokes, new_password, unchanged_since, without_mfa, demotes, deactivates,
}
use lab_gpu_server_monitor.UserAdmin.Revocation.{
  Change, same, edit, add, remove, update_where-Change,
}

module _ (a : Text) where
  commit_mfa_transition-Change :
      (user : User) (values : User → User) (users users' : Users)
      → ((row : User) → (values row).auth_id ≡ row.auth_id)
      → ((row : User) → row.token_version ≤ (values row).token_version)
      → commit_mfa_transition user values users ≡ some users'
      → Change a users users'
  unfolding commit_mfa_transition
  commit_mfa_transition-Change user values users users' keeps grows h =
      update_where-Change a user.id _ values users users' keeps grows h

  answered :
      {A : Type 0} (r : Answer A × World)
      → ((x : A) × (r ≡ (ok x, r.1))) ⊎ ((n : ℕ) × (r ≡ (http n, r.1)))
  answered (ok x, w) = inl (x, refl)
  answered (http n, w) = inr (n, refl)

  pub authenticate-Change :
      (env : Env) (r : LoginRequest) (w : World) → Change a w.users (authenticate env r w).1.users
  authenticate-Change env r w = elim (answered (authenticate env r w)) [
    | inl (token, e) ↦ elim (authenticate-Proves env r w _ token e).factor [
      | inl plain ↦ same plain.1
      | inr (counter, right, committed) ↦
          commit_mfa_transition-Change _ (with_counter counter) w.users _ (λ row. refl)
            (λ row. omega arith) committed
    ]
    | inr (n, e) ↦ elim (authenticate-refused env r w _ n e) [
      | inl nothing ↦ same (ap (λ (v : World). v.users) nothing.0)
      | inr counted ↦ same counted.1
    ]
  ]

  pub mfa_setup-Change :
      (env : Env) (secret : Text) (user : User) (w : World)
      → Change a w.users (mfa_setup env secret user w).1.users
  unfolding mfa_setup
  mfa_setup-Change env secret user w = elim (Bool-cases (is_admin user)) [
    | inr viewer ↦ same (ground arith)
    | inl admin ↦ elim (Bool-cases (mfa_enrolled user)) [
      | inl enrolled ↦ same (ground arith)
      | inr new ↦
          elim (Option-cases (encrypt_text env.crypto env.settings.credential_keys secret)) [
            | inl no_key ↦ same (ground arith)
            | inr (sealed, e) ↦
                elim (Option-cases
                  (update_where user.id (λ _. true) (with_secret sealed) w.users)) [
                    | inl gone ↦ same (ground arith)
                    | inr (users, done) ↦
                        rw (admin, new, e, done, mfa_setup)
                          (update_where-Change a user.id _ (with_secret sealed) w.users users
                            (λ row. refl) (λ row. omega arith) done)
                  ]
          ]
    ]
  ]

  mfa_confirm_refused :
      (env : Env) (code : Text) (user : User) (w w' : World) (n : ℕ)
      → mfa_confirm env code user w ≡ (http n, w')
      → w'.users ≡ w.users
  unfolding mfa_confirm
  mfa_confirm_refused env code user w w' n h = ground arith

  mfa_confirm_done :
      (env : Env) (code : Text) (user : User) (w w' : World) (token : Text)
      → mfa_confirm env code user w ≡ (ok token, w')
      → (counter : ℤ) × (commit_mfa_transition user (confirmed counter) w.users ≡ some w'.users)
  unfolding mfa_confirm
  mfa_confirm_done env code user w w' token h =
      elim (Option-cases (decrypt_text env.crypto env.settings.credential_keys user.mfa_secret)) [
        | inl sealed ↦ absurd (ground arith)
        | inr (secret, opened) ↦
            elim (Option-cases (verify_totp env.crypto env.now secret code user.mfa_last_counter)) [
              | inl wrong ↦ absurd (ground arith)
              | inr (counter, right) ↦ (counter, ground arith)
            ]
      ]

  pub mfa_confirm-Change :
      (env : Env) (code : Text) (user : User) (w : World)
      → Change a w.users (mfa_confirm env code user w).1.users
  mfa_confirm-Change env code user w = elim (answered (mfa_confirm env code user w)) [
    | inr (n, e) ↦ same (mfa_confirm_refused env code user w _ n e)
    | inl (token, e) ↦
        let (counter, done) = mfa_confirm_done env code user w _ token e in
        commit_mfa_transition-Change user (confirmed counter) w.users _ (λ row. refl)
          (λ row. omega arith) done
  ]

  mfa_disable_refused :
      (env : Env) (ip password code : Text) (user : User) (w w' : World) (n : ℕ)
      → mfa_disable env ip password code user w ≡ (http n, w')
      → w'.users ≡ w.users
  unfolding mfa_disable
  mfa_disable_refused env ip password code user w w' n h = ground arith

  mfa_disable_done :
      (env : Env) (ip password code : Text) (user : User) (w w' : World) (token : Text)
      → mfa_disable env ip password code user w ≡ (ok token, w')
      → commit_mfa_transition user disabled w.users ≡ some w'.users
  unfolding mfa_disable
  mfa_disable_done env ip password code user w w' token h = ground arith

  pub mfa_disable-Change :
      (env : Env) (ip password code : Text) (user : User) (w : World)
      → Change a w.users (mfa_disable env ip password code user w).1.users
  mfa_disable-Change env ip password code user w =
      elim (answered (mfa_disable env ip password code user w)) [
        | inr (n, e) ↦ same (mfa_disable_refused env ip password code user w _ n e)
        | inl (token, e) ↦
            commit_mfa_transition-Change user disabled w.users _ (λ row. refl) (λ row. omega arith)
              (mfa_disable_done env ip password code user w _ token e)
      ]

  pub logout-Change : (user : User) (w : World) → Change a w.users (logout user w).1.users
  unfolding logout increment_token_version
  logout-Change user w = elim (Option-cases (increment_token_version user.id w.users)) [
    | inl gone ↦ same (ground arith)
    | inr (users, done) ↦
        rw (done, logout)
          (update_where-Change a user.id (λ _. true) bumped w.users users (λ row. refl)
            (λ row. omega arith) done)
  ]

  pub create_user-Change :
      (env : Env) (id : ℕ) (auth_id : Text) (body : UserCreate) (admin : User) (w : World)
      → auth_id ≢ a
      → Change a w.users (create_user env id auth_id body admin w).1.users
  unfolding create_user
  create_user-Change env id auth_id body admin w new =
      elim (Option-cases (named body.username w.users)) [
        | inl free ↦ rw (free, create_user) (add id _ new refl)
        | inr (user, taken) ↦ same (ground arith)
      ]

  pub update_user-Change :
      (env : Env) (id : ℕ) (body : UserUpdate) (admin : User) (w : World)
      → Change a w.users (update_user env id body admin w).1.users
  unfolding update_user
  update_user-Change env id body admin w = elim (Option-cases (lookup id w.users)) [
    | inl missing ↦ same (ground arith)
    | inr (user, found) ↦
        elim (Bool-cases (nat_beq id admin.id && (demotes body || deactivates body))) [
          | inl own ↦ same (ground arith)
          | inr other ↦ elim (Bool-cases (revokes body user)) [
            | inl revoked ↦ edit id user (bumped (edited env body user)) found refl (omega arith) (
                rw (
                  found,
                  other,
                  revoked,
                  save_and_revoke_lem id (edited env body user) w.users,
                  update_user,
                ))
            | inr plain ↦
                edit id user (edited env body user) found refl (omega arith)
                  (rw (found, other, plain, update_user))
          ]
        ]
  ]

  pub delete_user-Change :
      (id : ℕ) (admin : User) (w : World) → Change a w.users (delete_user id admin w).1.users
  unfolding delete_user
  delete_user-Change id admin w = elim (Option-cases (lookup id w.users)) [
    | inl missing ↦ same (ground arith)
    | inr (user, found) ↦ elim (Bool-cases (nat_beq id admin.id)) [
      | inl own ↦ same (ground arith)
      | inr other ↦ remove id (rw (found, other, delete_user))
    ]
  ]

  pub reset_user_mfa-Change :
      (id : ℕ) (admin : User) (w : World) → Change a w.users (reset_user_mfa id admin w).1.users
  unfolding reset_user_mfa
  reset_user_mfa-Change id admin w = elim (Option-cases (lookup id w.users)) [
    | inl missing ↦ same (ground arith)
    | inr (user, found) ↦ elim (Bool-cases (nat_beq id admin.id)) [
      | inl own ↦ same (ground arith)
      | inr other ↦
          edit id user (bumped (without_mfa user)) found refl (omega arith)
            (rw (found, other, save_and_revoke_lem id (without_mfa user) w.users, reset_user_mfa))
    ]
  ]

  change_password_refused :
      (env : Env) (ip old new : Text) (mfa : Bool) (user : User) (w w' : World) (n : ℕ)
      → change_password env ip old new mfa user w ≡ (http n, w')
      → w'.users ≡ w.users
  unfolding change_password
  change_password_refused env ip old new mfa user w w' n h = ground arith

  change_password_done :
      (env : Env) (ip old new : Text) (mfa : Bool) (user : User) (w w' : World) (token : Text)
      → change_password env ip old new mfa user w ≡ (ok token, w')
      → update_where user.id (unchanged_since user) (new_password (env.crypto.hash new)) w.users
        ≡ some w'.users
  unfolding change_password
  change_password_done env ip old new mfa user w w' token h = ground arith

  pub change_password-Change :
      (env : Env) (ip old new : Text) (mfa : Bool) (user : User) (w : World)
      → Change a w.users (change_password env ip old new mfa user w).1.users
  change_password-Change env ip old new mfa user w =
      elim (answered (change_password env ip old new mfa user w)) [
        | inr (n, e) ↦ same (change_password_refused env ip old new mfa user w _ n e)
        | inl (token, e) ↦
            update_where-Change a user.id (unchanged_since user)
              (new_password (env.crypto.hash new)) w.users _ (λ row. refl) (λ row. omega arith)
              (change_password_done env ip old new mfa user w _ token e)
      ]

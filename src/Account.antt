-- ===== src/Account.antt =====
-- User accounts: the rows of the `users` table (`class User` in backend/app/models.py), the audit
-- log, and the two updates by which a request changes a row that another request may have
-- changed meanwhile. A request that raises rolls its transaction back.
use lab_gpu_server_monitor.Prelude.{
  ◌≡◌, arith, ℕ, ◌+◌, Bool, true, ◌&&◌, Option, none, some, List, [], ◌∷◌, ◌++◌, if◌then◌else◌,
  Text, codes, text_eq, ◌==◌, nat_beq, nat_eq, take, non_empty,
}
use lab_gpu_server_monitor.Prelude.Table.{lookup, insert, lookup-insert, insert-insert}
use lab_gpu_server_monitor.Prelude.Int.{ℤ, eq_ℤ}
use lab_gpu_server_monitor.RateLimit.{Limiter}

pub record User : Type 0 where
  pub id : ℕ
  pub username : Text
  pub password_hash : Text
  pub display_name : Text
  pub email : Text
  pub role : Text
  pub is_active : Bool
  pub auth_id : Text
  pub token_version : ℕ
  pub mfa_secret : Text
  pub mfa_confirmed : Bool
  pub mfa_last_counter : ℤ

-- the two properties of `User`
abbrev pub mfa_enrolled : User → Bool
mfa_enrolled u = non_empty u.mfa_secret && u.mfa_confirmed

abbrev pub admin_role : Text
admin_role = codes "admin"

abbrev pub is_admin : User → Bool
is_admin u = u.role == admin_role

-- the `users` table by primary key
abbrev pub Users : Type 0
Users = List (ℕ × User)

-- `(username, action, detail)`
abbrev pub Audit : Type 0
Audit = List (Text × Text × Text)

-- What requests share: the database, and the two limiters of rate_limit.py.
pub record World : Type 0 where
  pub users : Users
  pub audit_log : Audit
  pub limiter : Limiter
  pub step_up_limiter : Limiter

-- An HTTP answer: a result, or the status of the exception that was raised.
pub data Answer {ℓ} (A : Type ℓ) : Type ℓ where
  ok : A → Answer A
  http : ℕ → Answer A

abbrev pub audit : Text → Text → Text → World → World
audit username action detail w = record w {
  audit_log = w.audit_log ++ (username, action, take 500 detail) ∷ [];
}

abbrev pub put_user : User → World → World
put_user u w = record w { users = insert u.id u w.users }

-- `db.query(User).filter(User.username == username).first()`
abbrev pub named : Text → Users → Option User
named username [] = none
named username ((_, u) ∷ rest) = if u.username == username then some u else named username rest

-- An `UPDATE … WHERE id = … AND …` on one row; `none` if it changed no row.
unfoldable pub update_where : ℕ → (User → Bool) → (User → User) → Users → Option Users
update_where id test change users = elim (lookup id users) [
  | none ↦ none
  | some row ↦ if test row then some (insert id (change row) users) else none
]

-- `increment_token_version`
unfoldable pub increment_token_version : ℕ → Users → Option Users
unfolding update_where
increment_token_version id users =
    update_where id (λ _. true) (λ row. record row { token_version = row.token_version + 1 }) users

-- `_commit_mfa_transition`: `user` is the row as the request has read it
unfoldable pub commit_mfa_transition : User → (User → User) → Users → Option Users
unfolding update_where
commit_mfa_transition user values users =
    update_where user.id
      (λ row.
        eq_ℤ row.mfa_last_counter user.mfa_last_counter
        && nat_beq row.token_version user.token_version)
      values users

-- A changed row is flushed, and its sessions are revoked in the same transaction.
unfoldable pub save_and_revoke : ℕ → User → Users → Option Users
unfolding increment_token_version
save_and_revoke id row users = increment_token_version id (insert id row users)

abbrev pub bumped : User → User
bumped row = record row { token_version = row.token_version + 1 }

-- It never fails, and the row that is stored is the changed one under the next version.
pub save_and_revoke_lem :
    (id : ℕ) (row : User) (users : Users)
    → save_and_revoke id row users ≡ some (insert id (bumped row) users)
unfolding save_and_revoke
save_and_revoke_lem id row users =
    ground (arith, lookup-insert id id row users, insert-insert id (bumped row) row users)

-- ===== src/UserAdmin/Survival.antt =====
-- An administrator cannot lock themselves out by administering users.
use lab_gpu_server_monitor.Prelude.{
  ℕ, ◌≡◌, refl, ap, ◌∙◌, inl, inr, Option-cases, Bool-cases, Bool, true, false, not, ◌&&◌, ◌||◌,
  Option, none, some, if◌then◌else◌, Text, text_eq, nat_eq, nat_beq, ◌==◌, arith,
}
use lab_gpu_server_monitor.Prelude.Table.{lookup, insert, lookup-insert, lookup-erase_ne}
use lab_gpu_server_monitor.Account.{
  save_and_revoke_lem, bumped, User, Users, World, named, admin_role,
}
use lab_gpu_server_monitor.Login.{Env}
use lab_gpu_server_monitor.UserAdmin.{
  UserCreate, UserUpdate, create_user, update_user, delete_user, reset_user_mfa, edited, demotes,
  deactivates, revokes, or_old, without_mfa,
}

-- What an administrator may ask for; a new row comes with the id that the database gives it.
pub data AdminOp : Type 0 where
  create : ℕ → Text → UserCreate → AdminOp
  update : ℕ → UserUpdate → AdminOp
  delete : ℕ → AdminOp
  reset_mfa : ℕ → AdminOp

unfoldable pub administer : Env → User → AdminOp → World → World
administer env admin (create id auth_id body) w = (create_user env id auth_id body admin w).1
administer env admin (update id body) w = (update_user env id body admin w).1
administer env admin (delete id) w = (delete_user id admin w).1
administer env admin (reset_mfa id) w = (reset_user_mfa id admin w).1

-- The id of a new row is not taken.
abbrev pub IsFresh : AdminOp → World → Type 0
IsFresh (create id auth_id body) w = lookup id w.users ≡ none
IsFresh _ w = Unit

-- The row of an administrator who can still act.
pub record CanAct (id : ℕ) (w : World) : Type 0 where
  pub row : User
  pub found : lookup id w.users ≡ some row
  pub admin : row.role ≡ admin_role
  pub active : row.is_active ≡ true

keeps_role :
    (o : Option Text) (old : Text)
    → elim o as (λ _. Bool) [ none ↦ false | some role ↦ not (role == admin_role) ] ≡ false
    → old ≡ admin_role
    → or_old o old ≡ admin_role
keeps_role none old h e = e
keeps_role (some role) old h e = ground (arith, text_eq.beq_iff role admin_role)

keeps_active :
    (o : Option Bool) (old : Bool)
    → elim o as (λ _. Bool) [ none ↦ false | some flag ↦ not flag ] ≡ false
    → old ≡ true
    → or_old o old ≡ true
keeps_active none old h e = e
keeps_active (some flag) old h e = ground arith

-- What `update_user` leaves of the users: the same, or an edited row that is not the
-- administrator's own, or is neither demoted nor deactivated.
data Edits (env : Env) (id : ℕ) (body : UserUpdate) (admin : User) (users users' : Users)
    : Type 0 where
  refused : users' ≡ users → Edits env id body admin users users'
  edits :
      (user row : User)
      → lookup id users ≡ some user
      → nat_beq id admin.id && (demotes body || deactivates body) ≡ false
      → (row.role ≡ (edited env body user).role)
      → (row.is_active ≡ (edited env body user).is_active)
      → users' ≡ insert id row users
      → Edits env id body admin users users'

update_user-Edits :
    (env : Env) (id : ℕ) (body : UserUpdate) (admin : User) (w : World)
    → Edits env id body admin w.users (update_user env id body admin w).1.users
unfolding update_user
update_user-Edits env id body admin w = elim (Option-cases (lookup id w.users)) [
  | inl missing ↦ refused (rw (missing, update_user))
  | inr (user, found) ↦
      elim (Bool-cases (nat_beq id admin.id && (demotes body || deactivates body))) [
        | inl own ↦ refused (rw (found, own, update_user))
        | inr other ↦ elim (Bool-cases (revokes body user)) [
          | inl revoked ↦ edits user (bumped (edited env body user)) found other refl refl (
              rw (
                found,
                other,
                revoked,
                save_and_revoke_lem id (edited env body user) w.users,
                update_user,
              ))
          | inr plain ↦
              edits user (edited env body user) found other refl refl
                (rw (found, other, plain, update_user))
        ]
      ]
]

-- A row that is written at one id shows only there.
CanAct-insert :
    (a id : ℕ) (row : User) (w w' : World)
    → w'.users ≡ insert id row w.users
    → (id ≡ a → (row.role ≡ admin_role) × (row.is_active ≡ true))
    → CanAct a w
    → CanAct a w'
CanAct-insert a id row w w' e own h = elim (Bool-cases (nat_beq id a)) [
  | inl self ↦
      let (admin, active) = own (ground arith) in
      record {
        row = row;
        found = rw e (ground (arith, lookup-insert id a row w.users));
        admin = admin;
        active = active;
      }
  | inr other ↦ record {
    row = h.row;
    found = rw e (ground (arith, lookup-insert id a row w.users, h.found));
    admin = h.admin;
    active = h.active;
  }
]

CanAct-kept :
    (a : ℕ) (w w' : World) → lookup a w'.users ≡ lookup a w.users → CanAct a w → CanAct a w'
CanAct-kept a w w' e h = record {
  row = h.row;
  found = e ∙ h.found;
  admin = h.admin;
  active = h.active;
}

Edits-CanAct :
    (env : Env) (id : ℕ) (body : UserUpdate) (admin : User) (w w' : World)
    → Edits env id body admin w.users w'.users
    → CanAct admin.id w
    → CanAct admin.id w'
Edits-CanAct env id body admin w w' (refused e) h =
    CanAct-kept admin.id w w' (ap (lookup admin.id) e) h
Edits-CanAct env id body admin w w' (edits user row found guard role active e) h =
    CanAct-insert admin.id id row w w' e
      (λ self.
        let same : user ≡ h.row = ground (arith, found, h.found) in
        let free : demotes body || deactivates body ≡ false = ground arith in
        (
          role ∙ keeps_role body.role user.role (ground arith) (ground (arith, h.admin)),
          active
              ∙ keeps_active body.is_active user.is_active (ground arith)
                  (ground (arith, h.active)),
        ))
      h

elsewhere :
    (id a : ℕ) (users : Users) (row : User) (x : Option User)
    → lookup id users ≡ none
    → lookup a users ≡ some row
    → (if nat_beq id a then x else lookup a users) ≡ lookup a users
elsewhere id a users row x fresh found = elim (Bool-cases (nat_beq id a)) [
  | inl self ↦ let e : id ≡ a = ground arith in absurd (ground (arith, ap (λ k. lookup k users) e))
  | inr other ↦ rw other
]

create_user-same :
    (env : Env) (id : ℕ) (auth_id : Text) (body : UserCreate) (admin : User) (w : World) (a : ℕ)
    → lookup id w.users ≡ none
    → CanAct a w
    → lookup a (create_user env id auth_id body admin w).1.users ≡ lookup a w.users
unfolding create_user
create_user-same env id auth_id body admin w a fresh h =
    elim (Option-cases (named body.username w.users)) [
      | inl new ↦
          rw (new, create_user)
            (lookup-insert id a _ w.users ∙ elsewhere id a w.users h.row _ fresh h.found)
      | inr (user, taken) ↦ rw (taken, create_user)
    ]

delete_user-same :
    (id : ℕ) (admin : User) (w : World)
    → lookup admin.id (delete_user id admin w).1.users ≡ lookup admin.id w.users
unfolding delete_user
delete_user-same id admin w = elim (Option-cases (lookup id w.users)) [
  | inl missing ↦ rw (missing, delete_user)
  | inr (user, found) ↦ elim (Bool-cases (nat_beq id admin.id)) [
    | inl own ↦ rw (found, own, delete_user)
    | inr other ↦ rw (found, other, delete_user) (lookup-erase_ne id admin.id w.users other)
  ]
]

reset_user_mfa-same :
    (id : ℕ) (admin : User) (w : World)
    → lookup admin.id (reset_user_mfa id admin w).1.users ≡ lookup admin.id w.users
unfolding reset_user_mfa
reset_user_mfa-same id admin w = elim (Option-cases (lookup id w.users)) [
  | inl missing ↦ rw (missing, reset_user_mfa)
  | inr (user, found) ↦ elim (Bool-cases (nat_beq id admin.id)) [
    | inl own ↦ rw (found, own, reset_user_mfa)
    | inr other ↦
        rw (found, other, save_and_revoke_lem id (without_mfa user) w.users, reset_user_mfa)
          (lookup-insert id admin.id (bumped (without_mfa user)) w.users ∙ rw other)
  ]
]

-- Whatever users an administrator creates, edits, deletes or resets, their own account remains an
-- active administrator's.
pub administer-CanAct :
    (env : Env) (admin : User) (op : AdminOp) (w : World)
    → IsFresh op w
    → CanAct admin.id w
    → CanAct admin.id (administer env admin op w)
unfolding administer
administer-CanAct env admin (create id auth_id body) w fresh h =
    CanAct-kept admin.id w _ (create_user-same env id auth_id body admin w admin.id fresh h) h
administer-CanAct env admin (update id body) w fresh h =
    Edits-CanAct env id body admin w _ (update_user-Edits env id body admin w) h
administer-CanAct env admin (delete id) w fresh h =
    CanAct-kept admin.id w _ (delete_user-same id admin w) h
administer-CanAct env admin (reset_mfa id) w fresh h =
    CanAct-kept admin.id w _ (reset_user_mfa-same id admin w) h

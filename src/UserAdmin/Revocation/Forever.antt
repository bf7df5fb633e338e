-- ===== src/UserAdmin/Revocation/Forever.antt =====
-- Revoked tokens stay revoked, under every sequence of the routes of backend/app/api/auth.py and
-- backend/app/api/users.py.
use lab_gpu_server_monitor.Prelude.{
  ℕ, ◌≡◌, ◌≢◌, sym, ap, ◌∙◌, inl, inr, Bool-cases, nat_beq, nat_eq, text_eq, Bool, some, List, [],
  ◌∷◌, Text, arith,
}
use mathlib.Core.Option
use lab_gpu_server_monitor.Prelude.Table.{lookup, insert, IsDict, insert-IsDict, lookup-insert}
use lab_gpu_server_monitor.Account.{bumped, increment_token_version, User, Users, World, ok}
use lab_gpu_server_monitor.Security.{Crypto, Payload, Credentials, token_of, get_current_user}
use lab_gpu_server_monitor.Security.Session.{get_current_user_iff}
use lab_gpu_server_monitor.Login.{
  Env, LoginRequest, authenticate, mfa_setup, mfa_confirm, mfa_disable, logout,
}
use lab_gpu_server_monitor.UserAdmin.{
  UserCreate, UserUpdate, create_user, update_user, delete_user, change_password, reset_user_mfa,
}
use lab_gpu_server_monitor.UserAdmin.Revocation.{Change, IsRevoked, Change-IsRevoked}
use lab_gpu_server_monitor.UserAdmin.Revocation.Routes.{
  authenticate-Change, mfa_setup-Change, mfa_confirm-Change, mfa_disable-Change, logout-Change,
  create_user-Change, update_user-Change, delete_user-Change, reset_user_mfa-Change,
  change_password-Change,
}

-- A request, with the user that its session stands for.
pub data Request : Type 0 where
  login : LoginRequest → Request
  setup confirm : Text → User → Request
  disable : Text → Text → Text → User → Request
  log_out : User → Request
  create : ℕ → Text → UserCreate → User → Request
  update : ℕ → UserUpdate → User → Request
  delete reset : ℕ → User → Request
  password : Text → Text → Text → Bool → User → Request

unfoldable pub serve : Env → Request → World → World
serve env (login r) w = (authenticate env r w).1
serve env (setup secret user) w = (mfa_setup env secret user w).1
serve env (confirm code user) w = (mfa_confirm env code user w).1
serve env (disable ip pw code user) w = (mfa_disable env ip pw code user w).1
serve env (log_out user) w = (logout user w).1
serve env (create id auth_id body admin) w = (create_user env id auth_id body admin w).1
serve env (update id body admin) w = (update_user env id body admin w).1
serve env (delete id admin) w = (delete_user id admin w).1
serve env (reset id admin) w = (reset_user_mfa id admin w).1
serve env (password ip old new mfa user) w = (change_password env ip old new mfa user w).1

-- Requests in turn, each in its own environment: the clock and the configuration may change.
unfoldable pub serve_all : List (Env × Request) → World → World
serve_all [] w = w
serve_all ((env, r) ∷ more) w = serve_all more (serve env r w)

-- A new account's `auth_id` is another one: `new_token` never repeats.
abbrev pub IsNew : Text → Request → Type 0
IsNew a (create id auth_id body admin) = auth_id ≢ a
IsNew a _ = Unit

abbrev pub AllNew : Text → List (Env × Request) → Type 0
AllNew a [] = Unit
AllNew a ((env, r) ∷ more) = IsNew a r × AllNew a more

serve-Change :
    (a : Text) (env : Env) (r : Request) (w : World)
    → IsNew a r
    → Change a w.users (serve env r w).users
unfolding serve
serve-Change a env (login r) w new = authenticate-Change a env r w
serve-Change a env (setup secret user) w new = mfa_setup-Change a env secret user w
serve-Change a env (confirm code user) w new = mfa_confirm-Change a env code user w
serve-Change a env (disable ip pw code user) w new = mfa_disable-Change a env ip pw code user w
serve-Change a env (log_out user) w new = logout-Change a user w
serve-Change a env (create id auth_id body admin) w new =
    create_user-Change a env id auth_id body admin w new
serve-Change a env (update id body admin) w new = update_user-Change a env id body admin w
serve-Change a env (delete id admin) w new = delete_user-Change a id admin w
serve-Change a env (reset id admin) w new = reset_user_mfa-Change a id admin w
serve-Change a env (password ip old fresh mfa user) w new =
    change_password-Change a env ip old fresh mfa user w

serve_all-IsRevoked :
    (a : Text) (version : ℕ) (rs : List (Env × Request)) (w : World)
    → AllNew a rs
    → IsRevoked a version w.users
    → IsRevoked a version (serve_all rs w).users
unfolding serve_all
serve_all-IsRevoked a version [] w new r = r
serve_all-IsRevoked a version ((env, q) ∷ rs) w new r =
    serve_all-IsRevoked a version rs (serve env q w) new.1
      (Change-IsRevoked a version w.users _ r (serve-Change a env q w new.0))

logout_users :
    (user row : User) (w : World)
    → lookup user.id w.users ≡ some row
    → (logout user w).1.users ≡ insert user.id (bumped row) w.users
unfolding logout increment_token_version
logout_users user row w found = ground arith

logout_ok :
    (user row : User) (w : World) → lookup user.id w.users ≡ some row → (logout user w).0 ≡ ok tt
unfolding logout increment_token_version
logout_ok user row w found = ground arith

-- A token whose account has moved past its version is never accepted again, whatever requests are
-- served meanwhile: no login, password, second factor, edit, deletion or new account revives it, as long as
-- no new account is given the old one's `auth_id`.
pub revoked_forever :
    (c : Crypto) (now : ℕ) (r : Credentials) (p : Payload) (a : Text) (version : ℕ)
    (rs : List (Env × Request)) (w : World) (row : User) (mfa : Bool)
    → c.decode now (token_of r) ≡ some p
    → p.aid ≡ some a
    → p.ver ≡ some version
    → AllNew a rs
    → IsRevoked a version w.users
    → get_current_user c now r (serve_all rs w).users ≢ ok (row, mfa)
revoked_forever c now r p a version rs w row mfa decoded aid ver new revoked h =
    let (has, (q, e, n, m)) = (get_current_user_iff c now r (serve_all rs w).users row mfa).0 h in
    let same_claims : q ≡ p = Option.some-injective q p (sym e ∙ decoded) in
    let aid' = sym n.aid_claim ∙ ap (λ (x : Payload). x.aid) same_claims ∙ aid in
    let ver' = sym n.ver_claim ∙ ap (λ (x : Payload). x.ver) same_claims ∙ ver in
    let x = serve_all-IsRevoked a version rs w new revoked in
    let late = x.over n.uid row n.found (Option.some-injective row.auth_id a aid') in
    let now_at = Option.some-injective row.token_version version ver' in omega (arith, late, now_at)

-- Nobody else bears the `auth_id` of a row: the column is unique.
abbrev pub IsOwn : ℕ → User → Users → Type 0
IsOwn id row users =
    (j : ℕ) (other : User) → lookup j users ≡ some other → other.auth_id ≡ row.auth_id → j ≡ id

-- Logging out ends every session of the account up to the version that it has then.
pub logout-IsRevoked :
    (user row : User) (w : World)
    → IsDict w.users
    → lookup user.id w.users ≡ some row
    → IsOwn user.id row w.users
    → ((logout user w).0 ≡ ok tt) × IsRevoked row.auth_id row.token_version (logout user w).1.users
logout-IsRevoked user row w d found own = (
  logout_ok user row w found,
  record {
    distinct = rw (logout_users user row w found) (insert-IsDict user.id (bumped row) w.users d);
    over = λ j other shown same_id.
        let at =
          sym (lookup-insert user.id j (bumped row) w.users)
          ∙ sym (ap (lookup j) (logout_users user row w found))
          ∙ shown in
        elim (Bool-cases (nat_beq user.id j)) [
          | inl self ↦
              let it : bumped row ≡ other = ground (arith, at) in
              omega (arith, ap (λ (u : User). u.token_version) it)
          | inr elsewhere ↦
              let j_is = own j other (ground (arith, at)) same_id in absurd (ground arith)
        ];
  },
)

-- ===== src/Security/Session.antt =====
-- Sessions: whom `get_current_user` and `require_admin` let in.
use lab_gpu_server_monitor.Prelude.{
  ℕ, ◌≡◌, sym, ap, ◌∙◌, ◌⊎◌, inl, inr, ◌↔◌, Bool, true, false, not, ◌&&◌, Option, none, some, Text,
  text_eq, arith, nat_eq, non_empty, strip, Option-cases, Bool-cases,
}
use lab_gpu_server_monitor.Prelude.Table.{lookup}
use lab_gpu_server_monitor.Account.{User, Users, ok, admin_role, mfa_enrolled}
use lab_gpu_server_monitor.Security.{
  Crypto, Settings, Payload, Credentials, token_of, text_is, number_is, row_matches, user_of,
  get_current_user, require_admin,
}

-- A token's claims name an active row as it now is, down to its version.
pub record Names (p : Payload) (users : Users) (row : User) : Type 0 where
  pub uid : ℕ
  pub uid_claim : p.uid ≡ some uid
  pub sub_claim : p.sub ≡ some row.username
  pub aid_claim : p.aid ≡ some row.auth_id
  pub ver_claim : p.ver ≡ some row.token_version
  pub found : lookup uid users ≡ some row
  pub active : row.is_active ≡ true

-- The request carries a token, and no Authorization header beside a cookie.
pub record Carries (r : Credentials) : Type 0 where
  pub token : non_empty (token_of r) ≡ true
  pub no_other_scheme : non_empty (strip r.authorization) && not (non_empty r.bearer) ≡ false

text_is_iff : (t : Text) (o : Option Text) → (text_is t o ≡ true) ↔ (o ≡ some t)
text_is_iff t none = (λ h. ground arith, λ h. ground arith)
text_is_iff t (some s) = ground (arith, text_eq.beq_iff t s)

number_is_iff : (n : ℕ) (o : Option ℕ) → (number_is n o ≡ true) ↔ (o ≡ some n)
number_is_iff n none = (λ h. ground arith, λ h. ground arith)
number_is_iff n (some m) = ground arith

row_matches_sound :
    (p : Payload) (username : Text) (row : User)
    → row_matches p username row ≡ true
    → (row.is_active ≡ true)
      × (row.username ≡ username)
      × (p.aid ≡ some row.auth_id)
      × (p.ver ≡ some row.token_version)
row_matches_sound p username row h = ground (
  arith,
  text_eq.beq_iff row.username username,
  text_is_iff row.auth_id p.aid,
  number_is_iff row.token_version p.ver,
)

row_matches_complete :
    (p : Payload) (row : User)
    → row.is_active ≡ true
    → p.aid ≡ some row.auth_id
    → p.ver ≡ some row.token_version
    → row_matches p row.username row ≡ true
row_matches_complete p row active aid ver = ground (
  arith,
  text_eq.beq_iff row.username row.username,
  text_is_iff row.auth_id p.aid,
  number_is_iff row.token_version p.ver,
)

user_of_sound :
    (p : Payload) (users : Users) (row : User) (mfa : Bool)
    → user_of p users ≡ ok (row, mfa)
    → Names p users row × (mfa ≡ p.mfa)
unfolding user_of
user_of_sound p users row mfa h = elim (Option-cases p.sub) [
  | inl none_sub ↦ absurd (ground arith)
  | inr (username, sub) ↦ elim (Option-cases p.uid) [
    | inl none_uid ↦ absurd (ground arith)
    | inr (uid, id) ↦ elim (Option-cases (lookup uid users)) [
      | inl none_row ↦ absurd (ground arith)
      | inr (row', found) ↦ elim (Bool-cases (row_matches p username row')) [
        | inl matches ↦
            let (active, name, aid, ver) = row_matches_sound p username row' matches in
            let same : row' ≡ row = ground arith in
            (
              record {
                uid = uid;
                uid_claim = id;
                sub_claim = ground arith;
                aid_claim = ground arith;
                ver_claim = ground arith;
                found = ground arith;
                active = ground arith;
              },
              ground arith,
            )
        | inr differs ↦ absurd (ground arith)
      ]
    ]
  ]
]

user_of_complete :
    (p : Payload) (users : Users) (row : User)
    → Names p users row
    → user_of p users ≡ ok (row, p.mfa)
unfolding user_of
user_of_complete p users row n = ground (
  arith,
  row_matches_complete p row n.active n.aid_claim n.ver_claim,
  n.uid_claim,
  n.sub_claim,
  n.found,
)

carried :
    (c : Crypto) (now : ℕ) (r : Credentials) (users : Users) (x : User × Bool)
    → get_current_user c now r users ≡ ok x
    → Carries r × ((p : Payload) × (c.decode now (token_of r) ≡ some p) × (user_of p users ≡ ok x))
unfolding get_current_user
carried c now r users x h = elim (Option-cases (c.decode now (token_of r))) [
  | inl bad ↦ absurd (ground arith)
  | inr (p, e) ↦
      (record { token = ground arith; no_other_scheme = ground arith }, (p, e, ground arith))
]

admitted :
    (c : Crypto) (now : ℕ) (r : Credentials) (users : Users) (p : Payload)
    → Carries r
    → c.decode now (token_of r) ≡ some p
    → get_current_user c now r users ≡ user_of p users
unfolding get_current_user
admitted c now r users p has e = ground (arith, has.token, has.no_other_scheme)

-- A request is let in exactly when it carries a token, the token decodes, and its claims name an
-- active row of the users as they are now, with its version; the session's MFA flag is the
-- token's.
pub get_current_user_iff :
    (c : Crypto) (now : ℕ) (r : Credentials) (users : Users) (row : User) (mfa : Bool)
    → (get_current_user c now r users ≡ ok (row, mfa)) ↔ (
        Carries r
        × ((p : Payload) × (c.decode now (token_of r) ≡ some p)
            × Names p users row
            × (mfa ≡ p.mfa)))
get_current_user_iff c now r users row mfa = (
  (λ h.
      let (has, (p, e, u)) = carried c now r users (row, mfa) h in
      let (n, m) = user_of_sound p users row mfa u in (has, (p, e, n, m))),
  λ h.
      let (p, e, n, m) = h.1 in
      admitted c now r users p h.0 e
      ∙ user_of_complete p users row n
      ∙ ap (λ b. ok (row, b)) (sym m),
)

-- An administrator's route lets in exactly the active administrators, and where MFA is required
-- only those that have enrolled and have passed it in this session.
pub require_admin_iff :
    (s : Settings) (user row : User) (mfa : Bool)
    → (require_admin s (user, mfa) ≡ ok row) ↔ (
        (row ≡ user)
        × (user.role ≡ admin_role)
        × ((s.require_admin_mfa ≡ false) ⊎ ((mfa_enrolled user ≡ true) × (mfa ≡ true))))
unfolding require_admin
require_admin_iff s user row mfa = (
  (λ h. ground (arith, text_eq.beq_iff user.role admin_role)),
  λ h. ground (arith, text_eq.beq_iff user.role admin_role),
)

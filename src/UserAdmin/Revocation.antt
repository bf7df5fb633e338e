-- ===== src/UserAdmin/Revocation.antt =====
-- Revoked sessions (`token_version` and `auth_id` of backend/app/models.py): what a request may do
-- to the users without bringing such a session back.
pub mod Routes
pub mod Forever
use lab_gpu_server_monitor.Prelude.{
  ℕ, ◌+◌, ◌≤◌, ◌<◌, ◌≡◌, ◌≢◌, refl, sym, ap, ◌∙◌, ◌⊎◌, inl, inr, Option-cases, Bool-cases, Bool,
  true, false, not, ◌&&◌, ◌||◌, Option, none, some, List, [], ◌∷◌, ◌++◌, if◌then◌else◌, Text, codes,
  text_eq, nat_eq, nat_beq, ◌==◌, arith, Eq,
}
use mathlib.Core.Option
use lab_gpu_server_monitor.Prelude.Int.{ℤ}
use lab_gpu_server_monitor.Prelude.Table.{
  lookup, insert, erase, IsDict, lookup-insert, lookup-erase_ne, lookup-erase_self, insert-IsDict,
  erase-IsDict,
}
use lab_gpu_server_monitor.Account.{
  User, Users, World, Answer, ok, http, audit, named, update_where, increment_token_version,
}

-- Every way in which a request leaves the users, seen from the sessions of one `auth_id`: as they
-- were, with one row edited that keeps its `auth_id` and lowers no version, with a row of another
-- `auth_id` added, or with a row removed.
pub data Change (a : Text) (users users' : Users) : Type 0 where
  same : users' ≡ users → Change a users users'
  edit :
      (id : ℕ) (old new : User)
      → lookup id users ≡ some old
      → new.auth_id ≡ old.auth_id
      → old.token_version ≤ new.token_version
      → users' ≡ insert id new users
      → Change a users users'
  add :
      (id : ℕ) (new : User) → new.auth_id ≢ a → users' ≡ insert id new users → Change a users users'
  remove : (id : ℕ) → users' ≡ erase id users → Change a users users'

-- The sessions of an `auth_id` up to a version are over: no row bears it at such a version.
pub record IsRevoked (a : Text) (version : ℕ) (users : Users) : Type 0 where
  pub distinct : IsDict users
  pub over :
      (id : ℕ) (row : User)
      → lookup id users ≡ some row
      → row.auth_id ≡ a
      → version < row.token_version

module _ (a : Text) (version : ℕ) (users users' : Users) (r : IsRevoked a version users) where
  over-insert :
      (k : ℕ) (new : User)
      → users' ≡ insert k new users
      → (new.auth_id ≡ a → version < new.token_version)
      → (id : ℕ) (row : User) → lookup id users' ≡ some row
      → row.auth_id ≡ a
      → version < row.token_version
  over-insert k new e fine id row found own =
      let shown = ap (lookup id) e ∙ lookup-insert k id new users in
      elim (Bool-cases (nat_beq k id)) [
        | inl self ↦
            let it : new ≡ row = ground (arith, shown) in
            let bound = fine (ap (λ (u : User). u.auth_id) it ∙ own) in
            omega (arith, ap (λ (u : User). u.token_version) it, bound)
        | inr other ↦ r.over id row (ground (arith, shown)) own
      ]

  pub Change-IsRevoked : Change a users users' → IsRevoked a version users'
  Change-IsRevoked (same e) = record {
    distinct = rw e r.distinct;
    over = λ id row found own. r.over id row (sym (ap (lookup id) e) ∙ found) own;
  }
  Change-IsRevoked (edit k old new there keeps grows e) = record {
    distinct = rw e (insert-IsDict k new users r.distinct);
    over =
        over-insert k new e
          (λ own. let bound = r.over k old there (sym keeps ∙ own) in omega (arith, bound));
  }
  Change-IsRevoked (add k new alien e) = record {
    distinct = rw e (insert-IsDict k new users r.distinct);
    over = over-insert k new e (λ own. absurd (alien own));
  }
  Change-IsRevoked (remove k e) = record {
    distinct = rw e (erase-IsDict k users r.distinct);
    over = λ id row found own.
        let shown = sym (ap (lookup id) e) ∙ found in
        elim (Bool-cases (nat_beq k id)) [
          | inl self ↦
              let it : k ≡ id = ground arith in
              absurd (
                ground (
                  arith,
                  sym (ap (λ j. lookup j (erase k users)) it)
                      ∙ lookup-erase_self k users r.distinct,
                  shown,
                ))
          | inr other ↦ r.over id row (sym (lookup-erase_ne k id users other) ∙ shown) own
        ];
  }

module _ (a : Text) where
  pub update_where-Change :
      (id : ℕ) (test : User → Bool) (change : User → User) (users users' : Users)
      → ((row : User) → (change row).auth_id ≡ row.auth_id)
      → ((row : User) → row.token_version ≤ (change row).token_version)
      → update_where id test change users ≡ some users'
      → Change a users users'
  unfolding update_where
  update_where-Change id test change users users' keeps grows h =
      elim (Option-cases (lookup id users)) [
        | inl missing ↦ absurd (ground arith)
        | inr (row, found) ↦ elim (Bool-cases (test row)) [
          | inl pass ↦ edit id row (change row) found (keeps row) (grows row) (
              Option.some-injective users' (insert id (change row) users)
                (sym h ∙ rw (found, pass, update_where)))
          | inr fail ↦ absurd (ground arith)
        ]
      ]

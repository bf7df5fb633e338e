-- ===== src/Login/Replay.antt =====
-- The counters of one-time codes over the logins of backend/app/api/auth.py in any order.
use lab_gpu_server_monitor.Prelude.{
  ℕ, ◌≡◌, refl, sym, ap, ◌∙◌, ◌⊎◌, inl, inr, true, false, some, List, [], ◌∷◌, if◌then◌else◌, ◌&&◌,
  Text, nat_eq, nat_beq, nat_beq_iff, arith, Option-cases, Bool-cases,
}
use lab_gpu_server_monitor.Prelude.Int.{ℤ, pos, negsuc, ltb_ℤ, eq_ℤ, eq_ℤ_iff}
use lab_gpu_server_monitor.Prelude.Table.{lookup, insert, lookup-insert}
use lab_gpu_server_monitor.Account.{
  User, Users, World, Answer, ok, http, named, commit_mfa_transition,
}
use lab_gpu_server_monitor.Security.{decrypt_text}
use lab_gpu_server_monitor.Security.Totp.{verify_totp_sound}
use lab_gpu_server_monitor.Login.{
  Env, LoginRequest, needs_code, second_factor, with_counter, authenticate,
}
use lab_gpu_server_monitor.Login.Outcome.{authenticate-Proves, authenticate-refused}

-- the logins one after the other, each under its own settings and clock
abbrev pub serve : List (Env × LoginRequest) → World → World
serve [] w = w
serve ((env, r) ∷ logins) w = serve logins (authenticate env r w).1

ltb_ℤ-irreflexive : (a : ℤ) → ltb_ℤ a a ≡ false
ltb_ℤ-irreflexive (pos a) = ground arith
ltb_ℤ-irreflexive (negsuc a) = ground arith

-- `c` is not below `b`, and so on
ltb_ℤ-le_trans : (a b c : ℤ) → ltb_ℤ b a ≡ false → ltb_ℤ c b ≡ false → ltb_ℤ c a ≡ false
ltb_ℤ-le_trans (pos a) (pos b) (pos c) h k = ground (arith, h, k)
ltb_ℤ-le_trans (pos a) (pos b) (negsuc c) h k = ground (arith, h, k)
ltb_ℤ-le_trans (pos a) (negsuc b) (pos c) h k = ground (arith, h, k)
ltb_ℤ-le_trans (pos a) (negsuc b) (negsuc c) h k = ground (arith, h, k)
ltb_ℤ-le_trans (negsuc a) (pos b) (pos c) h k = ground (arith, h, k)
ltb_ℤ-le_trans (negsuc a) (pos b) (negsuc c) h k = ground (arith, h, k)
ltb_ℤ-le_trans (negsuc a) (negsuc b) (pos c) h k = ground (arith, h, k)
ltb_ℤ-le_trans (negsuc a) (negsuc b) (negsuc c) h k = ground (arith, h, k)

ltb_ℤ-asym : (a b : ℤ) → ltb_ℤ a b ≡ true → ltb_ℤ b a ≡ false
ltb_ℤ-asym (pos a) (pos b) h = ground (arith, h)
ltb_ℤ-asym (pos a) (negsuc b) h = ground (arith, h)
ltb_ℤ-asym (negsuc a) (pos b) h = ground (arith, h)
ltb_ℤ-asym (negsuc a) (negsuc b) h = ground (arith, h)

ltb_ℤ-le_lt : (a b c : ℤ) → ltb_ℤ b a ≡ false → ltb_ℤ b c ≡ true → ltb_ℤ a c ≡ true
ltb_ℤ-le_lt (pos a) (pos b) (pos c) h k = ground (arith, h, k)
ltb_ℤ-le_lt (pos a) (pos b) (negsuc c) h k = ground (arith, h, k)
ltb_ℤ-le_lt (pos a) (negsuc b) (pos c) h k = ground (arith, h, k)
ltb_ℤ-le_lt (pos a) (negsuc b) (negsuc c) h k = ground (arith, h, k)
ltb_ℤ-le_lt (negsuc a) (pos b) (pos c) h k = ground (arith, h, k)
ltb_ℤ-le_lt (negsuc a) (pos b) (negsuc c) h k = ground (arith, h, k)
ltb_ℤ-le_lt (negsuc a) (negsuc b) (pos c) h k = ground (arith, h, k)
ltb_ℤ-le_lt (negsuc a) (negsuc b) (negsuc c) h k = ground (arith, h, k)

-- A code is accepted for a later step than the stored one.
second_factor-fresh :
    (env : Env) (user : User) (otp : Text) (k : ℤ)
    → second_factor env user otp ≡ some k
    → ltb_ℤ user.mfa_last_counter k ≡ true
second_factor-fresh env user otp k h =
    elim (Option-cases (decrypt_text env.crypto env.settings.credential_keys user.mfa_secret)) [
      | inl bad ↦ absurd (ground (arith, bad, h))
      | inr (secret, good) ↦
          (verify_totp_sound env.crypto secret otp user.mfa_last_counter env.now k
            (ground (arith, good, h))).fresh
    ]

-- Where a step is spent, the row still had the counter that was read, and then has the step.
commit-counter :
    (user : User) (k : ℤ) (users after : Users)
    → commit_mfa_transition user (with_counter k) users ≡ some after
    → (row : User) × (lookup user.id users ≡ some row)
      × (row.mfa_last_counter ≡ user.mfa_last_counter)
      × ((i : ℕ)
          → lookup i after
            ≡ (if nat_beq user.id i then some (with_counter k row) else lookup i users))
unfolding commit_mfa_transition
commit-counter user k users after h = elim (Option-cases (lookup user.id users)) [
  | inl missing ↦ absurd (ground (arith, missing, h))
  | inr (row, found) ↦
      elim (Bool-cases (
        eq_ℤ row.mfa_last_counter user.mfa_last_counter
        && nat_beq row.token_version user.token_version)) [
          | inr moved ↦ absurd (ground (arith, found, moved, h))
          | inl same ↦
              let stored : some (insert user.id (with_counter k row) users) ≡ some after =
                ground (arith, found, same, h) in
              (
                row,
                found,
                (eq_ℤ_iff row.mfa_last_counter user.mfa_last_counter).0 (ground (arith, same)),
                λ i. ground (arith, stored, lookup-insert user.id i (with_counter k row) users),
              )
        ]
]

-- the stored counter of an account is there and not below a step
abbrev pub HasSpent : ℕ → ℤ → Users → Type 0
HasSpent id k users =
    (row : User) × (lookup id users ≡ some row) × (ltb_ℤ row.mfa_last_counter k ≡ false)

Answer-cases :
    (a : Answer Text) → ((token : Text) × (a ≡ ok token)) ⊎ ((code : ℕ) × (a ≡ http code))
Answer-cases (ok token) = inl (token, refl)
Answer-cases (http code) = inr (code, refl)

-- A login that needs a code accepts one for a later step than the stored one, and stores its step.
authenticate-spends :
    (env : Env) (r : LoginRequest) (w : World) (token : Text) (user : User)
    → (authenticate env r w).0 ≡ ok token
    → named r.username w.users ≡ some user
    → needs_code env user ≡ true
    → (k : ℤ) × (second_factor env user r.otp ≡ some k)
      × (commit_mfa_transition user (with_counter k) w.users ≡ some (authenticate env r w).1.users)
authenticate-spends env r w token user h known needed =
    let w' = (authenticate env r w).1 in
    let proof = authenticate-Proves env r w w' token (ap (λ a. (a, w')) h) in
    let same : proof.user ≡ user = ground (arith, proof.account, known) in
    elim proof.factor [
      | inl (free, kept) ↦ absurd (ground (arith, ap (needs_code env) same, free, needed))
      | inr (k, right, spent) ↦ (
        k,
        ap (λ u. second_factor env u r.otp) (sym same) ∙ right,
        ap (λ u. commit_mfa_transition u (with_counter k) w.users) (sym same) ∙ spent,
      )
    ]

authenticate-HasSpent :
    (env : Env) (r : LoginRequest) (w : World) (id : ℕ) (k : ℤ)
    → HasSpent id k w.users
    → HasSpent id k (authenticate env r w).1.users
authenticate-HasSpent env r w id k (row, found, above) =
    let w' = (authenticate env r w).1 in
    let unchanged : w'.users ≡ w.users → HasSpent id k w'.users =
      λ same. (row, ap (lookup id) same ∙ found, above) in
    elim (Answer-cases (authenticate env r w).0) [
      | inr (code, refused) ↦
          elim (authenticate-refused env r w w' code (ap (λ a. (a, w')) refused)) [
            | inl (same, at) ↦ unchanged (ap (λ v. v.users) same)
            | inr (at, same, step_up, limiter) ↦ unchanged same
          ]
      | inl (token, accepted) ↦
          let proof = authenticate-Proves env r w w' token (ap (λ a. (a, w')) accepted) in
          elim proof.factor [
            | inl (free, same) ↦ unchanged same
            | inr (j, right, spent) ↦
                let (old, there, read, stored) =
                  commit-counter proof.user j w.users w'.users spent in
                elim (Bool-cases (nat_beq proof.user.id id)) [
                  | inr other ↦ (row, stored id ∙ rw other found, above)
                  | inl mine ↦
                      let one : proof.user.id ≡ id = (nat_beq_iff proof.user.id id).0 mine in
                      let its : some old ≡ some row =
                        sym there ∙ ap (λ i. lookup i w.users) one ∙ found in
                      let counted : row.mfa_last_counter ≡ proof.user.mfa_last_counter =
                        ground (arith, its, read) in
                      let later = second_factor-fresh env proof.user r.otp j right in
                      let not_below : ltb_ℤ proof.user.mfa_last_counter k ≡ false =
                        ap (λ c. ltb_ℤ c k) (sym counted) ∙ above in
                      (
                        with_counter j old,
                        stored id ∙ rw mine refl,
                        ltb_ℤ-le_trans k proof.user.mfa_last_counter j not_below
                            (ltb_ℤ-asym proof.user.mfa_last_counter j later),
                      )
                ]
          ]
    ]

serve-HasSpent :
    (logins : List (Env × LoginRequest)) (w : World) (id : ℕ) (k : ℤ)
    → HasSpent id k w.users
    → HasSpent id k (serve logins w).users
serve-HasSpent [] w id k h = h
serve-HasSpent ((env, r) ∷ logins) w id k h =
    serve-HasSpent logins (authenticate env r w).1 id k (authenticate-HasSpent env r w id k h)

-- No one-time code is accepted twice: where two logins to one account need a code and succeed,
-- whatever logins are tried between them, by whom and at what times, the second code belongs to a
-- later time step than the first.
pub authenticate_no_replay :
    (env env' : Env) (r r' : LoginRequest) (between : List (Env × LoginRequest)) (w : World)
    (token token' : Text) (user user' : User)
    → (authenticate env r w).0 ≡ ok token
    → named r.username w.users ≡ some user
    → needs_code env user ≡ true
    → (authenticate env' r' (serve between (authenticate env r w).1)).0 ≡ ok token'
    → named r'.username (serve between (authenticate env r w).1).users ≡ some user'
    → needs_code env' user' ≡ true
    → user'.id ≡ user.id
    → (k : ℤ) × (j : ℤ) × (second_factor env user r.otp ≡ some k)
      × (second_factor env' user' r'.otp ≡ some j)
      × (ltb_ℤ k j ≡ true)
authenticate_no_replay env env' r r' between w token token' user user' first known needed second
      known' needed' one =
    let w1 = (authenticate env r w).1 in
    let w2 = serve between w1 in
    let (k, right, spent) = authenticate-spends env r w token user first known needed in
    let (j, right', spent') = authenticate-spends env' r' w2 token' user' second known' needed' in
    let (row, found, read, stored) = commit-counter user k w.users w1.users spent in
    let start : HasSpent user.id k w1.users =
      (with_counter k row, stored user.id ∙ rw (refl_id user.id) refl, ltb_ℤ-irreflexive k) in
    let (held, there, above) = serve-HasSpent between w1 user.id k start in
    let (row', found', read', stored') =
      commit-counter user' j w2.users (authenticate env' r' w2).1.users spent' in
    let its : some row' ≡ some held = sym found' ∙ ap (λ i. lookup i w2.users) one ∙ there in
    let counted : held.mfa_last_counter ≡ user'.mfa_last_counter = ground (arith, its, read') in
    let not_below : ltb_ℤ user'.mfa_last_counter k ≡ false =
      ap (λ c. ltb_ℤ c k) (sym counted) ∙ above in
    (
      k,
      j,
      right,
      right',
      ltb_ℤ-le_lt k user'.mfa_last_counter j not_below
          (second_factor-fresh env' user' r'.otp j right'),
    )
  where
    refl_id : (i : ℕ) → nat_beq i i ≡ true
    refl_id i = (nat_beq_iff i i).1 refl

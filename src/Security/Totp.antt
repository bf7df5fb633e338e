-- ===== src/Security/Totp.antt =====
-- One-time passwords: which codes `verify_totp` accepts.
use lab_gpu_server_monitor.Prelude.{
  ℕ, ◌+◌, ◌/◌, ◌≡◌, ◌⊎◌, inl, inr, true, some, List, [], ◌∷◌, length, all, Text, text_eq, arith,
  nat_eq, Bool-cases,
}
use lab_gpu_server_monitor.Prelude.Int.{ℤ, pos, before, ltb_ℤ}
use lab_gpu_server_monitor.RateLimit.{second}
use lab_gpu_server_monitor.Security.{Crypto, verify_totp, first_accepted, totp_accepts, is_digit}

abbrev Among : ℤ → List ℤ → Type 0
Among k [] = ⊥
Among k (j ∷ js) = (k ≡ j) ⊎ Among k js

-- The time steps that a code may belong to: the current one, and one to each side.
abbrev pub window_of : ℕ → List ℤ
window_of now =
    let current = now / second / 30 in pos current ∷ before current ∷ pos (current + 1) ∷ []

-- What an accepted code is: the six digits of a time step next to the current one, which is later
-- than every step that was accepted before.
pub record IsAccepted (c : Crypto) (now : ℕ) (secret code : Text) (last k : ℤ) : Type 0 where
  pub fresh : ltb_ℤ last k ≡ true
  pub right : c.totp_at secret k ≡ code
  pub six : length code ≡ 6
  pub digits : all is_digit code ≡ true
  pub near : Among k (window_of now)

module _ (c : Crypto) (secret code : Text) (last : ℤ) where
  totp_accepts_sound :
      (k : ℤ)
      → totp_accepts c secret code last k ≡ true
      → (ltb_ℤ last k ≡ true) × (c.totp_at secret k ≡ code)
  totp_accepts_sound k h = ground (arith, text_eq.beq_iff (c.totp_at secret k) code)

  first_accepted_sound :
      (ks : List ℤ) (k : ℤ)
      → first_accepted c secret code last ks ≡ some k
      → (totp_accepts c secret code last k ≡ true) × Among k ks
  unfolding first_accepted
  first_accepted_sound [] k h = absurd (ground arith)
  first_accepted_sound (j ∷ ks) k h = elim (Bool-cases (totp_accepts c secret code last j)) [
    | inl yes_j ↦ (ground arith, inl (ground arith))
    | inr no_j ↦ let (a, b) = first_accepted_sound ks k (ground arith) in (a, inr b)
  ]

  first_accepted_complete :
      (ks : List ℤ) (k : ℤ)
      → totp_accepts c secret code last k ≡ true
      → Among k ks
      → (j : ℤ) × (first_accepted c secret code last ks ≡ some j)
  unfolding first_accepted
  first_accepted_complete [] k h m = elim m [ ]
  first_accepted_complete (j ∷ ks) k h (inl e) = (k, ground arith)
  first_accepted_complete (j ∷ ks) k h (inr m) =
      let (i, found) = first_accepted_complete ks k h m in
      elim (Bool-cases (totp_accepts c secret code last j)) [
        | inl this ↦ (j, ground arith)
        | inr other ↦ (i, ground arith)
      ]

  guards :
      (now : ℕ) (k : ℤ)
      → verify_totp c now secret code last ≡ some k
      → (length code ≡ 6)
        × (all is_digit code ≡ true)
        × (first_accepted c secret code last (window_of now) ≡ some k)
  unfolding verify_totp
  guards now k h = ground arith

  unguarded :
      (now : ℕ) (j : ℤ)
      → length code ≡ 6
      → all is_digit code ≡ true
      → first_accepted c secret code last (window_of now) ≡ some j
      → verify_totp c now secret code last ≡ some j
  unfolding verify_totp
  unguarded now j six digits found = ground arith

  -- A code that is accepted is the right code of a fresh time step next to the current one.
  pub verify_totp_sound :
      (now : ℕ) (k : ℤ)
      → verify_totp c now secret code last ≡ some k
      → IsAccepted c now secret code last k
  verify_totp_sound now k h =
      let (six, digits, found) = guards now k h in
      let (accepted, near) = first_accepted_sound (window_of now) k found in
      let (fresh, right) = totp_accepts_sound k accepted in
      record { fresh = fresh; right = right; six = six; digits = digits; near = near }

  -- Where there is such a time step the code is accepted, for it or for another one.
  pub verify_totp_complete :
      (now : ℕ) (k : ℤ)
      → IsAccepted c now secret code last k
      → (j : ℤ) × (verify_totp c now secret code last ≡ some j)
        × IsAccepted c now secret code last j
  verify_totp_complete now k h =
      let passes : totp_accepts c secret code last k ≡ true =
        ground (arith, text_eq.beq_iff (c.totp_at secret k) code, h.fresh, h.right) in
      let (j, found) = first_accepted_complete (window_of now) k passes h.near in
      let answer : verify_totp c now secret code last ≡ some j =
        unguarded now j h.six h.digits found in
      (j, answer, verify_totp_sound now j answer)

-- ===== src/Prelude/Decimal.antt =====
-- `str(n)` of a natural number, and what separates two numbers that a colon ends.
use Prim.Native.Nat.{ℕ, zero, suc, ◌+◌, ◌-◌, ◌*◌, ◌/◌, ◌%◌, ◌≤◌, ◌<◌}
use mathlib.Core.Path.{◌≡◌, refl, sym, ap, ◌∙◌}
use mathlib.Core.Logic.{inl, inr}
use mathlib.Core.Bool.{true}
use mathlib.Core.List.{[], ◌∷◌, ◌++◌}
use native.Mathlib.Omega.{arith}
use lab_gpu_server_monitor.Prelude.Tests.{ltb, if◌then◌else◌, Bool-cases}
use lab_gpu_server_monitor.Prelude.Texts.{Text, starts_with}
use lab_gpu_server_monitor.Prelude.Lists.{All, All-append}

-- The digits of a number below `10 ^ fuel`.
unfoldable pub digits : ℕ → ℕ → Text
digits zero n = []
digits (suc f) n =
    let rest = digits f (n / 10) in if ltb n 10 then (48 + n) ∷ [] else rest ++ (48 + n % 10) ∷ []

unfoldable pub decimal : ℕ → Text
unfolding digits
decimal n = digits (suc n) n

read_digits : ℕ → Text → ℕ
read_digits acc [] = acc
read_digits acc (c ∷ t) = read_digits (acc * 10 + (c - 48)) t

read_digits-append :
    (acc c : ℕ) (t : Text) → read_digits acc (t ++ c ∷ []) ≡ read_digits acc t * 10 + (c - 48)
unfolding read_digits
read_digits-append acc c [] = refl
read_digits-append acc c (d ∷ t) = read_digits-append (acc * 10 + (d - 48)) c t

read_digits-digits : (f n : ℕ) → n < f → read_digits 0 (digits f n) ≡ n
unfolding digits read_digits
read_digits-digits zero n h = absurd (omega arith)
read_digits-digits (suc f) n h =
    let ih = read_digits-digits f (n / 10) in
    let last = read_digits-append 0 (48 + n % 10) (digits f (n / 10)) in ground (arith, ih, last)

-- Different numbers are written differently.
pub decimal_inj : (n m : ℕ) → decimal n ≡ decimal m → n ≡ m
unfolding decimal
decimal_inj n m e =
    sym (read_digits-digits (suc n) n (omega arith))
    ∙ ap (read_digits 0) e
    ∙ read_digits-digits (suc m) m (omega arith)

abbrev pub IsDigit : ℕ → Type 0
IsDigit c = (48 ≤ c) × (c < 58)

digits-IsDigit : (f n : ℕ) → All IsDigit (digits f n)
unfolding digits
digits-IsDigit zero n = tt
digits-IsDigit (suc f) n = elim (Bool-cases (ltb n 10)) [
  | inl small ↦ ground arith
  | inr large ↦
      let rest =
        All-append IsDigit (digits f (n / 10)) ((48 + n % 10) ∷ []) (digits-IsDigit f (n / 10))
          (omega arith) in
      rw large rest
]

pub decimal-IsDigit : (n : ℕ) → All IsDigit (decimal n)
unfolding decimal
decimal-IsDigit n = digits-IsDigit (suc n) n

prefix-colon :
    (p q t : Text)
    → All IsDigit p
    → All IsDigit q
    → starts_with (p ++ 58 ∷ []) (q ++ 58 ∷ t) ≡ true
    → p ≡ q
unfolding starts_with
prefix-colon [] [] t hp hq h = refl
prefix-colon [] (d ∷ q) t hp hq h = absurd (ground arith)
prefix-colon (c ∷ p) [] t hp hq h = absurd (ground arith)
prefix-colon (c ∷ p) (d ∷ q) t hp hq h = ground (arith, prefix-colon p q t hp.1 hq.1)

-- `f"{n}:…"` starts with `f"{m}:"` for `m` alone.
pub decimal-prefix :
    (m n : ℕ) (t : Text) → starts_with (decimal m ++ 58 ∷ []) (decimal n ++ 58 ∷ t) ≡ true → m ≡ n
unfolding decimal
decimal-prefix m n t h = decimal_inj m n (
    prefix-colon (digits (suc m) m) (digits (suc n) n) t (digits-IsDigit (suc m) m)
      (digits-IsDigit (suc n) n) h)

-- A text starts with its own beginning.
pub starts_with-append : (p s : Text) → starts_with p (p ++ s) ≡ true
unfolding starts_with
starts_with-append [] s = refl
starts_with-append (c ∷ p) s = ground (arith, starts_with-append p s)

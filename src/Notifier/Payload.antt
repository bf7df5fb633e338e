-- ===== src/Notifier/Payload.antt =====
-- JSON without what is inside its texts, for the payloads of backend/app/notifier.py; and the escaped
-- values in it.
pub mod Render
use lab_gpu_server_monitor.Prelude.{
  ℕ, zero, suc, ◌-◌, ◌/◌, ◌%◌, ◌≡◌, refl, ap, sym, ◌∙◌, Bool, true, false, not, ◌&&◌, ◌||◌, Option,
  none, some, List, [], ◌∷◌, ◌++◌, if◌then◌else◌, Text, codes, nat_beq, any, all, take, length,
  starts_with, arith, inl, inr, Bool-cases, Option-cases,
}
use mathlib.Core.List.{append_assoc}
use lab_gpu_server_monitor.Notifier.{
  escape, escape_char, hex_digit, replace_from, placeholder, render,
}

-- outside the quotes of a text, inside, and inside after a backslash
pub data Place : Type 0 where
  outside : Place
  inside : Place
  escaped : Place

-- what may follow a backslash in JSON
abbrev pub is_escape : ℕ → Bool
is_escape c = any (nat_beq c) (codes "\"\\/bfnrtu")

abbrev pub emit : ℕ → Option Text → Option Text
emit c none = none
emit c (some k) = some (c ∷ k)

-- What is left of a JSON text without what is inside its quotes; `none` where a backslash is
-- followed by what it may not be.
unfoldable pub skeleton : Place → Text → Option Text
skeleton place [] = some []
skeleton outside (c ∷ t) =
    let opened = skeleton inside t in
    let rest = skeleton outside t in if nat_beq c 34 then emit c opened else emit c rest
skeleton inside (c ∷ t) =
    let closed = skeleton outside t in
    let after = skeleton escaped t in
    let rest = skeleton inside t in
    if nat_beq c 34 then emit c closed else if nat_beq c 92 then after else rest
skeleton escaped (c ∷ t) = let rest = skeleton inside t in if is_escape c then rest else none

-- whether a pattern stands somewhere
unfoldable pub occurs : Text → Text → Bool
occurs pattern [] = false
occurs pattern (c ∷ t) = let later = occurs pattern t in starts_with pattern (c ∷ t) || later

-- neither a quote nor a backslash
abbrev pub is_plain : ℕ → Bool
is_plain c = not (nat_beq c 34) && not (nat_beq c 92)

pub plain-skeleton :
    (c : ℕ) (t : Text) → is_plain c ≡ true → skeleton inside (c ∷ t) ≡ skeleton inside t
unfolding skeleton
plain-skeleton c t h = ground (arith, h)

hex_digit-skeleton : (n : ℕ) (t : Text) → skeleton inside (hex_digit n ∷ t) ≡ skeleton inside t
hex_digit-skeleton n t = plain-skeleton (hex_digit n) t (ground arith)

escape_char-skeleton : (c : ℕ) (t : Text) → skeleton inside (escape_char c ++ t) ≡ skeleton inside t
unfolding skeleton
escape_char-skeleton c t = ground (
  arith,
  hex_digit-skeleton (c / 16) (hex_digit (c % 16) ∷ t),
  hex_digit-skeleton (c % 16) t,
  plain-skeleton c t,
)

-- An escaped value stays inside the quotes in which it stands.
pub escape-skeleton : (s rest : Text) → skeleton inside (escape s ++ rest) ≡ skeleton inside rest
unfolding escape
escape-skeleton [] rest = refl
escape-skeleton (c ∷ s) rest =
    ap (skeleton inside) (append_assoc (escape_char c) (escape s) rest)
    ∙ escape_char-skeleton c (escape s ++ rest)
    ∙ escape-skeleton s rest

pub emit-some :
    (c : ℕ) (o : Option Text) (k : Text)
    → emit c o ≡ some k
    → (rest : Text) × (o ≡ some rest) × (k ≡ c ∷ rest)
emit-some c none k h = absurd (ground (arith, h))
emit-some c (some rest) k h = (rest, refl, ground (arith, h))

pub starts_with-skeleton :
    (p t k : Text)
    → all is_plain p ≡ true
    → starts_with p t ≡ true
    → skeleton outside t ≡ some k
    → starts_with p k ≡ true
unfolding starts_with skeleton
starts_with-skeleton [] t k plain h e = refl
starts_with-skeleton (c ∷ p) [] k plain h e = absurd (ground (arith, h))
starts_with-skeleton (c ∷ p) (d ∷ t) k plain h e =
    let other : nat_beq d 34 ≡ false = ground (arith, plain, h) in
    let (rest, more, same) = emit-some d (skeleton outside t) k (ground (arith, other, e)) in
    let deeper = starts_with-skeleton p t rest (ground (arith, plain)) (ground (arith, h)) more in
    rw same (ground (arith, h, deeper))

pub starts_with-take :
    (p t : Text)
    → all is_plain p ≡ true
    → starts_with p t ≡ true
    → all is_plain (take (length p) t) ≡ true
unfolding starts_with
starts_with-take [] t plain h = refl
starts_with-take (c ∷ p) [] plain h = refl
starts_with-take (c ∷ p) (d ∷ t) plain h = ground (arith, starts_with-take p t, plain, h)

pub occurs-now : (c : ℕ) (p k : Text) → starts_with (c ∷ p) k ≡ true → occurs (c ∷ p) k ≡ true
unfolding occurs starts_with
occurs-now c p [] h = absurd (ground (arith, h))
occurs-now c p (d ∷ k) h = ground (arith, h)

pub occurs-later : (p k : Text) (c : ℕ) → occurs p (c ∷ k) ≡ false → occurs p k ≡ false
unfolding occurs
occurs-later p k c h = ground (arith, h)

abbrev pub is_inside : Place → Bool
is_inside outside = false
is_inside inside = true
is_inside escaped = false

-- ===== src/Notifier/Payload/Render.antt =====
-- What `_render` of backend/app/notifier.py leaves of a template that is JSON: all that is outside
-- its texts.
use lab_gpu_server_monitor.Prelude.{
  ℕ, zero, suc, ◌≡◌, refl, ap, sym, ◌∙◌, Bool, true, false, not, ◌&&◌, ◌||◌, some, List, [], ◌∷◌,
  ◌++◌, Text, codes, nat_beq, all, take, length, starts_with, arith, inl, inr, Bool-cases,
}
use lab_gpu_server_monitor.Notifier.{escape, replace_from, placeholder, render}
use lab_gpu_server_monitor.Notifier.Payload.{
  Place, outside, inside, escaped, is_escape, skeleton, occurs, is_plain, plain-skeleton,
  escape-skeleton, emit-some, starts_with-skeleton, starts_with-take, occurs-now, occurs-later,
  is_inside,
}

brace-first :
    (p : Text) (c : ℕ) (t : Text)
    → starts_with (123 ∷ p) (c ∷ t) ≡ true
    → (c ≡ 123) × (starts_with p t ≡ true)
unfolding starts_with
brace-first p c t h = ground (arith, h)

escape-no_brace :
    (p : Text) (c : ℕ) (t : Text) → is_escape c ≡ true → starts_with (123 ∷ p) (c ∷ t) ≡ false
unfolding starts_with
escape-no_brace p c t h = ground (arith, h)

module _ (p v : Text) (plain : all is_plain p ≡ true) where
  -- what replaces a placeholder that stands inside quotes leaves the rest as it is
  replace_from-skeleton :
      (n : ℕ) (place : Place) (t k : Text)
      → (nat_beq n 0 || is_inside place) ≡ true
      → all is_plain (take n t) ≡ true
      → skeleton place t ≡ some k
      → occurs (123 ∷ p) k ≡ false
      → skeleton place (replace_from n (123 ∷ p) (escape v) t) ≡ some k
  unfolding replace_from skeleton
  replace_from-skeleton zero place [] k at skipped read free = read
  replace_from-skeleton (suc n) place [] k at skipped read free = read
  replace_from-skeleton (suc n) outside (c ∷ t) k at skipped read free = absurd (ground (arith, at))
  replace_from-skeleton (suc n) escaped (c ∷ t) k at skipped read free = absurd (ground (arith, at))
  replace_from-skeleton (suc n) inside (c ∷ t) k at skipped read free =
      replace_from-skeleton n inside t k (ground arith) (ground (arith, skipped))
        (sym (plain-skeleton c t (ground (arith, skipped))) ∙ read) free
  replace_from-skeleton zero outside (c ∷ t) k at skipped read free =
      elim (Bool-cases (starts_with (123 ∷ p) (c ∷ t))) [
        | inl here ↦
            let found =
              starts_with-skeleton (123 ∷ p) (c ∷ t) k (ground (arith, plain)) here read in
            absurd (ground (arith, occurs-now 123 p k found, free))
        | inr elsewhere ↦ elim (Bool-cases (nat_beq c 34)) [
          | inl quote ↦
              let (rest, more, same) =
                emit-some c (skeleton inside t) k (ground (arith, quote, read)) in
              let next =
                replace_from-skeleton zero inside t rest (ground arith) refl more
                  (occurs-later (123 ∷ p) rest c (ap (occurs (123 ∷ p)) (sym same) ∙ free)) in
              ground (arith, elsewhere, quote, next, same)
          | inr other ↦
              let (rest, more, same) =
                emit-some c (skeleton outside t) k (ground (arith, other, read)) in
              let next =
                replace_from-skeleton zero outside t rest (ground arith) refl more
                  (occurs-later (123 ∷ p) rest c (ap (occurs (123 ∷ p)) (sym same) ∙ free)) in
              ground (arith, elsewhere, other, next, same)
        ]
      ]
  replace_from-skeleton zero inside (c ∷ t) k at skipped read free =
      elim (Bool-cases (starts_with (123 ∷ p) (c ∷ t))) [
        | inl here ↦
            let (brace, after) = brace-first p c t here in
            let more = replace_from (length p) (123 ∷ p) (escape v) t in
            let next =
              replace_from-skeleton (length p) inside t k (ground (arith, at))
                (starts_with-take p t plain after)
                (sym (plain-skeleton c t (ground (arith, brace))) ∙ read) free in
            ground (arith, here, escape-skeleton v more, next)
        | inr elsewhere ↦ elim (Bool-cases (nat_beq c 34)) [
          | inl quote ↦
              let (rest, more, same) =
                emit-some c (skeleton outside t) k (ground (arith, quote, read)) in
              let next =
                replace_from-skeleton zero outside t rest (ground arith) refl more
                  (occurs-later (123 ∷ p) rest c (ap (occurs (123 ∷ p)) (sym same) ∙ free)) in
              ground (arith, elsewhere, quote, next, same)
          | inr other ↦ elim (Bool-cases (nat_beq c 92)) [
            | inl slash ↦
                let next =
                  replace_from-skeleton zero escaped t k (ground arith) refl
                    (ground (arith, other, slash, read)) free in
                ground (arith, elsewhere, other, slash, next)
            | inr simple ↦
                let next =
                  replace_from-skeleton zero inside t k (ground arith) refl
                    (ground (arith, other, simple, read)) free in
                ground (arith, elsewhere, other, simple, next)
          ]
        ]
      ]
  replace_from-skeleton zero escaped (c ∷ t) k at skipped read free =
      elim (Bool-cases (is_escape c)) [
        | inr bad ↦ absurd (ground (arith, bad, read))
        | inl allowed ↦
            let elsewhere : starts_with (123 ∷ p) (c ∷ t) ≡ false = escape-no_brace p c t allowed in
            let next =
              replace_from-skeleton zero inside t k (ground arith) refl
                (ground (arith, allowed, read)) free in
            ground (arith, elsewhere, allowed, next)
      ]

-- whether a key's placeholder stands inside texts only, and has no quote and no backslash
abbrev pub stays_inside : Text → Text × Text → Bool
stays_inside k (key, value) = all is_plain (placeholder key) && not (occurs (placeholder key) k)

-- No value breaks out of its place in the payload: of a template that opens and closes its texts as
-- JSON does and has the keys' placeholders inside texts only, where no key has a quote or a
-- backslash, the rendered payload has the same outside its texts, whatever the values are.
pub render-skeleton :
    (ctx : List (Text × Text)) (template k : Text)
    → skeleton outside template ≡ some k
    → all (stays_inside k) ctx ≡ true
    → skeleton outside (render template ctx) ≡ some k
unfolding render
render-skeleton [] template k read held = read
render-skeleton ((key, value) ∷ ctx) template k read held =
    let next =
      replace_from-skeleton (123 ∷ (key ++ codes "}}")) value (ground (arith, held)) zero outside
        template k (ground arith) refl read (ground (arith, held)) in
    render-skeleton ctx (replace_from 0 (placeholder key) (escape value) template) k next
      (ground (arith, held))

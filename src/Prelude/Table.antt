-- ===== src/Prelude/Table.antt =====
-- Python dictionaries, as association lists in insertion order.
pub mod Eviction
use Prim.Native.Nat.{ℕ, suc, ◌+◌, ◌≤◌}
use mathlib.Core.Path.{◌≡◌, refl}
use mathlib.Core.Logic.{◌⊎◌, inl, inr}
use mathlib.Core.Bool.{Bool, true, false, not}
use mathlib.Core.List.{List, [], ◌∷◌, ◌++◌, map}
use mathlib.Core.Option.{Option, none, some}
use native.Mathlib.Omega.{arith}
use lab_gpu_server_monitor.Prelude.Tests.{Eq, ◌==◌, if◌then◌else◌, beq_refl}
use lab_gpu_server_monitor.Prelude.Lists.{length, keep}

module _ {ℓ κ} {K : Type ℓ} {V : Type κ} ⦃e : Eq K⦄ where
  -- `d.get(k)`
  abbrev pub lookup : K → List (K × V) → Option V
  lookup k [] = none
  lookup k ((j, v) ∷ d) = if j == k then some v else lookup k d

  -- `k in d`
  abbrev pub contains : K → List (K × V) → Bool
  contains k d = elim (lookup k d) [ none ↦ false | some _ ↦ true ]

  -- `d[k] = v`: a key that is there keeps its place
  abbrev pub insert : K → V → List (K × V) → List (K × V)
  insert k v [] = (k, v) ∷ []
  insert k v ((j, w) ∷ d) = if j == k then (j, v) ∷ d else (j, w) ∷ insert k v d

  -- `d.pop(k, None)`
  abbrev pub erase : K → List (K × V) → List (K × V)
  erase k [] = []
  erase k ((j, w) ∷ d) = if j == k then d else (j, w) ∷ erase k d

  -- no key occurs twice, as in every Python dictionary
  abbrev pub IsDict : List (K × V) → Type κ
  IsDict [] = Unit
  IsDict ((k, v) ∷ d) = (lookup k d ≡ none) × IsDict d

  pub lookup-insert :
      (k j : K) (v : V) (d : List (K × V))
      → lookup j (insert k v d) ≡ (if k == j then some v else lookup j d)
  lookup-insert k j v [] = refl
  lookup-insert k j v ((i, w) ∷ d) =
      ground (arith, e.beq_iff k j, e.beq_iff i k, e.beq_iff i j, lookup-insert k j v d)

  pub lookup-erase_ne :
      (k j : K) (d : List (K × V)) → (k == j) ≡ false → lookup j (erase k d) ≡ lookup j d
  lookup-erase_ne k j [] h = refl
  lookup-erase_ne k j ((i, w) ∷ d) h =
      ground (arith, e.beq_iff k j, e.beq_iff i k, e.beq_iff i j, lookup-erase_ne k j d h)

  pub lookup-erase_self : (k : K) (d : List (K × V)) → IsDict d → lookup k (erase k d) ≡ none
  lookup-erase_self k [] h = refl
  lookup-erase_self k ((i, w) ∷ d) h = ground (arith, e.beq_iff i k, lookup-erase_self k d h.1)

  pub length-insert-le : (k : K) (v : V) (d : List (K × V)) → length (insert k v d) ≤ length d + 1
  length-insert-le k v [] = omega arith
  length-insert-le k v ((j, w) ∷ d) = ground (arith, length-insert-le k v d)

  pub length-erase-le : (k : K) (d : List (K × V)) → length (erase k d) ≤ length d
  length-erase-le k [] = omega arith
  length-erase-le k ((j, w) ∷ d) = ground (arith, length-erase-le k d)

  -- A key that is found is one entry fewer after `pop`.
  pub length-erase :
      (k : K) (d : List (K × V)) (v : V) → lookup k d ≡ some v → length (erase k d) + 1 ≡ length d
  length-erase k [] v h = cc
  length-erase k ((j, w) ∷ d) v h = ground (arith, length-erase k d v)

  pub lookup-append :
      (j : K) (c d : List (K × V))
      → lookup j (c ++ d) ≡ elim (lookup j c) [ some v ↦ some v | none ↦ lookup j d ]
  lookup-append j [] d = refl
  lookup-append j ((i, w) ∷ c) d = ground (arith, lookup-append j c d)

  pub insert-IsDict : (k : K) (v : V) (d : List (K × V)) → IsDict d → IsDict (insert k v d)
  insert-IsDict k v [] h = (refl, tt)
  insert-IsDict k v ((i, w) ∷ d) h =
      ground (arith, e.beq_iff i k, e.beq_iff k i, lookup-insert k i v d, insert-IsDict k v d h.1)

  pub lookup-erase-none :
      (k j : K) (d : List (K × V)) → lookup j d ≡ none → lookup j (erase k d) ≡ none
  lookup-erase-none k j [] h = refl
  lookup-erase-none k j ((i, w) ∷ d) h = ground (arith, lookup-erase-none k j d)

  pub erase-IsDict : (k : K) (d : List (K × V)) → IsDict d → IsDict (erase k d)
  erase-IsDict k [] h = tt
  erase-IsDict k ((i, w) ∷ d) h = ground (arith, lookup-erase-none k i d h.0, erase-IsDict k d h.1)

  pub append-IsDict :
      (k : K) (v : V) (d : List (K × V)) → lookup k d ≡ none → IsDict d → IsDict (d ++ (k, v) ∷ [])
  append-IsDict k v [] n h = (refl, tt)
  append-IsDict k v ((i, w) ∷ d) n h = ground (
    arith,
    e.beq_iff i k,
    e.beq_iff k i,
    lookup-append i d ((k, v) ∷ []),
    append-IsDict k v d,
    h.0,
    h.1,
  )

  pub lookup-keep-none :
      (j : K) (p : K × V → Bool) (d : List (K × V)) → lookup j d ≡ none → lookup j (keep p d) ≡ none
  lookup-keep-none j p [] h = refl
  lookup-keep-none j p ((i, w) ∷ d) h = ground (arith, lookup-keep-none j p d)

  pub keep-IsDict : (p : K × V → Bool) (d : List (K × V)) → IsDict d → IsDict (keep p d)
  keep-IsDict p [] h = tt
  keep-IsDict p ((i, w) ∷ d) h = ground (arith, lookup-keep-none i p d h.0, keep-IsDict p d h.1)

  -- Filtering a dictionary shows at each key what was there, or nothing.
  pub lookup-keep :
      (j : K) (p : K × V → Bool) (d : List (K × V))
      → IsDict d
      → (lookup j (keep p d) ≡ lookup j d) ⊎ (lookup j (keep p d) ≡ none)
  lookup-keep j p [] h = inl refl
  lookup-keep j p ((i, w) ∷ d) h = ground (arith, e.beq_iff i j, lookup-keep j p d h.1, h.0)

  pub lookup-keep-some :
      (k : K) (v : V) (p : K × V → Bool) (d : List (K × V))
      → lookup k d ≡ some v
      → p (k, v) ≡ true
      → lookup k (keep p d) ≡ some v
  lookup-keep-some k v p [] h pass = cc
  lookup-keep-some k v p ((i, w) ∷ d) h pass =
      ground (arith, e.beq_iff i k, lookup-keep-some k v p d)

  -- A filter by the key alone.
  pub lookup-keep_key :
      (j : K) (p : K → Bool) (d : List (K × V))
      → lookup j (keep (λ b. p b.0) d) ≡ (if p j then lookup j d else none)
  lookup-keep_key j p [] = ground arith
  lookup-keep_key j p ((i, w) ∷ d) = ground (arith, e.beq_iff i j, lookup-keep_key j p d)

  -- A new key goes to the end.
  pub insert_new :
      (k : K) (v : V) (d : List (K × V)) → lookup k d ≡ none → insert k v d ≡ d ++ (k, v) ∷ []
  insert_new k v [] h = refl
  insert_new k v ((i, w) ∷ d) h = ground (arith, insert_new k v d)

  -- A key that is there keeps the number of entries.
  pub length-insert_old :
      (k : K) (v w : V) (d : List (K × V)) → lookup k d ≡ some w → length (insert k v d) ≡ length d
  length-insert_old k v w [] h = cc
  length-insert_old k v w ((i, u) ∷ d) h = ground (arith, length-insert_old k v w d)

  pub insert-insert :
      (k : K) (v w : V) (d : List (K × V)) → insert k v (insert k w d) ≡ insert k v d
  insert-insert k v w [] = ground (arith, e.beq_iff k k)
  insert-insert k v w ((i, u) ∷ d) = ground (arith, insert-insert k v w d)

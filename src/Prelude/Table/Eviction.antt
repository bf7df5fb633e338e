-- ===== src/Prelude/Table/Eviction.antt =====
-- `while len(d) > n`: drop the oldest entry.
use Prim.Native.Nat.{ℕ, ◌≤◌, ◌<◌}
use mathlib.Core.Path.{◌≡◌, refl}
use mathlib.Core.Logic.{◌⊎◌, inl}
use mathlib.Core.List.{List, [], ◌∷◌, ◌++◌}
use mathlib.Core.Option.{none, some}
use native.Mathlib.Omega.{arith}
use lab_gpu_server_monitor.Prelude.Tests.{Eq, if◌then◌else◌, beq_refl, ltb}
use lab_gpu_server_monitor.Prelude.Lists.{length}
use lab_gpu_server_monitor.Prelude.Table.{lookup, IsDict, lookup-append}

module _ {ℓ} {A : Type ℓ} where
  unfoldable pub drop_oldest : ℕ → List A → List A
  drop_oldest n [] = []
  drop_oldest n (x ∷ xs) = if ltb n (length (x ∷ xs)) then drop_oldest n xs else x ∷ xs

  pub length-drop_oldest-le : (n : ℕ) (xs : List A) → length (drop_oldest n xs) ≤ n
  unfolding drop_oldest
  length-drop_oldest-le n [] = omega arith
  length-drop_oldest-le n (x ∷ xs) = ground (arith, length-drop_oldest-le n xs)

  pub drop_oldest-fits : (n : ℕ) (xs : List A) → length xs ≤ n → drop_oldest n xs ≡ xs
  unfolding drop_oldest
  drop_oldest-fits n [] h = refl
  drop_oldest-fits n (x ∷ xs) h = ground arith

module _ {ℓ κ} {K : Type ℓ} {V : Type κ} ⦃e : Eq K⦄ (n : ℕ) where
  pub drop_oldest-IsDict : (d : List (K × V)) → IsDict d → IsDict (drop_oldest n d)
  unfolding drop_oldest
  drop_oldest-IsDict [] h = tt
  drop_oldest-IsDict (b ∷ d) h = ground (arith, drop_oldest-IsDict d h.1)

  -- Each key shows what it showed before, or nothing.
  pub lookup-drop_oldest :
      (j : K) (d : List (K × V))
      → IsDict d
      → (lookup j (drop_oldest n d) ≡ lookup j d) ⊎ (lookup j (drop_oldest n d) ≡ none)
  unfolding drop_oldest
  lookup-drop_oldest j [] h = inl refl
  lookup-drop_oldest j ((i, w) ∷ d) h =
      ground (arith, e.beq_iff i j, lookup-drop_oldest j d h.1, h.0)

  -- The newest entry stays.
  pub lookup-drop_oldest_last :
      (k : K) (v : V) (d : List (K × V))
      → 0 < n
      → lookup k d ≡ none
      → lookup k (drop_oldest n (d ++ (k, v) ∷ [])) ≡ some v
  unfolding drop_oldest
  lookup-drop_oldest_last k v [] pos h = ground (arith, beq_refl k)
  lookup-drop_oldest_last k v ((i, w) ∷ d) pos h =
      ground (arith, beq_refl k, lookup-append k d ((k, v) ∷ []), lookup-drop_oldest_last k v d pos)

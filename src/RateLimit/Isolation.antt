-- ===== src/RateLimit/Isolation.antt =====
-- Sources do not lock each other out: what a failed or successful login does to the other
-- sources and accounts.
use lab_gpu_server_monitor.Prelude.{
  ℕ, ◌≡◌, ◌≢◌, refl, ◌⊎◌, inl, inr, true, false, none, [], ◌∷◌, ◌++◌, arith, All, Text, text_eq,
  text_beq, ◌==◌, Bool-cases,
}
use lab_gpu_server_monitor.Prelude.Table.{
  lookup, erase, IsDict, lookup-erase_ne, lookup-append, lookup-keep,
}
use lab_gpu_server_monitor.Prelude.Table.Eviction.{lookup-drop_oldest, drop_oldest-IsDict}
use lab_gpu_server_monitor.RateLimit.{
  max_buckets, Counter, Buckets, Limiter, max_failures_ip, max_failures_pair, hit, bounded,
  counter_or_new, record_one, drop_stale, record_failure, pair_key, ip_key, locked_for, check,
}
use lab_gpu_server_monitor.RateLimit.Counters.{IsValid, moved-IsDict}

-- A text that no NUL stands in, such as every address.
abbrev pub HasNoNul : Text → Type 0
HasNoNul = All (λ c. c ≢ 0)

-- The two parts of a pair's key can be read back from it.
pair_parts :
    (a b u v : Text) → HasNoNul a → HasNoNul b → a ++ (0 ∷ u) ≡ b ++ (0 ∷ v) → (a ≡ b) × (u ≡ v)
pair_parts [] [] u v ha hb h = (refl, ground arith)
pair_parts [] (y ∷ b) u v ha hb h = absurd (ground arith)
pair_parts (x ∷ a) [] u v ha hb h = absurd (ground arith)
pair_parts (x ∷ a) (y ∷ b) u v ha hb h =
    let (p, q) = pair_parts a b u v ha.1 hb.1 (ground arith) in (ground arith, q)

pub ip_key_ne : (a b : Text) → a ≢ b → (ip_key a == ip_key b) ≡ false
unfolding text_beq
ip_key_ne a b h = ground (arith, text_eq.beq_iff a b)

pub pair_key_ne :
    (casefold : Text → Text) (a b u v : Text)
    → HasNoNul a
    → HasNoNul b
    → ¬ ((a ≡ b) × (casefold u ≡ casefold v))
    → (pair_key casefold a u == pair_key casefold b v) ≡ false
unfolding text_beq
pair_key_ne casefold a b u v ha hb h =
    elim (Bool-cases (text_beq (a ++ (0 ∷ casefold u)) (b ++ (0 ∷ casefold v)))) [
      | inl same ↦
          absurd (h (pair_parts a b (casefold u) (casefold v) ha hb ((text_eq.beq_iff _ _).0 same)))
      | inr differ ↦ differ
    ]

-- What `key` shows in the second dictionary is what it shows in the first one, or nothing.
abbrev Kept : Text → Buckets → Buckets → Type 0
Kept j t t' = (lookup j t' ≡ lookup j t) ⊎ (lookup j t' ≡ none)

Kept-trans : (j : Text) (t u v : Buckets) → Kept j t u → Kept j u v → Kept j t v
Kept-trans j t u v p q = ground arith

lookup-moved :
    (k j : Text) (c : Counter) (t : Buckets)
    → (k == j) ≡ false
    → lookup j (erase k t ++ (k, c) ∷ []) ≡ lookup j t
lookup-moved k j c t ne =
    ground (arith, lookup-append j (erase k t) ((k, c) ∷ []), lookup-erase_ne k j t ne)

-- One dictionary after a failure, at another key.
record_one-Kept :
    (n now : ℕ) (k j : Text) (t : Buckets)
    → IsDict t
    → (k == j) ≡ false
    → Kept j t (drop_stale now (record_one n now k t))
unfolding record_one drop_stale
record_one-Kept n now k j t h ne =
    let c = hit n now (counter_or_new (lookup k t)) in
    let u = erase k t ++ (k, c) ∷ [] in
    let d = moved-IsDict k c t h in
    Kept-trans j t u _ (inl (lookup-moved k j c t ne)) (
      Kept-trans j u (bounded u) _ (lookup-drop_oldest max_buckets j u d)
        (lookup-keep j _ _ (drop_oldest-IsDict max_buckets u d)))

locked_for-Kept :
    (now : ℕ) (j : Text) (t t' : Buckets)
    → Kept j t t'
    → locked_for now (lookup j t) ≡ none
    → locked_for now (lookup j t') ≡ none
unfolding locked_for
locked_for-Kept now j t t' (inl same) h = rw same h
locked_for-Kept now j t t' (inr gone) h = rw gone

-- A failed login from one source takes away no other source's admission, whatever the accounts:
-- nobody can lock an account out from an address other than their own. The limiter is well formed
-- and the two addresses have no NUL character.
pub check-record_failure_other :
    (casefold : Text → Text) (now later : ℕ) (ip other user account : Text) (l : Limiter)
    → IsValid l
    → HasNoNul ip
    → HasNoNul other
    → ip ≢ other
    → check casefold later other account l ≡ (true, 0)
    → check casefold later other account (record_failure casefold now ip user l) ≡ (true, 0)
unfolding check record_failure
check-record_failure_other casefold now later ip other user account l v hi ho ne h = ground (
  arith,
  locked_for-Kept later (ip_key other) l.by_ip _ (
      record_one-Kept max_failures_ip now (ip_key ip) (ip_key other) l.by_ip v.ips.distinct
        (ip_key_ne ip other ne)),
  locked_for-Kept later (pair_key casefold other account) l.by_pair _ (
      record_one-Kept max_failures_pair now (pair_key casefold ip user)
        (pair_key casefold other account) l.by_pair v.pairs.distinct
        (pair_key_ne casefold ip other user account hi ho (λ e. ne e.0))),
)

-- ===== src/Cache/Memory.antt =====
-- The process-local backend: what is read back, its bound, and invalidation by prefix.
use lab_gpu_server_monitor.Prelude.{
  ℕ, ◌+◌, ◌≤◌, ◌≡◌, ◌∙◌, ◌⊎◌, inl, inr, Bool, true, false, not, ◌||◌, Option, none, some, List, [],
  ◌∷◌, ◌++◌, ltb, leb, if◌then◌else◌, length, keep, length-keep-le, arith, Text, text_eq,
  starts_with, ◌==◌, Bool-cases, Option-cases, beq_refl,
}
use lab_gpu_server_monitor.Prelude.Table.{
  lookup, insert, IsDict, lookup-insert, length-erase-le, insert-IsDict, erase-IsDict, keep-IsDict,
  lookup-keep-none, lookup-keep, lookup-keep-some, lookup-keep_key, insert_new, length-insert_old,
}
use lab_gpu_server_monitor.Prelude.Table.Eviction.{
  drop_oldest, length-drop_oldest-le, drop_oldest-IsDict, drop_oldest-fits, lookup-drop_oldest,
  lookup-drop_oldest_last,
}
use lab_gpu_server_monitor.Cache.{Entries, Backend, max_entries, get, set, live, invalidate_prefix}

-- No key twice, and no more entries than the limit.
pub record IsValid {ℓ} {V : Type ℓ} (m : Backend V) : Type ℓ where
  pub distinct : IsDict m.entries
  pub size : length m.entries ≤ max_entries

keep-last {ℓ} :
    {A : Type ℓ} (p : A → Bool) (xs : List A) (x : A)
    → p x ≡ true
    → keep p (xs ++ x ∷ []) ≡ keep p xs ++ x ∷ []
keep-last p [] x h = rw h
keep-last p (y ∷ xs) x h = ground (arith, keep-last p xs x h)

module _ {ℓ} {V : Type ℓ} where
  -- After any write the backend is within its bound, and no key is there twice.
  pub set-IsValid :
      (now : ℕ) (key : Text) (value : Option V) (ttl : ℕ) (m : Backend V)
      → IsDict m.entries
      → IsValid (set now key value ttl m)
  unfolding set
  set-IsValid now key value ttl m h =
      let d = insert key (now + ttl, value) m.entries in
      let hd = insert-IsDict key (now + ttl, value) m.entries h in
      elim (Bool-cases (leb m.next_sweep now || ltb max_entries (length d))) [
        | inl sweep ↦ rw sweep (record {
          distinct =
              drop_oldest-IsDict max_entries (keep (live now) d) (keep-IsDict (live now) d hd);
          size = length-drop_oldest-le max_entries (keep (live now) d);
        })
        | inr rest ↦ rw rest (record { distinct = hd; size = ground arith })
      ]

  pub get-IsValid : (now : ℕ) (key : Text) (m : Backend V) → IsValid m → IsValid (get now key m).1
  unfolding get
  get-IsValid now key m h = elim (Option-cases (lookup key m.entries)) [
    | inl missing ↦ rw (missing, get) h
    | inr ((expires, value), hit) ↦ elim (Bool-cases (ltb expires now)) [
      | inl old ↦
          rw (hit, old, get)
            (record {
              distinct = erase-IsDict key m.entries h.distinct;
              size = omega (arith, length-erase-le key m.entries, h.size);
            })
      | inr fresh ↦ rw (hit, fresh, get) h
    ]
  ]

  -- What `set` stores under its key survives its own sweep.
  lookup-swept :
      (now : ℕ) (key : Text) (value : Option V) (ttl : ℕ) (d : Entries V)
      → length d ≤ max_entries
      → lookup key (drop_oldest max_entries (keep (live now) (insert key (now + ttl, value) d)))
        ≡ some (now + ttl, value)
  lookup-swept now key value ttl d h = elim (Option-cases (lookup key d)) [
    | inl new ↦
        rw
          (
            insert_new key (now + ttl, value) d new,
            keep-last (live now) d (key, (now + ttl, value)) (ground arith),
          )
          (lookup-drop_oldest_last max_entries key (now + ttl, value) (keep (live now) d)
            (omega arith) (lookup-keep-none key (live now) d new))
    | inr (w, old) ↦
        let d' = insert key (now + ttl, value) d in
        rw
          (drop_oldest-fits max_entries (keep (live now) d') (
            omega (
              arith,
              length-keep-le (live now) d',
              length-insert_old key (now + ttl, value) w d old,
            )))
          (lookup-keep-some key (now + ttl, value) (live now) d'
            (lookup-insert key key (now + ttl, value) d ∙ rw beq_refl) (ground arith))
  ]

  lookup-set_self :
      (now : ℕ) (key : Text) (value : Option V) (ttl : ℕ) (m : Backend V)
      → length m.entries ≤ max_entries
      → lookup key (set now key value ttl m).entries ≡ some (now + ttl, value)
  unfolding set
  lookup-set_self now key value ttl m h = ground (
    arith,
    lookup-swept now key value ttl m.entries h,
    lookup-insert key key (now + ttl, value) m.entries,
    beq_refl key,
  )

  -- A value that was written is read back until its time to live is over, and then never again,
  -- though the cache be full.
  pub get-set_self :
      (now later : ℕ) (key : Text) (value : Option V) (ttl : ℕ) (m : Backend V)
      → IsValid m
      → now ≤ later
      → (get later key (set now key value ttl m)).0
        ≡ (if leb later (now + ttl) then value else none)
  unfolding get
  get-set_self now later key value ttl m h le =
      ground (arith, lookup-set_self now key value ttl m h.size)

  lookup-set_ne :
      (now : ℕ) (key other : Text) (value : Option V) (ttl : ℕ) (m : Backend V)
      → IsDict m.entries
      → (key == other) ≡ false
      → (lookup other (set now key value ttl m).entries ≡ lookup other m.entries)
        ⊎ (lookup other (set now key value ttl m).entries ≡ none)
  unfolding set
  lookup-set_ne now key other value ttl m h ne =
      let d = insert key (now + ttl, value) m.entries in
      let hd = insert-IsDict key (now + ttl, value) m.entries h in
      ground (
        arith,
        lookup-insert key other (now + ttl, value) m.entries,
        lookup-keep other (live now) d hd,
        lookup-drop_oldest max_entries other (keep (live now) d) (keep-IsDict (live now) d hd),
      )

  -- A write under another key is never read in the place of a value: that is read as before, or
  -- as missing.
  pub get-set_ne :
      (now later : ℕ) (key other : Text) (value : Option V) (ttl : ℕ) (m : Backend V)
      → IsDict m.entries
      → (key == other) ≡ false
      → ((get later other (set now key value ttl m)).0 ≡ (get later other m).0)
        ⊎ ((get later other (set now key value ttl m)).0 ≡ none)
  unfolding get
  get-set_ne now later key other value ttl m h ne =
      elim (lookup-set_ne now key other value ttl m h ne) [
        | inl same ↦ inl (ground arith)
        | inr gone ↦ inr (ground arith)
      ]

  -- After an invalidation every key with the prefix reads as missing, and every other key as
  -- before.
  pub get-invalidate_prefix :
      (now : ℕ) (key prefix : Text) (m : Backend V)
      → (get now key (invalidate_prefix prefix m)).0
        ≡ (if starts_with prefix key then none else (get now key m).0)
  unfolding get invalidate_prefix
  get-invalidate_prefix now key prefix m =
      ground (arith, lookup-keep_key key (λ k. not (starts_with prefix k)) m.entries)

-- ===== src/Cache/Flight/Single.antt =====
-- Single flight: under every schedule a key has one leader at most, and is in flight exactly while
-- it has one.
use lab_gpu_server_monitor.Prelude.{
  ℕ, ◌≡◌, ◌≢◌, refl, ap, none, some, List, [], ◌∷◌, Text, text_eq, arith, beq_refl, inl, inr,
  Option-cases,
}
use lab_gpu_server_monitor.Prelude.Table.{
  lookup, insert, erase, IsDict, lookup-insert, lookup-erase_ne, lookup-erase_self, insert-IsDict,
  erase-IsDict,
}
use lab_gpu_server_monitor.Cache.Flight.{
  Flights, Phase, start, missed, leading, waiting, direct, found, missing, failed, returns, raises,
  Event, reply, lock, outcome, System, enter, advance, put_phase, step, run, no_calls,
}

free_list : (f : Flights) → ((k : Text) (t : ℕ) → lookup k f ≢ some t) → f ≡ []
free_list [] h = refl
free_list ((k, t) ∷ f) h = absurd (h k t (rw beq_refl))

module _ {ℓ} {V : Type ℓ} (key : ℕ → Text) where
  -- The map of leaders is exact.
  pub record IsExact (s : System V) : Type ℓ where
    pub distinct : IsDict s.flights
    pub listed_leads :
        (k : Text) (t : ℕ) → lookup k s.flights ≡ some t → (s.phase t ≡ leading) × (key t ≡ k)
    pub leader_listed : (t : ℕ) → s.phase t ≡ leading → lookup (key t) s.flights ≡ some t

  -- What a call that advances does to the map: it becomes the leader of a free key, leaves the key
  -- that it leads, or leaves the map alone and leads no more and no less than before.
  data Moves (t : ℕ) (p : Phase V) (f : Flights) (r : Phase V × Flights) : Type ℓ where
    takes :
        (p ≢ leading) → lookup (key t) f ≡ none → r ≡ (leading, insert (key t) t f) → Moves t p f r
    leaves : p ≡ leading → (r.0 ≢ leading) → r.1 ≡ erase (key t) f → Moves t p f r
    stays : (r.0 ≡ leading → p ≡ leading) → (p ≡ leading → r.0 ≡ leading) → r.1 ≡ f → Moves t p f r

  enter-Moves : (t : ℕ) (f : Flights) → Moves t missed f (enter t (key t) f)
  unfolding enter
  enter-Moves t f = elim (Option-cases (lookup (key t) f)) [
    | inl free ↦ takes (λ h. cc) free (rw (free, enter))
    | inr (u, busy) ↦ stays (λ h. absurd (ground arith)) (λ h. cc) (rw (busy, enter))
  ]

  advance-Moves :
      (t : ℕ) (p : Phase V) (e : Event V) (f : Flights) → Moves t p f (advance t (key t) p e f)
  unfolding advance
  advance-Moves t start (reply (found v)) f = stays (λ h. cc) (λ h. cc) refl
  advance-Moves t start (reply missing) f = stays (λ h. cc) (λ h. cc) refl
  advance-Moves t start (reply failed) f = stays (λ h. cc) (λ h. cc) refl
  advance-Moves t missed lock f = enter-Moves t f
  advance-Moves t leading (outcome (returns v)) f = leaves refl (λ h. cc) refl
  advance-Moves t leading (outcome raises) f = leaves refl (λ h. cc) refl
  advance-Moves t waiting (reply (found v)) f = stays (λ h. cc) (λ h. cc) refl
  advance-Moves t waiting (reply missing) f = stays (λ h. cc) (λ h. cc) refl
  advance-Moves t waiting (reply failed) f = stays (λ h. cc) (λ h. cc) refl
  advance-Moves t direct (outcome (returns v)) f = stays (λ h. cc) (λ h. cc) refl
  advance-Moves t direct (outcome raises) f = stays (λ h. cc) (λ h. cc) refl
  advance-Moves t p e f = stays (λ h. h) (λ h. h) refl

  Moves-IsExact :
      (t : ℕ) (s : System V) (r : Phase V × Flights)
      → IsExact s
      → Moves t (s.phase t) s.flights r
      → IsExact (record { phase = put_phase key t r.0 s.phase; flights = r.1 })
  Moves-IsExact t s r x (takes idle free e) = record {
    distinct = rw e (insert-IsDict (key t) t s.flights x.distinct);
    listed_leads = λ k u h. ground (
      arith,
      ap (λ q. q.0) e,
      ap (λ q. lookup k q.1) e,
      lookup-insert (key t) k t s.flights,
      text_eq.beq_iff (key t) k,
      x.listed_leads k u,
    );
    leader_listed = λ u h. ground (
      arith,
      ap (λ q. lookup (key u) q.1) e,
      lookup-insert (key t) (key u) t s.flights,
      text_eq.beq_iff (key t) (key u),
      x.leader_listed u,
    );
  }
  Moves-IsExact t s r x (leaves led done e) = record {
    distinct = rw e (erase-IsDict (key t) s.flights x.distinct);
    listed_leads = λ k u h. ground (
      arith,
      ap (λ q. lookup k q) e,
      lookup-erase_ne (key t) k s.flights,
      lookup-erase_self (key t) s.flights x.distinct,
      text_eq.beq_iff (key t) k,
      x.listed_leads k u,
    );
    leader_listed = λ u h. ground (
      arith,
      ap (λ q. lookup (key u) q) e,
      lookup-erase_ne (key t) (key u) s.flights,
      text_eq.beq_iff (key t) (key u),
      x.leader_listed u,
      x.leader_listed t led,
    );
  }
  Moves-IsExact t s r x (stays back forth e) = record {
    distinct = rw e x.distinct;
    listed_leads = λ k u h. ground (arith, ap (λ q. lookup k q) e, x.listed_leads k u);
    leader_listed = λ u h. ground (arith, ap (λ q. lookup (key u) q) e, x.leader_listed u);
  }

  run-IsExact : (es : List (ℕ × Event V)) (s : System V) → IsExact s → IsExact (run key es s)
  unfolding run step
  run-IsExact [] s x = x
  run-IsExact ((t, e) ∷ es) s x = run-IsExact es _ (
      Moves-IsExact t s (advance t (key t) (s.phase t) e s.flights) x
        (advance-Moves t (s.phase t) e s.flights))

  no_calls-IsExact : IsExact no_calls
  no_calls-IsExact = record { distinct = tt; listed_leads = λ k t h. cc; leader_listed = λ t h. cc }

  -- Under every schedule, replies and failures, two calls of one key never run `fn` as leaders at
  -- once.
  pub run-single_leader :
      (es : List (ℕ × Event V)) (t u : ℕ)
      → (run key es no_calls).phase t ≡ leading
      → (run key es no_calls).phase u ≡ leading
      → key t ≡ key u
      → t ≡ u
  run-single_leader es t u ht hu same =
      let x = run-IsExact es no_calls no_calls-IsExact in
      ground (arith, x.leader_listed t ht, x.leader_listed u hu)

  -- A key is never left in flight: whenever no call leads, also after `fn` has raised, nothing is.
  pub run-no_leak :
      (es : List (ℕ × Event V))
      → ((t : ℕ) → (run key es no_calls).phase t ≢ leading)
      → (run key es no_calls).flights ≡ []
  run-no_leak es idle =
      let x = run-IsExact es no_calls no_calls-IsExact in
      free_list _ (λ k t h. idle t (x.listed_leads k t h).0)

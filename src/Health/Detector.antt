-- ===== src/Health/Detector.antt =====
-- The life of a detector's event in backend/app/health.py: it is raised once, and a point event
-- expires.
use lab_gpu_server_monitor.Prelude.{
  ℕ, ◌≡◌, refl, inl, inr, Bool, true, false, not, ◌&&◌, ◌||◌, none, some, List, [], ◌∷◌, ◌++◌,
  if◌then◌else◌, Text, text_eq, nat_eq, beq_refl, find, keep, map, non_empty, arith, Option-cases,
}
use lab_gpu_server_monitor.Prelude.Decimal.{starts_with-append}
use lab_gpu_server_monitor.Alerts.Events.{Board, Notice, is_open, closed}
use lab_gpu_server_monitor.Health.{
  Report, fire, open_event, is_detector_event, contains_text, bracketed, keyed, is_expired,
  ttl_recover_point_events, detector_event,
}

contains_text-append : (part s : Text) → contains_text part (part ++ s) ≡ true
unfolding contains_text
contains_text-append [] [] = ground (arith, starts_with-append [] [])
contains_text-append [] (c ∷ s) = ground (arith, starts_with-append [] (c ∷ s))
contains_text-append (c ∷ p) s = ground (arith, starts_with-append (c ∷ p) s)

-- A message that is keyed contains its key in brackets.
keyed-contains :
    (key message : Text)
    → (not (non_empty key) || contains_text (bracketed key) (keyed key message)) ≡ true
keyed-contains [] message = refl
keyed-contains (c ∷ key) message = contains_text-append (bracketed (c ∷ key)) (b' ' ∷ message)

find-append {ℓ} :
    {A : Type ℓ} (p : A → Bool) (xs : List A) (y : A)
    → find p xs ≡ none
    → p y ≡ true
    → find p (xs ++ y ∷ []) ≡ some y
find-append p [] y h hy = ground arith
find-append p (x ∷ xs) y h hy = ground (arith, find-append p xs y)

keep-mapped {ℓ} :
    {A : Type ℓ} (test old : A → Bool) (change : A → A) (xs : List A)
    → ((x : A) → test (change x) ≡ false)
    → keep test (map (λ x. if old x then change x else x) xs) ≡ keep (λ x. test x && not (old x)) xs
keep-mapped test old change [] never = refl
keep-mapped test old change (x ∷ xs) never =
    ground (arith, keep-mapped test old change xs never, never x)

module _ {F : Type 0} where
  is_detector_event-own :
      (now : ℕ) (delivers : Notice → Bool) (r : Report F) (b : Board F)
      → is_detector_event r.detector r.sid r.key (detector_event now delivers r b) ≡ true
  is_detector_event-own now delivers r b =
      ground (arith, beq_refl r.detector, beq_refl r.sid, keyed-contains r.key r.text)

  -- A detector that has reported and reports the same thing again, at any time and whatever it says
  -- of it, raises nothing and notifies nobody.
  pub fire-fire :
      (now later : ℕ) (delivers delivers' : Notice → Bool) (r : Report F) (text : Text)
      (b : Board F)
      → fire later delivers' (record r { text = text }) (fire now delivers r b)
        ≡ fire now delivers r b
  unfolding fire
  fire-fire now later delivers delivers' r text b =
      elim (Option-cases (open_event r.detector r.sid r.key b)) [
        | inr (ev, there) ↦ ground (arith, there)
        | inl absent ↦
            let event = detector_event now delivers r b in
            let its_own = is_detector_event-own now delivers r b in
            let after =
              find-append (is_detector_event r.detector r.sid r.key) b.events event absent
                its_own in
            ground (arith, absent, after)
      ]

  -- After a pass over the point events the open events are those that were open and have not
  -- outlived their hour.
  pub ttl_recover_point_events-open :
      (now : ℕ) (b : Board F)
      → keep is_open (ttl_recover_point_events now b).events
        ≡ keep (λ e. is_open e && not (is_expired now e)) b.events
  unfolding ttl_recover_point_events
  ttl_recover_point_events-open now b =
      keep-mapped is_open (is_expired now) (closed now) b.events (λ e. refl)

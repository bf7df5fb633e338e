-- ===== src/Scheduler/KernelLog.antt =====
-- Kernel events, `_store_kernel_events` of backend/app/scheduler.py: what is stored of a log that
-- is read again at every poll. SHA-256, in hexadecimal, is an argument.
pub mod Unique
use lab_gpu_server_monitor.Prelude.{
  ℕ, ◌+◌, ◌≤◌, ◌≡◌, refl, ap, ◌∙◌, inl, inr, Bool, true, false, ◌&&◌, ◌||◌, List, [], ◌∷◌, ◌++◌,
  if◌then◌else◌, Text, text_eq, nat_eq, nat_beq, ◌==◌, any, keep, map, length, take, arith,
  Bool-cases,
}
use mathlib.Core.List.{append-nil}
use mathlib.Core.Path.{subst}
use lab_gpu_server_monitor.Prelude.Decimal.{decimal}

pub record KernelEvent : Type 0 where
  pub event_type : Text
  pub severity : Text
  pub message : Text
  pub raw_message : Text
  pub gpu_uuid : Text
  pub xid : ℕ

pub record KernelEventRow : Type 0 where
  pub server_id : ℕ
  pub collected_at : ℕ
  pub boot_id : Text
  pub event : KernelEvent
  pub dedup_hash : Text

abbrev pub Pending : Type 0
Pending = List (Text × KernelEvent)

abbrev pub has_hash : Text → List Text → Bool
has_hash h hashes = any (λ k. k == h) hashes

abbrev pub in_pending : Text → Pending → Bool
in_pending h pending = any (λ p. p.0 == h) pending

-- a row under the unique key `(server_id, dedup_hash)`
abbrev pub has_key : ℕ → Text → KernelEventRow → Bool
has_key sid h r = nat_beq r.server_id sid && r.dedup_hash == h

-- No two rows have one server and one hash.
abbrev pub IsUnique : List KernelEventRow → Type 0
IsUnique rows = (s : ℕ) (h : Text) → length (keep (has_key s h) rows) ≤ 1

module _ (sha256_hex : Text → Text) (now sid : ℕ) (boot_id : Text) where
  -- `sha256(f"{boot_id}|{ev.event_type}|{ev.xid}|{ev.raw_message[:200]}")[:40]`
  abbrev pub hash_of : KernelEvent → Text
  hash_of ev = take 40 (
      sha256_hex (
        boot_id
        ++ (b'|'
            ∷ (ev.event_type ++ (b'|' ∷ (decimal ev.xid ++ (b'|' ∷ take 200 ev.raw_message)))))))

  abbrev pub pending_of : List KernelEvent → Pending
  pending_of events = map (λ ev. (hash_of ev, ev)) events

  -- the query: this server's hashes among the pending ones
  abbrev pub known_hashes : Pending → List KernelEventRow → List Text
  known_hashes pending rows =
      map (λ r. r.dedup_hash)
        (keep (λ r. nat_beq r.server_id sid && in_pending r.dedup_hash pending) rows)

  abbrev pub row_of : Text → KernelEvent → KernelEventRow
  row_of h ev = record {
    server_id = sid;
    collected_at = now;
    boot_id = boot_id;
    event = ev;
    dedup_hash = h;
  }

  -- the rows that the loop adds
  unfoldable pub new_rows : List Text → Pending → List KernelEventRow
  new_rows known [] = []
  new_rows known ((h, ev) ∷ pending) =
      let skipped = new_rows known pending in
      let added = row_of h ev ∷ new_rows (h ∷ known) pending in
      if has_hash h known then skipped else added

  unfoldable pub store_kernel_events : List KernelEvent → List KernelEventRow → List KernelEventRow
  store_kernel_events events rows =
      rows ++ new_rows (known_hashes (pending_of events) rows) (pending_of events)

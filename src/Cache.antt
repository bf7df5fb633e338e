-- ===== src/Cache.antt =====
-- The response cache (backend/app/cache.py): the process-local backend with its expiry sweep,
-- and the parts of `cached` that run under `_inflight_lock`. A value is what JSON carries, with
-- `none` for Python's `None`; times are readings of `time.monotonic()` in microseconds.
pub mod Memory
pub mod Flight
mod Tests
use lab_gpu_server_monitor.Prelude.{
  ℕ, ◌+◌, ◌*◌, Bool, true, false, not, ◌||◌, Option, none, some, List, [], ◌∷◌, ltb, leb,
  if◌then◌else◌, length, keep, Text, text_eq, starts_with,
}
use lab_gpu_server_monitor.Prelude.Table.{lookup, insert, erase}
use lab_gpu_server_monitor.Prelude.Table.Eviction.{drop_oldest}

abbrev pub max_entries : ℕ
max_entries = 1024

abbrev pub sweep_interval : ℕ
sweep_interval = 60 * 1000000

module _ {ℓ} (V : Type ℓ) where
  -- `_data`: the time at which an entry expires, and its value
  abbrev pub Entries : Type ℓ
  Entries = List (Text × (ℕ × Option V))

pub record Backend {ℓ} (V : Type ℓ) : Type ℓ where
  pub entries : Entries V
  pub next_sweep : ℕ

module _ {ℓ} {V : Type ℓ} where
  -- `InMemoryBackend.get`: an expired entry goes, and reads as missing
  unfoldable pub get : ℕ → Text → Backend V → Option V × Backend V
  get now key m = elim (lookup key m.entries) [
    | none ↦ (none, m)
    | some (expires, value) ↦
        if ltb expires now then (none, record m { entries = erase key m.entries }) else (value, m)
  ]

  abbrev pub live : ℕ → Text × (ℕ × Option V) → Bool
  live now e = not (ltb e.1.0 now)

  -- `InMemoryBackend.set`
  unfoldable pub set : ℕ → Text → Option V → ℕ → Backend V → Backend V
  set now key value ttl m =
      let d = insert key (now + ttl, value) m.entries in
      if leb m.next_sweep now || ltb max_entries (length d)
      then record {
        entries = drop_oldest max_entries (keep (live now) d);
        next_sweep = now + sweep_interval;
      }
      else record m { entries = d }

  unfoldable pub clear : Backend V → Backend V
  clear m = record { entries = []; next_sweep = 0 }

  -- `invalidate_prefix` on this backend
  unfoldable pub invalidate_prefix : Text → Backend V → Backend V
  invalidate_prefix prefix m = record m {
    entries = keep (λ e. not (starts_with prefix e.0)) m.entries;
  }

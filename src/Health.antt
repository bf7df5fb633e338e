-- ===== src/Health.antt =====
-- The built-in detectors' events and the risk score of backend/app/health.py. A detector's event is
-- a row of the same table as an alert's, without a rule, and names what it is about in brackets in
-- its message.
pub mod Detector
pub mod Risk
pub mod Tree
pub mod Baseline
pub mod Faults
mod Tests
use lab_gpu_server_monitor.Prelude.{
  ℕ, ◌+◌, ◌*◌, Bool, true, false, not, ◌&&◌, ◌||◌, Option, none, some, List, [], ◌∷◌, ◌++◌,
  if◌then◌else◌, Text, codes, text_eq, nat_beq, leb, ◌==◌, find, any, map, non_empty, starts_with,
}
use lab_gpu_server_monitor.RateLimit.{second}
use lab_gpu_server_monitor.Alerts.Events.{
  AlertEvent, Board, Notice, alert, recovery, is_none, is_open, amend, closed,
}

abbrev pub point_event_types : List Text
point_event_types =
    codes "GPU_XID" ∷ codes "OOM_KILL" ∷ codes "MCE_HARDWARE_ERROR" ∷ codes "PCIE_AER" ∷ []

abbrev pub point_event_ttl : ℕ
point_event_ttl = 60 * 60 * second

-- `part in text`
unfoldable pub contains_text : Text → Text → Bool
contains_text part [] = starts_with part []
contains_text part (c ∷ text) = starts_with part (c ∷ text) || contains_text part text

-- `f"[{key}]"`
abbrev pub bracketed : Text → Text
bracketed key = b'[' ∷ (key ++ codes "]")

abbrev pub keyed : Text → Text → Text
keyed key message = if non_empty key then bracketed key ++ (b' ' ∷ message) else message

-- What a detector reports of a server.
pub record Report (F : Type 0) : Type 0 where
  pub detector : Text
  pub sid : ℕ
  pub server_name : Text
  pub key : Text
  pub text : Text
  pub value : F
  pub threshold : F

module _ {F : Type 0} where
  abbrev pub is_detector_event : Text → ℕ → Text → AlertEvent F → Bool
  is_detector_event detector sid key e =
      is_none e.rule_id
      && (e.metric == detector
          && (nat_beq e.server_id sid
              && (is_open e && (not (non_empty key) || contains_text (bracketed key) e.message))))

  -- `_open_event`
  abbrev pub open_event : Text → ℕ → Text → Board F → Option (AlertEvent F)
  open_event detector sid key b = find (is_detector_event detector sid key) b.events

  abbrev pub notice_of : Report F → Notice
  notice_of r = alert r.server_name r.detector r.detector

  abbrev pub detector_event : ℕ → (Notice → Bool) → Report F → Board F → AlertEvent F
  detector_event now delivers r b = record {
    id = b.next_id;
    rule_id = none;
    rule_name = r.detector;
    server_id = r.sid;
    server_name = r.server_name;
    metric = r.detector;
    value = r.value;
    threshold = r.threshold;
    message = keyed r.key r.text;
    triggered_at = now;
    recovered_at = none;
    notified = delivers (notice_of r);
    acked_at = none;
    acked_by = [];
    assignee = [];
  }

  -- `_fire`, with `_notify`: `delivers` says whether a channel takes the notice
  unfoldable pub fire : ℕ → (Notice → Bool) → Report F → Board F → Board F
  fire now delivers r b = elim (open_event r.detector r.sid r.key b) [
    | some _ ↦ b
    | none ↦ record b {
      events = b.events ++ detector_event now delivers r b ∷ [];
      next_id = b.next_id + 1;
      notices = b.notices ++ notice_of r ∷ [];
    }
  ]

  -- `_recover`
  unfoldable pub recover_detector : ℕ → Text → ℕ → Text → Board F → Board F
  recover_detector now detector sid key b = elim (open_event detector sid key b) [
    | none ↦ b
    | some ev ↦ record b {
      events = amend ev.id (closed now) b.events;
      notices =
          if ev.notified
          then b.notices ++ recovery ev.server_name detector detector ∷ []
          else b.notices;
    }
  ]

  abbrev pub is_expired : ℕ → AlertEvent F → Bool
  is_expired now e =
      is_none e.rule_id
      && (any (λ t. e.metric == t) point_event_types
          && (is_open e && leb (e.triggered_at + point_event_ttl) now))

  -- `_ttl_recover_point_events`
  unfoldable pub ttl_recover_point_events : ℕ → Board F → Board F
  ttl_recover_point_events now b = record b {
    events = map (λ e. if is_expired now e then closed now e else e) b.events;
  }

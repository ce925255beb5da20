-- ===== src/Audit.antt =====
-- The hash-chained audit log: `AppendOnlyEventStore` (src/audit/event_store.py), `AuditEvent` and the
-- digests of src/domain/events.py. An event's payload is its canonical JSON, its time the text of
-- `isoformat()`. SHA-256 and the decimal text of an int are the section's parameters.
pub mod Chain
pub mod Tampering
mod Tests
use kalyx_mao_engine.Base.{
  ℕ, suc, ◌+◌, String, Bool, Option, none, some, List, [], ◌∷◌, ◌++◌, ◌==◌, not, length, str_eq,
  str_append, if◌then◌else◌,
}

pub record AuditEvent : Type 0 where
  pub sequence_id : ℕ
  pub timestamp : String
  pub actor_id : String
  pub event_type : String
  pub entity_id : String
  pub payload : String
  pub payload_hash : String
  pub previous_event_hash : String
  pub event_hash : String

-- `"0" * 64`
abbrev pub genesis_previous_hash : String
genesis_previous_hash = "0000000000000000000000000000000000000000000000000000000000000000"

-- `a|rest`
abbrev pub bar : String → String → String
bar a rest = str_append a (str_append "|" rest)

abbrev pub last_hash : String → List AuditEvent → String
last_hash start [] = start
last_hash start (e ∷ es) = last_hash e.event_hash es

-- The outcomes of `verify_integrity`: `(True, None)`, or the first check that fails and where.
pub data Integrity : Type 0 where
  intact : Integrity
  sequence_mismatch chain_broken payload_corrupted event_hash_mismatch : ℕ → Integrity

unfoldable pub compute_payload_hash : (sha256 : String → String) → String → String
compute_payload_hash sha256 payload = sha256 payload

module _ (sha256 : String → String) (decimal : ℕ → String) where
  unfoldable pub compute_event_hash :
      ℕ → String → String → String → String → String → String → String
  compute_event_hash seq time actor type entity payload_hash previous =
      sha256 (
        bar (decimal seq)
          (bar time (bar actor (bar type (bar entity (bar payload_hash previous))))))

  -- The event that the method builds on a log of `n` events that ends in `previous`.
  unfoldable pub next_event : ℕ → String → String → String → String → String → String → AuditEvent
  next_event n previous time actor type entity payload =
      let ph = compute_payload_hash sha256 payload in
      record {
        sequence_id = n + 1;
        timestamp = time;
        actor_id = actor;
        event_type = type;
        entity_id = entity;
        payload = payload;
        payload_hash = ph;
        previous_event_hash = previous;
        event_hash = compute_event_hash (n + 1) time actor type entity ph previous;
      }

  unfoldable pub append_event :
      String → String → String → String → String → List AuditEvent → List AuditEvent
  append_event time actor type entity payload events =
      events
      ++ next_event (length events) (last_hash genesis_previous_hash events) time actor type entity
          payload
        ∷ []

  -- The checks of one turn of the loop, at index `idx` and after an event with hash `previous`.
  unfoldable pub check_event : ℕ → String → AuditEvent → Integrity
  check_event idx previous e =
      if not (e.sequence_id == (idx + 1))
      then sequence_mismatch idx
      else if not (str_eq e.previous_event_hash previous)
      then chain_broken e.sequence_id
      else if not (str_eq e.payload_hash (compute_payload_hash sha256 e.payload))
      then payload_corrupted e.sequence_id
      else if not (
          str_eq e.event_hash (
            compute_event_hash e.sequence_id e.timestamp e.actor_id e.event_type e.entity_id
              e.payload_hash e.previous_event_hash))
      then event_hash_mismatch e.sequence_id
      else intact

  unfoldable pub verify_from : ℕ → String → List AuditEvent → Integrity
  verify_from idx previous [] = intact
  verify_from idx previous (e ∷ es) =
      let rest = verify_from (idx + 1) e.event_hash es in
      elim (check_event idx previous e) [ intact ↦ rest | failure ↦ failure ]

  unfoldable pub verify_integrity : List AuditEvent → Integrity
  verify_integrity = verify_from 0 genesis_previous_hash

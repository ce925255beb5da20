-- ===== src/Audit/Tampering.antt =====
-- Which changes to a log `verify_integrity` notices.
use kalyx_mao_engine.Base.{
  ℕ, ◌+◌, String, ◌≡◌, ◌≢◌, refl, List, [], ◌∷◌, ◌++◌, arith, sym, ◌∙◌, length,
}
use mathlib.Core.Path.{subst}
use text.Mathlib.TextLemmas.{append_assoc}
use kalyx_mao_engine.Audit.{
  AuditEvent, intact, bar, genesis_previous_hash, last_hash, compute_payload_hash,
  compute_event_hash, verify_integrity,
}
use kalyx_mao_engine.Audit.Chain.{IsChained, AllChained, AllChained-iff}

module _ (sha256 : String → String) (decimal : ℕ → String) where
  -- Of two events chained at one place, those of one hash bind one payload, unless two texts that
  -- were digested collide.
  AllChained-prefix :
      (es fs : List AuditEvent) (idx : ℕ) (previous : String)
      → AllChained sha256 decimal idx previous (es ++ fs)
      → AllChained sha256 decimal idx previous es
  AllChained-prefix [] fs idx previous h = tt
  AllChained-prefix (e ∷ es) fs idx previous h =
      (h.0, AllChained-prefix es fs (idx + 1) e.event_hash h.1)

  AllChained-middle :
      (es fs : List AuditEvent) (e : AuditEvent) (idx : ℕ) (previous : String)
      → AllChained sha256 decimal idx previous (es ++ e ∷ fs)
      → IsChained sha256 decimal (idx + length es) (last_hash previous es) e
  AllChained-middle [] fs e idx previous h =
      subst (λ i. IsChained sha256 decimal i previous e) (omega arith) h.0
  AllChained-middle (x ∷ es) fs e idx previous h =
      subst (λ i. IsChained sha256 decimal i (last_hash x.event_hash es) e) (omega arith)
        (AllChained-middle es fs e (idx + 1) x.event_hash h.1)

  -- An event may stand for another that carries the same hash and passes wherever the other does.
  AllChained-replace :
      (es fs : List AuditEvent) (e e' : AuditEvent) (idx : ℕ) (previous : String)
      → e.event_hash ≡ e'.event_hash
      → ((i : ℕ) (p : String) → IsChained sha256 decimal i p e → IsChained sha256 decimal i p e')
      → AllChained sha256 decimal idx previous (es ++ e ∷ fs)
      → AllChained sha256 decimal idx previous (es ++ e' ∷ fs)
  AllChained-replace [] fs e e' idx previous same passes h =
      (passes idx previous h.0, subst (λ p. AllChained sha256 decimal (idx + 1) p fs) same h.1)
  AllChained-replace (x ∷ es) fs e e' idx previous same passes h =
      (h.0, AllChained-replace es fs e e' (idx + 1) x.event_hash same passes h.1)

  -- A log from whose end events were cut off still passes: the check knows no expected length or
  -- last hash.
  pub truncation_unnoticed :
      (es cut : List AuditEvent)
      → verify_integrity sha256 decimal (es ++ cut) ≡ intact
      → verify_integrity sha256 decimal es ≡ intact
  unfolding verify_integrity
  truncation_unnoticed es cut h = (AllChained-iff sha256 decimal es 0 genesis_previous_hash).1 (
      AllChained-prefix es cut 0 genesis_previous_hash
        ((AllChained-iff sha256 decimal (es ++ cut) 0 genesis_previous_hash).0 h))

  -- If the payload of one event of an intact log is replaced by one with another digest, the check
  -- fails, wherever in the log the event stands.
  pub payload_change_noticed :
      (es fs : List AuditEvent) (e : AuditEvent) (payload : String)
      → verify_integrity sha256 decimal (es ++ e ∷ fs) ≡ intact
      → sha256 payload ≢ sha256 e.payload
      → verify_integrity sha256 decimal (es ++ (record e { payload = payload }) ∷ fs) ≢ intact
  unfolding verify_integrity compute_payload_hash
  payload_change_noticed es fs e payload h other tampered =
      let forged : AuditEvent = record e { payload = payload } in
      other (
        sym
          (AllChained-middle es fs forged 0 genesis_previous_hash (
            (AllChained-iff sha256 decimal (es ++ forged ∷ fs) 0 genesis_previous_hash).0
              tampered)).payload_bound
        ∙ (AllChained-middle es fs e 0 genesis_previous_hash (
            (AllChained-iff sha256 decimal (es ++ e ∷ fs) 0 genesis_previous_hash).0
              h)).payload_bound)

  same_digest :
      (e : AuditEvent) (actor moved : String)
      → e.actor_id ≡ bar actor moved
      → compute_event_hash sha256 decimal e.sequence_id e.timestamp e.actor_id e.event_type
          e.entity_id e.payload_hash e.previous_event_hash
        ≡ compute_event_hash sha256 decimal e.sequence_id e.timestamp actor
            (bar moved e.event_type)
            e.entity_id
            e.payload_hash
            e.previous_event_hash
  unfolding compute_event_hash
  same_digest e actor moved names = rw names (simp append_assoc)

  -- The fields of an event are joined by bars that are not escaped: a part of the actor that follows
  -- a bar can be moved into the event type, and the digest stays the same, so an intact log stays
  -- intact.
  pub shifted_field_unnoticed :
      (es fs : List AuditEvent) (e : AuditEvent) (actor moved : String)
      → e.actor_id ≡ bar actor moved
      → verify_integrity sha256 decimal (es ++ e ∷ fs) ≡ intact
      → verify_integrity sha256 decimal
          (es ++ (record e { actor_id = actor; event_type = bar moved e.event_type }) ∷ fs)
        ≡ intact
  unfolding verify_integrity
  shifted_field_unnoticed es fs e actor moved names h =
      let shifted : AuditEvent = record e {
        actor_id = actor;
        event_type = bar moved e.event_type;
      } in
      (AllChained-iff sha256 decimal (es ++ shifted ∷ fs) 0 genesis_previous_hash).1 (
        AllChained-replace es fs e shifted 0 genesis_previous_hash refl
          (λ i p c. record {
            numbered = c.numbered;
            linked = c.linked;
            payload_bound = c.payload_bound;
            sealed = c.sealed ∙ same_digest e actor moved names;
          })
          ((AllChained-iff sha256 decimal (es ++ e ∷ fs) 0 genesis_previous_hash).0 h))

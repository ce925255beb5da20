-- ===== src/Audit/Chain.antt =====
-- The store keeps its own log intact, and intact logs are those whose every event passes.
use kalyx_mao_engine.Base.{
  ℕ, ◌+◌, String, ◌≡◌, ◌↔◌, refl, List, [], ◌∷◌, ◌++◌, arith, length, eq_iff,
}
use mathlib.Core.Path.{subst}
use kalyx_mao_engine.Audit.{
  AuditEvent, intact, genesis_previous_hash, last_hash, compute_payload_hash, compute_event_hash,
  next_event, append_event, check_event, verify_from, verify_integrity,
}

-- The arguments of a call of `append_event`, with the time that it reads.
pub record Append : Type 0 where
  pub time : String
  pub actor : String
  pub type : String
  pub entity : String
  pub payload : String

module _ (sha256 : String → String) (decimal : ℕ → String) where
  -- What the four checks of one event say.
  pub record IsChained (idx : ℕ) (previous : String) (e : AuditEvent) : Type 0 where
    pub numbered : e.sequence_id ≡ idx + 1
    pub linked : e.previous_event_hash ≡ previous
    pub payload_bound : e.payload_hash ≡ compute_payload_hash sha256 e.payload
    pub sealed :
        e.event_hash
        ≡ compute_event_hash sha256 decimal e.sequence_id e.timestamp e.actor_id e.event_type
            e.entity_id e.payload_hash e.previous_event_hash

  pub check_event_iff :
      (idx : ℕ) (previous : String) (e : AuditEvent)
      → (check_event sha256 decimal idx previous e ≡ intact) ↔ IsChained idx previous e
  unfolding check_event
  check_event_iff idx previous e = (
    λ h. ground (
      arith,
      h,
      eq_iff e.previous_event_hash previous,
      eq_iff e.payload_hash (compute_payload_hash sha256 e.payload),
      eq_iff e.event_hash digest,
    ),
    λ h. ground (
      arith,
      h,
      eq_iff e.previous_event_hash previous,
      eq_iff e.payload_hash (compute_payload_hash sha256 e.payload),
      eq_iff e.event_hash digest,
    ),
  )
    where
      digest : String
      digest =
          compute_event_hash sha256 decimal e.sequence_id e.timestamp e.actor_id e.event_type
            e.entity_id e.payload_hash e.previous_event_hash

  -- A log is intact from an index on exactly when each event is chained to the one before it.
  abbrev pub AllChained : ℕ → String → List AuditEvent → Type 0
  AllChained idx previous [] = Unit
  AllChained idx previous (e ∷ es) = IsChained idx previous e × AllChained (idx + 1) e.event_hash es

  pub AllChained-iff :
      (es : List AuditEvent) (idx : ℕ) (previous : String)
      → (verify_from sha256 decimal idx previous es ≡ intact) ↔ AllChained idx previous es
  unfolding verify_from
  AllChained-iff [] idx previous = (λ h. tt, λ h. refl)
  AllChained-iff (e ∷ es) idx previous =
      let rest = AllChained-iff es (idx + 1) e.event_hash in
      let first = check_event_iff idx previous e in
      (
        λ h.
            let both : (check_event sha256 decimal idx previous e ≡ intact)
                × (verify_from sha256 decimal (idx + 1) e.event_hash es ≡ intact) =
              ground arith in
            (first.0 both.0, rest.0 both.1),
        λ h. ground (arith, first.1 h.0, rest.1 h.1),
      )

  AllChained-append :
      (es : List AuditEvent) (e : AuditEvent) (idx : ℕ) (previous : String)
      → AllChained idx previous es
      → IsChained (idx + length es) (last_hash previous es) e
      → AllChained idx previous (es ++ e ∷ [])
  AllChained-append [] e idx previous h last =
      (subst (λ i. IsChained i previous e) (omega arith) last, tt)
  AllChained-append (x ∷ es) e idx previous h last = (
    h.0,
    AllChained-append es e (idx + 1) x.event_hash h.1
        (subst (λ i. IsChained i (last_hash x.event_hash es) e) (omega arith) last),
  )

  -- The check of an intact log still passes after any further `append_event`.
  pub verify-append_event :
      (time actor type entity payload : String) (es : List AuditEvent)
      → verify_integrity sha256 decimal es ≡ intact
      → verify_integrity sha256 decimal
          (append_event sha256 decimal time actor type entity payload es)
        ≡ intact
  unfolding verify_integrity append_event next_event
  verify-append_event time actor type entity payload es h =
      (AllChained-iff _ 0 genesis_previous_hash).1 (
        AllChained-append es _ 0 genesis_previous_hash
          ((AllChained-iff es 0 genesis_previous_hash).0 h)
          (record { numbered = omega arith; linked = refl; payload_bound = refl; sealed = refl }))

  unfoldable pub append_all : List Append → List AuditEvent → List AuditEvent
  append_all [] es = es
  append_all (a ∷ calls) es =
      append_all calls (append_event sha256 decimal a.time a.actor a.type a.entity a.payload es)

  append_all-keeps :
      (calls : List Append) (es : List AuditEvent)
      → verify_integrity sha256 decimal es ≡ intact
      → verify_integrity sha256 decimal (append_all calls es) ≡ intact
  unfolding append_all
  append_all-keeps [] es h = h
  append_all-keeps (a ∷ calls) es h =
      append_all-keeps calls
        (append_event sha256 decimal a.time a.actor a.type a.entity a.payload es)
        (verify-append_event a.time a.actor a.type a.entity a.payload es h)

  -- A log to which only `append_event` has written passes `verify_integrity`, whatever the digest.
  pub append_all-intact :
      (calls : List Append) → verify_integrity sha256 decimal (append_all calls []) ≡ intact
  unfolding verify_integrity verify_from
  append_all-intact calls = append_all-keeps calls [] refl

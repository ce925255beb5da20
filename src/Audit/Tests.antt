-- ===== src/Audit/Tests.antt =====
-- The audit log at concrete inputs: a digest that keeps the text, and one decimal digit.
use kalyx_mao_engine.Base.{ℕ, String, ◌≡◌, ◌≢◌, refl, List, [], ◌∷◌, ◌++◌, eq_iff, arith}
use kalyx_mao_engine.Audit.{
  AuditEvent, intact, genesis_previous_hash, compute_payload_hash, compute_event_hash, next_event,
  append_event, verify_integrity,
}
use kalyx_mao_engine.Audit.Chain.{Append, append_all, append_all-intact}
use kalyx_mao_engine.Audit.Tampering.{payload_change_noticed}

abbrev digest : String → String
digest text = text

abbrev decimal : ℕ → String
decimal n = "1"

abbrev call : String → String → Append
call actor payload = record {
  time = "t";
  actor = actor;
  type = "PAID";
  entity = "org";
  payload = payload;
}

abbrev calls : List Append
calls = call "agent|A" "{}" ∷ call "admin" "{1}" ∷ []

abbrev first : AuditEvent
first = next_event digest decimal 0 genesis_previous_hash "t" "agent|A" "PAID" "org" "{}"

abbrev second : AuditEvent
second = next_event digest decimal 1 first.event_hash "t" "admin" "PAID" "org" "{1}"

append_all-intact_example :
    verify_integrity digest decimal (append_all digest decimal calls []) ≡ intact
append_all-intact_example = append_all-intact digest decimal calls

two_events : append_all digest decimal calls [] ≡ [] ++ first ∷ second ∷ []
unfolding append_all append_event next_event compute_event_hash compute_payload_hash
two_events = refl

two_intact : verify_integrity digest decimal ([] ++ first ∷ second ∷ []) ≡ intact
two_intact = rw two_events at (append_all-intact digest decimal calls)

other_payload : digest "{9}" ≢ digest "{}"
other_payload same = ground (arith, (eq_iff "{9}" "{}").1 same)

payload_change_noticed_example :
    verify_integrity digest decimal ([] ++ (record first { payload = "{9}" }) ∷ second ∷ [])
    ≢ intact
unfolding next_event compute_payload_hash
payload_change_noticed_example =
    payload_change_noticed digest decimal [] (second ∷ []) first "{9}" two_intact other_payload

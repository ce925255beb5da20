-- ===== src/Orbio/ReconciliationTests.antt =====
-- The reconciliation of a purchase at concrete inputs: 40 credits, in escrow or not.
use kalyx_mao_engine.Base.{
  inl, inr, arith, String, ◌≡◌, refl, Option, none, some, [], ◌∷◌, is_inside, take_chars,
}
use kalyx_mao_engine.Base.Int.{pos, ◌+ℤ◌, ◌-ℤ◌}
use kalyx_mao_engine.Base.Dict.{lookup, insert, get_or}
use kalyx_mao_engine.Base.Outcome.{Result, ok}
use kalyx_mao_engine.Ledger.{Stamp, treasury, escrow, init, entry_of, record_transfer, transfer}
use kalyx_mao_engine.Entities.{Organisation, executing}
use kalyx_mao_engine.Operation.{ConsequentialOperation, unknown, reconciled, transition_to}
use kalyx_mao_engine.Execution.State.{World, put}
use kalyx_mao_engine.Execution.Manager.{advance}
use kalyx_mao_engine.Execution.Reconciliation.{
  ProviderStatusResult, StatusReply, status_is, type_error, query_status,
}
use kalyx_mao_engine.Execution.Soundness.{KeepsSound}
use kalyx_mao_engine.Orbio.Text.{lower, is_hex, drop_chars, is_hex_text, zeros, zfill}
use kalyx_mao_engine.Orbio.Intents.{
  compute_purchase_intent_hash, beneficiary_as_bytes32, address_to_beneficiary_bytes32,
}
use kalyx_mao_engine.Orbio.Verifier.{
  OrbioPurchaseEvidence, PurchaseVerificationReport, verified, fine, verify, evidence_code,
}
use kalyx_mao_engine.Orbio.Reconciliation.{
  PurchaseReconciliationOutcome, settled, reconcile, conclude, settle_success,
}
use kalyx_mao_engine.Orbio.Soundness.{reconcile-KeepsSound}
use kalyx_mao_engine.Orbio.Settled.{Settlement, reconcile-Settlement}
use kalyx_mao_engine.Orbio.Pending.{Untouched, reconcile-Untouched}
use kalyx_mao_engine.Orbio.Matching.{Matches}
use kalyx_mao_engine.Orbio.Paying.{Purchased, IsWaiting, IsEvidenced, reconcile-Purchased}
use kalyx_mao_engine.Orbio.Samples.{lib, intent, evidence}

abbrev reason_of : PurchaseVerificationReport → String
reason_of r = "rejected"

abbrev status : String → ProviderStatusResult
status outcome = record {
  outcome = outcome;
  provider_reference = some "0xtx";
  error_message = none;
  evidence_hash = none;
}

abbrev with_reference : String → String → String → Option String → StatusReply
with_reference outcome id key reference = status_is (status outcome)

abbrev without : String → String → StatusReply
without id key = type_error

abbrev evidence_of :
    ProviderStatusResult → ConsequentialOperation → Result (Option OrbioPurchaseEvidence)
evidence_of s op = ok (some evidence)

abbrev stored_hash : String → Option String
stored_hash parameters = some "intent"

abbrev org : Organisation
org = record {
  id = "org";
  tenant_id = "tenant";
  treasury_balance = pos 60;
  state = executing;
  agents = [];
}

abbrev stamp : Stamp
stamp = record { entry_id = "u9"; uuid = "u9"; now = 0 }

abbrev operation : ConsequentialOperation
operation = record {
  id = "op-1";
  tenant_id = "tenant";
  organisation_id = "org";
  proposal_id = "prop-1";
  decision_id = "dec-1";
  idempotency_key = "key";
  action_type = "ORBIO_CREDIT_PURCHASE";
  target = "exchange";
  parameters = "{}";
  amount = pos 40;
  provider_name = "simulated";
  provider_reference = none;
  state = unknown;
  error_message = none;
  created_at = 0;
  updated_at = 4;
}

abbrev world : World
world = record {
  ledger = init stamp (pos 100);
  treasury_balance = pos 100;
  operation = operation;
  operations = some (operation ∷ []);
  consumptions = some [];
  events = some [];
}

reconcile-KeepsSound_example : KeepsSound (λ w.
    (reconcile lib reason_of
      (with_reference "SUCCESS")
      without
      evidence_of
      stored_hash
      intent
      org
      stamp
      7
      w
      []).0)
reconcile-KeepsSound_example =
    reconcile-KeepsSound lib reason_of (with_reference "SUCCESS") without evidence_of stored_hash
      intent org stamp 7 []

reconcile-Untouched_example : Untouched world [] (
    reconcile lib reason_of
      (with_reference "TIMEOUT")
      without
      evidence_of
      stored_hash
      intent
      org
      stamp
      7
      world
      [])
unfolding query_status
reconcile-Untouched_example =
    reconcile-Untouched lib reason_of (with_reference "TIMEOUT") without evidence_of stored_hash
      intent org stamp 7 (λ op. refl) world []

-- The amount lies in escrow, and the provider answers SUCCESS.
abbrev held : World
held = record world {
  ledger = record_transfer (entry_of stamp "res-op-1" treasury escrow (pos 40) "lock") world.ledger;
  treasury_balance = pos 60;
}

abbrev outcome : PurchaseReconciliationOutcome
outcome = record {
  operation = record operation {
    state = reconciled;
    provider_reference = some "0xtx";
    updated_at = 7;
  };
  verification = some (record {
    result = verified;
    code = fine;
    intent_hash = "intent";
    provider_reference = some "0xtx";
  });
  economic_action = settled;
}

settles :
    (reconcile lib reason_of
      (with_reference "SUCCESS")
      without
      evidence_of
      stored_hash
      intent
      org
      stamp
      7
      held
      []).0.0
    ≡ ok outcome
unfolding reconcile compute_purchase_intent_hash advance transition_to query_status conclude verify
    evidence_code lower beneficiary_as_bytes32 is_hex_text is_hex drop_chars
    address_to_beneficiary_bytes32 zfill zeros lookup settle_success get_or insert ◌+ℤ◌ ◌-ℤ◌
    is_inside take_chars put transfer init
settles = refl

reconcile-Settlement_example :
    Settlement lib reason_of
      (with_reference "SUCCESS")
      without
      evidence_of
      stored_hash
      intent
      org
      stamp
      7
      held
      outcome
reconcile-Settlement_example =
    reconcile-Settlement lib reason_of (with_reference "SUCCESS") without evidence_of stored_hash
      intent org stamp 7 held [] outcome settles refl

evidence-Matches : Matches lib intent evidence (some "0xtx")
unfolding lower compute_purchase_intent_hash beneficiary_as_bytes32 is_hex_text is_hex drop_chars
    address_to_beneficiary_bytes32 zfill zeros
evidence-Matches = record {
  complete = record {
    exchange_contract = refl;
    network = refl;
    beneficiary = refl;
    provider_reference = refl;
    purchase_intent_hash = refl;
  };
  same_intent = refl;
  tenant = refl;
  org = tt;
  exchange = refl;
  chain = refl;
  network = refl;
  spent = refl;
  credit = omega arith;
  beneficiary = inr refl;
  activated = inl refl;
  as_expected = refl;
}

waiting :
    IsWaiting lib reason_of stamp 7
      (with_reference "SUCCESS")
      without
      evidence_of
      stored_hash
      intent
      org
      held
unfolding init insert get_or ◌+ℤ◌ ◌-ℤ◌ take_chars is_inside compute_purchase_intent_hash
waiting = record {
  own = refl;
  purchase = refl;
  unresolved = refl;
  bound = refl;
  unclashed = refl;
  unpaid = refl;
  funded = record { fresh = refl; positive = omega arith; apart = refl; funded = omega arith };
}

evidenced :
    IsEvidenced lib reason_of stamp 7
      (with_reference "SUCCESS")
      without
      evidence_of
      stored_hash
      intent
      org
      held
      (status "SUCCESS")
      evidence
unfolding query_status
evidenced = record {
  answers = λ o same. refl;
  success = refl;
  extracted = λ o tenant organisation. refl;
  matches = evidence-Matches;
}

reconcile-Purchased_example :
    Purchased lib reason_of stamp 7 held
      (reconcile lib reason_of
        (with_reference "SUCCESS")
        without
        evidence_of
        stored_hash
        intent
        org
        stamp
        7
        held
        []).0
unfolding lookup
reconcile-Purchased_example =
    reconcile-Purchased lib reason_of stamp 7 (with_reference "SUCCESS") without evidence_of
      stored_hash intent org held [] (status "SUCCESS") evidence waiting evidenced (λ r h. cc)

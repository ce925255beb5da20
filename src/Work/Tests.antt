-- ===== src/Work/Tests.antt =====
-- Receipts, saved rows and a reconciliation on concrete inputs.
use kalyx_mao_engine.Base.{
  ◌/◌, true, false, ◌≡◌, ◌↔◌, refl, none, [], ◌∷◌, arith, str_append, is_empty-append,
}
use kalyx_mao_engine.Base.Int.{pos, negsuc, pos_part, ◌-ℤ◌}
use kalyx_mao_engine.Base.Dict.{lookup, insert, get_or}
use kalyx_mao_engine.Ledger.{Stamp, transfer}
use kalyx_mao_engine.Work.Receipts.{
  WorkLibrary, WorkOrder, WorkDeliverable, WorkDeliverableReceipt, is_verified, create_deliverable,
  verify, verify_hmac, sign_receipt, rejection_note, canonical_json_hash, receipt_message,
  compute_evidence_hash,
}
use kalyx_mao_engine.Work.Verification.{IsDelivery, verify-IsDelivery}
use kalyx_mao_engine.Work.Repository.{RevenueEvent}
use kalyx_mao_engine.Work.Surplus.{
  Ratio, Reconciler, SurplusState, SurplusCall, event_of, split_revenue, reconcile_surplus,
  is_reconciled, is_refused, settle_split, pay_out,
}
use kalyx_mao_engine.Work.Revenue.{IsShare, PaidOut, reconcile_surplus-PaidOut}

abbrev lib : WorkLibrary
lib = record {
  hmac_sha256 = λ key message. str_append "sig" message;
  sha256 = str_append "#";
  dumps = λ d. "{}";
  decimal = λ n. "0";
}

abbrev order : WorkOrder
order = record {
  work_order_id = "wo-1";
  tenant_id = "t";
  organisation_id = "acme";
  client_id = "client";
  title = "report";
  description = "";
  deliverable_type = "REPORT";
  required_orbio_credits = pos 10;
  bounty_amount = pos 50;
}

abbrev deliverable : WorkDeliverable
deliverable =
    create_deliverable lib "wo-1" "agent" (("deliverable_type", "REPORT") ∷ []) (pos 7) "{}" "d-1"

abbrev receipt : WorkDeliverableReceipt
receipt = verify lib "verifier" "key" "rcpt-1" order deliverable

verify-IsDelivery_example :
    ((is_verified receipt ≡ true) ↔ IsDelivery lib order deliverable)
    × (verify_hmac lib "key" receipt ≡ true)
verify-IsDelivery_example =
    verify-IsDelivery lib "verifier" "key" "rcpt-1" order deliverable
      (λ message. is_empty-append "sig" message refl)

-- The delivery is accepted.
receipt_accepted : is_verified receipt ≡ true
unfolding verify sign_receipt rejection_note create_deliverable canonical_json_hash lookup
receipt_accepted = refl

-- A fifth goes to the reserve.
abbrev fifth : Ratio
fifth = record { in_range = true; floor_of = λ n. pos (pos_part n / 5) }

fifth-IsShare : IsShare fifth
fifth-IsShare in_range (pos n) h = (omega arith, omega arith)
fifth-IsShare in_range (negsuc n) h = absurd (omega arith)

abbrev stamp : Stamp
stamp = record { entry_id = "e"; uuid = "u"; now = 1 }

abbrev before : SurplusState
before = record {
  ledger = record {
    balances = ("REVENUE", pos 60) ∷ [];
    entries = [];
    recorded_tx_ids = [];
    total_minted = pos 60;
  };
  events = [];
}

abbrev reconciler : Reconciler
reconciler = record { reserve_ratio = fifth; receipt_secret_key = "key" }

abbrev call : SurplusCall
call = record {
  work_order = order;
  receipt = receipt;
  gross_revenue_usdg = pos 50;
  direct_expense_usdg = pos 20;
  orbio_credits_consumed = pos 7;
  reserve_ratio = none;
  tx_group = "g";
  event_uuid = "1";
  cost_stamp = stamp;
  reserve_stamp = stamp;
  mission_stamp = stamp;
  now = 5;
}

abbrev after : SurplusState
after = (reconcile_surplus lib reconciler none call before).1

abbrev event : RevenueEvent
event = event_of call (split_revenue fifth (pos 50) (pos 20))

reconcile_surplus-PaidOut_example :
    PaidOut call before event after
    × (is_verified receipt ≡ true)
    × (verify_hmac lib "key" receipt ≡ true)
    × (is_reconciled "wo-1" before ≡ false)
unfolding reconcile_surplus is_refused verify verify_hmac sign_receipt rejection_note
    create_deliverable canonical_json_hash lookup receipt_message compute_evidence_hash settle_split
    pay_out transfer insert split_revenue get_or ◌-ℤ◌
reconcile_surplus-PaidOut_example =
    reconcile_surplus-PaidOut lib reconciler none call before after event fifth-IsShare refl

-- ===== src/Marketplace/Tests.antt =====
-- Claims, escrows and grants on concrete inputs.
use kalyx_mao_engine.Base.{◌≤◌, String, true, ◌≡◌, refl, none, some, [], ◌∷◌, str_append}
use kalyx_mao_engine.Base.Int.{pos, ◌+ℤ◌, ◌-ℤ◌}
use kalyx_mao_engine.Base.Dict.{lookup, insert, get_or}
use kalyx_mao_engine.Base.Table.{find, select}
use kalyx_mao_engine.Base.Outcome.{Result, ok}
use kalyx_mao_engine.Ledger.{Stamp, transfer, deposit_revenue, get_balance}
use kalyx_mao_engine.Work.Receipts.{
  WorkLibrary, WorkOrder, WorkDeliverable, create_deliverable, verify, sign_receipt, rejection_note,
  canonical_json_hash, verify_hmac, receipt_message,
}
use kalyx_mao_engine.Work.Surplus.{Reconciler, reconcile_surplus, is_refused}
use kalyx_mao_engine.Marketplace.Orders.{MarketplaceOrder, Claim, claimed, completed, get_order}
use kalyx_mao_engine.Marketplace.Escrows.{EscrowAgreement, held, get_escrow_by_order}
use kalyx_mao_engine.Marketplace.Grants.{
  CapabilityGrant, active, has_capability, list_agent_grants, is_valid,
}
use kalyx_mao_engine.Marketplace.Claiming.{claiming, updating, claim_count, claim_once}
use kalyx_mao_engine.Marketplace.Coordinator.{
  Market, Refund, Settlement, refund_escrow, execute_and_settle, settle_found, settle_verified,
  refund_found, set_escrow, set_order_status, with_tables,
}
use kalyx_mao_engine.Marketplace.Payout.{refunding, settling, payouts, payout_once}

abbrev stamp : Stamp
stamp = record { entry_id = "e"; uuid = "u"; now = 1 }

abbrev order : MarketplaceOrder
order = record {
  tenant_id = "t";
  organisation_id = "client";
  order_id = "o-1";
  title = "report";
  description = "";
  specification_hash = "#";
  required_capability = "research";
  bounty_amount = pos 50;
  bounty_asset = "USDG";
  sla_timeout_seconds = 3600;
  status = claimed;
  claimed_by_tenant_id = some "t2";
  claimed_by_org_id = some "acme";
  claimed_by_agent_id = some "agent";
  work_order_id = some "wo-1";
  deliverable_id = none;
  created_at = "t0";
  claimed_at = some "t1";
  completed_at = none;
}

abbrev bid : Claim
bid = record {
  tenant_id = "t";
  organisation_id = "client";
  order_id = "o-1";
  claimed_by_tenant_id = "t2";
  claimed_by_org_id = "acme";
  claimed_by_agent_id = "agent";
  work_order_id = some "wo-1";
  claimed_at = "t1";
}

claim_once_example :
    claim_count "t" "client" "o-1"
      (order ∷ [])
      (claiming bid ∷ updating "t" "client" "o-1" completed none "t2" ∷ claiming bid ∷ [])
    ≤ 1
claim_once_example =
    claim_once "t" "client" "o-1" (order ∷ [])
      (claiming bid ∷ updating "t" "client" "o-1" completed none "t2" ∷ claiming bid ∷ [])
      (refl, tt)

abbrev deposit : EscrowAgreement
deposit = record {
  tenant_id = "t";
  organisation_id = "client";
  escrow_id = "esc-1";
  order_id = "o-1";
  client_tenant_id = "t";
  client_org_id = "client";
  bounty_amount = pos 50;
  bounty_asset = "USDG";
  provider_tenant_id = none;
  provider_org_id = none;
  status = held;
  client_ledger_tx_id = some "escrow-lock-o-1";
  provider_ledger_tx_id = none;
  created_at = "t0";
  released_at = none;
}

abbrev grant : CapabilityGrant
grant = record {
  tenant_id = "t2";
  organisation_id = "acme";
  grant_id = "g";
  agent_id = "agent";
  capability_name = "research";
  permission_level = "EXECUTE_ADVANCED";
  granted_by_policy_id = "RULE-CAPABILITY-01";
  status = active;
  granted_at = 0;
  expires_at = 100;
}

abbrev lib : WorkLibrary
lib = record {
  hmac_sha256 = λ key message. str_append key "/sig";
  sha256 = str_append "#";
  dumps = λ d. "{}";
  decimal = λ n. "0";
}

-- The client has 50 credits in escrow for this order and 50 for others.
abbrev market : Market
market = record {
  orders = order ∷ [];
  escrows = deposit ∷ [];
  grants = grant ∷ [];
  client_ledger = record {
    balances = ("ESCROW", pos 100) ∷ [];
    entries = [];
    recorded_tx_ids = [];
    total_minted = pos 100;
  };
  provider = record {
    ledger = record { balances = []; entries = []; recorded_tx_ids = []; total_minted = pos 0 };
    events = [];
  };
  tables = none;
}

abbrev refund : Refund
refund = record {
  tenant_id = "t";
  organisation_id = "client";
  order_id = "o-1";
  reason = "expired";
  stamp = stamp;
  now = "t3";
}

abbrev settlement : Settlement
settlement = record {
  order = order;
  provider_tenant_id = "t2";
  provider_org_id = "acme";
  producer_agent_id = "agent";
  receipt_id = "r";
  tx_group = "g";
  event_uuid = "1";
  release_stamp = stamp;
  deposit_stamp = stamp;
  cost_stamp = stamp;
  reserve_stamp = stamp;
  mission_stamp = stamp;
  now = "t2";
  now_date = 5;
}

abbrev reconciler : String → Reconciler
reconciler key = record {
  reserve_ratio = record { in_range = true; floor_of = λ n. pos 0 };
  receipt_secret_key = key;
}

abbrev worker : WorkOrder → String → String → Result WorkDeliverable
worker w agent org = ok (
    create_deliverable lib w.work_order_id agent (("deliverable_type", "B2B_DELIVERABLE") ∷ [])
      (pos 7) "{}" "d-1")

payout_once_example :
    payouts lib "v" "key"
      (reconciler "key")
      true
      worker
      "t"
      "client"
      "esc-1"
      market
      (settling settlement ∷ refunding refund ∷ [])
    ≤ 1
payout_once_example =
    payout_once lib "v" "key" (reconciler "key") true worker "t" "client" "esc-1" market
      (settling settlement ∷ refunding refund ∷ [])

-- A refund of an order that a provider has claimed.
refund_of_claimed : get_balance (refund_escrow refund market).1.client_ledger "TREASURY" ≡ pos 50
unfolding refund_escrow get_order find get_escrow_by_order refund_found transfer set_escrow
    set_order_status get_or insert ◌+ℤ◌ ◌-ℤ◌
refund_of_claimed = refl

-- A settlement whose receipt the reconciler does not accept raises after the release; the refund then
-- takes the bounty out of ESCROW again.
abbrev failed : Market
failed = (execute_and_settle lib "v" "key" (reconciler "other") true worker settlement market).1

released_and_refunded : get_balance (refund_escrow refund failed).1.client_ledger "ESCROW" ≡ pos 0
unfolding execute_and_settle settle_found settle_verified create_deliverable verify sign_receipt
    rejection_note canonical_json_hash lookup verify_hmac receipt_message reconcile_surplus
    is_refused has_capability list_agent_grants select is_valid deposit_revenue with_tables
    refund_escrow get_order find get_escrow_by_order refund_found transfer set_escrow
    set_order_status get_or insert ◌+ℤ◌ ◌-ℤ◌
released_and_refunded = refl

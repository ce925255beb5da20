-- ===== src/Marketplace/Coordinator.antt =====
-- `B2BMarketplaceCoordinator` (src/agents/b2b_marketplace_coordinator.py): the settlement of an order
-- and the refund of its escrow. The provider's ledger is the one that its SurplusReconciler works on.
-- The work executor, an abstract class, is a parameter; a call that raises keeps what it wrote.
use kalyx_mao_engine.Base.{
  ℕ, String, Bool, false, not, Option, none, some, List, [], ◌||◌, str_append, str_eq, is_empty,
  if◌then◌else◌,
}
use kalyx_mao_engine.Base.Int.{ℤ, pos}
use kalyx_mao_engine.Base.Outcome.{Result, ok, err, value_error, permission_error}
use kalyx_mao_engine.Base.Stateful.{Stateful, ◌>>=◌, ◌>>◌, returns, observe, modify, raise_when}
use kalyx_mao_engine.Ledger.{
  Stamp, LedgerEntry, DoubleEntryLedger, treasury, escrow, external_sink, transfer, deposit_revenue,
}
use kalyx_mao_engine.Work.Receipts.{
  WorkLibrary, WorkOrder, WorkDeliverable, WorkDeliverableReceipt, is_verified, verify,
}
use kalyx_mao_engine.Work.Repository.{
  RevenueEvent, Scoped, save_work_order, save_deliverable, save_receipt, save_revenue_event,
}
use kalyx_mao_engine.Work.Surplus.{Reconciler, SurplusState, SurplusCall, reconcile_surplus}
use kalyx_mao_engine.Marketplace.Orders.{
  MarketplaceOrder, MarketplaceOrderStatus, Orders, get_order, update_order_status, is_claimed,
  is_completed, completed, cancelled,
}
use kalyx_mao_engine.Marketplace.Escrows.{
  EscrowAgreement, Escrows, EscrowUpdate, is_held, get_escrow_by_order, update_escrow_status,
  released, refunded,
}
use kalyx_mao_engine.Marketplace.Grants.{Grants, has_capability}

-- The tables of the work order repository that the settlement writes.
pub record WorkTables : Type 0 where
  pub work_orders : List (Scoped WorkOrder)
  pub deliverables : List (Scoped WorkDeliverable)
  pub receipts : List (Scoped WorkDeliverableReceipt)
  pub revenue_events : List (Scoped RevenueEvent)

pub record Market : Type 0 where
  pub orders : Orders
  pub escrows : Escrows
  pub grants : Grants
  pub client_ledger : DoubleEntryLedger
  pub provider : SurplusState
  pub tables : Option WorkTables

-- The escrow that a call finds for an order, if it is HELD.
abbrev pub held_escrow : Result (Option EscrowAgreement) → Result EscrowAgreement
held_escrow (err e) = err e
held_escrow (ok none) = err value_error
held_escrow (ok (some e)) = if is_held e.status then ok e else err value_error

abbrev pub find_held : String → String → String → Stateful Market EscrowAgreement
find_held order_id tenant org m =
    (held_escrow (get_escrow_by_order order_id tenant org m.orders m.escrows), m)

abbrev pub set_client : Result (LedgerEntry × DoubleEntryLedger) → Stateful Market (Unit {0})
set_client (ok (e, l)) m = (ok tt, record m { client_ledger = l })
set_client (err e) m = (err e, m)

-- A transfer of the client's ledger.
abbrev pub client_transfer :
    Stamp → String → String → ℤ → String → String → Stateful Market (Unit {0})
client_transfer s from to amount memo tx m =
    set_client (transfer s from to amount memo (some tx) m.client_ledger) m

abbrev pub set_provider : Result (LedgerEntry × DoubleEntryLedger) → Stateful Market (Unit {0})
set_provider (ok (e, l)) m = (ok tt, record m { provider = record m.provider { ledger = l } })
set_provider (err e) m = (err e, m)

abbrev pub provider_deposit : Stamp → ℤ → String → String → Stateful Market (Unit {0})
provider_deposit s amount memo tx m =
    set_provider (deposit_revenue s amount memo (some tx) m.provider.ledger) m

abbrev pub in_provider : Market → Result RevenueEvent × SurplusState → Result RevenueEvent × Market
in_provider m (r, s) = (r, record m { provider = s })

abbrev on_tables : (WorkTables → WorkTables) → Option WorkTables → Option WorkTables
on_tables f none = none
on_tables f (some t) = some (f t)

-- `if self.work_order_repo: …`
unfoldable pub with_tables : (WorkTables → WorkTables) → Stateful Market (Unit {0})
with_tables f = modify (λ m. record m { tables = on_tables f m.tables })

abbrev pub or_missing {ℓ} : {A : Type ℓ} → Option A → Stateful Market A
or_missing none m = (err value_error, m)
or_missing (some a) m = (ok a, m)

unfoldable pub set_escrow : EscrowUpdate → Stateful Market (Unit {0})
set_escrow u = modify (λ m. record m { escrows = update_escrow_status u m.escrows })

unfoldable pub set_order_status :
    MarketplaceOrder → MarketplaceOrderStatus → Option String → String → Stateful Market (Unit {0})
set_order_status o status deliverable now = modify (λ m. record m {
  orders =
      update_order_status o.tenant_id o.organisation_id o.order_id status deliverable now m.orders;
})

-- The arguments of `refund_escrow`.
pub record Refund : Type 0 where
  pub tenant_id : String
  pub organisation_id : String
  pub order_id : String
  pub reason : String
  pub stamp : Stamp
  pub now : String

abbrev pub refund_update : Refund → EscrowAgreement → EscrowUpdate
refund_update r e = record {
  tenant_id = e.tenant_id;
  organisation_id = e.organisation_id;
  escrow_id = e.escrow_id;
  status = refunded;
  provider_tenant_id = none;
  provider_org_id = none;
  provider_ledger_tx_id = none;
  now = r.now;
}

-- `refund_escrow` from the escrow on, which is found and HELD.
unfoldable pub refund_found :
    Refund → MarketplaceOrder → EscrowAgreement → Stateful Market (Unit {0})
refund_found r o e = do
  client_transfer r.stamp escrow treasury e.bounty_amount
      (str_append "Escrow refund for order " (str_append r.order_id (str_append ": " r.reason)))
      (str_append "escrow-refund-" r.order_id)
  set_escrow (refund_update r e)
  set_order_status o cancelled none r.now

abbrev pub found_again : Result (Option EscrowAgreement) → Result EscrowAgreement
found_again (err e) = err e
found_again (ok none) = err value_error
found_again (ok (some e)) = ok e

abbrev pub find_again : Refund → Stateful Market EscrowAgreement
find_again r m = (
  found_again (get_escrow_by_order r.order_id r.tenant_id r.organisation_id m.orders m.escrows),
  m,
)

unfoldable pub refund_escrow : Refund → Stateful Market EscrowAgreement
refund_escrow r = do
  o ← observe (λ m. get_order r.tenant_id r.organisation_id r.order_id m.orders)
  o ← or_missing o
  raise_when (λ m. is_completed o.status) value_error
  e ← find_held r.order_id r.tenant_id r.organisation_id
  refund_found r o e
  find_again r

-- What code outside the market returns.
abbrev pub answer {ℓ} : {A : Type ℓ} → Result A → Stateful Market A
answer r m = (r, m)

-- The arguments of `execute_and_settle`, with what it draws; `now_date` is the clock of the grants.
pub record Settlement : Type 0 where
  pub order : MarketplaceOrder
  pub provider_tenant_id : String
  pub provider_org_id : String
  pub producer_agent_id : String
  pub receipt_id : String
  pub tx_group : String
  pub event_uuid : String
  pub release_stamp : Stamp
  pub deposit_stamp : Stamp
  pub cost_stamp : Stamp
  pub reserve_stamp : Stamp
  pub mission_stamp : Stamp
  pub now : String
  pub now_date : ℕ

abbrev pub is_text : Option String → String → Bool
is_text none s = false
is_text (some t) s = str_eq t s

abbrev pub text_or : Option String → String → String
text_or none default = default
text_or (some s) default = if is_empty s then default else s

abbrev pub work_order_of : Settlement → WorkOrder
work_order_of c = record {
  work_order_id = text_or c.order.work_order_id (str_append "wo-b2b-" c.order.order_id);
  tenant_id = c.provider_tenant_id;
  organisation_id = c.provider_org_id;
  client_id = c.order.organisation_id;
  title = c.order.title;
  description = c.order.description;
  deliverable_type = "B2B_DELIVERABLE";
  required_orbio_credits = pos 1000;
  bounty_amount = c.order.bounty_amount;
}

abbrev pub revenue_id : Settlement → String
revenue_id c = str_append "revenue-b2b-" c.order.order_id

abbrev pub release_update : Settlement → EscrowAgreement → EscrowUpdate
release_update c e = record {
  tenant_id = e.tenant_id;
  organisation_id = e.organisation_id;
  escrow_id = e.escrow_id;
  status = released;
  provider_tenant_id = some c.provider_tenant_id;
  provider_org_id = some c.provider_org_id;
  provider_ledger_tx_id = some (revenue_id c);
  now = c.now;
}

abbrev pub surplus_call : Settlement → WorkDeliverable → WorkDeliverableReceipt → SurplusCall
surplus_call c d receipt = record {
  work_order = work_order_of c;
  receipt = receipt;
  gross_revenue_usdg = c.order.bounty_amount;
  direct_expense_usdg = pos 0;
  orbio_credits_consumed = d.orbio_credits_consumed;
  reserve_ratio = none;
  tx_group = c.tx_group;
  event_uuid = c.event_uuid;
  cost_stamp = c.cost_stamp;
  reserve_stamp = c.reserve_stamp;
  mission_stamp = c.mission_stamp;
  now = c.now_date;
}

abbrev pub events_of : Option WorkTables → List (Scoped RevenueEvent)
events_of none = []
events_of (some t) = t.revenue_events

module _ (lib : WorkLibrary) (verifier verifier_secret : String) (r : Reconciler) (durable : Bool)
    (execute_work : WorkOrder → String → String → Result WorkDeliverable) where
  -- The reconciler reads the durable events where it has the repository.
  abbrev pub reconcile_provider : SurplusCall → Stateful Market RevenueEvent
  reconcile_provider c m =
      in_provider m
        (reconcile_surplus lib r (if durable then some (events_of m.tables) else none) c m.provider)

  -- From the verified receipt on: both sides of the ledger, the surplus, and the records.
  unfoldable pub settle_verified :
      Settlement
      → EscrowAgreement
      → WorkDeliverable
      → WorkDeliverableReceipt
      → Stateful Market RevenueEvent
  settle_verified c e d receipt = do
    client_transfer c.release_stamp escrow external_sink c.order.bounty_amount
        (str_append "Escrow released to provider "
          (str_append c.provider_org_id (str_append " for order " c.order.order_id)))
        (str_append "escrow-release-" c.order.order_id)
    provider_deposit c.deposit_stamp c.order.bounty_amount
        (str_append "B2B revenue from client "
          (str_append c.order.organisation_id (str_append " for order " c.order.order_id)))
        (revenue_id c)
    event ← reconcile_provider (surplus_call c d receipt)
    with_tables (λ t. record t {
      revenue_events =
          save_revenue_event c.provider_tenant_id c.provider_org_id event t.revenue_events;
    })
    set_escrow (release_update c e)
    set_order_status c.order completed (some d.deliverable_id) c.now
    returns event

  -- `execute_and_settle` from the escrow on, which is found and HELD.
  unfoldable pub settle_found : Settlement → EscrowAgreement → Stateful Market RevenueEvent
  settle_found c e = do
    raise_when
        (λ m. not (
          has_capability c.provider_tenant_id c.provider_org_id c.producer_agent_id
            c.order.required_capability c.now_date m.grants))
        permission_error
    let w = work_order_of c
    with_tables (λ t. record t { work_orders = save_work_order w t.work_orders })
    d ← answer (execute_work w c.producer_agent_id c.provider_org_id)
    with_tables (λ t. record t {
      deliverables = save_deliverable c.provider_tenant_id c.provider_org_id d t.deliverables;
    })
    let receipt = verify lib verifier verifier_secret c.receipt_id w d
    with_tables (λ t. record t {
      receipts = save_receipt c.provider_tenant_id c.provider_org_id receipt t.receipts;
    })
    raise_when (λ m. not (is_verified receipt)) value_error
    settle_verified c e d receipt

  unfoldable pub execute_and_settle : Settlement → Stateful Market RevenueEvent
  execute_and_settle c = do
    raise_when (λ m. not (is_claimed c.order.status)) value_error
    raise_when
        (λ m.
          not (is_text c.order.claimed_by_org_id c.provider_org_id)
          || not (is_text c.order.claimed_by_agent_id c.producer_agent_id))
        permission_error
    e ← find_held c.order.order_id c.order.tenant_id c.order.organisation_id
    settle_found c e

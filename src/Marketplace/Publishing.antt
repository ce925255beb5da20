-- ===== src/Marketplace/Publishing.antt =====
-- `B2BMarketplaceCoordinator.publish_b2b_order` (src/agents/b2b_marketplace_coordinator.py): the
-- policy's decision on a new order, the lock of its bounty in the client's ledger, and its rows. The
-- JSON texts of a proposal's parameters and of a specification are parameters; identifiers drawn and
-- times are arguments. A call that raises keeps what it wrote.
use kalyx_mao_engine.Base.{ℕ, String, Bool, true, false, not, Option, none, some, List, str_append}
use kalyx_mao_engine.Base.Int.{ℤ, pos, ltb_ℤ}
use kalyx_mao_engine.Base.Dict.{lookup, insert}
use kalyx_mao_engine.Base.Outcome.{Result, ok, err, value_error, permission_error}
use kalyx_mao_engine.Base.Stateful.{Stateful, ◌>>=◌, ◌>>◌, returns, modify, raise_when}
use kalyx_mao_engine.Ledger.{Stamp, LedgerEntry, DoubleEntryLedger, treasury, escrow, transfer}
use kalyx_mao_engine.Entities.{
  AgentRecord, ActionProposal, Organisation, PolicyResult, approved, rejected, escalate_to_human,
}
use kalyx_mao_engine.Policy.Engine.{Library, PolicyEngine, Draw, evaluate}
use kalyx_mao_engine.Governance.Breaker.{Store, is_paused}
use kalyx_mao_engine.Marketplace.Orders.{MarketplaceOrder, Orders, OrderTerms, create, create_order}
use kalyx_mao_engine.Marketplace.Escrows.{EscrowAgreement, Escrows, held, save_escrow}
use kalyx_mao_engine.Marketplace.Coordinator.{Market}

-- The arguments of a call, and what it draws.
pub record Publication : Type 0 where
  pub client_tenant_id : String
  pub client_org_id : String
  pub title : String
  pub description : String
  pub required_capability : String
  pub bounty_amount : ℤ
  pub client_agent : AgentRecord
  pub sla_timeout_seconds : ℕ
  pub specification_payload : Option (List (String × String))
  pub order_uuid : String
  pub proposal_uuid : String
  pub task_uuid : String
  pub escrow_uuid : String
  pub draw : Draw
  pub lock_stamp : Stamp
  pub now : String

-- The client's organisation, which the call may add its agent to, and the market.
pub record Client : Type 0 where
  pub org : Organisation
  pub market : Market

abbrev pub order_id_of : Publication → String
order_id_of c = str_append "mkt-order-" c.order_uuid

abbrev pub lock_id : Publication → String
lock_id c = str_append "escrow-lock-" (order_id_of c)

abbrev pub terms_of : Publication → OrderTerms
terms_of c = record {
  tenant_id = c.client_tenant_id;
  organisation_id = c.client_org_id;
  order_id = order_id_of c;
  title = c.title;
  description = c.description;
  required_capability = c.required_capability;
  bounty_amount = c.bounty_amount;
  bounty_asset = "USDG";
  sla_timeout_seconds = c.sla_timeout_seconds;
  specification_payload = c.specification_payload;
}

abbrev pub escrow_of : Publication → EscrowAgreement
escrow_of c = record {
  tenant_id = c.client_tenant_id;
  organisation_id = c.client_org_id;
  escrow_id = str_append "escrow-" c.escrow_uuid;
  order_id = order_id_of c;
  client_tenant_id = c.client_tenant_id;
  client_org_id = c.client_org_id;
  bounty_amount = c.bounty_amount;
  bounty_asset = "USDG";
  provider_tenant_id = none;
  provider_org_id = none;
  status = held;
  client_ledger_tx_id = some (lock_id c);
  provider_ledger_tx_id = none;
  created_at = c.now;
  released_at = none;
}

-- `if agent.id not in org.agents: org.agents[agent.id] = agent`
abbrev pub add_unless : Option AgentRecord → AgentRecord → Organisation → Organisation
add_unless none a org = record org { agents = insert a.id a org.agents }
add_unless (some known) a org = org

-- What a function without state answers.
abbrev pub answer_of {ℓ} : {A : Type ℓ} → Result A → Stateful Client A
answer_of r s = (r, s)

unfoldable pub with_agent : AgentRecord → Organisation → Organisation
with_agent a org = add_unless (lookup a.id org.agents) a org

abbrev pub is_approval : PolicyResult → Bool
is_approval approved = true
is_approval rejected = false
is_approval escalate_to_human = false

-- The authoritative circuit breaker, if there is one.
abbrev pub is_blocked : Option Store → String → String → Bool
is_blocked none tenant org = false
is_blocked (some s) tenant org = is_paused s tenant org

abbrev pub locked : Result (LedgerEntry × DoubleEntryLedger) → Stateful Client (Unit {0})
locked (ok (e, l)) s = (ok tt, record s { market = record s.market { client_ledger = l } })
locked (err e) s = (err e, s)

abbrev pub lock_bounty : Publication → Stateful Client (Unit {0})
lock_bounty c s =
    locked
      (transfer c.lock_stamp treasury escrow c.bounty_amount
        (str_append "Escrow lock for B2B Order " (order_id_of c)) (some (lock_id c))
        s.market.client_ledger)
      s

abbrev pub set_orders : Result (MarketplaceOrder × Orders) → Stateful Client (Unit {0})
set_orders (ok (o, rows)) s = (ok tt, record s { market = record s.market { orders = rows } })
set_orders (err e) s = (err e, s)

abbrev pub put_order : MarketplaceOrder → Stateful Client (Unit {0})
put_order o s = set_orders (create_order o s.market.orders) s

abbrev pub set_escrows : Result (EscrowAgreement × Escrows) → Stateful Client (Unit {0})
set_escrows (ok (e, rows)) s = (ok tt, record s { market = record s.market { escrows = rows } })
set_escrows (err e) s = (err e, s)

abbrev pub put_escrow : EscrowAgreement → Stateful Client (Unit {0})
put_escrow e s = set_escrows (save_escrow e s.market.escrows) s

module _ (lib : Library) (dumps : List (String × String) → String)
    (parameters_text : ℤ → String → String) (engine : PolicyEngine) (breaker : Option Store) where
  abbrev pub proposal_of : Publication → ActionProposal
  proposal_of c = record {
    id = str_append "prop-" c.proposal_uuid;
    task_id = str_append "task-mkt-" c.task_uuid;
    proposing_agent_id = c.client_agent.id;
    action_type = "PUBLISH_MARKETPLACE_ORDER";
    target = str_append "marketplace://order/" (order_id_of c);
    parameters = parameters_text c.bounty_amount c.required_capability;
    requested_credits = c.bounty_amount;
  }

  abbrev pub is_permitted : Publication → Client → Bool
  is_permitted c s =
      is_approval
        (evaluate lib engine c.draw (proposal_of c) s.org (some s.market.client_ledger)).result

  -- From the policy's approval on.
  unfoldable pub publish_approved : Publication → Stateful Client MarketplaceOrder
  publish_approved c = do
    lock_bounty c
    o ← answer_of (create lib.sha256 dumps c.now (terms_of c))
    put_order o
    put_escrow (escrow_of c)
    returns o

  -- An ActionProposal refuses a negative request with a ValidationError, a ValueError.
  unfoldable pub publish_b2b_order : Publication → Stateful Client MarketplaceOrder
  publish_b2b_order c = do
    raise_when (λ s. is_blocked breaker c.client_tenant_id c.client_org_id) permission_error
    raise_when (λ s. ltb_ℤ c.bounty_amount (pos 0)) value_error
    modify (λ s. record s { org = with_agent c.client_agent s.org })
    raise_when (λ s. not (is_permitted c s)) permission_error
    publish_approved c

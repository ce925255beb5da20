-- ===== src/Marketplace/Orders.antt =====
-- Marketplace orders (src/domain/marketplace.py) and the table `marketplace_orders` of
-- `MarketplaceRepository` (src/persistence/marketplace_repository.py), a list of rows with the key
-- (tenant_id, organisation_id, order_id). Texts of times are strings.
use kalyx_mao_engine.Base.{
  ℕ, String, Bool, true, false, Option, none, some, List, [], ◌∷◌, ◌&&◌, any, str_eq, if◌then◌else◌,
}
use kalyx_mao_engine.Base.Int.{ℤ, pos, leb_ℤ}
use kalyx_mao_engine.Base.Outcome.{
  Result, ok, err, raise_if, ◌>>◌, idempotency_conflict, value_error,
}
use kalyx_mao_engine.Base.Table.{find, update}

pub data MarketplaceOrderStatus : Type 0 where
  opened claimed delivered completed expired cancelled : MarketplaceOrderStatus

abbrev pub is_opened : MarketplaceOrderStatus → Bool
is_opened opened = true
is_opened _ = false

abbrev pub is_completed : MarketplaceOrderStatus → Bool
is_completed completed = true
is_completed _ = false

abbrev pub is_claimed : MarketplaceOrderStatus → Bool
is_claimed claimed = true
is_claimed _ = false

pub record MarketplaceOrder : Type 0 where
  pub tenant_id : String
  pub organisation_id : String
  pub order_id : String
  pub title : String
  pub description : String
  pub specification_hash : String
  pub required_capability : String
  pub bounty_amount : ℤ
  pub bounty_asset : String
  pub sla_timeout_seconds : ℕ
  pub status : MarketplaceOrderStatus
  pub claimed_by_tenant_id : Option String
  pub claimed_by_org_id : Option String
  pub claimed_by_agent_id : Option String
  pub work_order_id : Option String
  pub deliverable_id : Option String
  pub created_at : String
  pub claimed_at : Option String
  pub completed_at : Option String

-- What `MarketplaceOrder.create` is given; a payload that is missing or empty is `none`.
pub record OrderTerms : Type 0 where
  pub tenant_id : String
  pub organisation_id : String
  pub order_id : String
  pub title : String
  pub description : String
  pub required_capability : String
  pub bounty_amount : ℤ
  pub bounty_asset : String
  pub sla_timeout_seconds : ℕ
  pub specification_payload : Option (List (String × String))

abbrev payload_or :
    Option (List (String × String)) → List (String × String) → List (String × String)
payload_or none default = default
payload_or (some fields) default = fields

-- `MarketplaceOrder.create`; `dumps` is `json.dumps` with sorted keys.
unfoldable pub create :
    (String → String)
    → (List (String × String) → String)
    → String
    → OrderTerms
    → Result MarketplaceOrder
create sha256 dumps now t = do
  raise_if (leb_ℤ t.bounty_amount (pos 0)) value_error
  ok (record {
    tenant_id = t.tenant_id;
    organisation_id = t.organisation_id;
    order_id = t.order_id;
    title = t.title;
    description = t.description;
    specification_hash = sha256 (
        dumps (
          payload_or t.specification_payload
            (("title", t.title) ∷ ("description", t.description) ∷ [])));
    required_capability = t.required_capability;
    bounty_amount = t.bounty_amount;
    bounty_asset = t.bounty_asset;
    sla_timeout_seconds = t.sla_timeout_seconds;
    status = opened;
    claimed_by_tenant_id = none;
    claimed_by_org_id = none;
    claimed_by_agent_id = none;
    work_order_id = none;
    deliverable_id = none;
    created_at = now;
    claimed_at = none;
    completed_at = none;
  })

abbrev pub Orders : Type 0
Orders = List MarketplaceOrder

abbrev pub is_order : String → String → String → MarketplaceOrder → Bool
is_order tenant org id o =
    str_eq o.tenant_id tenant && str_eq o.organisation_id org && str_eq o.order_id id

unfoldable pub get_order : String → String → String → Orders → Option MarketplaceOrder
get_order tenant org id = find (is_order tenant org id)

unfoldable pub get_order_by_id : String → Orders → Option MarketplaceOrder
get_order_by_id id = find (λ o. str_eq o.order_id id)

-- The columns that the INSERT names; the others are NULL.
abbrev pub inserted_order : MarketplaceOrder → MarketplaceOrder
inserted_order o = record o {
  claimed_by_tenant_id = none;
  claimed_by_org_id = none;
  claimed_by_agent_id = none;
  work_order_id = none;
  deliverable_id = none;
  claimed_at = none;
  completed_at = none;
}

abbrev pub create_unless :
    Option MarketplaceOrder → MarketplaceOrder → Orders → Result (MarketplaceOrder × Orders)
create_unless none o rows = ok (o, inserted_order o ∷ rows)
create_unless (some existing) o rows =
    if str_eq existing.specification_hash o.specification_hash
    then ok (existing, rows)
    else err idempotency_conflict

unfoldable pub create_order : MarketplaceOrder → Orders → Result (MarketplaceOrder × Orders)
create_order o rows = create_unless (get_order o.tenant_id o.organisation_id o.order_id rows) o rows

-- Who claims an order, and for which work order.
pub record Claim : Type 0 where
  pub tenant_id : String
  pub organisation_id : String
  pub order_id : String
  pub claimed_by_tenant_id : String
  pub claimed_by_org_id : String
  pub claimed_by_agent_id : String
  pub work_order_id : Option String
  pub claimed_at : String

abbrev pub is_claimable : Claim → MarketplaceOrder → Bool
is_claimable c o = is_order c.tenant_id c.organisation_id c.order_id o && is_opened o.status

abbrev pub claimed_order : Claim → MarketplaceOrder → MarketplaceOrder
claimed_order c o = record o {
  status = claimed;
  claimed_by_tenant_id = some c.claimed_by_tenant_id;
  claimed_by_org_id = some c.claimed_by_org_id;
  claimed_by_agent_id = some c.claimed_by_agent_id;
  work_order_id = c.work_order_id;
  claimed_at = some c.claimed_at;
}

-- The UPDATE, and whether it changed a row.
unfoldable pub claim_order : Claim → Orders → Bool × Orders
claim_order c rows = (any (is_claimable c) rows, update (is_claimable c) (claimed_order c) rows)

-- `COALESCE(new, old)`
abbrev pub coalesce : Option String → Option String → Option String
coalesce none old = old
coalesce (some new) old = some new

abbrev completed_time : MarketplaceOrderStatus → String → Option String
completed_time completed now = some now
completed_time _ now = none

unfoldable pub update_order_status :
    String → String → String → MarketplaceOrderStatus → Option String → String → Orders → Orders
update_order_status tenant org id status deliverable now = update (is_order tenant org id) (λ o.
    record o {
      status = status;
      deliverable_id = coalesce deliverable o.deliverable_id;
      completed_at = coalesce (completed_time status now) o.completed_at;
    })

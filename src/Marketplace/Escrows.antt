-- ===== src/Marketplace/Escrows.antt =====
-- Escrow agreements (src/domain/marketplace.py) and the table `marketplace_escrows` of
-- `MarketplaceRepository` (src/persistence/marketplace_repository.py), a list of rows with the key
-- (tenant_id, organisation_id, escrow_id).
use kalyx_mao_engine.Base.{
  String, Bool, true, false, Option, none, some, List, ◌∷◌, ◌&&◌, ◌||◌, any, str_eq, is_empty,
  if◌then◌else◌,
}
use kalyx_mao_engine.Base.Int.{ℤ, eqb_ℤ}
use kalyx_mao_engine.Base.Outcome.{
  Result, ok, err, raise_if, ◌>>◌, idempotency_conflict, value_error,
}
use kalyx_mao_engine.Base.Table.{find, update}
use kalyx_mao_engine.Marketplace.Orders.{MarketplaceOrder, Orders, coalesce}

pub data EscrowStatus : Type 0 where
  held released refunded : EscrowStatus

abbrev pub is_held : EscrowStatus → Bool
is_held held = true
is_held _ = false

pub record EscrowAgreement : Type 0 where
  pub tenant_id : String
  pub organisation_id : String
  pub escrow_id : String
  pub order_id : String
  pub client_tenant_id : String
  pub client_org_id : String
  pub bounty_amount : ℤ
  pub bounty_asset : String
  pub provider_tenant_id : Option String
  pub provider_org_id : Option String
  pub status : EscrowStatus
  pub client_ledger_tx_id : Option String
  pub provider_ledger_tx_id : Option String
  pub created_at : String
  pub released_at : Option String

abbrev pub Escrows : Type 0
Escrows = List EscrowAgreement

abbrev pub is_escrow : String → String → String → EscrowAgreement → Bool
is_escrow tenant org id e =
    str_eq e.tenant_id tenant && str_eq e.organisation_id org && str_eq e.escrow_id id

unfoldable pub get_escrow : String → String → String → Escrows → Option EscrowAgreement
get_escrow tenant org id = find (is_escrow tenant org id)

abbrev pub save_unless :
    Option EscrowAgreement → EscrowAgreement → Escrows → Result (EscrowAgreement × Escrows)
save_unless none e rows = ok (e, e ∷ rows)
save_unless (some existing) e rows =
    if str_eq existing.order_id e.order_id && eqb_ℤ existing.bounty_amount e.bounty_amount
    then ok (existing, rows)
    else err idempotency_conflict

unfoldable pub save_escrow : EscrowAgreement → Escrows → Result (EscrowAgreement × Escrows)
save_escrow e rows = save_unless (get_escrow e.tenant_id e.organisation_id e.escrow_id rows) e rows

abbrev is_some_text : String → Option String → Bool
is_some_text s none = false
is_some_text s (some t) = str_eq t s

-- The order that an escrow is for.
abbrev pub is_order_of : EscrowAgreement → MarketplaceOrder → Bool
is_order_of e o =
    str_eq o.tenant_id e.client_tenant_id
    && str_eq o.organisation_id e.client_org_id
    && str_eq o.order_id e.order_id

abbrev pub claimed_by : String → String → MarketplaceOrder → Bool
claimed_by tenant org o =
    is_some_text tenant o.claimed_by_tenant_id && is_some_text org o.claimed_by_org_id

-- The escrow of an order, for the scope that owns the escrow or that claims the order.
abbrev pub is_visible : String → String → String → Orders → EscrowAgreement → Bool
is_visible order_id tenant org orders e =
    str_eq e.order_id order_id
    && any
        (λ o.
          is_order_of e o
          && ((str_eq e.tenant_id tenant && str_eq e.organisation_id org)
              || claimed_by tenant org o))
        orders

unfoldable pub get_escrow_by_order :
    String → String → String → Orders → Escrows → Result (Option EscrowAgreement)
get_escrow_by_order order_id tenant org orders rows = do
  raise_if (is_empty tenant || is_empty org) value_error
  ok (find (is_visible order_id tenant org orders) rows)

abbrev released_time : EscrowStatus → String → Option String
released_time held now = none
released_time released now = some now
released_time refunded now = some now

-- The arguments of `update_escrow_status`.
pub record EscrowUpdate : Type 0 where
  pub tenant_id : String
  pub organisation_id : String
  pub escrow_id : String
  pub status : EscrowStatus
  pub provider_tenant_id : Option String
  pub provider_org_id : Option String
  pub provider_ledger_tx_id : Option String
  pub now : String

abbrev pub updated_escrow : EscrowUpdate → EscrowAgreement → EscrowAgreement
updated_escrow u e = record e {
  status = u.status;
  provider_tenant_id = coalesce u.provider_tenant_id e.provider_tenant_id;
  provider_org_id = coalesce u.provider_org_id e.provider_org_id;
  provider_ledger_tx_id = coalesce u.provider_ledger_tx_id e.provider_ledger_tx_id;
  released_at = coalesce (released_time u.status u.now) e.released_at;
}

unfoldable pub update_escrow_status : EscrowUpdate → Escrows → Escrows
update_escrow_status u =
    update (is_escrow u.tenant_id u.organisation_id u.escrow_id) (updated_escrow u)

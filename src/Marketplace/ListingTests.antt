-- ===== src/Marketplace/ListingTests.antt =====
-- An order published, and published and refunded, on concrete inputs.
use kalyx_mao_engine.Base.{String, ◌≡◌, refl, none, [], ◌∷◌, List, str_append, arith}
use kalyx_mao_engine.Base.Int.{ℤ, pos, ◌+ℤ◌, ◌-ℤ◌}
use kalyx_mao_engine.Base.Dict.{lookup, insert, get_or}
use kalyx_mao_engine.Base.Table.{find}
use kalyx_mao_engine.Base.Outcome.{ok}
use kalyx_mao_engine.Ledger.{Stamp, transfer, get_balance}
use kalyx_mao_engine.Entities.{AgentRecord, active, executing}
use kalyx_mao_engine.Policy.Engine.{Library, PolicyEngine, evaluate, check_rules}
use kalyx_mao_engine.Policy.Decisions.{core_rules}
use kalyx_mao_engine.Marketplace.Orders.{MarketplaceOrder, opened, create, create_order, get_order}
use kalyx_mao_engine.Marketplace.Escrows.{save_escrow, get_escrow}
use kalyx_mao_engine.Marketplace.Coordinator.{refund_escrow}
use kalyx_mao_engine.Marketplace.Publishing.{
  Publication, Client, with_agent, publish_approved, publish_b2b_order,
}
use kalyx_mao_engine.Marketplace.Listing.{Published, publish_b2b_order-Published}
use kalyx_mao_engine.Marketplace.Reversal.{closed, refund_of, refund_escrow-publish_b2b_order}

abbrev lib : Library
lib = record {
  hmac = λ key text. "signature";
  sha256 = str_append "#";
  decimal = λ n. "1";
  policy_text = λ rules n. "policy";
  round3 = λ t. t;
  encode_claims = λ c. c.nonce;
  decode_claims = λ t. none;
}

abbrev engine : PolicyEngine
engine = record {
  rules = core_rules lib [];
  human_approval_threshold = pos 40;
  token_ttl = 60;
  secret = "s";
}

abbrev stamp : Stamp
stamp = record { entry_id = "e"; uuid = "u"; now = 1 }

abbrev agent : AgentRecord
agent = record {
  id = "buyer";
  role = "CEO";
  authority_ceiling = pos 25;
  allowed_action_types = "PUBLISH_MARKETPLACE_ORDER" ∷ [];
  status = active;
}

abbrev publication : Publication
publication = record {
  client_tenant_id = "t";
  client_org_id = "client";
  title = "report";
  description = "a report";
  required_capability = "research";
  bounty_amount = pos 20;
  client_agent = agent;
  sla_timeout_seconds = 3600;
  specification_payload = none;
  order_uuid = "1";
  proposal_uuid = "2";
  task_uuid = "3";
  escrow_uuid = "4";
  draw = record { now = 5; decision_id = "dec-1"; nonce = "n" };
  lock_stamp = stamp;
  now = "t0";
}

-- The agent is not yet one of the organisation's.
abbrev client : Client
client = record {
  org = record {
    id = "client";
    tenant_id = "t";
    treasury_balance = pos 100;
    state = executing;
    agents = [];
  };
  market = record {
    orders = [];
    escrows = [];
    grants = [];
    client_ledger = record {
      balances = ("TREASURY", pos 100) ∷ [];
      entries = [];
      recorded_tx_ids = [];
      total_minted = pos 100;
    };
    provider = record {
      ledger = record { balances = []; entries = []; recorded_tx_ids = []; total_minted = pos 0 };
      events = [];
    };
    tables = none;
  };
}

abbrev dumps : List (String × String) → String
dumps fields = "{}"

abbrev parameters_text : ℤ → String → String
parameters_text n capability = "{}"

abbrev listed : MarketplaceOrder
listed = record {
  tenant_id = "t";
  organisation_id = "client";
  order_id = "mkt-order-1";
  title = "report";
  description = "a report";
  specification_hash = "#{}";
  required_capability = "research";
  bounty_amount = pos 20;
  bounty_asset = "USDG";
  sla_timeout_seconds = 3600;
  status = opened;
  claimed_by_tenant_id = none;
  claimed_by_org_id = none;
  claimed_by_agent_id = none;
  work_order_id = none;
  deliverable_id = none;
  created_at = "t0";
  claimed_at = none;
  completed_at = none;
}

abbrev after : Client
after = (publish_b2b_order lib dumps parameters_text engine none publication client).1

publish_b2b_order-Published_example :
    Published lib dumps parameters_text engine none publication client after listed
unfolding publish_b2b_order publish_approved with_agent lookup insert evaluate check_rules transfer
    create create_order get_order find save_escrow get_escrow get_or ◌+ℤ◌ ◌-ℤ◌
publish_b2b_order-Published_example =
    publish_b2b_order-Published lib dumps parameters_text engine none publication client after
      listed refl refl refl refl

refund_escrow-publish_b2b_order_example :
    ((refund_escrow (refund_of publication "expired" stamp "t1") after.market).0
      ≡ ok (closed publication "expired" stamp "t1"))
    × ((a : String)
        → get_balance
            (refund_escrow
              (refund_of publication "expired" stamp "t1")
              after.market).1.client_ledger
            a
          ≡ get_balance client.market.client_ledger a)
unfolding publish_b2b_order publish_approved with_agent lookup insert evaluate check_rules transfer
    create create_order get_order find save_escrow get_escrow get_or ◌+ℤ◌ ◌-ℤ◌
refund_escrow-publish_b2b_order_example =
    refund_escrow-publish_b2b_order lib dumps parameters_text engine none publication "expired"
      stamp "t1" client after listed refl refl refl refl (omega arith) refl

-- ===== src/Orbio/Samples.antt =====
-- A purchase of 100 USDG on the mainnet exchange, above an autonomous ceiling of 50, and its evidence.
use kalyx_mao_engine.Base.{true, none, some, [], ◌∷◌, str_append}
use kalyx_mao_engine.Base.Int.{pos}
use kalyx_mao_engine.Orbio.Intents.{OrbioPurchaseIntent, Digests}
use kalyx_mao_engine.Orbio.Bounds.{
  Limits, default_deployments, usdg_mainnet, orbio_credit_mainnet, orbio_exchange_mainnet,
}
use kalyx_mao_engine.Orbio.Verifier.{OrbioPurchaseEvidence}

abbrev pub lib : Digests
lib = record {
  sha256 = λ s. s;
  hmac_sha256 = λ key s. str_append key s;
  canonical_json = λ fields. "intent";
  time_text = λ t. "time";
}

abbrev pub limits : Limits
limits = record {
  deployments = default_deployments;
  allowed_beneficiaries = "0x00000000000000000000000000000000000000aa" ∷ [];
  require_beneficiary_allowlist = true;
  autonomous_usdg_ceiling = 50;
  absolute_usdg_ceiling = 500;
  max_fills = 5;
  max_fee_per_gas = 100;
  max_priority_fee_per_gas = 10;
  max_gas_limit = 1000;
  human_approval_ttl_seconds = 60;
  secret = "secret";
}

abbrev pub intent : OrbioPurchaseIntent
intent = record {
  tenant_id = "tenant";
  organisation_id = "org";
  mission_id = none;
  operation_id = "op-1";
  chain_id = pos 4663;
  network = "robinhood";
  exchange_contract = orbio_exchange_mainnet;
  payment_token = usdg_mainnet;
  credit_token = orbio_credit_mainnet;
  usdg_in = 100;
  min_credit_out = 90;
  beneficiary = "0x00000000000000000000000000000000000000aa";
  max_fills = 3;
  max_fee_per_gas = 50;
  max_priority_fee_per_gas = 5;
  gas_limit = 500;
  amount_credits = 40;
  idempotency_key = "key";
  policy_decision_id = "dec-1";
  authorization_token_hash = "token";
  deadline = some 90;
}

abbrev pub evidence : OrbioPurchaseEvidence
evidence = record {
  purchase_intent_hash = "intent";
  provider_reference = "0xtx";
  chain_id = some (pos 4663);
  network = some "robinhood";
  exchange_contract = orbio_exchange_mainnet;
  usdg_spent = pos 100;
  credit_out = pos 95;
  min_credit_out = pos 90;
  beneficiary = "0x00000000000000000000000000000000000000aa";
  activation_id = "activation-1";
  tenant_id = some "tenant";
  organisation_id = none;
  evidence_hash = none;
  provider_name = none;
  events = [];
}

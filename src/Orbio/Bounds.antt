-- ===== src/Orbio/Bounds.antt =====
-- The bounds of `OrbioPurchasePolicy` (src/governance/orbio_purchase_rules.py): the deployments, the
-- allowlist and the ceilings, and the code of the first one that an intent breaks.
use kalyx_mao_engine.Base.{
  ℕ, String, Bool, true, false, not, Option, none, some, List, [], ◌∷◌, ◌&&◌, any, contains, str_eq,
  ltb, leb, if◌then◌else◌,
}
use kalyx_mao_engine.Base.Int.{ℤ, pos, eqb_ℤ}
use kalyx_mao_engine.Orbio.Text.{lower, is_eth_address}
use kalyx_mao_engine.Orbio.Intents.{OrbioPurchaseIntent, address_to_beneficiary_bytes32}

pub data PurchaseDenialCode : Type 0 where
  unauthorized_network unauthorized_exchange unauthorized_payment_token : PurchaseDenialCode
  unauthorized_credit_token unauthorized_beneficiary max_usdg_exceeded : PurchaseDenialCode
  slippage_bound_invalid max_fills_exceeded gas_bound_exceeded deadline_expired : PurchaseDenialCode
  missing_human_approval human_approval_intent_mismatch human_approval_expired : PurchaseDenialCode
  human_approval_tenant_mismatch unauthorized_human_approval : PurchaseDenialCode
  human_approval_revoked unauthorized_deployment policy_binding_mismatch : PurchaseDenialCode
  invalid_intent : PurchaseDenialCode

pub record OrbioDeployment : Type 0 where
  pub chain_id : ℤ
  pub network : String
  pub exchange_contract : String
  pub payment_token : String
  pub credit_token : String

-- `to_tuple`
unfoldable pub to_tuple : OrbioDeployment → OrbioDeployment
to_tuple d = record {
  chain_id = d.chain_id;
  network = lower d.network;
  exchange_contract = lower d.exchange_contract;
  payment_token = lower d.payment_token;
  credit_token = lower d.credit_token;
}

abbrev pub orbio_exchange_mainnet : String
orbio_exchange_mainnet = "0x6951ffd32630b05e06f50062aea801625a58ebc0"

abbrev pub orbio_credit_mainnet : String
orbio_credit_mainnet = "0xe33322da1380e61e5ae5dfb21e7f62924c73004c"

abbrev pub usdg_mainnet : String
usdg_mainnet = "0x5fc5360d0400a0fd4f2af552add042d716f1d168"

abbrev pub deployment_on : ℕ → String → OrbioDeployment
deployment_on chain network = record {
  chain_id = pos chain;
  network = network;
  exchange_contract = orbio_exchange_mainnet;
  payment_token = usdg_mainnet;
  credit_token = orbio_credit_mainnet;
}

abbrev pub default_deployments : List OrbioDeployment
default_deployments =
    deployment_on 46630 "robinhood-testnet"
    ∷ deployment_on 46630 "robinhood"
    ∷ deployment_on 4663 "robinhood-mainnet"
    ∷ deployment_on 4663 "robinhood"
    ∷ []

-- The fields that no method writes after the constructor.
pub record Limits : Type 0 where
  pub deployments : List OrbioDeployment
  pub allowed_beneficiaries : List String
  pub require_beneficiary_allowlist : Bool
  pub autonomous_usdg_ceiling : ℕ
  pub absolute_usdg_ceiling : ℕ
  pub max_fills : ℕ
  pub max_fee_per_gas : ℕ
  pub max_priority_fee_per_gas : ℕ
  pub max_gas_limit : ℕ
  pub human_approval_ttl_seconds : ℕ
  pub secret : String

abbrev pub tuple_of : OrbioPurchaseIntent → OrbioDeployment
tuple_of i = to_tuple (record {
  chain_id = i.chain_id;
  network = i.network;
  exchange_contract = i.exchange_contract;
  payment_token = i.payment_token;
  credit_token = i.credit_token;
})

abbrev pub same_tuple : OrbioDeployment → OrbioDeployment → Bool
same_tuple a b =
    eqb_ℤ a.chain_id b.chain_id
    && str_eq a.network b.network
    && str_eq a.exchange_contract b.exchange_contract
    && str_eq a.payment_token b.payment_token
    && str_eq a.credit_token b.credit_token

abbrev any_deployment : (OrbioDeployment → Bool) → List OrbioDeployment → Bool
any_deployment test = any (λ d. test (to_tuple d))

unfoldable pub is_deployed : Limits → OrbioPurchaseIntent → Bool
is_deployed p i = any_deployment (λ d. same_tuple d (tuple_of i)) p.deployments

-- Why a tuple that is not among the deployments is denied.
unfoldable pub deployment_code : Limits → OrbioPurchaseIntent → PurchaseDenialCode
deployment_code p i =
    let t = tuple_of i in
    let among : (OrbioDeployment → Bool) → Bool = λ test. any_deployment test p.deployments in
    if not (among (λ d. eqb_ℤ d.chain_id t.chain_id))
    then unauthorized_network
    else if not (among (λ d. str_eq d.network t.network))
    then unauthorized_network
    else if not (among (λ d. eqb_ℤ d.chain_id t.chain_id && str_eq d.network t.network))
    then unauthorized_network
    else if not (among (λ d. str_eq d.exchange_contract t.exchange_contract))
    then unauthorized_exchange
    else if not (among (λ d. str_eq d.payment_token t.payment_token))
    then unauthorized_payment_token
    else if not (among (λ d. str_eq d.credit_token t.credit_token))
    then unauthorized_credit_token
    else unauthorized_deployment

abbrev maps_to : String → String → Bool
maps_to key entry =
    if is_eth_address entry
    then str_eq (lower (address_to_beneficiary_bytes32 entry)) key
    else str_eq entry key

abbrev is_empty_list : List String → Bool
is_empty_list [] = true
is_empty_list (x ∷ xs) = false

-- Whether the beneficiary passes; the entries of the allowlist are in lower case.
unfoldable pub is_beneficiary_allowed : Limits → OrbioPurchaseIntent → Bool
is_beneficiary_allowed p i =
    let key = lower i.beneficiary in
    if not p.require_beneficiary_allowlist && is_empty_list p.allowed_beneficiaries
    then true
    else if contains key p.allowed_beneficiaries
    then true
    else if is_eth_address key
    then contains (lower (address_to_beneficiary_bytes32 key)) p.allowed_beneficiaries
    else any (maps_to key) p.allowed_beneficiaries

abbrev pub is_past : Option ℕ → ℕ → Bool
is_past none now = false
is_past (some deadline) now = ltb deadline now

-- The bounds, in their order.
unfoldable pub bound_denial : Limits → OrbioPurchaseIntent → ℕ → Option PurchaseDenialCode
bound_denial p i now =
    if not (is_deployed p i)
    then some (deployment_code p i)
    else if not (is_beneficiary_allowed p i)
    then some unauthorized_beneficiary
    else if ltb p.absolute_usdg_ceiling i.usdg_in
    then some max_usdg_exceeded
    else if ltb i.usdg_in i.min_credit_out
    then some slippage_bound_invalid
    else if leb i.min_credit_out 0 && ltb 0 i.usdg_in
    then some slippage_bound_invalid
    else if ltb p.max_fills i.max_fills
    then some max_fills_exceeded
    else if ltb p.max_fee_per_gas i.max_fee_per_gas
    then some gas_bound_exceeded
    else if ltb p.max_priority_fee_per_gas i.max_priority_fee_per_gas
    then some gas_bound_exceeded
    else if ltb p.max_gas_limit i.gas_limit
    then some gas_bound_exceeded
    else if is_past i.deadline now
    then some deadline_expired
    else none

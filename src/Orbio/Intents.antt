-- ===== src/Orbio/Intents.antt =====
-- `OrbioPurchaseIntent` (src/domain/blockchain.py). Its contract addresses and its beneficiary are in
-- the form that its validators leave: stripped and in lower case.
use kalyx_mao_engine.Base.{ℕ, String, Option, none, some, List, [], ◌∷◌, str_append, if◌then◌else◌}
use kalyx_mao_engine.Base.Int.{ℤ, pos}
use kalyx_mao_engine.Execution.State.{Field, text, number, absent}
use kalyx_mao_engine.Orbio.Text.{lower, drop_chars, zfill, is_bytes32}

pub record OrbioPurchaseIntent : Type 0 where
  pub tenant_id : String
  pub organisation_id : String
  pub mission_id : Option String
  pub operation_id : String
  pub chain_id : ℤ
  pub network : String
  pub exchange_contract : String
  pub payment_token : String
  pub credit_token : String
  pub usdg_in : ℕ
  pub min_credit_out : ℕ
  pub beneficiary : String
  pub max_fills : ℕ
  pub max_fee_per_gas : ℕ
  pub max_priority_fee_per_gas : ℕ
  pub gas_limit : ℕ
  pub amount_credits : ℕ
  pub idempotency_key : String
  pub policy_decision_id : String
  pub authorization_token_hash : String
  pub deadline : Option ℕ

-- `address_to_beneficiary_bytes32` of a valid address
unfoldable pub address_to_beneficiary_bytes32 : String → String
address_to_beneficiary_bytes32 address = str_append "0x" (zfill 64 (drop_chars 2 (lower address)))

unfoldable pub beneficiary_as_bytes32 : OrbioPurchaseIntent → String
beneficiary_as_bytes32 i =
    if is_bytes32 i.beneficiary then i.beneficiary else address_to_beneficiary_bytes32 i.beneficiary

abbrev pub optional_text : Option String → Field
optional_text none = absent
optional_text (some s) = text s

abbrev optional_number : Option ℕ → Field
optional_number none = absent
optional_number (some n) = number (pos n)

-- The fields that the hash is taken over.
unfoldable pub hashed_fields : OrbioPurchaseIntent → List (String × Field)
hashed_fields i =
    ("tenant_id", text i.tenant_id)
    ∷ ("organisation_id", text i.organisation_id)
    ∷ ("mission_id", optional_text i.mission_id)
    ∷ ("operation_id", text i.operation_id)
    ∷ ("chain_id", number i.chain_id)
    ∷ ("network", text i.network)
    ∷ ("exchange_contract", text i.exchange_contract)
    ∷ ("payment_token", text i.payment_token)
    ∷ ("credit_token", text i.credit_token)
    ∷ ("usdg_in", number (pos i.usdg_in))
    ∷ ("min_credit_out", number (pos i.min_credit_out))
    ∷ ("beneficiary", text (beneficiary_as_bytes32 i))
    ∷ ("max_fills", number (pos i.max_fills))
    ∷ ("max_fee_per_gas", number (pos i.max_fee_per_gas))
    ∷ ("max_priority_fee_per_gas", number (pos i.max_priority_fee_per_gas))
    ∷ ("gas_limit", number (pos i.gas_limit))
    ∷ ("amount_credits", number (pos i.amount_credits))
    ∷ ("idempotency_key", text i.idempotency_key)
    ∷ ("policy_decision_id", text i.policy_decision_id)
    ∷ ("authorization_token_hash", text i.authorization_token_hash)
    ∷ ("deadline", optional_number i.deadline)
    ∷ ("function", text "buyAndActivate(uint256,uint256,bytes32,uint256)")
    ∷ []

-- SHA-256, HMAC, `canonical_json` and the text of a time.
pub record Digests : Type 0 where
  pub sha256 : String → String
  pub hmac_sha256 : String → String → String
  pub canonical_json : List (String × Field) → String
  pub time_text : ℕ → String

unfoldable pub compute_purchase_intent_hash : Digests → OrbioPurchaseIntent → String
compute_purchase_intent_hash lib i = lib.sha256 (lib.canonical_json (hashed_fields i))

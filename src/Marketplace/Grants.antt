-- ===== src/Marketplace/Grants.antt =====
-- Capability grants (src/domain/capability.py) and the table `agent_capability_grants` of
-- `MarketplaceRepository` (src/persistence/marketplace_repository.py), a list of rows with the key
-- (tenant_id, organisation_id, grant_id). Times are numbers; the score that a grant records and
-- nothing reads is left out.
use kalyx_mao_engine.Base.{
  ℕ, String, Bool, true, false, Option, List, ◌&&◌, any, leb, str_eq, is_empty, or_else, length,
}
use kalyx_mao_engine.Base.Outcome.{Result, ok, raise_if, ◌>>◌, value_error}
use kalyx_mao_engine.Base.Table.{find, select, update, upsert}

pub data CapabilityGrantStatus : Type 0 where
  active expired revoked : CapabilityGrantStatus

abbrev pub is_active : CapabilityGrantStatus → Bool
is_active active = true
is_active _ = false

pub record CapabilityGrant : Type 0 where
  pub tenant_id : String
  pub organisation_id : String
  pub grant_id : String
  pub agent_id : String
  pub capability_name : String
  pub permission_level : String
  pub granted_by_policy_id : String
  pub status : CapabilityGrantStatus
  pub granted_at : ℕ
  pub expires_at : ℕ

unfoldable pub is_valid : ℕ → CapabilityGrant → Bool
is_valid now g = is_active g.status && leb now g.expires_at

abbrev pub Grants : Type 0
Grants = List CapabilityGrant

abbrev pub is_grant : String → String → String → CapabilityGrant → Bool
is_grant tenant org id g =
    str_eq g.tenant_id tenant && str_eq g.organisation_id org && str_eq g.grant_id id

unfoldable pub save_capability_grant : CapabilityGrant → Grants → Grants
save_capability_grant g =
    upsert (is_grant g.tenant_id g.organisation_id g.grant_id) g
      (λ r. record r { status = g.status; expires_at = g.expires_at })

unfoldable pub get_capability_grant : String → String → String → Grants → Option CapabilityGrant
get_capability_grant tenant org id = find (is_grant tenant org id)

abbrev pub is_of_agent : String → String → String → CapabilityGrant → Bool
is_of_agent tenant org agent g =
    str_eq g.tenant_id tenant && str_eq g.organisation_id org && str_eq g.agent_id agent

-- `list_agent_grants`, in the order of the table: its callers do not depend on the order.
unfoldable pub list_agent_grants : String → String → String → Bool → Grants → List CapabilityGrant
list_agent_grants tenant org agent true =
    select (λ g. is_of_agent tenant org agent g && is_active g.status)
list_agent_grants tenant org agent false = select (is_of_agent tenant org agent)

unfoldable pub has_capability : String → String → String → String → ℕ → Grants → Bool
has_capability tenant org agent capability now rows =
    any (λ g. str_eq g.capability_name capability && is_valid now g)
      (list_agent_grants tenant org agent true rows)

abbrev pub is_revocable : String → String → String → String → CapabilityGrant → Bool
is_revocable tenant org agent capability g =
    is_of_agent tenant org agent g && str_eq g.capability_name capability && is_active g.status

-- `revoke_capability`: how many rows it changed, and the table.
unfoldable pub revoke_capability :
    String → String → String → Option String → Option String → Grants → Result (ℕ × Grants)
revoke_capability tenant org agent capability_name capability rows =
    let name = or_else capability_name (or_else capability "") in
    do
      raise_if (is_empty name) value_error
      let test = is_revocable tenant org agent name
      ok (length (select test rows), update test (λ g. record g { status = revoked }) rows)

-- ===== src/Governance/Approvals.antt =====
-- `ExecutionApprovalManager` (src/governance/execution_approval.py): an approval bound to one
-- execution authority, issued with its row and consumed once. `decision_hash` takes the text that
-- `json.dumps` makes of the decision. The table `execution_approvals` is a list of rows.
use kalyx_mao_engine.Base.{
  ℕ, ◌+◌, String, Bool, not, Option, none, some, List, [], ◌∷◌, ◌||◌, ◌&&◌, str_append, str_eq, ltb,
  leb, ◌==◌, if◌then◌else◌, any,
}
use kalyx_mao_engine.Base.Table.{find, update}
use kalyx_mao_engine.Governance.Admin.{Primitives, join_colon}

pub record ExecutionApproval : Type 0 where
  pub approval_id : String
  pub tenant_id : String
  pub organisation_id : String
  pub principal_id : String
  pub authority_id : String
  pub intent_hash : String
  pub policy_decision_id : String
  pub policy_decision_hash : String
  pub issued_at : ℕ
  pub expires_at : ℕ
  pub signature : String

-- A row of `execution_approvals`.
pub record ExecutionRow : Type 0 where
  pub approval : ExecutionApproval
  pub consumed : ℕ

-- What `issue` and `verify_and_consume` are given besides the approval.
pub record Authority : Type 0 where
  pub tenant_id : String
  pub organisation_id : String
  pub principal_id : String
  pub authority_id : String
  pub intent_hash : String
  pub policy_decision_id : String
  pub policy_decision : String

pub data Denial : Type 0 where
  scope principal authority intent decision expired_approval decision_hash signature : Denial
  not_durable consumed_before replay : Denial

abbrev pub has_id : String → ExecutionRow → Bool
has_id id r = str_eq r.approval.approval_id id

-- The statement `UPDATE … SET consumed = 1 WHERE approval_id = ? AND consumed = 0`.
unfoldable pub consume_row : String → List ExecutionRow → List ExecutionRow
consume_row id = update (λ r. has_id id r && r.consumed == 0) (λ r. record r { consumed = 1 })

-- Whether that statement changes a row; `approval_id` is the primary key.
unfoldable pub is_pending : String → List ExecutionRow → Bool
is_pending id = any (λ r. has_id id r && r.consumed == 0)

unfoldable pub check_row : Option ExecutionRow → Option Denial
check_row none = some not_durable
check_row (some r) = if r.consumed == 0 then none else some consumed_before

-- The UPDATE and the test of its count, unless a check has a reason against it.
unfoldable pub consume_or_deny :
    Option Denial → String → List ExecutionRow → List ExecutionRow × Option Denial
consume_or_deny (some why) id rows = (rows, some why)
consume_or_deny none id rows =
    if is_pending id rows then (consume_row id rows, none) else (rows, some replay)

module _ (lib : Primitives) (secret : String) where
  unfoldable pub canonical_text : ExecutionApproval → String
  canonical_text a = join_colon (
      a.approval_id
      ∷ a.tenant_id
      ∷ a.organisation_id
      ∷ a.principal_id
      ∷ a.authority_id
      ∷ a.intent_hash
      ∷ a.policy_decision_id
      ∷ a.policy_decision_hash
      ∷ lib.format_time a.issued_at
      ∷ lib.format_time a.expires_at
      ∷ [])

  abbrev pub sign : ExecutionApproval → String
  sign a = lib.hmac_sha256 secret (canonical_text a)

  unfoldable pub unsigned_approval : String → Authority → ℕ → ℕ → ExecutionApproval
  unsigned_approval uuid e ttl now = record {
    approval_id = str_append "exec-appr-" uuid;
    tenant_id = e.tenant_id;
    organisation_id = e.organisation_id;
    principal_id = e.principal_id;
    authority_id = e.authority_id;
    intent_hash = e.intent_hash;
    policy_decision_id = e.policy_decision_id;
    policy_decision_hash = lib.sha256 e.policy_decision;
    issued_at = now;
    expires_at = now + ttl;
    signature = "";
  }

  unfoldable pub signed_approval : String → Authority → ℕ → ℕ → ExecutionApproval
  signed_approval uuid e ttl now =
      let a = unsigned_approval uuid e ttl now in record a { signature = sign a }

  -- `none` is an exception: a lifetime that is not positive, or an INSERT whose primary key stands
  -- in the table.
  unfoldable pub issue :
      String
      → Authority
      → ℕ
      → ℕ
      → List ExecutionRow
      → Option (ExecutionApproval × List ExecutionRow)
  issue uuid e ttl now rows =
      let a = signed_approval uuid e ttl now in
      if leb ttl 0 || any (has_id a.approval_id) rows
      then none
      else some (a, record { approval = a; consumed = 0 } ∷ rows)

  unfoldable pub check_approval :
      Authority → ℕ → ExecutionApproval → List ExecutionRow → Option Denial
  check_approval e now a rows =
      if not (str_eq a.tenant_id e.tenant_id) || not (str_eq a.organisation_id e.organisation_id)
      then some scope
      else if not (str_eq a.principal_id e.principal_id)
      then some principal
      else if not (str_eq a.authority_id e.authority_id)
      then some authority
      else if not (str_eq a.intent_hash e.intent_hash)
      then some intent
      else if not (str_eq a.policy_decision_id e.policy_decision_id)
      then some decision
      else if ltb a.expires_at now
      then some expired_approval
      else if not (str_eq a.policy_decision_hash (lib.sha256 e.policy_decision))
      then some decision_hash
      else if not (str_eq a.signature (sign a))
      then some signature
      else check_row (find (has_id a.approval_id) rows)

  unfoldable pub verify_and_consume :
      Authority → ℕ → ExecutionApproval → List ExecutionRow → List ExecutionRow × Option Denial
  verify_and_consume e now a rows = consume_or_deny (check_approval e now a rows) a.approval_id rows

-- ===== src/Governance/Admin.antt =====
-- `AdminGovernanceManager` (src/governance/admin_governance.py): signed approvals of administrators,
-- their verification one by one, and the quorum that consumes them. The table `admin_approvals` is a
-- dict from `approval_id`. Times are numbers; HMAC, SHA-256, `json.dumps` and the format of a time
-- are the parameters. A call of `verify_and_consume_quorum` is one step here; in the source it reads
-- `consumed` before the transaction that writes it, so calls that interleave are not covered.
use kalyx_mao_engine.Base.{
  ℕ, suc, ◌+◌, String, Bool, false, not, Option, none, some, List, [], ◌∷◌, map, str_append, str_eq,
  ltb, ◌==◌, if◌then◌else◌, length, contains,
}
use kalyx_mao_engine.Base.Dict.{Dict, lookup, insert}

pub record Primitives : Type 0 where
  pub hmac_sha256 : String → String → String
  pub sha256 : String → String
  pub dumps : List (String × String) → String
  pub format_time : ℕ → String

pub record AdminApproval : Type 0 where
  pub approval_id : String
  pub tenant_id : String
  pub action_type : String
  pub target_id : String
  pub payload_hash : String
  pub approver_id : String
  pub expires_at : ℕ
  pub signature : String

-- A row of `admin_approvals`.
pub record ApprovalRow : Type 0 where
  pub approval : AdminApproval
  pub consumed : ℕ
  pub created_at : String

-- A payload is text or a dictionary.
pub data Payload : Type 0 where
  text : String → Payload
  object : List (String × String) → Payload

-- What an approval is expected to be for.
pub record Expected : Type 0 where
  pub tenant_id : String
  pub action_type : String
  pub target_id : String
  pub payload : Payload

pub data Rejection : Type 0 where
  tenant_mismatch action_mismatch target_mismatch expired payload_mismatch forged : Rejection
  already_consumed insufficient_approvals duplicate_approver : Rejection

unfoldable pub join_colon : List String → String
join_colon [] = ""
join_colon (s ∷ []) = s
join_colon (s ∷ t ∷ l) = str_append s (str_append ":" (join_colon (t ∷ l)))

-- `len(set(xs))`
unfoldable pub distinct : List String → ℕ
distinct [] = 0
distinct (x ∷ xs) = let rest = distinct xs in if contains x xs then rest else suc rest

abbrev pub approvers : List AdminApproval → List String
approvers = map (λ a. a.approver_id)

unfoldable pub is_spent : String → Dict ApprovalRow → Bool
is_spent id rows = elim (lookup id rows) [ none ↦ false | some row ↦ row.consumed == 1 ]

-- The row after `INSERT … consumed = 1 ON CONFLICT (approval_id) DO UPDATE SET consumed = 1`.
unfoldable pub consumed_row : String → AdminApproval → Option ApprovalRow → ApprovalRow
consumed_row now_str a none = record { approval = a; consumed = 1; created_at = now_str }
consumed_row now_str a (some row) = record row { consumed = 1 }

unfoldable pub mark_consumed : String → AdminApproval → Dict ApprovalRow → Dict ApprovalRow
mark_consumed now_str a rows =
    insert a.approval_id (consumed_row now_str a (lookup a.approval_id rows)) rows

unfoldable pub mark_all : String → List AdminApproval → Dict ApprovalRow → Dict ApprovalRow
mark_all now_str [] rows = rows
mark_all now_str (a ∷ l) rows = mark_all now_str l (mark_consumed now_str a rows)

-- The writes of the quorum, unless a check has a reason against them.
unfoldable pub consume_unless :
    Option Rejection
    → String
    → List AdminApproval
    → Dict ApprovalRow
    → Dict ApprovalRow × Option Rejection
consume_unless (some why) now_str approvals rows = (rows, some why)
consume_unless none now_str approvals rows = (mark_all now_str approvals rows, none)

module _ (lib : Primitives) where
  unfoldable pub canonical_string : AdminApproval → String
  canonical_string a = join_colon (
      a.approval_id
      ∷ a.tenant_id
      ∷ a.action_type
      ∷ a.target_id
      ∷ a.payload_hash
      ∷ a.approver_id
      ∷ lib.format_time a.expires_at
      ∷ [])

  unfoldable pub payload_hash : Payload → String
  payload_hash (text s) = lib.sha256 s
  payload_hash (object fields) = lib.sha256 (lib.dumps fields)

  module _ (secret : String) where
    -- `uuid` is the text after `appr-`.
    unfoldable pub create_approval : String → Expected → String → ℕ → ℕ → AdminApproval
    create_approval uuid e approver now ttl =
        let unsigned : AdminApproval = record {
          approval_id = str_append "appr-" uuid;
          tenant_id = e.tenant_id;
          action_type = e.action_type;
          target_id = e.target_id;
          payload_hash = payload_hash e.payload;
          approver_id = approver;
          expires_at = now + ttl;
          signature = "";
        } in
        record unsigned { signature = lib.hmac_sha256 secret (canonical_string unsigned) }

    -- `none` is `(True, None)`, `some reason` is `(False, reason)`.
    unfoldable pub verify_single_approval :
        Dict ApprovalRow → Expected → ℕ → AdminApproval → Option Rejection
    verify_single_approval rows e now a =
        if not (str_eq a.tenant_id e.tenant_id)
        then some tenant_mismatch
        else if not (str_eq a.action_type e.action_type)
        then some action_mismatch
        else if not (str_eq a.target_id e.target_id)
        then some target_mismatch
        else if ltb a.expires_at now
        then some expired
        else if not (str_eq a.payload_hash (payload_hash e.payload))
        then some payload_mismatch
        else if not (str_eq a.signature (lib.hmac_sha256 secret (canonical_string a)))
        then some forged
        else if is_spent a.approval_id rows
        then some already_consumed
        else none

    unfoldable pub verify_each :
        Dict ApprovalRow → Expected → ℕ → List AdminApproval → Option Rejection
    verify_each rows e now [] = none
    verify_each rows e now (a ∷ l) =
        let rest = verify_each rows e now l in
        elim (verify_single_approval rows e now a) [ none ↦ rest | some why ↦ some why ]

    -- The checks of the quorum before it writes.
    unfoldable pub check_quorum :
        Dict ApprovalRow → List AdminApproval → ℕ → Expected → ℕ → Option Rejection
    check_quorum rows approvals required e now =
        if ltb (length approvals) required
        then some insufficient_approvals
        else if ltb (distinct (approvers approvals)) (length approvals)
        then some duplicate_approver
        else verify_each rows e now approvals

    unfoldable pub verify_and_consume_quorum :
        List AdminApproval
        → ℕ
        → Expected
        → ℕ
        → String
        → Dict ApprovalRow
        → Dict ApprovalRow × Option Rejection
    verify_and_consume_quorum approvals required e now now_str rows =
        consume_unless (check_quorum rows approvals required e now) now_str approvals rows

-- ===== src/Governance/Breaker.antt =====
-- `SystemCircuitBreaker` (src/governance/circuit_breaker.py): the row of `system_circuit_breaker`
-- for a tenant and an organisation, `pause` by one operator, `resume` by a quorum, and the audit
-- rows of both. An approval record that cannot be converted to an `AdminApproval` is `none`.
use kalyx_mao_engine.Base.{
  ℕ, String, Bool, true, false, not, Option, none, some, List, [], ◌∷◌, ◌&&◌, str_append, str_eq,
  ltb, if◌then◌else◌, length,
}
use kalyx_mao_engine.Base.Dict.{Dict}
use kalyx_mao_engine.Base.Table.{find, upsert}
use kalyx_mao_engine.Governance.Admin.{
  Primitives, AdminApproval, ApprovalRow, Expected, Rejection, object, distinct, approvers,
  verify_and_consume_quorum,
}

pub data CircuitBreakerState : Type 0 where
  normal paused : CircuitBreakerState

-- A row of `system_circuit_breaker`.
pub record BreakerRow : Type 0 where
  pub tenant_id : String
  pub organisation_id : String
  pub state : CircuitBreakerState
  pub paused_by : Option String
  pub paused_reason : Option String
  pub paused_at : Option String
  pub updated_at : String

-- A row of `circuit_breaker_audit`.
pub record BreakerAudit : Type 0 where
  pub id : String
  pub tenant_id : String
  pub organisation_id : String
  pub action : String
  pub actor_id : String
  pub reason : String
  pub state_before : CircuitBreakerState
  pub state_after : CircuitBreakerState
  pub approvals : List AdminApproval
  pub created_at : String

-- The three tables.
pub record Store : Type 0 where
  pub approvals : Dict ApprovalRow
  pub breakers : List BreakerRow
  pub audit : List BreakerAudit

-- Why `resume` raises ValueError.
pub data Refusal : Type 0 where
  no_manager few_approvers few_records malformed identity_mismatch : Refusal
  governance_rejected : Rejection → Refusal

abbrev pub is_row : String → String → BreakerRow → Bool
is_row tenant org r = str_eq r.tenant_id tenant && str_eq r.organisation_id org

abbrev pub is_paused_state : CircuitBreakerState → Bool
is_paused_state normal = false
is_paused_state paused = true

abbrev pub state_of : Option BreakerRow → CircuitBreakerState
state_of none = normal
state_of (some r) = r.state

unfoldable pub get_state : Store → String → String → CircuitBreakerState
get_state s tenant org = state_of (find (is_row tenant org) s.breakers)

unfoldable pub is_paused : Store → String → String → Bool
is_paused s tenant org = is_paused_state (state_of (find (is_row tenant org) s.breakers))

-- The statement `ON CONFLICT (tenant_id, organisation_id) DO UPDATE SET` of both operations: all but
-- the key is taken from the new row.
unfoldable pub put_row : BreakerRow → List BreakerRow → List BreakerRow
put_row new = upsert (is_row new.tenant_id new.organisation_id) new (λ r. record r {
  state = new.state;
  paused_by = new.paused_by;
  paused_reason = new.paused_reason;
  paused_at = new.paused_at;
  updated_at = new.updated_at;
})

-- `uuid` is the text after `cb-audit-`.
unfoldable pub pause : Store → String → String → String → String → String → String → Store × String
pause s tenant org operator reason uuid now_str =
    let audit_id = str_append "cb-audit-" uuid in
    (
      record s {
        breakers =
            put_row
              (record {
                tenant_id = tenant;
                organisation_id = org;
                state = paused;
                paused_by = some operator;
                paused_reason = some reason;
                paused_at = some now_str;
                updated_at = now_str;
              })
              s.breakers;
        audit =
            record {
              id = audit_id;
              tenant_id = tenant;
              organisation_id = org;
              action = "PAUSE";
              actor_id = operator;
              reason = reason;
              state_before = get_state s tenant org;
              state_after = paused;
              approvals = [];
              created_at = now_str;
            }
            ∷ s.audit;
      },
      audit_id,
    )

unfoldable pub parse_records : List (Option AdminApproval) → Option (List AdminApproval)
parse_records [] = some []
parse_records (none ∷ raws) = none
parse_records (some a ∷ raws) = elim (parse_records raws) [ none ↦ none | some l ↦ some (a ∷ l) ]

unfoldable pub same_ids : List String → List String → Bool
same_ids [] [] = true
same_ids (a ∷ l) (b ∷ l') = str_eq a b && same_ids l l'
same_ids _ _ = false

unfoldable pub join_commas : List String → String
join_commas [] = ""
join_commas (s ∷ []) = s
join_commas (s ∷ t ∷ l) = str_append s (str_append "," (join_commas (t ∷ l)))

abbrev pub resume_expected : String → String → Expected
resume_expected tenant org = record {
  tenant_id = tenant;
  action_type = "CIRCUIT_BREAKER_RESUME";
  target_id = org;
  payload = object (("organisation_id", org) ∷ []);
}

-- The arguments of a call of `resume`, with the clock and the identifier that it reads.
pub record ResumeCall : Type 0 where
  pub tenant_id : String
  pub organisation_id : String
  pub approver_ids : List String
  pub approvals_data : List (Option AdminApproval)
  pub reason : String
  pub now : ℕ
  pub now_str : String
  pub uuid : String

-- The writes of `resume` after the quorum.
unfoldable pub set_normal : ResumeCall → List AdminApproval → Store → Store
set_normal c approvals s = record s {
  breakers =
      put_row
        (record {
          tenant_id = c.tenant_id;
          organisation_id = c.organisation_id;
          state = normal;
          paused_by = none;
          paused_reason = none;
          paused_at = none;
          updated_at = c.now_str;
        })
        s.breakers;
  audit =
      record {
        id = str_append "cb-audit-" c.uuid;
        tenant_id = c.tenant_id;
        organisation_id = c.organisation_id;
        action = "RESUME";
        actor_id = str_append "multi-sig:" (join_commas c.approver_ids);
        reason = c.reason;
        state_before = get_state s c.tenant_id c.organisation_id;
        state_after = normal;
        approvals = approvals;
        created_at = c.now_str;
      }
      ∷ s.audit;
}

-- What follows the quorum's answer.
unfoldable pub after_quorum :
    ResumeCall → List AdminApproval → Store → Option Rejection → Store × Option Refusal
after_quorum c approvals s (some why) = (s, some (governance_rejected why))
after_quorum c approvals s none = (set_normal c approvals s, none)

module _ (lib : Primitives) where
  abbrev pub run_quorum :
      String → ResumeCall → List AdminApproval → Store → Dict ApprovalRow × Option Rejection
  run_quorum secret c approvals s =
      verify_and_consume_quorum lib secret approvals 2
        (resume_expected c.tenant_id c.organisation_id) c.now c.now_str s.approvals

  -- `resume` from the conversion of the records on.
  unfoldable pub resume_parsed :
      String → ResumeCall → Store → Option (List AdminApproval) → Store × Option Refusal
  resume_parsed secret c s none = (s, some malformed)
  resume_parsed secret c s (some approvals) =
      if not (same_ids (approvers approvals) c.approver_ids)
      then (s, some identity_mismatch)
      else after_quorum c approvals (record s { approvals = (run_quorum secret c approvals s).0 })
          (run_quorum secret c approvals s).1

  -- The manager is its secret; `none` in the answer is a return.
  unfoldable pub resume : Option String → ResumeCall → Store → Store × Option Refusal
  resume none c s = (s, some no_manager)
  resume (some secret) c s =
      if ltb (distinct c.approver_ids) 2
      then (s, some few_approvers)
      else if ltb (length c.approvals_data) 2
      then (s, some few_records)
      else resume_parsed secret c s (parse_records c.approvals_data)

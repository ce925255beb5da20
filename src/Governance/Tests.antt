-- ===== src/Governance/Tests.antt =====
-- The governance of an organisation on concrete inputs.
use kalyx_mao_engine.Base.{◌≤◌, String, ◌≡◌, ◌≢◌, refl, none, some, List, [], ◌∷◌, str_append}
use kalyx_mao_engine.Base.Int.{pos}
use kalyx_mao_engine.Base.Dict.{lookup, insert}
use kalyx_mao_engine.Base.Table.{find, upsert}
use kalyx_mao_engine.Entities.{ActionProposal, Organisation, executing}
use kalyx_mao_engine.Policy.Engine.{Library, PolicyEngine, valid, verify_token}
use kalyx_mao_engine.Governance.Admin.{
  Primitives, AdminApproval, already_consumed, create_approval, verify_and_consume_quorum,
  check_quorum, distinct, consume_unless, verify_each, verify_single_approval, payload_hash,
  canonical_string, join_colon, is_spent, consumed_row, mark_all, mark_consumed,
}
use kalyx_mao_engine.Governance.Replay.{QuorumCall, acceptances, quorum_once}
use kalyx_mao_engine.Governance.Breaker.{
  Store, ResumeCall, resume_expected, is_paused, pause, resume, governance_rejected, resume_parsed,
  parse_records, same_ids, after_quorum, get_state, join_commas, put_row, set_normal,
}
use kalyx_mao_engine.Governance.Resumption.{
  resuming, run_calls, run_one, AuthorisedIn, is_paused_until,
}
use kalyx_mao_engine.Governance.Approvals.{
  ExecutionApproval, ExecutionRow, Authority, signed_approval,
}
use kalyx_mao_engine.Governance.Consumption.{issuing, consuming, grant_count, grant_once}
use kalyx_mao_engine.Governance.HumanGate.{human_token}
use kalyx_mao_engine.Governance.HumanToken.{human_token_refused}

abbrev lib : Primitives
lib = record {
  hmac_sha256 = λ key msg. str_append key (str_append "/" msg);
  sha256 = str_append "#";
  dumps = λ fields. "{organisation_id: acme}";
  format_time = λ t. "900";
}

abbrev approval_by : String → String → AdminApproval
approval_by uuid approver =
    create_approval lib "secret" uuid (resume_expected "tenant" "acme") approver 0 900

abbrev resumption : ResumeCall
resumption = record {
  tenant_id = "tenant";
  organisation_id = "acme";
  approver_ids = "ann" ∷ "bob" ∷ [];
  approvals_data = some (approval_by "1" "ann") ∷ some (approval_by "2" "bob") ∷ [];
  reason = "clear";
  now = 10;
  now_str = "t10";
  uuid = "7";
}

abbrev no_rows : Store
no_rows = record { approvals = []; breakers = []; audit = [] }

abbrev stopped : Store
stopped = (pause no_rows "tenant" "acme" "op" "alarm" "6" "t9").0

-- The quorum resumes the organisation, and the same approvals do not do so again.
resume_once :
    let (s, answer) = resume lib (some "secret") resumption stopped in
    (answer ≡ none)
    × ((resume lib (some "secret") resumption s).1 ≡ some (governance_rejected already_consumed))
unfolding resume distinct resume_parsed parse_records same_ids create_approval after_quorum
    verify_and_consume_quorum consume_unless check_quorum verify_each verify_single_approval
    payload_hash canonical_string join_colon is_spent lookup pause insert find upsert consumed_row
    mark_all mark_consumed get_state join_commas put_row set_normal
resume_once = (refl, refl)

is_paused_until_example :
    AuthorisedIn lib (some "secret") (resuming resumption ∷ []) stopped "tenant" "acme"
unfolding is_paused run_calls run_one resume distinct resume_parsed parse_records same_ids
    create_approval after_quorum verify_and_consume_quorum consume_unless check_quorum verify_each
    verify_single_approval payload_hash canonical_string join_colon is_spent lookup pause insert
    find upsert consumed_row mark_all mark_consumed get_state join_commas put_row set_normal
is_paused_until_example =
    is_paused_until lib (some "secret") (resuming resumption ∷ []) stopped "tenant" "acme" refl refl

abbrev quorum : QuorumCall
quorum = record {
  approvals = approval_by "1" "ann" ∷ approval_by "2" "bob" ∷ [];
  required = 2;
  expected = resume_expected "tenant" "acme";
  now = 10;
  now_str = "t10";
}

quorum_once_example : acceptances lib "secret" "appr-1" [] (quorum ∷ quorum ∷ []) ≤ 1
quorum_once_example = quorum_once lib "secret" "appr-1" [] (quorum ∷ quorum ∷ [])

abbrev authority : Authority
authority = record {
  tenant_id = "tenant";
  organisation_id = "acme";
  principal_id = "ann";
  authority_id = "root";
  intent_hash = "i";
  policy_decision_id = "d";
  policy_decision = "approved";
}

abbrev issued : ExecutionApproval
issued = signed_approval lib "secret" "9" authority 900 5

abbrev issued_rows : List ExecutionRow
issued_rows = record { approval = issued; consumed = 0 } ∷ []

grant_once_example :
    grant_count lib "secret" "exec-appr-9" [] (
      issuing "9" authority 900 5
      ∷ consuming authority 6 issued
      ∷ consuming authority 7 issued
      ∷ [])
    ≤ 1
grant_once_example =
    grant_once lib "secret" "exec-appr-9" [] (
      issuing "9" authority 900 5
      ∷ consuming authority 6 issued
      ∷ consuming authority 7 issued
      ∷ [])

abbrev policy_lib : Library
policy_lib = record {
  hmac = λ key msg. str_append key msg;
  sha256 = str_append "#";
  decimal = λ n. "0";
  policy_text = λ rules n. "policy";
  round3 = λ n. n;
  encode_claims = λ c. c.nonce;
  decode_claims = λ s. none;
}

abbrev engine : PolicyEngine
engine = record { rules = []; human_approval_threshold = pos 50; token_ttl = 600; secret = "s" }

abbrev proposal : ActionProposal
proposal = record {
  id = "prop-1";
  task_id = "t1";
  proposing_agent_id = "a1";
  action_type = "DATA_FETCH";
  target = "x";
  parameters = "{}";
  requested_credits = pos 80;
}

abbrev acme : Organisation
acme = record {
  id = "acme";
  tenant_id = "tenant";
  treasury_balance = pos 100;
  state = executing;
  agents = [];
}

human_token_refused_example :
    verify_token policy_lib engine 0
      (human_token (str_append "#") "prop-1" "OPERATOR")
      proposal
      acme
      none
    ≢ valid
human_token_refused_example =
    human_token_refused policy_lib engine 0 (str_append "#") "prop-1" "OPERATOR" proposal acme none

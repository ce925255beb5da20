-- ===== src/Governance/Consumption.antt =====
-- An execution approval that is issued can be used, and no more than once.
use kalyx_mao_engine.Base.{
  ℕ, suc, ◌+◌, ◌≤◌, String, Bool, true, false, ◌≡◌, refl, ◌∙◌, Option, none, some, List, [], ◌∷◌,
  ◌&&◌, inl, inr, arith, str_eq, eq_iff, eq_refl, ltb, if◌then◌else◌, any, Bool-cases,
}
use kalyx_mao_engine.Base.Table.{find, update}
use kalyx_mao_engine.Governance.Admin.{Primitives}
use kalyx_mao_engine.Governance.Approvals.{
  ExecutionApproval, ExecutionRow, Authority, Denial, has_id, consume_row, is_pending, check_row,
  consume_or_deny, canonical_text, unsigned_approval, signed_approval, issue, check_approval,
  verify_and_consume,
}

abbrev pub is_known : String → List ExecutionRow → Bool
is_known id = any (has_id id)

consume_row-is_known :
    (id j : String) (rows : List ExecutionRow) → is_known id (consume_row j rows) ≡ is_known id rows
unfolding consume_row update
consume_row-is_known id j [] = refl
consume_row-is_known id j (r ∷ rows) = ground (arith, consume_row-is_known id j rows)

consume_row-is_pending :
    (id j : String) (rows : List ExecutionRow)
    → is_pending id (consume_row j rows) ≡ (if str_eq j id then false else is_pending id rows)
unfolding consume_row update is_pending
consume_row-is_pending id j [] = ground arith
consume_row-is_pending id j (r ∷ rows) = ground (
  arith,
  consume_row-is_pending id j rows,
  eq_iff j id,
  eq_iff r.approval.approval_id j,
  eq_iff r.approval.approval_id id,
)

pending_known :
    (id : String) (rows : List ExecutionRow) → is_pending id rows ≡ true → is_known id rows ≡ true
unfolding is_pending
pending_known id [] h = h
pending_known id (r ∷ rows) h = ground (arith, h, pending_known id rows)

abbrev pub is_granted : Option Denial → Bool
is_granted none = true
is_granted (some why) = false

consume_or_deny-is_known :
    (id : String) (o : Option Denial) (j : String) (rows : List ExecutionRow)
    → is_known id (consume_or_deny o j rows).0 ≡ is_known id rows
unfolding consume_or_deny
consume_or_deny-is_known id (some why) j rows = refl
consume_or_deny-is_known id none j rows = ground (arith, consume_row-is_known id j rows)

-- What is granted was pending, and is not pending after; no other approval changes.
consume_or_deny-is_pending :
    (id : String) (o : Option Denial) (j : String) (rows : List ExecutionRow)
    → is_pending id (consume_or_deny o j rows).0 ≡ (
        if str_eq j id && is_granted (consume_or_deny o j rows).1
        then false
        else is_pending id rows)
unfolding consume_or_deny
consume_or_deny-is_pending id (some why) j rows = ground arith
consume_or_deny-is_pending id none j rows = ground (arith, consume_row-is_pending id j rows)

consume_or_deny-granted :
    (o : Option Denial) (id : String) (rows : List ExecutionRow)
    → is_granted (consume_or_deny o id rows).1 ≡ true
    → is_pending id rows ≡ true
unfolding consume_or_deny
consume_or_deny-granted (some why) id rows h = cc
consume_or_deny-granted none id rows h = ground (arith, h)

-- The calls of the manager.
pub data ApprovalCall : Type 0 where
  issuing : String → Authority → ℕ → ℕ → ApprovalCall
  consuming : Authority → ℕ → ExecutionApproval → ApprovalCall

abbrev issued_table :
    List ExecutionRow → Option (ExecutionApproval × List ExecutionRow) → List ExecutionRow
issued_table rows none = rows
issued_table rows (some (a, rows')) = rows'

not_late : (a b : ℕ) → a ≤ b → ltb b a ≡ false
not_late a b h = ground arith

module _ (lib : Primitives) (secret : String) where
  abbrev pub run_approval : ApprovalCall → List ExecutionRow → List ExecutionRow
  run_approval (issuing uuid e ttl now) rows =
      issued_table rows (issue lib secret uuid e ttl now rows)
  run_approval (consuming e now a) rows = (verify_and_consume lib secret e now a rows).0

  -- Whether the call consumes the approval of this id.
  abbrev pub grants : String → ApprovalCall → List ExecutionRow → Bool
  grants id (issuing uuid e ttl now) rows = false
  grants id (consuming e now a) rows =
      str_eq a.approval_id id && is_granted (verify_and_consume lib secret e now a rows).1

  unfoldable pub grant_count : String → List ExecutionRow → List ApprovalCall → ℕ
  grant_count id rows [] = 0
  grant_count id rows (c ∷ cs) =
      let later = grant_count id (run_approval c rows) cs in
      if grants id c rows then suc later else later

  issue-is_pending :
      (id uuid : String) (e : Authority) (ttl now : ℕ) (rows : List ExecutionRow)
      → is_known id rows ≡ true
      → is_pending id rows ≡ false
      → let rows' = issued_table rows (issue lib secret uuid e ttl now rows) in
        (is_known id rows' ≡ true) × (is_pending id rows' ≡ false)
  unfolding issue is_pending
  issue-is_pending id uuid e ttl now rows known spent =
      ground
        (arith, known, spent, eq_iff (signed_approval lib secret uuid e ttl now).approval_id id)

  -- No call makes a spent approval pending again.
  run_spent :
      (id : String) (c : ApprovalCall) (rows : List ExecutionRow)
      → is_known id rows ≡ true
      → is_pending id rows ≡ false
      → (is_known id (run_approval c rows) ≡ true) × (is_pending id (run_approval c rows) ≡ false)
  unfolding verify_and_consume
  run_spent id (issuing uuid e ttl now) rows known spent =
      issue-is_pending id uuid e ttl now rows known spent
  run_spent id (consuming e now a) rows known spent =
      let o = check_approval lib secret e now a rows in
      (
        consume_or_deny-is_known id o a.approval_id rows ∙ known,
        ground (arith, consume_or_deny-is_pending id o a.approval_id rows),
      )

  grants-pending :
      (id : String) (c : ApprovalCall) (rows : List ExecutionRow)
      → grants id c rows ≡ true
      → (is_pending id rows ≡ true)
        × (is_known id (run_approval c rows) ≡ true)
        × (is_pending id (run_approval c rows) ≡ false)
  unfolding verify_and_consume
  grants-pending id (issuing uuid e ttl now) rows h = cc
  grants-pending id (consuming e now a) rows h =
      let o = check_approval lib secret e now a rows in
      ground (
        arith,
        h,
        eq_iff a.approval_id id,
        consume_or_deny-granted o a.approval_id rows,
        consume_or_deny-is_known id o a.approval_id rows,
        consume_or_deny-is_pending id o a.approval_id rows,
        pending_known id rows,
      )

  grant_count_of_spent :
      (id : String) (rows : List ExecutionRow) (cs : List ApprovalCall)
      → is_known id rows ≡ true
      → is_pending id rows ≡ false
      → grant_count id rows cs ≡ 0
  unfolding grant_count
  grant_count_of_spent id rows [] known spent = refl
  grant_count_of_spent id rows (c ∷ cs) known spent =
      let (known', spent') = run_spent id c rows known spent in
      elim (Bool-cases (grants id c rows)) [
        | inl granted ↦ cc ((grants-pending id c rows granted).0)
        | inr denied ↦ rw denied (grant_count_of_spent id (run_approval c rows) cs known' spent')
      ]

  -- Of any calls of `issue` and `verify_and_consume`, in any order and with any approvals, forged
  -- ones included, at most one consumes the approval of a given id.
  pub grant_once :
      (id : String) (rows : List ExecutionRow) (cs : List ApprovalCall) → grant_count id rows cs ≤ 1
  unfolding grant_count
  grant_once id rows [] = omega arith
  grant_once id rows (c ∷ cs) = elim (Bool-cases (grants id c rows)) [
    | inr denied ↦ rw denied (grant_once id (run_approval c rows) cs)
    | inl granted ↦
        let (was, known, spent) = grants-pending id c rows granted in
        rw granted (omega (arith, grant_count_of_spent id (run_approval c rows) cs known spent))
  ]

  issued_row :
      (uuid : String) (e : Authority) (ttl now : ℕ) (rows rows' : List ExecutionRow)
      (a : ExecutionApproval)
      → issue lib secret uuid e ttl now rows ≡ some (a, rows')
      → let issued = signed_approval lib secret uuid e ttl now in
        (a ≡ issued) × (rows' ≡ record { approval = issued; consumed = 0 } ∷ rows)
  unfolding issue
  issued_row uuid e ttl now rows rows' a h = ground (arith, h)

  check_issued :
      (uuid : String) (e : Authority) (ttl now later : ℕ) (rows : List ExecutionRow)
      → later ≤ now + ttl
      → let a = signed_approval lib secret uuid e ttl now in
        check_approval lib secret e later a (record { approval = a; consumed = 0 } ∷ rows) ≡ none
  unfolding check_approval signed_approval unsigned_approval canonical_text find check_row
  check_issued uuid e ttl now later rows time =
      let a = signed_approval lib secret uuid e ttl now in
      simp (
        eq_refl e.tenant_id,
        eq_refl e.organisation_id,
        eq_refl e.principal_id,
        eq_refl e.authority_id,
        eq_refl e.intent_hash,
        eq_refl e.policy_decision_id,
        eq_refl (lib.sha256 e.policy_decision),
        eq_refl a.signature,
        eq_refl a.approval_id,
        not_late later (now + ttl) time,
      )

  issued_pending :
      (a : ExecutionApproval) (rows : List ExecutionRow)
      → is_pending a.approval_id (record { approval = a; consumed = 0 } ∷ rows) ≡ true
  unfolding is_pending
  issued_pending a rows = simp (eq_refl a.approval_id)

  -- An approval that `issue` returns is consumed by `verify_and_consume` with the same arguments,
  -- on the table that `issue` leaves, at any time up to its expiry.
  pub verify_and_consume-issue :
      (uuid : String) (e : Authority) (ttl now later : ℕ) (rows rows' : List ExecutionRow)
      (a : ExecutionApproval)
      → issue lib secret uuid e ttl now rows ≡ some (a, rows')
      → later ≤ now + ttl
      → (verify_and_consume lib secret e later a rows').1 ≡ none
  unfolding verify_and_consume consume_or_deny
  verify_and_consume-issue uuid e ttl now later rows rows' a issued time =
      let b = signed_approval lib secret uuid e ttl now in
      let (same, table) = issued_row uuid e ttl now rows rows' a issued in
      rw same (
        rw table
          (rw (check_issued uuid e ttl now later rows time) (rw (issued_pending b rows) refl)))

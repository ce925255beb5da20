-- ===== src/Governance/Replay.antt =====
-- An approval counts in one accepted quorum at most.
use kalyx_mao_engine.Base.{
  ℕ, suc, ◌≤◌, String, Bool, true, false, ◌≡◌, refl, Option, none, some, List, [], ◌∷◌, inl, inr,
  arith, eq_iff, str_eq, ◌&&◌, if◌then◌else◌, any, Bool-cases,
}
use kalyx_mao_engine.Base.Dict.{Dict, lookup, lookup-insert}
use kalyx_mao_engine.Governance.Admin.{
  Primitives, AdminApproval, ApprovalRow, Expected, Rejection, is_spent, consumed_row,
  mark_consumed, mark_all, consume_unless, verify_and_consume_quorum,
}
use kalyx_mao_engine.Governance.Quorum.{All, Genuine, check_quorum-Quorum}

consumed_row-consumed :
    (now_str : String) (a : AdminApproval) (o : Option ApprovalRow)
    → (consumed_row now_str a o).consumed ≡ 1
unfolding consumed_row
consumed_row-consumed now_str a none = refl
consumed_row-consumed now_str a (some row) = refl

mark_consumed-is_spent :
    (id now_str : String) (a : AdminApproval) (rows : Dict ApprovalRow)
    → is_spent id (mark_consumed now_str a rows)
      ≡ (if str_eq a.approval_id id then true else is_spent id rows)
unfolding mark_consumed is_spent
mark_consumed-is_spent id now_str a rows =
    let row = consumed_row now_str a (lookup a.approval_id rows) in
    ground (
      arith,
      lookup-insert a.approval_id id row rows,
      consumed_row-consumed now_str a (lookup a.approval_id rows),
    )

abbrev pub uses_id : String → List AdminApproval → Bool
uses_id id = any (λ a. str_eq a.approval_id id)

-- What is spent stays spent, and the approvals of the list become so.
mark_all-is_spent :
    (id now_str : String) (l : List AdminApproval) (rows : Dict ApprovalRow)
    → is_spent id (mark_all now_str l rows) ≡ (if uses_id id l then true else is_spent id rows)
unfolding mark_all
mark_all-is_spent id now_str [] rows = refl
mark_all-is_spent id now_str (a ∷ l) rows = ground (
  arith,
  mark_all-is_spent id now_str l (mark_consumed now_str a rows),
  mark_consumed-is_spent id now_str a rows,
)

abbrev pub is_accepted : Option Rejection → Bool
is_accepted none = true
is_accepted (some why) = false

pub accepted_none :
    (o : Option Rejection) (now_str : String) (l : List AdminApproval) (rows : Dict ApprovalRow)
    → is_accepted (consume_unless o now_str l rows).1 ≡ true
    → o ≡ none
unfolding consume_unless
accepted_none none now_str l rows h = refl
accepted_none (some why) now_str l rows h = cc

consume_unless-is_spent :
    (id : String) (o : Option Rejection) (now_str : String) (l : List AdminApproval)
    (rows : Dict ApprovalRow)
    → is_spent id (consume_unless o now_str l rows).0 ≡ (
        if is_accepted (consume_unless o now_str l rows).1 && uses_id id l
        then true
        else is_spent id rows)
unfolding consume_unless
consume_unless-is_spent id none now_str l rows = mark_all-is_spent id now_str l rows
consume_unless-is_spent id (some why) now_str l rows = refl

-- The arguments of a call of `verify_and_consume_quorum`.
pub record QuorumCall : Type 0 where
  pub approvals : List AdminApproval
  pub required : ℕ
  pub expected : Expected
  pub now : ℕ
  pub now_str : String

module _ (lib : Primitives) (secret : String) where
  abbrev pub run_call : QuorumCall → Dict ApprovalRow → Dict ApprovalRow × Option Rejection
  run_call c =
      verify_and_consume_quorum lib secret c.approvals c.required c.expected c.now c.now_str

  -- How many of the calls, made in turn, are accepted with the approval among theirs.
  unfoldable pub acceptances : String → Dict ApprovalRow → List QuorumCall → ℕ
  acceptances id rows [] = 0
  acceptances id rows (c ∷ cs) =
      let later = acceptances id (run_call c rows).0 cs in
      if is_accepted (run_call c rows).1 && uses_id id c.approvals then suc later else later

  spent_is_refused :
      (id : String) (rows : Dict ApprovalRow) (e : Expected) (now : ℕ) (l : List AdminApproval)
      → is_spent id rows ≡ true
      → uses_id id l ≡ true
      → All (Genuine lib secret rows e now) l
      → ⊥
  spent_is_refused id rows e now [] spent used genuine = cc
  spent_is_refused id rows e now (a ∷ l) spent used (g, gs) =
      elim (Bool-cases (str_eq a.approval_id id)) [
        | inl here ↦ ground (arith, g.unspent, eq_iff a.approval_id id)
        | inr other ↦ spent_is_refused id rows e now l spent (simp other at used) gs
      ]

  -- A quorum call that is accepted has none of the spent approvals among its own.
  accepted_unspent :
      (id : String) (c : QuorumCall) (rows : Dict ApprovalRow)
      → is_spent id rows ≡ true
      → is_accepted (run_call c rows).1 ≡ true
      → uses_id id c.approvals ≡ false
  unfolding verify_and_consume_quorum
  accepted_unspent id c rows spent accepted = elim (Bool-cases (uses_id id c.approvals)) [
    | inr without ↦ without
    | inl used ↦
        let fine = accepted_none _ c.now_str c.approvals rows accepted in
        absurd (
          spent_is_refused id rows c.expected c.now c.approvals spent used
            (check_quorum-Quorum lib secret rows c.expected c.now c.required c.approvals
              fine).genuine)
  ]

  -- What a call leaves of an approval: spent if it was, and if the call is accepted with it.
  run_call-is_spent :
      (id : String) (c : QuorumCall) (rows : Dict ApprovalRow)
      → is_spent id (run_call c rows).0 ≡ (
          if is_accepted (run_call c rows).1 && uses_id id c.approvals
          then true
          else is_spent id rows)
  unfolding verify_and_consume_quorum
  run_call-is_spent id c rows = consume_unless-is_spent id _ c.now_str c.approvals rows

  acceptances_of_spent :
      (id : String) (rows : Dict ApprovalRow) (cs : List QuorumCall)
      → is_spent id rows ≡ true
      → acceptances id rows cs ≡ 0
  unfolding acceptances
  acceptances_of_spent id rows [] spent = refl
  acceptances_of_spent id rows (c ∷ cs) spent = ground (
    arith,
    spent,
    accepted_unspent id c rows spent,
    run_call-is_spent id c rows,
    acceptances_of_spent id (run_call c rows).0 cs,
  )

  -- Of any quorum calls, made in any order, for any tenant, action and target, at most one is
  -- accepted with an approval of a given id among its approvals.
  pub quorum_once :
      (id : String) (rows : Dict ApprovalRow) (cs : List QuorumCall) → acceptances id rows cs ≤ 1
  unfolding acceptances
  quorum_once id rows [] = omega arith
  quorum_once id rows (c ∷ cs) = ground (
    arith,
    run_call-is_spent id c rows,
    acceptances_of_spent id (run_call c rows).0 cs,
    quorum_once id (run_call c rows).0 cs,
  )

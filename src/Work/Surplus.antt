-- ===== src/Work/Surplus.antt =====
-- `SurplusReconciler` (src/economy/surplus_accounting.py): the split of a verified work order's
-- revenue and its transfers out of REVENUE. A reserve ratio is a float: the model has whether it lies
-- in [0, 1], and `math.floor(n * ratio)`. The events in memory are a dict; the durable events are the
-- rows of Work/Repository.
use kalyx_mao_engine.Base.{
  ℕ, String, Bool, true, false, not, Option, none, some, List, any, str_append, str_eq,
  if◌then◌else◌,
}
use kalyx_mao_engine.Base.Int.{ℤ, pos, ◌-ℤ◌, ltb_ℤ, leb_ℤ}
use kalyx_mao_engine.Base.Dict.{Dict, insert}
use kalyx_mao_engine.Base.Outcome.{Result, ok, err, value_error}
use kalyx_mao_engine.Base.Stateful.{Stateful, ◌>>◌, returns, modify, raise_when}
use kalyx_mao_engine.Ledger.{
  Stamp, LedgerEntry, DoubleEntryLedger, treasury, revenue, get_balance, transfer,
}
use kalyx_mao_engine.Work.Receipts.{
  WorkLibrary, WorkOrder, WorkDeliverableReceipt, is_verified, verify_hmac,
}
use kalyx_mao_engine.Work.Repository.{RevenueEvent, Scoped, get_revenue_event_by_work_order}

abbrev pub surplus_reserve : String
surplus_reserve = "SURPLUS_RESERVE"

pub record Ratio : Type 0 where
  pub in_range : Bool
  pub floor_of : ℤ → ℤ

-- The fields of the reconciler that do not change.
pub record Reconciler : Type 0 where
  pub reserve_ratio : Ratio
  pub receipt_secret_key : String

pub record SurplusState : Type 0 where
  pub ledger : DoubleEntryLedger
  pub events : Dict RevenueEvent

-- The arguments of a call, and what it draws: identifiers, entries' stamps, the time.
pub record SurplusCall : Type 0 where
  pub work_order : WorkOrder
  pub receipt : WorkDeliverableReceipt
  pub gross_revenue_usdg : ℤ
  pub direct_expense_usdg : ℤ
  pub orbio_credits_consumed : ℤ
  pub reserve_ratio : Option Ratio
  pub tx_group : String
  pub event_uuid : String
  pub cost_stamp : Stamp
  pub reserve_stamp : Stamp
  pub mission_stamp : Stamp
  pub now : ℕ

-- What becomes of the revenue.
pub record Split : Type 0 where
  pub net_surplus : ℤ
  pub cost_reimbursement : ℤ
  pub to_reserve : ℤ
  pub to_mission : ℤ

unfoldable pub split_revenue : Ratio → ℤ → ℤ → Split
split_revenue ratio gross direct =
    let net = gross -ℤ direct in
    if leb_ℤ direct gross
    then record {
      net_surplus = net;
      cost_reimbursement = direct;
      to_reserve = ratio.floor_of net;
      to_mission = net -ℤ ratio.floor_of net;
    }
    else record {
      net_surplus = pos 0;
      cost_reimbursement = gross;
      to_reserve = pos 0;
      to_mission = pos 0;
    }

abbrev pub ratio_or : Option Ratio → Ratio → Ratio
ratio_or none default = default
ratio_or (some r) default = r

abbrev is_present : Option RevenueEvent → Bool
is_present none = false
is_present (some e) = true

-- The durable check, if there is a repository.
abbrev is_durable : Option (List (Scoped RevenueEvent)) → WorkOrder → Bool
is_durable none w = false
is_durable (some rows) w =
    is_present (get_revenue_event_by_work_order w.tenant_id w.organisation_id w.work_order_id rows)

abbrev pub is_reconciled : String → SurplusState → Bool
is_reconciled id s = any (λ p. str_eq p.1.work_order_id id) s.events

abbrev pub set_ledger : Result (LedgerEntry × DoubleEntryLedger) → Stateful SurplusState (Unit {0})
set_ledger (ok (e, l)) s = (ok tt, record s { ledger = l })
set_ledger (err e) s = (err e, s)

-- `if amount > 0: self._ledger.transfer(from_account=REVENUE, …)`
unfoldable pub pay_out : Stamp → String → ℤ → String → String → Stateful SurplusState (Unit {0})
pay_out stamp to amount memo tx s =
    if ltb_ℤ (pos 0) amount
    then set_ledger (transfer stamp revenue to amount memo (some tx) s.ledger) s
    else (ok tt, s)

abbrev pub event_of : SurplusCall → Split → RevenueEvent
event_of c x = record {
  revenue_event_id = str_append "rev-" c.event_uuid;
  work_order_id = c.work_order.work_order_id;
  gross_revenue_usdg = c.gross_revenue_usdg;
  direct_expense_usdg = c.direct_expense_usdg;
  net_surplus_usdg = x.net_surplus;
  orbio_credits_consumed = c.orbio_credits_consumed;
  allocated_to_mission_budget = x.to_mission;
  allocated_to_reserve = x.to_reserve;
  settled_at = c.now;
  ledger_tx_id = some c.tx_group;
}

abbrev pub tx_id : String → SurplusCall → String
tx_id prefix c =
    str_append prefix (str_append c.work_order.work_order_id (str_append "-" c.tx_group))

abbrev memo_of : String → SurplusCall → String
memo_of text c = str_append text c.work_order.work_order_id

-- The transfers and the event.
unfoldable pub settle_split : SurplusCall → Split → Stateful SurplusState RevenueEvent
settle_split c x = do
  pay_out c.cost_stamp treasury x.cost_reimbursement
      (memo_of "[USDG] Cost reimbursement for work order " c) (tx_id "reconcile-cost-" c)
  pay_out c.reserve_stamp surplus_reserve x.to_reserve
      (memo_of "[USDG] Retained surplus reserve for work order " c) (tx_id "reconcile-res-" c)
  pay_out c.mission_stamp treasury x.to_mission
      (memo_of "[USDG] Mission budget surplus allocation for work order " c)
      (tx_id "reconcile-msn-" c)
  modify
      (λ s. record s { events = insert (str_append "rev-" c.event_uuid) (event_of c x) s.events })
  returns (event_of c x)

module _ (lib : WorkLibrary) (r : Reconciler) (durable : Option (List (Scoped RevenueEvent))) where
  -- The checks, in their order, as one test: each of them raises ValueError.
  unfoldable pub is_refused : SurplusCall → SurplusState → Bool
  is_refused c s =
      if not (is_verified c.receipt)
      then true
      else if not (verify_hmac lib r.receipt_secret_key c.receipt)
      then true
      else if not (str_eq c.receipt.work_order_id c.work_order.work_order_id)
      then true
      else if is_reconciled c.work_order.work_order_id s
      then true
      else if is_durable durable c.work_order
      then true
      else if ltb_ℤ c.gross_revenue_usdg (pos 0)
      then true
      else if ltb_ℤ c.direct_expense_usdg (pos 0)
      then true
      else if not (ratio_or c.reserve_ratio r.reserve_ratio).in_range
      then true
      else ltb_ℤ (get_balance s.ledger revenue) c.gross_revenue_usdg

  unfoldable pub reconcile_surplus : SurplusCall → Stateful SurplusState RevenueEvent
  reconcile_surplus c = do
    raise_when (is_refused c) value_error
    settle_split c (
        split_revenue (ratio_or c.reserve_ratio r.reserve_ratio) c.gross_revenue_usdg
          c.direct_expense_usdg)

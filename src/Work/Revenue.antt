-- ===== src/Work/Revenue.antt =====
-- The revenue of a work order is paid out of REVENUE whole, and once.
use kalyx_mao_engine.Base.{
  String, true, false, ◌≡◌, refl, ◌∙◌, ap, Option, List, [], ◌∷◌, any, arith, inl, inr, str_eq,
  eq_refl, eq_iff, Bool-cases,
}
use kalyx_mao_engine.Base.Int.{ℤ, pos, ◌+ℤ◌, ◌-ℤ◌, ◌≤ℤ◌, int_laws, parts, eq_of_parts}
use kalyx_mao_engine.Base.Dict.{Dict, insert}
use kalyx_mao_engine.Base.Outcome.{ok, err, value_error}
use kalyx_mao_engine.Ledger.{treasury, revenue, get_balance}
use kalyx_mao_engine.Work.Receipts.{WorkLibrary, is_verified, verify_hmac}
use kalyx_mao_engine.Work.Repository.{RevenueEvent, Scoped}
use kalyx_mao_engine.Work.Surplus.{
  Ratio, Reconciler, SurplusState, SurplusCall, Split, split_revenue, ratio_or, is_reconciled,
  event_of, is_refused, reconcile_surplus, surplus_reserve,
}
use kalyx_mao_engine.Work.Settlement.{IsSplit, split_revenue-IsSplit, Settled, settle_split-Settled}

-- A share of a surplus lies between 0 and the surplus, as floor(n * r) does for 0 <= r <= 1.
abbrev pub IsShare : Ratio → Type 0
IsShare ratio =
    ratio.in_range ≡ true
    → (n : ℤ) → pos 0 ≤ℤ n
    → (pos 0 ≤ℤ ratio.floor_of n) × (ratio.floor_of n ≤ℤ n)

-- What a reconciliation that returns leaves: the balances, and the event.
pub record PaidOut (c : SurplusCall) (s : SurplusState) (e : RevenueEvent) (s' : SurplusState)
    : Type 0 where
  pub cost : ℤ
  pub whole :
      cost +ℤ (e.allocated_to_reserve +ℤ e.allocated_to_mission_budget) ≡ c.gross_revenue_usdg
  pub surplus : e.allocated_to_reserve +ℤ e.allocated_to_mission_budget ≡ e.net_surplus_usdg
  pub bounds :
      (pos 0 ≤ℤ e.allocated_to_reserve)
      × (pos 0 ≤ℤ e.allocated_to_mission_budget)
      × (cost ≤ℤ c.direct_expense_usdg)
  pub from_revenue :
      get_balance s'.ledger revenue ≡ get_balance s.ledger revenue -ℤ c.gross_revenue_usdg
  pub into_reserve :
      get_balance s'.ledger surplus_reserve
      ≡ get_balance s.ledger surplus_reserve +ℤ e.allocated_to_reserve
  pub into_treasury :
      get_balance s'.ledger treasury
      ≡ get_balance s.ledger treasury +ℤ (cost +ℤ e.allocated_to_mission_budget)
  pub recorded : is_reconciled c.work_order.work_order_id s' ≡ true

insert-is_reconciled :
    (id uuid : String) (e : RevenueEvent) (events : Dict RevenueEvent)
    → e.work_order_id ≡ id
    → any (λ p. str_eq p.1.work_order_id id) (insert uuid e events) ≡ true
unfolding insert
insert-is_reconciled id uuid e [] h = simp (h, eq_refl id)
insert-is_reconciled id uuid e ((j, f) ∷ events) h =
    ground (arith, h, eq_iff e.work_order_id id, insert-is_reconciled id uuid e events h)

three_out :
    (a b c d x y z gross : ℤ)
    → b ≡ a -ℤ x
    → c ≡ b -ℤ y
    → d ≡ c -ℤ z
    → x +ℤ (y +ℤ z) ≡ gross
    → d ≡ a -ℤ gross
three_out a b c d x y z gross h h' h'' whole =
    eq_of_parts _ _ (omega (int_laws, parts h, parts h', parts h'', parts whole))

two_in : (a b d x z : ℤ) → b ≡ a +ℤ x → d ≡ b +ℤ z → d ≡ a +ℤ (x +ℤ z)
two_in a b d x z h h' = eq_of_parts _ _ (omega (int_laws, parts h, parts h'))

Settled-PaidOut :
    (c : SurplusCall) (x : Split) (s s' : SurplusState)
    → IsSplit c.gross_revenue_usdg c.direct_expense_usdg x
    → Settled c x s s'
    → PaidOut c s (event_of c x) s'
Settled-PaidOut c x s s' i t = record {
  cost = x.cost_reimbursement;
  whole = i.whole;
  surplus = i.surplus;
  bounds = (i.reserve_nonneg, i.mission_nonneg, i.cost_bound);
  from_revenue = rw t.ledger (
      three_out _ _ _ _ _ _ _ c.gross_revenue_usdg (t.cost.0 revenue) (t.reserve.0 revenue)
        (t.mission.0 revenue) i.whole);
  into_reserve = rw t.ledger (
      t.mission.0 surplus_reserve
      ∙ t.reserve.0 surplus_reserve
      ∙ ap (λ b. b +ℤ x.to_reserve) (t.cost.0 surplus_reserve));
  into_treasury = rw t.ledger (
      two_in _ _ _ _ _ (t.cost.0 treasury)
        (t.mission.0 treasury ∙ ap (λ b. b +ℤ x.to_mission) (t.reserve.0 treasury)));
  recorded = rw t.events (insert-is_reconciled _ _ (event_of c x) _ refl);
}

module _ (lib : WorkLibrary) (r : Reconciler) (durable : Option (List (Scoped RevenueEvent))) where
  not_refused :
      (c : SurplusCall) (s : SurplusState)
      → is_refused lib r durable c s ≡ false
      → (pos 0 ≤ℤ c.gross_revenue_usdg)
        × (pos 0 ≤ℤ c.direct_expense_usdg)
        × ((ratio_or c.reserve_ratio r.reserve_ratio).in_range ≡ true)
        × (is_verified c.receipt ≡ true)
        × (verify_hmac lib r.receipt_secret_key c.receipt ≡ true)
        × (is_reconciled c.work_order.work_order_id s ≡ false)
  unfolding is_refused
  not_refused c s h = ground (arith, h)

  -- A reconciliation that returns had a receipt that is accepted and signed, for a work order that was
  -- not reconciled before. It takes the gross revenue, no more and no less, out of REVENUE: what
  -- covers the expense and the mission's part goes to TREASURY, the reserve's part to SURPLUS_RESERVE,
  -- and neither part is negative. The ratio's share of a surplus lies between 0 and the surplus.
  pub reconcile_surplus-PaidOut :
      (c : SurplusCall) (s s' : SurplusState) (e : RevenueEvent)
      → IsShare (ratio_or c.reserve_ratio r.reserve_ratio)
      → reconcile_surplus lib r durable c s ≡ (ok e, s')
      → PaidOut c s e s'
        × (is_verified c.receipt ≡ true)
        × (verify_hmac lib r.receipt_secret_key c.receipt ≡ true)
        × (is_reconciled c.work_order.work_order_id s ≡ false)
  unfolding reconcile_surplus
  reconcile_surplus-PaidOut c s s' e share h = elim (Bool-cases (is_refused lib r durable c s)) [
    | inl refused ↦ cc (simp refused at h)
    | inr passed ↦
        let (g, d, range, verified, signed, new) = not_refused c s passed in
        let ratio = ratio_or c.reserve_ratio r.reserve_ratio in
        let i =
          split_revenue-IsSplit ratio c.gross_revenue_usdg c.direct_expense_usdg g d
            (share range) in
        let x = split_revenue ratio c.gross_revenue_usdg c.direct_expense_usdg in
        let (event, settled) =
          settle_split-Settled c x e s s' i.cost_nonneg i.reserve_nonneg i.mission_nonneg
            (simp passed at h) in
        (rw event (Settled-PaidOut c x s s' i settled), verified, signed, new)
  ]

  -- A work order that is reconciled is not reconciled again, and the second call changes nothing.
  pub reconcile_once :
      (c : SurplusCall) (s : SurplusState)
      → is_reconciled c.work_order.work_order_id s ≡ true
      → reconcile_surplus lib r durable c s ≡ (err value_error, s)
  unfolding reconcile_surplus is_refused
  reconcile_once c s h = ground (arith, h)

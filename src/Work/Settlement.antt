-- ===== src/Work/Settlement.antt =====
-- What `reconcile_surplus` does with the revenue.
use kalyx_mao_engine.Base.{
  String, ◌≡◌, refl, some, arith, inl, inr, str_append, str_eq, if◌then◌else◌, Bool-cases,
}
use kalyx_mao_engine.Base.Int.{
  ℤ, pos, ◌+ℤ◌, ◌-ℤ◌, ◌≤ℤ◌, ltb_ℤ, leb_ℤ, int_laws, parts, eq_of_parts, +ℤ-zero, -ℤ-zero,
}
use kalyx_mao_engine.Base.Dict.{insert}
use kalyx_mao_engine.Base.Outcome.{Result, ok, err}
use kalyx_mao_engine.Base.Stateful.{proceed_inv}
use kalyx_mao_engine.Ledger.{
  Stamp, LedgerEntry, DoubleEntryLedger, treasury, revenue, get_balance, transfer,
}
use kalyx_mao_engine.Ledger.Methods.{transfer_moves}
use kalyx_mao_engine.Work.Repository.{RevenueEvent}
use kalyx_mao_engine.Work.Surplus.{
  Ratio, SurplusState, SurplusCall, Split, split_revenue, set_ledger, pay_out, event_of,
  settle_split, surplus_reserve,
}

-- The whole revenue is split, nothing of it is negative, and the surplus is what exceeds the cost.
pub record IsSplit (gross direct : ℤ) (x : Split) : Type 0 where
  pub whole : x.cost_reimbursement +ℤ (x.to_reserve +ℤ x.to_mission) ≡ gross
  pub surplus : x.to_reserve +ℤ x.to_mission ≡ x.net_surplus
  pub cost_nonneg : pos 0 ≤ℤ x.cost_reimbursement
  pub cost_bound : x.cost_reimbursement ≤ℤ direct
  pub reserve_nonneg : pos 0 ≤ℤ x.to_reserve
  pub mission_nonneg : pos 0 ≤ℤ x.to_mission

-- For a revenue and an expense that are not negative, and a ratio whose share of a surplus that is
-- not negative lies between 0 and the surplus.
pub split_revenue-IsSplit :
    (ratio : Ratio) (gross direct : ℤ)
    → pos 0 ≤ℤ gross
    → pos 0 ≤ℤ direct
    → ((n : ℤ) → pos 0 ≤ℤ n → (pos 0 ≤ℤ ratio.floor_of n) × (ratio.floor_of n ≤ℤ n))
    → IsSplit gross direct (split_revenue ratio gross direct)
unfolding split_revenue
split_revenue-IsSplit ratio gross direct g d share = elim (Bool-cases (leb_ℤ direct gross)) [
  | inl covered ↦
      let net = gross -ℤ direct in
      let fits : direct ≤ℤ gross = ground (arith, covered) in
      let (low, high) = share net (omega int_laws) in
      let mission : ℤ = net -ℤ ratio.floor_of net in
      let back : ratio.floor_of net +ℤ mission ≡ net = eq_of_parts _ _ (omega int_laws) in
      rw covered (record {
        whole = eq_of_parts _ _ (omega (int_laws, parts back));
        surplus = back;
        cost_nonneg = d;
        cost_bound = omega arith;
        reserve_nonneg = low;
        mission_nonneg = omega int_laws;
      })
  | inr loss ↦
      let short : gross ≤ℤ direct = ground (arith, loss) in
      rw loss (record {
        whole = eq_of_parts _ _ (omega int_laws);
        surplus = +ℤ-zero (pos 0);
        cost_nonneg = g;
        cost_bound = short;
        reserve_nonneg = omega arith;
        mission_nonneg = omega arith;
      })
]

-- What a transfer does to the balances, whether it is made or its amount is 0.
abbrev pub Moves : String → ℤ → SurplusState → SurplusState → Type 0
Moves to amount s s' =
    ((a : String)
      → get_balance s'.ledger a ≡ (
          if str_eq to a
          then get_balance s.ledger a +ℤ amount
          else if str_eq revenue a
          then get_balance s.ledger a -ℤ amount
          else get_balance s.ledger a))
    × (s'.events ≡ s.events)

set_ledger-Moves :
    (stamp : Stamp) (to : String) (amount : ℤ) (memo tx : String) (s s' : SurplusState)
    (r : Result (LedgerEntry × DoubleEntryLedger))
    → transfer stamp revenue to amount memo (some tx) s.ledger ≡ r
    → set_ledger r s ≡ (ok tt, s')
    → Moves to amount s s'
set_ledger-Moves stamp to amount memo tx s s' (err e) made h = cc h
set_ledger-Moves stamp to amount memo tx s s' (ok (e, l)) made h =
    let table : s'.ledger ≡ l = ground (arith, h) in
    let events : s'.events ≡ s.events = ground (arith, h) in
    (
      λ a. rw table (
          (transfer_moves stamp revenue to amount memo (some tx) s.ledger {e = e} {l' = l} made).0
            a),
      events,
    )

pay_out-Moves :
    (stamp : Stamp) (to : String) (amount : ℤ) (memo tx : String) (s s' : SurplusState)
    → pos 0 ≤ℤ amount
    → pay_out stamp to amount memo tx s ≡ (ok tt, s')
    → Moves to amount s s'
unfolding pay_out
pay_out-Moves stamp to amount memo tx s s' low h = elim (Bool-cases (ltb_ℤ (pos 0) amount)) [
  | inl positive ↦ set_ledger-Moves stamp to amount memo tx s s' _ refl (simp positive at h)
  | inr nothing ↦
      let same : s' ≡ s = ground (arith, simp nothing at h) in
      let zero : amount ≡ pos 0 = eq_of_parts _ _ (ground (arith, nothing, low)) in
      rw same (
        rw zero (
          λ a. ground (arith, +ℤ-zero (get_balance s.ledger a), -ℤ-zero (get_balance s.ledger a)),
          refl,
        ))
]

-- The transfers that settle a split, one after the other.
pub record Settled (c : SurplusCall) (x : Split) (s s' : SurplusState) : Type 0 where
  pub first : SurplusState
  pub second : SurplusState
  pub third : SurplusState
  pub cost : Moves treasury x.cost_reimbursement s first
  pub reserve : Moves surplus_reserve x.to_reserve first second
  pub mission : Moves treasury x.to_mission second third
  pub ledger : s'.ledger ≡ third.ledger
  pub events : s'.events ≡ insert (str_append "rev-" c.event_uuid) (event_of c x) third.events

pub settle_split-Settled :
    (c : SurplusCall) (x : Split) (e : RevenueEvent) (s s' : SurplusState)
    → pos 0 ≤ℤ x.cost_reimbursement
    → pos 0 ≤ℤ x.to_reserve
    → pos 0 ≤ℤ x.to_mission
    → settle_split c x s ≡ (ok e, s')
    → (e ≡ event_of c x) × Settled c x s s'
unfolding settle_split
settle_split-Settled c x e s s' a b d h =
    let (_, s1, one, rest1) = proceed_inv _ _ e s' h in
    let (_, s2, two, rest2) = proceed_inv _ _ e s' rest1 in
    let (_, s3, three, rest3) = proceed_inv _ _ e s' rest2 in
    (
      ground (arith, rest3),
      record {
        first = s1;
        second = s2;
        third = s3;
        cost = pay_out-Moves _ _ _ _ _ s s1 a one;
        reserve = pay_out-Moves _ _ _ _ _ s1 s2 b two;
        mission = pay_out-Moves _ _ _ _ _ s2 s3 d three;
        ledger = ground (arith, rest3);
        events = ground (arith, rest3);
      },
    )

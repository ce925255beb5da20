-- ===== src/Marketplace/Payout.antt =====
-- An escrow is paid out once: released to the provider or refunded to the client.
use kalyx_mao_engine.Base.{
  ℕ, suc, ◌≤◌, String, Bool, true, false, ◌≡◌, refl, some, List, [], ◌∷◌, ◌&&◌, inl, inr, arith,
  eq_iff, if◌then◌else◌, Bool-cases, Option-cases,
}
use kalyx_mao_engine.Base.Outcome.{Result, ok, err}
use kalyx_mao_engine.Base.Table.{find, any_mono, find-any}
use kalyx_mao_engine.Work.Receipts.{WorkLibrary, WorkOrder, WorkDeliverable}
use kalyx_mao_engine.Work.Surplus.{Reconciler}
use kalyx_mao_engine.Marketplace.Escrows.{
  EscrowAgreement, Escrows, is_escrow, get_escrow, save_escrow, save_unless,
}
use kalyx_mao_engine.Marketplace.Coordinator.{
  Market, Refund, Settlement, refund_escrow, execute_and_settle,
}
use kalyx_mao_engine.Marketplace.Effects.{is_done, escrow_for}
use kalyx_mao_engine.Marketplace.Settling.{refund_escrow-SettlesBy, execute_and_settle-SettlesBy}
use kalyx_mao_engine.Marketplace.Closing.{
  is_open_in, is_known_in, is_key_of, step_closed, step_pays,
}

-- The calls that write escrows.
pub data MarketCall : Type 0 where
  refunding : Refund → MarketCall
  settling : Settlement → MarketCall
  saving : EscrowAgreement → MarketCall

abbrev saved_rows : Escrows → Result (EscrowAgreement × Escrows) → Escrows
saved_rows rows (ok (e, rows')) = rows'
saved_rows rows (err x) = rows

found_rows :
    (r e : EscrowAgreement) (rows : Escrows) → saved_rows rows (save_unless (some r) e rows) ≡ rows
found_rows r e rows = ground arith

module _ (tenant org id : String) where
  -- A key that the table has is not inserted again.
  save_closed :
      (e : EscrowAgreement) (rows : Escrows)
      → is_known_in tenant org id rows ≡ true
      → is_open_in tenant org id rows ≡ false
      → let rows' = saved_rows rows (save_escrow e rows) in
        (is_known_in tenant org id rows' ≡ true) × (is_open_in tenant org id rows' ≡ false)
  unfolding save_escrow get_escrow
  save_closed e rows known shut =
      let test = is_escrow e.tenant_id e.organisation_id e.escrow_id in
      elim (Option-cases (find test rows)) [
        | inr (r, found) ↦ rw found (rw (found_rows r e rows) (known, shut))
        | inl new ↦ elim (Bool-cases (is_escrow tenant org id e)) [
          | inr other ↦ rw new (simp other (known, shut))
          | inl same ↦
              let present =
                any_mono (is_escrow tenant org id) test
                  (λ r h. ground (
                    arith,
                    h,
                    same,
                    eq_iff e.tenant_id tenant,
                    eq_iff e.organisation_id org,
                    eq_iff e.escrow_id id,
                  ))
                  rows known in
              let (r, found) = find-any test rows present in cc (new, found)
        ]
      ]

module _ (lib : WorkLibrary) (verifier secret : String) (r : Reconciler) (durable : Bool)
    (execute_work : WorkOrder → String → String → Result WorkDeliverable) where
  abbrev pub run_market : MarketCall → Market → Market
  run_market (refunding f) m = (refund_escrow f m).1
  run_market (settling c) m = (execute_and_settle lib verifier secret r durable execute_work c m).1
  run_market (saving e) m = record m { escrows = saved_rows m.escrows (save_escrow e m.escrows) }

  module _ (tenant org id : String) where
    -- Whether the call returns, and the escrow that it found has the key.
    abbrev pub pays : MarketCall → Market → Bool
    pays (refunding f) m =
        is_done (refund_escrow f m).0
        && is_key_of tenant org id (escrow_for f.order_id f.tenant_id f.organisation_id m)
    pays (settling c) m =
        is_done (execute_and_settle lib verifier secret r durable execute_work c m).0
        && is_key_of tenant org id
            (escrow_for c.order.order_id c.order.tenant_id c.order.organisation_id m)
    pays (saving e) m = false

    unfoldable pub payouts : Market → List MarketCall → ℕ
    payouts m [] = 0
    payouts m (c ∷ cs) =
        let later = payouts (run_market c m) cs in if pays c m then suc later else later

    closed_stays :
        (c : MarketCall) (m : Market)
        → is_known_in tenant org id m.escrows ≡ true
        → is_open_in tenant org id m.escrows ≡ false
        → (is_known_in tenant org id (run_market c m).escrows ≡ true)
          × (is_open_in tenant org id (run_market c m).escrows ≡ false)
    closed_stays (refunding f) m known shut =
        step_closed tenant org id _ m _ _ ((refund_escrow-SettlesBy f).step m) known shut
    closed_stays (settling c) m known shut =
        step_closed tenant org id _ m _ _
          ((execute_and_settle-SettlesBy lib verifier secret r durable execute_work c).step m) known
          shut
    closed_stays (saving e) m known shut = save_closed tenant org id e m.escrows known shut

    pays_closes :
        (c : MarketCall) (m : Market)
        → pays c m ≡ true
        → (is_open_in tenant org id m.escrows ≡ true)
          × (is_known_in tenant org id (run_market c m).escrows ≡ true)
          × (is_open_in tenant org id (run_market c m).escrows ≡ false)
    pays_closes (saving e) m h = cc
    pays_closes (refunding f) m h =
        step_pays tenant org id f.order_id f.tenant_id f.organisation_id m _ _
          ((refund_escrow-SettlesBy f).step m) (ground (arith, h)) (ground (arith, h))
    pays_closes (settling c) m h =
        step_pays tenant org id c.order.order_id c.order.tenant_id c.order.organisation_id m _ _
          ((execute_and_settle-SettlesBy lib verifier secret r durable execute_work c).step m)
          (ground (arith, h)) (ground (arith, h))

    payouts_of_closed :
        (m : Market) (cs : List MarketCall)
        → is_known_in tenant org id m.escrows ≡ true
        → is_open_in tenant org id m.escrows ≡ false
        → payouts m cs ≡ 0
    unfolding payouts
    payouts_of_closed m [] known shut = refl
    payouts_of_closed m (c ∷ cs) known shut =
        let (known', shut') = closed_stays c m known shut in
        elim (Bool-cases (pays c m)) [
          | inl paid ↦ cc ((pays_closes c m paid).0)
          | inr unpaid ↦ rw unpaid (payouts_of_closed (run_market c m) cs known' shut')
        ]

    -- Of any settlements, refunds and savings of escrows, in any order and whether they return or
    -- raise, at most one returns having paid out the escrow of a given key.
    pub payout_once : (m : Market) (cs : List MarketCall) → payouts m cs ≤ 1
    unfolding payouts
    payout_once m [] = omega arith
    payout_once m (c ∷ cs) = elim (Bool-cases (pays c m)) [
      | inr unpaid ↦ rw unpaid (payout_once (run_market c m) cs)
      | inl paid ↦
          let (was, known, shut) = pays_closes c m paid in
          rw paid (omega (arith, payouts_of_closed (run_market c m) cs known shut))
    ]

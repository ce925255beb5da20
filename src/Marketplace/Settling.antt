-- ===== src/Marketplace/Settling.antt =====
-- A refund and a settlement close the escrow that they find, or raise and leave the escrows.
use kalyx_mao_engine.Base.{String, Bool, not, refl, none, some, ◌||◌, if◌then◌else◌}
use kalyx_mao_engine.Base.Outcome.{Result, value_error, permission_error}
use kalyx_mao_engine.Base.Stateful.{observe, raise_when, returns}
use kalyx_mao_engine.Work.Receipts.{
  WorkLibrary, WorkOrder, WorkDeliverable, WorkDeliverableReceipt, is_verified, verify,
}
use kalyx_mao_engine.Work.Surplus.{Reconciler, SurplusCall, reconcile_surplus}
use kalyx_mao_engine.Marketplace.Orders.{
  MarketplaceOrder, get_order, is_completed, is_claimed, cancelled, completed,
}
use kalyx_mao_engine.Marketplace.Escrows.{EscrowAgreement}
use kalyx_mao_engine.Marketplace.Coordinator.{
  Refund, Settlement, client_transfer, set_order_status, with_tables, find_again,
  reconcile_provider, provider_deposit, surplus_call, events_of, is_text, work_order_of, answer,
  or_missing, refund_update, refund_found, refund_escrow, release_update, settle_verified,
  settle_found, execute_and_settle,
}
use kalyx_mao_engine.Marketplace.Effects.{
  KeepsEscrows, ClosesFound, SettlesBy, >>=-KeepsEscrows, >>=-ClosesFound, set_escrow-ClosesFound,
  >>=-SettlesBy, find-SettlesBy, ClosesFound-then, client-KeepsEscrows, order-KeepsEscrows,
  tables-KeepsEscrows, escrow_for, set_provider-escrows, in_provider-escrows,
  or_missing-KeepsMarket,
}

refund_found-ClosesFound :
    (r : Refund) (o : MarketplaceOrder) (e : EscrowAgreement) → ClosesFound e (refund_found r o e)
unfolding refund_found
refund_found-ClosesFound r o e =
    >>=-ClosesFound e (client_transfer _ _ _ _ _ _) _ (client-KeepsEscrows _ _ _ _ _ _) (λ a.
      set_escrow-ClosesFound e (refund_update r e) _
        (record { same_tenant = refl; same_org = refl; same_id = refl; not_held = refl })
        (λ b. order-KeepsEscrows o cancelled none r.now))

pub refund_escrow-SettlesBy :
    (r : Refund) → SettlesBy (escrow_for r.order_id r.tenant_id r.organisation_id) (refund_escrow r)
unfolding refund_escrow
refund_escrow-SettlesBy r =
    let look = escrow_for r.order_id r.tenant_id r.organisation_id in
    >>=-SettlesBy look (observe (λ m. get_order r.tenant_id r.organisation_id r.order_id m.orders))
      _ (record { keeps = λ m. refl })
      (λ o. >>=-SettlesBy look (or_missing o) _ (or_missing-KeepsMarket o) (λ o'.
        >>=-SettlesBy look (raise_when (λ m. is_completed o'.status) value_error) _
          (record { keeps = λ m. refl })
          (λ a. find-SettlesBy look _ (λ e.
            ClosesFound-then e (refund_found r o' e) (λ b. find_again r)
              (refund_found-ClosesFound r o' e) (λ b. record { keeps = λ m. refl })))))

module _ (lib : WorkLibrary) (verifier verifier_secret : String) (r : Reconciler) (durable : Bool)
    (execute_work : WorkOrder → String → String → Result WorkDeliverable) where
  reconcile_provider-KeepsEscrows :
      (c : SurplusCall)
      → KeepsEscrows (reconcile_provider lib verifier verifier_secret r durable execute_work c)
  reconcile_provider-KeepsEscrows c = record {
    keeps = λ m. in_provider-escrows m (
        reconcile_surplus lib r (if durable then some (events_of m.tables) else none) c m.provider);
  }

  settle_verified-ClosesFound :
      (c : Settlement) (e : EscrowAgreement) (d : WorkDeliverable)
      (receipt : WorkDeliverableReceipt)
      → ClosesFound e
          (settle_verified lib verifier verifier_secret r durable execute_work c e d receipt)
  unfolding settle_verified
  settle_verified-ClosesFound c e d receipt =
      >>=-ClosesFound e (client_transfer _ _ _ _ _ _) _ (client-KeepsEscrows _ _ _ _ _ _) (λ a.
        >>=-ClosesFound e (provider_deposit _ _ _ _) _
          (record { keeps = λ m. set_provider-escrows _ m })
          (λ b.
            >>=-ClosesFound e
              (reconcile_provider lib verifier verifier_secret r durable execute_work
                (surplus_call c d receipt))
              _ (reconcile_provider-KeepsEscrows (surplus_call c d receipt))
              (λ event. >>=-ClosesFound e (with_tables _) _ (tables-KeepsEscrows _) (λ t.
                set_escrow-ClosesFound e (release_update c e) _
                  (record { same_tenant = refl; same_org = refl; same_id = refl; not_held = refl })
                  (λ u.
                    >>=-KeepsEscrows
                      (set_order_status c.order completed (some d.deliverable_id) c.now)
                      (λ v. returns event) (order-KeepsEscrows _ _ _ _)
                      (λ v. record { keeps = λ m. refl }))))))

  -- The call from the escrow on.
  settle_found-ClosesFound :
      (c : Settlement) (e : EscrowAgreement)
      → ClosesFound e (settle_found lib verifier verifier_secret r durable execute_work c e)
  unfolding settle_found
  settle_found-ClosesFound c e =
      let w = work_order_of c in
      >>=-ClosesFound e (raise_when _ _) _ (record { keeps = λ m. refl })
        (λ a. >>=-ClosesFound e (with_tables _) _ (tables-KeepsEscrows _) (λ b.
          >>=-ClosesFound e (answer (execute_work w c.producer_agent_id c.provider_org_id)) _
            (record { keeps = λ m. refl })
            (λ d. >>=-ClosesFound e (with_tables _) _ (tables-KeepsEscrows _) (λ b'.
              >>=-ClosesFound e (with_tables _) _ (tables-KeepsEscrows _) (λ b''.
                >>=-ClosesFound e
                  (raise_when
                    (λ m. not (is_verified (verify lib verifier verifier_secret c.receipt_id w d)))
                    value_error)
                  _ (record { keeps = λ m. refl }) (λ a'. settle_verified-ClosesFound c e d _))))))

  pub execute_and_settle-SettlesBy :
      (c : Settlement)
      → SettlesBy
          (escrow_for c.order.order_id c.order.tenant_id c.order.organisation_id)
          (execute_and_settle lib verifier verifier_secret r durable execute_work c)
  unfolding execute_and_settle
  execute_and_settle-SettlesBy c =
      let look = escrow_for c.order.order_id c.order.tenant_id c.order.organisation_id in
      >>=-SettlesBy look (raise_when (λ m. not (is_claimed c.order.status)) value_error) _
        (record { keeps = λ m. refl })
        (λ a.
          >>=-SettlesBy look
            (raise_when
              (λ m.
                not (is_text c.order.claimed_by_org_id c.provider_org_id)
                || not (is_text c.order.claimed_by_agent_id c.producer_agent_id))
              permission_error)
            _ (record { keeps = λ m. refl })
            (λ b. find-SettlesBy look _ (settle_found-ClosesFound c)))

-- ===== src/Marketplace/Reversal.antt =====
-- An order that is published and then refunded.
use mathlib.Core.Path.{subst}
use kalyx_mao_engine.Base.{
  String, true, false, ◌≡◌, refl, ◌∙◌, Option, none, some, List, ◌∷◌, ◌||◌, arith, contains,
  str_append, str_eq, eq_refl, eq_iff, or_else, is_empty-append, is_empty, if◌then◌else◌,
}
use kalyx_mao_engine.Base.Int.{ℤ, pos, ◌+ℤ◌, ◌-ℤ◌, ◌≤ℤ◌, int_laws, eq_of_parts}
use kalyx_mao_engine.Base.Outcome.{ok}
use kalyx_mao_engine.Base.Table.{find, update}
use kalyx_mao_engine.Ledger.{
  Stamp, LedgerEntry, DoubleEntryLedger, treasury, escrow, get_balance, transfer,
}
use kalyx_mao_engine.Ledger.Methods.{Accepts, transfer-Accepts, transfer_moves}
use kalyx_mao_engine.Policy.Engine.{Library, PolicyEngine}
use kalyx_mao_engine.Governance.Breaker.{Store}
use kalyx_mao_engine.Marketplace.Orders.{
  MarketplaceOrder, get_order, update_order_status, cancelled,
}
use kalyx_mao_engine.Marketplace.Escrows.{
  EscrowAgreement, get_escrow, get_escrow_by_order, updated_escrow, update_escrow_status,
}
use kalyx_mao_engine.Marketplace.Coordinator.{
  Market, Refund, refund_update, refund_found, set_escrow, set_order_status, refund_escrow,
}
use kalyx_mao_engine.Marketplace.Publishing.{
  Publication, Client, order_id_of, escrow_of, publish_b2b_order,
}
use kalyx_mao_engine.Marketplace.Listing.{
  IsNew, Locked, order_found, escrow_found, publish_b2b_order-Passed,
}

-- The refund of the order that a publication has made.
abbrev pub refund_of : Publication → String → Stamp → String → Refund
refund_of c reason stamp now = record {
  tenant_id = c.client_tenant_id;
  organisation_id = c.client_org_id;
  order_id = order_id_of c;
  reason = reason;
  stamp = stamp;
  now = now;
}

abbrev pub refund_id : Publication → String
refund_id c = str_append "escrow-refund-" (order_id_of c)

abbrev refund_memo : Publication → String → String
refund_memo c reason =
    str_append "Escrow refund for order " (str_append (order_id_of c) (str_append ": " reason))

module _ (c : Publication) (reason : String) (stamp : Stamp) (now : String) where
  abbrev pub closed : EscrowAgreement
  closed = updated_escrow (refund_update (refund_of c reason stamp now) (escrow_of c)) (escrow_of c)

  found_closed :
      (o : MarketplaceOrder) (orders : List MarketplaceOrder) (rows : List EscrowAgreement)
      → IsNew c o
      → (is_empty c.client_tenant_id || is_empty c.client_org_id) ≡ false
      → get_escrow_by_order
          (order_id_of c)
          c.client_tenant_id
          c.client_org_id
          (update_order_status o.tenant_id o.organisation_id o.order_id cancelled none now
            (o ∷ orders))
          (update_escrow_status
            (refund_update (refund_of c reason stamp now) (escrow_of c))
            (escrow_of c ∷ rows))
        ≡ ok (some closed)
  unfolding get_escrow_by_order find update_order_status update_escrow_status update
  found_closed o orders rows n scope = simp (
    scope,
    n.same_tenant,
    n.same_org,
    n.same_id,
    eq_refl c.client_tenant_id,
    eq_refl c.client_org_id,
    eq_refl (order_id_of c),
    eq_refl (escrow_of c).escrow_id,
  )

  refund_returns :
      (m : Market) (o : MarketplaceOrder) (orders : List MarketplaceOrder)
      (rows : List EscrowAgreement) (e : LedgerEntry) (l : DoubleEntryLedger)
      → IsNew c o
      → (is_empty c.client_tenant_id || is_empty c.client_org_id) ≡ false
      → m.orders ≡ o ∷ orders
      → m.escrows ≡ escrow_of c ∷ rows
      → transfer stamp escrow treasury c.bounty_amount
          (refund_memo c reason)
          (some (refund_id c))
          m.client_ledger
        ≡ ok (e, l)
      → let (answer, m') = refund_escrow (refund_of c reason stamp now) m in
        (answer ≡ ok closed) × (m'.client_ledger ≡ l)
  unfolding refund_escrow refund_found set_escrow set_order_status
  refund_returns m o orders rows e l n scope has_order has_escrow paid =
      simp
        (
          has_order,
          has_escrow,
          order_found c o orders n,
          n.is_open,
          escrow_found c o orders rows n scope,
          paid,
          found_closed o orders rows n scope,
        )
        (refl, refl)

add_sub : (b x : ℤ) → (b +ℤ x) -ℤ x ≡ b
add_sub b x = eq_of_parts _ _ (omega int_laws)

sub_add : (b x : ℤ) → (b -ℤ x) +ℤ x ≡ b
sub_add b x = eq_of_parts _ _ (omega int_laws)

accounts_apart : (a : String) → str_eq escrow a ≡ true → str_eq treasury a ≡ false
accounts_apart a h =
    let same : escrow ≡ a = ground (arith, h, eq_iff escrow a) in
    subst (λ b. str_eq treasury b ≡ false) same refl

-- The bounty there and back.
back_again :
    (a : String) (b x after : ℤ)
    → after ≡ (if str_eq escrow a then b +ℤ x else if str_eq treasury a then b -ℤ x else b)
    → (if str_eq treasury a then after +ℤ x else if str_eq escrow a then after -ℤ x else after) ≡ b
back_again a b x after h = ground (arith, h, add_sub b x, sub_add b x, accounts_apart a)

module _ (lib : Library) (dumps : List (String × String) → String)
    (parameters_text : ℤ → String → String) (engine : PolicyEngine) (breaker : Option Store)
    (c : Publication) (reason : String) (stamp : Stamp) (now : String) where
  refund_tx : or_else (some (refund_id c)) stamp.uuid ≡ refund_id c
  refund_tx = simp (is_empty-append "escrow-refund-" (order_id_of c) refl)

  refund_pays :
      (l l' : DoubleEntryLedger)
      → Locked c l l'
      → pos 0 ≤ℤ get_balance l escrow
      → contains (refund_id c) l'.recorded_tx_ids ≡ false
      → Accepts escrow treasury c.bounty_amount (or_else (some (refund_id c)) stamp.uuid) l'
  refund_pays l l' paid solvent fresh = record {
    fresh = rw refund_tx fresh;
    positive = paid.positive;
    apart = refl;
    funded = rw (paid.moved escrow) (omega (int_laws, solvent));
  }

  -- Where the identifiers of the order, of its escrow and of the refund are new, the scope is not
  -- empty and ESCROW is not overdrawn: `refund_escrow` of an order that `publish_b2b_order` has just
  -- returned, on the state that it left, returns the escrow REFUNDED, and every account of the
  -- client's ledger is again as before the publication.
  pub refund_escrow-publish_b2b_order :
      (s s' : Client) (o : MarketplaceOrder)
      → get_order c.client_tenant_id c.client_org_id (order_id_of c) s.market.orders ≡ none
      → get_escrow c.client_tenant_id c.client_org_id (escrow_of c).escrow_id s.market.escrows
        ≡ none
      → (is_empty c.client_tenant_id || is_empty c.client_org_id) ≡ false
      → publish_b2b_order lib dumps parameters_text engine breaker c s ≡ (ok o, s')
      → pos 0 ≤ℤ get_balance s.market.client_ledger escrow
      → contains (refund_id c) s'.market.client_ledger.recorded_tx_ids ≡ false
      → let (answer, m) = refund_escrow (refund_of c reason stamp now) s'.market in
        (answer ≡ ok (closed c reason stamp now))
        × ((a : String) → get_balance m.client_ledger a ≡ get_balance s.market.client_ledger a)
  refund_escrow-publish_b2b_order s s' o new_order new_escrow scope h solvent fresh =
      let w =
        (publish_b2b_order-Passed lib dumps parameters_text engine breaker c s s' o new_order
          new_escrow h).written in
      let paid : Locked c s.market.client_ledger s'.market.client_ledger = rw w.state w.paid in
      let accepted =
        transfer-Accepts stamp escrow treasury c.bounty_amount (refund_memo c reason)
          (some (refund_id c)) s'.market.client_ledger
          (refund_pays s.market.client_ledger s'.market.client_ledger paid solvent fresh) in
      let (answer, ledger) =
        refund_returns c reason stamp now s'.market o s.market.orders s.market.escrows _ _ w.new
          scope (rw w.state refl) (rw w.state refl) accepted in
      (
        answer,
        λ a. rw ledger (
            (transfer_moves stamp escrow treasury c.bounty_amount (refund_memo c reason)
                (some (refund_id c)) s'.market.client_ledger accepted).0
              a
            ∙ back_again a (get_balance s.market.client_ledger a) c.bounty_amount _ (paid.moved a)),
      )

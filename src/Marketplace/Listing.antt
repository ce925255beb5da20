-- ===== src/Marketplace/Listing.antt =====
-- What publishing an order writes.
use kalyx_mao_engine.Base.{
  String, true, false, ◌≡◌, refl, ◌∙◌, Option, none, some, List, ◌∷◌, ◌||◌, inl, inr, arith,
  str_append, str_eq, eq_refl, is_empty, if◌then◌else◌, Bool-cases,
}
use kalyx_mao_engine.Base.Int.{ℤ, pos, ◌+ℤ◌, ◌-ℤ◌, ◌<ℤ◌, ◌≤ℤ◌, ltb_ℤ}
use kalyx_mao_engine.Base.Outcome.{Result, ok, err}
use kalyx_mao_engine.Base.Stateful.{proceed_inv}
use kalyx_mao_engine.Base.Table.{find}
use kalyx_mao_engine.Ledger.{
  LedgerEntry, DoubleEntryLedger, treasury, escrow, get_balance, transfer,
}
use kalyx_mao_engine.Ledger.Methods.{transfer_inv, transfer_moves}
use kalyx_mao_engine.Entities.{PolicyResult, approved, rejected, escalate_to_human}
use kalyx_mao_engine.Policy.Engine.{Library, PolicyEngine, evaluate}
use kalyx_mao_engine.Governance.Breaker.{Store}
use kalyx_mao_engine.Marketplace.Orders.{
  MarketplaceOrder, opened, create, create_order, get_order, inserted_order,
}
use kalyx_mao_engine.Marketplace.Escrows.{
  EscrowAgreement, save_escrow, get_escrow, get_escrow_by_order,
}
use kalyx_mao_engine.Marketplace.Publishing.{
  Publication, Client, order_id_of, lock_id, terms_of, escrow_of, answer_of, with_agent,
  is_approval, is_blocked, lock_bounty, locked, put_order, put_escrow, proposal_of, is_permitted,
  publish_approved, publish_b2b_order,
}

-- The bounty has gone from the treasury to the escrow account, which the treasury covered.
pub record Locked (c : Publication) (l l' : DoubleEntryLedger) : Type 0 where
  pub positive : pos 0 <ℤ c.bounty_amount
  pub funded : c.bounty_amount ≤ℤ get_balance l treasury
  pub moved :
      (a : String)
      → get_balance l' a ≡ (
          if str_eq escrow a
          then get_balance l a +ℤ c.bounty_amount
          else if str_eq treasury a
          then get_balance l a -ℤ c.bounty_amount
          else get_balance l a)

transfer-Locked :
    (c : Publication) (memo : String) (e : LedgerEntry) (l l' : DoubleEntryLedger)
    → transfer c.lock_stamp treasury escrow c.bounty_amount memo (some (lock_id c)) l ≡ ok (e, l')
    → Locked c l l'
transfer-Locked c memo e l l' h =
    let (accepts, _, _) =
      transfer_inv c.lock_stamp treasury escrow c.bounty_amount memo (some (lock_id c)) l {e = e}
        {l' = l'} h in
    record {
      positive = accepts.positive;
      funded = accepts.funded;
      moved =
          (transfer_moves c.lock_stamp treasury escrow c.bounty_amount memo (some (lock_id c)) l
            {e = e} {l' = l'} h).0;
    }

abbrev pub with_ledger : DoubleEntryLedger → Client → Client
with_ledger l s = record s { market = record s.market { client_ledger = l } }

abbrev pub with_order : MarketplaceOrder → Client → Client
with_order o s = record s { market = record s.market { orders = o ∷ s.market.orders } }

abbrev pub with_escrow : EscrowAgreement → Client → Client
with_escrow e s = record s { market = record s.market { escrows = e ∷ s.market.escrows } }

locking :
    (c : Publication) (s s' : Client) (r : Result (LedgerEntry × DoubleEntryLedger))
    → transfer c.lock_stamp treasury escrow c.bounty_amount
        (str_append "Escrow lock for B2B Order " (order_id_of c))
        (some (lock_id c))
        s.market.client_ledger
      ≡ r
    → locked r s ≡ (ok tt, s')
    → (l : DoubleEntryLedger) × Locked c s.market.client_ledger l × (s' ≡ with_ledger l s)
locking c s s' (err e) made h = cc h
locking c s s' (ok (e, l)) made h = (l, transfer-Locked c _ e _ l made, ground (arith, h))

-- An order of a new key is inserted.
ordering :
    (o : MarketplaceOrder) (s s' : Client)
    → get_order o.tenant_id o.organisation_id o.order_id s.market.orders ≡ none
    → put_order o s ≡ (ok tt, s')
    → s' ≡ with_order (inserted_order o) s
unfolding create_order
ordering o s s' new h = ground (arith, rw new at h)

escrowing :
    (e : EscrowAgreement) (s s' : Client)
    → get_escrow e.tenant_id e.organisation_id e.escrow_id s.market.escrows ≡ none
    → put_escrow e s ≡ (ok tt, s')
    → s' ≡ with_escrow e s
unfolding save_escrow
escrowing e s s' new h = ground (arith, rw new at h)

-- An order as `MarketplaceOrder.create` makes it for this call.
pub record IsNew (c : Publication) (o : MarketplaceOrder) : Type 0 where
  pub same_tenant : o.tenant_id ≡ c.client_tenant_id
  pub same_org : o.organisation_id ≡ c.client_org_id
  pub same_id : o.order_id ≡ order_id_of c
  pub same_bounty : o.bounty_amount ≡ c.bounty_amount
  pub is_open : o.status ≡ opened
  pub unclaimed : inserted_order o ≡ o

create-IsNew :
    (sha256 : String → String) (dumps : List (String × String) → String) (c : Publication)
    (o : MarketplaceOrder)
    → create sha256 dumps c.now (terms_of c) ≡ ok o
    → IsNew c o
unfolding create
create-IsNew sha256 dumps c o h = record {
  same_tenant = ground (arith, h);
  same_org = ground (arith, h);
  same_id = ground (arith, h);
  same_bounty = ground (arith, h);
  is_open = ground (arith, h);
  unclaimed = ground (arith, h);
}

is_approval-approved : (r : PolicyResult) → is_approval r ≡ true → r ≡ approved
is_approval-approved approved h = refl
is_approval-approved rejected h = cc
is_approval-approved escalate_to_human h = cc

pub order_found :
    (c : Publication) (o : MarketplaceOrder) (rows : List MarketplaceOrder)
    → IsNew c o
    → get_order c.client_tenant_id c.client_org_id (order_id_of c) (o ∷ rows) ≡ some o
unfolding get_order find
order_found c o rows n = simp (
  n.same_tenant,
  n.same_org,
  n.same_id,
  eq_refl c.client_tenant_id,
  eq_refl c.client_org_id,
  eq_refl (order_id_of c),
)

pub escrow_found :
    (c : Publication) (o : MarketplaceOrder) (orders : List MarketplaceOrder)
    (rows : List EscrowAgreement)
    → IsNew c o
    → (is_empty c.client_tenant_id || is_empty c.client_org_id) ≡ false
    → get_escrow_by_order
        (order_id_of c)
        c.client_tenant_id
        c.client_org_id
        (o ∷ orders)
        (escrow_of c ∷ rows)
      ≡ ok (some (escrow_of c))
unfolding get_escrow_by_order find
escrow_found c o orders rows n scope = simp (
  scope,
  n.same_tenant,
  n.same_org,
  n.same_id,
  eq_refl c.client_tenant_id,
  eq_refl c.client_org_id,
  eq_refl (order_id_of c),
)

module _ (lib : Library) (dumps : List (String × String) → String)
    (parameters_text : ℤ → String → String) (engine : PolicyEngine) (breaker : Option Store)
    (c : Publication) where
  -- What stands behind a published order, and what its call has written.
  pub record Published (s s' : Client) (o : MarketplaceOrder) : Type 0 where
    pub running : is_blocked breaker c.client_tenant_id c.client_org_id ≡ false
    pub permitted :
        (evaluate lib engine c.draw
          (proposal_of lib dumps parameters_text engine breaker c)
          (with_agent c.client_agent s.org)
          (some s.market.client_ledger)).result
        ≡ approved
    pub locked : Locked c s.market.client_ledger s'.market.client_ledger
    pub stored :
        get_order c.client_tenant_id c.client_org_id (order_id_of c) s'.market.orders ≡ some o
    pub is_open : o.status ≡ opened
    pub bounty : o.bounty_amount ≡ c.bounty_amount
    pub escrowed :
        get_escrow_by_order
          (order_id_of c)
          c.client_tenant_id
          c.client_org_id
          s'.market.orders
          s'.market.escrows
        ≡ ok (some (escrow_of c))

  -- The writes from the approval on.
  pub record Written (s s' : Client) (o : MarketplaceOrder) : Type 0 where
    pub ledger : DoubleEntryLedger
    pub paid : Locked c s.market.client_ledger ledger
    pub new : IsNew c o
    pub state : s' ≡ with_escrow (escrow_of c) (with_order o (with_ledger ledger s))

  publish_approved-Written :
      (s s' : Client) (o : MarketplaceOrder)
      → get_order c.client_tenant_id c.client_org_id (order_id_of c) s.market.orders ≡ none
      → get_escrow c.client_tenant_id c.client_org_id (escrow_of c).escrow_id s.market.escrows
        ≡ none
      → publish_approved lib dumps parameters_text engine breaker c s ≡ (ok o, s')
      → Written s s' o
  unfolding publish_approved
  publish_approved-Written s s' o new_order new_escrow h =
      let (_, s1, one, rest1) = proceed_inv (lock_bounty c s) _ o s' h in
      let (made, s2, two, rest2) =
        proceed_inv (answer_of (create lib.sha256 dumps c.now (terms_of c)) s1) _ o s' rest1 in
      let (_, s3, three, rest3) = proceed_inv (put_order made s2) _ o s' rest2 in
      let (_, s4, four, rest4) = proceed_inv (put_escrow (escrow_of c) s3) _ o s' rest3 in
      let (l, paid, after_lock) = locking c s s1 _ refl one in
      let created : create lib.sha256 dumps c.now (terms_of c) ≡ ok made = ground (arith, two) in
      let same : s2 ≡ s1 = ground (arith, two) in
      let answer : o ≡ made = ground (arith, rest4) in
      let final : s' ≡ s4 = ground (arith, rest4) in
      let n = create-IsNew lib.sha256 dumps c made created in
      let before : s2 ≡ with_ledger l s = same ∙ after_lock in
      let no_order : get_order made.tenant_id made.organisation_id made.order_id s2.market.orders
          ≡ none =
        rw before (rw n.same_tenant (rw n.same_org (rw n.same_id new_order))) in
      let inserted : s3 ≡ with_order (inserted_order made) s2 =
        ordering made s2 s3 no_order three in
      let third : s3 ≡ with_order made (with_ledger l s) =
        rw before at (rw n.unclaimed at inserted) in
      let no_escrow : get_escrow c.client_tenant_id c.client_org_id (escrow_of c).escrow_id
            s3.market.escrows
          ≡ none =
        rw third new_escrow in
      let saved : s4 ≡ with_escrow (escrow_of c) s3 =
        escrowing (escrow_of c) s3 s4 no_escrow four in
      let fourth : s4 ≡ with_escrow (escrow_of c) (with_order made (with_ledger l s)) =
        rw third at saved in
      rw answer (record { ledger = l; paid = paid; new = n; state = final ∙ fourth })

  -- What a publication that returns went through: no pause, the policy's approval, and the writes.
  pub record Passed (s s' : Client) (o : MarketplaceOrder) : Type 0 where
    pub running : is_blocked breaker c.client_tenant_id c.client_org_id ≡ false
    pub permitted :
        is_permitted lib dumps parameters_text engine breaker c
          (record s { org = with_agent c.client_agent s.org })
        ≡ true
    pub written : Written (record s { org = with_agent c.client_agent s.org }) s' o

  pub publish_b2b_order-Passed :
      (s s' : Client) (o : MarketplaceOrder)
      → get_order c.client_tenant_id c.client_org_id (order_id_of c) s.market.orders ≡ none
      → get_escrow c.client_tenant_id c.client_org_id (escrow_of c).escrow_id s.market.escrows
        ≡ none
      → publish_b2b_order lib dumps parameters_text engine breaker c s ≡ (ok o, s')
      → Passed s s' o
  unfolding publish_b2b_order
  publish_b2b_order-Passed s s' o new_order new_escrow h =
      let added = record s { org = with_agent c.client_agent s.org } in
      elim (Bool-cases (is_blocked breaker c.client_tenant_id c.client_org_id)) [
        | inl blocked ↦ cc (simp blocked at h)
        | inr running ↦ elim (Bool-cases (ltb_ℤ c.bounty_amount (pos 0))) [
          | inl negative ↦ cc (simp (running, negative) at h)
          | inr valid ↦
              elim (Bool-cases (is_permitted lib dumps parameters_text engine breaker c added)) [
                | inr refused ↦ cc (simp (running, valid, refused) at h)
                | inl permitted ↦ record {
                  running = running;
                  permitted = permitted;
                  written =
                      publish_approved-Written added s' o new_order new_escrow
                        (simp (running, valid, permitted) at h);
                }
              ]
        ]
      ]

  -- Where the drawn identifiers of the order and of the escrow are new and the client's scope is not
  -- empty, a publication that returns was permitted by the policy in an organisation that the circuit
  -- breaker does not pause; the bounty has gone from the treasury, which covered it, to the escrow
  -- account; the order that is returned stands in the table, OPEN and with that bounty; and the
  -- escrow found for it is HELD and of that bounty.
  pub publish_b2b_order-Published :
      (s s' : Client) (o : MarketplaceOrder)
      → get_order c.client_tenant_id c.client_org_id (order_id_of c) s.market.orders ≡ none
      → get_escrow c.client_tenant_id c.client_org_id (escrow_of c).escrow_id s.market.escrows
        ≡ none
      → (is_empty c.client_tenant_id || is_empty c.client_org_id) ≡ false
      → publish_b2b_order lib dumps parameters_text engine breaker c s ≡ (ok o, s')
      → Published s s' o
  publish_b2b_order-Published s s' o new_order new_escrow scope h =
      let p = publish_b2b_order-Passed s s' o new_order new_escrow h in
      let w = p.written in
      rw w.state (record {
        running = p.running;
        permitted = is_approval-approved _ p.permitted;
        locked = w.paid;
        stored = order_found c o s.market.orders w.new;
        is_open = w.new.is_open;
        bounty = w.new.same_bounty;
        escrowed = escrow_found c o s.market.orders s.market.escrows w.new scope;
      })

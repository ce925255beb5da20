-- ===== src/Marketplace/Claiming.antt =====
-- An order is claimed once.
use kalyx_mao_engine.Base.{
  ℕ, suc, ◌≤◌, String, Bool, true, false, ◌≡◌, refl, ◌∙◌, Option, none, some, List, [], ◌∷◌, ◌&&◌,
  inl, inr, arith, any, str_eq, eq_iff, if◌then◌else◌, Bool-cases,
}
use kalyx_mao_engine.Base.Outcome.{Result, ok, err}
use kalyx_mao_engine.Base.Table.{update, any-update, any-false, any-congr, any_mono, find-any}
use kalyx_mao_engine.Marketplace.Orders.{
  MarketplaceOrder, MarketplaceOrderStatus, Orders, Claim, is_opened, is_order, is_claimable,
  get_order, create_unless, create_order, claim_order, claimed_order, update_order_status,
}

-- The calls that write orders.
pub data OrderCall : Type 0 where
  creating : MarketplaceOrder → OrderCall
  claiming : Claim → OrderCall
  updating :
      (tenant org id : String) (status : MarketplaceOrderStatus) (deliverable : Option String)
      (now : String)
      → OrderCall

abbrev created_rows : Orders → Result (MarketplaceOrder × Orders) → Orders
created_rows rows (ok (o, rows')) = rows'
created_rows rows (err e) = rows

abbrev pub run_order_call : OrderCall → Orders → Orders
run_order_call (creating o) rows = created_rows rows (create_order o rows)
run_order_call (claiming c) rows = (claim_order c rows).1
run_order_call (updating tenant org id status deliverable now) rows =
    update_order_status tenant org id status deliverable now rows

-- No call sets an order to OPEN.
abbrev pub NeverReopens : List OrderCall → Type 0
NeverReopens [] = Unit {0}
NeverReopens (updating tenant org id status deliverable now ∷ cs) =
    (is_opened status ≡ false) × NeverReopens cs
NeverReopens (_ ∷ cs) = NeverReopens cs

never_parts :
    (c : OrderCall) (cs : List OrderCall)
    → NeverReopens (c ∷ cs)
    → NeverReopens (c ∷ []) × NeverReopens cs
never_parts (creating m) cs never = (tt, never)
never_parts (claiming c) cs never = (tt, never)
never_parts (updating t o i status deliverable now) cs never = ((never.0, tt), never.1)

module _ (tenant org id : String) where
  -- Whether the call claims the order.
  abbrev pub claims : OrderCall → Orders → Bool
  claims (claiming c) rows =
      str_eq c.tenant_id tenant
      && str_eq c.organisation_id org
      && str_eq c.order_id id
      && (claim_order c rows).0
  claims _ rows = false

  unfoldable pub claim_count : Orders → List OrderCall → ℕ
  claim_count rows [] = 0
  claim_count rows (c ∷ cs) =
      let later = claim_count (run_order_call c rows) cs in
      if claims c rows then suc later else later

  abbrev is_open_row : MarketplaceOrder → Bool
  is_open_row o = is_order tenant org id o && is_opened o.status

  abbrev is_open_in : Orders → Bool
  is_open_in = any is_open_row

  abbrev is_known_in : Orders → Bool
  is_known_in = any (is_order tenant org id)

  abbrev is_ours : String → String → String → Bool
  is_ours t o i = str_eq t tenant && str_eq o org && str_eq i id

  -- Two keys that one row has are the same.
  same_key :
      (t o i : String) (r : MarketplaceOrder)
      → is_order t o i r ≡ true
      → is_order tenant org id r ≡ is_ours t o i
  same_key t o i r h =
      ground (arith, h, eq_iff r.tenant_id t, eq_iff r.organisation_id o, eq_iff r.order_id i)

  same_rows :
      (t o i : String) (r : MarketplaceOrder)
      → is_ours t o i ≡ true
      → is_order t o i r ≡ is_order tenant org id r
  same_rows t o i r h = ground (arith, h, eq_iff t tenant, eq_iff o org, eq_iff i id)

  known_after :
      (test : MarketplaceOrder → Bool) (change : MarketplaceOrder → MarketplaceOrder)
      → ((r : MarketplaceOrder) → is_order tenant org id (change r) ≡ is_order tenant org id r)
      → (rows : Orders) → is_known_in (update test change rows) ≡ is_known_in rows
  known_after test change blind =
      any-update (is_order tenant org id) (is_order tenant org id) test change (λ r h. blind r)
        (λ r h. refl)

  -- Any update of a row that leaves it not open and touches all open rows of its key.
  module _ (t o i : String) (test : MarketplaceOrder → Bool)
      (change : MarketplaceOrder → MarketplaceOrder)
      (shut : (r : MarketplaceOrder) → is_opened (change r).status ≡ false)
      (own : (r : MarketplaceOrder) → test r ≡ true → is_order t o i r ≡ true)
      (all : (r : MarketplaceOrder)
        → test r ≡ false
        → (is_order t o i r && is_opened r.status) ≡ false) where
    open_after :
        (rows : Orders)
        → is_open_in (update test change rows) ≡ (if is_ours t o i then false else is_open_in rows)
    open_after rows = elim (Bool-cases (is_ours t o i)) [
      | inl ours ↦ rw ours (
          any-update is_open_row (λ r. false) test change (λ r h. ground (arith, shut r))
            (λ r h. ground (arith, all r h, same_rows t o i r ours)) rows
          ∙ any-false rows)
      | inr theirs ↦ rw theirs (
          any-update is_open_row is_open_row test change
            (λ r h. ground (arith, shut r, own r h, same_key t o i r (own r h), theirs))
            (λ r h. refl) rows)
    ]

  claim_after :
      (c : Claim) (rows : Orders)
      → is_open_in (claim_order c rows).1
        ≡ (if is_ours c.tenant_id c.organisation_id c.order_id then false else is_open_in rows)
  unfolding claim_order
  claim_after c rows =
      open_after c.tenant_id c.organisation_id c.order_id (is_claimable c) (claimed_order c)
        (λ r. refl) (λ r h. ground (arith, h)) (λ r h. h) rows

  claim_known : (c : Claim) (rows : Orders) → is_known_in (claim_order c rows).1 ≡ is_known_in rows
  unfolding claim_order
  claim_known c rows = known_after (is_claimable c) (claimed_order c) (λ r. refl) rows

  claims_parts :
      (c : Claim) (rows : Orders)
      → claims (claiming c) rows ≡ true
      → (is_ours c.tenant_id c.organisation_id c.order_id ≡ true)
        × (any (is_claimable c) rows ≡ true)
  unfolding claim_order
  claims_parts c rows h = ground (arith, h)

  update_known :
      (t o i : String) (status : MarketplaceOrderStatus) (deliverable : Option String)
      (now : String) (rows : Orders)
      → is_known_in (update_order_status t o i status deliverable now rows) ≡ is_known_in rows
  unfolding update_order_status
  update_known t o i status deliverable now rows = known_after (is_order t o i) _ (λ r. refl) rows

  update_after :
      (t o i : String) (status : MarketplaceOrderStatus) (deliverable : Option String)
      (now : String) (rows : Orders)
      → is_opened status ≡ false
      → is_open_in (update_order_status t o i status deliverable now rows)
        ≡ (if is_ours t o i then false else is_open_in rows)
  unfolding update_order_status
  update_after t o i status deliverable now rows h =
      open_after t o i (is_order t o i) _ (λ r. h) (λ r k. k) (λ r k. ground (arith, k)) rows

  found_rows :
      (r m : MarketplaceOrder) (rows : Orders)
      → created_rows rows (create_unless (some r) m rows) ≡ rows
  found_rows r m rows = ground arith

  others_rows :
      (found : Option MarketplaceOrder) (m : MarketplaceOrder) (rows : Orders)
      → is_ours m.tenant_id m.organisation_id m.order_id ≡ false
      → let rows' = created_rows rows (create_unless found m rows) in
        (is_known_in rows' ≡ is_known_in rows) × (is_open_in rows' ≡ is_open_in rows)
  others_rows none m rows h = simp h (refl, refl)
  others_rows (some r) m rows h = rw (found_rows r m rows) (refl, refl)

  -- A key that the table has is not inserted again.
  create_after :
      (m : MarketplaceOrder) (rows : Orders)
      → is_known_in rows ≡ true
      → let rows' = created_rows rows (create_order m rows) in
        (is_known_in rows' ≡ is_known_in rows) × (is_open_in rows' ≡ is_open_in rows)
  unfolding create_order get_order
  create_after m rows known = elim (Bool-cases (is_ours m.tenant_id m.organisation_id m.order_id)) [
    | inr theirs ↦ others_rows _ m rows theirs
    | inl ours ↦
        let test = is_order m.tenant_id m.organisation_id m.order_id in
        let present =
          any-congr test (is_order tenant org id)
            (λ r. same_rows m.tenant_id m.organisation_id m.order_id r ours) rows
          ∙ known in
        let (r, found) = find-any test rows present in
        rw found (rw (found_rows r m rows) (refl, refl))
  ]

  -- An order that stands in the table and is not open stays so.
  closed_stays :
      (c : OrderCall) (rows : Orders)
      → NeverReopens (c ∷ [])
      → is_known_in rows ≡ true
      → is_open_in rows ≡ false
      → (is_known_in (run_order_call c rows) ≡ true) × (is_open_in (run_order_call c rows) ≡ false)
  closed_stays (creating m) rows never known shut =
      let (k, o) = create_after m rows known in (k ∙ known, o ∙ shut)
  closed_stays (claiming c) rows never known shut =
      (claim_known c rows ∙ known, ground (arith, shut, claim_after c rows))
  closed_stays (updating t o i status deliverable now) rows (never, _) known shut = (
    update_known t o i status deliverable now rows ∙ known,
    ground (arith, shut, update_after t o i status deliverable now rows never),
  )

  -- A claim that succeeds finds the order, and leaves it closed.
  claims_close :
      (c : OrderCall) (rows : Orders)
      → claims c rows ≡ true
      → (is_open_in rows ≡ true)
        × (is_known_in (run_order_call c rows) ≡ true)
        × (is_open_in (run_order_call c rows) ≡ false)
  claims_close (creating m) rows h = cc
  claims_close (updating t o i status deliverable now) rows h = cc
  claims_close (claiming c) rows h =
      let (ours, taken) = claims_parts c rows h in
      let was =
        any_mono (is_claimable c) is_open_row
          (λ r k. ground (arith, k, same_rows c.tenant_id c.organisation_id c.order_id r ours)) rows
          taken in
      let known =
        any_mono is_open_row (is_order tenant org id) (λ r k. ground (arith, k)) rows was in
      (was, claim_known c rows ∙ known, claim_after c rows ∙ simp ours)

  claim_count_of_closed :
      (rows : Orders) (cs : List OrderCall)
      → NeverReopens cs
      → is_known_in rows ≡ true
      → is_open_in rows ≡ false
      → claim_count rows cs ≡ 0
  unfolding claim_count
  claim_count_of_closed rows [] never known shut = refl
  claim_count_of_closed rows (c ∷ cs) never known shut =
      let (first, rest) = never_parts c cs never in
      let (known', shut') = closed_stays c rows first known shut in
      elim (Bool-cases (claims c rows)) [
        | inl taken ↦ cc ((claims_close c rows taken).0)
        | inr free ↦ rw free (claim_count_of_closed (run_order_call c rows) cs rest known' shut')
      ]

  -- Of any calls that create orders, claim them or update their status without setting it to OPEN, in
  -- any order and by any providers, at most one claims the order of a given key.
  pub claim_once : (rows : Orders) (cs : List OrderCall) → NeverReopens cs → claim_count rows cs ≤ 1
  unfolding claim_count
  claim_once rows [] never = omega arith
  claim_once rows (c ∷ cs) never = elim (Bool-cases (claims c rows)) [
    | inr free ↦ rw free (claim_once (run_order_call c rows) cs (never_parts c cs never).1)
    | inl taken ↦
        let (was, known, shut) = claims_close c rows taken in
        rw taken (
          omega (
            arith,
            claim_count_of_closed (run_order_call c rows) cs (never_parts c cs never).1 known shut,
          ))
  ]

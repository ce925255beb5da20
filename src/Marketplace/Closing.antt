-- ===== src/Marketplace/Closing.antt =====
-- What a step of a settlement or a refund makes of an escrow of a given key.
use kalyx_mao_engine.Base.{
  String, Bool, true, false, ◌≡◌, refl, ◌∙◌, sym, ap, some, List, [], ◌∷◌, ◌&&◌, inl, inr, arith,
  any, str_eq, eq_iff, if◌then◌else◌, is_empty, ◌||◌, Bool-cases, Option-cases,
}
use kalyx_mao_engine.Base.Outcome.{Result, ok, err}
use kalyx_mao_engine.Base.Table.{find, any-update, any-false}
use kalyx_mao_engine.Marketplace.Orders.{Orders}
use kalyx_mao_engine.Marketplace.Escrows.{
  EscrowAgreement, Escrows, EscrowUpdate, is_escrow, is_held, is_visible, get_escrow_by_order,
  update_escrow_status, updated_escrow,
}
use kalyx_mao_engine.Marketplace.Coordinator.{Market, held_escrow}
use kalyx_mao_engine.Marketplace.Effects.{EscrowStep, left_alone, paid_out, escrow_for}

find-any_of {ℓ} :
    {A : Type ℓ} (p q : A → Bool) (rows : List A) (r : A)
    → find p rows ≡ some r
    → q r ≡ true
    → any q rows ≡ true
unfolding find
find-any_of p q [] r h k = cc
find-any_of p q (x ∷ rows) r h k = ground (arith, h, k, find-any_of p q rows r)

-- The escrow that is found stands in the table, and is held.
held_found :
    (order_id tenant org : String) (orders : Orders) (rows : Escrows) (e : EscrowAgreement)
    → held_escrow (get_escrow_by_order order_id tenant org orders rows) ≡ ok e
    → (find (is_visible order_id tenant org orders) rows ≡ some e) × (is_held e.status ≡ true)
unfolding get_escrow_by_order
held_found order_id tenant org orders rows e h =
    elim (Bool-cases (is_empty tenant || is_empty org)) [
      | inl unscoped ↦ cc (simp unscoped at h)
      | inr scoped ↦ elim (Option-cases (find (is_visible order_id tenant org orders) rows)) [
        | inl nothing ↦ cc (simp (scoped, nothing) at h)
        | inr (x, found) ↦
            let k : (if is_held x.status then ok x else err _) ≡ ok e = simp (scoped, found) at h in
            (found ∙ ground (arith, k), ground (arith, k))
      ]
    ]

module _ (tenant org id : String) where
  abbrev pub is_open_row : EscrowAgreement → Bool
  is_open_row r = is_escrow tenant org id r && is_held r.status

  abbrev pub is_open_in : Escrows → Bool
  is_open_in = any is_open_row

  abbrev pub is_known_in : Escrows → Bool
  is_known_in = any (is_escrow tenant org id)

  abbrev is_ours : EscrowUpdate → Bool
  is_ours u = str_eq u.tenant_id tenant && str_eq u.organisation_id org && str_eq u.escrow_id id

  abbrev pub is_key_of : Result EscrowAgreement → Bool
  is_key_of (ok e) = is_escrow tenant org id e
  is_key_of (err x) = false

  update_known :
      (u : EscrowUpdate) (rows : Escrows)
      → is_known_in (update_escrow_status u rows) ≡ is_known_in rows
  unfolding update_escrow_status
  update_known u =
      any-update (is_escrow tenant org id) (is_escrow tenant org id) _ (updated_escrow u)
        (λ r h. refl) (λ r h. refl)

  -- No row of the update's key is held after it, and no other row changes.
  update_open :
      (u : EscrowUpdate) (rows : Escrows)
      → is_held u.status ≡ false
      → is_open_in (update_escrow_status u rows) ≡ (if is_ours u then false else is_open_in rows)
  unfolding update_escrow_status
  update_open u rows shut = elim (Bool-cases (is_ours u)) [
    | inl ours ↦ rw ours (
        any-update is_open_row (λ r. false) _ (updated_escrow u) (λ r h. ground (arith, shut))
          (λ r h. ground (
            arith,
            h,
            ours,
            eq_iff u.tenant_id tenant,
            eq_iff u.organisation_id org,
            eq_iff u.escrow_id id,
          ))
          rows
        ∙ any-false rows)
    | inr theirs ↦ rw theirs (
        any-update is_open_row is_open_row _ (updated_escrow u)
          (λ r h. ground (
            arith,
            h,
            theirs,
            shut,
            eq_iff r.tenant_id u.tenant_id,
            eq_iff r.organisation_id u.organisation_id,
            eq_iff r.escrow_id u.escrow_id,
          ))
          (λ r h. refl) rows)
  ]

  -- A step of a refund or a settlement leaves a closed escrow closed.
  pub step_closed :
      (look : Result EscrowAgreement) (m : Market) (done : Bool) (m' : Market)
      → EscrowStep look m done m'
      → is_known_in m.escrows ≡ true
      → is_open_in m.escrows ≡ false
      → (is_known_in m'.escrows ≡ true) × (is_open_in m'.escrows ≡ false)
  step_closed look m _ m' (left_alone _ k) known shut =
      (ap is_known_in k ∙ known, ap is_open_in k ∙ shut)
  step_closed look m _ m' (paid_out _ done e u found c k) known shut = (
    ap is_known_in k ∙ update_known u m.escrows ∙ known,
    ground (arith, shut, ap is_open_in k, update_open u m.escrows c.not_held),
  )

  -- A step that returns with this escrow found it held, and leaves it closed.
  pub step_pays :
      (order_id t o : String) (m : Market) (done : Bool) (m' : Market)
      → EscrowStep (escrow_for order_id t o m) m done m'
      → done ≡ true
      → is_key_of (escrow_for order_id t o m) ≡ true
      → (is_open_in m.escrows ≡ true)
        × (is_known_in m'.escrows ≡ true)
        × (is_open_in m'.escrows ≡ false)
  step_pays order_id t o m _ m' (left_alone _ k) returned ours = cc returned
  step_pays order_id t o m _ m' (paid_out _ done e u found c k) returned ours =
      let (stands, held) = held_found order_id t o m.orders m.escrows e found in
      let key : is_escrow tenant org id e ≡ true = sym (ap is_key_of found) ∙ ours in
      let same : is_ours u ≡ true = ground (arith, key, c.same_tenant, c.same_org, c.same_id) in
      let was = find-any_of _ is_open_row m.escrows e stands (ground (arith, key, held)) in
      let known = find-any_of _ (is_escrow tenant org id) m.escrows e stands key in
      (
        was,
        ap is_known_in k ∙ update_known u m.escrows ∙ known,
        ap is_open_in k ∙ update_open u m.escrows c.not_held ∙ simp same,
      )

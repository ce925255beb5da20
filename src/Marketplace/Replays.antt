-- ===== src/Marketplace/Replays.antt =====
-- Orders and escrows that are saved again, and grants that are revoked.
use kalyx_mao_engine.Base.{
  ℕ, String, true, false, ◌≡◌, refl, Option, none, some, [], ◌∷◌, ◌&&◌, arith, str_eq, eq_iff,
  eq_refl, or_else, if◌then◌else◌,
}
use kalyx_mao_engine.Base.Int.{eqb_ℤ, eqb_ℤ→eq}
use kalyx_mao_engine.Base.Outcome.{ok, err, idempotency_conflict}
use kalyx_mao_engine.Base.Table.{find, select, update}
use kalyx_mao_engine.Marketplace.Escrows.{
  EscrowAgreement, Escrows, is_escrow, get_escrow, save_unless, save_escrow,
}
use kalyx_mao_engine.Marketplace.Grants.{
  Grants, is_revocable, is_valid, list_agent_grants, has_capability, revoke_capability, revoked,
}

new_found :
    (e : EscrowAgreement) (rows : Escrows)
    → get_escrow e.tenant_id e.organisation_id e.escrow_id (e ∷ rows) ≡ some e
unfolding get_escrow find
new_found e rows = simp (eq_refl e.tenant_id, eq_refl e.organisation_id, eq_refl e.escrow_id)

-- What stands under the key after `save_escrow` has returned: an escrow of the same terms.
record Kept (e : EscrowAgreement) (r : EscrowAgreement × Escrows) : Type 0 where
  found : get_escrow e.tenant_id e.organisation_id e.escrow_id r.1 ≡ some r.0
  same_order : r.0.order_id ≡ e.order_id
  same_bounty : r.0.bounty_amount ≡ e.bounty_amount

save_unless-Kept :
    (found : Option EscrowAgreement) (e kept : EscrowAgreement) (rows rows' : Escrows)
    → get_escrow e.tenant_id e.organisation_id e.escrow_id rows ≡ found
    → save_unless found e rows ≡ ok (kept, rows')
    → Kept e (kept, rows')
save_unless-Kept none e kept rows rows' look h =
    let same : kept ≡ e = ground (arith, h) in
    let table : rows' ≡ e ∷ rows = ground (arith, h) in
    rw same (rw table (record { found = new_found e rows; same_order = refl; same_bounty = refl }))
save_unless-Kept (some x) e kept rows rows' look h =
    let same : kept ≡ x = ground (arith, h) in
    let table : rows' ≡ rows = ground (arith, h) in
    rw same (
      rw table (record {
        found = look;
        same_order = ground (arith, h, eq_iff x.order_id e.order_id);
        same_bounty = ground (arith, h, eqb_ℤ→eq x.bounty_amount e.bounty_amount);
      }))

save_escrow-Kept :
    (e kept : EscrowAgreement) (rows rows' : Escrows)
    → save_escrow e rows ≡ ok (kept, rows')
    → Kept e (kept, rows')
unfolding save_escrow
save_escrow-Kept e kept rows rows' saved = save_unless-Kept _ e kept rows rows' refl saved

-- After `save_escrow` has returned, saving an escrow of the same key returns what was kept and
-- changes nothing if its order and bounty are the same, and is refused as a conflict if not.
pub save_escrow-save_escrow :
    (e f kept : EscrowAgreement) (rows rows' : Escrows)
    → save_escrow e rows ≡ ok (kept, rows')
    → is_escrow e.tenant_id e.organisation_id e.escrow_id f ≡ true
    → save_escrow f rows' ≡ (
        if str_eq e.order_id f.order_id && eqb_ℤ e.bounty_amount f.bounty_amount
        then ok (kept, rows')
        else err idempotency_conflict)
unfolding save_escrow
save_escrow-save_escrow e f kept rows rows' saved same =
    let k = save_escrow-Kept e kept rows rows' saved in
    let t : f.tenant_id ≡ e.tenant_id = ground (arith, same, eq_iff f.tenant_id e.tenant_id) in
    let o : f.organisation_id ≡ e.organisation_id =
      ground (arith, same, eq_iff f.organisation_id e.organisation_id) in
    let i : f.escrow_id ≡ e.escrow_id = ground (arith, same, eq_iff f.escrow_id e.escrow_id) in
    simp (t, o, i, k.found, k.same_order, k.same_bounty)

revoked_grants :
    (tenant org agent capability : String) (now : ℕ) (rows : Grants)
    → has_capability tenant org agent capability now (
        update (is_revocable tenant org agent capability) (λ g. record g { status = revoked }) rows)
      ≡ false
unfolding has_capability list_agent_grants select update is_valid
revoked_grants tenant org agent capability now [] = refl
revoked_grants tenant org agent capability now (g ∷ rows) =
    ground (arith, revoked_grants tenant org agent capability now rows)

-- When `revoke_capability` returns, the agent has none of the grants of that capability at any time.
pub has_capability-revoke_capability :
    (tenant org agent : String) (name other : Option String) (now n : ℕ) (rows rows' : Grants)
    → revoke_capability tenant org agent name other rows ≡ ok (n, rows')
    → has_capability tenant org agent (or_else name (or_else other "")) now rows' ≡ false
unfolding revoke_capability
has_capability-revoke_capability tenant org agent name other now n rows rows' h =
    let capability = or_else name (or_else other "") in
    let table : rows'
        ≡ update (is_revocable tenant org agent capability) (λ g. record g { status = revoked })
            rows =
      ground (arith, h) in
    rw table (revoked_grants tenant org agent capability now rows)

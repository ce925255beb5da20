-- ===== src/Work/Verification.antt =====
-- What an accepted deliverable is, and what a receipt's signature covers.
use kalyx_mao_engine.Base.{
  String, true, false, ◌≡◌, ◌↔◌, refl, Option, none, some, arith, eq_refl, eq_iff, is_empty,
}
use kalyx_mao_engine.Base.Int.{pos, ◌≤ℤ◌, ◌<ℤ◌}
use kalyx_mao_engine.Base.Dict.{lookup}
use kalyx_mao_engine.Work.Receipts.{
  WorkLibrary, WorkOrder, WorkDeliverable, is_verified, is_of_type, message_of, canonical_json_hash,
  rejection_note, receipt_of, sign_receipt, verify_hmac, verify,
}

module _ (lib : WorkLibrary) where
  -- A deliverable for this work order, whose content is what its hash says, whose credits are
  -- positive and within the order's, and whose payload is of the order's type.
  pub record IsDelivery (w : WorkOrder) (d : WorkDeliverable) : Type 0 where
    pub same_order : d.work_order_id ≡ w.work_order_id
    pub intact : d.content_hash ≡ canonical_json_hash lib d.content_payload
    pub positive : pos 0 <ℤ d.orbio_credits_consumed
    pub bounded : d.orbio_credits_consumed ≤ℤ w.required_orbio_credits
    pub typed : is_of_type w.deliverable_type (lookup "deliverable_type" d.content_payload) ≡ true

  rejection_note-IsDelivery :
      (w : WorkOrder) (d : WorkDeliverable) → rejection_note lib w d ≡ none → IsDelivery w d
  unfolding rejection_note
  rejection_note-IsDelivery w d h = ground (
    arith,
    h,
    eq_iff d.work_order_id w.work_order_id,
    eq_iff d.content_hash (canonical_json_hash lib d.content_payload),
  )

  IsDelivery-rejection_note :
      (w : WorkOrder) (d : WorkDeliverable) → IsDelivery w d → rejection_note lib w d ≡ none
  unfolding rejection_note lookup
  IsDelivery-rejection_note w d i = ground (
    arith,
    i,
    eq_iff d.work_order_id w.work_order_id,
    eq_iff d.content_hash (canonical_json_hash lib d.content_payload),
  )

  is_verified-receipt_of :
      (identity id : String) (w : WorkOrder) (d : WorkDeliverable) (note : Option String)
      → (is_verified (receipt_of lib identity id w d note) ≡ true) ↔ (note ≡ none)
  is_verified-receipt_of identity id w d none = (λ h. refl, λ h. refl)
  is_verified-receipt_of identity id w d (some s) = (λ h. cc h, λ h. cc h)

  -- The verifier accepts a deliverable exactly when it is a delivery of the work order, and every
  -- receipt that it gives, of acceptance or rejection, has a signature that verifies with its secret.
  -- HMAC makes no empty text.
  pub verify-IsDelivery :
      (identity secret id : String) (w : WorkOrder) (d : WorkDeliverable)
      → ((message : String) → is_empty (lib.hmac_sha256 secret message) ≡ false)
      → ((is_verified (verify lib identity secret id w d) ≡ true) ↔ IsDelivery w d)
        × (verify_hmac lib secret (verify lib identity secret id w d) ≡ true)
  unfolding verify sign_receipt verify_hmac
  verify-IsDelivery identity secret id w d nonempty =
      let (to, from) = is_verified-receipt_of identity id w d (rejection_note lib w d) in
      let r = receipt_of lib identity id w d (rejection_note lib w d) in
      (
        (λ h. rejection_note-IsDelivery w d (to h), λ i. from (IsDelivery-rejection_note w d i)),
        simp (nonempty (message_of r), eq_refl (lib.hmac_sha256 secret (message_of r))),
      )

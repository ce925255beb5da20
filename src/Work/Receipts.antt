-- ===== src/Work/Receipts.antt =====
-- Work orders, deliverables and receipts (src/domain/work_order.py), and
-- `WorkDeliverableVerifier.verify` (src/settlement/work_verifier.py). A payload is a dictionary of
-- texts; SHA-256, HMAC, `json.dumps` and the decimal text of a number are the parameters.
use kalyx_mao_engine.Base.{
  String, Bool, true, false, not, Option, none, some, [], ◌∷◌, str_append, str_eq, is_empty,
  if◌then◌else◌,
}
use kalyx_mao_engine.Base.Int.{ℤ, pos, leb_ℤ, ltb_ℤ}
use kalyx_mao_engine.Base.Dict.{Dict, lookup}

pub record WorkLibrary : Type 0 where
  pub hmac_sha256 : String → String → String
  pub sha256 : String → String
  pub dumps : Dict String → String
  pub decimal : ℤ → String

pub data DeliverableStatus : Type 0 where
  accepted rejected : DeliverableStatus

abbrev pub status_value : DeliverableStatus → String
status_value accepted = "ACCEPTED"
status_value rejected = "REJECTED"

-- The fields that a method reads; `metadata`, times and the status, which are only stored, are left
-- out.
pub record WorkOrder : Type 0 where
  pub work_order_id : String
  pub tenant_id : String
  pub organisation_id : String
  pub client_id : String
  pub title : String
  pub description : String
  pub deliverable_type : String
  pub required_orbio_credits : ℤ
  pub bounty_amount : ℤ

pub record WorkDeliverable : Type 0 where
  pub deliverable_id : String
  pub work_order_id : String
  pub producer_agent_id : String
  pub content_payload : Dict String
  pub content_hash : String
  pub orbio_credits_consumed : ℤ
  pub execution_telemetry : String

pub record WorkDeliverableReceipt : Type 0 where
  pub receipt_id : String
  pub work_order_id : String
  pub deliverable_id : String
  pub content_hash : String
  pub evidence_hash : String
  pub verifier_identity : String
  pub status : DeliverableStatus
  pub verification_notes : String
  pub hmac_signature : Option String

abbrev pub is_verified : WorkDeliverableReceipt → Bool
is_verified r = elim r.status [ accepted ↦ true | rejected ↦ false ]

abbrev colon : String → String → String
colon a rest = str_append a (str_append ":" rest)

unfoldable pub receipt_message :
    String → String → String → String → DeliverableStatus → String → String
receipt_message work_order deliverable content evidence status verifier =
    colon work_order
      (colon deliverable (colon content (colon evidence (colon (status_value status) verifier))))

abbrev pub message_of : WorkDeliverableReceipt → String
message_of r =
    receipt_message r.work_order_id r.deliverable_id r.content_hash r.evidence_hash r.status
      r.verifier_identity

abbrev is_empty_dict : Dict String → Bool
is_empty_dict [] = true
is_empty_dict (p ∷ d) = false

abbrev pub is_of_type : String → Option String → Bool
is_of_type t none = false
is_of_type t (some s) = str_eq s t

-- A text, or None, in an f-string.
abbrev text_or_none : Option String → String
text_or_none none = "None"
text_or_none (some s) = s

module _ (lib : WorkLibrary) where
  unfoldable pub canonical_json_hash : Dict String → String
  canonical_json_hash data' = lib.sha256 (lib.dumps data')

  unfoldable pub compute_evidence_hash : WorkDeliverable → String
  compute_evidence_hash d = canonical_json_hash (
      ("deliverable_id", d.deliverable_id)
      ∷ ("work_order_id", d.work_order_id)
      ∷ ("producer_agent_id", d.producer_agent_id)
      ∷ ("orbio_credits_consumed", lib.decimal d.orbio_credits_consumed)
      ∷ ("telemetry", d.execution_telemetry)
      ∷ [])

  -- `WorkDeliverable.create`, for a deliverable whose identifier is given.
  unfoldable pub create_deliverable :
      String → String → Dict String → ℤ → String → String → WorkDeliverable
  create_deliverable work_order agent payload credits telemetry id = record {
    deliverable_id = id;
    work_order_id = work_order;
    producer_agent_id = agent;
    content_payload = payload;
    content_hash = canonical_json_hash payload;
    orbio_credits_consumed = credits;
    execution_telemetry = telemetry;
  }

  -- `WorkDeliverableReceipt.sign_receipt`: the receipt that is given, signed.
  unfoldable pub sign_receipt : String → WorkDeliverableReceipt → WorkDeliverableReceipt
  sign_receipt secret r = record r { hmac_signature = some (lib.hmac_sha256 secret (message_of r)) }

  unfoldable pub verify_hmac : String → WorkDeliverableReceipt → Bool
  verify_hmac secret r = elim r.hmac_signature [
    | none ↦ false
    | some s ↦ if is_empty s then false else str_eq s (lib.hmac_sha256 secret (message_of r))
  ]

  -- Why a deliverable is rejected, in the order of the checks.
  unfoldable pub rejection_note : WorkOrder → WorkDeliverable → Option String
  rejection_note w d =
      if not (str_eq d.work_order_id w.work_order_id)
      then some (
          str_append "Work order ID mismatch: "
            (str_append d.work_order_id (str_append " != " w.work_order_id)))
      else if not (str_eq d.content_hash (canonical_json_hash d.content_payload))
      then some (
          str_append "Content hash corruption: expected " (
            str_append (canonical_json_hash d.content_payload)
              (str_append " but deliverable claims " d.content_hash)))
      else if leb_ℤ d.orbio_credits_consumed (pos 0)
      then some "Deliverable reports zero or negative compute credits consumed"
      else if ltb_ℤ w.required_orbio_credits d.orbio_credits_consumed
      then some (
          str_append "Excessive compute consumed: " (
            str_append (lib.decimal d.orbio_credits_consumed)
              (str_append " > " (lib.decimal w.required_orbio_credits))))
      else if is_empty_dict d.content_payload
      then some "Deliverable payload is empty or invalid format"
      else if not (is_of_type w.deliverable_type (lookup "deliverable_type" d.content_payload))
      then some (
          str_append "Deliverable type mismatch in payload: expected " (
            str_append w.deliverable_type
              (str_append ", got " (text_or_none (lookup "deliverable_type" d.content_payload)))))
      else none

  abbrev pub receipt_of :
      String → String → WorkOrder → WorkDeliverable → Option String → WorkDeliverableReceipt
  receipt_of identity id w d note = record {
    receipt_id = id;
    work_order_id = w.work_order_id;
    deliverable_id = d.deliverable_id;
    content_hash = d.content_hash;
    evidence_hash = compute_evidence_hash d;
    verifier_identity = identity;
    status = elim note [ none ↦ accepted | some s ↦ rejected ];
    verification_notes = elim note [
      | none ↦ "Deliverable verified: content hash matches, schema valid, resource bounds respected"
      | some s ↦ s
    ];
    hmac_signature = none;
  }

  -- `verify`, for the verifier's identity and secret, and the identifier of the receipt.
  unfoldable pub verify :
      String → String → String → WorkOrder → WorkDeliverable → WorkDeliverableReceipt
  verify identity secret id w d =
      sign_receipt secret (receipt_of identity id w d (rejection_note w d))

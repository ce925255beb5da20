-- ===== src/Work/Repository.antt =====
-- `WorkOrderRepository` (src/persistence/work_order_repository.py): its tables as lists of rows, each
-- in the scope of a tenant and an organisation. Every save is one INSERT with an ON CONFLICT clause.
use kalyx_mao_engine.Base.{ℕ, String, Bool, Option, none, some, List, ◌&&◌, str_eq, if◌then◌else◌}
use kalyx_mao_engine.Base.Int.{ℤ, pos, ltb_ℤ}
use kalyx_mao_engine.Base.Table.{find, upsert}
use kalyx_mao_engine.Work.Receipts.{WorkOrder, WorkDeliverable, WorkDeliverableReceipt}

pub record RevenueEvent : Type 0 where
  pub revenue_event_id : String
  pub work_order_id : String
  pub gross_revenue_usdg : ℤ
  pub direct_expense_usdg : ℤ
  pub net_surplus_usdg : ℤ
  pub orbio_credits_consumed : ℤ
  pub allocated_to_mission_budget : ℤ
  pub allocated_to_reserve : ℤ
  pub settled_at : ℕ
  pub ledger_tx_id : Option String

-- A row: its tenant, its organisation and what it holds.
pub record Scoped {ℓ} (A : Type ℓ) : Type ℓ where
  pub tenant_id : String
  pub organisation_id : String
  pub held : A

-- The WHERE clause of a row's key.
abbrev pub is_key {ℓ} : {A : Type ℓ} → (A → String) → String → String → String → Scoped A → Bool
is_key key tenant org id r =
    str_eq r.tenant_id tenant && str_eq r.organisation_id org && str_eq (key r.held) id

-- `INSERT … ON CONFLICT (tenant_id, organisation_id, key) DO UPDATE SET …`
unfoldable pub save_row {ℓ} :
    {A : Type ℓ}
    → (A → String)
    → (A → A → A)
    → String
    → String
    → A
    → List (Scoped A)
    → List (Scoped A)
save_row key merge tenant org new =
    upsert (is_key key tenant org (key new))
      (record { tenant_id = tenant; organisation_id = org; held = new })
      (λ r. record r { held = merge new r.held })

abbrev pub held_by {ℓ} : {A : Type ℓ} → Option (Scoped A) → Option A
held_by none = none
held_by (some r) = some r.held

-- `SELECT * … WHERE tenant_id = ? AND organisation_id = ? AND key = ?`
unfoldable pub get_row {ℓ} :
    {A : Type ℓ} → (A → String) → String → String → String → List (Scoped A) → Option A
get_row key tenant org id rows = held_by (find (is_key key tenant org id) rows)

-- Work orders: a conflict takes the new title and description.
abbrev pub merge_work_order : WorkOrder → WorkOrder → WorkOrder
merge_work_order new old = record old { title = new.title; description = new.description }

abbrev pub save_work_order : WorkOrder → List (Scoped WorkOrder) → List (Scoped WorkOrder)
save_work_order w = save_row (λ w. w.work_order_id) merge_work_order w.tenant_id w.organisation_id w

abbrev pub get_work_order : String → String → String → List (Scoped WorkOrder) → Option WorkOrder
get_work_order = get_row (λ w. w.work_order_id)

-- Deliverables: a conflict takes the new payload, its hash and the telemetry.
abbrev pub merge_deliverable : WorkDeliverable → WorkDeliverable → WorkDeliverable
merge_deliverable new old = record old {
  content_payload = new.content_payload;
  content_hash = new.content_hash;
  execution_telemetry = new.execution_telemetry;
}

abbrev pub save_deliverable :
    String
    → String
    → WorkDeliverable
    → List (Scoped WorkDeliverable)
    → List (Scoped WorkDeliverable)
save_deliverable = save_row (λ d. d.deliverable_id) merge_deliverable

abbrev pub get_deliverable :
    String → String → String → List (Scoped WorkDeliverable) → Option WorkDeliverable
get_deliverable = get_row (λ d. d.deliverable_id)

-- Receipts: a conflict takes the new status, notes and signature.
abbrev pub merge_receipt : WorkDeliverableReceipt → WorkDeliverableReceipt → WorkDeliverableReceipt
merge_receipt new old = record old {
  status = new.status;
  verification_notes = new.verification_notes;
  hmac_signature = new.hmac_signature;
}

abbrev pub save_receipt :
    String
    → String
    → WorkDeliverableReceipt
    → List (Scoped WorkDeliverableReceipt)
    → List (Scoped WorkDeliverableReceipt)
save_receipt = save_row (λ r. r.receipt_id) merge_receipt

abbrev pub get_receipt :
    String → String → String → List (Scoped WorkDeliverableReceipt) → Option WorkDeliverableReceipt
get_receipt = get_row (λ r. r.receipt_id)

-- Revenue events: a conflict changes nothing.
abbrev pub save_revenue_event :
    String → String → RevenueEvent → List (Scoped RevenueEvent) → List (Scoped RevenueEvent)
save_revenue_event = save_row (λ e. e.revenue_event_id) (λ new old. old)

-- `get_revenue_event_by_work_order`, up to which of several events it returns.
abbrev pub get_revenue_event_by_work_order :
    String → String → String → List (Scoped RevenueEvent) → Option RevenueEvent
get_revenue_event_by_work_order = get_row (λ e. e.work_order_id)

pub record MissionLineage : Type 0 where
  pub mission_id : String
  pub parent_mission_id : Option String
  pub funding_source : String
  pub funding_amount_usdg : ℤ
  pub created_at : String

abbrev pub record_mission_lineage :
    String → String → MissionLineage → List (Scoped MissionLineage) → List (Scoped MissionLineage)
record_mission_lineage =
    save_row (λ m. m.mission_id) (λ new old. record new { created_at = old.created_at })

abbrev pub get_mission_lineage :
    String → String → String → List (Scoped MissionLineage) → Option MissionLineage
get_mission_lineage = get_row (λ m. m.mission_id)

-- The tables whose key is the scope alone.
pub record DaemonState : Type 0 where
  pub cycle_count : ℕ
  pub last_mission_id : Option String
  pub updated_at : Option String

abbrev no_cycles : Option DaemonState → DaemonState
no_cycles none = record { cycle_count = 0; last_mission_id = none; updated_at = none }
no_cycles (some s) = s

abbrev pub save_daemon_state :
    String → String → DaemonState → List (Scoped DaemonState) → List (Scoped DaemonState)
save_daemon_state = save_row (λ s. "") (λ new old. new)

abbrev pub get_daemon_state : String → String → List (Scoped DaemonState) → DaemonState
get_daemon_state tenant org rows = no_cycles (get_row (λ s. "") tenant org "" rows)

abbrev or_zero : Option ℤ → ℤ
or_zero none = pos 0
or_zero (some n) = n

-- `max(0, credit_balance)`
abbrev pub at_least_zero : ℤ → ℤ
at_least_zero n = if ltb_ℤ n (pos 0) then pos 0 else n

abbrev pub save_credit_balance : String → String → ℤ → List (Scoped ℤ) → List (Scoped ℤ)
save_credit_balance tenant org n = save_row (λ b. "") (λ new old. new) tenant org (at_least_zero n)

abbrev pub get_credit_balance : String → String → List (Scoped ℤ) → ℤ
get_credit_balance tenant org rows = or_zero (get_row (λ b. "") tenant org "" rows)

-- ===== src/Marketplace/Effects.antt =====
-- What a settlement or a refund writes to the escrows.
use mathlib.Core.Path.{subst}
use kalyx_mao_engine.Base.{String, Bool, true, false, ◌≡◌, refl, ◌∙◌, ap, Option, none, some}
use kalyx_mao_engine.Base.Outcome.{Result, ok, err}
use kalyx_mao_engine.Base.Stateful.{Stateful, proceed, ◌>>=◌}
use kalyx_mao_engine.Base.Int.{ℤ}
use kalyx_mao_engine.Ledger.{Stamp, LedgerEntry, DoubleEntryLedger}
use kalyx_mao_engine.Work.Surplus.{SurplusState}
use kalyx_mao_engine.Work.Repository.{RevenueEvent}
use kalyx_mao_engine.Marketplace.Orders.{MarketplaceOrder, MarketplaceOrderStatus}
use kalyx_mao_engine.Marketplace.Escrows.{
  EscrowAgreement, Escrows, EscrowUpdate, is_held, get_escrow_by_order, update_escrow_status,
}
use kalyx_mao_engine.Marketplace.Coordinator.{
  Market, held_escrow, set_client, client_transfer, set_escrow, set_order_status, with_tables,
  WorkTables, or_missing, in_provider, set_provider,
}

abbrev pub is_done {ℓ} : {A : Type ℓ} → Result A → Bool
is_done (ok a) = true
is_done (err e) = false

-- The update takes this escrow out of HELD.
pub record Closes (e : EscrowAgreement) (u : EscrowUpdate) : Type 0 where
  pub same_tenant : u.tenant_id ≡ e.tenant_id
  pub same_org : u.organisation_id ≡ e.organisation_id
  pub same_id : u.escrow_id ≡ e.escrow_id
  pub not_held : is_held u.status ≡ false

-- A call raises and leaves the escrows, or it finds a held escrow and closes it.
pub data EscrowStep (look : Result EscrowAgreement) (m : Market) : Bool → Market → Type 0 where
  left_alone : (m' : Market) → m'.escrows ≡ m.escrows → EscrowStep look m false m'
  paid_out :
      (m' : Market) (done : Bool) (e : EscrowAgreement) (u : EscrowUpdate)
      → look ≡ ok e
      → Closes e u
      → m'.escrows ≡ update_escrow_status u m.escrows
      → EscrowStep look m done m'

set_client-escrows :
    (r : Result (LedgerEntry × DoubleEntryLedger)) (m : Market)
    → (set_client r m).1.escrows ≡ m.escrows
set_client-escrows (ok (e, l)) m = refl
set_client-escrows (err e) m = refl

pub set_provider-escrows :
    (r : Result (LedgerEntry × DoubleEntryLedger)) (m : Market)
    → (set_provider r m).1.escrows ≡ m.escrows
set_provider-escrows (ok (e, l)) m = refl
set_provider-escrows (err e) m = refl

pub in_provider-escrows :
    (m : Market) (p : Result RevenueEvent × SurplusState) → (in_provider m p).1.escrows ≡ m.escrows
in_provider-escrows m (r, s) = refl

-- Whichever way the action ends, the escrows are as they were.
pub record KeepsEscrows {ℓ} {A : Type ℓ} (x : Stateful Market A) : Type 0 where
  pub keeps : (m : Market) → (x m).1.escrows ≡ m.escrows

-- The same of the orders, too: what a call finds is found after it.
pub record KeepsMarket {ℓ} {A : Type ℓ} (x : Stateful Market A) : Type 0 where
  pub keeps : (m : Market) → (x m).1 ≡ m

-- For an escrow that was found, the action closes it or leaves all.
pub record ClosesFound {ℓ} {A : Type ℓ} (e : EscrowAgreement) (x : Stateful Market A) : Type 0 where
  pub step :
      (look : Result EscrowAgreement) (m : Market)
      → look ≡ ok e
      → EscrowStep look m (is_done (x m).0) (x m).1

-- The action is a settlement by what `look` finds.
pub record SettlesBy {ℓ} {A : Type ℓ} (look : Market → Result EscrowAgreement)
    (x : Stateful Market A) : Type 0 where
  pub step : (m : Market) → EscrowStep (look m) m (is_done (x m).0) (x m).1

EscrowStep-from :
    (look : Result EscrowAgreement) (m s : Market) (done : Bool) (m' : Market)
    → s.escrows ≡ m.escrows
    → EscrowStep look s done m'
    → EscrowStep look m done m'
EscrowStep-from look m s _ m' h (left_alone _ k) = left_alone m' (k ∙ h)
EscrowStep-from look m s _ m' h (paid_out _ done e u found c k) =
    paid_out m' done e u found c (k ∙ ap (λ es. update_escrow_status u es) h)

proceed-escrows {ℓ κ} :
    {A : Type ℓ} {B : Type κ} (es : Escrows) (r : Result A × Market) (f : A → Stateful Market B)
    → r.1.escrows ≡ es
    → ((a : A) → KeepsEscrows (f a))
    → (proceed r f).1.escrows ≡ es
proceed-escrows es (ok a, s) f h k = (k a).keeps s ∙ h
proceed-escrows es (err e, s) f h k = h

pub >>=-KeepsEscrows {ℓ κ} :
    {A : Type ℓ} {B : Type κ} (x : Stateful Market A) (f : A → Stateful Market B)
    → KeepsEscrows x
    → ((a : A) → KeepsEscrows (f a))
    → KeepsEscrows (x >>= f)
>>=-KeepsEscrows x f h k = record { keeps = λ m. proceed-escrows m.escrows (x m) f (h.keeps m) k }

proceed-ClosesFound {ℓ κ} :
    {A : Type ℓ} {B : Type κ} (e : EscrowAgreement) (look : Result EscrowAgreement) (m : Market)
    (r : Result A × Market) (f : A → Stateful Market B)
    → look ≡ ok e
    → r.1.escrows ≡ m.escrows
    → ((a : A) → ClosesFound e (f a))
    → EscrowStep look m (is_done (proceed r f).0) (proceed r f).1
proceed-ClosesFound e look m (ok a, s) f found h k =
    EscrowStep-from look m s _ _ h ((k a).step look s found)
proceed-ClosesFound e look m (err x, s) f found h k = left_alone s h

pub >>=-ClosesFound {ℓ κ} :
    {A : Type ℓ} {B : Type κ} (e : EscrowAgreement) (x : Stateful Market A)
    (f : A → Stateful Market B)
    → KeepsEscrows x
    → ((a : A) → ClosesFound e (f a))
    → ClosesFound e (x >>= f)
>>=-ClosesFound e x f h k = record {
  step = λ look m found. proceed-ClosesFound e look m (x m) f found (h.keeps m) k;
}

-- The update itself, whatever follows it that keeps the escrows.
pub set_escrow-ClosesFound {ℓ} :
    {B : Type ℓ} (e : EscrowAgreement) (u : EscrowUpdate) (f : Unit {0} → Stateful Market B)
    → Closes e u
    → ((a : Unit {0}) → KeepsEscrows (f a))
    → ClosesFound e (set_escrow u >>= f)
unfolding set_escrow
set_escrow-ClosesFound e u f closes k = record {
  step = λ look m found. paid_out _ _ e u found closes ((k tt).keeps _);
}

coe_step :
    (look : Market → Result EscrowAgreement) {s m : Market} {done : Bool} {m' : Market}
    → s ≡ m
    → EscrowStep (look s) s done m'
    → EscrowStep (look m) m done m'
coe_step look {s} {m} {done} {m'} h e = subst (λ x. EscrowStep (look x) x done m') h e

proceed-SettlesBy {ℓ κ} :
    {A : Type ℓ} {B : Type κ} (look : Market → Result EscrowAgreement) (m : Market)
    (r : Result A × Market) (f : A → Stateful Market B)
    → r.1 ≡ m
    → ((a : A) → SettlesBy look (f a))
    → EscrowStep (look m) m (is_done (proceed r f).0) (proceed r f).1
proceed-SettlesBy look m (ok a, s) f h k = coe_step look h ((k a).step s)
proceed-SettlesBy look m (err x, s) f h k = left_alone s (ap (λ m'. m'.escrows) h)

pub >>=-SettlesBy {ℓ κ} :
    {A : Type ℓ} {B : Type κ} (look : Market → Result EscrowAgreement) (x : Stateful Market A)
    (f : A → Stateful Market B)
    → KeepsMarket x
    → ((a : A) → SettlesBy look (f a))
    → SettlesBy look (x >>= f)
>>=-SettlesBy look x f h k = record { step = λ m. proceed-SettlesBy look m (x m) f (h.keeps m) k }

-- The call that finds the escrow, before what closes it.
pub find-SettlesBy {ℓ} :
    {B : Type ℓ} (look : Market → Result EscrowAgreement) (f : EscrowAgreement → Stateful Market B)
    → ((e : EscrowAgreement) → ClosesFound e (f e))
    → SettlesBy look ((λ m. (look m, m)) >>= f)
find-SettlesBy look f k = record { step = λ m. found_step m (look m) refl }
  where
    found_step :
        (m : Market) (r : Result EscrowAgreement)
        → look m ≡ r
        → EscrowStep (look m) m (is_done (proceed (r, m) f).0) (proceed (r, m) f).1
    found_step m (ok e) h = (k e).step (look m) m h
    found_step m (err x) h = left_alone m refl

pub or_missing-KeepsMarket {ℓ} : {A : Type ℓ} (o : Option A) → KeepsMarket (or_missing o)
or_missing-KeepsMarket none = record { keeps = λ m. refl }
or_missing-KeepsMarket (some a) = record { keeps = λ m. refl }

pub client-KeepsEscrows :
    (s : Stamp) (from to : String) (amount : ℤ) (memo tx : String)
    → KeepsEscrows (client_transfer s from to amount memo tx)
client-KeepsEscrows s from to amount memo tx = record { keeps = λ m. set_client-escrows _ m }

pub order-KeepsEscrows :
    (o : MarketplaceOrder) (status : MarketplaceOrderStatus) (deliverable : Option String)
    (now : String)
    → KeepsEscrows (set_order_status o status deliverable now)
unfolding set_order_status
order-KeepsEscrows o status deliverable now = record { keeps = λ m. refl }

pub tables-KeepsEscrows : (f : WorkTables → WorkTables) → KeepsEscrows (with_tables f)
unfolding with_tables
tables-KeepsEscrows f = record { keeps = λ m. refl }

-- What follows a step that closed the escrow, and keeps the escrows.
then_step :
    (look : Result EscrowAgreement) (m s : Market) (before done : Bool) (m' : Market)
    → before ≡ true
    → EscrowStep look m before s
    → m'.escrows ≡ s.escrows
    → EscrowStep look m done m'
then_step look m s _ done m' h (left_alone _ k) kept = cc h
then_step look m s _ done m' h (paid_out _ before e u found c k) kept =
    paid_out m' done e u found c (kept ∙ k)

proceed_then {ℓ κ} :
    {A : Type ℓ} {B : Type κ} (look : Result EscrowAgreement) (m : Market) (r : Result A × Market)
    (f : A → Stateful Market B)
    → EscrowStep look m (is_done r.0) r.1
    → ((a : A) → KeepsEscrows (f a))
    → EscrowStep look m (is_done (proceed r f).0) (proceed r f).1
proceed_then look m (ok a, s) f h k = then_step look m s true _ _ refl h ((k a).keeps s)
proceed_then look m (err x, s) f h k = h

pub ClosesFound-then {ℓ κ} :
    {A : Type ℓ} {B : Type κ} (e : EscrowAgreement) (x : Stateful Market A)
    (f : A → Stateful Market B)
    → ClosesFound e x
    → ((a : A) → KeepsEscrows (f a))
    → ClosesFound e (x >>= f)
ClosesFound-then e x f h k = record {
  step = λ look m found. proceed_then look m (x m) f (h.step look m found) k;
}

-- The escrow that a call pays out, if it does: the one that is held for the order.
abbrev pub escrow_for : String → String → String → Market → Result EscrowAgreement
escrow_for order_id tenant org m =
    held_escrow (get_escrow_by_order order_id tenant org m.orders m.escrows)

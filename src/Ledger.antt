-- ===== src/Ledger.antt =====
-- `DoubleEntryLedger` (src/economy/ledger.py) and `LedgerEntry` (src/domain/entities.py).
-- Every `raise` of a method stands above its first write, so a method returns the new ledger or
-- an error, and an error leaves the ledger as it was. What `uuid.uuid4()` and
-- `datetime.utcnow()` return in a call is the argument `Stamp` of the call.
pub mod Sums
pub mod Invariant
pub mod Methods
pub mod Runs
mod Tests
use kalyx_mao_engine.Base.{
  ℕ, String, Bool, true, false, Option, none, some, List, [], ◌∷◌, ◌++◌, ◌||◌, str_eq, str_append,
  or_else, contains, if◌then◌else◌,
}
use kalyx_mao_engine.Base.Int.{ℤ, pos, ◌+ℤ◌, ◌-ℤ◌, ltb_ℤ, leb_ℤ, eqb_ℤ}
use kalyx_mao_engine.Base.Dict.{Dict, get_or, insert, lookup}
use kalyx_mao_engine.Base.Outcome.{
  Result, ok, ◌>>=◌, ◌>>◌, raise_if, duplicate_transaction, nonpositive_amount, same_account,
  insufficient_credits,
}

abbrev pub system_mint : String
system_mint = "SYSTEM_MINT"

abbrev pub treasury : String
treasury = "TREASURY"

abbrev pub escrow : String
escrow = "ESCROW"

abbrev pub external_sink : String
external_sink = "EXTERNAL_SINK"

abbrev pub revenue : String
revenue = "REVENUE"

-- The fresh values that one call draws: two uuids and the time.
pub record Stamp : Type 0 where
  pub entry_id : String
  pub uuid : String
  pub now : ℕ

pub record LedgerEntry : Type 0 where
  pub id : String
  pub timestamp : ℕ
  pub transaction_id : String
  pub from_account : String
  pub to_account : String
  pub amount : ℤ
  pub memo : String

pub record DoubleEntryLedger : Type 0 where
  pub balances : Dict ℤ
  pub entries : List LedgerEntry
  pub recorded_tx_ids : List String
  pub total_minted : ℤ

abbrev pub get_balance : DoubleEntryLedger → String → ℤ
get_balance l account = get_or account (pos 0) l.balances

abbrev pub entry_of : Stamp → String → String → String → ℤ → String → LedgerEntry
entry_of s tx from to amount memo = record {
  id = s.entry_id;
  timestamp = s.now;
  transaction_id = tx;
  from_account = from;
  to_account = to;
  amount = amount;
  memo = memo;
}

-- The writes that `_mint` and `deposit_revenue` share: the entry, its id, the balance, the total.
abbrev pub record_mint : LedgerEntry → DoubleEntryLedger → DoubleEntryLedger
record_mint e l = record {
  balances = insert e.to_account (get_balance l e.to_account +ℤ e.amount) l.balances;
  entries = l.entries ++ e ∷ [];
  recorded_tx_ids = e.transaction_id ∷ l.recorded_tx_ids;
  total_minted = l.total_minted +ℤ e.amount;
}

pub mint : Stamp → String → ℤ → String → DoubleEntryLedger → LedgerEntry × DoubleEntryLedger
mint s to amount memo l =
    let e = entry_of s (str_append "mint-" s.uuid) system_mint to amount memo in
    (e, record_mint e l)

abbrev pub empty : DoubleEntryLedger
empty = record { balances = []; entries = []; recorded_tx_ids = []; total_minted = pos 0 }

-- `__init__`
unfoldable pub init : Stamp → ℤ → DoubleEntryLedger
unfolding mint
init s initial_treasury =
    if ltb_ℤ (pos 0) initial_treasury
    then (mint s treasury initial_treasury "Initial Organisation Treasury Allocation" empty).1
    else empty

unfoldable pub deposit_revenue :
    Stamp
    → ℤ
    → String
    → Option String
    → DoubleEntryLedger
    → Result (LedgerEntry × DoubleEntryLedger)
deposit_revenue s amount memo transaction_id l = do
  raise_if (leb_ℤ amount (pos 0)) nonpositive_amount
  let tx = or_else transaction_id (str_append "deposit-" s.uuid)
  raise_if (contains tx l.recorded_tx_ids) duplicate_transaction
  let e = entry_of s tx system_mint revenue amount memo
  ok (e, record_mint e l)

-- The writes of `transfer`; the second balance is read after the first is written.
abbrev pub record_transfer : LedgerEntry → DoubleEntryLedger → DoubleEntryLedger
record_transfer e l =
    let debited : Dict ℤ =
      insert e.from_account (get_balance l e.from_account -ℤ e.amount) l.balances in
    record {
      balances = insert e.to_account (get_or e.to_account (pos 0) debited +ℤ e.amount) debited;
      entries = l.entries ++ e ∷ [];
      recorded_tx_ids = e.transaction_id ∷ l.recorded_tx_ids;
      total_minted = l.total_minted;
    }

unfoldable pub transfer :
    Stamp
    → String
    → String
    → ℤ
    → String
    → Option String
    → DoubleEntryLedger
    → Result (LedgerEntry × DoubleEntryLedger)
transfer s from to amount memo transaction_id l = do
  let tx = or_else transaction_id s.uuid
  raise_if (contains tx l.recorded_tx_ids) duplicate_transaction
  raise_if (leb_ℤ amount (pos 0)) nonpositive_amount
  raise_if (str_eq from to) same_account
  raise_if (ltb_ℤ (get_balance l from) amount) insufficient_credits
  let e = entry_of s tx from to amount memo
  ok (e, record_transfer e l)

abbrev touches : String → LedgerEntry → Bool
touches account e = str_eq e.from_account account || str_eq e.to_account account

select : String → List LedgerEntry → List LedgerEntry
select account [] = []
select account (e ∷ es) =
    let rest = select account es in if touches account e then e ∷ rest else rest

pub get_entries : Option String → DoubleEntryLedger → List LedgerEntry
unfolding select
get_entries none l = l.entries
get_entries (some account) l = select account l.entries

-- `sum(b for acc, b in balances.items() if acc != account)`
unfoldable pub sum_except : String → Dict ℤ → ℤ
sum_except account [] = pos 0
sum_except account ((k, v) ∷ d) =
    let rest = sum_except account d in if str_eq k account then rest else v +ℤ rest

pub verify_conservation : DoubleEntryLedger → Bool
verify_conservation l = eqb_ℤ (sum_except system_mint l.balances) l.total_minted

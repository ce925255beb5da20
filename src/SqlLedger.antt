-- ===== src/SqlLedger.antt =====
-- `SqliteLedger` (src/persistence/repositories.py): the ledger whose only state is the table
-- `ledger_entries`, with the unique columns `id` and `transaction_id` that
-- src/persistence/database.py declares. Rows stand in the order of `sequence_num`. A method runs
-- in one transaction, which it rolls back before it raises, so an error leaves the table as it was.
-- SQLite's 64-bit integers are read as unbounded ones.
pub mod Balance
pub mod Refinement
pub mod Conservation
mod Tests
use kalyx_mao_engine.Base.{
  String, Bool, Option, none, some, List, [], ◌∷◌, ◌++◌, ◌||◌, str_eq, str_append, is_empty,
  or_else, any, contains, if◌then◌else◌,
}
use kalyx_mao_engine.Base.Int.{ℤ, pos, ◌+ℤ◌, ◌-ℤ◌, ltb_ℤ, leb_ℤ, eqb_ℤ}
use kalyx_mao_engine.Base.Outcome.{
  Error, Result, ok, err, ◌>>=◌, ◌>>◌, raise_if, duplicate_transaction, nonpositive_amount,
  same_account, insufficient_credits, integrity_transaction_id, integrity_entry_id,
}
use kalyx_mao_engine.Ledger.{Stamp, LedgerEntry, entry_of, system_mint, treasury}

-- The table `ledger_entries`.
abbrev pub Rows : Type 0
Rows = List LedgerEntry

-- `SUM(CASE WHEN to_account = ? THEN amount ELSE 0 END)`
unfoldable pub sum_to : String → Rows → ℤ
sum_to account [] = pos 0
sum_to account (e ∷ es) =
    (if str_eq e.to_account account then e.amount else pos 0) +ℤ sum_to account es

unfoldable pub sum_from : String → Rows → ℤ
sum_from account [] = pos 0
sum_from account (e ∷ es) =
    (if str_eq e.from_account account then e.amount else pos 0) +ℤ sum_from account es

unfoldable pub get_balance : Rows → String → ℤ
unfolding sum_to sum_from
get_balance rows account = sum_to account rows -ℤ sum_from account rows

abbrev pub has_transaction : String → Rows → Bool
has_transaction tx = any (λ e. str_eq tx e.transaction_id)

abbrev pub has_id : String → Rows → Bool
has_id id = any (λ e. str_eq id e.id)

-- `INSERT INTO ledger_entries`, with the table's two UNIQUE columns.
abbrev pub insert_row : LedgerEntry → Rows → Result Rows
insert_row e rows = do
  raise_if (has_id e.id rows) integrity_entry_id
  raise_if (has_transaction e.transaction_id rows) integrity_transaction_id
  ok (rows ++ e ∷ [])

-- `_mint`
pub mint : Stamp → String → ℤ → String → Rows → Result (LedgerEntry × Rows)
mint s to amount memo rows = do
  let e = entry_of s (str_append "mint-" s.uuid) system_mint to amount memo
  rows' ← insert_row e rows
  ok (e, rows')

-- `_init_treasury`
pub init_treasury : Stamp → ℤ → Rows → Result Rows
init_treasury s amount [] =
    if ltb_ℤ (pos 0) amount
    then (mint s treasury amount "Initial Organisation Treasury Allocation" [] >>= λ r. ok r.1)
    else ok []
init_treasury s amount (e ∷ es) = ok (e ∷ es)

pub deposit_revenue :
    Stamp → ℤ → String → Option String → String → Rows → Result (LedgerEntry × Rows)
deposit_revenue s amount memo transaction_id to rows = do
  raise_if (leb_ℤ amount (pos 0)) nonpositive_amount
  let e =
      entry_of s (or_else transaction_id (str_append "deposit-" s.uuid)) system_mint to amount memo
  rows' ← insert_row e rows
  ok (e, rows')

-- The handler round the insertion: a clash of transaction ids is reported as a duplicate.
abbrev pub as_duplicate : Result Rows → Result Rows
as_duplicate (err integrity_transaction_id) = err duplicate_transaction
as_duplicate r = r

pub transfer :
    Stamp → String → String → ℤ → String → Option String → Rows → Result (LedgerEntry × Rows)
unfolding get_balance
transfer s from to amount memo transaction_id rows = do
  raise_if (leb_ℤ amount (pos 0)) nonpositive_amount
  raise_if (str_eq from to) same_account
  let tx = or_else transaction_id s.uuid
  raise_if (has_transaction tx rows) duplicate_transaction
  raise_if (ltb_ℤ (get_balance rows from) amount) insufficient_credits
  let e = entry_of s tx from to amount memo
  rows' ← as_duplicate (insert_row e rows)
  ok (e, rows')

select : String → Rows → Rows
select account [] = []
select account (e ∷ es) =
    let rest = select account es in
    if str_eq e.from_account account || str_eq e.to_account account then e ∷ rest else rest

-- `if account:`: an empty name selects every row.
pub get_entries : Option String → Rows → Rows
unfolding select
get_entries none rows = rows
get_entries (some account) rows = if is_empty account then rows else select account rows

-- `UNION`: an account is listed once; the mint's is not.
abbrev pub add_account : String → List String → List String
add_account a l = if str_eq a system_mint || contains a l then l else a ∷ l

unfoldable pub accounts : Rows → List String
accounts [] = []
accounts (e ∷ es) = add_account e.from_account (add_account e.to_account (accounts es))

-- `SUM` over the accounts
unfoldable pub sum_over : (String → ℤ) → List String → ℤ
sum_over f [] = pos 0
sum_over f (a ∷ l) = f a +ℤ sum_over f l

unfoldable pub verify_conservation : Rows → Bool
unfolding sum_from
verify_conservation rows =
    eqb_ℤ (sum_over (λ a. sum_to a rows -ℤ sum_from a rows) (accounts rows))
      (sum_from system_mint rows)

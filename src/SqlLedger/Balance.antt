-- ===== src/SqlLedger/Balance.antt =====
-- The two sums of `get_balance` against the net movement of the entries, and when the two writing
-- methods return.
use kalyx_mao_engine.Base.{
  String, Option, ◌≡◌, false, arith, or_else, str_append, ◌++◌, [], ◌∷◌, str_eq,
}
use kalyx_mao_engine.Base.Int.{ℤ, ◌<ℤ◌, ◌≤ℤ◌, parts, int_laws, pos}
use kalyx_mao_engine.Ledger.Sums.{net}
use kalyx_mao_engine.Base.Outcome.{ok}
use kalyx_mao_engine.Ledger.{Stamp, LedgerEntry, entry_of, system_mint}
use kalyx_mao_engine.SqlLedger.{
  Rows, get_balance, has_transaction, has_id, transfer, deposit_revenue,
}

pub get_balance-eq-net : (rows : Rows) (a : String) → get_balance rows a ≡ net a rows
unfolding get_balance net
get_balance-eq-net [] a = omega int_laws
get_balance-eq-net (e ∷ es) a = omega (int_laws, parts (get_balance-eq-net es a))

-- What a call of `transfer` tests, the unique columns included.
pub record Accepts (s : Stamp) (from to : String) (n : ℤ) (tx : String) (rows : Rows) : Type 0 where
  pub fresh : has_transaction tx rows ≡ false
  pub new : has_id s.entry_id rows ≡ false
  pub positive : pos 0 <ℤ n
  pub apart : str_eq from to ≡ false
  pub funded : n ≤ℤ get_balance rows from

module _ (s : Stamp) (from to : String) (n : ℤ) (memo : String) (id : Option String)
    (rows : Rows) where
  pub transfer-Accepts :
      Accepts s from to n (or_else id s.uuid) rows
      → transfer s from to n memo id rows
        ≡ ok (
          entry_of s (or_else id s.uuid) from to n memo,
          rows ++ entry_of s (or_else id s.uuid) from to n memo ∷ [],
        )
  unfolding transfer
  transfer-Accepts h = ground arith

  pub transfer_inv :
      {e : LedgerEntry} {rows' : Rows}
      → transfer s from to n memo id rows ≡ ok (e, rows')
      → Accepts s from to n (or_else id s.uuid) rows
        × (e ≡ entry_of s (or_else id s.uuid) from to n memo)
        × (rows' ≡ rows ++ e ∷ [])
  unfolding transfer
  transfer_inv h = ground arith

-- What a deposit tests, the unique columns included.
pub record Admits (s : Stamp) (n : ℤ) (tx : String) (rows : Rows) : Type 0 where
  pub fresh : has_transaction tx rows ≡ false
  pub new : has_id s.entry_id rows ≡ false
  pub positive : pos 0 <ℤ n

module _ (s : Stamp) (n : ℤ) (memo : String) (id : Option String) (to : String) (rows : Rows) where
  pub deposit_revenue-Admits :
      Admits s n (or_else id (str_append "deposit-" s.uuid)) rows
      → deposit_revenue s n memo id to rows
        ≡ ok (
          entry_of s (or_else id (str_append "deposit-" s.uuid)) system_mint to n memo,
          rows ++ entry_of s (or_else id (str_append "deposit-" s.uuid)) system_mint to n memo ∷ [],
        )
  unfolding deposit_revenue
  deposit_revenue-Admits h = ground arith

  pub deposit_revenue_inv :
      {e : LedgerEntry} {rows' : Rows}
      → deposit_revenue s n memo id to rows ≡ ok (e, rows')
      → Admits s n (or_else id (str_append "deposit-" s.uuid)) rows
        × (e ≡ entry_of s (or_else id (str_append "deposit-" s.uuid)) system_mint to n memo)
        × (rows' ≡ rows ++ e ∷ [])
  unfolding deposit_revenue
  deposit_revenue_inv h = ground arith

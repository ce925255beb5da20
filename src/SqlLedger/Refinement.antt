-- ===== src/SqlLedger/Refinement.antt =====
-- The SQL ledger and the in-memory ledger carry out the same calls.
use kalyx_mao_engine.Base.{
  String, ◌≡◌, refl, false, Option, List, [], ◌∷◌, ◌++◌, str_eq, str_append, or_else, contains, ◌↔◌,
  sym, ap, ◌∙◌,
}
use mathlib.Core.Path.{subst, ap₂}
use kalyx_mao_engine.Base.Int.{ℤ, ◌≤ℤ◌}
use kalyx_mao_engine.Base.Outcome.{Result, ok, err}
use kalyx_mao_engine.Ledger
use kalyx_mao_engine.Ledger.Sums.{net}
use kalyx_mao_engine.Ledger.{Stamp, LedgerEntry, DoubleEntryLedger, system_mint, revenue, entry_of}
use kalyx_mao_engine.Ledger.Invariant.{IsValid, empty-IsValid}
use kalyx_mao_engine.Ledger.Methods.{transfer-IsValid, transfer_moves, deposit_revenue-IsValid}
use kalyx_mao_engine.Ledger.Runs
use kalyx_mao_engine.Ledger.Runs.{Call, deposit, move}
use kalyx_mao_engine.SqlLedger
use kalyx_mao_engine.SqlLedger.{Rows, has_transaction, has_id, insert_row, as_duplicate}
use kalyx_mao_engine.SqlLedger.Balance.{
  get_balance-eq-net, Accepts, transfer-Accepts, transfer_inv, deposit_revenue-Admits,
  deposit_revenue_inv,
}

-- The in-memory ledger is valid, and its entries are the rows.
pub record Represents (rows : Rows) (l : DoubleEntryLedger) : Type 0 where
  pub valid : IsValid l
  pub same : l.entries ≡ rows

-- Both calls return, with one entry and related states, or both raise.
abbrev pub Agree : Result (LedgerEntry × DoubleEntryLedger) → Result (LedgerEntry × Rows) → Type 0
Agree (ok (e, l)) (ok (e', rows)) = (e ≡ e') × Represents rows l
Agree (err x) (err y) = Unit
Agree _ _ = ⊥

-- Two results agree if each returns where the other does, with related values.
agree :
    (a : Result (LedgerEntry × DoubleEntryLedger)) (b : Result (LedgerEntry × Rows))
    → ((x : LedgerEntry × DoubleEntryLedger)
        → a ≡ ok x
        → (y : LedgerEntry × Rows) × (b ≡ ok y) × (x.0 ≡ y.0) × Represents y.1 x.1)
    → ((y : LedgerEntry × Rows) → b ≡ ok y → (x : LedgerEntry × DoubleEntryLedger) × (a ≡ ok x))
    → Agree a b
agree (ok x) b forth back = let (y, e, same, r) = forth x refl in rw e (same, r)
agree (err x) (ok y) forth back = cc ((back y refl).1)
agree (err x) (err y) forth back = tt

Accepts-iff :
    (s : Stamp) (from to : String) (n : ℤ) (tx : String) (l : DoubleEntryLedger) (rows : Rows)
    → Represents rows l
    → str_eq from system_mint ≡ false
    → has_id s.entry_id rows ≡ false
    → Ledger.Methods.Accepts from to n tx l ↔ Accepts s from to n tx rows
Accepts-iff s from to n tx l rows r sender new = (
  λ h. record {
    fresh = sym seen ∙ h.fresh;
    new = new;
    positive = h.positive;
    apart = h.apart;
    funded = subst (λ b. n ≤ℤ b) balance h.funded;
  },
  λ h. record {
    fresh = seen ∙ h.fresh;
    positive = h.positive;
    apart = h.apart;
    funded = subst (λ b. n ≤ℤ b) (sym balance) h.funded;
  },
)
  where
    seen : contains tx l.recorded_tx_ids ≡ has_transaction tx rows
    seen = r.valid.recorded tx ∙ ap (has_transaction tx) r.same

    balance : Ledger.get_balance l from ≡ SqlLedger.get_balance rows from
    balance =
        r.valid.derived from sender ∙ ap (net from) r.same ∙ sym (get_balance-eq-net rows from)

-- `transfer` of the SQL ledger and of the in-memory ledger agree, from related states, for a
-- sender other than SYSTEM_MINT and an entry id that the table does not hold.
pub transfer-Agree :
    (s : Stamp) (from to : String) (n : ℤ) (memo : String) (id : Option String)
    (l : DoubleEntryLedger) (rows : Rows)
    → Represents rows l
    → str_eq from system_mint ≡ false
    → has_id s.entry_id rows ≡ false
    → Agree (Ledger.transfer s from to n memo id l) (SqlLedger.transfer s from to n memo id rows)
transfer-Agree s from to n memo id l rows r sender new =
    agree (Ledger.transfer s from to n memo id l) (SqlLedger.transfer s from to n memo id rows)
      (λ x returned.
        let (accepts, entry, ledger) =
          Ledger.Methods.transfer_inv s from to n memo id l {e = x.0} {l' = x.1} returned in
        (
          _,
          transfer-Accepts s from to n memo id rows (both.0 accepts),
          entry,
          record {
            valid = transfer-IsValid s from to n memo id l r.valid returned;
            same =
                (transfer_moves s from to n memo id l returned).2
                ∙ ap₂ (λ es e. es ++ e ∷ []) r.same entry;
          },
        ))
      (λ y returned. (
        _,
        Ledger.Methods.transfer-Accepts s from to n memo id l
            (both.1 (transfer_inv s from to n memo id rows {e = y.0} {rows' = y.1} returned).0),
      ))
  where
    both :
        Ledger.Methods.Accepts from to n (or_else id s.uuid) l
        ↔ Accepts s from to n (or_else id s.uuid) rows
    both = Accepts-iff s from to n (or_else id s.uuid) l rows r sender new

-- A deposit on the SQL ledger and on the in-memory ledger agree in the same sense: the second
-- raises `ValueError` on a used id where the first meets the UNIQUE column.
pub deposit_revenue-Agree :
    (s : Stamp) (n : ℤ) (memo : String) (id : Option String) (l : DoubleEntryLedger) (rows : Rows)
    → Represents rows l
    → has_id s.entry_id rows ≡ false
    → Agree
        (Ledger.deposit_revenue s n memo id l)
        (SqlLedger.deposit_revenue s n memo id revenue rows)
deposit_revenue-Agree s n memo id l rows r new =
    agree (Ledger.deposit_revenue s n memo id l)
      (SqlLedger.deposit_revenue s n memo id revenue rows)
      (λ x returned.
        let (positive, fresh, entry, ledger) =
          Ledger.Methods.deposit_revenue_inv s n memo id l {e = x.0} {l' = x.1} returned in
        (
          _,
          deposit_revenue-Admits s n memo id revenue rows
              (record { fresh = sym seen ∙ fresh; new = new; positive = positive }),
          entry,
          record {
            valid = deposit_revenue-IsValid s n memo id l r.valid returned;
            same =
                ap (λ (k : DoubleEntryLedger). k.entries) ledger
                ∙ ap₂ (λ es e. es ++ e ∷ []) r.same entry;
          },
        ))
      (λ y returned.
        let (admits, entry, ledger) =
          deposit_revenue_inv s n memo id revenue rows {e = y.0} {rows' = y.1} returned in
        (
          _,
          Ledger.Methods.deposit_revenue_returns s n memo id l admits.positive
              (seen ∙ admits.fresh),
        ))
  where
    tx : String
    tx = or_else id (str_append "deposit-" s.uuid)

    seen : contains tx l.recorded_tx_ids ≡ has_transaction tx rows
    seen = r.valid.recorded tx ∙ ap (has_transaction tx) r.same

-- The table after a call: the new one, or the old one where the call raised.
abbrev pub after : Rows → Result (LedgerEntry × Rows) → Rows
after rows (ok (e, rows')) = rows'
after rows (err x) = rows

abbrev pub step : Rows → Call → Rows
step rows (deposit s n memo id) = after rows (SqlLedger.deposit_revenue s n memo id revenue rows)
step rows (move s from to n memo id) = after rows (SqlLedger.transfer s from to n memo id rows)

unfoldable pub run : Rows → List Call → Rows
run rows [] = rows
run rows (c ∷ cs) = run (step rows c) cs

-- No call draws an entry id that the table holds by then, and none sends from SYSTEM_MINT.
abbrev pub IsApt : Rows → List Call → Type 0
IsApt rows [] = Unit
IsApt rows (deposit s n memo id ∷ cs) =
    (has_id s.entry_id rows ≡ false) × IsApt (step rows (deposit s n memo id)) cs
IsApt rows (move s from to n memo id ∷ cs) =
    (has_id s.entry_id rows ≡ false)
    × (str_eq from system_mint ≡ false)
    × IsApt (step rows (move s from to n memo id)) cs

after-Agree :
    (l : DoubleEntryLedger) (rows : Rows) (a : Result (LedgerEntry × DoubleEntryLedger))
    (b : Result (LedgerEntry × Rows))
    → Represents rows l
    → Agree a b
    → Represents (after rows b) (Runs.after l a)
after-Agree l rows (ok (e, l')) (ok (e', rows')) r h = h.1
after-Agree l rows (err x) (err y) r h = r
after-Agree l rows (ok x) (err y) r h = absurd h
after-Agree l rows (err x) (ok y) r h = absurd h

run-Represents :
    (cs : List Call) (l : DoubleEntryLedger) (rows : Rows)
    → Represents rows l
    → IsApt rows cs
    → Represents (run rows cs) (Runs.run l cs)
unfolding run Runs.run
run-Represents [] l rows r apt = r
run-Represents (deposit s n memo id ∷ cs) l rows r apt =
    run-Represents cs (Runs.step l (deposit s n memo id)) (step rows (deposit s n memo id))
      (after-Agree l rows (Ledger.deposit_revenue s n memo id l)
        (SqlLedger.deposit_revenue s n memo id revenue rows) r
        (deposit_revenue-Agree s n memo id l rows r apt.0))
      apt.1
run-Represents (move s from to n memo id ∷ cs) l rows r apt =
    run-Represents cs (Runs.step l (move s from to n memo id))
      (step rows (move s from to n memo id))
      (after-Agree l rows (Ledger.transfer s from to n memo id l)
        (SqlLedger.transfer s from to n memo id rows) r
        (transfer-Agree s from to n memo id l rows r apt.1 apt.0))
      apt.2

-- Started empty and given the same calls, of which none sends from SYSTEM_MINT or draws an entry id
-- that the table holds by then, the two ledgers end with the same entries, and every account but
-- the mint's has the same balance in both.
pub run_refines :
    (cs : List Call)
    → IsApt [] cs
    → ((Runs.run Ledger.empty cs).entries ≡ run [] cs)
      × ((a : String)
          → str_eq a system_mint ≡ false
          → Ledger.get_balance (Runs.run Ledger.empty cs) a ≡ SqlLedger.get_balance (run [] cs) a)
run_refines cs apt =
    let r : Represents (run [] cs) (Runs.run Ledger.empty cs) =
      run-Represents cs Ledger.empty [] (record { valid = empty-IsValid; same = refl }) apt in
    (
      r.same,
      λ a other.
          r.valid.derived a other ∙ ap (net a) r.same ∙ sym (get_balance-eq-net (run [] cs) a),
    )

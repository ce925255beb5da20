-- ===== src/Ledger/Methods.antt =====
-- What one call of `transfer`, `deposit_revenue` or `verify_conservation` does, on every branch.
use kalyx_mao_engine.Base.{
  String, ◌≡◌, ◌↔◌, refl, false, true, Option, [], ◌∷◌, ◌++◌, arith, str_eq, str_append, or_else,
  Bool-cases, inl, inr, contains, if◌then◌else◌,
}
use kalyx_mao_engine.Base.Int.{
  ℤ, pos, ◌+ℤ◌, ◌-ℤ◌, ◌≤ℤ◌, ◌<ℤ◌, ltb_ℤ, eqb_ℤ-refl, eqb_ℤ→eq, eq_of_parts, parts, int_laws,
}
use kalyx_mao_engine.Base.Outcome.{ok}
use kalyx_mao_engine.Ledger.{
  Stamp, LedgerEntry, DoubleEntryLedger, system_mint, revenue, get_balance, entry_of, record_mint,
  record_transfer, init, deposit_revenue, transfer, verify_conservation, sum_except, empty,
}
use kalyx_mao_engine.Ledger.Invariant.{
  IsValid, empty-IsValid, record_mint-IsValid, record_transfer-IsValid, balance-record_transfer,
}

-- What a call of `transfer` tests, in its order.
pub record Accepts (from to : String) (amount : ℤ) (tx : String) (l : DoubleEntryLedger)
    : Type 0 where
  pub fresh : contains tx l.recorded_tx_ids ≡ false
  pub positive : pos 0 <ℤ amount
  pub apart : str_eq from to ≡ false
  pub funded : amount ≤ℤ get_balance l from

module _ (s : Stamp) (from to : String) (amount : ℤ) (memo : String) (id : Option String)
    (l : DoubleEntryLedger) where
  -- `transfer` returns its entry and the ledger with the entry written, if all its tests pass.
  pub transfer-Accepts :
      Accepts from to amount (or_else id s.uuid) l
      → transfer s from to amount memo id l
        ≡ ok (
          entry_of s (or_else id s.uuid) from to amount memo,
          record_transfer (entry_of s (or_else id s.uuid) from to amount memo) l,
        )
  unfolding transfer
  transfer-Accepts h = ground arith

  -- A transfer that returns passed all its tests.
  pub transfer_inv :
      {e : LedgerEntry} {l' : DoubleEntryLedger}
      → transfer s from to amount memo id l ≡ ok (e, l')
      → Accepts from to amount (or_else id s.uuid) l
        × (e ≡ entry_of s (or_else id s.uuid) from to amount memo)
        × (l' ≡ record_transfer e l)
  unfolding transfer
  transfer_inv h = ground arith

  -- `transfer` returns exactly when the id is new, the amount is positive, the accounts differ and
  -- the sender's balance covers the amount.
  pub transfer_succeeds_iff :
      ((r : LedgerEntry × DoubleEntryLedger) × (transfer s from to amount memo id l ≡ ok r))
      ↔ Accepts from to amount (or_else id s.uuid) l
  transfer_succeeds_iff =
      (λ r. (transfer_inv {e = r.0.0} {l' = r.0.1} r.1).0, λ h. (_, transfer-Accepts h))

  -- A transfer that returns debits the sender and credits the receiver by the amount, changes the
  -- balance of no other account, mints nothing and appends one entry.
  pub transfer_moves :
      {e : LedgerEntry} {l' : DoubleEntryLedger}
      → transfer s from to amount memo id l ≡ ok (e, l')
      → ((a : String)
          → get_balance l' a ≡ (
              if str_eq to a
              then get_balance l a +ℤ amount
              else if str_eq from a
              then get_balance l a -ℤ amount
              else get_balance l a))
        × (l'.total_minted ≡ l.total_minted)
        × (l'.entries ≡ l.entries ++ e ∷ [])
        × (pos 0 <ℤ amount)
  transfer_moves h =
      let (accepts, entry, ledger) = transfer_inv h in
      rw ledger (
        rw entry (
          λ a.
              balance-record_transfer (entry_of s (or_else id s.uuid) from to amount memo) l a
                accepts.apart,
          refl,
          refl,
          accepts.positive,
        ))

  -- Neither a returned transfer nor the deposit below breaks the invariant.
  pub transfer-IsValid :
      {e : LedgerEntry} {l' : DoubleEntryLedger}
      → IsValid l
      → transfer s from to amount memo id l ≡ ok (e, l')
      → IsValid l'
  transfer-IsValid v h =
      let (accepts, entry, ledger) = transfer_inv h in
      rw ledger
        (rw entry (record_transfer-IsValid _ l v accepts.positive accepts.funded accepts.apart))

module _ (s : Stamp) (amount : ℤ) (memo : String) (id : Option String) (l : DoubleEntryLedger) where
  pub deposit_revenue_inv :
      {e : LedgerEntry} {l' : DoubleEntryLedger}
      → deposit_revenue s amount memo id l ≡ ok (e, l')
      → (pos 0 <ℤ amount)
        × (contains (or_else id (str_append "deposit-" s.uuid)) l.recorded_tx_ids ≡ false)
        × (e
            ≡ entry_of s
                (or_else id (str_append "deposit-" s.uuid))
                system_mint
                revenue
                amount
                memo)
        × (l' ≡ record_mint e l)
  unfolding deposit_revenue
  deposit_revenue_inv h = ground arith

  pub deposit_revenue_returns :
      pos 0 <ℤ amount
      → contains (or_else id (str_append "deposit-" s.uuid)) l.recorded_tx_ids ≡ false
      → deposit_revenue s amount memo id l
        ≡ ok (
          entry_of s (or_else id (str_append "deposit-" s.uuid)) system_mint revenue amount memo,
          record_mint
              (entry_of s
                (or_else id (str_append "deposit-" s.uuid))
                system_mint
                revenue
                amount
                memo)
              l,
        )
  unfolding deposit_revenue
  deposit_revenue_returns positive fresh = ground arith

  pub deposit_revenue-IsValid :
      {e : LedgerEntry} {l' : DoubleEntryLedger}
      → IsValid l
      → deposit_revenue s amount memo id l ≡ ok (e, l')
      → IsValid l'
  deposit_revenue-IsValid v h =
      let (positive, fresh, entry, ledger) = deposit_revenue_inv h in
      rw ledger (rw entry (record_mint-IsValid _ l v positive refl refl))

pub init-IsValid : (s : Stamp) (n : ℤ) → IsValid (init s n)
unfolding init
init-IsValid s n = elim (Bool-cases (ltb_ℤ (pos 0) n)) [
  | inl positive ↦
      rw positive (record_mint-IsValid _ empty empty-IsValid (ground (arith, positive)) refl refl)
  | inr none_given ↦ rw none_given empty-IsValid
]

-- In a valid ledger the check of `verify_conservation` passes exactly when nothing lies in the
-- account of the mint.
pub verify_conservation_iff :
    (l : DoubleEntryLedger)
    → IsValid l
    → (verify_conservation l ≡ true) ↔ (get_balance l system_mint ≡ pos 0)
unfolding verify_conservation
verify_conservation_iff l v = (
  λ h. omega (
    int_laws,
    parts v.conserved,
    parts (eqb_ℤ→eq (sum_except system_mint l.balances) l.total_minted h),
  ),
  λ h.
      rw
        (eq_of_parts (sum_except system_mint l.balances) l.total_minted
          (omega (int_laws, parts v.conserved, parts h)))
        (eqb_ℤ-refl l.total_minted),
)

-- ===== src/Ledger/Invariant.antt =====
-- What holds of a ledger between two calls, and that the two kinds of write keep it.
use kalyx_mao_engine.Base.{
  String, ◌≡◌, refl, false, true, Bool, List, [], ◌∷◌, ◌++◌, arith, str_eq, eq_iff, Bool-cases, inl,
  inr, any, any-append, contains, if◌then◌else◌, ◌⊎◌,
}
use kalyx_mao_engine.Base.Int.{ℤ, pos, ◌+ℤ◌, ◌-ℤ◌, ◌≤ℤ◌, ◌<ℤ◌, parts, int_laws}
use mathlib.Core.Path.{subst}
use kalyx_mao_engine.Base.Dict.{Dict, get_or, insert, get_or-insert}
use kalyx_mao_engine.Ledger.{
  LedgerEntry, DoubleEntryLedger, system_mint, get_balance, record_mint, record_transfer,
  sum_except, empty,
}
use kalyx_mao_engine.Ledger.Sums.{net, net-append, sum_all-insert}

abbrev pub has_tx : String → List LedgerEntry → Bool
has_tx tx = any (λ e. str_eq tx e.transaction_id)

pub record IsValid (l : DoubleEntryLedger) : Type 0 where
  -- no account is overdrawn
  pub nonneg : (a : String) → pos 0 ≤ℤ get_balance l a
  -- a balance is what the entries say
  pub derived : (a : String) → str_eq a system_mint ≡ false → get_balance l a ≡ net a l.entries
  -- what was minted lies in the accounts, that of the mint included
  pub conserved : sum_except system_mint l.balances +ℤ get_balance l system_mint ≡ l.total_minted
  -- the recorded ids are those of the entries
  pub recorded : (tx : String) → contains tx l.recorded_tx_ids ≡ has_tx tx l.entries

pub empty-IsValid : IsValid empty
unfolding get_or sum_except net
empty-IsValid = record {
  nonneg = λ a. omega arith;
  derived = λ a h. refl;
  conserved = omega int_laws;
  recorded = λ tx. refl;
}

module _ (e : LedgerEntry) (l : DoubleEntryLedger) where
  pub balance-record_transfer :
      (a : String)
      → str_eq e.from_account e.to_account ≡ false
      → get_balance (record_transfer e l) a ≡ (
          if str_eq e.to_account a
          then get_balance l a +ℤ e.amount
          else if str_eq e.from_account a
          then get_balance l a -ℤ e.amount
          else get_balance l a)
  balance-record_transfer a apart = simp get_or-insert (
      ground (
        arith,
        apart,
        eq_iff e.from_account a,
        eq_iff e.to_account a,
        eq_iff e.from_account e.to_account,
      ))

  pub balance-record_mint :
      (a : String)
      → get_balance (record_mint e l) a
        ≡ (if str_eq e.to_account a then get_balance l a +ℤ e.amount else get_balance l a)
  balance-record_mint a = simp get_or-insert (ground (arith, eq_iff e.to_account a))

  recorded_append :
      (tx : String)
      → contains tx l.recorded_tx_ids ≡ has_tx tx l.entries
      → contains tx (e.transaction_id ∷ l.recorded_tx_ids) ≡ has_tx tx (l.entries ++ e ∷ [])
  recorded_append tx h = rw any-append (ground (arith, h))

  other_than_mint :
      (a : String)
      → e.from_account ≡ system_mint
      → str_eq a system_mint ≡ false
      → str_eq e.from_account a ≡ false
  other_than_mint a from h = ground (arith, from, h, eq_iff e.from_account a, eq_iff a system_mint)

  -- A mint of a positive amount, from the mint's own account into another, under a fresh id.
  pub record_mint-IsValid :
      IsValid l
      → pos 0 <ℤ e.amount
      → e.from_account ≡ system_mint
      → str_eq e.to_account system_mint ≡ false
      → IsValid (record_mint e l)
  record_mint-IsValid v amount from to = record {
    nonneg = λ a. rw (balance-record_mint a) (elim (Bool-cases (str_eq e.to_account a)) [
      | inl here ↦ rw here (omega (int_laws, v.nonneg a))
      | inr there ↦ rw there (v.nonneg a)
    ]);
    derived = λ a h.
        rw (balance-record_mint a, net-append a l.entries e, other_than_mint a from h)
          (elim (Bool-cases (str_eq e.to_account a)) [
            | inl here ↦ rw here (omega (int_laws, parts (v.derived a h)))
            | inr there ↦ rw there (omega (int_laws, parts (v.derived a h)))
          ]);
    conserved = omega (
      int_laws,
      parts v.conserved,
      parts (
          sum_all-insert system_mint e.to_account (get_balance l e.to_account +ℤ e.amount)
            l.balances),
    );
    recorded = λ tx. recorded_append tx (v.recorded tx);
  }

  -- An account is the receiver, the sender, or neither.
  sides :
      (a : String)
      → str_eq e.from_account e.to_account ≡ false
      → ((str_eq e.to_account a ≡ true) × (str_eq e.from_account a ≡ false))
        ⊎ ((str_eq e.to_account a ≡ false)
            × (str_eq e.from_account a ≡ true)
            × (e.from_account ≡ a))
        ⊎ ((str_eq e.to_account a ≡ false) × (str_eq e.from_account a ≡ false))
  sides a apart = ground (
    arith,
    apart,
    eq_iff e.from_account a,
    eq_iff e.to_account a,
    eq_iff e.from_account e.to_account,
  )

  pub record_transfer-IsValid :
      IsValid l
      → pos 0 <ℤ e.amount
      → e.amount ≤ℤ get_balance l e.from_account
      → str_eq e.from_account e.to_account ≡ false
      → IsValid (record_transfer e l)
  record_transfer-IsValid v amount funds apart = record {
    nonneg = λ a. rw (balance-record_transfer a apart) (elim (sides a apart) [
      | inl (to, from) ↦ simp (to, from) (omega (int_laws, v.nonneg a))
      | inr (inl (to, from, same)) ↦
          simp (to, from)
            (omega (int_laws, subst (λ x. e.amount ≤ℤ get_balance l x) same funds, v.nonneg a))
      | inr (inr (to, from)) ↦ simp (to, from) (v.nonneg a)
    ]);
    derived = λ a h.
        rw (balance-record_transfer a apart, net-append a l.entries e)
          (elim (sides a apart) [
            | inl (to, from) ↦ simp (to, from) (omega (int_laws, parts (v.derived a h)))
            | inr (inl (to, from, same)) ↦ simp (to, from) (omega (int_laws, parts (v.derived a h)))
            | inr (inr (to, from)) ↦ simp (to, from) (omega (int_laws, parts (v.derived a h)))
          ]);
    conserved = omega (
      int_laws,
      parts v.conserved,
      parts (
          sum_all-insert system_mint e.from_account (get_balance l e.from_account -ℤ e.amount)
            l.balances),
      parts (
          sum_all-insert system_mint e.to_account (get_or e.to_account (pos 0) debited +ℤ e.amount)
            debited),
    );
    recorded = λ tx. recorded_append tx (v.recorded tx);
  }
    where
      debited : Dict ℤ
      debited = insert e.from_account (get_balance l e.from_account -ℤ e.amount) l.balances

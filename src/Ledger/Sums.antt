-- ===== src/Ledger/Sums.antt =====
-- Sums over a ledger: over its balances, and of what its entries move into and out of an account.
use kalyx_mao_engine.Base.{
  String, ◌≡◌, List, [], ◌∷◌, ◌++◌, str_eq, eq_iff, eq_refl, Bool-cases, inl, inr, false, ap, ◌∙◌,
  if◌then◌else◌,
}
use kalyx_mao_engine.Base.Int.{ℤ, pos, ◌+ℤ◌, ◌-ℤ◌, parts, int_laws}
use kalyx_mao_engine.Base.Dict.{Dict, get_or, insert, get_or-insert}
use kalyx_mao_engine.Ledger.{LedgerEntry, sum_except}

-- What the entries have moved into `account`, less what they have moved out of it.
unfoldable pub net : String → List LedgerEntry → ℤ
net account [] = pos 0
net account (e ∷ es) =
    let rest = net account es in
    let received = if str_eq e.to_account account then e.amount else pos 0 in
    let sent = if str_eq e.from_account account then e.amount else pos 0 in received -ℤ sent +ℤ rest

-- A write to the account that is left out changes nothing.
pub sum_except-insert_self :
    (m : String) (v : ℤ) (d : Dict ℤ) → sum_except m (insert m v d) ≡ sum_except m d
unfolding sum_except insert
sum_except-insert_self m v [] = rw eq_refl
sum_except-insert_self m v ((j, w) ∷ d) = elim (Bool-cases (str_eq j m)) [
  | inl same ↦ simp same
  | inr other ↦ simp (other, sum_except-insert_self m v d)
]

-- A write to any other account changes the sum by as much as it changes that account.
pub sum_except-insert :
    (m k : String) (v : ℤ) (d : Dict ℤ)
    → str_eq k m ≡ false
    → sum_except m (insert k v d) +ℤ get_or k (pos 0) d ≡ sum_except m d +ℤ v
unfolding sum_except insert get_or
sum_except-insert m k v [] h = rw h (omega int_laws)
sum_except-insert m k v ((j, w) ∷ d) h = elim (Bool-cases (str_eq j k)) [
  | inl same ↦ simp (same, ap (λ i. str_eq i m) ((eq_iff j k).0 same) ∙ h) (omega int_laws)
  | inr other ↦ elim (Bool-cases (str_eq j m)) [
    | inl skip ↦ simp (other, skip) (sum_except-insert m k v d h)
    | inr keep ↦ simp (other, keep) (omega (int_laws, parts (sum_except-insert m k v d h)))
  ]
]

-- The sum over every account, `m` included, changes by as much as the account that is written.
pub sum_all-insert :
    (m k : String) (v : ℤ) (d : Dict ℤ)
    → sum_except m (insert k v d) +ℤ get_or m (pos 0) (insert k v d) +ℤ get_or k (pos 0) d
      ≡ sum_except m d +ℤ get_or m (pos 0) d +ℤ v
sum_all-insert m k v d = elim (Bool-cases (str_eq k m)) [
  | inl same ↦
      rw ((eq_iff k m).0 same, sum_except-insert_self, get_or-insert, eq_refl m) (omega int_laws)
  | inr other ↦
      rw (get_or-insert, other) (omega (int_laws, parts (sum_except-insert m k v d other)))
]

pub net-append :
    (a : String) (es : List LedgerEntry) (e : LedgerEntry)
    → net a (es ++ e ∷ [])
      ≡ net a es
        +ℤ ((if str_eq e.to_account a then e.amount else pos 0)
            -ℤ (if str_eq e.from_account a then e.amount else pos 0))
unfolding net
net-append a [] e = omega int_laws
net-append a (x ∷ es) e = omega (int_laws, parts (net-append a es e))

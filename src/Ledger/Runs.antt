-- ===== src/Ledger/Runs.antt =====
-- Sequences of calls. A call that raises leaves the ledger as it was, and the caller goes on.
use kalyx_mao_engine.Base.{
  String, ◌≡◌, refl, false, true, Option, some, List, [], ◌∷◌, arith, str_eq, str_append, is_empty,
  eq_iff, eq_refl, or_else, Bool-cases, inl, inr, contains, ◌∙◌,
}
use kalyx_mao_engine.Base.Int.{ℤ, pos, ◌≤ℤ◌, parts, int_laws}
use kalyx_mao_engine.Base.Dict.{get_or, insert}
use mathlib.Core.Path.{subst}
use kalyx_mao_engine.Base.Outcome.{Result, ok, err, duplicate_transaction}
use kalyx_mao_engine.Ledger.{
  Stamp, LedgerEntry, DoubleEntryLedger, system_mint, revenue, get_balance, deposit_revenue,
  transfer, verify_conservation, init, entry_of,
}
use kalyx_mao_engine.Ledger.Invariant.{IsValid, balance-record_mint}
use kalyx_mao_engine.Ledger.Methods.{
  transfer_inv, transfer_moves, transfer-IsValid, deposit_revenue_inv, deposit_revenue-IsValid,
  init-IsValid, verify_conservation_iff,
}

pub data Call : Type 0 where
  deposit : Stamp → ℤ → String → Option String → Call
  move : Stamp → String → String → ℤ → String → Option String → Call

-- The ledger after a call: the new one, or the old one where the call raised.
abbrev pub after : DoubleEntryLedger → Result (LedgerEntry × DoubleEntryLedger) → DoubleEntryLedger
after l (ok (e, l')) = l'
after l (err x) = l

abbrev pub step : DoubleEntryLedger → Call → DoubleEntryLedger
step l (deposit s n memo id) = after l (deposit_revenue s n memo id l)
step l (move s from to n memo id) = after l (transfer s from to n memo id l)

unfoldable pub run : DoubleEntryLedger → List Call → DoubleEntryLedger
run l [] = l
run l (c ∷ cs) = run (step l c) cs

after_keeps :
    (P : DoubleEntryLedger → Type 0) (l : DoubleEntryLedger)
    (r : Result (LedgerEntry × DoubleEntryLedger))
    → P l
    → ((e : LedgerEntry) (l' : DoubleEntryLedger) → r ≡ ok (e, l') → P l')
    → P (after l r)
after_keeps P l (ok (e, l')) p keeps = keeps e l' refl
after_keeps P l (err x) p keeps = p

step-IsValid : (l : DoubleEntryLedger) (c : Call) → IsValid l → IsValid (step l c)
step-IsValid l (deposit s n memo id) v =
    after_keeps IsValid l (deposit_revenue s n memo id l) v
      (λ e l' h. deposit_revenue-IsValid s n memo id l v h)
step-IsValid l (move s from to n memo id) v =
    after_keeps IsValid l (transfer s from to n memo id l) v
      (λ e l' h. transfer-IsValid s from to n memo id l v h)

run-IsValid : (l : DoubleEntryLedger) (cs : List Call) → IsValid l → IsValid (run l cs)
unfolding run
run-IsValid l [] v = v
run-IsValid l (c ∷ cs) v = run-IsValid (step l c) cs (step-IsValid l c v)

-- After any calls on a new ledger, failed ones included, no account is overdrawn, the balance of
-- each account but the mint's is what the entries move into it less what they move out of it, all
-- that was minted lies in the accounts, and the recorded ids are those of the entries.
pub run-init-IsValid : (s : Stamp) (n : ℤ) (cs : List Call) → IsValid (run (init s n) cs)
run-init-IsValid s n cs = run-IsValid (init s n) cs (init-IsValid s n)

-- No transfer of the list pays into the account of the mint.
abbrev pub AvoidsMint : List Call → Type 0
AvoidsMint [] = Unit
AvoidsMint (deposit s n memo id ∷ cs) = AvoidsMint cs
AvoidsMint (move s from to n memo id ∷ cs) = (str_eq to system_mint ≡ false) × AvoidsMint cs

abbrev pub HoldsNoMint : DoubleEntryLedger → Type 0
HoldsNoMint l = get_balance l system_mint ≡ pos 0

-- The mint's account cannot pay: it holds nothing.
pub transfer-HoldsNoMint :
    (s : Stamp) (from to : String) (n : ℤ) (memo : String) (id : Option String)
    (l : DoubleEntryLedger) (e : LedgerEntry) (l' : DoubleEntryLedger)
    → str_eq to system_mint ≡ false
    → HoldsNoMint l
    → transfer s from to n memo id l ≡ ok (e, l')
    → HoldsNoMint l'
transfer-HoldsNoMint s from to n memo id l e l' elsewhere h returned =
    let accepts = (transfer_inv s from to n memo id l returned).0 in
    (transfer_moves s from to n memo id l returned).0 system_mint
    ∙ (elim (Bool-cases (str_eq from system_mint)) [
      | inl mint_pays ↦ absurd (
          omega (
            arith,
            accepts.positive,
            parts h,
            subst (λ a. n ≤ℤ get_balance l a) ((eq_iff from system_mint).0 mint_pays)
                accepts.funded,
          ))
      | inr another ↦ simp (elsewhere, another) h
    ])

deposit_revenue-HoldsNoMint :
    (s : Stamp) (n : ℤ) (memo : String) (id : Option String) (l : DoubleEntryLedger)
    (e : LedgerEntry) (l' : DoubleEntryLedger)
    → HoldsNoMint l
    → deposit_revenue s n memo id l ≡ ok (e, l')
    → HoldsNoMint l'
deposit_revenue-HoldsNoMint s n memo id l e l' h returned =
    let (_, _, entry, ledger) = deposit_revenue_inv s n memo id l returned in
    rw ledger (
      rw entry (
        balance-record_mint
          (entry_of s (or_else id (str_append "deposit-" s.uuid)) system_mint revenue n memo) l
          system_mint
        ∙ h))

init-HoldsNoMint : (s : Stamp) (n : ℤ) → HoldsNoMint (init s n)
unfolding init get_or insert
init-HoldsNoMint s n = ground arith

run-HoldsNoMint :
    (l : DoubleEntryLedger) (cs : List Call)
    → AvoidsMint cs
    → HoldsNoMint l
    → HoldsNoMint (run l cs)
unfolding run
run-HoldsNoMint l [] a h = h
run-HoldsNoMint l (deposit s n memo id ∷ cs) a h =
    run-HoldsNoMint (step l (deposit s n memo id)) cs a (
      after_keeps HoldsNoMint l (deposit_revenue s n memo id l) h
        (λ e l'. deposit_revenue-HoldsNoMint s n memo id l e l' h))
run-HoldsNoMint l (move s from to n memo id ∷ cs) a h =
    run-HoldsNoMint (step l (move s from to n memo id)) cs a.1 (
      after_keeps HoldsNoMint l (transfer s from to n memo id l) h
        (λ e l'. transfer-HoldsNoMint s from to n memo id l e l' a.0 h))

-- `verify_conservation` holds after any calls on a new ledger, failed ones included, none of
-- which transfers into SYSTEM_MINT.
pub run_conserves :
    (s : Stamp) (n : ℤ) (cs : List Call)
    → AvoidsMint cs
    → verify_conservation (run (init s n) cs) ≡ true
run_conserves s n cs a =
    (verify_conservation_iff (run (init s n) cs) (run-init-IsValid s n cs)).1
      (run-HoldsNoMint (init s n) cs a (init-HoldsNoMint s n))

-- What is recorded stays recorded.
step-recorded :
    (l : DoubleEntryLedger) (c : Call) (tx : String)
    → contains tx l.recorded_tx_ids ≡ true
    → contains tx (step l c).recorded_tx_ids ≡ true
unfolding deposit_revenue transfer
step-recorded l (deposit s n memo id) tx h = ground (arith, h)
step-recorded l (move s from to n memo id) tx h = ground (arith, h)

run-recorded :
    (l : DoubleEntryLedger) (cs : List Call) (tx : String)
    → contains tx l.recorded_tx_ids ≡ true
    → contains tx (run l cs).recorded_tx_ids ≡ true
unfolding run
run-recorded l [] tx h = h
run-recorded l (c ∷ cs) tx h = run-recorded (step l c) cs tx (step-recorded l c tx h)

-- A transfer into SYSTEM_MINT is not refused, and where it returns, from a valid ledger, the check
-- of `verify_conservation` fails on the result.
pub transfer_to_mint_breaks :
    (s : Stamp) (from : String) (n : ℤ) (memo : String) (id : Option String) (l : DoubleEntryLedger)
    {e : LedgerEntry} {l' : DoubleEntryLedger}
    → IsValid l
    → transfer s from system_mint n memo id l ≡ ok (e, l')
    → verify_conservation l' ≡ false
transfer_to_mint_breaks s from n memo id l {e} {l'} v returned =
    elim (Bool-cases (verify_conservation l')) [
      | inl passes ↦ absurd (
          omega (
            int_laws,
            (transfer_inv s from system_mint n memo id l returned).0.positive,
            v.nonneg system_mint,
            parts ((transfer_moves s from system_mint n memo id l returned).0 system_mint),
            parts (
                (verify_conservation_iff l'
                    (transfer-IsValid s from system_mint n memo id l v returned)).0
                  passes),
          ))
      | inr fails ↦ fails
    ]

transfer-recorded :
    (s : Stamp) (from to : String) (n : ℤ) (memo id : String) (l : DoubleEntryLedger)
    {e : LedgerEntry} {l' : DoubleEntryLedger}
    → is_empty id ≡ false
    → transfer s from to n memo (some id) l ≡ ok (e, l')
    → contains id l'.recorded_tx_ids ≡ true
transfer-recorded s from to n memo id l given returned =
    let (accepts, entry, ledger) = transfer_inv s from to n memo (some id) l returned in
    rw ledger (rw entry (simp (given, eq_refl)))

-- A transaction id that a transfer has used is refused for good: whatever calls follow, a
-- transfer that gives the same id raises, between any accounts and of any amount.
pub transfer_no_replay :
    (s s' : Stamp) (from to : String) (n : ℤ) (memo id : String) (cs : List Call)
    (from' to' : String) (n' : ℤ) (memo' : String) (l : DoubleEntryLedger) {e : LedgerEntry}
    {l' : DoubleEntryLedger}
    → is_empty id ≡ false
    → transfer s from to n memo (some id) l ≡ ok (e, l')
    → transfer s' from' to' n' memo' (some id) (run l' cs) ≡ err duplicate_transaction
unfolding transfer
transfer_no_replay s s' from to n memo id cs from' to' n' memo' l {l' = l'} given returned =
    ground
      (arith, given, run-recorded l' cs id (transfer-recorded s from to n memo id l given returned))

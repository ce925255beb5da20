-- ===== src/Ledger/Tests.antt =====
-- Runs of the in-memory ledger, and its theorems at concrete inputs.
use kalyx_mao_engine.Base.{String, ◌≡◌, refl, none, some, List, [], ◌∷◌, arith}
use kalyx_mao_engine.Base.Int.{pos, negsuc, ◌+ℤ◌, ◌-ℤ◌}
use kalyx_mao_engine.Base.Dict.{get_or, insert}
use kalyx_mao_engine.Base.Outcome.{ok}
use kalyx_mao_engine.Ledger.{
  Stamp, LedgerEntry, DoubleEntryLedger, treasury, escrow, system_mint, get_balance, init, transfer,
  entry_of, record_transfer, deposit_revenue,
}
use kalyx_mao_engine.Ledger.Invariant.{IsValid}
use kalyx_mao_engine.Ledger.Methods.{Accepts, transfer-Accepts}
use kalyx_mao_engine.Ledger.Runs.{Call, deposit, move, run, run-init-IsValid}

abbrev stamp : String → Stamp
stamp name = record { entry_id = name; uuid = name; now = 0 }

abbrev opened : DoubleEntryLedger
opened = init (stamp "u0") (pos 100)

abbrev lock : LedgerEntry
lock = entry_of (stamp "u1") "res-1" treasury escrow (pos 40) "lock"

abbrev locked : DoubleEntryLedger
locked = record_transfer lock opened

lock_accepted : Accepts treasury escrow (pos 40) "res-1" opened
unfolding init get_or insert ◌+ℤ◌
lock_accepted = record { fresh = refl; positive = omega arith; apart = refl; funded = omega arith }

lock_returns :
    transfer (stamp "u1") treasury escrow (pos 40) "lock" (some "res-1") opened ≡ ok (lock, locked)
lock_returns =
    transfer-Accepts (stamp "u1") treasury escrow (pos 40) "lock" (some "res-1") opened
      lock_accepted

-- The second transfer repeats an id, the third is not covered; both change nothing.
abbrev calls : List Call
calls =
    move (stamp "u1") treasury escrow (pos 40) "lock" (some "res-1")
    ∷ move (stamp "u2") treasury escrow (pos 5) "lock" (some "res-1")
    ∷ move (stamp "u3") treasury escrow (pos 70) "lock" none
    ∷ deposit (stamp "u4") (pos 7) "sale" none
    ∷ deposit (stamp "u5") (negsuc 3) "refund" none
    ∷ []

balances-run :
    let l = run opened calls in
    (get_balance l treasury ≡ pos 60)
    × (get_balance l escrow ≡ pos 40)
    × (get_balance l "REVENUE" ≡ pos 7)
    × (l.total_minted ≡ pos 107)
unfolding run init transfer deposit_revenue get_or insert ◌+ℤ◌ ◌-ℤ◌
balances-run = (refl, refl, refl, refl)

run-init-IsValid_example : IsValid (run opened calls)
run-init-IsValid_example = run-init-IsValid (stamp "u0") (pos 100) calls

abbrev burn : LedgerEntry
burn = entry_of (stamp "u6") "u6" treasury system_mint (pos 10) "burn"

burn_returns :
    transfer (stamp "u6") treasury system_mint (pos 10) "burn" none opened
    ≡ ok (burn, record_transfer burn opened)
unfolding init get_or insert ◌+ℤ◌
burn_returns =
    transfer-Accepts (stamp "u6") treasury system_mint (pos 10) "burn" none opened
      (record { fresh = refl; positive = omega arith; apart = refl; funded = omega arith })

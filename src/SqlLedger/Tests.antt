-- ===== src/SqlLedger/Tests.antt =====
-- Runs of the SQL ledger, and its refinement at concrete inputs.
use kalyx_mao_engine.Base.{String, ◌≡◌, refl, false, true, some, List, [], ◌∷◌, str_eq}
use kalyx_mao_engine.Base.Int.{pos, eqb_ℤ, ◌+ℤ◌, ◌-ℤ◌}
use kalyx_mao_engine.Ledger
use kalyx_mao_engine.Ledger.{Stamp, DoubleEntryLedger, treasury, escrow, system_mint, revenue}
use kalyx_mao_engine.Ledger.Runs
use kalyx_mao_engine.Ledger.Runs.{Call, deposit, move}
use kalyx_mao_engine.SqlLedger
use kalyx_mao_engine.SqlLedger.{Rows, has_id, sum_to, sum_from, sum_over, accounts}
use kalyx_mao_engine.SqlLedger.Conservation.{verify_conservation-eq}
use kalyx_mao_engine.SqlLedger.Refinement.{run, run_refines}

abbrev stamp : String → Stamp
stamp name = record { entry_id = name; uuid = name; now = 0 }

abbrev calls : List Call
calls =
    deposit (stamp "u1") (pos 50) "sale" (some "d1")
    ∷ move (stamp "u2") revenue treasury (pos 30) "sweep" (some "t1")
    ∷ move (stamp "u3") revenue treasury (pos 30) "sweep" (some "t2")
    ∷ deposit (stamp "u4") (pos 5) "sale" (some "d1")
    ∷ []

balances-run :
    (SqlLedger.get_balance (run [] calls) treasury ≡ pos 30)
    × (SqlLedger.get_balance (run [] calls) revenue ≡ pos 20)
unfolding run SqlLedger.transfer SqlLedger.deposit_revenue ◌+ℤ◌ ◌-ℤ◌
balances-run = (refl, refl)

run_refines_example :
    ((Runs.run Ledger.empty calls).entries ≡ run [] calls)
    × ((a : String)
        → str_eq a system_mint ≡ false
        → Ledger.get_balance (Runs.run Ledger.empty calls) a
          ≡ SqlLedger.get_balance (run [] calls) a)
unfolding SqlLedger.transfer SqlLedger.deposit_revenue ◌+ℤ◌ ◌-ℤ◌
run_refines_example = run_refines calls (refl, (refl, refl, (refl, refl, (refl, tt))))

verify_conservation-eq_example :
    SqlLedger.verify_conservation (run [] calls) ≡ eqb_ℤ (sum_to system_mint (run [] calls)) (pos 0)
verify_conservation-eq_example = verify_conservation-eq (run [] calls)

conserves : SqlLedger.verify_conservation (run [] calls) ≡ true
unfolding SqlLedger.verify_conservation sum_over accounts sum_to sum_from run SqlLedger.transfer
    SqlLedger.deposit_revenue ◌+ℤ◌ ◌-ℤ◌
conserves = refl

-- ===== src/Csid/Inject/Pacing/Examples.antt =====
-- A run of the paced loop on which the lemmas of this module are applied.
use csid.Csid.Inject.Pacing.{start, Round, run_loop}
use csid.Csid.Inject.Pacing.Slots.{slots, IsRun, run_loop-slots}
use csid.Prelude.{◌+◌, ◌*◌, ◌≡◌, true, false, List, [], ◌∷◌, arith}

-- At a period of 10: one frame in time, a sleep, and one frame before a stall of three periods.
abbrev rounds : List Round
rounds =
    record { now = 100; later = 101; accepted = true }
    ∷ record { now = 105; later = 105; accepted = true }
    ∷ record { now = 110; later = 145; accepted = false }
    ∷ []

run_loop-slots_example :
    ((run_loop 10 rounds (start 100)).next ≡ 100 + 10 * slots (run_loop 10 rounds (start 100)))
    × ((run_loop 10 rounds (start 100)).seq
        ≡ (run_loop 10 rounds (start 100)).sent + (run_loop 10 rounds (start 100)).errors)
    × IsRun 10 rounds (start 100)
run_loop-slots_example = run_loop-slots 100 10 rounds (omega arith) (omega arith)

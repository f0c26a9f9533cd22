-- ===== src/Csid/Fleet/Clock/Examples.antt =====
-- A fleet of three nodes, probed three times.
use csid.Csid.Fleet.Clock.{Exchange, estimate, fleet_skew, within_budget, is_plausible}
use csid.Csid.Fleet.Clock.Spread.{
  Estimates, measured_of, missing_of, IsReport, fleet_skew-IsReport, within_budget-fleet_skew,
}
use csid.Prelude.{ℕ, ◌+◌, ◌≤◌, ◌≡◌, refl, true, some, List, [], ◌∷◌, arith}
use csid.Prelude.{All}
use csid.Prelude.Int.{ℤ, pos, negsuc, pos_part, neg_part}

-- A node 500 behind: a slow exchange, a quick one, and one with its reply's time lost.
abbrev probes : List Exchange
probes =
    record { t1_ns = 1000; t2_ns = 900; t3_ns = 950; t4_ns = 1500 }
    ∷ record { t1_ns = 3000; t2_ns = 2530; t3_ns = 2540; t4_ns = 3045 }
    ∷ record { t1_ns = 5000; t2_ns = 4600; t3_ns = 4700; t4_ns = 5300 }
    ∷ []

estimated :
    estimate probes 3 ≡ some (record { offset = negsuc 486; uncertainty_ns = 17; samples = 3 })
unfolding estimate is_plausible
estimated = refl

abbrev fleet : Estimates
fleet =
    (b'a' ∷ [], some (record { offset = pos 0; uncertainty_ns = 1; samples = 3 }))
    ∷ (b'b' ∷ [], some (record { offset = pos 10; uncertainty_ns = 1; samples = 3 }))
    ∷ (b'c' ∷ [], some (record { offset = pos 9; uncertainty_ns = 100; samples = 3 }))
    ∷ []

-- The worst case leaves out the third node's uncertainty, which reaches 110 from the first.
understated : (fleet_skew fleet 20).skew_upper_ns ≡ 12
unfolding fleet_skew
understated = refl

fleet_skew-IsReport_example : IsReport fleet 20 (fleet_skew fleet 20)
fleet_skew-IsReport_example =
    fleet_skew-IsReport fleet 20
      ((omega arith, omega arith), ((omega arith, omega arith), ((omega arith, omega arith), tt)))

small_fleet : within_budget (fleet_skew fleet 20) ≡ true
unfolding fleet_skew within_budget
small_fleet = refl

within_budget-fleet_skew_example :
    (missing_of fleet ≡ [])
    × (1 ≤ 3)
    × All
        (λ (x : List ℕ × ℤ × ℕ).
          All
            (λ (y : List ℕ × ℤ × ℕ).
              (pos_part (x.1) + neg_part (y.1) ≤ pos_part (y.1) + neg_part (x.1) + 20)
              × (pos_part (y.1) + neg_part (x.1) ≤ pos_part (x.1) + neg_part (y.1) + 20))
            (measured_of fleet))
        (measured_of fleet)
within_budget-fleet_skew_example =
    within_budget-fleet_skew fleet 20
      ((omega arith, omega arith), ((omega arith, omega arith), ((omega arith, omega arith), tt)))
      small_fleet

-- ===== src/Tdm/Runs.antt =====
-- The documented map `{0-3}{99}{5-8}{1-31}`, and the theorems at concrete inputs.
use sipr.Common.{◌+◌, ◌≤◌, ◌≡◌, refl, arith, true, some}
use sipr.Tdm.{TdmMap, Circuit, circuit, circuits}
use sipr.Tdm.Circuits.{is_none, circuit_lem, circuit_panics}

abbrev documented : TdmMap
documented = record { a = 3; x = 0; h = 99; b = 3; y = 5; c = 30; z = 1 }

circuits_run : circuits documented ≡ 496
unfolding circuits
circuits_run = refl

circuit_495 :
    circuit documented 495 ≡ some (record { first = 3; middle = 99; second = 8; third = 31 })
unfolding circuit
circuit_495 = refl

circuit_lem_example :
    (k : Circuit) × (circuit documented 1000 ≡ some k)
    × ((0 ≤ k.first) × (k.first ≤ 0 + 3))
    × ((5 ≤ k.second) × (k.second ≤ 5 + 3))
    × ((1 ≤ k.third) × (k.third ≤ 1 + 30))
circuit_lem_example =
    circuit_lem documented 1000 (omega arith) (omega arith) (omega arith) (omega arith)

circuit_panics_example :
    is_none (circuit (record { a = 3; x = 0; h = 99; b = 65535; y = 5; c = 65535; z = 0 }) 7) ≡ true
circuit_panics_example =
    circuit_panics (record { a = 3; x = 0; h = 99; b = 65535; y = 5; c = 65535; z = 0 }) 7
      (omega arith) (omega arith) (omega arith)

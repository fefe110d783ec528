-- ===== src/Monitor/Tests.antt =====
-- A port that flaps every fifty minutes, and the theorem at it.
use switchpilot.Prelude.{ℕ, ◌≡◌, refl, String, List, [], ◌∷◌, none, some, arith}
use switchpilot.Monitor.{decide_port_flap, sweeps}
use switchpilot.Monitor.Flap.{counted, last_status, last_time, flap_times, sweeps-burst}

abbrev slow_flaps : List (String × ℕ)
slow_flaps =
    ("notconnect", 3000000)
    ∷ ("connected", 6000000)
    ∷ ("notconnect", 9000000)
    ∷ ("connected", 12000000)
    ∷ []

-- Four flaps count, of which two are in the last hour.
slow_count :
    sweeps (("connected", 0) ∷ slow_flaps) none
    ≡ some (record { oper_status = "connected"; flap_count_1h = 4; last_flap_at = some 12000000 })
unfolding sweeps decide_port_flap
slow_count = refl

sweeps-burst_example :
    sweeps (("connected", 0) ∷ slow_flaps) none
    ≡ some (
        counted
          (last_status "connected" slow_flaps)
          (last_time 0 slow_flaps)
          (flap_times "connected" slow_flaps []))
sweeps-burst_example =
    sweeps-burst "connected" 0 slow_flaps
      (omega arith, (omega arith, (omega arith, (omega arith, tt))))

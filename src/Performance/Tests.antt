-- ===== src/Performance/Tests.antt =====
-- A window of two readings.
use fprime_gds.Base.{refl, some, List, ℕ, ◌∷◌, [], ◌≡◌}
use fprime_gds.Performance.{
  ResponsiveChecker, new_checker, default_number, responsiveness, max_of, checker, reading, ◌-ℤ◌,
}
use fprime_gds.Performance.Readings.{checks, checks-last, lateness}
use fprime_gds.Base.Int.{◌-ℤ◌, pos}

abbrev window : ResponsiveChecker
window = new_checker (some 100) (some 2)

abbrev times : List ℕ
times = 1130 ∷ 1250 ∷ 1400 ∷ []

last_readings : (checks (1000 ∷ times) window).last ≡ pos 20 ∷ pos 50 ∷ []
unfolding new_checker default_number lateness reading ◌-ℤ◌
last_readings = checks-last 1000 times window

worst : responsiveness (checks (1000 ∷ times) window) ≡ some (pos 50)
unfolding responsiveness checks checker new_checker default_number reading max_of ◌-ℤ◌
worst = refl

-- ===== src/Limiter/Tests.antt =====
-- A limiter of two attempts in ten seconds, and the bound at it.
use arsivinyo_memegy_backend.Base.{◌≡◌, ◌≤◌, refl, List, [], ◌∷◌, arith}
use arsivinyo_memegy_backend.Limiter.{new_limiter, check_rate_limit, cleanup}
use arsivinyo_memegy_backend.Limiter.Window.{Event, attempt, cleaned, passed, new_limiter-passed}

abbrev events : List Event
events =
    attempt 100 "a"
    ∷ attempt 101 "b"
    ∷ attempt 102 "a"
    ∷ cleaned 104
    ∷ attempt 105 "a"
    ∷ attempt 110 "a"
    ∷ []

two_pass : passed "a" events (new_limiter 2 10) ≡ 2
unfolding new_limiter check_rate_limit cleanup
two_pass = refl

new_limiter-passed_example : passed "a" events (new_limiter 2 10) ≤ 2
new_limiter-passed_example = new_limiter-passed "a" 100 2 10 events (omega arith) (
  (omega arith, omega arith),
  (
    (omega arith, omega arith),
    (
      (omega arith, omega arith),
      ((omega arith, omega arith), ((omega arith, omega arith), ((omega arith, omega arith), tt))),
    ),
  ),
)

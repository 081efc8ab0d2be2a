-- ===== src/Counters/Tests.antt =====
-- A counter of two tries in a minute, and the theorems at it.
use arsivinyo_memegy_backend.Base.{
  ℕ, ◌+◌, ◌≡◌, ◌≤◌, refl, false, List, [], ◌∷◌, none, some, ok, arith,
}
use arsivinyo_memegy_backend.Counters.{
  Counter, Redis, connect, get, incr, expire, World, put_counter, check_and_increment, u64_max,
}
use arsivinyo_memegy_backend.Counters.Strict.{Attempt, own, other, passed, strict-passed}
use arsivinyo_memegy_backend.Counters.Stuck.{IsLasting, after_checks, expire_failed-IsLasting}
use arsivinyo_memegy_backend.Counters.Interleaved.{two_attempts, two_attempts-both}

abbrev empty : Redis
empty = record { counters = λ key. none }

abbrev at : ℕ → World
at t = record { now = t; fails = λ call. none }

-- EXPIRE fails.
abbrev no_expiry : World
no_expiry = record {
  now = 100;
  fails = λ call. elim call [ connect ↦ none | get ↦ none | incr ↦ none | expire ↦ some "down" ];
}

abbrev tries : List Attempt
tries = own (at 100) ∷ other (at 101) "b" 5 60 ∷ own (at 110) ∷ own (at 150) ∷ []

strict-passed_example : passed "a" 2 60 tries empty ≤ 2
strict-passed_example = strict-passed "a" 2 60 100 tries empty refl (
  (omega arith, omega arith),
  (refl, ((omega arith, omega arith), ((omega arith, omega arith), tt))),
)

expire_failed-IsLasting_example :
    IsLasting "a"
      (after_checks "a" 2 60 (at 500 ∷ []) (check_and_increment no_expiry false "a" 2 60 empty).1)
expire_failed-IsLasting_example =
    expire_failed-IsLasting "a" no_expiry "down" 2 60 (at 500 ∷ []) empty refl (omega arith) refl
      refl refl refl

abbrev one_left : Counter
one_left = record { count = 1; expires_at = some 160 }

two_attempts-both_example : two_attempts (at 100) "a" 2 60 (put_counter "a" one_left empty) ≡ (
  ok (ok 0),
  ok (ok u64_max),
  put_counter "a"
      (record one_left { count = one_left.count + 2 })
      (put_counter "a"
        (record one_left { count = one_left.count + 1 })
        (put_counter "a" one_left empty)),
)
two_attempts-both_example =
    two_attempts-both (at 100) "a" 2 60 (put_counter "a" one_left empty) one_left refl refl
      (omega arith) refl (omega arith) refl

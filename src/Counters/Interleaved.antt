-- ===== src/Counters/Interleaved.antt =====
-- Two attempts at once (src/api/src/services/rate_limiter.rs: check_and_increment).
use arsivinyo_memegy_backend.Base.{
  ℕ, ◌+◌, ◌≤◌, ◌≡◌, refl, String, false, none, some, Result, ok, ◌==◌, leb, str_eq_refl, arith,
}
use arsivinyo_memegy_backend.Counters.{
  Counter, Redis, incr, World, has_expired, live, put_counter, count_of, incr_key, incr_and_expire,
  after_get, remaining_after, u64_max,
}

-- Two attempts of one key of which both read the counter before either increments it.
unfoldable pub two_attempts :
    World → String → ℕ → ℕ → Redis → Result String (Result ℕ ℕ) × Result String (Result ℕ ℕ) × Redis
two_attempts w key max window s =
    let count = count_of (live w.now key s) in
    let first_done = after_get w key max window count s in
    let second_done = after_get w key max window count first_done.1 in
    (first_done.0, second_done.0, second_done.1)

incr_again :
    (w : World) (key : String) (window : ℕ) (s : Redis) (c : Counter)
    → s.counters key ≡ some c
    → has_expired w.now c.expires_at ≡ false
    → 1 ≤ c.count
    → w.fails incr ≡ none
    → incr_and_expire w key 1 window s
      ≡ (ok (c.count + 1), put_counter key (record c { count = c.count + 1 }) s)
unfolding incr_and_expire incr_key
incr_again w key window s c found fresh counted works =
    let not_first : c.count + 1 == 1 ≡ false = ground arith in
    let now_live : live w.now key s ≡ some c = rw found (rw fresh refl) in
    rw (works, incr_and_expire) (rw now_live (rw not_first refl))

-- At the last place of a key, two attempts of which both read before either increments both pass: the
-- counter goes one beyond the limit, and the second is told 2^64 - 1 attempts remain.
pub two_attempts-both :
    (w : World) (key : String) (max window : ℕ) (s : Redis) (c : Counter)
    → s.counters key ≡ some c
    → has_expired w.now c.expires_at ≡ false
    → 1 ≤ c.count
    → c.count + 1 ≡ max
    → max ≤ u64_max
    → w.fails incr ≡ none
    → two_attempts w key max window s ≡ (
      ok (ok 0),
      ok (ok u64_max),
      put_counter key
          (record c { count = c.count + 2 })
          (put_counter key (record c { count = c.count + 1 }) s),
    )
unfolding two_attempts remaining_after
two_attempts-both w key max window s c found fresh counted last small works =
    let room : leb max c.count ≡ false = ground arith in
    let now_live : live w.now key s ≡ some c = rw found (rw fresh refl) in
    let s1 = put_counter key (record c { count = c.count + 1 }) s in
    let first_step = incr_again w key window s c found fresh counted works in
    let second_step =
      incr_again w key window s1 (record c { count = c.count + 1 }) (rw (str_eq_refl key) refl)
        fresh (omega arith) works in
    let none_left : remaining_after max (c.count + 1) ≡ 0 = omega arith in
    let wrapped : remaining_after max (c.count + 1 + 1) ≡ u64_max = omega arith in
    let twice : c.count + 1 + 1 ≡ c.count + 2 = omega arith in
    rw now_live
      (rw room (rw first_step (rw second_step (rw none_left (rw wrapped (rw twice refl))))))

-- ===== src/Counters.antt =====
-- The rate limiter on Redis (src/api/src/services/rate_limiter.rs). Times are seconds; an integer of
-- 64 bits wraps around where the source subtracts.
pub mod Strict
pub mod Interleaved
pub mod Stuck
mod Tests
use arsivinyo_memegy_backend.Base.{
  ℕ, ◌+◌, ◌-◌, ◌%◌, String, Bool, true, false, Option, none, some, Result, ok, err, ◌==◌, leb,
  str_eq, unwrap_or, option_map, if◌then◌else◌,
}

-- A counter, and when Redis drops it, if it has an expiry.
pub record Counter : Type 0 where
  pub count : ℕ
  pub expires_at : Option ℕ

pub record Redis : Type 0 where
  pub counters : String → Option Counter

pub data Call : Type 0 where
  connect get incr expire : Call

pub record World : Type 0 where
  pub now : ℕ
  pub fails : Call → Option String  -- the error, if the call fails

abbrev pub has_expired : ℕ → Option ℕ → Bool
has_expired now none = false
has_expired now (some at) = leb at now

abbrev pub unexpired : ℕ → Option Counter → Option Counter
unexpired now none = none
unexpired now (some c) = if has_expired now c.expires_at then none else some c

abbrev pub live : ℕ → String → Redis → Option Counter
live now key s = unexpired now (s.counters key)

abbrev pub put_counter : String → Counter → Redis → Redis
put_counter key c s = record s { counters = λ k. if str_eq k key then some c else s.counters k }

abbrev pub count_of : Option Counter → ℕ
count_of none = 0
count_of (some c) = c.count

-- INCRBY keeps the expiry of a counter, and makes one without expiry.
abbrev pub incremented : ℕ → Option Counter → Counter
incremented amount none = record { count = amount; expires_at = none }
incremented amount (some c) = record c { count = c.count + amount }

unfoldable pub incr_key : ℕ → String → ℕ → Redis → ℕ × Redis
incr_key now key amount s =
    let c = incremented amount (live now key s) in (c.count, put_counter key c s)

abbrev pub with_expiry : ℕ → Option Counter → Option Counter
with_expiry at = option_map λ (c : Counter). record c { expires_at = some at }

unfoldable pub expire_key : ℕ → String → ℕ → Redis → Redis
expire_key now key window_secs s = record s {
  counters =
      λ k. if str_eq k key then with_expiry (now + window_secs) (live now key s) else s.counters k;
}

abbrev pub u64_max : ℕ
u64_max = 18446744073709551615

-- `max_count - new_count` on 64 bits, where it wraps around.
unfoldable pub remaining_after : ℕ → ℕ → ℕ
remaining_after max_count new_count = (max_count + (u64_max + 1) - new_count) % (u64_max + 1)

unfoldable pub check_rate : World → Bool → String → ℕ → Redis → Result String (Result ℕ ℕ)
check_rate w bypass key max_count s = if bypass then ok (ok u64_max) else elim (w.fails connect) [
  | some e ↦ ok (ok max_count)
  | none ↦ elim (w.fails get) [
    | some e ↦ err e
    | none ↦
        let count = count_of (live w.now key s) in
        if leb max_count count then ok (err count) else ok (ok (max_count - count - 1))
  ]
]

-- INCR, then EXPIRE when the counter is new. An expiry that fails leaves the counter without one.
unfoldable pub incr_and_expire : World → String → ℕ → ℕ → Redis → Result String ℕ × Redis
unfolding incr_key expire_key
incr_and_expire w key amount window_secs s = elim (w.fails incr) [
  | some e ↦ (err e, s)
  | none ↦
      let new = incr_key w.now key amount s in
      if new.0 == amount
      then elim (w.fails expire) [
        | some e ↦ (err e, new.1)
        | none ↦ (ok new.0, expire_key w.now key window_secs new.1)
      ]
      else (ok new.0, new.1)
]

unfoldable pub increment_by : World → Bool → String → ℕ → ℕ → Redis → Result String ℕ × Redis
unfolding incr_and_expire
increment_by w bypass key amount window_secs s =
    if bypass then (ok 0, s) else elim (w.fails connect) [
      | some e ↦ (ok 0, s)
      | none ↦ incr_and_expire w key amount window_secs s
    ]

unfoldable pub increment : World → Bool → String → ℕ → Redis → Result String ℕ × Redis
unfolding increment_by
increment w bypass key window_secs s = increment_by w bypass key 1 window_secs s

-- The answer once the counter was incremented.
abbrev pub with_remaining : ℕ → Result String ℕ × Redis → Result String (Result ℕ ℕ) × Redis
with_remaining max_count (ok new_count, s) = (ok (ok (remaining_after max_count new_count)), s)
with_remaining max_count (err e, s) = (err e, s)

-- What follows the answer to GET.
abbrev pub after_get : World → String → ℕ → ℕ → ℕ → Redis → Result String (Result ℕ ℕ) × Redis
after_get w key max_count window_secs count s =
    if leb max_count count
    then (ok (err count), s)
    else with_remaining max_count (incr_and_expire w key 1 window_secs s)

-- The part that both variants share, on a connection.
unfoldable pub check_then_increment :
    World → String → ℕ → ℕ → Redis → Result String (Result ℕ ℕ) × Redis
unfolding incr_and_expire
check_then_increment w key max_count window_secs s = elim (w.fails get) [
  | some e ↦ (err e, s)
  | none ↦ after_get w key max_count window_secs (count_of (live w.now key s)) s
]

unfoldable pub check_and_increment :
    World → Bool → String → ℕ → ℕ → Redis → Result String (Result ℕ ℕ) × Redis
unfolding check_then_increment
check_and_increment w bypass key max_count window_secs s =
    if bypass then (ok (ok u64_max), s) else elim (w.fails connect) [
      | some e ↦ (ok (ok max_count), s)
      | none ↦ check_then_increment w key max_count window_secs s
    ]

unfoldable pub check_and_increment_strict :
    World → Bool → String → ℕ → ℕ → Redis → Result String (Result ℕ ℕ) × Redis
unfolding check_then_increment
check_and_increment_strict w bypass key max_count window_secs s =
    if bypass then (ok (ok u64_max), s) else elim (w.fails connect) [
      | some e ↦ (err e, s)
      | none ↦ check_then_increment w key max_count window_secs s
    ]

unfoldable pub get_count : World → Bool → String → Redis → Result String ℕ
get_count w bypass key s = if bypass then ok 0 else elim (w.fails connect) [
  | some e ↦ ok 0
  | none ↦ elim (w.fails get) [ some e ↦ err e | none ↦ ok (count_of (live w.now key s)) ]
]

-- ===== src/Limiter.antt =====
-- The rate limiter in memory (src/api/src/middleware/rate_limit.rs). Times are whole seconds.
pub mod Window
mod Tests
use arsivinyo_memegy_backend.Base.{
  ℕ, suc, ◌+◌, ◌-◌, ◌*◌, String, Bool, true, false, List, [], ◌∷◌, Option, none, some, Result, ok,
  err, str_eq, ltb, leb, unwrap_or, if◌then◌else◌,
}

-- The attempts of a key in its window, and the window's start.
pub record RateLimiter : Type 0 where
  pub attempts : String → Option (ℕ × ℕ)
  pub max_attempts : ℕ
  pub window_duration : ℕ

unfoldable pub new_limiter : ℕ → ℕ → RateLimiter
new_limiter max_attempts window_seconds = record {
  attempts = λ key. none;
  max_attempts = max_attempts;
  window_duration = window_seconds;
}

abbrev pub put_attempts : String → ℕ × ℕ → RateLimiter → RateLimiter
put_attempts key entry l = record l {
  attempts = λ k. if str_eq k key then some entry else l.attempts k;
}

-- A window that has expired begins anew.
unfoldable pub reset_if_expired : ℕ → ℕ → ℕ × ℕ → ℕ × ℕ
reset_if_expired now window (count, start) =
    if ltb window (now - start) then (0, now) else (count, start)

unfoldable pub count_attempt : String → ℕ × ℕ → RateLimiter → Result String (Unit {0}) × RateLimiter
count_attempt key (count, start) l =
    if leb l.max_attempts count
    then (err "Rate limit exceeded", put_attempts key (count, start) l)
    else (ok tt, put_attempts key (suc count, start) l)

unfoldable pub check_rate_limit : ℕ → String → RateLimiter → Result String (Unit {0}) × RateLimiter
unfolding reset_if_expired count_attempt
check_rate_limit now key l =
    count_attempt key (reset_if_expired now l.window_duration (unwrap_or (l.attempts key) (0, now)))
      l

abbrev pub retained : ℕ → ℕ → Option (ℕ × ℕ) → Option (ℕ × ℕ)
retained now window none = none
retained now window (some (count, start)) =
    if ltb (now - start) (window * 2) then some (count, start) else none

unfoldable pub cleanup : ℕ → RateLimiter → RateLimiter
cleanup now l = record l { attempts = λ k. retained now l.window_duration (l.attempts k) }

-- ===== src/Limiter/Window.antt =====
-- How many attempts a window lets pass (src/api/src/middleware/rate_limit.rs).
use arsivinyo_memegy_backend.Base.{
  ℕ, suc, ◌+◌, ◌-◌, ◌*◌, ◌≤◌, ◌<◌, ◌≡◌, refl, ap, sym, ◌∙◌, subst, eq_iff, ◌⊎◌, inl, inr, String,
  Bool, true, false, List, [], ◌∷◌, none, some, Result, str_eq, str_eq_refl, ltb, leb, unwrap_or,
  is_ok, if◌then◌else◌, arith, All, Bool-cases,
}
use arsivinyo_memegy_backend.Limiter.{
  RateLimiter, new_limiter, reset_if_expired, count_attempt, check_rate_limit, cleanup,
}

-- What happens to the limiter, with the time.
pub data Event : Type 0 where
  attempt : ℕ → String → Event
  cleaned : ℕ → Event

abbrev pub time : Event → ℕ
time (attempt now key) = now
time (cleaned now) = now

abbrev pub after_event : Event → RateLimiter → RateLimiter
after_event (attempt now key) l = (check_rate_limit now key l).1
after_event (cleaned now) l = cleanup now l

-- Whether the event is an attempt of the key that passes.
abbrev pub passes : String → Event → RateLimiter → Bool
passes k (attempt now key) l =
    if str_eq k key then is_ok ((check_rate_limit now key l).0) else false
passes k (cleaned now) l = false

-- The attempts of the key that pass.
abbrev pub passed : String → List Event → RateLimiter → ℕ
passed k [] l = 0
passed k (e ∷ es) l =
    let rest = passed k es (after_event e l) in if passes k e l then suc rest else rest

module _ (k : String) (begin max window : ℕ) where
  -- The key has had `count` attempts at most in a window that began late enough.
  record Counts (count : ℕ) (l : RateLimiter) : Type 0 where
    limit : l.max_attempts ≡ max
    window_is : l.window_duration ≡ window
    small : count ≤ max
    entry :
        ((l.attempts k ≡ none) × (count ≡ 0))
        ⊎ ((start : ℕ) × (l.attempts k ≡ some (count, start)) × (begin ≤ start))

  -- The event lies in the window.
  abbrev pub InWindow : Event → Type 0
  InWindow e = (begin ≤ time e) × (time e ≤ begin + window)

  not_expired :
      (now start count : ℕ)
      → now ≤ begin + window
      → begin ≤ start
      → reset_if_expired now window (count, start) ≡ (count, start)
  unfolding reset_if_expired
  not_expired now start count to late =
      let keeps : ltb window (now - start) ≡ false = ground arith in rw keeps refl

  -- The entry that an attempt counts on.
  counted_entry :
      (now count : ℕ) (l : RateLimiter)
      → Counts count l
      → begin ≤ now
      → now ≤ begin + window
      → (start : ℕ) × (check_rate_limit now k l ≡ count_attempt k (count, start) l)
        × (begin ≤ start)
  unfolding check_rate_limit
  counted_entry now count l h from to = elim h.entry [
    | inl (missing, zero_count) ↦ (
      now,
      ap count_on (ap (λ o. unwrap_or o (0, now)) missing ∙ ap (λ c. (c, now)) (sym zero_count))
          ∙ kept now from,
      from,
    )
    | inr (start, found, late) ↦
        (start, ap count_on (ap (λ o. unwrap_or o (0, now)) found) ∙ kept start late, late)
  ]
    where
      count_on : ℕ × ℕ → Result String (Unit {0}) × RateLimiter
      count_on e = count_attempt k (reset_if_expired now l.window_duration e) l

      kept :
          (start : ℕ) → begin ≤ start → count_on (count, start) ≡ count_attempt k (count, start) l
      kept start late =
          ap (λ d. count_attempt k (reset_if_expired now d (count, start)) l) (h.window_is)
          ∙ ap (λ e. count_attempt k e l) (not_expired now start count to late)

  count_attempt-Counts :
      (count start : ℕ) (l : RateLimiter)
      → Counts count l
      → begin ≤ start
      → ((is_ok (count_attempt k (count, start) l).0 ≡ true)
          × Counts (suc count) (count_attempt k (count, start) l).1)
        ⊎ ((is_ok (count_attempt k (count, start) l).0 ≡ false)
            × Counts count (count_attempt k (count, start) l).1)
  unfolding count_attempt
  count_attempt-Counts count start l h late = elim (Bool-cases (leb l.max_attempts count)) [
    | inl full ↦ inr (
      rw full refl,
      rw full (record {
        limit = h.limit;
        window_is = h.window_is;
        small = h.small;
        entry = inr (start, rw (str_eq_refl k) refl, late);
      }),
    )
    | inr room ↦ inl (
      rw room refl,
      rw room (record {
        limit = h.limit;
        window_is = h.window_is;
        small = ground (arith, h.limit, room);
        entry = inr (start, rw (str_eq_refl k) refl, late);
      }),
    )
  ]

  -- One attempt of the key, from what its entry counts.
  attempt-Counts :
      (now count : ℕ) (l : RateLimiter)
      → Counts count l
      → begin ≤ now
      → now ≤ begin + window
      → ((is_ok (check_rate_limit now k l).0 ≡ true)
          × Counts (suc count) (check_rate_limit now k l).1)
        ⊎ ((is_ok (check_rate_limit now k l).0 ≡ false) × Counts count (check_rate_limit now k l).1)
  attempt-Counts now count l h from to =
      let (start, same, late) = counted_entry now count l h from to in
      rw same (count_attempt-Counts count start l h late)

  other_entry :
      (key : String) (entry : ℕ × ℕ) (l : RateLimiter) (count : ℕ)
      → Counts count l
      → str_eq k key ≡ false
      → Counts count (count_attempt key entry l).1
  unfolding count_attempt
  other_entry key (c, start) l count h other = elim (Bool-cases (leb l.max_attempts c)) [
    | inl full ↦ rw full (record {
      limit = h.limit;
      window_is = h.window_is;
      small = h.small;
      entry = rw other h.entry;
    })
    | inr room ↦ rw room (record {
      limit = h.limit;
      window_is = h.window_is;
      small = h.small;
      entry = rw other h.entry;
    })
  ]

  other-Counts :
      (now count : ℕ) (key : String) (l : RateLimiter)
      → Counts count l
      → str_eq k key ≡ false
      → Counts count (after_event (attempt now key) l)
  unfolding check_rate_limit
  other-Counts now count key l h other = other_entry key _ l count h other

  cleaned-Counts :
      (now count : ℕ) (l : RateLimiter)
      → Counts count l
      → 0 < window
      → begin ≤ now
      → now ≤ begin + window
      → Counts count (after_event (cleaned now) l)
  unfolding cleanup
  cleaned-Counts now count l h long from to = record {
    limit = h.limit;
    window_is = h.window_is;
    small = h.small;
    entry = elim h.entry [
      | inl (missing, zero_count) ↦ inl (rw missing refl, zero_count)
      | inr (start, found, late) ↦
          let kept : ltb (now - start) (window * 2) ≡ true = ground arith in
          inr (start, rw found (rw (h.window_is) (rw kept refl)), late)
    ];
  }

  passed-Counts :
      (events : List Event) (count : ℕ) (l : RateLimiter)
      → Counts count l
      → 0 < window
      → All InWindow events
      → passed k events l + count ≤ max
  passed-Counts [] count l h long all = omega (arith, h.small)
  passed-Counts (cleaned now ∷ es) count l h long all =
      passed-Counts es count _ (cleaned-Counts now count l h long all.0.0 all.0.1) long all.1
  passed-Counts (attempt now key ∷ es) count l h long all = elim (Bool-cases (str_eq k key)) [
    | inr other ↦
        rw other (passed-Counts es count _ (other-Counts now count key l h other) long all.1)
    | inl same ↦
        subst (λ other. passed k (attempt now other ∷ es) l + count ≤ max) ((eq_iff k key).0 same)
          (elim (attempt-Counts now count l h all.0.0 all.0.1) [
            | inl (good, c) ↦
                let rest = passed-Counts es (suc count) _ c long all.1 in
                rw (str_eq_refl k) (rw good (omega (arith, rest)))
            | inr (full, c) ↦
                let rest = passed-Counts es count _ c long all.1 in
                rw (str_eq_refl k) (rw full rest)
          ])
  ]

-- A key is let pass at most the configured number of times in one window: of any attempts of any keys
-- and cleanups of a new limiter, all within one window, which is not empty.
pub new_limiter-passed :
    (k : String) (begin max window : ℕ) (events : List Event)
    → 0 < window
    → All (InWindow k begin max window) events
    → passed k events (new_limiter max window) ≤ max
unfolding new_limiter
new_limiter-passed k begin max window events long all =
    let start : Counts k begin max window 0 (new_limiter max window) = record {
      limit = refl;
      window_is = refl;
      small = omega arith;
      entry = inl (refl, refl);
    } in
    omega (arith, passed-Counts k begin max window events 0 (new_limiter max window) start long all)

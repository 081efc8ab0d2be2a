-- ===== src/Counters/Stuck.antt =====
-- A counter whose expiry could not be set (src/api/src/services/rate_limiter.rs: check_and_increment).
use arsivinyo_memegy_backend.Base.{
  ℕ, ◌+◌, ◌≤◌, ◌<◌, ◌≡◌, refl, ap, inl, inr, String, true, false, List, [], ◌∷◌, Option, none, some,
  Result, ok, err, ◌==◌, leb, str_eq_refl, arith, Bool-cases, Option-cases,
}
use arsivinyo_memegy_backend.Counters.{
  Counter, Redis, connect, get, incr, expire, World, unexpired, live, put_counter, count_of,
  incremented, incr_key, incr_and_expire, with_remaining, check_then_increment, check_and_increment,
}

-- The key has a counter that never expires.
pub record IsLasting (key : String) (s : Redis) : Type 0 where
  pub counter : Counter
  pub stored : s.counters key ≡ some counter
  pub lasts : counter.expires_at ≡ none
  pub counted : 1 ≤ counter.count

module _ (key : String) where
  live_lasting : (t : ℕ) (s : Redis) (h : IsLasting key s) → live t key s ≡ some h.counter
  live_lasting t s h = rw (h.stored) (rw (h.lasts) refl)

  incr_and_expire-IsLasting :
      (w : World) (window : ℕ) (s : Redis)
      → IsLasting key s
      → IsLasting key (incr_and_expire w key 1 window s).1
  unfolding incr_and_expire incr_key
  incr_and_expire-IsLasting w window s h =
      let now_live = live_lasting w.now s h in
      let grown : Counter = record h.counter { count = h.counter.count + 1 } in
      let after : IsLasting key (put_counter key grown s) = record {
        counter = grown;
        stored = rw (str_eq_refl key) refl;
        lasts = h.lasts;
        counted = omega arith;
      } in
      let not_first : h.counter.count + 1 == 1 ≡ false = let c = h.counted in ground arith in
      elim (Option-cases (w.fails incr)) [
        | inr (e, failed) ↦ rw (failed, incr_and_expire) h
        | inl works ↦ rw (works, incr_and_expire) (rw now_live (rw not_first after))
      ]

  check-IsLasting :
      (w : World) (max window : ℕ) (s : Redis)
      → IsLasting key s
      → IsLasting key (check_and_increment w false key max window s).1
  unfolding check_and_increment check_then_increment
  check-IsLasting w max window s h = elim (Option-cases (w.fails connect)) [
    | inr (e, failed) ↦ rw (failed, check_and_increment) h
    | inl works ↦
        rw (works, check_and_increment)
          (elim (Option-cases (w.fails get)) [
            | inr (e, failed) ↦ rw (failed, check_then_increment) h
            | inl gets ↦
                rw (gets, check_then_increment)
                  (elim (Bool-cases (leb max (count_of (live w.now key s)))) [
                    | inl full ↦ rw full h
                    | inr room ↦ rw room (
                        remaining (incr_and_expire w key 1 window s)
                          (incr_and_expire-IsLasting w window s h))
                  ])
          ])
  ]
    where
      remaining :
          (r : Result String ℕ × Redis) → IsLasting key r.1 → IsLasting key (with_remaining max r).1
      remaining (ok n, t) k = k
      remaining (err e, t) k = k

  abbrev pub after_checks : ℕ → ℕ → List World → Redis → Redis
  after_checks max window [] s = s
  after_checks max window (w ∷ ws) s =
      after_checks max window ws (check_and_increment w false key max window s).1

  checks-IsLasting :
      (max window : ℕ) (ws : List World) (s : Redis)
      → IsLasting key s
      → IsLasting key (after_checks max window ws s)
  checks-IsLasting max window [] s h = h
  checks-IsLasting max window (w ∷ ws) s h =
      checks-IsLasting max window ws _ (check-IsLasting w max window s h)

  first_failed :
      (w : World) (e : String) (window : ℕ) (s : Redis)
      → s.counters key ≡ none
      → w.fails incr ≡ none
      → w.fails expire ≡ some e
      → incr_and_expire w key 1 window s
        ≡ (err e, put_counter key (record { count = 1; expires_at = none }) s)
  unfolding incr_and_expire incr_key
  first_failed w e window s missing counts fails =
      let now_live : live w.now key s ≡ none = rw missing refl in
      rw (counts, incr_and_expire)
        (rw now_live (
          rw fails (
            ap
              (λ (o : Option Counter).
                (err e, put_counter key (incremented 1 (unexpired w.now o)) s))
              missing)))

  -- When EXPIRE fails on the first attempt of a key, the counter never expires again, whatever attempts
  -- follow and whenever they come.
  pub expire_failed-IsLasting :
      (w : World) (e : String) (max window : ℕ) (ws : List World) (s : Redis)
      → s.counters key ≡ none
      → 0 < max
      → w.fails connect ≡ none
      → w.fails get ≡ none
      → w.fails incr ≡ none
      → w.fails expire ≡ some e
      → IsLasting key (after_checks max window ws (check_and_increment w false key max window s).1)
  unfolding check_and_increment check_then_increment incr_and_expire incr_key
  expire_failed-IsLasting w e max window ws s missing positive up reads counts fails =
      let room : leb max 0 ≡ false = ground arith in
      checks-IsLasting max window ws _ (
        rw (up, check_and_increment)
          (rw (reads, check_then_increment)
            (rw missing (
              rw room (
                rw (first_failed w e window s missing counts fails) (record {
                  counter = record { count = 1; expires_at = none };
                  stored = rw (str_eq_refl key) refl;
                  lasts = refl;
                  counted = omega arith;
                }))))))

-- A counter without expiry that has reached the limit refuses every attempt, at any time.
pub lasting_refuses :
    (key : String) (w : World) (max window : ℕ) (s : Redis) (h : IsLasting key s)
    → max ≤ h.counter.count
    → w.fails connect ≡ none
    → w.fails get ≡ none
    → check_and_increment w false key max window s ≡ (ok (err h.counter.count), s)
unfolding check_and_increment check_then_increment
lasting_refuses key w max window s h full up reads =
    let over : leb max h.counter.count ≡ true = ground arith in
    rw (up, check_and_increment)
      (rw (reads, check_then_increment) (rw (live_lasting key w.now s h) (rw over refl)))

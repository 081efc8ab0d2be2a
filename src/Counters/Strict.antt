-- ===== src/Counters/Strict.antt =====
-- How many attempts the strict limiter lets pass, whatever calls of Redis fail
-- (src/api/src/services/rate_limiter.rs: check_and_increment_strict).
use arsivinyo_memegy_backend.Base.{
  ℕ, suc, ◌+◌, ◌≤◌, ◌<◌, ◌≡◌, refl, sym, ◌∙◌, subst, ◌⊎◌, inl, inr, String, Bool, true, false, List,
  [], ◌∷◌, none, some, Result, ok, err, ◌==◌, leb, str_eq, str_eq_refl, if◌then◌else◌, arith, All,
  Bool-cases, Option-cases,
}
use arsivinyo_memegy_backend.Counters.{
  Counter, Redis, connect, get, incr, expire, World, has_expired, live, put_counter, count_of,
  incremented, incr_key, expire_key, incr_and_expire, with_remaining, check_then_increment,
  check_and_increment_strict,
}

abbrev pub is_pass : Result String (Result ℕ ℕ) → Bool
is_pass (ok (ok n)) = true
is_pass (ok (err n)) = false
is_pass (err e) = false

-- The counter of the key has counted at least the attempts that passed, which are no more than the
-- limit, and does not expire before the end.
record Counts (key : String) (max end passes : ℕ) (s : Redis) : Type 0 where
  enough : passes ≤ count_of (s.counters key)
  small : passes ≤ max
  fresh :
      (c : Counter) (t : ℕ) → s.counters key ≡ some c → t < end → has_expired t c.expires_at ≡ false

module _ (key : String) (max end passes : ℕ) where
  live_same :
      (s : Redis) (t : ℕ) → Counts key max end passes s → t < end → live t key s ≡ s.counters key
  live_same s t h before = elim (Option-cases (s.counters key)) [
    | inl missing ↦ rw missing refl
    | inr (c, found) ↦ let f = h.fresh c t found before in rw found (rw f refl)
  ]

  -- One more attempt is counted.
  put-Counts :
      (s : Redis)
      → Counts key max end passes s
      → count_of (s.counters key) < max
      → Counts key max end (suc passes) (put_counter key (incremented 1 (s.counters key)) s)
  put-Counts s h below = record {
    enough = rw (str_eq_refl key) (elim (Option-cases (s.counters key)) [
      | inl missing ↦ let e = h.enough in ground (arith, missing)
      | inr (c, found) ↦ let e = h.enough in ground (arith, found)
    ]);
    small = let e = h.enough in omega arith;
    fresh = λ c t found before. elim (Option-cases (s.counters key)) [
      | inl missing ↦ ground (arith, missing, str_eq_refl key)
      | inr (d, there) ↦
          let f = h.fresh d t there before in ground (arith, there, f, str_eq_refl key)
    ];
  }

expire-Counts :
    (key : String) (max end passes now window : ℕ) (s : Redis)
    → Counts key max end passes s
    → now < end
    → end ≤ now + window
    → Counts key max end passes (expire_key now key window s)
unfolding expire_key
expire-Counts key max end passes now window s h before long =
    let same = live_same key max end passes s now h before in
    record {
      enough = rw (str_eq_refl key) (elim (Option-cases (s.counters key)) [
        | inl missing ↦ let e = h.enough in ground (arith, missing)
        | inr (c, found) ↦
            let e = h.enough in let f = h.fresh c now found before in ground (arith, found, f)
      ]);
      small = h.small;
      fresh = λ c t found earlier. elim (Option-cases (s.counters key)) [
        | inl missing ↦ ground (arith, missing, str_eq_refl key)
        | inr (d, there) ↦
            let f = h.fresh d now there before in ground (arith, there, f, str_eq_refl key)
      ];
    }

-- What an attempt of the key came to.
abbrev Outcome : String → ℕ → ℕ → ℕ → Result String (Result ℕ ℕ) × Redis → Type 0
Outcome key max end passes r =
    ((is_pass r.0 ≡ true) × Counts key max end (suc passes) r.1)
    ⊎ ((is_pass r.0 ≡ false) × Counts key max end passes r.1)

weaker :
    (key : String) (max end passes : ℕ) (s : Redis)
    → Counts key max end (suc passes) s
    → Counts key max end passes s
weaker key max end passes s h = record {
  enough = omega (arith, h.enough);
  small = omega (arith, h.small);
  fresh = h.fresh;
}

module _ (w : World) (key : String) (max window end passes : ℕ) (s : Redis) where
  after_incr : Redis
  after_incr = (incr_key w.now key 1 s).1

  incr-Counts :
      Counts key max end passes s
      → w.now < end
      → count_of (s.counters key) < max
      → Counts key max end (suc passes) after_incr
  unfolding after_incr incr_key
  incr-Counts h before below =
      rw (live_same key max end passes s w.now h before) (put-Counts key max end passes s h below)

  incr_and_expire-Outcome :
      Counts key max end passes s
      → w.now < end
      → end ≤ w.now + window
      → count_of (s.counters key) < max
      → Outcome key max end passes (with_remaining max (incr_and_expire w key 1 window s))
  unfolding incr_and_expire
  incr_and_expire-Outcome h before long below =
      let counted : Counts key max end (suc passes) ((incr_key w.now key 1 s).1) =
        unfold after_incr in incr-Counts h before below in
      elim (Option-cases (w.fails incr)) [
        | inr (e, failed) ↦ rw (failed, incr_and_expire) (inr (refl, h))
        | inl works ↦ elim (Bool-cases ((incr_key w.now key 1 s).0 == 1)) [
          | inr old ↦ rw (works, incr_and_expire) (rw old (inl (refl, counted)))
          | inl new ↦ elim (Option-cases (w.fails expire)) [
            | inr (e, failed) ↦
                rw (works, incr_and_expire)
                  (rw new (rw failed (inr (refl, weaker key max end passes _ counted))))
            | inl sets ↦
                rw (works, incr_and_expire)
                  (rw new (
                    rw sets (
                      inl (
                        refl,
                        expire-Counts key max end (suc passes) w.now window _ counted before long,
                      ))))
          ]
        ]
      ]

  check-Outcome :
      Counts key max end passes s
      → w.now < end
      → end ≤ w.now + window
      → Outcome key max end passes (check_then_increment w key max window s)
  unfolding check_then_increment
  check-Outcome h before long =
      let same = live_same key max end passes s w.now h before in
      elim (Option-cases (w.fails get)) [
        | inr (e, failed) ↦ rw (failed, check_then_increment) (inr (refl, h))
        | inl works ↦ elim (Bool-cases (leb max (count_of (s.counters key)))) [
          | inl full ↦ rw (works, check_then_increment) (rw same (rw full (inr (refl, h))))
          | inr room ↦
              rw (works, check_then_increment)
                (rw same (rw room (incr_and_expire-Outcome h before long (ground (arith, room)))))
        ]
      ]

  strict-Outcome :
      Counts key max end passes s
      → w.now < end
      → end ≤ w.now + window
      → Outcome key max end passes (check_and_increment_strict w false key max window s)
  unfolding check_and_increment_strict
  strict-Outcome h before long = elim (Option-cases (w.fails connect)) [
    | inr (e, failed) ↦ rw (failed, check_and_increment_strict) (inr (refl, h))
    | inl works ↦ rw (works, check_and_increment_strict) (check-Outcome h before long)
  ]

-- An attempt of the key, or of another key with a limit and a window of its own.
pub data Attempt : Type 0 where
  own : World → Attempt
  other : World → String → ℕ → ℕ → Attempt

module _ (key : String) (max window : ℕ) where
  abbrev pub attempt : Attempt → Redis → Result String (Result ℕ ℕ) × Redis
  attempt (own w) s = check_and_increment_strict w false key max window s
  attempt (other w k m d) s = check_and_increment_strict w false k m d s

  -- How many attempts of the key pass, in the order of the list.
  abbrev pub passed : List Attempt → Redis → ℕ
  passed [] s = 0
  passed (own w ∷ attempts) s =
      let rest = passed attempts (attempt (own w) s).1 in
      if is_pass (attempt (own w) s).0 then suc rest else rest
  passed (other w k m d ∷ attempts) s = passed attempts (attempt (other w k m d) s).1

  abbrev pub InWindow : ℕ → Attempt → Type 0
  InWindow begin (own w) = (begin ≤ w.now) × (w.now < begin + window)
  InWindow begin (other w k m d) = str_eq key k ≡ false

  other_counter :
      (w : World) (k : String) (m d : ℕ) (s : Redis)
      → str_eq key k ≡ false
      → (check_and_increment_strict w false k m d s).1.counters key ≡ s.counters key
  unfolding check_and_increment_strict check_then_increment incr_and_expire incr_key expire_key
  other_counter w k m d s h = ground arith

  passed-Counts :
      (begin passes : ℕ) (attempts : List Attempt) (s : Redis)
      → Counts key max (begin + window) passes s
      → All (InWindow begin) attempts
      → passed attempts s + passes ≤ max
  passed-Counts begin passes [] s h all = omega (arith, h.small)
  passed-Counts begin passes (own w ∷ rest_of) s h all =
      elim (strict-Outcome w key max window (begin + window) passes s h all.0.1
        (omega (arith, all.0.0))) [
          | inl (pass, more) ↦
              let rest = passed-Counts begin (suc passes) rest_of _ more all.1 in
              rw pass (omega (arith, rest))
          | inr (refused, same) ↦ rw refused (passed-Counts begin passes rest_of _ same all.1)
        ]
  passed-Counts begin passes (other w k m d ∷ rest_of) s h all =
      let same = other_counter w k m d s all.0 in
      passed-Counts begin passes rest_of _
        (record {
          enough = subst (λ o. passes ≤ count_of o) (sym same) h.enough;
          small = h.small;
          fresh = λ c t e before. h.fresh c t (sym same ∙ e) before;
        })
        all.1

  -- From a state where the key has no counter, in any order of attempts of this and of other keys, at
  -- times within one window, and whatever calls of Redis fail: the key passes at most as often as its
  -- limit.
  pub strict-passed :
      (begin : ℕ) (attempts : List Attempt) (s : Redis)
      → s.counters key ≡ none
      → All (InWindow begin) attempts
      → passed attempts s ≤ max
  strict-passed begin attempts s missing all =
      let start : Counts key max (begin + window) 0 s = record {
        enough = omega arith;
        small = omega arith;
        fresh = λ c t found before. let clash : none ≡ some c = sym missing ∙ found in cc clash;
      } in
      omega (arith, passed-Counts begin 0 attempts s start all)

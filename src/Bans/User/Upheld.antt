-- ===== src/Bans/User/Upheld.antt =====
-- A ban of a user, upheld over any checks that follow it
-- (src/api/src/services/ban_service.rs: upsert_user_ban, ensure_user_not_banned).
use arsivinyo_memegy_backend.Base.{
  ℕ, ◌≡◌, refl, ap, sym, ◌∙◌, subst, ◌⊎◌, inl, inr, String, Bool, true, List, [], ◌∷◌, Option, none,
  some, Result, ok, err, ◌==◌, ◌+◌, max, ==_refl, keep, any, arith, ltb, All, Bool-cases,
  Option-cases,
}
use arsivinyo_memegy_backend.Bans.Rows.{latest-keep, latest-any, any-keep, any-put, any-append-new}
use arsivinyo_memegy_backend.Bans.Store.{
  UserBan, BanEnforcementError, banned_error, unavailable, BanCacheEntry, CacheKey, user_cache_key,
  key_eq_refl, Item, State, Call, find_ban, write_ban, Config, World, read_key, write_key,
  active_ttl, cached, read_cache_entry, write_cache_entry, cache_entry_is_expired, is_running,
  banned_entry, put_key,
}
use arsivinyo_memegy_backend.Bans.User.{
  is_open, is_active, query_open_user_ban, after_read, is_user_banned_internal, enforce,
  ensure_user_not_banned, renewed_ban, new_ban, write_user_ban, cached_ban, upsert_user_ban,
}
use arsivinyo_memegy_backend.Bans.User.Enforced.{
  IsBanned, IsBanned-ask_table, IsBanned-delete, Denied, Denied-after_read,
}

pub cached-some :
    (now : ℕ) (key : CacheKey) (s : State) (entry : BanCacheEntry)
    → cached now key s ≡ some entry
    → (item : Item) × (s.cache key ≡ some item) × (item.entry ≡ entry)
unfolding cached
cached-some now key s entry e = elim (Option-cases (s.cache key)) [
  | inl nothing ↦ ground (arith, nothing)
  | inr (item, here) ↦ (
    item,
    here,
    elim (Bool-cases (ltb now item.dropped_at)) [
      | inl live ↦ ground (arith, here, live)
      | inr dead ↦ ground (arith, here, dead)
    ],
  )
]

module _ (config : Config) (user : ℕ) (until : Option ℕ) where
  Denied-check :
      (w : World) (s : State)
      → IsBanned user until s
      → is_running w.now until ≡ true
      → Denied w (is_user_banned_internal w config user s).0
  unfolding is_user_banned_internal read_cache_entry
  Denied-check w s h running = elim (Option-cases (w.fails (read_key (user_cache_key user)))) [
    | inr (e, fails) ↦ inr (
      read_key (user_cache_key user),
      e,
      fails,
      rw (fails, is_user_banned_internal, read_cache_entry, after_read) refl,
    )
    | inl works ↦
        rw (works, read_cache_entry)
          ((Denied-after_read w config user until s (cached w.now (user_cache_key user) s) h running
            λ entry e.
              let found = cached-some w.now (user_cache_key user) s entry e in
              subst (λ x. x.banned ≡ true) found.2 (h.agrees found.0 found.1)).0)
  ]

  IsBanned-after_read :
      (w : World) (u : ℕ) (s : State) (r : Result String (Option BanCacheEntry))
      → IsBanned user until s
      → is_running w.now until ≡ true
      → IsBanned user until (after_read w config u s r).1
  unfolding after_read
  IsBanned-after_read w u s (err e) h running = h
  IsBanned-after_read w u s (ok none) h running =
      IsBanned-ask_table user until s w config u h running
  IsBanned-after_read w u s (ok (some entry)) h running =
      elim (Bool-cases (cache_entry_is_expired w.now entry)) [
        | inl old ↦ rw old (
            IsBanned-ask_table user until _ w config u
              (IsBanned-delete user until s w (user_cache_key u) h) running)
        | inr fresh ↦ rw fresh h
      ]

  -- The state after checks of users, each with the clock and the failures of its time.
  abbrev pub after_checks : List (World × ℕ) → State → State
  after_checks [] s = s
  after_checks (c ∷ cs) s = after_checks cs (ensure_user_not_banned c.0 config c.1 s).1

  IsBanned-after_checks :
      (checks : List (World × ℕ)) (s : State)
      → IsBanned user until s
      → All (λ c. is_running c.0.now until ≡ true) checks
      → IsBanned user until (after_checks checks s)
  unfolding ensure_user_not_banned is_user_banned_internal
  IsBanned-after_checks [] s h running = h
  IsBanned-after_checks (c ∷ cs) s h running =
      IsBanned-after_checks cs _
        (IsBanned-after_read c.0 c.1 s (read_cache_entry c.0 (user_cache_key c.1) s) h running.0)
        running.1

-- The user is refused: as banned, or because a call failed.
abbrev pub Refused : World → Result BanEnforcementError (Unit {0}) → Type 0
Refused w r =
    (r ≡ err banned_error)
    ⊎ ((r ≡ err unavailable) × ((c : Call) × (e : String) × (w.fails c ≡ some e)))

pub Refused-enforce : (w : World) (r : Result String Bool) → Denied w r → Refused w (enforce r)
Refused-enforce w r (inl banned) = inl (ap enforce banned)
Refused-enforce w r (inr (c, e, fails, failed)) = inr (ap enforce failed, (c, e, fails))

module _ (w : World) (user : ℕ) (until : Option ℕ) (reason : Option String) (actor : String)
    (s : State) where
  open_id-any :
      (row : UserBan)
      → query_open_user_ban user s.user_bans ≡ some row
      → any (λ x. x.id == row.id) s.user_bans ≡ true
  unfolding query_open_user_ban
  open_id-any row e =
      any-keep (is_open user) (λ x. x.id == row.id) s.user_bans
        (latest-any (λ b. b.created_at) (λ x. x.id == row.id) (keep (is_open user) s.user_bans) row
          e (==_refl row.id))

  open_user :
      (row : UserBan)
      → query_open_user_ban user s.user_bans ≡ some row
      → (row.user_id == user) ≡ true
  unfolding query_open_user_ban is_open
  open_user row e =
      let good = latest-keep (λ b. b.created_at) (is_open user) s.user_bans row e in
      ground (arith, good)

  written_active :
      (o : Option UserBan) (now : ℕ)
      → query_open_user_ban user s.user_bans ≡ o
      → is_running now until ≡ true
      → any (is_active now user) (write_user_ban w user until reason actor o s.user_bans).1 ≡ true
  unfolding write_user_ban is_active is_open renewed_ban new_ban
  written_active none now e running =
      any-append-new (is_active now user) _ s.user_bans (rw (==_refl user) running)
  written_active (some row) now e running =
      any-put (λ x. x.id) (renewed_ban w user until reason actor row) (is_active now user)
        s.user_bans (open_id-any row e) (rw (open_user row e) running)

  written_until :
      (o : Option UserBan)
      → (write_user_ban w user until reason actor o s.user_bans).0.banned_until ≡ until
  unfolding write_user_ban renewed_ban new_ban
  written_until none = refl
  written_until (some row) = refl

  cached_ban-IsBanned :
      (b : UserBan) (t : State) (r : Result String State) (ban : UserBan) (s' : State)
      → ((u : State) → r ≡ ok u → IsBanned user until u)
      → cached_ban b t r ≡ (ok ban, s')
      → IsBanned user until s'
  cached_ban-IsBanned b t (ok u) ban s' good e =
      subst (IsBanned user until) (ap (λ x. x.1) e) (good u refl)
  cached_ban-IsBanned b t (err x) ban s' good e =
      let failed : err x ≡ ok ban = ap (λ x. x.0) e in cc failed

  write-IsBanned :
      (t : State) (o : Option ℕ) (ttl : ℕ) (u : State)
      → ((now : ℕ) → is_running now until ≡ true → any (is_active now user) t.user_bans ≡ true)
      → write_cache_entry w (user_cache_key user) (banned_entry o) ttl t ≡ ok u
      → IsBanned user until u
  unfolding write_cache_entry
  write-IsBanned t o ttl u stored e =
      elim (Option-cases (w.fails (write_key (user_cache_key user)))) [
        | inr (x, fails) ↦ let clash : err x ≡ ok u = ground (arith, e, fails) in cc clash
        | inl works ↦
            let it : Item = record { entry = banned_entry o; dropped_at = w.now + max ttl 1 } in
            let same : put_key (user_cache_key user) (some it) t ≡ u = ground (arith, e, works) in
            subst (IsBanned user until) same (record {
              agrees = λ item found. ground (arith, key_eq_refl (user_cache_key user));
              stored = stored;
            })
      ]

  -- A write of the two that succeed, and of the two that do not.
  upsert-cases :
      (config : Config)
      → let written =
          write_user_ban w user until reason actor
            (query_open_user_ban user s.user_bans)
            s.user_bans in
        let s' : State = record s { user_bans = written.1 } in
        ((e : String) × (upsert_user_ban w config user until reason actor s ≡ (err e, s)))
        ⊎ (upsert_user_ban w config user until reason actor s
            ≡ cached_ban written.0 s' (
                write_cache_entry w
                  (user_cache_key user)
                  (banned_entry written.0.banned_until)
                  (active_ttl w written.0.banned_until config.ban_user_cache_permanent_ttl_secs)
                  s'))
  unfolding upsert_user_ban
  upsert-cases config = elim (Option-cases (w.fails find_ban)) [
    | inr (x, fails) ↦ inl (x, rw (fails, upsert_user_ban) refl)
    | inl works ↦ elim (Option-cases (w.fails write_ban)) [
      | inr (x, fails) ↦ inl (x, rw (works, upsert_user_ban) (rw fails refl))
      | inl writes ↦ inr (rw (works, upsert_user_ban) (rw writes refl))
    ]
  ]

  upsert_user_ban-IsBanned :
      (config : Config) (ban : UserBan) (s' : State)
      → upsert_user_ban w config user until reason actor s ≡ (ok ban, s')
      → IsBanned user until s'
  upsert_user_ban-IsBanned config ban s' e = elim (upsert-cases config) [
    | inl (x, failed) ↦ let clash : err x ≡ ok ban = ap (λ r. r.0) (sym failed ∙ e) in cc clash
    | inr written ↦
        cached_ban-IsBanned _ _ _ ban s'
          (λ u write.
            write-IsBanned _ _ _ u (λ now running. written_active _ now refl running) write)
          (sym written ∙ e)
  ]

module _ (config : Config) (user : ℕ) (until : Option ℕ) where
  -- After a ban of a user, whatever users are checked and whatever fails in those checks, a check of the
  -- banned user refuses while the ban runs: as banned, or as unavailable if one of its own calls failed.
  pub upsert_user_ban-Refused :
      (w w' : World) (reason : Option String) (actor : String) (s s' : State) (ban : UserBan)
      (checks : List (World × ℕ))
      → upsert_user_ban w config user until reason actor s ≡ (ok ban, s')
      → All (λ c. is_running c.0.now until ≡ true) checks
      → is_running w'.now until ≡ true
      → Refused w'
          (ensure_user_not_banned w' config user (after_checks config user until checks s')).0
  unfolding ensure_user_not_banned
  upsert_user_ban-Refused w w' reason actor s s' ban checks e over running =
      let h = upsert_user_ban-IsBanned w user until reason actor s config ban s' e in
      Refused-enforce w' _ (
        Denied-check config user until w' _
          (IsBanned-after_checks config user until checks s' h over) running)

-- ===== src/Bans/User/Enforced.antt =====
-- A ban of a user holds (src/api/src/services/ban_service.rs: upsert_user_ban, ensure_user_not_banned).
use arsivinyo_memegy_backend.Base.{
  ℕ, ◌≡◌, refl, ap, subst, ◌⊎◌, inl, inr, String, Bool, true, Option, none, some, Result, ok, err,
  any, arith, Bool-cases, Option-cases,
}
use arsivinyo_memegy_backend.Bans.Rows.{latest-some}
use arsivinyo_memegy_backend.Bans.Store.{
  UserBan, BanCacheEntry, CacheKey, user_cache_key, key_eq, Item, State, Call, find_ban, Config,
  World, write_key, delete_key, write_cache_entry, delete_cache_key, ignoring,
  cache_entry_is_expired, is_running, put_key,
}
use arsivinyo_memegy_backend.Bans.User.{
  is_active, query_active_user_ban, remember, ask_table, after_read,
}

-- The table has a running ban of the user, and no entry of the cache says otherwise.
pub record IsBanned (user : ℕ) (until : Option ℕ) (s : State) : Type 0 where
  pub agrees : (item : Item) → s.cache (user_cache_key user) ≡ some item → item.entry.banned ≡ true
  pub stored : (now : ℕ) → is_running now until ≡ true → any (is_active now user) s.user_bans ≡ true

module _ (user : ℕ) (until : Option ℕ) (s : State) where
  pub IsBanned-put :
      (key : CacheKey) (o : Option Item)
      → IsBanned user until s
      → ((item : Item)
          → key_eq (user_cache_key user) key ≡ true
          → o ≡ some item
          → item.entry.banned ≡ true)
      → IsBanned user until (put_key key o s)
  IsBanned-put key o h new = record {
    agrees = λ item e. elim (Bool-cases (key_eq (user_cache_key user) key)) [
      | inl same ↦ new item same (ground (arith, same))
      | inr other ↦ h.agrees item (ground (arith, other))
    ];
    stored = h.stored;
  }

  IsBanned-write :
      (w : World) (key : CacheKey) (entry : BanCacheEntry) (ttl : ℕ)
      → IsBanned user until s
      → (key_eq (user_cache_key user) key ≡ true → entry.banned ≡ true)
      → IsBanned user until (ignoring s (write_cache_entry w key entry ttl s))
  unfolding write_cache_entry
  IsBanned-write w key entry ttl h new = elim (Option-cases (w.fails (write_key key))) [
    | inr (e, fails) ↦ rw (fails, ignoring, write_cache_entry) h
    | inl works ↦
        rw (works, ignoring, write_cache_entry)
          (IsBanned-put key _ h λ item same e. ground (arith, new same))
  ]

  pub IsBanned-delete :
      (w : World) (key : CacheKey)
      → IsBanned user until s
      → IsBanned user until (ignoring s (delete_cache_key w key s))
  unfolding delete_cache_key
  IsBanned-delete w key h = elim (Option-cases (w.fails (delete_key key))) [
    | inr (e, fails) ↦ rw (fails, ignoring, delete_cache_key) h
    | inl works ↦ rw (works, ignoring, delete_cache_key) (IsBanned-put key none h λ item same e. cc)
  ]

  -- The table finds the ban.
  query_running :
      (now : ℕ)
      → IsBanned user until s
      → is_running now until ≡ true
      → (b : UserBan) × (query_active_user_ban now user s.user_bans ≡ some b)
  unfolding query_active_user_ban
  query_running now h running =
      latest-some (λ b. b.created_at) (is_active now user) s.user_bans (h.stored now running)

  module _ (w : World) (config : Config) where
    IsBanned-remember :
        (u : ℕ) (o : Option UserBan)
        → IsBanned user until s
        → (user ≡ u → (b : UserBan) × (o ≡ some b))
        → IsBanned user until (remember w config u o s).1
    unfolding remember
    IsBanned-remember u (some b) h found = IsBanned-write w _ _ _ h λ same. refl
    IsBanned-remember u none h found =
        IsBanned-write w _ _ _ h λ same. let f = found (ground arith) in cc (f.1)

    pub IsBanned-ask_table :
        (u : ℕ)
        → IsBanned user until s
        → is_running w.now until ≡ true
        → IsBanned user until (ask_table w config u s).1
    unfolding ask_table
    IsBanned-ask_table u h running = elim (Option-cases (w.fails find_ban)) [
      | inr (e, fails) ↦ rw (fails, ask_table) h
      | inl works ↦
          rw (works, ask_table)
            (IsBanned-remember u _ h λ same.
              subst (λ k. (b : UserBan) × (query_active_user_ban w.now k s.user_bans ≡ some b)) same
                (query_running w.now h running))
    ]

-- The user is banned, or a call failed and its error is handed on.
abbrev pub Denied : World → Result String Bool → Type 0
Denied w r = (r ≡ ok true) ⊎ ((c : Call) × (e : String) × (w.fails c ≡ some e) × (r ≡ err e))

module _ (w : World) (config : Config) (user : ℕ) (until : Option ℕ) where
  remember-true :
      (s : State) (o : Option UserBan) (b : UserBan)
      → o ≡ some b
      → (remember w config user o s).0 ≡ true
  unfolding remember
  remember-true s (some x) b e = refl
  remember-true s none b e = cc

  Denied-ask_table :
      (s : State)
      → IsBanned user until s
      → is_running w.now until ≡ true
      → Denied w (ask_table w config user s).0
  unfolding ask_table
  Denied-ask_table s h running = elim (Option-cases (w.fails find_ban)) [
    | inr (e, fails) ↦ inr (find_ban, e, fails, rw (fails, ask_table) refl)
    | inl works ↦
        let found = query_running user until s w.now h running in
        inl (rw (works, ask_table) (ap ok (remember-true s _ found.0 found.1)))
  ]

  pub Denied-after_read :
      (s : State) (o : Option BanCacheEntry)
      → IsBanned user until s
      → is_running w.now until ≡ true
      → ((entry : BanCacheEntry) → o ≡ some entry → entry.banned ≡ true)
      → Denied w (after_read w config user s (ok o)).0
        × IsBanned user until (after_read w config user s (ok o)).1
  unfolding after_read
  Denied-after_read s none h running agrees =
      (Denied-ask_table s h running, IsBanned-ask_table user until s w config user h running)
  Denied-after_read s (some entry) h running agrees =
      elim (Bool-cases (cache_entry_is_expired w.now entry)) [
        | inl old ↦
            let h' = IsBanned-delete user until s w (user_cache_key user) h in
            rw old (
              Denied-ask_table _ h' running,
              IsBanned-ask_table user until _ w config user h' running,
            )
        | inr fresh ↦ rw fresh (inl (ap ok (agrees entry refl)), h)
      ]

-- ===== src/Bans/User.antt =====
-- The bans of users (src/api/src/services/ban_service.rs).
pub mod Enforced
pub mod Upheld
pub mod Lifted
use arsivinyo_memegy_backend.Base.{
  ℕ, max, String, Bool, true, false, not, ◌&&◌, List, [], ◌∷◌, ◌++◌, Option, none, some, Result, ok,
  err, ◌==◌, is_some, keep, if◌then◌else◌,
}
use arsivinyo_memegy_backend.Bans.Rows.{latest, put}
use arsivinyo_memegy_backend.Bans.Store.{
  UserBan, BanEnforcementError, banned_error, unavailable, BanCacheEntry, CacheKey, user_cache_key,
  State, Call, find_ban, write_ban, Config, World, active_ttl, read_cache_entry, write_cache_entry,
  delete_cache_key, ignoring, cache_entry_is_expired, is_running, banned_entry, not_banned_entry,
}

unfoldable pub is_open : ℕ → UserBan → Bool
is_open user b = b.user_id == user && not (is_some b.lifted_at)

unfoldable pub is_active : ℕ → ℕ → UserBan → Bool
unfolding is_open
is_active now user b = is_open user b && is_running now b.banned_until

unfoldable pub query_active_user_ban : ℕ → ℕ → List UserBan → Option UserBan
query_active_user_ban now user bans = latest (λ b. b.created_at) (keep (is_active now user) bans)

unfoldable pub query_open_user_ban : ℕ → List UserBan → Option UserBan
query_open_user_ban user bans = latest (λ b. b.created_at) (keep (is_open user) bans)

module _ (w : World) (config : Config) (user : ℕ) where
  -- The verdict of the table, and its entry in the cache.
  unfoldable pub remember : Option UserBan → State → Bool × State
  remember (some ban) s = (
    true,
    ignoring s (
        write_cache_entry w (user_cache_key user) (banned_entry ban.banned_until)
          (active_ttl w ban.banned_until config.ban_user_cache_permanent_ttl_secs) s),
  )
  remember none s = (
    false,
    ignoring s (
        write_cache_entry w (user_cache_key user) not_banned_entry
          (max config.ban_user_cache_negative_ttl_secs 1) s),
  )

  unfoldable pub ask_table : State → Result String Bool × State
  unfolding remember query_active_user_ban
  ask_table s = elim (w.fails find_ban) [
    | some e ↦ (err e, s)
    | none ↦ let r = remember (query_active_user_ban w.now user s.user_bans) s in (ok r.0, r.1)
  ]

  unfoldable pub after_read :
      State → Result String (Option BanCacheEntry) → Result String Bool × State
  unfolding ask_table
  after_read s (err e) = (err e, s)
  after_read s (ok none) = ask_table s
  after_read s (ok (some entry)) =
      if cache_entry_is_expired w.now entry
      then ask_table (ignoring s (delete_cache_key w (user_cache_key user) s))
      else (ok entry.banned, s)

  unfoldable pub is_user_banned_internal : State → Result String Bool × State
  unfolding after_read
  is_user_banned_internal s = after_read s (read_cache_entry w (user_cache_key user) s)

abbrev pub enforce : Result String Bool → Result BanEnforcementError (Unit {0})
enforce (ok true) = err banned_error
enforce (ok false) = ok tt
enforce (err e) = err unavailable

unfoldable pub ensure_user_not_banned :
    World → Config → ℕ → State → Result BanEnforcementError (Unit {0}) × State
unfolding is_user_banned_internal
ensure_user_not_banned w config user s =
    let r = is_user_banned_internal w config user s in (enforce r.0, r.1)

unfoldable pub get_active_user_ban : World → ℕ → State → Result String (Option UserBan)
unfolding query_active_user_ban
get_active_user_ban w user s = elim (w.fails find_ban) [
  | some e ↦ err e
  | none ↦ ok (query_active_user_ban w.now user s.user_bans)
]

module _ (w : World) (user : ℕ) (until : Option ℕ) (reason : Option String) (actor : String) where
  unfoldable pub renewed_ban : UserBan → UserBan
  renewed_ban b = record b {
    reason = reason;
    banned_until = until;
    created_by_admin_sub = actor;
    created_at = w.now;
    lifted_at = none;
    lifted_by_admin_sub = none;
    lift_reason = none;
  }

  unfoldable pub new_ban : UserBan
  new_ban = record {
    id = w.new_ban_id;
    user_id = user;
    reason = reason;
    banned_until = until;
    created_by_admin_sub = actor;
    created_at = w.now;
    lifted_at = none;
    lifted_by_admin_sub = none;
    lift_reason = none;
  }

  -- The ban written, and the table after the write.
  unfoldable pub write_user_ban : Option UserBan → List UserBan → UserBan × List UserBan
  unfolding renewed_ban new_ban
  write_user_ban (some row) bans = let b = renewed_ban row in (b, put (λ x. x.id) b bans)
  write_user_ban none bans = (new_ban, bans ++ new_ban ∷ [])

-- The answer after the cache was written: the table keeps the ban even if the cache failed.
abbrev pub cached_ban {ℓ} : {A : Type ℓ} → A → State → Result String State → Result String A × State
cached_ban a s (ok s') = (ok a, s')
cached_ban a s (err e) = (err e, s)

unfoldable pub upsert_user_ban :
    World → Config → ℕ → Option ℕ → Option String → String → State → Result String UserBan × State
unfolding write_user_ban query_open_user_ban
upsert_user_ban w config user until reason actor s = elim (w.fails find_ban) [
  | some e ↦ (err e, s)
  | none ↦ elim (w.fails write_ban) [
    | some e ↦ (err e, s)
    | none ↦
        let written =
          write_user_ban w user until reason actor (query_open_user_ban user s.user_bans)
            s.user_bans in
        let s' : State = record s { user_bans = written.1 } in
        cached_ban written.0 s' (
          write_cache_entry w (user_cache_key user) (banned_entry written.0.banned_until)
            (active_ttl w written.0.banned_until config.ban_user_cache_permanent_ttl_secs) s')
  ]
]

unfoldable pub lifted_ban : World → String → Option String → UserBan → UserBan
lifted_ban w actor lift_reason b = record b {
  lifted_at = some w.now;
  lifted_by_admin_sub = some actor;
  lift_reason = lift_reason;
}

unfoldable pub write_lift :
    World → String → Option String → Option UserBan → State → Result String (Bool × State)
unfolding lifted_ban
write_lift w actor lift_reason none s = ok (false, s)
write_lift w actor lift_reason (some row) s = elim (w.fails write_ban) [
  | some e ↦ err e
  | none ↦ ok (
    true,
    record s { user_bans = put (λ x. x.id) (lifted_ban w actor lift_reason row) s.user_bans },
  )
]

abbrev pub after_lift :
    World → ℕ → State → Result String (Bool × State) → Result String Bool × State
after_lift w user s (err e) = (err e, s)
after_lift w user s (ok (found, s')) =
    cached_ban found s' (delete_cache_key w (user_cache_key user) s')

unfoldable pub lift_user_ban :
    World → ℕ → String → Option String → State → Result String Bool × State
unfolding write_lift query_open_user_ban delete_cache_key
lift_user_ban w user actor lift_reason s = elim (w.fails find_ban) [
  | some e ↦ (err e, s)
  | none ↦
      after_lift w user s (write_lift w actor lift_reason (query_open_user_ban user s.user_bans) s)
]

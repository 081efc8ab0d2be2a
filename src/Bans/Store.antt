-- ===== src/Bans/Store.antt =====
-- The ban tables, the cache in Redis and the answers of both
-- (src/api/src/services/ban_service.rs, src/shared/src/entities/user_bans.rs, ip_bans.rs). Times are
-- whole seconds, one call reads the clock once, and the cache holds only what the service wrote.
use arsivinyo_memegy_backend.Base.{
  ℕ, ◌+◌, ◌-◌, min, max, ◌≡◌, String, Bool, true, false, not, ◌&&◌, List, Option, none, some,
  Result, ok, err, ◌==◌, ==_refl, leb, ltb, if◌then◌else◌,
}

pub data IpAddr : Type 0 where
  v4 v6 : ℕ → IpAddr

pub record UserBan : Type 0 where
  pub id : ℕ
  pub user_id : ℕ
  pub reason : Option String
  pub banned_until : Option ℕ
  pub created_by_admin_sub : String
  pub created_at : ℕ
  pub lifted_at : Option ℕ
  pub lifted_by_admin_sub : Option String
  pub lift_reason : Option String

pub record IpBan : Type 0 where
  pub id : ℕ
  pub target : String
  pub target_kind : String
  pub ip_family : ℕ
  pub cidr_prefix : Option ℕ
  pub reason : Option String
  pub banned_until : Option ℕ
  pub created_by_admin_sub : String
  pub created_at : ℕ
  pub lifted_at : Option ℕ
  pub lifted_by_admin_sub : Option String
  pub lift_reason : Option String

pub data BanEnforcementError : Type 0 where
  banned_error unavailable : BanEnforcementError

pub record BanCacheEntry : Type 0 where
  pub banned : Bool
  pub expires_at_unix : Option ℕ

-- The keys, with the version in a verdict's key.
pub data CacheKey : Type 0 where
  user_cache_key : ℕ → CacheKey
  ip_cache_key : IpAddr → CacheKey
  ip_verdict_cache_key : ℕ → IpAddr → CacheKey

abbrev pub ip_eq : IpAddr → IpAddr → Bool
ip_eq (v4 a) (v4 b) = a == b
ip_eq (v6 a) (v6 b) = a == b
ip_eq (v4 a) (v6 b) = false
ip_eq (v6 a) (v4 b) = false

abbrev pub key_eq : CacheKey → CacheKey → Bool
key_eq (user_cache_key a) (user_cache_key b) = a == b
key_eq (ip_cache_key a) (ip_cache_key b) = ip_eq a b
key_eq (ip_verdict_cache_key v a) (ip_verdict_cache_key u b) = v == u && ip_eq a b
key_eq (user_cache_key a) (ip_cache_key b) = false
key_eq (user_cache_key a) (ip_verdict_cache_key u b) = false
key_eq (ip_cache_key a) (user_cache_key b) = false
key_eq (ip_cache_key a) (ip_verdict_cache_key u b) = false
key_eq (ip_verdict_cache_key v a) (user_cache_key b) = false
key_eq (ip_verdict_cache_key v a) (ip_cache_key b) = false

ip_eq_refl : (a : IpAddr) → ip_eq a a ≡ true
ip_eq_refl (v4 a) = ==_refl a
ip_eq_refl (v6 a) = ==_refl a

pub key_eq_refl : (k : CacheKey) → key_eq k k ≡ true
key_eq_refl (user_cache_key a) = ==_refl a
key_eq_refl (ip_cache_key a) = ip_eq_refl a
key_eq_refl (ip_verdict_cache_key v a) = rw (==_refl v) (ip_eq_refl a)

-- An entry of the cache, and when Redis drops it.
pub record Item : Type 0 where
  pub entry : BanCacheEntry
  pub dropped_at : ℕ

pub record State : Type 0 where
  pub user_bans : List UserBan
  pub ip_bans : List IpBan
  pub cache : CacheKey → Option Item
  pub ip_version : Option ℕ

-- The calls of the database and of Redis.
pub data Call : Type 0 where
  find_ban find_cidr_bans write_ban read_version bump_version : Call
  read_key write_key delete_key : CacheKey → Call

pub record Config : Type 0 where
  pub ban_user_cache_negative_ttl_secs : ℕ
  pub ban_user_cache_permanent_ttl_secs : ℕ
  pub ban_ip_cache_negative_ttl_secs : ℕ
  pub ban_ip_cache_permanent_ttl_secs : ℕ
  pub ban_ip_verdict_ttl_secs : ℕ

-- `IpNet` is a library's type: a network is a number, and the fields `net_…` are its functions.
pub record World : Type 0 where
  pub now : ℕ
  pub fails : Call → Option String  -- the error, if the call fails
  pub new_ban_id : ℕ
  pub trim : String → String
  pub contains_slash : String → Bool
  pub ip_parse : String → Option IpAddr
  pub ip_to_string : IpAddr → String
  pub net_to_string : ℕ → String
  pub net_addr : ℕ → IpAddr
  pub net_prefix_len : ℕ → ℕ
  pub net_parse : String → Option ℕ
  pub net_contains : ℕ → IpAddr → Bool

infixl 5 ◌>>=◌
abbrev pub ◌>>=◌ {ℓ κ} :
    {A : Type ℓ} {B : Type κ} → Result String A → (A → Result String B) → Result String B
ok a >>= f = f a
err e >>= f = err e

abbrev pub temp_ban_cache_cap_secs : ℕ
temp_ban_cache_cap_secs = 300

unfoldable pub active_ttl : World → Option ℕ → ℕ → ℕ
active_ttl w (some until) permanent_ttl_secs = min (max (until - w.now) 1) temp_ban_cache_cap_secs
active_ttl w none permanent_ttl_secs = max permanent_ttl_secs 1

-- What Redis returns of the key.
unfoldable pub cached : ℕ → CacheKey → State → Option BanCacheEntry
cached now key s = elim (s.cache key) [
  | none ↦ none
  | some item ↦ if ltb now item.dropped_at then some item.entry else none
]

unfoldable pub read_cache_entry : World → CacheKey → State → Result String (Option BanCacheEntry)
unfolding cached
read_cache_entry w key s = elim (w.fails (read_key key)) [
  | some e ↦ err e
  | none ↦ ok (cached w.now key s)
]

abbrev pub put_key : CacheKey → Option Item → State → State
put_key key item s = record s { cache = λ k. if key_eq k key then item else s.cache k }

unfoldable pub write_cache_entry :
    World → CacheKey → BanCacheEntry → ℕ → State → Result String State
write_cache_entry w key entry ttl_secs s = elim (w.fails (write_key key)) [
  | some e ↦ err e
  | none ↦ ok (put_key key (some (record { entry = entry; dropped_at = w.now + max ttl_secs 1 })) s)
]

unfoldable pub delete_cache_key : World → CacheKey → State → Result String State
delete_cache_key w key s = elim (w.fails (delete_key key)) [
  | some e ↦ err e
  | none ↦ ok (put_key key none s)
]

-- `let _ = …`: the state after a call whose failure is dropped.
abbrev pub ignoring : State → Result String State → State
ignoring s (ok s') = s'
ignoring s (err e) = s

unfoldable pub cache_entry_is_expired : ℕ → BanCacheEntry → Bool
cache_entry_is_expired now entry =
    if not entry.banned
    then false
    else elim entry.expires_at_unix [ some ts ↦ leb ts now | none ↦ false ]

-- The filters `banned_until IS NULL OR banned_until > now` and `lifted_at IS NULL`.
abbrev pub is_running : ℕ → Option ℕ → Bool
is_running now none = true
is_running now (some until) = ltb now until

abbrev pub not_banned_entry : BanCacheEntry
not_banned_entry = record { banned = false; expires_at_unix = none }

abbrev pub banned_entry : Option ℕ → BanCacheEntry
banned_entry until = record { banned = true; expires_at_unix = until }

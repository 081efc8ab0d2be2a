-- ===== src/Bans/Ip.antt =====
-- The bans of addresses and networks (src/api/src/services/ban_service.rs).
pub mod Write
pub mod Enforced
pub mod Upheld
use arsivinyo_memegy_backend.Base.{
  ℕ, suc, max, String, Bool, true, false, not, ◌&&◌, ◌||◌, List, [], ◌∷◌, ◌++◌, Option, none, some,
  Result, ok, err, ◌==◌, str_eq, ltb, leb, is_some, keep, first, unwrap_or, option_map,
  if◌then◌else◌,
}
use arsivinyo_memegy_backend.Bans.Rows.{latest, put}
use arsivinyo_memegy_backend.Bans.Store.{
  IpAddr, v4, v6, IpBan, BanEnforcementError, BanCacheEntry, CacheKey, ip_cache_key,
  ip_verdict_cache_key, State, Call, find_ban, find_cidr_bans, write_ban, read_version,
  bump_version, Config, World, ◌>>=◌, active_ttl, read_cache_entry, write_cache_entry,
  delete_cache_key, ignoring, cache_entry_is_expired, is_running, banned_entry, not_banned_entry,
}
use arsivinyo_memegy_backend.Bans.User.{enforce}

pub data ParsedIpTarget : Type 0 where
  ip_target : IpAddr → ParsedIpTarget
  cidr_target : ℕ → ParsedIpTarget

unfoldable pub parse_target : World → String → Option ParsedIpTarget
parse_target w raw =
    let trimmed = w.trim raw in
    if str_eq trimmed ""
    then none
    else if w.contains_slash trimmed
    then option_map cidr_target (w.net_parse trimmed)
    else option_map ip_target (w.ip_parse trimmed)

unfoldable pub canonical : World → ParsedIpTarget → String
canonical w (ip_target ip) = w.ip_to_string ip
canonical w (cidr_target net) = w.net_to_string net

unfoldable pub target_kind : ParsedIpTarget → String
target_kind (ip_target ip) = "ip"
target_kind (cidr_target net) = "cidr"

abbrev pub family : IpAddr → ℕ
family (v4 a) = 4
family (v6 a) = 6

unfoldable pub ip_family : World → ParsedIpTarget → ℕ
ip_family w (ip_target ip) = family ip
ip_family w (cidr_target net) = family (w.net_addr net)

unfoldable pub cidr_prefix : World → ParsedIpTarget → Option ℕ
cidr_prefix w (ip_target ip) = none
cidr_prefix w (cidr_target net) = some (w.net_prefix_len net)

-- The bans of a target that were not lifted.
unfoldable pub is_open_ip : String → String → IpBan → Bool
is_open_ip target kind b =
    str_eq b.target target && str_eq b.target_kind kind && not (is_some b.lifted_at)

unfoldable pub query_exact_ip_ban : World → IpAddr → List IpBan → Option IpBan
unfolding is_open_ip
query_exact_ip_ban w ip bans =
    latest (λ b. b.created_at)
      (keep (λ b. is_open_ip (w.ip_to_string ip) "ip" b && is_running w.now b.banned_until) bans)

-- `ORDER BY cidr_prefix DESC, created_at DESC`, where a missing prefix comes first.
abbrev prefix_above : Option ℕ → Option ℕ → Bool
prefix_above none o = is_some o
prefix_above (some a) none = false
prefix_above (some a) (some b) = ltb b a

abbrev prefix_same : Option ℕ → Option ℕ → Bool
prefix_same none none = true
prefix_same (some a) (some b) = a == b
prefix_same none (some b) = false
prefix_same (some a) none = false

abbrev goes_before : IpBan → IpBan → Bool
goes_before a b =
    prefix_above a.cidr_prefix b.cidr_prefix
    || (prefix_same a.cidr_prefix b.cidr_prefix && leb b.created_at a.created_at)

abbrev pub insert_ban : IpBan → List IpBan → List IpBan
insert_ban b [] = b ∷ []
insert_ban b (x ∷ xs) =
    let rest = insert_ban b xs in if goes_before b x then b ∷ x ∷ xs else x ∷ rest

abbrev pub sorted : List IpBan → List IpBan
sorted [] = []
sorted (b ∷ bs) = insert_ban b (sorted bs)

unfoldable pub is_active_cidr : World → ℕ → IpBan → Bool
is_active_cidr w fam b =
    str_eq b.target_kind "cidr"
    && b.ip_family == fam
    && not (is_some b.lifted_at)
    && is_running w.now b.banned_until

unfoldable pub query_cidr_ip_bans : World → IpAddr → List IpBan → List IpBan
unfolding is_active_cidr
query_cidr_ip_bans w ip bans = sorted (keep (is_active_cidr w (family ip)) bans)

abbrev pub matches : World → IpAddr → IpBan → Bool
matches w ip row = elim (w.net_parse row.target) [ none ↦ false | some net ↦ w.net_contains net ip ]

unfoldable pub cidr_match_for_ip : World → IpAddr → List IpBan → Option IpBan
cidr_match_for_ip w ip rows = first (matches w ip) rows

unfoldable pub current_ip_ban_version : World → State → Result String ℕ
current_ip_ban_version w s = elim (w.fails read_version) [
  | some e ↦ err e
  | none ↦ ok (unwrap_or s.ip_version 0)
]

unfoldable pub bump_ip_ban_version : World → State → Result String State
bump_ip_ban_version w s = elim (w.fails bump_version) [
  | some e ↦ err e
  | none ↦ ok (record s { ip_version = some (suc (unwrap_or s.ip_version 0)) })
]

abbrev pub or_zero : Result String ℕ → ℕ
or_zero (ok v) = v
or_zero (err e) = 0

-- The entry of a verdict, and for how long it stays.
abbrev pub verdict_entry : Option IpBan → BanCacheEntry
verdict_entry (some row) = banned_entry row.banned_until
verdict_entry none = not_banned_entry

abbrev verdict_ttl : World → Config → Option IpBan → ℕ
verdict_ttl w config (some row) =
    active_ttl w row.banned_until config.ban_ip_cache_permanent_ttl_secs
verdict_ttl w config none = max config.ban_ip_verdict_ttl_secs 1

module _ (w : World) (config : Config) (ip : IpAddr) where
  unfoldable pub ask_networks : CacheKey → State → Result String Bool × State
  unfolding query_cidr_ip_bans cidr_match_for_ip
  ask_networks key s = elim (w.fails find_cidr_bans) [
    | some e ↦ (err e, s)
    | none ↦
        let matched = cidr_match_for_ip w ip (query_cidr_ip_bans w ip s.ip_bans) in
        (
          ok ((verdict_entry matched).banned),
          ignoring s
              (write_cache_entry w key (verdict_entry matched) (verdict_ttl w config matched) s),
        )
  ]

  unfoldable pub after_verdict :
      CacheKey → State → Result String (Option BanCacheEntry) → Result String Bool × State
  unfolding ask_networks
  after_verdict key s (err e) = (err e, s)
  after_verdict key s (ok none) = ask_networks key s
  after_verdict key s (ok (some entry)) =
      if not (cache_entry_is_expired w.now entry) then (ok entry.banned, s) else ask_networks key s

  unfoldable pub ask_verdict : State → Result String Bool × State
  unfolding after_verdict current_ip_ban_version
  ask_verdict s =
      let key = ip_verdict_cache_key (or_zero (current_ip_ban_version w s)) ip in
      after_verdict key s (read_cache_entry w key s)

  unfoldable pub after_exact : Option IpBan → State → Result String Bool × State
  unfolding ask_verdict
  after_exact (some exact) s = (
    ok true,
    ignoring s (
        write_cache_entry w (ip_cache_key ip) (banned_entry exact.banned_until)
          (active_ttl w exact.banned_until config.ban_ip_cache_permanent_ttl_secs) s),
  )
  after_exact none s = ask_verdict (
      ignoring s (
        write_cache_entry w (ip_cache_key ip) not_banned_entry
          (max config.ban_ip_cache_negative_ttl_secs 1) s))

  unfoldable pub ask_exact : State → Result String Bool × State
  unfolding after_exact query_exact_ip_ban
  ask_exact s = elim (w.fails find_ban) [
    | some e ↦ (err e, s)
    | none ↦ after_exact (query_exact_ip_ban w ip s.ip_bans) s
  ]

  unfoldable pub after_ip_read :
      State → Result String (Option BanCacheEntry) → Result String Bool × State
  unfolding ask_exact
  after_ip_read s (err e) = (err e, s)
  after_ip_read s (ok none) = ask_exact s
  after_ip_read s (ok (some entry)) =
      if not (cache_entry_is_expired w.now entry) && entry.banned then (ok true, s) else ask_exact s

  unfoldable pub is_ip_banned_internal : State → Result String Bool × State
  unfolding after_ip_read
  is_ip_banned_internal s = after_ip_read s (read_cache_entry w (ip_cache_key ip) s)

unfoldable pub ensure_ip_not_banned :
    World → Config → IpAddr → State → Result BanEnforcementError (Unit {0}) × State
unfolding is_ip_banned_internal
ensure_ip_not_banned w config ip s =
    let r = is_ip_banned_internal w config ip s in (enforce r.0, r.1)

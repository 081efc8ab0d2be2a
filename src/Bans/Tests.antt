-- ===== src/Bans/Tests.antt =====
-- A user and a network that are banned, and the theorems at them.
use arsivinyo_memegy_backend.Base.{
  ℕ, ◌≡◌, refl, ◌≤◌, true, List, [], ◌∷◌, none, some, ok, length, arith, str_eq, if◌then◌else◌,
  keep,
}
use arsivinyo_memegy_backend.Bans.Rows.{latest}
use arsivinyo_memegy_backend.Bans.Store.{
  v4, UserBan, IpBan, State, Config, World, write_cache_entry, active_ttl, delete_cache_key,
}
use arsivinyo_memegy_backend.Bans.User.{
  upsert_user_ban, ensure_user_not_banned, lift_user_ban, new_ban, write_user_ban,
  query_open_user_ban, is_open,
}
use arsivinyo_memegy_backend.Bans.User.Upheld.{Refused, after_checks, upsert_user_ban-Refused}
use arsivinyo_memegy_backend.Bans.User.Lifted.{Passes, lift_user_ban-Passes}
use arsivinyo_memegy_backend.Bans.Ip.{cidr_target, bump_ip_ban_version, ensure_ip_not_banned}
use arsivinyo_memegy_backend.Bans.Ip.Write.{upsert_ip_ban, new_ip_ban}
use arsivinyo_memegy_backend.Bans.Ip.Upheld.{HasReached, upsert_ip_ban-Refused}

-- The network 10 contains the addresses below 256.
abbrev world : World
world = record {
  now = 100;
  fails = λ call. none;
  new_ban_id = 5;
  trim = λ s. s;
  contains_slash = λ s. str_eq s "10.0.0.0/24";
  ip_parse = λ s. none;
  ip_to_string = λ ip. "10.0.0.1";
  net_to_string = λ net. "10.0.0.0/24";
  net_addr = λ net. v4 0;
  net_prefix_len = λ net. 24;
  net_parse = λ s. if str_eq s "10.0.0.0/24" then some 10 else none;
  net_contains = λ net ip. true;
}

abbrev later_world : World
later_world = record world { now = 200 }

abbrev config : Config
config = record {
  ban_user_cache_negative_ttl_secs = 30;
  ban_user_cache_permanent_ttl_secs = 3600;
  ban_ip_cache_negative_ttl_secs = 30;
  ban_ip_cache_permanent_ttl_secs = 3600;
  ban_ip_verdict_ttl_secs = 60;
}

abbrev start : State
start = record { user_bans = []; ip_bans = []; cache = λ key. none; ip_version = none }

abbrev banned : State
banned = (upsert_user_ban world config 1 (some 900) none "admin" start).1

abbrev ban : UserBan
ban = new_ban world 1 (some 900) none "admin"

user_banned : upsert_user_ban world config 1 (some 900) none "admin" start ≡ (ok ban, banned)
unfolding upsert_user_ban write_cache_entry active_ttl write_user_ban query_open_user_ban latest
user_banned = refl

abbrev checks : List (World × ℕ)
checks = (later_world, 2) ∷ (later_world, 1) ∷ []

upsert_user_ban-Refused_example :
    Refused later_world
      (ensure_user_not_banned later_world config 1
        (after_checks config 1 (some 900) checks banned)).0
upsert_user_ban-Refused_example =
    upsert_user_ban-Refused config 1 (some 900) world later_world none "admin" start banned ban
      checks user_banned (refl, (refl, tt)) refl

abbrev freed : State
freed = (lift_user_ban later_world 1 "admin" none banned).1

user_freed : lift_user_ban later_world 1 "admin" none banned ≡ (ok true, freed)
unfolding lift_user_ban upsert_user_ban write_cache_entry active_ttl write_user_ban
    query_open_user_ban latest delete_cache_key new_ban is_open
user_freed = refl

one_open : length (keep (is_open 1) banned.user_bans) ≤ 1
unfolding upsert_user_ban write_cache_entry active_ttl write_user_ban query_open_user_ban latest
    new_ban is_open
one_open = omega arith

lift_user_ban-Passes_example :
    Passes later_world (ensure_user_not_banned later_world config 1 freed).0
lift_user_ban-Passes_example =
    lift_user_ban-Passes later_world 1 "admin" none banned true freed later_world config one_open
      user_freed

abbrev net_banned : State
net_banned = (upsert_ip_ban world config (cidr_target 10) none none "admin" start).1

abbrev net_ban : IpBan
net_ban = new_ip_ban world (cidr_target 10) none none "admin"

network_banned :
    upsert_ip_ban world config (cidr_target 10) none none "admin" start ≡ (ok net_ban, net_banned)
unfolding upsert_ip_ban latest bump_ip_ban_version
network_banned = refl

nothing_cached : HasReached start
nothing_cached v ip item e = cc

upsert_ip_ban-Refused_example :
    Refused later_world (ensure_ip_not_banned later_world config (v4 7) net_banned).0
upsert_ip_ban-Refused_example =
    upsert_ip_ban-Refused world 10 none none "admin" start config net_ban net_banned later_world
      (v4 7) nothing_cached (record { reads_back = refl; contains_ip = refl; same_family = refl })
      network_banned refl refl

-- ===== src/Guard/Tests.antt =====
-- Requests from an address of a banned network, and the theorems at them.
use arsivinyo_memegy_backend.Base.{
  ◌≡◌, refl, true, false, none, some, ok, [], str_eq, if◌then◌else◌,
}
use arsivinyo_memegy_backend.Bans.Store.{v4, IpBan, State, World}
use arsivinyo_memegy_backend.Bans.Rows.{latest}
use arsivinyo_memegy_backend.Bans.Ip.{cidr_target, bump_ip_ban_version}
use arsivinyo_memegy_backend.Bans.Ip.Write.{upsert_ip_ban, new_ip_ban}
use arsivinyo_memegy_backend.Bans.Ip.Upheld.{HasReached}
use arsivinyo_memegy_backend.Guard.{
  get_method, Request, Config, extract_client_ip, parse_ip_header, platform_mode_guard,
}
use arsivinyo_memegy_backend.Guard.Passed.{upsert_ip_ban-not_passed}

-- The network 10 contains the addresses below 256.
abbrev world : World
world = record {
  now = 100;
  fails = λ call. none;
  new_ban_id = 5;
  trim = λ s. s;
  contains_slash = λ s. str_eq s "10.0.0.0/24";
  ip_parse = λ s. if str_eq s "0.0.0.7" then some (v4 7) else none;
  ip_to_string = λ ip. "0.0.0.7";
  net_to_string = λ net. "10.0.0.0/24";
  net_addr = λ net. v4 0;
  net_prefix_len = λ net. 24;
  net_parse = λ s. if str_eq s "10.0.0.0/24" then some 10 else none;
  net_contains = λ net ip. true;
}

abbrev config : Config
config = record {
  environment = "production";
  require_cloudflare_headers = false;
  maintenance_mode_enabled = false;
  ip_rate_limit_rpm = 100;
  bans = record {
    ban_user_cache_negative_ttl_secs = 30;
    ban_user_cache_permanent_ttl_secs = 3600;
    ban_ip_cache_negative_ttl_secs = 30;
    ban_ip_cache_permanent_ttl_secs = 3600;
    ban_ip_verdict_ttl_secs = 60;
  };
}

abbrev request : Request
request = record {
  method = get_method;
  path = "/feed";
  headers = λ name. if str_eq name "x-real-ip" then some (some "0.0.0.7") else none;
  connect_info = none;
  socket_addr = none;
}

abbrev start : State
start = record { user_bans = []; ip_bans = []; cache = λ key. none; ip_version = none }

abbrev net_banned : State
net_banned = (upsert_ip_ban world config.bans (cidr_target 10) none none "admin" start).1

abbrev net_ban : IpBan
net_ban = new_ip_ban world (cidr_target 10) none none "admin"

network_banned :
    upsert_ip_ban world config.bans (cidr_target 10) none none "admin" start
    ≡ (ok net_ban, net_banned)
unfolding upsert_ip_ban latest bump_ip_ban_version
network_banned = refl

nothing_cached : HasReached start
nothing_cached v ip item e = cc

from_seven : extract_client_ip world config request ≡ ok (v4 7)
unfolding extract_client_ip parse_ip_header
from_seven = refl

abbrev refused_state : State
refused_state = (platform_mode_guard world config request net_banned).1

upsert_ip_ban-not_passed_example :
    ¬ (platform_mode_guard world config request net_banned ≡ (ok tt, refused_state))
upsert_ip_ban-not_passed_example =
    upsert_ip_ban-not_passed world 10 none none "admin" start net_ban net_banned refused_state world
      config request (v4 7) nothing_cached
      (record { reads_back = refl; contains_ip = refl; same_family = refl }) network_banned refl
      refl from_seven

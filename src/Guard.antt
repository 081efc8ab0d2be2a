-- ===== src/Guard.antt =====
-- What a request passes before its handler: the client's address, the mode of the platform and the bans
-- of addresses, and the limit on requests of an address (src/api/src/services/client_ip.rs,
-- src/api/src/middleware/platform_mode_guard.rs, ip_rate_limit.rs).
pub mod Address
pub mod Passed
mod Tests
use Prim.Native.String.{◌++◌ as str_append}
use arsivinyo_memegy_backend.Base.{
  ℕ, String, Bool, true, false, not, ◌&&◌, ◌||◌, Option, none, some, Result, ok, err, str_eq, codes,
  unwrap_or, if◌then◌else◌,
}
use arsivinyo_memegy_backend.Api.{ApiError, bad_request, forbidden, service_unavailable, ◌>>=◌}
use arsivinyo_memegy_backend.Username.{starts_with}
use arsivinyo_memegy_backend.Bans.Store.{
  IpAddr, v4, BanEnforcementError, banned_error, unavailable, State, Config as BanConfig,
  World as BanWorld,
}
use arsivinyo_memegy_backend.Bans.Ip.{ensure_ip_not_banned}
use arsivinyo_memegy_backend.Counters.{Redis, World as RedisWorld, check_and_increment}

pub data Method : Type 0 where
  get_method post_method other_method : Method

-- A header's value is `some none` where it is no text. The addresses are those of the connection.
pub record Request : Type 0 where
  pub method : Method
  pub path : String
  pub headers : String → Option (Option String)
  pub connect_info : Option IpAddr
  pub socket_addr : Option IpAddr

pub record Config : Type 0 where
  pub environment : String
  pub require_cloudflare_headers : Bool
  pub maintenance_mode_enabled : Bool
  pub ip_rate_limit_rpm : ℕ
  pub bans : BanConfig

abbrev malformed : String → ApiError
malformed name = bad_request (str_append (str_append "Malformed " name) " header")

abbrev pub parsed_header :
    BanWorld → String → Option (Option String) → Result ApiError (Option IpAddr)
parsed_header w name none = ok none
parsed_header w name (some none) = err (malformed name)
parsed_header w name (some (some raw)) = elim (w.ip_parse raw) [
  | none ↦ err (malformed name)
  | some ip ↦ ok (some ip)
]

unfoldable pub parse_ip_header :
    BanWorld → (String → Option (Option String)) → String → Result ApiError (Option IpAddr)
parse_ip_header w headers name = parsed_header w name (headers name)

abbrev pub localhost : IpAddr
localhost = v4 2130706433

unfoldable pub connect_ip_from_extensions : Request → Option IpAddr
connect_ip_from_extensions r = elim r.connect_info [ some ip ↦ some ip | none ↦ r.socket_addr ]

-- The address of the connection, where no header gives one.
abbrev pub connection_ip : Config → Request → Result ApiError IpAddr
connection_ip config r =
    if str_eq config.environment "production" || config.require_cloudflare_headers
    then err (forbidden "Direct access not allowed. Use Cloudflare endpoint.")
    else ok (unwrap_or (connect_ip_from_extensions r) localhost)

abbrev pub after_real_ip : Config → Request → Option IpAddr → Result ApiError IpAddr
after_real_ip config r (some ip) = ok ip
after_real_ip config r none = connection_ip config r

abbrev pub after_connecting_ip :
    BanWorld → Config → Request → Option IpAddr → Result ApiError IpAddr
after_connecting_ip w config r (some ip) = ok ip
after_connecting_ip w config r none =
    parse_ip_header w r.headers "x-real-ip" >>= after_real_ip config r

-- `extract_client_ip_from_headers_and_extensions`.
unfoldable pub extract_client_ip : BanWorld → Config → Request → Result ApiError IpAddr
unfolding parse_ip_header connect_ip_from_extensions
extract_client_ip w config r =
    parse_ip_header w r.headers "cf-connecting-ip" >>= after_connecting_ip w config r

unfoldable pub is_admin_path : String → Bool
unfolding starts_with
is_admin_path path = str_eq path "/admin" || starts_with (codes "/admin/") (codes path)

unfoldable pub is_maintenance_allowlisted : Method → String → Bool
is_maintenance_allowlisted get_method path =
    str_eq path "/health"
    || str_eq path "/auth/google/login"
    || str_eq path "/auth/google/callback"
    || str_eq path "/system/maintenance"
is_maintenance_allowlisted post_method path =
    str_eq path "/auth/exchange-otc" || str_eq path "/auth/dev/login"
is_maintenance_allowlisted other_method path = false

-- The request passes on, or the guard answers in its place.
abbrev pub after_ban_check :
    Result BanEnforcementError (Unit {0}) × State → Result ApiError (Unit {0}) × State
after_ban_check (ok _, s) = (ok tt, s)
after_ban_check (err banned_error, s) = (err (forbidden "ip_banned"), s)
after_ban_check (err unavailable, s) = (err (service_unavailable "ban_check_unavailable"), s)

abbrev pub after_extract :
    BanWorld → Config → State → Result ApiError IpAddr → Result ApiError (Unit {0}) × State
after_extract w config s (err e) = (err e, s)
after_extract w config s (ok ip) = after_ban_check (ensure_ip_not_banned w config.bans ip s)

unfoldable pub is_blocked_by_maintenance : Config → Request → Bool
unfolding is_admin_path is_maintenance_allowlisted
is_blocked_by_maintenance config r =
    config.maintenance_mode_enabled
    && not (is_admin_path r.path)
    && not (is_maintenance_allowlisted r.method r.path)

unfoldable pub platform_mode_guard :
    BanWorld → Config → Request → State → Result ApiError (Unit {0}) × State
unfolding is_blocked_by_maintenance extract_client_ip
platform_mode_guard w config r s =
    if is_blocked_by_maintenance config r
    then (err (service_unavailable "maintenance_mode_enabled"), s)
    else after_extract w config s (extract_client_ip w config r)

abbrev pub ip_rpm_key : BanWorld → IpAddr → String
ip_rpm_key w ip = str_append "ratelimit:ip:rpm:" (w.ip_to_string ip)

-- `show_count` prints the number in the refusal.
abbrev pub after_limit :
    (ℕ → String) → Result String (Result ℕ ℕ) × Redis → Result ApiError (Unit {0}) × Redis
after_limit show_count (ok (ok remaining), redis) = (ok tt, redis)
after_limit show_count (ok (err count), redis) = (
  err (record {
    status = 429;
    message = str_append (str_append "Rate limit exceeded: " (show_count count)) " requests/minute";
  }),
  redis,
)
after_limit show_count (err e, redis) = (ok tt, redis)

abbrev pub limited :
    BanWorld
    → RedisWorld
    → (ℕ → String)
    → Config
    → Redis
    → Result ApiError IpAddr
    → Result ApiError (Unit {0}) × Redis
limited w rw_world show_count config redis (err e) = (err e, redis)
limited w rw_world show_count config redis (ok ip) =
    after_limit show_count
      (check_and_increment rw_world false (ip_rpm_key w ip) config.ip_rate_limit_rpm 60 redis)

unfoldable pub ip_rate_limit :
    BanWorld
    → RedisWorld
    → (ℕ → String)
    → Config
    → Request
    → Redis
    → Result ApiError (Unit {0}) × Redis
unfolding extract_client_ip
ip_rate_limit w rw_world show_count config r redis =
    limited w rw_world show_count config redis (extract_client_ip w config r)

-- ===== src/Guard/Address.antt =====
-- Which address a request is taken to come from (src/api/src/services/client_ip.rs).
use arsivinyo_memegy_backend.Base.{
  ◌≡◌, refl, ap, ◌∙◌, true, ◌||◌, Option, none, some, Result, ok, err, str_eq, if◌then◌else◌,
  unwrap_or,
}
use arsivinyo_memegy_backend.Bans.Store.{IpAddr, World}
use arsivinyo_memegy_backend.Api.{ApiError, forbidden, ◌>>=◌}
use arsivinyo_memegy_backend.Guard.{
  Request, Config, parse_ip_header, parsed_header, extract_client_ip, after_connecting_ip,
  after_real_ip, connection_ip, localhost, connect_ip_from_extensions,
}

module _ (w : World) (config : Config) (r r' : Request)
    (real : r.headers "x-real-ip" ≡ r'.headers "x-real-ip")
    (connect : r.connect_info ≡ r'.connect_info) (socket : r.socket_addr ≡ r'.socket_addr) where
  connection_ip-same : connection_ip config r ≡ connection_ip config r'
  unfolding connect_ip_from_extensions
  connection_ip-same i =
      if str_eq config.environment "production" || config.require_cloudflare_headers
      then err (forbidden "Direct access not allowed. Use Cloudflare endpoint.")
      else ok (unwrap_or (elim (connect i) [ some ip ↦ some ip | none ↦ socket i ]) localhost)

  after_real_ip-same : (o : Option IpAddr) → after_real_ip config r o ≡ after_real_ip config r' o
  after_real_ip-same none = connection_ip-same
  after_real_ip-same (some ip) = refl

  bind-same :
      {A : Type 0} (a : Result ApiError A) (f g : A → Result ApiError IpAddr)
      → ((x : A) → f x ≡ g x)
      → a >>= f ≡ a >>= g
  bind-same (ok x) f g same = same x
  bind-same (err e) f g same = refl

  after_connecting_ip-same :
      (o : Option IpAddr) → after_connecting_ip w config r o ≡ after_connecting_ip w config r' o
  unfolding parse_ip_header
  after_connecting_ip-same (some ip) = refl
  after_connecting_ip-same none =
      ap (λ h. parsed_header w "x-real-ip" h >>= after_real_ip config r) real
      ∙ bind-same (parsed_header w "x-real-ip" (r'.headers "x-real-ip")) (after_real_ip config r)
          (after_real_ip config r') after_real_ip-same

  -- Two requests that agree on the two headers and on the connection have one client address, whatever
  -- their other headers, such as X-Forwarded-For, say.
  pub extract_client_ip-same :
      r.headers "cf-connecting-ip" ≡ r'.headers "cf-connecting-ip"
      → extract_client_ip w config r ≡ extract_client_ip w config r'
  unfolding extract_client_ip parse_ip_header
  extract_client_ip-same cf =
      ap (λ h. parsed_header w "cf-connecting-ip" h >>= after_connecting_ip w config r) cf
      ∙ bind-same (parsed_header w "cf-connecting-ip" (r'.headers "cf-connecting-ip"))
          (after_connecting_ip w config r) (after_connecting_ip w config r')
          after_connecting_ip-same

-- In production, or where the headers are required, a request with neither header is refused, so that no
-- address of a connection is taken for the client's.
pub extract_client_ip-strict :
    (w : World) (config : Config) (r : Request)
    → str_eq config.environment "production" || config.require_cloudflare_headers ≡ true
    → r.headers "cf-connecting-ip" ≡ none
    → r.headers "x-real-ip" ≡ none
    → extract_client_ip w config r
      ≡ err (forbidden "Direct access not allowed. Use Cloudflare endpoint.")
unfolding extract_client_ip parse_ip_header
extract_client_ip-strict w config r strict cf real = rw cf (rw real (rw strict refl))

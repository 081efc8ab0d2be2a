-- ===== src/Guard/Passed.antt =====
-- Which requests the guard of the platform's mode lets through
-- (src/api/src/middleware/platform_mode_guard.rs).
use arsivinyo_memegy_backend.Base.{
  ℕ, ◌≡◌, refl, ap, sym, ◌∙◌, subst, String, true, false, Option, none, Result, ok, err, Bool-cases,
  inl, inr,
}
use arsivinyo_memegy_backend.Bans.Store.{
  IpAddr, IpBan, State, World, BanEnforcementError, banned_error, unavailable, is_running,
  read_version,
}
use arsivinyo_memegy_backend.Bans.User.Upheld.{Refused}
use arsivinyo_memegy_backend.Bans.Ip.{cidr_target, ensure_ip_not_banned}
use arsivinyo_memegy_backend.Bans.Ip.Write.{upsert_ip_ban}
use arsivinyo_memegy_backend.Bans.Ip.Upheld.{HasReached, Covers, upsert_ip_ban-Refused}
use arsivinyo_memegy_backend.Api.{ApiError}
use arsivinyo_memegy_backend.Guard.{
  Request, Config, after_extract, after_ban_check, extract_client_ip, is_blocked_by_maintenance,
  platform_mode_guard,
}

-- What a request that passes has gone through.
pub record HasPassed (w : World) (config : Config) (r : Request) (s s' : State) : Type 0 where
  pub not_blocked : is_blocked_by_maintenance config r ≡ false
  pub client_ip : IpAddr
  pub extracted : extract_client_ip w config r ≡ ok client_ip
  pub not_banned : ensure_ip_not_banned w config.bans client_ip s ≡ (ok tt, s')

not_ok : (x : ApiError) → ¬ (◌≡◌ {A = Result ApiError (Unit {0})} (err x) (ok tt))
not_ok x e = cc

after_ban_check-ok :
    (x : Result BanEnforcementError (Unit {0}) × State) (s' : State)
    → after_ban_check x ≡ (ok tt, s')
    → x ≡ (ok tt, s')
after_ban_check-ok (ok tt, s) s' e = ap (λ t. (ok tt, t)) (ap (λ r. r.1) e)
after_ban_check-ok (err banned_error, s) s' e = elim (not_ok _ (ap (λ r. r.0) e)) [ ]
after_ban_check-ok (err unavailable, s) s' e = elim (not_ok _ (ap (λ r. r.0) e)) [ ]

after_extract-ok :
    (w : World) (config : Config) (r : Request) (s s' : State) (x : Result ApiError IpAddr)
    → is_blocked_by_maintenance config r ≡ false
    → extract_client_ip w config r ≡ x
    → after_extract w config s x ≡ (ok tt, s')
    → HasPassed w config r s s'
after_extract-ok w config r s s' (ok ip) open_now found e = record {
  not_blocked = open_now;
  client_ip = ip;
  extracted = found;
  not_banned = after_ban_check-ok (ensure_ip_not_banned w config.bans ip s) s' e;
}
after_extract-ok w config r s s' (err x) open_now found e = elim (not_ok x (ap (λ r. r.0) e)) [ ]

-- The guard lets a request through only where maintenance does not block it, an address is found for it,
-- and the check of that address finds no ban; the state left behind is that of the check.
pub platform_mode_guard-HasPassed :
    (w : World) (config : Config) (r : Request) (s s' : State)
    → platform_mode_guard w config r s ≡ (ok tt, s')
    → HasPassed w config r s s'
unfolding platform_mode_guard
platform_mode_guard-HasPassed w config r s s' e =
    elim (Bool-cases (is_blocked_by_maintenance config r)) [
      | inl blocked ↦ elim (not_ok _ (ap (λ r. r.0) (rw blocked at e))) [ ]
      | inr open_now ↦
          after_extract-ok w config r s s' (extract_client_ip w config r) open_now refl
            (rw open_now at e)
    ]

unok : {a b : IpAddr} → ◌≡◌ {A = Result ApiError IpAddr} (ok a) (ok b) → a ≡ b
unok e = cc

not-Refused :
    (w : World) (x : Result BanEnforcementError (Unit {0}) × State) {s : State}
    → x ≡ (ok tt, s)
    → ¬ (Refused w x.0)
not-Refused w x e (inl banned) = let h = sym banned ∙ ap (λ r. r.0) e in cc h
not-Refused w x e (inr (failed, _)) = let h = sym failed ∙ ap (λ r. r.0) e in cc h

-- After a ban of a network, the guard lets no request through that is taken to come from an address of
-- that network, while the ban runs and the version of the bans can
-- be read, if the cached verdicts stood under versions that were reached, and the library of networks reads
-- the network back and finds the address in it.
pub upsert_ip_ban-not_passed :
    (w : World) (net : ℕ) (until : Option ℕ) (reason : Option String) (actor : String) (s : State)
    (ban : IpBan) (s' s'' : State) (w' : World) (config : Config) (r : Request) (ip : IpAddr)
    → HasReached s
    → Covers w w' net ip
    → upsert_ip_ban w config.bans (cidr_target net) until reason actor s ≡ (ok ban, s')
    → is_running w'.now until ≡ true
    → w'.fails read_version ≡ none
    → extract_client_ip w' config r ≡ ok ip
    → ¬ (platform_mode_guard w' config r s' ≡ (ok tt, s''))
upsert_ip_ban-not_passed w net until reason actor s ban s' s'' w' config r ip reached covers e
      running version from passes =
    let p = platform_mode_guard-HasPassed w' config r s' s'' passes in
    let one : p.client_ip ≡ ip = unok (sym p.extracted ∙ from) in
    not-Refused w' _
      (subst (λ a. ensure_ip_not_banned w' config.bans a s' ≡ (ok tt, s'')) one p.not_banned)
      (upsert_ip_ban-Refused w net until reason actor s config.bans ban s' w' ip reached covers e
        running version)

-- ===== src/Bans/Ip/Upheld.antt =====
-- A network ban, upheld against the addresses it contains
-- (src/api/src/services/ban_service.rs: upsert_ip_ban, ensure_ip_not_banned).
use arsivinyo_memegy_backend.Base.{
  ℕ, suc, ◌≤◌, ◌≡◌, refl, ap, sym, ◌∙◌, subst, ◌⊎◌, inl, inr, String, true, ◌&&◌, Option, none,
  some, ok, err, ◌==◌, ==_refl, str_eq_refl, eq_iff, keep, any, unwrap_or, arith, Option-cases,
}
use arsivinyo_memegy_backend.Bans.Rows.{latest-keep, latest-any, any-keep, any-put, any-append-new}
use arsivinyo_memegy_backend.Bans.Store.{
  IpAddr, IpBan, ip_verdict_cache_key, Item, State, find_ban, write_ban, read_version, bump_version,
  Config, World, is_running,
}
use arsivinyo_memegy_backend.Bans.User.{cached_ban}
use arsivinyo_memegy_backend.Bans.User.Upheld.{Refused, Refused-enforce}
use arsivinyo_memegy_backend.Bans.Ip.{
  cidr_target, canonical, target_kind, ip_family, is_open_ip, family, is_active_cidr, matches,
  bump_ip_ban_version, ensure_ip_not_banned,
}
use arsivinyo_memegy_backend.Bans.Ip.Enforced.{IsNetBanned, Denied-ip_check}
use arsivinyo_memegy_backend.Bans.Ip.Write.{
  query_open_ip_ban, renewed_ip_ban, new_ip_ban, write_ip_ban, cache_ip_ban, upsert_ip_ban,
}

-- Every verdict in the cache stands under a version that was reached.
abbrev pub HasReached : State → Type 0
HasReached s =
    (v : ℕ) (ip : IpAddr) (item : Item)
    → s.cache (ip_verdict_cache_key v ip) ≡ some item
    → v ≤ unwrap_or s.ip_version 0

-- What the library of networks promises: the printed network is read back, it contains the address, and
-- a network and its addresses have one family.
pub record Covers (w w' : World) (net : ℕ) (ip : IpAddr) : Type 0 where
  pub reads_back : w'.net_parse (w.net_to_string net) ≡ some net
  pub contains_ip : w'.net_contains net ip ≡ true
  pub same_family : family (w.net_addr net) ≡ family ip

module _ (w : World) (net : ℕ) (until : Option ℕ) (reason : Option String) (actor : String)
    (s : State) where
  -- The row of the network, running and read back.
  IsWritten : IpBan → Type 0
  IsWritten b =
      (b.target ≡ w.net_to_string net)
      × (b.target_kind ≡ "cidr")
      × (b.ip_family ≡ family (w.net_addr net))
      × (b.lifted_at ≡ none)
      × (b.banned_until ≡ until)

  row_found :
      (w' : World) (ip : IpAddr) (b : IpBan)
      → IsWritten b
      → Covers w w' net ip
      → is_running w'.now until ≡ true
      → is_active_cidr w' (family ip) b && matches w' ip b ≡ true
  unfolding IsWritten is_active_cidr
  row_found w' ip b (target, kind, fam, lifted, runs) c running = rw kind (
      rw (str_eq_refl "cidr") (
        rw fam (
          rw (c.same_family) (
            rw (==_refl (family ip)) (
              rw lifted
                (rw runs (rw running (rw target (rw (c.reads_back, matches) (c.contains_ip))))))))))

  open_target :
      (row : IpBan)
      → query_open_ip_ban w (cidr_target net) s.ip_bans ≡ some row
      → (row.target ≡ w.net_to_string net) × (row.target_kind ≡ "cidr")
  unfolding query_open_ip_ban is_open_ip canonical target_kind
  open_target row e =
      let good =
        latest-keep (λ b. b.created_at) (is_open_ip (w.net_to_string net) "cidr") s.ip_bans row e in
      (
        (eq_iff row.target (w.net_to_string net)).0 (ground (arith, good)),
        (eq_iff row.target_kind "cidr").0 (ground (arith, good)),
      )

  open_id-any :
      (row : IpBan)
      → query_open_ip_ban w (cidr_target net) s.ip_bans ≡ some row
      → any (λ x. x.id == row.id) s.ip_bans ≡ true
  unfolding query_open_ip_ban canonical target_kind
  open_id-any row e =
      any-keep (is_open_ip (w.net_to_string net) "cidr") (λ x. x.id == row.id) s.ip_bans
        (latest-any (λ b. b.created_at) (λ x. x.id == row.id)
          (keep (is_open_ip (w.net_to_string net) "cidr") s.ip_bans) row e (==_refl row.id))

  written_found :
      (w' : World) (ip : IpAddr) (o : Option IpBan)
      → query_open_ip_ban w (cidr_target net) s.ip_bans ≡ o
      → Covers w w' net ip
      → is_running w'.now until ≡ true
      → any
          (λ b. is_active_cidr w' (family ip) b && matches w' ip b)
          (write_ip_ban w (cidr_target net) until reason actor o s.ip_bans).1
        ≡ true
  unfolding write_ip_ban renewed_ip_ban new_ip_ban IsWritten ip_family canonical target_kind
  written_found w' ip none e c running = any-append-new _ _ s.ip_bans (
      row_found w' ip (new_ip_ban w (cidr_target net) until reason actor)
        (refl, refl, refl, refl, refl) c running)
  written_found w' ip (some row) e c running =
      let t = open_target row e in
      any-put (λ x. x.id) (renewed_ip_ban w (cidr_target net) until reason actor row) _ s.ip_bans
        (open_id-any row e)
        (row_found w' ip (renewed_ip_ban w (cidr_target net) until reason actor row)
          (t.0, t.1, refl, refl, refl) c running)

  bumped :
      {A : Type 0} (a b : A) (t s' : State) (w' : World) (ip : IpAddr)
      → HasReached t
      → any (λ x. is_active_cidr w' (family ip) x && matches w' ip x) t.ip_bans ≡ true
      → cached_ban a t (bump_ip_ban_version w t) ≡ (ok b, s')
      → IsNetBanned w' ip s'
  unfolding bump_ip_ban_version
  bumped a b t s' w' ip reached stored e = elim (Option-cases (w.fails bump_version)) [
    | inr (x, fails) ↦
        let failed : cached_ban a t (err x) ≡ (ok b, s') = ground (arith, e, fails) in
        let clash : err x ≡ ok b = ap (λ r. r.0) failed in cc clash
    | inl works ↦
        let next : State = record t { ip_version = some (suc (unwrap_or t.ip_version 0)) } in
        let done : cached_ban a t (ok next) ≡ (ok b, s') = ground (arith, e, works) in
        subst (IsNetBanned w' ip) (ap (λ r. r.1) done) (record {
          no_verdict =
              elim (Option-cases
                (t.cache (ip_verdict_cache_key (suc (unwrap_or t.ip_version 0)) ip))) [
                  | inl nothing ↦ nothing
                  | inr (item, found) ↦
                      let below = reached (suc (unwrap_or t.ip_version 0)) ip item found in
                      ground arith
                ];
          stored = stored;
        })
  ]

  upsert-cases :
      (config : Config)
      → let written =
          write_ip_ban w
            (cidr_target net)
            until
            reason
            actor
            (query_open_ip_ban w (cidr_target net) s.ip_bans)
            s.ip_bans in
        let t : State = record s { ip_bans = written.1 } in
        ((e : String) × (upsert_ip_ban w config (cidr_target net) until reason actor s
            ≡ (err e, s)))
        ⊎ (upsert_ip_ban w config (cidr_target net) until reason actor s
            ≡ cached_ban written.0 t (bump_ip_ban_version w t))
  unfolding upsert_ip_ban cache_ip_ban
  upsert-cases config = elim (Option-cases (w.fails find_ban)) [
    | inr (x, fails) ↦ inl (x, rw (fails, upsert_ip_ban) refl)
    | inl works ↦ elim (Option-cases (w.fails write_ban)) [
      | inr (x, fails) ↦ inl (x, rw (works, upsert_ip_ban) (rw fails refl))
      | inl writes ↦ inr (rw (works, upsert_ip_ban) (rw writes refl))
    ]
  ]

  -- After a ban of a network, a check of any address that the network contains refuses while the ban
  -- runs, whatever verdicts were cached before: as banned, or as unavailable if one of its own calls
  -- failed. The verdicts before the ban stand under versions that were reached, and the check reads the
  -- version.
  pub upsert_ip_ban-Refused :
      (config : Config) (ban : IpBan) (s' : State) (w' : World) (ip : IpAddr)
      → HasReached s
      → Covers w w' net ip
      → upsert_ip_ban w config (cidr_target net) until reason actor s ≡ (ok ban, s')
      → is_running w'.now until ≡ true
      → w'.fails read_version ≡ none
      → Refused w' (ensure_ip_not_banned w' config ip s').0
  unfolding ensure_ip_not_banned
  upsert_ip_ban-Refused config ban s' w' ip reached covers e running version =
      elim (upsert-cases config) [
        | inl (x, failed) ↦ let clash : err x ≡ ok ban = ap (λ r. r.0) (sym failed ∙ e) in cc clash
        | inr written ↦ Refused-enforce w' _ (
            Denied-ip_check w' config ip s'
              (bumped _ ban _ s' w' ip reached (written_found w' ip _ refl covers running)
                (sym written ∙ e))
              version)
      ]

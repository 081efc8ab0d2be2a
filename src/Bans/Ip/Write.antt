-- ===== src/Bans/Ip/Write.antt =====
-- Placing and lifting the bans of addresses and networks (src/api/src/services/ban_service.rs).
use arsivinyo_memegy_backend.Base.{
  ℕ, String, Bool, true, false, ◌&&◌, List, [], ◌∷◌, ◌++◌, Option, none, some, Result, ok, err,
  keep,
}
use arsivinyo_memegy_backend.Bans.Rows.{latest, put}
use arsivinyo_memegy_backend.Bans.Store.{
  IpBan, ip_cache_key, State, find_ban, write_ban, Config, World, active_ttl, write_cache_entry,
  delete_cache_key, ignoring, is_running, banned_entry,
}
use arsivinyo_memegy_backend.Bans.User.{cached_ban}
use arsivinyo_memegy_backend.Bans.Ip.{
  ParsedIpTarget, ip_target, cidr_target, canonical, target_kind, ip_family, cidr_prefix,
  is_open_ip, bump_ip_ban_version,
}

unfoldable pub query_open_ip_ban : World → ParsedIpTarget → List IpBan → Option IpBan
unfolding is_open_ip canonical target_kind
query_open_ip_ban w target bans =
    latest (λ b. b.created_at) (keep (is_open_ip (canonical w target) (target_kind target)) bans)

unfoldable pub get_active_ip_ban : World → ParsedIpTarget → State → Result String (Option IpBan)
unfolding is_open_ip canonical target_kind
get_active_ip_ban w target s = elim (w.fails find_ban) [
  | some e ↦ err e
  | none ↦ ok (
      latest (λ b. b.created_at)
        (keep
          (λ b.
            is_open_ip (canonical w target) (target_kind target) b
            && is_running w.now b.banned_until)
          s.ip_bans))
]

module _ (w : World) (target : ParsedIpTarget) (until : Option ℕ) (reason : Option String)
    (actor : String) where
  unfoldable pub renewed_ip_ban : IpBan → IpBan
  unfolding ip_family cidr_prefix
  renewed_ip_ban b = record b {
    reason = reason;
    banned_until = until;
    created_by_admin_sub = actor;
    created_at = w.now;
    ip_family = ip_family w target;
    cidr_prefix = cidr_prefix w target;
    lifted_at = none;
    lifted_by_admin_sub = none;
    lift_reason = none;
  }

  unfoldable pub new_ip_ban : IpBan
  unfolding ip_family cidr_prefix canonical target_kind
  new_ip_ban = record {
    id = w.new_ban_id;
    target = canonical w target;
    target_kind = target_kind target;
    ip_family = ip_family w target;
    cidr_prefix = cidr_prefix w target;
    reason = reason;
    banned_until = until;
    created_by_admin_sub = actor;
    created_at = w.now;
    lifted_at = none;
    lifted_by_admin_sub = none;
    lift_reason = none;
  }

  -- The ban written, and the table after the write.
  unfoldable pub write_ip_ban : Option IpBan → List IpBan → IpBan × List IpBan
  unfolding renewed_ip_ban new_ip_ban
  write_ip_ban (some row) bans = let b = renewed_ip_ban row in (b, put (λ x. x.id) b bans)
  write_ip_ban none bans = (new_ip_ban, bans ++ new_ip_ban ∷ [])

-- The entry of a banned address; a network has none.
unfoldable pub cache_ip_ban : World → Config → ParsedIpTarget → IpBan → State → Result String State
cache_ip_ban w config (ip_target ip) b s =
    write_cache_entry w (ip_cache_key ip) (banned_entry b.banned_until)
      (active_ttl w b.banned_until config.ban_ip_cache_permanent_ttl_secs) s
cache_ip_ban w config (cidr_target net) b s = ok s

-- The version is bumped, in whatever state the steps before it left.
abbrev pub then_bump {ℓ} :
    {A : Type ℓ} → World → A → State → Result String State → Result String A × State
then_bump w a s (err e) = (err e, s)
then_bump w a s (ok s') = cached_ban a s' (bump_ip_ban_version w s')

unfoldable pub upsert_ip_ban :
    World
    → Config
    → ParsedIpTarget
    → Option ℕ
    → Option String
    → String
    → State
    → Result String IpBan × State
unfolding write_ip_ban query_open_ip_ban cache_ip_ban
upsert_ip_ban w config target until reason actor s = elim (w.fails find_ban) [
  | some e ↦ (err e, s)
  | none ↦ elim (w.fails write_ban) [
    | some e ↦ (err e, s)
    | none ↦
        let written =
          write_ip_ban w target until reason actor (query_open_ip_ban w target s.ip_bans)
            s.ip_bans in
        let s' : State = record s { ip_bans = written.1 } in
        then_bump w written.0 s' (cache_ip_ban w config target written.0 s')
  ]
]

unfoldable pub lifted_ip_ban : World → String → Option String → IpBan → IpBan
lifted_ip_ban w actor lift_reason b = record b {
  lifted_at = some w.now;
  lifted_by_admin_sub = some actor;
  lift_reason = lift_reason;
}

-- `let _ = delete_cache_key(…)` of an address.
unfoldable pub forget_ip : World → ParsedIpTarget → State → State
forget_ip w (ip_target ip) s = ignoring s (delete_cache_key w (ip_cache_key ip) s)
forget_ip w (cidr_target net) s = s

abbrev bumped_lift : World → ParsedIpTarget → Bool → State → Result String Bool × State
bumped_lift w target found s = then_bump w found (forget_ip w target s) (ok (forget_ip w target s))

unfoldable pub write_ip_lift :
    World
    → ParsedIpTarget
    → String
    → Option String
    → Option IpBan
    → State
    → Result String Bool × State
unfolding lifted_ip_ban forget_ip
write_ip_lift w target actor lift_reason none s = bumped_lift w target false s
write_ip_lift w target actor lift_reason (some row) s = elim (w.fails write_ban) [
  | some e ↦ (err e, s)
  | none ↦
      bumped_lift w target true
        (record s { ip_bans = put (λ x. x.id) (lifted_ip_ban w actor lift_reason row) s.ip_bans })
]

unfoldable pub lift_ip_ban :
    World → ParsedIpTarget → String → Option String → State → Result String Bool × State
unfolding write_ip_lift query_open_ip_ban
lift_ip_ban w target actor lift_reason s = elim (w.fails find_ban) [
  | some e ↦ (err e, s)
  | none ↦ write_ip_lift w target actor lift_reason (query_open_ip_ban w target s.ip_bans) s
]

-- ===== src/Bans/Ip/Enforced.antt =====
-- The check of an address that a stored network ban covers
-- (src/api/src/services/ban_service.rs: is_ip_banned_internal).
use arsivinyo_memegy_backend.Base.{
  ℕ, ◌≡◌, refl, ap, inl, inr, String, Bool, true, not, ◌&&◌, ◌||◌, List, [], ◌∷◌, Option, none,
  some, ok, keep, any, first, unwrap_or, arith, Bool-cases, Option-cases,
}
use arsivinyo_memegy_backend.Bans.Store.{
  IpAddr, IpBan, BanCacheEntry, CacheKey, ip_cache_key, ip_verdict_cache_key, State, find_ban,
  find_cidr_bans, read_version, read_key, write_key, Config, World, cached, read_cache_entry,
  write_cache_entry, ignoring, cache_entry_is_expired,
}
use arsivinyo_memegy_backend.Bans.User.Enforced.{Denied}
use arsivinyo_memegy_backend.Bans.Ip.{
  family, insert_ban, sorted, is_active_cidr, query_cidr_ip_bans, matches, cidr_match_for_ip,
  current_ip_ban_version, verdict_entry, ask_networks, after_verdict, ask_verdict, after_exact,
  ask_exact, after_ip_read, is_ip_banned_internal,
}

any-insert_ban :
    (q : IpBan → Bool) (b : IpBan) (bs : List IpBan)
    → q b || any q bs ≡ true
    → any q (insert_ban b bs) ≡ true
any-insert_ban q b [] h = h
any-insert_ban q b (x ∷ xs) h = elim (Bool-cases (q b || any q xs)) [
  | inl rest ↦ let r = any-insert_ban q b xs rest in ground (arith, r)
  | inr misses ↦ ground (arith, misses)
]

any-sorted : (q : IpBan → Bool) (bs : List IpBan) → any q bs ≡ true → any q (sorted bs) ≡ true
any-sorted q [] h = h
any-sorted q (b ∷ bs) h = elim (Bool-cases (q b)) [
  | inl yes_b ↦ any-insert_ban q b (sorted bs) (rw yes_b refl)
  | inr no_b ↦
      let r = any-sorted q bs (ground (arith, no_b)) in
      any-insert_ban q b (sorted bs) (ground (arith, r))
]

any-both :
    (p q : IpBan → Bool) (bs : List IpBan)
    → any (λ b. p b && q b) bs ≡ true
    → any q (keep p bs) ≡ true
any-both p q [] h = h
any-both p q (b ∷ bs) h = elim (Bool-cases (p b)) [
  | inl good ↦ elim (Bool-cases (q b)) [
    | inl fits ↦ rw good (rw fits refl)
    | inr misses ↦ rw good (rw misses (any-both p q bs (ground (arith, good, misses))))
  ]
  | inr bad ↦ rw bad (any-both p q bs (ground (arith, bad)))
]

first-some :
    (q : IpBan → Bool) (bs : List IpBan) → any q bs ≡ true → (b : IpBan) × (first q bs ≡ some b)
first-some q [] h = cc
first-some q (b ∷ bs) h = elim (Bool-cases (q b)) [
  | inl fits ↦ (b, rw fits refl)
  | inr misses ↦ rw misses (first-some q bs (ground (arith, misses)))
]

-- The table has a running ban of a network that contains the address, and the cache has no verdict on
-- the address under the current version.
pub record IsNetBanned (w : World) (ip : IpAddr) (s : State) : Type 0 where
  pub no_verdict : s.cache (ip_verdict_cache_key (unwrap_or s.ip_version 0) ip) ≡ none
  pub stored : any (λ b. is_active_cidr w (family ip) b && matches w ip b) s.ip_bans ≡ true

module _ (w : World) (config : Config) (ip : IpAddr) (s : State) where
  matched_some :
      IsNetBanned w ip s
      → (b : IpBan) × (cidr_match_for_ip w ip (query_cidr_ip_bans w ip s.ip_bans) ≡ some b)
  unfolding cidr_match_for_ip query_cidr_ip_bans
  matched_some h =
      first-some (matches w ip) (sorted (keep (is_active_cidr w (family ip)) s.ip_bans)) (
        any-sorted (matches w ip) (keep (is_active_cidr w (family ip)) s.ip_bans)
          (any-both (is_active_cidr w (family ip)) (matches w ip) s.ip_bans h.stored))

  verdict_banned : (o : Option IpBan) (b : IpBan) → o ≡ some b → (verdict_entry o).banned ≡ true
  verdict_banned (some x) b e = refl
  verdict_banned none b e = cc

  Denied-ask_networks :
      (key : CacheKey) → IsNetBanned w ip s → Denied w (ask_networks w config ip key s).0
  unfolding ask_networks
  Denied-ask_networks key h = elim (Option-cases (w.fails find_cidr_bans)) [
    | inr (e, fails) ↦ inr (find_cidr_bans, e, fails, rw (fails, ask_networks) refl)
    | inl works ↦
        let found = matched_some h in
        inl (rw (works, ask_networks) (ap ok (verdict_banned _ found.0 found.1)))
  ]

  cached_nothing :
      IsNetBanned w ip s
      → cached w.now (ip_verdict_cache_key (unwrap_or s.ip_version 0) ip) s ≡ none
  unfolding cached
  cached_nothing h = rw (h.no_verdict, cached) refl

  Denied-ask_verdict :
      IsNetBanned w ip s → w.fails read_version ≡ none → Denied w (ask_verdict w config ip s).0
  unfolding ask_verdict current_ip_ban_version read_cache_entry after_verdict
  Denied-ask_verdict h version = rw (version, current_ip_ban_version) (go _ refl)
    where
      key : CacheKey
      key = ip_verdict_cache_key (unwrap_or s.ip_version 0) ip

      go :
          (o : Option String)
          → w.fails (read_key key) ≡ o
          → Denied w (after_verdict w config ip key s (read_cache_entry w key s)).0
      go (some e) fails = inr (read_key key, e, fails, rw (fails, read_cache_entry) refl)
      go none works =
          rw (works, read_cache_entry) (rw (cached_nothing h) (Denied-ask_networks key h))

module _ (w : World) (config : Config) (ip : IpAddr) where
  IsNetBanned-write :
      (s : State) (entry : BanCacheEntry) (ttl : ℕ)
      → IsNetBanned w ip s
      → IsNetBanned w ip (ignoring s (write_cache_entry w (ip_cache_key ip) entry ttl s))
  unfolding write_cache_entry
  IsNetBanned-write s entry ttl h = elim (Option-cases (w.fails (write_key (ip_cache_key ip)))) [
    | inr (e, fails) ↦ rw (fails, ignoring, write_cache_entry) h
    | inl works ↦
        rw (works, ignoring, write_cache_entry)
          (record { no_verdict = h.no_verdict; stored = h.stored })
  ]

  Denied-after_exact :
      (s : State) (o : Option IpBan)
      → IsNetBanned w ip s
      → w.fails read_version ≡ none
      → Denied w (after_exact w config ip o s).0
  unfolding after_exact
  Denied-after_exact s (some b) h version = inl refl
  Denied-after_exact s none h version =
      Denied-ask_verdict w config ip _ (IsNetBanned-write s _ _ h) version

  Denied-ask_exact :
      (s : State)
      → IsNetBanned w ip s
      → w.fails read_version ≡ none
      → Denied w (ask_exact w config ip s).0
  unfolding ask_exact
  Denied-ask_exact s h version = elim (Option-cases (w.fails find_ban)) [
    | inr (e, fails) ↦ inr (find_ban, e, fails, rw (fails, ask_exact) refl)
    | inl works ↦ rw (works, ask_exact) (Denied-after_exact s _ h version)
  ]

  Denied-after_ip_read :
      (s : State) (o : Option BanCacheEntry)
      → IsNetBanned w ip s
      → w.fails read_version ≡ none
      → Denied w (after_ip_read w config ip s (ok o)).0
  unfolding after_ip_read
  Denied-after_ip_read s none h version = Denied-ask_exact s h version
  Denied-after_ip_read s (some entry) h version =
      elim (Bool-cases (not (cache_entry_is_expired w.now entry) && entry.banned)) [
        | inl hit ↦ rw hit (inl refl)
        | inr miss ↦ rw miss (Denied-ask_exact s h version)
      ]

  -- A check of the address finds it banned, or hands on the error of a call.
  pub Denied-ip_check :
      (s : State)
      → IsNetBanned w ip s
      → w.fails read_version ≡ none
      → Denied w (is_ip_banned_internal w config ip s).0
  unfolding is_ip_banned_internal read_cache_entry after_ip_read
  Denied-ip_check s h version = elim (Option-cases (w.fails (read_key (ip_cache_key ip)))) [
    | inr (e, fails) ↦ inr (read_key (ip_cache_key ip), e, fails, rw (fails, read_cache_entry) refl)
    | inl works ↦ rw (works, read_cache_entry) (Denied-after_ip_read s _ h version)
  ]

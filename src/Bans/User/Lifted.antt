-- ===== src/Bans/User/Lifted.antt =====
-- A lifted ban of a user is gone (src/api/src/services/ban_service.rs: lift_user_ban).
use arsivinyo_memegy_backend.Base.{
  ℕ, ◌≤◌, ◌≡◌, refl, ap, sym, ◌∙◌, subst, ◌⊎◌, inl, inr, String, Bool, false, List, Option, none,
  some, Result, ok, err, length, keep, any, arith, Option-cases,
}
use arsivinyo_memegy_backend.Bans.Rows.{latest-nothing, any-close, any-nothing, any-weaken}
use arsivinyo_memegy_backend.Bans.Store.{
  UserBan, BanEnforcementError, unavailable, user_cache_key, key_eq_refl, State, Call, find_ban,
  write_ban, Config, World, read_key, delete_key, cached, read_cache_entry, delete_cache_key,
  put_key,
}
use arsivinyo_memegy_backend.Bans.User.{
  is_open, is_active, query_active_user_ban, query_open_user_ban, remember, ask_table, after_read,
  is_user_banned_internal, enforce, ensure_user_not_banned, lifted_ban, write_lift, after_lift,
  cached_ban, lift_user_ban,
}

-- A user has at most one ban that was not lifted.
abbrev pub HasOneOpen : ℕ → List UserBan → Type 0
HasOneOpen user bans = length (keep (is_open user) bans) ≤ 1

-- The table has no ban of the user that was not lifted, and the cache has no verdict on the user.
record IsFree (user : ℕ) (s : State) : Type 0 where
  forgotten : s.cache (user_cache_key user) ≡ none
  lifted : any (is_open user) s.user_bans ≡ false

-- The user passes, or a call failed.
abbrev pub Passes : World → Result BanEnforcementError (Unit {0}) → Type 0
Passes w r =
    (r ≡ ok tt) ⊎ ((r ≡ err unavailable) × ((c : Call) × (e : String) × (w.fails c ≡ some e)))

module _ (w : World) (config : Config) (user : ℕ) (s : State) where
  active_none : IsFree user s → query_active_user_ban w.now user s.user_bans ≡ none
  unfolding query_active_user_ban is_active
  active_none h =
      latest-nothing (λ b. b.created_at) (is_active w.now user) s.user_bans
        (any-weaken (is_open user) (is_active w.now user) s.user_bans (λ b e. rw e refl) h.lifted)

  ask_table-Passes : IsFree user s → Passes w (enforce (ask_table w config user s).0)
  unfolding ask_table remember
  ask_table-Passes h = elim (Option-cases (w.fails find_ban)) [
    | inr (e, fails) ↦ inr (rw (fails, ask_table) refl, (find_ban, e, fails))
    | inl works ↦ inl (rw (works, ask_table) (rw (active_none h) refl))
  ]

  forgotten_entry : IsFree user s → cached w.now (user_cache_key user) s ≡ none
  unfolding cached
  forgotten_entry h = rw (h.forgotten, cached) refl

  ensure-Passes : IsFree user s → Passes w (ensure_user_not_banned w config user s).0
  unfolding ensure_user_not_banned is_user_banned_internal read_cache_entry after_read
  ensure-Passes h = elim (Option-cases (w.fails (read_key (user_cache_key user)))) [
    | inr (e, fails) ↦
        inr (
          rw (fails, read_cache_entry, after_read) refl,
          (read_key (user_cache_key user), e, fails),
        )
    | inl works ↦ rw (works, read_cache_entry) (rw (forgotten_entry h) (ask_table-Passes h))
  ]

module _ (w : World) (user : ℕ) (actor : String) (lift_reason : Option String) (s : State) where
  deleted-IsFree :
      (t : State) (found : Bool) (b : Bool) (s' : State)
      → any (is_open user) t.user_bans ≡ false
      → cached_ban found t (delete_cache_key w (user_cache_key user) t) ≡ (ok b, s')
      → IsFree user s'
  unfolding delete_cache_key
  deleted-IsFree t found b s' lifted e =
      elim (Option-cases (w.fails (delete_key (user_cache_key user)))) [
        | inr (x, fails) ↦
            let failed : cached_ban found t (err x) ≡ (ok b, s') = ground (arith, e, fails) in
            let clash : err x ≡ ok b = ap (λ r. r.0) failed in cc clash
        | inl works ↦
            let done : cached_ban found t (ok (put_key (user_cache_key user) none t)) ≡ (ok b, s') =
              ground (arith, e, works) in
            subst (IsFree user) (ap (λ r. r.1) done)
              (record { forgotten = rw (key_eq_refl (user_cache_key user)) refl; lifted = lifted })
      ]

  -- What the lift leaves of the table.
  abbrev LeavesNone : Result String (Bool × State) → Type 0
  LeavesNone (ok (found, t)) = any (is_open user) t.user_bans ≡ false
  LeavesNone (err e) = Unit

  write_lift-LeavesNone :
      (o : Option UserBan)
      → query_open_user_ban user s.user_bans ≡ o
      → HasOneOpen user s.user_bans
      → LeavesNone (write_lift w actor lift_reason o s)
  unfolding write_lift query_open_user_ban is_open lifted_ban
  write_lift-LeavesNone none e one = any-nothing (λ b. b.created_at) (is_open user) s.user_bans e
  write_lift-LeavesNone (some row) e one = elim (Option-cases (w.fails write_ban)) [
    | inr (x, fails) ↦ rw (fails, write_lift) tt
    | inl works ↦
        rw (works, write_lift)
          (any-close (λ b. b.created_at) (λ b. b.id) row (lifted_ban w actor lift_reason row)
            (is_open user) s.user_bans one e refl (ground arith))
  ]

  after_lift-IsFree :
      (r : Result String (Bool × State)) (b : Bool) (s' : State)
      → LeavesNone r
      → after_lift w user s r ≡ (ok b, s')
      → IsFree user s'
  after_lift-IsFree (ok (found, t)) b s' h e = deleted-IsFree t found b s' h e
  after_lift-IsFree (err x) b s' h e = let clash : err x ≡ ok b = ap (λ r. r.0) e in cc clash

  lift_user_ban-IsFree :
      (b : Bool) (s' : State)
      → HasOneOpen user s.user_bans
      → lift_user_ban w user actor lift_reason s ≡ (ok b, s')
      → IsFree user s'
  unfolding lift_user_ban
  lift_user_ban-IsFree b s' one e = elim (Option-cases (w.fails find_ban)) [
    | inr (x, fails) ↦
        let failed : lift_user_ban w user actor lift_reason s ≡ (err x, s) =
          rw (fails, lift_user_ban) refl in
        let clash : err x ≡ ok b = ap (λ r. r.0) (sym failed ∙ e) in cc clash
    | inl works ↦
        let done : lift_user_ban w user actor lift_reason s
            ≡ after_lift w user s
                (write_lift w actor lift_reason (query_open_user_ban user s.user_bans) s) =
          rw (works, lift_user_ban) refl in
        after_lift-IsFree _ b s' (write_lift-LeavesNone _ refl one) (sym done ∙ e)
  ]

  -- After a lift that succeeds, of a user with at most one ban not lifted, a check lets the user pass,
  -- or is unavailable because one of its own calls failed.
  pub lift_user_ban-Passes :
      (b : Bool) (s' : State) (w' : World) (config : Config)
      → HasOneOpen user s.user_bans
      → lift_user_ban w user actor lift_reason s ≡ (ok b, s')
      → Passes w' (ensure_user_not_banned w' config user s').0
  lift_user_ban-Passes b s' w' config one e =
      ensure-Passes w' config user s' (lift_user_ban-IsFree b s' one e)

-- ===== src/Accounts/Complete.antt =====
-- What the clean-up of deleted accounts removes, and what it leaves (src/worker/src/account_cleanup.rs).
use mathlib.Core.List.{Memᴰ}
use arsivinyo_memegy_backend.Base.{
  ℕ, ◌≡◌, refl, sym, ap, ◌∙◌, subst, inl, inr, String, Bool, true, false, not, List, [], ◌∷◌,
  Result, ok, err, any, keep, ◌==◌, ==_iff, Bool-cases, Option-cases, arith,
}
use arsivinyo_memegy_backend.Video.{Video}
use arsivinyo_memegy_backend.Accounts.{
  User, State, find_users, find_videos, delete_user, World, is_expired, thumb_key, is_owned,
  delete_objects, delete_cascade, clean_account, and_next, clean_accounts, process_expired_accounts,
}

keep-keep-other :
    (a k : ℕ) (vs : List Video)
    → a == k ≡ false
    → keep (is_owned k) (keep (λ v. not (is_owned a v)) vs) ≡ keep (is_owned k) vs
keep-keep-other a k [] e = refl
keep-keep-other a k (v ∷ vs) e = ground (arith, keep-keep-other a k vs e, e)

keep-keep-other-users :
    (a k : ℕ) (us : List User)
    → a == k ≡ false
    → keep (λ u. u.id == k) (keep (λ u. not (u.id == a)) us) ≡ keep (λ u. u.id == k) us
keep-keep-other-users a k [] e = refl
keep-keep-other-users a k (u ∷ us) e = ground (arith, keep-keep-other-users a k us e, e)

-- The account and the videos of a user.
abbrev pub kept : ℕ → State → List User × List Video
kept k s = (keep (λ u. u.id == k) s.users, keep (is_owned k) s.videos)

module _ (w : World) (k : ℕ) where
  clean_account-kept :
      (u : User) (s : State) → u.id == k ≡ false → kept k (clean_account w u s).1 ≡ kept k s
  unfolding clean_account delete_cascade
  clean_account-kept u s e = elim (Option-cases (w.db (find_videos u.id))) [
    | inr (x, fails) ↦ rw (fails, clean_account) refl
    | inl found ↦ elim (Option-cases (w.db (delete_user u.id))) [
      | inr (x, fails) ↦ rw (found, clean_account) (rw fails refl)
      | inl deleted ↦
          rw (found, clean_account)
            (rw deleted
              λ i. (keep-keep-other-users u.id k s.users e i, keep-keep-other u.id k s.videos e i))
    ]
  ]

  and_next-kept :
      (next : State → Result String (Unit {0}) × State) (s : State)
      (r : Result String (Unit {0}) × State)
      → ((t : State) → kept k (next t).1 ≡ kept k t)
      → kept k r.1 ≡ kept k s
      → kept k (and_next next r).1 ≡ kept k s
  and_next-kept next s (ok _, t) h e = h t ∙ e
  and_next-kept next s (err x, t) h e = e

  clean_accounts-kept :
      (us : List User) (s : State)
      → any (λ u. u.id == k) us ≡ false
      → kept k (clean_accounts w us s).1 ≡ kept k s
  unfolding clean_accounts
  clean_accounts-kept [] s e = refl
  clean_accounts-kept (u ∷ us) s e =
      and_next-kept (clean_accounts w us) s (clean_account w u s)
        (λ t. clean_accounts-kept us t (ground (arith, e)))
        (clean_account-kept u s (ground (arith, e)))

  -- Whatever fails, the clean-up leaves the account and the videos of a user alone, unless the account was
  -- deleted more than 30 days ago.
  pub process_expired_accounts-kept :
      (s : State)
      → any (λ u. u.id == k) (keep (is_expired w.now) s.users) ≡ false
      → kept k (process_expired_accounts w s).1 ≡ kept k s
  unfolding process_expired_accounts
  process_expired_accounts-kept s e = elim (Option-cases (w.db find_users)) [
    | inr (x, fails) ↦ rw (fails, process_expired_accounts) refl
    | inl found ↦
        rw (found, process_expired_accounts)
          (clean_accounts-kept (keep (is_expired w.now) s.users) s e)
  ]

pub Mem-keep :
    (p : Video → Bool) (v : Video) (vs : List Video) → p v ≡ true → Memᴰ v vs → Memᴰ v (keep p vs)
Mem-keep p v [] e m = elim m [ ]
Mem-keep p v (x ∷ vs) e (Memᴰ.head same) = rw (ap p (sym same) ∙ e) (Memᴰ.head same)
Mem-keep p v (x ∷ vs) e (Memᴰ.tail m) = elim (Bool-cases (p x)) [
  | inl yes_p ↦ rw yes_p (Memᴰ.tail (Mem-keep p v vs e m))
  | inr no_p ↦ rw no_p (Mem-keep p v vs e m)
]

any-keep-not :
    (a : ℕ) (vs : List Video) → any (is_owned a) (keep (λ v. not (is_owned a v)) vs) ≡ false
any-keep-not a [] = refl
any-keep-not a (v ∷ vs) = ground (arith, any-keep-not a vs)

any-keep-false :
    (p q : Video → Bool) (vs : List Video) → any p vs ≡ false → any p (keep q vs) ≡ false
any-keep-false p q [] e = refl
any-keep-false p q (v ∷ vs) e = ground (arith, e, any-keep-false p q vs (ground (arith, e)))

not_done : (x : String) → ¬ (◌≡◌ {A = Result String (Unit {0})} (err x) (ok tt))
not_done x e = cc

module _ (w : World) (v : Video) where
  -- The video's objects were asked to be deleted, and no row of its owner's videos is left.
  pub record IsCleaned (s : State) : Type 0 where
    pub video_deleted : Memᴰ (v.s3_bucket, v.s3_key) s.deletes
    pub thumbnail_deleted : Memᴰ (v.s3_bucket, thumb_key w v.id) s.deletes
    pub rows_deleted : any (is_owned v.user_id) s.videos ≡ false

  Mem-delete_objects :
      (d : String × String) (vs : List Video) (ds : List (String × String))
      → Memᴰ d ds
      → Memᴰ d (delete_objects w vs ds)
  unfolding delete_objects
  Mem-delete_objects d [] ds m = m
  Mem-delete_objects d (x ∷ vs) ds m = Mem-delete_objects d vs _ (Memᴰ.tail (Memᴰ.tail m))

  delete_objects-Mem :
      (vs : List Video) (ds : List (String × String))
      → Memᴰ v vs
      → Memᴰ (v.s3_bucket, v.s3_key) (delete_objects w vs ds)
        × Memᴰ (v.s3_bucket, thumb_key w v.id) (delete_objects w vs ds)
  unfolding delete_objects
  delete_objects-Mem [] ds m = elim m [ ]
  delete_objects-Mem (x ∷ vs) ds (Memᴰ.head e) = (
    Mem-delete_objects _ vs _ (Memᴰ.tail (Memᴰ.head (λ i. ((e i).s3_bucket, (e i).s3_key)))),
    Mem-delete_objects _ vs _ (Memᴰ.head (λ i. ((e i).s3_bucket, thumb_key w (e i).id))),
  )
  delete_objects-Mem (x ∷ vs) ds (Memᴰ.tail m) = delete_objects-Mem vs _ m

  asked : User → State → State
  asked u s = record s { deletes = delete_objects w (keep (is_owned u.id) s.videos) s.deletes }

  clean_account-ok :
      (u : User) (s t : State)
      → clean_account w u s ≡ (ok tt, t)
      → t ≡ delete_cascade u.id (asked u s)
  unfolding clean_account asked
  clean_account-ok u s t e = elim (Option-cases (w.db (find_videos u.id))) [
    | inr (x, fails) ↦
        let end : clean_account w u s ≡ (err x, s) = rw (fails, clean_account) refl in
        elim (not_done x (ap (λ r. r.0) (sym end ∙ e))) [ ]
    | inl found ↦ elim (Option-cases (w.db (delete_user u.id))) [
      | inr (x, fails) ↦
          let end : clean_account w u s ≡ (err x, asked u s) =
            rw (found, clean_account) (rw fails refl) in
          elim (not_done x (ap (λ r. r.0) (sym end ∙ e))) [ ]
      | inl deleted ↦
          let end : clean_account w u s ≡ (ok tt, delete_cascade u.id (asked u s)) =
            rw (found, clean_account) (rw deleted refl) in
          ap (λ r. r.1) (sym e ∙ end)
    ]
  ]

  IsCleaned-cascade :
      (u : User) (s : State) → IsCleaned s → IsCleaned (delete_cascade u.id (asked u s))
  unfolding delete_cascade asked
  IsCleaned-cascade u s c = record {
    video_deleted = Mem-delete_objects _ (keep (is_owned u.id) s.videos) s.deletes c.video_deleted;
    thumbnail_deleted =
        Mem-delete_objects _ (keep (is_owned u.id) s.videos) s.deletes c.thumbnail_deleted;
    rows_deleted = any-keep-false (is_owned v.user_id) _ s.videos c.rows_deleted;
  }

  cascade-IsCleaned :
      (u : User) (s : State)
      → u.id ≡ v.user_id
      → Memᴰ v s.videos
      → IsCleaned (delete_cascade u.id (asked u s))
  unfolding delete_cascade asked
  cascade-IsCleaned u s e m =
      let found =
        delete_objects-Mem (keep (is_owned u.id) s.videos) s.deletes
          (Mem-keep (is_owned u.id) v s.videos ((==_iff v.user_id u.id).1 (sym e)) m) in
      record {
        video_deleted = found.0;
        thumbnail_deleted = found.1;
        rows_deleted =
            subst (λ a. any (is_owned a) (keep (λ x. not (is_owned u.id x)) s.videos) ≡ false) e
              (any-keep-not u.id s.videos);
      }

  cascade-Mem :
      (u : User) (s : State)
      → u.id == v.user_id ≡ false
      → Memᴰ v s.videos
      → Memᴰ v (delete_cascade u.id (asked u s)).videos
  unfolding delete_cascade asked
  cascade-Mem u s e m = Mem-keep (λ x. not (is_owned u.id x)) v s.videos (ground (arith, e)) m

  -- What a loop that ends well gives, from a step that may have ended well.
  and_next-IsCleaned :
      (next : State → Result String (Unit {0}) × State) (s' : State)
      (r : Result String (Unit {0}) × State)
      → ((t : State) → r ≡ (ok tt, t) → next t ≡ (ok tt, s') → IsCleaned s')
      → and_next next r ≡ (ok tt, s')
      → IsCleaned s'
  and_next-IsCleaned next s' (ok tt, t) h e = h t refl e
  and_next-IsCleaned next s' (err x, t) h e = elim (not_done x (ap (λ r. r.0) e)) [ ]

  clean_accounts-IsCleaned :
      (us : List User) (s s' : State)
      → clean_accounts w us s ≡ (ok tt, s')
      → IsCleaned s
      → IsCleaned s'
  unfolding clean_accounts
  clean_accounts-IsCleaned [] s s' e c = subst IsCleaned (ap (λ r. r.1) e) c
  clean_accounts-IsCleaned (u ∷ us) s s' e c =
      and_next-IsCleaned (clean_accounts w us) s' (clean_account w u s)
        (λ t step rest.
          clean_accounts-IsCleaned us t s' rest
            (subst IsCleaned (sym (clean_account-ok u s t step)) (IsCleaned-cascade u s c)))
        e

  clean_accounts-cleans :
      (us : List User) (s s' : State)
      → clean_accounts w us s ≡ (ok tt, s')
      → any (λ u. u.id == v.user_id) us ≡ true
      → Memᴰ v s.videos
      → IsCleaned s'
  unfolding clean_accounts
  clean_accounts-cleans [] s s' e found m = cc
  clean_accounts-cleans (u ∷ us) s s' e found m = elim (Bool-cases (u.id == v.user_id)) [
    | inl own ↦
        and_next-IsCleaned (clean_accounts w us) s' (clean_account w u s)
          (λ t step rest. clean_accounts-IsCleaned us t s' rest (
            subst IsCleaned (sym (clean_account-ok u s t step))
              (cascade-IsCleaned u s ((==_iff u.id v.user_id).0 own) m)))
          e
    | inr other ↦
        and_next-IsCleaned (clean_accounts w us) s' (clean_account w u s)
          (λ t step rest. clean_accounts-cleans us t s' rest (rw other at found) (
            subst (λ x. Memᴰ v x.videos) (sym (clean_account-ok u s t step))
              (cascade-Mem u s other m)))
          e
  ]

  -- A clean-up that ends well has asked for the deletion of both objects of every video of an account that
  -- was deleted more than 30 days ago, and leaves no row of a video of that account.
  pub process_expired_accounts-IsCleaned :
      (s s' : State)
      → process_expired_accounts w s ≡ (ok tt, s')
      → any (λ u. u.id == v.user_id) (keep (is_expired w.now) s.users) ≡ true
      → Memᴰ v s.videos
      → IsCleaned s'
  unfolding process_expired_accounts
  process_expired_accounts-IsCleaned s s' e found m = elim (Option-cases (w.db find_users)) [
    | inr (x, fails) ↦
        let end : process_expired_accounts w s ≡ (err x, s) =
          rw (fails, process_expired_accounts) refl in
        elim (not_done x (ap (λ r. r.0) (sym end ∙ e))) [ ]
    | inl read ↦
        let end : process_expired_accounts w s
            ≡ clean_accounts w (keep (is_expired w.now) s.users) s =
          rw (read, process_expired_accounts) refl in
        clean_accounts-cleans (keep (is_expired w.now) s.users) s s' (sym end ∙ e) found m
  ]

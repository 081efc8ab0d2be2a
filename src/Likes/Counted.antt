-- ===== src/Likes/Counted.antt =====
-- The like count of a video against the rows of `likes` (src/api/src/videos/handlers.rs).
use arsivinyo_memegy_backend.Base.{
  ℕ, String, suc, ◌+◌, ◌-◌, ◌≤◌, ◌≡◌, refl, sym, ap, subst, ◌⊎◌, inl, inr, Bool, true, false, not,
  List, [], ◌∷◌, Option, none, some, Result, ok, err, keep, ◌==◌, option_map, if◌then◌else◌, arith,
}
use arsivinyo_memegy_backend.Video.{Video}
use arsivinyo_memegy_backend.Counters.{Redis}
use arsivinyo_memegy_backend.Api.{ApiError, ◌>>=◌, ◌>>◌, db_call, or_else, Holds, Holds-bind}
use arsivinyo_memegy_backend.Likes.{
  Tables, State, World, Config, read_count, begin, write_like, commit, LikeVideoResponse, is_like,
  has_like, insert_like_if_missing, delete_like, update_count, with_likes, like_txn, written_count,
  get_video_like_count, committed, liked, unliked, within_limit, set_like_video, unset_like_video,
  get_published_video_or_404, enforce_like_rate_limit,
}

-- The number of likes of a video, and of one user's likes of it.
abbrev pub likes_of : ℕ → List (ℕ × ℕ) → ℕ
likes_of id [] = 0
likes_of id (p ∷ ps) = let rest = likes_of id ps in if p.1 == id then suc rest else rest

abbrev pub rows_of : ℕ → ℕ → List (ℕ × ℕ) → ℕ
rows_of user id [] = 0
rows_of user id (p ∷ ps) =
    let rest = rows_of user id ps in if is_like user id p then suc rest else rest

pub record IsCounted (t : Tables) : Type 0 where
  pub counted : (id : ℕ) (v : Video) → t.videos id ≡ some v → v.like_count ≡ likes_of id t.likes
  pub distinct : (user id : ℕ) → rows_of user id t.likes ≤ 1

pub has_like-rows_of :
    (user id : ℕ) (ps : List (ℕ × ℕ))
    → ((has_like user id ps ≡ true) × (1 ≤ rows_of user id ps))
      ⊎ ((has_like user id ps ≡ false) × (rows_of user id ps ≡ 0))
unfolding has_like
has_like-rows_of user id [] = inr (refl, refl)
has_like-rows_of user id (p ∷ ps) = ground (arith, has_like-rows_of user id ps)

likes_of-keep :
    (user id k : ℕ) (ps : List (ℕ × ℕ))
    → likes_of k (keep (λ p. not (is_like user id p)) ps)
        + (if id == k then rows_of user id ps else 0)
      ≡ likes_of k ps
likes_of-keep user id k [] = ground arith
likes_of-keep user id k (p ∷ ps) = ground (arith, likes_of-keep user id k ps)

rows_of-keep :
    (user id u k : ℕ) (ps : List (ℕ × ℕ))
    → rows_of u k (keep (λ p. not (is_like user id p)) ps) ≤ rows_of u k ps
rows_of-keep user id u k [] = omega arith
rows_of-keep user id u k (p ∷ ps) = ground (arith, rows_of-keep user id u k ps)

abbrev count_or : ℕ → Option Video → ℕ
count_or n none = n
count_or n (some v) = v.like_count

updated-found :
    (f : ℕ → ℕ) (b : Bool) (o : Option Video) (v : Video)
    → (if b then option_map (λ (x : Video). record x { like_count = f x.like_count }) o else o)
      ≡ some v
    → (old : Video) × (o ≡ some old)
      × (v.like_count ≡ (if b then f old.like_count else old.like_count))
updated-found f true none v e = cc
updated-found f false none v e = cc
updated-found f true (some old) v e = (old, refl, sym (ap (count_or 0) e))
updated-found f false (some old) v e = (old, refl, sym (ap (count_or 0) e))

module _ (user id : ℕ) (t : Tables) (h : IsCounted t) where
  counts-insert :
      rows_of user id t.likes ≡ 0
      → IsCounted (with_likes (λ n. n + 1) id (true, (user, id) ∷ t.likes) t)
  unfolding update_count
  counts-insert zero_rows = record {
    counted = λ k v e.
        let old = updated-found (λ n. n + 1) (k == id) (t.videos k) v e in
        let was = h.counted k old.0 old.1 in ground (arith, old.2, was);
    distinct = λ u k. ground (arith, h.distinct u k);
  }

  counts-delete :
      (rows_of user id t.likes ≡ 1)
      → IsCounted (with_likes (λ n. n - 1) id (true, keep (λ p. not (is_like user id p)) t.likes) t)
  unfolding update_count
  counts-delete one_row = record {
    counted = λ k v e.
        let old = updated-found (λ n. n - 1) (k == id) (t.videos k) v e in
        let was = h.counted k old.0 old.1 in
        ground (arith, old.2, was, likes_of-keep user id k t.likes);
    distinct = λ u k. omega (arith, h.distinct u k, rows_of-keep user id u k t.likes);
  }

  counts-same :
      rows_of user id t.likes ≡ 0
      → IsCounted
          (with_likes (λ n. n - 1) id (false, keep (λ p. not (is_like user id p)) t.likes) t)
  counts-same zero_rows = record {
    counted = λ k v e. ground (arith, h.counted k v e, likes_of-keep user id k t.likes);
    distinct = λ u k. omega (arith, h.distinct u k, rows_of-keep user id u k t.likes);
  }

  pub insert-IsCounted :
      IsCounted (with_likes (λ n. n + 1) id (insert_like_if_missing user id t.likes) t)
  unfolding insert_like_if_missing
  insert-IsCounted = elim (has_like-rows_of user id t.likes) [
    | inl (has, _) ↦ rw has h
    | inr (lacks, zero_rows) ↦ rw lacks (counts-insert zero_rows)
  ]

  pub delete-IsCounted : IsCounted (with_likes (λ n. n - 1) id (delete_like user id t.likes) t)
  unfolding delete_like
  delete-IsCounted = elim (has_like-rows_of user id t.likes) [
    | inl (has, some_rows) ↦ rw has (counts-delete (omega (arith, h.distinct user id)))
    | inr (lacks, zero_rows) ↦ rw lacks (counts-same zero_rows)
  ]

-- How an action on the likes of a video ends: with the tables unchanged, or with the tables `t'` and with
-- the count that they have of the video.
abbrev pub Ended : Tables → Tables → ℕ → Bool → Result ApiError LikeVideoResponse × State → Type 0
Ended t t' id b (err e, s) = s.tables ≡ t
Ended t t' id b (ok r, s) =
    (s.tables ≡ t')
    × (r.is_liked ≡ b)
    × ((v : Video) × (t'.videos id ≡ some v) × (r.like_count ≡ v.like_count))

-- What a transaction that commits gives.
abbrev Gives : ℕ → Tables → ℕ × Tables → Type 0
Gives id t' (n, t) = (t ≡ t') × ((v : Video) × (t'.videos id ≡ some v) × (n ≡ v.like_count))

count-found :
    (e : ApiError) (c : Option String) (o : Option Video) (n : ℕ)
    → (db_call c >> (or_else o e >>= λ v. ok v.like_count)) ≡ ok n
    → (v : Video) × (o ≡ some v) × (n ≡ v.like_count)
count-found x none none n e = cc
count-found x none (some v) n e = (v, refl, cc)
count-found x (some _) none n e = cc
count-found x (some _) (some v) n e = cc

get_video_like_count-found :
    (w : World) (id : ℕ) (t : Tables) (n : ℕ)
    → get_video_like_count w id t ≡ ok n
    → (v : Video) × (t.videos id ≡ some v) × (n ≡ v.like_count)
unfolding get_video_like_count
get_video_like_count-found w id t n e = count-found _ (w.db read_count) (t.videos id) n e

like_txn-Gives :
    (w : World) (id : ℕ) (rows : List (ℕ × ℕ) → Bool × List (ℕ × ℕ)) (f : ℕ → ℕ) (t : Tables)
    → Holds (Gives id (with_likes f id (rows t.likes) t)) (like_txn w id rows f t)
like_txn-Gives w id rows f t =
    let t' = with_likes f id (rows t.likes) t in
    Holds-bind _ (db_call (w.db begin)) _ λ _ _. Holds-bind _ (db_call (w.db write_like)) _ λ _ _.
      Holds-bind _ (written_count w (rows t.likes).0) _ λ _ _.
        Holds-bind _ (get_video_like_count w id t') _ λ n e.
          Holds-bind _ (db_call (w.db commit)) _
            λ _ _. (refl, get_video_like_count-found w id t' n e)

committed-Ended :
    (user id owner : ℕ) (b : Bool) (s : State) (t' : Tables) (r : Result ApiError (ℕ × Tables))
    → Holds (Gives id t') r
    → Ended s.tables t' id b (committed user b owner s r)
committed-Ended user id owner b s t' (err e) h = refl
committed-Ended user id owner b s t' (ok (n, t)) h = (h.0, refl, h.1)

module _ (w : World) (config : Config) (user id : ℕ) where
  limited-Ended :
      (s : State) (b : Bool) (t' : Tables)
      (next : State → Result ApiError LikeVideoResponse × State)
      → ((redis : Redis) → Ended s.tables t' id b (next (record s { redis = redis })))
      → (r : Result ApiError (Unit {0}) × Redis) → Ended s.tables t' id b (within_limit next s r)
  limited-Ended s b t' next h (ok _, redis) = h redis
  limited-Ended s b t' next h (err e, redis) = refl

  liked-Ended :
      (s : State) (r : Result ApiError Video)
      → Ended s.tables
          (with_likes (λ n. n + 1) id (insert_like_if_missing user id s.tables.likes) s.tables)
          id
          true
          (liked w user id s r)
  liked-Ended s (err e) = refl
  liked-Ended s (ok video) =
      committed-Ended user id video.user_id true s _ _
        (like_txn-Gives w id (insert_like_if_missing user id) (λ n. n + 1) s.tables)

  unliked-Ended :
      (s : State) (r : Result ApiError Video)
      → Ended s.tables
          (with_likes (λ n. n - 1) id (delete_like user id s.tables.likes) s.tables)
          id
          false
          (unliked w user id s r)
  unliked-Ended s (err e) = refl
  unliked-Ended s (ok video) =
      committed-Ended user id video.user_id false s _ _
        (like_txn-Gives w id (delete_like user id) (λ n. n - 1) s.tables)

  pub set_like_video-Ended :
      (s : State)
      → Ended s.tables
          (with_likes (λ n. n + 1) id (insert_like_if_missing user id s.tables.likes) s.tables)
          id
          true
          (set_like_video w config user id s)
  unfolding set_like_video
  set_like_video-Ended s =
      limited-Ended s true _ (λ t. liked w user id t (get_published_video_or_404 w id t.tables))
        (λ redis.
          liked-Ended (record s { redis = redis }) (get_published_video_or_404 w id s.tables))
        (enforce_like_rate_limit w config user s.redis)

  pub unset_like_video-Ended :
      (s : State)
      → Ended s.tables
          (with_likes (λ n. n - 1) id (delete_like user id s.tables.likes) s.tables)
          id
          false
          (unset_like_video w config user id s)
  unfolding unset_like_video
  unset_like_video-Ended s =
      limited-Ended s false _ (λ t. unliked w user id t (get_published_video_or_404 w id t.tables))
        (λ redis.
          unliked-Ended (record s { redis = redis }) (get_published_video_or_404 w id s.tables))
        (enforce_like_rate_limit w config user s.redis)

-- One action on the likes: its world, the user and the video.
pub data Action : Type 0 where
  set unset : World → Config → ℕ → ℕ → Action

abbrev pub act : Action → State → Result ApiError LikeVideoResponse × State
act (set w config user id) s = set_like_video w config user id s
act (unset w config user id) s = unset_like_video w config user id s

abbrev pub after : List Action → State → State
after [] s = s
after (a ∷ rest) s = after rest (act a s).1

Ended-IsCounted :
    (t t' : Tables) (id : ℕ) (b : Bool) (r : Result ApiError LikeVideoResponse × State)
    → Ended t t' id b r
    → IsCounted t
    → IsCounted t'
    → IsCounted r.1.tables
Ended-IsCounted t t' id b (err e, s) same h h' = subst IsCounted (sym same) h
Ended-IsCounted t t' id b (ok r, s) done h h' = subst IsCounted (sym done.0) h'

act-IsCounted : (a : Action) (s : State) → IsCounted s.tables → IsCounted (act a s).1.tables
act-IsCounted (set w config user id) s h =
    Ended-IsCounted s.tables _ id true _ (set_like_video-Ended w config user id s) h
      (insert-IsCounted user id s.tables h)
act-IsCounted (unset w config user id) s h =
    Ended-IsCounted s.tables _ id false _ (unset_like_video-Ended w config user id s) h
      (delete-IsCounted user id s.tables h)

-- After any actions of any users on the likes of any videos, whichever of their calls failed, the like
-- count of every video is the number of its rows of `likes`, and no user has two rows for one video, if
-- this held before.
pub after-IsCounted :
    (actions : List Action) (s : State) → IsCounted s.tables → IsCounted (after actions s).tables
after-IsCounted [] s h = h
after-IsCounted (a ∷ rest) s h = after-IsCounted rest (act a s).1 (act-IsCounted a s h)

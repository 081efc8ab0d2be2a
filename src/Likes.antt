-- ===== src/Likes.antt =====
-- Likes of videos (src/api/src/videos/handlers.rs: set_like_video, unset_like_video). `like_count` is a
-- number without upper bound, where the column has 64 bits.
pub mod Counted
pub mod Sets
mod Tests
use Prim.Native.String.{◌++◌ as str_append}
use arsivinyo_memegy_backend.Base.{
  ℕ, suc, ◌+◌, ◌-◌, String, Bool, true, false, not, ◌&&◌, List, [], ◌∷◌, Option, none, some, Result,
  ok, err, str_eq, any, keep, ◌==◌, option_map, if◌then◌else◌,
}
use arsivinyo_memegy_backend.Video.{Video}
use arsivinyo_memegy_backend.Counters.{Redis, World as RedisWorld, check_and_increment}
use arsivinyo_memegy_backend.Api.{
  ApiError, not_found, too_many_requests, ◌>>=◌, ◌>>◌, db_call, or_else,
}

-- The tables `videos` and `likes`; a like is its user and its video.
pub record Tables : Type 0 where
  pub videos : ℕ → Option Video
  pub likes : List (ℕ × ℕ)

-- An invalidation of the caches names the owner of the video and the actor.
pub record State : Type 0 where
  pub tables : Tables
  pub redis : Redis
  pub invalidations : List (ℕ × ℕ)

pub data DbCall : Type 0 where
  find_published begin write_like write_count read_count commit : DbCall

pub record World : Type 0 where
  pub db : DbCall → Option String
  pub redis : RedisWorld
  pub bypass : Bool
  pub show_number : ℕ → String

pub record Config : Type 0 where
  pub like_actions_rpm_limit : ℕ
  pub like_actions_window_secs : ℕ

pub record LikeVideoResponse : Type 0 where
  pub is_liked : Bool
  pub like_count : ℕ

abbrev pub is_published : Video → Bool
is_published v = str_eq v.status "PUBLISHED" && str_eq v.moderation_state "VISIBLE"

abbrev pub not_published : ApiError
not_published = not_found "Video not found or not published"

abbrev pub published : Option Video → Result ApiError Video
published none = err not_published
published (some v) = if is_published v then ok v else err not_published

unfoldable pub get_published_video_or_404 : World → ℕ → Tables → Result ApiError Video
get_published_video_or_404 w id t = db_call (w.db find_published) >> published (t.videos id)

unfoldable pub get_video_like_count : World → ℕ → Tables → Result ApiError ℕ
get_video_like_count w id t = do
  db_call (w.db read_count)
  video ← or_else (t.videos id) not_published
  ok video.like_count

abbrev pub like_actions_rpm_key : World → ℕ → String
like_actions_rpm_key w user = str_append "ratelimit:likes:rpm:" (w.show_number user)

abbrev limit_message : World → Config → ℕ → String
limit_message w config count =
    str_append
      (str_append
        (str_append
          (str_append
            (str_append
              (str_append "Like rate limit exceeded: "
                (w.show_number config.like_actions_rpm_limit))
              " actions per ")
            (w.show_number config.like_actions_window_secs))
          " seconds (current: ")
        (w.show_number count))
      ")"

-- An error of Redis lets the action pass.
abbrev pub after_like_limit :
    World → Config → Result String (Result ℕ ℕ) × Redis → Result ApiError (Unit {0}) × Redis
after_like_limit w config (ok (ok remaining), redis) = (ok tt, redis)
after_like_limit w config (ok (err count), redis) =
    (err (too_many_requests (limit_message w config count)), redis)
after_like_limit w config (err e, redis) = (ok tt, redis)

unfoldable pub enforce_like_rate_limit :
    World → Config → ℕ → Redis → Result ApiError (Unit {0}) × Redis
enforce_like_rate_limit w config user redis = after_like_limit w config (
    check_and_increment w.redis w.bypass (like_actions_rpm_key w user) config.like_actions_rpm_limit
      config.like_actions_window_secs redis)

abbrev pub is_like : ℕ → ℕ → ℕ × ℕ → Bool
is_like user id like = like.0 == user && like.1 == id

unfoldable pub has_like : ℕ → ℕ → List (ℕ × ℕ) → Bool
has_like user id likes = any (is_like user id) likes

-- The new rows of `likes`, and whether one was inserted.
unfoldable pub insert_like_if_missing : ℕ → ℕ → List (ℕ × ℕ) → Bool × List (ℕ × ℕ)
unfolding has_like
insert_like_if_missing user id likes =
    if has_like user id likes then (false, likes) else (true, (user, id) ∷ likes)

-- The new rows of `likes`, and whether one was deleted.
unfoldable pub delete_like : ℕ → ℕ → List (ℕ × ℕ) → Bool × List (ℕ × ℕ)
unfolding has_like
delete_like user id likes = (has_like user id likes, keep (λ p. not (is_like user id p)) likes)

-- `update_many` of the like count of one video.
unfoldable pub update_count : (ℕ → ℕ) → ℕ → (ℕ → Option Video) → ℕ → Option Video
update_count f id videos k =
    if k == id
    then option_map (λ (v : Video). record v { like_count = f v.like_count }) (videos k)
    else videos k

-- The tables once the rows of `likes` were written: the count of the video follows if a row was.
abbrev pub with_likes : (ℕ → ℕ) → ℕ → Bool × List (ℕ × ℕ) → Tables → Tables
with_likes f id (true, likes) t = record { videos = update_count f id t.videos; likes = likes }
with_likes f id (false, likes) t = record t { likes = likes }

abbrev pub written_count : World → Bool → Result ApiError (Unit {0})
written_count w true = db_call (w.db write_count)
written_count w false = ok tt

-- One transaction: `rows` writes the rows of `likes`, and `f` the count.
abbrev pub like_txn :
    World
    → ℕ
    → (List (ℕ × ℕ) → Bool × List (ℕ × ℕ))
    → (ℕ → ℕ)
    → Tables
    → Result ApiError (ℕ × Tables)
like_txn w id rows f t = do
  db_call (w.db begin)
  db_call (w.db write_like)
  written_count w (rows t.likes).0
  let t' = with_likes f id (rows t.likes) t
  like_count ← get_video_like_count w id t'
  db_call (w.db commit)
  ok (like_count, t')

abbrev pub committed :
    ℕ → Bool → ℕ → State → Result ApiError (ℕ × Tables) → Result ApiError LikeVideoResponse × State
committed user is_liked owner s (err e) = (err e, s)
committed user is_liked owner s (ok (n, t)) = (
  ok (record { is_liked = is_liked; like_count = n }),
  record s { tables = t; invalidations = (owner, user) ∷ s.invalidations },
)

abbrev pub liked :
    World → ℕ → ℕ → State → Result ApiError Video → Result ApiError LikeVideoResponse × State
liked w user id s (err e) = (err e, s)
liked w user id s (ok video) =
    committed user true video.user_id s
      (like_txn w id (insert_like_if_missing user id) (λ n. n + 1) s.tables)

abbrev pub unliked :
    World → ℕ → ℕ → State → Result ApiError Video → Result ApiError LikeVideoResponse × State
unliked w user id s (err e) = (err e, s)
unliked w user id s (ok video) =
    committed user false video.user_id s (like_txn w id (delete_like user id) (λ n. n - 1) s.tables)

abbrev pub within_limit :
    (State → Result ApiError LikeVideoResponse × State)
    → State
    → Result ApiError (Unit {0}) × Redis
    → Result ApiError LikeVideoResponse × State
within_limit next s (ok _, redis) = next (record s { redis = redis })
within_limit next s (err e, redis) = (err e, record s { redis = redis })

unfoldable pub set_like_video :
    World → Config → ℕ → ℕ → State → Result ApiError LikeVideoResponse × State
unfolding enforce_like_rate_limit get_published_video_or_404 get_video_like_count
    insert_like_if_missing update_count
set_like_video w config user id s =
    within_limit (λ t. liked w user id t (get_published_video_or_404 w id t.tables)) s
      (enforce_like_rate_limit w config user s.redis)

unfoldable pub unset_like_video :
    World → Config → ℕ → ℕ → State → Result ApiError LikeVideoResponse × State
unfolding enforce_like_rate_limit get_published_video_or_404 get_video_like_count delete_like
    update_count
unset_like_video w config user id s =
    within_limit (λ t. unliked w user id t (get_published_video_or_404 w id t.tables)) s
      (enforce_like_rate_limit w config user s.redis)

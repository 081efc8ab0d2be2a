-- ===== src/Deletion.antt =====
-- The deletion of videos by their users (src/api/src/videos/handlers.rs: delete_video,
-- bulk_delete_videos), which keeps the rows and marks them.
pub mod Marked
mod Tests
use Prim.Native.String.{◌++◌ as str_append}
use arsivinyo_memegy_backend.Base.{
  ℕ, suc, String, Bool, true, false, ◌&&◌, List, [], ◌∷◌, Option, none, some, Result, ok, err,
  str_eq, any, is_empty, is_some, ◌==◌, if◌then◌else◌, option_map,
}
use arsivinyo_memegy_backend.Video.{Video}
use arsivinyo_memegy_backend.Worker.World.{put_video}
use arsivinyo_memegy_backend.Counters.{Redis, World as RedisWorld, check_and_increment}
use arsivinyo_memegy_backend.Uploads.Confirm.{owned}
use arsivinyo_memegy_backend.Api.{
  ApiError, not_found, too_many_requests, internal_error, ◌>>=◌, ◌>>◌, db_call, or_else,
}

-- The table, Redis, how often the feed's cache was invalidated, and the users whose cached lists of videos
-- were.
pub record State : Type 0 where
  pub videos : ℕ → Option Video
  pub redis : Redis
  pub feed_invalidations : ℕ
  pub list_invalidations : List ℕ

pub data DbCall : Type 0 where
  begin find_video update_video update_many commit : DbCall

pub record World : Type 0 where
  pub now : ℕ
  pub db : DbCall → Option String
  pub redis : RedisWorld
  pub bypass : Bool
  pub show_uuid : ℕ → String
  pub show_number : ℕ → String

abbrev pub delete_rate_key : World → ℕ → String
delete_rate_key w user = str_append (str_append "delete:" (w.show_uuid user)) ":hourly"

abbrev pub deletion_limit : World → ℕ → ApiError
deletion_limit w n = too_many_requests (
    str_append (str_append "Deletion rate limit exceeded: " (w.show_number n))
      " deletions/hour. Contact support for bulk deletion.")

abbrev pub marked_row : World → Video → Video
marked_row w v = record v { deleted_at = some w.now }

-- The caches after a row was marked.
abbrev pub invalidated : ℕ → Bool → State → State
invalidated user was_published s = record s {
  feed_invalidations = if was_published then suc s.feed_invalidations else s.feed_invalidations;
  list_invalidations = user ∷ s.list_invalidations;
}

-- The row is written and the transaction committed, or the whole is an error.
abbrev pub after_mark :
    World → ℕ → ℕ → Video → State → Result ApiError (Unit {0}) → Result ApiError (Unit {0}) × State
after_mark w user id v s (err e) = (err e, s)
after_mark w user id v s (ok _) = (
  ok tt,
  invalidated user (str_eq v.status "PUBLISHED")
      (record s { videos = put_video id (marked_row w v) s.videos }),
)

abbrev pub delete_row : World → ℕ → ℕ → State → Video → Result ApiError (Unit {0}) × State
delete_row w user id s v =
    if is_some v.deleted_at
    then (db_call (w.db commit), s)
    else after_mark w user id v s (db_call (w.db update_video) >> db_call (w.db commit))

abbrev pub read_row : World → ℕ → ℕ → State → Result ApiError Video
read_row w user id s = do
  db_call (w.db begin)
  db_call (w.db find_video)
  or_else (owned user (s.videos id)) (not_found "Video not found or not owned by you")

abbrev pub delete_found :
    World → ℕ → ℕ → State → Result ApiError Video → Result ApiError (Unit {0}) × State
delete_found w user id s (err e) = (err e, s)
delete_found w user id s (ok v) = delete_row w user id s v

-- An error of Redis lets the deletion pass.
abbrev pub after_delete_limit :
    World → ℕ → ℕ → State → Result String (Result ℕ ℕ) × Redis → Result ApiError (Unit {0}) × State
after_delete_limit w user id s (ok (err n), redis) =
    (err (deletion_limit w n), record s { redis = redis })
after_delete_limit w user id s (ok (ok n), redis) =
    let t : State = record s { redis = redis } in delete_found w user id t (read_row w user id t)
after_delete_limit w user id s (err e, redis) =
    let t : State = record s { redis = redis } in delete_found w user id t (read_row w user id t)

unfoldable pub delete_video : World → ℕ → ℕ → State → Result ApiError (Unit {0}) × State
delete_video w user id s =
    after_delete_limit w user id s
      (check_and_increment w.redis w.bypass (delete_rate_key w user) 10 3600 s.redis)

-- The update of all rows of the user with one of the ids, marked before or not.
abbrev pub mark_many : World → ℕ → List ℕ → (ℕ → Option Video) → ℕ → Option Video
mark_many w user ids videos k =
    option_map
      (λ (v : Video). if v.user_id == user && any (λ i. i == k) ids then marked_row w v else v)
      (videos k)

abbrev pub after_update_many :
    World → ℕ → List ℕ → State → Option String → Result ApiError (Unit {0}) × State
after_update_many w user ids s (some e) = (err (internal_error "Internal server error"), s)
after_update_many w user ids s none = (
  ok tt,
  record s {
    videos = mark_many w user ids s.videos;
    list_invalidations = user ∷ s.list_invalidations;
  },
)

unfoldable pub bulk_delete_videos : World → ℕ → List ℕ → State → Result ApiError (Unit {0}) × State
bulk_delete_videos w user ids s =
    if is_empty ids then (ok tt, s) else after_update_many w user ids s (w.db update_many)

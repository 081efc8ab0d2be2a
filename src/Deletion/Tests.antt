-- ===== src/Deletion/Tests.antt =====
-- A published video that its user deletes, and the theorem at it.
use arsivinyo_memegy_backend.Base.{
  ◌≡◌, refl, pos, false, [], ◌∷◌, none, some, ok, ◌==◌, if◌then◌else◌,
}
use arsivinyo_memegy_backend.Video.{Video}
use arsivinyo_memegy_backend.Counters.{check_and_increment, check_then_increment, incr_and_expire}
use arsivinyo_memegy_backend.Likes.{World as LikeWorld, get_published_video_or_404}
use arsivinyo_memegy_backend.Deletion.{State, World, marked_row, delete_video, bulk_delete_videos}
use arsivinyo_memegy_backend.Deletion.Marked.{delete_video-still_published}

abbrev video : Video
video = record {
  id = 7;
  user_id = 1;
  title = none;
  description = none;
  s3_bucket = "videos";
  s3_key = "7.mp4";
  status = "PUBLISHED";
  size_bytes = pos 100;
  duration_seconds = none;
  like_count = 1;
  is_anonymous = false;
  is_nsfw = none;
  moderation_state = "VISIBLE";
  moderation_reason_code = none;
  moderation_updated_at = none;
  moderation_updated_by = none;
  moderation_source_report_id = none;
  processing_error_code = none;
  processing_error_message = none;
  failed_at = none;
  deleted_at = none;
  created_at = 0;
  updated_at = 0;
}

abbrev start : State
start = record {
  videos = λ id. if id == 7 then some video else none;
  redis = record { counters = λ key. none };
  feed_invalidations = 0;
  list_invalidations = [];
}

abbrev world : World
world = record {
  now = 500;
  db = λ call. none;
  redis = record { now = 500; fails = λ call. none };
  bypass = false;
  show_uuid = λ n. "uuid";
  show_number = λ n. "number";
}

abbrev like_world : LikeWorld
like_world = record {
  db = λ call. none;
  redis = record { now = 600; fails = λ call. none };
  bypass = false;
  show_number = λ n. "number";
}

abbrev deleted : State
deleted = (delete_video world 1 7 start).1

accepted : delete_video world 1 7 start ≡ (ok tt, deleted)
unfolding delete_video check_and_increment check_then_increment incr_and_expire
accepted = refl

-- Another deletion of many videos marks the row again.
marked_again :
    (bulk_delete_videos (record world { now = 900 }) 1 (7 ∷ []) deleted).1.videos 7
    ≡ some (record video { deleted_at = some 900 })
unfolding bulk_delete_videos delete_video check_and_increment check_then_increment incr_and_expire
marked_again = refl

delete_video-still_published_example :
    get_published_video_or_404 like_world 7 (record { videos = deleted.videos; likes = [] })
    ≡ ok (marked_row world video)
delete_video-still_published_example =
    delete_video-still_published world 1 7 start deleted video like_world [] accepted refl refl refl
      refl

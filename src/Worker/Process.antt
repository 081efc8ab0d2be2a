-- ===== src/Worker/Process.antt =====
-- One run of the video pipeline, `process_video`, with the realtime signal that ends it
-- (src/worker/src/main.rs).
pub mod Outcome
pub mod Payload
use Prim.Native.Char.{code}
use Prim.Native.String.{◌++◌ as str_append}
use arsivinyo_memegy_backend.Base.{
  ℕ, zero, suc, ◌+◌, ℤ, String, ◌≡◌, Bool, true, false, ◌&&◌, ◌||◌, List, [], ◌∷◌, Option, none,
  some, codes, map, ltb, leb, ◌==◌, str_eq, if◌then◌else◌, Result, ok, err,
}
use arsivinyo_memegy_backend.Video.{Video}
use arsivinyo_memegy_backend.Worker.Error.{ProcessingError, transient, permanent}
use arsivinyo_memegy_backend.Worker.World.{
  VideoProcessJob, Config, World, RealtimeVideo, Signal, Effect, uploaded, invalidated_feed,
  invalidated_user_videos, signalled, State, emit, update_video,
}
use arsivinyo_memegy_backend.Worker.Media.{
  run_ffprobe_preflight, run_transcode_fallbacks, generate_thumbnail,
}

abbrev lower : ℕ → ℕ
lower c = if leb b'A' c && leb c b'Z' then c + 32 else c

abbrev codes_eq : List ℕ → List ℕ → Bool
codes_eq [] [] = true
codes_eq [] (d ∷ ds) = false
codes_eq (c ∷ cs) [] = false
codes_eq (c ∷ cs) (d ∷ ds) = c == d && codes_eq cs ds

unfoldable pub eq_ignore_ascii_case : String → String → Bool
eq_ignore_ascii_case s t = codes_eq (map lower (codes s)) (map lower (codes t))

abbrev pub slash : String → String → String
slash a b = str_append a (str_append "/" b)

unfoldable pub is_published_like : Video → Bool
is_published_like video =
    eq_ignore_ascii_case video.status "PUBLISHED" || eq_ignore_ascii_case video.status "COMPLETED"

unfoldable pub build_realtime_video_payload : World → String → String → Video → Bool → RealtimeVideo
build_realtime_video_payload w endpoint bucket video is_liked =
    let published = is_published_like video in
    let has_public_object = published || str_eq video.s3_bucket bucket in
    let url_bucket = if published then bucket else video.s3_bucket in
    record {
      id = video.id;
      title = video.title;
      description = video.description;
      status = video.status;
      created_at = video.created_at;
      updated_at = video.updated_at;
      is_anonymous = video.is_anonymous;
      is_nsfw = video.is_nsfw;
      is_liked = is_liked;
      like_count = video.like_count;
      url =
          if has_public_object then some (slash endpoint (slash url_bucket video.s3_key)) else none;
      thumbnail_url =
          if has_public_object
          then some (slash endpoint (slash bucket (str_append (w.show_uuid video.id) "_thumb.jpg")))
          else none;
      processing_error_code = video.processing_error_code;
      processing_error_message = video.processing_error_message;
    }

-- The callers ignore whether the signal was sent: a failed read of the like sends none.
unfoldable pub publish_video_status_signal :
    World → Config → ℕ → String → Option String → Video → State → State
publish_video_status_signal w config user_id event_type previous_status video s = elim w.read_like [
  | none ↦ s
  | some is_liked ↦
      emit
        (signalled user_id (record {
          event_type = event_type;
          event_id = w.new_uuid;
          event_at = w.now;
          version = 1;
          previous_status = previous_status;
          video =
              build_realtime_video_payload w config.minio_public_endpoint config.minio_bucket_videos
                video is_liked;
        }))
        s
]

-- What the steps up to the thumbnail hand on.
pub record Prepared : Type 0 where
  pub video : Video
  pub dir : String
  pub duration_seconds : Option ℤ
  pub thumbnail_ready : Bool

unfoldable pub transcode_and_thumbnail :
    World → Config → Video → String → Option ℤ → Result ProcessingError Prepared
transcode_and_thumbnail w config video dir duration =
    let input = slash dir "input.mp4" in
    let output = slash dir "output.mp4" in
    let thumb = slash dir "thumb.jpg" in
    let timeout = config.ffmpeg_thumbnail_timeout_secs in
    elim (run_transcode_fallbacks w input output config) [
      | err e ↦ err e
      | ok _ ↦ ok (record {
        video = video;
        dir = dir;
        duration_seconds = duration;
        thumbnail_ready =
            generate_thumbnail w output thumb timeout || generate_thumbnail w input thumb timeout;
      })
    ]

-- Steps 3 to 6, in the temporary directory `dir`.
unfoldable pub fetch_and_convert : World → Config → Video → String → Result ProcessingError Prepared
unfolding transcode_and_thumbnail
fetch_and_convert w config video dir = elim (w.download video.s3_bucket video.s3_key) [
  | some e ↦ err (transient "RAW_DOWNLOAD_FAILED" e)
  | none ↦
      elim (run_ffprobe_preflight w (slash dir "input.mp4") config.ffmpeg_transcode_timeout_secs) [
        | err e ↦ err e
        | ok duration ↦ transcode_and_thumbnail w config video dir duration
      ]
]

unfoldable pub open_temp_dir : World → Config → Video → Result ProcessingError Prepared
unfolding fetch_and_convert
open_temp_dir w config video = elim w.temp_dir [
  | err e ↦ err (transient "TEMP_DIR_FAILED" e)
  | ok dir ↦ fetch_and_convert w config video dir
]

-- Steps 1 to 6: nothing outside the process is changed.
unfoldable pub prepare_video :
    World → Config → VideoProcessJob → State → Result ProcessingError Prepared
unfolding open_temp_dir
prepare_video w config job s = elim w.read_video [
  | some e ↦ err (transient "DB_READ_FAILED" e)
  | none ↦ elim (s.videos job.video_id) [
    | none ↦ err (permanent "VIDEO_NOT_FOUND" (codes "Video not found in database"))
    | some video ↦ open_temp_dir w config video
  ]
]

-- Step 7, the thumbnail: its failure is ignored.
unfoldable pub upload_thumbnail : World → Config → VideoProcessJob → Prepared → State → State
upload_thumbnail w config job p s =
    let key = str_append (w.show_uuid job.video_id) "_thumb.jpg" in
    if p.thumbnail_ready
    then elim (w.upload config.minio_bucket_videos key) [
      | some e ↦ s
      | none ↦
          emit (uploaded config.minio_bucket_videos key (slash p.dir "thumb.jpg") "image/jpeg") s
    ]
    else s

-- Step 8: the columns that publishing sets.
unfoldable pub publish_row : World → Config → VideoProcessJob → Option ℤ → Video → Video
publish_row w config job duration video = record video {
  status = "PUBLISHED";
  s3_bucket = config.minio_bucket_videos;
  s3_key = str_append (w.show_uuid job.video_id) ".mp4";
  duration_seconds = duration;
  processing_error_code = none;
  processing_error_message = none;
  failed_at = none;
}

-- Step 9: the caches and the signal.
unfoldable pub announce_published : World → Config → VideoProcessJob → Video → State → State
announce_published w config job video s =
    publish_video_status_signal w config job.user_id "video.status.published" (some "PROCESSING")
      video (emit (invalidated_user_videos job.user_id) (emit invalidated_feed s))

abbrev pub Run : Type 0
Run = Result ProcessingError (Unit {0}) × State

unfoldable pub after_write : World → Config → VideoProcessJob → Result (List ℕ) Video × State → Run
after_write w config job (err e, s) = (err (transient "DB_WRITE_FAILED" e), s)
after_write w config job (ok video, s) = (ok tt, announce_published w config job video s)

unfoldable pub write_published : World → Config → VideoProcessJob → Prepared → State → Run
unfolding after_write
write_published w config job p s =
    after_write w config job
      (update_video w job.video_id (publish_row w config job p.duration_seconds) s)

-- Steps 7 to 9, once the answer to the upload of the video is known.
unfoldable pub after_upload :
    World → Config → VideoProcessJob → Prepared → String → Option (List ℕ) → State → Run
after_upload w config job p key (some e) s = (err (transient "PUBLISHED_UPLOAD_FAILED" e), s)
after_upload w config job p key none s = write_published w config job p (
    upload_thumbnail w config job p
      (emit (uploaded config.minio_bucket_videos key (slash p.dir "output.mp4") "video/mp4") s))

unfoldable pub publish_video : World → Config → VideoProcessJob → Prepared → State → Run
unfolding after_upload
publish_video w config job p s =
    let key = str_append (w.show_uuid job.video_id) ".mp4" in
    after_upload w config job p key (w.upload config.minio_bucket_videos key) s

unfoldable pub after_prepare :
    World → Config → VideoProcessJob → Result ProcessingError Prepared → State → Run
after_prepare w config job (err e) s = (err e, s)
after_prepare w config job (ok p) s = publish_video w config job p s

unfoldable pub process_video : World → Config → VideoProcessJob → State → Run
unfolding after_prepare
process_video w config job s = after_prepare w config job (prepare_video w config job s) s

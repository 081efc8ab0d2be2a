-- ===== src/Worker/Tests.antt =====
-- A worker that answers well, one whose download fails, and the theorems at them.
use arsivinyo_memegy_backend.Base.{
  ℕ, pos, ◌≡◌, refl, ◌≤◌, true, false, [], ◌∷◌, none, some, codes, max, length, All, ok, err, arith,
  ◌==◌, if◌then◌else◌,
}
use arsivinyo_memegy_backend.Video.{Video}
use arsivinyo_memegy_backend.Worker.Error.{
  ProcessingError, transient, is_transient, sanitize_error_message, IsPrintable,
  sanitize_error_message_bounds,
}
use arsivinyo_memegy_backend.Worker.World.{
  VideoProcessJob, Config, World, FfprobeOutput, Output, finished, State, emit, slept, update_video,
}
use arsivinyo_memegy_backend.Worker.Media.{
  run_ffprobe_preflight, run_transcode_fallbacks, build_transcode_profiles, ffprobe_args,
  generate_thumbnail, try_profiles,
}
use arsivinyo_memegy_backend.Worker.Media.Preflight.{Shows, run_ffprobe_preflight-ok}
use arsivinyo_memegy_backend.Worker.Media.Transcode.{Explains, run_transcode_fallbacks_lem}
use arsivinyo_memegy_backend.Worker.Process.{
  process_video, build_realtime_video_payload, prepare_video, publish_video, upload_thumbnail,
  write_published,
}
use arsivinyo_memegy_backend.Worker.Process.Outcome.{Outcome, process_video-Outcome}
use arsivinyo_memegy_backend.Worker.Process.Payload.{payload_addresses, IsPublic}
use arsivinyo_memegy_backend.Worker.Retry.{attempts, attempt_loop, run_job, backoff_secs}
use arsivinyo_memegy_backend.Worker.Retry.Loop.{attempt_loop-fuel}
use arsivinyo_memegy_backend.Worker.Retry.Sticky.{
  HasFailed, run_job-HasFailed, run_job_published_then_failed,
}

abbrev config : Config
config = record {
  minio_bucket_videos = "videos";
  minio_public_endpoint = "https://cdn";
  worker_retry_max_attempts = 3;
  worker_retry_backoff_base_secs = 2;
  ffmpeg_transcode_timeout_secs = 60;
  ffmpeg_thumbnail_timeout_secs = 10;
}

abbrev job : VideoProcessJob
job = record { video_id = 7; user_id = 1; raw_bucket = "raw"; raw_key = "up.mp4" }

abbrev raw_video : Video
raw_video = record {
  id = 7;
  user_id = 1;
  title = none;
  description = none;
  s3_bucket = "raw";
  s3_key = "up.mp4";
  status = "PROCESSING";
  size_bytes = pos 2048;
  duration_seconds = none;
  like_count = 0;
  is_anonymous = false;
  is_nsfw = none;
  moderation_state = "VISIBLE";
  moderation_reason_code = none;
  moderation_updated_at = none;
  moderation_updated_by = none;
  moderation_source_report_id = none;
  processing_error_code = none;
  processing_error_message = none;
  failed_at = none;
  deleted_at = none;
  created_at = 0;
  updated_at = 0;
}

abbrev start : State
start = record { videos = λ id. if id == 7 then some raw_video else none; effects = [] }

abbrev probe : FfprobeOutput
probe = record { streams = some (some "audio" ∷ some "video" ∷ []); format = some (some "5.2") }

abbrev success : Output
success = record { success = true; stdout = []; stderr = [] }

abbrev good : World
good = record {
  read_video = none;
  write_video = none;
  record_not_updated = [];
  read_like = some false;
  temp_dir = ok "/tmp/x";
  download = λ bucket key. none;
  upload = λ bucket key. none;
  exec = λ program args timeout. finished success;
  parse_ffprobe = λ bytes. ok probe;
  parse_rounded = λ text. some (pos 5);
  from_utf8_lossy = λ bytes. bytes;
  show_uuid = λ id. "uuid";
  show_number = λ n. [];
  now = 100;
  new_uuid = 9;
}

abbrev no_download : World
no_download = record good { download = λ bucket key. some (codes "reset") }

abbrev download_failed : ProcessingError
download_failed = transient "RAW_DOWNLOAD_FAILED" (codes "reset")

-- The first attempt cannot download, the later ones answer well.
abbrev flaky : ℕ → World
flaky n = if n == 1 then no_download else good

abbrev after_first : State
after_first = emit (slept (backoff_secs config 1)) start

sanitize_error_message_bounds_example :
    (length (sanitize_error_message (codes "a\tb")) ≤ 300)
    × All IsPrintable (sanitize_error_message (codes "a\tb"))
sanitize_error_message_bounds_example = sanitize_error_message_bounds (codes "a\tb")

run_ffprobe_preflight-ok_example :
    (output : Output) × (good.exec "ffprobe" (ffprobe_args "in.mp4") (max 60 5) ≡ finished output)
    × Shows good output (some (pos 5))
unfolding run_ffprobe_preflight
run_ffprobe_preflight-ok_example = run_ffprobe_preflight-ok good "in.mp4" 60 (some (pos 5)) refl

run_transcode_fallbacks_lem_example :
    Explains good 60
      (build_transcode_profiles "in.mp4" "out.mp4")
      (run_transcode_fallbacks good "in.mp4" "out.mp4" config)
run_transcode_fallbacks_lem_example = run_transcode_fallbacks_lem good "in.mp4" "out.mp4" config

payload_addresses_example :
    let payload = build_realtime_video_payload good "https://cdn" "videos" raw_video true in
    (¬ IsPublic "videos" raw_video → (payload.url ≡ none) × (payload.thumbnail_url ≡ none))
    × (IsPublic "videos" raw_video
        → (payload.url ≡ some "https://cdn/videos/up.mp4")
          × (payload.thumbnail_url ≡ some "https://cdn/videos/uuid_thumb.jpg"))
payload_addresses_example = payload_addresses good "https://cdn" "videos" raw_video true

process_video-Outcome_example :
    Outcome good config job start.videos (process_video good config job start)
process_video-Outcome_example = process_video-Outcome good config job start

attempt_loop-fuel_example :
    attempt_loop flaky config job 3 1 none start ≡ attempt_loop flaky config job 8 1 none start
attempt_loop-fuel_example =
    attempt_loop-fuel flaky config job 3 8 1 none start (omega arith) (omega arith)

-- Both runs of the flaky job, by evaluation.
flaky_first : process_video no_download config job start ≡ (err download_failed, start)
unfolding process_video prepare_video
flaky_first = refl

flaky_second :
    process_video good config job after_first
    ≡ (ok tt, (process_video good config job after_first).1)
unfolding process_video prepare_video run_ffprobe_preflight run_transcode_fallbacks try_profiles
    build_transcode_profiles publish_video write_published update_video upload_thumbnail emit
    generate_thumbnail
flaky_second = refl

run_job-HasFailed_example : HasFailed config job (run_job flaky good config job start)
run_job-HasFailed_example =
    run_job-HasFailed config job flaky good start start raw_video download_failed (omega arith) refl
      flaky_first refl refl

run_job_published_then_failed_example :
    ((attempts flaky config job start).state ≡ (process_video good config job after_first).1)
    × ((p : Video) × ((process_video good config job after_first).1.videos 7 ≡ some p)
        × (p.status ≡ "PUBLISHED"))
    × HasFailed config job (run_job flaky good config job start)
unfolding is_transient
run_job_published_then_failed_example =
    run_job_published_then_failed config job flaky good start start
      (process_video good config job after_first).1 raw_video download_failed (omega arith) refl
      flaky_first refl flaky_second refl refl

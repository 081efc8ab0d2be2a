-- ===== src/Uploads/Tests.antt =====
-- An upload from its request to its publication, and the theorems at it.
use arsivinyo_memegy_backend.Base.{
  pos, ◌≡◌, refl, true, false, [], ◌∷◌, none, some, ok, codes, str_eq, ◌==◌, if◌then◌else◌, arith,
}
use arsivinyo_memegy_backend.Video.{Video}
use arsivinyo_memegy_backend.Worker.World.{
  Config as WorkerConfig, World as WorkerWorld, FfprobeOutput, Output, finished,
  State as WorkerState, update_video, emit,
}
use arsivinyo_memegy_backend.Worker.Media.{
  run_ffprobe_preflight, run_transcode_fallbacks, build_transcode_profiles, generate_thumbnail,
  try_profiles,
}
use arsivinyo_memegy_backend.Worker.Process.{
  process_video, prepare_video, publish_video, upload_thumbnail, write_published,
}
use arsivinyo_memegy_backend.Counters.{get_count, increment_by, incr_and_expire}
use arsivinyo_memegy_backend.Uploads.{
  Config, State, World, InitUploadRequest, draft_row, init_upload,
  enforce_read_only_upload_restriction,
}
use arsivinyo_memegy_backend.Uploads.Confirm.{
  confirm_upload, verify_upload, looks_like_supported_video_container, job_of, processing_row,
}
use arsivinyo_memegy_backend.Uploads.Confirmed.{Confirms, confirm_upload-Confirms}
use arsivinyo_memegy_backend.Uploads.Requested.{Requests, init_upload-Requests}
use arsivinyo_memegy_backend.Uploads.Once.{
  IsQueuedOnce, Confirmation, after_confirmations, after_confirmations-IsQueuedOnce,
}
use arsivinyo_memegy_backend.Uploads.Published.{IsPublished, confirm_upload-IsPublished, IsI64}

abbrev config : Config
config = record {
  read_only_mode_enabled = false;
  max_file_size_bytes = 4096;
  min_video_size_bytes = 1024;
  limit_upload_bytes_hourly = 8192;
  upload_size_tolerance_bytes = 100;
  rate_limit_window_secs = 3600;
  minio_bucket_raw = "raw";
}

-- Every object has 2000 bytes and begins like an MP4.
abbrev world : World
world = record {
  now = 100;
  db = λ call. none;
  push_job = none;
  presigned_put = λ bucket key. ok "https://put";
  file_size = λ bucket key. some 2000;
  read_prefix = λ bucket key n. some (0 ∷ 0 ∷ 0 ∷ 24 ∷ codes "ftypmp42");
  redis = record { now = 100; fails = λ call. none };
  bypass = false;
  new_uuid = 7;
  show_uuid = λ n. if n == 7 then "seven" else "one";
  show_number = λ n. "number";
  extension = λ filename. some "mp4";
}

abbrev payload : InitUploadRequest
payload = record { filename = "cat.mp4"; size_bytes = pos 2048; is_nsfw = false }

abbrev start : State
start = record {
  videos = λ id. none;
  queue = [];
  redis = record { counters = λ key. none };
  cache_invalidations = [];
  signals = [];
}

init_upload-Requests_example :
    Requests world config 1 payload false 8192 start (init_upload world config 1 payload start)
init_upload-Requests_example = init_upload-Requests world config 1 payload start

abbrev draft : Video
draft = draft_row world config 1 payload false

abbrev drafted : State
drafted = (init_upload world config 1 payload start).1

abbrev confirmed : State
confirmed = (confirm_upload world config 1 7 drafted).1

accepted : confirm_upload world config 1 7 drafted ≡ (ok tt, confirmed)
unfolding confirm_upload init_upload draft_row enforce_read_only_upload_restriction get_count
    verify_upload looks_like_supported_video_container increment_by incr_and_expire
accepted = refl

confirm_upload-Confirms_example :
    Confirms world config 1 7 drafted (confirm_upload world config 1 7 drafted)
confirm_upload-Confirms_example = confirm_upload-Confirms world config 1 7 drafted

first_waits : IsQueuedOnce 7 start.videos start.queue
first_waits = record { draft_waits = λ v e d. refl; at_most_one = omega arith }

drafted_waits : IsQueuedOnce 7 drafted.videos drafted.queue
unfolding init_upload draft_row enforce_read_only_upload_restriction get_count
drafted_waits = record { draft_waits = λ v e d. refl; at_most_one = omega arith }

abbrev confirmation : Confirmation
confirmation = record { world = world; config = config; user = 1; video = 7 }

after_confirmations-IsQueuedOnce_example :
    IsQueuedOnce 7
      (after_confirmations (confirmation ∷ confirmation ∷ []) drafted).videos
      (after_confirmations (confirmation ∷ confirmation ∷ []) drafted).queue
after_confirmations-IsQueuedOnce_example =
    after_confirmations-IsQueuedOnce 7 (confirmation ∷ confirmation ∷ []) drafted (refl, (refl, tt))
      drafted_waits

abbrev worker_config : WorkerConfig
worker_config = record {
  minio_bucket_videos = "videos";
  minio_public_endpoint = "https://cdn";
  worker_retry_max_attempts = 3;
  worker_retry_backoff_base_secs = 2;
  ffmpeg_transcode_timeout_secs = 60;
  ffmpeg_thumbnail_timeout_secs = 10;
}

abbrev probe : FfprobeOutput
probe = record { streams = some (some "video" ∷ []); format = some (some "5.2") }

abbrev success : Output
success = record { success = true; stdout = []; stderr = [] }

abbrev worker_world : WorkerWorld
worker_world = record {
  read_video = none;
  write_video = none;
  record_not_updated = [];
  read_like = some false;
  temp_dir = ok "/tmp/x";
  download = λ bucket key. none;
  upload = λ bucket key. none;
  exec = λ program args timeout. finished success;
  parse_ffprobe = λ bytes. ok probe;
  parse_rounded = λ text. some (pos 5);
  from_utf8_lossy = λ bytes. bytes;
  show_uuid = λ id. "uuid";
  show_number = λ n. [];
  now = 100;
  new_uuid = 9;
}

abbrev worker_start : WorkerState
worker_start = record { videos = confirmed.videos; effects = [] }

abbrev worker_end : WorkerState
worker_end = (process_video worker_world worker_config (job_of 7 1 draft) worker_start).1

drafted_row : drafted.videos 7 ≡ some draft
unfolding init_upload enforce_read_only_upload_restriction get_count
drafted_row = refl

draft_status : str_eq draft.status "DRAFT" ≡ true
unfolding draft_row
draft_status = refl

processed :
    process_video worker_world worker_config (job_of 7 1 draft) worker_start ≡ (ok tt, worker_end)
unfolding confirm_upload init_upload draft_row enforce_read_only_upload_restriction get_count
    verify_upload looks_like_supported_video_container increment_by incr_and_expire processing_row
    process_video prepare_video run_ffprobe_preflight run_transcode_fallbacks try_profiles
    build_transcode_profiles publish_video write_published update_video upload_thumbnail emit
    generate_thumbnail
processed = refl

job_first : confirmed.queue ≡ job_of 7 1 draft ∷ []
unfolding confirm_upload init_upload draft_row enforce_read_only_upload_restriction get_count
    verify_upload looks_like_supported_video_container increment_by incr_and_expire
job_first = refl

declared_fits : IsI64 draft.size_bytes
unfolding draft_row
declared_fits = omega arith

confirm_upload-IsPublished_example :
    IsPublished world config 1 7 drafted confirmed worker_world worker_config draft
      (job_of 7 1 draft)
      worker_end.videos
confirm_upload-IsPublished_example =
    confirm_upload-IsPublished world config 1 7 drafted confirmed worker_world worker_config draft
      (job_of 7 1 draft) [] worker_start worker_end declared_fits (omega arith) accepted drafted_row
      draft_status job_first refl processed

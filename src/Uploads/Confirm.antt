-- ===== src/Uploads/Confirm.antt =====
-- The confirmation of an upload (src/api/src/videos/handlers.rs: confirm_upload,
-- looks_like_supported_video_container).
use Prim.Native.String.{◌++◌ as str_append}
use arsivinyo_memegy_backend.Base.{
  ℕ, ℤ, pos, negsuc, suc, ◌+◌, ◌-◌, zero, String, Bool, true, false, not, ◌&&◌, ◌||◌, List, [], ◌∷◌,
  Option, none, some, Result, ok, err, ltb, leb, ◌==◌, str_eq, length, take, codes, if◌then◌else◌,
}
use arsivinyo_memegy_backend.Video.{Video}
use arsivinyo_memegy_backend.Worker.World.{VideoProcessJob, put_video}
use arsivinyo_memegy_backend.Counters.{increment_by}
use arsivinyo_memegy_backend.Api.{
  ApiError, bad_request, not_found, internal_error, ◌>>=◌, ◌>>◌, db_call, or_else,
}
use arsivinyo_memegy_backend.Uploads.{
  Config, State, World, begin, find_video, update_video, commit, rollback,
  enforce_read_only_upload_restriction, upload_bytes_key,
}

abbrev pub drop : ℕ → List ℕ → List ℕ
drop zero bs = bs
drop (suc n) [] = []
drop (suc n) (b ∷ bs) = drop n bs

abbrev pub bytes_eq : List ℕ → List ℕ → Bool
bytes_eq [] [] = true
bytes_eq [] (b ∷ bs) = false
bytes_eq (a ∷ as_) [] = false
bytes_eq (a ∷ as_) (b ∷ bs) = a == b && bytes_eq as_ bs

-- The bytes from the first to before the second place.
abbrev pub slice : ℕ → ℕ → List ℕ → List ℕ
slice from to bs = take (to - from) (drop from bs)

unfoldable pub looks_like_supported_video_container : List ℕ → Bool
looks_like_supported_video_container prefix =
    leb 8 (length prefix) && bytes_eq (slice 4 8 prefix) (codes "ftyp")
    || leb 4 (length prefix) && bytes_eq (slice 0 4 prefix) (26 ∷ 69 ∷ 223 ∷ 163 ∷ [])
    || leb 12 (length prefix)
      && bytes_eq (slice 0 4 prefix) (codes "RIFF")
      && bytes_eq (slice 8 12 prefix) (codes "AVI ")
    || leb 4 (length prefix) && bytes_eq (slice 0 4 prefix) (codes "OggS")

abbrev pub declared_size : ℤ → ℕ
declared_size (pos n) = n
declared_size (negsuc n) = 0

abbrev pub abs_diff : ℕ → ℕ → ℕ
abs_diff a b = (a - b) + (b - a)

-- `as u64`, which wraps a negative number around.
abbrev pub as_u64 : ℤ → ℕ
as_u64 (pos n) = n
as_u64 (negsuc n) = 18446744073709551615 - n

-- A refusal after the roll back, whose own error goes first.
abbrev pub refuse_if : World → Bool → ApiError → Result ApiError (Unit {0})
refuse_if w b e = if b then db_call (w.db rollback) >> err e else ok tt

abbrev pub too_small : World → Config → ℕ → ApiError
too_small w config actual = bad_request (
    str_append
      (str_append
        (str_append
          (str_append "File too small. Minimum: " (w.show_number config.min_video_size_bytes))
          " bytes, Actual: ")
        (w.show_number actual))
      " bytes")

abbrev pub size_mismatch : World → Config → ℕ → ℕ → ApiError
size_mismatch w config declared actual = bad_request (
    str_append
      (str_append
        (str_append
          (str_append
            (str_append (str_append "File size mismatch. Declared: " (w.show_number declared))
              " bytes, Actual: ")
            (w.show_number actual))
          " bytes, Allowed tolerance: ")
        (w.show_number config.upload_size_tolerance_bytes))
      " bytes")

abbrev pub unsupported : ApiError
unsupported =
    bad_request
      "Unsupported or invalid video file signature. Supported containers: MP4/MOV/M4V/3GP, WebM/MKV, AVI, OGG."

-- Steps 3 and 4: the size of the object that was uploaded, and its signature.
unfoldable pub verify_upload : World → Config → Video → Result ApiError ℕ
unfolding looks_like_supported_video_container
verify_upload w config v = do
  actual ←
      or_else (w.file_size config.minio_bucket_raw v.s3_key)
        (bad_request "File not uploaded or not accessible")
  refuse_if w (ltb actual config.min_video_size_bytes) (too_small w config actual)
  refuse_if w (ltb config.max_file_size_bytes actual) (bad_request "File exceeds global size limit")
  refuse_if w
      (ltb config.upload_size_tolerance_bytes (abs_diff actual (declared_size v.size_bytes)))
      (size_mismatch w config (declared_size v.size_bytes) actual)
  prefix ←
      or_else (w.read_prefix config.minio_bucket_raw v.s3_key 4096)
        (bad_request "Uploaded file cannot be inspected")
  refuse_if w (not (looks_like_supported_video_container prefix)) unsupported
  ok actual

-- Step 6, the row.
unfoldable pub processing_row : World → ℕ → Video → Video
processing_row w actual v = record v {
  status = "PROCESSING";
  processing_error_code = none;
  processing_error_message = none;
  failed_at = none;
  size_bytes = if actual == as_u64 v.size_bytes then v.size_bytes else pos actual;
  updated_at = w.now;
}

-- Step 7, the job, from the row as it was read.
abbrev pub job_of : ℕ → ℕ → Video → VideoProcessJob
job_of id user v = record {
  video_id = id;
  user_id = user;
  raw_bucket = v.s3_bucket;
  raw_key = v.s3_key;
}

abbrev pub database_error : ApiError
database_error = internal_error "Internal server error"

-- The commit and what follows it. The job is on the queue by then, whether the commit succeeds or not.
abbrev pub commit_confirmed :
    World → ℕ → ℕ → ℕ → Video → State → Option String → Result ApiError (Unit {0}) × State
commit_confirmed w id user actual v s (some e) = (err database_error, s)
commit_confirmed w id user actual v s none = (
  ok tt,
  record s {
    videos = put_video id (processing_row w actual v) s.videos;
    cache_invalidations = user ∷ s.cache_invalidations;
    signals = (user, v.status, processing_row w actual v) ∷ s.signals;
  },
)

abbrev pub after_push :
    World → ℕ → ℕ → ℕ → Video → State → Option String → Result ApiError (Unit {0}) × State
after_push w id user actual v s (some e) =
    (err (internal_error (str_append "Failed to queue job: " e)), s)
after_push w id user actual v s none =
    commit_confirmed w id user actual v (record s { queue = job_of id user v ∷ s.queue })
      (w.db commit)

abbrev pub after_row_update :
    World → ℕ → ℕ → ℕ → Video → State → Option String → Result ApiError (Unit {0}) × State
after_row_update w id user actual v s (some e) = (err database_error, s)
after_row_update w id user actual v s none = after_push w id user actual v s w.push_job

-- Steps 5 to 9.
abbrev pub after_verify :
    World → Config → ℕ → ℕ → Video → State → Result ApiError ℕ → Result ApiError (Unit {0}) × State
after_verify w config id user v s (err e) = (err e, s)
after_verify w config id user v s (ok actual) =
    let counted : State = record s {
      redis =
          (increment_by w.redis w.bypass (upload_bytes_key w user) actual
            config.rate_limit_window_secs s.redis).1;
    } in
    after_row_update w id user actual v counted (w.db update_video)

abbrev pub confirm_locked :
    World → Config → ℕ → ℕ → State → Video → Result ApiError (Unit {0}) × State
confirm_locked w config id user s v =
    if not (str_eq v.status "DRAFT")
    then (db_call (w.db commit), s)
    else after_verify w config id user v s (verify_upload w config v)

-- The row, if the user owns it.
abbrev pub owned : ℕ → Option Video → Option Video
owned user none = none
owned user (some v) = if v.user_id == user then some v else none

abbrev pub read_owned : World → Config → ℕ → ℕ → State → Result ApiError Video
read_owned w config id user s = do
  enforce_read_only_upload_restriction config
  db_call (w.db begin)
  db_call (w.db find_video)
  or_else (owned user (s.videos id)) (not_found "Video not found or not owned by you")

abbrev pub after_row_read :
    World → Config → ℕ → ℕ → State → Result ApiError Video → Result ApiError (Unit {0}) × State
after_row_read w config id user s (err e) = (err e, s)
after_row_read w config id user s (ok v) = confirm_locked w config id user s v

unfoldable pub confirm_upload : World → Config → ℕ → ℕ → State → Result ApiError (Unit {0}) × State
unfolding enforce_read_only_upload_restriction verify_upload processing_row
confirm_upload w config user id s =
    after_row_read w config id user s (read_owned w config id user s)

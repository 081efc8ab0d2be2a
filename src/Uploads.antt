-- ===== src/Uploads.antt =====
-- Uploads of videos (src/api/src/videos/handlers.rs: init_upload, init_anonymous_upload, confirm_upload).
-- The limits of the configuration are not negative; sums of sizes are taken without the bound of 64 bits.
pub mod Confirm
pub mod Owned
pub mod Confirmed
pub mod Requested
pub mod Once
pub mod Published
mod Tests
use Prim.Native.String.{◌++◌ as str_append}
use arsivinyo_memegy_backend.Base.{
  ℕ, ℤ, pos, negsuc, suc, ◌+◌, ◌-◌, ◌/◌, String, Bool, true, false, not, List, [], ◌∷◌, Option,
  none, some, Result, ok, err, ltb, ◌==◌, unwrap_or, if◌then◌else◌,
}
use arsivinyo_memegy_backend.Video.{Video}
use arsivinyo_memegy_backend.Worker.World.{VideoProcessJob, put_video}
use arsivinyo_memegy_backend.Counters.{Redis, World as RedisWorld, get_count}
use arsivinyo_memegy_backend.Api.{
  ApiError, bad_request, too_many_requests, service_unavailable, internal_error, ◌>>=◌, ◌>>◌,
  db_call, guard,
}

-- The fields of `Config` that the uploads read.
pub record Config : Type 0 where
  pub read_only_mode_enabled : Bool
  pub max_file_size_bytes : ℕ
  pub min_video_size_bytes : ℕ
  pub limit_upload_bytes_hourly : ℕ
  pub upload_size_tolerance_bytes : ℕ
  pub rate_limit_window_secs : ℕ
  pub minio_bucket_raw : String

-- The tables and the queue, the last job first, and what else is done: the users whose cached list of
-- videos was invalidated, and the signals that were tried, each a user, the status before and the row.
pub record State : Type 0 where
  pub videos : ℕ → Option Video
  pub queue : List VideoProcessJob
  pub redis : Redis
  pub cache_invalidations : List ℕ
  pub signals : List (ℕ × String × Video)

pub data DbCall : Type 0 where
  begin insert_video find_video update_video commit rollback : DbCall

pub record World : Type 0 where
  pub now : ℕ
  pub db : DbCall → Option String
  pub push_job : Option String
  pub presigned_put : String → String → Result String String
  pub file_size : String → String → Option ℕ  -- `none` if the object store refuses
  pub read_prefix : String → String → ℕ → Option (List ℕ)
  pub redis : RedisWorld
  pub bypass : Bool
  pub new_uuid : ℕ
  pub show_uuid : ℕ → String
  pub show_number : ℕ → String
  pub extension : String → Option String

pub record InitUploadRequest : Type 0 where
  pub filename : String
  pub size_bytes : ℤ
  pub is_nsfw : Bool

pub record InitUploadResponse : Type 0 where
  pub video_id : ℕ
  pub upload_url : String

unfoldable pub enforce_read_only_upload_restriction : Config → Result ApiError (Unit {0})
enforce_read_only_upload_restriction config =
    if config.read_only_mode_enabled
    then err (service_unavailable "read_only_mode_enabled")
    else ok tt

abbrev pub upload_bytes_key : World → ℕ → String
upload_bytes_key w user = str_append "ratelimit:upload:bytes:" (w.show_uuid user)

-- The test `usage + size > limit`.
abbrev pub exceeds : ℕ → ℤ → ℕ → Bool
exceeds usage (pos n) limit = ltb limit (usage + n)
exceeds usage (negsuc n) limit = ltb (limit + suc n) usage

abbrev pub ok_or : Result String ℕ → ℕ → ℕ
ok_or (ok n) d = n
ok_or (err e) d = d

-- `get_count`, where an error counts as no usage.
abbrev pub current_usage : World → ℕ → Redis → ℕ
current_usage w user redis = ok_or (get_count w.redis w.bypass (upload_bytes_key w user) redis) 0

abbrev pub s3_key : World → ℕ → String → String
s3_key w user filename =
    str_append
      (str_append (str_append (str_append (w.show_uuid user) "/") (w.show_uuid w.new_uuid)) ".")
      (unwrap_or (w.extension filename) "bin")

-- The row that a request of an upload inserts.
unfoldable pub draft_row : World → Config → ℕ → InitUploadRequest → Bool → Video
draft_row w config user payload is_anonymous = record {
  id = w.new_uuid;
  user_id = user;
  title = none;
  description = none;
  s3_bucket = config.minio_bucket_raw;
  s3_key = s3_key w user payload.filename;
  status = "DRAFT";
  size_bytes = payload.size_bytes;
  duration_seconds = none;
  like_count = 0;
  is_anonymous = is_anonymous;
  is_nsfw = some payload.is_nsfw;
  moderation_state = "VISIBLE";
  moderation_reason_code = none;
  moderation_updated_at = none;
  moderation_updated_by = none;
  moderation_source_report_id = none;
  processing_error_code = none;
  processing_error_message = none;
  failed_at = none;
  deleted_at = none;
  created_at = w.now;
  updated_at = w.now;
}

abbrev pub too_large : World → Config → ApiError
too_large w config = bad_request (
    str_append (str_append "File too large. Max size: " (w.show_number config.max_file_size_bytes))
      " bytes")

-- The guards before the row is inserted.
abbrev pub may_upload :
    World → Config → ℕ → InitUploadRequest → ℕ → String → Redis → Result ApiError (Unit {0})
may_upload w config user payload limit message redis = do
  enforce_read_only_upload_restriction config
  guard (not (exceeds 0 payload.size_bytes config.max_file_size_bytes)) (too_large w config)
  guard (not (exceeds (current_usage w user redis) payload.size_bytes limit))
      (too_many_requests message)

-- The address for the upload, once the row was inserted. The row stays when there is no address.
abbrev pub with_url :
    ℕ → World → Result String String → State → Result ApiError InitUploadResponse × State
with_url user w (err e) s =
    (err (internal_error (str_append "Failed to generate upload URL: " e)), s)
with_url user w (ok url) s = (
  ok (record { video_id = w.new_uuid; upload_url = url }),
  record s { cache_invalidations = user ∷ s.cache_invalidations },
)

-- The draft, once the answer to its insertion is known.
abbrev pub insert_draft :
    World
    → Config
    → ℕ
    → InitUploadRequest
    → Bool
    → State
    → Option String
    → Result ApiError InitUploadResponse × State
insert_draft w config user payload is_anonymous s (some e) =
    (err (internal_error "Internal server error"), s)
insert_draft w config user payload is_anonymous s none =
    let row = draft_row w config user payload is_anonymous in
    with_url user w (w.presigned_put config.minio_bucket_raw row.s3_key)
      (record s { videos = put_video w.new_uuid row s.videos })

abbrev pub if_allowed :
    Result ApiError (Unit {0})
    → State
    → Result ApiError InitUploadResponse × State
    → Result ApiError InitUploadResponse × State
if_allowed (ok _) s r = r
if_allowed (err e) s r = (err e, s)

unfoldable pub init_upload :
    World → Config → ℕ → InitUploadRequest → State → Result ApiError InitUploadResponse × State
unfolding enforce_read_only_upload_restriction draft_row
init_upload w config user payload s =
    if_allowed
      (may_upload w config user payload config.limit_upload_bytes_hourly
        "Upload rate limit exceeded. Please try again later." s.redis)
      s (insert_draft w config user payload false s (w.db insert_video))

unfoldable pub init_anonymous_upload :
    World → Config → ℕ → InitUploadRequest → State → Result ApiError InitUploadResponse × State
unfolding enforce_read_only_upload_restriction draft_row
init_anonymous_upload w config user payload s =
    if_allowed
      (may_upload w config user payload (config.limit_upload_bytes_hourly / 2)
        "Anonymous upload rate limit exceeded. Please try again later." s.redis)
      s (insert_draft w config user payload true s (w.db insert_video))

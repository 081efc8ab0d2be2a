-- ===== src/Video.antt =====
-- The `videos` row (src/shared/src/entities/videos.rs) and the video states
-- (src/shared/src/video_status.rs). Uuids are numbers, times are seconds.
mod Tests
use arsivinyo_memegy_backend.Base.{
  ℕ, ℤ, String, ◌≡◌, refl, Bool, Option, none, some, str_eq, if◌then◌else◌, arith, List, eq_iff,
}

pub record Video : Type 0 where
  pub id : ℕ
  pub user_id : ℕ
  pub title : Option String
  pub description : Option String
  pub s3_bucket : String
  pub s3_key : String
  pub status : String
  pub size_bytes : ℤ
  pub duration_seconds : Option ℤ
  pub like_count : ℕ
  pub is_anonymous : Bool
  pub is_nsfw : Option Bool
  pub moderation_state : String
  pub moderation_reason_code : Option String
  pub moderation_updated_at : Option ℕ
  pub moderation_updated_by : Option String
  pub moderation_source_report_id : Option ℕ
  pub processing_error_code : Option String
  pub processing_error_message : Option (List ℕ)
  pub failed_at : Option ℕ
  pub deleted_at : Option ℕ
  pub created_at : ℕ
  pub updated_at : ℕ

pub data VideoStatus : Type 0 where
  draft processing published failed : VideoStatus

unfoldable pub as_str : VideoStatus → String
as_str draft = "DRAFT"
as_str processing = "PROCESSING"
as_str published = "PUBLISHED"
as_str failed = "FAILED"

unfoldable pub from_str : String → Option VideoStatus
from_str s =
    if str_eq s "DRAFT"
    then some draft
    else if str_eq s "PROCESSING"
    then some processing
    else if str_eq s "PUBLISHED"
    then some published
    else if str_eq s "FAILED"
    then some failed
    else none

-- Reading a status that was printed gives the status back.
pub from_str-as_str : (v : VideoStatus) → from_str (as_str v) ≡ some v
unfolding from_str as_str
from_str-as_str draft = refl
from_str-as_str processing = refl
from_str-as_str published = refl
from_str-as_str failed = refl

-- Only the printed form of a status is read as that status.
pub as_str-from_str : (s : String) (v : VideoStatus) → from_str s ≡ some v → s ≡ as_str v
unfolding from_str as_str
as_str-from_str s v h =
    ground (arith, eq_iff s "DRAFT", eq_iff s "PROCESSING", eq_iff s "PUBLISHED", eq_iff s "FAILED")

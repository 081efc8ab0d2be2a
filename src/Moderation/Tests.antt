-- ===== src/Moderation/Tests.antt =====
-- A report that quarantines a public video at once, and the theorems of moderation at it.
use arsivinyo_memegy_backend.Base.{
  pos, ◌≤◌, ◌≡◌, refl, String, List, true, false, [], ◌∷◌, none, some, ok, All, length, arith, ◌==◌,
  if◌then◌else◌,
}
use arsivinyo_memegy_backend.Video.{Video}
use arsivinyo_memegy_backend.Moderation.Reasons.{
  reason_csam, normalize_reason_codes, is_allowed, insert, normalize_reason_codes-ok,
}
use arsivinyo_memegy_backend.Moderation.Store.{Tables, State, World}
use arsivinyo_memegy_backend.Moderation.Action.{remove, apply_video_moderation_action_txn}
use arsivinyo_memegy_backend.Moderation.Applied.{IsKeyed, AppliedIfOk, apply_action-Applied}
use arsivinyo_memegy_backend.Moderation.Report.{Config, SubmitReportInput, submit_or_update_report}
use arsivinyo_memegy_backend.Moderation.Report.Quarantine.{Submitted, submit_report-Submitted}

abbrev public_video : Video
public_video = record {
  id = 7;
  user_id = 1;
  title = none;
  description = none;
  s3_bucket = "videos";
  s3_key = "7.webm";
  status = "PUBLISHED";
  size_bytes = pos 2048;
  duration_seconds = none;
  like_count = 0;
  is_anonymous = false;
  is_nsfw = none;
  moderation_state = "VISIBLE";
  moderation_reason_code = none;
  moderation_updated_at = none;
  moderation_updated_by = none;
  moderation_source_report_id = none;
  processing_error_code = none;
  processing_error_message = none;
  failed_at = none;
  deleted_at = none;
  created_at = 0;
  updated_at = 0;
}

abbrev tables : Tables
tables = record { videos = λ id. if id == 7 then some public_video else none; reports = [] }

abbrev world : World
world = record { now = 500; db = λ call. none; new_report_id = 3; show_number = λ n. "3" }

abbrev config : Config
config = record {
  minio_bucket_videos = "videos";
  auto_quarantine_enabled = true;
  auto_quarantine_window_secs = 3600;
  auto_quarantine_severe_distinct_reporters = 3;
}

abbrev report_input : SubmitReportInput
report_input = record {
  video_id = 7;
  reporter_user_id = 2;
  reason_codes = reason_csam ∷ [];
  details = none;
  timestamp_seconds = none;
  client_ip = "192.0.2.1";
  user_agent = none;
}

abbrev start : State
start = record { tables = tables; invalidations = 0 }

keyed : IsKeyed tables.videos
keyed id v e = ground arith

abbrev given : List String
given = "OTHER" ∷ "NECROPHILIA" ∷ "OTHER" ∷ []

abbrev accepted : List String
accepted = "NECROPHILIA" ∷ "OTHER" ∷ []

codes_accepted : normalize_reason_codes (λ s. s) 5 given ≡ ok accepted
unfolding normalize_reason_codes insert
codes_accepted = refl

normalize_reason_codes-ok_example :
    All (λ c. is_allowed c ≡ true) accepted × (length accepted ≤ length given) × (length given ≤ 5)
normalize_reason_codes-ok_example =
    normalize_reason_codes-ok (λ s. s) 5 given accepted codes_accepted

apply_action-Applied_example :
    AppliedIfOk world 7 remove
      (some "OTHER")
      "admin"
      none
      tables
      (apply_video_moderation_action_txn world 7 remove (some "OTHER") "admin" none tables)
apply_action-Applied_example =
    apply_action-Applied world 7 remove (some "OTHER") "admin" none tables keyed

submit_report-Submitted_example :
    Submitted world config report_input start
      (submit_or_update_report world config report_input start)
submit_report-Submitted_example = submit_report-Submitted world config report_input start keyed

-- ===== src/Moderation/Report.antt =====
-- Submitting an abuse report, with the automatic quarantine
-- (src/api/src/services/abuse_report_service.rs).
pub mod Quarantine
use Prim.Native.String.{◌++◌ as str_append}
use arsivinyo_memegy_backend.Base.{
  ℕ, suc, ◌+◌, ◌*◌, max, String, Bool, true, false, not, ◌&&◌, ◌||◌, List, [], ◌∷◌, ◌++◌, Option,
  none, some, Result, ok, err, str_eq, leb, any, length, keep, map, is_some, ◌==◌, if◌then◌else◌,
}
use arsivinyo_memegy_backend.Video.{Video}
use arsivinyo_memegy_backend.Moderation.Reasons.{
  severity_score_for_reasons, is_immediate_auto_quarantine, has_severe_reason,
}
use arsivinyo_memegy_backend.Moderation.Store.{
  AbuseReport, Tables, State, World, DbCall, begin, find_video, find_report, write_report,
  count_reporters, mark_report, commit, ApiError, not_found, db_error, ◌>>=◌, ◌>>◌, call, guard,
  or_not_found, put_report,
}
use arsivinyo_memegy_backend.Moderation.Action.{
  quarantine, ModerationOutcome, apply_video_moderation_action_txn,
}

-- The fields of `Config` that a report reads.
pub record Config : Type 0 where
  pub minio_bucket_videos : String
  pub auto_quarantine_enabled : Bool
  pub auto_quarantine_window_secs : ℕ
  pub auto_quarantine_severe_distinct_reporters : ℕ

pub record SubmitReportInput : Type 0 where
  pub video_id : ℕ
  pub reporter_user_id : ℕ
  pub reason_codes : List String
  pub details : Option String
  pub timestamp_seconds : Option ℕ
  pub client_ip : String
  pub user_agent : Option String

pub record SubmitReportOutcome : Type 0 where
  pub report : AbuseReport
  pub created : Bool
  pub auto_quarantined : Bool
  pub auto_rule : Option String

-- The filters of the first query.
unfoldable pub is_reportable : Config → Video → Bool
is_reportable config v =
    not (is_some v.deleted_at)
    && (str_eq v.status "PUBLISHED"
        || str_eq v.status "published"
        || str_eq v.status "COMPLETED"
        || str_eq v.status "completed"
        || str_eq v.s3_bucket config.minio_bucket_videos)

unfoldable pub find_reportable : Config → Tables → ℕ → Option Video
find_reportable config t id = elim (t.videos id) [
  | none ↦ none
  | some v ↦ if is_reportable config v then some v else none
]

abbrev pub is_open_report : ℕ → ℕ → AbuseReport → Bool
is_open_report video reporter r =
    r.video_id == video && r.reporter_user_id == reporter && not (is_some r.closed_at)

-- The latest of two reports, for `ORDER BY created_at DESC LIMIT 1`.
abbrev later : AbuseReport → Option AbuseReport → AbuseReport
later r none = r
later r (some x) = if leb x.created_at r.created_at then r else x

unfoldable pub latest : List AbuseReport → Option AbuseReport
latest [] = none
latest (r ∷ rs) = some (later r (latest rs))

unfoldable pub find_open_report : ℕ → ℕ → List AbuseReport → Option AbuseReport
unfolding latest
find_open_report video reporter reports = latest (keep (is_open_report video reporter) reports)

unfoldable pub updated_report : World → SubmitReportInput → AbuseReport → AbuseReport
updated_report w input r = record r {
  reason_codes = input.reason_codes;
  details = input.details;
  timestamp_seconds = input.timestamp_seconds;
  severity_score = severity_score_for_reasons input.reason_codes;
  client_ip = input.client_ip;
  user_agent = input.user_agent;
  updated_at = w.now;
}

unfoldable pub new_report : World → SubmitReportInput → AbuseReport
new_report w input = record {
  id = w.new_report_id;
  video_id = input.video_id;
  reporter_user_id = input.reporter_user_id;
  reason_codes = input.reason_codes;
  details = input.details;
  timestamp_seconds = input.timestamp_seconds;
  severity_score = severity_score_for_reasons input.reason_codes;
  status = "open";
  client_ip = input.client_ip;
  user_agent = input.user_agent;
  auto_quarantined = false;
  auto_rule = none;
  created_at = w.now;
  updated_at = w.now;
  closed_at = none;
  closed_by_admin_sub = none;
  resolution_code = none;
  resolution_note = none;
}

-- The report written, and the reports after the write.
unfoldable pub write_open_report :
    World
    → SubmitReportInput
    → Option AbuseReport
    → List AbuseReport
    → AbuseReport × List AbuseReport
write_open_report w input (some existing) reports =
    let r = updated_report w input existing in (r, put_report r reports)
write_open_report w input none reports = let r = new_report w input in (r, reports ++ r ∷ [])

-- The open reports of a video in the window.
unfoldable pub in_window : World → Config → ℕ → AbuseReport → Bool
in_window w config video r =
    r.video_id == video
    && not (is_some r.closed_at)
    && leb w.now (r.created_at + max config.auto_quarantine_window_secs 1)

-- `COUNT(DISTINCT reporter_user_id)`.
unfoldable pub count_distinct : List AbuseReport → ℕ
count_distinct [] = 0
count_distinct (r ∷ rs) =
    let n = count_distinct rs in
    if any (λ x. x.reporter_user_id == r.reporter_user_id) rs then n else suc n

unfoldable pub reporter_count : World → Config → ℕ → List AbuseReport → ℕ
unfolding in_window count_distinct
reporter_count w config video reports = count_distinct (keep (in_window w config video) reports)

abbrev pub threshold : Config → ℕ
threshold config = max config.auto_quarantine_severe_distinct_reporters 1

unfoldable pub count_rule :
    World → Config → SubmitReportInput → List AbuseReport → Result ApiError (Option String)
count_rule w config input reports = do
  call w count_reporters
  ok (
      if leb (threshold config) (reporter_count w config input.video_id reports)
      then some (str_append "severe_distinct_reporters_" (w.show_number (threshold config)))
      else none)

unfoldable pub decide_auto_rule :
    World → Config → SubmitReportInput → List AbuseReport → Result ApiError (Option String)
decide_auto_rule w config input reports =
    if not config.auto_quarantine_enabled
    then ok none
    else if is_immediate_auto_quarantine input.reason_codes
    then ok (some "immediate_minor_sexual_exploitation")
    else if has_severe_reason input.reason_codes
    then count_rule w config input reports
    else ok none

unfoldable pub quarantined_report : World → String → AbuseReport → AbuseReport
quarantined_report w rule r = record r {
  auto_quarantined = true;
  auto_rule = some rule;
  status = "auto_quarantined";
  updated_at = w.now;
}

-- What the transaction hands on: the report, whether the video's moderation changed, the tables.
pub record Quarantined : Type 0 where
  pub report : AbuseReport
  pub moderation_changed : Bool
  pub tables : Tables

unfoldable pub apply_auto_rule :
    World → SubmitReportInput → Option String → AbuseReport → Tables → Result ApiError Quarantined
apply_auto_rule w input none report t =
    ok (record { report = report; moderation_changed = false; tables = t })
apply_auto_rule w input (some rule) report t = do
  (moderation, t') ←
      apply_video_moderation_action_txn w input.video_id quarantine (some "AUTO_QUARANTINE")
        "system:auto_quarantine" (some report.id) t
  call w mark_report
  let marked = quarantined_report w rule report
  ok (record {
    report = marked;
    moderation_changed = moderation.changed;
    tables = record t' { reports = put_report marked t'.reports };
  })

unfoldable pub report_in_txn :
    World
    → Config
    → SubmitReportInput
    → Tables
    → Result ApiError (SubmitReportOutcome × Quarantined)
unfolding apply_auto_rule
report_in_txn w config input t = do
  call w begin
  call w find_video
  video ← or_not_found (find_reportable config t input.video_id)
  guard (not (str_eq video.moderation_state "REMOVED")) (not_found "Video not found")
  call w find_report
  let existing = find_open_report input.video_id input.reporter_user_id t.reports
  call w write_report
  let written = write_open_report w input existing t.reports
  rule ← decide_auto_rule w config input written.1
  q ← apply_auto_rule w input rule written.0 (record t { reports = written.1 })
  call w commit
  ok (
    record {
      report = q.report;
      created = not (is_some existing);
      auto_quarantined = is_some rule;
      auto_rule = rule;
    },
    q,
  )

abbrev pub after_txn :
    State
    → Result ApiError (SubmitReportOutcome × Quarantined)
    → Result ApiError SubmitReportOutcome × State
after_txn s (err e) = (err e, s)
after_txn s (ok (outcome, q)) = (
  ok outcome,
  record {
    tables = q.tables;
    invalidations = if q.moderation_changed then s.invalidations + 1 else s.invalidations;
  },
)

-- The transaction puts its tables in place only by its commit, its last step.
unfoldable pub submit_or_update_report :
    World → Config → SubmitReportInput → State → Result ApiError SubmitReportOutcome × State
unfolding report_in_txn
submit_or_update_report w config input s = after_txn s (report_in_txn w config input s.tables)

-- `purge_expired_reports`: the reports older than the retention are deleted.
unfoldable pub purge_expired_reports : ℕ → ℕ → List AbuseReport → List AbuseReport
purge_expired_reports now retention_days =
    keep λ r. leb now (r.created_at + max retention_days 1 * 86400)

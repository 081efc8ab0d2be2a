-- ===== src/Moderation/Action.antt =====
-- Applying a moderation action to a video (src/api/src/services/abuse_report_service.rs).
use arsivinyo_memegy_backend.Base.{
  ℕ, ◌+◌, String, Bool, true, false, not, ◌||◌, Option, none, some, Result, ok, err, str_eq,
  is_some, ◌==◌, if◌then◌else◌,
}
use arsivinyo_memegy_backend.Video.{Video}
use arsivinyo_memegy_backend.Moderation.Store.{
  Tables, State, World, begin, find_moderated, write_video, commit, ApiError, not_found, db_error,
  ◌>>=◌, ◌>>◌, call, guard, or_not_found, put_video,
}

pub data VideoModerationAction : Type 0 where
  quarantine remove restore : VideoModerationAction

unfoldable pub target_state : VideoModerationAction → String
target_state quarantine = "QUARANTINED"
target_state remove = "REMOVED"
target_state restore = "VISIBLE"

-- A restored video keeps no reason and no source.
abbrev pub unless_restored {ℓ} : {A : Type ℓ} → VideoModerationAction → Option A → Option A
unless_restored restore o = none
unless_restored quarantine o = o
unless_restored remove o = o

abbrev pub opt_str_eq : Option String → Option String → Bool
opt_str_eq none none = true
opt_str_eq (some a) (some b) = str_eq a b
opt_str_eq none (some b) = false
opt_str_eq (some a) none = false

abbrev pub opt_eq : Option ℕ → Option ℕ → Bool
opt_eq none none = true
opt_eq (some a) (some b) = a == b
opt_eq none (some b) = false
opt_eq (some a) none = false

pub record ModerationOutcome : Type 0 where
  pub video : Video
  pub changed : Bool

unfoldable pub is_moderated : VideoModerationAction → Option String → Option ℕ → Video → Bool
unfolding target_state
is_moderated action reason source v = not (
    not (str_eq v.moderation_state (target_state action))
    || not (opt_str_eq v.moderation_reason_code (unless_restored action reason))
    || not (opt_eq v.moderation_source_report_id (unless_restored action source)))

unfoldable pub moderated :
    World → VideoModerationAction → Option String → String → Option ℕ → Video → Video
moderated w action reason actor source v = record v {
  moderation_state = target_state action;
  moderation_reason_code = unless_restored action reason;
  moderation_updated_at = some w.now;
  moderation_updated_by = some actor;
  moderation_source_report_id = unless_restored action source;
}

unfoldable pub apply_to_video :
    World
    → VideoModerationAction
    → Option String
    → String
    → Option ℕ
    → Video
    → Tables
    → Result ApiError (ModerationOutcome × Tables)
apply_to_video w action reason actor source video t =
    if is_moderated action reason source video
    then ok (record { video = video; changed = false }, t)
    else do
      call w write_video
      let updated = moderated w action reason actor source video
      ok (
        record { video = updated; changed = true },
        record t { videos = put_video video.id updated t.videos },
      )

-- `apply_video_moderation_action_txn`, on the tables of a transaction.
unfoldable pub apply_video_moderation_action_txn :
    World
    → ℕ
    → VideoModerationAction
    → Option String
    → String
    → Option ℕ
    → Tables
    → Result ApiError (ModerationOutcome × Tables)
unfolding apply_to_video
apply_video_moderation_action_txn w video_id action reason actor source t = do
  call w find_moderated
  video ← or_not_found (t.videos video_id)
  guard (not (is_some video.deleted_at)) (not_found "Video not found")
  apply_to_video w action reason actor source video t

abbrev committed :
    World → State → ModerationOutcome × Tables → Result ApiError ModerationOutcome × State
committed w s (outcome, t) = elim (w.db commit) [
  | some e ↦ (err (db_error e), s)
  | none ↦ (
    ok outcome,
    record {
      tables = t;
      invalidations = if outcome.changed then s.invalidations + 1 else s.invalidations;
    },
  )
]

abbrev after_action :
    World
    → State
    → Result ApiError (ModerationOutcome × Tables)
    → Result ApiError ModerationOutcome × State
after_action w s (err e) = (err e, s)
after_action w s (ok done) = committed w s done

unfoldable pub apply_video_moderation_action :
    World
    → ℕ
    → VideoModerationAction
    → Option String
    → String
    → Option ℕ
    → State
    → Result ApiError ModerationOutcome × State
unfolding apply_video_moderation_action_txn
apply_video_moderation_action w video_id action reason actor source s = after_action w s (do
  call w begin
  apply_video_moderation_action_txn w video_id action reason actor source s.tables)

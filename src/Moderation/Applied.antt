-- ===== src/Moderation/Applied.antt =====
-- What a moderation action that succeeds leaves (src/api/src/services/abuse_report_service.rs:
-- apply_video_moderation_action_txn).
use arsivinyo_memegy_backend.Base.{
  ℕ, ◌≡◌, ◌≢◌, refl, ap, inl, inr, String, true, false, not, Option, none, some, Result, ok, err,
  Bool-cases, Option-cases, ◌⊎◌, eq_iff, is_some, ==_refl, arith,
}
use arsivinyo_memegy_backend.Video.{Video}
use arsivinyo_memegy_backend.Moderation.Store.{
  Tables, World, find_moderated, write_video, ApiError, not_found, ◌>>=◌, ◌>>◌, call, guard,
  or_not_found,
}
use arsivinyo_memegy_backend.Moderation.Action.{
  VideoModerationAction, quarantine, remove, restore, target_state, opt_str_eq, opt_eq,
  ModerationOutcome, is_moderated, moderated, apply_to_video, apply_video_moderation_action_txn,
}

-- The rows of the table stand under their own ids.
abbrev pub IsKeyed : (ℕ → Option Video) → Type 0
IsKeyed videos = (id : ℕ) (v : Video) → videos id ≡ some v → v.id ≡ id

opt_str_eq-eq : (a b : Option String) → opt_str_eq a b ≡ true → a ≡ b
opt_str_eq-eq none none h = refl
opt_str_eq-eq (some a) (some b) h = ap some ((eq_iff a b).0 h)
opt_str_eq-eq none (some b) h = cc
opt_str_eq-eq (some a) none h = cc

-- What each action makes of the state of a video, with its reason and its source.
abbrev pub IsModerated : VideoModerationAction → Option String → Option ℕ → Video → Type 0
IsModerated quarantine reason source v =
    (v.moderation_state ≡ "QUARANTINED")
    × (v.moderation_reason_code ≡ reason)
    × (v.moderation_source_report_id ≡ source)
IsModerated remove reason source v =
    (v.moderation_state ≡ "REMOVED")
    × (v.moderation_reason_code ≡ reason)
    × (v.moderation_source_report_id ≡ source)
IsModerated restore reason source v =
    (v.moderation_state ≡ "VISIBLE")
    × (v.moderation_reason_code ≡ none)
    × (v.moderation_source_report_id ≡ none)

-- The columns of a row that no action writes.
abbrev pub apart_from_moderation : Video → Video
apart_from_moderation v = record v {
  moderation_state = "";
  moderation_reason_code = none;
  moderation_updated_at = none;
  moderation_updated_by = none;
  moderation_source_report_id = none;
}

-- What an action did with the row `old`: nothing, as it had the state, the reason and the source already, or it
-- wrote these with the time and the actor, and left every other column.
abbrev pub Moderates : World → String → Video → ModerationOutcome → Type 0
Moderates w actor old o =
    ((o.changed ≡ false) × (o.video ≡ old))
    ⊎ ((o.changed ≡ true)
        × (o.video.moderation_updated_at ≡ some w.now)
        × (o.video.moderation_updated_by ≡ some actor)
        × (apart_from_moderation o.video ≡ apart_from_moderation old))

opt_eq-eq : (a b : Option ℕ) → opt_eq a b ≡ true → a ≡ b
opt_eq-eq none none h = refl
opt_eq-eq (some a) (some b) h = ground arith
opt_eq-eq none (some b) h = cc
opt_eq-eq (some a) none h = cc

is_moderated-IsModerated :
    (action : VideoModerationAction) (reason : Option String) (source : Option ℕ) (v : Video)
    → is_moderated action reason source v ≡ true
    → IsModerated action reason source v
unfolding is_moderated
is_moderated-IsModerated quarantine reason source v h = (
  (eq_iff v.moderation_state "QUARANTINED").0 (ground arith),
  opt_str_eq-eq v.moderation_reason_code reason (ground arith),
  opt_eq-eq v.moderation_source_report_id source (ground arith),
)
is_moderated-IsModerated remove reason source v h = (
  (eq_iff v.moderation_state "REMOVED").0 (ground arith),
  opt_str_eq-eq v.moderation_reason_code reason (ground arith),
  opt_eq-eq v.moderation_source_report_id source (ground arith),
)
is_moderated-IsModerated restore reason source v h = (
  (eq_iff v.moderation_state "VISIBLE").0 (ground arith),
  opt_str_eq-eq v.moderation_reason_code none (ground arith),
  opt_eq-eq v.moderation_source_report_id none (ground arith),
)

moderated-IsModerated :
    (w : World) (action : VideoModerationAction) (reason : Option String) (actor : String)
    (source : Option ℕ) (v : Video)
    → IsModerated action reason source (moderated w action reason actor source v)
unfolding moderated target_state
moderated-IsModerated w quarantine reason actor source v = (refl, refl, refl)
moderated-IsModerated w remove reason actor source v = (refl, refl, refl)
moderated-IsModerated w restore reason actor source v = (refl, refl, refl)

moderated-Moderates :
    (w : World) (action : VideoModerationAction) (reason : Option String) (actor : String)
    (source : Option ℕ) (v : Video)
    → Moderates w actor v
        (record { video = moderated w action reason actor source v; changed = true })
unfolding moderated
moderated-Moderates w action reason actor source v = inr (refl, refl, refl, refl)

-- The action was applied: the stored video is moderated, and nothing else changed in the tables.
pub record Applied (w : World) (id : ℕ) (action : VideoModerationAction) (reason : Option String)
    (actor : String) (source : Option ℕ) (t : Tables) (o : ModerationOutcome) (t' : Tables)
    : Type 0 where
  pub old : Video
  pub found : t.videos id ≡ some old
  pub not_deleted : old.deleted_at ≡ none
  pub is_moderated : IsModerated action reason source o.video
  pub moderates : Moderates w actor old o
  pub stored : t'.videos id ≡ some o.video
  pub others : (k : ℕ) → k ≢ id → t'.videos k ≡ t.videos k
  pub reports : t'.reports ≡ t.reports

module _ (w : World) (id : ℕ) (action : VideoModerationAction) (reason : Option String)
    (actor : String) (source : Option ℕ) (t : Tables) where
  abbrev pub AppliedIfOk : Result ApiError (ModerationOutcome × Tables) → Type 0
  AppliedIfOk (ok (o, t')) = Applied w id action reason actor source t o t'
  AppliedIfOk (err e) = Unit

  AppliedIfOk-then :
      (m : Result ApiError (Unit {0})) (r : Result ApiError (ModerationOutcome × Tables))
      → AppliedIfOk r
      → AppliedIfOk (m >> r)
  AppliedIfOk-then (ok _) r h = h
  AppliedIfOk-then (err e) r h = tt

  apply_to_video-Applied :
      (v : Video)
      → t.videos id ≡ some v
      → v.id ≡ id
      → v.deleted_at ≡ none
      → AppliedIfOk (apply_to_video w action reason actor source v t)
  unfolding apply_to_video
  apply_to_video-Applied v found keyed here =
      elim (Bool-cases (is_moderated action reason source v)) [
        | inl same ↦ rw same (record {
          old = v;
          found = found;
          not_deleted = here;
          is_moderated = is_moderated-IsModerated action reason source v same;
          moderates = inl (refl, refl);
          stored = found;
          others = λ k h. refl;
          reports = refl;
        })
        | inr new ↦ rw new (
            AppliedIfOk-then (call w write_video) _ (record {
              old = v;
              found = found;
              not_deleted = here;
              is_moderated = moderated-IsModerated w action reason actor source v;
              moderates = moderated-Moderates w action reason actor source v;
              stored = rw (keyed, ==_refl id) refl;
              others = λ k h. ground arith;
              reports = refl;
            }))
      ]

  -- The row that was found, if it is not deleted.
  guarded-Applied :
      (v : Video)
      → t.videos id ≡ some v
      → v.id ≡ id
      → AppliedIfOk (
          guard (not (is_some v.deleted_at)) (not_found "Video not found")
          >> apply_to_video w action reason actor source v t)
  guarded-Applied v found keyed = elim (Option-cases v.deleted_at) [
    | inr (x, deleted) ↦ rw deleted tt
    | inl here ↦ AppliedIfOk-then _ _ (apply_to_video-Applied v found keyed here)
  ]

  -- On a table whose rows stand under their own ids: a successful action found a row that is not deleted. It leaves the row QUARANTINED or REMOVED, with the reason
  -- and the source given, or VISIBLE with neither if it restores. Either the row was so already and is as it
  -- was, or the change is reported, the row has the time and the actor of the change, and its other columns are
  -- as they were. No other video and no report changes.
  pub apply_action-Applied :
      IsKeyed t.videos
      → AppliedIfOk (apply_video_moderation_action_txn w id action reason actor source t)
  unfolding apply_video_moderation_action_txn
  apply_action-Applied keyed = AppliedIfOk-then (call w find_moderated) _ (go (t.videos id) refl)
    where
      go :
          (o : Option Video)
          → t.videos id ≡ o
          → AppliedIfOk (
              or_not_found o >>= λ video.
              guard (not (is_some video.deleted_at)) (not_found "Video not found")
              >> apply_to_video w action reason actor source video t)
      go none e = tt
      go (some v) e = guarded-Applied v e (keyed id v e)

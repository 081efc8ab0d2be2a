-- ===== src/Likes/Tests.antt =====
-- Two users who like a video, and the theorems at them.
use arsivinyo_memegy_backend.Base.{
  pos, ℕ, ◌≡◌, ◌≤◌, refl, sym, ap, Bool, true, false, List, [], ◌∷◌, none, some, ok, ◌==◌,
  if◌then◌else◌, arith,
}
use arsivinyo_memegy_backend.Video.{Video}
use arsivinyo_memegy_backend.Likes.{
  State, World, Config, set_like_video, has_like, enforce_like_rate_limit,
  get_published_video_or_404, get_video_like_count, insert_like_if_missing, update_count,
}
use arsivinyo_memegy_backend.Counters.{check_and_increment}
use arsivinyo_memegy_backend.Likes.Counted.{
  IsCounted, likes_of, rows_of, Action, set, unset, act, after, after-IsCounted,
}
use arsivinyo_memegy_backend.Likes.Sets.{Refines, act-Refines}

abbrev video : Video
video = record {
  id = 7;
  user_id = 1;
  title = none;
  description = none;
  s3_bucket = "videos";
  s3_key = "7.mp4";
  status = "PUBLISHED";
  size_bytes = pos 100;
  duration_seconds = none;
  like_count = 1;
  is_anonymous = false;
  is_nsfw = none;
  moderation_state = "VISIBLE";
  moderation_reason_code = none;
  moderation_updated_at = none;
  moderation_updated_by = none;
  moderation_source_report_id = none;
  processing_error_code = none;
  processing_error_message = none;
  failed_at = none;
  deleted_at = none;
  created_at = 0;
  updated_at = 0;
}

abbrev start : State
start = record {
  tables = record { videos = λ id. if id == 7 then some video else none; likes = (2, 7) ∷ [] };
  redis = record { counters = λ key. none };
  invalidations = [];
}

abbrev world : World
world = record {
  db = λ call. none;
  redis = record { now = 100; fails = λ call. none };
  bypass = false;
  show_number = λ n. if n == 2 then "two" else "three";
}

abbrev config : Config
config = record { like_actions_rpm_limit = 2; like_actions_window_secs = 60 }

start_counted :
    (b : Bool) (v : Video)
    → (if b then some video else none) ≡ some v
    → v.like_count ≡ (if b then 1 else 0)
start_counted true v e = sym (ap (λ o. elim o [ none ↦ 0 | some x ↦ x.like_count ]) e)
start_counted false v e = cc

counts_right :
    (id : ℕ) (v : Video)
    → start.tables.videos id ≡ some v
    → v.like_count ≡ likes_of id start.tables.likes
counts_right id v e = ground (arith, start_counted (id == 7) v e)

start_rows : (user id : ℕ) → rows_of user id start.tables.likes ≤ 1
start_rows user id = ground arith

start-IsCounted : IsCounted start.tables
start-IsCounted = record { counted = counts_right; distinct = start_rows }

abbrev actions : List Action
actions = set world config 3 7 ∷ set world config 3 7 ∷ unset world config 2 7 ∷ []

after-IsCounted_example : IsCounted (after actions start).tables
after-IsCounted_example = after-IsCounted actions start start-IsCounted

act-Refines_example : Refines (set world config 3 7) start (act (set world config 3 7) start)
act-Refines_example = act-Refines (set world config 3 7) start start-IsCounted

-- The run of the example: the action is let through and counts two likes.
set_like_run :
    (set_like_video world config 3 7 start).0 ≡ ok (record { is_liked = true; like_count = 2 })
unfolding set_like_video enforce_like_rate_limit get_published_video_or_404 get_video_like_count
    insert_like_if_missing update_count has_like check_and_increment
set_like_run = refl

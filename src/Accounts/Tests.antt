-- ===== src/Accounts/Tests.antt =====
-- An account deleted long ago, with a video and a like, and the theorems at it.
use mathlib.Core.List.{Memᴰ}
use arsivinyo_memegy_backend.Base.{
  pos, ℕ, ◌≡◌, ◌<◌, refl, ok, false, [], ◌∷◌, none, some, ◌==◌, if◌then◌else◌, arith,
}
use arsivinyo_memegy_backend.Video.{Video}
use arsivinyo_memegy_backend.Likes.Counted.{likes_of}
use arsivinyo_memegy_backend.Accounts.{
  User, State, World, is_expired, delete_objects, delete_cascade, clean_account, clean_accounts,
  process_expired_accounts,
}
use arsivinyo_memegy_backend.Accounts.Complete.{
  kept, process_expired_accounts-kept, IsCleaned, process_expired_accounts-IsCleaned,
}
use arsivinyo_memegy_backend.Accounts.Drift.{clean_account-drift}

abbrev video_of : ℕ → ℕ → Video
video_of id user = record {
  id = id;
  user_id = user;
  title = none;
  description = none;
  s3_bucket = "videos";
  s3_key = "key.mp4";
  status = "PUBLISHED";
  size_bytes = pos 100;
  duration_seconds = none;
  like_count = 1;
  is_anonymous = false;
  is_nsfw = none;
  moderation_state = "VISIBLE";
  moderation_reason_code = none;
  moderation_updated_at = none;
  moderation_updated_by = none;
  moderation_source_report_id = none;
  processing_error_code = none;
  processing_error_message = none;
  failed_at = none;
  deleted_at = none;
  created_at = 0;
  updated_at = 0;
}

abbrev gone : User
gone = record { id = 1; deleted_at = some 100 }

-- User 1 owns video 10, and likes video 20 of user 2.
abbrev start : State
start = record {
  users = gone ∷ record { id = 2; deleted_at = some 2999000 } ∷ [];
  videos = video_of 10 1 ∷ video_of 20 2 ∷ [];
  likes = (1, 20) ∷ (2, 10) ∷ [];
  deletes = [];
}

abbrev world : World
world = record { now = 3000000; db = λ call. none; show_uuid = λ n. if n == 10 then "10" else "20" }

abbrev cleaned : State
cleaned = (process_expired_accounts world start).1

cleaned_run : process_expired_accounts world start ≡ (ok tt, cleaned)
unfolding process_expired_accounts clean_accounts clean_account is_expired delete_objects
    delete_cascade
cleaned_run = refl

process_expired_accounts-kept_example :
    kept 2 (process_expired_accounts world start).1 ≡ kept 2 start
unfolding is_expired
process_expired_accounts-kept_example = process_expired_accounts-kept world 2 start refl

process_expired_accounts-IsCleaned_example : IsCleaned world (video_of 10 1) cleaned
unfolding is_expired
process_expired_accounts-IsCleaned_example =
    process_expired_accounts-IsCleaned world (video_of 10 1) start cleaned cleaned_run refl
      (Memᴰ.head refl)

clean_account-drift_example :
    Memᴰ (video_of 20 2) (clean_account world gone start).1.videos
    × (likes_of 20 (clean_account world gone start).1.likes < 1)
clean_account-drift_example =
    clean_account-drift world gone start (video_of 20 2) refl refl (Memᴰ.tail (Memᴰ.head refl)) refl
      refl (omega arith)

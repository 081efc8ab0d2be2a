-- ===== src/Accounts/Drift.antt =====
-- The like counts of videos after accounts were removed (src/worker/src/account_cleanup.rs).
use mathlib.Core.List.{Memᴰ}
use arsivinyo_memegy_backend.Base.{
  ℕ, ◌+◌, ◌<◌, ◌≤◌, ◌≡◌, false, not, List, [], ◌∷◌, none, keep, ◌==◌, arith,
}
use arsivinyo_memegy_backend.Video.{Video}
use arsivinyo_memegy_backend.Likes.Counted.{likes_of, rows_of}
use arsivinyo_memegy_backend.Accounts.{
  State, goes_with, is_owned, delete_cascade, clean_account, World, User, find_videos, delete_user,
}
use arsivinyo_memegy_backend.Accounts.Complete.{Mem-keep}

-- The rows of a video that the cascade leaves are at most those that are not the user's.
likes_of-cascade :
    (user id : ℕ) (vs : List Video) (ps : List (ℕ × ℕ))
    → likes_of id (keep (λ p. not (goes_with user vs p)) ps) + rows_of user id ps ≤ likes_of id ps
likes_of-cascade user id vs [] = omega arith
likes_of-cascade user id vs (p ∷ ps) = ground (arith, likes_of-cascade user id vs ps)

-- Removing the account of a user who likes a video of another user, by calls
-- of the database that succeed, leaves the row of that video with its
-- like count, although the like is gone: a count that was right is too high from then on.
pub clean_account-drift :
    (w : World) (u : User) (s : State) (v : Video)
    → w.db (find_videos u.id) ≡ none
    → w.db (delete_user u.id) ≡ none
    → Memᴰ v s.videos
    → v.user_id == u.id ≡ false
    → v.like_count ≡ likes_of v.id s.likes
    → 1 ≤ rows_of u.id v.id s.likes
    → Memᴰ v (clean_account w u s).1.videos
      × (likes_of v.id (clean_account w u s).1.likes < v.like_count)
unfolding clean_account delete_cascade
clean_account-drift w u s v found deleted m other count rows =
    rw (found, clean_account)
      (rw deleted (
        Mem-keep (λ x. not (is_owned u.id x)) v s.videos (ground (arith, other)) m,
        omega (arith, likes_of-cascade u.id v.id s.videos s.likes, count, rows),
      ))

-- ===== src/Accounts.antt =====
-- The clean-up of deleted accounts by the worker (src/worker/src/account_cleanup.rs). The endless loop
-- of `run` is left out: it calls `process_expired_accounts` each hour.
pub mod Complete
pub mod Drift
mod Tests
use Prim.Native.String.{◌++◌ as str_append}
use arsivinyo_memegy_backend.Base.{
  ℕ, ◌+◌, String, Bool, true, false, not, ◌&&◌, ◌||◌, List, [], ◌∷◌, Option, none, some, Result, ok,
  err, any, keep, ltb, ◌==◌,
}
use arsivinyo_memegy_backend.Video.{Video}

-- The columns of `users` that the clean-up reads.
pub record User : Type 0 where
  pub id : ℕ
  pub deleted_at : Option ℕ

-- The tables, a like being its user and its video, and the objects whose deletion was asked for, the
-- last first. A deletion that fails is logged and otherwise passed over.
pub record State : Type 0 where
  pub users : List User
  pub videos : List Video
  pub likes : List (ℕ × ℕ)
  pub deletes : List (String × String)

-- A call of the database, with the user it is about.
pub data DbCall : Type 0 where
  find_users : DbCall
  find_videos delete_user : ℕ → DbCall

pub record World : Type 0 where
  pub now : ℕ
  pub db : DbCall → Option String
  pub show_uuid : ℕ → String

abbrev pub retention : ℕ
retention = 2592000

-- Deleted for more than 30 days.
unfoldable pub is_expired : ℕ → User → Bool
is_expired now u = elim u.deleted_at [ none ↦ false | some at ↦ ltb (at + retention) now ]

abbrev pub thumb_key : World → ℕ → String
thumb_key w id = str_append (w.show_uuid id) "_thumb.jpg"

unfoldable pub delete_objects : World → List Video → List (String × String) → List (String × String)
delete_objects w [] ds = ds
delete_objects w (v ∷ vs) ds =
    delete_objects w vs ((v.s3_bucket, thumb_key w v.id) ∷ (v.s3_bucket, v.s3_key) ∷ ds)

abbrev pub is_owned : ℕ → Video → Bool
is_owned user v = v.user_id == user

-- A like that goes with its user, or with a video of that user.
abbrev pub goes_with : ℕ → List Video → ℕ × ℕ → Bool
goes_with user videos like = like.0 == user || any (λ v. is_owned user v && v.id == like.1) videos

-- Deleting a user, with the cascade to the user's videos and likes and to the likes of those videos.
unfoldable pub delete_cascade : ℕ → State → State
delete_cascade user s = record s {
  users = keep (λ u. not (u.id == user)) s.users;
  videos = keep (λ v. not (is_owned user v)) s.videos;
  likes = keep (λ p. not (goes_with user s.videos p)) s.likes;
}

unfoldable pub clean_account : World → User → State → Result String (Unit {0}) × State
unfolding delete_objects delete_cascade
clean_account w u s = elim (w.db (find_videos u.id)) [
  | some e ↦ (err e, s)
  | none ↦
      let t : State = record s {
        deletes = delete_objects w (keep (is_owned u.id) s.videos) s.deletes;
      } in
      elim (w.db (delete_user u.id)) [ some e ↦ (err e, t) | none ↦ (ok tt, delete_cascade u.id t) ]
]

abbrev pub and_next :
    (State → Result String (Unit {0}) × State)
    → Result String (Unit {0}) × State
    → Result String (Unit {0}) × State
and_next next (ok _, s) = next s
and_next next (err e, s) = (err e, s)

-- An error ends the loop.
unfoldable pub clean_accounts : World → List User → State → Result String (Unit {0}) × State
unfolding clean_account
clean_accounts w [] s = (ok tt, s)
clean_accounts w (u ∷ us) s = and_next (clean_accounts w us) (clean_account w u s)

unfoldable pub process_expired_accounts : World → State → Result String (Unit {0}) × State
unfolding clean_accounts is_expired
process_expired_accounts w s = elim (w.db find_users) [
  | some e ↦ (err e, s)
  | none ↦ clean_accounts w (keep (is_expired w.now) s.users) s
]

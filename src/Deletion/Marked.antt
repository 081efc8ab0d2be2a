-- ===== src/Deletion/Marked.antt =====
-- What a deletion does to the table, and what it leaves for the likes and the tickets
-- (src/api/src/videos/handlers.rs: delete_video, get_published_video_or_404).
use arsivinyo_memegy_backend.Base.{
  ℕ, ◌≡◌, refl, sym, ap, subst, ◌∙◌, ◌⊎◌, inl, inr, String, true, false, List, Option, none, some,
  Result, ok, err, is_some, Bool-cases, unwrap_or,
}
use arsivinyo_memegy_backend.Video.{Video}
use arsivinyo_memegy_backend.Worker.World.{put_video}
use arsivinyo_memegy_backend.Counters.{Redis}
use arsivinyo_memegy_backend.Api.{ApiError, db_call, ◌>>◌, Holds, Holds-bind}
use arsivinyo_memegy_backend.Likes.{
  World as LikeWorld, find_published, is_published, published, get_published_video_or_404,
}
use arsivinyo_memegy_backend.Uploads.Confirm.{owned}
use arsivinyo_memegy_backend.Uploads.Owned.{if_same, owned-some, or_else-Holds}
use arsivinyo_memegy_backend.Deletion.{
  State, World, begin, find_video, update_video, commit, marked_row, after_mark, delete_row,
  read_row, delete_found, after_delete_limit, delete_video,
}

module _ (w : World) (user id : ℕ) (videos : ℕ → Option Video) where
  -- What a deletion has done: an error changes no row; else the user owns the row, which was marked before,
  -- or is marked now and nothing else is changed.
  abbrev pub Deletes : Result ApiError (Unit {0}) × State → Type 0
  Deletes (err e, s') = s'.videos ≡ videos
  Deletes (ok _, s') =
      (v : Video) × (videos id ≡ some v)
      × (v.user_id ≡ user)
      × (((is_some v.deleted_at ≡ true) × (s'.videos ≡ videos))
          ⊎ ((is_some v.deleted_at ≡ false) × (s'.videos ≡ put_video id (marked_row w v) videos)))

  module _ (s : State) (same : s.videos ≡ videos) (v : Video) (found : videos id ≡ some v)
      (own : v.user_id ≡ user) where
    after_mark-Deletes :
        (r : Result ApiError (Unit {0}))
        → is_some v.deleted_at ≡ false
        → Deletes (after_mark w user id v s r)
    after_mark-Deletes (err e) fresh = same
    after_mark-Deletes (ok _) fresh =
        (v, found, own, inr (fresh, ap (put_video id (marked_row w v)) same))

    already-Deletes : (c : Option String) → is_some v.deleted_at ≡ true → Deletes (db_call c, s)
    already-Deletes none before = (v, found, own, inl (before, same))
    already-Deletes (some e) before = same

    delete_row-Deletes : Deletes (delete_row w user id s v)
    delete_row-Deletes = elim (Bool-cases (is_some v.deleted_at)) [
      | inl before ↦ rw before (already-Deletes (w.db commit) before)
      | inr fresh ↦
          rw fresh (after_mark-Deletes (db_call (w.db update_video) >> db_call (w.db commit)) fresh)
    ]

  read_row-Holds :
      (s : State)
      → s.videos ≡ videos
      → Holds (λ v. (videos id ≡ some v) × (v.user_id ≡ user)) (read_row w user id s)
  read_row-Holds s same = Holds-bind _ (db_call (w.db begin)) _ λ _ _.
      Holds-bind _ (db_call (w.db find_video)) _ λ _ _.
        or_else-Holds _ (owned user (s.videos id)) _ λ v h.
          let row = owned-some user (s.videos id) v h in (ap (λ t. t id) (sym same) ∙ row.0, row.1)

  delete_found-Deletes :
      (s : State) (r : Result ApiError Video)
      → s.videos ≡ videos
      → Holds (λ v. (videos id ≡ some v) × (v.user_id ≡ user)) r
      → Deletes (delete_found w user id s r)
  delete_found-Deletes s (err e) same h = same
  delete_found-Deletes s (ok v) same h = delete_row-Deletes s same v h.0 h.1

  after_delete_limit-Deletes :
      (s : State) (r : Result String (Result ℕ ℕ) × Redis)
      → s.videos ≡ videos
      → Deletes (after_delete_limit w user id s r)
  after_delete_limit-Deletes s (ok (err n), redis) same = same
  after_delete_limit-Deletes s (ok (ok n), redis) same =
      delete_found-Deletes _ _ same (read_row-Holds (record s { redis = redis }) same)
  after_delete_limit-Deletes s (err e, redis) same =
      delete_found-Deletes _ _ same (read_row-Holds (record s { redis = redis }) same)

-- A deletion that fails changes no row of the table. One that is accepted is of a row of the user: it marks
-- that row as deleted and changes nothing else of the table, or nothing at all where the row was marked.
pub delete_video-Deletes :
    (w : World) (user id : ℕ) (s : State) → Deletes w user id s.videos (delete_video w user id s)
unfolding delete_video
delete_video-Deletes w user id s = after_delete_limit-Deletes w user id s.videos s _ refl

marked_shown :
    (w : World) (v : Video)
    → is_published v ≡ true
    → published (some (marked_row w v)) ≡ ok (marked_row w v)
marked_shown w v shown = rw shown refl

Deletes-marked :
    (w : World) (user id : ℕ) (s s' : State) (v : Video)
    → Deletes w user id s.videos (ok tt, s')
    → s.videos id ≡ some v
    → is_some v.deleted_at ≡ false
    → s'.videos id ≡ some (marked_row w v)
Deletes-marked w user id s s' v (x, found_x, own, how) found fresh =
    let same : x ≡ v = ap (λ o. unwrap_or o v) (sym found_x ∙ found) in
    elim how [
      | inl (before, kept) ↦
          let clash = sym before ∙ ap (λ y. is_some y.deleted_at) same ∙ fresh in cc clash
      | inr (new, written) ↦
          ap (λ f. f id) written ∙ if_same id (s.videos id) ∙ ap (λ y. some (marked_row w y)) same
    ]

-- After an accepted deletion of a published and visible video, the lookup that likes and send tickets use
-- still finds the video, as it does not read the mark.
pub delete_video-still_published :
    (w : World) (user id : ℕ) (s s' : State) (v : Video) (lw : LikeWorld) (likes : List (ℕ × ℕ))
    → delete_video w user id s ≡ (ok tt, s')
    → s.videos id ≡ some v
    → is_some v.deleted_at ≡ false
    → is_published v ≡ true
    → lw.db find_published ≡ none
    → get_published_video_or_404 lw id (record { videos = s'.videos; likes = likes })
      ≡ ok (marked_row w v)
unfolding get_published_video_or_404
delete_video-still_published w user id s s' v lw likes accepted found fresh shown works =
    let h = subst (Deletes w user id s.videos) accepted (delete_video-Deletes w user id s) in
    rw (works, get_published_video_or_404)
      (ap published (Deletes-marked w user id s s' v h found fresh) ∙ marked_shown w v shown)

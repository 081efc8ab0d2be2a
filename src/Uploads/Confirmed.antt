-- ===== src/Uploads/Confirmed.antt =====
-- What a confirmed upload comes to, up to its publication by the worker
-- (src/api/src/videos/handlers.rs: confirm_upload; src/worker/src/main.rs: process_video).
use arsivinyo_memegy_backend.Base.{
  ℕ, ◌≤◌, ◌≡◌, refl, sym, ap, ◌⊎◌, inl, inr, String, Bool, true, false, not, List, ◌∷◌, Option,
  none, some, Result, ok, err, ltb, ltb→le, str_eq, Bool-cases,
}
use arsivinyo_memegy_backend.Video.{Video}
use arsivinyo_memegy_backend.Worker.World.{put_video, VideoProcessJob}
use arsivinyo_memegy_backend.Api.{ApiError, db_call, ◌>>◌, or_else, Holds, Holds-bind}
use arsivinyo_memegy_backend.Uploads.{
  Config, State, World, rollback, commit, update_video, begin, find_video,
  enforce_read_only_upload_restriction,
}
use arsivinyo_memegy_backend.Uploads.Owned.{or_else-Holds, owned-some}
use arsivinyo_memegy_backend.Uploads.Confirm.{
  looks_like_supported_video_container, declared_size, abs_diff, refuse_if, verify_upload,
  processing_row, job_of, commit_confirmed, after_push, after_row_update, after_verify,
  confirm_locked, owned, read_owned, after_row_read, confirm_upload,
}

module _ (w : World) (config : Config) where
  -- What is known of the object that was uploaded for a row.
  pub record IsVerified (v : Video) (actual : ℕ) : Type 0 where
    pub stored : w.file_size config.minio_bucket_raw v.s3_key ≡ some actual
    pub not_small : config.min_video_size_bytes ≤ actual
    pub not_large : actual ≤ config.max_file_size_bytes
    pub as_declared :
        abs_diff actual (declared_size v.size_bytes) ≤ config.upload_size_tolerance_bytes
    pub prefix : List ℕ
    pub read : w.read_prefix config.minio_bucket_raw v.s3_key 4096 ≡ some prefix
    pub is_video : looks_like_supported_video_container prefix ≡ true

  not_refused :
      (c : Option String) (e : ApiError)
      → ¬ (◌≡◌ {A = Result ApiError (Unit {0})} (db_call c >> err e) (ok tt))
  not_refused none e h = cc
  not_refused (some x) e h = cc

  refuse_if-ok : (b : Bool) (e : ApiError) → refuse_if w b e ≡ ok tt → b ≡ false
  refuse_if-ok true e h = elim (not_refused (w.db rollback) e h) [ ]
  refuse_if-ok false e h = refl

  not-false : (b : Bool) → not b ≡ false → b ≡ true
  not-false true h = refl
  not-false false h = sym h

  or_else-ok : {A : Type 0} (o : Option A) (e : ApiError) (a : A) → or_else o e ≡ ok a → o ≡ some a
  or_else-ok none e a h = cc
  or_else-ok (some b) e a h = cc

  verify_upload-IsVerified : (v : Video) → Holds (IsVerified v) (verify_upload w config v)
  unfolding verify_upload
  verify_upload-IsVerified v =
      Holds-bind _ (or_else (w.file_size config.minio_bucket_raw v.s3_key) _) _ λ actual size.
        Holds-bind _ (refuse_if w (ltb actual config.min_video_size_bytes) _) _ λ _ small.
          Holds-bind _ (refuse_if w (ltb config.max_file_size_bytes actual) _) _ λ _ large.
            Holds-bind _
              (refuse_if w
                (ltb config.upload_size_tolerance_bytes
                  (abs_diff actual (declared_size v.size_bytes)))
                _)
              _
              λ _ delta.
                Holds-bind _ (or_else (w.read_prefix config.minio_bucket_raw v.s3_key 4096) _) _
                  λ prefix read.
                    Holds-bind _ (refuse_if w (not (looks_like_supported_video_container prefix)) _)
                      _
                      λ _ shape. record {
                        stored = or_else-ok _ _ actual size;
                        not_small = ltb→le _ _ (refuse_if-ok _ _ small);
                        not_large = ltb→le _ _ (refuse_if-ok _ _ large);
                        as_declared = ltb→le _ _ (refuse_if-ok _ _ delta);
                        prefix = prefix;
                        read = or_else-ok _ _ prefix read;
                        is_video = not-false _ (refuse_if-ok _ _ shape);
                      }

  module _ (user id : ℕ) (s : State) where
    -- What an accepted confirmation did with the row `v`: nothing where it was no draft, and else the row
    -- is processed and one job is queued.
    pub data Accepted (v : Video) (s' : State) : Type 0 where
      earlier : str_eq v.status "DRAFT" ≡ false → s' ≡ s → Accepted v s'
      queued :
          (actual : ℕ)
          → str_eq v.status "DRAFT" ≡ true
          → IsVerified v actual
          → s'.videos ≡ put_video id (processing_row w actual v) s.videos
          → s'.queue ≡ job_of id user v ∷ s.queue
          → Accepted v s'

    abbrev pub Confirms : Result ApiError (Unit {0}) × State → Type 0
    Confirms (err e, s') =
        (s'.videos ≡ s.videos)
        × ((s'.queue ≡ s.queue)
            ⊎ ((x : String) × (job : VideoProcessJob) × (w.db commit ≡ some x)
                × (s'.queue ≡ job ∷ s.queue)))
    Confirms (ok _, s') = (v : Video) × (s.videos id ≡ some v) × (v.user_id ≡ user) × Accepted v s'

    module _ (v : Video) (found : s.videos id ≡ some v) (own : v.user_id ≡ user) where
      module _ (draft : str_eq v.status "DRAFT" ≡ true) (actual : ℕ)
          (good : IsVerified v actual) where
        commit_confirmed-Confirms :
            (t : State) (c : Option String)
            → w.db commit ≡ c
            → t.videos ≡ s.videos
            → t.queue ≡ job_of id user v ∷ s.queue
            → Confirms (commit_confirmed w id user actual v t c)
        commit_confirmed-Confirms t (some e) fails same jobs =
            (same, inr (e, job_of id user v, fails, jobs))
        commit_confirmed-Confirms t none works same jobs = (
          v,
          found,
          own,
          queued actual draft good (ap (put_video id (processing_row w actual v)) same) jobs,
        )

        after_push-Confirms :
            (t : State) (c : Option String)
            → t.videos ≡ s.videos
            → t.queue ≡ s.queue
            → Confirms (after_push w id user actual v t c)
        after_push-Confirms t (some e) same jobs = (same, inl jobs)
        after_push-Confirms t none same jobs =
            commit_confirmed-Confirms _ (w.db commit) refl same
              (ap (λ q. job_of id user v ∷ q) jobs)

        after_row_update-Confirms :
            (t : State) (c : Option String)
            → t.videos ≡ s.videos
            → t.queue ≡ s.queue
            → Confirms (after_row_update w id user actual v t c)
        after_row_update-Confirms t (some e) same jobs = (same, inl jobs)
        after_row_update-Confirms t none same jobs = after_push-Confirms t w.push_job same jobs

      after_verify-Confirms :
          (r : Result ApiError ℕ)
          → str_eq v.status "DRAFT" ≡ true
          → Holds (IsVerified v) r
          → Confirms (after_verify w config id user v s r)
      after_verify-Confirms (err e) draft h = (refl, inl refl)
      after_verify-Confirms (ok actual) draft h =
          after_row_update-Confirms draft actual h _ (w.db update_video) refl refl

      committed-Confirms :
          (c : Option String) → str_eq v.status "DRAFT" ≡ false → Confirms (db_call c, s)
      committed-Confirms none other = (v, found, own, earlier other refl)
      committed-Confirms (some e) other = (refl, inl refl)

      confirm_locked-Confirms : Confirms (confirm_locked w config id user s v)
      confirm_locked-Confirms = elim (Bool-cases (str_eq v.status "DRAFT")) [
        | inl draft ↦
            rw draft
              (after_verify-Confirms (verify_upload w config v) draft (verify_upload-IsVerified v))
        | inr other ↦ rw other (committed-Confirms (w.db commit) other)
      ]

    read_owned-Holds :
        Holds (λ v. (s.videos id ≡ some v) × (v.user_id ≡ user)) (read_owned w config id user s)
    read_owned-Holds = Holds-bind _ (enforce_read_only_upload_restriction config) _ λ _ _.
        Holds-bind _ (db_call (w.db begin)) _ λ _ _.
          Holds-bind _ (db_call (w.db find_video)) _
            λ _ _. or_else-Holds _ (owned user (s.videos id)) _ (owned-some user (s.videos id))

    after_row_read-Confirms :
        (r : Result ApiError Video)
        → Holds (λ v. (s.videos id ≡ some v) × (v.user_id ≡ user)) r
        → Confirms (after_row_read w config id user s r)
    after_row_read-Confirms (err e) h = (refl, inl refl)
    after_row_read-Confirms (ok v) h = confirm_locked-Confirms v h.0 h.1

    -- A confirmation that answers with an error leaves the table of videos as it was, and
    -- the queue too unless it was the commit that failed, when one job may stand on the queue. One that is
    -- accepted found a row of the user: where the row was no draft, nothing has changed; a draft is now processed
    -- and its job is queued, and the object that was uploaded has a size within the limits and near the
    -- declared one, and begins like a video.
    pub confirm_upload-Confirms : Confirms (confirm_upload w config user id s)
    unfolding confirm_upload
    confirm_upload-Confirms =
        after_row_read-Confirms (read_owned w config id user s) read_owned-Holds

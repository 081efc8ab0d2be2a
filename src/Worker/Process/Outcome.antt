-- ===== src/Worker/Process/Outcome.antt =====
-- What one run of the pipeline leaves in the `videos` table.
use Prim.Native.String.{◌++◌ as str_append}
use arsivinyo_memegy_backend.Base.{
  ℕ, ℤ, ◌≡◌, refl, sym, subst, inl, inr, List, Option, none, some, ok, err, Result-cases,
  Option-cases, arith, max, String,
}
use arsivinyo_memegy_backend.Video.{Video}
use arsivinyo_memegy_backend.Worker.World.{
  VideoProcessJob, Config, World, State, Output, uploaded, emit, put_video, update_video_cases,
  finished,
}
use arsivinyo_memegy_backend.Worker.Media.{run_ffprobe_preflight, ffprobe_args}
use arsivinyo_memegy_backend.Worker.Media.Preflight.{Shows, run_ffprobe_preflight-ok}
use arsivinyo_memegy_backend.Worker.Process.{
  Prepared, slash, transcode_and_thumbnail, fetch_and_convert, open_temp_dir, prepare_video,
  publish_video_status_signal, upload_thumbnail, publish_row, announce_published, write_published,
  after_upload, publish_video, process_video, Run,
}

pub videos-publish_video_status_signal :
    (w : World) (config : Config) (user : ℕ) (event : String) (old : Option String) (v : Video)
    (s : State)
    → (publish_video_status_signal w config user event old v s).videos ≡ s.videos
unfolding publish_video_status_signal emit
videos-publish_video_status_signal w config user event old v s = ground arith

videos-announce :
    (w : World) (config : Config) (job : VideoProcessJob) (v : Video) (s : State)
    → (announce_published w config job v s).videos ≡ s.videos
unfolding announce_published emit
videos-announce w config job v s = videos-publish_video_status_signal w config job.user_id _ _ v _

videos-upload_thumbnail :
    (w : World) (config : Config) (job : VideoProcessJob) (p : Prepared) (s : State)
    → (upload_thumbnail w config job p s).videos ≡ s.videos
unfolding upload_thumbnail emit
videos-upload_thumbnail w config job p s = ground arith

-- What the end of a run says of the table: a failed one wrote nothing, a successful one wrote the
-- published columns of the job's row.
abbrev Leaves : World → Config → VideoProcessJob → Option ℤ → (ℕ → Option Video) → Run → Type 0
Leaves w config job duration videos (ok _, s) =
    (v : Video) × (videos job.video_id ≡ some v)
    × (s.videos ≡ put_video job.video_id (publish_row w config job duration v) videos)
Leaves w config job duration videos (err e, s) = s.videos ≡ videos

-- The columns of a row that publishing leaves alone.
abbrev pub apart_from_publishing : Video → Video
apart_from_publishing v = record v {
  status = "";
  s3_bucket = "";
  s3_key = "";
  duration_seconds = none;
  processing_error_code = none;
  processing_error_message = none;
  failed_at = none;
}

module _ (w : World) (config : Config) (job : VideoProcessJob) where
  write_published-Leaves :
      (p : Prepared) (s : State)
      → Leaves w config job p.duration_seconds s.videos (write_published w config job p s)
  unfolding write_published
  write_published-Leaves p s =
      elim (update_video_cases w job.video_id (publish_row w config job p.duration_seconds) s) [
        | inl (v, found, e) ↦ rw e (v, found, videos-announce w config job _ _)
        | inr (m, e) ↦ rw e refl
      ]

  after_upload-Leaves :
      (p : Prepared) (key : String) (o : Option (List ℕ)) (s : State)
      → Leaves w config job p.duration_seconds s.videos (after_upload w config job p key o s)
  unfolding after_upload emit
  after_upload-Leaves p key (some e) s = refl
  after_upload-Leaves p key none s =
      let t =
        emit (uploaded config.minio_bucket_videos key (slash p.dir "output.mp4") "video/mp4") s in
      let t' = upload_thumbnail w config job p t in
      subst
        (λ videos.
          Leaves w config job p.duration_seconds videos (write_published w config job p t'))
        (videos-upload_thumbnail w config job p t) (write_published-Leaves p t')

  publish_video-Leaves :
      (p : Prepared) (s : State)
      → Leaves w config job p.duration_seconds s.videos (publish_video w config job p s)
  unfolding publish_video
  publish_video-Leaves p s = after_upload-Leaves p _ _ s

  -- The answer to the upload of the video, if the run succeeds.
  IsUploaded : Option (List ℕ) → Run → Type 0
  IsUploaded answer (ok _, s) = answer ≡ none
  IsUploaded answer (err e, s) = Unit

  written-IsUploaded : (r : Run) → IsUploaded none r
  unfolding IsUploaded
  written-IsUploaded (ok _, s) = refl
  written-IsUploaded (err e, s) = tt

  after_upload-IsUploaded :
      (p : Prepared) (key : String) (answer : Option (List ℕ)) (s : State)
      → IsUploaded answer (after_upload w config job p key answer s)
  unfolding IsUploaded after_upload
  after_upload-IsUploaded p key (some e) s = tt
  after_upload-IsUploaded p key none s = written-IsUploaded _

  abbrev pub video_upload : Option (List ℕ)
  video_upload = w.upload config.minio_bucket_videos (str_append (w.show_uuid job.video_id) ".mp4")

  publish_video-IsUploaded :
      (p : Prepared) (s : State) → IsUploaded video_upload (publish_video w config job p s)
  unfolding publish_video
  publish_video-IsUploaded p s = after_upload-IsUploaded p _ video_upload s

  -- What ffprobe has shown of the file in the temporary directory of this run.
  pub record Passed (duration : Option ℤ) : Type 0 where
    pub dir : String
    pub output : Output
    pub made : w.temp_dir ≡ ok dir
    pub ran :
        w.exec "ffprobe"
          (ffprobe_args (slash dir "input.mp4"))
          (max config.ffmpeg_transcode_timeout_secs 5)
        ≡ finished output
    pub shows : Shows w output duration

  transcode-duration :
      (v : Video) (dir : String) (d : Option ℤ) (p : Prepared)
      → transcode_and_thumbnail w config v dir d ≡ ok p
      → p.duration_seconds ≡ d
  unfolding transcode_and_thumbnail
  transcode-duration v dir d p h = ground arith

  fetch_and_convert-Passed :
      (v : Video) (dir : String) (p : Prepared)
      → w.temp_dir ≡ ok dir
      → fetch_and_convert w config v dir ≡ ok p
      → Passed p.duration_seconds
  unfolding fetch_and_convert
  fetch_and_convert-Passed v dir p made h =
      elim (Result-cases
        (run_ffprobe_preflight w (slash dir "input.mp4") config.ffmpeg_transcode_timeout_secs)) [
          | inl (d, e) ↦
              let (output, ran, shows) = run_ffprobe_preflight-ok w (slash dir "input.mp4") _ d e in
              record {
                dir = dir;
                output = output;
                made = made;
                ran = ran;
                shows =
                    subst (Shows w output) (sym (transcode-duration v dir d p (ground arith)))
                      shows;
              }
          | inr (m, e) ↦ absurd (ground arith)
        ]

  prepare_video-Passed :
      (s : State) (p : Prepared) → prepare_video w config job s ≡ ok p → Passed p.duration_seconds
  unfolding prepare_video open_temp_dir
  prepare_video-Passed s p h = elim (Option-cases (s.videos job.video_id)) [
    | inl gone ↦ absurd (ground arith)
    | inr (v, found) ↦ elim (Result-cases w.temp_dir) [
      | inr (m, e) ↦ absurd (ground arith)
      | inl (dir, made) ↦ fetch_and_convert-Passed v dir p made (ground arith)
    ]
  ]

  -- A published row `v'` of the job, as against the row `v` that the run found.
  pub record IsPublishedFrom (duration : Option ℤ) (v v' : Video) : Type 0 where
    pub status : v'.status ≡ "PUBLISHED"
    pub bucket : v'.s3_bucket ≡ config.minio_bucket_videos
    pub key : v'.s3_key ≡ str_append (w.show_uuid job.video_id) ".mp4"
    pub lasts : v'.duration_seconds ≡ duration
    pub no_error_code : v'.processing_error_code ≡ none
    pub no_error_message : v'.processing_error_message ≡ none
    pub not_failed : v'.failed_at ≡ none
    pub kept : apart_from_publishing v' ≡ apart_from_publishing v

  publish_row-IsPublishedFrom :
      (d : Option ℤ) (v : Video) → IsPublishedFrom d v (publish_row w config job d v)
  unfolding publish_row
  publish_row-IsPublishedFrom d v = record {
    status = refl;
    bucket = refl;
    key = refl;
    lasts = refl;
    no_error_code = refl;
    no_error_message = refl;
    not_failed = refl;
    kept = refl;
  }

  -- What one run of the pipeline comes to: a failure leaves the table as it was, a success publishes
  -- the row with the duration of a file that passed the preflight, once the video was uploaded.
  abbrev pub Outcome : (ℕ → Option Video) → Run → Type 0
  Outcome videos (ok _, s) =
      (duration : Option ℤ) × (v : Video) × Passed duration
      × (video_upload ≡ none)
      × (videos job.video_id ≡ some v)
      × IsPublishedFrom duration v (publish_row w config job duration v)
      × (s.videos ≡ put_video job.video_id (publish_row w config job duration v) videos)
  Outcome videos (err e, s) = s.videos ≡ videos

  Outcome-Leaves :
      (d : Option ℤ) (videos : ℕ → Option Video) (r : Run)
      → Passed d
      → IsUploaded video_upload r
      → Leaves w config job d videos r
      → Outcome videos r
  unfolding IsUploaded
  Outcome-Leaves d videos (ok _, s) passed uploaded_it (v, found, new) =
      (d, v, passed, uploaded_it, found, publish_row-IsPublishedFrom d v, new)
  Outcome-Leaves d videos (err e, s) passed uploaded_it h = h

  -- A failed run of the pipeline leaves the table as it was. A successful one found the job's row and changed
  -- that row alone: its status is PUBLISHED, its bucket and key are the place to which the video was uploaded
  -- with success, it has no error and no time of a failure, its duration is the number that ffprobe's
  -- output for the input file of the run gives, which is positive, or none if that output gives none, and its other
  -- columns are as they were.
  pub process_video-Outcome : (s : State) → Outcome s.videos (process_video w config job s)
  unfolding process_video
  process_video-Outcome s = elim (Result-cases (prepare_video w config job s)) [
    | inr (e, failed) ↦ rw failed refl
    | inl (p, done) ↦ rw done (
        Outcome-Leaves p.duration_seconds s.videos _ (prepare_video-Passed s p done)
          (publish_video-IsUploaded p s) (publish_video-Leaves p s))
  ]

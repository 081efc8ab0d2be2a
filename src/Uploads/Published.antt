-- ===== src/Uploads/Published.antt =====
-- The row of a video once its upload was confirmed and its job was run
-- (src/api/src/videos/handlers.rs: confirm_upload; src/worker/src/main.rs: process_video).
use Prim.Native.String.{◌++◌ as str_append}
use arsivinyo_memegy_backend.Base.{
  ℕ, ℤ, pos, negsuc, ◌-◌, ◌<◌, ◌≡◌, refl, sym, ap, ◌∙◌, subst, inl, inr, unwrap_or, true, List, [],
  ◌∷◌, Option, none, some, ok, ◌==◌, ==_iff, str_eq, if◌then◌else◌, Bool-cases, arith,
}
use arsivinyo_memegy_backend.Video.{Video}
use arsivinyo_memegy_backend.Worker.World.{
  VideoProcessJob, put_video, World as WorkerWorld, Config as WorkerConfig, State as WorkerState,
}
use arsivinyo_memegy_backend.Worker.Process.{process_video, publish_row}
use arsivinyo_memegy_backend.Worker.Process.Outcome.{
  process_video-Outcome, Outcome, Passed, video_upload, apart_from_publishing,
}
use arsivinyo_memegy_backend.Uploads.{Config, State, World}
use arsivinyo_memegy_backend.Uploads.Owned.{if_same}
use arsivinyo_memegy_backend.Uploads.Confirm.{processing_row, job_of, confirm_upload, as_u64}
use arsivinyo_memegy_backend.Uploads.Confirmed.{
  IsVerified, Accepted, earlier, queued, Confirms, confirm_upload-Confirms,
}

abbrev first_job : VideoProcessJob → List VideoProcessJob → VideoProcessJob
first_job other [] = other
first_job other (job ∷ jobs) = job

-- The numbers of a signed 64-bit column.
abbrev pub IsI64 : ℤ → Type 0
IsI64 (pos n) = n < 9223372036854775808
IsI64 (negsuc n) = n < 9223372036854775808

-- The size that a confirmation writes, whatever the row said.
size_written :
    (declared : ℤ) (actual : ℕ)
    → IsI64 declared
    → actual < 9223372036854775808
    → (if actual == as_u64 declared then declared else pos actual) ≡ pos actual
size_written (pos n) actual fits small = elim (Bool-cases (actual == n)) [
  | inl same ↦ rw same (ap pos (sym ((==_iff actual n).0 same)))
  | inr other ↦ rw other refl
]
size_written (negsuc n) actual fits small = elim (Bool-cases (actual == as_u64 (negsuc n))) [
  | inl same ↦
      let wrapped : actual ≡ 18446744073709551615 - n =
        (==_iff actual (18446744073709551615 - n)).0 same in
      absurd (omega (arith, wrapped, fits, small))
  | inr other ↦ rw other refl
]

-- The columns of a row that neither its confirmation nor its publication writes.
abbrev pub apart_from_upload : Video → Video
apart_from_upload v = record (apart_from_publishing v) { size_bytes = pos 0; updated_at = 0 }

module _ (w : World) (config : Config) (user id : ℕ) (s s' : State) (ww : WorkerWorld)
    (wconfig : WorkerConfig) (v : Video) where
  -- The row of the draft `v` once its upload was confirmed and the worker has published it.
  pub record IsPublished (job : VideoProcessJob) (videos : ℕ → Option Video) : Type 0 where
    pub actual : ℕ
    pub duration : Option ℤ
    pub final : Video
    pub row : videos id ≡ some final
    pub verified : IsVerified w config v actual
    pub passed : Passed ww wconfig job duration
    pub sent : video_upload ww wconfig job ≡ none
    pub status : final.status ≡ "PUBLISHED"
    pub size : final.size_bytes ≡ pos actual
    pub bucket : final.s3_bucket ≡ wconfig.minio_bucket_videos
    pub key : final.s3_key ≡ str_append (ww.show_uuid id) ".mp4"
    pub lasts : final.duration_seconds ≡ duration
    pub owner : final.user_id ≡ user
    pub no_error_code : final.processing_error_code ≡ none
    pub no_error_message : final.processing_error_message ≡ none
    pub not_failed : final.failed_at ≡ none
    pub kept : apart_from_upload final ≡ apart_from_upload v

  module _ (own : v.user_id ≡ user) (fits : IsI64 v.size_bytes)
      (limit : config.max_file_size_bytes < 9223372036854775808) where
    processing_row-size :
        (actual : ℕ)
        → IsVerified w config v actual
        → (processing_row w actual v).size_bytes ≡ pos actual
    unfolding processing_row
    processing_row-size actual good =
        let large = good.not_large in
        size_written v.size_bytes actual fits (omega (arith, large, limit))

    processing_row-kept :
        (actual : ℕ) → apart_from_upload (processing_row w actual v) ≡ apart_from_upload v
    unfolding processing_row
    processing_row-kept actual = refl

    processing_row-owner : (actual : ℕ) → (processing_row w actual v).user_id ≡ v.user_id
    unfolding processing_row
    processing_row-owner actual = refl

    Outcome-IsPublished :
        (actual : ℕ) (t t' : WorkerState)
        → IsVerified w config v actual
        → t.videos ≡ put_video id (processing_row w actual v) s.videos
        → Outcome ww wconfig (job_of id user v) t.videos (ok tt, t')
        → IsPublished (job_of id user v) t'.videos
    Outcome-IsPublished actual t t' good written (duration, x, passed, sent, found, new, put) =
        let here : t.videos id ≡ some (processing_row w actual v) =
          ap (λ f. f id) written ∙ if_same id (s.videos id) in
        let same : x ≡ processing_row w actual v = ap (λ o. unwrap_or o x) (sym found ∙ here) in
        record {
          actual = actual;
          duration = duration;
          final = publish_row ww wconfig (job_of id user v) duration x;
          row = ap (λ f. f id) put ∙ if_same id (t.videos id);
          verified = good;
          passed = passed;
          sent = sent;
          status = new.status;
          size =
              ap (λ r. r.size_bytes) new.kept
              ∙ ap (λ r. r.size_bytes) same
              ∙ processing_row-size actual good;
          bucket = new.bucket;
          key = new.key;
          lasts = new.lasts;
          owner =
              ap (λ r. r.user_id) new.kept
              ∙ ap (λ r. r.user_id) same
              ∙ processing_row-owner actual
              ∙ own;
          no_error_code = new.no_error_code;
          no_error_message = new.no_error_message;
          not_failed = new.not_failed;
          kept =
              ap apart_from_upload new.kept
              ∙ ap apart_from_upload same
              ∙ processing_row-kept actual;
        }

    Accepted-IsPublished :
        (job : VideoProcessJob) (rest : List VideoProcessJob) (t t' : WorkerState)
        → Accepted w config user id s v s'
        → str_eq v.status "DRAFT" ≡ true
        → s'.queue ≡ job ∷ rest
        → t.videos ≡ s'.videos
        → process_video ww wconfig job t ≡ (ok tt, t')
        → IsPublished job t'.videos
    Accepted-IsPublished job rest t t' (earlier other same) draft head start done =
        let clash = sym other ∙ draft in cc clash
    Accepted-IsPublished job rest t t' (queued actual _ good written jobs) draft head start done =
        let ours : job_of id user v ≡ job = ap (first_job job) (sym jobs ∙ head) in
        let end : process_video ww wconfig (job_of id user v) t ≡ (ok tt, t') =
          ap (λ j. process_video ww wconfig j t) ours ∙ done in
        subst (λ j. IsPublished j t'.videos) ours
          (Outcome-IsPublished actual t t' good (start ∙ written) (
            subst (Outcome ww wconfig (job_of id user v) t.videos) end
              (process_video-Outcome ww wconfig (job_of id user v) t)))

  -- A confirmation of a draft was accepted, and the worker ran the job that it put in the queue to a
  -- successful end, on the table that it left. Then the row has the status PUBLISHED, the size of
  -- the object that was uploaded, which lies within the limits and has the look of a video, the place to which
  -- the worker uploaded the video with success, the duration that ffprobe's output gives, no error, and
  -- the user who confirmed as its owner; its columns but these and the time of its update are as they were.
  -- The declared size is a signed 64-bit number and the limit of sizes is below 2^63.
  pub confirm_upload-IsPublished :
      (job : VideoProcessJob) (rest : List VideoProcessJob) (t t' : WorkerState)
      → IsI64 v.size_bytes
      → config.max_file_size_bytes < 9223372036854775808
      → confirm_upload w config user id s ≡ (ok tt, s')
      → s.videos id ≡ some v
      → str_eq v.status "DRAFT" ≡ true
      → s'.queue ≡ job ∷ rest
      → t.videos ≡ s'.videos
      → process_video ww wconfig job t ≡ (ok tt, t')
      → IsPublished job t'.videos
  confirm_upload-IsPublished job rest t t' fits limit accepted found draft head start done =
      let (x, found_x, own, a) : Confirms w config user id s (ok tt, s') =
        subst (Confirms w config user id s) accepted (confirm_upload-Confirms w config user id s) in
      let same : x ≡ v = ap (λ o. unwrap_or o v) (sym found_x ∙ found) in
      Accepted-IsPublished (sym (ap (λ r. r.user_id) same) ∙ own) fits limit job rest t t'
        (subst (λ y. Accepted w config user id s y s') same a) draft head start done

-- ===== src/Worker/Retry/Sticky.antt =====
-- What a failed first run comes to: `last_error` is never cleared, so the job ends in the FAILED mark
-- whatever the later runs do.
use arsivinyo_memegy_backend.Base.{
  ℕ, zero, suc, ◌+◌, ◌-◌, ◌≤◌, ◌<◌, ◌≡◌, refl, ap, ◌∙◌, subst, true, leb, ==_refl, Option, none,
  some, ok, err, inl, inr, Bool-cases, arith, is_some,
}
use arsivinyo_memegy_backend.Video.{Video}
use arsivinyo_memegy_backend.Worker.Error.{ProcessingError, is_transient}
use arsivinyo_memegy_backend.Worker.World.{
  VideoProcessJob, Config, World, State, emit, slept, put_video, update_video,
}
use arsivinyo_memegy_backend.Worker.Process.{process_video, Run, publish_row}
use arsivinyo_memegy_backend.Worker.Process.Outcome.{
  Outcome, process_video-Outcome, videos-publish_video_status_signal,
}
use arsivinyo_memegy_backend.Worker.Retry.{
  Attempts, should_retry, after_run, attempt_loop, attempts, backoff_secs, failed_row, after_mark,
  mark_failed, run_job,
}
use arsivinyo_memegy_backend.Worker.Retry.Loop.{attempts-step, attempt_loop-second}

module _ (config : Config) (job : VideoProcessJob) where
  -- The job's row is there.
  abbrev HasRow : State → Type 0
  HasRow s = (v : Video) × (s.videos job.video_id ≡ some v)

  Outcome-HasRow :
      (w : World) (s : State) (r : Run) → HasRow s → Outcome w config job s.videos r → HasRow r.1
  Outcome-HasRow w s (ok _, s') (v, found) (d, u, passed, sent, there, row, new) = (
    publish_row w config job d u,
    ap (λ (f : ℕ → Option Video). f job.video_id) new ∙ rw (==_refl job.video_id) refl,
  )
  Outcome-HasRow w s (err e, s') (v, found) h =
      (v, ap (λ (f : ℕ → Option Video). f job.video_id) h ∙ found)

  process_video-HasRow :
      (w : World) (s : State) → HasRow s → HasRow (process_video w config job s).1
  process_video-HasRow w s h = Outcome-HasRow w s _ h (process_video-Outcome w config job s)

  -- An error is kept and the row is there.
  abbrev Kept : Attempts → Type 0
  Kept a = (is_some a.last_error ≡ true) × HasRow a.state

  after_error-Kept :
      (attempt : ℕ) (last : Option ProcessingError) (retry : ProcessingError → State → Attempts)
      (e : ProcessingError) (s : State)
      → HasRow s
      → ((e : ProcessingError) (s : State) → HasRow s → Kept (retry e s))
      → Kept (after_run config attempt last retry (err e, s))
  unfolding after_run emit
  after_error-Kept attempt last retry e s row ih =
      elim (Bool-cases (should_retry config e attempt)) [
        | inl again ↦ rw again (ih e _ row)
        | inr stop ↦ rw stop (refl, row)
      ]

  after_run-Kept :
      (attempt : ℕ) (last : Option ProcessingError) (retry : ProcessingError → State → Attempts)
      (r : Run)
      → is_some last ≡ true
      → HasRow r.1
      → ((e : ProcessingError) (s : State) → HasRow s → Kept (retry e s))
      → Kept (after_run config attempt last retry r)
  unfolding after_run
  after_run-Kept attempt last retry (ok _, s) h row ih = (h, row)
  after_run-Kept attempt last retry (err e, s) h row ih =
      after_error-Kept attempt last retry e s row ih

  attempt_loop-Kept :
      (worlds : ℕ → World) (fuel attempt : ℕ) (e : ProcessingError) (s : State)
      → HasRow s
      → Kept (attempt_loop worlds config job fuel attempt (some e) s)
  unfolding attempt_loop
  attempt_loop-Kept worlds zero attempt e s row = (refl, row)
  attempt_loop-Kept worlds (suc fuel) attempt e s row =
      elim (Bool-cases (leb attempt config.worker_retry_max_attempts)) [
        | inr done ↦ rw done (refl, row)
        | inl more ↦ rw more (
            after_run-Kept attempt (some e) _ (process_video (worlds attempt) config job s) refl
              (process_video-HasRow (worlds attempt) s row)
              λ e' s' row'. attempt_loop-Kept worlds fuel (attempt + 1) e' s' row')
      ]

  -- The row of the job has the status FAILED.
  abbrev pub HasFailed : State → Type 0
  HasFailed s = (v : Video) × (s.videos job.video_id ≡ some v) × (v.status ≡ "FAILED")

  update_video-ok :
      (w : World) (id : ℕ) (set : Video → Video) (s : State) (v : Video)
      → w.write_video ≡ none
      → s.videos id ≡ some v
      → update_video w id set s ≡ (ok (set v), record s { videos = put_video id (set v) s.videos })
  unfolding update_video
  update_video-ok w id set s v u found = ground arith

  videos-mark_failed :
      (w : World) (e : ProcessingError) (s : State) (v : Video)
      → w.read_video ≡ none
      → w.write_video ≡ none
      → s.videos job.video_id ≡ some v
      → (mark_failed w config job (some e) s).videos
        ≡ put_video job.video_id (failed_row w e v) s.videos
  unfolding mark_failed after_mark emit
  videos-mark_failed w e s v r u found =
      let written = update_video-ok w job.video_id (failed_row w e) s v u found in
      let sent =
        videos-publish_video_status_signal w config job.user_id "video.status.failed"
          (some v.status) (failed_row w e v)
          (record s { videos = put_video job.video_id (failed_row w e v) s.videos }) in
      ground arith

  mark_failed-HasFailed :
      (w : World) (last : Option ProcessingError) (s : State)
      → w.read_video ≡ none
      → w.write_video ≡ none
      → is_some last ≡ true
      → HasRow s
      → HasFailed (mark_failed w config job last s)
  mark_failed-HasFailed w none s r u h row = cc
  mark_failed-HasFailed w (some e) s r u h (v, found) = (
    failed_row w e v,
    ap (λ (f : ℕ → Option Video). f job.video_id) (videos-mark_failed w e s v r u found)
        ∙ rw (==_refl job.video_id) refl,
    unfold failed_row in refl,
  )

  Kept-HasFailed :
      (w : World) (a : Attempts)
      → w.read_video ≡ none
      → w.write_video ≡ none
      → Kept a
      → HasFailed (mark_failed w config job a.last_error a.state)
  Kept-HasFailed w a r u k = mark_failed-HasFailed w a.last_error a.state r u k.0 k.1

  after_first_error-Kept :
      (worlds : ℕ → World) (s s1 : State) (e : ProcessingError)
      → 0 < config.worker_retry_max_attempts
      → HasRow s
      → process_video (worlds 1) config job s ≡ (err e, s1)
      → Kept (attempts worlds config job s)
  after_first_error-Kept worlds s s1 e h row p =
      rw (attempts-step worlds config job s h, p)
        (after_error-Kept 1 none _ e s1
          (subst (λ (r : Run). HasRow r.1) p (process_video-HasRow (worlds 1) s row))
          λ e' s' row'.
            attempt_loop-Kept worlds (config.worker_retry_max_attempts - 1) 2 e' s' row')

  -- A job whose first run fails ends as FAILED, whatever its later runs do, if the row can be read and
  -- written after the loop.
  pub run_job-HasFailed :
      (worlds : ℕ → World) (last : World) (s s1 : State) (v : Video) (e : ProcessingError)
      → 0 < config.worker_retry_max_attempts
      → s.videos job.video_id ≡ some v
      → process_video (worlds 1) config job s ≡ (err e, s1)
      → last.read_video ≡ none
      → last.write_video ≡ none
      → HasFailed (run_job worlds last config job s)
  unfolding run_job
  run_job-HasFailed worlds last s s1 v e h found p r u =
      Kept-HasFailed last (attempts worlds config job s) r u
        (after_first_error-Kept worlds s s1 e h (v, found) p)

  should_retry_second :
      (e : ProcessingError)
      → 2 ≤ config.worker_retry_max_attempts
      → is_transient e ≡ true
      → should_retry config e 1 ≡ true
  unfolding should_retry
  should_retry_second e h t = ground arith

  process_video-ok :
      (w : World) (s s' : State)
      → process_video w config job s ≡ (ok tt, s')
      → (p : Video) × (s'.videos job.video_id ≡ some p) × (p.status ≡ "PUBLISHED")
  process_video-ok w s s' e =
      let (d, u, passed, sent, there, row, new) =
        subst (Outcome w config job s.videos) e (process_video-Outcome w config job s) in
      (
        publish_row w config job d u,
        ap (λ (f : ℕ → Option Video). f job.video_id) new ∙ rw (==_refl job.video_id) refl,
        unfold publish_row in refl,
      )

  second_ok :
      (worlds : ℕ → World) (s s1 s2 : State) (e : ProcessingError)
      → 2 ≤ config.worker_retry_max_attempts
      → process_video (worlds 1) config job s ≡ (err e, s1)
      → is_transient e ≡ true
      → process_video (worlds 2) config job (emit (slept (backoff_secs config 1)) s1) ≡ (ok tt, s2)
      → attempts worlds config job s ≡ record { last_error = some e; runs = 2; state = s2 }
  unfolding after_run
  second_ok worlds s s1 s2 e h p t q =
      attempts-step worlds config job s (omega arith)
      ∙ rw (p, should_retry_second e h t)
          (attempt_loop-second worlds config job e (emit (slept (backoff_secs config 1)) s1) h
            ∙ rw q refl)

  -- The pipeline publishes the job's row in its second run, after a transient failure of the first;
  -- and the row then ends as FAILED.
  pub run_job_published_then_failed :
      (worlds : ℕ → World) (last : World) (s s1 s2 : State) (v : Video) (e : ProcessingError)
      → 2 ≤ config.worker_retry_max_attempts
      → s.videos job.video_id ≡ some v
      → process_video (worlds 1) config job s ≡ (err e, s1)
      → is_transient e ≡ true
      → process_video (worlds 2) config job (emit (slept (backoff_secs config 1)) s1) ≡ (ok tt, s2)
      → last.read_video ≡ none
      → last.write_video ≡ none
      → ((attempts worlds config job s).state ≡ s2)
        × ((p : Video) × (s2.videos job.video_id ≡ some p) × (p.status ≡ "PUBLISHED"))
        × HasFailed (run_job worlds last config job s)
  run_job_published_then_failed worlds last s s1 s2 v e h found p t q r u = (
    ap (λ (a : Attempts). a.state) (second_ok worlds s s1 s2 e h p t q),
    process_video-ok (worlds 2) _ s2 q,
    run_job-HasFailed worlds last s s1 v e (omega arith) found p r u,
  )

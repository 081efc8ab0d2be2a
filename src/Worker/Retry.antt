-- ===== src/Worker/Retry.antt =====
-- The job loop of the worker's `main`: attempts with exponential backoff, then the FAILED mark
-- (src/worker/src/main.rs).
pub mod Loop
pub mod Sticky
use arsivinyo_memegy_backend.Base.{
  ℕ, zero, suc, ◌+◌, ◌-◌, ◌*◌, ◌^◌, ◌%◌, String, Bool, ◌&&◌, List, [], ◌∷◌, Option, none, some, ltb,
  leb, if◌then◌else◌, Result, ok, err, is_some,
}
use arsivinyo_memegy_backend.Video.{Video}
use arsivinyo_memegy_backend.Worker.Error.{ProcessingError, is_transient, sanitize_error_message}
use arsivinyo_memegy_backend.Worker.World.{
  VideoProcessJob, Config, World, Effect, slept, invalidated_user_videos, State, emit, update_video,
}
use arsivinyo_memegy_backend.Worker.Process.{process_video, publish_video_status_signal, Run}

-- `base * 2_u64.pow(attempt - 1)`, in 64 bits.
unfoldable pub backoff_secs : Config → ℕ → ℕ
backoff_secs config attempt =
    (config.worker_retry_backoff_base_secs * (2 ^ (attempt - 1) % 2 ^ 64)) % 2 ^ 64

unfoldable pub should_retry : Config → ProcessingError → ℕ → Bool
should_retry config e attempt = is_transient e && ltb attempt config.worker_retry_max_attempts

-- What the loop leaves: the variable `last_error`, the number of runs of the pipeline, the state.
pub record Attempts : Type 0 where
  pub last_error : Option ProcessingError
  pub runs : ℕ
  pub state : State

-- After a run of the pipeline: success leaves the loop, a failure sets `last_error` and is retried or
-- leaves the loop.
unfoldable pub after_run :
    Config → ℕ → Option ProcessingError → (ProcessingError → State → Attempts) → Run → Attempts
after_run config attempt last_error retry (ok _, s) = record {
  last_error = last_error;
  runs = attempt;
  state = s;
}
after_run config attempt last_error retry (err e, s) =
    if should_retry config e attempt
    then retry e (emit (slept (backoff_secs config attempt)) s)
    else record { last_error = some e; runs = attempt; state = s }

-- The `while` loop: `worlds n` answers the n-th attempt, and the fuel bounds the rounds.
unfoldable pub attempt_loop :
    (ℕ → World) → Config → VideoProcessJob → ℕ → ℕ → Option ProcessingError → State → Attempts
attempt_loop worlds config job zero attempt last_error s = record {
  last_error = last_error;
  runs = attempt - 1;
  state = s;
}
attempt_loop worlds config job (suc fuel) attempt last_error s =
    let retry = λ (e : ProcessingError) (s' : State).
      attempt_loop worlds config job fuel (attempt + 1) (some e) s' in
    if leb attempt config.worker_retry_max_attempts
    then after_run config attempt last_error retry (process_video (worlds attempt) config job s)
    else record { last_error = last_error; runs = attempt - 1; state = s }

-- The columns that the FAILED mark sets.
unfoldable pub failed_row : World → ProcessingError → Video → Video
failed_row w e v = record v {
  status = "FAILED";
  processing_error_code = some e.code;
  processing_error_message = some (sanitize_error_message e.message);
  failed_at = some w.now;
}

unfoldable pub after_mark :
    World → Config → VideoProcessJob → String → Result (List ℕ) Video × State → State
after_mark w config job previous_status (err e, s) = s
after_mark w config job previous_status (ok video, s) =
    publish_video_status_signal w config job.user_id "video.status.failed" (some previous_status)
      video s

unfoldable pub mark_failed :
    World → Config → VideoProcessJob → Option ProcessingError → State → State
mark_failed w config job none s = s
mark_failed w config job (some e) s = elim w.read_video [
  | some m ↦ s
  | none ↦ elim (s.videos job.video_id) [
    | none ↦ s
    | some v ↦
        emit (invalidated_user_videos job.user_id)
          (after_mark w config job v.status (update_video w job.video_id (failed_row w e) s))
  ]
]

unfoldable pub attempts : (ℕ → World) → Config → VideoProcessJob → State → Attempts
attempts worlds config job s =
    attempt_loop worlds config job config.worker_retry_max_attempts 1 none s

-- A job from the queue; `last` answers the calls after the loop.
unfoldable pub run_job : (ℕ → World) → World → Config → VideoProcessJob → State → State
unfolding attempts
run_job worlds last config job s =
    let a = attempts worlds config job s in mark_failed last config job a.last_error a.state

-- What the queue answers.
pub data Poll : Type 0 where
  popped : (ℕ → World) → World → VideoProcessJob → Poll
  empty : Poll
  queue_error : Poll

unfoldable pub main_step : Config → Poll → State → State
main_step config (popped worlds last job) s = run_job worlds last config job s
main_step config empty s = emit (slept 1) s
main_step config queue_error s = emit (slept 5) s

unfoldable pub main_loop : Config → List Poll → State → State
main_loop config [] s = s
main_loop config (poll ∷ polls) s = main_loop config polls (main_step config poll s)

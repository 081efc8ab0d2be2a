-- ===== src/Worker/Retry/Loop.antt =====
-- How often a job is attempted, and that the loop ends by its own test.
use mathlib.Core.Path.{fun_ext}
use arsivinyo_memegy_backend.Base.{
  ℕ, zero, suc, ◌+◌, ◌-◌, ◌≤◌, ◌≡◌, ◌<◌, refl, ap, ◌∙◌, if◌then◌else◌, true, false, leb, Option,
  none, some, ok, err, inl, inr, Bool-cases, arith,
}
use arsivinyo_memegy_backend.Worker.Error.{ProcessingError, is_transient}
use arsivinyo_memegy_backend.Worker.World.{VideoProcessJob, Config, World, State}
use arsivinyo_memegy_backend.Worker.Process.{process_video, Run}
use arsivinyo_memegy_backend.Worker.Retry.{
  Attempts, should_retry, after_run, attempt_loop, attempts,
}

module _ (worlds : ℕ → World) (config : Config) (job : VideoProcessJob) where
  abbrev max_attempts : ℕ
  max_attempts = config.worker_retry_max_attempts

  after_run-runs :
      (attempt bound : ℕ) (last : Option ProcessingError)
      (retry : ProcessingError → State → Attempts) (r : Run)
      → attempt ≤ bound
      → ((e : ProcessingError) (s : State)
          → should_retry config e attempt ≡ true
          → (retry e s).runs ≤ bound)
      → (after_run config attempt last retry r).runs ≤ bound
  unfolding after_run
  after_run-runs attempt bound last retry (ok _, s) h ih = h
  after_run-runs attempt bound last retry (err e, s) h ih =
      elim (Bool-cases (should_retry config e attempt)) [
        | inl again ↦ rw again (ih e _ again)
        | inr stop ↦ rw stop h
      ]

  -- The pipeline runs at most `worker_retry_max_attempts` times.
  attempt_loop-runs :
      (fuel attempt : ℕ) (last : Option ProcessingError) (s : State)
      → attempt ≤ max_attempts + 1
      → (attempt_loop worlds config job fuel attempt last s).runs ≤ max_attempts
  unfolding attempt_loop
  attempt_loop-runs zero attempt last s h = omega arith
  attempt_loop-runs (suc fuel) attempt last s h = elim (Bool-cases (leb attempt max_attempts)) [
    | inl more ↦ rw more (
        after_run-runs attempt max_attempts last _ (process_video (worlds attempt) config job s)
          (ground arith)
          λ e s' again. attempt_loop-runs fuel (attempt + 1) (some e) s' (ground arith))
    | inr done ↦ rw done (omega arith)
  ]

  after_run-resp :
      (attempt : ℕ) (last : Option ProcessingError)
      (retry retry' : ProcessingError → State → Attempts) (r : Run)
      → ((e : ProcessingError) (s : State) → retry e s ≡ retry' e s)
      → after_run config attempt last retry r ≡ after_run config attempt last retry' r
  after_run-resp attempt last retry retry' r h =
      ap (λ (f : ProcessingError → State → Attempts). after_run config attempt last f r)
        (fun_ext λ e. fun_ext λ s. h e s)

  -- With fuel for the rounds that are left from the attempt on, or with more, the loop does not run
  -- out: any two such amounts give the same end.
  pub attempt_loop-fuel :
      (fuel more attempt : ℕ) (last : Option ProcessingError) (s : State)
      → max_attempts + 1 ≤ attempt + fuel
      → max_attempts + 1 ≤ attempt + more
      → attempt_loop worlds config job fuel attempt last s
        ≡ attempt_loop worlds config job more attempt last s
  unfolding attempt_loop
  attempt_loop-fuel zero zero attempt last s h k = refl
  attempt_loop-fuel zero (suc more) attempt last s h k = ground arith
  attempt_loop-fuel (suc fuel) zero attempt last s h k = ground arith
  attempt_loop-fuel (suc fuel) (suc more) attempt last s h k =
      ap
        (λ (a : Attempts).
          if leb attempt max_attempts
          then a
          else record { last_error = last; runs = attempt - 1; state = s })
        (after_run-resp attempt last _ _ (process_video (worlds attempt) config job s)
          λ e s'. attempt_loop-fuel fuel more (attempt + 1) (some e) s' (omega arith) (omega arith))

  -- The pipeline runs at most `worker_retry_max_attempts` times for a job.
  pub attempts-runs : (s : State) → (attempts worlds config job s).runs ≤ max_attempts
  unfolding attempts
  attempts-runs s = attempt_loop-runs max_attempts 1 none s (omega arith)

  attempt_loop-step :
      (fuel attempt : ℕ) (last : Option ProcessingError) (s : State)
      → attempt ≤ max_attempts
      → attempt_loop worlds config job (suc fuel) attempt last s
        ≡ after_run config attempt last
            (λ e s'. attempt_loop worlds config job fuel (attempt + 1) (some e) s')
            (process_video (worlds attempt) config job s)
  unfolding attempt_loop
  attempt_loop-step fuel attempt last s h = ground arith

  -- The loop begins with a run of the pipeline.
  pub attempts-step :
      (s : State)
      → 0 < max_attempts
      → attempts worlds config job s
        ≡ after_run config 1 none
            (λ e s'. attempt_loop worlds config job (max_attempts - 1) 2 (some e) s')
            (process_video (worlds 1) config job s)
  unfolding attempts
  attempts-step s h =
      attempt_loop-fuel max_attempts (suc (max_attempts - 1)) 1 none s (omega arith) (omega arith)
      ∙ attempt_loop-step (max_attempts - 1) 1 none s (omega arith)

  pub attempt_loop-second :
      (e : ProcessingError) (s : State)
      → 2 ≤ max_attempts
      → attempt_loop worlds config job (max_attempts - 1) 2 (some e) s
        ≡ after_run config 2
            (some e)
            (λ e' s'. attempt_loop worlds config job (max_attempts - 2) 3 (some e') s')
            (process_video (worlds 2) config job s)
  attempt_loop-second e s h =
      attempt_loop-fuel (max_attempts - 1) (suc (max_attempts - 2)) 2 (some e) s (omega arith)
        (omega arith)
      ∙ attempt_loop-step (max_attempts - 2) 2 (some e) s h

  -- A first run that succeeds is the only one, and no error is kept.
  pub attempts-first_ok :
      (s s' : State)
      → 0 < max_attempts
      → process_video (worlds 1) config job s ≡ (ok tt, s')
      → attempts worlds config job s ≡ record { last_error = none; runs = 1; state = s' }
  unfolding after_run
  attempts-first_ok s s' h e = attempts-step s h ∙ rw e refl

  -- A first run that fails for good is the only one.
  pub attempts-first_permanent :
      (s s' : State) (e : ProcessingError)
      → 0 < max_attempts
      → process_video (worlds 1) config job s ≡ (err e, s')
      → is_transient e ≡ false
      → attempts worlds config job s ≡ record { last_error = some e; runs = 1; state = s' }
  unfolding after_run should_retry
  attempts-first_permanent s s' e h p k = attempts-step s h ∙ rw (p, k) refl

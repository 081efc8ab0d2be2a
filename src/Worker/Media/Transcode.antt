-- ===== src/Worker/Media/Transcode.antt =====
-- The order in which the ffmpeg profiles are tried.
use arsivinyo_memegy_backend.Base.{
  ℕ, String, ◌≡◌, refl, ◌⊎◌, inl, inr, Bool, true, false, not, max, List, [], ◌∷◌, Option, none,
  Bool-cases, Result, ok, err,
}
use arsivinyo_memegy_backend.Worker.Error.{ProcessingError, is_transient}
use arsivinyo_memegy_backend.Worker.World.{World, Config, Exec, finished, exec_failed, timed_out}
use arsivinyo_memegy_backend.Worker.Media.{
  TranscodeProfile, all_profiles_failed, run_command_with_timeout, build_transcode_profiles,
  try_profiles, run_transcode_fallbacks,
}

-- How ffmpeg ends on a profile: it succeeds, it rejects the file, or it gives no answer.
abbrev pub succeeds : Exec → Bool
succeeds (finished output) = output.success
succeeds _ = false

abbrev pub rejects : Exec → Bool
rejects (finished output) = not output.success
rejects _ = false

abbrev answers : Exec → Bool
answers (finished output) = true
answers _ = false

module _ (w : World) (timeout : ℕ) where
  abbrev pub ends : TranscodeProfile → Exec
  ends profile = w.exec "ffmpeg" profile.args timeout

  -- Some profile succeeds, and ffmpeg rejects the file under every profile before it.
  abbrev pub Reaches : List TranscodeProfile → Type 0
  Reaches [] = ⊥
  Reaches (profile ∷ profiles) =
      (succeeds (ends profile) ≡ true) ⊎ ((rejects (ends profile) ≡ true) × Reaches profiles)

  -- Some profile gives no answer, and ffmpeg rejects the file under every profile before it.
  abbrev pub Hangs : List TranscodeProfile → Type 0
  Hangs [] = ⊥
  Hangs (profile ∷ profiles) =
      (answers (ends profile) ≡ false) ⊎ ((rejects (ends profile) ≡ true) × Hangs profiles)

  abbrev pub RejectsAll : List TranscodeProfile → Type 0
  RejectsAll [] = Unit
  RejectsAll (profile ∷ profiles) = (rejects (ends profile) ≡ true) × RejectsAll profiles

  abbrev pub Explains : List TranscodeProfile → Result ProcessingError (Unit {0}) → Type 0
  Explains profiles (ok _) = Reaches profiles
  Explains profiles (err e) =
      ((is_transient e ≡ true) × Hangs profiles)
      ⊎ ((is_transient e ≡ false) × (e.code ≡ "TRANSCODE_FAILED_PERMANENT") × RejectsAll profiles)

  Explains-cons :
      (profile : TranscodeProfile) (profiles : List TranscodeProfile)
      (r : Result ProcessingError (Unit {0}))
      → rejects (ends profile) ≡ true
      → Explains profiles r
      → Explains (profile ∷ profiles) r
  Explains-cons profile profiles (ok _) h x = inr (h, x)
  Explains-cons profile profiles (err e) h (inl x) = inl (x.0, inr (h, x.1))
  Explains-cons profile profiles (err e) h (inr x) = inr (x.0, x.1, (h, x.2))

  try_profiles_lem :
      (last : Option (List ℕ)) (profiles : List TranscodeProfile)
      → Explains profiles (try_profiles w timeout last profiles)
  unfolding try_profiles run_command_with_timeout is_transient all_profiles_failed
  try_profiles_lem last [] = inr (refl, refl, tt)
  try_profiles_lem last (profile ∷ profiles) =
      go (ends profile) refl λ m. try_profiles_lem m profiles
    where
      go :
          (x : Exec)
          → ends profile ≡ x
          → ((m : Option (List ℕ)) → Explains profiles (try_profiles w timeout m profiles))
          → Explains (profile ∷ profiles) (try_profiles w timeout last (profile ∷ profiles))
      go (exec_failed m) e ih =
          rw (e, try_profiles, run_command_with_timeout) (inl (refl, inl (rw e refl)))
      go timed_out e ih =
          rw (e, try_profiles, run_command_with_timeout) (inl (refl, inl (rw e refl)))
      go (finished output) e ih = elim (Bool-cases output.success) [
        | inl good ↦ rw (e, try_profiles, run_command_with_timeout) (rw good (inl (rw e good)))
        | inr bad ↦
            rw (e, try_profiles, run_command_with_timeout)
              (rw bad (Explains-cons profile profiles _ (rw (e, bad) refl) (ih _)))
      ]

-- Transcoding succeeds only through a profile under which ffmpeg succeeds, every profile before it
-- having been rejected. It fails with a transient error only where ffmpeg gives no answer, after
-- rejections alone; and with TRANSCODE_FAILED_PERMANENT only where all three profiles are rejected.
pub run_transcode_fallbacks_lem :
    (w : World) (input output : String) (config : Config)
    → Explains w
        (max config.ffmpeg_transcode_timeout_secs 15)
        (build_transcode_profiles input output)
        (run_transcode_fallbacks w input output config)
unfolding run_transcode_fallbacks
run_transcode_fallbacks_lem w input output config =
    try_profiles_lem w (max config.ffmpeg_transcode_timeout_secs 15) none
      (build_transcode_profiles input output)

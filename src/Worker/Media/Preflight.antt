-- ===== src/Worker/Media/Preflight.antt =====
-- Which files pass the ffprobe preflight.
use arsivinyo_memegy_backend.Base.{
  ℕ, ℤ, String, ◌≡◌, refl, inl, inr, true, max, ◌⊎◌, sym, ap, subst, suc, zero, pos, negsuc, err,
  [], Option, none, some, any, unwrap_or, ok, arith, Result-cases, and_then,
}
use arsivinyo_memegy_backend.Worker.World.{
  World, Exec, finished, exec_failed, timed_out, Output, FfprobeOutput,
}
use arsivinyo_memegy_backend.Worker.Media.{
  ffprobe_args, is_video_stream, check_duration, check_probe, read_probe, run_ffprobe_preflight,
}

-- The duration that ffprobe's output gives: the number of its text, which is positive, or none where the
-- output has no such text or the text is no number.
abbrev pub Measures : World → FfprobeOutput → Option ℤ → Type 0
Measures w parsed (some duration) =
    (text : String) × (n : ℕ) × (parsed.format ≡ some (some text))
    × (w.parse_rounded text ≡ some duration)
    × (duration ≡ pos (suc n))
Measures w parsed none =
    (parsed.format ≡ none)
    ⊎ ((parsed.format ≡ some none)
        ⊎ ((text : String) × (parsed.format ≡ some (some text)) × (w.parse_rounded text ≡ none)))

-- What a finished run of ffprobe has shown of an accepted file: it succeeded, its output was read, a
-- stream is a video stream, and the duration is the one that the output gives.
pub record Shows (w : World) (output : Output) (duration : Option ℤ) : Type 0 where
  pub parsed : FfprobeOutput
  pub succeeded : output.success ≡ true
  pub read : w.parse_ffprobe output.stdout ≡ ok parsed
  pub has_video : any is_video_stream (unwrap_or parsed.streams []) ≡ true
  pub measured : Measures w parsed duration

check_duration-ok :
    (o d : Option ℤ)
    → check_duration o ≡ ok d
    → ((o ≡ none) × (d ≡ none)) ⊎ ((n : ℕ) × (o ≡ some (pos (suc n))) × (d ≡ some (pos (suc n))))
unfolding check_duration
check_duration-ok none none h = inl (refl, refl)
check_duration-ok none (some d) h = cc
check_duration-ok (some (pos zero)) d h = cc
check_duration-ok (some (pos (suc n))) d h =
    inr (n, refl, sym (ap (λ r. elim r [ ok x ↦ x | err e ↦ none ]) h))
check_duration-ok (some (negsuc n)) d h = cc

-- The duration that was checked, as the three places where it is looked for have it.
Measures-cases :
    (w : World) (format : Option (Option String)) (parsed : FfprobeOutput) (d : Option ℤ)
    → parsed.format ≡ format
    → check_duration (and_then (and_then format (λ o. o)) w.parse_rounded) ≡ ok d
    → Measures w parsed d
Measures-cases w none parsed d e h = elim (check_duration-ok none d h) [
  | inl (_, nothing) ↦ subst (Measures w parsed) (sym nothing) (inl e)
  | inr (n, number, _) ↦ absurd (cc)
]
Measures-cases w (some none) parsed d e h = elim (check_duration-ok none d h) [
  | inl (_, nothing) ↦ subst (Measures w parsed) (sym nothing) (inr (inl e))
  | inr (n, number, _) ↦ absurd (cc)
]
Measures-cases w (some (some text)) parsed d e h =
    elim (check_duration-ok (w.parse_rounded text) d h) [
      | inl (unread, nothing) ↦
          subst (Measures w parsed) (sym nothing) (inr (inr (text, e, unread)))
      | inr (n, number, given) ↦ subst (Measures w parsed) (sym given) (text, n, e, number, refl)
    ]

check_probe-ok :
    (w : World) (parsed : FfprobeOutput) (d : Option ℤ)
    → check_probe w parsed ≡ ok d
    → (any is_video_stream (unwrap_or parsed.streams []) ≡ true) × Measures w parsed d
unfolding check_probe
check_probe-ok w parsed d h =
    (ground arith, Measures-cases w parsed.format parsed d refl (ground arith))

read_probe-ok :
    (w : World) (output : Output) (d : Option ℤ) → read_probe w output ≡ ok d → Shows w output d
unfolding read_probe
read_probe-ok w output d h = elim (Result-cases (w.parse_ffprobe output.stdout)) [
  | inl (parsed, e) ↦ record {
    parsed = parsed;
    succeeded = ground arith;
    read = e;
    has_video = (check_probe-ok w parsed d (ground arith)).0;
    measured = (check_probe-ok w parsed d (ground arith)).1;
  }
  | inr (m, e) ↦ absurd (ground arith)
]

-- A file is accepted only after ffprobe ran to a successful end within its time, at least five
-- seconds, with an output that was read and has a video stream. Its duration is the number that the output
-- gives, which is positive, and it has none only if the output gives no text of a duration or none that is a
-- number.
pub run_ffprobe_preflight-ok :
    (w : World) (input : String) (timeout_secs : ℕ) (d : Option ℤ)
    → run_ffprobe_preflight w input timeout_secs ≡ ok d
    → (output : Output) × (w.exec "ffprobe" (ffprobe_args input) (max timeout_secs 5)
        ≡ finished output)
      × Shows w output d
unfolding run_ffprobe_preflight
run_ffprobe_preflight-ok w input timeout_secs d h =
    go (w.exec "ffprobe" (ffprobe_args input) (max timeout_secs 5)) refl
  where
    go :
        (x : Exec)
        → w.exec "ffprobe" (ffprobe_args input) (max timeout_secs 5) ≡ x
        → (output : Output) × (w.exec "ffprobe" (ffprobe_args input) (max timeout_secs 5)
            ≡ finished output)
          × Shows w output d
    go (finished output) e = (output, e, read_probe-ok w output d (ground arith))
    go (exec_failed m) e = absurd (ground arith)
    go timed_out e = absurd (ground arith)

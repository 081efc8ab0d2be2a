-- ===== src/Worker/Media.antt =====
-- Child processes of the video worker: ffprobe, the ffmpeg profiles and the thumbnail
-- (src/worker/src/main.rs).
pub mod Preflight
pub mod Transcode
use Prim.Native.String.{◌++◌ as str_append}
use arsivinyo_memegy_backend.Base.{
  ℕ, ℤ, String, ◌≡◌, Bool, true, false, not, List, [], ◌∷◌, ◌++◌, Option, none, some, max, codes,
  str_eq, any, unwrap_or, and_then, option_map, is_positive, if◌then◌else◌, Result, ok, err,
}
use arsivinyo_memegy_backend.Worker.Error.{
  ProcessingError, transient, permanent, is_transient, stderr_tail_bytes, sanitize_error_message,
  tail_text,
}
use arsivinyo_memegy_backend.Worker.World.{
  World, Config, Exec, finished, exec_failed, timed_out, Output, FfprobeOutput,
}

unfoldable pub run_command_with_timeout :
    World → String → List String → ℕ → Result ProcessingError Output
run_command_with_timeout w program args timeout_secs = elim (w.exec program args timeout_secs) [
  | finished output ↦ ok output
  | exec_failed e ↦
      err (transient "PROCESS_EXEC_FAILED" (codes program ++ codes " spawn/wait failed: " ++ e))
  | timed_out ↦ err (
      transient "PROCESS_TIMEOUT"
        (codes program ++ codes " exceeded timeout of " ++ w.show_number timeout_secs ++ codes "s"))
]

abbrev pub is_video_stream : Option String → Bool
is_video_stream (some codec) = str_eq codec "video"
is_video_stream none = false

-- A measured duration must be positive; a missing one is accepted.
unfoldable pub check_duration : Option ℤ → Result ProcessingError (Option ℤ)
check_duration none = ok none
check_duration (some duration) =
    if is_positive duration
    then ok (some duration)
    else err (permanent "INVALID_MEDIA" (codes "Input media duration is not positive"))

unfoldable pub check_probe : World → FfprobeOutput → Result ProcessingError (Option ℤ)
unfolding check_duration
check_probe w parsed =
    if any is_video_stream (unwrap_or parsed.streams [])
    then check_duration (and_then (and_then parsed.format (λ duration. duration)) w.parse_rounded)
    else err (permanent "NO_VIDEO_STREAM" (codes "Input has no video stream"))

unfoldable pub read_probe : World → Output → Result ProcessingError (Option ℤ)
unfolding check_probe
read_probe w output =
    if output.success
    then elim (w.parse_ffprobe output.stdout) [
      | err e ↦ err (permanent "CORRUPT_INPUT" e)
      | ok parsed ↦ check_probe w parsed
    ]
    else err (
        permanent "INVALID_MEDIA" (
          codes "ffprobe failed: "
          ++ sanitize_error_message (tail_text w.from_utf8_lossy output.stderr stderr_tail_bytes)))

abbrev pub ffprobe_args : String → List String
ffprobe_args input =
    "-v" ∷ "error" ∷ "-print_format" ∷ "json" ∷ "-show_streams" ∷ "-show_format" ∷ input ∷ []

unfoldable pub run_ffprobe_preflight : World → String → ℕ → Result ProcessingError (Option ℤ)
unfolding run_command_with_timeout read_probe
run_ffprobe_preflight w input timeout_secs =
    elim (run_command_with_timeout w "ffprobe" (ffprobe_args input) (max timeout_secs 5)) [
      | err e ↦ err e
      | ok output ↦ read_probe w output
    ]

pub record TranscodeProfile : Type 0 where
  pub name : String
  pub args : List String

abbrev base_tail : String → List String
base_tail output =
    "-c:v" ∷ "libx264" ∷ "-pix_fmt" ∷ "yuv420p" ∷ "-vf"
    ∷ "scale='min(1920,iw)':'min(1080,ih)':force_original_aspect_ratio=decrease:force_divisible_by=2"
    ∷ "-movflags" ∷ "+faststart" ∷ "-y" ∷ output ∷ []

abbrev primary : String → List String
primary input =
    "-hide_banner" ∷ "-loglevel" ∷ "error" ∷ "-i" ∷ input ∷ "-c:a" ∷ "aac" ∷ "-b:a" ∷ "128k"
    ∷ "-preset" ∷ "medium" ∷ "-crf" ∷ "23" ∷ "-maxrate" ∷ "2M" ∷ "-bufsize" ∷ "4M" ∷ []

abbrev tolerant : String → List String
tolerant input =
    "-hide_banner" ∷ "-loglevel" ∷ "error" ∷ "-fflags" ∷ "+genpts+discardcorrupt" ∷ "-err_detect"
    ∷ "ignore_err" ∷ "-analyzeduration" ∷ "100M" ∷ "-probesize" ∷ "100M" ∷ "-i" ∷ input ∷ "-c:a"
    ∷ "aac" ∷ "-b:a" ∷ "96k" ∷ "-preset" ∷ "veryfast" ∷ "-crf" ∷ "26" ∷ []

abbrev no_audio : String → List String
no_audio input =
    "-hide_banner" ∷ "-loglevel" ∷ "error" ∷ "-fflags" ∷ "+genpts+discardcorrupt"
    ∷ "-analyzeduration" ∷ "100M" ∷ "-probesize" ∷ "100M" ∷ "-i" ∷ input ∷ "-an" ∷ "-preset"
    ∷ "veryfast" ∷ "-crf" ∷ "26" ∷ []

unfoldable pub build_transcode_profiles : String → String → List TranscodeProfile
build_transcode_profiles input output =
    record { name = "primary_h264_aac"; args = primary input ++ base_tail output }
    ∷ record { name = "fallback_tolerant_decode"; args = tolerant input ++ base_tail output }
    ∷ record { name = "fallback_no_audio"; args = no_audio input ++ base_tail output }
    ∷ []

unfoldable pub all_profiles_failed : Option (List ℕ) → ProcessingError
all_profiles_failed last_err = permanent "TRANSCODE_FAILED_PERMANENT" (
    codes "All transcode profiles failed"
    ++ unwrap_or (option_map (λ m. codes ": " ++ sanitize_error_message m) last_err) [])

-- The loop over the profiles: `last_err` is the message of the last profile that failed.
unfoldable pub try_profiles :
    World → ℕ → Option (List ℕ) → List TranscodeProfile → Result ProcessingError (Unit {0})
try_profiles w timeout last_err [] = err (all_profiles_failed last_err)
try_profiles w timeout last_err (profile ∷ profiles) =
    elim (run_command_with_timeout w "ffmpeg" profile.args timeout) [
      | ok output ↦
          if output.success
          then ok tt
          else try_profiles w timeout
              (some (
                sanitize_error_message
                  (tail_text w.from_utf8_lossy output.stderr stderr_tail_bytes)))
              profiles
      | err e ↦ if is_transient e then err e else try_profiles w timeout (some e.message) profiles
    ]

unfoldable pub run_transcode_fallbacks :
    World → String → String → Config → Result ProcessingError (Unit {0})
run_transcode_fallbacks w input output config =
    try_profiles w (max config.ffmpeg_transcode_timeout_secs 15) none
      (build_transcode_profiles input output)

abbrev thumbnail_args : String → String → List String
thumbnail_args input output =
    "-hide_banner" ∷ "-loglevel" ∷ "error" ∷ "-i" ∷ input ∷ "-ss" ∷ "00:00:01" ∷ "-vframes" ∷ "1"
    ∷ "-vf" ∷ "scale=480:-1" ∷ "-y" ∷ output ∷ []

-- Whether the thumbnail was made; the callers do not read the error.
unfoldable pub generate_thumbnail : World → String → String → ℕ → Bool
unfolding run_command_with_timeout
generate_thumbnail w input output timeout_secs =
    elim (run_command_with_timeout w "ffmpeg" (thumbnail_args input output) (max timeout_secs 5)) [
      | err e ↦ false
      | ok result ↦ result.success
    ]

-- ===== src/Worker/World.antt =====
-- What the video worker reads and changes (src/worker/src/main.rs): the `videos` table, the calls
-- that leave the process, and the answers of everything that is not part of the repository.
use arsivinyo_memegy_backend.Base.{
  ℕ, ℤ, String, Bool, List, [], ◌∷◌, ◌++◌, Option, none, some, Result, ok, err, ◌==◌, if◌then◌else◌,
  ◌≡◌, ◌⊎◌, inl, inr, Option-cases, arith,
}
use arsivinyo_memegy_backend.Video.{Video}

pub record VideoProcessJob : Type 0 where
  pub video_id : ℕ
  pub user_id : ℕ
  pub raw_bucket : String
  pub raw_key : String

-- The fields of `Config` that the worker reads.
pub record Config : Type 0 where
  pub minio_bucket_videos : String
  pub minio_public_endpoint : String
  pub worker_retry_max_attempts : ℕ  -- u8
  pub worker_retry_backoff_base_secs : ℕ  -- u64
  pub ffmpeg_transcode_timeout_secs : ℕ
  pub ffmpeg_thumbnail_timeout_secs : ℕ

pub record FfprobeOutput : Type 0 where
  pub streams : Option (List (Option String))
  pub format : Option (Option String)

pub record Output : Type 0 where
  pub success : Bool
  pub stdout : List ℕ
  pub stderr : List ℕ

-- How a child process ended.
pub data Exec : Type 0 where
  finished : Output → Exec
  exec_failed : List ℕ → Exec
  timed_out : Exec

-- The answers of the database, the object store, the child processes and the libraries. A failed
-- call answers with the text of its error.
pub record World : Type 0 where
  pub read_video : Option (List ℕ)
  pub write_video : Option (List ℕ)
  pub record_not_updated : List ℕ
  pub read_like : Option Bool
  pub temp_dir : Result (List ℕ) String
  pub download : String → String → Option (List ℕ)
  pub upload : String → String → Option (List ℕ)
  pub exec : String → List String → ℕ → Exec
  pub parse_ffprobe : List ℕ → Result (List ℕ) FfprobeOutput
  pub parse_rounded : String → Option ℤ
  pub from_utf8_lossy : List ℕ → List ℕ
  pub show_uuid : ℕ → String
  pub show_number : ℕ → List ℕ
  pub now : ℕ
  pub new_uuid : ℕ

pub record RealtimeVideo : Type 0 where
  pub id : ℕ
  pub title : Option String
  pub description : Option String
  pub status : String
  pub created_at : ℕ
  pub updated_at : ℕ
  pub is_anonymous : Bool
  pub is_nsfw : Option Bool
  pub is_liked : Bool
  pub like_count : ℕ
  pub url : Option String
  pub thumbnail_url : Option String
  pub processing_error_code : Option String
  pub processing_error_message : Option (List ℕ)

pub record Signal : Type 0 where
  pub event_type : String
  pub event_id : ℕ
  pub event_at : ℕ
  pub version : ℕ
  pub previous_status : Option String
  pub video : RealtimeVideo

-- What the worker does outside the table, in order. A cache is invalidated and a signal is sent
-- with their failures ignored; an upload is recorded when it succeeds.
pub data Effect : Type 0 where
  uploaded : (bucket key path content_type : String) → Effect
  invalidated_feed : Effect
  invalidated_user_videos : ℕ → Effect
  signalled : ℕ → Signal → Effect
  slept : ℕ → Effect

pub record State : Type 0 where
  pub videos : ℕ → Option Video
  pub effects : List Effect

unfoldable pub emit : Effect → State → State
emit e s = record s { effects = s.effects ++ e ∷ [] }

abbrev pub put_video : ℕ → Video → (ℕ → Option Video) → ℕ → Option Video
put_video id v videos k = if k == id then some v else videos k

-- `active.update(db)`: the set columns of the row are written, and the new row is returned.
unfoldable pub update_video : World → ℕ → (Video → Video) → State → Result (List ℕ) Video × State
update_video w id set s = elim w.write_video [
  | some e ↦ (err e, s)
  | none ↦ elim (s.videos id) [
    | none ↦ (err w.record_not_updated, s)
    | some row ↦ (ok (set row), record s { videos = put_video id (set row) s.videos })
  ]
]

-- A write succeeds on the row that is there, or fails and changes nothing.
pub update_video_cases :
    (w : World) (id : ℕ) (set : Video → Video) (s : State)
    → ((v : Video) × (s.videos id ≡ some v)
        × (update_video w id set s
            ≡ (ok (set v), record s { videos = put_video id (set v) s.videos })))
      ⊎ ((e : List ℕ) × (update_video w id set s ≡ (err e, s)))
unfolding update_video
update_video_cases w id set s = elim (Option-cases w.write_video) [
  | inr (e, failed) ↦ inr (e, ground arith)
  | inl fine ↦ elim (Option-cases (s.videos id)) [
    | inl gone ↦ inr (w.record_not_updated, ground arith)
    | inr (v, found) ↦ inl (v, found, ground arith)
  ]
]

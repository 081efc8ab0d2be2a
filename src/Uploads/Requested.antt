-- ===== src/Uploads/Requested.antt =====
-- Which uploads are accepted (src/api/src/videos/handlers.rs: init_upload, init_anonymous_upload).
use arsivinyo_memegy_backend.Base.{
  ℕ, ℤ, pos, negsuc, suc, ◌+◌, ◌/◌, ◌≤◌, ◌≡◌, refl, ◌⊎◌, inl, inr, String, Bool, true, false, not,
  Option, none, some, Result, ok, err, arith, if◌then◌else◌,
}
use arsivinyo_memegy_backend.Worker.World.{put_video}
use arsivinyo_memegy_backend.Counters.{Redis}
use arsivinyo_memegy_backend.Api.{ApiError, guard, Holds, Holds-bind}
use arsivinyo_memegy_backend.Uploads.{
  Config, State, World, insert_video, InitUploadRequest, InitUploadResponse,
  enforce_read_only_upload_restriction, exceeds, current_usage, draft_row, may_upload, with_url,
  insert_draft, if_allowed, init_upload, init_anonymous_upload,
}

-- `usage + size ≤ limit`.
abbrev pub AtMost : ℕ → ℤ → ℕ → Type 0
AtMost usage (pos n) limit = usage + n ≤ limit
AtMost usage (negsuc n) limit = usage ≤ limit + suc n

exceeds-AtMost :
    (usage : ℕ) (size : ℤ) (limit : ℕ)
    → not (exceeds usage size limit) ≡ true
    → AtMost usage size limit
exceeds-AtMost usage (pos n) limit h = ground arith
exceeds-AtMost usage (negsuc n) limit h = ground arith

guard-ok : (b : Bool) (e : ApiError) → guard b e ≡ ok tt → b ≡ true
guard-ok true e h = refl
guard-ok false e h = cc

module _ (w : World) (config : Config) (user : ℕ) (payload : InitUploadRequest) where
  -- What is known of a request that is let through.
  pub record IsAllowed (limit : ℕ) (redis : Redis) : Type 0 where
    pub writable : config.read_only_mode_enabled ≡ false
    pub within_size : AtMost 0 payload.size_bytes config.max_file_size_bytes
    pub within_limit : AtMost (current_usage w user redis) payload.size_bytes limit

  writable-ok :
      (b : Bool) (e : ApiError)
      → ◌≡◌ {A = Result ApiError (Unit {0})} (if b then err e else ok tt) (ok tt)
      → b ≡ false
  writable-ok true e h = cc
  writable-ok false e h = refl

  guard-Holds : (P : Type 0) (b : Bool) (e : ApiError) → (b ≡ true → P) → Holds (λ _. P) (guard b e)
  guard-Holds P true e h = h refl
  guard-Holds P false e h = tt

  may_upload-IsAllowed :
      (limit : ℕ) (message : String) (redis : Redis)
      → Holds (λ _. IsAllowed limit redis) (may_upload w config user payload limit message redis)
  unfolding enforce_read_only_upload_restriction
  may_upload-IsAllowed limit message redis =
      Holds-bind _ (enforce_read_only_upload_restriction config) _ λ _ writes.
        Holds-bind _ (guard (not (exceeds 0 payload.size_bytes config.max_file_size_bytes)) _) _
          λ _ small.
            guard-Holds _ (not (exceeds (current_usage w user redis) payload.size_bytes limit)) _
              λ within. record {
                writable = writable-ok _ _ writes;
                within_size = exceeds-AtMost 0 payload.size_bytes _ (guard-ok _ _ small);
                within_limit = exceeds-AtMost _ payload.size_bytes limit within;
              }

  -- What becomes of a request of an upload: one that is let through, and whose row is inserted, adds one
  -- draft, and nothing else adds a row.
  abbrev pub Requests : Bool → ℕ → State → Result ApiError InitUploadResponse × State → Type 0
  Requests is_anonymous limit s (ok r, s') =
      IsAllowed limit s.redis
      × (r.video_id ≡ w.new_uuid)
      × (s'.videos ≡ put_video w.new_uuid (draft_row w config user payload is_anonymous) s.videos)
  Requests is_anonymous limit s (err e, s') =
      (s'.videos ≡ s.videos)
      ⊎ (IsAllowed limit s.redis
          × ((x : String) × (w.presigned_put config.minio_bucket_raw
                  (draft_row w config user payload is_anonymous).s3_key
                ≡ err x)
              × (s'.videos
                  ≡ put_video w.new_uuid (draft_row w config user payload is_anonymous) s.videos)))

  module _ (is_anonymous : Bool) (limit : ℕ) (s : State) where
    with_url-Requests :
        (r : Result String String)
        → IsAllowed limit s.redis
        → w.presigned_put config.minio_bucket_raw
            (draft_row w config user payload is_anonymous).s3_key
          ≡ r
        → Requests is_anonymous limit s (
            with_url user w r (record s {
              videos = put_video w.new_uuid (draft_row w config user payload is_anonymous) s.videos;
            }))
    with_url-Requests (ok url) allowed e = (allowed, refl, refl)
    with_url-Requests (err x) allowed e = inr (allowed, (x, e, refl))

    insert_draft-Requests :
        (c : Option String)
        → IsAllowed limit s.redis
        → Requests is_anonymous limit s (insert_draft w config user payload is_anonymous s c)
    insert_draft-Requests (some x) allowed = inl refl
    insert_draft-Requests none allowed = with_url-Requests _ allowed refl

    if_allowed-Requests :
        (r : Result ApiError (Unit {0}))
        → Holds (λ _. IsAllowed limit s.redis) r
        → Requests is_anonymous limit s
            (if_allowed r s (insert_draft w config user payload is_anonymous s (w.db insert_video)))
    if_allowed-Requests (ok _) h = insert_draft-Requests (w.db insert_video) h
    if_allowed-Requests (err e) h = inl refl

  -- An upload is accepted only while uploads are not restricted, for a size within the limit of a file and,
  -- with what the user has used, within the limit of an hour; it adds one draft with the size that was
  -- declared. A refused one adds no row, except that the row stays when no address for it can be made.
  pub init_upload-Requests :
      (s : State)
      → Requests false config.limit_upload_bytes_hourly s (init_upload w config user payload s)
  unfolding init_upload
  init_upload-Requests s =
      if_allowed-Requests false config.limit_upload_bytes_hourly s _
        (may_upload-IsAllowed _ _ s.redis)

  -- The same of an anonymous upload, with half the limit of an hour, for a draft that hides its user.
  pub init_anonymous_upload-Requests :
      (s : State)
      → Requests true
          (config.limit_upload_bytes_hourly / 2)
          s
          (init_anonymous_upload w config user payload s)
  unfolding init_anonymous_upload
  init_anonymous_upload-Requests s =
      if_allowed-Requests true (config.limit_upload_bytes_hourly / 2) s _
        (may_upload-IsAllowed _ _ s.redis)

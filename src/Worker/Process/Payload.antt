-- ===== src/Worker/Process/Payload.antt =====
-- Which addresses the realtime payload of a video shows (src/worker/src/main.rs).
use Prim.Native.String.{◌++◌ as str_append}
use arsivinyo_memegy_backend.Base.{String, ◌≡◌, ◌⊎◌, Bool, true, some, none, eq_iff, arith}
use arsivinyo_memegy_backend.Video.{Video}
use arsivinyo_memegy_backend.Worker.World.{World}
use arsivinyo_memegy_backend.Worker.Process.{slash, is_published_like, build_realtime_video_payload}

-- A video is reachable: it is published, or its object lies in the public bucket.
abbrev pub IsPublic : String → Video → Type 0
IsPublic bucket v = (is_published_like v ≡ true) ⊎ (v.s3_bucket ≡ bucket)

-- The payload of a video that is neither published nor in the public bucket shows no address. The
-- payload of any other shows its object and its thumbnail, both in the public bucket.
pub payload_addresses :
    (w : World) (endpoint bucket : String) (v : Video) (liked : Bool)
    → let payload = build_realtime_video_payload w endpoint bucket v liked in
      (¬ IsPublic bucket v → (payload.url ≡ none) × (payload.thumbnail_url ≡ none))
      × (IsPublic bucket v
          → (payload.url ≡ some (slash endpoint (slash bucket v.s3_key)))
            × (payload.thumbnail_url
                ≡ some
                    (slash endpoint (slash bucket (str_append (w.show_uuid v.id) "_thumb.jpg")))))
unfolding build_realtime_video_payload
payload_addresses w endpoint bucket v liked = (
  λ h. (ground (arith, eq_iff v.s3_bucket bucket), ground (arith, eq_iff v.s3_bucket bucket)),
  λ h. (ground (arith, eq_iff v.s3_bucket bucket), ground (arith, eq_iff v.s3_bucket bucket)),
)

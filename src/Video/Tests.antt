-- ===== src/Video/Tests.antt =====
-- The video states at one state.
use arsivinyo_memegy_backend.Base.{◌≡◌, refl, some}
use arsivinyo_memegy_backend.Video.{published, from_str}

read_published : from_str "PUBLISHED" ≡ some published
unfolding from_str
read_published = refl

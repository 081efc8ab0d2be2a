-- ===== src/Uploads/Once.antt =====
-- How many jobs the confirmations of uploads queue for a video (src/api/src/videos/handlers.rs:
-- confirm_upload).
use arsivinyo_memegy_backend.Base.{
  ℕ, suc, ◌≤◌, ◌≡◌, refl, sym, ap, ◌∙◌, subst, inl, inr, String, Bool, true, false, List, [], ◌∷◌,
  Option, none, some, Result, ok, err, All, ◌==◌, ==_iff, str_eq, if◌then◌else◌, Bool-cases, arith,
}
use arsivinyo_memegy_backend.Video.{Video}
use arsivinyo_memegy_backend.Worker.World.{VideoProcessJob, put_video}
use arsivinyo_memegy_backend.Api.{ApiError}
use arsivinyo_memegy_backend.Uploads.{Config, State, World, commit}
use arsivinyo_memegy_backend.Uploads.Confirm.{processing_row, job_of, confirm_upload}
use arsivinyo_memegy_backend.Uploads.Confirmed.{
  Accepted, earlier, queued, Confirms, confirm_upload-Confirms,
}

-- The number of jobs for a video.
abbrev pub jobs_for : ℕ → List VideoProcessJob → ℕ
jobs_for id [] = 0
jobs_for id (j ∷ js) = let rest = jobs_for id js in if j.video_id == id then suc rest else rest

-- A draft has no job, and no video has two.
pub record IsQueuedOnce (id : ℕ) (videos : ℕ → Option Video) (queue : List VideoProcessJob)
    : Type 0 where
  pub draft_waits :
      (v : Video) → videos id ≡ some v → str_eq v.status "DRAFT" ≡ true → jobs_for id queue ≡ 0
  pub at_most_one : jobs_for id queue ≤ 1

moved :
    (id : ℕ) {videos videos' : ℕ → Option Video} {queue queue' : List VideoProcessJob}
    → videos' ≡ videos
    → queue' ≡ queue
    → IsQueuedOnce id videos queue
    → IsQueuedOnce id videos' queue'
moved id {videos} {videos'} {queue} {queue'} v q h =
    subst (λ x. IsQueuedOnce id x queue') (sym v) (subst (λ x. IsQueuedOnce id videos x) (sym q) h)

abbrev status_or : String → Option Video → String
status_or t none = t
status_or t (some v) = v.status

module _ (w : World) (config : Config) (user k id : ℕ) (s : State)
    (h : IsQueuedOnce id s.videos s.queue) where
  row_status :
      (v x : Video) (actual : ℕ) (b : Bool) (o : Option Video)
      → (if b then some (processing_row w actual v) else o) ≡ some x
      → str_eq x.status "DRAFT" ≡ true
      → (b ≡ false) × (o ≡ some x)
  unfolding processing_row
  row_status v x actual true o e d =
      let status : "PROCESSING" ≡ x.status = ap (status_or "DRAFT") e in
      let clash = subst (λ (t : String). str_eq t "DRAFT" ≡ true) (sym status) d in cc clash
  row_status v x actual false o e d = (refl, e)

  written-IsQueuedOnce :
      (v : Video) (actual : ℕ)
      → s.videos k ≡ some v
      → str_eq v.status "DRAFT" ≡ true
      → IsQueuedOnce id
          (put_video k (processing_row w actual v) s.videos)
          (job_of k user v ∷ s.queue)
  written-IsQueuedOnce v actual found draft = elim (Bool-cases (k == id)) [
    | inl same ↦
        let at : k ≡ id = (==_iff k id).0 same in
        let waits : jobs_for id s.queue ≡ 0 =
          h.draft_waits v (subst (λ n. s.videos n ≡ some v) at found) draft in
        record {
          draft_waits = λ x e d.
              let off = row_status v x actual (id == k) (s.videos id) e d in
              let on : (id == k) ≡ true = (==_iff id k).1 (sym at) in
              let clash = sym on ∙ off.0 in cc clash;
          at_most_one = ground (arith, waits);
        }
    | inr other ↦ record {
      draft_waits = λ x e d.
          let off = row_status v x actual (id == k) (s.videos id) e d in
          let waits = h.draft_waits x off.1 d in rw other waits;
      at_most_one = rw other (h.at_most_one);
    }
  ]

  Accepted-IsQueuedOnce :
      (v : Video) (s' : State)
      → s.videos k ≡ some v
      → Accepted w config user k s v s'
      → IsQueuedOnce id s'.videos s'.queue
  Accepted-IsQueuedOnce v s' found (earlier other same) =
      moved id (ap (λ t. t.videos) same) (ap (λ t. t.queue) same) h
  Accepted-IsQueuedOnce v s' found (queued actual draft good videos queue) =
      moved id videos queue (written-IsQueuedOnce v actual found draft)

  Confirms-IsQueuedOnce :
      (r : Result ApiError (Unit {0}) × State)
      → w.db commit ≡ none
      → Confirms w config user k s r
      → IsQueuedOnce id r.1.videos r.1.queue
  Confirms-IsQueuedOnce (ok _, s') works (v, found, own, accepted) =
      Accepted-IsQueuedOnce v s' found accepted
  Confirms-IsQueuedOnce (err e, s') works (videos, inl queue) = moved id videos queue h
  Confirms-IsQueuedOnce (err e, s') works (videos, inr (x, job, fails, queue)) =
      let clash = sym works ∙ fails in cc clash

-- One confirmation: its world, the configuration, the user and the video.
pub record Confirmation : Type 0 where
  pub world : World
  pub config : Config
  pub user : ℕ
  pub video : ℕ

abbrev pub after_confirmations : List Confirmation → State → State
after_confirmations [] s = s
after_confirmations (c ∷ cs) s =
    after_confirmations cs (confirm_upload c.world c.config c.user c.video s).1

-- However often uploads are confirmed, by whichever users, and whatever fails except a commit, no more
-- than one job is queued for a video, and none while it is a draft.
pub after_confirmations-IsQueuedOnce :
    (id : ℕ) (cs : List Confirmation) (s : State)
    → All (λ (c : Confirmation). c.world.db commit ≡ none) cs
    → IsQueuedOnce id s.videos s.queue
    → IsQueuedOnce id (after_confirmations cs s).videos (after_confirmations cs s).queue
after_confirmations-IsQueuedOnce id [] s works h = h
after_confirmations-IsQueuedOnce id (c ∷ cs) s works h =
    after_confirmations-IsQueuedOnce id cs _ works.1 (
      Confirms-IsQueuedOnce c.world c.config c.user c.video id s h _ works.0
        (confirm_upload-Confirms c.world c.config c.user c.video s))

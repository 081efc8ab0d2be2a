-- ===== src/Uploads/Owned.antt =====
-- The lookup of a row that must be the user's (src/api/src/videos/handlers.rs).
use arsivinyo_memegy_backend.Base.{
  ℕ, ◌≡◌, refl, sym, ap, ◌∙◌, Bool, true, false, Option, none, some, ◌==◌, ==_iff, ==_refl,
  if◌then◌else◌,
}
use arsivinyo_memegy_backend.Video.{Video}
use arsivinyo_memegy_backend.Api.{ApiError, or_else, Holds}
use arsivinyo_memegy_backend.Uploads.Confirm.{owned}

-- A table at the place that was written.
pub if_same : (id : ℕ) {v : Option Video} (w : Option Video) → (if id == id then v else w) ≡ v
if_same id w = rw (==_refl id) refl

pub or_else-Holds :
    {A : Type 0} (P : A → Type 0) (o : Option A) (e : ApiError)
    → ((a : A) → o ≡ some a → P a)
    → Holds P (or_else o e)
or_else-Holds P none e h = tt
or_else-Holds P (some a) e h = h a refl

owned-if :
    (b : Bool) (x v : Video)
    → (if b then some x else none) ≡ some v
    → (b ≡ true) × (◌≡◌ {A = Option Video} (some x) (some v))
owned-if true x v h = (refl, h)
owned-if false x v h = cc

pub owned-some :
    (user : ℕ) (o : Option Video) (v : Video)
    → owned user o ≡ some v
    → (o ≡ some v) × (v.user_id ≡ user)
owned-some user none v h = cc
owned-some user (some x) v h =
    let own = owned-if (x.user_id == user) x v h in
    (
      own.1,
      ap (λ o. elim o [ none ↦ user | some y ↦ y.user_id ]) (sym own.1)
          ∙ (==_iff x.user_id user).0 own.0,
    )

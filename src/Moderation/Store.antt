-- ===== src/Moderation/Store.antt =====
-- The tables that moderation reads and writes, and the answers of the database
-- (src/api/src/services/abuse_report_service.rs, src/shared/src/entities/abuse_reports.rs).
use arsivinyo_memegy_backend.Base.{
  ℕ, String, Bool, List, Option, none, some, Result, ok, err, ◌==◌, if◌then◌else◌, map, ◌≡◌, refl,
}
use arsivinyo_memegy_backend.Video.{Video}

pub record AbuseReport : Type 0 where
  pub id : ℕ
  pub video_id : ℕ
  pub reporter_user_id : ℕ
  pub reason_codes : List String
  pub details : Option String
  pub timestamp_seconds : Option ℕ
  pub severity_score : ℕ
  pub status : String
  pub client_ip : String
  pub user_agent : Option String
  pub auto_quarantined : Bool
  pub auto_rule : Option String
  pub created_at : ℕ
  pub updated_at : ℕ
  pub closed_at : Option ℕ
  pub closed_by_admin_sub : Option String
  pub resolution_code : Option String
  pub resolution_note : Option String

pub record Tables : Type 0 where
  pub videos : ℕ → Option Video
  pub reports : List AbuseReport

-- The tables, and how often the public caches were invalidated.
pub record State : Type 0 where
  pub tables : Tables
  pub invalidations : ℕ

pub data DbCall : Type 0 where
  begin find_video find_report write_report count_reporters find_moderated write_video mark_report
        commit :
      DbCall

pub record World : Type 0 where
  pub now : ℕ
  pub db : DbCall → Option String  -- the error, if the call fails
  pub new_report_id : ℕ
  pub show_number : ℕ → String

pub data ApiError : Type 0 where
  not_found db_error : String → ApiError

infixl 5 ◌>>=◌
abbrev pub ◌>>=◌ {ℓ κ} :
    {A : Type ℓ} {B : Type κ} → Result ApiError A → (A → Result ApiError B) → Result ApiError B
ok a >>= f = f a
err e >>= f = err e

abbrev pub ◌>>◌ {ℓ} :
    {B : Type ℓ} → Result ApiError (Unit {0}) → Result ApiError B → Result ApiError B
m >> k = m >>= λ _. k

infixl 5 ◌>>◌
-- A call of the database that may fail.
abbrev pub call : World → DbCall → Result ApiError (Unit {0})
call w c = elim (w.db c) [ none ↦ ok tt | some e ↦ err (db_error e) ]

abbrev pub guard : Bool → ApiError → Result ApiError (Unit {0})
guard b e = if b then ok tt else err e

abbrev pub or_not_found {ℓ} : {A : Type ℓ} → Option A → Result ApiError A
or_not_found none = err (not_found "Video not found")
or_not_found (some a) = ok a

abbrev pub put_video : ℕ → Video → (ℕ → Option Video) → ℕ → Option Video
put_video id v videos k = if k == id then some v else videos k

-- `update` of the row with the report's id.
abbrev pub put_report : AbuseReport → List AbuseReport → List AbuseReport
put_report r = map λ x. if x.id == r.id then r else x

-- What holds of a result if it is no error.
abbrev pub Holds {ℓ κ} : {A : Type ℓ} → (A → Type κ) → Result ApiError A → Type κ
Holds P (ok a) = P a
Holds P (err e) = Unit

pub Holds-bind {ℓ κ μ} :
    {A : Type ℓ} {B : Type κ} (P : B → Type μ) (m : Result ApiError A) (f : A → Result ApiError B)
    → ((a : A) → m ≡ ok a → Holds P (f a))
    → Holds P (m >>= f)
Holds-bind P (ok a) f h = h a refl
Holds-bind P (err e) f h = tt

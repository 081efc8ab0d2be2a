-- ===== src/Api.antt =====
-- The errors of the API and its results (src/api/src/error.rs). A debug build adds details to some of
-- these errors, which are left out.
use arsivinyo_memegy_backend.Base.{
  ℕ, String, Bool, Option, none, some, Result, ok, err, if◌then◌else◌, ◌≡◌, refl,
}

pub record ApiError : Type 0 where
  pub status : ℕ
  pub message : String

abbrev pub bad_request : String → ApiError
bad_request m = record { status = 400; message = m }

abbrev pub forbidden : String → ApiError
forbidden m = record { status = 403; message = m }

abbrev pub not_found : String → ApiError
not_found m = record { status = 404; message = m }

abbrev pub too_many_requests : String → ApiError
too_many_requests m = record { status = 429; message = m }

abbrev pub service_unavailable : String → ApiError
service_unavailable m = record { status = 503; message = m }

abbrev pub internal_error : String → ApiError
internal_error m = record { status = 500; message = m }

infixl 5 ◌>>=◌
abbrev pub ◌>>=◌ {ℓ κ} :
    {A : Type ℓ} {B : Type κ} → Result ApiError A → (A → Result ApiError B) → Result ApiError B
ok a >>= f = f a
err e >>= f = err e

infixl 5 ◌>>◌
abbrev pub ◌>>◌ {ℓ} :
    {B : Type ℓ} → Result ApiError (Unit {0}) → Result ApiError B → Result ApiError B
m >> k = m >>= λ _. k

-- A call that may fail, with the error that its failure is turned into.
abbrev pub call : Option String → ApiError → Result ApiError (Unit {0})
call none e = ok tt
call (some _) e = err e

-- A call of the database.
abbrev pub db_call : Option String → Result ApiError (Unit {0})
db_call failure = call failure (internal_error "Internal server error")

abbrev pub guard : Bool → ApiError → Result ApiError (Unit {0})
guard b e = if b then ok tt else err e

abbrev pub or_else {ℓ} : {A : Type ℓ} → Option A → ApiError → Result ApiError A
or_else none e = err e
or_else (some a) e = ok a

-- What holds of a result if it is no error.
abbrev pub Holds {ℓ κ} : {A : Type ℓ} → (A → Type κ) → Result ApiError A → Type κ
Holds P (ok a) = P a
Holds P (err e) = Unit

pub Holds-bind {ℓ κ μ} :
    {A : Type ℓ} {B : Type κ} (P : B → Type μ) (m : Result ApiError A) (f : A → Result ApiError B)
    → ((a : A) → m ≡ ok a → Holds P (f a))
    → Holds P (m >>= f)
Holds-bind P (ok a) f h = h a refl
Holds-bind P (err e) f h = tt

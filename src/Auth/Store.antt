-- ===== src/Auth/Store.antt =====
-- The refresh token table (src/shared/src/entities/refresh_tokens.rs), the revoked access tokens
-- (src/api/src/auth/revocation.rs), and the answers of the libraries and the services. Times are
-- seconds, and one call reads the clock once.
use arsivinyo_memegy_backend.Base.{
  ℕ, ◌+◌, String, Bool, List, ◌∷◌, Option, some, Result, ◌==◌, if◌then◌else◌, keep, not, map,
}

pub record RefreshToken : Type 0 where
  pub id : ℕ
  pub user_id : ℕ
  pub token_hash : String
  pub expires_at : ℕ
  pub created_at : ℕ
  pub replaced_by : Option ℕ
  pub replaced_at : Option ℕ

pub record Claims : Type 0 where
  pub sub : ℕ
  pub jti : ℕ
  pub exp : ℕ
  pub iat : ℕ

-- The calls of the database.
pub data DbCall : Type 0 where
  begin find delete_all insert update commit : DbCall
  delete_expired : ℕ → DbCall

pub record World : Type 0 where
  pub now : ℕ
  pub db : DbCall → Option String  -- the error, if the call fails
  pub revocation_up : Bool
  pub decode_ignoring_expiry : String → Option Claims
  pub encode : Claims → Result String String
  pub verify_token_hash : String → String → Bool
  pub hash_token : String → Result String String
  pub new_refresh_token : String
  pub new_token_id : ℕ
  pub new_jti : ℕ

pub record Sessions : Type 0 where
  pub tokens : List RefreshToken
  pub revoked : List (ℕ × ℕ)  -- the token's jti, and for how many seconds

abbrev pub delete_by_id : ℕ → List RefreshToken → List RefreshToken
delete_by_id id = keep λ t. not (t.id == id)

abbrev pub of_user : ℕ → List RefreshToken → List RefreshToken
of_user user = keep λ t. t.user_id == user

abbrev pub delete_user : ℕ → List RefreshToken → List RefreshToken
delete_user user = keep λ t. not (t.user_id == user)

unfoldable pub replace : ℕ → ℕ → RefreshToken → RefreshToken
replace new now t = record t { replaced_by = some new; replaced_at = some now }

-- `active_old.update`: the row with that id is marked as replaced.
abbrev pub mark_replaced : ℕ → ℕ → ℕ → List RefreshToken → List RefreshToken
mark_replaced id new now = map λ t. if t.id == id then replace new now t else t

unfoldable pub create_access_token : World → ℕ → ℕ → Result String String
create_access_token w user ttl_secs =
    w.encode (record { sub = user; jti = w.new_jti; exp = w.now + ttl_secs; iat = w.now })

-- `revoke_token`, whose failure the caller only logs.
unfoldable pub revoke_token : World → ℕ → ℕ → Sessions → Sessions
revoke_token w jti ttl_secs s =
    if w.revocation_up then record s { revoked = (jti, ttl_secs) ∷ s.revoked } else s

-- ===== src/Auth/Refresh/Match.antt =====
-- The search for the row of a refresh token.
use arsivinyo_memegy_backend.Base.{
  String, ◌≡◌, refl, Bool, ◌&&◌, not, List, [], ◌∷◌, ltb, first, arith, if◌then◌else◌, is_some,
}
use arsivinyo_memegy_backend.Auth.Store.{RefreshToken, World, delete_by_id, delete_expired}
use arsivinyo_memegy_backend.Auth.Refresh.{match_token}

-- The row is of this token, and not expired.
abbrev pub is_live : World → String → RefreshToken → Bool
is_live w raw t = w.verify_token_hash raw t.token_hash && not (ltb t.expires_at w.now)

-- The search takes the first row of the token that is not expired, and none where every one is.
pub match_token-first :
    (w : World) (raw : String) (rows tokens : List RefreshToken)
    → (match_token w raw rows tokens).0 ≡ first (is_live w raw) rows
unfolding match_token
match_token-first w raw [] tokens = refl
match_token-first w raw (t ∷ rows) tokens = ground (
  arith,
  match_token-first w raw rows tokens,
  match_token-first w raw rows
      (if is_some (w.db (delete_expired t.id)) then tokens else delete_by_id t.id tokens),
)

-- ===== src/Auth/Tests.antt =====
-- One user with one refresh token, rotated at 100 and presented again at 140.
use arsivinyo_memegy_backend.Base.{
  ◌≡◌, refl, true, [], ◌∷◌, none, some, ok, err, str_eq, first, arith, ◌&&◌,
}
use arsivinyo_memegy_backend.Auth.Store.{
  RefreshToken, Claims, World, Sessions, of_user, delete_user, mark_replaced, replace,
  create_access_token, revoke_token,
}
use arsivinyo_memegy_backend.Auth.Refresh.{
  reuse_detected, invalid_or_expired_refresh_token, match_token, refresh_access_token, finish,
  revoke_old, new_row,
}
use arsivinyo_memegy_backend.Auth.Refresh.Match.{is_live, match_token-first}
use arsivinyo_memegy_backend.Auth.Refresh.Replay.{
  IsFresh, refresh_replay_ends_sessions, refresh_expired_keeps_rows,
}

abbrev claims : Claims
claims = record { sub = 1; jti = 50; exp = 120; iat = 20 }

abbrev row : RefreshToken
row = record {
  id = 5;
  user_id = 1;
  token_hash = "h-old";
  expires_at = 1000;
  created_at = 0;
  replaced_by = none;
  replaced_at = none;
}

abbrev start : Sessions
start = record { tokens = row ∷ []; revoked = [] }

-- The hash of a token is "h-" and the token.
abbrev world : World
world = record {
  now = 100;
  db = λ call. none;
  revocation_up = true;
  decode_ignoring_expiry = λ token. some claims;
  encode = λ c. ok "jwt";
  verify_token_hash = λ raw hash. str_eq raw "old" && str_eq hash "h-old";
  hash_token = λ raw. ok "h-new";
  new_refresh_token = "new";
  new_token_id = 6;
  new_jti = 51;
}

abbrev later : World
later = record world { now = 140; new_token_id = 7 }

abbrev too_late : World
too_late = record world { now = 2000 }

abbrev refreshed : Sessions
refreshed = record {
  tokens = mark_replaced 5 6 100 (row ∷ new_row world 1 14 "h-new" ∷ []);
  revoked = (50, 20) ∷ [];
}

world_refreshes :
    refresh_access_token world "jwt" "old" 900 14 start ≡ (ok ("jwt", "new"), refreshed)
unfolding refresh_access_token match_token finish revoke_old revoke_token create_access_token
    new_row replace
world_refreshes = refl

fresh : IsFresh world "jwt" "old" 900 14 start claims row
fresh = record { decoded = refl; matched = refl; live = omega arith; not_replaced = refl }

match_token-first_example :
    (match_token world "old" (row ∷ []) (row ∷ [])).0 ≡ first (is_live world "old") (row ∷ [])
match_token-first_example = match_token-first world "old" (row ∷ []) (row ∷ [])

refresh_replay_ends_sessions_example :
    (refresh_access_token later "jwt" "old" 900 14 refreshed
      ≡ (err reuse_detected, record refreshed { tokens = delete_user 1 refreshed.tokens }))
    × (of_user 1 (delete_user 1 refreshed.tokens) ≡ [])
refresh_replay_ends_sessions_example =
    refresh_replay_ends_sessions world later "jwt" "jwt" "old" 900 14 start refreshed claims claims
      row ("jwt", "new") fresh world_refreshes refl refl refl (omega arith) (omega arith)
      (λ c. refl)

refresh_expired_keeps_rows_example :
    refresh_access_token too_late "jwt" "old" 900 14 start
    ≡ (err invalid_or_expired_refresh_token, start)
refresh_expired_keeps_rows_example =
    refresh_expired_keeps_rows too_late "jwt" "old" 900 14 start claims refl refl refl refl

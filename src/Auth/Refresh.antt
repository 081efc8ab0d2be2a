-- ===== src/Auth/Refresh.antt =====
-- `AuthService::refresh_access_token` and the calls beside it (src/api/src/auth/service.rs). The
-- transaction works on a copy of the table: only a commit puts it in place.
pub mod Match
pub mod Rotation
pub mod Replay
use arsivinyo_memegy_backend.Base.{
  ℕ, ◌+◌, ◌-◌, ◌*◌, String, Bool, true, false, ◌&&◌, not, List, [], ◌∷◌, ◌++◌, Option, none, some,
  Result, ok, err, ltb, if◌then◌else◌, is_some,
}
use arsivinyo_memegy_backend.Auth.Store.{
  RefreshToken, Claims, DbCall, begin, find, delete_all, insert, update, commit, delete_expired,
  World, Sessions, delete_by_id, of_user, delete_user, replace, mark_replaced, create_access_token,
  revoke_token,
}

pub data RefreshAccessTokenError : Type 0 where
  invalid_access_token invalid_or_expired_refresh_token reuse_detected : RefreshAccessTokenError
  internal : String → RefreshAccessTokenError

abbrev pub TokenPair : Type 0
TokenPair = String × String

abbrev pub Answer : Type 0
Answer = Result RefreshAccessTokenError TokenPair × Sessions

-- The loop over the user's rows: an expired match is deleted, a failed deletion ignored, and the
-- first other match is taken.
unfoldable pub match_token :
    World → String → List RefreshToken → List RefreshToken → Option RefreshToken × List RefreshToken
match_token w raw [] tokens = (none, tokens)
match_token w raw (t ∷ rows) tokens =
    let skip = match_token w raw rows tokens in
    let cleaned =
      match_token w raw rows
        (if is_some (w.db (delete_expired t.id)) then tokens else delete_by_id t.id tokens) in
    if w.verify_token_hash raw t.token_hash
    then if ltb t.expires_at w.now then cleaned else (some t, tokens)
    else skip

-- A replaced token is in its grace period for thirty seconds.
unfoldable pub in_grace : World → ℕ → Bool
in_grace w replaced_at = ltb (w.now - replaced_at) 30

-- Reuse after the grace period: every token of the user goes, and that is committed.
unfoldable pub revoke_all : World → ℕ → List RefreshToken → Sessions → Answer
revoke_all w user tokens s = elim (w.db delete_all) [
  | some e ↦ (err (internal e), s)
  | none ↦ elim (w.db commit) [
    | some e ↦ (err (internal e), s)
    | none ↦ (err reuse_detected, record s { tokens = delete_user user tokens })
  ]
]

-- Step 5: the old access token is revoked for the rest of its life.
unfoldable pub revoke_old : World → Claims → Sessions → Sessions
revoke_old w claims s =
    if ltb 0 (claims.exp - w.now) then revoke_token w claims.jti (claims.exp - w.now) s else s

unfoldable pub new_row : World → ℕ → ℕ → String → RefreshToken
new_row w user ttl_days hash = record {
  id = w.new_token_id;
  user_id = user;
  token_hash = hash;
  expires_at = w.now + ttl_days * 86400;
  created_at = w.now;
  replaced_by = none;
  replaced_at = none;
}

-- Step 8: the old row is marked, unless it was replaced before.
unfoldable pub mark_old : World → RefreshToken → List RefreshToken → List RefreshToken
mark_old w old tokens = elim old.replaced_by [
  | some id ↦ tokens
  | none ↦ mark_replaced old.id w.new_token_id w.now tokens
]

unfoldable pub commit_tokens : World → TokenPair → List RefreshToken → Sessions → Answer
commit_tokens w pair tokens s = elim (w.db commit) [
  | some e ↦ (err (internal e), s)
  | none ↦ (ok pair, record s { tokens = tokens })
]

unfoldable pub finish : World → RefreshToken → TokenPair → List RefreshToken → Sessions → Answer
unfolding mark_old commit_tokens
finish w old pair tokens s =
    let committed = commit_tokens w pair (mark_old w old tokens) s in
    elim old.replaced_by [
      | some id ↦ committed
      | none ↦ elim (w.db update) [ some e ↦ (err (internal e), s) | none ↦ committed ]
    ]

-- Steps 6 and 7: the new pair, and the row of the new refresh token.
unfoldable pub issue : World → ℕ → ℕ → ℕ → RefreshToken → List RefreshToken → Sessions → Answer
unfolding finish
issue w user access_ttl refresh_ttl old tokens s = elim (create_access_token w user access_ttl) [
  | err e ↦ (err (internal e), s)
  | ok access ↦ elim (w.hash_token w.new_refresh_token) [
    | err e ↦ (err (internal e), s)
    | ok hash ↦ elim (w.db insert) [
      | some e ↦ (err (internal e), s)
      | none ↦
          finish w old (access, w.new_refresh_token)
            (tokens ++ new_row w user refresh_ttl hash ∷ []) s
    ]
  ]
]

-- Step 4: a replaced token forks its chain in the grace period, and ends all sessions after it.
unfoldable pub rotate :
    World → Claims → ℕ → ℕ → RefreshToken → List RefreshToken → Sessions → Answer
unfolding revoke_all issue
rotate w claims access_ttl refresh_ttl old tokens s =
    let go = issue w claims.sub access_ttl refresh_ttl old tokens (revoke_old w claims s) in
    elim old.replaced_at [
      | none ↦ go
      | some at ↦ if in_grace w at then go else revoke_all w claims.sub tokens s
    ]

unfoldable pub use_match :
    World → Claims → ℕ → ℕ → Option RefreshToken × List RefreshToken → Sessions → Answer
unfolding rotate
use_match w claims access_ttl refresh_ttl (none, tokens) s =
    (err invalid_or_expired_refresh_token, s)
use_match w claims access_ttl refresh_ttl (some old, tokens) s =
    rotate w claims access_ttl refresh_ttl old tokens s

unfoldable pub refresh_access_token : World → String → String → ℕ → ℕ → Sessions → Answer
unfolding use_match
refresh_access_token w old_access raw access_ttl refresh_ttl s =
    elim (w.decode_ignoring_expiry old_access) [
      | none ↦ (err invalid_access_token, s)
      | some claims ↦ elim (w.db begin) [
        | some e ↦ (err (internal e), s)
        | none ↦ elim (w.db find) [
          | some e ↦ (err (internal e), s)
          | none ↦
              use_match w claims access_ttl refresh_ttl
                (match_token w raw (of_user claims.sub s.tokens) s.tokens) s
        ]
      ]
    ]

-- `logout_all`: every refresh token of the user is deleted.
unfoldable pub logout_all : World → ℕ → Sessions → Result String (Unit {0}) × Sessions
logout_all w user s = elim (w.db delete_all) [
  | some e ↦ (err e, s)
  | none ↦ (ok tt, record s { tokens = delete_user user s.tokens })
]

-- `issue_tokens_for_user`, at a login.
unfoldable pub issue_tokens_for_user :
    World → ℕ → ℕ → ℕ → Sessions → Result String TokenPair × Sessions
issue_tokens_for_user w user access_ttl refresh_ttl s =
    elim (create_access_token w user access_ttl) [
      | err e ↦ (err e, s)
      | ok access ↦ elim (w.hash_token w.new_refresh_token) [
        | err e ↦ (err e, s)
        | ok hash ↦ elim (w.db insert) [
          | some e ↦ (err e, s)
          | none ↦ (
            ok (access, w.new_refresh_token),
            record s { tokens = s.tokens ++ new_row w user refresh_ttl hash ∷ [] },
          )
        ]
      ]
    ]

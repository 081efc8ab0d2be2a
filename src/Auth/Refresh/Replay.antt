-- ===== src/Auth/Refresh/Replay.antt =====
-- A refresh token that is used again after it was replaced.
use arsivinyo_memegy_backend.Base.{
  ℕ, ◌+◌, ◌≤◌, String, ◌≡◌, refl, sym, ap, ◌∙◌, subst, inl, inr, Bool, not, List, [], ◌∷◌, ◌++◌,
  map, Option, none, some, ok, err, ◌==◌, first, keep, option_map, arith, Bool-cases, if◌then◌else◌,
}
use arsivinyo_memegy_backend.Auth.Store.{
  RefreshToken, Claims, DbCall, World, Sessions, of_user, delete_user, replace, mark_replaced,
  begin, find, delete_all, commit,
}
use arsivinyo_memegy_backend.Auth.Refresh.{
  reuse_detected, invalid_or_expired_refresh_token, TokenPair, Answer, match_token, new_row,
  mark_old, refresh_access_token, in_grace,
}
use arsivinyo_memegy_backend.Auth.Refresh.Match.{is_live, match_token-first}
use arsivinyo_memegy_backend.Auth.Refresh.Rotation.{
  Refreshed, Issued, Uses, cleaned, refresh_access_token-Refreshed, use_match-none,
}

keep-keep-not :
    (p : RefreshToken → Bool) (rows : List RefreshToken) → keep p (keep (λ t. not (p t)) rows) ≡ []
keep-keep-not p [] = refl
keep-keep-not p (t ∷ rows) = ground (arith, keep-keep-not p rows)

first-append :
    (p : RefreshToken → Bool) (xs ys : List RefreshToken) (t : RefreshToken)
    → first p xs ≡ some t
    → first p (xs ++ ys) ≡ some t
first-append p [] ys t h = cc
first-append p (x ∷ xs) ys t h = ground (arith, first-append p xs ys t)

keep-append :
    (p : RefreshToken → Bool) (xs ys : List RefreshToken)
    → keep p (xs ++ ys) ≡ keep p xs ++ keep p ys
keep-append p [] ys = refl
keep-append p (x ∷ xs) ys = ground (arith, keep-append p xs ys)

module _ (p : RefreshToken → Bool) (f : RefreshToken → RefreshToken)
    (same : (t : RefreshToken) → p (f t) ≡ p t) where
  keep-map : (rows : List RefreshToken) → keep p (map f rows) ≡ map f (keep p rows)
  keep-map [] = refl
  keep-map (t ∷ rows) = ground (arith, same t, keep-map rows)

  first-map : (rows : List RefreshToken) → first p (map f rows) ≡ option_map f (first p rows)
  first-map [] = refl
  first-map (t ∷ rows) = ground (arith, same t, first-map rows)

-- The row is of this token, expired or not.
abbrev pub is_of : World → String → RefreshToken → Bool
is_of w raw t = w.verify_token_hash raw t.token_hash

match_token-hit :
    (w : World) (raw : String) (rows tokens : List RefreshToken) (old : RefreshToken)
    → first (is_of w raw) rows ≡ some old
    → w.now ≤ old.expires_at
    → match_token w raw rows tokens ≡ (some old, tokens)
unfolding match_token
match_token-hit w raw [] tokens old h k = cc
match_token-hit w raw (t ∷ rows) tokens old h k = elim (Bool-cases (is_of w raw t)) [
  | inl hit ↦ ground arith
  | inr miss ↦ ground (arith, match_token-hit w raw rows tokens old)
]

module _ (w : World) (old_access raw : String) (access ttl : ℕ) (s : Sessions) (claims : Claims)
    (old : RefreshToken) where
  -- The raw token is of one row of the token's user, which can still be rotated.
  pub record IsFresh : Type 0 where
    pub decoded : w.decode_ignoring_expiry old_access ≡ some claims
    pub matched : first (is_of w raw) (of_user claims.sub s.tokens) ≡ some old
    pub live : w.now ≤ old.expires_at
    pub not_replaced : old.replaced_by ≡ none

  -- The table after the rotation of the row.
  abbrev StoredAfter : Sessions → Type 0
  StoredAfter t =
      (hash : String) × (t.tokens
        ≡ mark_replaced old.id w.new_token_id w.now
            (s.tokens ++ new_row w claims.sub ttl hash ∷ []))

  mark_old_fresh :
      (tokens : List RefreshToken)
      → old.replaced_by ≡ none
      → mark_old w old tokens ≡ mark_replaced old.id w.new_token_id w.now tokens
  unfolding mark_old
  mark_old_fresh tokens e = ground arith

  Issued-StoredAfter :
      (c : Claims) (o : RefreshToken) (pair : TokenPair) (t : Sessions) (tokens : List RefreshToken)
      → IsFresh
      → c ≡ claims
      → o ≡ old
      → tokens ≡ s.tokens
      → Issued w c.sub ttl o tokens pair t
      → StoredAfter t
  Issued-StoredAfter c o pair t tokens fresh same it kept issued = (
    issued.hash,
    issued.stored
        ∙ cc (
          same,
          it,
          kept,
          mark_old_fresh (s.tokens ++ new_row w claims.sub ttl issued.hash ∷ []) fresh.not_replaced,
        ),
  )

  cleaned_fresh : IsFresh → cleaned w old_access raw access ttl s claims ≡ s.tokens
  cleaned_fresh fresh =
      ap (λ (m : Option RefreshToken × List RefreshToken). m.1)
        (match_token-hit w raw (of_user claims.sub s.tokens) s.tokens old fresh.matched fresh.live)

  live_fresh : IsFresh → first (is_live w raw) (of_user claims.sub s.tokens) ≡ some old
  live_fresh fresh =
      sym (match_token-first w raw (of_user claims.sub s.tokens) s.tokens)
      ∙ ap (λ (m : Option RefreshToken × List RefreshToken). m.0)
          (match_token-hit w raw (of_user claims.sub s.tokens) s.tokens old fresh.matched
            fresh.live)

  same_row :
      (c : Claims) (o : RefreshToken)
      → IsFresh
      → Uses w old_access raw access ttl s c o
      → (c ≡ claims) × (o ≡ old)
  same_row c o fresh uses =
      let same : c ≡ claims = cc (uses.decoded, fresh.decoded) in
      (same, cc (same, uses.matched, live_fresh fresh))

  Refreshed-StoredAfter :
      (pair : TokenPair) (t : Sessions)
      → IsFresh
      → Refreshed w old_access raw access ttl s (ok pair, t)
      → StoredAfter t
  Refreshed-StoredAfter pair t fresh (c, o, uses, usable, issued) =
      let it = same_row c o fresh uses in
      Issued-StoredAfter c o pair t _ fresh it.0 it.1
        (ap (cleaned w old_access raw access ttl s) it.0 ∙ cleaned_fresh fresh) issued

  stored_after :
      (pair : TokenPair) (t : Sessions)
      → IsFresh
      → refresh_access_token w old_access raw access ttl s ≡ (ok pair, t)
      → StoredAfter t
  stored_after pair t fresh done = Refreshed-StoredAfter pair t fresh (
      subst (Refreshed w old_access raw access ttl s) done
        (refresh_access_token-Refreshed w old_access raw access ttl s))

module _ (id new now : ℕ) where
  abbrev mark : RefreshToken → RefreshToken
  mark t = if t.id == id then replace new now t else t

  mark-of_user :
      (user : ℕ) (rows : List RefreshToken)
      → of_user user (map mark rows) ≡ map mark (of_user user rows)
  unfolding replace
  mark-of_user user rows = keep-map (λ t. t.user_id == user) mark (λ t. ground arith) rows

  mark-first :
      (w : World) (raw : String) (rows : List RefreshToken)
      → first (is_of w raw) (map mark rows) ≡ option_map mark (first (is_of w raw) rows)
  unfolding replace
  mark-first w raw rows = first-map (is_of w raw) mark (λ t. ground arith) rows

  -- The row of the token is found again, marked, behind which a new row stands.
  first-marked :
      (w : World) (raw : String) (user : ℕ) (rows : List RefreshToken) (row old : RefreshToken)
      → first (is_of w raw) (of_user user rows) ≡ some old
      → old.id ≡ id
      → first (is_of w raw) (of_user user (map mark (rows ++ row ∷ [])))
        ≡ some (replace new now old)
  first-marked w raw user rows row old h e =
      ap (first (is_of w raw)) (mark-of_user user (rows ++ row ∷ []))
      ∙ mark-first w raw (of_user user (rows ++ row ∷ []))
      ∙ ap (λ (l : List RefreshToken). option_map mark (first (is_of w raw) l))
          (keep-append (λ t. t.user_id == user) rows (row ∷ []))
      ∙ ap (option_map mark)
          (first-append (is_of w raw) (of_user user rows) (of_user user (row ∷ [])) old h)
      ∙ ground arith

reuse_detected_after :
    (w : World) (old_access raw : String) (access ttl : ℕ) (s : Sessions) (claims : Claims)
    (row : RefreshToken) (at : ℕ)
    → w.decode_ignoring_expiry old_access ≡ some claims
    → first (is_of w raw) (of_user claims.sub s.tokens) ≡ some row
    → w.now ≤ row.expires_at
    → row.replaced_at ≡ some at
    → at + 30 ≤ w.now
    → ((c : DbCall) → w.db c ≡ none)
    → refresh_access_token w old_access raw access ttl s
      ≡ (err reuse_detected, record s { tokens = delete_user claims.sub s.tokens })
unfolding refresh_access_token in_grace
reuse_detected_after w old_access raw access ttl s claims row at decoded matched live replaced late
      db =
    let hit = match_token-hit w raw (of_user claims.sub s.tokens) s.tokens row matched live in
    ground (arith, hit, db begin, db find, db delete_all, db commit)

-- A refresh token that was rotated and is presented again thirty seconds later or more, while its row
-- has not expired and the database answers, is reported as reused, and leaves no refresh token of the
-- user; the rows of other users stay as they are. The access token presented with it may be another
-- of the user's.
pub refresh_replay_ends_sessions :
    (w w' : World) (old_access later_access raw : String) (access ttl : ℕ) (s t : Sessions)
    (claims later : Claims) (old : RefreshToken) (pair : TokenPair)
    → IsFresh w old_access raw access ttl s claims old
    → refresh_access_token w old_access raw access ttl s ≡ (ok pair, t)
    → w'.decode_ignoring_expiry later_access ≡ some later
    → later.sub ≡ claims.sub
    → w'.verify_token_hash ≡ w.verify_token_hash
    → w.now + 30 ≤ w'.now
    → w'.now ≤ old.expires_at
    → ((c : DbCall) → w'.db c ≡ none)
    → (refresh_access_token w' later_access raw access ttl t
        ≡ (err reuse_detected, record t { tokens = delete_user claims.sub t.tokens }))
      × (of_user claims.sub (delete_user claims.sub t.tokens) ≡ [])
unfolding replace
refresh_replay_ends_sessions w w' old_access later_access raw access ttl s t claims later old pair
      fresh done decoded same hashes late live db =
    let (hash, stored) = stored_after w old_access raw access ttl s claims old pair t fresh done in
    let found =
      first-marked old.id w.new_token_id w.now w raw claims.sub s.tokens
        (new_row w claims.sub ttl hash) old fresh.matched refl in
    let matched : first (is_of w' raw) (of_user later.sub t.tokens)
        ≡ some (replace w.new_token_id w.now old) =
      ap
        (λ (v : String → String → Bool).
          first (λ r. v raw r.token_hash) (of_user later.sub t.tokens))
        hashes
      ∙ ap (λ (u : ℕ). first (is_of w raw) (of_user u t.tokens)) same
      ∙ ap (λ (l : List RefreshToken). first (is_of w raw) (of_user claims.sub l)) stored
      ∙ found in
    (
      reuse_detected_after w' later_access raw access ttl t later (replace w.new_token_id w.now old)
            w.now decoded matched live refl late db
          ∙ ap
              (λ (u : ℕ).
                let answer : Answer =
                  (err reuse_detected, record t { tokens = delete_user u t.tokens }) in
                answer)
              same,
      keep-keep-not (λ r. r.user_id == claims.sub) t.tokens,
    )

-- Where every row of the token has expired, the refresh fails and the table stays as it was: the
-- expired rows, which the search deletes, are there again after the transaction.
pub refresh_expired_keeps_rows :
    (w : World) (old_access raw : String) (access ttl : ℕ) (s : Sessions) (claims : Claims)
    → w.decode_ignoring_expiry old_access ≡ some claims
    → w.db begin ≡ none
    → w.db find ≡ none
    → first (is_live w raw) (of_user claims.sub s.tokens) ≡ none
    → refresh_access_token w old_access raw access ttl s ≡ (err invalid_or_expired_refresh_token, s)
unfolding refresh_access_token
refresh_expired_keeps_rows w old_access raw access ttl s claims decoded b f h = ground (
  arith,
  use_match-none w claims access ttl (match_token w raw (of_user claims.sub s.tokens) s.tokens) s
      (match_token-first w raw (of_user claims.sub s.tokens) s.tokens ∙ h),
)

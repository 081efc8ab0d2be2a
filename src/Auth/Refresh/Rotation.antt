-- ===== src/Auth/Refresh/Rotation.antt =====
-- What a refresh leaves in the table.
use arsivinyo_memegy_backend.Base.{
  ℕ, ◌-◌, ◌<◌, ◌≤◌, String, ◌≡◌, ◌≢◌, refl, sym, ◌∙◌, ◌⊎◌, inl, inr, List, [], ◌∷◌, ◌++◌, Option,
  none, some, ok, err, ltb, first, arith, Option-cases, Result-cases, Bool-cases,
}
use arsivinyo_memegy_backend.Auth.Store.{
  RefreshToken, Claims, World, Sessions, of_user, delete_user, revoke_token, update, insert, commit,
  begin, find, delete_all, create_access_token,
}
use arsivinyo_memegy_backend.Auth.Refresh.{
  RefreshAccessTokenError, invalid_access_token, invalid_or_expired_refresh_token, reuse_detected,
  internal, TokenPair, Answer, match_token, in_grace, revoke_all, revoke_old, new_row, mark_old,
  finish, issue, rotate, use_match, refresh_access_token,
}
use arsivinyo_memegy_backend.Auth.Refresh.Match.{is_live, match_token-first}

-- A new pair was issued: its row is added, and the old row marked if it was not replaced before.
pub record Issued (w : World) (user ttl : ℕ) (old : RefreshToken) (tokens : List RefreshToken)
    (pair : TokenPair) (s : Sessions) : Type 0 where
  pub hash : String
  pub hashed : w.hash_token w.new_refresh_token ≡ ok hash
  pub handed_out : pair.1 ≡ w.new_refresh_token
  pub stored : s.tokens ≡ mark_old w old (tokens ++ new_row w user ttl hash ∷ [])

finish_cases :
    (w : World) (old : RefreshToken) (pair : TokenPair) (tokens : List RefreshToken) (s : Sessions)
    → (finish w old pair tokens s ≡ (ok pair, record s { tokens = mark_old w old tokens }))
      ⊎ ((e : String) × (finish w old pair tokens s ≡ (err (internal e), s)))
unfolding finish
finish_cases w old pair tokens s = elim (Option-cases (w.db update)) [
  | inl a ↦ elim (Option-cases (w.db commit)) [
    | inl b ↦ inl (ground arith)
    | inr (e, b) ↦ inr (e, ground arith)
  ]
  | inr (e', a) ↦ elim (Option-cases (w.db commit)) [
    | inl b ↦ elim (Option-cases old.replaced_by) [
      | inl c ↦ inr (e', ground arith)
      | inr (i, c) ↦ inl (ground arith)
    ]
    | inr (e, b) ↦ elim (Option-cases old.replaced_by) [
      | inl c ↦ inr (e', ground arith)
      | inr (i, c) ↦ inr (e, ground arith)
    ]
  ]
]

issue_cases :
    (w : World) (user access ttl : ℕ) (old : RefreshToken) (tokens : List RefreshToken)
    (s : Sessions)
    → ((pair : TokenPair) × (t : Sessions) × (issue w user access ttl old tokens s ≡ (ok pair, t))
        × Issued w user ttl old tokens pair t)
      ⊎ ((e : String) × (issue w user access ttl old tokens s ≡ (err (internal e), s)))
unfolding issue
issue_cases w user access ttl old tokens s =
    elim (Result-cases (create_access_token w user access)) [
      | inr (e, a) ↦ inr (e, ground arith)
      | inl (token, a) ↦ elim (Result-cases (w.hash_token w.new_refresh_token)) [
        | inr (e, b) ↦ inr (e, ground arith)
        | inl (hash, b) ↦ elim (Option-cases (w.db insert)) [
          | inr (e, c) ↦ inr (e, ground arith)
          | inl c ↦
              elim (finish_cases w old (token, w.new_refresh_token)
                (tokens ++ new_row w user ttl hash ∷ []) s) [
                  | inr (e, d) ↦ inr (e, ground arith)
                  | inl d ↦ inl (
                    (token, w.new_refresh_token),
                    record s { tokens = mark_old w old (tokens ++ new_row w user ttl hash ∷ []) },
                    ground arith,
                    record { hash = hash; hashed = b; handed_out = refl; stored = refl },
                  )
                ]
        ]
      ]
    ]

tokens-revoke_old :
    (w : World) (claims : Claims) (s : Sessions) → (revoke_old w claims s).tokens ≡ s.tokens
unfolding revoke_old revoke_token
tokens-revoke_old w claims s = ground arith

-- A token can be used while it was not replaced, or was replaced less than thirty seconds ago.
abbrev pub IsUsable : World → RefreshToken → Type 0
IsUsable w old =
    (old.replaced_at ≡ none) ⊎ ((at : ℕ) × (old.replaced_at ≡ some at) × (w.now - at < 30))

-- A token is reused once it was replaced thirty seconds ago or more.
abbrev pub IsReused : World → RefreshToken → Type 0
IsReused w old = (at : ℕ) × (old.replaced_at ≡ some at) × (30 ≤ w.now - at)

revoke_all_cases :
    (w : World) (user : ℕ) (tokens : List RefreshToken) (s : Sessions)
    → (revoke_all w user tokens s
        ≡ (err reuse_detected, record s { tokens = delete_user user tokens }))
      ⊎ ((e : String) × (revoke_all w user tokens s ≡ (err (internal e), s)))
unfolding revoke_all
revoke_all_cases w user tokens s = elim (Option-cases (w.db delete_all)) [
  | inr (e, a) ↦ inr (e, ground arith)
  | inl a ↦ elim (Option-cases (w.db commit)) [
    | inr (e, b) ↦ inr (e, ground arith)
    | inl b ↦ inl (ground arith)
  ]
]

rotate_cases :
    (w : World) (claims : Claims) (access ttl : ℕ) (old : RefreshToken) (tokens : List RefreshToken)
    (s : Sessions)
    → (IsUsable w old
        × (rotate w claims access ttl old tokens s
            ≡ issue w claims.sub access ttl old tokens (revoke_old w claims s)))
      ⊎ (IsReused w old
          × (rotate w claims access ttl old tokens s ≡ revoke_all w claims.sub tokens s))
unfolding rotate in_grace
rotate_cases w claims access ttl old tokens s = elim (Option-cases old.replaced_at) [
  | inl e ↦ inl (inl e, ground arith)
  | inr (at, e) ↦ elim (Bool-cases (ltb (w.now - at) 30)) [
    | inl early ↦ inl (inr (at, e, ground arith), ground arith)
    | inr late ↦ inr ((at, e, ground arith), ground arith)
  ]
]

pub use_match-none :
    (w : World) (claims : Claims) (access ttl : ℕ) (m : Option RefreshToken × List RefreshToken)
    (s : Sessions)
    → m.0 ≡ none
    → use_match w claims access ttl m s ≡ (err invalid_or_expired_refresh_token, s)
unfolding use_match
use_match-none w claims access ttl (none, tokens) s e = refl
use_match-none w claims access ttl (some t, tokens) s e = cc

use_match-some :
    (w : World) (claims : Claims) (access ttl : ℕ) (m : Option RefreshToken × List RefreshToken)
    (s : Sessions) (old : RefreshToken)
    → m.0 ≡ some old
    → use_match w claims access ttl m s ≡ rotate w claims access ttl old m.1 s
unfolding use_match
use_match-some w claims access ttl (none, tokens) s old e = cc
use_match-some w claims access ttl (some t, tokens) s old e = cc

refresh_cases :
    (w : World) (old_access raw : String) (access ttl : ℕ) (s : Sessions)
    → ((e : RefreshAccessTokenError) × (e ≢ reuse_detected)
        × (refresh_access_token w old_access raw access ttl s ≡ (err e, s)))
      ⊎ ((claims : Claims) × (w.decode_ignoring_expiry old_access ≡ some claims)
          × (refresh_access_token w old_access raw access ttl s
              ≡ use_match w claims access ttl
                  (match_token w raw (of_user claims.sub s.tokens) s.tokens)
                  s))
unfolding refresh_access_token
refresh_cases w old_access raw access ttl s =
    elim (Option-cases (w.decode_ignoring_expiry old_access)) [
      | inl a ↦ inl (invalid_access_token, (λ h. cc), ground arith)
      | inr (claims, a) ↦ elim (Option-cases (w.db begin)) [
        | inr (e, b) ↦ inl (internal e, (λ h. cc), ground arith)
        | inl b ↦ elim (Option-cases (w.db find)) [
          | inr (e, c) ↦ inl (internal e, (λ h. cc), ground arith)
          | inl c ↦ inr (claims, a, ground arith)
        ]
      ]
    ]

module _ (w : World) (old_access raw : String) (access_ttl ttl : ℕ) (s : Sessions) where
  -- The row that a refresh uses: the first live one of its token among the user's.
  pub record Uses (claims : Claims) (old : RefreshToken) : Type 0 where
    pub decoded : w.decode_ignoring_expiry old_access ≡ some claims
    pub matched : first (is_live w raw) (of_user claims.sub s.tokens) ≡ some old

  -- The user's rows after the expired ones of the token were deleted.
  abbrev pub cleaned : Claims → List RefreshToken
  cleaned claims = (match_token w raw (of_user claims.sub s.tokens) s.tokens).1

  abbrev pub Refreshed : Answer → Type 0
  Refreshed (ok pair, t) =
      (claims : Claims) × (old : RefreshToken) × Uses claims old
      × IsUsable w old
      × Issued w claims.sub ttl old (cleaned claims) pair t
  Refreshed (err e, t) =
      ((e ≢ reuse_detected) × (t.tokens ≡ s.tokens))
      ⊎ ((e ≡ reuse_detected)
          × ((claims : Claims) × (old : RefreshToken) × Uses claims old
              × IsReused w old
              × (t.tokens ≡ delete_user claims.sub (cleaned claims))))

  issue-Refreshed :
      (claims : Claims) (old : RefreshToken)
      → Uses claims old
      → IsUsable w old
      → Refreshed (issue w claims.sub access_ttl ttl old (cleaned claims) (revoke_old w claims s))
  issue-Refreshed claims old uses usable =
      elim (issue_cases w claims.sub access_ttl ttl old (cleaned claims) (revoke_old w claims s)) [
        | inl (pair, t, e, issued) ↦ rw e (claims, old, uses, usable, issued)
        | inr (m, e) ↦ rw e (inl (λ h. cc, tokens-revoke_old w claims s))
      ]

  revoke_all-Refreshed :
      (claims : Claims) (old : RefreshToken)
      → Uses claims old
      → IsReused w old
      → Refreshed (revoke_all w claims.sub (cleaned claims) s)
  revoke_all-Refreshed claims old uses reused =
      elim (revoke_all_cases w claims.sub (cleaned claims) s) [
        | inl e ↦ rw e (inr (refl, (claims, old, uses, reused, refl)))
        | inr (m, e) ↦ rw e (inl (λ h. cc, refl))
      ]

  rotate-Refreshed :
      (claims : Claims) (old : RefreshToken)
      → Uses claims old
      → Refreshed (rotate w claims access_ttl ttl old (cleaned claims) s)
  rotate-Refreshed claims old uses =
      elim (rotate_cases w claims access_ttl ttl old (cleaned claims) s) [
        | inl (usable, e) ↦ rw e (issue-Refreshed claims old uses usable)
        | inr (reused, e) ↦ rw e (revoke_all-Refreshed claims old uses reused)
      ]

  use_match-Refreshed :
      (claims : Claims)
      → w.decode_ignoring_expiry old_access ≡ some claims
      → Refreshed (
          use_match w claims access_ttl ttl
            (match_token w raw (of_user claims.sub s.tokens) s.tokens)
            s)
  use_match-Refreshed claims decoded =
      let m = match_token w raw (of_user claims.sub s.tokens) s.tokens in
      let found = match_token-first w raw (of_user claims.sub s.tokens) s.tokens in
      elim (Option-cases m.0) [
        | inl e ↦ rw (use_match-none w claims access_ttl ttl m s e) (inl (λ h. cc, refl))
        | inr (old, e) ↦
            rw (use_match-some w claims access_ttl ttl m s old e)
              (rotate-Refreshed claims old (record { decoded = decoded; matched = sym found ∙ e }))
      ]

  pub refresh_access_token-Refreshed :
      Refreshed (refresh_access_token w old_access raw access_ttl ttl s)
  refresh_access_token-Refreshed = elim (refresh_cases w old_access raw access_ttl ttl s) [
    | inl (e, n, p) ↦ rw p (inl (n, refl))
    | inr (claims, decoded, p) ↦ rw p (use_match-Refreshed claims decoded)
  ]

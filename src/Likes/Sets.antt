-- ===== src/Likes/Sets.antt =====
-- The likes as a set of users and videos, which the actions on likes implement
-- (src/api/src/videos/handlers.rs).
use arsivinyo_memegy_backend.Base.{
  ℕ, ◌+◌, ◌-◌, ◌≡◌, refl, sym, ap, ◌∙◌, inl, inr, Bool, true, false, not, ◌&&◌, List, [], ◌∷◌,
  Result, ok, err, keep, ◌==◌, ==_refl, if◌then◌else◌, arith,
}
use arsivinyo_memegy_backend.Api.{ApiError}
use arsivinyo_memegy_backend.Likes.{
  Tables, State, LikeVideoResponse, is_like, has_like, insert_like_if_missing, delete_like,
  with_likes,
}
use arsivinyo_memegy_backend.Likes.Counted.{
  IsCounted, likes_of, has_like-rows_of, insert-IsCounted, delete-IsCounted, Action, set, unset,
  act, Ended, set_like_video-Ended, unset_like_video-Ended,
}

-- Which user likes which video.
abbrev pub LikeSet : Type 0
LikeSet = ℕ → ℕ → Bool

abbrev pub view : Tables → LikeSet
view t user id = has_like user id t.likes

-- What an action that succeeds does to the set, and which like it is about.
abbrev pub spec_act : Action → LikeSet → LikeSet
spec_act (set w config user id) likes u k = if user == u && id == k then true else likes u k
spec_act (unset w config user id) likes u k = if user == u && id == k then false else likes u k

abbrev pub actor : Action → ℕ
actor (set w config user id) = user
actor (unset w config user id) = user

abbrev pub target : Action → ℕ
target (set w config user id) = id
target (unset w config user id) = id

-- A reply is about the set after the action; an error leaves the set alone.
abbrev pub Refines : Action → State → Result ApiError LikeVideoResponse × State → Type 0
Refines a s (err e, s') = (u k : ℕ) → view s'.tables u k ≡ view s.tables u k
Refines a s (ok r, s') =
    ((u k : ℕ) → view s'.tables u k ≡ spec_act a (view s.tables) u k)
    × (r.is_liked ≡ view s'.tables (actor a) (target a))
    × (r.like_count ≡ likes_of (target a) s'.tables.likes)

has_like-cons :
    (user id u k : ℕ) (ps : List (ℕ × ℕ))
    → has_like u k ((user, id) ∷ ps) ≡ (if user == u && id == k then true else has_like u k ps)
unfolding has_like
has_like-cons user id u k ps = ground arith

has_like-again :
    (user id u k : ℕ) (ps : List (ℕ × ℕ))
    → has_like user id ps ≡ true
    → has_like u k ps ≡ (if user == u && id == k then true else has_like u k ps)
has_like-again user id u k ps has = ground (arith, has)

has_like-insert :
    (user id u k : ℕ) (t : Tables)
    → view (with_likes (λ n. n + 1) id (insert_like_if_missing user id t.likes) t) u k
      ≡ (if user == u && id == k then true else view t u k)
unfolding insert_like_if_missing
has_like-insert user id u k t = elim (has_like-rows_of user id t.likes) [
  | inl (has, _) ↦ rw has (has_like-again user id u k t.likes has)
  | inr (lacks, _) ↦ rw lacks (has_like-cons user id u k t.likes)
]

has_like-keep :
    (user id u k : ℕ) (ps : List (ℕ × ℕ))
    → has_like u k (keep (λ p. not (is_like user id p)) ps)
      ≡ (if user == u && id == k then false else has_like u k ps)
unfolding has_like
has_like-keep user id u k [] = ground arith
has_like-keep user id u k (p ∷ ps) = ground (arith, has_like-keep user id u k ps)

has_like-delete :
    (user id u k : ℕ) (t : Tables)
    → view (with_likes (λ n. n - 1) id (delete_like user id t.likes) t) u k
      ≡ (if user == u && id == k then false else view t u k)
unfolding delete_like
has_like-delete user id u k t = elim (has_like-rows_of user id t.likes) [
  | inl (has, _) ↦ rw has (has_like-keep user id u k t.likes)
  | inr (lacks, _) ↦ rw lacks (has_like-keep user id u k t.likes)
]

module _ (a : Action) (s : State) (t' : Tables) (h : IsCounted t')
    (same : (u k : ℕ) → view t' u k ≡ spec_act a (view s.tables) u k) (b : Bool)
    (own : spec_act a (view s.tables) (actor a) (target a) ≡ b) where
  Ended-Refines :
      (r : Result ApiError LikeVideoResponse × State)
      → Ended s.tables t' (target a) b r
      → Refines a s r
  Ended-Refines (err e, s') kept = λ u k. ap (λ t. view t u k) kept
  Ended-Refines (ok r, s') (done, said, (v, found, n)) = (
    λ u k. ap (λ t. view t u k) done ∙ same u k,
    said
        ∙ sym own
        ∙ sym (same (actor a) (target a))
        ∙ sym (ap (λ t. view t (actor a) (target a)) done),
    n ∙ h.counted (target a) v found ∙ sym (ap (λ t. likes_of (target a) t.likes) done),
  )

-- On tables whose counts are right, an action that succeeds changes the set of likes at its own user and
-- video and nowhere else; it answers whether the user now likes the video,
-- and how many likes the video has. An action that fails leaves the set as it was.
pub act-Refines : (a : Action) (s : State) → IsCounted s.tables → Refines a s (act a s)
act-Refines (set w config user id) s h =
    Ended-Refines (set w config user id) s _ (insert-IsCounted user id s.tables h)
      (λ u k. has_like-insert user id u k s.tables) true (rw (==_refl user) (rw (==_refl id) refl))
      _ (set_like_video-Ended w config user id s)
act-Refines (unset w config user id) s h =
    Ended-Refines (unset w config user id) s _ (delete-IsCounted user id s.tables h)
      (λ u k. has_like-delete user id u k s.tables) false (rw (==_refl user) (rw (==_refl id) refl))
      _ (unset_like_video-Ended w config user id s)

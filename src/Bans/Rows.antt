-- ===== src/Bans/Rows.antt =====
-- The queries `filter … order_by_desc(created_at) … one` and `update` on rows with an id
-- (src/api/src/services/ban_service.rs).
use arsivinyo_memegy_backend.Base.{
  ℕ, ◌≤◌, ◌≡◌, refl, ap, Bool, true, false, not, ◌||◌, List, [], ◌∷◌, ◌++◌, Option, none, some, leb,
  any, keep, map, ◌==◌, ==_refl, if◌then◌else◌, arith, length, Bool-cases, ◌⊎◌, inl, inr,
}

module _ {ℓ} {A : Type ℓ} where
  -- The later of a row and the latest of the rows after it.
  abbrev later : (A → ℕ) → A → Option A → A
  later created r none = r
  later created r (some x) = if leb (created x) (created r) then r else x

  unfoldable pub latest : (A → ℕ) → List A → Option A
  latest created [] = none
  latest created (r ∷ rs) = some (later created r (latest created rs))

  -- The row with the id of `r` is replaced by `r`.
  abbrev pub put : (A → ℕ) → A → List A → List A
  put id r = map λ x. if id x == id r then r else x

  later-cases :
      (created : A → ℕ) (r : A) (o : Option A)
      → (later created r o ≡ r) ⊎ (o ≡ some (later created r o))
  later-cases created r none = inl refl
  later-cases created r (some x) = elim (Bool-cases (leb (created x) (created r))) [
    | inl e ↦ inl (rw e refl)
    | inr e ↦ inr (rw e refl)
  ]

  -- The latest row is one of the rows.
  pub latest-any :
      (created : A → ℕ) (q : A → Bool) (rs : List A) (r : A)
      → latest created rs ≡ some r
      → q r ≡ true
      → any q rs ≡ true
  unfolding latest
  latest-any created q [] r e h = cc
  latest-any created q (x ∷ xs) r e h = elim (later-cases created x (latest created xs)) [
    | inl here ↦ let same : x ≡ r = cc (e, here) in rw same (rw h refl)
    | inr there ↦
        let found : latest created xs ≡ some r = cc (e, there) in
        let rest = latest-any created q xs r found h in ground (arith, rest)
  ]

  pub latest-none : (created : A → ℕ) (rs : List A) → latest created rs ≡ none → rs ≡ []
  unfolding latest
  latest-none created [] e = refl
  latest-none created (x ∷ xs) e = cc

  -- A row that passes the test is found.
  pub latest-some :
      (created : A → ℕ) (p : A → Bool) (rs : List A)
      → any p rs ≡ true
      → (r : A) × (latest created (keep p rs) ≡ some r)
  unfolding latest
  latest-some created p [] h = cc
  latest-some created p (x ∷ xs) h = elim (Bool-cases (p x)) [
    | inl e ↦ rw e (later created x (latest created (keep p xs)), refl)
    | inr e ↦ rw e (latest-some created p xs (ground (arith, e)))
  ]

  pub latest-nothing :
      (created : A → ℕ) (p : A → Bool) (rs : List A)
      → any p rs ≡ false
      → latest created (keep p rs) ≡ none
  unfolding latest
  latest-nothing created p [] h = refl
  latest-nothing created p (x ∷ xs) h = elim (Bool-cases (p x)) [
    | inl e ↦ ground arith
    | inr e ↦ rw e (latest-nothing created p xs (ground (arith, e)))
  ]

  pub any-keep : (p q : A → Bool) (rs : List A) → any q (keep p rs) ≡ true → any q rs ≡ true
  any-keep p q [] h = h
  any-keep p q (x ∷ xs) h = elim (Bool-cases (p x)) [
    | inl e ↦ ground (arith, any-keep p q xs)
    | inr e ↦ ground (arith, any-keep p q xs)
  ]

  -- Once written, a row is found by whatever it passes.
  pub any-put :
      (id : A → ℕ) (r : A) (p : A → Bool) (rs : List A)
      → any (λ x. id x == id r) rs ≡ true
      → p r ≡ true
      → any p (put id r rs) ≡ true
  any-put id r p [] e h = cc
  any-put id r p (x ∷ xs) e h = elim (Bool-cases (id x == id r)) [
    | inl same ↦ rw same (rw h refl)
    | inr other ↦ let rest = any-put id r p xs (ground (arith, other)) h in ground (arith, rest)
  ]

  pub any-append-new :
      (p : A → Bool) (r : A) (rs : List A) → p r ≡ true → any p (rs ++ r ∷ []) ≡ true
  any-append-new p r [] h = rw h refl
  any-append-new p r (x ∷ xs) h = let rest = any-append-new p r xs h in ground (arith, rest)

  none_fails : (p : A → Bool) (rs : List A) → any (λ x. not (p x)) (keep p rs) ≡ false
  none_fails p [] = refl
  none_fails p (x ∷ xs) = elim (Bool-cases (p x)) [
    | inl e ↦ let rest = none_fails p xs in ground (arith, e)
    | inr e ↦ rw e (none_fails p xs)
  ]

  -- The latest of the rows that pass a test passes it.
  pub latest-keep :
      (created : A → ℕ) (p : A → Bool) (rs : List A) (r : A)
      → latest created (keep p rs) ≡ some r
      → p r ≡ true
  latest-keep created p rs r e = elim (Bool-cases (p r)) [
    | inl good ↦ good
    | inr bad ↦
        let found = latest-any created (λ x. not (p x)) (keep p rs) r e (ground (arith, bad)) in
        let gone = none_fails p rs in cc (found, gone)
  ]

  one-latest :
      (created : A → ℕ) (rs : List A) (r : A)
      → length rs ≤ 1
      → latest created rs ≡ some r
      → rs ≡ r ∷ []
  unfolding latest
  one-latest created [] r h e = cc
  one-latest created (x ∷ []) r h e = let same : x ≡ r = cc in ap (λ y. y ∷ []) same
  one-latest created (x ∷ y ∷ ys) r h e = ground arith

  any-none : (p : A → Bool) (rs : List A) → keep p rs ≡ [] → any p rs ≡ false
  any-none p [] e = refl
  any-none p (x ∷ xs) e = elim (Bool-cases (p x)) [
    | inl good ↦ let clash : x ∷ keep p xs ≡ [] = ground (arith, e, good) in cc clash
    | inr bad ↦ let rest : keep p xs ≡ [] = ground (arith, e, bad) in rw bad (any-none p xs rest)
  ]

  any-put-closed :
      (id : A → ℕ) (r : A) (p : A → Bool) (rs : List A)
      → p r ≡ false
      → any (λ x. not (id x == id r)) (keep p rs) ≡ false
      → any p (put id r rs) ≡ false
  any-put-closed id r p [] h e = refl
  any-put-closed id r p (x ∷ xs) h e = elim (Bool-cases (p x)) [
    | inr bad ↦
        let rest = any-put-closed id r p xs h (ground (arith, e, bad)) in
        ground (arith, h, bad, rest)
    | inl good ↦
        let e' : not (id x == id r) || any (λ y. not (id y == id r)) (keep p xs) ≡ false =
          ground (arith, e, good) in
        let rest = any-put-closed id r p xs h (ground (arith, e')) in
        ground (arith, h, good, rest, e')
  ]

  -- Closing the one row that passes the test leaves none that passes it.
  pub any-close :
      (created id : A → ℕ) (r r' : A) (p : A → Bool) (rs : List A)
      → length (keep p rs) ≤ 1
      → latest created (keep p rs) ≡ some r
      → id r' ≡ id r
      → p r' ≡ false
      → any p (put id r' rs) ≡ false
  any-close created id r r' p rs h e same closed =
      any-put-closed id r' p rs closed
        (rw (one-latest created (keep p rs) r h e) (rw same (rw (==_refl (id r)) refl)))

  pub any-nothing :
      (created : A → ℕ) (p : A → Bool) (rs : List A)
      → latest created (keep p rs) ≡ none
      → any p rs ≡ false
  any-nothing created p rs e = any-none p rs (latest-none created (keep p rs) e)

  pub any-weaken :
      (p q : A → Bool) (rs : List A)
      → ((x : A) → p x ≡ false → q x ≡ false)
      → any p rs ≡ false
      → any q rs ≡ false
  any-weaken p q [] h e = refl
  any-weaken p q (x ∷ xs) h e =
      let here = h x (ground arith) in
      let rest = any-weaken p q xs h (ground arith) in ground (arith, here, rest)

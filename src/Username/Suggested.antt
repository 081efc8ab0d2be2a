-- ===== src/Username/Suggested.antt =====
-- What a suggested username is (src/api/src/users/username.rs: suggest_username_from_google_name).
use arsivinyo_memegy_backend.Base.{
  ℕ, suc, ◌≤◌, ◌≡◌, refl, subst, ◌⊎◌, inl, inr, Bool, true, false, not, ◌&&◌, ◌||◌, List, [], ◌∷◌,
  ◌++◌, Result, ok, err, ◌==◌, ==_refl, leb, ltb, all, length, is_empty, if◌then◌else◌, arith,
  Bool-cases, length-append, codes,
}
use arsivinyo_memegy_backend.Username.{
  ValidatedUsername, UsernameValidationError, invalid_whitespace, invalid_length,
  invalid_characters, reserved, is_alphanumeric, lower, is_username_char, text_eq,
  is_reserved_username_variant, collect_reserved_usernames, byte_length, to_lowercase,
  validate_username, push_char, suggest_loop, drop_leading, drop_trailing, or_padded,
  suggest_username_from_google_name,
}
use arsivinyo_memegy_backend.Username.Accepted.{bytes_same, lowercase_same}

-- A text of the allowed characters, of 20 at most.
record Fits (s : List ℕ) : Type 0 where
  characters : all is_username_char s ≡ true
  most : length s ≤ 20

all-append :
    (s t : List ℕ)
    → all is_username_char s ≡ true
    → all is_username_char t ≡ true
    → all is_username_char (s ++ t) ≡ true
all-append [] t h k = k
all-append (c ∷ cs) t h k = elim (Bool-cases (is_username_char c)) [
  | inl good ↦ rw good (all-append cs t (ground (arith, h, good)) k)
  | inr bad ↦ ground (arith, h, bad)
]

lower_allowed : (c : ℕ) → is_alphanumeric c ≡ true → is_username_char (lower c) ≡ true
lower_allowed c h = ground arith

push_one :
    (s : List ℕ) (c : ℕ)
    → Fits s
    → suc (length s) ≤ 20
    → is_username_char c ≡ true
    → Fits (s ++ c ∷ [])
push_one s c h room good = record {
  characters = all-append s (c ∷ []) h.characters (rw good refl);
  most = omega (arith, length-append s (c ∷ []));
}

push_char-Fits :
    (c : ℕ) (s : List ℕ) (b : Bool) → Fits s → suc (length s) ≤ 20 → Fits (push_char c (s, b)).0
unfolding push_char
push_char-Fits c s b h room = elim (Bool-cases (is_alphanumeric c)) [
  | inl letter ↦ rw letter (push_one s (lower c) h room (lower_allowed c letter))
  | inr other ↦ elim (Bool-cases (not b && not (is_empty s))) [
    | inl sep ↦ rw other (rw sep (push_one s 95 h room refl))
    | inr skip ↦ rw other (rw skip h)
  ]
]

suggest_loop-Fits :
    (name : List ℕ) (state : List ℕ × Bool) → Fits state.0 → Fits (suggest_loop name state)
unfolding suggest_loop
suggest_loop-Fits [] state h = h
suggest_loop-Fits (c ∷ cs) (s, b) h = elim (Bool-cases (leb 20 (length s))) [
  | inl full ↦ rw full h
  | inr room ↦ rw room (suggest_loop-Fits cs _ (push_char-Fits c s b h (ground arith)))
]

drop_leading-Fits : (s : List ℕ) → Fits s → Fits (drop_leading s)
unfolding drop_leading
drop_leading-Fits [] h = h
drop_leading-Fits (c ∷ cs) h = elim (Bool-cases (c == 95)) [
  | inl sep ↦ rw sep (
      drop_leading-Fits cs
        (record { characters = ground (arith, h.characters); most = omega (arith, h.most) }))
  | inr other ↦ rw other h
]

drop_trailing-all :
    (s : List ℕ) → all is_username_char s ≡ true → all is_username_char (drop_trailing s) ≡ true
unfolding drop_trailing
drop_trailing-all [] h = h
drop_trailing-all (c ∷ cs) h = elim (Bool-cases (is_username_char c)) [
  | inl good ↦
      let rest = drop_trailing-all cs (ground (arith, h, good)) in
      elim (Bool-cases (c == 95 && is_empty (drop_trailing cs))) [
        | inl gone ↦ rw gone refl
        | inr kept ↦ rw kept (rw good rest)
      ]
  | inr bad ↦ ground (arith, h, bad)
]

length-drop_trailing : (s : List ℕ) → length (drop_trailing s) ≤ length s
unfolding drop_trailing
length-drop_trailing [] = omega arith
length-drop_trailing (c ∷ cs) = ground (arith, length-drop_trailing cs)

-- A text of the allowed characters and of an allowed length.
record IsUsername (s : List ℕ) : Type 0 where
  characters : all is_username_char s ≡ true
  least : 3 ≤ length s
  most : length s ≤ 20

or_padded-IsUsername : (s : List ℕ) → Fits s → IsUsername (or_padded s)
unfolding or_padded
or_padded-IsUsername [] h = record { characters = refl; least = omega arith; most = omega arith }
or_padded-IsUsername (c ∷ cs) h = elim (Bool-cases (ltb (length (c ∷ cs)) 3)) [
  | inr long ↦
      rw long (record { characters = h.characters; least = ground (arith, long); most = h.most })
  | inl short ↦
      let size = length-append (c ∷ cs) (codes "_user") in
      rw short (record {
        characters = all-append (c ∷ cs) (codes "_user") h.characters refl;
        least = omega (arith, size);
        most = ground (arith, size, short);
      })
]

suggest-IsUsername : (name : List ℕ) → IsUsername (suggest_username_from_google_name name)
unfolding suggest_username_from_google_name
suggest-IsUsername name =
    let start : Fits [] = record { characters = refl; most = omega arith } in
    let looped = suggest_loop-Fits name ([], false) start in
    let led = drop_leading-Fits (suggest_loop name ([], false)) looped in
    let s = drop_leading (suggest_loop name ([], false)) in
    or_padded-IsUsername (drop_trailing s) (record {
      characters = drop_trailing-all s led.characters;
      most = omega (arith, length-drop_trailing s, led.most);
    })

text_eq_refl : (s : List ℕ) → text_eq s s ≡ true
unfolding text_eq
text_eq_refl [] = refl
text_eq_refl (c ∷ cs) = rw (==_refl c) (text_eq_refl cs)

-- The tests of a username of which only the last may fail.
checked :
    (a b c d : Bool) (r : ValidatedUsername)
    → a ≡ false
    → b ≡ false
    → c ≡ false
    → let v : Result UsernameValidationError ValidatedUsername =
        if a
        then err invalid_whitespace
        else if b
        then err invalid_length
        else if c
        then err invalid_characters
        else if d
        then err reserved
        else ok r in
      (v ≡ ok r) ⊎ (v ≡ err reserved)
checked true b c d r h k l = cc
checked false true c d r h k l = cc
checked false false true d r h k l = cc
checked false false false true r h k l = inr refl
checked false false false false r h k l = inl refl

-- A suggested username passes every test of a new username but the one of the reserved names: it is
-- validated as it stands, or refused as reserved. Trimming is assumed to keep a text of letters,
-- digits and underscores.
pub suggest_username-validated :
    (trim : List ℕ → List ℕ) (values name : List ℕ)
    → ((s : List ℕ) → all is_username_char s ≡ true → trim s ≡ s)
    → let s = suggest_username_from_google_name name in
      (validate_username trim values s ≡ ok (record { original = s; normalized = s }))
      ⊎ (validate_username trim values s ≡ err reserved)
unfolding validate_username
suggest_username-validated trim values name trims =
    let s = suggest_username_from_google_name name in
    let u = suggest-IsUsername name in
    let chars = u.characters in
    let bytes = bytes_same s chars in
    let sized : ltb (byte_length s) 3 || ltb 20 (byte_length s) ≡ false =
      ground (arith, bytes, u.least, u.most) in
    let trimmed : not (text_eq (trim s) s) ≡ false =
      rw (trims s chars) (rw (text_eq_refl s) refl) in
    subst
      (λ n.
        (validate_username trim values s ≡ ok (record { original = s; normalized = n }))
        ⊎ (validate_username trim values s ≡ err reserved))
      (lowercase_same s chars)
      (checked _ _ _
        (is_reserved_username_variant (to_lowercase s) (collect_reserved_usernames trim values))
        (record { original = s; normalized = to_lowercase s }) trimmed sized (rw chars refl))

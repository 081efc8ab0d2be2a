-- ===== src/Username/Accepted.antt =====
-- Which usernames are accepted (src/api/src/users/username.rs: validate_username).
use arsivinyo_memegy_backend.Base.{
  ℕ, ◌≤◌, ◌≡◌, refl, ap, sym, ◌∙◌, subst, Bool, true, false, not, ◌||◌, List, [], ◌∷◌, ok, err, ltb,
  all, length, if◌then◌else◌, arith, Bool-cases, inl, inr,
}
use arsivinyo_memegy_backend.Username.{
  ValidatedUsername, UsernameValidationError, invalid_whitespace, invalid_length,
  invalid_characters, reserved, username_min_len, username_max_len, lower, to_lowercase, char_bytes,
  byte_length, is_username_char, text_eq, is_reserved_username_variant, collect_reserved_usernames,
  validate_username,
}

pub lower_char : (c : ℕ) → is_username_char c ≡ true → lower c ≡ c
lower_char c h = ground arith

pub byte_char : (c : ℕ) → is_username_char c ≡ true → char_bytes c ≡ 1
byte_char c h = ground arith

pub lowercase_same : (s : List ℕ) → all is_username_char s ≡ true → to_lowercase s ≡ s
lowercase_same [] h = refl
lowercase_same (c ∷ cs) h = elim (Bool-cases (is_username_char c)) [
  | inl good ↦
      rw (lower_char c good) (ap (λ x. c ∷ x) (lowercase_same cs (ground (arith, h, good))))
  | inr bad ↦ ground (arith, h, bad)
]

pub bytes_same : (s : List ℕ) → all is_username_char s ≡ true → byte_length s ≡ length s
bytes_same [] h = refl
bytes_same (c ∷ cs) h = elim (Bool-cases (is_username_char c)) [
  | inl good ↦
      let rest = bytes_same cs (ground (arith, h, good)) in
      let one = byte_char c good in omega arith
  | inr bad ↦ ground (arith, h, bad)
]

-- What an accepted username is: 3 to 20 lowercase letters, digits and underscores, kept as given, and
-- no variant of a reserved name.
pub record IsAccepted (trim : List ℕ → List ℕ) (values input : List ℕ) (v : ValidatedUsername)
    : Type 0 where
  pub characters : all is_username_char input ≡ true
  pub least : 3 ≤ length input
  pub most : length input ≤ 20
  pub original : v.original ≡ input
  pub normalized : v.normalized ≡ input
  pub free : is_reserved_username_variant input (collect_reserved_usernames trim values) ≡ false

validated :
    (a b c d : Bool) (e1 e2 e3 e4 : UsernameValidationError) (r v : ValidatedUsername)
    → (if a then err e1 else if b then err e2 else if c then err e3 else if d then err e4 else ok r)
      ≡ ok v
    → (b ≡ false) × (c ≡ false) × (d ≡ false) × (r ≡ v)
validated true b c d e1 e2 e3 e4 r v h = cc
validated false true c d e1 e2 e3 e4 r v h = cc
validated false false true d e1 e2 e3 e4 r v h = cc
validated false false false true e1 e2 e3 e4 r v h = cc
validated false false false false e1 e2 e3 e4 r v h = (refl, refl, refl, cc)

-- A validated username is accepted in that sense; its normal form is the text itself.
pub validate_username-ok :
    (trim : List ℕ → List ℕ) (values input : List ℕ) (v : ValidatedUsername)
    → validate_username trim values input ≡ ok v
    → IsAccepted trim values input v
unfolding validate_username
validate_username-ok trim values input v h =
    let (sized, chars, free, same) =
      validated (not (text_eq (trim input) input))
        (ltb (byte_length input) username_min_len || ltb username_max_len (byte_length input))
        (not (all is_username_char input))
        (is_reserved_username_variant (to_lowercase input) (collect_reserved_usernames trim values))
        invalid_whitespace invalid_length invalid_characters reserved
        (record { original = input; normalized = to_lowercase input }) v h in
    let good : all is_username_char input ≡ true = ground (arith, chars) in
    let bytes = bytes_same input good in
    let low = lowercase_same input good in
    record {
      characters = good;
      least = ground arith;
      most = ground arith;
      original = ap (λ x. x.original) (sym same);
      normalized = ap (λ x. x.normalized) (sym same) ∙ low;
      free =
          subst
            (λ x. is_reserved_username_variant x (collect_reserved_usernames trim values) ≡ false)
            low free;
    }

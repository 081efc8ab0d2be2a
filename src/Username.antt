-- ===== src/Username.antt =====
-- Usernames (src/api/src/users/username.rs). A text is the list of its characters' codes.
pub mod Accepted
pub mod Suggested
mod Tests
use arsivinyo_memegy_backend.Base.{
  ℕ, ◌+◌, String, Bool, true, false, not, ◌&&◌, ◌||◌, List, [], ◌∷◌, ◌++◌, Option, none, some,
  Result, ok, err, ◌==◌, leb, ltb, any, all, keep, map, length, is_empty, codes, if◌then◌else◌,
}

abbrev pub username_min_len : ℕ
username_min_len = 3

abbrev pub username_max_len : ℕ
username_max_len = 20

pub record ValidatedUsername : Type 0 where
  pub original : List ℕ
  pub normalized : List ℕ

pub data UsernameValidationError : Type 0 where
  invalid_whitespace invalid_length invalid_characters reserved : UsernameValidationError

abbrev pub is_lowercase : ℕ → Bool
is_lowercase c = leb 97 c && leb c 122

abbrev pub is_uppercase : ℕ → Bool
is_uppercase c = leb 65 c && leb c 90

abbrev pub is_digit : ℕ → Bool
is_digit c = leb 48 c && leb c 57

abbrev pub is_alphanumeric : ℕ → Bool
is_alphanumeric c = is_lowercase c || is_uppercase c || is_digit c

abbrev pub lower : ℕ → ℕ
lower c = if is_uppercase c then c + 32 else c

abbrev pub to_lowercase : List ℕ → List ℕ
to_lowercase = map lower

-- How many bytes a character and a text take in UTF-8.
abbrev pub char_bytes : ℕ → ℕ
char_bytes c = if ltb c 128 then 1 else if ltb c 2048 then 2 else if ltb c 65536 then 3 else 4

abbrev pub byte_length : List ℕ → ℕ
byte_length [] = 0
byte_length (c ∷ cs) = char_bytes c + byte_length cs

unfoldable pub text_eq : List ℕ → List ℕ → Bool
text_eq [] [] = true
text_eq (a ∷ rest_a) (b ∷ bs) = a == b && text_eq rest_a bs
text_eq [] (b ∷ bs) = false
text_eq (a ∷ rest_a) [] = false

unfoldable pub starts_with : List ℕ → List ℕ → Bool
starts_with [] text = true
starts_with (c ∷ cs) [] = false
starts_with (c ∷ cs) (t ∷ ts) = c == t && starts_with cs ts

unfoldable pub is_part : List ℕ → List ℕ → Bool
unfolding starts_with
is_part part [] = starts_with part []
is_part part (t ∷ ts) = starts_with part (t ∷ ts) || is_part part ts

abbrev pub default_reserved_usernames : List (List ℕ)
default_reserved_usernames = map codes (
    "admin" ∷ "support" ∷ "api" ∷ "root" ∷ "system" ∷ "me" ∷ "users" ∷ "auth" ∷ "feed" ∷ "www"
    ∷ "null" ∷ "undefined" ∷ "help" ∷ "contact" ∷ "info" ∷ "security" ∷ "abuse" ∷ "postmaster"
    ∷ "webmaster" ∷ "host" ∷ "superuser" ∷ "staff" ∷ "moderator" ∷ "manager" ∷ "editor"
    ∷ "superadmin" ∷ "sysadmin" ∷ "sys" ∷ "administrator" ∷ "operator" ∷ "dev" ∷ "developer" ∷ "qa"
    ∷ "test" ∷ "testing" ∷ [])

-- The first piece and the others.
abbrev push_first : ℕ → List (List ℕ) → List (List ℕ)
push_first c [] = (c ∷ []) ∷ []
push_first c (p ∷ ps) = (c ∷ p) ∷ ps

-- `split(',')`.
unfoldable pub split_commas : List ℕ → List (List ℕ)
split_commas [] = [] ∷ []
split_commas (c ∷ cs) =
    let rest = split_commas cs in if c == 44 then [] ∷ rest else push_first c rest

-- `trim` is the library's, and `values` the configured `username_reserved_values`.
unfoldable pub collect_reserved_usernames : (List ℕ → List ℕ) → List ℕ → List (List ℕ)
unfolding split_commas
collect_reserved_usernames trim values =
    default_reserved_usernames
    ++ keep (λ v. not (is_empty v)) (map (λ v. to_lowercase (trim v)) (split_commas values))

unfoldable pub normalize_for_reserved_match : List ℕ → List ℕ
normalize_for_reserved_match = keep is_lowercase

unfoldable pub is_reserved_username_variant : List ℕ → List (List ℕ) → Bool
unfolding text_eq is_part normalize_for_reserved_match
is_reserved_username_variant username names =
    if any (text_eq username) names
    then true
    else if is_empty (normalize_for_reserved_match username)
    then false
    else any
        (λ value.
          not (is_empty (normalize_for_reserved_match value))
          && is_part (normalize_for_reserved_match value) (normalize_for_reserved_match username))
        names

abbrev pub is_username_char : ℕ → Bool
is_username_char c = is_lowercase c || is_digit c || c == 95

unfoldable pub validate_username :
    (List ℕ → List ℕ) → List ℕ → List ℕ → Result UsernameValidationError ValidatedUsername
validate_username trim values input =
    if not (text_eq (trim input) input)
    then err invalid_whitespace
    else if ltb (byte_length input) username_min_len || ltb username_max_len (byte_length input)
    then err invalid_length
    else if not (all is_username_char input)
    then err invalid_characters
    else if is_reserved_username_variant (to_lowercase input)
        (collect_reserved_usernames trim values)
    then err reserved
    else ok (record { original = input; normalized = to_lowercase input })

-- One turn of the loop, on the text so far and whether it ends with a separator.
unfoldable pub push_char : ℕ → List ℕ × Bool → List ℕ × Bool
push_char c (out, after_separator) =
    if is_alphanumeric c
    then (out ++ lower c ∷ [], false)
    else if not after_separator && not (is_empty out)
    then (out ++ 95 ∷ [], true)
    else (out, after_separator)

unfoldable pub suggest_loop : List ℕ → List ℕ × Bool → List ℕ
unfolding push_char
suggest_loop [] state = state.0
suggest_loop (c ∷ cs) state =
    let rest = suggest_loop cs (push_char c state) in
    if leb username_max_len (length state.0) then state.0 else rest

-- `trim_matches('_')`.
unfoldable pub drop_leading : List ℕ → List ℕ
drop_leading [] = []
drop_leading (c ∷ cs) = let rest = drop_leading cs in if c == 95 then rest else c ∷ cs

unfoldable pub drop_trailing : List ℕ → List ℕ
drop_trailing [] = []
drop_trailing (c ∷ cs) =
    let rest = drop_trailing cs in if c == 95 && is_empty rest then [] else c ∷ rest

unfoldable pub or_padded : List ℕ → List ℕ
or_padded out =
    if is_empty out
    then codes "user"
    else if ltb (length out) username_min_len
    then out ++ codes "_user"
    else out

unfoldable pub suggest_username_from_google_name : List ℕ → List ℕ
unfolding suggest_loop drop_leading drop_trailing or_padded
suggest_username_from_google_name name =
    or_padded (drop_trailing (drop_leading (suggest_loop name ([], false))))

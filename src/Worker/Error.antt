-- ===== src/Worker/Error.antt =====
-- Processing errors and the cleaning of their messages (src/worker/src/main.rs).
-- A message is the list of its characters.
use arsivinyo_memegy_backend.Base.{
  ℕ, zero, suc, ◌-◌, ◌≤◌, ◌≡◌, ◌≢◌, String, Bool, true, false, ◌||◌, List, [], ◌∷◌, map, ◌==◌,
  if◌then◌else◌, length, take, length-take, All, All-take, All-map, arith,
}

pub data ProcessingErrorKind : Type 0 where
  transient_kind permanent_kind : ProcessingErrorKind

pub record ProcessingError : Type 0 where
  pub kind : ProcessingErrorKind
  pub code : String
  pub message : List ℕ

abbrev pub transient : String → List ℕ → ProcessingError
transient code message = record { kind = transient_kind; code = code; message = message }

abbrev pub permanent : String → List ℕ → ProcessingError
permanent code message = record { kind = permanent_kind; code = code; message = message }

abbrev kind_is_transient : ProcessingErrorKind → Bool
kind_is_transient transient_kind = true
kind_is_transient permanent_kind = false

unfoldable pub is_transient : ProcessingError → Bool
is_transient e = kind_is_transient e.kind

abbrev pub stderr_tail_bytes : ℕ
stderr_tail_bytes = 8192

abbrev pub max_error_message_chars : ℕ
max_error_message_chars = 300

-- Line feed, carriage return and tab become a space.
unfoldable pub replace_control : ℕ → ℕ
replace_control c = if c == 10 || c == 13 || c == 9 then 32 else c

unfoldable pub sanitize_error_message : List ℕ → List ℕ
unfolding replace_control
sanitize_error_message message = take max_error_message_chars (map replace_control message)

abbrev drop : ℕ → List ℕ → List ℕ
drop zero xs = xs
drop (suc n) [] = []
drop (suc n) (x ∷ xs) = drop n xs

-- `lossy` stands for `String::from_utf8_lossy`.
unfoldable pub tail_text : (List ℕ → List ℕ) → List ℕ → ℕ → List ℕ
tail_text lossy [] limit = []
tail_text lossy (b ∷ bytes) limit = lossy (drop (length (b ∷ bytes) - limit) (b ∷ bytes))

abbrev pub IsPrintable : ℕ → Type 0
IsPrintable c = (c ≢ 10) × (c ≢ 13) × (c ≢ 9)

replace_control-IsPrintable : (c : ℕ) → IsPrintable (replace_control c)
unfolding replace_control
replace_control-IsPrintable c = ground arith

replace_control-fixed : (c : ℕ) → IsPrintable c → replace_control c ≡ c
unfolding replace_control
replace_control-fixed c h = ground arith

-- A sanitized message has at most 300 characters, none of them a line feed, a carriage return or
-- a tab.
pub sanitize_error_message_bounds :
    (message : List ℕ)
    → (length (sanitize_error_message message) ≤ 300)
      × All IsPrintable (sanitize_error_message message)
unfolding sanitize_error_message
sanitize_error_message_bounds message = (
  length-take 300 _,
  All-take IsPrintable 300 _
      (All-map IsPrintable replace_control message replace_control-IsPrintable),
)

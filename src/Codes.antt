-- ===== src/Codes.antt =====
-- One-time codes in Redis (src/api/src/cache/otc_cache.rs).
pub mod Used
mod Tests
use Prim.Native.String.{◌++◌ as str_append}
use arsivinyo_memegy_backend.Base.{
  ℕ, ◌+◌, String, Bool, Option, none, some, Result, ok, err, str_eq, leb, if◌then◌else◌,
}

pub record OtcAuthTokenData : Type 0 where
  pub access_token : String
  pub refresh_token : String
  pub user_id : ℕ
  pub username : String
  pub email : String
  pub avatar_url : Option String
  pub age_confirmed : Bool
  pub terms_accepted : Bool
  pub required_terms_version : String
  pub accepted_terms_version : Option String

pub record OtcSignupRequiredData : Type 0 where
  pub signup_ticket : String
  pub suggested_username : String
  pub required_terms_version : String
  pub terms_url : Option String
  pub requires_age_confirmation : Bool

pub data OtcTokenData : Type 0 where
  auth_success : OtcAuthTokenData → OtcTokenData
  signup_required : OtcSignupRequiredData → OtcTokenData

-- The texts in Redis, each with the time at which it is dropped.
pub record State : Type 0 where
  pub entries : String → Option (String × ℕ)

pub data Call : Type 0 where
  connect set_entry get_entry delete_entry : Call

-- The library for JSON writes and reads the data.
pub record World : Type 0 where
  pub now : ℕ
  pub fails : Call → Option String
  pub to_json : OtcTokenData → Result String String
  pub from_json : String → Result String OtcTokenData

abbrev pub otc_key : String → String
otc_key code = str_append "otc:" code

abbrev pub put_entry : String → Option (String × ℕ) → State → State
put_entry key e s = record { entries = λ k. if str_eq k key then e else s.entries k }

abbrev pub set_json :
    World → String → State → Result String String → Result String (Unit {0}) × State
set_json w code s (err e) = (err e, s)
set_json w code s (ok json) = elim (w.fails connect) [
  | some e ↦ (err e, s)
  | none ↦ elim (w.fails set_entry) [
    | some e ↦ (err e, s)
    | none ↦ (ok tt, put_entry (otc_key code) (some (json, w.now + 60)) s)
  ]
]

unfoldable pub store_otc : World → String → OtcTokenData → State → Result String (Unit {0}) × State
store_otc w code tokens s = set_json w code s (w.to_json tokens)

abbrev pub live : ℕ → Option (String × ℕ) → Option String
live now none = none
live now (some (json, expires)) = if leb expires now then none else some json

abbrev pub some_tokens : Result String OtcTokenData → Result String (Option OtcTokenData)
some_tokens (ok t) = ok (some t)
some_tokens (err e) = err e

-- The answer to GET. It changes nothing.
unfoldable pub get_otc : World → String → State → Result String (Option String)
get_otc w code s = elim (w.fails connect) [
  | some e ↦ err e
  | none ↦ elim (w.fails get_entry) [
    | some e ↦ err e
    | none ↦ ok (live w.now (s.entries (otc_key code)))
  ]
]

-- What follows a text that GET gave: DEL, and the reading of the text.
abbrev pub delete_and_read :
    World → String → State → Option String → Result String (Option OtcTokenData) × State
delete_and_read w code s none = (ok none, s)
delete_and_read w code s (some json) = elim (w.fails delete_entry) [
  | some e ↦ (err e, s)
  | none ↦ (some_tokens (w.from_json json), put_entry (otc_key code) none s)
]

-- The rest of a request once its GET was answered, on the state that Redis has by then.
abbrev pub finish_otc :
    World
    → String
    → Result String (Option String)
    → State
    → Result String (Option OtcTokenData) × State
finish_otc w code (err e) s = (err e, s)
finish_otc w code (ok answer) s = delete_and_read w code s answer

-- GET and DEL are two commands: `between` is what other requests do to Redis after the one and before
-- the other.
unfoldable pub consume_otc :
    World → String → (State → State) → State → Result String (Option OtcTokenData) × State
unfolding get_otc
consume_otc w code between s = finish_otc w code (get_otc w code s) (between s)

-- ===== src/Tickets.antt =====
-- Send tickets of the keyboard extension (src/api/src/videos/handlers.rs: create_send_ticket,
-- redeem_send_ticket_media, enforce_keyboard_rpm).
pub mod Redeem
pub mod Redeemed
pub mod Daily
mod Tests
use Prim.Native.String.{◌++◌ as str_append}
use arsivinyo_memegy_backend.Base.{
  ℕ, suc, ◌+◌, ◌-◌, ◌%◌, String, Bool, true, false, not, ◌&&◌, ◌||◌, List, [], ◌∷◌, Option, none,
  some, Result, ok, err, str_eq, any, leb, ltb, ◌==◌, codes, if◌then◌else◌,
}
use arsivinyo_memegy_backend.Video.{Video}
use arsivinyo_memegy_backend.Counters.{Redis, World as RedisWorld, check_and_increment, has_expired}
use arsivinyo_memegy_backend.Likes.{published}
use arsivinyo_memegy_backend.Api.{
  ApiError, bad_request, forbidden, too_many_requests, ◌>>=◌, ◌>>◌, db_call, guard,
}

pub record ExtensionAuth : Type 0 where
  pub user_id : ℕ
  pub session_jti : ℕ
  pub platform : String
  pub device_id_hash : String
  pub scope : List String

-- A row of `send_tickets`.
pub record Ticket : Type 0 where
  pub ticket_id : ℕ
  pub user_id : ℕ
  pub video_id : ℕ
  pub device_id_hash : String
  pub host_app_hint : Option String
  pub created_at : ℕ
  pub expires_at : ℕ
  pub redeemed_at : Option ℕ
  pub status : String

-- The tables, Redis, and the nonces in Redis with the time at which each is dropped.
pub record State : Type 0 where
  pub tickets : List Ticket
  pub videos : ℕ → Option Video
  pub redis : Redis
  pub nonces : String → Option ℕ

pub data Call : Type 0 where
  count_tickets find_published insert_ticket find_ticket mark_expired claim_row get_conn set_nonce :
      Call

pub record World : Type 0 where
  pub now : ℕ
  pub fails : Call → Option String
  pub redis : RedisWorld
  pub bypass : Bool
  pub trim : String → String
  pub show_uuid : ℕ → String
  pub new_uuid : ℕ
  pub presigned_get : String → String → Result String String

pub record Config : Type 0 where
  pub keyboard_send_ticket_rpm : ℕ
  pub keyboard_nonce_ttl_secs : ℕ
  pub keyboard_daily_send_cap : ℕ
  pub keyboard_ticket_ttl_secs : ℕ
  pub minio_public_endpoint : String
  pub minio_bucket_videos : String

pub record CreateSendTicketRequest : Type 0 where
  pub host_app_hint : Option String
  pub nonce : String

pub record SendTicketResponse : Type 0 where
  pub ticket_id : ℕ
  pub media_url : String
  pub fallback_share_url : String
  pub expires_in_seconds : ℕ

unfoldable pub has_scope : ExtensionAuth → String → Bool
has_scope ext required = any (λ s. str_eq s required) ext.scope

-- The number of bytes of a text in UTF-8.
abbrev pub code_bytes : ℕ → ℕ
code_bytes c = if ltb c 128 then 1 else if ltb c 2048 then 2 else if ltb c 65536 then 3 else 4

abbrev pub total_bytes : List ℕ → ℕ
total_bytes [] = 0
total_bytes (c ∷ cs) = code_bytes c + total_bytes cs

abbrev pub byte_len : String → ℕ
byte_len s = total_bytes (codes s)

abbrev pub hint_fits : Option String → Bool
hint_fits none = true
hint_fits (some hint) = not (ltb 128 (byte_len hint))

-- The checks of the request, with its trimmed nonce.
unfoldable pub checked_nonce :
    World → ExtensionAuth → CreateSendTicketRequest → Result ApiError String
unfolding has_scope
checked_nonce w ext payload = do
  guard (has_scope ext "keyboard.send") (forbidden "Missing scope: keyboard.send")
  let nonce = w.trim payload.nonce
  guard (not (byte_len nonce == 0 || ltb 128 (byte_len nonce)))
      (bad_request "nonce must be between 1 and 128 characters")
  guard (hint_fits payload.host_app_hint) (bad_request "host_app_hint must be <= 128 characters")
  ok nonce

abbrev pub rpm_exceeded : ApiError
rpm_exceeded = too_many_requests "Keyboard rate limit exceeded"

abbrev pub after_session_rpm :
    Result String (Result ℕ ℕ) × Redis → Result ApiError (Unit {0}) × Redis
after_session_rpm (ok (ok remaining), redis) = (ok tt, redis)
after_session_rpm (ok (err current), redis) = (err rpm_exceeded, redis)
after_session_rpm (err e, redis) = (ok tt, redis)

abbrev pub after_user_rpm :
    (Redis → Result ApiError (Unit {0}) × Redis)
    → Result String (Result ℕ ℕ) × Redis
    → Result ApiError (Unit {0}) × Redis
after_user_rpm session (ok (ok remaining), redis) = session redis
after_user_rpm session (ok (err current), redis) = (err rpm_exceeded, redis)
after_user_rpm session (err e, redis) = session redis

-- The limit of the user, then the limit of the session. An error of Redis lets the request pass.
unfoldable pub enforce_keyboard_rpm :
    World → ℕ → String → String → Redis → Result ApiError (Unit {0}) × Redis
enforce_keyboard_rpm w limit user_key session_key redis =
    after_user_rpm
      (λ r. after_session_rpm (check_and_increment w.redis w.bypass session_key limit 60 r))
      (check_and_increment w.redis w.bypass user_key limit 60 redis)

abbrev pub keyboard_nonce_key : World → ℕ → String → String
keyboard_nonce_key w user nonce =
    str_append (str_append (str_append "keyboard:nonce:" (w.show_uuid user)) ":") nonce

abbrev pub is_taken : ℕ → Option ℕ → Bool
is_taken now none = false
is_taken now (some expires) = not (leb expires now)

abbrev pub put_nonce : String → ℕ → (String → Option ℕ) → String → Option ℕ
put_nonce key expires nonces k = if str_eq k key then some expires else nonces k

-- SET with NX and EX: whether the request may go on. Without a connection it may; a command that fails
-- counts as a nonce that is taken.
unfoldable pub take_nonce : World → Config → ℕ → String → State → Bool × State
take_nonce w config user nonce s =
    let key = keyboard_nonce_key w user nonce in
    elim (w.fails get_conn) [
      | some e ↦ (true, s)
      | none ↦ elim (w.fails set_nonce) [
        | some e ↦ (false, s)
        | none ↦ if is_taken w.now (s.nonces key) then (false, s) else (
          true,
          record s { nonces = put_nonce key (w.now + config.keyboard_nonce_ttl_secs) s.nonces },
        )
      ]
    ]

abbrev pub today_start : ℕ → ℕ
today_start now = now - now % 86400

abbrev pub is_since : ℕ → ℕ → Ticket → Bool
is_since user start t = t.user_id == user && leb start t.created_at

abbrev pub count : (Ticket → Bool) → List Ticket → ℕ
count p [] = 0
count p (t ∷ ts) = let rest = count p ts in if p t then suc rest else rest

abbrev pub new_ticket : World → Config → ExtensionAuth → Video → CreateSendTicketRequest → Ticket
new_ticket w config ext video payload = record {
  ticket_id = w.new_uuid;
  user_id = ext.user_id;
  video_id = video.id;
  device_id_hash = ext.device_id_hash;
  host_app_hint = payload.host_app_hint;
  created_at = w.now;
  expires_at = w.now + config.keyboard_ticket_ttl_secs;
  redeemed_at = none;
  status = "active";
}

-- The ticket for a video, if the day's tickets of the user are below the cap.
unfoldable pub issue_ticket :
    World
    → Config
    → ExtensionAuth
    → ℕ
    → CreateSendTicketRequest
    → State
    → Result ApiError (Ticket × Video)
issue_ticket w config ext id payload s = do
  db_call (w.fails count_tickets)
  guard
      (ltb (count (is_since ext.user_id (today_start w.now)) s.tickets)
        config.keyboard_daily_send_cap)
      (too_many_requests "Keyboard daily send cap exceeded")
  db_call (w.fails find_published)
  video ← published (s.videos id)
  db_call (w.fails insert_ticket)
  ok (new_ticket w config ext video payload, video)

abbrev pub send_response : World → Config → Ticket → Video → SendTicketResponse
send_response w config t video = record {
  ticket_id = t.ticket_id;
  media_url = str_append (str_append "/videos/send-ticket/" (w.show_uuid t.ticket_id)) "/media";
  fallback_share_url =
      str_append
        (str_append
          (str_append (str_append config.minio_public_endpoint "/") config.minio_bucket_videos) "/")
        video.s3_key;
  expires_in_seconds = config.keyboard_ticket_ttl_secs;
}

abbrev pub issued :
    World
    → Config
    → State
    → Result ApiError (Ticket × Video)
    → Result ApiError SendTicketResponse × State
issued w config s (err e) = (err e, s)
issued w config s (ok (t, video)) =
    (ok (send_response w config t video), record s { tickets = t ∷ s.tickets })

abbrev pub after_nonce :
    World
    → Config
    → ExtensionAuth
    → ℕ
    → CreateSendTicketRequest
    → Bool × State
    → Result ApiError SendTicketResponse × State
after_nonce w config ext id payload (false, s) = (err (bad_request "Duplicate send nonce"), s)
after_nonce w config ext id payload (true, s) =
    issued w config s (issue_ticket w config ext id payload s)

abbrev pub after_rpm :
    World
    → Config
    → ExtensionAuth
    → ℕ
    → CreateSendTicketRequest
    → String
    → State
    → Result ApiError (Unit {0}) × Redis
    → Result ApiError SendTicketResponse × State
after_rpm w config ext id payload nonce s (err e, redis) = (err e, record s { redis = redis })
after_rpm w config ext id payload nonce s (ok _, redis) =
    after_nonce w config ext id payload
      (take_nonce w config ext.user_id nonce (record s { redis = redis }))

abbrev pub send_user_key : World → ℕ → String
send_user_key w user = str_append "ratelimit:keyboard:send:user:" (w.show_uuid user)

abbrev pub send_session_key : World → ℕ → String
send_session_key w session = str_append "ratelimit:keyboard:send:session:" (w.show_uuid session)

abbrev pub after_nonce_check :
    World
    → Config
    → ExtensionAuth
    → ℕ
    → CreateSendTicketRequest
    → State
    → Result ApiError String
    → Result ApiError SendTicketResponse × State
after_nonce_check w config ext id payload s (err e) = (err e, s)
after_nonce_check w config ext id payload s (ok nonce) = after_rpm w config ext id payload nonce s (
    enforce_keyboard_rpm w config.keyboard_send_ticket_rpm (send_user_key w ext.user_id)
      (send_session_key w ext.session_jti) s.redis)

unfoldable pub create_send_ticket :
    World
    → Config
    → ExtensionAuth
    → ℕ
    → CreateSendTicketRequest
    → State
    → Result ApiError SendTicketResponse × State
unfolding checked_nonce enforce_keyboard_rpm take_nonce issue_ticket
create_send_ticket w config ext id payload s =
    after_nonce_check w config ext id payload s (checked_nonce w ext payload)

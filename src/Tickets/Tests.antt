-- ===== src/Tickets/Tests.antt =====
-- A ticket that two clients redeem at once, and requests of tickets in one day.
use arsivinyo_memegy_backend.Base.{◌≤◌, ◌≡◌, refl, false, List, [], ◌∷◌, none, ok, arith}
use arsivinyo_memegy_backend.Tickets.{ExtensionAuth, Ticket, State, World, Config, count, has_scope}
use arsivinyo_memegy_backend.Tickets.Redeem.{check_ticket, claim_ticket, look_up}
use arsivinyo_memegy_backend.Tickets.Redeemed.{
  Event, checks, claims, redemptions, redemptions-active,
}
use arsivinyo_memegy_backend.Tickets.Daily.{
  on_day, TicketRequest, after_requests, after_requests-capped,
}

abbrev ticket : Ticket
ticket = record {
  ticket_id = 5;
  user_id = 1;
  video_id = 7;
  device_id_hash = "device";
  host_app_hint = none;
  created_at = 100;
  expires_at = 200;
  redeemed_at = none;
  status = "active";
}

abbrev start : State
start = record {
  tickets = ticket ∷ [];
  videos = λ id. none;
  redis = record { counters = λ key. none };
  nonces = λ key. none;
}

abbrev world : World
world = record {
  now = 150;
  fails = λ call. none;
  redis = record { now = 150; fails = λ call. none };
  bypass = false;
  trim = λ s. s;
  show_uuid = λ n. "uuid";
  new_uuid = 6;
  presigned_get = λ bucket key. ok "https://get";
}

abbrev client : ExtensionAuth
client = record {
  user_id = 1;
  session_jti = 3;
  platform = "android";
  device_id_hash = "device";
  scope = "keyboard.send" ∷ [];
}

abbrev race : List Event
race =
    checks world client 5
    ∷ checks world client 5
    ∷ claims world client 5
    ∷ claims world client 5
    ∷ []

-- The first of the two updates succeeds.
one_succeeds : redemptions 5 race start ≡ 1
unfolding check_ticket claim_ticket look_up has_scope
one_succeeds = refl

abbrev config : Config
config = record {
  keyboard_send_ticket_rpm = 10;
  keyboard_nonce_ttl_secs = 60;
  keyboard_daily_send_cap = 2;
  keyboard_ticket_ttl_secs = 60;
  minio_public_endpoint = "https://cdn";
  minio_bucket_videos = "videos";
}

abbrev request : TicketRequest
request = record {
  world = world;
  ext = client;
  video = 7;
  payload = record { host_app_hint = none; nonce = "a" };
}

redemptions-active_example : redemptions 5 race start ≤ 1
redemptions-active_example = redemptions-active 5 race start

after_requests-capped_example :
    count (on_day 1 0) (after_requests config (request ∷ request ∷ []) start).tickets ≤ 2
after_requests-capped_example =
    after_requests-capped config 1 0 (request ∷ request ∷ []) start (omega arith)

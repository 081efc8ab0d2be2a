-- ===== src/Tickets/Redeem.antt =====
-- The redemption of a send ticket (src/api/src/videos/handlers.rs: redeem_send_ticket_media), whose
-- check and whose update of the row are two statements.
use Prim.Native.String.{◌++◌ as str_append}
use arsivinyo_memegy_backend.Base.{
  ℕ, String, Bool, not, ◌&&◌, ◌||◌, none, some, Result, ok, err, str_eq, first, is_some, leb, ltb,
  ◌==◌, map, if◌then◌else◌,
}
use arsivinyo_memegy_backend.Video.{Video}
use arsivinyo_memegy_backend.Likes.{published}
use arsivinyo_memegy_backend.Api.{
  ApiError, bad_request, forbidden, not_found, internal_error, ◌>>=◌, ◌>>◌, db_call, guard, or_else,
}
use arsivinyo_memegy_backend.Tickets.{
  ExtensionAuth, Ticket, State, find_published, find_ticket, mark_expired, claim_row, World, Config,
  has_scope, count,
}

-- The ticket that is redeemed, if it is the user's and still active.
unfoldable pub look_up : World → ExtensionAuth → ℕ → State → Result ApiError Ticket
look_up w ext id s = do
  guard (has_scope ext "keyboard.send") (forbidden "Missing scope: keyboard.send")
  db_call (w.fails find_ticket)
  t ←
      or_else (first (λ (t : Ticket). t.ticket_id == id && t.user_id == ext.user_id) s.tickets)
        (not_found "Send ticket not found")
  guard (not (not (str_eq t.status "active") || is_some t.redeemed_at))
      (bad_request "Send ticket already redeemed")
  ok t

abbrev pub marked : ℕ → Ticket → Ticket
marked id t =
    if t.ticket_id == id && str_eq t.status "active" then record t { status = "expired" } else t

-- The error of this update is ignored.
unfoldable pub mark_expired_ticket : World → ℕ → State → State
mark_expired_ticket w id s = elim (w.fails mark_expired) [
  | some e ↦ s
  | none ↦ record s { tickets = map (marked id) s.tickets }
]

abbrev pub after_look_up :
    World → ℕ → State → Result ApiError Ticket → Result ApiError Video × State
after_look_up w id s (err e) = (err e, s)
after_look_up w id s (ok t) =
    if leb t.expires_at w.now
    then (err (bad_request "Send ticket expired"), mark_expired_ticket w id s)
    else (db_call (w.fails find_published) >> published (s.videos t.video_id), s)

-- The part before the update of the row.
unfoldable pub check_ticket : World → ExtensionAuth → ℕ → State → Result ApiError Video × State
unfolding look_up mark_expired_ticket
check_ticket w ext id s = after_look_up w id s (look_up w ext id s)

-- The filters of the update.
abbrev pub is_claimable : ℕ → ℕ → ℕ → Ticket → Bool
is_claimable id user now t =
    t.ticket_id == id
    && t.user_id == user
    && str_eq t.status "active"
    && not (is_some t.redeemed_at)
    && ltb now t.expires_at

abbrev pub claimed : ℕ → ℕ → ℕ → Ticket → Ticket
claimed id user now t =
    if is_claimable id user now t
    then record t { redeemed_at = some now; status = "redeemed" }
    else t

-- The update of the row, and whether it changed exactly one.
unfoldable pub claim_ticket : World → ExtensionAuth → ℕ → State → Result ApiError (Unit {0}) × State
claim_ticket w ext id s = elim (w.fails claim_row) [
  | some e ↦ (err (internal_error "Internal server error"), s)
  | none ↦ (
    guard (count (is_claimable id ext.user_id w.now) s.tickets == 1)
        (bad_request "Send ticket is no longer valid"),
    record s { tickets = map (claimed id ext.user_id w.now) s.tickets },
  )
]

abbrev pub media_url : Result String String → Result ApiError String
media_url (ok url) = ok url
media_url (err e) = err (internal_error (str_append "Failed to generate media URL: " e))

abbrev pub after_claim :
    World → Config → Video → Result ApiError (Unit {0}) × State → Result ApiError String × State
after_claim w config video (err e, s) = (err e, s)
after_claim w config video (ok _, s) =
    (media_url (w.presigned_get config.minio_bucket_videos video.s3_key), s)

abbrev pub after_check :
    World
    → Config
    → ExtensionAuth
    → ℕ
    → Result ApiError Video × State
    → Result ApiError String × State
after_check w config ext id (err e, s) = (err e, s)
after_check w config ext id (ok video, s) = after_claim w config video (claim_ticket w ext id s)

-- The address that the answer redirects to.
unfoldable pub redeem_send_ticket_media :
    World → Config → ExtensionAuth → ℕ → State → Result ApiError String × State
unfolding check_ticket claim_ticket
redeem_send_ticket_media w config ext id s = after_check w config ext id (check_ticket w ext id s)

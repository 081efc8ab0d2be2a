-- ===== src/Tickets/Daily.antt =====
-- How many send tickets a user gets in a day (src/api/src/videos/handlers.rs: create_send_ticket).
use arsivinyo_memegy_backend.Base.{
  ℕ, ◌+◌, ◌*◌, ◌≤◌, ◌<◌, ◌≡◌, refl, sym, ap, ◌∙◌, subst, inl, inr, String, Bool, true, false, ◌&&◌,
  List, [], ◌∷◌, Result, ok, err, ltb, leb, ltb→lt, ◌==◌, Bool-cases, arith,
}
use arsivinyo_memegy_backend.Video.{Video}
use arsivinyo_memegy_backend.Counters.{Redis}
use arsivinyo_memegy_backend.Likes.{published}
use arsivinyo_memegy_backend.Api.{ApiError, guard, db_call, Holds, Holds-bind}
use arsivinyo_memegy_backend.Tickets.{
  ExtensionAuth, Ticket, State, World, Config, CreateSendTicketRequest, SendTicketResponse,
  count_tickets, find_published, insert_ticket, today_start, is_since, count, new_ticket,
  issue_ticket, issued, take_nonce, after_nonce, after_rpm, after_nonce_check, checked_nonce,
  create_send_ticket,
}

-- The tickets of a user that were created on a day.
abbrev pub on_day : ℕ → ℕ → Ticket → Bool
on_day user day t =
    t.user_id == user && leb (day * 86400) t.created_at && ltb t.created_at (day * 86400 + 86400)

count-on_day :
    (user day : ℕ) (ts : List Ticket)
    → count (on_day user day) ts ≤ count (is_since user (day * 86400)) ts
count-on_day user day [] = omega arith
count-on_day user day (t ∷ ts) = ground (arith, count-on_day user day ts)

today_start-day :
    (now day : ℕ) → day * 86400 ≤ now → now < day * 86400 + 86400 → today_start now ≡ day * 86400
today_start-day now day from before = omega arith

module _ (w : World) (config : Config) (ext : ExtensionAuth) (id : ℕ)
    (payload : CreateSendTicketRequest) where
  -- What an issued ticket shows.
  record IsIssued (s : State) (p : Ticket × Video) : Type 0 where
    below_cap :
        count (is_since ext.user_id (today_start w.now)) s.tickets < config.keyboard_daily_send_cap
    is_new : p.0 ≡ new_ticket w config ext p.1 payload

  guard-ok : (b : Bool) (e : ApiError) → guard b e ≡ ok tt → b ≡ true
  guard-ok true e h = refl
  guard-ok false e h = cc

  issue_ticket-IsIssued : (s : State) → Holds (IsIssued s) (issue_ticket w config ext id payload s)
  unfolding issue_ticket
  issue_ticket-IsIssued s = Holds-bind _ (db_call (w.fails count_tickets)) _ λ _ _.
      Holds-bind _
        (guard
          (ltb (count (is_since ext.user_id (today_start w.now)) s.tickets)
            config.keyboard_daily_send_cap)
          _)
        _
        λ _ below. Holds-bind _ (db_call (w.fails find_published)) _ λ _ _.
          Holds-bind _ (published (s.videos id)) _ λ video _.
            Holds-bind _ (db_call (w.fails insert_ticket)) _
              λ _ _. record { below_cap = ltb→lt _ _ (guard-ok _ _ below); is_new = refl }

  module _ (user day : ℕ) (ts : List Ticket)
      (within : count (on_day user day) ts ≤ config.keyboard_daily_send_cap) where
    -- The cap holds of the tickets after a request.
    Within : Result ApiError SendTicketResponse × State → Type 0
    Within r = count (on_day user day) r.1.tickets ≤ config.keyboard_daily_send_cap

    -- A new ticket of the day was issued below the cap of the day.
    added :
        (t : Ticket)
        → t.user_id ≡ ext.user_id
        → t.created_at ≡ w.now
        → count (is_since ext.user_id (today_start w.now)) ts < config.keyboard_daily_send_cap
        → count (on_day user day) (t ∷ ts) ≤ config.keyboard_daily_send_cap
    added t own at below = elim (Bool-cases (on_day user day t)) [
      | inr other ↦ rw other within
      | inl today ↦
          let owner : user ≡ ext.user_id = ground (arith, today, own) in
          let start : today_start w.now ≡ day * 86400 =
            today_start-day w.now day (ground (arith, today, at)) (ground (arith, today, at)) in
          let since : count (is_since user (day * 86400)) ts < config.keyboard_daily_send_cap =
            subst (λ u. count (is_since u (day * 86400)) ts < config.keyboard_daily_send_cap)
              (sym owner)
              (subst (λ n. count (is_since ext.user_id n) ts < config.keyboard_daily_send_cap) start
                below) in
          rw today (omega (arith, count-on_day user day ts, since))
    ]

    issued-Within :
        (s : State) (r : Result ApiError (Ticket × Video))
        → s.tickets ≡ ts
        → Holds (IsIssued s) r
        → Within (issued w config s r)
    unfolding Within
    issued-Within s (err e) same h = rw same within
    issued-Within s (ok (t, video)) same h = rw same (
        added t (ap (λ x. x.user_id) h.is_new) (ap (λ x. x.created_at) h.is_new) (
          subst
            (λ l.
              count (is_since ext.user_id (today_start w.now)) l < config.keyboard_daily_send_cap)
            same h.below_cap))

    take_nonce-tickets :
        (nonce : String) (s : State)
        → (take_nonce w config ext.user_id nonce s).1.tickets ≡ s.tickets
    unfolding take_nonce
    take_nonce-tickets nonce s = ground arith

    after_nonce-Within :
        (r : Bool × State) → r.1.tickets ≡ ts → Within (after_nonce w config ext id payload r)
    unfolding Within
    after_nonce-Within (false, s) same = rw same within
    after_nonce-Within (true, s) same =
        issued-Within s (issue_ticket w config ext id payload s) same (issue_ticket-IsIssued s)

    after_rpm-Within :
        (nonce : String) (s : State) (r : Result ApiError (Unit {0}) × Redis)
        → s.tickets ≡ ts
        → Within (after_rpm w config ext id payload nonce s r)
    unfolding Within
    after_rpm-Within nonce s (err e, redis) same = rw same within
    after_rpm-Within nonce s (ok _, redis) same =
        after_nonce-Within (take_nonce w config ext.user_id nonce (record s { redis = redis }))
          (take_nonce-tickets nonce (record s { redis = redis }) ∙ same)

    after_nonce_check-Within :
        (s : State) (r : Result ApiError String)
        → s.tickets ≡ ts
        → Within (after_nonce_check w config ext id payload s r)
    unfolding Within
    after_nonce_check-Within s (err e) same = rw same within
    after_nonce_check-Within s (ok nonce) same = after_rpm-Within nonce s _ same

  create_send_ticket-Within :
      (user day : ℕ) (s : State)
      → count (on_day user day) s.tickets ≤ config.keyboard_daily_send_cap
      → count (on_day user day) (create_send_ticket w config ext id payload s).1.tickets
        ≤ config.keyboard_daily_send_cap
  unfolding create_send_ticket Within
  create_send_ticket-Within user day s within =
      after_nonce_check-Within user day s.tickets within s (checked_nonce w ext payload) refl

-- A request of a ticket: its world, the client, the video and what is sent.
pub record TicketRequest : Type 0 where
  pub world : World
  pub ext : ExtensionAuth
  pub video : ℕ
  pub payload : CreateSendTicketRequest

abbrev pub after_requests : Config → List TicketRequest → State → State
after_requests config [] s = s
after_requests config (r ∷ rs) s =
    after_requests config rs (create_send_ticket r.world config r.ext r.video r.payload s).1

-- After any requests, one after the other and at any times, no user has more tickets of one day than the
-- cap, if that was so before.
pub after_requests-capped :
    (config : Config) (user day : ℕ) (rs : List TicketRequest) (s : State)
    → count (on_day user day) s.tickets ≤ config.keyboard_daily_send_cap
    → count (on_day user day) (after_requests config rs s).tickets ≤ config.keyboard_daily_send_cap
after_requests-capped config user day [] s h = h
after_requests-capped config user day (r ∷ rs) s h =
    after_requests-capped config user day rs _
      (create_send_ticket-Within r.world config r.ext r.video r.payload user day s h)

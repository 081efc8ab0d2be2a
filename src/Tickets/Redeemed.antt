-- ===== src/Tickets/Redeemed.antt =====
-- How often a send ticket can be redeemed (src/api/src/videos/handlers.rs: redeem_send_ticket_media).
use arsivinyo_memegy_backend.Base.{
  ℕ, suc, ◌+◌, ◌≤◌, ◌≡◌, refl, inl, inr, Bool, not, ◌&&◌, List, [], ◌∷◌, Result, ok, err, is_ok,
  is_some, str_eq, leb, ◌==◌, ==_iff, subst, map, if◌then◌else◌, Bool-cases, Option-cases, arith,
}
use arsivinyo_memegy_backend.Api.{ApiError, guard}
use arsivinyo_memegy_backend.Tickets.{
  ExtensionAuth, Ticket, State, mark_expired, claim_row, World, count,
}
use arsivinyo_memegy_backend.Tickets.Redeem.{
  marked, mark_expired_ticket, look_up, after_look_up, check_ticket, is_claimable, claimed,
  claim_ticket,
}

-- The first part of a redemption, or its update of the row, by any client.
pub data Event : Type 0 where
  checks claims : World → ExtensionAuth → ℕ → Event

-- How many updates of a ticket succeed in a sequence of parts of redemptions.
abbrev pub redemptions : ℕ → List Event → State → ℕ
redemptions k [] s = 0
redemptions k (checks w ext id ∷ es) s = redemptions k es (check_ticket w ext id s).1
redemptions k (claims w ext id ∷ es) s =
    let rest = redemptions k es (claim_ticket w ext id s).1 in
    if id == k && is_ok (claim_ticket w ext id s).0 then suc rest else rest

abbrev pub is_spendable : ℕ → Ticket → Bool
is_spendable k t = t.ticket_id == k && str_eq t.status "active" && not (is_some t.redeemed_at)

count-marked :
    (k id : ℕ) (ts : List Ticket)
    → count (is_spendable k) (map (marked id) ts) ≤ count (is_spendable k) ts
count-marked k id [] = omega arith
count-marked k id (t ∷ ts) = ground (arith, count-marked k id ts)

count-claimed :
    (id user now : ℕ) (ts : List Ticket)
    → count (is_spendable id) (map (claimed id user now) ts) + count (is_claimable id user now) ts
      ≡ count (is_spendable id) ts
count-claimed id user now [] = refl
count-claimed id user now (t ∷ ts) = ground (arith, count-claimed id user now ts)

count-claimed-other :
    (k id user now : ℕ) (ts : List Ticket)
    → count (is_spendable k) (map (claimed id user now) ts) ≤ count (is_spendable k) ts
count-claimed-other k id user now [] = omega arith
count-claimed-other k id user now (t ∷ ts) = ground (arith, count-claimed-other k id user now ts)

spent-own :
    (id user now : ℕ) (ts : List Ticket) (e : ApiError)
    → (if is_ok (guard (count (is_claimable id user now) ts == 1) e) then 1 else 0)
        + count (is_spendable id) (map (claimed id user now) ts)
      ≤ count (is_spendable id) ts
spent-own id user now ts e = ground (arith, count-claimed id user now ts)

spent :
    (id k user now : ℕ) (ts : List Ticket) (e : ApiError)
    → (if id == k && is_ok (guard (count (is_claimable id user now) ts == 1) e) then 1 else 0)
        + count (is_spendable k) (map (claimed id user now) ts)
      ≤ count (is_spendable k) ts
spent id k user now ts e = elim (Bool-cases (id == k)) [
  | inr other ↦ rw other (omega (arith, count-claimed-other k id user now ts))
  | inl same ↦ rw same (
      subst
        (λ j.
          (if is_ok (guard (count (is_claimable id user now) ts == 1) e) then 1 else 0)
            + count (is_spendable j) (map (claimed id user now) ts)
          ≤ count (is_spendable j) ts)
        ((==_iff id k).0 same) (spent-own id user now ts e))
]

module _ (w : World) (ext : ExtensionAuth) (k id : ℕ) (s : State) where
  mark-active :
      count (is_spendable k) (mark_expired_ticket w id s).tickets ≤ count (is_spendable k) s.tickets
  unfolding mark_expired_ticket
  mark-active = elim (Option-cases (w.fails mark_expired)) [
    | inr (e, fails) ↦ rw (fails, mark_expired_ticket) (omega arith)
    | inl works ↦ rw (works, mark_expired_ticket) (count-marked k id s.tickets)
  ]

  after_look_up-active :
      (r : Result ApiError Ticket)
      → count (is_spendable k) (after_look_up w id s r).1.tickets ≤ count (is_spendable k) s.tickets
  after_look_up-active (err e) = omega arith
  after_look_up-active (ok t) = elim (Bool-cases (leb t.expires_at w.now)) [
    | inl late ↦ rw late mark-active
    | inr early ↦ rw early (omega arith)
  ]

  check_ticket-active :
      count (is_spendable k) (check_ticket w ext id s).1.tickets ≤ count (is_spendable k) s.tickets
  unfolding check_ticket
  check_ticket-active = after_look_up-active (look_up w ext id s)

  -- An update of the row spends an active ticket if it succeeds, and makes none.
  claim_ticket-active :
      (if id == k && is_ok (claim_ticket w ext id s).0 then 1 else 0)
        + count (is_spendable k) (claim_ticket w ext id s).1.tickets
      ≤ count (is_spendable k) s.tickets
  unfolding claim_ticket
  claim_ticket-active = elim (Option-cases (w.fails claim_row)) [
    | inr (e, fails) ↦ rw (fails, claim_ticket) (ground arith)
    | inl works ↦ rw (works, claim_ticket) (spent id k ext.user_id w.now s.tickets _)
  ]

-- However many clients redeem a ticket at once, and however the parts of their redemptions interleave, no
-- more updates of its row succeed than there were active rows with its id, which is at most one as the id
-- is the key of the table.
pub redemptions-active :
    (k : ℕ) (es : List Event) (s : State) → redemptions k es s ≤ count (is_spendable k) s.tickets
redemptions-active k [] s = omega arith
redemptions-active k (checks w ext id ∷ es) s =
    omega
      (arith, redemptions-active k es (check_ticket w ext id s).1, check_ticket-active w ext k id s)
redemptions-active k (claims w ext id ∷ es) s =
    let now = claim_ticket-active w ext k id s in
    let later = redemptions-active k es (claim_ticket w ext id s).1 in ground (arith, now, later)

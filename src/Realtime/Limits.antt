-- ===== src/Realtime/Limits.antt =====
-- The limits of the hub, over every interleaving of its operations (src/api/src/realtime/hub.rs).
use arsivinyo_memegy_backend.Base.{
  ℕ, ◌+◌, ◌≤◌, ◌≡◌, refl, sym, subst, String, Bool, false, not, List, [], ◌∷◌, Option, none, some,
  ◌==◌, leb, keep, map, length, is_empty, arith, All, Bool-cases, inl, inr, length-keep,
  length-append,
}
use arsivinyo_memegy_backend.Realtime.{
  ConnectionEntry, RealtimeHub, new_hub, total_connections, get_user, remove_user, put_user,
  put_or_remove, remove_conn, remove_conns, or_default, register_connection, bootstrapped,
  take_pending, take_from, mark_bootstrapped_and_take_pending, with_user, remove_connection,
  is_stale, buffered, buffer_conns, fanout_buffer, send_all, fanout_send,
}

-- The pending messages of a connection fit in its buffer.
abbrev pub HasRoom : ℕ → ConnectionEntry → Type 0
HasRoom buffer c = length c.pending ≤ buffer

-- A user has no more connections than the limit, each within its buffer.
abbrev pub IsBounded : ℕ → ℕ → ℕ × List ConnectionEntry → Type 0
IsBounded per_user buffer u = (length u.1 ≤ per_user) × All (HasRoom buffer) u.1

-- The hub is within its limits.
pub record WithinLimits (hub : RealtimeHub) : Type 0 where
  pub total : total_connections hub.users ≤ hub.max_conn_global
  pub users_bounded : All (IsBounded hub.max_conn_per_user hub.send_buffer) hub.users

All-keep {ℓ κ} :
    {A : Type ℓ} (P : A → Type κ) (p : A → Bool) (xs : List A) → All P xs → All P (keep p xs)
All-keep P p [] h = tt
All-keep P p (x ∷ xs) h = elim (Bool-cases (p x)) [
  | inl e ↦ rw e (h.0, All-keep P p xs h.1)
  | inr e ↦ rw e (All-keep P p xs h.1)
]

length-map {ℓ} : {A : Type ℓ} (f : A → A) (xs : List A) → length (map f xs) ≡ length xs
length-map f [] = refl
length-map f (x ∷ xs) = omega (arith, length-map f xs)

-- What a lookup found and what is left without it are no more than all.
total-remove_user :
    (user : ℕ) (us : List (ℕ × List ConnectionEntry))
    → length (or_default (get_user user us)) + total_connections (remove_user user us)
      ≤ total_connections us
unfolding total_connections get_user
total-remove_user user [] = omega arith
total-remove_user user (u ∷ us) = elim (Bool-cases (u.0 == user)) [
  | inl e ↦ ground (arith, total-remove_user user us, e)
  | inr e ↦ ground (arith, total-remove_user user us, e)
]

found-IsBounded :
    (user per_user buffer : ℕ) (us : List (ℕ × List ConnectionEntry))
    → All (IsBounded per_user buffer) us
    → (length (or_default (get_user user us)) ≤ per_user)
      × All (HasRoom buffer) (or_default (get_user user us))
unfolding get_user
found-IsBounded user per_user buffer [] h = (omega arith, tt)
found-IsBounded user per_user buffer (u ∷ us) h = elim (Bool-cases (u.0 == user)) [
  | inl e ↦ rw e h.0
  | inr e ↦ rw e (found-IsBounded user per_user buffer us h.1)
]

module _ (user : ℕ) (hub : RealtimeHub) (h : WithinLimits hub) where
  -- The hub with other connections of one user, that are no more than before.
  put-WithinLimits :
      (conns : List ConnectionEntry)
      → length conns ≤ length (or_default (get_user user hub.users))
      → All (HasRoom hub.send_buffer) conns
      → WithinLimits (record hub { users = put_user user conns hub.users })
  unfolding total_connections
  put-WithinLimits conns fewer room = record {
    total = let t = h.total in omega (arith, total-remove_user user hub.users);
    users_bounded =
        let b =
          found-IsBounded user hub.max_conn_per_user hub.send_buffer hub.users h.users_bounded in
        ((omega (arith, b.0), room), All-keep _ _ hub.users h.users_bounded);
  }

  put_or_remove-WithinLimits :
      (conns : List ConnectionEntry)
      → length conns ≤ length (or_default (get_user user hub.users))
      → All (HasRoom hub.send_buffer) conns
      → WithinLimits (record hub { users = put_or_remove user conns hub.users })
  unfolding total_connections
  put_or_remove-WithinLimits [] fewer room = record {
    total = let t = h.total in omega (arith, total-remove_user user hub.users);
    users_bounded = All-keep _ _ hub.users h.users_bounded;
  }
  put_or_remove-WithinLimits (c ∷ cs) fewer room = put-WithinLimits (c ∷ cs) fewer room

  with_user-WithinLimits :
      (f : List ConnectionEntry → List ConnectionEntry) (o : Option (List ConnectionEntry))
      → get_user user hub.users ≡ o
      → ((conns : List ConnectionEntry)
          → All (HasRoom hub.send_buffer) conns
          → (length (f conns) ≤ length conns) × All (HasRoom hub.send_buffer) (f conns))
      → WithinLimits (with_user user f o hub)
  with_user-WithinLimits f none e good = h
  with_user-WithinLimits f (some conns) e good =
      let b =
        found-IsBounded user hub.max_conn_per_user hub.send_buffer hub.users h.users_bounded in
      let g = good conns (subst (λ o. All (HasRoom hub.send_buffer) (or_default o)) e b.1) in
      put_or_remove-WithinLimits (f conns)
        (subst (λ o. length (f conns) ≤ length (or_default o)) (sym e) g.0) g.1

  register-WithinLimits : (new_id : ℕ) → WithinLimits (register_connection new_id user hub).1
  unfolding register_connection total_connections
  register-WithinLimits new_id =
      elim (Bool-cases (leb hub.max_conn_global (total_connections hub.users))) [
        | inl full ↦ rw (full, register_connection) h
        | inr room ↦
            let b =
              found-IsBounded user hub.max_conn_per_user hub.send_buffer hub.users
                h.users_bounded in
            elim (Bool-cases
              (leb hub.max_conn_per_user (length (or_default (get_user user hub.users))))) [
                | inl busy ↦
                    rw (room, register_connection)
                      (rw busy
                        (put-WithinLimits (or_default (get_user user hub.users)) (omega arith) b.1))
                | inr free ↦
                    let conns = or_default (get_user user hub.users) in
                    let fewer = length-keep (λ c. not (c.conn_id == new_id)) conns in
                    rw (room, register_connection)
                      (rw free (record {
                        total =
                            let t = total-remove_user user hub.users in
                            ground (arith, t, fewer, room);
                        users_bounded = (
                          (ground (arith, fewer, free), (omega arith, All-keep _ _ conns b.1)),
                          All-keep _ _ hub.users h.users_bounded,
                        );
                      }))
              ]
      ]

  bootstrapped-HasRoom :
      (id : ℕ) (conns : List ConnectionEntry)
      → All (HasRoom hub.send_buffer) conns
      → All (HasRoom hub.send_buffer) (map (bootstrapped id) conns)
  bootstrapped-HasRoom id [] room = tt
  bootstrapped-HasRoom id (c ∷ cs) room = (
    elim (Bool-cases (c.conn_id == id)) [ inl e ↦ rw e (omega arith) | inr e ↦ rw e room.0 ],
    bootstrapped-HasRoom id cs room.1,
  )

  take_pending-WithinLimits :
      (id : ℕ) (conns : List ConnectionEntry) (o : Option ConnectionEntry)
      → get_user user hub.users ≡ some conns
      → WithinLimits (take_pending user id conns o hub).1
  take_pending-WithinLimits id conns none e = h
  take_pending-WithinLimits id conns (some c) e =
      let b =
        found-IsBounded user hub.max_conn_per_user hub.send_buffer hub.users h.users_bounded in
      put-WithinLimits (map (bootstrapped id) conns)
        (subst (λ o. length (map (bootstrapped id) conns) ≤ length (or_default o)) (sym e)
          (omega (arith, length-map (bootstrapped id) conns)))
        (bootstrapped-HasRoom id conns
          (subst (λ o. All (HasRoom hub.send_buffer) (or_default o)) e b.1))

  take_from-WithinLimits :
      (id : ℕ) (o : Option (List ConnectionEntry))
      → get_user user hub.users ≡ o
      → WithinLimits (take_from user id o hub).1
  take_from-WithinLimits id none e = h
  take_from-WithinLimits id (some conns) e = take_pending-WithinLimits id conns _ e

  buffered-HasRoom :
      (payload : String) (c : ConnectionEntry)
      → is_stale hub.send_buffer c ≡ false
      → HasRoom hub.send_buffer c
      → HasRoom hub.send_buffer (buffered hub.send_buffer payload c)
  buffered-HasRoom payload c kept room =
      let size = length-append c.pending (payload ∷ []) in ground (arith, size, kept)

  buffer_conns-Good :
      (payload : String) (conns : List ConnectionEntry)
      → All (HasRoom hub.send_buffer) conns
      → (length (buffer_conns hub.send_buffer payload conns) ≤ length conns)
        × All (HasRoom hub.send_buffer) (buffer_conns hub.send_buffer payload conns)
  unfolding buffer_conns
  buffer_conns-Good payload [] room = (omega arith, tt)
  buffer_conns-Good payload (c ∷ cs) room =
      let rest = buffer_conns-Good payload cs room.1 in
      elim (Bool-cases (is_stale hub.send_buffer c)) [
        | inl stale ↦ rw stale (omega (arith, rest.0), rest.1)
        | inr kept ↦
            rw kept (omega (arith, rest.0), (buffered-HasRoom payload c kept room.0, rest.1))
      ]

  remove-WithinLimits : (id : ℕ) → WithinLimits (remove_connection user id hub)
  unfolding remove_connection
  remove-WithinLimits id =
      with_user-WithinLimits (remove_conn id) _ refl
        λ conns room. (length-keep _ conns, All-keep _ _ conns room)

-- One operation, or one of the two parts of a fanout, which other operations may come between.
pub data Step : RealtimeHub → RealtimeHub → Type 0 where
  registers :
      (hub : RealtimeHub) (new_id user : ℕ) → Step hub (register_connection new_id user hub).1
  bootstraps :
      (hub : RealtimeHub) (user id : ℕ)
      → Step hub (mark_bootstrapped_and_take_pending user id hub).1
  removes : (hub : RealtimeHub) (user id : ℕ) → Step hub (remove_connection user id hub)
  buffers :
      (hub : RealtimeHub) (user : ℕ) (payload : String)
      → Step hub (fanout_buffer user payload hub).1
  sends :
      (hub : RealtimeHub) (accepts : ℕ → Bool) (user : ℕ) (payload : String) (targets : List ℕ)
      → Step hub (fanout_send accepts user payload targets hub)

pub data Reach (s : RealtimeHub) : RealtimeHub → Type 0 where
  here : Reach s s
  next : {t u : RealtimeHub} → Reach s t → Step t u → Reach s u

send-WithinLimits :
    (accepts : ℕ → Bool) (user : ℕ) (payload : String) (targets : List ℕ) (hub : RealtimeHub)
    → WithinLimits hub
    → WithinLimits (fanout_send accepts user payload targets hub)
unfolding fanout_send
send-WithinLimits accepts user payload targets hub h =
    let after : RealtimeHub = record hub { sent = send_all accepts payload targets hub.sent } in
    let h' : WithinLimits after = record { total = h.total; users_bounded = h.users_bounded } in
    elim (Bool-cases (is_empty (keep (λ id. not (accepts id)) targets))) [
      | inl all_sent ↦ rw (all_sent, fanout_send) h'
      | inr some_failed ↦
          rw (some_failed, fanout_send)
            (with_user-WithinLimits user after h'
              (remove_conns (keep (λ id. not (accepts id)) targets)) _ refl
              λ conns room. (length-keep _ conns, All-keep _ _ conns room))
    ]

Step-WithinLimits : {t u : RealtimeHub} → Step t u → WithinLimits t → WithinLimits u
unfolding mark_bootstrapped_and_take_pending fanout_buffer
Step-WithinLimits (registers hub new_id user) h = register-WithinLimits user hub h new_id
Step-WithinLimits (bootstraps hub user id) h = take_from-WithinLimits user hub h id _ refl
Step-WithinLimits (removes hub user id) h = remove-WithinLimits user hub h id
Step-WithinLimits (buffers hub user payload) h =
    with_user-WithinLimits user hub h (buffer_conns hub.send_buffer payload) _ refl
      (buffer_conns-Good user hub h payload)
Step-WithinLimits (sends hub accepts user payload targets) h =
    send-WithinLimits accepts user payload targets hub h

-- Whatever operations a hub has seen, and in whatever order, parts of a fanout included: it has no more
-- connections than the global limit, no user has more than the limit of a user, and no connection
-- holds back more messages than its buffer.
pub Reach-WithinLimits : {s t : RealtimeHub} → WithinLimits s → Reach s t → WithinLimits t
Reach-WithinLimits h here = h
Reach-WithinLimits h (next r st) = Step-WithinLimits st (Reach-WithinLimits h r)

pub new_hub-WithinLimits :
    (per_user global buffer : ℕ) → WithinLimits (new_hub per_user global buffer)
unfolding new_hub total_connections
new_hub-WithinLimits per_user global buffer = record { total = omega arith; users_bounded = tt }

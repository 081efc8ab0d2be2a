-- ===== src/Realtime/Buffered.antt =====
-- A connection that still bootstraps misses no message (src/api/src/realtime/hub.rs).
use arsivinyo_memegy_backend.Base.{
  ℕ, ◌<◌, ◌≡◌, refl, sym, ◌∙◌, subst, String, Bool, true, false, not, ◌&&◌, List, [], ◌∷◌, ◌++◌,
  Option, none, some, ◌==◌, ==_refl, ==_iff, any, keep, length, is_empty, arith, Bool-cases, inl,
  inr,
}
use arsivinyo_memegy_backend.Realtime.{
  ConnectionEntry, RealtimeHub, get_user, remove_user, put_user, put_or_remove, remove_conn,
  remove_conns, or_default, new_entry, get_conn, with_user, buffer_conns, send_targets, send_all,
  fanout_buffer, fanout_send, fanout_to_user,
}

get_user-remove_other :
    (user other : ℕ) (us : List (ℕ × List ConnectionEntry))
    → user == other ≡ false
    → get_user user (remove_user other us) ≡ get_user user us
unfolding get_user
get_user-remove_other user other [] h = refl
get_user-remove_other user other (u ∷ us) h = ground (arith, get_user-remove_other user other us)

pub get_user-put :
    (user : ℕ) (conns : List ConnectionEntry) (us : List (ℕ × List ConnectionEntry))
    → get_user user (put_user user conns us) ≡ some conns
unfolding get_user
get_user-put user conns us = rw (==_refl user) refl

get_user-put_other :
    (user other : ℕ) (conns : List ConnectionEntry) (us : List (ℕ × List ConnectionEntry))
    → user == other ≡ false
    → get_user user (put_or_remove other conns us) ≡ get_user user us
unfolding get_user
get_user-put_other user other [] us h = get_user-remove_other user other us h
get_user-put_other user other (c ∷ cs) us h =
    let rest = get_user-remove_other user other us h in ground (arith, rest)

-- Among the connections, the one with the id still bootstraps and holds the messages back, and no other
-- connection has the id.
pub record IsHeld (id : ℕ) (held : List String) (conns : List ConnectionEntry) : Type 0 where
  pub found :
      get_conn id conns ≡ some (record { conn_id = id; bootstrapping = true; pending = held })
  pub alone : any (λ c. c.conn_id == id && not c.bootstrapping) conns ≡ false

abbrev pub held_entry : ℕ → List String → ConnectionEntry
held_entry id held = record { conn_id = id; bootstrapping = true; pending = held }

remove_conn-alone :
    (id : ℕ) (conns : List ConnectionEntry)
    → any (λ c. c.conn_id == id && not c.bootstrapping) (remove_conn id conns) ≡ false
remove_conn-alone id [] = refl
remove_conn-alone id (c ∷ cs) = ground (arith, remove_conn-alone id cs)

pub register-IsHeld :
    (id : ℕ) (conns : List ConnectionEntry) → IsHeld id [] (new_entry id ∷ remove_conn id conns)
register-IsHeld id conns = record {
  found = rw (==_refl id) refl;
  alone = rw (==_refl id) (remove_conn-alone id conns);
}

module _ (id buffer : ℕ) (payload : String) where
  buffer-found :
      (held : List String) (conns : List ConnectionEntry)
      → length held < buffer
      → get_conn id conns ≡ some (held_entry id held)
      → get_conn id (buffer_conns buffer payload conns)
        ≡ some (held_entry id (held ++ payload ∷ []))
  unfolding buffer_conns
  buffer-found held [] room e = cc
  buffer-found held (c ∷ cs) room e = elim (Bool-cases (c.conn_id == id)) [
    | inl mine ↦
        let same : c ≡ held_entry id held = ground (arith, e, mine) in
        subst
          (λ x.
            get_conn id (buffer_conns buffer payload (x ∷ cs))
            ≡ some (held_entry id (held ++ payload ∷ [])))
          (sym same) (ground (arith, room))
    | inr other ↦
        let rest = buffer-found held cs room (ground (arith, e, other)) in
        ground (arith, rest, other)
  ]

  buffer-alone :
      (conns : List ConnectionEntry)
      → any (λ c. c.conn_id == id && not c.bootstrapping) conns ≡ false
      → any (λ c. c.conn_id == id && not c.bootstrapping) (buffer_conns buffer payload conns)
        ≡ false
  unfolding buffer_conns
  buffer-alone [] e = refl
  buffer-alone (c ∷ cs) e =
      let rest = buffer-alone cs (ground (arith, e)) in ground (arith, rest, e)

-- The connection is no target of a send.
not_target :
    (id : ℕ) (conns : List ConnectionEntry)
    → any (λ c. c.conn_id == id && not c.bootstrapping) conns ≡ false
    → any (λ t. t == id) (send_targets conns) ≡ false
unfolding send_targets
not_target id [] e = refl
not_target id (c ∷ cs) e =
    let rest = not_target id cs (ground (arith, e)) in ground (arith, rest, e)

not_failed :
    (id : ℕ) (p : ℕ → Bool) (targets : List ℕ)
    → any (λ t. t == id) targets ≡ false
    → any (λ t. t == id) (keep p targets) ≡ false
not_failed id p [] e = refl
not_failed id p (t ∷ ts) e =
    let rest = not_failed id p ts (ground (arith, e)) in ground (arith, rest, e)

module _ (id : ℕ) (failed : List ℕ) (spared : any (λ t. t == id) failed ≡ false) where
  remove_conns-found :
      (c : ConnectionEntry) (conns : List ConnectionEntry)
      → get_conn id conns ≡ some c
      → get_conn id (remove_conns failed conns) ≡ some c
  remove_conns-found c [] e = cc
  remove_conns-found c (x ∷ xs) e = elim (Bool-cases (x.conn_id == id)) [
    | inl mine ↦
        let kept =
          subst (λ i. any (λ t. t == i) failed ≡ false) (sym ((==_iff x.conn_id id).0 mine))
            spared in
        rw kept (ground (arith, e, mine))
    | inr other ↦
        let rest = remove_conns-found c xs (ground (arith, e, other)) in ground (arith, rest, other)
  ]

  remove_conns-alone :
      (conns : List ConnectionEntry)
      → any (λ c. c.conn_id == id && not c.bootstrapping) conns ≡ false
      → any (λ c. c.conn_id == id && not c.bootstrapping) (remove_conns failed conns) ≡ false
  remove_conns-alone [] e = refl
  remove_conns-alone (x ∷ xs) e =
      let rest = remove_conns-alone xs (ground (arith, e)) in ground (arith, rest, e)

get_user-put_found :
    (user id : ℕ) (c : ConnectionEntry) (conns : List ConnectionEntry)
    (us : List (ℕ × List ConnectionEntry))
    → get_conn id conns ≡ some c
    → get_user user (put_or_remove user conns us) ≡ some conns
get_user-put_found user id c [] us e = cc
get_user-put_found user id c (x ∷ xs) us e = get_user-put user (x ∷ xs) us

-- The user's connection with the id holds the messages back.
pub record IsHolding (user id : ℕ) (held : List String) (hub : RealtimeHub) : Type 0 where
  pub conns : List ConnectionEntry
  pub entry : get_user user hub.users ≡ some conns
  pub conn : IsHeld id held conns

module _ (user id : ℕ) (held : List String) (hub : RealtimeHub) where
  -- An update of the user's connections that keeps the one with the id.
  with_user-IsHolding :
      (f : List ConnectionEntry → List ConnectionEntry) (after : List String)
      → ((conns : List ConnectionEntry) → IsHeld id held conns → IsHeld id after (f conns))
      → IsHolding user id held hub
      → IsHolding user id after (with_user user f (get_user user hub.users) hub)
  with_user-IsHolding f after keeps h =
      subst (λ o. IsHolding user id after (with_user user f o hub)) (sym h.entry)
        (record {
          conns = f h.conns;
          entry = get_user-put_found user id _ (f h.conns) hub.users (keeps h.conns h.conn).found;
          conn = keeps h.conns h.conn;
        })

  other_user-IsHolding :
      (other : ℕ) (f : List ConnectionEntry → List ConnectionEntry)
      (o : Option (List ConnectionEntry))
      → user == other ≡ false
      → IsHolding user id held hub
      → IsHolding user id held (with_user other f o hub)
  other_user-IsHolding other f none e h = h
  other_user-IsHolding other f (some conns) e h = record {
    conns = h.conns;
    entry = get_user-put_other user other (f conns) hub.users e ∙ h.entry;
    conn = h.conn;
  }

module _ (user id : ℕ) (held : List String) (accepts : ℕ → Bool) (payload : String) where
  send-IsHolding :
      (other : ℕ) (targets : List ℕ) (hub : RealtimeHub)
      → (user == other ≡ true → any (λ t. t == id) targets ≡ false)
      → IsHolding user id held hub
      → IsHolding user id held (fanout_send accepts other payload targets hub)
  unfolding fanout_send
  send-IsHolding other targets hub spared h =
      let failed = keep (λ t. not (accepts t)) targets in
      let after : RealtimeHub = record hub { sent = send_all accepts payload targets hub.sent } in
      let h' : IsHolding user id held after = record {
        conns = h.conns;
        entry = h.entry;
        conn = h.conn;
      } in
      elim (Bool-cases (is_empty failed)) [
        | inl all_sent ↦ rw (all_sent, fanout_send) h'
        | inr some_failed ↦
            rw (some_failed, fanout_send)
              (elim (Bool-cases (user == other)) [
                | inr different ↦
                    other_user-IsHolding user id held after other (remove_conns failed) _ different
                      h'
                | inl same ↦
                    let out = not_failed id (λ t. not (accepts t)) targets (spared same) in
                    subst
                      (λ u.
                        IsHolding user id held
                          (with_user u (remove_conns failed) (get_user u after.users) after))
                      ((==_iff user other).0 same)
                      (with_user-IsHolding user id held after (remove_conns failed) held
                        (λ conns c. record {
                          found = remove_conns-found id failed out _ conns c.found;
                          alone = remove_conns-alone id failed out conns c.alone;
                        })
                        h')
              ])
      ]

  pub other_fanout-IsHolding :
      (other : ℕ) (hub : RealtimeHub)
      → user == other ≡ false
      → IsHolding user id held hub
      → IsHolding user id held (fanout_to_user accepts other payload hub)
  unfolding fanout_to_user fanout_buffer
  other_fanout-IsHolding other hub different h =
      send-IsHolding other _ _ (λ same. let clash : true ≡ false = sym same ∙ different in cc clash)
        (other_user-IsHolding user id held hub other (buffer_conns hub.send_buffer payload) _
          different h)

  buffered-IsHolding :
      (hub : RealtimeHub)
      → length held < hub.send_buffer
      → IsHolding user id held hub
      → IsHolding user id
          (held ++ payload ∷ [])
          (with_user user (buffer_conns hub.send_buffer payload) (get_user user hub.users) hub)
  buffered-IsHolding hub room h =
      with_user-IsHolding user id held hub (buffer_conns hub.send_buffer payload)
        (held ++ payload ∷ [])
        (λ conns c. record {
          found = buffer-found id hub.send_buffer payload held conns room c.found;
          alone = buffer-alone id hub.send_buffer payload conns c.alone;
        })
        h

-- A fanout to the user adds its message to those held back.
pub own_fanout-IsHolding :
    (user id : ℕ) (held : List String) (accepts : ℕ → Bool) (payload : String) (hub : RealtimeHub)
    → length held < hub.send_buffer
    → IsHolding user id held hub
    → IsHolding user id (held ++ payload ∷ []) (fanout_to_user accepts user payload hub)
unfolding fanout_to_user fanout_buffer
own_fanout-IsHolding user id held accepts payload hub room h =
    send-IsHolding user id (held ++ payload ∷ []) accepts payload user _ _
      (λ same.
        subst (λ o. any (λ t. t == id) (send_targets (or_default o)) ≡ false) (sym h.entry)
          (not_target id h.conns h.conn.alone))
      (buffered-IsHolding user id held accepts payload hub room h)

send_buffer-with_user :
    (user : ℕ) (f : List ConnectionEntry → List ConnectionEntry) (o : Option (List ConnectionEntry))
    (hub : RealtimeHub)
    → (with_user user f o hub).send_buffer ≡ hub.send_buffer
send_buffer-with_user user f none hub = refl
send_buffer-with_user user f (some conns) hub = refl

pub send_buffer-fanout :
    (accepts : ℕ → Bool) (user : ℕ) (payload : String) (hub : RealtimeHub)
    → (fanout_to_user accepts user payload hub).send_buffer ≡ hub.send_buffer
unfolding fanout_to_user fanout_buffer fanout_send
send_buffer-fanout accepts user payload hub =
    let targets = send_targets (or_default (get_user user hub.users)) in
    let first =
      send_buffer-with_user user (buffer_conns hub.send_buffer payload) (get_user user hub.users)
        hub in
    elim (Bool-cases (is_empty (keep (λ id. not (accepts id)) targets))) [
      | inl all_sent ↦ rw all_sent first
      | inr some_failed ↦ rw some_failed (send_buffer-with_user user _ _ _ ∙ first)
    ]

-- ===== src/Realtime/Bootstrap.antt =====
-- From the registration of a connection to the end of its bootstrap (src/api/src/realtime/hub.rs).
use mathlib.Core.List.{append-nil, append_assoc}
use arsivinyo_memegy_backend.Base.{
  ℕ, ◌+◌, ◌≤◌, ◌≡◌, refl, ap, sym, ◌∙◌, subst, String, Bool, List, [], ◌∷◌, ◌++◌, ok, err, ◌==◌,
  ==_iff, leb, length, if◌then◌else◌, arith, Bool-cases, ◌⊎◌, inl, inr, length-append,
}
use arsivinyo_memegy_backend.Realtime.{
  RealtimeHub, HubRegisterError, global_limit_exceeded, per_user_limit_exceeded, total_connections,
  get_user, put_user, or_default, new_entry, remove_conn, register_connection, take_pending,
  take_from, mark_bootstrapped_and_take_pending, fanout_to_user,
}
use arsivinyo_memegy_backend.Realtime.Buffered.{
  IsHolding, own_fanout-IsHolding, other_fanout-IsHolding, send_buffer-fanout, register-IsHeld,
  get_user-put,
}

pub record Fanout : Type 0 where
  pub accepts : ℕ → Bool
  pub user : ℕ
  pub payload : String

abbrev pub after_fanouts : List Fanout → RealtimeHub → RealtimeHub
after_fanouts [] hub = hub
after_fanouts (f ∷ fs) hub = after_fanouts fs (fanout_to_user f.accepts f.user f.payload hub)

-- The messages of the fanouts to the user, in their order.
abbrev pub payloads_to : ℕ → List Fanout → List String
payloads_to user [] = []
payloads_to user (f ∷ fs) =
    let rest = payloads_to user fs in if user == f.user then f.payload ∷ rest else rest

after_fanouts-IsHolding :
    (user id : ℕ) (fs : List Fanout) (held : List String) (hub : RealtimeHub)
    → length held + length (payloads_to user fs) ≤ hub.send_buffer
    → IsHolding user id held hub
    → IsHolding user id (held ++ payloads_to user fs) (after_fanouts fs hub)
after_fanouts-IsHolding user id [] held hub room h =
    subst (λ l. IsHolding user id l hub) (sym (append-nil held)) h
after_fanouts-IsHolding user id (f ∷ fs) held hub room h = elim (Bool-cases (user == f.user)) [
  | inr different ↦
      let size = send_buffer-fanout f.accepts f.user f.payload hub in
      rw different (
        after_fanouts-IsHolding user id fs held _ (ground (arith, size, different))
          (other_fanout-IsHolding user id held f.accepts f.payload f.user hub different h))
  | inl same ↦
      let size = send_buffer-fanout f.accepts f.user f.payload hub in
      let longer = length-append held (f.payload ∷ []) in
      let own =
        subst
          (λ u.
            IsHolding user id (held ++ f.payload ∷ []) (fanout_to_user f.accepts u f.payload hub))
          ((==_iff user f.user).0 same)
          (own_fanout-IsHolding user id held f.accepts f.payload hub (ground (arith, same)) h) in
      let all =
        after_fanouts-IsHolding user id fs (held ++ f.payload ∷ []) _
          (ground (arith, size, longer, same)) own in
      rw same (
        subst (λ l. IsHolding user id l (after_fanouts (f ∷ fs) hub))
          (append_assoc held (f.payload ∷ []) (payloads_to user fs)) all)
]

abbrev with_new : ℕ → ℕ → RealtimeHub → RealtimeHub
with_new new_id user hub = record hub {
  users =
      put_user user (new_entry new_id ∷ remove_conn new_id (or_default (get_user user hub.users)))
        hub.users;
}

register-cases :
    (new_id user : ℕ) (hub : RealtimeHub)
    → ((x : HubRegisterError) × (h : RealtimeHub) × (register_connection new_id user hub
          ≡ (err x, h)))
      ⊎ (register_connection new_id user hub ≡ (ok new_id, with_new new_id user hub))
unfolding register_connection
register-cases new_id user hub =
    elim (Bool-cases (leb hub.max_conn_global (total_connections hub.users))) [
      | inl full ↦ inl (global_limit_exceeded, hub, rw (full, register_connection) refl)
      | inr room ↦
          elim (Bool-cases
            (leb hub.max_conn_per_user (length (or_default (get_user user hub.users))))) [
              | inl busy ↦ inl (
                per_user_limit_exceeded,
                record hub {
                  users = put_user user (or_default (get_user user hub.users)) hub.users;
                },
                rw (room, register_connection) (rw busy refl),
              )
              | inr free ↦ inr (rw (room, register_connection) (rw free refl))
            ]
    ]

registered-IsHolding :
    (new_id id user : ℕ) (hub hub' : RealtimeHub)
    → register_connection new_id user hub ≡ (ok id, hub')
    → IsHolding user id [] hub' × (hub'.send_buffer ≡ hub.send_buffer)
registered-IsHolding new_id id user hub hub' e = elim (register-cases new_id user hub) [
  | inl (x, h, refused) ↦ let clash : err x ≡ ok id = ap (λ r. r.0) (sym refused ∙ e) in cc clash
  | inr made ↦
      let both : (ok new_id, with_new new_id user hub) ≡ (ok id, hub') = sym made ∙ e in
      let same_id : new_id ≡ id = (let eq : ok new_id ≡ ok id = ap (λ r. r.0) both in cc eq) in
      let start : IsHolding user new_id [] (with_new new_id user hub) = record {
        conns = new_entry new_id ∷ remove_conn new_id (or_default (get_user user hub.users));
        entry = get_user-put user _ hub.users;
        conn = register-IsHeld new_id (or_default (get_user user hub.users));
      } in
      (
        subst (λ i. IsHolding user i [] hub') same_id
            (subst (IsHolding user new_id []) (ap (λ r. r.1) both) start),
        sym (ap (λ r. r.1.send_buffer) both),
      )
]

-- A connection that was registered gets, at the end of its bootstrap, the messages of all fanouts to
-- its user since, in their order, if they fit in the send buffer; whatever the fanouts to other users
-- and the state of other connections.
pub bootstrap_order :
    (new_id id user : ℕ) (hub hub' : RealtimeHub) (fs : List Fanout)
    → register_connection new_id user hub ≡ (ok id, hub')
    → length (payloads_to user fs) ≤ hub.send_buffer
    → (mark_bootstrapped_and_take_pending user id (after_fanouts fs hub')).0 ≡ payloads_to user fs
unfolding mark_bootstrapped_and_take_pending
bootstrap_order new_id id user hub hub' fs e room =
    let r = registered-IsHolding new_id id user hub hub' e in
    let h = after_fanouts-IsHolding user id fs [] hub' (omega (arith, r.1)) r.0 in
    subst (λ o. (take_from user id o (after_fanouts fs hub')).0 ≡ payloads_to user fs) (sym h.entry)
      (subst (λ o. (take_pending user id h.conns o (after_fanouts fs hub')).0 ≡ payloads_to user fs)
        (sym h.conn.found) refl)

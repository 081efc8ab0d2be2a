-- ===== src/Realtime.antt =====
-- The hub of realtime connections (src/api/src/realtime/hub.rs).
pub mod Limits
pub mod Buffered
pub mod Bootstrap
mod Tests
use arsivinyo_memegy_backend.Base.{
  ℕ, suc, ◌+◌, String, Bool, true, false, not, List, [], ◌∷◌, ◌++◌, Option, none, some, Result, ok,
  err, ◌==◌, leb, any, keep, map, first, length, is_empty, if◌then◌else◌,
}

pub data HubRegisterError : Type 0 where
  global_limit_exceeded per_user_limit_exceeded : HubRegisterError

pub record ConnectionEntry : Type 0 where
  pub conn_id : ℕ
  pub bootstrapping : Bool
  pub pending : List String

-- The connections of each user; `sent` has what the senders of the connections were given.
pub record RealtimeHub : Type 0 where
  pub users : List (ℕ × List ConnectionEntry)
  pub sent : List (ℕ × String)
  pub max_conn_per_user : ℕ
  pub max_conn_global : ℕ
  pub send_buffer : ℕ

unfoldable pub new_hub : ℕ → ℕ → ℕ → RealtimeHub
new_hub max_conn_per_user max_conn_global send_buffer = record {
  users = [];
  sent = [];
  max_conn_per_user = max_conn_per_user;
  max_conn_global = max_conn_global;
  send_buffer = send_buffer;
}

unfoldable pub total_connections : List (ℕ × List ConnectionEntry) → ℕ
total_connections [] = 0
total_connections (u ∷ us) = length u.1 + total_connections us

-- The maps from users and from connection ids.
unfoldable pub get_user : ℕ → List (ℕ × List ConnectionEntry) → Option (List ConnectionEntry)
get_user user [] = none
get_user user (u ∷ us) = if u.0 == user then some u.1 else get_user user us

abbrev pub remove_user : ℕ → List (ℕ × List ConnectionEntry) → List (ℕ × List ConnectionEntry)
remove_user user = keep λ u. not (u.0 == user)

abbrev pub put_user :
    ℕ → List ConnectionEntry → List (ℕ × List ConnectionEntry) → List (ℕ × List ConnectionEntry)
put_user user conns us = (user, conns) ∷ remove_user user us

-- `state.users.remove(&user_id)` once no connection is left.
abbrev pub put_or_remove :
    ℕ → List ConnectionEntry → List (ℕ × List ConnectionEntry) → List (ℕ × List ConnectionEntry)
put_or_remove user conns us = if is_empty conns then remove_user user us else put_user user conns us

abbrev pub remove_conn : ℕ → List ConnectionEntry → List ConnectionEntry
remove_conn id = keep λ c. not (c.conn_id == id)

abbrev pub remove_conns : List ℕ → List ConnectionEntry → List ConnectionEntry
remove_conns ids = keep λ c. not (any (λ id. id == c.conn_id) ids)

abbrev pub or_default : Option (List ConnectionEntry) → List ConnectionEntry
or_default (some conns) = conns
or_default none = []

abbrev pub new_entry : ℕ → ConnectionEntry
new_entry id = record { conn_id = id; bootstrapping = true; pending = [] }

-- `new_id` is the fresh id of the connection. A refused user keeps the entry that `or_default` made.
unfoldable pub register_connection : ℕ → ℕ → RealtimeHub → Result HubRegisterError ℕ × RealtimeHub
register_connection new_id user hub =
    let conns = or_default (get_user user hub.users) in
    if leb hub.max_conn_global (total_connections hub.users)
    then (err global_limit_exceeded, hub)
    else if leb hub.max_conn_per_user (length conns)
    then (err per_user_limit_exceeded, record hub { users = put_user user conns hub.users })
    else (
      ok new_id,
      record hub { users = put_user user (new_entry new_id ∷ remove_conn new_id conns) hub.users },
    )

abbrev pub get_conn : ℕ → List ConnectionEntry → Option ConnectionEntry
get_conn id = first λ c. c.conn_id == id

abbrev pub bootstrapped : ℕ → ConnectionEntry → ConnectionEntry
bootstrapped id c = if c.conn_id == id then record c { bootstrapping = false; pending = [] } else c

abbrev pub take_pending :
    ℕ → ℕ → List ConnectionEntry → Option ConnectionEntry → RealtimeHub → List String × RealtimeHub
take_pending user id conns none hub = ([], hub)
take_pending user id conns (some c) hub =
    (c.pending, record hub { users = put_user user (map (bootstrapped id) conns) hub.users })

abbrev pub take_from :
    ℕ → ℕ → Option (List ConnectionEntry) → RealtimeHub → List String × RealtimeHub
take_from user id none hub = ([], hub)
take_from user id (some conns) hub = take_pending user id conns (get_conn id conns) hub

unfoldable pub mark_bootstrapped_and_take_pending : ℕ → ℕ → RealtimeHub → List String × RealtimeHub
mark_bootstrapped_and_take_pending user id hub = take_from user id (get_user user hub.users) hub

-- The update of a user's connections, if the user has an entry.
abbrev pub with_user :
    ℕ
    → (List ConnectionEntry → List ConnectionEntry)
    → Option (List ConnectionEntry)
    → RealtimeHub
    → RealtimeHub
with_user user f none hub = hub
with_user user f (some conns) hub = record hub { users = put_or_remove user (f conns) hub.users }

unfoldable pub remove_connection : ℕ → ℕ → RealtimeHub → RealtimeHub
remove_connection user id hub = with_user user (remove_conn id) (get_user user hub.users) hub

-- A bootstrapping connection whose buffer is full is stale.
abbrev pub is_stale : ℕ → ConnectionEntry → Bool
is_stale send_buffer c = if c.bootstrapping then leb send_buffer (length c.pending) else false

abbrev pub buffered : ℕ → String → ConnectionEntry → ConnectionEntry
buffered send_buffer payload c =
    if c.bootstrapping then record c { pending = c.pending ++ payload ∷ [] } else c

unfoldable pub buffer_conns : ℕ → String → List ConnectionEntry → List ConnectionEntry
buffer_conns send_buffer payload conns =
    map (buffered send_buffer payload) (keep (λ c. not (is_stale send_buffer c)) conns)

unfoldable pub send_targets : List ConnectionEntry → List ℕ
send_targets conns = map (λ c. c.conn_id) (keep (λ c. not c.bootstrapping) conns)

-- The first part of `fanout_to_user`, under the lock: the targets, and the hub after it.
unfoldable pub fanout_buffer : ℕ → String → RealtimeHub → List ℕ × RealtimeHub
unfolding buffer_conns send_targets
fanout_buffer user payload hub = (
  send_targets (or_default (get_user user hub.users)),
  with_user user (buffer_conns hub.send_buffer payload) (get_user user hub.users) hub,
)

-- The sends, after the lock was given back; `accepts` tells whether the channel of a connection takes
-- the message.
unfoldable pub send_all : (ℕ → Bool) → String → List ℕ → List (ℕ × String) → List (ℕ × String)
send_all accepts payload targets sent = sent ++ map (λ id. (id, payload)) (keep accepts targets)

-- The last part: the connections that did not take the message are removed.
unfoldable pub fanout_send : (ℕ → Bool) → ℕ → String → List ℕ → RealtimeHub → RealtimeHub
unfolding send_all
fanout_send accepts user payload targets hub =
    let failed = keep (λ id. not (accepts id)) targets in
    let after : RealtimeHub = record hub { sent = send_all accepts payload targets hub.sent } in
    if is_empty failed
    then after
    else with_user user (remove_conns failed) (get_user user after.users) after

unfoldable pub fanout_to_user : (ℕ → Bool) → ℕ → String → RealtimeHub → RealtimeHub
unfolding fanout_buffer fanout_send
fanout_to_user accepts user payload hub =
    let buffered_hub = fanout_buffer user payload hub in
    fanout_send accepts user payload buffered_hub.0 buffered_hub.1

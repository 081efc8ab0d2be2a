-- ===== src/Realtime/Tests.antt =====
-- A hub of two connections with two users, and the theorems at it.
use arsivinyo_memegy_backend.Base.{◌≡◌, refl, true, List, [], ◌∷◌, ok, err, arith}
use arsivinyo_memegy_backend.Realtime.{
  RealtimeHub, new_hub, register_connection, mark_bootstrapped_and_take_pending, fanout_buffer,
  get_user, total_connections, global_limit_exceeded,
}
use arsivinyo_memegy_backend.Realtime.Limits.{
  WithinLimits, Reach, here, next, registers, buffers, Reach-WithinLimits, new_hub-WithinLimits,
}
use arsivinyo_memegy_backend.Realtime.Bootstrap.{
  Fanout, after_fanouts, payloads_to, bootstrap_order,
}

abbrev hub : RealtimeHub
hub = new_hub 1 2 3

abbrev one : RealtimeHub
one = (register_connection 7 1 hub).1

registered : register_connection 7 1 hub ≡ (ok 7, one)
unfolding register_connection new_hub get_user total_connections
registered = refl

abbrev two : RealtimeHub
two = (register_connection 8 2 one).1

third_refused : (register_connection 9 3 two).0 ≡ err global_limit_exceeded
unfolding register_connection new_hub get_user total_connections
third_refused = refl

abbrev history : Reach hub (fanout_buffer 1 "m" two).1
history = next (next (next here (registers hub 7 1)) (registers one 8 2)) (buffers two 1 "m")

Reach-WithinLimits_example : WithinLimits (fanout_buffer 1 "m" two).1
Reach-WithinLimits_example = Reach-WithinLimits (new_hub-WithinLimits 1 2 3) history

abbrev fanouts : List Fanout
fanouts =
    record { accepts = λ id. true; user = 1; payload = "a" }
    ∷ record { accepts = λ id. true; user = 2; payload = "b" }
    ∷ record { accepts = λ id. true; user = 1; payload = "c" }
    ∷ []

bootstrap_order_example :
    (mark_bootstrapped_and_take_pending 1 7 (after_fanouts fanouts one)).0 ≡ payloads_to 1 fanouts
bootstrap_order_example =
    bootstrap_order 7 7 1 hub one fanouts registered (unfold new_hub in omega arith)

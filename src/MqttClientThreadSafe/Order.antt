-- ===== src/MqttClientThreadSafe/Order.antt =====
-- mqtt/mqtt-client-threadsafe.cpp against mqtt/mqtt-client-singlethread.cpp, one event at a time.
use things_mqtt_lua.Prelude.{◌≡◌, refl, ◌∙◌, sym, ap, List, [], ◌∷◌, ◌++◌, append_assoc, append-nil}
use things_mqtt_lua.Mosquitto.{
  Mosquitto, Event, connected, disconnected, published, received, subscribed, unsubscribed, logged,
}
use things_mqtt_lua.ThreadSafeQueue
use things_mqtt_lua.ThreadSafeQueue.Fifo.{to_list}
use things_mqtt_lua.MqttClient.{MqttClient}
use things_mqtt_lua.MqttClient.Resubscribing.{resubscribe}
use things_mqtt_lua.MqttCallbacks.{Call, to_delivery}
use things_mqtt_lua.MqttClientSingleThread
use things_mqtt_lua.MqttClientSingleThread.{MqttClientSingleThread}
use things_mqtt_lua.MqttClientThreadSafe.{
  MqttClientThreadSafe, MqttEvent, MqttEventType, connect, disconnect, publish, message, subscribe,
  unsubscribe, event_of, event_of_message, handle, call_of, call_of_type,
}

module _ {m : Mosquitto} {C : Type 0} where
  -- The single-thread client through a list of events, and the callbacks that it makes.
  abbrev pub run_single :
      List Event → MqttClientSingleThread m C → List (Call C) × MqttClientSingleThread m C
  run_single [] c = ([], c)
  run_single (e ∷ es) c =
      let (k, c') = MqttClientSingleThread.handle e c in
      let (ks, c'') = run_single es c' in (to_list k ++ ks, c'')

  -- The callbacks that `loop` makes of a queue.
  abbrev pub calls_of : List MqttEvent → MqttClient m C → List (Call C)
  calls_of [] b = []
  calls_of (event ∷ events) b = to_list (call_of event b) ++ calls_of events b

  abbrev pub queued : MqttClientThreadSafe m C → List (Call C)
  queued c = calls_of c.m_event_queue.m_queue c.base

  calls_of-append :
      (xs ys : List MqttEvent) (b : MqttClient m C)
      → calls_of (xs ++ ys) b ≡ calls_of xs b ++ calls_of ys b
  calls_of-append [] ys b = refl
  calls_of-append (x ∷ xs) ys b =
      ap (◌++◌ (to_list (call_of x b))) (calls_of-append xs ys b)
      ∙ sym (append_assoc (to_list (call_of x b)) (calls_of xs b) (calls_of ys b))

  -- The world plays no part in which callback an event calls.
  call_of_type-world :
      (t : MqttEventType) (event : MqttEvent) (b : MqttClient m C) (w : m.World)
      → call_of_type t event (record b { world = w }) ≡ call_of_type t event b
  unfolding call_of_type
  call_of_type-world connect event b w = refl
  call_of_type-world disconnect event b w = refl
  call_of_type-world publish event b w = refl
  call_of_type-world message event b w = refl
  call_of_type-world subscribe event b w = refl
  call_of_type-world unsubscribe event b w = refl

  pub calls_of-world :
      (events : List MqttEvent) (b : MqttClient m C) (w : m.World)
      → calls_of events (record b { world = w }) ≡ calls_of events b
  calls_of-world [] b w = refl
  calls_of-world (event ∷ events) b w =
      rw (call_of_type-world event.type event b w, calls_of-world events b w) refl

  calls_of-post :
      (event : MqttEvent) (c : MqttClientThreadSafe m C)
      → calls_of (c.m_event_queue.m_queue ++ event ∷ []) c.base
        ≡ queued c ++ to_list (call_of event c.base)
  calls_of-post event c =
      calls_of-append c.m_event_queue.m_queue (event ∷ []) c.base
      ∙ ap (◌++◌ (queued c)) (append-nil (to_list (call_of event c.base)))

  -- The single-thread client with the same base and flag.
  abbrev pub single : MqttClientThreadSafe m C → MqttClientSingleThread m C
  single c = record { base = c.base; m_connected = c.m_connected }

  pub single-handle :
      (e : Event) (c : MqttClientThreadSafe m C)
      → single (handle e c) ≡ (MqttClientSingleThread.handle e (single c)).1
  unfolding handle MqttClientSingleThread.handle
  single-handle (connected rc) c = refl
  single-handle (disconnected rc) c = refl
  single-handle (published mid) c = refl
  single-handle (received msg) c = refl
  single-handle (subscribed mid granted) c = refl
  single-handle (unsubscribed mid) c = refl
  single-handle (logged level msg) c = refl

  -- The queue grows by the callback that the single-thread handler makes.
  pub queued-handle :
      (e : Event) (c : MqttClientThreadSafe m C)
      → queued (handle e c) ≡ queued c ++ to_list (MqttClientSingleThread.handle e (single c)).0
  unfolding handle MqttClientSingleThread.handle ThreadSafeQueue.emplace call_of_type resubscribe
      to_delivery
  queued-handle (connected rc) c =
      calls_of-world (c.m_event_queue.m_queue ++ event_of connect rc ∷ []) c.base _
      ∙ calls_of-append c.m_event_queue.m_queue (event_of connect rc ∷ []) c.base
      ∙ ap (◌++◌ (queued c)) (append-nil _)
  queued-handle (disconnected rc) c = calls_of-post (event_of disconnect rc) c
  queued-handle (published mid) c = calls_of-post (event_of publish mid) c
  queued-handle (received msg) c = calls_of-post (event_of_message msg) c
  queued-handle (subscribed mid granted) c = calls_of-post (event_of subscribe mid) c
  queued-handle (unsubscribed mid) c = calls_of-post (event_of unsubscribe mid) c
  queued-handle (logged level msg) c = sym (append-nil (queued c))

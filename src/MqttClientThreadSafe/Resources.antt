-- ===== src/MqttClientThreadSafe/Resources.antt =====
-- mqtt/mqtt-client-threadsafe.cpp: what a client makes of the resources of libmosquitto, from its
-- constructor to its destructor, on both threads. The library keeps a ledger of them.
use things_mqtt_lua.Prelude.{◌≡◌, refl, Bool, Option, String, List, [], ◌∷◌}
use things_mqtt_lua.Prelude.Int.{ℤ}
use things_mqtt_lua.Mosquitto.{Mosquitto, Event}
use things_mqtt_lua.Mosquitto.Discipline.{Discipline, InitKeeps, ledger_init, ledger_discipline}
use things_mqtt_lua.Mosquitto.Ledger.{empty_ledger, tallied}
use things_mqtt_lua.MqttClient
use things_mqtt_lua.MqttClient.{MqttClient, MqttSslConfig}
use things_mqtt_lua.MqttClient.Setters
use things_mqtt_lua.MqttClient.Codes.{MqttQos}
use things_mqtt_lua.MqttClient.Handle.{
  connect-Uses, connect_bind-Uses, subscribe-Uses, unsubscribe-Uses, publish-Uses,
}
use things_mqtt_lua.MqttClient.Lifetime.{configure-Tends, destruct-Held}
use things_mqtt_lua.ThreadSafeQueue
use things_mqtt_lua.MqttClientThreadSafe.{
  MqttEventType, connect, disconnect, publish, message, subscribe, unsubscribe,
  MqttClientThreadSafe, handle, perform, destruct, lib_init, after_configure, configure, new,
  on_base,
}
use things_mqtt_lua.MqttClientThreadSafe.Handle.{
  ClientOwns, lib_init-Tends, after_configure-Tends, handle-Owns, disconnect-Owns, destruct-Owns,
}

-- A step of one of the threads: a public method on the main thread, or an event on the network thread.
-- `loop` is a `pops` for each event that it takes, with the steps between them that the callbacks of the
-- owner make; `is_connected` changes nothing and has no step.
pub data Step (C : Type 0) : Type 0 where
  configures : Option String → Option String → Option String → Option MqttSslConfig → Step C
  connects : String → ℤ → ℤ → Step C
  binds : String → String → ℤ → ℤ → Step C
  disconnects : Step C
  subscribes : String → MqttQos → Step C
  unsubscribes : String → Step C
  publishes : String → String → MqttQos → Bool → Step C
  sets : MqttEventType → Option C → Step C
  pops : Step C
  network : Event → Step C

module _ {m : Mosquitto} {C : Type 0} where
  -- `set_connect_callback` and the other five
  abbrev pub set_callback : MqttEventType → Option C → MqttClient m C → MqttClient m C
  set_callback connect f = Setters.set_connect_callback f
  set_callback disconnect f = Setters.set_disconnect_callback f
  set_callback publish f = Setters.set_publish_callback f
  set_callback message f = Setters.set_message_callback f
  set_callback subscribe f = Setters.set_subscribe_callback f
  set_callback unsubscribe f = Setters.set_unsubscribe_callback f

  -- Each method in whatever state the step before has left, thrown or not.
  abbrev pub apply : Step C → MqttClientThreadSafe m C → MqttClientThreadSafe m C
  apply (configures client_id username password ssl) c =
      (configure client_id username password ssl c).1
  apply (connects host port keepalive) c = (on_base (MqttClient.connect host port keepalive) c).1
  apply (binds host bind_address port keepalive) c =
      (on_base (MqttClient.connect_bind host bind_address port keepalive) c).1
  apply disconnects c = perform (MqttClient.disconnect c.base) c
  apply (subscribes topic qos) c = (on_base (MqttClient.subscribe topic qos) c).1
  apply (unsubscribes topic) c = (on_base (MqttClient.unsubscribe topic) c).1
  apply (publishes topic payload qos retain) c =
      (on_base (MqttClient.publish topic payload qos retain) c).1
  apply (sets kind f) c = record c { base = set_callback kind f c.base }
  apply pops c = record c { m_event_queue = (ThreadSafeQueue.pop c.m_event_queue).1 }
  apply (network e) c = handle e c

  abbrev pub apply_all : List (Step C) → MqttClientThreadSafe m C → MqttClientThreadSafe m C
  apply_all [] c = c
  apply_all (x ∷ xs) c = apply_all xs (apply x c)

  module _ (d : Discipline m) (init : InitKeeps d) where
    set_callback-Owns :
        (kind : MqttEventType) (f : Option C) (c : MqttClientThreadSafe m C)
        → ClientOwns d c
        → ClientOwns d (record c { base = set_callback kind f c.base })
    unfolding Setters.set_connect_callback Setters.set_disconnect_callback
        Setters.set_publish_callback Setters.set_message_callback Setters.set_subscribe_callback
        Setters.set_unsubscribe_callback
    set_callback-Owns connect f c owns = owns
    set_callback-Owns disconnect f c owns = owns
    set_callback-Owns publish f c owns = owns
    set_callback-Owns message f c owns = owns
    set_callback-Owns subscribe f c owns = owns
    set_callback-Owns unsubscribe f c owns = owns

    apply-Owns :
        (x : Step C) (c : MqttClientThreadSafe m C) → ClientOwns d c → ClientOwns d (apply x c)
    apply-Owns (configures client_id username password ssl) c owns =
        configure-Tends d lib_init after_configure client_id username password ssl
          (lib_init-Tends d init) (after_configure-Tends d) c.base owns
    apply-Owns (connects host port keepalive) c owns =
        (connect-Uses d host port keepalive c.base owns).1
    apply-Owns (binds host bind_address port keepalive) c owns =
        (connect_bind-Uses d host bind_address port keepalive c.base owns).1
    apply-Owns disconnects c owns = disconnect-Owns d c owns
    apply-Owns (subscribes topic qos) c owns = (subscribe-Uses d topic qos c.base owns).1
    apply-Owns (unsubscribes topic) c owns = (unsubscribe-Uses d topic c.base owns).1
    apply-Owns (publishes topic payload qos retain) c owns =
        (publish-Uses d topic payload qos retain c.base owns).1
    apply-Owns (sets kind f) c owns = set_callback-Owns kind f c owns
    apply-Owns pops c owns = owns
    apply-Owns (network e) c owns = (handle-Owns d e c owns).1

    apply_all-Owns :
        (xs : List (Step C)) (c : MqttClientThreadSafe m C)
        → ClientOwns d c
        → ClientOwns d (apply_all xs c)
    apply_all-Owns [] c owns = owns
    apply_all-Owns (x ∷ xs) c owns = apply_all-Owns xs (apply x c) (apply-Owns x c owns)

-- However the public methods on the main thread and the events on the network thread of a new client are
-- interleaved, whatever the library answers, and whether `configure` fails or not: after the destructors
-- of the client and of its base, every handle that the library gave out is destroyed, and the library was
-- never called with one that was destroyed before.
pub threaded_releases :
    (m : Mosquitto) (C : Type 0) (xs : List (Step C)) (w : m.World)
    → let c : MqttClientThreadSafe (tallied m) C = apply_all xs (new (w, empty_ledger)) in
      let g = (MqttClient.destruct (destruct c).base).1 in (g.live ≡ []) × (g.misuses ≡ 0)
unfolding new MqttClient.new
threaded_releases m C xs w =
    let d = ledger_discipline m in
    let c : MqttClientThreadSafe (tallied m) C = apply_all xs (new (w, empty_ledger)) in
    let (w', held, e) = destruct-Held d (destruct c).base (
      destruct-Owns d c
        (apply_all-Owns d (ledger_init m) xs (new (w, empty_ledger)) (refl, refl))) in
    rw e held

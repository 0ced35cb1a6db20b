-- ===== src/MqttClientApi.antt =====
-- mqtt/mqtt-client.hpp: the class `MqttClient` as those see it that hold one, and what its comments
-- promise of each call.
pub mod Clients
pub mod Requests
use Prim.Native.String.{len}
use things_mqtt_lua.Prelude.{
  ℕ, ◌≡◌, ◌≢◌, refl, ◌^◌, ◌<◌, ◌∙◌, ap, ◌↔◌, Bool, true, false, not, Option, List, [], ◌∷◌, ◌++◌,
  String, if◌then◌else◌, ◌==◌, string_eq, length, get_or, arith,
}
use things_mqtt_lua.Prelude.Int.{ℤ, pos}
use things_mqtt_lua.Prelude.Effect.{runtime_error, ok, raised, Action, Void}
use things_mqtt_lua.Mosquitto.{
  Mosquitto, Run, MosqErr, success, no_conn, Event, connected, disconnected, published, received,
  subscribed, unsubscribed, logged,
}
use things_mqtt_lua.MqttClient
use things_mqtt_lua.MqttClient.{MqttClient, MqttSslConfig}
use things_mqtt_lua.MqttClient.Codes.{MqttQos, is_accepted}
use things_mqtt_lua.MqttClient.Resubscribing.{resubscribe}
use things_mqtt_lua.MqttClient.Subscriptions.{
  Passes, asked, is_kept, answered, subscribe_keeps, unsubscribe_removes, publish_answers,
}
use things_mqtt_lua.MqttClientSingleThread
use things_mqtt_lua.MqttClientThreadSafe

-- The public methods. `on_event` is what the handlers that `after_configure` registers do to the object;
-- `disconnect` is what the library then does, the events that it calls back with among it.
pub record MqttClientApi (m : Mosquitto) (C : Type 0) : Type 1 where
  pub Self : Type 0
  pub base : Self → MqttClient m C
  pub configure :
      Option String → Option String → Option String → Option MqttSslConfig → Action Self Void
  pub connect : String → ℤ → ℤ → Action Self Void
  pub connect_bind : String → String → ℤ → ℤ → Action Self Void
  pub disconnect : Self → Run m.World
  pub subscribe : String → MqttQos → Action Self Void
  pub unsubscribe : String → Action Self Void
  pub publish : String → String → MqttQos → Bool → Action Self (Bool × ℤ)
  pub is_connected : Self → Bool
  pub set_connect_callback : Option C → Self → Self
  pub set_disconnect_callback : Option C → Self → Self
  pub set_publish_callback : Option C → Self → Self
  pub set_message_callback : Option C → Self → Self
  pub set_subscribe_callback : Option C → Self → Self
  pub set_unsubscribe_callback : Option C → Self → Self
  pub on_event : Event → Self → Self

-- The virtual methods, in an owner of the client. `loop` is given fuel, and tells whether it has come to
-- its end.
pub record MqttClientVirtuals (m : Mosquitto) (C S : Type 0) : Type 0 where
  pub destruct : Action S Void
  pub loop : ℕ → Action S Bool
  pub lib_init : Action (MqttClient m C) MosqErr
  pub after_configure : Action (MqttClient m C) Void

-- The flag after an event.
abbrev pub flag_after : Event → Bool → Bool
flag_after (connected rc) b = is_accepted rc
flag_after (disconnected rc) b = false
flag_after _ b = b

module _ {m : Mosquitto} {C : Type 0} (api : MqttClientApi m C) where
  open api use {Self, base}

  -- "throws std::runtime_error if the connection fails"
  abbrev pub ConnectThrows : Type 0
  ConnectThrows =
      (host : String) (port keepalive : ℤ) (s : Self)
      → let rc = (m.connect (base s).m_mosq host port keepalive (base s).world).0 in
        let r = (api.connect host port keepalive s).0 in
        ((rc ≡ success) ↔ (r ≡ ok tt))
        × ((rc ≢ success) ↔ (r ≡ raised (runtime_error "Failed to connect to MQTT broker")))

  abbrev pub BoundConnectThrows : Type 0
  BoundConnectThrows =
      (host bind_address : String) (port keepalive : ℤ) (s : Self)
      → let rc =
          (m.connect_bind (base s).m_mosq host port keepalive bind_address (base s).world).0 in
        let r = (api.connect_bind host bind_address port keepalive s).0 in
        ((rc ≡ success) ↔ (r ≡ ok tt))
        × ((rc ≢ success) ↔ (r ≡ raised (runtime_error "Failed to connect to MQTT broker")))

  -- "If the client is not currently connected, the subscription will be applied when the client
  -- connects": it is kept.
  abbrev pub SubscribeKeeps : Type 0
  SubscribeKeeps =
      (topic : String) (qos : MqttQos) (s : Self)
      → length (base s).m_qos_subscriptions ≡ 3
      → qos < 3
      → Passes (asked topic qos (base s)).0
      → let (r, s') = api.subscribe topic qos s in
        (r ≡ ok tt)
        × (get_or (base s').m_qos_subscriptions qos []
            ≡ get_or (base s).m_qos_subscriptions qos [] ++ topic ∷ [])

  -- "the resubscription will not be applied when the client connects": it is not kept.
  abbrev pub UnsubscribeForgets : Type 0
  UnsubscribeForgets =
      (topic : String) (qos : MqttQos) (s : Self)
      → Passes (m.unsubscribe (base s).m_mosq topic (base s).world).0
      → let (r, s') = api.unsubscribe topic s in
        (r ≡ ok tt) × (is_kept topic qos (base s').m_qos_subscriptions ≡ false)

  -- "true if the message was successfully published, false if disconnected", and else it throws
  abbrev pub PublishAnswers : Type 0
  PublishAnswers =
      (topic payload : String) (qos : MqttQos) (retain : Bool) (s : Self)
      → len payload < 2 ^ 31
      → let (rc, mid, w) = answered topic (pos (len payload)) payload qos retain (base s) in
        let r = (api.publish topic payload qos retain s).0 in
        ((rc ≡ success) ↔ (r ≡ ok (true, mid)))
        × ((rc ≡ no_conn) ↔ (r ≡ ok (false, mid)))
        × (¬ (Passes rc) ↔ (r ≡ raised (runtime_error "Failed to publish message")))

  -- "true if connected, false otherwise"
  abbrev pub FlagFollows : Type 0
  FlagFollows =
      (e : Event) (s : Self)
      → api.is_connected (api.on_event e s) ≡ flag_after e (api.is_connected s)

  -- An event leaves the kept subscriptions and the handle as they are.
  abbrev pub EventsKeep : Type 0
  EventsKeep =
      (e : Event) (s : Self)
      → ((base (api.on_event e s)).m_qos_subscriptions ≡ (base s).m_qos_subscriptions)
        × ((base (api.on_event e s)).m_mosq ≡ (base s).m_mosq)

  -- When the client connects, the kept subscriptions are made again.
  abbrev pub ConnectingResubscribes : Type 0
  ConnectingResubscribes =
      (rc : ℤ) (s : Self)
      → (base (api.on_event (connected rc) s)).world ≡ (resubscribe (base s)).world

  abbrev pub Contract : Type 0
  Contract =
      ConnectThrows × BoundConnectThrows × SubscribeKeeps × UnsubscribeForgets × PublishAnswers
      × FlagFollows × EventsKeep × ConnectingResubscribes

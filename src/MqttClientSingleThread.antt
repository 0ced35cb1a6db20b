-- ===== src/MqttClientSingleThread.antt =====
-- mqtt/mqtt-client-singlethread.hpp and .cpp: the client that the controller owns. Its static
-- handlers end in a call of a callback, so each is what it does to the client and the call to make.
-- `perform` carries the calls out on an owner of the client, of which the client is a part.
pub mod Configuring
pub mod Invariant
pub mod Handle
pub mod References
use things_mqtt_lua.Prelude.{Bool, false, Option, none, some, List, String}
use things_mqtt_lua.Prelude.Int.{ℤ}
use things_mqtt_lua.Prelude.Effect.{
  runtime_error, ok, raised, Action, Void, pure, throw, put, ◌>>=◌, ◌>>◌,
}
use things_mqtt_lua.Mosquitto.{
  Mosquitto, MosqErr, success, no_conn, conn_lost, other, Event, connected, disconnected, published,
  received, subscribed, unsubscribed, logged, Message, Run, returns, calls, CallbackKind,
  connect_cb, disconnect_cb, publish_cb, message_cb, subscribe_cb, unsubscribe_cb, log_cb,
}
use things_mqtt_lua.MqttClient
use things_mqtt_lua.MqttClient.{MqttClient, call, tell}
use things_mqtt_lua.MqttClient.Resubscribing.{resubscribe}
use things_mqtt_lua.MqttClient.Codes.{is_accepted}
use things_mqtt_lua.MqttCallbacks.{
  Call, on_connected, on_disconnected, on_published, on_received, on_subscribed, on_unsubscribed,
  invoke, to_delivery,
}

pub record MqttClientSingleThread (m : Mosquitto) (C : Type 0) : Type 0 where
  pub base : MqttClient m C
  pub open base use *
  pub m_connected : Bool

module _ {m : Mosquitto} {C : Type 0} where
  unfoldable pub new : m.World → MqttClientSingleThread m C
  new w = record { base = MqttClient.new w; m_connected = false }

  unfoldable pub is_connected : MqttClientSingleThread m C → Bool
  is_connected c = c.m_connected

  abbrev pub on_base :
      {A : Type 0} → Action (MqttClient m C) A → Action (MqttClientSingleThread m C) A
  on_base f c = let (r, b) = f c.base in (r, record c { base = b })

  -- `MqttClientSingleThread::lib_init`
  unfoldable pub lib_init : Action (MqttClient m C) MosqErr
  lib_init = call m.lib_init

  abbrev pub register : CallbackKind → Action (MqttClient m C) Void
  register kind = put (λ c. record c { world = m.callback_set c.m_mosq kind c.world })

  unfoldable pub after_configure : Action (MqttClient m C) Void
  after_configure = do
    register connect_cb
    register disconnect_cb
    register publish_cb
    register message_cb
    register subscribe_cb
    register unsubscribe_cb
    register log_cb

  abbrev pub configure :
      Option String
      → Option String
      → Option String
      → Option MqttClient.MqttSslConfig
      → Action (MqttClientSingleThread m C) Void
  configure client_id username password ssl_config =
      on_base (MqttClient.configure lib_init after_configure client_id username password ssl_config)

  unfoldable pub on_connect :
      ℤ → MqttClientSingleThread m C → Option (Call C) × MqttClientSingleThread m C
  on_connect rc c = (
    invoke on_connected c.m_connect_callback rc,
    record c { base = resubscribe c.base; m_connected = is_accepted rc },
  )

  unfoldable pub on_disconnect :
      ℤ → MqttClientSingleThread m C → Option (Call C) × MqttClientSingleThread m C
  on_disconnect rc c =
      (invoke on_disconnected c.m_disconnect_callback rc, record c { m_connected = false })

  unfoldable pub on_publish :
      ℤ → MqttClientSingleThread m C → Option (Call C) × MqttClientSingleThread m C
  on_publish message_id c = (invoke on_published c.m_publish_callback message_id, c)

  unfoldable pub on_message :
      Message → MqttClientSingleThread m C → Option (Call C) × MqttClientSingleThread m C
  on_message message c = (invoke on_received c.m_message_callback (to_delivery message), c)

  unfoldable pub on_subscribe :
      ℤ → List ℤ → MqttClientSingleThread m C → Option (Call C) × MqttClientSingleThread m C
  on_subscribe mid granted_qos c = (invoke on_subscribed c.m_subscribe_callback mid, c)

  unfoldable pub on_unsubscribe :
      ℤ → MqttClientSingleThread m C → Option (Call C) × MqttClientSingleThread m C
  on_unsubscribe mid c = (invoke on_unsubscribed c.m_unsubscribe_callback mid, c)

  unfoldable pub on_log :
      ℤ → String → MqttClientSingleThread m C → Option (Call C) × MqttClientSingleThread m C
  on_log level msg c = (none, c)

  -- The handler that the library calls for an event, as `after_configure` registers them.
  unfoldable pub handle :
      Event → MqttClientSingleThread m C → Option (Call C) × MqttClientSingleThread m C
  unfolding on_connect on_disconnect on_publish on_message on_subscribe on_unsubscribe on_log
  handle (connected rc) c = on_connect rc c
  handle (disconnected rc) c = on_disconnect rc c
  handle (published mid) c = on_publish mid c
  handle (received message) c = on_message message c
  handle (subscribed mid granted) c = on_subscribe mid granted c
  handle (unsubscribed mid) c = on_unsubscribe mid c
  handle (logged level msg) c = on_log level msg c

-- An object that holds a client and the closures given to it as callbacks.
pub record Owner (m : Mosquitto) (C S : Type 0) : Type 0 where
  pub client : S → MqttClientSingleThread m C
  pub set_client : MqttClientSingleThread m C → S → S
  pub dispatch : Call C → Action S Void

module _ {m : Mosquitto} {C S : Type 0} (o : Owner m C S) where
  abbrev pub set_world : m.World → S → S
  set_world w s =
      let c = o.client s in o.set_client (record c { base = record (c.base) { world = w } }) s

  abbrev pub dispatch_opt : Option (Call C) → Action S Void
  dispatch_opt none = pure tt
  dispatch_opt (some k) = o.dispatch k

  -- One callback of the library: the handler, then the closure that it calls.
  unfoldable pub react : Event → Action S Void
  unfolding handle
  react e s = let (k, c) = handle e (o.client s) in dispatch_opt k (o.set_client c s)

  -- A call of the library with the callbacks that it makes. An exception in a callback ends it.
  unfoldable pub perform : Run m.World → Action S MosqErr
  perform (returns rc w) s = (ok rc, set_world w s)
  perform (calls e w next) s =
      let (r, s') = react e (set_world w s) in
      elim r [ ok _ ↦ perform (next (o.client s').world) s' | raised e ↦ (raised e, s') ]

  abbrev pub set_connected : Bool → Action S Void
  set_connected b = put (λ s. o.set_client (record (o.client s) { m_connected = b }) s)

  abbrev pub after_loop : MosqErr → Action S Void
  after_loop success = pure tt
  after_loop no_conn = set_connected false
  after_loop conn_lost = set_connected false
  after_loop (other _) = throw (runtime_error "Error in mosquitto loop")

  -- `MqttClientSingleThread::loop`; `mosquitto_loop(m_mosq, -1, 1)` is a `Run`.
  unfoldable pub loop : Action S Void
  loop s = elim (o.client s).m_mosq [
    | none ↦ throw (runtime_error "MQTT client is not initialized") s
    | some h ↦ (perform (m.loop (some h) (o.client s).world) >>= after_loop) s
  ]

  unfoldable pub disconnect : Action S Void
  disconnect s = (perform (MqttClient.disconnect (o.client s).base) >>= λ _. pure tt) s

  -- `MqttClientSingleThread::~MqttClientSingleThread`, before the destructor of the base
  unfoldable pub destruct : Action S Void
  destruct s = elim (o.client s).m_mosq [ none ↦ pure tt s | some h ↦ disconnect s ]

-- ===== src/MqttClientThreadSafe.antt =====
-- mqtt/mqtt-client-threadsafe.hpp and .cpp: the client whose handlers run on libmosquitto's network
-- thread and leave events in a queue, which `loop` empties on the main thread.
pub mod Configuring
pub mod Interleaving
pub mod Order
pub mod Handle
pub mod Resources
use things_mqtt_lua.Prelude.{
  ℕ, zero, suc, Bool, true, false, not, Option, none, some, List, [], ◌∷◌, String, map,
}
use things_mqtt_lua.Prelude.Int.{ℤ, eqb_ℤ, pos}
use things_mqtt_lua.Prelude.Effect.{
  runtime_error, Result, ok, raised, Action, Void, pure, throw, throw_if, gets, put, when, ◌>>=◌,
  ◌>>◌,
}
use things_mqtt_lua.Mosquitto.{
  Mosquitto, MosqErr, Event, connected, disconnected, published, received, subscribed, unsubscribed,
  logged, Message, Run, CallbackKind, connect_cb, disconnect_cb, publish_cb, message_cb,
  subscribe_cb, unsubscribe_cb, log_cb, returns, calls,
}
use things_mqtt_lua.ThreadSafeQueue
use things_mqtt_lua.ThreadSafeQueue.{ThreadSafeQueue}
use things_mqtt_lua.MqttClient
use things_mqtt_lua.MqttClient.{MqttClient, call, destroy, is_success}
use things_mqtt_lua.MqttClient.Resubscribing.{resubscribe}
use things_mqtt_lua.MqttClient.Codes.{MqttQos, MqttConnectRc, is_accepted, to_qos}
use things_mqtt_lua.MqttCallbacks.{
  Call, Delivery, on_connected, on_disconnected, on_published, on_received, on_subscribed,
  on_unsubscribed, invoke,
}

pub data MqttEventType : Type 0 where
  connect disconnect publish message subscribe unsubscribe : MqttEventType

-- The union of `rc` and `message_id`, both of the size of an `int`, is the one field `word`.
pub record MqttEvent : Type 0 where
  pub topic : String
  pub payload : String
  pub word : ℤ
  pub type : MqttEventType
  pub qos : MqttQos
  pub retain : Bool

-- The designated initialisers that name the union and `type`: all else is value-initialised.
abbrev pub event_of : MqttEventType → ℤ → MqttEvent
event_of type word = record {
  topic = "";
  payload = "";
  word = word;
  type = type;
  qos = 0;
  retain = false;
}

abbrev pub event_of_message : Message → MqttEvent
event_of_message msg = record {
  topic = msg.topic;
  payload = msg.payload;
  word = msg.mid;
  type = message;
  qos = to_qos msg.qos;
  retain = not (eqb_ℤ msg.retain (pos 0));
}

-- The call of a `MessageCallback` that `loop` makes of an event.
abbrev pub delivery_of : MqttEvent → Delivery
delivery_of event = record {
  message_id = event.word;
  topic = event.topic;
  payload = event.payload;
  qos = event.qos;
  retain = event.retain;
}

pub record MqttClientThreadSafe (m : Mosquitto) (C : Type 0) : Type 0 where
  pub base : MqttClient m C
  pub open base use *
  pub m_connected : Bool
  pub m_event_queue : ThreadSafeQueue MqttEvent

module _ {m : Mosquitto} {C : Type 0} where
  unfoldable pub new : m.World → MqttClientThreadSafe m C
  new w = record {
    base = MqttClient.new w;
    m_connected = false;
    m_event_queue = ThreadSafeQueue.new;
  }

  unfoldable pub is_connected : MqttClientThreadSafe m C → Bool
  is_connected c = c.m_connected

  -- `m_lib_init_mutex` is held for the one call.
  unfoldable pub lib_init : Action (MqttClient m C) MosqErr
  lib_init = call m.lib_init

  abbrev pub register : CallbackKind → Action (MqttClient m C) Void
  register kind = put (λ c. record c { world = m.callback_set c.m_mosq kind c.world })

  unfoldable pub after_configure : Action (MqttClient m C) Void
  after_configure = do
    register connect_cb
    register disconnect_cb
    register publish_cb
    register message_cb
    register subscribe_cb
    register unsubscribe_cb
    register log_cb
    c ← gets (λ c. c)
    rc ← call (m.loop_start c.m_mosq)
    when (not (is_success rc))
        (destroy >> throw (runtime_error "Failed to start mosquitto network loop"))

  abbrev pub on_base :
      {A : Type 0} → Action (MqttClient m C) A → Action (MqttClientThreadSafe m C) A
  on_base f c = let (r, b) = f c.base in (r, record c { base = b })

  abbrev pub configure :
      Option String
      → Option String
      → Option String
      → Option MqttClient.MqttSslConfig
      → Action (MqttClientThreadSafe m C) Void
  configure client_id username password ssl_config =
      on_base (MqttClient.configure lib_init after_configure client_id username password ssl_config)

  -- `client->m_event_queue.emplace(event)`
  abbrev pub post : MqttEvent → MqttClientThreadSafe m C → MqttClientThreadSafe m C
  post event c = record c { m_event_queue = ThreadSafeQueue.emplace (λ e. e) event c.m_event_queue }

  unfoldable pub on_connect : ℤ → MqttClientThreadSafe m C → MqttClientThreadSafe m C
  on_connect rc c =
      post (event_of connect rc)
        (record c { base = resubscribe c.base; m_connected = is_accepted rc })

  unfoldable pub on_disconnect : ℤ → MqttClientThreadSafe m C → MqttClientThreadSafe m C
  on_disconnect rc c = post (event_of disconnect rc) (record c { m_connected = false })

  unfoldable pub on_publish : ℤ → MqttClientThreadSafe m C → MqttClientThreadSafe m C
  on_publish message_id = post (event_of publish message_id)

  unfoldable pub on_message : Message → MqttClientThreadSafe m C → MqttClientThreadSafe m C
  on_message msg = post (event_of_message msg)

  unfoldable pub on_subscribe : ℤ → List ℤ → MqttClientThreadSafe m C → MqttClientThreadSafe m C
  on_subscribe mid granted_qos = post (event_of subscribe mid)

  unfoldable pub on_unsubscribe : ℤ → MqttClientThreadSafe m C → MqttClientThreadSafe m C
  on_unsubscribe mid = post (event_of unsubscribe mid)

  unfoldable pub on_log : ℤ → String → MqttClientThreadSafe m C → MqttClientThreadSafe m C
  on_log level msg c = c

  -- The handler that the network thread runs for an event.
  unfoldable pub handle : Event → MqttClientThreadSafe m C → MqttClientThreadSafe m C
  unfolding on_connect on_disconnect on_publish on_message on_subscribe on_unsubscribe on_log
  handle (connected rc) = on_connect rc
  handle (disconnected rc) = on_disconnect rc
  handle (published mid) = on_publish mid
  handle (received msg) = on_message msg
  handle (subscribed mid granted) = on_subscribe mid granted
  handle (unsubscribed mid) = on_unsubscribe mid
  handle (logged level msg) = on_log level msg

  abbrev pub set_world : m.World → MqttClientThreadSafe m C → MqttClientThreadSafe m C
  set_world w c = record c { base = record (c.base) { world = w } }

  -- A call of the library with the callbacks that it makes.
  unfoldable pub perform : Run m.World → MqttClientThreadSafe m C → MqttClientThreadSafe m C
  unfolding handle
  perform (returns rc w) c = set_world w c
  perform (calls e w next) c = let c' = handle e (set_world w c) in perform (next c'.world) c'

  -- `MqttClientThreadSafe::~MqttClientThreadSafe`, before the destructor of the base
  unfoldable pub destruct : MqttClientThreadSafe m C → MqttClientThreadSafe m C
  unfolding perform
  destruct c = elim c.m_mosq [
    | none ↦ c
    | some h ↦
        let c' = perform (m.disconnect (some h) c.world) c in
        set_world (m.loop_stop c'.m_mosq true c'.world) c'
  ]

  -- the `switch` in `loop`
  unfoldable pub call_of_type : MqttEventType → MqttEvent → MqttClient m C → Option (Call C)
  call_of_type connect event c = invoke on_connected c.m_connect_callback event.word
  call_of_type disconnect event c = invoke on_disconnected c.m_disconnect_callback event.word
  call_of_type publish event c = invoke on_published c.m_publish_callback event.word
  call_of_type message event c = invoke on_received c.m_message_callback (delivery_of event)
  call_of_type subscribe event c = invoke on_subscribed c.m_subscribe_callback event.word
  call_of_type unsubscribe event c = invoke on_unsubscribed c.m_unsubscribe_callback event.word

  abbrev pub call_of : MqttEvent → MqttClient m C → Option (Call C)
  call_of event c = call_of_type event.type event c

-- An object that holds a client and the closures given to it as callbacks.
pub record Owner (m : Mosquitto) (C S : Type 0) : Type 0 where
  pub client : S → MqttClientThreadSafe m C
  pub set_client : MqttClientThreadSafe m C → S → S
  pub dispatch : Call C → Action S Void

module _ {m : Mosquitto} {C S : Type 0} (o : Owner m C S) where
  abbrev pub dispatch_opt : Option (Call C) → Action S Void
  dispatch_opt none = pure tt
  dispatch_opt (some k) = o.dispatch k

  -- `m_event_queue.pop()`
  abbrev pub pop_event : S → Option MqttEvent × S
  pop_event s =
      let c = o.client s in
      let (event, q) = ThreadSafeQueue.pop c.m_event_queue in
      (event, o.set_client (record c { m_event_queue = q }) s)

  -- `loop` for at most as many events as the fuel says; the result tells whether it saw the queue
  -- empty, which ends the `while`.
  unfoldable pub loop : ℕ → Action S Bool
  loop zero s = (ok false, s)
  loop (suc fuel) s =
      let (event, s') = pop_event s in
      elim event [
        | none ↦ (ok true, s')
        | some e ↦
            let (r, s'') = dispatch_opt (call_of e (o.client s').base) s' in
            elim r [ ok _ ↦ loop fuel s'' | raised x ↦ (raised x, s'') ]
      ]

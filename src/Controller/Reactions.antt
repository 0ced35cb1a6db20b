-- ===== src/Controller/Reactions.antt =====
-- controller.cpp: what the controller does when the library calls back, its remote procedure calls,
-- and the calls that let the library work.
use Prim.Native.String
use things_mqtt_lua.Prelude.{
  ℕ, ◌+◌, ◌%◌, ◌^◌, Bool, true, false, not, Option, none, some, List, [], ◌∷◌, String, ◌==◌,
  string_eq, nat_eq,
}
use things_mqtt_lua.Prelude.Dict.{lookup, insert_or_assign, erase}
use things_mqtt_lua.Prelude.Effect.{
  parse_error, type_error, Exception, Result, ok, raised, Action, Void, pure, put, when, ◌>>=◌,
  ◌>>◌, for_each,
}
use things_mqtt_lua.MqttClient
use things_mqtt_lua.MqttClient.Codes.{MqttConnectRc, exactly_once, is_accepted}
use things_mqtt_lua.MqttClientSingleThread
use things_mqtt_lua.MqttClientSingleThread.{Owner}
use things_mqtt_lua.MqttCallbacks.{Call, Delivery, on_connected, on_received}
use things_mqtt_lua.Platform.{Json, Platform}
use things_mqtt_lua.Controller.Payload.{collect_all}
use things_mqtt_lua.Controller.State.{
  Controller, Closure, calls_on_mqtt_connect, calls_on_mqtt_message, on_base, is_empty, tail,
}
use things_mqtt_lua.Controller.Sending.{publish, send_attributes}

-- `THINGSMQTT_RPC_TOPIC "/+"`
abbrev pub rpc_filter : Platform → String
rpc_filter p = String.◌++◌ p.rpc_topic "/+"

-- The method and the parameters of a request; `none` is a `type_error`. The element is read by
-- `operator[]`, which may put a null into the object.
abbrev pub method_and_params : (j : Json) → Option String → j.Value → Option (String × j.Value)
method_and_params j none payload_json = none
method_and_params j (some method) payload_json = elim (j.index payload_json "params") [
  | none ↦ none
  | some (params, _) ↦ some (method, params)
]

abbrev pub request_of : (j : Json) → j.Value → Option (String × j.Value)
request_of j payload_json = elim (j.index payload_json "method") [
  | none ↦ none
  | some (method, payload_json') ↦ method_and_params j (j.get_string method) payload_json'
]

module _ {p : Platform} where
  -- `m_pending_telemetry.pop_front()`
  abbrev pub pop_pending : Action (Controller p) Void
  pop_pending = put (λ c. record c { m_pending_telemetry = tail c.m_pending_telemetry })

  -- The `while` over the queue, whose front is published and then popped.
  unfoldable pub send_pending : List String → Action (Controller p) Void
  send_pending [] = pure tt
  send_pending (payload ∷ rest) = do
    publish p.telemetry_topic payload
    pop_pending
    send_pending rest

  -- `onMqttConnect`, the attributes
  unfoldable pub send_all_attributes : Action (Controller p) Void
  send_all_attributes c =
      when (not (is_empty c.m_attribute_data))
        (send_attributes (collect_all p.json c.m_attribute_data p.json.null)) c

  -- `onMqttConnect`, the queue
  unfoldable pub send_all_pending : Action (Controller p) Void
  send_all_pending c = send_pending c.m_pending_telemetry c

  -- `onMqttConnect` once the connection is accepted
  unfoldable pub on_accepted : Action (Controller p) Void
  on_accepted = do
    on_base (MqttClient.subscribe (rpc_filter p) exactly_once)
    send_all_attributes
    send_all_pending

  unfoldable pub on_mqtt_connect : MqttConnectRc → Action (Controller p) Void
  on_mqtt_connect rc = when (is_accepted rc) on_accepted

  abbrev pub or_throw : {A : Type 0} → Option A → Exception → Action (Controller p) A
  or_throw none e c = (raised e, c)
  or_throw (some a) e c = (ok a, c)

  -- `handler(method, params)`; what it returns is not read
  abbrev pub call_handler : String → p.Value → ℕ × p.RpcHandler → Action (Controller p) Void
  call_handler method params (id, handler) =
      on_base (λ b.
        let (r, w) = p.run_handler handler method params b.world in (r, record b { world = w }))
      >>= λ _. pure tt

  -- `for ([id, handler] : m_rpc_handlers) handler(method, params);`
  unfoldable pub call_handlers : String × p.Value → Action (Controller p) Void
  call_handlers (method, params) c = for_each c.m_rpc_handlers (call_handler method params) c

  -- `onMqttMessage` once the topic is that of remote procedure calls
  unfoldable pub on_rpc : String → Action (Controller p) Void
  on_rpc payload = do
    payload_json ← or_throw (p.json.parse payload) parse_error
    request ← or_throw (request_of p.json payload_json) type_error
    call_handlers request

  unfoldable pub on_mqtt_message : Delivery → Action (Controller p) Void
  on_mqtt_message d = when (d.topic == p.rpc_topic) (on_rpc d.payload)

  -- The lambdas that `connect` installs; the types of the callbacks admit no other pairing.
  unfoldable pub dispatch : Call Closure → Action (Controller p) Void
  dispatch (on_connected calls_on_mqtt_connect rc) = on_mqtt_connect rc
  dispatch (on_received calls_on_mqtt_message d) = on_mqtt_message d
  dispatch _ = pure tt

  abbrev pub owner : Owner p.mosquitto Closure (Controller p)
  owner = record {
    client = λ c. c.m_mqtt_client;
    set_client = λ m c. record c { m_mqtt_client = m };
    dispatch = dispatch;
  }

  unfoldable pub loop : Action (Controller p) Void
  loop = MqttClientSingleThread.loop owner

  unfoldable pub disconnect : Action (Controller p) Void
  disconnect = MqttClientSingleThread.disconnect owner

  -- `next_id` is a `static size_t` of the function, one for all controllers: it comes in and goes out
  -- beside the controller. The first component is the result.
  unfoldable pub add_rpc_handler : p.RpcHandler → ℕ × Controller p → ℕ × ℕ × Controller p
  add_rpc_handler handler (next_id, c) = (
    next_id,
    (next_id + 1) % 2 ^ 64,
    record c { m_rpc_handlers = insert_or_assign next_id handler c.m_rpc_handlers },
  )

  unfoldable pub remove_rpc_handler : ℕ → Controller p → Bool × Controller p
  remove_rpc_handler handler_id c = (
    elim (lookup handler_id c.m_rpc_handlers) [ some _ ↦ true | none ↦ false ],
    record c { m_rpc_handlers = erase handler_id c.m_rpc_handlers },
  )

  -- The destructor, which the compiler writes: of the members, that of the client alone does more than
  -- free memory. The library calls back from `mosquitto_disconnect`, if at all, as that callback which
  -- `connect` leaves empty. An exception that leaves a destructor ends the program.
  unfoldable pub destruct : Controller p → Result Void × p.World
  destruct c =
      let (r, c') = MqttClientSingleThread.destruct owner c in
      elim r [
        | ok _ ↦ (ok tt, MqttClient.destruct c'.m_mqtt_client.base)
        | raised e ↦ (raised e, c'.m_mqtt_client.base.world)
      ]

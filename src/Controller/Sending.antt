-- ===== src/Controller/Sending.antt =====
-- controller.cpp: the values to send, and `send`. Maps and sets are walked in the order of the model's
-- lists; the order of the library's hash tables is open.
use things_mqtt_lua.Prelude.{
  ◌*◌, Bool, false, not, ◌||◌, none, some, [], ◌∷◌, ◌++◌, String, if◌then◌else◌, string_eq,
}
use things_mqtt_lua.Prelude.Dict.{lookup, assign, emplace, insert}
use things_mqtt_lua.Prelude.Effect.{
  type_error, ok, raised, Action, Void, pure, gets, put, ◌>>=◌, ◌>>◌, when,
}
use things_mqtt_lua.MqttClient
use things_mqtt_lua.MqttClient.Codes.{at_least_once}
use things_mqtt_lua.Platform.{Platform}
use things_mqtt_lua.Controller.Payload.{collect, telemetry_payload}
use things_mqtt_lua.Controller.State.{Controller, on_base, is_connected, is_empty}

module _ {p : Platform} where
  unfoldable pub publish_telemetry : String → p.Value → Controller p → Controller p
  publish_telemetry key value c = elim (lookup key c.m_telemetry_data) [
    | none ↦ record c {
      m_telemetry_data = emplace key value c.m_telemetry_data;
      m_tainted_telemetry_keys = insert key c.m_tainted_telemetry_keys;
    }
    | some old ↦
        if p.json.ne old value
        then record c {
          m_telemetry_data = assign key value c.m_telemetry_data;
          m_tainted_telemetry_keys = insert key c.m_tainted_telemetry_keys;
        }
        else c
  ]

  unfoldable pub set_attribute : String → p.Value → Controller p → Controller p
  set_attribute key value c = elim (lookup key c.m_attribute_data) [
    | none ↦ record c {
      m_attribute_data = emplace key value c.m_attribute_data;
      m_tainted_attribute_keys = insert key c.m_tainted_attribute_keys;
    }
    | some old ↦
        if p.json.ne old value
        then record c {
          m_attribute_data = assign key value c.m_attribute_data;
          m_tainted_attribute_keys = insert key c.m_tainted_attribute_keys;
        }
        else c
  ]

  -- `payload.dump()`
  abbrev pub dump : p.Value → Action (Controller p) String
  dump payload c = elim (p.json.dump payload) [ some s ↦ (ok s, c) | none ↦ (raised type_error, c) ]

  -- `m_mqtt_client.publish(topic, payload)`, with the other arguments at their defaults; what it
  -- returns is not read
  unfoldable pub publish : String → String → Action (Controller p) Void
  publish topic payload =
      on_base (MqttClient.publish topic payload at_least_once false) >>= λ _. pure tt

  unfoldable pub send_telemetry : p.Value → Action (Controller p) Void
  send_telemetry payload = do
    c ← gets (λ c. c)
    text ← dump payload
    if is_connected c
        then publish p.telemetry_topic text
        else put (λ c. record c { m_pending_telemetry = c.m_pending_telemetry ++ text ∷ [] })

  unfoldable pub send_attributes : p.Value → Action (Controller p) Void
  send_attributes payload = do
    c ← gets (λ c. c)
    if is_connected c then (dump payload >>= λ text. publish p.attributes_topic text) else pure tt

  -- The two virtual methods.
  abbrev pub senders :
      (p.Value → Action (Controller p) Void) × (p.Value → Action (Controller p) Void)
  senders = (send_telemetry, send_attributes)

  -- the body of the first `if` of `send`
  unfoldable pub send_tainted_telemetry : Action (Controller p) Void
  unfolding send_telemetry
  send_tainted_telemetry c =
      let (values, d) = collect p.json c.m_tainted_telemetry_keys p.json.null c.m_telemetry_data in
      let payload = telemetry_payload p.json values (p.time c.m_mqtt_client.world * 1000) in
      (senders.0 payload >> put (λ c. record c { m_tainted_telemetry_keys = [] }))
        (record c { m_telemetry_data = d })

  -- the body of the second
  unfoldable pub send_tainted_attributes : Action (Controller p) Void
  unfolding send_attributes
  send_tainted_attributes c =
      let (values, d) = collect p.json c.m_tainted_attribute_keys p.json.null c.m_attribute_data in
      (senders.1 values >> put (λ c. record c { m_tainted_attribute_keys = [] }))
        (record c { m_attribute_data = d })

  unfoldable pub send : Action (Controller p) Bool
  send = do
    c ← gets (λ c. c)
    let telemetry = not (is_empty c.m_tainted_telemetry_keys)
    when telemetry send_tainted_telemetry
    c' ← gets (λ c. c)
    let attributes = not (is_empty c'.m_tainted_attribute_keys)
    when attributes send_tainted_attributes
    pure (telemetry || attributes)

-- ===== src/MqttCallbacks.antt =====
-- The calls that the two clients make of the six callbacks of `MqttClient` (mqtt/mqtt-client.hpp):
-- which closure, and with which arguments.
use things_mqtt_lua.Prelude.{String, Bool, Option, none, some}
use things_mqtt_lua.Prelude.Int.{ℤ, eqb_ℤ, pos}
use things_mqtt_lua.Prelude.{not}
use things_mqtt_lua.Mosquitto.{Message}
use things_mqtt_lua.MqttClient.Codes.{MqttConnectRc, MqttQos, to_qos}

-- the arguments of a `MessageCallback`
pub record Delivery : Type 0 where
  pub message_id : ℤ
  pub topic : String
  pub payload : String
  pub qos : MqttQos
  pub retain : Bool

pub data Call (C : Type 0) : Type 0 where
  on_connected on_disconnected : C → MqttConnectRc → Call C
  on_published on_subscribed on_unsubscribed : C → ℤ → Call C
  on_received : C → Delivery → Call C

-- `if (callback) callback(...)`: the call, or none if the callback is empty
abbrev pub invoke {ℓ} :
    {C : Type 0} {A : Type ℓ} → (C → A → Call C) → Option C → A → Option (Call C)
invoke make none a = none
invoke make (some f) a = some (make f a)

-- what either client makes of a `mosquitto_message`
unfoldable pub to_delivery : Message → Delivery
to_delivery message = record {
  message_id = message.mid;
  topic = message.topic;
  payload = message.payload;
  qos = to_qos message.qos;
  retain = not (eqb_ℤ message.retain (pos 0));
}

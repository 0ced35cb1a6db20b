-- ===== src/MqttClient/Setters.antt =====
-- mqtt/mqtt-client.hpp: the methods that set the callbacks. `none` clears one.
use things_mqtt_lua.Prelude.{Option}
use things_mqtt_lua.Mosquitto.{Mosquitto}
use things_mqtt_lua.MqttClient.{MqttClient}

module _ {m : Mosquitto} {C : Type 0} where
  unfoldable pub set_connect_callback : Option C → MqttClient m C → MqttClient m C
  set_connect_callback callback c = record c { m_connect_callback = callback }

  unfoldable pub set_disconnect_callback : Option C → MqttClient m C → MqttClient m C
  set_disconnect_callback callback c = record c { m_disconnect_callback = callback }

  unfoldable pub set_publish_callback : Option C → MqttClient m C → MqttClient m C
  set_publish_callback callback c = record c { m_publish_callback = callback }

  unfoldable pub set_message_callback : Option C → MqttClient m C → MqttClient m C
  set_message_callback callback c = record c { m_message_callback = callback }

  unfoldable pub set_subscribe_callback : Option C → MqttClient m C → MqttClient m C
  set_subscribe_callback callback c = record c { m_subscribe_callback = callback }

  unfoldable pub set_unsubscribe_callback : Option C → MqttClient m C → MqttClient m C
  set_unsubscribe_callback callback c = record c { m_unsubscribe_callback = callback }

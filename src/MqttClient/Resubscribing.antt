-- ===== src/MqttClient/Resubscribing.antt =====
-- mqtt/mqtt-client-singlethread.cpp and mqtt/mqtt-client-threadsafe.cpp: the loops with which
-- `on_connect` of either client makes the kept subscriptions again.
use things_mqtt_lua.Prelude.{Option, String, List, [], ◌∷◌, suc}
use things_mqtt_lua.Mosquitto.{Mosquitto}
use things_mqtt_lua.MqttClient.{MqttClient}
use things_mqtt_lua.MqttClient.Codes.{MqttQos}

-- The loop in `on_connect` of either client over the subscriptions kept: one `mosquitto_subscribe`
-- for each, its result unread.
unfoldable pub resubscribe_topics :
    (m : Mosquitto) → MqttQos → List String → Option m.Handle → m.World → m.World
resubscribe_topics m qos [] h w = w
resubscribe_topics m qos (topic ∷ topics) h w =
    resubscribe_topics m qos topics h (m.subscribe h topic qos w).1

unfoldable pub resubscribe_from :
    (m : Mosquitto) → MqttQos → List (List String) → Option m.Handle → m.World → m.World
unfolding resubscribe_topics
resubscribe_from m qos [] h w = w
resubscribe_from m qos (topics ∷ lists) h w =
    resubscribe_from m (suc qos) lists h (resubscribe_topics m qos topics h w)

module _ {m : Mosquitto} {C : Type 0} where
  unfoldable pub resubscribe : MqttClient m C → MqttClient m C
  unfolding resubscribe_from
  resubscribe c = record c { world = resubscribe_from m 0 c.m_qos_subscriptions c.m_mosq c.world }

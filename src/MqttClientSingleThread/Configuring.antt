-- ===== src/MqttClientSingleThread/Configuring.antt =====
-- mqtt/mqtt-client-singlethread.cpp: `configure` as the derived client completes it.
use things_mqtt_lua.Prelude.{◌≡◌, Option, none, String, arith}
use things_mqtt_lua.Mosquitto.{Mosquitto}
use things_mqtt_lua.MqttClient.{MqttClient, MqttSslConfig}
use things_mqtt_lua.MqttClient.Setup.{IsClean, configure-IsClean}
use things_mqtt_lua.MqttClientSingleThread.{
  MqttClientSingleThread, configure, lib_init, after_configure,
}

module _ {m : Mosquitto} {C : Type 0} where
  after_configure-IsClean : (c : MqttClient m C) → IsClean (after_configure c)
  unfolding after_configure
  after_configure-IsClean c = ground arith

  -- If `configure` of a client without a handle throws, the client has no handle after it.
  configure_single-IsClean :
      (client_id username password : Option String) (ssl : Option MqttSslConfig)
      (c : MqttClientSingleThread m C)
      → c.m_mosq ≡ none
      → let (r, c') = configure client_id username password ssl c in IsClean (r, c'.base)
  unfolding lib_init
  configure_single-IsClean client_id username password ssl c fresh =
      configure-IsClean lib_init after_configure client_id username password ssl c.base fresh
        after_configure-IsClean

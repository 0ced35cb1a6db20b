-- ===== src/Tests/Setup.antt =====
-- Runs of the theorems on `connect` of the controller.
use mathlib.Core.Path.{refl}
use things_mqtt_lua.Prelude.{some, [], string_eq}
use things_mqtt_lua.MqttClient
use things_mqtt_lua.MqttClient.{MqttClient, MqttSslConfig, default_ssl_config}
use things_mqtt_lua.Tests.Library.{small_platform}
use things_mqtt_lua.MqttClientSingleThread
use things_mqtt_lua.Controller.State.{Controller, ControllerConfig, default_config, connect, new}
use things_mqtt_lua.Controller.Connecting.{connect_without_ca, FailsUnconfigured}

abbrev fresh : Controller small_platform
fresh = new {p = small_platform} []

abbrev local : ControllerConfig
local = record default_config { host = some "localhost" }

connect_without_ca_example :
    FailsUnconfigured small_platform (connect {p = small_platform} local fresh)
unfolding new MqttClientSingleThread.new MqttClient.new
connect_without_ca_example =
    connect_without_ca small_platform local fresh (λ h cert key w. refl) refl refl

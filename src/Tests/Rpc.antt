-- ===== src/Tests/Rpc.antt =====
-- Runs of the theorems on remote procedure calls.
use mathlib.Core.Path.{◌≡◌, refl}
use things_mqtt_lua.Prelude.{
  ℕ, ◌≢◌, true, false, none, some, String, [], ◌∷◌, arith, string_eq, nat_eq,
}
use things_mqtt_lua.Prelude.Int.{pos}
use things_mqtt_lua.Prelude.Dict.{lookup}
use things_mqtt_lua.Prelude.Effect.{ok}
use things_mqtt_lua.Mosquitto.{success}
use things_mqtt_lua.MqttClient
use things_mqtt_lua.MqttClient.{MqttClient, MqttSslConfig, default_ssl_config}
use things_mqtt_lua.Tests.Library.{small_platform, nil, str, entry}
use things_mqtt_lua.MqttCallbacks.{Delivery}
use things_mqtt_lua.Controller.State.{Controller}
use things_mqtt_lua.Controller.Reactions.{on_mqtt_message, add_rpc_handler, remove_rpc_handler}
use things_mqtt_lua.Controller.Outbox.{with_world}
use things_mqtt_lua.Controller.Rpc.{rpc_below_ignored, rpc_calls_all, add_remove}
use things_mqtt_lua.Tests.Sending.{holding}

abbrev served : Controller small_platform
served = holding success true nil

abbrev request : String → Delivery
request topic = record {
  message_id = pos 1;
  topic = topic;
  payload = "reboot";
  qos = 1;
  retain = false;
}

rpc_below_ignored_example :
    on_mqtt_message {p = small_platform} (request "v1/rpc/request/17") served ≡ (ok tt, served)
rpc_below_ignored_example =
    rpc_below_ignored small_platform "17" (request "v1/rpc/request/17") served refl

rpc_calls_all_example :
    on_mqtt_message {p = small_platform} (request "v1/rpc/request") served
    ≡ (ok tt, with_world small_platform (("h", "reboot") ∷ []) served)
unfolding MqttClient.new
rpc_calls_all_example =
    rpc_calls_all small_platform (request "v1/rpc/request") served
      (entry "method" (str "reboot") nil) "reboot" nil refl refl refl ((nil, refl), tt)

add_remove_example :
    let (id, next_id', c') = add_rpc_handler {p = small_platform} "g" (2, served) in
    (lookup id served.m_rpc_handlers ≡ none)
    × (lookup id c'.m_rpc_handlers ≡ some "g")
    × ((i : ℕ) → i ≢ id → lookup i c'.m_rpc_handlers ≡ lookup i served.m_rpc_handlers)
    × (remove_rpc_handler {p = small_platform} id c' ≡ (true, served))
    × ((remove_rpc_handler {p = small_platform} id
          (remove_rpc_handler {p = small_platform} id c').1).0
        ≡ false)
add_remove_example = add_remove small_platform "g" 2 served (omega arith, tt)

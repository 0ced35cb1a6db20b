-- ===== src/Tests/Api.antt =====
-- Runs of the theorems on what the two clients have in common.
use things_mqtt_lua.Prelude.{ℕ, refl, inr, some, List, [], ◌∷◌, String, arith}
use things_mqtt_lua.Prelude.Int.{pos}
use things_mqtt_lua.Mosquitto.{connected, disconnected, no_conn}
use things_mqtt_lua.MqttClient
use things_mqtt_lua.MqttClient.{MqttClient}
use things_mqtt_lua.MqttClientThreadSafe
use things_mqtt_lua.MqttClientThreadSafe.{MqttClientThreadSafe}
use things_mqtt_lua.MqttClientApi.{Contract}
use things_mqtt_lua.MqttClientApi.Clients.{single_thread, thread_safe, clients_contract}
use things_mqtt_lua.MqttClientApi.Requests.{Requests, Among, after_events, subscription_reaches}
use things_mqtt_lua.Tests.Library.{small_mosquitto}

clients_contract_example :
    Contract {m = small_mosquitto} {C = String} single_thread
    × Contract {m = small_mosquitto} {C = String} thread_safe
clients_contract_example = clients_contract {m = small_mosquitto} {C = String}

abbrev offline : MqttClientThreadSafe small_mosquitto String
offline =
    let c = MqttClientThreadSafe.new [] in
    record c { base = record (c.base) { m_mosq = some no_conn } }

subscription_reaches_example :
    let s =
      after_events {C = String} thread_safe
        (disconnected (pos 7) ∷ [])
        (MqttClientThreadSafe.on_base (MqttClient.subscribe "v1/rpc/request/+" 2) offline).1 in
    (rs : List (String × ℕ)) × Requests small_mosquitto s.m_mosq rs s.world
      (MqttClientThreadSafe.handle (connected (pos 0)) s).world
    × Among "v1/rpc/request/+" 2 rs
unfolding MqttClientThreadSafe.new MqttClient.new
subscription_reaches_example =
    subscription_reaches {m = small_mosquitto} {C = String} thread_safe "v1/rpc/request/+" 2 offline
      (disconnected (pos 7) ∷ []) (pos 0) clients_contract.1 refl (omega arith) (inr refl)

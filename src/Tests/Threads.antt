-- ===== src/Tests/Threads.antt =====
-- Runs of the theorems on the two threads of the thread-safe client.
use mathlib.Core.Path.{◌≡◌}
use things_mqtt_lua.Prelude.{ℕ, true, some, List, [], ◌∷◌, string_eq}
use things_mqtt_lua.Prelude.Int.{pos}
use things_mqtt_lua.Prelude.Effect.{ok}
use things_mqtt_lua.Mosquitto.{success, connected, disconnected, published}
use things_mqtt_lua.MqttClient
use things_mqtt_lua.MqttClient.Resubscribing
use things_mqtt_lua.MqttClient.{MqttClient, MqttSslConfig, default_ssl_config}
use things_mqtt_lua.Tests.Library.{small_mosquitto}
use things_mqtt_lua.MqttCallbacks.{Call, on_connected, on_published}
use things_mqtt_lua.MqttClientSingleThread
use things_mqtt_lua.ThreadSafeQueue
use things_mqtt_lua.MqttClientThreadSafe
use things_mqtt_lua.MqttClientThreadSafe.{MqttClientThreadSafe, loop}
use things_mqtt_lua.MqttClientThreadSafe.Order.{single, run_single}
use things_mqtt_lua.MqttClientThreadSafe.Interleaving.{
  Step, network, main, Recorder, recorder, run, made, run-single, loop_drains,
}

-- Closures 7 and 8 are called for a connection and for a publication; the others are empty.
abbrev idle : Recorder small_mosquitto ℕ
idle = record {
  client = record (MqttClientThreadSafe.new {m = small_mosquitto} {C = ℕ} []) {
    base = record (MqttClient.new {m = small_mosquitto} {C = ℕ} []) {
      m_mosq = some success;
      m_connect_callback = some 7;
      m_publish_callback = some 8;
    };
  };
  log = [];
}

abbrev steps : List Step
steps =
    network (connected (pos 0))
    ∷ network (published (pos 5))
    ∷ main
    ∷ network (disconnected (pos 1))
    ∷ main
    ∷ main
    ∷ main
    ∷ network (published (pos 6))
    ∷ []

abbrev three_calls : List (Call ℕ)
three_calls = on_connected 7 (pos 0) ∷ on_published 8 (pos 5) ∷ on_published 8 (pos 6) ∷ []

run-single_example :
    (made (run steps idle) ≡ three_calls)
    × (single (run steps idle).client
        ≡ (run_single
            (connected (pos 0) ∷ published (pos 5) ∷ disconnected (pos 1) ∷ published (pos 6) ∷ [])
            (single idle.client)).1)
unfolding MqttClientSingleThread.handle MqttClientThreadSafe.new MqttClient.new ThreadSafeQueue.new
    Resubscribing.resubscribe
run-single_example = run-single steps idle

-- Two events wait in the queue.
abbrev waiting : Recorder small_mosquitto ℕ
waiting = run (network (connected (pos 0)) ∷ network (published (pos 5)) ∷ []) idle

loop_drains_example : loop recorder 3 waiting ≡ (
  ok true,
  record {
    client = record (waiting.client) { m_event_queue = record { m_queue = [] } };
    log = on_connected 7 (pos 0) ∷ on_published 8 (pos 5) ∷ [];
  },
)
unfolding MqttClientThreadSafe.handle MqttClientThreadSafe.new MqttClientThreadSafe.call_of_type
    MqttClient.new Resubscribing.resubscribe ThreadSafeQueue.new ThreadSafeQueue.emplace
loop_drains_example = loop_drains waiting

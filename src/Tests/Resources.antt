-- ===== src/Tests/Resources.antt =====
-- Runs of the theorems on the resources of the library: a controller whose first `connect` fails, and whose
-- second does not, and clients that are configured more or less than once.
use things_mqtt_lua.Prelude.{ℕ, false, ◌≡◌, refl, none, some, List, [], ◌∷◌}
use things_mqtt_lua.Prelude.Int.{pos}
use things_mqtt_lua.Mosquitto.{connected, disconnected, published}
use things_mqtt_lua.Mosquitto.Ledger.{empty_ledger, tallied}
use things_mqtt_lua.Tests.Library.{small_mosquitto, small_platform, number}
use things_mqtt_lua.MqttClient
use things_mqtt_lua.MqttClient.{default_ssl_config}
use things_mqtt_lua.MqttClientSingleThread
use things_mqtt_lua.MqttClientSingleThread.{MqttClientSingleThread}
use things_mqtt_lua.MqttClientSingleThread.References.{
  Arguments, configure_all, configure_all-destruct,
}
use things_mqtt_lua.MqttClientThreadSafe
use things_mqtt_lua.MqttClientThreadSafe.{MqttClientThreadSafe, message}
use things_mqtt_lua.MqttClientThreadSafe.Resources.{
  Step, configures, connects as dials, disconnects, publishes as posts, sets, pops, network,
  apply_all as apply_steps, threaded_releases,
}
use things_mqtt_lua.Controller.State.{new, ControllerConfig, default_config}
use things_mqtt_lua.Controller.Reactions.{destruct}
use things_mqtt_lua.Controller.History.{Op, publishes, sends, connects, loops, apply_all}
use things_mqtt_lua.Controller.Resources.{tallied_platform, Released, history-Released}

abbrev with_ca : ControllerConfig
with_ca = record default_config {
  host = some "localhost";
  ssl_config = record default_ssl_config { ca_file = some "ca.pem" };
}

abbrev session : List (Op (tallied_platform small_platform))
session =
    publishes "t" (number 21)
    ∷ connects (record default_config { host = some "localhost" })
    ∷ connects with_ca
    ∷ loops
    ∷ sends
    ∷ connects with_ca
    ∷ []

history-Released_example : Released small_platform (
    destruct {p = tallied_platform small_platform}
      (apply_all
        (tallied_platform small_platform)
        session
        (1, new {p = tallied_platform small_platform} ([], empty_ledger))).1)
history-Released_example = history-Released small_platform session []

abbrev steps : List (Step ℕ)
steps =
    configures (some "id") none none (some default_ssl_config)
    ∷ configures (some "id") (some "user") none none
    ∷ dials "localhost" (pos 1883) (pos 60)
    ∷ network (connected (pos 0))
    ∷ posts "t" "1" 1 false
    ∷ sets message (some 3)
    ∷ pops
    ∷ disconnects
    ∷ network (disconnected (pos 0))
    ∷ network (published (pos 1))
    ∷ []

abbrev threaded_end : MqttClientThreadSafe (tallied small_mosquitto) ℕ
threaded_end = apply_steps steps (MqttClientThreadSafe.new ([], empty_ledger))

threaded_releases_example :
    let g = (MqttClient.destruct (MqttClientThreadSafe.destruct threaded_end).base).1 in
    (g.live ≡ []) × (g.misuses ≡ 0)
threaded_releases_example = threaded_releases small_mosquitto ℕ steps []

abbrev twice : List Arguments
twice = (none, none, none, none) ∷ (some "id", none, none, none) ∷ []

abbrev fresh : MqttClientSingleThread (tallied small_mosquitto) ℕ
fresh = MqttClientSingleThread.new ([], empty_ledger)

configure_all-destruct_example :
    (MqttClient.destruct (configure_all small_mosquitto twice fresh).base).1.references ≡ 1
unfolding MqttClientSingleThread.new MqttClient.new
configure_all-destruct_example = configure_all-destruct small_mosquitto twice fresh (λ w. refl)

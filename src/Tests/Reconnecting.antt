-- ===== src/Tests/Reconnecting.antt =====
-- Runs of the theorems on `onMqttConnect`.
use mathlib.Core.Path.{◌≡◌, refl}
use things_mqtt_lua.Prelude.{true, false, some, String, List, [], ◌∷◌, ◌++◌, inl, string_eq, get_or}
use things_mqtt_lua.Prelude.Int.{pos}
use things_mqtt_lua.Prelude.Effect.{ok}
use things_mqtt_lua.Mosquitto.{success, other}
use things_mqtt_lua.MqttClient
use things_mqtt_lua.MqttClient.{MqttClient, MqttSslConfig, default_ssl_config}
use things_mqtt_lua.Tests.Library.{number, str, small_mosquitto, small_platform, nil}
use things_mqtt_lua.MqttClientSingleThread
use things_mqtt_lua.Platform.{Platform}
use things_mqtt_lua.Controller.State.{Controller, new, calls_on_mqtt_connect, is_connected}
use things_mqtt_lua.Controller.Payload.{collect_all}
use things_mqtt_lua.Controller.Reactions.{send_pending, on_mqtt_connect}
use things_mqtt_lua.Controller.Reconnect.{
  send_pending_rest, Ends, on_mqtt_connect_accepted, after_pending, after_attributes,
  after_subscribe,
}
use things_mqtt_lua.Controller.Growth.{reconnects, reconnects_grow}
use things_mqtt_lua.Controller.Outbox.{with_world}
use things_mqtt_lua.Controller.Payload.{collect}
use things_mqtt_lua.Controller.Sending.{
  publish_telemetry, set_attribute, send, send_telemetry, send_attributes, send_tainted_telemetry,
  send_tainted_attributes,
}
use things_mqtt_lua.Controller.Reactions.{send_all_pending}
use things_mqtt_lua.Controller.Offline.{Act, writes, sets, sends, after_all, offline_payloads}
use things_mqtt_lua.Tests.Sending.{holding, holding-IsWellFormed}

on_mqtt_connect_accepted_example :
    let c = holding success true nil in
    on_mqtt_connect {p = small_platform} (pos 0) c ≡ (
      ok tt,
      after_pending small_platform
          (after_attributes small_platform "ax;" (after_subscribe small_platform c)),
    )
unfolding is_connected collect_all
on_mqtt_connect_accepted_example =
    on_mqtt_connect_accepted small_platform (holding success true nil) (pos 0) "ax;" refl refl
      (inl refl) refl (inl refl) (inl refl, tt)

-- The library refuses the first of two payloads.
abbrev two_queued : Controller small_platform
two_queued = record (holding (other (pos 14)) true nil) {
  m_pending_telemetry = "first" ∷ "second" ∷ [];
}

send_pending_rest_example :
    Ends small_platform (send_pending {p = small_platform} ("first" ∷ "second" ∷ []) two_queued)
    × (gone : List String) × ("first" ∷ "second" ∷ []
        ≡ gone
          ++ (send_pending {p = small_platform}
              ("first" ∷ "second" ∷ [])
              two_queued).1.m_pending_telemetry)
send_pending_rest_example =
    send_pending_rest small_platform ("first" ∷ "second" ∷ []) two_queued refl

-- A library that takes every subscription.
abbrev taking : Platform
taking = record small_platform {
  mosquitto = record small_mosquitto {
    subscribe = λ h topic qos w. (success, w ++ ("subscribe", topic) ∷ []);
  };
}

abbrev with_callback : Controller taking
with_callback =
    let c = new {p = taking} [] in
    let m = c.m_mqtt_client in
    record c {
      m_mqtt_client = record m {
        base = record (m.base) { m_connect_callback = some calls_on_mqtt_connect };
      };
    }

reconnects_grow_example :
    get_or (reconnects taking 3 with_callback).m_mqtt_client.m_qos_subscriptions 2 []
    ≡ "v1/rpc/request/+" ∷ "v1/rpc/request/+" ∷ "v1/rpc/request/+" ∷ []
unfolding new MqttClientSingleThread.new MqttClient.new
reconnects_grow_example = reconnects_grow taking (λ h topic w. inl refl) 3 with_callback refl refl

-- Three payloads while disconnected: the second `send` has nothing to add.
abbrev acts : List (Act small_platform)
acts =
    writes "t" (number 21)
    ∷ sends
    ∷ sends
    ∷ writes "t" (number 22)
    ∷ sets "a" (str "y")
    ∷ sends
    ∷ []

abbrev unplugged : Controller small_platform
unplugged = record (holding success false (number 20)) { m_pending_telemetry = [] }

offline_payloads_example :
    let c' = after_all acts unplugged in
    let m = unplugged.m_mqtt_client in
    (c'.m_mqtt_client ≡ m)
    × (send_all_pending {p = small_platform} c' ≡ (
      ok tt,
      record (with_world small_platform
          (("v1/telemetry", "ts#valuest#;;") ∷ ("v1/telemetry", "ts#valuest#;;") ∷ [])
          c') { m_pending_telemetry = [] },
    ))
unfolding publish_telemetry set_attribute send send_telemetry send_attributes send_tainted_telemetry
    send_tainted_attributes collect is_connected MqttClient.new
offline_payloads_example =
    offline_payloads acts unplugged
      (record {
        telemetry = (holding-IsWellFormed success false (number 20)).telemetry;
        attributes = (holding-IsWellFormed success false (number 20)).attributes;
      })
      refl refl (("ts#valuest#;;", refl), (("ts#values;;", refl), (("ts#valuest#;;", refl), tt)))
      (inl refl, (inl refl, tt))

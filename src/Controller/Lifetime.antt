-- ===== src/Controller/Lifetime.antt =====
-- controller.cpp and controller.hpp: the handle of the controller's client, from the constructor to the
-- destructor, through the callbacks that the library makes.
use things_mqtt_lua.Prelude.{refl, not, List, [], ◌∷◌, String, string_eq, ◌==◌}
use things_mqtt_lua.Prelude.Effect.{◌>>=◌, ◌>>◌, pure, parse_error, type_error}
use things_mqtt_lua.Mosquitto.Discipline.{Discipline}
use things_mqtt_lua.MqttCallbacks.{
  Call, on_connected, on_disconnected, on_published, on_received, on_subscribed, on_unsubscribed,
}
use things_mqtt_lua.MqttClient
use things_mqtt_lua.MqttClient.Codes.{is_accepted, exactly_once}
use things_mqtt_lua.MqttClient.Handle.{subscribe-Uses}
use things_mqtt_lua.MqttClientSingleThread.Handle.{loop-Uses, disconnect-Uses}
use things_mqtt_lua.Platform.{Platform}
use things_mqtt_lua.Controller.State.{
  Closure, calls_on_mqtt_connect, calls_on_mqtt_message, is_empty, on_base,
}
use things_mqtt_lua.Controller.Payload.{collect_all}
use things_mqtt_lua.Controller.Sending.{publish, send_attributes}
use things_mqtt_lua.Controller.Reactions.{
  pop_pending, send_pending, send_all_attributes, send_all_pending, on_accepted, on_mqtt_connect,
  or_throw, call_handler, call_handlers, request_of, rpc_filter, on_rpc, on_mqtt_message, dispatch,
  owner, loop, disconnect,
}
use things_mqtt_lua.Controller.Handle.{
  ControllerUses, HandlersKeep, then-Uses, or_throw-Uses, when-Uses, for_each-Uses,
  publish_text-Uses, send_attributes-Uses,
}

module _ (p : Platform) (d : Discipline p.mosquitto) where
  send_pending-Uses : (texts : List String) → ControllerUses p d (send_pending {p = p} texts)
  unfolding send_pending
  send_pending-Uses [] c owns = (refl, owns)
  send_pending-Uses (text ∷ texts) c owns =
      then-Uses p d (publish {p = p} p.telemetry_topic text)
        (λ _. pop_pending >> send_pending {p = p} texts)
        (publish_text-Uses p d p.telemetry_topic text)
        (λ _.
          then-Uses p d pop_pending (λ _. send_pending {p = p} texts) (λ c owns. (refl, owns))
            (λ _. send_pending-Uses texts))
        c owns

  on_accepted-Uses : ControllerUses p d (on_accepted {p = p})
  unfolding on_accepted send_all_attributes send_all_pending
  on_accepted-Uses =
      then-Uses p d (on_base {p = p} (MqttClient.subscribe (rpc_filter p) exactly_once))
        (λ _. send_all_attributes {p = p} >> send_all_pending {p = p})
        (λ c owns. subscribe-Uses d (rpc_filter p) exactly_once c.m_mqtt_client.base owns)
        (λ _.
          then-Uses p d (send_all_attributes {p = p}) (λ _. send_all_pending {p = p})
            (λ c owns.
              when-Uses p d (not (is_empty c.m_attribute_data))
                (send_attributes {p = p} (collect_all p.json c.m_attribute_data p.json.null))
                (send_attributes-Uses p d _) c owns)
            (λ _ c owns. send_pending-Uses c.m_pending_telemetry c owns))

  module _ (handlers : HandlersKeep p d) where
    on_rpc-Uses : (payload : String) → ControllerUses p d (on_rpc {p = p} payload)
    unfolding on_rpc call_handlers
    on_rpc-Uses payload =
        then-Uses p d (or_throw (p.json.parse payload) parse_error)
          (λ json. or_throw (request_of p.json json) type_error >>= call_handlers {p = p})
          (or_throw-Uses p d _ _)
          (λ json.
            then-Uses p d (or_throw (request_of p.json json) type_error) (call_handlers {p = p})
              (or_throw-Uses p d _ _)
              (λ (method, params) c owns.
                for_each-Uses p d c.m_rpc_handlers (call_handler {p = p} method params)
                  (λ (id, handler).
                    then-Uses p d
                      (on_base {p = p} (λ b.
                        let (r, w) = p.run_handler handler method params b.world in
                        (r, record b { world = w })))
                      (λ _. pure tt) (λ c owns. (refl, handlers handler method params _ _ owns))
                      (λ _ c owns. (refl, owns)))
                  c owns))

    pub dispatch-Uses : (k : Call Closure) → ControllerUses p d (dispatch {p = p} k)
    unfolding dispatch on_mqtt_connect on_mqtt_message
    dispatch-Uses (on_connected calls_on_mqtt_connect rc) =
        when-Uses p d (is_accepted rc) (on_accepted {p = p}) on_accepted-Uses
    dispatch-Uses (on_received calls_on_mqtt_message m) =
        when-Uses p d (m.topic == p.rpc_topic) (on_rpc {p = p} m.payload) (on_rpc-Uses m.payload)
    dispatch-Uses (on_connected calls_on_mqtt_message rc) = λ c owns. (refl, owns)
    dispatch-Uses (on_received calls_on_mqtt_connect m) = λ c owns. (refl, owns)
    dispatch-Uses (on_disconnected f rc) = λ c owns. (refl, owns)
    dispatch-Uses (on_published f mid) = λ c owns. (refl, owns)
    dispatch-Uses (on_subscribed f mid) = λ c owns. (refl, owns)
    dispatch-Uses (on_unsubscribed f mid) = λ c owns. (refl, owns)

    pub loop_callbacks-Uses : ControllerUses p d (loop {p = p})
    unfolding loop
    loop_callbacks-Uses = loop-Uses d (owner {p = p}) (λ _ _. refl) dispatch-Uses

    pub disconnect_callbacks-Uses : ControllerUses p d (disconnect {p = p})
    unfolding disconnect
    disconnect_callbacks-Uses = disconnect-Uses d (owner {p = p}) (λ _ _. refl) dispatch-Uses

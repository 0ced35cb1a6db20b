-- ===== src/Controller/Callbacks.antt =====
-- controller.cpp: what the callbacks of the library, and the calls in which it makes them, leave
-- alone of the controller, beside its client and the queue of telemetry.
use things_mqtt_lua.Prelude.{◌≡◌, refl, ◌∙◌, Bool, true, false, List, String, not, ◌==◌, string_eq}
use things_mqtt_lua.Prelude.Effect.{Action, Void, when, ◌>>◌}
use things_mqtt_lua.MqttClient
use things_mqtt_lua.MqttClient.Codes.{exactly_once, is_accepted}
use things_mqtt_lua.MqttCallbacks.{
  Call, on_connected, on_disconnected, on_published, on_received, on_subscribed, on_unsubscribed,
}
use things_mqtt_lua.MqttClientSingleThread.{MqttClientSingleThread}
use things_mqtt_lua.MqttClientSingleThread.Invariant.{loop-keeps, disconnect-keeps}
use things_mqtt_lua.Platform.{Platform}
use things_mqtt_lua.Controller.State.{
  Controller, Closure, calls_on_mqtt_connect, calls_on_mqtt_message, on_base, is_empty,
}
use things_mqtt_lua.Controller.Payload.{collect_all}
use things_mqtt_lua.Controller.Sending.{send_attributes}
use things_mqtt_lua.Controller.Reactions.{
  rpc_filter, send_all_attributes, send_all_pending, on_accepted, on_mqtt_connect, on_mqtt_message,
  on_rpc, dispatch, owner, loop, disconnect,
}
use things_mqtt_lua.Controller.Frame.{
  Keeps, >>=-Keeps, send_attributes-Keeps, send_pending-Keeps, on_rpc-Keeps,
}

module _ {p : Platform} {V : Type 0} (view : Controller p → V)
    (blind : (c : Controller p) (m : MqttClientSingleThread p.mosquitto Closure)
        (queue : List String)
      → view (record c { m_mqtt_client = m; m_pending_telemetry = queue }) ≡ view c) where
  pub when-Keeps :
      (b : Bool) (m : Action (Controller p) Void) → Keeps view m → Keeps view (when b m)
  when-Keeps true m h c = h c
  when-Keeps false m h c = refl

  pub send_all_attributes-Keeps : Keeps view (send_all_attributes {p = p})
  unfolding send_all_attributes
  send_all_attributes-Keeps c =
      when-Keeps (not (is_empty c.m_attribute_data)) (send_attributes {p = p} _)
        (send_attributes-Keeps view (λ c w queue. blind c _ queue)
          (collect_all p.json c.m_attribute_data p.json.null))
        c

  pub send_all_pending-Keeps : Keeps view (send_all_pending {p = p})
  unfolding send_all_pending
  send_all_pending-Keeps c =
      send_pending-Keeps view (λ c w queue. blind c _ queue) c.m_pending_telemetry c

  on_accepted-Keeps : Keeps view (on_accepted {p = p})
  unfolding on_accepted
  on_accepted-Keeps =
      >>=-Keeps view (on_base (MqttClient.subscribe (rpc_filter p) exactly_once))
        (λ _. send_all_attributes {p = p} >> send_all_pending {p = p})
        (λ c. blind c _ c.m_pending_telemetry)
        (λ _.
          >>=-Keeps view (send_all_attributes {p = p}) (λ _. send_all_pending {p = p})
            send_all_attributes-Keeps (λ _. send_all_pending-Keeps))

  pub dispatch-Keeps : (k : Call Closure) → Keeps view (dispatch {p = p} k)
  unfolding dispatch on_mqtt_connect on_mqtt_message
  dispatch-Keeps (on_connected calls_on_mqtt_connect rc) c =
      when-Keeps (is_accepted rc) (on_accepted {p = p}) on_accepted-Keeps c
  dispatch-Keeps (on_received calls_on_mqtt_message d) c =
      when-Keeps (d.topic == p.rpc_topic) (on_rpc {p = p} d.payload)
        (on_rpc-Keeps view (λ c w queue. blind c _ queue) d.payload) c
  dispatch-Keeps (on_connected calls_on_mqtt_message rc) c = refl
  dispatch-Keeps (on_received calls_on_mqtt_connect d) c = refl
  dispatch-Keeps (on_disconnected f rc) c = refl
  dispatch-Keeps (on_published f mid) c = refl
  dispatch-Keeps (on_subscribed f mid) c = refl
  dispatch-Keeps (on_unsubscribed f mid) c = refl

  pub loop-Keeps : Keeps view (loop {p = p})
  unfolding loop
  loop-Keeps c =
      loop-keeps owner (λ c'. view c' ≡ view c) (λ m c' h. blind c' m c'.m_pending_telemetry ∙ h)
        (λ k c' h. dispatch-Keeps k c' ∙ h) c refl

  pub disconnect-Keeps : Keeps view (disconnect {p = p})
  unfolding disconnect
  disconnect-Keeps c =
      disconnect-keeps owner (λ c'. view c' ≡ view c)
        (λ m c' h. blind c' m c'.m_pending_telemetry ∙ h) (λ k c' h. dispatch-Keeps k c' ∙ h) c refl

-- ===== src/Controller/Growth.antt =====
-- controller.cpp, `onMqttConnect`, over several connections: the subscriptions that the client keeps.
use things_mqtt_lua.Prelude.{
  ℕ, zero, suc, ◌≡◌, refl, ◌∙◌, sym, ap, inl, inr, Option, some, List, [], ◌∷◌, ◌++◌, String, arith,
  modify, get_or, replicate, length, length-modify, get_or-modify_self, append_assoc, append-nil,
  Bool-cases,
}
use things_mqtt_lua.Prelude.Int.{pos}
use things_mqtt_lua.Prelude.Effect.{Result, Void, ◌>>◌, >>-ok}
use things_mqtt_lua.Mosquitto.{connected}
use things_mqtt_lua.MqttClient
use things_mqtt_lua.MqttClient.{MqttClient}
use things_mqtt_lua.MqttClient.Resubscribing.{resubscribe}
use things_mqtt_lua.MqttClient.Subscriptions.{Passes, subscribe-Passes}
use things_mqtt_lua.MqttClientSingleThread.{react, handle}
use things_mqtt_lua.Platform.{Platform}
use things_mqtt_lua.Controller.State.{Controller, Closure, calls_on_mqtt_connect, on_base, is_empty}
use things_mqtt_lua.Controller.Payload.{collect_all}
use things_mqtt_lua.Controller.Reactions.{
  rpc_filter, send_all_attributes, send_all_pending, on_accepted, on_mqtt_connect, owner, dispatch,
}
use things_mqtt_lua.Controller.Frame.{Keeps, >>=-Keeps, send_attributes-Keeps, send_pending-Keeps}

module _ (p : Platform) where
  -- The subscriptions kept, and the callback for a connection.
  abbrev kept : Controller p → List (List String) × Option Closure
  kept c = (c.m_mqtt_client.m_qos_subscriptions, c.m_mqtt_client.m_connect_callback)

  sends-Keeps : Keeps kept (send_all_attributes {p = p} >> send_all_pending {p = p})
  unfolding send_all_attributes send_all_pending
  sends-Keeps =
      >>=-Keeps kept (send_all_attributes {p = p}) (λ _. send_all_pending {p = p}) attributes
        (λ _ c. send_pending-Keeps kept (λ _ _ _. refl) c.m_pending_telemetry c)
    where
      attributes : Keeps kept (send_all_attributes {p = p})
      attributes c = elim (Bool-cases (is_empty c.m_attribute_data)) [
        | inl none_set ↦ rw none_set refl
        | inr some_set ↦ rw some_set (
            send_attributes-Keeps kept (λ _ _ _. refl)
              (collect_all p.json c.m_attribute_data p.json.null) c)
      ]

  abbrev grown : List (List String) → List (List String)
  grown lists = modify lists 2 (λ ts. ts ++ rpc_filter p ∷ [])

  abbrev Accepting : Type 0
  Accepting =
      (h : Option p.mosquitto.Handle) (topic : String) (w : p.World)
      → Passes (p.mosquitto.subscribe h topic 2 w).0

  on_accepted-grown :
      Accepting
      → (c : Controller p)
      → kept (on_accepted {p = p} c).1
        ≡ (grown c.m_mqtt_client.m_qos_subscriptions, c.m_mqtt_client.m_connect_callback)
  unfolding on_accepted
  on_accepted-grown accepts c =
      ap (λ x. kept x.1)
        (>>-ok (on_base (MqttClient.subscribe (rpc_filter p) 2)) c _
          (send_all_attributes {p = p} >> send_all_pending {p = p})
          (ap
            (λ (x : Result Void × MqttClient p.mosquitto Closure).
              (x.0, record c { m_mqtt_client = record (c.m_mqtt_client) { base = x.1 } }))
            (subscribe-Passes (rpc_filter p) 2 c.m_mqtt_client.base (accepts _ _ _))))
      ∙ sends-Keeps _

  -- The library calls back for a connection that the broker accepts.
  abbrev pub reconnect : Controller p → Controller p
  reconnect c = (react (owner {p = p}) (connected (pos 0)) c).1

  reconnect-grown :
      Accepting
      → (c : Controller p) → c.m_mqtt_client.m_connect_callback ≡ some calls_on_mqtt_connect
      → kept (reconnect c) ≡ (grown c.m_mqtt_client.m_qos_subscriptions, some calls_on_mqtt_connect)
  unfolding react handle dispatch on_mqtt_connect resubscribe
  reconnect-grown accepts c e = rw e (on_accepted-grown accepts _)

  abbrev pub reconnects : ℕ → Controller p → Controller p
  reconnects zero c = c
  reconnects (suc n) c = reconnects n (reconnect c)

  -- If the library takes every subscription, or has no connection, n accepted connections of a
  -- client that has its three lists of subscriptions and the controller's callback leave n copies
  -- of the filter of remote procedure calls at the end of the subscriptions kept for the level
  -- "exactly once".
  pub reconnects_grow :
      ((h : Option p.mosquitto.Handle) (topic : String) (w : p.World)
        → Passes (p.mosquitto.subscribe h topic 2 w).0)
      → (n : ℕ) (c : Controller p) → length c.m_mqtt_client.m_qos_subscriptions ≡ 3
      → c.m_mqtt_client.m_connect_callback ≡ some calls_on_mqtt_connect
      → get_or (reconnects n c).m_mqtt_client.m_qos_subscriptions 2 []
        ≡ get_or c.m_mqtt_client.m_qos_subscriptions 2 [] ++ replicate n (rpc_filter p)
  reconnects_grow accepts zero c three e = sym (append-nil _)
  reconnects_grow accepts (suc n) c three e =
      let lists = c.m_mqtt_client.m_qos_subscriptions in
      let step = reconnect-grown accepts c e in
      reconnects_grow accepts n (reconnect c)
        (ap (λ k. length k.0) step ∙ length-modify lists 2 _ ∙ three) (ap (λ k. k.1) step)
      ∙ ap (λ k. get_or k.0 2 [] ++ replicate n (rpc_filter p)) step
      ∙ rw
          (
            get_or-modify_self lists 2 (λ ts. ts ++ rpc_filter p ∷ []) [] (omega arith),
            append_assoc,
          )
          refl

-- ===== src/Controller/Indifference.antt =====
-- controller.hpp: whatever the order in which the hash tables keep the telemetry and the attributes, any calls
-- of the public methods do the same.
use mathlib.Core.Path.{subst}
use things_mqtt_lua.Prelude.{
  ◌≡◌, refl, ap, ◌∙◌, ◌||◌, ℕ, Bool, true, false, Option, none, some, List, [], ◌∷◌, String,
  if◌then◌else◌, string_eq, nat_eq,
}
use things_mqtt_lua.Prelude.Int.{ℤ, pos, leb_ℤ, ltb_ℤ}
use things_mqtt_lua.Prelude.Dict.{Dict, lookup, insert_or_assign, erase}
use things_mqtt_lua.Prelude.Effect.{
  Exception, runtime_error, Result, ok, raised, Action, Void, ◌>>=◌, ◌>>◌, put, pure, throw,
  throw_if,
}
use things_mqtt_lua.Mosquitto.{
  Event, MosqErr, success, no_conn, conn_lost, other, Run, returns, calls,
}
use things_mqtt_lua.MqttCallbacks.{Call}
use things_mqtt_lua.MqttClient
use things_mqtt_lua.MqttClientSingleThread
use things_mqtt_lua.MqttClientSingleThread.{
  MqttClientSingleThread, perform, react, handle, after_loop, set_world, set_connected,
  dispatch_opt,
}
use things_mqtt_lua.Platform.{Platform, JsonObjects}
use things_mqtt_lua.Controller.State.{Controller, Closure, ControllerConfig}
use things_mqtt_lua.Controller.Reactions.{owner, loop, disconnect}
use things_mqtt_lua.Controller.Unordered.{
  IsExtensional, IsAlike, Respects, >>=-Respects, IsBlind-Respects,
}
use things_mqtt_lua.Controller.State.{
  connect, connect_to, connect_client, install_callbacks, on_client,
}
use things_mqtt_lua.Controller.Sending.{send}
use things_mqtt_lua.Controller.Reactions.{add_rpc_handler, remove_rpc_handler}
use things_mqtt_lua.Controller.History.{
  Op, publishes, sets, sends, disconnects, loops, connects, adds, removes, State, apply, apply_all,
}
use things_mqtt_lua.Controller.Reordering.{
  send-Respects, publish_telemetry-IsAlike, set_attribute-IsAlike,
}
use things_mqtt_lua.Controller.ReorderingCallbacks.{dispatch-Respects, by_client}

module _ (p : Platform) where
  abbrev with_client : MqttClientSingleThread p.mosquitto Closure → Action (Controller p) Void
  with_client m = put (λ c. record c { m_mqtt_client = m })

  -- An action on a controller that is first given a client.
  given_client :
      {A : Type 0} (m : MqttClientSingleThread p.mosquitto Closure) (f : Action (Controller p) A)
      → Respects p f
      → Respects p (with_client m >> f)
  given_client m f h =
      >>=-Respects p (with_client m) (λ _. f) (IsBlind-Respects p (with_client m) (λ x c. refl))
        (λ _. h)

  connect_client-Respects :
      (host : String) (bind_address : Option String) (port keepalive : ℤ)
      → Respects p (connect_client {p = p} host bind_address port keepalive)
  connect_client-Respects host none port keepalive = IsBlind-Respects p _ (λ x c. refl)
  connect_client-Respects host (some bind_address) port keepalive =
      IsBlind-Respects p _ (λ x c. refl)

  throw_if-Respects : (b : Bool) (e : Exception) → Respects p (throw_if b e)
  throw_if-Respects true e c c' alike = (refl, alike)
  throw_if-Respects false e c c' alike = (refl, alike)

  connect-Respects : (config : ControllerConfig) → Respects p (connect {p = p} config)
  unfolding connect connect_to
  connect-Respects config = by_host config.host
    where
      configured : Action (Controller p) Void
      configured = on_client {p = p} (
          MqttClientSingleThread.configure config.client_id config.username config.password
            (some config.ssl_config))

      keepalive : ℤ
      keepalive = if leb_ℤ config.keepalive (pos 0) then pos 60 else config.keepalive

      by_host :
          (host : Option String) → Respects p (connect {p = p} (record config { host = host }))
      by_host none c c' alike = (refl, alike)
      by_host (some host) c c' alike =
          >>=-Respects p
            (throw_if (leb_ℤ config.port (pos 0) || ltb_ℤ (pos 65535) config.port)
              (runtime_error "Invalid MQTT port"))
            (λ _.
              install_callbacks {p = p}
              >> (configured
                  >> connect_client {p = p} host config.bind_address config.port keepalive))
            (throw_if-Respects _ _)
            (λ _.
              >>=-Respects p (install_callbacks {p = p})
                (λ _.
                  configured
                  >> connect_client {p = p} host config.bind_address config.port keepalive)
                (IsBlind-Respects p _ (λ x c. refl))
                (λ _.
                  >>=-Respects p configured
                    (λ _. connect_client {p = p} host config.bind_address config.port keepalive)
                    (IsBlind-Respects p _ (λ x c. refl))
                    (λ _. connect_client-Respects host config.bind_address config.port keepalive)))
            c c' alike

abbrev pub returned : Result Void → Result Bool
returned (ok _) = ok true
returned (raised e) = raised e

module _ {p : Platform} where
  -- What a call returns or throws; `addRpcHandler` returns `next_id`, and the others that have no result
  -- are given `true`.
  abbrev pub outcome : Op p → State p → Result Bool
  outcome sends (id, c) = (send {p = p} c).0
  outcome disconnects (id, c) = returned (disconnect {p = p} c).0
  outcome loops (id, c) = returned (loop {p = p} c).0
  outcome (connects config) (id, c) = returned (connect {p = p} config c).0
  outcome (removes handler_id) (id, c) = ok (remove_rpc_handler {p = p} handler_id c).0
  outcome _ s = ok true

  abbrev pub outcomes : List (Op p) → State p → List (Result Bool)
  outcomes [] s = []
  outcomes (op ∷ ops) s = outcome op s ∷ outcomes ops (apply p op s)

module _ (p : Platform) (objects : JsonObjects p.json) (ext : IsExtensional objects) where
  dispatch_opt-Respects : (k : Option (Call Closure)) → Respects p (dispatch_opt (owner {p = p}) k)
  dispatch_opt-Respects none = λ c c' alike. (refl, alike)
  dispatch_opt-Respects (some k) = dispatch-Respects p objects ext k

  react-Respects : (e : Event) → Respects p (react (owner {p = p}) e)
  unfolding react
  react-Respects e =
      by_client p (λ m. with_client p (handle e m).1 >> dispatch_opt (owner {p = p}) (handle e m).0)
        (λ m. given_client p (handle e m).1 _ (dispatch_opt-Respects (handle e m).0))

  abbrev put_world : p.World → Action (Controller p) Void
  put_world w = put (set_world (owner {p = p}) w)

  perform-Respects : (r : Run p.World) → Respects p (perform (owner {p = p}) r)
  unfolding perform
  perform-Respects (returns rc w) =
      >>=-Respects p (put_world w) (λ _. pure rc) (IsBlind-Respects p (put_world w) (λ x c. refl))
        (λ _ c c' alike. (refl, alike))
  perform-Respects (calls e w next) =
      >>=-Respects p (put_world w)
        (λ _.
          react (owner {p = p}) e >>= λ _ c. perform (owner {p = p}) (next c.m_mqtt_client.world) c)
        (IsBlind-Respects p (put_world w) (λ x c. refl))
        (λ _.
          >>=-Respects p (react (owner {p = p}) e)
            (λ _ c. perform (owner {p = p}) (next c.m_mqtt_client.world) c) (react-Respects e)
            (λ _.
              by_client p (λ m. perform (owner {p = p}) (next m.world))
                (λ m. perform-Respects (next m.world))))

  after_loop-Respects : (rc : MosqErr) → Respects p (after_loop (owner {p = p}) rc)
  after_loop-Respects success = λ c c' alike. (refl, alike)
  after_loop-Respects no_conn =
      IsBlind-Respects p (set_connected (owner {p = p}) false) (λ x c. refl)
  after_loop-Respects conn_lost =
      IsBlind-Respects p (set_connected (owner {p = p}) false) (λ x c. refl)
  after_loop-Respects (other _) = λ c c' alike. (refl, alike)

  loop-Respects : Respects p (loop {p = p})
  unfolding loop MqttClientSingleThread.loop
  loop-Respects =
      by_client p (λ m. at_handle m.m_mosq m.world) (λ m. at_handle-Respects m.m_mosq m.world)
    where
      at_handle : Option p.mosquitto.Handle → p.World → Action (Controller p) Void
      at_handle h w c = elim h [
        | none ↦ throw (runtime_error "MQTT client is not initialized") c
        | some h ↦
            (perform (owner {p = p}) (p.mosquitto.loop (some h) w) >>= after_loop (owner {p = p})) c
      ]

      at_handle-Respects :
          (h : Option p.mosquitto.Handle) (w : p.World) → Respects p (at_handle h w)
      at_handle-Respects none w = λ c c' alike. (refl, alike)
      at_handle-Respects (some h) w =
          >>=-Respects p (perform (owner {p = p}) (p.mosquitto.loop (some h) w))
            (after_loop (owner {p = p})) (perform-Respects _) after_loop-Respects

  disconnect-Respects : Respects p (disconnect {p = p})
  unfolding disconnect MqttClientSingleThread.disconnect
  disconnect-Respects =
      by_client p (λ m. perform (owner {p = p}) (MqttClient.disconnect m.base) >>= λ _. pure tt)
        (λ m.
          >>=-Respects p (perform (owner {p = p}) (MqttClient.disconnect m.base)) (λ _. pure tt)
            (perform-Respects _) (λ _ c c' alike. (refl, alike)))

  -- With a result that neither the maps nor the sets determine.
  on_handlers-IsAlike :
      (f : Dict ℕ p.RpcHandler → Dict ℕ p.RpcHandler) (c c' : Controller p)
      → IsAlike p c c'
      → IsAlike p
          (record c { m_rpc_handlers = f c.m_rpc_handlers })
          (record c' { m_rpc_handlers = f c'.m_rpc_handlers })
  on_handlers-IsAlike f c c' alike = record {
    well = record { telemetry = alike.well.telemetry; attributes = alike.well.attributes };
    well' = record { telemetry = alike.well'.telemetry; attributes = alike.well'.attributes };
    client = alike.client;
    pending = alike.pending;
    handlers = ap f alike.handlers;
    telemetry = alike.telemetry;
    tainted_telemetry = alike.tainted_telemetry;
    attributes = alike.attributes;
    tainted_attributes = alike.tainted_attributes;
  }

  apply-IsAlike :
      (op : Op p) (id : ℕ) (c c' : Controller p)
      → IsAlike p c c'
      → (outcome op (id, c) ≡ outcome op (id, c'))
        × ((apply p op (id, c)).0 ≡ (apply p op (id, c')).0)
        × IsAlike p (apply p op (id, c)).1 (apply p op (id, c')).1
  unfolding add_rpc_handler remove_rpc_handler
  apply-IsAlike (publishes key value) id c c' alike =
      (refl, refl, publish_telemetry-IsAlike p key value c c' alike)
  apply-IsAlike (sets key value) id c c' alike =
      (refl, refl, set_attribute-IsAlike p key value c c' alike)
  apply-IsAlike sends id c c' alike =
      let (same, alike') = send-Respects p objects ext c c' alike in (same, refl, alike')
  apply-IsAlike disconnects id c c' alike =
      let (same, alike') = disconnect-Respects c c' alike in (ap returned same, refl, alike')
  apply-IsAlike loops id c c' alike =
      let (same, alike') = loop-Respects c c' alike in (ap returned same, refl, alike')
  apply-IsAlike (connects config) id c c' alike =
      let (same, alike') = connect-Respects p config c c' alike in (ap returned same, refl, alike')
  apply-IsAlike (adds handler) id c c' alike =
      (refl, refl, on_handlers-IsAlike (insert_or_assign id handler) c c' alike)
  apply-IsAlike (removes handler_id) id c c' alike = (
    ap
        (λ (d : Dict ℕ p.RpcHandler).
          ok (elim (lookup handler_id d) as (λ _. Bool) [ some _ ↦ true | none ↦ false ]))
        alike.handlers,
    refl,
    on_handlers-IsAlike (erase handler_id) c c' alike,
  )

  -- Of two well-formed controllers that differ in the order alone in which their hash tables keep the
  -- telemetry, the attributes and the keys that wait, and with a JSON library that keeps objects as maps:
  -- after any calls of the public methods, the same in the same order on both, all calls have returned or
  -- thrown the same, and the clients, with the world behind the library, the queues and the handlers are
  -- the same, and so are the entries and the keys that wait, but for the order.
  pub order_unseen :
      (ops : List (Op p)) (id : ℕ) (c c' : Controller p)
      → IsAlike p c c'
      → (outcomes ops (id, c) ≡ outcomes ops (id, c'))
        × IsAlike p (apply_all p ops (id, c)).1 (apply_all p ops (id, c')).1
  order_unseen [] id c c' alike = (refl, alike)
  order_unseen (op ∷ ops) id c c' alike =
      let (result, next, alike') = apply-IsAlike op id c c' alike in
      let s = apply p op (id, c) in
      let s' = apply p op (id, c') in
      let (results, alike'') = order_unseen ops s.0 s.1 s'.1 alike' in
      (
        λ i. result i ∷ (results ∙ ap (λ n. outcomes ops (n, s'.1)) next) i,
        subst (λ n. IsAlike p (apply_all p ops s).1 (apply_all p ops (n, s'.1)).1) next alike'',
      )

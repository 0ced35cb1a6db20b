-- ===== src/Controller/Identifiers.antt =====
-- controller.cpp: the identifiers of the handlers through any history of a controller.
use things_mqtt_lua.Prelude.{
  ℕ, suc, ◌+◌, ◌^◌, ◌<◌, ◌≤◌, ◌≡◌, refl, List, [], ◌∷◌, not, ◌||◌, arith, length,
}
use things_mqtt_lua.Prelude.Dict.{Dict}
use things_mqtt_lua.Prelude.Effect.{when, put, pure, ◌>>=◌}
use things_mqtt_lua.Platform.{Platform}
use things_mqtt_lua.Controller.State.{
  Controller, ControllerConfig, new, connect, connect_to, is_empty,
}
use things_mqtt_lua.Controller.Sending.{
  publish_telemetry, set_attribute, send_telemetry, send_attributes, send_tainted_telemetry,
  send_tainted_attributes, send,
}
use things_mqtt_lua.Controller.Reactions.{loop, disconnect, remove_rpc_handler}
use things_mqtt_lua.Controller.Changed.{publish_telemetry-store, set_attribute-store}
use things_mqtt_lua.Controller.Frame.{Keeps, >>=-Keeps, send_telemetry-Keeps, send_attributes-Keeps}
use things_mqtt_lua.Controller.Callbacks.{loop-Keeps, disconnect-Keeps, when-Keeps}
use things_mqtt_lua.Controller.Rpc.{AllBelow, add_rpc_handler-AllBelow, erase-AllBelow_keeps}
use things_mqtt_lua.Controller.History.{
  Op, publishes, sets, sends, disconnects, loops, connects, adds, removes, State, apply, apply_all,
}

module _ (p : Platform) where
  abbrev handlers : Controller p → Dict ℕ p.RpcHandler
  handlers c = c.m_rpc_handlers

  send_tainted_telemetry-Keeps : Keeps handlers (send_tainted_telemetry {p = p})
  unfolding send_tainted_telemetry
  send_tainted_telemetry-Keeps c =
      >>=-Keeps handlers (send_telemetry {p = p} _)
        (λ _. put (λ c. record c { m_tainted_telemetry_keys = [] }))
        (send_telemetry-Keeps handlers (λ _ _ _. refl) _) (λ _ _. refl) _

  send_tainted_attributes-Keeps : Keeps handlers (send_tainted_attributes {p = p})
  unfolding send_tainted_attributes
  send_tainted_attributes-Keeps c =
      >>=-Keeps handlers (send_attributes {p = p} _)
        (λ _. put (λ c. record c { m_tainted_attribute_keys = [] }))
        (send_attributes-Keeps handlers (λ _ _ _. refl) _) (λ _ _. refl) _

  send-Keeps : Keeps handlers (send {p = p})
  unfolding send
  send-Keeps c =
      >>=-Keeps handlers
        (when (not (is_empty c.m_tainted_telemetry_keys)) (send_tainted_telemetry {p = p}))
        (λ _ c'.
          (when (not (is_empty c'.m_tainted_attribute_keys)) (send_tainted_attributes {p = p})
              >>= λ _. pure (
                  not (is_empty c.m_tainted_telemetry_keys)
                  || not (is_empty c'.m_tainted_attribute_keys)))
            c')
        (when-Keeps handlers (λ _ _ _. refl) (not (is_empty c.m_tainted_telemetry_keys))
          (send_tainted_telemetry {p = p}) send_tainted_telemetry-Keeps)
        (λ _ c'.
          >>=-Keeps handlers
            (when (not (is_empty c'.m_tainted_attribute_keys)) (send_tainted_attributes {p = p}))
            (λ _. pure (
              not (is_empty c.m_tainted_telemetry_keys)
              || not (is_empty c'.m_tainted_attribute_keys)))
            (when-Keeps handlers (λ _ _ _. refl) (not (is_empty c'.m_tainted_attribute_keys))
              (send_tainted_attributes {p = p}) send_tainted_attributes-Keeps)
            (λ _ _. refl) c')
        c

  connect-Keeps : (config : ControllerConfig) → Keeps handlers (connect {p = p} config)
  unfolding connect connect_to
  connect-Keeps config c = ground arith

  -- The next identifier is at most one more than the number of calls so far.
  abbrev IsTracked : ℕ → State p → Type 0
  IsTracked calls s = (s.0 ≤ calls + 1) × AllBelow p s.0 s.1.m_rpc_handlers

  same-IsTracked :
      (calls id : ℕ) (c c' : Controller p)
      → handlers c' ≡ handlers c
      → IsTracked calls (id, c)
      → IsTracked (suc calls) (id, c')
  same-IsTracked calls id c c' e h = (omega arith, rw e h.1)

  apply-IsTracked :
      (op : Op p) (calls : ℕ) (s : State p)
      → calls + 2 < 2 ^ 64
      → IsTracked calls s
      → IsTracked (suc calls) (apply p op s)
  unfolding remove_rpc_handler
  apply-IsTracked (publishes key value) n (id, c) small h =
      same-IsTracked n id c (publish_telemetry {p = p} key value c)
        (rw (publish_telemetry-store p key value c) refl) h
  apply-IsTracked (sets key value) n (id, c) small h =
      same-IsTracked n id c (set_attribute {p = p} key value c)
        (rw (set_attribute-store p key value c) refl) h
  apply-IsTracked sends n (id, c) small h =
      same-IsTracked n id c (send {p = p} c).1 (send-Keeps c) h
  apply-IsTracked disconnects n (id, c) small h =
      same-IsTracked n id c (disconnect {p = p} c).1 (disconnect-Keeps handlers (λ _ _ _. refl) c) h
  apply-IsTracked loops n (id, c) small h =
      same-IsTracked n id c (loop {p = p} c).1 (loop-Keeps handlers (λ _ _ _. refl) c) h
  apply-IsTracked (connects config) n (id, c) small h =
      same-IsTracked n id c (connect {p = p} config c).1 (connect-Keeps config c) h
  apply-IsTracked (adds handler) n (id, c) small h =
      let (next, below) = add_rpc_handler-AllBelow p handler id c (omega arith) h.1 in
      (omega arith, below)
  apply-IsTracked (removes handler_id) n (id, c) small h =
      (omega arith, erase-AllBelow_keeps p id handler_id c.m_rpc_handlers h.1)

  apply_all-IsTracked :
      (ops : List (Op p)) (calls : ℕ) (s : State p)
      → length ops + calls + 2 < 2 ^ 64
      → IsTracked calls s
      → AllBelow p (apply_all p ops s).0 (apply_all p ops s).1.m_rpc_handlers
  apply_all-IsTracked [] n s small h = h.1
  apply_all-IsTracked (op ∷ ops) n s small h =
      apply_all-IsTracked ops (suc n) (apply p op s) (omega arith)
        (apply-IsTracked op n s (omega arith) h)

  -- After fewer than 2⁶⁴ - 2 calls of the public methods of a new controller, every identifier in
  -- the table of handlers is below the next one.
  pub history_ids :
      (ops : List (Op p)) (w : p.World)
      → length ops + 2 < 2 ^ 64
      → let (next_id, c) = apply_all p ops (1, new {p = p} w) in AllBelow p next_id c.m_rpc_handlers
  unfolding new
  history_ids ops w small = apply_all-IsTracked ops 0 _ (omega arith) (omega arith, tt)

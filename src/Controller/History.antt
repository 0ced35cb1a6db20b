-- ===== src/Controller/History.antt =====
-- controller.hpp: the public methods of `Controller`, in any order, each in whatever state the last
-- one left, thrown or not. What every such history keeps.
use things_mqtt_lua.Prelude.{ℕ, List, [], ◌∷◌, String}
use things_mqtt_lua.Platform.{Platform}
use things_mqtt_lua.Controller.State.{Controller, ControllerConfig, new, connect}
use things_mqtt_lua.Controller.Sending.{publish_telemetry, set_attribute, send}
use things_mqtt_lua.Controller.Reactions.{loop, disconnect, add_rpc_handler, remove_rpc_handler}
use things_mqtt_lua.Controller.Changed.{
  IsWellFormed, publish_telemetry-IsWellFormed, set_attribute-IsWellFormed,
}
use things_mqtt_lua.Controller.Stability.{
  new-IsWellFormed, send-IsWellFormed, loop-IsWellFormed, disconnect-IsWellFormed,
  connect-IsWellFormed,
}

-- A call of a public method. `loops` and `disconnects` include the callbacks that the library makes.
pub data Op (p : Platform) : Type 0 where
  publishes sets : String → p.Value → Op p
  sends disconnects loops : Op p
  connects : ControllerConfig → Op p
  adds : p.RpcHandler → Op p
  removes : ℕ → Op p

module _ (p : Platform) where
  -- `next_id` of `addRpcHandler`, and the controller
  abbrev pub State : Type 0
  State = ℕ × Controller p

  abbrev pub apply : Op p → State → State
  apply (publishes key value) (id, c) = (id, publish_telemetry {p = p} key value c)
  apply (sets key value) (id, c) = (id, set_attribute {p = p} key value c)
  apply sends (id, c) = (id, (send {p = p} c).1)
  apply disconnects (id, c) = (id, (disconnect {p = p} c).1)
  apply loops (id, c) = (id, (loop {p = p} c).1)
  apply (connects config) (id, c) = (id, (connect {p = p} config c).1)
  apply (adds handler) s = let (_, id, c) = add_rpc_handler {p = p} handler s in (id, c)
  apply (removes handler_id) (id, c) = (id, (remove_rpc_handler {p = p} handler_id c).1)

  abbrev pub apply_all : List (Op p) → State → State
  apply_all [] s = s
  apply_all (op ∷ ops) s = apply_all ops (apply op s)

  apply-IsWellFormed : (op : Op p) (s : State) → IsWellFormed p s.1 → IsWellFormed p (apply op s).1
  unfolding add_rpc_handler remove_rpc_handler
  apply-IsWellFormed (publishes key value) (id, c) w =
      publish_telemetry-IsWellFormed p key value c w
  apply-IsWellFormed (sets key value) (id, c) w = set_attribute-IsWellFormed p key value c w
  apply-IsWellFormed sends (id, c) w = send-IsWellFormed p c w
  apply-IsWellFormed disconnects (id, c) w = disconnect-IsWellFormed p c w
  apply-IsWellFormed loops (id, c) w = loop-IsWellFormed p c w
  apply-IsWellFormed (connects config) (id, c) w = connect-IsWellFormed p config c w
  apply-IsWellFormed (adds handler) (id, c) w = record {
    telemetry = w.telemetry;
    attributes = w.attributes;
  }
  apply-IsWellFormed (removes handler_id) (id, c) w = record {
    telemetry = w.telemetry;
    attributes = w.attributes;
  }

  apply_all-IsWellFormed :
      (ops : List (Op p)) (s : State) → IsWellFormed p s.1 → IsWellFormed p (apply_all ops s).1
  apply_all-IsWellFormed [] s w = w
  apply_all-IsWellFormed (op ∷ ops) s w =
      apply_all-IsWellFormed ops (apply op s) (apply-IsWellFormed op s w)

  -- After any calls of the public methods of a new controller, whether they return or throw and
  -- whatever the library calls back, every key that waits to be sent has a value, and no key
  -- stands twice in a map or a set.
  pub history-IsWellFormed :
      (ops : List (Op p)) (w : p.World) → IsWellFormed p (apply_all ops (1, new {p = p} w)).1
  history-IsWellFormed ops w = apply_all-IsWellFormed ops _ (new-IsWellFormed p w)

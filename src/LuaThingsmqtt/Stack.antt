-- ===== src/LuaThingsmqtt/Stack.antt =====
-- lua-thingsmqtt.cpp and the macros of lua-thingsmqtt-private.hpp: the check of the stack.
use things_mqtt_lua.Prelude.{ℕ, ◌≡◌, refl, true, List, [], ◌∷◌, nat_eq, length, arith}
use things_mqtt_lua.Prelude.Effect.{Result, ok, raised, Action}
use things_mqtt_lua.Lua.{Value}
use things_mqtt_lua.Controller.Sending
use things_mqtt_lua.LuaThingsmqtt.Entries.{Entry, Method, RpcMethod, JsonFunction}
use things_mqtt_lua.LuaThingsmqtt.Process.{Host, Process}
use things_mqtt_lua.LuaThingsmqtt.Methods.{
  connect, send, stack_check, run, new, telemetry, set_attribute, is_connected, json_stringify,
  json_parse, add_rpc_handler, remove_rpc_handler,
}
use things_mqtt_lua.LuaThingsmqtt.Publishing.{called, publish_telemetry-quiet, set_attribute-quiet}
use things_mqtt_lua.LuaThingsmqtt.Steps.{LeavesCount}
use things_mqtt_lua.LuaThingsmqtt.Counts.{
  connect-count, send-count, assign_with-count, is_connected-count, json_stringify-count,
  json_parse-count, add_rpc_handler-count, remove_rpc_handler-count,
}

-- The numbers that the functions give to STACK_START and to STACK_END.
abbrev pub arguments : Entry → ℕ
arguments Entry.new = 0
arguments (Entry.method Method.connect) = 2
arguments (Entry.method Method.telemetry) = 3
arguments (Entry.method Method.set_attribute) = 3
arguments _ = 1

abbrev pub results : Entry → ℕ
results (Entry.method Method.connect) = 0
results (Entry.method Method.telemetry) = 0
results (Entry.method Method.set_attribute) = 0
results (Entry.method Method.send) = 0
results (Entry.method Method.loop) = 0
results _ = 1

-- The functions that do not let the mosquitto library call back.
abbrev pub IsLocal : Entry → Type 0
IsLocal (Entry.method Method.loop) = ⊥
IsLocal _ = Unit

module _ (host : Host) where
  open host use {lua}

  -- If a call returns, it returns `count` values, and STACK_END prints nothing.
  abbrev pub Balances : ℕ → ℕ → List (Value lua.types) → Result ℕ × Process host → Type 0
  Balances nargs count before (ok n, P) =
      (n ≡ count) × (stack_check nargs n before P.lua.stack ≡ true)
  Balances nargs count before (raised e, P) = Unit

  count-Balances :
      (r : Result ℕ × Process host) (nargs count : ℕ) (before : List (Value lua.types))
      → length before ≡ nargs
      → LeavesCount host count r
      → Balances nargs count before r
  unfolding stack_check
  count-Balances (ok n, P) nargs count before e (returned, left) =
      (returned, ground (arith, e, left, returned))
  count-Balances (raised x, P) nargs count before e h = tt

  module _ (P : Process host) where
    none_given :
        (m : Action (Process host) ℕ) (count : ℕ) (st : List (Value lua.types))
        → length st ≡ 0
        → LeavesCount host count (m (called host [] P))
        → LeavesCount host count (m (called host st P))
    none_given m count [] e h = h
    none_given m count (x ∷ st) e h = absurd (omega (arith, e))

    one_given :
        (m : Action (Process host) ℕ) (count : ℕ) (st : List (Value lua.types))
        → length st ≡ 1
        → ((x : Value lua.types) → LeavesCount host count (m (called host (x ∷ []) P)))
        → LeavesCount host count (m (called host st P))
    one_given m count [] e h = absurd (omega (arith, e))
    one_given m count (x ∷ []) e h = h x
    one_given m count (x ∷ y ∷ st) e h = absurd (omega (arith, e))

    two_given :
        (m : Action (Process host) ℕ) (count : ℕ) (st : List (Value lua.types))
        → length st ≡ 2
        → ((x y : Value lua.types) → LeavesCount host count (m (called host (x ∷ y ∷ []) P)))
        → LeavesCount host count (m (called host st P))
    two_given m count [] e h = absurd (omega (arith, e))
    two_given m count (x ∷ []) e h = absurd (omega (arith, e))
    two_given m count (x ∷ y ∷ []) e h = h x y
    two_given m count (x ∷ y ∷ z ∷ st) e h = absurd (omega (arith, e))

    three_given :
        (m : Action (Process host) ℕ) (count : ℕ) (st : List (Value lua.types))
        → length st ≡ 3
        → ((x y z : Value lua.types) → LeavesCount host count (m (called host (x ∷ y ∷ z ∷ []) P)))
        → LeavesCount host count (m (called host st P))
    three_given m count [] e h = absurd (omega (arith, e))
    three_given m count (x ∷ []) e h = absurd (omega (arith, e))
    three_given m count (x ∷ y ∷ []) e h = absurd (omega (arith, e))
    three_given m count (x ∷ y ∷ z ∷ []) e h = h x y z
    three_given m count (x ∷ y ∷ z ∷ w ∷ st) e h = absurd (omega (arith, e))

    run-count :
        (e : Entry) (st : List (Value lua.types))
        → IsLocal e
        → length st ≡ arguments e
        → LeavesCount host (results e) (run host e (called host st P))
    unfolding run new telemetry set_attribute
    run-count Entry.new st here e = none_given (new host) 1 st e (refl, refl)
    run-count (Entry.method Method.telemetry) st here e =
        three_given (telemetry host) 0 st e (λ x k o.
          assign_with-count host Sending.publish_telemetry (publish_telemetry-quiet host) x k o P)
    run-count (Entry.method Method.set_attribute) st here e =
        three_given (set_attribute host) 0 st e
          (λ x k o. assign_with-count host Sending.set_attribute (set_attribute-quiet host) x k o P)
    run-count (Entry.method Method.is_connected) st here e =
        one_given (is_connected host) 1 st e (λ o. is_connected-count host o P)
    run-count (Entry.rpc_method RpcMethod.add_rpc_handler) st here e =
        one_given (add_rpc_handler host) 1 st e (λ o. add_rpc_handler-count host o P)
    run-count (Entry.rpc_method RpcMethod.remove_rpc_handler) st here e =
        one_given (remove_rpc_handler host) 1 st e (λ o. remove_rpc_handler-count host o P)
    run-count (Entry.json_function JsonFunction.json_stringify) st here e =
        one_given (json_stringify host) 1 st e (λ x. json_stringify-count host x P)
    run-count (Entry.json_function JsonFunction.json_parse) st here e =
        one_given (json_parse host) 1 st e (λ k. json_parse-count host k P)
    run-count (Entry.method Method.connect) st here e =
        two_given (connect host) 0 st e (λ c o. connect-count host c o P)
    run-count (Entry.method Method.send) st here e =
        one_given (send host) 0 st e (λ o. send-count host o P)
    run-count (Entry.method Method.loop) st here e = absurd here

  -- Whatever the interpreter answers: each C function of `Entry` but `loop`, called with as many
  -- arguments as its STACK_START says, returns as many values as its STACK_END says if it returns, and
  -- STACK_END then prints nothing.
  pub run-stack_check :
      (e : Entry) (st : List (Value lua.types)) (P : Process host)
      → IsLocal e
      → length st ≡ arguments e
      → Balances (arguments e) (results e) st (run host e (called host st P))
  run-stack_check e st P here given =
      count-Balances (run host e (called host st P)) (arguments e) (results e) st given
        (run-count P e st here given)

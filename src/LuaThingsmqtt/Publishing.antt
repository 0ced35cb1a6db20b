-- ===== src/LuaThingsmqtt/Publishing.antt =====
-- lua-thingsmqtt.cpp, `telemetry` and `set_attribute`: from the call in a script to the controller.
use things_mqtt_lua.Prelude.{
  ℕ, zero, suc, ◌+◌, ◌<◌, ◌≡◌, ◌≢◌, refl, ap, ◌∙◌, some, List, [], ◌∷◌, String, nat_eq, length,
  arith,
}
use things_mqtt_lua.Prelude.Int.{pos}
use things_mqtt_lua.Prelude.Effect.{Result, ok, Action, pure, put, ◌>>=◌, ◌>>◌, >>=-ok}
use things_mqtt_lua.Lua.{Value, Machine, c_str, check_text, pop, at, required, drop}
use things_mqtt_lua.LuaUtils.{lua_value_to_json}
use things_mqtt_lua.LuaUtils.Tables.{Tables, one, Holds, IsScalar, scalar}
use things_mqtt_lua.LuaUtils.Flat.{pairs, AllScalar, object_of, flat_object}
use things_mqtt_lua.Controller.State.{Controller}
use things_mqtt_lua.Controller.Sending
use things_mqtt_lua.LuaThingsmqtt.Entries.{thingsmqtt_meta}
use things_mqtt_lua.LuaThingsmqtt.Process.{
  Host, Process, lua_platform, check_controller, on_controller, on_lua, controller_at, address_in,
  put_controller, set_controller,
}
use things_mqtt_lua.LuaThingsmqtt.Methods.{telemetry, set_attribute}

module _ (host : Host) where
  open host use {lua, json_values, fuel}

  -- The process as a C function finds it that is called with these arguments, the last one first.
  abbrev pub called : List (Value lua.types) → Process host → Process host
  called st P = record P { lua = record (P.lua) { stack = st } }

  -- The arguments of a call `object:method(key, value)`.
  abbrev pub key_and_value : lua.Userdata → String → Value lua.types → List (Value lua.types)
  key_and_value u key x = x ∷ Value.string key ∷ Value.userdata u ∷ []

  -- What the two methods have in common.
  abbrev pub assign_with :
      (String
        → host.platform.Value
        → Controller (lua_platform host)
        → Controller (lua_platform host))
      → Action (Process host) ℕ
  assign_with f = do
    controller ← check_controller host
    key ← on_lua host (check_text (pos 2))
    value ← on_lua host (lua_value_to_json lua json_values fuel (pos 3))
    on_controller host controller (put (f (c_str key) value))
    on_lua host (pop 3)
    pure 0

  set_same : {X : Type 0} (a : ℕ) (x : X) (f : ℕ → X) → set_controller a x f a ≡ x
  set_same a x f = ground arith

  set_other : {X : Type 0} (a b : ℕ) (x : X) (f : ℕ → X) → b ≢ a → set_controller a x f b ≡ f b
  set_other a b x f ne = ground arith

  pub check_controller-ok :
      (a : ℕ) (P : Process host)
      → address_in host (at P.lua.stack (pos 1)) P.lua.heap ≡ some a
      → check_controller host P ≡ (ok a, P)
  check_controller-ok a P here =
      ap (λ o. on_lua host (required {l = lua} (pos 1) thingsmqtt_meta o) P) here

  -- The call has had its effect: nothing is returned, the arguments are gone, and of the controllers one
  -- has changed.
  abbrev pub Assigns :
      ℕ → Controller (lua_platform host) → Process host → Result ℕ × Process host → Type 0
  Assigns a c P (r, P') =
      (r ≡ ok 0)
      × (P'.lua.stack ≡ [])
      × (P'.controllers a ≡ c)
      × ((b : ℕ) → b ≢ a → P'.controllers b ≡ P.controllers b)

  module _
      (f : String
        → host.platform.Value
        → Controller (lua_platform host)
        → Controller (lua_platform host))
      (quiet : (key : String) (value : host.platform.Value) (c : Controller (lua_platform host))
        → (f key value c).m_mqtt_client ≡ c.m_mqtt_client) where
    assign_with-Assigns :
        (a : ℕ) (u : lua.Userdata) (key : String) (x : Value lua.types) (json : host.platform.Value)
        (P : Process host)
        → address_in host (some (Value.userdata u)) P.lua.heap ≡ some a
        → let P = called (key_and_value u key x) P in
          lua_value_to_json lua json_values fuel (pos 3) P.lua ≡ (ok json, P.lua)
          → Assigns a (f (c_str key) json (controller_at host a P)) P (assign_with f P)
    assign_with-Assigns a u key x json P here converted =
        let Q = called (key_and_value u key x) P in
        let c = f (c_str key) json (controller_at host a Q) in
        let R = put_controller host a c Q in
        let S : Process host = record R { lua = record (R.lua) { stack = drop 3 R.lua.stack } } in
        let store : ℕ → String → host.platform.Value → Action (Process host) ℕ =
          λ controller key value.
            on_controller host controller (put (f (c_str key) value))
            >> (on_lua host (pop 3) >> pure 0) in
        let convert : ℕ → String → Action (Process host) ℕ = λ controller key.
          on_lua host (lua_value_to_json lua json_values fuel (pos 3)) >>= store controller key in
        let e : assign_with f Q ≡ (ok 0, S) =
          >>=-ok (check_controller host) Q Q
            (λ controller. on_lua host (check_text (pos 2)) >>= convert controller)
            (check_controller-ok a Q here)
          ∙ >>=-ok (on_lua host (lua_value_to_json lua json_values fuel (pos 3))) Q Q (store a key)
              (ap (λ (y : Result host.platform.Value × Machine lua). (y.0, record Q { lua = y.1 }))
                converted) in
        rw e (
          refl,
          ap (λ m. drop 3 m.base.world.1.stack) (quiet (c_str key) json (controller_at host a Q)),
          set_same a c Q.controllers,
          λ b ne. set_other a b c Q.controllers ne,
        )

  pub publish_telemetry-quiet :
      (key : String) (value : host.platform.Value) (c : Controller (lua_platform host))
      → (Sending.publish_telemetry key value c).m_mqtt_client ≡ c.m_mqtt_client
  unfolding Sending.publish_telemetry
  publish_telemetry-quiet key value c = ground arith

  pub set_attribute-quiet :
      (key : String) (value : host.platform.Value) (c : Controller (lua_platform host))
      → (Sending.set_attribute key value c).m_mqtt_client ≡ c.m_mqtt_client
  unfolding Sending.set_attribute
  set_attribute-quiet key value c = ground arith

  flat_third :
      (tables : Tables lua) (t : lua.Table) (st : List (Value lua.types)) (h : lua.Heap) (n : ℕ)
      (es : List (String × Value lua.types))
      → Holds lua st 3 t
      → tables.IsPlain t h
      → tables.element t (one lua) h ≡ Value.nil
      → tables.entries t h ≡ pairs lua json_values es
      → AllScalar lua json_values es
      → length es + 1 < n
      → lua_value_to_json lua json_values n (pos 3) (record { stack = st; heap = h }) ≡ (
        ok (object_of lua json_values es json_values.empty_object),
        record { stack = st; heap = h },
      )
  flat_third tables t st h zero es holds plain no_one split scalars enough = absurd (omega arith)
  flat_third tables t st h (suc n) es holds plain no_one split scalars enough =
      flat_object lua json_values tables 3 t st h n es holds plain no_one split scalars
        (omega arith)

  scalar_third :
      (n : ℕ) (x y z : Value lua.types) (h : lua.Heap)
      → 0 < n
      → IsScalar lua x
      → let s : Machine lua = record { stack = x ∷ y ∷ z ∷ []; heap = h } in
        lua_value_to_json lua json_values n (pos 3) s ≡ (ok (scalar lua json_values x), s)
  unfolding lua_value_to_json
  scalar_third zero x y z h enough plain = absurd (omega arith)
  scalar_third (suc n) (Value.table t) y z h enough is_table = absurd is_table
  scalar_third (suc n) Value.nil y z h enough plain = refl
  scalar_third (suc n) (Value.boolean b) y z h enough plain = refl
  scalar_third (suc n) (Value.number b) y z h enough plain = refl
  scalar_third (suc n) (Value.string b) y z h enough plain = refl
  scalar_third (suc n) (Value.function b) y z h enough plain = refl
  scalar_third (suc n) (Value.userdata b) y z h enough plain = refl
  scalar_third (suc n) (Value.other b) y z h enough plain = refl

  -- `object:telemetry(key, t)`, where the object is that of the controller at `a` and `t` a table without
  -- a metatable whose element 1 is nil, whose keys are texts and whose values are no tables, and with
  -- fuel for more rounds than it has entries: nothing is returned, the arguments are gone from the
  -- stack, the controller has got the object of the entries by `publishTelemetry` under the key up to
  -- its first zero byte, and no other controller has changed.
  pub telemetry_flat :
      (tables : Tables lua) (a : ℕ) (u : lua.Userdata) (key : String) (t : lua.Table)
      (es : List (String × Value lua.types)) (P : Process host)
      → address_in host (some (Value.userdata u)) P.lua.heap ≡ some a
      → tables.IsPlain t P.lua.heap
      → tables.element t (one lua) P.lua.heap ≡ Value.nil
      → tables.entries t P.lua.heap ≡ pairs lua json_values es
      → AllScalar lua json_values es
      → length es + 1 < fuel
      → let Q = called (key_and_value u key (Value.table t)) P in
        let json = object_of lua json_values es json_values.empty_object in
        Assigns a
          (Sending.publish_telemetry (c_str key) json (controller_at host a Q))
          P
          (telemetry host Q)
  unfolding telemetry
  telemetry_flat tables a u key t es P here plain no_one split scalars enough =
      assign_with-Assigns Sending.publish_telemetry publish_telemetry-quiet a u key (Value.table t)
        (object_of lua json_values es json_values.empty_object) P here
        (flat_third tables t (key_and_value u key (Value.table t)) P.lua.heap fuel es
          (omega arith, refl) plain no_one split scalars enough)

  -- `object:set_attribute(key, x)`, where the object is that of the controller at `a` and `x` is no table,
  -- and with fuel: nothing is returned, the arguments are gone from the stack, the controller has got
  -- the JSON of `x` by `setAttribute` under the key up to its first zero byte, and no other controller
  -- has changed.
  set_attribute-scalar :
      (a : ℕ) (u : lua.Userdata) (key : String) (x : Value lua.types) (P : Process host)
      → address_in host (some (Value.userdata u)) P.lua.heap ≡ some a
      → IsScalar lua x
      → 0 < fuel
      → let Q = called (key_and_value u key x) P in
        Assigns a
          (Sending.set_attribute (c_str key) (scalar lua json_values x) (controller_at host a Q))
          P
          (set_attribute host Q)
  unfolding set_attribute
  set_attribute-scalar a u key x P here plain enough =
      assign_with-Assigns Sending.set_attribute set_attribute-quiet a u key x
        (scalar lua json_values x) P here
        (scalar_third fuel x (Value.string key) (Value.userdata u) P.lua.heap enough plain)

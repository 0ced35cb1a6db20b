-- ===== src/LuaThingsmqtt/Counts.antt =====
-- lua-thingsmqtt.cpp: how many values the C functions return and leave on the stack, whatever the
-- interpreter answers.
use mathlib.Core.Path.{subst}
use things_mqtt_lua.Prelude.{
  ℕ, ◌≡◌, refl, ap, sym, Option, none, some, List, [], arith, ◌∷◌, String, nat_eq, length,
}
use things_mqtt_lua.Prelude.Int.{pos}
use things_mqtt_lua.Prelude.Effect.{
  Result, ok, raised, Action, pure, gets, put, ◌>>=◌, ◌>>◌, >>=-cases,
}
use things_mqtt_lua.Lua.{Value, Machine, c_str, check_text, pop, push, drop}
use things_mqtt_lua.LuaUtils.{lua_value_to_json, lua_json_to_value}
use things_mqtt_lua.LuaUtils.Balance.{Leaves}
use things_mqtt_lua.LuaUtils.Contract.{conversions}
use things_mqtt_lua.Controller.State
use things_mqtt_lua.Controller.State.{Controller, ControllerConfig}
use things_mqtt_lua.LuaThingsmqtt.Process.{
  controller_at, put_controller, Host, Process, lua_platform, check_controller, on_controller,
  on_lua,
}
use things_mqtt_lua.Controller.Sending
use things_mqtt_lua.LuaThingsmqtt.Sending.{Spares, send-Spares}
use things_mqtt_lua.LuaThingsmqtt.Methods.{
  connect, send, is_connected, json_stringify, json_parse, dump_or_throw, push_parsed,
  add_rpc_handler, add_rpc_handler_to, remove_rpc_handler, remove_rpc_handler_from,
}
use things_mqtt_lua.LuaThingsmqtt.Publishing.{called, assign_with}
use things_mqtt_lua.LuaThingsmqtt.Config.{read_config}
use things_mqtt_lua.LuaThingsmqtt.Reading.{Height, read_config-Lifts}
use things_mqtt_lua.LuaThingsmqtt.Connecting.{controller_connect-Spares}
use things_mqtt_lua.LuaThingsmqtt.Steps.{
  Ends, on_lua-Ends, check_controller-Ends, check_text-second, check_text-first, LeavesCount,
  >>=-count,
}

module _ (host : Host) where
  open host use {lua, json_values, fuel}

  module _
      (f : String
        → host.platform.Value
        → Controller (lua_platform host)
        → Controller (lua_platform host))
      (quiet : (key : String) (value : host.platform.Value) (c : Controller (lua_platform host))
        → (f key value c).m_mqtt_client ≡ c.m_mqtt_client) where
    pub assign_with-count :
        (x k o : Value lua.types) (P : Process host)
        → LeavesCount host 0 (assign_with host f (called host (x ∷ k ∷ o ∷ []) P))
    assign_with-count x k o P =
        let st : List (Value lua.types) = x ∷ k ∷ o ∷ [] in
        let store : ℕ → String → host.platform.Value → Action (Process host) ℕ =
          λ controller key value.
            on_controller host controller (put (f (c_str key) value))
            >> (on_lua host (pop 3) >> pure 0) in
        let convert : ℕ → String → Action (Process host) ℕ = λ controller key.
          on_lua host (lua_value_to_json lua json_values fuel (pos 3)) >>= store controller key in
        >>=-count host (check_controller host) (λ a. on_lua host (check_text (pos 2)) >>= convert a)
          st 0 (called host st P) (check_controller-Ends host st P)
          λ a Q.
            let (k', found) = check_text-second host x k o Q.lua.heap in
            let st' : List (Value lua.types) = x ∷ k' ∷ o ∷ [] in
            >>=-count host (on_lua host (check_text (pos 2))) (convert a) st' 0 (called host st Q)
              (on_lua-Ends host (check_text (pos 2)) st' (called host st Q) found)
              λ key R.
                >>=-count host (on_lua host (lua_value_to_json lua json_values fuel (pos 3)))
                  (store a key) st' 0 (called host st' R)
                  (on_lua-Ends host (lua_value_to_json lua json_values fuel (pos 3)) st'
                    (called host st' R)
                    ((conversions lua json_values fuel).value_to_json-leaves (pos 3) st'
                      R.lua.heap))
                  λ json S. (
                    refl,
                    ap (λ m. length (drop 3 m.base.world.1.stack)) (quiet (c_str key) json _),
                  )

  pub is_connected-count :
      (o : Value lua.types) (P : Process host)
      → LeavesCount host 1 (is_connected host (called host (o ∷ []) P))
  unfolding is_connected
  is_connected-count o P =
      >>=-count host (check_controller host)
        (λ controller.
          on_lua host (pop 1)
          >> (on_controller host controller (gets State.is_connected) >>= λ connected.
              on_lua host (push (Value.boolean connected)) >> pure 1))
        (o ∷ []) 1 (called host (o ∷ []) P) (check_controller-Ends host (o ∷ []) P)
        (λ a Q. (refl, refl))

  -- The same of a call into the interpreter alone.
  abbrev LeavesOne : Result ℕ × Machine lua → Type 0
  LeavesOne (ok n, s) = (n ≡ 1) × (length s.stack ≡ 1)
  LeavesOne (raised e, s) = Unit

  on_lua-count :
      (m : Action (Machine lua) ℕ) (P : Process host)
      → LeavesOne (m P.lua)
      → LeavesCount host 1 (on_lua host m P)
  on_lua-count m P h = by_result (m P.lua).0 (m P.lua).1 h
    where
      by_result :
          (r : Result ℕ) (s : Machine lua)
          → LeavesOne (r, s)
          → LeavesCount host 1 (r, record P { lua = s })
      by_result (ok a) s h = h
      by_result (raised e) s h = tt

  >>=-one :
      {A : Type 0} (m : Action (Machine lua) A) (f : A → Action (Machine lua) ℕ)
      (st : List (Value lua.types)) (s : Machine lua)
      → Leaves lua st (m s)
      → ((a : A) (h : lua.Heap) → LeavesOne (f a (record { stack = st; heap = h })))
      → LeavesOne ((m >>= f) s)
  >>=-one {A} m f st s h next =
      >>=-cases (λ x. Leaves lua st x) (λ x. LeavesOne x) m f s h on_ok (λ e s' h. tt)
    where
      on_ok : (a : A) (s' : Machine lua) → s'.stack ≡ st → LeavesOne (f a s')
      on_ok a s' e =
          subst (λ xs. LeavesOne (f a (record { stack = xs; heap = s'.heap }))) (sym e)
            (next a s'.heap)

  dump-one :
      (text : Option String) (x : Value lua.types) (h : lua.Heap)
      → LeavesOne (
          (dump_or_throw host text >>= λ s. pop 1 >> (push (Value.string (c_str s)) >> pure 1))
            (record { stack = x ∷ []; heap = h }))
  dump-one none x h = tt
  dump-one (some s) x h = (refl, refl)

  pub json_stringify-count :
      (x : Value lua.types) (P : Process host)
      → LeavesCount host 1 (json_stringify host (called host (x ∷ []) P))
  unfolding json_stringify
  json_stringify-count x P =
      let convert = lua_value_to_json lua json_values fuel (pos 1) in
      let write : host.platform.Value → Action (Machine lua) ℕ = λ json.
        dump_or_throw host (host.platform.json.dump json) >>= λ s.
        pop 1 >> (push (Value.string (c_str s)) >> pure 1) in
      on_lua-count (convert >>= write) (called host (x ∷ []) P) (
        >>=-one convert write (x ∷ []) (record { stack = x ∷ []; heap = P.lua.heap })
          ((conversions lua json_values fuel).value_to_json-leaves (pos 1) (x ∷ []) P.lua.heap)
          (λ json h. dump-one (host.platform.json.dump json) x h))

  parsed-one :
      (parsed : Option host.platform.Value) (k : Value lua.types) (h : lua.Heap)
      → LeavesOne ((push_parsed host parsed >> pure 1) (record { stack = k ∷ []; heap = h }))
  parsed-one none k h = (refl, refl)
  parsed-one (some json) k h =
      let (x, pushed) = (conversions lua json_values fuel).json_to_value-pushes json [] h in
      >>=-one (lua_json_to_value lua json_values fuel json) (λ _. pure 1) (x ∷ [])
        (record { stack = []; heap = h }) pushed (λ _ h'. (refl, refl))

  pub json_parse-count :
      (k : Value lua.types) (P : Process host)
      → LeavesCount host 1 (json_parse host (called host (k ∷ []) P))
  unfolding json_parse
  json_parse-count k P =
      let parse : String → Action (Machine lua) ℕ =
        λ s. push_parsed host (host.platform.json.parse (c_str s)) >> pure 1 in
      let (k', found) = check_text-first host k P.lua.heap in
      on_lua-count (check_text (pos 1) >>= parse) (called host (k ∷ []) P) (
        >>=-one (check_text (pos 1)) parse (k' ∷ []) (record { stack = k ∷ []; heap = P.lua.heap })
          found (λ s h. parsed-one (host.platform.json.parse (c_str s)) k' h))

  pub add_rpc_handler-count :
      (o : Value lua.types) (P : Process host)
      → LeavesCount host 1 (add_rpc_handler host (called host (o ∷ []) P))
  unfolding add_rpc_handler add_rpc_handler_to
  add_rpc_handler-count o P =
      >>=-count host (check_controller host) (add_rpc_handler_to host) (o ∷ []) 1
        (called host (o ∷ []) P) (check_controller-Ends host (o ∷ []) P) (λ a Q. tt)

  pub remove_rpc_handler-count :
      (o : Value lua.types) (P : Process host)
      → LeavesCount host 1 (remove_rpc_handler host (called host (o ∷ []) P))
  unfolding remove_rpc_handler remove_rpc_handler_from
  remove_rpc_handler-count o P =
      >>=-count host (check_controller host) (remove_rpc_handler_from host) (o ∷ []) 1
        (called host (o ∷ []) P) (check_controller-Ends host (o ∷ []) P) (λ a Q. tt)

  -- A call of a controller that spares the interpreter leaves the stack.
  on_controller-Ends :
      {A : Type 0} (a : ℕ) (f : Action (Controller (lua_platform host)) A) (P : Process host)
      → Spares host f
      → Ends host P.lua.stack (on_controller host a f P)
  on_controller-Ends {A} a f P spares = by_result (f c).0 (f c).1 (ap (λ s. s.stack) (spares c))
    where
      c : Controller (lua_platform host)
      c = controller_at host a P

      by_result :
          (r : Result A) (c' : Controller (lua_platform host))
          → c'.m_mqtt_client.base.world.1.stack ≡ P.lua.stack
          → Ends host P.lua.stack (r, put_controller host a c' P)
      by_result (ok x) c' e = e
      by_result (raised x) c' e = tt

  pub send-count :
      (o : Value lua.types) (P : Process host)
      → LeavesCount host 0 (send host (called host (o ∷ []) P))
  unfolding send
  send-count o P =
      let go : ℕ → Action (Process host) ℕ =
        λ controller. on_controller host controller Sending.send >> pure 0 in
      >>=-count host (check_controller host) (λ controller. on_lua host (pop 1) >> go controller)
        (o ∷ []) 0 (called host (o ∷ []) P) (check_controller-Ends host (o ∷ []) P)
        λ a Q.
          >>=-count host (on_controller host a Sending.send) (λ _. pure 0) [] 0 (called host [] Q)
            (on_controller-Ends a Sending.send (called host [] Q) (send-Spares host))
            (λ b R. (refl, refl))

  pub connect-count :
      (c o : Value lua.types) (P : Process host)
      → LeavesCount host 0 (connect host (called host (c ∷ o ∷ []) P))
  unfolding connect
  connect-count c o P =
      let st : List (Value lua.types) = c ∷ o ∷ [] in
      let go : ℕ → ControllerConfig → Action (Process host) ℕ =
        λ controller config. on_controller host controller (State.connect config) >> pure 0 in
      >>=-count host (check_controller host)
        (λ controller. on_lua host (read_config lua) >>= go controller) st 0 (called host st P)
        (check_controller-Ends host st P)
        λ a Q.
          >>=-count host (on_lua host (read_config lua)) (go a) [] 0 (called host st Q)
            (on_lua-Ends host (read_config lua) [] (called host st Q) (
              emptied (read_config lua (called host st Q).lua)
                (read_config-Lifts lua (called host st Q).lua refl)))
            λ config R.
              >>=-count host (on_controller host a (State.connect config)) (λ _. pure 0) [] 0
                (called host [] R)
                (on_controller-Ends a (State.connect config) (called host [] R)
                  (controller_connect-Spares host config))
                (λ _ S. (refl, refl))
    where
      none_left : (xs : List (Value lua.types)) → length xs ≡ 0 → xs ≡ []
      none_left [] e = refl
      none_left (x ∷ xs) e = absurd (omega (arith, e))

      emptied : (r : Result ControllerConfig × Machine lua) → Height lua 0 r → Leaves lua [] r
      emptied (ok a, s) e = none_left s.stack e
      emptied (raised x, s) e = tt

-- ===== src/LuaThingsmqtt/Configuration.antt =====
-- lua-thingsmqtt.cpp, `connect`: the configuration that is read from a table, against its description.
use things_mqtt_lua.Prelude.{ℕ, ◌≡◌, refl, ap, ◌∙◌, Bool, true, Option, some, List, [], ◌∷◌, String}
use things_mqtt_lua.Prelude.Int.{ℤ, pos}
use things_mqtt_lua.Prelude.Effect.{Result, ok, Action, pure, ◌>>=◌, ◌>>◌, >>=-ok, >>-ok}
use things_mqtt_lua.Lua.{Lua, Value, Machine, text_of, c_str, get_field, value_at, pop}
use things_mqtt_lua.MqttClient.{default_ssl_config}
use things_mqtt_lua.MqttClient.Codes.{mqtt_default_port}
use things_mqtt_lua.LuaUtils.{top}
use things_mqtt_lua.Controller.State.{ControllerConfig, default_config}
use things_mqtt_lua.Controller.State
use things_mqtt_lua.LuaThingsmqtt.Process.{
  Host, Process, check_controller, on_controller, on_lua, address_in,
}
use things_mqtt_lua.LuaThingsmqtt.Methods.{connect}
use things_mqtt_lua.LuaThingsmqtt.Publishing.{called, check_controller-ok}
use things_mqtt_lua.LuaThingsmqtt.Config.{
  bool_of, text_field, int_field, bool_field, read_connection, read_ssl, read_ssl_of, read_config,
}
use things_mqtt_lua.LuaThingsmqtt.Description.{
  or_default, map_option, on_stack, int_in, ssl_config_of, config_of, ssl_of, HasFields,
}
use things_mqtt_lua.LuaThingsmqtt.Fields.{
  Next, read_back, get_field-ok, text_field-ok, int_field-ok, bool_field-ok,
}
use things_mqtt_lua.LuaThingsmqtt.Config.{
  set_host, set_port, set_bind_address, set_keepalive, set_client_id, set_username, set_password,
  set_ca_file, set_cert_file, set_key_file, set_verify_peer, set_verify_hostname,
}

module _ {C : Type 0} (l : Lua C) where
  module _ (t : l.Table) (u : Value l.types) (field : String → Value l.types) (h : l.Heap)
      (has : HasFields l t field h) where
    read_connection-ok :
        read_connection l default_config (on_stack l (Value.table t ∷ u ∷ []) h)
        ≡ (ok (config_of l field default_ssl_config), on_stack l (Value.table t ∷ u ∷ []) h)
    unfolding read_connection
    read_connection-ok =
        let k7 : Next l = λ c. pop 7 >> pure c in
        let k6 : Next l = λ c. text_field l (pos 2) "password" set_password c >>= k7 in
        let k5 : Next l = λ c. text_field l (pos 2) "username" set_username c >>= k6 in
        let k4 : Next l = λ c. text_field l (pos 2) "client_id" set_client_id c >>= k5 in
        let k3 : Next l = λ c. int_field l (pos 2) "keepalive" set_keepalive c >>= k4 in
        let k2 : Next l = λ c. text_field l (pos 2) "bind_address" set_bind_address c >>= k3 in
        let k1 : Next l = λ c. int_field l (pos 2) "port" set_port c >>= k2 in
        let v0 : Option String → ControllerConfig =
          λ o. record default_config { host = map_option c_str o } in
        let c0 = v0 (text_of l (field "host")) in
        let v1 : Option ℤ → ControllerConfig =
          λ o. record c0 { port = or_default o mqtt_default_port } in
        let c1 = v1 (int_in l (field "port")) in
        let v2 : Option String → ControllerConfig =
          λ o. record c1 { bind_address = map_option c_str o } in
        let c2 = v2 (text_of l (field "bind_address")) in
        let v3 : Option ℤ → ControllerConfig =
          λ o. record c2 { keepalive = or_default o (pos 60) } in
        let c3 = v3 (int_in l (field "keepalive")) in
        let v4 : Option String → ControllerConfig =
          λ o. record c3 { client_id = map_option c_str o } in
        let c4 = v4 (text_of l (field "client_id")) in
        let v5 : Option String → ControllerConfig =
          λ o. record c4 { username = map_option c_str o } in
        let c5 = v5 (text_of l (field "username")) in
        let v6 : Option String → ControllerConfig =
          λ o. record c5 { password = map_option c_str o } in
        let c6 = v6 (text_of l (field "password")) in
        let s0 : List (Value l.types) = Value.table t ∷ u ∷ [] in
        let s1 : List (Value l.types) = read_back l (field "host") ∷ s0 in
        let s2 : List (Value l.types) = field "port" ∷ s1 in
        let s3 : List (Value l.types) = read_back l (field "bind_address") ∷ s2 in
        let s4 : List (Value l.types) = field "keepalive" ∷ s3 in
        let s5 : List (Value l.types) = read_back l (field "client_id") ∷ s4 in
        let s6 : List (Value l.types) = read_back l (field "username") ∷ s5 in
        let s7 : List (Value l.types) = read_back l (field "password") ∷ s6 in
        text_field-ok l (pos 2) t field h has s0 refl "host" set_host default_config v0 refl
          (λ x. refl) k1
        ∙ int_field-ok l (pos 2) t field h has s1 refl "port" set_port c0 v1 refl (λ x. refl) k2
        ∙ text_field-ok l (pos 2) t field h has s2 refl "bind_address" set_bind_address c1 v2 refl
            (λ x. refl) k3
        ∙ int_field-ok l (pos 2) t field h has s3 refl "keepalive" set_keepalive c2 v3 refl
            (λ x. refl) k4
        ∙ text_field-ok l (pos 2) t field h has s4 refl "client_id" set_client_id c3 v4 refl
            (λ x. refl) k5
        ∙ text_field-ok l (pos 2) t field h has s5 refl "username" set_username c4 v5 refl
            (λ x. refl) k6
        ∙ text_field-ok l (pos 2) t field h has s6 refl "password" set_password c5 v6 refl
            (λ x. refl) k7

  module _ (t : l.Table) (ssl : String → Value l.types) (h : l.Heap) (has : HasFields l t ssl h)
      (u c : Value l.types) where
    read_ssl-ok :
        (config : ControllerConfig)
        → let config = record config { ssl_config = default_ssl_config } in
          let st : List (Value l.types) = Value.table t ∷ c ∷ u ∷ [] in
          read_ssl l config (on_stack l st h)
          ≡ (ok (record config { ssl_config = ssl_config_of l ssl }), on_stack l st h)
    unfolding read_ssl
    read_ssl-ok config =
        let d = record config { ssl_config = default_ssl_config } in
        let k5 : Next l = λ c. pop 5 >> pure c in
        let k4 : Next l =
          λ c. bool_field l (pos 3) "verify_hostname" set_verify_hostname c >>= k5 in
        let k3 : Next l = λ c. bool_field l (pos 3) "verify_peer" set_verify_peer c >>= k4 in
        let k2 : Next l = λ c. text_field l (pos 3) "key_file" set_key_file c >>= k3 in
        let k1 : Next l = λ c. text_field l (pos 3) "cert_file" set_cert_file c >>= k2 in
        let v0 : Option String → ControllerConfig =
          λ o. record d { ssl_config = record (d.ssl_config) { ca_file = map_option c_str o } } in
        let c0 = v0 (text_of l (ssl "ca_file")) in
        let v1 : Option String → ControllerConfig = λ o. record c0 {
          ssl_config = record (c0.ssl_config) { cert_file = map_option c_str o };
        } in
        let c1 = v1 (text_of l (ssl "cert_file")) in
        let v2 : Option String → ControllerConfig = λ o. record c1 {
          ssl_config = record (c1.ssl_config) { key_file = map_option c_str o };
        } in
        let c2 = v2 (text_of l (ssl "key_file")) in
        let v3 : Option Bool → ControllerConfig = λ o. record c2 {
          ssl_config = record (c2.ssl_config) { verify_peer = or_default o true };
        } in
        let c3 = v3 (bool_of l (some (ssl "verify_peer"))) in
        let v4 : Option Bool → ControllerConfig = λ o. record c3 {
          ssl_config = record (c3.ssl_config) { verify_hostname = or_default o true };
        } in
        let c4 = v4 (bool_of l (some (ssl "verify_hostname"))) in
        let s0 : List (Value l.types) = Value.table t ∷ c ∷ u ∷ [] in
        let s1 : List (Value l.types) = read_back l (ssl "ca_file") ∷ s0 in
        let s2 : List (Value l.types) = read_back l (ssl "cert_file") ∷ s1 in
        let s3 : List (Value l.types) = read_back l (ssl "key_file") ∷ s2 in
        let s4 : List (Value l.types) = ssl "verify_peer" ∷ s3 in
        let s5 : List (Value l.types) = ssl "verify_hostname" ∷ s4 in
        text_field-ok l (pos 3) t ssl h has s0 refl "ca_file" set_ca_file d v0 refl (λ x. refl) k1
        ∙ text_field-ok l (pos 3) t ssl h has s1 refl "cert_file" set_cert_file c0 v1 refl
            (λ x. refl) k2
        ∙ text_field-ok l (pos 3) t ssl h has s2 refl "key_file" set_key_file c1 v2 refl (λ x. refl)
            k3
        ∙ bool_field-ok l (pos 3) t ssl h has s3 refl "verify_peer" set_verify_peer c2 v3 refl
            (λ x. refl) k4
        ∙ bool_field-ok l (pos 3) t ssl h has s4 refl "verify_hostname" set_verify_hostname c3 v4
            refl (λ x. refl) k5

  module _ (t : l.Table) (u : Value l.types) (field : String → Value l.types)
      (ssl : l.Table → String → Value l.types) (h : l.Heap) where
    read_ssl_of-ok :
        (x : Value l.types)
        → ((s : l.Table) → x ≡ Value.table s → HasFields l s (ssl s) h)
        → let st : List (Value l.types) = x ∷ Value.table t ∷ u ∷ [] in
          read_ssl_of l (some x) (config_of l field default_ssl_config) (on_stack l st h)
          ≡ (ok (config_of l field (ssl_of l ssl x)), on_stack l st h)
    unfolding read_ssl_of
    read_ssl_of-ok (Value.table s) has =
        read_ssl-ok s (ssl s) h (has s refl) u (Value.table t)
          (config_of l field default_ssl_config)
    read_ssl_of-ok Value.nil has = refl
    read_ssl_of-ok (Value.boolean b) has = refl
    read_ssl_of-ok (Value.number b) has = refl
    read_ssl_of-ok (Value.string b) has = refl
    read_ssl_of-ok (Value.function b) has = refl
    read_ssl_of-ok (Value.userdata b) has = refl
    read_ssl_of-ok (Value.other b) has = refl

    read_config-ok :
        HasFields l t field h
        → ((s : l.Table) → field "ssl_config" ≡ Value.table s → HasFields l s (ssl s) h)
        → read_config l (on_stack l (Value.table t ∷ u ∷ []) h)
          ≡ (ok (config_of l field (ssl_of l ssl (field "ssl_config"))), on_stack l [] h)
    unfolding read_config
    read_config-ok has has_ssl =
        let x = field "ssl_config" in
        let below : List (Value l.types) = Value.table t ∷ u ∷ [] in
        let finish : ControllerConfig → Action (Machine l) ControllerConfig =
          λ c. pop 3 >> pure c in
        let nested : ControllerConfig → Action (Machine l) ControllerConfig =
          λ c. value_at top >>= λ v. read_ssl_of l v c >>= finish in
        let c = config_of l field default_ssl_config in
        >>=-ok (read_connection l default_config) (on_stack l below h) (on_stack l below h)
          (λ c. get_field (pos 2) "ssl_config" >> nested c) (read_connection-ok t u field h has)
        ∙ >>-ok (get_field {l = l} (pos 2) "ssl_config") (on_stack l below h)
            (on_stack l (x ∷ below) h) (nested c)
            (get_field-ok l (pos 2) t field h has below refl "ssl_config")
        ∙ >>=-ok (read_ssl_of l (some x) c) (on_stack l (x ∷ below) h) (on_stack l (x ∷ below) h)
            finish (read_ssl_of-ok x has_ssl)

module _ (host : Host) where
  open host use {lua}

  -- `object:connect(t)`, where the object is that of the controller at `a`, `t` has these fields, so does
  -- `t.ssl_config` if that is a table, and reading them changes nothing: the controller's `connect` is
  -- called with the configuration that has the texts and numbers of the fields and the defaults for
  -- all others, with nothing on the stack, and nothing is returned if it returns.
  pub connect_reads :
      (a : ℕ) (u : lua.Userdata) (t : lua.Table) (field : String → Value lua.types)
      (ssl : lua.Table → String → Value lua.types) (P : Process host)
      → address_in host (some (Value.userdata u)) P.lua.heap ≡ some a
      → HasFields lua t field P.lua.heap
      → ((s : lua.Table) → field "ssl_config" ≡ Value.table s → HasFields lua s (ssl s) P.lua.heap)
      → let config = config_of lua field (ssl_of lua ssl (field "ssl_config")) in
        connect host (called host (Value.table t ∷ Value.userdata u ∷ []) P)
        ≡ (on_controller host a (State.connect config) >> pure 0) (called host [] P)
  unfolding connect
  connect_reads a u t field ssl P here has has_ssl =
      let Q = called host (Value.table t ∷ Value.userdata u ∷ []) P in
      let go : ℕ → ControllerConfig → Action (Process host) ℕ =
        λ controller config. on_controller host controller (State.connect config) >> pure 0 in
      >>=-ok (check_controller host) Q Q
        (λ controller. on_lua host (read_config lua) >>= go controller)
        (check_controller-ok host a Q here)
      ∙ >>=-ok (on_lua host (read_config lua)) Q (called host [] P) (go a) (
          ap (λ (r : Result ControllerConfig × Machine lua). (r.0, record P { lua = r.1 }))
            (read_config-ok lua t (Value.userdata u) field ssl P.lua.heap has has_ssl))

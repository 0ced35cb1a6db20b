-- ===== src/LuaThingsmqtt/Config.antt =====
-- lua-thingsmqtt.cpp, `lua_thingsmqtt_connect`: reading the configuration from its table.
use things_mqtt_lua.Prelude.{Bool, Option, none, some, String}
use things_mqtt_lua.Prelude.Int.{ℤ, pos, int_of}
use things_mqtt_lua.Prelude.Effect.{Action, pure, ◌>>=◌, ◌>>◌}
use things_mqtt_lua.Lua.{Lua, Value, Machine, value_at, get_field, to_text, pop, number_at, c_str}
use things_mqtt_lua.LuaUtils.{top}
use things_mqtt_lua.Controller.State.{ControllerConfig, default_config}

-- `if (auto x = ...) config.field = x;`
abbrev pub assign_some {ℓ} :
    {A : Type ℓ}
    → (A → ControllerConfig → ControllerConfig)
    → Option A
    → ControllerConfig
    → ControllerConfig
assign_some set none config = config
assign_some set (some a) config = set a config

-- The assignments to the fields.
abbrev pub set_host : String → ControllerConfig → ControllerConfig
set_host x c = record c { host = some x }

abbrev pub set_port : ℤ → ControllerConfig → ControllerConfig
set_port x c = record c { port = x }

abbrev pub set_bind_address : String → ControllerConfig → ControllerConfig
set_bind_address x c = record c { bind_address = some x }

abbrev pub set_keepalive : ℤ → ControllerConfig → ControllerConfig
set_keepalive x c = record c { keepalive = x }

abbrev pub set_client_id : String → ControllerConfig → ControllerConfig
set_client_id x c = record c { client_id = some x }

abbrev pub set_username : String → ControllerConfig → ControllerConfig
set_username x c = record c { username = some x }

abbrev pub set_password : String → ControllerConfig → ControllerConfig
set_password x c = record c { password = some x }

abbrev pub set_ca_file : String → ControllerConfig → ControllerConfig
set_ca_file x c = record c { ssl_config = record (c.ssl_config) { ca_file = some x } }

abbrev pub set_cert_file : String → ControllerConfig → ControllerConfig
set_cert_file x c = record c { ssl_config = record (c.ssl_config) { cert_file = some x } }

abbrev pub set_key_file : String → ControllerConfig → ControllerConfig
set_key_file x c = record c { ssl_config = record (c.ssl_config) { key_file = some x } }

abbrev pub set_verify_peer : Bool → ControllerConfig → ControllerConfig
set_verify_peer x c = record c { ssl_config = record (c.ssl_config) { verify_peer = x } }

abbrev pub set_verify_hostname : Bool → ControllerConfig → ControllerConfig
set_verify_hostname x c = record c { ssl_config = record (c.ssl_config) { verify_hostname = x } }

module _ {C : Type 0} (l : Lua C) where
  abbrev pub bool_of : Option (Value l.types) → Option Bool
  bool_of (some (Value.boolean b)) = some b
  bool_of _ = none

  -- the number that `lua_isnumber` finds, by `lua_tointeger`, as an `int`
  abbrev pub int_at : Option (Value l.types) → Option ℤ
  int_at v = elim (number_at l v) [ none ↦ none | some n ↦ some (int_of (l.to_integer n)) ]

  abbrev pub text_field :
      ℤ
      → String
      → (String → ControllerConfig → ControllerConfig)
      → ControllerConfig
      → Action (Machine l) ControllerConfig
  text_field i name set config = do
    get_field i name
    text ← to_text top
    pure (assign_some (λ s. set (c_str s)) text config)

  abbrev pub int_field :
      ℤ
      → String
      → (ℤ → ControllerConfig → ControllerConfig)
      → ControllerConfig
      → Action (Machine l) ControllerConfig
  int_field i name set config = do
    get_field i name
    v ← value_at top
    pure (assign_some set (int_at v) config)

  abbrev pub bool_field :
      ℤ
      → String
      → (Bool → ControllerConfig → ControllerConfig)
      → ControllerConfig
      → Action (Machine l) ControllerConfig
  bool_field i name set config = do
    get_field i name
    v ← value_at top
    pure (assign_some set (bool_of v) config)

  unfoldable pub read_connection : ControllerConfig → Action (Machine l) ControllerConfig
  read_connection config = do
    config ← text_field (pos 2) "host" set_host config
    config ← int_field (pos 2) "port" set_port config
    config ← text_field (pos 2) "bind_address" set_bind_address config
    config ← int_field (pos 2) "keepalive" set_keepalive config
    config ← text_field (pos 2) "client_id" set_client_id config
    config ← text_field (pos 2) "username" set_username config
    config ← text_field (pos 2) "password" set_password config
    pop 7
    pure config

  -- what `lua_istable` guards
  unfoldable pub read_ssl : ControllerConfig → Action (Machine l) ControllerConfig
  read_ssl config = do
    config ← text_field (pos 3) "ca_file" set_ca_file config
    config ← text_field (pos 3) "cert_file" set_cert_file config
    config ← text_field (pos 3) "key_file" set_key_file config
    config ← bool_field (pos 3) "verify_peer" set_verify_peer config
    config ← bool_field (pos 3) "verify_hostname" set_verify_hostname config
    pop 5
    pure config

  unfoldable pub read_ssl_of :
      Option (Value l.types) → ControllerConfig → Action (Machine l) ControllerConfig
  unfolding read_ssl
  read_ssl_of (some (Value.table t)) config = read_ssl config
  read_ssl_of _ config = pure config

  unfoldable pub read_config : Action (Machine l) ControllerConfig
  unfolding read_connection read_ssl_of
  read_config = do
    config ← read_connection default_config
    get_field (pos 2) "ssl_config"
    v ← value_at top
    config ← read_ssl_of v config
    pop 3
    pure config

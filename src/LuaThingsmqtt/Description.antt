-- ===== src/LuaThingsmqtt/Description.antt =====
-- lua-thingsmqtt.cpp, `connect`: a description of the configuration that is in a table.
use things_mqtt_lua.Prelude.{◌≡◌, true, Option, none, some, List, String}
use things_mqtt_lua.Prelude.Int.{ℤ, pos, int_of}
use things_mqtt_lua.Prelude.Effect.{ok}
use things_mqtt_lua.Lua.{Lua, Value, Machine, text_of, number_of, c_str}
use things_mqtt_lua.MqttClient.{MqttSslConfig, default_ssl_config}
use things_mqtt_lua.MqttClient.Codes.{mqtt_default_port}
use things_mqtt_lua.Controller.State.{ControllerConfig}
use things_mqtt_lua.LuaThingsmqtt.Process.{}
use things_mqtt_lua.LuaThingsmqtt.Config.{bool_of}

abbrev pub or_default {ℓ} : {A : Type ℓ} → Option A → A → A
or_default none a = a
or_default (some b) a = b

abbrev pub map_option {ℓ} : {A : Type ℓ} → (A → A) → Option A → Option A
map_option f none = none
map_option f (some a) = some (f a)

module _ {C : Type 0} (l : Lua C) where
  abbrev pub on_stack : List (Value l.types) → l.Heap → Machine l
  on_stack st h = record { stack = st; heap = h }

  -- What is documented of the configuration: a text is one, or a number as text; a number is one, or a
  -- text that reads as one; anything else leaves the default.
  abbrev pub text_in : Value l.types → Option String
  text_in x = map_option c_str (text_of l x)

  abbrev pub int_in : Value l.types → Option ℤ
  int_in x = elim (number_of l x) [ none ↦ none | some n ↦ some (int_of (l.to_integer n)) ]

  -- The configuration with these fields, and these fields of `ssl_config` if that is a table.
  abbrev pub ssl_config_of : (String → Value l.types) → MqttSslConfig
  ssl_config_of ssl = record {
    ca_file = text_in (ssl "ca_file");
    cert_file = text_in (ssl "cert_file");
    key_file = text_in (ssl "key_file");
    verify_peer = or_default (bool_of l (some (ssl "verify_peer"))) true;
    verify_hostname = or_default (bool_of l (some (ssl "verify_hostname"))) true;
  }

  abbrev pub config_of : (String → Value l.types) → MqttSslConfig → ControllerConfig
  config_of field ssl_config = record {
    host = text_in (field "host");
    port = or_default (int_in (field "port")) mqtt_default_port;
    bind_address = text_in (field "bind_address");
    keepalive = or_default (int_in (field "keepalive")) (pos 60);
    client_id = text_in (field "client_id");
    username = text_in (field "username");
    password = text_in (field "password");
    ssl_config = ssl_config;
  }

  abbrev pub ssl_of : (l.Table → String → Value l.types) → Value l.types → MqttSslConfig
  ssl_of ssl (Value.table t) = ssl_config_of (ssl t)
  ssl_of ssl _ = default_ssl_config

  -- The fields of a table, which the interpreter gives without a change to it.
  abbrev pub HasFields : l.Table → (String → Value l.types) → l.Heap → Type 0
  HasFields t field h =
      (name : String) → l.index (Value.table t) (Value.string name) h ≡ (ok (field name), h)

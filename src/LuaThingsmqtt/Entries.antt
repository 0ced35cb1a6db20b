-- ===== src/LuaThingsmqtt/Entries.antt =====
-- lua-thingsmqtt-private.hpp, and the static data of lua-thingsmqtt.cpp: the C functions of the Lua module.
use things_mqtt_lua.Prelude.{List, [], ◌∷◌, String}

-- The methods of an object, those about handlers, and the functions about JSON.
pub data Method : Type 0 where
  connect telemetry set_attribute send loop is_connected : Method

pub data RpcMethod : Type 0 where
  add_rpc_handler remove_rpc_handler : RpcMethod

pub data JsonFunction : Type 0 where
  json_stringify json_parse : JsonFunction

-- The C functions that a `lua_State` may call, as lua-thingsmqtt-private.hpp declares them.
pub data Entry : Type 0 where
  new : Entry
  method : Method → Entry
  rpc_method : RpcMethod → Entry
  json_function : JsonFunction → Entry

abbrev pub thingsmqtt_meta : String
thingsmqtt_meta = "ThingsMqtt"

abbrev pub library_methods : List (String × Entry)
library_methods =
    ("new", new)
    ∷ ("json_stringify", json_function json_stringify)
    ∷ ("json_parse", json_function json_parse)
    ∷ []

abbrev pub thingsmqtt_methods : List (String × Entry)
thingsmqtt_methods =
    ("connect", method connect)
    ∷ ("telemetry", method telemetry)
    ∷ ("set_attribute", method set_attribute)
    ∷ ("send", method send)
    ∷ ("loop", method loop)
    ∷ ("is_connected", method is_connected)
    ∷ []

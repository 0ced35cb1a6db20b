-- ===== src/JsonValues.antt =====
-- The calls of nlohmann::json that src/lua-utils.cpp makes, beside those of the controller: making a
-- value of each kind, and looking into one. `N` is the type of floating-point numbers.
use things_mqtt_lua.Prelude.{ℕ, Bool, List, String}
use things_mqtt_lua.Prelude.Int.{ℤ}
use things_mqtt_lua.Platform.{Json}

-- The kinds of value that `type()` tells apart, each with what `get`, `items` or `operator[]` then give.
pub data View (V N : Type 0) : Type 0 where
  null binary discarded : View V N
  boolean : Bool → View V N
  integer : ℤ → View V N
  unsigned : ℕ → View V N
  floating : N → View V N
  text : String → View V N
  object : List (String × V) → View V N
  array : List V → View V N

pub record JsonValues (j : Json) (N : Type 0) : Type 0 where
  pub of_int64 : ℤ → j.Value
  pub of_double : N → j.Value
  pub of_text : String → j.Value
  -- `json::object()` and `json::array()`
  pub empty_object : j.Value
  pub empty_array : j.Value
  pub push_back : j.Value → j.Value → j.Value
  pub view : j.Value → View j.Value N

-- ===== src/LuaUtils/Pushes.antt =====
-- lua-utils.cpp, `lua_json_to_value`: what it leaves on the stack, whatever the interpreter answers.
use things_mqtt_lua.Prelude.{ℕ, zero, suc, ◌+◌, refl, List, [], ◌∷◌, String}
use things_mqtt_lua.Prelude.Int.{pos, negsuc}
use things_mqtt_lua.Prelude.Effect.{Result, ok, raised, Action, Void, ◌>>◌}
use things_mqtt_lua.Platform.{Json}
use things_mqtt_lua.JsonValues.{
  JsonValues, View, null, binary, discarded, boolean, integer, unsigned, floating, text, object,
  array,
}
use things_mqtt_lua.Lua.{Lua, Value, Machine, push, set_table, c_str, or_nil, from_top}
use things_mqtt_lua.LuaUtils.{push_items, push_elements, view_to_value, lua_json_to_value}
use things_mqtt_lua.LuaUtils.Balance.{Leaves, >>=-Leaves}

module _ {C : Type 0} (l : Lua C) where
  -- If a call returns, it has pushed one value.
  abbrev pub Pushes : Action (Machine l) Void → Type 0
  Pushes m =
      (st : List (Value l.types)) (h : l.Heap)
      → (x : Value l.types) × Leaves l (x ∷ st) (m (record { stack = st; heap = h }))

  -- If a call returns, it leaves the stack as it was.
  abbrev Keeps : Action (Machine l) Void → Type 0
  Keeps m =
      (st : List (Value l.types)) (h : l.Heap) → Leaves l st (m (record { stack = st; heap = h }))

  heap-Leaves :
      (r : Result Void) (st : List (Value l.types)) (h : l.Heap)
      → Leaves l st (r, record { stack = st; heap = h })
  heap-Leaves (ok a) st h = refl
  heap-Leaves (raised e) st h = tt

  module _ {j : Json} (v : JsonValues j l.Number) (convert : j.Value → Action (Machine l) Void)
      (pushes : (x : j.Value) → Pushes (convert x)) where
    -- One entry of a table: the key, the value, and the assignment to the table below them.
    entry-Keeps :
        (key : Value l.types) (value : j.Value) (rest : Action (Machine l) Void)
        → Keeps rest
        → Keeps (push key >> (convert value >> (set_table (negsuc 2) >> rest)))
    entry-Keeps key value rest k st h =
        let (x, pushed) = pushes value (key ∷ st) h in
        >>=-Leaves l (convert value) (λ _. set_table (negsuc 2) >> rest) (x ∷ key ∷ st) st
          (record { stack = key ∷ st; heap = h }) pushed
          λ _ h'.
            >>=-Leaves l (set_table (negsuc 2)) (λ _. rest) st st
              (record { stack = x ∷ key ∷ st; heap = h' })
              (heap-Leaves (l.set_index (or_nil (from_top (x ∷ key ∷ st) 2)) key x h').0 st _)
              (λ _ h''. k st h'')

    push_items-Keeps : (items : List (String × j.Value)) → Keeps (push_items l v convert items)
    unfolding push_items
    push_items-Keeps [] st h = refl
    push_items-Keeps ((key, value) ∷ items) st h =
        entry-Keeps (Value.string (c_str key)) value (push_items l v convert items)
          (push_items-Keeps items) st h

    push_elements-Keeps :
        (i : ℕ) (elements : List j.Value) → Keeps (push_elements l v convert i elements)
    unfolding push_elements
    push_elements-Keeps i [] st h = refl
    push_elements-Keeps i (value ∷ elements) st h =
        entry-Keeps (Value.number (l.of_integer (pos (i + 1)))) value
          (push_elements l v convert (i + 1) elements) (push_elements-Keeps (i + 1) elements) st h

    view_to_value-Pushes : (x : View j.Value l.Number) → Pushes (view_to_value l v convert x)
    unfolding view_to_value
    view_to_value-Pushes (object items) st h =
        let (t, h') = l.new_table h in
        (Value.table t, push_items-Keeps items (Value.table t ∷ st) h')
    view_to_value-Pushes (array elements) st h =
        let (t, h') = l.new_table h in
        (Value.table t, push_elements-Keeps 0 elements (Value.table t ∷ st) h')
    view_to_value-Pushes null st h = (_, refl)
    view_to_value-Pushes binary st h = (_, refl)
    view_to_value-Pushes discarded st h = (_, refl)
    view_to_value-Pushes (boolean b) st h = (_, refl)
    view_to_value-Pushes (integer n) st h = (_, refl)
    view_to_value-Pushes (unsigned n) st h = (_, refl)
    view_to_value-Pushes (floating n) st h = (_, refl)
    view_to_value-Pushes (text n) st h = (_, refl)

  -- Whatever the interpreter answers: if `lua_json_to_value` returns, it has pushed one value.
  pub lua_json_to_value-balance :
      {j : Json} (v : JsonValues j l.Number) (fuel : ℕ) (json : j.Value) (st : List (Value l.types))
      (h : l.Heap)
      → (x : Value l.types) × Leaves l
          (x ∷ st)
          (lua_json_to_value l v fuel json (record { stack = st; heap = h }))
  unfolding lua_json_to_value
  lua_json_to_value-balance v zero json st h = (Value.nil, tt)
  lua_json_to_value-balance v (suc fuel) json st h =
      view_to_value-Pushes v (lua_json_to_value l v fuel) (lua_json_to_value-balance v fuel)
        (v.view json) st h

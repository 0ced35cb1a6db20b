-- ===== src/LuaUtils/Flat.antt =====
-- lua-utils.cpp, `lua_value_to_json` of a table without metamethods whose values are no tables.
use things_mqtt_lua.Prelude.{
  ℕ, zero, suc, ◌<◌, ◌≡◌, ◌∙◌, ap, sym, true, none, some, List, [], ◌∷◌, ◌++◌, append_assoc, String,
  arith, length,
}
use things_mqtt_lua.Prelude.Int.{ℤ, pos}
use things_mqtt_lua.Prelude.Effect.{ok, Action, ◌>>◌, >>=-ok}
use things_mqtt_lua.Platform.{Json}
use things_mqtt_lua.JsonValues.{JsonValues}
use things_mqtt_lua.Lua.{Lua, Value, Machine, next_entry, c_str, pop, get_table, first}
use things_mqtt_lua.LuaUtils.{
  lua_value_to_json, top, typed_to_json, table_to_json, elements_or_entries, is_nil, object_entry,
  object_entries,
}
use things_mqtt_lua.LuaUtils.Tables.{
  Tables, head, IsScalar, Holds, one, get_table-eq, next_entry-Holds, scalar,
  lua_value_to_json-scalar, from_bottom-push,
}

module _ {C : Type 0} (l : Lua C) {j : Json} (v : JsonValues j l.Number) where
  -- Entries with text keys.
  abbrev pub pairs : List (String × Value l.types) → List (Value l.types × Value l.types)
  pairs [] = []
  pairs ((key, x) ∷ es) = (Value.string key, x) ∷ pairs es

  abbrev pub AllScalar : List (String × Value l.types) → Type 0
  AllScalar [] = Unit
  AllScalar ((key, x) ∷ es) = IsScalar l x × AllScalar es

  -- The object with these entries set one after the other.
  abbrev pub object_of : List (String × Value l.types) → j.Value → j.Value
  object_of [] obj = obj
  object_of ((key, x) ∷ es) obj = object_of es (j.set_key obj (c_str key) (scalar l v x))

  abbrev on_stack : List (Value l.types) → l.Heap → Machine l
  on_stack st h = record { stack = st; heap = h }

  -- One round of the loop over an object.
  pub object_entry-scalar :
      (fuel : ℕ) (rest : j.Value → Action (Machine l) j.Value) (obj : j.Value) (key : String)
      (x : Value l.types) (st : List (Value l.types)) (h : l.Heap)
      → IsScalar l x
      → object_entry l v
          (lua_value_to_json l v (suc fuel))
          rest
          obj
          true
          (on_stack (x ∷ Value.string key ∷ st) h)
        ≡ rest (j.set_key obj (c_str key) (scalar l v x)) (on_stack (Value.string key ∷ st) h)
  unfolding object_entry
  object_entry-scalar fuel rest obj key x st h plain =
      >>=-ok (lua_value_to_json l v (suc fuel) top) (on_stack (x ∷ Value.string key ∷ st) h)
        (on_stack (x ∷ Value.string key ∷ st) h)
        (λ value. pop 1 >> rest (j.set_key obj (c_str key) value))
        (lua_value_to_json-scalar l v fuel x (Value.string key ∷ st) h plain)

  module _ (tables : Tables l) (i : ℕ) (t : l.Table) (st : List (Value l.types)) (h : l.Heap)
      (holds : Holds l st i t) (fuel : ℕ) where
    open tables use {entries, next-entry}

    object_entries-pairs :
        (es : List (String × Value l.types)) (rounds : ℕ)
        (before : List (Value l.types × Value l.types)) (k : Value l.types) (obj : j.Value)
        → entries t h ≡ before ++ pairs es
        → l.next (Value.table t) k h ≡ (ok (head (pairs es)), h)
        → AllScalar es
        → length es < rounds
        → object_entries l v rounds
            (lua_value_to_json l v (suc fuel))
            (pos i)
            obj
            (on_stack (k ∷ st) h)
          ≡ (ok (object_of es obj), on_stack st h)
    unfolding object_entries object_entry
    object_entries-pairs es zero before k obj split here plain enough = absurd (omega arith)
    object_entries-pairs [] (suc rounds) before k obj split here plain enough =
        >>=-ok (next_entry {l = l} (pos i)) (on_stack (k ∷ st) h) (on_stack st h)
          (object_entry l v (lua_value_to_json l v (suc fuel))
            (object_entries l v rounds (lua_value_to_json l v (suc fuel)) (pos i)) obj)
          (next_entry-Holds l i t k st h none holds here)
    object_entries-pairs ((key, x) ∷ es) (suc rounds) before k obj split here plain enough =
        let convert = lua_value_to_json l v (suc fuel) in
        let rest = object_entries l v rounds convert (pos i) in
        >>=-ok (next_entry {l = l} (pos i)) (on_stack (k ∷ st) h)
          (on_stack (x ∷ Value.string key ∷ st) h) (object_entry l v convert rest obj)
          (next_entry-Holds l i t k st h (some (Value.string key, x)) holds here)
        ∙ object_entry-scalar fuel rest obj key x st h plain.0
        ∙ object_entries-pairs es rounds (before ++ (Value.string key, x) ∷ []) (Value.string key)
            (j.set_key obj (c_str key) (scalar l v x))
            (split ∙ sym (append_assoc before ((Value.string key, x) ∷ []) (pairs es)))
            (next-entry t h before (pairs es) (Value.string key) x tt split) plain.1 (omega arith)

  -- The element 1 is read, and tells an array from an object.
  pub table_to_json-Holds :
      (tables : Tables l) (i : ℕ) (t : l.Table) (st : List (Value l.types)) (h : l.Heap) (fuel : ℕ)
      (convert : ℤ → Action (Machine l) j.Value)
      → Holds l st i t
      → tables.IsPlain t h
      → let x = tables.element t (one l) h in
        table_to_json l v fuel convert (pos i) (on_stack st h)
        ≡ elements_or_entries l v fuel convert (pos i) (is_nil x) (on_stack (x ∷ st) h)
  unfolding table_to_json
  table_to_json-Holds tables i t st h fuel convert (le, here) plain =
      >>=-ok (get_table {l = l} (pos i)) (on_stack (one l ∷ st) h)
        (on_stack (tables.element t (one l) h ∷ st) h)
        (λ _ s. elements_or_entries l v fuel convert (pos i) (is_nil (first s.stack)) s)
        (get_table-eq l (pos i) (one l) (Value.table t) st h (ok (tables.element t (one l) h))
          (from_bottom-push (one l) st i le ∙ here) (tables.index-plain t (one l) h plain))

  -- Of a table without a metatable at a positive index, whose element 1 is nil, whose keys are texts
  -- and whose values are no tables, and with fuel for more rounds than it has entries, the result is
  -- the object in which each key, up to its first zero byte, is set to the JSON of its value, in the
  -- order of the traversal; the stack and the rest of the interpreter are as before.
  pub flat_object :
      (tables : Tables l) (i : ℕ) (t : l.Table) (st : List (Value l.types)) (h : l.Heap) (fuel : ℕ)
      (es : List (String × Value l.types))
      → Holds l st i t
      → tables.IsPlain t h
      → tables.element t (one l) h ≡ Value.nil
      → tables.entries t h ≡ pairs es
      → AllScalar es
      → length es < fuel
      → lua_value_to_json l v (suc fuel) (pos i) (record { stack = st; heap = h })
        ≡ (ok (object_of es v.empty_object), record { stack = st; heap = h })
  unfolding lua_value_to_json typed_to_json elements_or_entries
  flat_object tables i t st h zero es holds plain no_one split scalars enough = absurd (omega arith)
  flat_object tables i t st h (suc fuel) es holds plain no_one split scalars enough =
      ap
        (λ x.
          typed_to_json l v (suc fuel) (lua_value_to_json l v (suc fuel)) (pos i) x (on_stack st h))
        holds.1
      ∙ table_to_json-Holds tables i t st h (suc fuel) (lua_value_to_json l v (suc fuel)) holds
          plain
      ∙ ap
          (λ x.
            elements_or_entries l v (suc fuel) (lua_value_to_json l v (suc fuel)) (pos i) (is_nil x)
              (on_stack (x ∷ st) h))
          no_one
      ∙ object_entries-pairs tables i t st h holds fuel es (suc fuel) [] Value.nil v.empty_object
          split (tables.next-nil t h ∙ ap (λ l. (ok (head l), h)) split) scalars enough

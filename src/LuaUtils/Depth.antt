-- ===== src/LuaUtils/Depth.antt =====
-- lua-utils.cpp, `lua_json_to_value`: how much fuel the recursion over a JSON value needs.
use things_mqtt_lua.Prelude.{ℕ, zero, suc, ◌+◌, ◌<◌, List, [], ◌∷◌, String, arith}
use things_mqtt_lua.Prelude.Int.{ℤ, negsuc}
use things_mqtt_lua.Prelude.Effect.{
  Exception, runtime_error, invalid_argument, bad_alloc, parse_error, type_error, lua_error,
  bad_argument, out_of_fuel, Result, ok, raised, Action, Void, ◌>>◌, >>=-cases,
}
use things_mqtt_lua.Platform.{Json}
use things_mqtt_lua.JsonValues.{
  JsonValues, View, null, binary, discarded, boolean, integer, unsigned, floating, text, object,
  array,
}
use things_mqtt_lua.Lua.{Lua, Value, Machine, set_table, or_nil, at, first, second}
use things_mqtt_lua.LuaUtils.{push_items, push_elements, view_to_value, lua_json_to_value}

-- The fuel has not run out.
abbrev pub Ends {ℓ} : {A : Type 0} {S : Type ℓ} → Result A × S → Type 0
Ends (raised out_of_fuel, s) = ⊥
Ends _ = Unit

module _ {V : Type 0} (height : V → ℕ) (n : ℕ) where
  -- The values in a list are below a height.
  abbrev pub ItemsBelow : List (String × V) → Type 0
  ItemsBelow [] = Unit
  ItemsBelow ((key, x) ∷ items) = (height x < n) × ItemsBelow items

  abbrev pub ElementsBelow : List V → Type 0
  ElementsBelow [] = Unit
  ElementsBelow (x ∷ elements) = (height x < n) × ElementsBelow elements

  abbrev pub Below : {N : Type 0} → View V N → Type 0
  Below (object items) = ItemsBelow items
  Below (array elements) = ElementsBelow elements
  Below _ = Unit

-- A JSON value is finite: it has a height above those of the values in it.
pub record Heights {j : Json} {N : Type 0} (v : JsonValues j N) : Type 0 where
  pub height : j.Value → ℕ
  pub view-Below : (json : j.Value) → Below height (height json) (v.view json)

module _ {C : Type 0} (l : Lua C)
    (set_ends : (t k x : Value l.types) (h : l.Heap) → Ends (l.set_index t k x h)) where
  >>-Ends :
      (m k : Action (Machine l) Void) (s : Machine l)
      → Ends (m s)
      → ((s' : Machine l) → Ends (k s'))
      → Ends ((m >> k) s)
  >>-Ends m k s h next =
      >>=-cases (λ x. Ends x) (λ x. Ends x) m (λ _. k) s h (λ a s' e. next s') raised-Ends
    where
      raised-Ends :
          (e : Exception) (s' : Machine l)
          → Ends {A = Void} (raised e, s')
          → Ends {A = Void} (raised e, s')
      raised-Ends e s' h = h

  heap-Ends :
      (r : Result Void × l.Heap) (st : List (Value l.types))
      → Ends r
      → Ends {S = Machine l} (r.0, record { stack = st; heap = r.1 })
  heap-Ends (ok a, h) st e = tt
  heap-Ends (raised (runtime_error _), h) st e = tt
  heap-Ends (raised (invalid_argument _), h) st e = tt
  heap-Ends (raised bad_alloc, h) st e = tt
  heap-Ends (raised parse_error, h) st e = tt
  heap-Ends (raised type_error, h) st e = tt
  heap-Ends (raised (lua_error _), h) st e = tt
  heap-Ends (raised (bad_argument _ _), h) st e = tt
  heap-Ends (raised out_of_fuel, h) st e = e

  set_table-Ends : (i : ℤ) (s : Machine l) → Ends (set_table {l = l} i s)
  set_table-Ends i s =
      heap-Ends (l.set_index (or_nil (at s.stack i)) (second s.stack) (first s.stack) s.heap) _
        (set_ends _ _ _ _)

  module _ {j : Json} (v : JsonValues j l.Number) (heights : Heights v)
      (convert : j.Value → Action (Machine l) Void) (n : ℕ)
      (ends : (x : j.Value) → heights.height x < n → (s : Machine l) → Ends (convert x s)) where
    open heights use {height}

    push_items-Ends :
        (items : List (String × j.Value)) (s : Machine l)
        → ItemsBelow height n items
        → Ends (push_items l v convert items s)
    unfolding push_items
    push_items-Ends [] s below = tt
    push_items-Ends ((key, x) ∷ items) s (lt, below) =
        >>-Ends (convert x) (set_table (negsuc 2) >> push_items l v convert items) _ (ends x lt _)
          λ s'.
            >>-Ends (set_table (negsuc 2)) (push_items l v convert items) s'
              (set_table-Ends (negsuc 2) s') (λ s''. push_items-Ends items s'' below)

    push_elements-Ends :
        (i : ℕ) (elements : List j.Value) (s : Machine l)
        → ElementsBelow height n elements
        → Ends (push_elements l v convert i elements s)
    unfolding push_elements
    push_elements-Ends i [] s below = tt
    push_elements-Ends i (x ∷ elements) s (lt, below) =
        >>-Ends (convert x) (set_table (negsuc 2) >> push_elements l v convert (i + 1) elements) _
          (ends x lt _)
          λ s'.
            >>-Ends (set_table (negsuc 2)) (push_elements l v convert (i + 1) elements) s'
              (set_table-Ends (negsuc 2) s') (λ s''. push_elements-Ends (i + 1) elements s'' below)

    view_to_value-Ends :
        (x : View j.Value l.Number) (s : Machine l)
        → Below height n x
        → Ends (view_to_value l v convert x s)
    unfolding view_to_value
    view_to_value-Ends (object items) s below = push_items-Ends items _ below
    view_to_value-Ends (array elements) s below = push_elements-Ends 0 elements _ below
    view_to_value-Ends null s below = tt
    view_to_value-Ends binary s below = tt
    view_to_value-Ends discarded s below = tt
    view_to_value-Ends (boolean b) s below = tt
    view_to_value-Ends (integer b) s below = tt
    view_to_value-Ends (unsigned b) s below = tt
    view_to_value-Ends (floating b) s below = tt
    view_to_value-Ends (text b) s below = tt

  -- With fuel above the height of the value, `lua_json_to_value` never runs out of it, if the
  -- interpreter's own calls do not.
  pub lua_json_to_value-Ends :
      {j : Json} (v : JsonValues j l.Number) (heights : Heights v) (fuel : ℕ) (json : j.Value)
      (s : Machine l)
      → heights.height json < fuel
      → Ends (lua_json_to_value l v fuel json s)
  unfolding lua_json_to_value
  lua_json_to_value-Ends v heights zero json s lt = absurd (omega arith)
  lua_json_to_value-Ends v heights (suc fuel) json s lt =
      view_to_value-Ends v heights (lua_json_to_value l v fuel) (heights.height json)
        (λ x below s'. lua_json_to_value-Ends v heights fuel x s' (omega arith)) (v.view json) s
        (heights.view-Below json)

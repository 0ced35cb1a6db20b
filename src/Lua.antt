-- ===== src/Lua.antt =====
-- The Lua 5.1 interpreter as src/lua-utils.cpp and src/lua-thingsmqtt.cpp see it. What a table access,
-- a traversal, a call or a conversion does is a parameter. The stack of a C function is that of the
-- reference manual: a list of values, here with its top first, which the calls push and pop.
use Prim.Native.Char.{code}
use things_mqtt_lua.Prelude.{
  ℕ, zero, suc, Bool, true, false, Option, none, some, List, [], ◌∷◌, String, ◌==◌, nat_eq, length,
  if◌then◌else◌,
}
use things_mqtt_lua.Prelude.Int.{ℤ, pos, negsuc}
use things_mqtt_lua.Prelude.Effect.{
  Action, Void, ok, bad_argument, pure, gets, put, throw, ◌>>=◌, ◌>>◌,
}

pub record LuaTypes : Type 1 where
  -- `lua_Number`, a `double`
  pub Number : Type 0
  pub Table : Type 0
  pub Function : Type 0
  pub Userdata : Type 0
  -- threads and light userdata
  pub Other : Type 0

pub data Value (t : LuaTypes) : Type 0 where
  nil : Value t
  boolean : Bool → Value t
  number : t.Number → Value t
  string : String → Value t
  table : t.Table → Value t
  function : t.Function → Value t
  userdata : t.Userdata → Value t
  other : t.Other → Value t

-- `C` is the type of the C functions of the program. `Heap` is all of the interpreter but the stack.
pub record Lua (C : Type 0) : Type 1 where
  pub types : LuaTypes
  pub open types use {Number, Table, Function, Userdata}
  pub Heap : Type 0
  -- `modf(n, &i) == 0.0`, and the conversions of a number to and from integers
  pub is_whole : Number → Bool
  pub to_int64 : Number → ℤ
  pub to_integer : Number → ℤ
  pub of_integer : ℤ → Number
  -- to `float` and back
  pub to_float : Number → Number
  -- between numbers and text
  pub number_text : Number → String
  pub text_number : String → Option Number
  -- `t[k]`, `t[k] = v`, the entry after a key, with whatever metamethods run
  pub index : Value types → Value types → Action Heap (Value types)
  pub set_index : Value types → Value types → Value types → Action Heap Void
  pub next : Value types → Value types → Action Heap (Option (Value types × Value types))
  pub new_table : Heap → Table × Heap
  -- `luaL_register` on a table
  pub register : Value types → List (String × C) → Action Heap Void
  pub global : String → Action Heap (Value types)
  -- `lua_pcall` for one result: the result, or what the call raised
  pub protected_call : Value types → List (Value types) → Heap → Value types × Heap
  -- `luaL_ref` into the registry
  pub ref : Value types → Heap → ℤ × Heap
  -- userdata whose block holds an address
  pub new_userdata : Heap → Userdata × Heap
  pub block : Userdata → Heap → ℕ
  pub set_block : Userdata → ℕ → Heap → Heap
  -- the metatable registered under a name: made if there is none, and whether it was made
  pub new_metatable : String → Heap → (Bool × Value types) × Heap
  pub metatable : String → Heap → Value types
  pub set_metatable : Value types → Value types → Heap → Heap
  pub is_instance : Userdata → String → Heap → Bool

-- `lua_State`
pub record Machine {C : Type 0} (l : Lua C) : Type 0 where
  pub stack : List (Value l.types)
  pub heap : l.Heap

abbrev pub drop {ℓ} : {A : Type ℓ} → ℕ → List A → List A
drop zero xs = xs
drop (suc n) [] = []
drop (suc n) (x ∷ xs) = drop n xs

-- The value at a positive index, counted from the bottom.
abbrev pub from_bottom {ℓ} : {A : Type ℓ} → List A → ℕ → Option A
from_bottom [] i = none
from_bottom (x ∷ xs) i = if i == suc (length xs) then some x else from_bottom xs i

-- The value at a negative index -(n + 1), counted from the top.
abbrev pub from_top {ℓ} : {A : Type ℓ} → List A → ℕ → Option A
from_top [] n = none
from_top (x ∷ xs) zero = some x
from_top (x ∷ xs) (suc n) = from_top xs n

-- The value at an index, `none` where the index is not acceptable (`LUA_TNONE`).
abbrev pub at {ℓ} : {A : Type ℓ} → List A → ℤ → Option A
at xs (pos i) = from_bottom xs i
at xs (negsuc n) = from_top xs n

-- The text that a C function reads from a `char*`: that before the first zero byte.
abbrev pub c_str : String → String
c_str String.[] = ""
c_str (String.◌∷◌ c s) = if code c == 0 then "" else String.◌∷◌ c (c_str s)

-- The slot at an index, given another value.
abbrev pub set_from_bottom {ℓ} : {A : Type ℓ} → List A → ℕ → A → List A
set_from_bottom [] i a = []
set_from_bottom (x ∷ xs) i a = if i == suc (length xs) then a ∷ xs else x ∷ set_from_bottom xs i a

abbrev pub set_from_top {ℓ} : {A : Type ℓ} → List A → ℕ → A → List A
set_from_top [] n a = []
set_from_top (x ∷ xs) zero a = a ∷ xs
set_from_top (x ∷ xs) (suc n) a = x ∷ set_from_top xs n a

abbrev pub set_at {ℓ} : {A : Type ℓ} → List A → ℤ → A → List A
set_at xs (pos i) a = set_from_bottom xs i a
set_at xs (negsuc n) a = set_from_top xs n a

abbrev pub or_nil : {t : LuaTypes} → Option (Value t) → Value t
or_nil none = nil
or_nil (some v) = v

-- the two values at the top, the upper first
abbrev pub first : {t : LuaTypes} → List (Value t) → Value t
first xs = or_nil (from_top xs 0)

abbrev pub second : {t : LuaTypes} → List (Value t) → Value t
second xs = or_nil (from_top xs 1)

abbrev pub set_text : {t : LuaTypes} → List (Value t) → ℤ → Option String → List (Value t)
set_text xs i none = xs
set_text xs i (some s) = set_at xs i (string s)

module _ {C : Type 0} (l : Lua C) where
  abbrev pub text_of : Value l.types → Option String
  text_of (string s) = some s
  text_of (number n) = some (l.number_text n)
  text_of _ = none

  abbrev pub text_at : Option (Value l.types) → Option String
  text_at none = none
  text_at (some v) = text_of v

  -- the number of a number, or of text that reads as one
  abbrev pub number_of : Value l.types → Option l.Number
  number_of (number n) = some n
  number_of (string s) = l.text_number s
  number_of _ = none

  abbrev pub number_at : Option (Value l.types) → Option l.Number
  number_at none = none
  number_at (some v) = number_of v

module _ {C : Type 0} {l : Lua C} where
  abbrev pub value_at : ℤ → Action (Machine l) (Option (Value l.types))
  value_at i = gets (λ s. at s.stack i)

  abbrev pub push : Value l.types → Action (Machine l) Void
  push v = put (λ s. record s { stack = v ∷ s.stack })

  -- `lua_pop`; to pop more than there is is undefined, and empties the stack here
  abbrev pub pop : ℕ → Action (Machine l) Void
  pop n = put (λ s. record s { stack = drop n s.stack })

  -- A call into the interpreter.
  abbrev pub on_heap : {A : Type 0} → Action l.Heap A → Action (Machine l) A
  on_heap f s = let (r, h) = f s.heap in (r, record s { heap = h })

  -- `lua_gettable`: the key at the top gives way to the value
  abbrev pub get_table : ℤ → Action (Machine l) Void
  get_table i = do
    t ← value_at i
    s ← gets (λ s. s.stack)
    pop 1
    v ← on_heap (l.index (or_nil t) (first s))
    push v

  abbrev pub get_field : ℤ → String → Action (Machine l) Void
  get_field i name = do t ← value_at i; v ← on_heap (l.index (or_nil t) (string name)); push v

  -- `lua_settable`: the value at the top and the key below it are popped
  abbrev pub set_table : ℤ → Action (Machine l) Void
  set_table i = do
    t ← value_at i
    s ← gets (λ s. s.stack)
    pop 2
    on_heap (l.set_index (or_nil t) (second s) (first s))

  abbrev pub set_field : ℤ → String → Action (Machine l) Void
  set_field i name = do
    t ← value_at i
    s ← gets (λ s. s.stack)
    pop 1
    on_heap (l.set_index (or_nil t) (string name) (first s))

  abbrev pub push_entry : Option (Value l.types × Value l.types) → Action (Machine l) Bool
  push_entry none = pure false
  push_entry (some (k, v)) = do push k; push v; pure true

  -- `lua_next`: the key at the top gives way to the next key and its value, if there is one
  abbrev pub next_entry : ℤ → Action (Machine l) Bool
  next_entry i = do
    t ← value_at i
    s ← gets (λ s. s.stack)
    pop 1
    entry ← on_heap (l.next (or_nil t) (first s))
    push_entry entry

  abbrev pub push_table : Action (Machine l) Void
  push_table s =
      let (t, h) = l.new_table s.heap in (ok tt, record { stack = table t ∷ s.stack; heap = h })

  -- `lua_tostring`: the text of a string or of a number, which becomes that text where it stands
  abbrev pub to_text : ℤ → Action (Machine l) (Option String)
  to_text i = do
    v ← value_at i
    let text = text_at l v
    put (λ s. record s { stack = set_text s.stack i text })
    pure text

  abbrev pub required : ℤ → String → {A : Type 0} → Option A → Action (Machine l) A
  required arg expected none = throw (bad_argument arg expected)
  required arg expected (some a) = pure a

  -- `luaL_checkstring`
  abbrev pub check_text : ℤ → Action (Machine l) String
  check_text i = to_text i >>= required i "string"

  -- `luaL_checkinteger`
  abbrev pub check_integer : ℤ → Action (Machine l) ℤ
  check_integer i = do
    v ← value_at i
    n ← required i "number" (number_at l v)
    pure (l.to_integer n)

-- ===== src/LuaThingsmqtt/Fields.antt =====
-- lua-thingsmqtt.cpp, `connect`: reading one field of the configuration.
use things_mqtt_lua.Prelude.{◌≡◌, refl, ap, ◌∙◌, Bool, Option, none, some, List, ◌∷◌, String, arith}
use things_mqtt_lua.Prelude.Int.{ℤ}
use things_mqtt_lua.Prelude.Effect.{ok, Action, pure, ◌>>=◌, >>=-ok, >>-ok}
use things_mqtt_lua.Lua.{
  Lua, Value, Machine, at, text_of, c_str, get_field, value_at, set_text, to_text,
}
use things_mqtt_lua.LuaUtils.{top}
use things_mqtt_lua.Controller.State.{ControllerConfig}
use things_mqtt_lua.LuaThingsmqtt.Process.{}
use things_mqtt_lua.LuaThingsmqtt.Config.{
  assign_some, bool_of, int_at, text_field, int_field, bool_field,
}
use things_mqtt_lua.LuaThingsmqtt.Description.{on_stack, int_in, HasFields}

module _ {C : Type 0} (l : Lua C) where
  abbrev pub Next : Type 0
  Next = ControllerConfig → Action (Machine l) ControllerConfig

  -- A text that has been read from a number takes its place.
  abbrev pub read_back : Value l.types → Value l.types
  read_back (Value.number n) = Value.string (l.number_text n)
  read_back x = x

  set_text-top :
      (x : Value l.types) (st : List (Value l.types))
      → set_text (x ∷ st) top (text_of l x) ≡ read_back x ∷ st
  set_text-top (Value.number n) st = refl
  set_text-top (Value.string s) st = refl
  set_text-top Value.nil st = refl
  set_text-top (Value.boolean b) st = refl
  set_text-top (Value.table t) st = refl
  set_text-top (Value.function f) st = refl
  set_text-top (Value.userdata u) st = refl
  set_text-top (Value.other o) st = refl

  assigned :
      {A : Type 0} (set : A → ControllerConfig → ControllerConfig) (c : ControllerConfig)
      (via : Option A → ControllerConfig)
      → c ≡ via none
      → ((a : A) → set a c ≡ via (some a))
      → (o : Option A) → assign_some set o c ≡ via o
  assigned set c via e_none e_some none = e_none
  assigned set c via e_none e_some (some a) = e_some a

  module _ (i : ℤ) (t : l.Table) (field : String → Value l.types) (h : l.Heap)
      (has : HasFields l t field h) (st : List (Value l.types))
      (here : at st i ≡ some (Value.table t)) (name : String) where
    pub get_field-ok :
        get_field {l = l} i name (on_stack l st h) ≡ (ok tt, on_stack l (field name ∷ st) h)
    get_field-ok = ground (arith, here, has name)

    -- One field is read, and what comes next. What is assigned is told for a field that is set and for one
    -- that is not.
    pub text_field-ok :
        (set : String → ControllerConfig → ControllerConfig) (config : ControllerConfig)
        (via : Option String → ControllerConfig)
        → config ≡ via none
        → ((s : String) → set (c_str s) config ≡ via (some s))
        → (next : Next)
        → (text_field l i name set config >>= next) (on_stack l st h)
          ≡ next (via (text_of l (field name))) (on_stack l (read_back (field name) ∷ st) h)
    text_field-ok set config via e_none e_some next =
        let o = text_of l (field name) in
        let read : Action (Machine l) ControllerConfig =
          to_text top >>= λ text. pure (assign_some (λ s. set (c_str s)) text config) in
        >>=-ok (text_field l i name set config) (on_stack l st h)
          (on_stack l (read_back (field name) ∷ st) h) next
          (>>-ok (get_field {l = l} i name) (on_stack l st h) (on_stack l (field name ∷ st) h) read
              get_field-ok
            ∙ ap (λ c. (ok c, on_stack l (set_text (field name ∷ st) top o) h))
                (assigned (λ s. set (c_str s)) config via e_none e_some o)
            ∙ ap (λ xs. (ok (via o), on_stack l xs h)) (set_text-top (field name) st))

    pub int_field-ok :
        (set : ℤ → ControllerConfig → ControllerConfig) (config : ControllerConfig)
        (via : Option ℤ → ControllerConfig)
        → config ≡ via none
        → ((n : ℤ) → set n config ≡ via (some n))
        → (next : Next)
        → (int_field l i name set config >>= next) (on_stack l st h)
          ≡ next (via (int_in l (field name))) (on_stack l (field name ∷ st) h)
    int_field-ok set config via e_none e_some next =
        let read : Action (Machine l) ControllerConfig =
          value_at top >>= λ v. pure (assign_some set (int_at l v) config) in
        >>=-ok (int_field l i name set config) (on_stack l st h) (on_stack l (field name ∷ st) h)
          next
          (>>-ok (get_field {l = l} i name) (on_stack l st h) (on_stack l (field name ∷ st) h) read
              get_field-ok
            ∙ ap (λ c. (ok c, on_stack l (field name ∷ st) h))
                (assigned set config via e_none e_some (int_in l (field name))))

    pub bool_field-ok :
        (set : Bool → ControllerConfig → ControllerConfig) (config : ControllerConfig)
        (via : Option Bool → ControllerConfig)
        → config ≡ via none
        → ((b : Bool) → set b config ≡ via (some b))
        → (next : Next)
        → (bool_field l i name set config >>= next) (on_stack l st h)
          ≡ next (via (bool_of l (some (field name)))) (on_stack l (field name ∷ st) h)
    bool_field-ok set config via e_none e_some next =
        let read : Action (Machine l) ControllerConfig =
          value_at top >>= λ v. pure (assign_some set (bool_of l v) config) in
        >>=-ok (bool_field l i name set config) (on_stack l st h) (on_stack l (field name ∷ st) h)
          next
          (>>-ok (get_field {l = l} i name) (on_stack l st h) (on_stack l (field name ∷ st) h) read
              get_field-ok
            ∙ ap (λ c. (ok c, on_stack l (field name ∷ st) h))
                (assigned set config via e_none e_some (bool_of l (some (field name)))))

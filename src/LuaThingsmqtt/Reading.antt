-- ===== src/LuaThingsmqtt/Reading.antt =====
-- lua-thingsmqtt.cpp, `connect`: how many values the reading of the configuration leaves on the stack,
-- whatever the interpreter answers.
use things_mqtt_lua.Prelude.{
  ℕ, suc, zero, ◌-◌, ◌≡◌, refl, Bool, Option, none, some, List, [], ◌∷◌, String, length, arith,
  nat_eq,
}
use things_mqtt_lua.Prelude.Int.{ℤ, pos}
use things_mqtt_lua.Prelude.Effect.{Result, ok, raised, Action, Void, pure, ◌>>=◌, ◌>>◌, >>=-cases}
use things_mqtt_lua.Lua.{
  Lua, Value, Machine, value_at, get_field, to_text, push, pop, drop, c_str, set_text, or_nil, at,
  text_at,
}
use things_mqtt_lua.LuaUtils.{top}
use things_mqtt_lua.Controller.State.{ControllerConfig, default_config}
use things_mqtt_lua.LuaThingsmqtt.Config.{
  text_field, int_field, bool_field, int_at, bool_of, assign_some, read_connection, read_ssl,
  read_ssl_of, read_config, set_host, set_port, set_bind_address, set_keepalive, set_client_id,
  set_username, set_password, set_ca_file, set_cert_file, set_key_file, set_verify_peer,
  set_verify_hostname,
}

module _ {C : Type 0} (l : Lua C) where
  -- If a call returns, the stack has that height.
  abbrev pub Height : {A : Type 0} → ℕ → Result A × Machine l → Type 0
  Height n (ok a, s) = length s.stack ≡ n
  Height n (raised e, s) = Unit

  -- From a stack of one height to one of another.
  abbrev pub Lifts : {A : Type 0} → ℕ → ℕ → Action (Machine l) A → Type 0
  Lifts m n f = (s : Machine l) → length s.stack ≡ m → Height n (f s)

  pub >>=-Lifts :
      {A B : Type 0} (m k n : ℕ) (f : Action (Machine l) A) (g : A → Action (Machine l) B)
      → Lifts m k f
      → ((a : A) → Lifts k n (g a))
      → Lifts m n (f >>= g)
  >>=-Lifts m k n f g hf hg s e =
      >>=-cases (λ r. Height k r) (λ r. Height n r) f g s (hf s e) (λ a s' h. hg a s' h)
        (λ x s' h. tt)

  get_field-Lifts : (m : ℕ) (i : ℤ) (name : String) → Lifts m (suc m) (get_field {l = l} i name)
  get_field-Lifts m i name s e =
      by_result (l.index (or_nil (at s.stack i)) (Value.string name) s.heap).0 _
    where
      by_result :
          (r : Result (Value l.types)) (h : l.Heap)
          → Height (suc m) (elim r as (λ _. Result Void × Machine l) [
            | ok v ↦ push v (record { stack = s.stack; heap = h })
            | raised x ↦ (raised x, record { stack = s.stack; heap = h })
          ])
      by_result (ok v) h = omega (arith, e)
      by_result (raised x) h = tt

  set_text-length :
      (x : Value l.types) (st : List (Value l.types)) (o : Option String)
      → length (set_text (x ∷ st) top o) ≡ suc (length st)
  set_text-length x st none = omega arith
  set_text-length x st (some t) = omega arith

  set_text-length_of :
      (st : List (Value l.types)) (o : Option String) → length (set_text st top o) ≡ length st
  set_text-length_of [] none = refl
  set_text-length_of [] (some t) = refl
  set_text-length_of (x ∷ st) o = omega (arith, set_text-length x st o)

  text_field-Lifts :
      (m : ℕ) (i : ℤ) (name : String) (set : String → ControllerConfig → ControllerConfig)
      (config : ControllerConfig)
      → Lifts m (suc m) (text_field l i name set config)
  text_field-Lifts m i name set config =
      >>=-Lifts m (suc m) (suc m) (get_field i name)
        (λ _. to_text top >>= λ text. pure (assign_some (λ t. set (c_str t)) text config))
        (get_field-Lifts m i name)
        (λ _ s e. omega (arith, e, set_text-length_of s.stack (text_at l (at s.stack top))))

  int_field-Lifts :
      (m : ℕ) (i : ℤ) (name : String) (set : ℤ → ControllerConfig → ControllerConfig)
      (config : ControllerConfig)
      → Lifts m (suc m) (int_field l i name set config)
  int_field-Lifts m i name set config =
      >>=-Lifts m (suc m) (suc m) (get_field i name)
        (λ _. value_at top >>= λ v. pure (assign_some set (int_at l v) config))
        (get_field-Lifts m i name) (λ _ s e. e)

  bool_field-Lifts :
      (m : ℕ) (i : ℤ) (name : String) (set : Bool → ControllerConfig → ControllerConfig)
      (config : ControllerConfig)
      → Lifts m (suc m) (bool_field l i name set config)
  bool_field-Lifts m i name set config =
      >>=-Lifts m (suc m) (suc m) (get_field i name)
        (λ _. value_at top >>= λ v. pure (assign_some set (bool_of l v) config))
        (get_field-Lifts m i name) (λ _ s e. e)

  length-drop : (n : ℕ) (st : List (Value l.types)) → length (drop n st) ≡ length st - n
  length-drop zero st = omega arith
  length-drop (suc n) [] = omega arith
  length-drop (suc n) (x ∷ st) = omega (arith, length-drop n st)

  abbrev Next : Type 0
  Next = ControllerConfig → Action (Machine l) ControllerConfig

  read_connection-Lifts : (config : ControllerConfig) → Lifts 2 2 (read_connection l config)
  unfolding read_connection
  read_connection-Lifts config =
      let k7 : Next = λ c. pop 7 >> pure c in
      let k6 : Next = λ c. text_field l (pos 2) "password" set_password c >>= k7 in
      let k5 : Next = λ c. text_field l (pos 2) "username" set_username c >>= k6 in
      let k4 : Next = λ c. text_field l (pos 2) "client_id" set_client_id c >>= k5 in
      let k3 : Next = λ c. int_field l (pos 2) "keepalive" set_keepalive c >>= k4 in
      let k2 : Next = λ c. text_field l (pos 2) "bind_address" set_bind_address c >>= k3 in
      let k1 : Next = λ c. int_field l (pos 2) "port" set_port c >>= k2 in
      >>=-Lifts 2 3 2 (text_field l (pos 2) "host" set_host config) k1
        (text_field-Lifts 2 (pos 2) "host" set_host config)
        λ c1.
          >>=-Lifts 3 4 2 (int_field l (pos 2) "port" set_port c1) k2
            (int_field-Lifts 3 (pos 2) "port" set_port c1)
            λ c2.
              >>=-Lifts 4 5 2 (text_field l (pos 2) "bind_address" set_bind_address c2) k3
                (text_field-Lifts 4 (pos 2) "bind_address" set_bind_address c2)
                λ c3.
                  >>=-Lifts 5 6 2 (int_field l (pos 2) "keepalive" set_keepalive c3) k4
                    (int_field-Lifts 5 (pos 2) "keepalive" set_keepalive c3)
                    λ c4.
                      >>=-Lifts 6 7 2 (text_field l (pos 2) "client_id" set_client_id c4) k5
                        (text_field-Lifts 6 (pos 2) "client_id" set_client_id c4)
                        λ c5.
                          >>=-Lifts 7 8 2 (text_field l (pos 2) "username" set_username c5) k6
                            (text_field-Lifts 7 (pos 2) "username" set_username c5)
                            λ c6.
                              >>=-Lifts 8 9 2 (text_field l (pos 2) "password" set_password c6) k7
                                (text_field-Lifts 8 (pos 2) "password" set_password c6)
                                λ c7 s e. omega (arith, e, length-drop 7 s.stack)

  read_ssl-Lifts : (config : ControllerConfig) → Lifts 3 3 (read_ssl l config)
  unfolding read_ssl
  read_ssl-Lifts config =
      let k5 : Next = λ c. pop 5 >> pure c in
      let k4 : Next = λ c. bool_field l (pos 3) "verify_hostname" set_verify_hostname c >>= k5 in
      let k3 : Next = λ c. bool_field l (pos 3) "verify_peer" set_verify_peer c >>= k4 in
      let k2 : Next = λ c. text_field l (pos 3) "key_file" set_key_file c >>= k3 in
      let k1 : Next = λ c. text_field l (pos 3) "cert_file" set_cert_file c >>= k2 in
      >>=-Lifts 3 4 3 (text_field l (pos 3) "ca_file" set_ca_file config) k1
        (text_field-Lifts 3 (pos 3) "ca_file" set_ca_file config)
        λ c1.
          >>=-Lifts 4 5 3 (text_field l (pos 3) "cert_file" set_cert_file c1) k2
            (text_field-Lifts 4 (pos 3) "cert_file" set_cert_file c1)
            λ c2.
              >>=-Lifts 5 6 3 (text_field l (pos 3) "key_file" set_key_file c2) k3
                (text_field-Lifts 5 (pos 3) "key_file" set_key_file c2)
                λ c3.
                  >>=-Lifts 6 7 3 (bool_field l (pos 3) "verify_peer" set_verify_peer c3) k4
                    (bool_field-Lifts 6 (pos 3) "verify_peer" set_verify_peer c3)
                    λ c4.
                      >>=-Lifts 7 8 3
                        (bool_field l (pos 3) "verify_hostname" set_verify_hostname c4) k5
                        (bool_field-Lifts 7 (pos 3) "verify_hostname" set_verify_hostname c4)
                        λ c5 s e. omega (arith, e, length-drop 5 s.stack)

  read_ssl_of-Lifts :
      (x : Option (Value l.types)) (config : ControllerConfig) → Lifts 3 3 (read_ssl_of l x config)
  unfolding read_ssl_of
  read_ssl_of-Lifts (some (Value.table t)) config s e = read_ssl-Lifts config s e
  read_ssl_of-Lifts none config s e = e
  read_ssl_of-Lifts (some Value.nil) config s e = e
  read_ssl_of-Lifts (some (Value.boolean b)) config s e = e
  read_ssl_of-Lifts (some (Value.number b)) config s e = e
  read_ssl_of-Lifts (some (Value.string b)) config s e = e
  read_ssl_of-Lifts (some (Value.function b)) config s e = e
  read_ssl_of-Lifts (some (Value.userdata b)) config s e = e
  read_ssl_of-Lifts (some (Value.other b)) config s e = e

  pub read_config-Lifts : Lifts 2 0 (read_config l)
  unfolding read_config
  read_config-Lifts =
      let finish : Next = λ c. pop 3 >> pure c in
      let nested : Next = λ c. value_at top >>= λ v. read_ssl_of l v c >>= finish in
      >>=-Lifts 2 2 0 (read_connection l default_config)
        (λ c. get_field (pos 2) "ssl_config" >> nested c) (read_connection-Lifts default_config)
        λ c.
          >>=-Lifts 2 3 0 (get_field (pos 2) "ssl_config") (λ _. nested c)
            (get_field-Lifts 2 (pos 2) "ssl_config")
            λ _ s e.
              >>=-Lifts 3 3 0 (read_ssl_of l (at s.stack top) c) finish
                (read_ssl_of-Lifts (at s.stack top) c)
                (λ c' s' e'. omega (arith, e', length-drop 3 s'.stack)) s e

-- ===== src/MqttClientSingleThread/References.antt =====
-- mqtt/mqtt-client.cpp and mqtt/mqtt-client-singlethread.cpp: how often the client initialises libmosquitto
-- and how often it cleans it up. The library counts the one against the other, for all clients together.
use things_mqtt_lua.Prelude.{
  ℕ, suc, ◌+◌, ◌-◌, true, ◌≡◌, ◌∙◌, ap, Option, none, some, List, [], ◌∷◌, String, length, nat_eq,
  arith,
}
use things_mqtt_lua.Mosquitto.{Mosquitto, success, Run, returns, calls}
use things_mqtt_lua.Mosquitto.Discipline.{Discipline, RunKeeps}
use things_mqtt_lua.Mosquitto.Ledger.{Ledger, tallied, touch, strike, enter, run_beside, count_init}
use things_mqtt_lua.MqttClient
use things_mqtt_lua.MqttClient.{MqttSslConfig}
use things_mqtt_lua.MqttClient.Lifetime.{configure-Owns, destruct-Held}
use things_mqtt_lua.MqttClientSingleThread.{
  MqttClientSingleThread, configure, lib_init, after_configure,
}
use things_mqtt_lua.MqttClientSingleThread.Handle.{after_configure-Tends}

module _ {H : Type 0} (n : ℕ) where
  touch-references :
      (h : Option (H × ℕ)) (g : Ledger) → g.references ≡ n → (touch h g).references ≡ n
  touch-references none g e = e
  touch-references (some _) g e = ground (arith, e)

  strike-references :
      (h : Option (H × ℕ)) (g : Ledger) → g.references ≡ n → (strike h g).references ≡ n
  strike-references none g e = e
  strike-references (some _) g e = ground (arith, e)

  enter-references : (h : Option H) (g : Ledger) → g.references ≡ n → (enter h g).1.references ≡ n
  enter-references none g e = e
  enter-references (some _) g e = e

run_beside-references :
    {W : Type 0} (n : ℕ) (r : Run W) (g : Ledger)
    → g.references ≡ n
    → RunKeeps (λ (x : W × Ledger). x.1.references ≡ n) (run_beside r g)
run_beside-references n (returns rc w) g e = e
run_beside-references n (calls event w next) g e =
    (e, λ x e'. run_beside-references n (next x.0) x.1 e')

-- All calls but those that initialise and clean up leave the count as it is.
abbrev reference_discipline : (m : Mosquitto) → ℕ → Discipline (tallied m)
reference_discipline m n = record {
  Held = λ h x. x.1.references ≡ n;
  new = λ id x e. enter-references n (m.new id true x.0).0 x.1 e;
  destroy = λ h x e. strike-references n h x.1 e;
  username_pw_set = λ user password h x e. touch-references n h x.1 e;
  tls_set = λ ca cert key h x e. touch-references n h x.1 e;
  reconnect_delay_set = λ h x e. touch-references n h x.1 e;
  connect = λ host port keepalive h x e. touch-references n h x.1 e;
  connect_bind = λ host port keepalive bind h x e. touch-references n h x.1 e;
  disconnect = λ h x e. run_beside-references n _ (touch h x.1) (touch-references n h x.1 e);
  subscribe = λ topic qos h x e. touch-references n h x.1 e;
  unsubscribe = λ topic h x e. touch-references n h x.1 e;
  publish = λ topic size payload qos retain h x e. touch-references n h x.1 e;
  callback_set = λ kind h x e. touch-references n h x.1 e;
  loop = λ h x e. run_beside-references n _ (touch h x.1) (touch-references n h x.1 e);
  loop_start = λ h x e. touch-references n h x.1 e;
  loop_stop = λ force h x e. touch-references n h x.1 e;
}

-- The arguments of one call of `configure`.
abbrev pub Arguments : Type 0
Arguments = Option String × Option String × Option String × Option MqttSslConfig

-- The library can always be initialised.
abbrev pub Initialises : Mosquitto → Type 0
Initialises m = (w : m.World) → (m.lib_init w).0 ≡ success

module _ (m : Mosquitto) {C : Type 0} where
  abbrev pub configure_all :
      List Arguments → MqttClientSingleThread (tallied m) C → MqttClientSingleThread (tallied m) C
  configure_all [] c = c
  configure_all ((client_id, username, password, ssl) ∷ rest) c =
      configure_all rest (configure client_id username password ssl c).1

  configure-references :
      (a : Arguments) (c : MqttClientSingleThread (tallied m) C)
      → Initialises m
      → (configure_all (a ∷ []) c).world.1.references ≡ suc c.world.1.references
  unfolding lib_init
  configure-references (client_id, username, password, ssl) c accepts =
      configure-Owns (reference_discipline m (suc c.world.1.references)) lib_init after_configure
        client_id username password ssl (after_configure-Tends (reference_discipline m _)) c.base
        (ap (λ rc. (count_init rc c.world.1).references) (accepts c.world.0))

  configure_all-references :
      (xs : List Arguments) (c : MqttClientSingleThread (tallied m) C)
      → Initialises m
      → (configure_all xs c).world.1.references ≡ length xs + c.world.1.references
  configure_all-references [] c accepts = omega arith
  configure_all-references (a ∷ rest) c accepts =
      let e = configure_all-references rest (configure_all (a ∷ []) c) accepts in
      let e' = configure-references a c accepts in omega (arith, e, e')

  -- If the library can always be initialised: n calls of `configure`, whether they return or throw, take n
  -- references to it, and the destructor of the base gives one back, or nothing if there is none. So a
  -- client that is configured twice leaves one behind, and one that never is takes one away from the others.
  pub configure_all-destruct :
      (xs : List Arguments) (c : MqttClientSingleThread (tallied m) C)
      → Initialises m
      → (MqttClient.destruct (configure_all xs c).base).1.references
        ≡ (length xs + c.world.1.references) - 1
  configure_all-destruct xs c accepts =
      let n = length xs + c.world.1.references in
      let (w, held, e) =
        destruct-Held (reference_discipline m n) (configure_all xs c).base
          (configure_all-references xs c accepts) in
      ap (λ x. x.1.references) e ∙ ap (λ k. k - 1) held

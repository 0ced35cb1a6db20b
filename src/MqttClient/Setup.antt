-- ===== src/MqttClient/Setup.antt =====
-- mqtt/mqtt-client.cpp, `configure`: its steps, and the handle after a throw. `init` and `finish` are
-- the virtual methods of the derived client.
use things_mqtt_lua.Prelude.{◌≡◌, false, not, Option, none, some, String, arith}
use things_mqtt_lua.Prelude.Effect.{
  Result, ok, raised, Action, Void, ◌>>=◌, ◌>>◌, throw_if, runtime_error, >>=-cases,
}
use things_mqtt_lua.Mosquitto.{Mosquitto, MosqErr}
use things_mqtt_lua.MqttClient.{
  MqttClient, MqttSslConfig, is_success, configure, set_up, create, set_credentials, set_tls,
  set_reconnect_delay,
}

module _ {m : Mosquitto} {C : Type 0} where
  -- How a set-up ends: a throw leaves no handle.
  abbrev pub IsClean : Result Void × MqttClient m C → Type 0
  IsClean (ok _, c) = Unit
  IsClean (raised _, c) = c.m_mosq ≡ none

  -- ... and this one throws.
  abbrev pub Fails : {A : Type 0} → Result A × MqttClient m C → Type 0
  Fails (ok _, c) = ⊥
  Fails (raised _, c) = c.m_mosq ≡ none

  create-IsClean : (client_id : Option String) (c : MqttClient m C) → IsClean (create client_id c)
  unfolding create
  create-IsClean client_id c = ground arith

  set_credentials-IsClean :
      (username password : Option String) (c : MqttClient m C)
      → IsClean (set_credentials username password c)
  unfolding set_credentials
  set_credentials-IsClean none password c = tt
  set_credentials-IsClean (some username) password c = ground arith

  set_tls-IsClean : (ssl : Option MqttSslConfig) (c : MqttClient m C) → IsClean (set_tls ssl c)
  unfolding set_tls
  set_tls-IsClean none c = tt
  set_tls-IsClean (some ssl) c = ground arith

  set_tls-Fails :
      (ssl : MqttSslConfig) (c : MqttClient m C)
      → ((h : Option m.Handle) (w : m.World)
          → is_success (m.tls_set h ssl.ca_file ssl.cert_file ssl.key_file w).0 ≡ false)
      → Fails (set_tls (some ssl) c)
  unfolding set_tls
  set_tls-Fails ssl c refused = ground (arith, refused c.m_mosq c.world)

  -- A step that is clean, and then one that is clean or fails; a step that fails, and then any.
  module _ (a k : Action (MqttClient m C) Void) (c : MqttClient m C) where
    IsClean->> : IsClean (a c) → ((c' : MqttClient m C) → IsClean (k c')) → IsClean ((a >> k) c)
    IsClean->> h next =
        >>=-cases IsClean IsClean a (λ _. k) c h (λ _ c' _. next c') (λ _ _ none_left. none_left)

    Fails->> : IsClean (a c) → ((c' : MqttClient m C) → Fails (k c')) → Fails ((a >> k) c)
    Fails->> h next =
        >>=-cases IsClean Fails a (λ _. k) c h (λ _ c' _. next c') (λ _ _ none_left. none_left)

    Fails-first : Fails (a c) → Fails ((a >> k) c)
    Fails-first h =
        >>=-cases Fails Fails a (λ _. k) c h (λ _ _ no_return. absurd no_return)
          (λ _ _ none_left. none_left)

  module _ (init : Action (MqttClient m C) MosqErr) (finish : Action (MqttClient m C) Void)
      (client_id username password : Option String) where
    abbrev after_tls : Action (MqttClient m C) Void
    after_tls = set_reconnect_delay >> finish

    abbrev after_credentials : Option MqttSslConfig → Action (MqttClient m C) Void
    after_credentials ssl = set_tls ssl >> after_tls

    set_up-IsClean :
        (ssl : Option MqttSslConfig) (c : MqttClient m C)
        → ((c' : MqttClient m C) → IsClean (finish c'))
        → IsClean (set_up finish client_id username password ssl c)
    unfolding set_up
    set_up-IsClean ssl c clean =
        IsClean->> (create client_id) (set_credentials username password >> after_credentials ssl) c
          (create-IsClean client_id c)
          λ c1.
            IsClean->> (set_credentials username password) (after_credentials ssl) c1
              (set_credentials-IsClean username password c1)
              λ c2. IsClean->> (set_tls ssl) after_tls c2 (set_tls-IsClean ssl c2) (λ c3. clean _)

    set_up-Fails :
        (ssl : MqttSslConfig) (c : MqttClient m C)
        → ((h : Option m.Handle) (w : m.World)
            → is_success (m.tls_set h ssl.ca_file ssl.cert_file ssl.key_file w).0 ≡ false)
        → Fails (set_up finish client_id username password (some ssl) c)
    unfolding set_up
    set_up-Fails ssl c refused =
        Fails->> (create client_id)
          (set_credentials username password >> after_credentials (some ssl)) c
          (create-IsClean client_id c)
          λ c1.
            Fails->> (set_credentials username password) (after_credentials (some ssl)) c1
              (set_credentials-IsClean username password c1)
              λ c2. Fails-first (set_tls (some ssl)) after_tls c2 (set_tls-Fails ssl c2 refused)

    -- A call of `configure` on a client without a handle that throws leaves it without one, if the
    -- virtual methods do not make a handle and `after_configure` takes it away when it throws.
    pub configure-IsClean :
        (ssl : Option MqttSslConfig) (c : MqttClient m C)
        → (init c).1.m_mosq ≡ none
        → ((c' : MqttClient m C) → IsClean (finish c'))
        → IsClean (configure init finish client_id username password ssl c)
    unfolding configure
    configure-IsClean ssl c fresh clean = ground (arith, set_up-IsClean ssl (init c).1 clean)

    -- If the library refuses the TLS files given, `configure` throws.
    pub configure-Fails :
        (ssl : MqttSslConfig) (c : MqttClient m C)
        → (init c).1.m_mosq ≡ none
        → ((h : Option m.Handle) (w : m.World)
            → is_success (m.tls_set h ssl.ca_file ssl.cert_file ssl.key_file w).0 ≡ false)
        → Fails (configure init finish client_id username password (some ssl) c)
    unfolding configure
    configure-Fails ssl c fresh refused = ground (arith, set_up-Fails ssl (init c).1 refused)

    -- On a client that has a handle, `configure` initialises the library and reads no argument.
    pub configure-configured :
        (ssl : Option MqttSslConfig) (c : MqttClient m C) (h : m.Handle)
        → (init c).1.m_mosq ≡ some h
        → configure init finish client_id username password ssl c
          ≡ (init >>= λ rc.
                throw_if (not (is_success rc)) (runtime_error "Failed to initialize MQTT library"))
              c
    unfolding configure
    configure-configured ssl c h e = ground arith

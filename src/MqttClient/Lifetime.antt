-- ===== src/MqttClient/Lifetime.antt =====
-- mqtt/mqtt-client.cpp: the handle through `configure` and the destructor, and through the subscriptions that
-- the handlers of the derived clients make again.
use things_mqtt_lua.Prelude.{
  ◌≡◌, refl, suc, Bool, true, false, not, Option, none, some, List, [], ◌∷◌, String, inl, inr,
  Option-cases, arith,
}
use mathlib.Core.Path.{subst}
use things_mqtt_lua.Prelude.Effect.{
  Action, Void, ok, pure, ◌>>=◌, ◌>>◌, >>=-keeps, gets, throw_if, runtime_error,
}
use things_mqtt_lua.Mosquitto.{Mosquitto, MosqErr, Errno, enomem, einval, other_errno}
use things_mqtt_lua.Mosquitto.Discipline.{Discipline}
use things_mqtt_lua.MqttClient.{
  MqttClient, MqttSslConfig, is_success, configure, set_up, create, set_credentials, set_tls,
  set_reconnect_delay, errno_error, destruct,
}
use things_mqtt_lua.MqttClient.Codes.{MqttQos}
use things_mqtt_lua.MqttClient.Resubscribing.{resubscribe, resubscribe_from, resubscribe_topics}
use things_mqtt_lua.MqttClient.Handle.{ClientTends, >>=-Tends, handle_of, world_of}

module _ {m : Mosquitto} (d : Discipline m) where
  resubscribe_topics-Held :
      (qos : MqttQos) (topics : List String) (h : Option m.Handle) (w : m.World)
      → d.Held h w
      → d.Held h (resubscribe_topics m qos topics h w)
  unfolding resubscribe_topics
  resubscribe_topics-Held qos [] h w held = held
  resubscribe_topics-Held qos (topic ∷ topics) h w held =
      resubscribe_topics-Held qos topics h _ (d.subscribe topic qos h w held)

  resubscribe_from-Held :
      (qos : MqttQos) (lists : List (List String)) (h : Option m.Handle) (w : m.World)
      → d.Held h w
      → d.Held h (resubscribe_from m qos lists h w)
  unfolding resubscribe_from
  resubscribe_from-Held qos [] h w held = held
  resubscribe_from-Held qos (topics ∷ lists) h w held =
      resubscribe_from-Held (suc qos) lists h _ (resubscribe_topics-Held qos topics h w held)

module _ {m : Mosquitto} (d : Discipline m) {C : Type 0} where
  set_credentials-Tends :
      (username password : Option String)
      → ClientTends d {C = C} (set_credentials username password)
  unfolding set_credentials
  set_credentials-Tends none password c owns = owns
  set_credentials-Tends (some username) password c owns =
      let kept = d.username_pw_set username password c.m_mosq c.world owns in
      ground (arith, kept, d.destroy c.m_mosq _ kept)

  set_tls-Tends : (ssl : Option MqttSslConfig) → ClientTends d {C = C} (set_tls ssl)
  unfolding set_tls
  set_tls-Tends none c owns = owns
  set_tls-Tends (some ssl) c owns =
      let kept = d.tls_set ssl.ca_file ssl.cert_file ssl.key_file c.m_mosq c.world owns in
      ground (arith, kept, d.destroy c.m_mosq _ kept)

  create-Owns :
      (client_id : Option String) (c : MqttClient m C)
      → c.m_mosq ≡ none
      → d.Held c.m_mosq c.world
      → (let c' = (create client_id c).1 in d.Held c'.m_mosq c'.world)
  unfolding create
  create-Owns client_id c fresh owns =
      let e : d.Held none c.world = subst (λ h. d.Held h c.world) fresh owns in
      by_errno (m.new client_id true c.world).0
        (record c { world = (m.new client_id true c.world).1 })
        (m.errno (m.new client_id true c.world).1) (d.new client_id c.world e)
    where
      by_errno :
          (h : Option m.Handle) (c : MqttClient m C) (e : Errno)
          → d.Held h c.world
          → let c' =
              ((elim h as (λ _. Action (MqttClient m C) Void) [
                | none ↦ errno_error e
                | some _ ↦ pure tt
              ])
                (record c { m_mosq = h })).1 in
            d.Held c'.m_mosq c'.world
      by_errno none c enomem held = held
      by_errno none c einval held = held
      by_errno none c (other_errno _) held = held
      by_errno (some h) c e held = held

  pub resubscribe-Held :
      (c : MqttClient m C) → d.Held c.m_mosq c.world → d.Held c.m_mosq (resubscribe c).world
  unfolding resubscribe
  resubscribe-Held c held = resubscribe_from-Held d 0 c.m_qos_subscriptions c.m_mosq c.world held

  set_up-Owns :
      (finish : Action (MqttClient m C) Void) (client_id username password : Option String)
      (ssl : Option MqttSslConfig) (c : MqttClient m C)
      → ClientTends d finish
      → c.m_mosq ≡ none
      → d.Held c.m_mosq c.world
      → (let c' = (set_up finish client_id username password ssl c).1 in d.Held c'.m_mosq c'.world)
  unfolding set_up
  set_up-Owns finish client_id username password ssl c tends fresh owns =
      >>=-keeps (λ c'. d.Held c'.m_mosq c'.world) (create client_id)
        (λ _. set_credentials username password >> (set_tls ssl >> (set_reconnect_delay >> finish)))
        c (create-Owns client_id c fresh owns)
        (λ _.
          >>=-Tends d handle_of world_of (set_credentials username password)
            (λ _. set_tls ssl >> (set_reconnect_delay >> finish))
            (set_credentials-Tends username password)
            (λ _.
              >>=-Tends d handle_of world_of (set_tls ssl) (λ _. set_reconnect_delay >> finish)
                (set_tls-Tends ssl)
                (λ _ c' o. tends _ (d.reconnect_delay_set c'.m_mosq c'.world o))))

  -- `configure`, if the virtual method that it calls first leaves the handle held, and the other tends it
  pub configure-Owns :
      (init : Action (MqttClient m C) MosqErr) (finish : Action (MqttClient m C) Void)
      (client_id username password : Option String) (ssl : Option MqttSslConfig)
      → ClientTends d finish
      → (c : MqttClient m C) → (let c' = (init c).1 in d.Held c'.m_mosq c'.world)
      → (let c' = (configure init finish client_id username password ssl c).1 in
          d.Held c'.m_mosq c'.world)
  unfolding configure
  configure-Owns init finish client_id username password ssl h_finish c owns =
      >>=-keeps (λ c'. d.Held c'.m_mosq c'.world) init
        (λ rc.
          throw_if (not (is_success rc)) (runtime_error "Failed to initialize MQTT library")
          >> (gets (λ c. c) >>= λ c. on_handle c.m_mosq))
        c owns (λ rc c' o. by_rc (not (is_success rc)) c' o)
    where
      on_handle : Option m.Handle → Action (MqttClient m C) Void
      on_handle (some _) = λ s. (ok tt, s)
      on_handle none = set_up finish client_id username password ssl

      on_handle-Owns :
          (h : Option m.Handle) (c : MqttClient m C)
          → c.m_mosq ≡ h
          → d.Held c.m_mosq c.world
          → (let c' = (on_handle h c).1 in d.Held c'.m_mosq c'.world)
      on_handle-Owns (some _) c e o = o
      on_handle-Owns none c e o = set_up-Owns finish client_id username password ssl c h_finish e o

      by_rc :
          (b : Bool) (c : MqttClient m C)
          → d.Held c.m_mosq c.world
          → (let c' =
                ((throw_if b (runtime_error "Failed to initialize MQTT library")
                    >> (gets (λ c. c) >>= λ c. on_handle c.m_mosq))
                  c).1 in
              d.Held c'.m_mosq c'.world)
      by_rc true c o = o
      by_rc false c o = on_handle-Owns c.m_mosq c refl o

  pub configure-Tends :
      (init : Action (MqttClient m C) MosqErr) (finish : Action (MqttClient m C) Void)
      (client_id username password : Option String) (ssl : Option MqttSslConfig)
      → ClientTends d init
      → ClientTends d finish
      → ClientTends d (configure init finish client_id username password ssl)
  configure-Tends init finish client_id username password ssl h_init h_finish c owns =
      configure-Owns init finish client_id username password ssl h_finish c (h_init c owns)

  -- The destructor: what it leaves is the world without the handle, and one initialisation taken back.
  pub destruct-Held :
      (c : MqttClient m C)
      → d.Held c.m_mosq c.world
      → (w : m.World) × d.Held none w × (destruct c ≡ m.lib_cleanup w)
  unfolding destruct
  destruct-Held c owns = elim (Option-cases c.m_mosq) [
    | inl e ↦ (c.world, subst (λ h. d.Held h c.world) e owns, rw e refl)
    | inr (h, e) ↦ (
      m.destroy (some h) c.world,
      d.destroy (some h) c.world (subst (λ h. d.Held h c.world) e owns),
      rw e refl,
    )
  ]

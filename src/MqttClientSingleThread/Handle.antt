-- ===== src/MqttClientSingleThread/Handle.antt =====
-- mqtt/mqtt-client-singlethread.cpp: the handle of the client, in an owner whose callbacks use it as the
-- client's own operations do.
use things_mqtt_lua.Prelude.{
  Bool, false, ◌≡◌, refl, sym, ◌∙◌, Option, none, some, inl, inr, Option-cases,
}
use mathlib.Core.Path.{subst}
use things_mqtt_lua.Prelude.Effect.{Action, >>=-cases, pure}
use things_mqtt_lua.Mosquitto.{
  Mosquitto, MosqErr, success, no_conn, conn_lost, other, Event, connected, disconnected, published,
  received, subscribed, unsubscribed, logged, Run, returns, calls, CallbackKind, connect_cb,
  disconnect_cb, publish_cb, message_cb, subscribe_cb, unsubscribe_cb, log_cb,
}
use things_mqtt_lua.Mosquitto.Discipline.{Discipline, InitKeeps, RunKeeps}
use things_mqtt_lua.MqttClient
use things_mqtt_lua.MqttClient.{MqttClient}
use things_mqtt_lua.MqttClient.Handle.{Uses, ClientUses, ClientTends}
use things_mqtt_lua.MqttClient.Lifetime.{resubscribe-Held}
use things_mqtt_lua.MqttCallbacks.{Call}
use things_mqtt_lua.MqttClientSingleThread.{
  MqttClientSingleThread, Owner, handle, react, perform, loop, disconnect, destruct, dispatch_opt,
  set_world, set_connected, after_loop, lib_init, after_configure, register,
}

module _ {m : Mosquitto} (d : Discipline m) {C : Type 0} where
  pub lib_init-Tends : InitKeeps d → ClientTends d (lib_init {m = m} {C = C})
  unfolding lib_init
  lib_init-Tends keeps c owns = keeps c.m_mosq c.world owns

  register-Uses : (kind : CallbackKind) → ClientUses d (register {m = m} {C = C} kind)
  register-Uses kind c owns = (refl, d.callback_set kind c.m_mosq c.world owns)

  pub after_configure-Tends : ClientTends d (after_configure {m = m} {C = C})
  unfolding after_configure
  after_configure-Tends c owns =
      let set : (kind : CallbackKind) (w : m.World)
          → d.Held c.m_mosq w
          → d.Held c.m_mosq (m.callback_set c.m_mosq kind w) =
        λ kind w. d.callback_set kind c.m_mosq w in
      set log_cb _ (
        set unsubscribe_cb _ (
          set subscribe_cb _
            (set message_cb _ (set publish_cb _ (set disconnect_cb _ (set connect_cb _ owns))))))

  -- A handler keeps the handle of the client.
  handle-Held :
      (e : Event) (c : MqttClientSingleThread m C)
      → d.Held c.m_mosq c.world
      → let c' = (handle e c).1 in (c'.m_mosq ≡ c.m_mosq) × d.Held c'.m_mosq c'.world
  unfolding handle MqttClient.Resubscribing.resubscribe
  handle-Held (connected rc) c owns = (refl, resubscribe-Held d c.base owns)
  handle-Held (disconnected rc) c owns = (refl, owns)
  handle-Held (published mid) c owns = (refl, owns)
  handle-Held (received message) c owns = (refl, owns)
  handle-Held (subscribed mid granted) c owns = (refl, owns)
  handle-Held (unsubscribed mid) c owns = (refl, owns)
  handle-Held (logged level msg) c owns = (refl, owns)

-- An owner that has the client that it was given.
module _ {m : Mosquitto} (d : Discipline m) {C S : Type 0} (o : Owner m C S)
    (client-set_client : (c : MqttClientSingleThread m C) (s : S)
      → o.client (o.set_client c s) ≡ c) where
  abbrev pub handle_in : S → Option m.Handle
  handle_in s = (o.client s).m_mosq

  abbrev pub world_in : S → m.World
  world_in s = (o.client s).world

  abbrev pub OwnerUses : {A : Type 0} → Action S A → Type 0
  OwnerUses f = Uses d handle_in world_in f

  -- the owner after such a call
  abbrev Used : S → S → Type 0
  Used s s' = (handle_in s' ≡ handle_in s) × d.Held (handle_in s') (world_in s')

  -- what holds of the owner once it has the client
  given :
      (h : Option m.Handle) (c : MqttClientSingleThread m C) (s : S)
      → (c.m_mosq ≡ h) × d.Held c.m_mosq c.world
      → let s' = o.set_client c s in (handle_in s' ≡ h) × d.Held (handle_in s') (world_in s')
  given h c s used =
      subst (λ (c' : MqttClientSingleThread m C). (c'.m_mosq ≡ h) × d.Held c'.m_mosq c'.world)
        (sym (client-set_client c s)) used

  module _ (keep_callback : (k : Call C) → OwnerUses (o.dispatch k)) where
    dispatch_opt-Uses : (k : Option (Call C)) → OwnerUses (dispatch_opt o k)
    dispatch_opt-Uses none s owns = (refl, owns)
    dispatch_opt-Uses (some k) s owns = keep_callback k s owns

    react-Uses : (e : Event) → OwnerUses (react o e)
    unfolding react
    react-Uses e s owns =
        let (k, c) = handle e (o.client s) in
        let (same, owns') = given (handle_in s) c s (handle-Held d e (o.client s) owns) in
        let (same', owns'') = dispatch_opt-Uses k (o.set_client c s) owns' in (same' ∙ same, owns'')

    -- A call of the library that keeps the handle if its callbacks do.
    pub perform-Uses :
        (r : Run m.World) (s : S)
        → RunKeeps (d.Held (handle_in s)) r
        → let s' = (perform o r s).1 in
          (handle_in s' ≡ handle_in s) × d.Held (handle_in s') (world_in s')
    unfolding perform
    perform-Uses (returns rc w) s held = given (handle_in s) _ s (refl, held)
    perform-Uses (calls e w next) s (held, keeps) =
        let s0 = set_world o w s in
        let (same, owns) = given (handle_in s) _ s (refl, held) in
        let (same', owns') = react-Uses e s0 owns in
        >>=-cases (λ x. Used s x.1) (λ x. Used s x.1) (react o e)
          (λ _ s'. perform o (next (o.client s').world) s') s0 (same' ∙ same, owns')
          (λ _ s' (eq, owns1).
            let held1 = subst (λ h. d.Held h (world_in s')) eq owns1 in
            let go = perform-Uses (next (o.client s').world) s' (
              subst (λ h. RunKeeps (d.Held h) (next (o.client s').world)) (sym eq)
                (keeps (world_in s') held1)) in
            (go.0 ∙ eq, go.1))
          (λ _ _ used. used)

    set_connected-Uses : (b : Bool) → OwnerUses (set_connected o b)
    set_connected-Uses b s owns = given (handle_in s) _ s (refl, owns)

    after_loop-Uses : (rc : MosqErr) → OwnerUses (after_loop o rc)
    after_loop-Uses success s owns = (refl, owns)
    after_loop-Uses no_conn s owns = set_connected-Uses false s owns
    after_loop-Uses conn_lost s owns = set_connected-Uses false s owns
    after_loop-Uses (other _) s owns = (refl, owns)

    pub loop-Uses : OwnerUses (loop o)
    unfolding loop
    loop-Uses s owns = elim (Option-cases (handle_in s)) [
      | inl e ↦ rw (e, loop) (e, owns)
      | inr (h, e) ↦
          let (same, owns') =
            >>=-cases (λ x. Used s x.1) (λ x. Used s x.1) (perform o (m.loop (some h) (world_in s)))
              (after_loop o) s
              (perform-Uses (m.loop (some h) (world_in s)) s (
                subst (λ k. RunKeeps (d.Held (handle_in s)) (m.loop k (world_in s))) e
                  (d.loop (handle_in s) (world_in s) owns)))
              (λ rc s' (same, owns'). let (e', o') = after_loop-Uses rc s' owns' in (e' ∙ same, o'))
              (λ _ _ used. used) in
          rw (e, loop) (same ∙ e, owns')
    ]

    pub disconnect-Uses : OwnerUses (disconnect o)
    unfolding disconnect MqttClient.disconnect
    disconnect-Uses s owns =
        >>=-cases (λ x. Used s x.1) (λ x. Used s x.1)
          (perform o (m.disconnect (handle_in s) (world_in s))) (λ _. pure tt) s
          (perform-Uses (m.disconnect (handle_in s) (world_in s)) s
            (d.disconnect (handle_in s) (world_in s) owns))
          (λ _ _ used. used) (λ _ _ used. used)

    pub destruct-Uses : OwnerUses (destruct o)
    unfolding destruct
    destruct-Uses s owns = elim (Option-cases (handle_in s)) [
      | inl e ↦ rw (e, destruct) (e, owns)
      | inr (h, e) ↦
          let (same, owns') = disconnect-Uses s owns in rw (e, destruct) (same ∙ e, owns')
    ]

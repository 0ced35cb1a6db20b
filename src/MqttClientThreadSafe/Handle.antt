-- ===== src/MqttClientThreadSafe/Handle.antt =====
-- mqtt/mqtt-client-threadsafe.cpp: the handle of the client, from `configure` to the destructor, whatever
-- the network thread does in between.
use things_mqtt_lua.Prelude.{true, ◌≡◌, refl, ◌∙◌, sym, some, inl, inr, Option-cases, arith}
use mathlib.Core.Path.{subst}
use things_mqtt_lua.Mosquitto.{
  Mosquitto, Event, connected, disconnected, published, received, subscribed, unsubscribed, logged,
  Run, returns, calls, CallbackKind, connect_cb, disconnect_cb, publish_cb, message_cb,
  subscribe_cb, unsubscribe_cb, log_cb,
}
use things_mqtt_lua.Mosquitto.Discipline.{Discipline, InitKeeps, RunKeeps}
use things_mqtt_lua.MqttClient
use things_mqtt_lua.MqttClient.{MqttClient, MqttSslConfig}
use things_mqtt_lua.MqttClient.Handle.{ClientTends}
use things_mqtt_lua.MqttClient.Lifetime.{resubscribe-Held}
use things_mqtt_lua.MqttClientThreadSafe.{
  MqttClientThreadSafe, handle, perform, destruct, set_world, lib_init, after_configure,
}

module _ {m : Mosquitto} (d : Discipline m) {C : Type 0} where
  abbrev pub ClientOwns : MqttClientThreadSafe m C → Type 0
  ClientOwns c = d.Held c.m_mosq c.world

  pub lib_init-Tends : InitKeeps d → ClientTends d (lib_init {m = m} {C = C})
  unfolding lib_init
  lib_init-Tends keeps c owns = keeps c.m_mosq c.world owns

  -- `after_configure`, also where the network thread does not start
  pub after_configure-Tends : ClientTends d (after_configure {m = m} {C = C})
  unfolding after_configure
  after_configure-Tends c owns =
      let set : (kind : CallbackKind) (w : m.World)
          → d.Held c.m_mosq w
          → d.Held c.m_mosq (m.callback_set c.m_mosq kind w) =
        λ kind w. d.callback_set kind c.m_mosq w in
      let started = d.loop_start c.m_mosq _ (
        set log_cb _ (
          set unsubscribe_cb _ (
            set subscribe_cb _ (
              set message_cb _
                (set publish_cb _ (set disconnect_cb _ (set connect_cb _ owns))))))) in
      ground (arith, started, d.destroy c.m_mosq _ started)

  pub handle-Owns :
      (e : Event) (c : MqttClientThreadSafe m C)
      → ClientOwns c
      → ((handle e c).m_mosq ≡ c.m_mosq) × ClientOwns (handle e c)
  unfolding handle MqttClient.Resubscribing.resubscribe
  handle-Owns (connected rc) c owns = (refl, resubscribe-Held d c.base owns)
  handle-Owns (disconnected rc) c owns = (refl, owns)
  handle-Owns (published mid) c owns = (refl, owns)
  handle-Owns (received msg) c owns = (refl, owns)
  handle-Owns (subscribed mid granted) c owns = (refl, owns)
  handle-Owns (unsubscribed mid) c owns = (refl, owns)
  handle-Owns (logged level msg) c owns = (refl, owns)

  perform-Owns :
      (r : Run m.World) (c : MqttClientThreadSafe m C)
      → RunKeeps (d.Held c.m_mosq) r
      → ((perform r c).m_mosq ≡ c.m_mosq) × ClientOwns (perform r c)
  unfolding perform
  perform-Owns (returns rc w) c held = (refl, held)
  perform-Owns (calls e w next) c (held, keeps) =
      let c' = handle e (set_world w c) in
      let (same, owns') = handle-Owns e (set_world w c) held in
      let (same', owns'') = perform-Owns (next c'.world) c' (
        subst (λ h. RunKeeps (d.Held h) (next c'.world)) (sym same)
          (keeps c'.world (subst (λ h. d.Held h c'.world) same owns'))) in
      (same' ∙ same, owns'')

  pub disconnect-Owns :
      (c : MqttClientThreadSafe m C)
      → ClientOwns c
      → ClientOwns (perform (MqttClient.disconnect c.base) c)
  unfolding MqttClient.disconnect
  disconnect-Owns c owns =
      let (same, owns') =
        perform-Owns (m.disconnect c.m_mosq c.world) c (d.disconnect c.m_mosq c.world owns) in
      owns'

  pub destruct-Owns : (c : MqttClientThreadSafe m C) → ClientOwns c → ClientOwns (destruct c)
  unfolding destruct
  destruct-Owns c owns = elim (Option-cases c.m_mosq) [
    | inl e ↦ rw (e, destruct) owns
    | inr (h, e) ↦
        let (same, owns') = perform-Owns (m.disconnect (some h) c.world) c (
          subst (λ k. RunKeeps (d.Held c.m_mosq) (m.disconnect k c.world)) e
            (d.disconnect c.m_mosq c.world owns)) in
        rw (e, destruct) (d.loop_stop true _ _ owns')
  ]

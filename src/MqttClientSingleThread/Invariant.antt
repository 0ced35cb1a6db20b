-- ===== src/MqttClientSingleThread/Invariant.antt =====
-- mqtt/mqtt-client-singlethread.cpp: what holds of an owner of the client through any call of the
-- library, with all the callbacks that it makes, if the client and the callbacks keep it.
use things_mqtt_lua.Prelude.{Option, none, some, inl, inr, Option-cases}
use things_mqtt_lua.Prelude.Effect.{>>=-keeps, pure}
use things_mqtt_lua.Mosquitto.{
  Mosquitto, MosqErr, success, no_conn, conn_lost, other, Event, Run, returns, calls,
}
use things_mqtt_lua.MqttClientSingleThread.{
  MqttClientSingleThread, Owner, handle, react, perform, loop, disconnect, destruct, dispatch_opt,
  set_world, after_loop,
}
use things_mqtt_lua.MqttClient
use things_mqtt_lua.MqttCallbacks.{Call}

module _ {m : Mosquitto} {C S : Type 0} (o : Owner m C S) (P : S → Type 0)
    (keep_client : (c : MqttClientSingleThread m C) (s : S) → P s → P (o.set_client c s))
    (keep_callback : (k : Call C) (s : S) → P s → P (o.dispatch k s).1) where
  dispatch_opt-keeps : (k : Option (Call C)) (s : S) → P s → P (dispatch_opt o k s).1
  dispatch_opt-keeps none s h = h
  dispatch_opt-keeps (some k) s h = keep_callback k s h

  pub react-keeps : (e : Event) (s : S) → P s → P (react o e s).1
  unfolding react
  react-keeps e s h =
      let (k, c) = handle e (o.client s) in
      dispatch_opt-keeps k (o.set_client c s) (keep_client c s h)

  pub perform-keeps : (r : Run m.World) (s : S) → P s → P (perform o r s).1
  unfolding perform
  perform-keeps (returns rc w) s h = keep_client _ s h
  perform-keeps (calls e w next) s h =
      >>=-keeps P (react o e) (λ _ s'. perform o (next (o.client s').world) s') (set_world o w s)
        (react-keeps e (set_world o w s) (keep_client _ s h))
        (λ _ s' h'. perform-keeps (next (o.client s').world) s' h')

  after_loop-keeps : (rc : MosqErr) (s : S) → P s → P (after_loop o rc s).1
  after_loop-keeps success s h = h
  after_loop-keeps no_conn s h = keep_client _ s h
  after_loop-keeps conn_lost s h = keep_client _ s h
  after_loop-keeps (other _) s h = h

  pub loop-keeps : (s : S) → P s → P (loop o s).1
  unfolding loop
  loop-keeps s h = elim (Option-cases (o.client s).m_mosq) [
    | inl e ↦ rw (e, loop) h
    | inr (handle, e) ↦
        rw (e, loop)
          (>>=-keeps P (perform o (m.loop (some handle) (o.client s).world)) (after_loop o) s
            (perform-keeps (m.loop (some handle) (o.client s).world) s h) after_loop-keeps)
  ]

  pub disconnect-keeps : (s : S) → P s → P (disconnect o s).1
  unfolding disconnect
  disconnect-keeps s h =
      >>=-keeps P (perform o (MqttClient.disconnect (o.client s).base)) (λ _. pure tt) s
        (perform-keeps (MqttClient.disconnect (o.client s).base) s h) (λ _ _ h'. h')

  pub destruct-keeps : (s : S) → P s → P (destruct o s).1
  unfolding destruct
  destruct-keeps s h = elim (Option-cases (o.client s).m_mosq) [
    | inl e ↦ rw (e, destruct) h
    | inr (_, e) ↦ rw (e, destruct) (disconnect-keeps s h)
  ]

-- ===== src/MqttClient/Handle.antt =====
-- mqtt/mqtt-client.cpp: the handle of a client, from `configure` to the destructor. Every operation calls
-- the library with the handle that the client has, and what takes a handle away destroys it.
use things_mqtt_lua.Prelude.{◌≡◌, refl, ◌∙◌, Bool, Option, String, arith}
use things_mqtt_lua.Prelude.Int.{ℤ}
use things_mqtt_lua.Prelude.Effect.{Action, ◌>>=◌, >>=-cases}
use things_mqtt_lua.Mosquitto.{Mosquitto, MosqErr, success, no_conn, conn_lost, other}
use things_mqtt_lua.Mosquitto.Discipline.{Discipline}
use things_mqtt_lua.MqttClient.{
  MqttClient, connect, connect_bind, subscribe, unsubscribe, publish, publish_result,
}
use things_mqtt_lua.MqttClient.Codes.{MqttQos}

-- `S` is an object that holds a client, whose handle and world are these.
module _ {m : Mosquitto} (d : Discipline m) {S : Type 0} (handle : S → Option m.Handle)
    (world : S → m.World) where
  abbrev pub Owns : S → Type 0
  Owns s = d.Held (handle s) (world s)

  -- The action keeps the handle, and leaves it held.
  abbrev pub Uses : {A : Type 0} → Action S A → Type 0
  Uses f = (s : S) → Owns s → (handle (f s).1 ≡ handle s) × Owns (f s).1

  pub >>=-Uses :
      {A B : Type 0} (f : Action S A) (g : A → Action S B)
      → Uses f
      → ((a : A) → Uses (g a))
      → Uses (f >>= g)
  >>=-Uses f g hf hg s owns =
      let Used : S → Type 0 = λ s'. (handle s' ≡ handle s) × Owns s' in
      >>=-cases (λ x. Used x.1) (λ x. Used x.1) f g s (hf s owns)
        (λ a s' (e, o). let (e', o') = hg a s' o in (e' ∙ e, o')) (λ _ _ used. used)

  -- The action may end the handle's life or begin another's.
  abbrev pub Tends : {A : Type 0} → Action S A → Type 0
  Tends f = (s : S) → Owns s → Owns (f s).1

  pub >>=-Tends :
      {A B : Type 0} (f : Action S A) (g : A → Action S B)
      → Tends f
      → ((a : A) → Tends (g a))
      → Tends (f >>= g)
  >>=-Tends f g hf hg s owns =
      >>=-cases (λ x. Owns x.1) (λ x. Owns x.1) f g s (hf s owns) (λ a s' o. hg a s' o) (λ _ _ o. o)

module _ {m : Mosquitto} {C : Type 0} where
  abbrev pub handle_of : MqttClient m C → Option m.Handle
  handle_of c = c.m_mosq

  abbrev pub world_of : MqttClient m C → m.World
  world_of c = c.world

module _ {m : Mosquitto} (d : Discipline m) {C : Type 0} where
  -- ... of the client itself
  abbrev pub ClientUses : {A : Type 0} → Action (MqttClient m C) A → Type 0
  ClientUses f = Uses d handle_of world_of f

  abbrev pub ClientTends : {A : Type 0} → Action (MqttClient m C) A → Type 0
  ClientTends f = Tends d handle_of world_of f

  pub connect-Uses : (host : String) (port keepalive : ℤ) → ClientUses (connect host port keepalive)
  unfolding connect
  connect-Uses host port keepalive c owns =
      ground (arith, d.connect host port keepalive c.m_mosq c.world owns)

  pub connect_bind-Uses :
      (host bind_address : String) (port keepalive : ℤ)
      → ClientUses (connect_bind host bind_address port keepalive)
  unfolding connect_bind
  connect_bind-Uses host bind_address port keepalive c owns =
      ground (arith, d.connect_bind host port keepalive bind_address c.m_mosq c.world owns)

  pub subscribe-Uses : (topic : String) (qos : MqttQos) → ClientUses (subscribe topic qos)
  unfolding subscribe
  subscribe-Uses topic qos c owns = ground (arith, d.subscribe topic qos c.m_mosq c.world owns)

  pub unsubscribe-Uses : (topic : String) → ClientUses (unsubscribe topic)
  unfolding unsubscribe
  unsubscribe-Uses topic c owns = ground (arith, d.unsubscribe topic c.m_mosq c.world owns)

  publish_result-Uses : (rc : MosqErr) (mid : ℤ) → ClientUses (publish_result rc mid)
  publish_result-Uses success mid c owns = (refl, owns)
  publish_result-Uses no_conn mid c owns = (refl, owns)
  publish_result-Uses conn_lost mid c owns = (refl, owns)
  publish_result-Uses (other _) mid c owns = (refl, owns)

  pub publish-Uses :
      (topic payload : String) (qos : MqttQos) (retain : Bool)
      → ClientUses (publish topic payload qos retain)
  unfolding publish
  publish-Uses topic payload qos retain c owns =
      publish_result-Uses _ _ _ (d.publish topic _ payload qos retain c.m_mosq c.world owns)

-- ===== src/Controller/Offline.antt =====
-- controller.cpp: the calls of `publishTelemetry`, `setAttribute` and `send` while the client is
-- disconnected, and the queue that they leave for `onMqttConnect`.
use mathlib.Core.Path.{subst}
use things_mqtt_lua.Prelude.{
  ◌≡◌, refl, ◌∙◌, sym, ap, false, none, some, List, [], ◌∷◌, ◌++◌, append_assoc, append-nil, String,
  if◌then◌else◌, arith,
}
use things_mqtt_lua.Prelude.Effect.{ok}
use things_mqtt_lua.Platform.{Platform}
use things_mqtt_lua.Controller.State.{Controller, is_connected, is_empty}
use things_mqtt_lua.Controller.Sending.{publish_telemetry, set_attribute, send}
use things_mqtt_lua.Controller.Reactions.{send_pending, send_all_pending}
use things_mqtt_lua.Controller.Changed.{
  IsWellFormed, publish_telemetry-IsWellFormed, set_attribute-IsWellFormed, publish_telemetry-store,
  set_attribute-store,
}
use things_mqtt_lua.Controller.Stability.{send-IsWellFormed}
use things_mqtt_lua.Controller.Outbox.{changed_telemetry, send_offline, with_world}
use things_mqtt_lua.Controller.Reconnect.{publish_in_order, AllReturn, send_pending_lem}

-- A call that the program makes while the client is disconnected.
pub data Act (p : Platform) : Type 0 where
  writes sets : String → p.Value → Act p
  sends : Act p

module _ {p : Platform} where
  abbrev pub after : Act p → Controller p → Controller p
  after (writes key value) c = publish_telemetry {p = p} key value c
  after (sets key value) c = set_attribute {p = p} key value c
  after sends c = (send {p = p} c).1

  abbrev pub after_all : List (Act p) → Controller p → Controller p
  after_all [] c = c
  after_all (a ∷ acts) c = after_all acts (after a c)

  -- The payload of a `send`: the text of the telemetry that has changed by then, if any has.
  abbrev pub payload_of : Act p → Controller p → List String
  payload_of sends c =
      if is_empty c.m_tainted_telemetry_keys
      then []
      else elim (p.json.dump (changed_telemetry p c)) [ some text ↦ text ∷ [] | none ↦ [] ]
  payload_of _ c = []

  abbrev pub payloads : List (Act p) → Controller p → List String
  payloads [] c = []
  payloads (a ∷ acts) c = payload_of a c ++ payloads acts (after a c)

  -- What has changed can be dumped whenever `send` is called.
  abbrev pub CanDump : List (Act p) → Controller p → Type 0
  CanDump [] c = Unit
  CanDump (sends ∷ acts) c =
      ((text : String) × (p.json.dump (changed_telemetry p c) ≡ some text))
      × CanDump acts (after sends c)
  CanDump (a ∷ acts) c = CanDump acts (after a c)

  abbrev IsStep : List String → Controller p → Controller p → Type 0
  IsStep texts c c' =
      IsWellFormed p c'
      × (c'.m_mqtt_client ≡ c.m_mqtt_client)
      × (c'.m_pending_telemetry ≡ c.m_pending_telemetry ++ texts)

  sends-IsStep :
      (c : Controller p) (text : String)
      → IsWellFormed p c
      → is_connected {p = p} c ≡ false
      → p.json.dump (changed_telemetry p c) ≡ some text
      → IsStep (payload_of sends c) c (after sends c)
  sends-IsStep c text w offline dumps = (
    send-IsWellFormed p c w,
    ap (λ r. r.1.m_mqtt_client) (send_offline p c text w offline dumps),
    ap (λ r. r.1.m_pending_telemetry) (send_offline p c text w offline dumps)
        ∙ ground (arith, dumps, append-nil c.m_pending_telemetry),
  )

  writes-IsStep :
      (key : String) (value : p.Value) (c : Controller p)
      → IsWellFormed p c
      → IsStep [] c (publish_telemetry {p = p} key value c)
  writes-IsStep key value c w = (
    publish_telemetry-IsWellFormed p key value c w,
    rw (publish_telemetry-store p key value c) refl,
    rw (publish_telemetry-store p key value c) (sym (append-nil _)),
  )

  sets-IsStep :
      (key : String) (value : p.Value) (c : Controller p)
      → IsWellFormed p c
      → IsStep [] c (set_attribute {p = p} key value c)
  sets-IsStep key value c w = (
    set_attribute-IsWellFormed p key value c w,
    rw (set_attribute-store p key value c) refl,
    rw (set_attribute-store p key value c) (sym (append-nil _)),
  )

  after-IsStep :
      (a : Act p) (acts : List (Act p)) (c : Controller p)
      → IsWellFormed p c
      → is_connected {p = p} c ≡ false
      → CanDump (a ∷ acts) c
      → IsStep (payload_of a c) c (after a c) × CanDump acts (after a c)
  after-IsStep (writes key value) acts c w offline d = (writes-IsStep key value c w, d)
  after-IsStep (sets key value) acts c w offline d = (sets-IsStep key value c w, d)
  after-IsStep sends acts c w offline d = (sends-IsStep c d.0.0 w offline d.0.1, d.1)

  after_all-IsStep :
      (acts : List (Act p)) (c : Controller p)
      → IsWellFormed p c
      → is_connected {p = p} c ≡ false
      → CanDump acts c
      → IsStep (payloads acts c) c (after_all acts c)
  unfolding is_connected
  after_all-IsStep [] c w offline d = (w, refl, sym (append-nil _))
  after_all-IsStep (a ∷ acts) c w offline d =
      let ((w', same, queue), d') = after-IsStep a acts c w offline d in
      let (w'', same', queue') =
        after_all-IsStep acts (after a c) w' (ap (λ m. m.m_connected) same ∙ offline) d' in
      (
        w'',
        same' ∙ same,
        queue'
            ∙ ap (λ q. q ++ payloads acts (after a c)) queue
            ∙ append_assoc c.m_pending_telemetry (payload_of a c) _,
      )

  -- After any calls of `publishTelemetry`, `setAttribute` and `send` on a well-formed controller that
  -- is disconnected and whose queue is empty, if what had changed could be dumped at each `send`: the
  -- client and the world are as before, and the loop of `onMqttConnect` over the queue, if each
  -- publication succeeds or finds no connection, returns and has published the payload of each `send`
  -- that had one, in the order of the calls, and left the queue empty.
  pub offline_payloads :
      (acts : List (Act p)) (c : Controller p)
      → IsWellFormed p c
      → is_connected {p = p} c ≡ false
      → c.m_pending_telemetry ≡ []
      → CanDump acts c
      → AllReturn p c.m_mqtt_client.m_mosq (payloads acts c) c.m_mqtt_client.world
      → let c' = after_all acts c in
        let m = c.m_mqtt_client in
        (c'.m_mqtt_client ≡ m)
        × (send_all_pending {p = p} c' ≡ (
          ok tt,
          record (with_world p (publish_in_order p m.m_mosq (payloads acts c) m.world) c') {
            m_pending_telemetry = [];
          },
        ))
  unfolding send_all_pending
  offline_payloads acts c w offline none_yet d returned =
      let (w', same, queue) = after_all-IsStep acts c w offline d in
      let c' = after_all acts c in
      let texts = payloads acts c in
      let queue' : c'.m_pending_telemetry ≡ texts = queue ∙ ap (λ q. q ++ texts) none_yet in
      (
        same,
        ap (λ q. send_pending {p = p} q c') queue'
            ∙ send_pending_lem p texts c' queue'
                (subst (λ m. AllReturn p m.m_mosq texts m.world) (sym same) returned)
            ∙ ap
                (λ m. (
                  ok tt,
                  record (with_world p (publish_in_order p m.m_mosq texts m.world) c') {
                    m_pending_telemetry = [];
                  },
                ))
                same,
      )

-- ===== src/Controller/Frame.antt =====
-- controller.cpp: what the calls of the library leave alone, as a view of the controller that shows
-- neither the world nor the queue of telemetry.
use things_mqtt_lua.Prelude.{
  ◌≡◌, refl, ◌∙◌, inl, inr, Option, none, some, List, [], ◌∷◌, ◌++◌, if◌then◌else◌, String, ℕ,
  string_eq, Bool-cases, arith,
}
use things_mqtt_lua.Prelude.Effect.{
  >>=-keeps, Action, Void, ◌>>=◌, ◌>>◌, pure, gets, put, for_each, Exception, parse_error,
  type_error,
}
use things_mqtt_lua.Platform.{Platform}
use things_mqtt_lua.Controller.State.{Controller, is_connected, on_base, tail}
use things_mqtt_lua.Controller.Sending.{publish, dump, send_telemetry, send_attributes}
use things_mqtt_lua.Controller.Reactions.{
  pop_pending, send_pending, or_throw, call_handler, call_handlers, request_of, on_rpc,
}
use things_mqtt_lua.Controller.Outbox.{published, with_world, publish-cases}

module _ {p : Platform} {V : Type 0} (view : Controller p → V) where
  abbrev pub Keeps : {A : Type 0} → Action (Controller p) A → Type 0
  Keeps m = (c : Controller p) → view (m c).1 ≡ view c

  pub >>=-Keeps :
      {A B : Type 0} (m : Action (Controller p) A) (f : A → Action (Controller p) B)
      → Keeps m
      → ((a : A) → Keeps (f a))
      → Keeps (m >>= f)
  >>=-Keeps m f hm hf c = >>=-keeps (λ c'. view c' ≡ view c) m f c (hm c) (λ a c' h. hf a c' ∙ h)

  pub dump-Keeps : (v : p.Value) → Keeps (dump {p = p} v)
  dump-Keeps v c = ground arith

  or_throw-Keeps : {A : Type 0} (o : Option A) (e : Exception) → Keeps (or_throw o e)
  or_throw-Keeps none e c = refl
  or_throw-Keeps (some a) e c = refl

  pub for_each-Keeps :
      {A : Type 0} (xs : List A) (f : A → Action (Controller p) Void)
      → ((a : A) → Keeps (f a))
      → Keeps (for_each xs f)
  for_each-Keeps [] f h c = refl
  for_each-Keeps (x ∷ xs) f h c =
      >>=-Keeps (f x) (λ _. for_each xs f) (h x) (λ _. for_each-Keeps xs f h) c

  module _
      (blind : (c : Controller p) (w : p.World) (queue : List String)
        → view (record (with_world p w c) { m_pending_telemetry = queue }) ≡ view c) where
    pub publish-Keeps : (topic text : String) → Keeps (publish {p = p} topic text)
    publish-Keeps topic text c = elim (publish-cases p c topic text) [
      | inl e ↦ rw e (blind c (published p c topic text).1 c.m_pending_telemetry)
      | inr e ↦ rw e (blind c (published p c topic text).1 c.m_pending_telemetry)
    ]

    pub send_attributes-Keeps : (v : p.Value) → Keeps (send_attributes {p = p} v)
    unfolding send_attributes
    send_attributes-Keeps v c = elim (Bool-cases (is_connected {p = p} c)) [
      | inl online ↦ rw online (
          >>=-Keeps (dump {p = p} v) (publish {p = p} p.attributes_topic) (dump-Keeps v)
            (publish-Keeps p.attributes_topic) c)
      | inr offline ↦ rw offline refl
    ]

    pub send_telemetry-Keeps : (v : p.Value) → Keeps (send_telemetry {p = p} v)
    unfolding send_telemetry
    send_telemetry-Keeps v c =
        >>=-Keeps (gets (λ c. c)) (λ c. dump {p = p} v >>= deliver c) (λ c. refl)
          (λ c.
            >>=-Keeps (dump {p = p} v) (deliver c) (dump-Keeps v) (λ text. deliver-Keeps c text))
          c
      where
        deliver : Controller p → String → Action (Controller p) Void
        deliver c text =
            if is_connected {p = p} c
            then publish {p = p} p.telemetry_topic text
            else put (λ c. record c { m_pending_telemetry = c.m_pending_telemetry ++ text ∷ [] })

        deliver-Keeps : (c : Controller p) (text : String) → Keeps (deliver c text)
        deliver-Keeps c text = elim (Bool-cases (is_connected {p = p} c)) [
          | inl online ↦ rw online (publish-Keeps p.telemetry_topic text)
          | inr offline ↦
              rw offline
                (λ c'. blind c' c'.m_mqtt_client.world (c'.m_pending_telemetry ++ text ∷ []))
        ]

    pub send_pending-Keeps : (texts : List String) → Keeps (send_pending {p = p} texts)
    unfolding send_pending
    send_pending-Keeps [] c = refl
    send_pending-Keeps (text ∷ texts) c =
        >>=-Keeps (publish {p = p} p.telemetry_topic text)
          (λ _. pop_pending >> send_pending {p = p} texts) (publish-Keeps p.telemetry_topic text)
          (λ _.
            >>=-Keeps pop_pending (λ _. send_pending {p = p} texts)
              (λ c. blind c c.m_mqtt_client.world (tail c.m_pending_telemetry))
              (λ _. send_pending-Keeps texts))
          c

    call_handler-Keeps :
        (method : String) (params : p.Value) (h : ℕ × p.RpcHandler)
        → Keeps (call_handler {p = p} method params h)
    call_handler-Keeps method params (id, handler) =
        >>=-Keeps
          (on_base (λ b.
            let (r, w) = p.run_handler handler method params b.world in
            (r, record b { world = w })))
          (λ _. pure tt)
          (λ c.
            blind c (p.run_handler handler method params c.m_mqtt_client.world).1
              c.m_pending_telemetry)
          (λ _ c. refl)

    call_handlers-Keeps : (r : String × p.Value) → Keeps (call_handlers {p = p} r)
    unfolding call_handlers
    call_handlers-Keeps (method, params) c =
        for_each-Keeps c.m_rpc_handlers (call_handler {p = p} method params)
          (call_handler-Keeps method params) c

    pub on_rpc-Keeps : (payload : String) → Keeps (on_rpc {p = p} payload)
    unfolding on_rpc
    on_rpc-Keeps payload =
        >>=-Keeps (or_throw (p.json.parse payload) parse_error)
          (λ json. or_throw (request_of p.json json) type_error >>= call_handlers {p = p})
          (or_throw-Keeps _ _)
          λ json.
            >>=-Keeps (or_throw (request_of p.json json) type_error) (call_handlers {p = p})
              (or_throw-Keeps _ _) call_handlers-Keeps

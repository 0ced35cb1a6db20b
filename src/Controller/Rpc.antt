-- ===== src/Controller/Rpc.antt =====
-- controller.cpp: `addRpcHandler`, `removeRpcHandler`, and which messages reach the handlers.
use Prim.Native.String
use mathlib.Core.Path.{subst}
use Prim.Native.String.{count}
use text.Mathlib.TextLemmas.{length-append}
use text.Mathlib.TextEquality.{eq_iff}
use things_mqtt_lua.Prelude.{
  ℕ, ◌+◌, ◌%◌, ◌^◌, ◌<◌, ◌≡◌, ◌≢◌, refl, sym, ap, true, false, none, some, [], ◌∷◌, ◌++◌, String,
  string_eq, nat_eq, arith, All, All-append, All-map,
}
use things_mqtt_lua.Prelude.Dict.{
  Dict, lookup, insert_or_assign, erase, lookup-insert_or_assign, lookup-snoc,
}
use things_mqtt_lua.Prelude.Effect.{ok, for_each}
use things_mqtt_lua.MqttCallbacks.{Delivery}
use things_mqtt_lua.Platform.{Platform}
use things_mqtt_lua.Controller.State.{Controller}
use things_mqtt_lua.Controller.Reactions.{
  request_of, call_handler, call_handlers, on_rpc, on_mqtt_message, add_rpc_handler,
  remove_rpc_handler,
}
use things_mqtt_lua.Controller.Outbox.{with_world}

append-ne : (s level : String) → String.◌++◌ s (String.◌++◌ "/" level) ≢ s
append-ne s level e =
    omega (arith, ap count e, length-append s (String.◌++◌ "/" level), length-append "/" level)

module _ (p : Platform) where
  -- A message on a topic below the one that the build configures, `<topic>/<level>`, as the filter
  -- `<topic>/+` of the controller's subscription selects them, calls no handler: `onMqttMessage`
  -- returns, and nothing has changed, not even the world.
  pub rpc_below_ignored :
      (level : String) (d : Delivery) (c : Controller p)
      → d.topic ≡ String.◌++◌ p.rpc_topic (String.◌++◌ "/" level)
      → on_mqtt_message {p = p} d c ≡ (ok tt, c)
  unfolding on_mqtt_message
  rpc_below_ignored level d c e =
      ground (arith, eq_iff d.topic p.rpc_topic, append-ne p.rpc_topic level)

  -- The world after the handlers have been called in turn, and that each of them returns.
  abbrev pub world_after : Dict ℕ p.RpcHandler → String → p.Value → p.World → p.World
  world_after [] method params w = w
  world_after ((id, handler) ∷ hs) method params w =
      world_after hs method params (p.run_handler handler method params w).1

  abbrev pub HandlersReturn : Dict ℕ p.RpcHandler → String → p.Value → p.World → Type 0
  HandlersReturn [] method params w = Unit
  HandlersReturn ((id, handler) ∷ hs) method params w =
      ((result : p.Value) × ((p.run_handler handler method params w).0 ≡ ok result))
      × HandlersReturn hs method params (p.run_handler handler method params w).1

  for_each-call_handler :
      (hs : Dict ℕ p.RpcHandler) (method : String) (params : p.Value) (c : Controller p)
      → HandlersReturn hs method params c.m_mqtt_client.world
      → for_each hs (call_handler {p = p} method params) c
        ≡ (ok tt, with_world p (world_after hs method params c.m_mqtt_client.world) c)
  for_each-call_handler [] method params c h = refl
  for_each-call_handler ((id, handler) ∷ hs) method params c h = ground (
    arith,
    h.0.1,
    for_each-call_handler hs method params
        (with_world p (p.run_handler handler method params c.m_mqtt_client.world).1 c),
  )

  -- A well-formed request on the configured topic itself calls every handler once with its method
  -- and parameters, if each of them returns; what they return is dropped, and only the world moves.
  pub rpc_calls_all :
      (d : Delivery) (c : Controller p) (json : p.Value) (method : String) (params : p.Value)
      → d.topic ≡ p.rpc_topic
      → p.json.parse d.payload ≡ some json
      → request_of p.json json ≡ some (method, params)
      → HandlersReturn c.m_rpc_handlers method params c.m_mqtt_client.world
      → on_mqtt_message {p = p} d c
        ≡ (ok tt, with_world p (world_after c.m_rpc_handlers method params c.m_mqtt_client.world) c)
  unfolding on_mqtt_message on_rpc call_handlers
  rpc_calls_all d c json method params topic parsed request h =
      ground (
        arith,
        eq_iff d.topic p.rpc_topic,
        for_each-call_handler c.m_rpc_handlers method params c h,
      )

  -- Every identifier given out so far is below the next one.
  abbrev pub AllBelow : ℕ → Dict ℕ p.RpcHandler → Type 0
  AllBelow n hs = All (λ (e : ℕ × p.RpcHandler). e.0 < n) hs

  lookup-AllBelow : (n : ℕ) (hs : Dict ℕ p.RpcHandler) → AllBelow n hs → lookup n hs ≡ none
  lookup-AllBelow n [] h = refl
  lookup-AllBelow n ((id, handler) ∷ hs) h = ground (arith, lookup-AllBelow n hs h.1)

  erase-AllBelow :
      (n : ℕ) (hs : Dict ℕ p.RpcHandler) (handler : p.RpcHandler)
      → AllBelow n hs
      → erase n (hs ++ (n, handler) ∷ []) ≡ hs
  erase-AllBelow n [] handler h = ground arith
  erase-AllBelow n ((id, old) ∷ hs) handler h = ground (arith, erase-AllBelow n hs handler h.1)

  insert-AllBelow :
      (n : ℕ) (hs : Dict ℕ p.RpcHandler) (handler : p.RpcHandler)
      → AllBelow n hs
      → insert_or_assign n handler hs ≡ hs ++ (n, handler) ∷ []
  insert-AllBelow n hs handler h = ground (arith, lookup-AllBelow n hs h)

  -- If every identifier in the table is below the next one, `addRpcHandler` gives a handler an
  -- identifier that no other handler has, leaves the other handlers alone, and `removeRpcHandler`
  -- with that identifier returns true and undoes it; a second removal returns false.
  pub add_remove :
      (handler : p.RpcHandler) (next_id : ℕ) (c : Controller p)
      → AllBelow next_id c.m_rpc_handlers
      → let (id, next_id', c') = add_rpc_handler {p = p} handler (next_id, c) in
        (lookup id c.m_rpc_handlers ≡ none)
        × (lookup id c'.m_rpc_handlers ≡ some handler)
        × ((i : ℕ) → i ≢ id → lookup i c'.m_rpc_handlers ≡ lookup i c.m_rpc_handlers)
        × (remove_rpc_handler {p = p} id c' ≡ (true, c))
        × ((remove_rpc_handler {p = p} id (remove_rpc_handler {p = p} id c').1).0 ≡ false)
  unfolding add_rpc_handler remove_rpc_handler
  add_remove handler n c h =
      let new = lookup-AllBelow n c.m_rpc_handlers h in
      let undone = erase-AllBelow n c.m_rpc_handlers handler h in
      (
        new,
        ground (arith, lookup-insert_or_assign n n handler c.m_rpc_handlers),
        λ i ne. ground (arith, lookup-insert_or_assign i n handler c.m_rpc_handlers),
        rw (new, insert_or_assign)
            (ground (arith, new, undone, lookup-snoc n n handler c.m_rpc_handlers)),
        ground (arith, new, undone),
      )

  -- The bound moves on with the next identifier, up to the last one of a `size_t`.
  pub add_rpc_handler-AllBelow :
      (handler : p.RpcHandler) (next_id : ℕ) (c : Controller p)
      → next_id + 1 < 2 ^ 64
      → AllBelow next_id c.m_rpc_handlers
      → let (id, next_id', c') = add_rpc_handler {p = p} handler (next_id, c) in
        (next_id' ≡ next_id + 1) × AllBelow next_id' c'.m_rpc_handlers
  unfolding add_rpc_handler
  add_rpc_handler-AllBelow handler n c small h =
      let wrap : (n + 1) % 2 ^ 64 ≡ n + 1 = omega arith in
      let grown : AllBelow (n + 1) c.m_rpc_handlers =
        All-map (λ (e : ℕ × p.RpcHandler). e.0 < n) (λ (e : ℕ × p.RpcHandler). e.0 < n + 1)
          c.m_rpc_handlers (λ e lt. omega arith) h in
      (
        wrap,
        rw wrap (
            subst (AllBelow (n + 1)) (sym (insert-AllBelow n c.m_rpc_handlers handler h)) (
              All-append (λ (e : ℕ × p.RpcHandler). e.0 < n + 1) c.m_rpc_handlers
                ((n, handler) ∷ []) grown (omega arith, tt))),
      )

  pub erase-AllBelow_keeps :
      (n k : ℕ) (hs : Dict ℕ p.RpcHandler) → AllBelow n hs → AllBelow n (erase k hs)
  erase-AllBelow_keeps n k [] h = tt
  erase-AllBelow_keeps n k ((id, handler) ∷ hs) h = ground (arith, erase-AllBelow_keeps n k hs h.1)

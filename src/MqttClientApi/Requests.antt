-- ===== src/MqttClientApi/Requests.antt =====
-- mqtt/mqtt-client.hpp: a subscription that is made without a connection reaches the library when the
-- client connects.
use things_mqtt_lua.Prelude.{
  zero, suc, ◌+◌, ◌<◌, ◌≡◌, refl, sym, ap, ◌∙◌, Option, List, [], ◌∷◌, ◌++◌, append_assoc, String,
  length, get_or, arith,
}
use mathlib.Core.Path.{subst}
use things_mqtt_lua.Prelude.Int.{ℤ}
use things_mqtt_lua.Mosquitto.{Mosquitto, Event, connected}
use things_mqtt_lua.MqttClient.Codes.{MqttQos}
use things_mqtt_lua.MqttClient.Resubscribing.{resubscribe, resubscribe_from, resubscribe_topics}
use things_mqtt_lua.MqttClient.Subscriptions.{Passes, asked}
use things_mqtt_lua.MqttClientApi.{MqttClientApi, Contract}

-- The subscriptions that are kept, in the order in which they are made again.
abbrev of_topics : MqttQos → List String → List (String × MqttQos)
of_topics qos [] = []
of_topics qos (topic ∷ topics) = (topic, qos) ∷ of_topics qos topics

abbrev of_lists : MqttQos → List (List String) → List (String × MqttQos)
of_lists qos [] = []
of_lists qos (topics ∷ lists) = of_topics qos topics ++ of_lists (suc qos) lists

module _ (m : Mosquitto) (h : Option m.Handle) where
  -- The world of the library is brought from one state to another by these subscriptions, one after the
  -- other.
  pub data Requests : List (String × MqttQos) → m.World → m.World → Type 0 where
    done : (w : m.World) → Requests [] w w
    ask :
        (topic : String) (qos : MqttQos) (rs : List (String × MqttQos)) (w w' : m.World)
        → Requests rs (m.subscribe h topic qos w).1 w'
        → Requests ((topic, qos) ∷ rs) w w'

  append-Requests :
      {rs rs' : List (String × MqttQos)} {w w' w'' : m.World}
      → Requests rs w w'
      → Requests rs' w' w''
      → Requests (rs ++ rs') w w''
  append-Requests (done w) q = q
  append-Requests (ask topic qos rs w w' p) q = ask topic qos _ w _ (append-Requests p q)

  resubscribe_topics-Requests :
      (qos : MqttQos) (topics : List String) (w : m.World)
      → Requests (of_topics qos topics) w (resubscribe_topics m qos topics h w)
  unfolding resubscribe_topics
  resubscribe_topics-Requests qos [] w = done w
  resubscribe_topics-Requests qos (topic ∷ topics) w =
      ask topic qos (of_topics qos topics) w _
        (resubscribe_topics-Requests qos topics (m.subscribe h topic qos w).1)

  resubscribe_from-Requests :
      (qos : MqttQos) (lists : List (List String)) (w : m.World)
      → Requests (of_lists qos lists) w (resubscribe_from m qos lists h w)
  unfolding resubscribe_from
  resubscribe_from-Requests qos [] w = done w
  resubscribe_from-Requests qos (topics ∷ lists) w =
      append-Requests (resubscribe_topics-Requests qos topics w)
        (resubscribe_from-Requests (suc qos) lists (resubscribe_topics m qos topics h w))

-- One of the subscriptions.
abbrev pub Among : String → MqttQos → List (String × MqttQos) → Type 0
Among topic qos rs =
    (before : List (String × MqttQos)) × (after : List (String × MqttQos)) × (rs
      ≡ before ++ (topic, qos) ∷ after)

Among-after :
    (topic : String) (qos : MqttQos) (xs rs : List (String × MqttQos))
    → Among topic qos rs
    → Among topic qos (xs ++ rs)
Among-after topic qos xs rs (before, after, e) =
    (xs ++ before, after, ap (◌++◌ xs) e ∙ sym (append_assoc xs before ((topic, qos) ∷ after)))

Among-before :
    (topic : String) (qos : MqttQos) (xs rs : List (String × MqttQos))
    → Among topic qos xs
    → Among topic qos (xs ++ rs)
Among-before topic qos xs rs (before, after, e) =
    (before, after ++ rs, ap (λ ys. ys ++ rs) e ∙ append_assoc before ((topic, qos) ∷ after) rs)

Among-last :
    (topic : String) (qos : MqttQos) (topics : List String)
    → Among topic qos (of_topics qos (topics ++ topic ∷ []))
Among-last topic qos [] = ([], [], refl)
Among-last topic qos (t ∷ topics) =
    Among-after topic qos ((t, qos) ∷ []) _ (Among-last topic qos topics)

not_empty : (old : List String) (topic : String) → ¬ ([] ≡ old ++ topic ∷ [])
not_empty [] topic e = absurd (omega (arith, ap (λ (xs : List String). length xs) e))
not_empty (x ∷ old) topic e = absurd (omega (arith, ap (λ (xs : List String). length xs) e))

Among-of_lists :
    (topic : String) (n qos : MqttQos) (lists : List (List String)) (old : List String)
    → get_or lists qos [] ≡ old ++ topic ∷ []
    → Among topic (n + qos) (of_lists n lists)
Among-of_lists topic n qos [] old e = absurd (not_empty old topic e)
Among-of_lists topic n zero (topics ∷ lists) old e =
    let here : Among topic n (of_topics n topics) =
      subst (λ ts. Among topic n (of_topics n ts)) (sym e) (Among-last topic n old) in
    let same : n + 0 ≡ n = omega arith in
    rw same (Among-before topic n (of_topics n topics) (of_lists (suc n) lists) here)
Among-of_lists topic n (suc qos) (topics ∷ lists) old e =
    let shifted : n + suc qos ≡ suc n + qos = omega arith in
    rw shifted (
      Among-after topic (suc n + qos) (of_topics n topics) (of_lists (suc n) lists)
        (Among-of_lists topic (suc n) qos lists old e))

module _ {m : Mosquitto} {C : Type 0} (api : MqttClientApi m C) where
  open api use {Self, base}

  abbrev pub after_events : List Event → Self → Self
  after_events [] s = s
  after_events (e ∷ es) s = after_events es (api.on_event e s)

  after_events-keeps :
      (contract : Contract api) (es : List Event) (s : Self)
      → (base (after_events es s)).m_qos_subscriptions ≡ (base s).m_qos_subscriptions
  after_events-keeps contract [] s = refl
  after_events-keeps contract (e ∷ es) s =
      let (throws, bound, keeps, forgets, answers, flag, events, resubscribes) = contract in
      after_events-keeps contract es (api.on_event e s) ∙ (events e s).0

  -- Of a client that keeps the contract, with three lists of subscriptions: if the library accepts a
  -- subscription to a topic at a level below 3, or has no connection, then whatever events come after
  -- that, the next connection makes the library take a row of subscriptions among which that one is.
  pub subscription_reaches :
      (topic : String) (qos : MqttQos) (s : Self) (es : List Event) (rc : ℤ)
      → Contract api
      → length (base s).m_qos_subscriptions ≡ 3
      → qos < 3
      → Passes (asked topic qos (base s)).0
      → let s' = after_events es (api.subscribe topic qos s).1 in
        (rs : List (String × MqttQos)) × Requests m
          (base s').m_mosq
          rs
          (base s').world
          (base (api.on_event (connected rc) s')).world
        × Among topic qos rs
  unfolding resubscribe
  subscription_reaches topic qos s es rc contract three small passes =
      let (throws, bound, keeps, forgets, answers, flag, events, resubscribes) = contract in
      let s' = after_events es (api.subscribe topic qos s).1 in
      let b = base s' in
      let (returned, kept) = keeps topic qos s three small passes in
      let same : 0 + qos ≡ qos = omega arith in
      let there =
        ap (λ lists. get_or lists qos [])
          (after_events-keeps contract es (api.subscribe topic qos s).1)
        ∙ kept in
      (
        of_lists 0 b.m_qos_subscriptions,
        subst (Requests m b.m_mosq (of_lists 0 b.m_qos_subscriptions) b.world)
            (sym (resubscribes rc s'))
            (resubscribe_from-Requests m b.m_mosq 0 b.m_qos_subscriptions b.world),
        subst (λ n. Among topic n (of_lists 0 b.m_qos_subscriptions)) same
            (Among-of_lists topic 0 qos b.m_qos_subscriptions
              (get_or (base s).m_qos_subscriptions qos []) there),
      )

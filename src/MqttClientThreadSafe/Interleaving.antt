-- ===== src/MqttClientThreadSafe/Interleaving.antt =====
-- mqtt/mqtt-client-threadsafe.cpp: the network thread and the main thread as a sequence of steps. The
-- queue's mutex makes a handler's `emplace` and the main thread's `pop` happen one after the other.
use things_mqtt_lua.Prelude.{
  ℕ, suc, ◌≡◌, refl, ◌∙◌, sym, ap, Bool, true, Option, none, some, List, [], ◌∷◌, ◌++◌,
  append_assoc, append-nil, length,
}
use things_mqtt_lua.Prelude.Effect.{Result, ok, raised}
use things_mqtt_lua.Mosquitto.{Mosquitto, Event}
use things_mqtt_lua.ThreadSafeQueue
use things_mqtt_lua.ThreadSafeQueue.Fifo.{to_list}
use things_mqtt_lua.MqttCallbacks.{Call}
use things_mqtt_lua.MqttClientSingleThread
use things_mqtt_lua.MqttClientSingleThread.{MqttClientSingleThread}
use things_mqtt_lua.MqttClientThreadSafe.{
  MqttClientThreadSafe, MqttEvent, Owner, handle, call_of, loop, pop_event, dispatch_opt,
}
use things_mqtt_lua.MqttClientThreadSafe.Order.{
  run_single, calls_of, queued, single, single-handle, queued-handle,
}

-- A step of one of the threads: the network thread handles an event, or `loop` goes once round.
pub data Step : Type 0 where
  network : Event → Step
  main : Step

abbrev pub events : List Step → List Event
events [] = []
events (network e ∷ steps) = e ∷ events steps
events (main ∷ steps) = events steps

regroup : {A : Type 0} (a b c d : List A) → (a ++ (b ++ c)) ++ d ≡ (a ++ b) ++ (c ++ d)
regroup a b c d = rw (append_assoc, append_assoc, append_assoc) refl

-- An owner that keeps a list of the calls made of its closures.
pub record Recorder (m : Mosquitto) (C : Type 0) : Type 0 where
  pub client : MqttClientThreadSafe m C
  pub log : List (Call C)

module _ {m : Mosquitto} {C : Type 0} where
  abbrev pub recorder : Owner m C (Recorder m C)
  recorder = record {
    client = λ s. s.client;
    set_client = λ c s. record s { client = c };
    dispatch = λ k s. (ok tt, record s { log = s.log ++ k ∷ [] });
  }

  abbrev pub once : Option MqttEvent → Recorder m C → Recorder m C
  once none s = s
  once (some event) s = record s { log = s.log ++ to_list (call_of event s.client.base) }

  abbrev pub step : Step → Recorder m C → Recorder m C
  step (network e) s = record s { client = handle e s.client }
  step main s = let (event, s') = pop_event recorder s in once event s'

  abbrev pub run : List Step → Recorder m C → Recorder m C
  run [] s = s
  run (x ∷ steps) s = run steps (step x s)

  -- the calls made, followed by those that the queue still holds
  abbrev pub made : Recorder m C → List (Call C)
  made s = s.log ++ queued s.client

  abbrev at : List MqttEvent → Recorder m C → Recorder m C
  at l s = record s { client = record (s.client) { m_event_queue = record { m_queue = l } } }

  made-at : (l : List MqttEvent) (s : Recorder m C) → made (step main (at l s)) ≡ made (at l s)
  unfolding ThreadSafeQueue.pop
  made-at [] s = refl
  made-at (event ∷ l) s = append_assoc s.log (to_list (call_of event s.client.base)) _

  made-main : (s : Recorder m C) → made (step main s) ≡ made s
  made-main s = made-at s.client.m_event_queue.m_queue s

  single-at :
      (l : List MqttEvent) (s : Recorder m C) → single (step main (at l s)).client ≡ single s.client
  unfolding ThreadSafeQueue.pop
  single-at [] s = refl
  single-at (event ∷ l) s = refl

  single-main : (s : Recorder m C) → single (step main s).client ≡ single s.client
  single-main s = single-at s.client.m_event_queue.m_queue s

  -- With an owner whose closures only note that they are called, however the steps of the two
  -- threads are interleaved: the calls made, followed by those still queued, are those made and
  -- queued at the start followed by the calls that the single-thread client makes of the same
  -- events, with the same arguments and in the same order; and the base of the client and its
  -- connection flag are the single-thread client's.
  pub run-single :
      (steps : List Step) (s : Recorder m C)
      → (made (run steps s) ≡ made s ++ (run_single (events steps) (single s.client)).0)
        × (single (run steps s).client ≡ (run_single (events steps) (single s.client)).1)
  run-single [] s = (sym (append-nil (made s)), refl)
  run-single (network e ∷ steps) s =
      let s' = step (network e) s in
      let (calls, state) = run-single steps s' in
      let after = MqttClientSingleThread.handle e (single s.client) in
      (
        calls
            ∙ ap (λ c. made s' ++ (run_single (events steps) c).0) (single-handle e s.client)
            ∙ ap (λ q. (s.log ++ q) ++ (run_single (events steps) after.1).0)
                (queued-handle e s.client)
            ∙ regroup s.log (queued s.client) (to_list after.0) _,
        state ∙ ap (λ c. (run_single (events steps) c).1) (single-handle e s.client),
      )
  run-single (main ∷ steps) s =
      let (calls, state) = run-single steps (step main s) in
      (
        calls
            ∙ ap (λ c. made (step main s) ++ (run_single (events steps) c).0) (single-main s)
            ∙ ap (λ l. l ++ (run_single (events steps) (single s.client)).0) (made-main s),
        state ∙ ap (λ c. (run_single (events steps) c).1) (single-main s),
      )

  -- One round of `loop`, once the event is popped: the closure is called, and the rest follows.
  loop-round :
      (k : Option (Call C)) (fuel : ℕ) (s : Recorder m C) (after : Result Bool × Recorder m C)
      → loop recorder fuel (record s { log = s.log ++ to_list k }) ≡ after
      → elim (dispatch_opt recorder k s).0 as (λ _. Result Bool × Recorder m C) [
        | ok _ ↦ loop recorder fuel (dispatch_opt recorder k s).1
        | raised x ↦ (raised x, (dispatch_opt recorder k s).1)
      ]
        ≡ after
  loop-round none fuel s after e =
      ap (λ log. loop recorder fuel (record s { log = log })) (sym (append-nil s.log)) ∙ e
  loop-round (some k) fuel s after e = e

  loop-at :
      (l : List MqttEvent) (s : Recorder m C)
      → loop recorder (suc (length l)) (at l s)
        ≡ (ok true, record (at [] s) { log = made (at l s) })
  unfolding loop ThreadSafeQueue.pop
  loop-at [] s = rw append-nil refl
  loop-at (event ∷ l) s =
      let k = call_of event s.client.base in
      loop-round k (suc (length l)) (at l s) _ (
        loop-at l (record s { log = s.log ++ to_list k })
        ∙ ap (λ log. (ok true, record (at [] s) { log = log }))
            (append_assoc s.log (to_list k) (calls_of l s.client.base)))

  -- With an owner whose closures only note that they are called: `loop` with fuel for one more
  -- than the queued events sees the queue empty, and has then made the calls of all the queued
  -- events, in order, and changed nothing else of the client.
  pub loop_drains :
      (s : Recorder m C)
      → loop recorder (suc (length s.client.m_event_queue.m_queue)) s
        ≡ (ok true, record (at [] s) { log = made s })
  loop_drains s = loop-at s.client.m_event_queue.m_queue s

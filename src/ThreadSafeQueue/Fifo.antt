-- ===== src/ThreadSafeQueue/Fifo.antt =====
-- threadsafe-queue.hpp: the order in which messages leave, over any sequence of calls of any threads.
use things_mqtt_lua.Prelude.{
  ◌≡◌, refl, Option, none, some, List, [], ◌∷◌, ◌++◌, append_assoc, append-nil,
}
use things_mqtt_lua.ThreadSafeQueue.{ThreadSafeQueue, push, pop, pop_front}

-- A call that some thread makes on the queue.
pub data Call {ℓ} (Msg : Type ℓ) : Type ℓ where
  pushes : Msg → Call Msg
  pops : Call Msg

module _ {ℓ} {Msg : Type ℓ} where
  abbrev pub to_list : Option Msg → List Msg
  to_list none = []
  to_list (some msg) = msg ∷ []

  -- The messages that the calls hand out, in order, and the queue that they leave.
  pub serve : List (Call Msg) → ThreadSafeQueue Msg → List Msg × ThreadSafeQueue Msg
  serve [] q = ([], q)
  serve (pushes msg ∷ cs) q = serve cs (push msg q)
  serve (pops ∷ cs) q =
      let (got, q') = pop q in let (rest, q'') = serve cs q' in (to_list got ++ rest, q'')

  abbrev pub pushed : List (Call Msg) → List Msg
  pushed [] = []
  pushed (pushes msg ∷ cs) = msg ∷ pushed cs
  pushed (pops ∷ cs) = pushed cs

  pub m_queue-pop : (q : ThreadSafeQueue Msg) → to_list (pop q).0 ++ (pop q).1.m_queue ≡ q.m_queue
  unfolding pop
  m_queue-pop q = by_list q.m_queue q refl
    where
      by_list :
          (l : List Msg) (q : ThreadSafeQueue Msg)
          → q.m_queue ≡ l
          → to_list (pop_front l q).0 ++ (pop_front l q).1.m_queue ≡ l
      by_list [] q e = e
      by_list (msg ∷ rest) q e = refl

  -- For every sequence of calls by any threads, in the order in which they get the mutex: the
  -- messages handed out, followed by those still queued, are the messages that were queued at the
  -- start followed by those pushed.
  pub serve-fifo :
      (cs : List (Call Msg)) (q : ThreadSafeQueue Msg)
      → (serve cs q).0 ++ (serve cs q).1.m_queue ≡ q.m_queue ++ pushed cs
  unfolding serve push
  serve-fifo [] q = rw append-nil refl
  serve-fifo (pushes msg ∷ cs) q = rw (serve-fifo cs (push msg q), append_assoc) refl
  serve-fifo (pops ∷ cs) q =
      rw (append_assoc, serve-fifo cs (pop q).1, ← append_assoc, m_queue-pop q) refl

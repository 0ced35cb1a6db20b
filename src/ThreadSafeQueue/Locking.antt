-- ===== src/ThreadSafeQueue/Locking.antt =====
-- threadsafe-queue.hpp: `push` and `pop` as several threads run them, one step at a time: each waits for
-- `m_mutex` in the constructor of its `std::lock_guard`, works on `m_queue`, and gives the mutex back in the
-- destructor. `emplace` has the steps of `push`.
use things_mqtt_lua.Prelude.{
  ℕ, ◌≡◌, Option, none, some, List, [], ◌∷◌, ◌++◌, ◌==◌, if◌then◌else◌, nat_eq,
}
use things_mqtt_lua.ThreadSafeQueue.Fifo.{Call, pushes, pops}

-- Where a thread is: outside, before the lock, or before one of the statements under it.
pub data Pc (Msg : Type 0) : Type 0 where
  outside : Pc Msg
  locking : Call Msg → Pc Msg
  -- `m_queue.push(msg)`
  pushing : Msg → Pc Msg
  -- `if (m_queue.empty())`
  testing : Pc Msg
  -- `Msg msg = m_queue.front()`
  reading : Pc Msg
  -- `m_queue.pop()`, with the copy
  dropping : Msg → Pc Msg
  -- the return: what is handed out, and the lock still held
  leaving : Call Msg → Option Msg → Pc Msg

abbrev pub first_statement : {Msg : Type 0} → Call Msg → Pc Msg
first_statement (pushes msg) = pushing msg
first_statement pops = testing

-- A call that has returned: the thread, what it called, and what it got.
abbrev pub Returned : Type 0 → Type 0
Returned Msg = ℕ × Call Msg × Option Msg

-- `m_mutex` is the thread that holds the mutex.
pub record System (Msg : Type 0) : Type 0 where
  pub m_queue : List Msg
  pub m_mutex : Option ℕ
  pub pc : ℕ → Pc Msg

abbrev pub update : {X : Type 0} → (ℕ → X) → ℕ → X → ℕ → X
update f i x j = if j == i then x else f j

module _ {Msg : Type 0} where
  abbrev pub at : ℕ → Pc Msg → System Msg → System Msg
  at i p s = record s { pc = update s.pc i p }

  -- A step of the thread `i`, with the call that returns in it, if one does.
  pub data Step (s : System Msg) : List (Returned Msg) → System Msg → Type 0 where
    begin : (i : ℕ) (c : Call Msg) → s.pc i ≡ outside → Step s [] (at i (locking c) s)
    lock :
        (i : ℕ) (c : Call Msg)
        → s.pc i ≡ locking c
        → s.m_mutex ≡ none
        → Step s [] (at i (first_statement c) (record s { m_mutex = some i }))
    push :
        (i : ℕ) (msg : Msg)
        → s.pc i ≡ pushing msg
        → Step s []
            (at i (leaving (pushes msg) none) (record s { m_queue = s.m_queue ++ msg ∷ [] }))
    find_empty :
        (i : ℕ) → s.pc i ≡ testing → s.m_queue ≡ [] → Step s [] (at i (leaving pops none) s)
    find_some :
        (i : ℕ) (msg : Msg) (rest : List Msg)
        → s.pc i ≡ testing
        → s.m_queue ≡ msg ∷ rest
        → Step s [] (at i reading s)
    read :
        (i : ℕ) (msg : Msg) (rest : List Msg)
        → s.pc i ≡ reading
        → s.m_queue ≡ msg ∷ rest
        → Step s [] (at i (dropping msg) s)
    drop :
        (i : ℕ) (copy msg : Msg) (rest : List Msg)
        → s.pc i ≡ dropping copy
        → s.m_queue ≡ msg ∷ rest
        → Step s [] (at i (leaving pops (some copy)) (record s { m_queue = rest }))
    unlock :
        (i : ℕ) (c : Call Msg) (got : Option Msg)
        → s.pc i ≡ leaving c got
        → Step s ((i, c, got) ∷ []) (at i outside (record s { m_mutex = none }))

  abbrev pub start : List Msg → System Msg
  start queue = record { m_queue = queue; m_mutex = none; pc = λ i. outside }

  -- The calls that have returned, the last one first, and a system that the threads can come to.
  pub data Reach (queue : List Msg) : List (Returned Msg) → System Msg → Type 0 where
    started : Reach queue [] (start queue)
    later :
        {done returned : List (Returned Msg)} {s t : System Msg}
        → Reach queue done s
        → Step s returned t
        → Reach queue (returned ++ done) t

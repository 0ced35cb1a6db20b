-- ===== src/Tests/Locks.antt =====
-- Runs of the theorems on the threads of a queue: thread 0 pushes 7 while thread 1 waits to pop.
use things_mqtt_lua.Prelude.{ℕ, ◌≡◌, refl, none, some, List, [], ◌∷◌, ◌++◌, nat_eq}
use things_mqtt_lua.ThreadSafeQueue.Fifo.{pushes, pops}
use things_mqtt_lua.ThreadSafeQueue.Locking.{
  System, Returned, Reach, Step, started, later, begin, lock, push, find_some, read, drop, unlock,
  start,
}
use things_mqtt_lua.ThreadSafeQueue.Exclusion.{Sequential}
use things_mqtt_lua.ThreadSafeQueue.Linearizable.{FrontIs, Reach-Sequential, Reach-exclusive}
use things_mqtt_lua.ThreadSafeQueue.Completing.{CanReturn, Reach-CanReturn}

-- What is known of a run: the calls that have returned, and where the threads are.
record Trace : Type 0 where
  done : List (Returned ℕ)
  system : System ℕ
  reach : Reach [] done system

abbrev go :
    {returned : List (Returned ℕ)} {t : System ℕ} (x : Trace) → Step (x.system) returned t → Trace
go {returned} {t} x step = record {
  done = returned ++ x.done;
  system = t;
  reach = later x.reach step;
}

abbrev idle : Trace
idle = record { done = []; system = start []; reach = started }

-- Thread 1 waits for the mutex, and thread 0 has it.
abbrev contended : Trace
contended =
    go (go (go idle (begin 0 (pushes 7) refl)) (begin 1 pops refl)) (lock 0 (pushes 7) refl refl)

-- Thread 1 has copied the message.
abbrev copied : Trace
copied =
    let pushed = go (go contended (push 0 7 refl)) (unlock 0 (pushes 7) none refl) in
    go (go (go pushed (lock 1 pops refl refl)) (find_some 1 7 [] refl refl)) (read 1 7 [] refl refl)

abbrev finished : Trace
finished = go (go copied (drop 1 7 7 [] refl refl)) (unlock 1 pops (some 7) refl)

Reach-Sequential_example : Sequential {Msg = ℕ} [] ((1, pops, some 7) ∷ (0, pushes 7, none) ∷ []) []
Reach-Sequential_example = Reach-Sequential finished.reach refl

Reach-exclusive_example : ◌≡◌ {A = ℕ} 1 1 × FrontIs (copied.system.pc 1) (7 ∷ [])
Reach-exclusive_example = Reach-exclusive copied.reach 1 1 refl refl

Reach-CanReturn_example : CanReturn contended.system 1 pops
Reach-CanReturn_example = Reach-CanReturn contended.reach 1 pops refl

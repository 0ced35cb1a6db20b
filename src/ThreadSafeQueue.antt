-- ===== src/ThreadSafeQueue.antt =====
-- threadsafe-queue.hpp: a FIFO queue whose operations each hold `m_mutex` from first to last line,
-- so that an operation is one step of whatever thread makes it. The head of the list is the front.
pub mod Fifo
pub mod Locking
pub mod Exclusion
pub mod Linearizable
pub mod Finishing
pub mod Completing
use things_mqtt_lua.Prelude.{ℕ, Option, none, some, List, [], ◌∷◌, ◌++◌, length}

pub record ThreadSafeQueue {ℓ} (Msg : Type ℓ) : Type ℓ where
  pub m_queue : List Msg

module _ {ℓ} {Msg : Type ℓ} where
  unfoldable pub new : ThreadSafeQueue Msg
  new = record { m_queue = [] }

  -- The move constructor: the new queue, and what is left of `other`, a moved-from `std::queue`,
  -- which is empty for the `std::deque` under it.
  unfoldable pub move_from : ThreadSafeQueue Msg → ThreadSafeQueue Msg × ThreadSafeQueue Msg
  move_from other = (record { m_queue = other.m_queue }, record { m_queue = [] })

  unfoldable pub size : ThreadSafeQueue Msg → ℕ
  size q = length q.m_queue

  unfoldable pub push : Msg → ThreadSafeQueue Msg → ThreadSafeQueue Msg
  push msg q = record q { m_queue = q.m_queue ++ msg ∷ [] }

  -- `make` stands for the constructor of `Msg` at the forwarded arguments.
  unfoldable pub emplace {κ} :
      {Args : Type κ} → (Args → Msg) → Args → ThreadSafeQueue Msg → ThreadSafeQueue Msg
  emplace make args q = record q { m_queue = q.m_queue ++ make args ∷ [] }

  unfoldable pub pop_front : List Msg → ThreadSafeQueue Msg → Option Msg × ThreadSafeQueue Msg
  pop_front [] q = (none, q)
  pop_front (msg ∷ rest) q = (some msg, record q { m_queue = rest })

  unfoldable pub pop : ThreadSafeQueue Msg → Option Msg × ThreadSafeQueue Msg
  unfolding pop_front
  pop q = pop_front q.m_queue q

-- ===== src/Mosquitto.antt =====
-- The calls of libmosquitto that mqtt/mqtt-client.cpp, mqtt/mqtt-client-singlethread.cpp and
-- mqtt/mqtt-client-threadsafe.cpp make. The library is not part of the repository: it is a
-- parameter of the model, with a state of its own, `World`, that holds its sockets and the broker.
pub mod Ledger
pub mod Discipline
use things_mqtt_lua.Prelude.{ℕ, String, Bool, Option, List}
use things_mqtt_lua.Prelude.Int.{ℤ}

-- The `MOSQ_ERR_*` codes that the program tells apart.
pub data MosqErr : Type 0 where
  success no_conn conn_lost : MosqErr
  other : ℤ → MosqErr

-- The values of `errno` that the program tells apart.
pub data Errno : Type 0 where
  enomem einval : Errno
  other_errno : ℤ → Errno

-- `struct mosquitto_message`
pub record Message : Type 0 where
  pub mid : ℤ
  pub topic : String
  pub payload : String
  pub qos : ℤ
  pub retain : ℤ

-- A call of one of the callbacks that the program registers, with its arguments.
pub data Event : Type 0 where
  connected disconnected published unsubscribed : ℤ → Event
  received : Message → Event
  subscribed : ℤ → List ℤ → Event
  logged : ℤ → String → Event

pub data CallbackKind : Type 0 where
  connect_cb disconnect_cb publish_cb message_cb subscribe_cb unsubscribe_cb log_cb : CallbackKind

-- A call of the library that may call back: it returns a code, or it makes a callback and goes on
-- from the world that the callback leaves.
pub data Run (W : Type 0) : Type 0 where
  returns : MosqErr → W → Run W
  calls : Event → W → (W → Run W) → Run W

-- A handle that is `none` is the null pointer, which the library accepts and reports as an error.
pub record Mosquitto : Type 1 where
  pub World : Type 0
  pub Handle : Type 0
  pub lib_init : World → MosqErr × World
  pub lib_cleanup : World → World
  pub errno : World → Errno
  pub new : Option String → Bool → World → Option Handle × World
  pub destroy : Option Handle → World → World
  pub username_pw_set : Option Handle → String → Option String → World → MosqErr × World
  pub tls_set :
      Option Handle → Option String → Option String → Option String → World → MosqErr × World
  pub reconnect_delay_set : Option Handle → ℕ → ℕ → Bool → World → World
  pub connect : Option Handle → String → ℤ → ℤ → World → MosqErr × World
  pub connect_bind : Option Handle → String → ℤ → ℤ → String → World → MosqErr × World
  pub disconnect : Option Handle → World → Run World
  pub subscribe : Option Handle → String → ℕ → World → MosqErr × World
  pub unsubscribe : Option Handle → String → World → MosqErr × World
  pub publish : Option Handle → String → ℤ → String → ℕ → Bool → World → MosqErr × ℤ × World
  pub callback_set : Option Handle → CallbackKind → World → World
  pub loop : Option Handle → World → Run World
  pub loop_start : Option Handle → World → MosqErr × World
  pub loop_stop : Option Handle → Bool → World → World

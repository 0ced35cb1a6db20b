-- ===== src/Lib.antt =====
-- ThingsMQTT.lua, a Lua library for MQTT telemetry, attributes and remote procedure calls: its C++
-- core, from the queue of the thread-safe client up to the functions that scripts call.
--
-- The parts. `Controller` (src/controller.hpp, src/controller.cpp) keeps the latest telemetry and
-- attributes and the sets of keys that changed since they were last sent, publishes them as JSON, and
-- hands remote procedure calls to the registered handlers. It owns an `MqttClientSingleThread`
-- (src/mqtt/mqtt-client-singlethread.*), a subclass of `MqttClient` (src/mqtt/mqtt-client.*), which
-- wraps one handle of libmosquitto and keeps the subscriptions that it makes again when the
-- connection comes back. `MqttClientThreadSafe` (src/mqtt/mqtt-client-threadsafe.*) is the other
-- subclass: its handlers run on libmosquitto's network thread and put events in a `ThreadSafeQueue`
-- (src/threadsafe-queue.hpp), which `loop` empties on the main thread. The Lua module
-- (src/lua-thingsmqtt.cpp, src/lua-thingsmqtt-private.hpp, inc/lua-thingsmqtt.h) registers C functions
-- that take a controller and values from the stack of the interpreter and call the controller;
-- src/lua-utils.* converts between Lua values and JSON.
--
-- The files.
--   Prelude: shared names; tests that compute; lists; `int` and its conversion; maps and sets as lists
--     in the order of insertion; calls that change an object and may throw (Prelude/Effect).
--   Mosquitto, Platform: what the code calls and the repository does not implement, as records that
--     are parameters: libmosquitto, nlohmann::json, the topics that the build configures, the clock,
--     the handlers of remote procedure calls. Ledger: a library that notes which handles live and how
--     often it is initialised. Discipline: what a call of it keeps of a client's handle.
--   ThreadSafeQueue: the queue. Fifo: any sequence of calls of any threads. Locking: the statements of
--     `push` and `pop` as steps of threads that contend for the mutex. Exclusion and Linearizable: what
--     the mutex keeps, and the calls as they come out. Finishing and Completing: that they come to an end.
--   MqttClient: the object, `configure`, `connect`, `subscribe`, `unsubscribe`, `publish`.
--     Codes: the enums. Setters: the callbacks. Resubscribing: what `on_connect` makes again. Setup:
--     `configure`, step by step. Subscriptions: the answers of the library. Handle and Lifetime: the
--     handle, from `configure` to the destructor.
--   MqttCallbacks: the calls that the clients make of the callbacks of their owner.
--   MqttClientSingleThread: handlers, `loop`, `disconnect`. Invariant: what a call keeps whose callbacks
--     keep it. Configuring: `configure` of this client. Handle: its handle. References: how often it
--     initialises the library and cleans it up.
--   MqttClientThreadSafe: handlers, events, `loop`. Order: one event in both clients. Interleaving: the
--     steps of the two threads. Configuring: `configure` of this client. Handle and Resources: its handle,
--     from the constructor to the destructors, on both threads.
--   Controller: State (the object, `connect`), Payload (the JSON values), Sending
--     (`publishTelemetry`, `setAttribute`, `send`), Reactions (`onMqttConnect`, `onMqttMessage`,
--     `loop`, the handlers). The other children are about those: Changed and Writes (what is kept
--     and what waits), Contents and Messages (the values sent), Outbox (`send`), Offline (the calls
--     while disconnected), Reconnect and Growth (`onMqttConnect`), Rpc (handlers), Connecting
--     (`connect`), Frame, Callbacks and Stability (what the operations keep), History and
--     Identifiers (any sequence of public calls), Handle, Lifetime and Resources (the handle of the
--     client, up to the destructor), Unordered, Reordering, ReorderingCallbacks, Indifference and
--     Commuting (the order of the hash tables).
--   MqttClientApi: the class that both clients are for those that hold one, and what its comments promise.
--     Clients: the two clients. Requests: what a connection asks the library for.
--   Lua, JsonValues: the interpreter and the stack of a C function, and more of nlohmann::json.
--   LuaUtils: the two conversions. Balance and Pushes (the stack), Contract (what the header promises),
--     Tables, Flat and Listed (tables without a metatable), Nested (a table in a table), Depth (fuel), Scalars
--     (there and back).
--   LuaThingsmqtt: Entries (the C functions), Handler (the lambda of a handler), Process (the state), Config
--     (the configuration), Methods (the C functions). Publishing: telemetry and attributes. Handlers:
--     `add_rpc_handler`, `remove_rpc_handler` and the lambda. Description, Fields and Configuration: the
--     table given to `connect`. Sending, Connecting, Reading, Steps, Counts and Stack: what is left on the
--     stack. WellFormed and Scripts: what any calls of scripts keep of the controllers.
--   Tests: small libraries to run the definitions on, and the theorems at concrete inputs.
--
-- Conventions. A method is a function from the object's state to a result, or an exception, and the
-- state after it; what was written before a throw stays written. The state of an object holds the
-- world behind libmosquitto, which its calls move. A call of the library that may call back is a
-- tree of callbacks, `Run`, carried out with the handlers of the client; an exception in a callback
-- ends it. The lambdas that `connect` installs are two named closures. A null pointer is `none`. A
-- string is a sequence of bytes, one for each character. An `int` is an integer, `size_t` a natural
-- number; the conversion of a size to `int` and the wrap of `next_id` at 2⁶⁴ are written out. The
-- time in milliseconds is not bounded. `next_id`, a static variable of `addRpcHandler`, is passed
-- beside the controller. Maps and sets are walked in one order, that of insertion, while a hash
-- table may have any; `IsAlike` (Controller/Unordered) relates controllers that differ in that
-- order. The order of the table of handlers, in which a request calls them, is that of insertion
-- throughout. The `while` of the thread-safe `loop` runs on fuel and tells whether it saw the queue
-- empty: a round takes one event, so one more than the events that are queued or come meanwhile is
-- enough. The conversions run on fuel: one for each level of a value, and in a table one more than
-- it has entries; a JSON value needs more than its height. All other loops are structural.
--
-- The Lua stack is a list with its top first, that of the C function which runs; to pop more than there is
-- is undefined, and empties it here. An error of the interpreter leaves a C function as an exception. The
-- controllers of a process share its world: one is given the world before a call and yields it after. A
-- userdata holds the number of its controller. Lua code that a handler runs changes the interpreter and
-- not the controllers.
--
-- Concurrency. An operation of the queue holds the mutex from beginning to end, so it is one step, except
-- in ThreadSafeQueue/Locking, where it is several and a call that has the mutex keeps others waiting. A
-- handler of the network thread and a round of `loop` are one step each: each touches the queue once.
-- That the network thread reads the kept subscriptions without a lock is not modelled.
--
-- Not modelled: the vendored src/nlohmann/json.hpp, whose calls are parameters; the lines that STACK_END
-- prints to stderr, and that they depend on a macro of the build; the build files, the documentation and
-- the example.
pub mod Prelude
pub mod Mosquitto
pub mod ThreadSafeQueue
pub mod MqttClient
pub mod MqttCallbacks
pub mod MqttClientSingleThread
pub mod MqttClientThreadSafe
pub mod Platform
pub mod Controller
pub mod Tests
pub mod Lua
pub mod JsonValues
pub mod LuaUtils
pub mod LuaThingsmqtt
pub mod MqttClientApi

-- ===== src/Lib.antt =====
-- A model of Tryorama, the TypeScript library in ts/src that runs Holochain conductors for tests and
-- waits for their DHTs, with theorems about it.
--
-- The program has two ways to run conductors. The TryCP client (ts/src/trycp) sends requests over a
-- websocket to servers that manage conductors, and matches their responses to its promises by a
-- request id; a TryCP conductor offers admin and app methods that are each one such request. A local
-- conductor (ts/src/local) is a process of `hc sandbox` with an admin websocket. A scenario, of either
-- kind, makes conductors and players with apps, and shuts them down when a test is over. Both kinds use
-- ts/src/common.ts and ts/src/util.ts, which enable apps, exchange agents among conductors, run the
-- local services, and compare and await DHT states.
--
-- Files:
--   Prelude          library names passed on, Boolean tests, lists, dictionaries
--   Js               JavaScript values and operators, exceptions, async functions, String.replace;
--                    Yields and Keeps say what async functions return, leave true and bring about,
--                    Refines when they behave alike on two states
--   Types            ts/src/types.ts
--   Trycp/Protocol   ts/src/trycp/types.ts: requests, responses, tags; Responses has the types of
--                    successful responses and signals
--   Trycp/Codec      ts/src/trycp/util.ts: `deserialize...` and `assertIs...`
--   Trycp/Client     ts/src/trycp/trycp-client.ts: `call` is `call`, the listener of "message" is
--                    `on_message`; Invariant, Routing, Orders, Permuting, Responses, Settling and
--                    Answering prove its properties, Frames that Reader reads its frames,
--                    Exchange what a caller gets of a server, Typed and Signals what becomes of declared
--                    responses and of signals; Ping is `ping`
--   Trycp/Services   what a TryCP conductor uses of its client and of packages
--   Trycp/Conductor  ts/src/trycp/conductor/conductor.ts: the methods under their names, in Config,
--                    Admin, App and Install; ConfigShape, Pairing and Signing prove their properties.
--                    Methods has the objects of methods, Refinement compares two of them
--   Trycp/Linked     a conductor on the client and a server: Encoding, Calls and Faithful compare it with
--                    one that asks the server itself, Scenarios and Waiting do so for a TryCP scenario
--                    and for the waiting for DHTs
--   Trycp/Scenario   ts/src/trycp/conductor/scenario.ts, with the part of trycp-client.ts that keeps a
--                    client's conductors; Players adds players, Sizes proves how many they
--                    are, Reach and Listing that they are in the scenario's reach; Refinement
--                    compares two scenarios
--   Trycp/Server     ts/src/trycp/trycp-server.ts; Listening proves when a start is over
--   Dht              ts/src/util.ts; Order and Agreement on the comparison, Loop on the waiting,
--                    Live on the waiting with its clock, timer and dumps as actions, and
--                    Live/Refinement on two of these
--   Common           ts/src/common.ts; Cells, Peers, LocalServices and Stopping
--   Local            ts/src/local/conductor.ts: Output reads what `hc` prints, Conductor is the class,
--                    Apps its app interfaces and installations; Lifecycle and Signing prove their
--                    properties. ts/src/local/scenario.ts: Scenario is the class and `runScenario`,
--                    Down, Shutdown and Cleanup prove what is left of it, Soundness what always holds of it;
--                    Overlap is `ensureLocalServices` with calls that overlap
--   Logging          ts/src/logger.ts and ts/src/env.ts
--   Examples         runs of the theorems on concrete inputs
--
-- State and operations. An async function is an action: a function from a state to a result and a
-- state, where the result is a value or an exception, and what was written before an exception stays
-- written. The clients of a process share the counter of request ids, as the module's variable does;
-- promises are a list, and a client's register of requests maps ids to positions in that list.
-- `Promise.all` is modelled on the schedule that runs the started functions one after the other; all
-- of them run, also when one throws. A promise that never settles is the exception `never`, behind
-- which nothing is reached, a `finally` included. Objects that are shared, the conductors of a local
-- scenario and the clients of a TryCP scenario, are named by their places in a store.
--
-- Composition. A conductor, a scenario and the waiting for DHTs take what they use as a record of
-- operations, so that they run on the model of the client as well: Trycp/Linked fills the record with
-- the client's `call`, the frames, a server that reads them, and the listener of its replies. What else
-- happens to the clients of the process between a call and its reply is an argument.
--
-- Bounds and fuel. A number in a message is a natural, which request ids, ports and counts are; a
-- response whose id is no number counts as one with an unknown id. The clock of the waiting loop is
-- in nanoseconds. The loop runs on fuel, its number of rounds: with a timeout, one round more than the
-- round in which the clock is past it is enough, and if no timer rings early, one round more than the
-- timeout. All other loops are structural.
--
-- Parameters. `@msgpack/msgpack` is a codec, of which some theorems assume that decoding undoes
-- encoding. msgpack decodes an `undefined` as `null`: such a codec encodes no value with an `undefined`
-- in it, so that these theorems cover all messages of a server, which has no `undefined`. Decoding
-- takes byte arrays and arrays of numbers, and what it makes of other values is part of the
-- parameter. `lodash`, base64 encodings, `uuid`, `get-port`, `JSON.parse`, `new URL`, the signing of
-- zome calls, child processes and websockets are arguments of what uses them. So are the types that
-- TypeScript declares for values from a server, where a TryCP scenario reads an app's info or a port.
--
-- Not modelled: that `call` overwrites the message in its caller's request; what `winston` writes, and what handlers of signals do. The timeout of a zome call is
-- dropped by the TryCP conductor, and so in the model. The servers that `stopAllTryCpServers` stops are
-- taken to be different ones. Calls of a scenario's methods that overlap in time are modelled for
-- `ensureLocalServices` alone, but for `Promise.all` as above.
pub mod Prelude
pub mod Js
pub mod Types
pub mod Common
pub mod Trycp
pub mod Dht
pub mod Local
pub mod Examples
pub mod Logging

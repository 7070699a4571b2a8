-- ===== src/Lib.antt =====
-- A model of fastapi_ws_rpc, a JSON-RPC 2.0 library over WebSockets, and what holds of it.
--
-- The program's parts. A channel (fastapi_ws_rpc/rpc_channel.py) joins two peers. It owns a promise
-- manager (fastapi_ws_rpc/_internal/promise_manager.py), which holds the pending calls, a method
-- invoker (fastapi_ws_rpc/_internal/method_invoker.py), which checks and calls local methods, and a
-- protocol handler (fastapi_ws_rpc/_internal/protocol_handler.py), which routes incoming messages to
-- both and sends replies through the channel. A server endpoint
-- (fastapi_ws_rpc/websocket_rpc_endpoint.py, fastapi_ws_rpc/connection_manager.py) feeds the channel
-- from a socket; so does a client (fastapi_ws_rpc/websocket_rpc_client.py), which also connects,
-- reconnects and closes, and pings through a keepalive
-- (fastapi_ws_rpc/_internal/rpc_keepalive.py). The configuration is
-- fastapi_ws_rpc/config.py.
--
-- The files.
--   Base: the names that the library uses, Booleans, lists measured by native numbers, signed
--   integers, and dictionaries in insertion order.
--   Values: JSON values, request ids, exceptions and outcomes; Values/Decimal is `str` of an integer.
--   Schemas: the message models and the id validator (fastapi_ws_rpc/schemas.py).
--   Exec: coroutines as actions on a state. An action that raises keeps what was written.
--   Pydantic: validation and dumping of the models as an interface with its documented laws;
--   Pydantic/Strict is a concrete instance, Pydantic/Strict/Lawful its laws.
--   PromiseManager: `RpcPromiseManager`. `create_promise`, `store_response`, `clear_saved_call` and
--   `close` are the methods of those names; `wait_for_response` is split at `asyncio.wait` into
--   `is_ready` and `resume`. CleanupTask has the cleanup of expired calls and its task, Operating any
--   operations in sequence. Its proofs are in Invariant, Delivery, Cooldown, Expiry and Closing, and
--   Calls compares it with an abstract table of calls.
--   MethodInvoker: `RpcMethodInvoker`, with Validation and Positional.
--   ProtocolHandler: `RpcProtocolHandler`, with Requests, Replies, Messages and
--   Invoking, which compares it with `RpcMethodInvoker.invoke`.
--   SendQueue: the send semaphore of `RpcChannel.send_raw`, with interleaved sends in Bounds.
--   Protocols: the interfaces `SocketProtocol` and `RpcCallable`, with what the docstrings promise
--   (fastapi_ws_rpc/_internal/protocols.py).
--   Channel: `RpcChannel`, with Calling, Lifecycle and RoundTrip; Channel/Callbacks has its lists of
--   callbacks, Channel/IdSync the id of the other side, and Channel/Callable makes it an
--   `RpcCallable`, with its Contract.
--   Config: the records and their validation, with Presets and Validity.
--   Keepalive: `RpcKeepalive`, with Streaks.
--   Endpoint: `ConnectionManager` and `WebSocketRpcEndpoint.main_loop`, with Serving and IdleTimeout;
--   Endpoint/Starting is `main_loop` as a whole.
--   Client: `WebSocketRpcClient` (fastapi_ws_rpc/websocket_rpc_client.py). The record `Client` holds its
--   attributes and the tasks that were created. Its operations are in children: Shutting (`close`,
--   `cancel_tasks`, `_cleanup_partial_init`), Negotiating and Connecting (`__connect__`), Reconnecting
--   (`_attempt_reconnection`), Reading (`reader`), Calling (`call`, `wait_on_reader`), Entering
--   (`__aenter__`, `__aexit__`), Text (tests on error texts) and Operating (any operations in
--   sequence). The other children hold proofs, named for what they are about;
--   RoundTrip puts a client and an endpoint together.
--   Caller: `RpcCaller` and `RpcProxy` (fastapi_ws_rpc/_internal/caller.py).
--   Methods: `RpcMethodsBase` and `RpcUtilityMethods` (fastapi_ws_rpc/rpc_methods.py) in a store of
--   objects, with Isolation; they use a channel as an `RpcCallable`, with CallingBack.
--   Retry: `RpcRetryManager` (fastapi_ws_rpc/_internal/rpc_retry.py), with Attempts; Retry/Loop is a
--   loop as tenacity is documented to run.
--   SimpleWebSocket: `JsonSerializingWebSocket` (fastapi_ws_rpc/simplewebsocket.py) over any socket;
--   SimpleWebSocket/Frames is the socket of an endpoint, with `WebSocketSimplifier`, and
--   SimpleWebSocket/Wire a connection between two sockets.
--   Logger: `LoggingConfig` and `get_logger` (fastapi_ws_rpc/logger.py), with Modes.
--   Utils: tokens, random times and the spelling of names (fastapi_ws_rpc/utils.py), with Tokens and
--   Spelling.
-- Each Examples module holds concrete data, tests and instances of the theorems.
--
-- Conventions. Times are naturals or integers in milliseconds, and each reading of the clock is an
-- argument. A methods object is a function from names to what `getattr` finds; what a method does is
-- an argument. Python's integers are unbounded, and so are those of the model. Loops run over the
-- list of what the outside does in each round, so they end without fuel; the one bound is that of
-- the digits of an integer in Values/Decimal, where the number itself is enough. The interleaving of
-- tasks is explicit where the source awaits: as operations in any order on the promise manager, as
-- steps of the send queue, and as endings of a channel, where a `close` can wait for its watchdog.
-- Of the floats of the source only the overflow of a delay is modelled.
--
-- Tasks of the client run between its operations; `close` is also split at the wait for its socket,
-- where the reader can run. The attempts of a reconnection are bounded by the configuration and the
-- pings of a connection by five, so those loops run on that number and need no other fuel.
--
-- Not modelled: `register_route` and the `on_connect` of the endpoint, which `main_loop` does not use;
-- `get_process_details`, which reads the process; `gen_cookie_id` and `gen_uid`, which return random
-- text; log messages; the interfaces `RpcPromise` and `MethodInvokable`, which nothing uses; properties
-- that return an attribute; package exports. pydantic, websockets, tenacity, FastAPI, uuid, json and
-- asyncio are not part of the repository: they appear as arguments.
pub mod Base
pub mod Values
pub mod Schemas
pub mod PromiseManager
pub mod MethodInvoker
pub mod Exec
pub mod Pydantic
pub mod ProtocolHandler
pub mod SendQueue
pub mod Protocols
pub mod Channel
pub mod Config
pub mod Keepalive
pub mod Endpoint
pub mod SimpleWebSocket
pub mod Logger
pub mod Utils
pub mod Caller
pub mod Methods
pub mod Retry
pub mod Client

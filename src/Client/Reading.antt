-- ===== src/Client/Reading.antt =====
-- `reader` of fastapi_ws_rpc/websocket_rpc_client.py, round by round, and the use of a client that is
-- connected. The socket's `recv` is given by how each wait for it ends.
use fastapi_ws_rpc.Base.{
  ℕ, String, Bool, true, false, ◌||◌, Option, none, some, nat_eq, if◌then◌else◌,
}
use fastapi_ws_rpc.Base.Int.{ℤ, leb_ℤ}
use fastapi_ws_rpc.Values.{
  Json, ExnClass, Exn, Outcome, ok, raised, value_error, validation_error, type_error,
  runtime_error, key_error, timeout_error, cancelled_error, connection_closed,
}
use fastapi_ws_rpc.Config.{RpcConnectionConfig}
use fastapi_ws_rpc.ProtocolHandler.{Handler}
use fastapi_ws_rpc.Channel.{Channel, on_message}
use fastapi_ws_rpc.Client.{
  Reader, reading, finished, failed, Job, close_job, reconnect_job, Client, schedule, end_socket,
}

abbrev pub ws_close_code_normal : ℕ
ws_close_code_normal = 1000

abbrev pub ws_close_code_going_away : ℕ
ws_close_code_going_away = 1001

abbrev pub ws_close_code_protocol_error : ℕ
ws_close_code_protocol_error = 1002

abbrev pub ws_close_code_unsupported_data : ℕ
ws_close_code_unsupported_data = 1003

abbrev pub ws_close_code_abnormal_closure : ℕ
ws_close_code_abnormal_closure = 1006

abbrev pub ws_close_code_invalid_data : ℕ
ws_close_code_invalid_data = 1007

abbrev pub ws_close_code_policy_violation : ℕ
ws_close_code_policy_violation = 1008

abbrev pub ws_close_code_internal_error : ℕ
ws_close_code_internal_error = 1011

abbrev pub ws_close_code_service_restart : ℕ
ws_close_code_service_restart = 1012

-- `min(timeouts) if timeouts else None`
unfoldable pub effective_timeout : RpcConnectionConfig → Option ℤ
effective_timeout c = elim c.message_receive_timeout [
  | none ↦ c.idle_timeout
  | some m ↦ elim c.idle_timeout [ none ↦ some m | some i ↦ some (if leb_ℤ m i then m else i) ]
]

-- The close frame that was received.
pub record Close : Type 0 where
  pub code : ℕ
  pub reason : String

-- How a wait for a message ends: with a message, or by an exception, that of its timeout included.
pub data Received : Type 0 where
  message : Json → Received
  refused : Exn → Received

-- `self._close_code in non_retryable_codes`
unfoldable pub is_non_retryable : Option ℕ → Bool
is_non_retryable none = false
is_non_retryable (some code) =
    nat_eq code ws_close_code_protocol_error
    || nat_eq code ws_close_code_unsupported_data
    || nat_eq code ws_close_code_invalid_data
    || nat_eq code ws_close_code_policy_violation
    || nat_eq code ws_close_code_internal_error

-- What the end of the connection starts.
unfoldable pub job_after : Option ℕ → Bool → Job
unfolding is_non_retryable
job_after close_code auto_reconnect =
    if is_non_retryable close_code
    then close_job
    else if auto_reconnect
    then reconnect_job
    else close_job

-- The code and the reason stay as they were where no frame was received.
abbrev pub set_close : Option Close → Client → Client
set_close none c = c
set_close (some f) c = record c { close_code = some f.code; close_reason = some f.reason }

-- `except ConnectionClosed`
unfoldable pub connection_lost : Option Close → Client → Client
unfolding job_after
connection_lost frame c =
    let c' = set_close frame c in
    schedule (job_after c'.close_code c'.config.connection.auto_reconnect)
      (record c' { connection_closed = true; reader = finished })

-- The classes of the last clause, after which the exception is raised again.
abbrev pub is_fatal : ExnClass → Bool
is_fatal validation_error = true
is_fatal value_error = true
is_fatal type_error = true
is_fatal runtime_error = true
is_fatal key_error = true
is_fatal _ = false

abbrev pub is_reading : Reader → Bool
is_reading reading = true
is_reading _ = false

-- The attribute `rcvd` of an exception, the close frame that it reports, is an argument.
module _ (rcvd : Exn → Option Close) where
  -- How an exception in the loop ends the reader; the inner clause is that of `TimeoutError`.
  unfoldable pub on_exception : Exn → Client → Client
  unfolding connection_lost
  on_exception e c = elim e.cls [
    | timeout_error ↦ schedule close_job (record c { reader = finished })
    | cancelled_error ↦ record c { connection_closed = true; reader = finished }
    | connection_closed ↦ connection_lost (rcvd e) (end_socket c)
    | _ ↦
        if is_fatal e.cls
        then record c { connection_closed = true; reader = failed e }
        else record c { reader = failed e }
  ]

  -- The end of `on_message`.
  unfoldable pub after_message : Outcome (Unit {0}) × Channel → Client → Client
  unfolding on_exception
  after_message (ok u, ch) c = record c { channel = some ch }
  after_message (raised e, ch) c = on_exception e (record c { channel = some ch })

  -- The rest of a round, by how the wait for a message ended.
  unfoldable pub after_recv : Handler Channel → Received → Client → Client
  unfolding on_exception after_message on_message
  after_recv h (message m) c = elim c.channel [
    | none ↦ c
    | some ch ↦ after_message (on_message h m ch) c
  ]
  after_recv h (refused e) c = on_exception e c

  -- A round of the loop; a reader that has ended has no more.
  unfoldable pub reader_round : Handler Channel → Received → Client → Client
  unfolding after_recv
  reader_round h r c = if is_reading c.reader then after_recv h r c else c

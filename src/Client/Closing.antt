-- ===== src/Client/Closing.antt =====
-- What `close` leaves behind, what keeps it from that, and that it happens once.
use fastapi_ws_rpc.Base.{◌≡◌, refl, ap, ◌∙◌, Bool, true, false, Option, none, some, arith}
use fastapi_ws_rpc.Values.{is_ok, is_exception, Exn, ok, raised}
use fastapi_ws_rpc.PromiseManager
use fastapi_ws_rpc.Channel
use fastapi_ws_rpc.Channel.{Channel, is_closed, on_disconnect}
use fastapi_ws_rpc.Keepalive
use fastapi_ws_rpc.Keepalive.{
  Task, crashed, RpcKeepalive, is_running, Round, ping, is_failure, count_ping, check_failures,
}
use fastapi_ws_rpc.Client.{
  Socket, Reader, no_reader, failed, Client, Env, outcome_of, is_channel_open, is_connected,
}
use fastapi_ws_rpc.Client.Shutting.{
  suppress, is_suppressed, is_logged, close_socket, close_channel, cancel_reader, cancel_tasks,
  begin_close, finish_close, close,
}

-- A reader that an exception ended, and a keepalive that one did.
abbrev pub has_failed : Reader → Bool
has_failed (failed e) = true
has_failed _ = false

abbrev pub is_crashed : Task → Bool
is_crashed (crashed e) = true
is_crashed _ = false

abbrev pub has_crashed : Option RpcKeepalive → Bool
has_crashed none = false
has_crashed (some k) = is_crashed k.task

abbrev pub is_stopped : Option RpcKeepalive → Bool
is_stopped none = true
is_stopped (some k) = elim k.task [ Task.no_task ↦ true | _ ↦ false ]

abbrev pub has_socket_ended : Option Socket → Bool
has_socket_ended none = true
has_socket_ended (some s) = s.has_ended

-- Nothing is left of the connection.
pub record IsShut (env : Env) (c : Client) : Type 0 where
  pub closing : c.closing ≡ true
  pub signalled : c.connection_closed ≡ true
  pub socket : has_socket_ended c.ws ≡ true
  pub channel : is_channel_open c.channel ≡ false
  pub reader : c.reader ≡ no_reader
  pub keepalive : is_stopped c.keepalive ≡ true

cancel_tasks-shut :
    (c : Client)
    → has_failed c.reader ≡ false
    → has_crashed c.keepalive ≡ false
    → let (r, c') = cancel_tasks c in
      (r ≡ ok tt)
      × (c'.reader ≡ no_reader)
      × (is_stopped c'.keepalive ≡ true)
      × (c'.ws ≡ c.ws)
      × (c'.channel ≡ c.channel)
      × (c'.closing ≡ c.closing)
      × (c.connection_closed ≡ true → c'.connection_closed ≡ true)
unfolding cancel_tasks cancel_reader Keepalive.stop
cancel_tasks-shut c quiet calm = ground arith

-- What may go wrong outside without keeping `close` from its end.
pub record Tolerates (env : Env) : Type 0 where
  pub socket : is_ok (suppress is_suppressed (outcome_of env.ws_close)) ≡ true
  pub callbacks : is_ok (suppress is_logged (outcome_of env.callbacks)) ≡ true

close_socket-ok :
    (env : Env) (s : Option Socket) → Tolerates env → close_socket env is_suppressed s ≡ ok tt
close_socket-ok env none t = refl
close_socket-ok env (some s) t = ground (arith, t.socket)

close_channel-shut :
    (env : Env) (c : Client)
    → Tolerates env
    → let (r, c') = close_channel env c in
      (r ≡ ok tt) × (c' ≡ record c { channel = c'.channel }) × (is_channel_open c'.channel ≡ false)
unfolding close_channel on_disconnect Channel.close Channel.close_rest PromiseManager.close
close_channel-shut env c t = ground (arith, t.callbacks)

-- The two parts of `close` with nothing in their way.
finish_close-shut :
    (env : Env) (c : Client)
    → Tolerates env
    → has_failed c.reader ≡ false
    → has_crashed c.keepalive ≡ false
    → let (r, c') = finish_close env c in
      (r ≡ ok tt)
      × (c'.reader ≡ no_reader)
      × (is_stopped c'.keepalive ≡ true)
      × (c'.ws ≡ c.ws)
      × (is_channel_open c'.channel ≡ false)
      × (c'.closing ≡ c.closing)
      × (c.connection_closed ≡ true → c'.connection_closed ≡ true)
unfolding finish_close
finish_close-shut env c t quiet calm =
    let c' = (close_channel env c).1 in
    let shut = close_channel-shut env c t in
    ground (
      arith,
      close_socket-ok env c.ws t,
      shut,
      cancel_tasks-shut c' (ap (λ (d : Client). has_failed d.reader) shut.1 ∙ quiet)
          (ap (λ (d : Client). has_crashed d.keepalive) shut.1 ∙ calm),
    )

cancel_tasks-closing : (c : Client) → (cancel_tasks c).1.closing ≡ c.closing
unfolding cancel_tasks cancel_reader Keepalive.stop
cancel_tasks-closing c = ground arith

close_channel-closing : (env : Env) (c : Client) → (close_channel env c).1.closing ≡ c.closing
unfolding close_channel
close_channel-closing env c = ground arith

finish_close-closing : (env : Env) (c : Client) → (finish_close env c).1.closing ≡ c.closing
unfolding finish_close
finish_close-closing env c =
    ground (arith, close_channel-closing env c, cancel_tasks-closing (close_channel env c).1)

pub close-closing : (env : Env) (c : Client) → (close env c).1.closing ≡ true
unfolding close begin_close
close-closing env c = ground (arith, finish_close-closing env (begin_close env c))

-- A second close does nothing.
pub close_again : (env : Env) (c : Client) → let c' = (close env c).1 in close env c' ≡ (ok tt, c')
unfolding close
close_again env c = ground (arith, close-closing env c)

-- The close of a client that is not closing, whose reader has not failed and whose keepalive has
-- not crashed, and where the socket and the callbacks raise only what close expects, returns with
-- the flag and the signal set, the socket ended, the channel closed, no reader, its keepalive
-- stopped and the client not connected, and a second close does nothing.
pub close-IsShut :
    (env : Env) (c : Client)
    → c.closing ≡ false
    → Tolerates env
    → has_failed c.reader ≡ false
    → has_crashed c.keepalive ≡ false
    → let (r, c') = close env c in
      (r ≡ ok tt) × IsShut env c' × (is_connected env c' ≡ false) × (close env c' ≡ (ok tt, c'))
unfolding close finish_close begin_close is_connected
close-IsShut env c fresh t quiet calm =
    ground (arith, finish_close-shut env (begin_close env c) t, close_again env c)

-- A reader that failed raises its exception again in `close`, and stays.
pub close_failed_reader :
    (env : Env) (c : Client) (e : Exn)
    → c.closing ≡ false
    → Tolerates env
    → has_crashed c.keepalive ≡ false
    → c.reader ≡ failed e
    → let (r, c') = close env c in
      (r ≡ raised e)
      × (c'.reader ≡ failed e)
      × (is_channel_open c'.channel ≡ false)
      × (close env c' ≡ (ok tt, c'))
unfolding close finish_close begin_close cancel_tasks cancel_reader Keepalive.stop
close_failed_reader env c e fresh t calm broken = ground (
  arith,
  close_socket-ok env (begin_close env c).ws t,
  close_channel-shut env (begin_close env c) t,
  close_again env c,
)

crashed_round :
    (k : RpcKeepalive) (r : Round) (e : Exn)
    → is_running k ≡ true
    → ping k r ≡ raised e
    → is_failure e.cls ≡ false
    → is_exception e.cls ≡ true
    → (Keepalive.keepalive_round r k).task ≡ crashed e
unfolding Keepalive.keepalive_round count_ping check_failures is_running
crashed_round k r e runs fails other caught = ground (arith, runs, fails, other, caught)

close_crashed :
    (env : Env) (c : Client) (k : RpcKeepalive) (e : Exn)
    → c.closing ≡ false
    → Tolerates env
    → c.keepalive ≡ some k
    → k.task ≡ crashed e
    → let (r, c') = close env c in
      (r ≡ raised e)
      × (c'.reader ≡ c.reader)
      × (c'.keepalive ≡ some k)
      × (close env c' ≡ (ok tt, c'))
unfolding close finish_close begin_close cancel_tasks cancel_reader Keepalive.stop
close_crashed env c k e fresh t has_k broken = ground (
  arith,
  close_socket-ok env (begin_close env c).ws t,
  close_channel-shut env (begin_close env c) t,
  close_again env c,
)

-- If a round of the running keepalive ends it by an Exception that it does not count as a failure,
-- the close of the client, where nothing else is in its way, raises that exception and leaves the
-- reader as it was, and a second close does nothing.
pub close_crashed_keepalive :
    (env : Env) (c : Client) (k : RpcKeepalive) (r : Round) (e : Exn)
    → c.closing ≡ false
    → Tolerates env
    → is_running k ≡ true
    → ping k r ≡ raised e
    → is_failure e.cls ≡ false
    → is_exception e.cls ≡ true
    → c.keepalive ≡ some (Keepalive.keepalive_round r k)
    → let (o, c') = close env c in
      (o ≡ raised e)
      × (c'.reader ≡ c.reader)
      × (c'.keepalive ≡ some (Keepalive.keepalive_round r k))
      × (close env c' ≡ (ok tt, c'))
close_crashed_keepalive env c k r e fresh t runs fails other caught has_k =
    close_crashed env c (Keepalive.keepalive_round r k) e fresh t has_k
      (crashed_round k r e runs fails other caught)

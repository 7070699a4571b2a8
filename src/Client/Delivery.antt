-- ===== src/Client/Delivery.antt =====
-- A response that the reader of a client receives.
use fastapi_ws_rpc.Base.{
  ◌+◌, ◌≡◌, refl, ap, String, Bool, true, false, Option, some, List, arith, is_some, if◌then◌else◌,
}
use fastapi_ws_rpc.Base.Dict.{Dict, lookup}
use fastapi_ws_rpc.Values.{Json, fields, RpcId, ExnClass, Exn, ok, raised, is_exception}
use fastapi_ws_rpc.Schemas.{call_id_of}
use fastapi_ws_rpc.Exec.{handled}
use fastapi_ws_rpc.Pydantic.{Pydantic, Laws, optional}
use fastapi_ws_rpc.MethodInvoker.{Methods, Call}
use fastapi_ws_rpc.ProtocolHandler.{Handler, result_response}
use fastapi_ws_rpc.ProtocolHandler.Messages.{result_stored}
use fastapi_ws_rpc.PromiseManager.{RpcPromise, store_response, is_ready}
use fastapi_ws_rpc.PromiseManager.Invariant.{IsValid}
use fastapi_ws_rpc.PromiseManager.Delivery.{store-resume}
use fastapi_ws_rpc.Channel.{Channel, finish_call, handler, on_message}
use fastapi_ws_rpc.Client.{reading, Client}
use fastapi_ws_rpc.Client.Reading.{Close, message, after_message, after_recv, reader_round}

module _ (py : Pydantic) (laws : Laws py) (transmit : List (Dict Json) → Dict Json → Option Exn)
    (methods : Methods) (call : Call Channel) (render : Json → String)
    (type_name : ExnClass → String) (debug : Bool) where
  abbrev pub own_handler : Handler Channel
  own_handler = handler py transmit methods call render type_name debug

  on_message-stores :
      (ch : Channel) (id : RpcId) (w : Json)
      → is_some (optional w) ≡ true
      → let r = result_response id w in
        on_message own_handler (Json.obj (fields (py.dump_response r))) ch
        ≡ (ok tt, record ch { promises = (store_response r ch.promises).1 })
  unfolding on_message handler
  on_message-stores ch id w there =
      ap
        (handled (λ e c.
          if is_exception e.cls
          then (raised e, record c { error_runs = c.error_runs + 1 })
          else (raised e, c)))
        (result_stored own_handler laws id w ch there)

  -- A response with a result that is not None, which arrives for a pending call of a valid
  -- channel, is stored by the round of the reading client, which reads on; the waiter is ready and
  -- returns the response.
  pub reader_round_delivers :
      (rcvd : Exn → Option Close) (c : Client) (ch : Channel) (p : RpcPromise) (id : RpcId)
      (w : Json)
      → c.reader ≡ reading
      → c.channel ≡ some ch
      → IsValid ch.promises
      → is_some (optional w) ≡ true
      → lookup (call_id_of (some id)) ch.promises.requests ≡ some p
      → let r = result_response id w in
        let ch' = record ch { promises = (store_response r ch.promises).1 } in
        (reader_round rcvd own_handler (message (Json.obj (fields (py.dump_response r)))) c
          ≡ record c { channel = some ch' })
        × (is_ready false p ch'.promises ≡ true)
        × ((finish_call py transmit p ch').0 ≡ ok r)
  unfolding reader_round after_recv after_message finish_call
  reader_round_delivers rcvd c ch p id w runs has_channel v there pending =
      let r = result_response id w in
      let stored = store-resume ch.promises p r id v refl pending in
      (ground (arith, runs, has_channel, on_message-stores ch id w there), stored.1, stored.2)

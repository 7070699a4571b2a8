-- ===== src/Client/Options.antt =====
-- What the client passes to `websockets.connect`, and the connection without compression.
use fastapi_ws_rpc.Base.{
  ◌≡◌, refl, String, Bool, true, false, ◌&&◌, ◌||◌, Option, none, some, List, [], ◌∷◌, ◌==◌, arith,
  eq_iff, is_none, map, ap, ◌∙◌, if◌then◌else◌,
}
use fastapi_ws_rpc.Base.Int.{ℤ, pos}
use fastapi_ws_rpc.Base.Dict.{Dict, lookup, insert, lookup-insert}
use fastapi_ws_rpc.Values.{Json, items, Exn, is_exception, Outcome, ok, raised}
use fastapi_ws_rpc.Config.{WebSocketRpcClientConfig}
use fastapi_ws_rpc.Client.{Socket, Client, init, set_default}
use fastapi_ws_rpc.Client.Text.{names_compression}
use fastapi_ws_rpc.Client.Negotiating.{
  prepare_connection_kwargs, compression_value, fall_back, establish_websocket, compression_enabled,
  with_subprotocols, with_ping_timeout,
}

-- The names that the client sets by itself.
abbrev pub is_reserved : String → Bool
is_reserved k = k == "max_size" || k == "ping_timeout" || k == "compression" || k == "subprotocols"

lookup-with_subprotocols :
    (k : String) (names : Option (List String)) (d : Dict Json)
    → k == "subprotocols" ≡ false
    → lookup k (with_subprotocols names d) ≡ lookup k d
lookup-with_subprotocols k none d other = refl
lookup-with_subprotocols k (some []) d other = refl
lookup-with_subprotocols k (some (s ∷ ss)) d other = ground (
  arith,
  other,
  eq_iff k "subprotocols",
  eq_iff "subprotocols" k,
  lookup-insert "subprotocols" k (Json.arr (items (map Json.str (s ∷ ss)))) d,
)

lookup-with_ping_timeout :
    (k : String) (t : Option ℤ) (d : Dict Json)
    → k == "ping_timeout" ≡ false
    → lookup k (with_ping_timeout t d) ≡ lookup k d
lookup-with_ping_timeout k none d other = refl
lookup-with_ping_timeout k (some t) d other = ground (
  arith,
  other,
  eq_iff k "ping_timeout",
  eq_iff "ping_timeout" k,
  lookup-insert "ping_timeout" k (Json.int t) d,
)

lookup-set_default :
    (k j : String) (v : Json) (d : Dict Json)
    → lookup k (set_default j v d) ≡ (if k == j && is_none (lookup k d) then some v else lookup k d)
lookup-set_default k j v d = ground (arith, eq_iff k j, eq_iff j k, lookup-insert j k v d)

prepare-lookup :
    (c : Client) (k : String)
    → lookup k (prepare_connection_kwargs c) ≡ (
        if k == "max_size"
        then some (Json.int c.config.backpressure.max_message_size)
        else lookup k (
            with_ping_timeout c.config.websocket.ping_timeout (
              insert "compression"
                (compression_value c.config.websocket.compression)
                (with_subprotocols c.config.websocket.subprotocols c.connect_kwargs))))
unfolding prepare_connection_kwargs
prepare-lookup c k = ground (
  arith,
  eq_iff k "max_size",
  eq_iff "max_size" k,
  lookup-insert "max_size" k (Json.int c.config.backpressure.max_message_size) (
      with_ping_timeout c.config.websocket.ping_timeout (
        insert "compression" (compression_value c.config.websocket.compression)
          (with_subprotocols c.config.websocket.subprotocols c.connect_kwargs))),
)

prepare-compression :
    (c : Client)
    → lookup "compression" (prepare_connection_kwargs c)
      ≡ some (compression_value c.config.websocket.compression)
prepare-compression c =
    let d = with_subprotocols c.config.websocket.subprotocols c.connect_kwargs in
    let v = compression_value c.config.websocket.compression in
    prepare-lookup c "compression"
    ∙ lookup-with_ping_timeout "compression" c.config.websocket.ping_timeout
        (insert "compression" v d) refl
    ∙ lookup-insert "compression" "compression" v d

prepare-other :
    (c : Client) (k : String)
    → is_reserved k ≡ false
    → lookup k (prepare_connection_kwargs c) ≡ lookup k c.connect_kwargs
prepare-other c k free =
    let d = with_subprotocols c.config.websocket.subprotocols c.connect_kwargs in
    let v = compression_value c.config.websocket.compression in
    ground (
      arith,
      free,
      prepare-lookup c k,
      eq_iff k "compression",
      eq_iff "compression" k,
      lookup-insert "compression" k v d,
      lookup-with_ping_timeout k c.config.websocket.ping_timeout (insert "compression" v d)
          (ground (arith, free)),
      lookup-with_subprotocols k c.config.websocket.subprotocols c.connect_kwargs
          (ground (arith, free)),
    )

-- What the constructor keeps.
init-facts :
    (config : WebSocketRpcClientConfig) (c : Client)
    → init config ≡ ok c
    → (c.config ≡ config)
      × (c.connect_kwargs ≡ set_default "open_timeout" (Json.int (pos 30)) config.websocket_kwargs)
unfolding init
init-facts config c new = ground (arith, new)

-- A new client passes its message size limit and its compression, or None, to websockets.connect,
-- and every other option that it does not set by itself as configured, with an opening timeout of
-- 30 seconds if none is.
prepare-init :
    (config : WebSocketRpcClientConfig) (c : Client) (k : String)
    → init config ≡ ok c
    → let kwargs = prepare_connection_kwargs c in
      (lookup "max_size" kwargs ≡ some (Json.int config.backpressure.max_message_size))
      × (lookup "compression" kwargs ≡ some (compression_value config.websocket.compression))
      × (is_reserved k ≡ false
          → lookup k kwargs ≡ (
              if k == "open_timeout" && is_none (lookup k config.websocket_kwargs)
              then some (Json.int (pos 30))
              else lookup k config.websocket_kwargs))
prepare-init config c k new =
    let facts = init-facts config c new in
    (
      prepare-lookup c "max_size"
          ∙ ap (λ (g : WebSocketRpcClientConfig). some (Json.int g.backpressure.max_message_size))
              facts.0,
      prepare-compression c
          ∙ ap (λ (g : WebSocketRpcClientConfig). some (compression_value g.websocket.compression))
              facts.0,
      λ free.
          prepare-other c k free
          ∙ ap (lookup k) facts.1
          ∙ lookup-set_default k "open_timeout" (Json.int (pos 30)) config.websocket_kwargs,
    )

-- A connection with compression that fails is tried once more, without it, exactly if the error names
-- compression.
establish_without_compression :
    (connect : Dict Json → Outcome Socket) (kwargs : Dict Json) (e : Exn)
    → compression_enabled (lookup "compression" kwargs) ≡ true
    → connect kwargs ≡ raised e
    → is_exception e.cls ≡ true
    → establish_websocket connect kwargs
      ≡ (if names_compression e then connect (insert "compression" Json.null kwargs) else raised e)
unfolding establish_websocket fall_back
establish_without_compression connect kwargs e on refused caught =
    ground (arith, on, refused, caught)

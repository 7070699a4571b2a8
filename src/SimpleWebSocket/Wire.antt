-- ===== src/SimpleWebSocket/Wire.antt =====
-- A connection between two JSON sockets that keeps the order of its frames.
use fastapi_ws_rpc.Base.{
  ℕ, zero, suc, ◌≡◌, refl, sym, ap, ◌∙◌, Option, List, [], ◌∷◌, ◌++◌, map, length, ltb, All, arith,
  if◌then◌else◌,
}
use fastapi_ws_rpc.Values.{Json, Outcome, ok, raised, exn, rpc_message_too_large}
use fastapi_ws_rpc.Exec.{Exec, pure, continue-eq-ok, ◌>>◌}
use fastapi_ws_rpc.Protocols.{SocketProtocol}
use fastapi_ws_rpc.SimpleWebSocket.{
  Message, dict, model, Codec, Raw, text, bytes, serialize, recv, size_or_default, json_socket,
  message_size, deserialize,
}
use mathlib.Core.List.{append_assoc, append-nil}

-- What a frame becomes on its way: itself, or the UTF-8 bytes of its text.
pub data Carried (codec : Codec) : Raw → Raw → Type 0 where
  as_sent : (raw : Raw) → Carried codec raw raw
  as_bytes :
      (s : _) (b : List ℕ)
      → codec.decode b ≡ ok s
      → length b ≡ codec.utf8_length s
      → Carried codec (text s) (bytes b)

-- The frames in flight are what was sent and not yet received, in order.
pub record Fifo (S : Type 0) (codec : Codec) (sender receiver : SocketProtocol S Raw Raw)
    (in_flight : S → List Raw) : Type 0 where
  pub queues :
      (raw : Raw) (s t : S)
      → sender.send raw s ≡ (ok tt, t)
      → (raw' : Raw) × Carried codec raw raw' × (in_flight t ≡ in_flight s ++ (raw' ∷ []))
  pub takes :
      (raw : Raw) (rest : List Raw) (s : S)
      → in_flight s ≡ raw ∷ rest
      → (t : S) × (receiver.recv s ≡ (ok raw, t)) × (in_flight t ≡ rest)

-- What a receiver gets of a message: its content, if the UTF-8 size is within the limit.
abbrev pub content : Message → Json
content (dict fs) = Json.obj fs
content (model fs) = Json.obj fs

abbrev pub received : Codec → ℕ → Message → Outcome Json
received codec limit m =
    if ltb limit (codec.utf8_length (serialize codec m))
    then raised (exn rpc_message_too_large "Incoming message size exceeds limit")
    else ok (content m)

module _ {S : Type 0} where
  unfoldable pub send_all : SocketProtocol S Message Json → List Message → Exec S Unit
  send_all socket [] = pure tt
  send_all socket (m ∷ ms) = socket.send m >> send_all socket ms

  -- What so many calls of `recv` give, each after the one before has returned or raised.
  pub recv_each : SocketProtocol S Message Json → ℕ → S → List (Outcome Json) × S
  recv_each socket zero s = ([], s)
  recv_each socket (suc n) s =
      let (r, t) = socket.recv s in let (rs, u) = recv_each socket n t in (r ∷ rs, u)

-- The frames that messages become.
data Frames (codec : Codec) : List Message → List Raw → Type 0 where
  no_frames : Frames codec [] []
  frame :
      {ms : List Message} {raws : List Raw} (m : Message) (raw : Raw)
      → Carried codec (text (serialize codec m)) raw
      → Frames codec ms raws
      → Frames codec (m ∷ ms) (raw ∷ raws)

recv-Carried :
    (codec : Codec) (refused : Outcome Json) (limit : ℕ) {sent raw : Raw} (m : Message)
    → codec.loads (serialize codec m) ≡ ok (content m)
    → sent ≡ text (serialize codec m)
    → Carried codec sent raw
    → recv codec refused limit raw ≡ received codec limit m
unfolding recv message_size deserialize
recv-Carried codec refused limit m back same (as_sent raw) = ground (arith, same, back)
recv-Carried codec refused limit m back same (as_bytes s b decoded size) =
    ground (arith, same, back, decoded, size)

module _ {S : Type 0} (codec : Codec) (refused : Outcome Json) (first second : Option ℕ)
    (sender receiver : SocketProtocol S Raw Raw) (in_flight : S → List Raw)
    (fifo : Fifo S codec sender receiver in_flight) where
  send_all-Frames :
      (ms : List Message) (s t : S)
      → send_all (json_socket codec refused first sender) ms s ≡ (ok tt, t)
      → (raws : List Raw) × Frames codec ms raws × (in_flight t ≡ in_flight s ++ raws)
  unfolding send_all json_socket
  send_all-Frames [] s t sent = ([], no_frames, cc (append-nil (in_flight s)))
  send_all-Frames (m ∷ ms) s t sent =
      let (a, u, now, later) = continue-eq-ok _ (sender.send (text (serialize codec m)) s) sent in
      let (raw, carried, here) = fifo.queues (text (serialize codec m)) s u now in
      let (raws, more, there) = send_all-Frames ms u t later in
      (raw ∷ raws, frame m raw carried more, cc (append_assoc (in_flight s) (raw ∷ []) raws))

  json_recv-Carried :
      (m : Message) (raw : Raw) (s t : S)
      → codec.loads (serialize codec m) ≡ ok (content m)
      → Carried codec (text (serialize codec m)) raw
      → receiver.recv s ≡ (ok raw, t)
      → (json_socket codec refused second receiver).recv s
        ≡ (received codec (size_or_default second) m, t)
  unfolding json_socket
  json_recv-Carried m raw s t back carried took = rw took (
      ap (λ (r : Outcome Json). (r, t))
        (recv-Carried codec refused (size_or_default second) m back refl carried))

  recv_each-Frames :
      (ms : List Message) (raws rest : List Raw) (s : S)
      → All (λ m. codec.loads (serialize codec m) ≡ ok (content m)) ms
      → Frames codec ms raws
      → in_flight s ≡ raws ++ rest
      → (t : S) × (recv_each (json_socket codec refused second receiver) (length ms) s
          ≡ (map (received codec (size_or_default second)) ms, t))
        × (in_flight t ≡ rest)
  unfolding recv_each
  recv_each-Frames [] raws rest s back no_frames now = (s, refl, now)
  recv_each-Frames (m ∷ ms) raws rest s back (frame {raws = others} _ raw carried more) now =
      let (t, took, left) = fifo.takes raw (others ++ rest) s now in
      let (u, later, done) = recv_each-Frames ms others rest t back.1 more left in
      (u, rw (json_recv-Carried m raw s t back.0 carried took) (rw later), done)

  -- If a connection keeps the order of its frames, as text or as the UTF-8 bytes of the text, and
  -- was empty, and the decoder reads each of the messages back, then what was sent through one
  -- JSON socket is received through the other in order: each message as its content, or refused
  -- with RpcMessageTooLargeError if its UTF-8 size is above the limit, without harm to those that
  -- follow, and the connection is empty again.
  pub send_all-recv_each :
      (ms : List Message) (s t : S)
      → All (λ m. codec.loads (serialize codec m) ≡ ok (content m)) ms
      → in_flight s ≡ []
      → send_all (json_socket codec refused first sender) ms s ≡ (ok tt, t)
      → (u : S) × (recv_each (json_socket codec refused second receiver) (length ms) t
          ≡ (map (received codec (size_or_default second)) ms, u))
        × (in_flight u ≡ [])
  send_all-recv_each ms s t back none_before sent =
      let (raws, frames, here) = send_all-Frames ms s t sent in
      recv_each-Frames ms raws [] t back frames
        (here ∙ ap (λ (old : List Raw). old ++ raws) none_before ∙ sym (append-nil raws))

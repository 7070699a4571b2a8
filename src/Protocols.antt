-- ===== src/Protocols.antt =====
-- fastapi_ws_rpc/_internal/protocols.py: the interfaces `SocketProtocol` and `RpcCallable`. Their
-- methods act on a state, which an implementation chooses.
use fastapi_ws_rpc.Base.{ℕ, ◌≡◌, String, Bool, false, Option, some, ◌==◌}
use fastapi_ws_rpc.Values.{is_ok, Fields, Exn, exn, Outcome, ok, raised, key_error, value_error}
use fastapi_ws_rpc.Exec.{Exec}
use fastapi_ws_rpc.Schemas.{JsonRpcResponse}

-- A socket, with the messages that it sends and those that it receives.
pub record SocketProtocol (S Sent Received : Type 0) : Type 0 where
  pub send : Sent → Exec S Unit
  pub recv : Exec S Received
  pub close : ℕ → Exec S Unit
  -- The property `closed`, where the object has one.
  pub closed : Option (S → Bool)

-- What makes calls. `call` is modelled up to its wait: the promise, and how long it waits.
pub record RpcCallable (S Promise : Type 0) : Type 0 where
  pub id : String
  pub async_call : String → Option Fields → Option String → Exec S Promise
  pub call : String → Option Fields → Option ℕ → Exec S (Promise × Option ℕ)
  pub notify : String → Option Fields → Exec S Unit
  pub get_saved_response : String → S → Outcome JsonRpcResponse
  pub clear_saved_call : String → S → S

-- What the docstrings of `RpcCallable` say of saved responses and of call ids, in valid states;
-- `later` is the same object at another time.
pub record Laws {S Promise : Type 0} (rpc later : RpcCallable S Promise) (IsValid : S → Type 0)
    : Type 0 where
  -- `KeyError` if no response is saved
  pub cleared :
      (k : String) (s : S)
      → rpc.get_saved_response k (rpc.clear_saved_call k s) ≡ raised (exn key_error k)
  pub others_kept :
      (j k : String) (s : S)
      → (k == j) ≡ false
      → rpc.get_saved_response j (rpc.clear_saved_call k s) ≡ rpc.get_saved_response j s
  -- `ValueError` if the call id is already in use
  pub in_use :
      (name other : String) (args more : Option Fields) (k : String) (p : Promise) (s t : S)
      → IsValid s
      → rpc.async_call name args (some k) s ≡ (ok p, t)
      → (e : Exn) × ((rpc.async_call other more (some k) t).0 ≡ raised e) × (e.cls ≡ value_error)
  -- and one that is given stays in use while its call is pending, however late that is
  pub still_in_use :
      (name other : String) (args more : Option Fields) (k : String) (p : Promise) (s t : S)
      → (k == "") ≡ false
      → rpc.async_call name args (some k) s ≡ (ok p, t)
      → is_ok (later.async_call other more (some k) t).0 ≡ false

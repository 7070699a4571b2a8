-- ===== src/Caller.antt =====
-- fastapi_ws_rpc/_internal/caller.py: `RpcCaller` and `RpcProxy`. Python looks an attribute of the
-- caller up by `__getattribute__`, which makes a proxy or falls back on the object.
mod Examples
use fastapi_ws_rpc.Base.{
  ℕ, ◌≡◌, refl, String, Bool, true, false, not, ◌&&◌, ◌||◌, Option, none, some, List, arith,
  starts_with, if◌then◌else◌,
}
use fastapi_ws_rpc.Base.Dict.{Dict}
use fastapi_ws_rpc.Values.{Json, Fields, Exn}
use fastapi_ws_rpc.Exec.{Exec}
use fastapi_ws_rpc.Pydantic.{Pydantic}
use fastapi_ws_rpc.PromiseManager.{RpcPromise}
use fastapi_ws_rpc.MethodInvoker.{
  is_in, exposed_built_in_methods, Signature, Methods, method, is_protected, validate_method,
}
use fastapi_ws_rpc.Channel.{Channel, async_call}

-- What an attribute of the caller is: a proxy for a remote method, or what the object itself has.
pub data Found (A : Type 0) : Type 0 where
  proxy : String → Found A
  own : Option A → Found A

-- `not name.startswith("_") or name in EXPOSED_BUILT_IN_METHODS`
unfoldable pub is_exposed : String → Bool
is_exposed name = not (starts_with name "_") || is_in name exposed_built_in_methods

-- `__getattribute__`; the object's own attributes are given.
unfoldable pub get_attribute : {A : Type 0} → (String → Option A) → String → Found A
unfolding is_exposed
get_attribute attributes name = if is_exposed name then proxy name else own (attributes name)

-- The call of a proxy, up to the wait of `channel.call`.
unfoldable pub call_proxy :
    Pydantic
    → (List (Dict Json) → Dict Json → Option Exn)
    → ℕ
    → String
    → String
    → Fields
    → Exec Channel RpcPromise
unfolding async_call
call_proxy py transmit now uid method_name kwargs =
    async_call py transmit true now uid method_name kwargs none

-- For a name under which the other side has a method, the caller makes a proxy exactly if the
-- method invoker there finds the method valid, and otherwise gives its own attribute.
pub exposed_accepted :
    {A : Type 0} (attributes : String → Option A) (methods : Methods) (name : String)
    (s : Signature)
    → methods name ≡ some (method s)
    → get_attribute attributes name
      ≡ (if (validate_method methods name).0 then proxy name else own (attributes name))
unfolding get_attribute is_exposed validate_method is_protected
exposed_accepted attributes methods name s found = ground (arith, found)

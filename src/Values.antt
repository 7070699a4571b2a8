-- ===== src/Values.antt =====
-- The Python values that the library passes around: JSON values, request ids, and the exceptions
-- of fastapi_ws_rpc/exceptions.py with the built-in and third-party classes its handlers name.
pub mod Decimal
use fastapi_ws_rpc.Base.{
  String, Bool, true, false, Option, none, some, List, [], ◌∷◌, ◌≡◌, refl, ap,
}
use fastapi_ws_rpc.Base.Int.{ℤ}
use fastapi_ws_rpc.Base.Dict.{Dict}

-- A value as `json` reads it. A number with a fraction is kept as its literal text.
mutual
  pub data Json : Type 0 where
    null : Json
    bool : Bool → Json
    int : ℤ → Json
    float : String → Json
    str : String → Json
    arr : Items → Json
    obj : Fields → Json

  pub data Items : Type 0 where
    nil : Items
    cons : Json → Items → Items

  pub data Fields : Type 0 where
    end : Fields
    field : String → Json → Fields → Fields

abbrev pub elements : Items → List Json
elements nil = []
elements (cons x xs) = x ∷ elements xs

abbrev pub items : List Json → Items
items [] = nil
items (x ∷ xs) = cons x (items xs)

abbrev pub entries : Fields → Dict Json
entries end = []
entries (field k v fs) = (k, v) ∷ entries fs

abbrev pub fields : Dict Json → Fields
fields [] = end
fields ((k, v) ∷ d) = field k v (fields d)

pub entries-fields : (d : Dict Json) → entries (fields d) ≡ d
entries-fields [] = refl
entries-fields ((k, v) ∷ d) = ap (λ (rest : Dict Json). (k, v) ∷ rest) (entries-fields d)

pub elements-items : (xs : List Json) → elements (items xs) ≡ xs
elements-items [] = refl
elements-items (x ∷ xs) = ap (λ (rest : List Json). x ∷ rest) (elements-items xs)

-- `Union[str, int]`, the type of a request id.
pub data RpcId : Type 0 where
  str_id : String → RpcId
  int_id : ℤ → RpcId

-- The classes that an `except` clause or an `isinstance` test of the library tells apart.
pub data ExnClass : Type 0 where
  value_error validation_error type_error key_error attribute_error : ExnClass
  runtime_error connection_error os_error timeout_error cancelled_error : ExnClass
  web_socket_disconnect connection_closed web_socket_exception invalid_status : ExnClass
  rpc_channel_closed rpc_backpressure rpc_invalid_state rpc_message_too_large : ExnClass
  remote_value unknown_method : ExnClass
  other : String → ExnClass

-- `text` is `str(e)`.
pub record Exn : Type 0 where
  pub cls : ExnClass
  pub text : String

abbrev pub exn : ExnClass → String → Exn
exn c t = record { cls = c; text = t }

-- `isinstance(e, RpcError)`
abbrev pub is_rpc_error : ExnClass → Bool
is_rpc_error rpc_channel_closed = true
is_rpc_error rpc_backpressure = true
is_rpc_error rpc_invalid_state = true
is_rpc_error rpc_message_too_large = true
is_rpc_error remote_value = true
is_rpc_error unknown_method = true
is_rpc_error _ = false

-- `isinstance(e, Exception)`: `CancelledError` derives from `BaseException` alone.
abbrev pub is_exception : ExnClass → Bool
is_exception cancelled_error = false
is_exception _ = true

-- How a call ends.
pub data Outcome {ℓ} (A : Type ℓ) : Type ℓ where
  ok : A → Outcome A
  raised : Exn → Outcome A

abbrev pub is_ok {ℓ} : {A : Type ℓ} → Outcome A → Bool
is_ok (ok a) = true
is_ok (raised e) = false

-- The class of what was raised.
abbrev pub class_of {ℓ} : {A : Type ℓ} → Outcome A → Option ExnClass
class_of (ok a) = none
class_of (raised e) = some e.cls

pub raised_of {ℓ} :
    {A : Type ℓ} (r : Outcome A) (cls : ExnClass)
    → class_of r ≡ some cls
    → (e : Exn) × (r ≡ raised e) × (e.cls ≡ cls)
raised_of (ok a) cls h = cc
raised_of (raised e) cls h = (e, refl, cc)

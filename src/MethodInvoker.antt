-- ===== src/MethodInvoker.antt =====
-- fastapi_ws_rpc/_internal/method_invoker.py, and the list of built-in methods of
-- fastapi_ws_rpc/rpc_methods.py. The methods object is a function from attribute names to what
-- `getattr` finds there; of a callable the model keeps what `inspect.signature` shows. A method name
-- is a text here, since `JsonRpcRequest.method` is one: the first test of `validate_method` passes.
pub mod Validation
pub mod Positional
use Prim.Native.String.{◌++◌}
use fastapi_ws_rpc.Base.{
  ℕ, zero, suc, ◌+◌, String, Bool, true, false, not, ◌&&◌, ◌||◌, Option, none, some, List, [], ◌∷◌,
  ◌==◌, starts_with, ltb, is_some, if◌then◌else◌, length,
}
use fastapi_ws_rpc.Base.Dict.{Dict, insert}
use fastapi_ws_rpc.Values.{
  Json, entries, elements, Outcome, ok, raised, exn, value_error, type_error, attribute_error,
}
use fastapi_ws_rpc.Schemas.{JsonRpcErrorCode, method_not_found, Params, named, positional}

abbrev pub exposed_built_in_methods : List String
exposed_built_in_methods = "ping" ∷ "_get_channel_id_" ∷ []

-- `name in names`
abbrev pub is_in : String → List String → Bool
is_in name [] = false
is_in name (x ∷ xs) = x == name || is_in name xs

-- `inspect.Parameter`
pub data ParameterKind : Type 0 where
  positional_only positional_or_keyword var_positional keyword_only var_keyword : ParameterKind

pub record Parameter : Type 0 where
  pub name : String
  pub kind : ParameterKind
  pub has_default : Bool

-- A return annotation is the class `str` or anything else.
pub data Annotation : Type 0 where
  str_class : Annotation
  annotated : String → Annotation

pub record Signature : Type 0 where
  pub parameters : List Parameter
  pub return_annotation : Option Annotation

pub data Attribute : Type 0 where
  method : Signature → Attribute
  not_callable : Attribute

abbrev pub Methods : Type 0
Methods = String → Option Attribute

-- `name.startswith("_") and name not in EXPOSED_BUILT_IN_METHODS`
unfoldable pub is_protected : String → Bool
is_protected name = starts_with name "_" && not (is_in name exposed_built_in_methods)

unfoldable pub validate_method : Methods → String → Bool × Option JsonRpcErrorCode × Option String
unfolding is_protected
validate_method methods name =
    if is_protected name
    then (
      false,
      some method_not_found,
      some ("Method '" ++ name ++ "' not found or not accessible"),
    )
    else elim (methods name) [
      | none ↦ (false, some method_not_found, some ("Method '" ++ name ++ "' not found"))
      | some a ↦ elim a [
        | not_callable ↦
            (false, some method_not_found, some ("'" ++ name ++ "' is not a callable method"))
        | method s ↦ (true, none, none)
      ]
    ]

abbrev pub is_variadic : ParameterKind → Bool
is_variadic var_positional = true
is_variadic var_keyword = true
is_variadic _ = false

abbrev pub is_keyword_only : ParameterKind → Bool
is_keyword_only keyword_only = true
is_keyword_only _ = false

-- The parameters but `self`, `*args` and `**kwargs`.
unfoldable pub method_params : List Parameter → List Parameter
method_params [] = []
method_params (p ∷ ps) =
    let rest = method_params ps in
    if not (p.name == "self") && not (is_variadic p.kind) then p ∷ rest else rest

unfoldable pub has_keyword_only : List Parameter → Bool
has_keyword_only [] = false
has_keyword_only (p ∷ ps) = is_keyword_only p.kind || has_keyword_only ps

unfoldable pub required_count : List Parameter → ℕ
required_count [] = 0
required_count (p ∷ ps) = let rest = required_count ps in if p.has_default then rest else rest + 1

-- `for i, value in enumerate(params): result[method_params[i].name] = value`
unfoldable pub bind : List Parameter → List Json → Dict Json → Dict Json
bind [] vs result = result
bind (p ∷ ps) [] result = result
bind (p ∷ ps) (v ∷ vs) result = bind ps vs (insert p.name v result)

-- The checks of `_convert_positional_params` on the parameters of a method, then the binding.
unfoldable pub convert_positional : String → List Parameter → List Json → Outcome (Dict Json)
unfolding has_keyword_only required_count bind
convert_positional name ps vs =
    if has_keyword_only ps
    then raised (exn value_error ("Method '" ++ name ++ "' has keyword-only parameters"))
    else if ltb (length ps) (length vs)
    then raised (exn value_error ("Too many positional arguments for method '" ++ name ++ "'"))
    else if ltb (length vs) (required_count ps)
    then raised (exn value_error ("Too few positional arguments for method '" ++ name ++ "'"))
    else ok (bind ps vs [])

unfoldable pub convert_positional_params : Methods → List Json → String → Outcome (Dict Json)
unfolding method_params convert_positional
convert_positional_params methods vs name = elim (methods name) [
  | none ↦ raised (exn attribute_error name)
  | some a ↦ elim a [
    | not_callable ↦ raised (exn type_error "is not a callable object")
    | method s ↦ convert_positional name (method_params s.parameters) vs
  ]
]

unfoldable pub convert_params : Methods → Option Params → Option String → Outcome (Dict Json)
unfolding convert_positional_params
convert_params methods none name = ok []
convert_params methods (some (named fs)) name = ok (entries fs)
convert_params methods (some (positional xs)) none =
    raised (exn value_error "Cannot convert positional parameters without method name")
convert_params methods (some (positional xs)) (some name) =
    convert_positional_params methods (elements xs) name

-- What a method returns: the sentinel `NoResponse`, or a value.
pub data Returned : Type 0 where
  no_response : Returned
  value : Json → Returned

abbrev pub return_type : Option Annotation → Annotation
return_type none = str_class
return_type (some a) = a

unfoldable pub get_return_type : Signature → Annotation
get_return_type s = return_type s.return_annotation

-- `if result_type is str and not isinstance(result, str): result = str(result)`; `render` is `str`.
unfoldable pub convert_value : (Json → String) → Annotation → Json → Json
convert_value render (annotated t) v = v
convert_value render str_class (Json.str s) = Json.str s
convert_value render str_class v = Json.str (render v)

unfoldable pub convert_result : (Json → String) → Signature → Returned → Returned
unfolding get_return_type convert_value
convert_result render s no_response = no_response
convert_result render s (value v) = value (convert_value render (get_return_type s) v)

-- What `await method(**arguments)` does to the state of the program that holds the methods.
abbrev pub Call : Type 0 → Type 0
Call S = String → Dict Json → S → Outcome Returned × S

module _ {S : Type 0} (methods : Methods) (render : Json → String) (call : Call S) where
  unfoldable pub finish : Signature → Outcome Returned × S → Outcome Returned × S
  unfolding convert_result
  finish s (raised e, state) = (raised e, state)
  finish s (ok r, state) = (ok (convert_result render s r), state)

  unfoldable pub call_with : String → Signature → Outcome (Dict Json) → S → Outcome Returned × S
  unfolding finish
  call_with name s (raised e) state = (raised e, state)
  call_with name s (ok arguments) state = finish s (call name arguments state)

  unfoldable pub invoke : String → Option Params → S → Outcome Returned × S
  unfolding call_with convert_params
  invoke name params state = elim (methods name) [
    | none ↦ (raised (exn attribute_error name), state)
    | some a ↦ elim a [
      | not_callable ↦ elim (convert_params methods params (some name)) [
        | raised e ↦ (raised e, state)
        | ok arguments ↦ (raised (exn type_error "object is not callable"), state)
      ]
      | method s ↦ call_with name s (convert_params methods params (some name)) state
    ]
  ]

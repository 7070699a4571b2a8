-- ===== src/MethodInvoker/Validation.antt =====
-- Which methods a peer can reach.
use fastapi_ws_rpc.Base.{
  String, ◌≡◌, refl, Bool, true, false, ◌⊎◌, inl, inr, ◌↔◌, Option, none, some, arith, is_some,
}
use fastapi_ws_rpc.Values.{Exn, raised, value_error}
use fastapi_ws_rpc.Schemas.{method_not_found, Params, named, positional}
use fastapi_ws_rpc.MethodInvoker.{
  Methods, Signature, Attribute, method, not_callable, is_protected, validate_method,
  convert_params,
}

abbrev pub is_method : Option Attribute → Bool
is_method none = false
is_method (some not_callable) = false
is_method (some (method s)) = true

-- A method is valid exactly if its name is not protected and the methods object has a callable of
-- that name; a valid one has no error, an invalid one the code METHOD_NOT_FOUND and a message.
pub validate_method_iff :
    (methods : Methods) (name : String)
    → let (is_valid, code, message) = validate_method methods name in
      ((is_valid ≡ true) ↔ ((is_protected name ≡ false) × (is_method (methods name) ≡ true)))
      × (is_valid ≡ true → (code ≡ none) × (message ≡ none))
      × (is_valid ≡ false → (code ≡ some method_not_found) × (is_some message ≡ true))
unfolding validate_method
validate_method_iff methods name = ((ground arith, ground arith), ground arith, ground arith)

pub is_method-signature :
    (o : Option Attribute) → is_method o ≡ true → (s : Signature) × (o ≡ some (method s))
is_method-signature none h = cc
is_method-signature (some not_callable) h = cc
is_method-signature (some (method s)) h = (s, refl)

pub attribute_cases :
    (o : Option Attribute)
    → (o ≡ none) ⊎ (o ≡ some not_callable) ⊎ ((s : Signature) × (o ≡ some (method s)))
attribute_cases none = inl refl
attribute_cases (some not_callable) = inr (inl refl)
attribute_cases (some (method s)) = inr (inr (s, refl))

-- For a method that exists, the only exception of the conversion of its parameters is ValueError.
pub convert_params-value_error :
    (methods : Methods) (ps : Option Params) (name : String) (e : Exn)
    → is_method (methods name) ≡ true
    → convert_params methods ps (some name) ≡ raised e
    → e.cls ≡ value_error
unfolding convert_params
convert_params-value_error methods none name e there h = cc
convert_params-value_error methods (some (named fs)) name e there h = cc
convert_params-value_error methods (some (positional xs)) name e there h = ground arith

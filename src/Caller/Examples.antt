-- ===== src/Caller/Examples.antt =====
-- A caller of a methods object with one method.
use fastapi_ws_rpc.Base.{◌≡◌, refl, String, Option, none, some, [], ◌==◌, if◌then◌else◌}
use fastapi_ws_rpc.MethodInvoker.{Signature, Methods, method, validate_method}
use fastapi_ws_rpc.Caller.{proxy, own, get_attribute, exposed_accepted}

abbrev signature : Signature
signature = record { parameters = []; return_annotation = none }

abbrev methods : Methods
methods name = if name == "_channel" then some (method signature) else none

abbrev attributes : String → Option String
attributes name = some name

exposed_accepted_example : get_attribute attributes "_channel" ≡ (
    if (validate_method methods "_channel").0
    then proxy "_channel"
    else own (attributes "_channel"))
exposed_accepted_example = exposed_accepted attributes methods "_channel" signature refl

-- ===== src/Registry/Adapters.antt =====
-- The adapters of the protocols (packages/protocol-registry/src/adapter-interface.js). The checks of
-- texts are those of the agent. A function of an adapter is known by its name.
pub mod Laws
use full_revna_like_projekt.Base.{
  String, Bool, true, false, not, ◌&&◌, ◌||◌, Option, none, some, List, [], ◌∷◌, ◌++◌, ◌==◌,
  if◌then◌else◌, or_else, includes, any, is_some,
}
use full_revna_like_projekt.Base.Text.{join, trim}
use full_revna_like_projekt.Base.Json.{Json, truthy}
use full_revna_like_projekt.Base.Reply.{Reply, ok, throws, and_then}
use full_revna_like_projekt.Agent.Checks.{filled_text, require_string, is_known}
use full_revna_like_projekt.Agent.Commands.{without_errors}
use Prim.Native.String

-- A field that is to hold a function
pub data FunctionField (F : Type 0) : Type 0 where
  absent : FunctionField F
  not_function : FunctionField F
  function : F → FunctionField F

-- What is passed to `defineProtocolAdapter`
pub record AdapterInput (F : Type 0) : Type 0 where
  pub protocol : Option Json
  pub display_name : Option Json
  pub status : Option Json
  pub capabilities : Option (List String)
  pub required_credential_refs : Option (List String)
  pub validate_config : FunctionField F
  pub plan_outbound : FunctionField F

-- An adapter that has been defined; without a function of its own it has the default one.
pub record Adapter (F : Type 0) : Type 0 where
  pub protocol : String
  pub display_name : String
  pub status : String
  pub capabilities : List String
  pub required_credential_refs : List String
  pub validate_config : Option F
  pub plan_outbound : Option F

-- `ADAPTER_STATUSES`
abbrev pub adapter_statuses : List String
adapter_statuses = "catalog" ∷ "experimental" ∷ "stable" ∷ "deprecated" ∷ []

abbrev pub field_errors : {F : Type 0} → FunctionField F → String → List String
field_errors not_function path = (String.◌++◌ path " must be a function when provided") ∷ []
field_errors _ path = []

abbrev pub own_function : {F : Type 0} → FunctionField F → Option F
own_function (function f) = some f
own_function _ = none

-- `adapter.status && !ADAPTER_STATUSES.has(adapter.status)`
abbrev pub status_errors : Option Json → List String
status_errors status =
    if truthy status && not (is_known status adapter_statuses)
    then (String.◌++◌ "status must be one of " (join ", " adapter_statuses)) ∷ []
    else []

unfoldable pub adapter_errors : {F : Type 0} → AdapterInput F → List String
adapter_errors input =
    require_string input.protocol "protocol"
    ++ (require_string input.display_name "displayName"
        ++ (require_string input.status "status"
            ++ (status_errors input.status
                ++ (field_errors input.plan_outbound "planOutbound"
                    ++ field_errors input.validate_config "validateConfig"))))

-- A text that has been checked
abbrev pub text_of : Option Json → String
text_of v = or_else (filled_text v) ""

-- `defineProtocolAdapter(adapter)` of an object
unfoldable pub define_protocol_adapter : {F : Type 0} → AdapterInput F → Reply (Adapter F)
unfolding adapter_errors
define_protocol_adapter input = without_errors (adapter_errors input) "Invalid protocol adapter: " (
    ok (record {
      protocol = text_of input.protocol;
      display_name = text_of input.display_name;
      status = text_of input.status;
      capabilities = or_else input.capabilities [];
      required_credential_refs = or_else input.required_credential_refs [];
      validate_config = own_function input.validate_config;
      plan_outbound = own_function input.plan_outbound;
    }))

-- `byProtocol.get(protocol) ?? null`, where the registry is the adapters in the order of `list()`
unfoldable pub get_adapter : {F : Type 0} → String → List (Adapter F) → Option (Adapter F)
get_adapter protocol [] = none
get_adapter protocol (a ∷ registry) =
    if a.protocol == protocol then some a else get_adapter protocol registry

unfoldable pub has_adapter : {F : Type 0} → String → List (Adapter F) → Bool
unfolding get_adapter
has_adapter protocol registry = is_some (get_adapter protocol registry)

unfoldable pub require_adapter : {F : Type 0} → String → List (Adapter F) → Reply (Adapter F)
unfolding get_adapter
require_adapter protocol registry = found (get_adapter protocol registry)
  where
    found : {A : Type 0} → Option A → Reply A
    found none = throws (String.◌++◌ "Protocol adapter not registered: " protocol)
    found (some a) = ok a

-- The loop of `createProtocolRegistry`
unfoldable pub register :
    {F : Type 0} → List (Adapter F) → List (AdapterInput F) → Reply (List (Adapter F))
unfolding define_protocol_adapter has_adapter
register registry [] = ok registry
register registry (x ∷ xs) = and_then (define_protocol_adapter x) (λ a.
    let rest = register (registry ++ a ∷ []) xs in
    if has_adapter a.protocol registry
    then throws (String.◌++◌ "Duplicate protocol adapter: " a.protocol)
    else rest)

unfoldable pub create_protocol_registry :
    {F : Type 0} → List (AdapterInput F) → Reply (List (Adapter F))
unfolding register
create_protocol_registry adapters = register [] adapters

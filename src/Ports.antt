-- ===== src/Ports.antt =====
-- Connection validation: frontend/src/nodes/portSchema.ts over the node registry. `null` and
-- `undefined` are `none`; reasons are the source's texts.
pub mod Compatible
pub mod Validate
use Prim.Native.String
use workflowui.Base.{
  String, Bool, true, false, not, Option, none, some, List, find?, ◌==◌, ◌&&◌, ◌||◌, if◌then◌else◌,
}
use workflowui.Manifest.{
  DataType, tensor, image, net, generic, branch, Direction, source, target, PortDef, node_ports,
}

pub record CompatibilityResult : Type 0 where
  pub ok : Bool
  pub reason : Option String

infixr 65 ◌<>◌
abbrev ◌<>◌ : String → String → String
s <> t = String.◌++◌ s t

-- the value of a `HandleDataType`
abbrev pub type_text : DataType → String
type_text tensor = "tensor"
type_text image = "image"
type_text net = "net"
type_text generic = "generic"
type_text branch = "branch"

-- `===` on data types
unfoldable pub same_type : DataType → DataType → Bool
same_type tensor tensor = true
same_type image image = true
same_type net net = true
same_type generic generic = true
same_type branch branch = true
same_type _ _ = false

abbrev pub accept : CompatibilityResult
accept = record { ok = true; reason = none }

abbrev pub reject : String → CompatibilityResult
reject why = record { ok = false; reason = some why }

-- `areTypesCompatible` once both types are known
known_types_compatible : DataType → DataType → CompatibilityResult
unfolding same_type
known_types_compatible s t =
    if same_type s t
    then accept
    else if same_type t branch
    then reject (
        "'branch' target can only accept a 'branch' source (got "
        <> type_text s
        <> " → "
        <> type_text t
        <> ")")
    else if same_type s branch
    then accept
    else if same_type s generic || same_type t generic
    then accept
    else if same_type s image && same_type t tensor
    then accept
    else reject ("incompatible port types: " <> type_text s <> " → " <> type_text t)

unfoldable pub are_types_compatible : Option DataType → Option DataType → CompatibilityResult
unfolding known_types_compatible
are_types_compatible (some s) (some t) = known_types_compatible s t
are_types_compatible _ _ = record { ok = true; reason = some "port not in registry (allowing)" }

port_of : String → String → Option PortDef
port_of node_type handle_id = elim (node_ports node_type) [
  | none ↦ none
  | some ports ↦ find? (λ p. p.id == handle_id) ports
]

-- an empty type or handle is falsy
unfoldable pub get_port : Option String → Option String → Option PortDef
unfolding port_of
get_port (some node_type) (some handle_id) =
    if node_type == "" then none else if handle_id == "" then none else port_of node_type handle_id
get_port _ _ = none

pub record ConnectionLike : Type 0 where
  pub source : Option String
  pub source_handle : Option String
  pub target : Option String
  pub target_handle : Option String

pub record NodeLike : Type 0 where
  pub id : String
  pub type : Option String

-- `n?.type` of the node that `find` returns
abbrev pub type_of : String → List NodeLike → Option String
type_of id nodes = elim (find? (λ n. n.id == id) nodes) [ none ↦ none | some n ↦ n.type ]

-- `port && port.direction !== wanted`
unfoldable pub is_misdirected : Option PortDef → Direction → Bool
is_misdirected none wanted = false
is_misdirected (some p) source = elim p.direction [ source ↦ false | target ↦ true ]
is_misdirected (some p) target = elim p.direction [ source ↦ true | target ↦ false ]

-- a template literal of an absent value prints `undefined` or `null`
abbrev pub shown : Option String → String → String
shown none absent = absent
shown (some s) absent = s

abbrev pub data_type_of : Option PortDef → Option DataType
data_type_of none = none
data_type_of (some p) = some p.data_type

-- `validateConnection` past the checks of the endpoints
validate_ports : Option String → Option String → Option String → Option String → CompatibilityResult
unfolding is_misdirected get_port are_types_compatible
validate_ports source_type source_handle target_type target_handle =
    let src = get_port source_type source_handle in
    let tgt = get_port target_type target_handle in
    if is_misdirected src source
    then reject (
        shown source_type "undefined"
        <> ":"
        <> shown source_handle "null"
        <> " is not a source port")
    else if is_misdirected tgt target
    then reject (
        shown target_type "undefined"
        <> ":"
        <> shown target_handle "null"
        <> " is not a target port")
    else are_types_compatible (data_type_of src) (data_type_of tgt)

validate_endpoints : String → String → ConnectionLike → List NodeLike → CompatibilityResult
unfolding validate_ports
validate_endpoints src tgt c nodes =
    if src == ""
    then reject "connection missing endpoints"
    else if tgt == ""
    then reject "connection missing endpoints"
    else if src == tgt
    then reject "cannot connect a node to itself"
    else validate_ports (type_of src nodes) c.source_handle (type_of tgt nodes) c.target_handle

validate_options :
    Option String → Option String → ConnectionLike → List NodeLike → CompatibilityResult
unfolding validate_endpoints
validate_options (some src) (some tgt) c nodes = validate_endpoints src tgt c nodes
validate_options _ _ c nodes = reject "connection missing endpoints"

unfoldable pub validate_connection : ConnectionLike → List NodeLike → CompatibilityResult
unfolding validate_options
validate_connection c nodes = validate_options c.source c.target c nodes

unfoldable pub is_connection_valid : ConnectionLike → List NodeLike → Bool
unfolding validate_connection
is_connection_valid c nodes = (validate_connection c nodes).ok

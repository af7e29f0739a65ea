-- ===== src/Engine/Graph.antt =====
-- internal/engine/graph.go: validation of a workflow and the order in which its nodes start.
pub mod Check
pub mod Sort
pub mod Edges
pub mod Kahn
pub mod Topology
pub mod Build
use voce.Prelude.{
  ℕ, String, Bool, true, not, ◌==◌, if◌then◌else◌, str_eq, Option, none, some, List, [], ◌∷◌,
  is_some,
}
use voce.Prelude.Maps.{lookup, insert}
use voce.Prelude.Results.{Result, ok, err, ◌>>=◌, ◌>>◌, fail_if, or_fail}
use voce.Engine.Config.{EventType, NodeConfig, EdgeConfig, WorkflowConfig, Builder}
use voce.Engine.Property.{
  ContractError, prefix_signal, prefix_payload, prefix_audio, validate_properties,
}
use Sort.{sort_nodes}

pub data GraphError : Type 0 where
  head_missing head_not_found duplicate_node builder_missing self_loop : GraphError
  source_not_found target_not_found unknown_edge_type : GraphError
  contract_failed : ContractError → GraphError

abbrev Nodes : Type 0
Nodes = List (String × NodeConfig)

abbrev Builders : Type 0
Builders = List (String × Builder)

unfoldable pub parse_nodes : Nodes → List NodeConfig → Builders → Result GraphError Nodes
parse_nodes m [] builders = ok m
parse_nodes m (n ∷ ns) builders = do
  fail_if (is_some (lookup n.id m)) GraphError.duplicate_node
  fail_if (not (is_some (lookup n.id builders))) GraphError.builder_missing
  parse_nodes (insert n.id n m) ns builders

unfoldable pub check_self_loops : List EdgeConfig → Result GraphError (Unit {0})
check_self_loops [] = ok tt
check_self_loops (e ∷ es) =
    fail_if (str_eq e.source e.target) GraphError.self_loop >> check_self_loops es

-- The domain of properties that an edge carries; a video edge has none.
unfoldable pub edge_prefix : EventType → Option String
edge_prefix EventType.payload = some prefix_payload
edge_prefix EventType.signal = some prefix_signal
edge_prefix EventType.audio = some prefix_audio
edge_prefix _ = none

abbrev contract_result : Result ContractError (Unit {0}) → Result GraphError (Unit {0})
contract_result (ok u) = ok u
contract_result (err e) = err (GraphError.contract_failed e)

-- One round of validateEdgeContracts. A missing builder would be a nil dereference; parse_nodes has
-- seen to it that each node has one, and the model has an error in its place.
unfoldable pub check_edge : Nodes → EdgeConfig → Builders → Result GraphError (Unit {0})
check_edge m e builders = do
  fail_if (not (is_some (lookup e.source m))) GraphError.source_not_found
  fail_if (not (is_some (lookup e.target m))) GraphError.target_not_found
  src ← or_fail (lookup e.source builders) GraphError.builder_missing
  tgt ← or_fail (lookup e.target builders) GraphError.builder_missing
  prefix ← or_fail (edge_prefix e.type) GraphError.unknown_edge_type
  contract_result (validate_properties src.outputs tgt.inputs prefix)

unfoldable pub validate_edge_contracts :
    Nodes → List EdgeConfig → Builders → Result GraphError (Unit {0})
validate_edge_contracts m [] builders = ok tt
validate_edge_contracts m (e ∷ es) builders =
    check_edge m e builders >> validate_edge_contracts m es builders

pub record Graph : Type 0 where
  pub config : WorkflowConfig
  pub ordered_nodes : List NodeConfig

-- `roots` and `rest` are the orders in which the two loops over the map of degrees meet its keys.
unfoldable pub build_graph :
    List String → List String → WorkflowConfig → Builders → Result GraphError Graph
build_graph roots rest config builders = do
  fail_if (str_eq config.head "") GraphError.head_missing
  nodes ← parse_nodes [] config.nodes builders
  fail_if (not (is_some (lookup config.head nodes))) GraphError.head_not_found
  check_self_loops config.edges
  validate_edge_contracts nodes config.edges builders
  ok (record { config = config; ordered_nodes = sort_nodes roots rest config nodes })

-- ===== src/Tests/Graph.antt =====
-- internal/engine/property.go and graph.go at a workflow of three nodes.
use voce.Prelude.{ℕ, ◌+◌, ◌*◌, ◌≡◌, ◌↔◌, refl, true, List, [], ◌∷◌, arith, All, String}
use voce.Prelude.Int.{ℤ}
use voce.Prelude.Count.{count, precedes}
use voce.Prelude.Maps.{lookup, insert}
use voce.Prelude.Results.{ok}
use voce.Engine.Config.{EventType, SchedulerMode, NodeConfig, EdgeConfig, WorkflowConfig, Builder}
use voce.Engine.Property.{
  Field, Property, validate_property, validate_properties, check_field, check_fields, index_fields,
  index_downs, matched_down, check_ups, with_prefix, prefix_payload,
}
use voce.Engine.Property.Match.{Contract, validate_properties_iff}
use voce.Engine.Graph.{
  Graph, build_graph, parse_nodes, check_self_loops, check_edge, validate_edge_contracts,
  edge_prefix,
}
use voce.Engine.Graph.Sort.{zero_degrees, add_edges, relax, drain, sort_ids, configs_of, sort_nodes}
use voce.Engine.Graph.Check.{ids}
use voce.Engine.Graph.Build.{
  ValidConfig, build_graph_iff, count-ordered_nodes, precedes-ordered_nodes,
}

abbrev pub text_field : Field
text_field = record { key = "text"; type = "string"; required = true }

abbrev pub text_out : Property
text_out = record { prefix = "data"; name = "message"; fields = text_field ∷ [] }

abbrev pub any_text : Property
any_text = record { prefix = "data"; name = ""; fields = text_field ∷ [] }

validate_properties_iff_example :
    (validate_properties (text_out ∷ []) (any_text ∷ []) prefix_payload ≡ ok tt)
    ↔ Contract
        (with_prefix prefix_payload (text_out ∷ []))
        (with_prefix prefix_payload (any_text ∷ []))
validate_properties_iff_example =
    validate_properties_iff (text_out ∷ []) (any_text ∷ []) prefix_payload

abbrev pub node : String → NodeConfig
node id = record { id = id; name = id; namespace = ""; plugin = "echo"; config = "" }

abbrev pub edge : String → String → EdgeConfig
edge source target = record {
  source = source;
  source_port = ℤ.pos 0;
  target = target;
  type = EventType.payload;
}

abbrev pub echo : Builder
echo = record { inputs = any_text ∷ []; outputs = text_out ∷ [] }

abbrev pub chain : WorkflowConfig
chain = record {
  id = "w";
  name = "chain";
  head = "in";
  nodes = node "out" ∷ node "mid" ∷ node "in" ∷ [];
  edges = edge "in" "mid" ∷ edge "mid" "out" ∷ [];
  scheduler_mode = SchedulerMode.worker_pool;
  scheduler_workers = 0;
}

abbrev pub chain_ids : List String
chain_ids = "out" ∷ "mid" ∷ "in" ∷ []

abbrev pub chain_builders : List (String × Builder)
chain_builders = ("out", echo) ∷ ("mid", echo) ∷ ("in", echo) ∷ []

abbrev pub chain_graph : Graph
chain_graph = record { config = chain; ordered_nodes = node "in" ∷ node "mid" ∷ node "out" ∷ [] }

pub chain_built : build_graph chain_ids chain_ids chain chain_builders ≡ ok chain_graph
unfolding build_graph parse_nodes check_self_loops check_edge validate_edge_contracts edge_prefix
    validate_property validate_properties check_field check_fields index_fields index_downs
    matched_down check_ups zero_degrees add_edges relax drain sort_ids configs_of sort_nodes lookup
    insert
chain_built = refl

build_graph_iff_example :
    ((g : Graph) × (build_graph chain_ids chain_ids chain chain_builders ≡ ok g))
    ↔ ValidConfig chain chain_builders
build_graph_iff_example = build_graph_iff chain_ids chain_ids chain chain_builders

count-ordered_nodes_example : count "mid" (ids chain_graph.ordered_nodes) ≡ count "mid" chain_ids
count-ordered_nodes_example =
    count-ordered_nodes chain_ids chain_ids chain chain_builders (λ v. refl) (λ v. refl) chain_built
      "mid"

-- in before mid before out.
abbrev rank : String → ℕ
rank id = count id ("mid" ∷ []) + 2 * count id ("out" ∷ [])

precedes-ordered_nodes_example :
    All (λ e. precedes e.source e.target (ids chain_graph.ordered_nodes) ≡ true) chain.edges
unfolding count
precedes-ordered_nodes_example =
    precedes-ordered_nodes chain_ids chain_ids chain chain_builders (λ v. refl) (λ v. refl)
      chain_built rank ground arith

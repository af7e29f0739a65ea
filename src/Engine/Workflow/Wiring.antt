-- ===== src/Engine/Workflow/Wiring.antt =====
-- internal/engine/workflow.go, wireNodes: the routes of the nodes are the edges of the graph.
use voce.Prelude.{
  ℕ, ◌≡◌, Bool, true, false, ◌&&◌, ◌==◌, ltb, if◌then◌else◌, Option, none, some, List, [], ◌∷◌,
  arith, length, get_or, set, get_or-set, String, Option-cases, inl, inr, ◌⊎◌, Bool-cases,
}
use voce.Prelude.Int.{ℤ}
use voce.Prelude.Maps.{lookup}
use voce.Prelude.Results.{ok}
use voce.Engine.Config.{EventType, EdgeConfig}
use voce.Engine.Node.{BaseNode, new_base_node, max_port_count, add_next_node, add_next_port_node}
use voce.Engine.Node.Routes.{
  same_event, IsRouted, add_next_node-IsRouted, add_next_port_node-IsRouted,
}
use voce.Engine.Workflow.{wire_edge, wire_nodes, port_zero}

abbrev pub is_at : Option ℕ → ℕ → Bool
is_at none i = false
is_at (some k) i = k == i

abbrev pub valid_port : ℤ → Bool
valid_port (ℤ.pos n) = ltb n max_port_count
valid_port (ℤ.negsuc n) = false

-- The edge carries this event from node `i` to node `j`.
abbrev pub carries : List (String × ℕ) → EventType → ℕ → ℕ → EdgeConfig → Bool
carries index_map ev i j e =
    is_at (lookup e.source index_map) i
    && (valid_port e.source_port && (same_event ev e.type && is_at (lookup e.target index_map) j))

abbrev pub node_at : List BaseNode → ℕ → BaseNode
node_at nodes i = get_or nodes i (new_base_node "")

wire_nodes_inv :
    (index_map : List (String × ℕ)) (e : EdgeConfig) (es : List EdgeConfig)
    (nodes wired : List BaseNode)
    → wire_nodes index_map (e ∷ es) nodes ≡ ok wired
    → (from : ℕ) × (to : ℕ) × (lookup e.source index_map ≡ some from)
      × (lookup e.target index_map ≡ some to)
      × (wire_nodes index_map es (wire_edge e from to nodes) ≡ ok wired)
unfolding wire_nodes
wire_nodes_inv index_map e es nodes wired h =
    go (Option-cases (lookup e.source index_map)) (Option-cases (lookup e.target index_map))
  where
    go :
        (lookup e.source index_map ≡ none) ⊎ ((i : ℕ) × (lookup e.source index_map ≡ some i))
        → (lookup e.target index_map ≡ none) ⊎ ((i : ℕ) × (lookup e.target index_map ≡ some i))
        → (from : ℕ) × (to : ℕ) × (lookup e.source index_map ≡ some from)
          × (lookup e.target index_map ≡ some to)
          × (wire_nodes index_map es (wire_edge e from to nodes) ≡ ok wired)
    go (inl s) t = absurd (ground (arith, h, s))
    go (inr (i, s)) (inl t) = absurd (ground (arith, h, s, t))
    go (inr (i, s)) (inr (j, t)) = (i, j, s, t, ground (arith, h, s, t))

-- A wiring that succeeds keeps every node routed.
get_or-IsRouted-set :
    (nodes : List BaseNode) (from i : ℕ) (b : BaseNode)
    → IsRouted b
    → IsRouted (node_at nodes i)
    → IsRouted (node_at (set nodes from b) i)
get_or-IsRouted-set nodes from i b rb rn =
    elim (Bool-cases ((from == i) && ltb from (length nodes))) [
      | inl hit ↦ rw (get_or-set nodes from i b (new_base_node ""), hit) rb
      | inr miss ↦ rw (get_or-set nodes from i b (new_base_node ""), miss) rn
    ]

wire_edge-IsRouted :
    (e : EdgeConfig) (from to : ℕ) (nodes : List BaseNode)
    → ((i : ℕ) → IsRouted (node_at nodes i))
    → (i : ℕ) → IsRouted (node_at (wire_edge e from to nodes) i)
unfolding wire_edge
wire_edge-IsRouted e from to nodes r i =
    get_or-IsRouted-set nodes from i _ (added (port_zero e.source_port)) (r i)
  where
    added :
        (z : Bool)
        → IsRouted (
            if z
            then add_next_node e.type to (node_at nodes from)
            else add_next_port_node e.type to e.source_port (node_at nodes from))
    added true = add_next_node-IsRouted e.type to (node_at nodes from) (r from)
    added false = add_next_port_node-IsRouted e.type to e.source_port (node_at nodes from) (r from)

-- A wiring that succeeds keeps every node routed: no target twice in a list, and each port's
-- targets among those of a broadcast.
pub wire_nodes-IsRouted :
    (index_map : List (String × ℕ)) (es : List EdgeConfig) (nodes : List BaseNode)
    {wired : List BaseNode}
    → wire_nodes index_map es nodes ≡ ok wired
    → ((i : ℕ) → IsRouted (node_at nodes i))
    → (i : ℕ) → IsRouted (node_at wired i)
unfolding wire_nodes
wire_nodes-IsRouted index_map [] nodes {wired} h r i =
    let same : nodes ≡ wired = ground (arith, h) in rw same at (r i)
wire_nodes-IsRouted index_map (e ∷ es) nodes {wired} h r i =
    let (from, to, s, t, more) = wire_nodes_inv index_map e es nodes wired h in
    wire_nodes-IsRouted index_map es (wire_edge e from to nodes) {wired = wired} more
      (wire_edge-IsRouted e from to nodes r) i

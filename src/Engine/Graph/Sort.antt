-- ===== src/Engine/Graph/Sort.antt =====
-- internal/engine/graph.go, sortNodesTopologically: the start order of the nodes.
use voce.Prelude.{
  ℕ, zero, suc, ◌+◌, ◌-◌, String, ◌==◌, ltb, if◌then◌else◌, none, some, List, [], ◌∷◌, ◌++◌, length,
  keep,
}
use voce.Prelude.Maps.{lookup, insert}
use voce.Engine.Config.{NodeConfig, EdgeConfig, WorkflowConfig}

-- A missing key reads as the zero value.
abbrev pub deg_of : List (String × ℕ) → String → ℕ
deg_of m k = elim (lookup k m) [ none ↦ 0 | some n ↦ n ]

abbrev pub adj_of : List (String × List String) → String → List String
adj_of m k = elim (lookup k m) [ none ↦ [] | some l ↦ l ]

unfoldable pub zero_degrees : List (String × NodeConfig) → List (String × ℕ)
zero_degrees [] = []
zero_degrees ((id, n) ∷ m) = insert id 0 (zero_degrees m)

unfoldable pub add_edges :
    List EdgeConfig
    → List (String × List String) × List (String × ℕ)
    → List (String × List String) × List (String × ℕ)
add_edges [] t = t
add_edges (e ∷ es) (adj, deg) = add_edges es (
  insert e.source (adj_of adj e.source ++ (e.target ∷ [])) adj,
  insert e.target (deg_of deg e.target + 1) deg,
)

-- The inner loop: each successor loses one open edge, and joins the queue with the last one. The
-- count is at least one where it is lowered, so the truncated difference is the code's.
unfoldable pub relax :
    List String → List String × List (String × ℕ) → List String × List (String × ℕ)
relax [] t = t
relax (next ∷ more) (queue, deg) =
    let d = deg_of deg next - 1 in
    relax more ((if d == 0 then queue ++ (next ∷ []) else queue), insert next d deg)

-- The loop over the queue, with one round of fuel for each node.
unfoldable pub drain :
    ℕ
    → List (String × List String)
    → List String × List String × List (String × ℕ)
    → List String × List String × List (String × ℕ)
drain zero adj t = t
drain (suc fuel) adj (ordered, [], deg) = (ordered, [], deg)
drain (suc fuel) adj (ordered, curr ∷ queue, deg) =
    let (queue', deg') = relax (adj_of adj curr) (queue, deg) in
    drain fuel adj (ordered ++ (curr ∷ []), queue', deg')

-- The IDs in start order: those that the queue served, then the remnants of cycles.
unfoldable pub sort_ids :
    List String → List String → WorkflowConfig → List (String × NodeConfig) → List String
unfolding zero_degrees
sort_ids roots rest config nodes =
    let (adj, deg) = add_edges config.edges ([], zero_degrees nodes) in
    let queue = keep (λ id. deg_of deg id == 0) roots in
    let (ordered, _, deg') = drain (length nodes) adj ([], queue, deg) in
    if length ordered == length config.nodes
    then ordered
    else ordered ++ keep (λ id. ltb 0 (deg_of deg' id)) rest

-- nodesMap[id], over the IDs in order. Every ID is a key of the map; a missing one would read as a
-- zero node in Go and is left out here.
unfoldable pub configs_of : List (String × NodeConfig) → List String → List NodeConfig
configs_of nodes [] = []
configs_of nodes (id ∷ ids) =
    let others = configs_of nodes ids in
    elim (lookup id nodes) [ none ↦ others | some n ↦ n ∷ others ]

unfoldable pub sort_nodes :
    List String → List String → WorkflowConfig → List (String × NodeConfig) → List NodeConfig
sort_nodes roots rest config nodes = configs_of nodes (sort_ids roots rest config nodes)

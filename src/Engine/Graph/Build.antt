-- ===== src/Engine/Graph/Build.antt =====
-- internal/engine/graph.go, BuildGraph: which configurations it accepts, and what it makes of them.
use mathlib.Core.Path.{subst, fun_ext}
use voce.Prelude.{
  ℕ, ◌≤◌, ◌<◌, ◌≡◌, refl, sym, ap, ap₂, ◌∙◌, inl, inr, ◌≢◌, ◌↔◌, String, Bool, true, false, not,
  ltb, str_eq, eq_iff, some, List, [], ◌∷◌, arith, All, is_some, length-map, Option-cases,
}
use voce.Prelude.Count.{count, count-nil, count-cons, length-le_of_count, precedes}
use voce.Prelude.Maps.{lookup}
use voce.Prelude.Results.{ok, >>=-eq-ok, fail_if}
use voce.Engine.Config.{NodeConfig, EdgeConfig, WorkflowConfig}
use voce.Engine.Graph.Sort.{sort_ids, sort_nodes, configs_of}
use voce.Engine.Graph.Topology.{keys_of, Sortable, count-sort_ids, precedes-sort_ids}
use voce.Engine.Graph.Check.{
  ids, NoLoops, ValidEdge, is_some-lookup, count-parse_nodes, keyed-parse_nodes, lookup-parse_nodes,
  own_ids-parse_nodes, parse_nodes_total, check_self_loops_iff, validate_edge_contracts_iff,
}
use voce.Engine.Graph.{
  Nodes, Builders, GraphError, Graph, parse_nodes, check_self_loops, validate_edge_contracts,
  build_graph,
}

-- The ID belongs to a configured node.
abbrev pub configured : WorkflowConfig → String → Bool
configured config id = ltb 0 (count id (ids config.nodes))

-- What a configuration has to fulfil, without maps and without an order of checks.
pub record ValidConfig (config : WorkflowConfig) (builders : Builders) : Type 0 where
  pub head_named : config.head ≢ ""
  pub head_known : configured config config.head ≡ true
  pub distinct : (v : String) → count v (ids config.nodes) ≤ 1
  pub built : All (λ n. is_some (lookup n.id builders) ≡ true) config.nodes
  pub no_loops : NoLoops config.edges
  pub edges_valid : All (ValidEdge (configured config) builders) config.edges

module _ (config : WorkflowConfig) (builders : Builders) {nodes : Nodes}
    (parsed : parse_nodes [] config.nodes builders ≡ ok nodes) where
  count-parsed : (v : String) → count v (keys_of nodes) ≡ count v (ids config.nodes)
  count-parsed v = omega (arith, count-parse_nodes builders v [] config.nodes parsed, count-nil v)

  known-configured : (λ id. is_some (lookup id nodes)) ≡ configured config
  known-configured = fun_ext (λ id. is_some-lookup id nodes ∙ ap (ltb 0) (count-parsed id))

built_of :
    (nodes : Nodes) (builders : Builders) (ns : List NodeConfig)
    → All (λ n. (lookup n.id nodes ≡ some n) × (is_some (lookup n.id builders) ≡ true)) ns
    → All (λ n. is_some (lookup n.id builders) ≡ true) ns
built_of nodes builders [] h = tt
built_of nodes builders (n ∷ ns) h = (h.0.1, built_of nodes builders ns h.1)

-- A graph that was built went through every check.
build_graph_inv :
    (roots rest : List String) (config : WorkflowConfig) (builders : Builders) {g : Graph}
    → build_graph roots rest config builders ≡ ok g
    → ValidConfig config builders
      × ((nodes : Nodes) × (parse_nodes [] config.nodes builders ≡ ok nodes)
          × (g ≡ record { config = config; ordered_nodes = sort_nodes roots rest config nodes }))
unfolding build_graph
build_graph_inv roots rest config builders {g} h =
    let (_, named, h1) = >>=-eq-ok (fail_if (str_eq config.head "") GraphError.head_missing) _ h in
    let (nodes, parsed, h2) = >>=-eq-ok (parse_nodes [] config.nodes builders) _ h1 in
    let (_, found, h3) =
      >>=-eq-ok (fail_if (not (is_some (lookup config.head nodes))) GraphError.head_not_found) _
        h2 in
    let (_, loops, h4) = >>=-eq-ok (check_self_loops config.edges) _ h3 in
    let (_, contracts, h5) = >>=-eq-ok (validate_edge_contracts nodes config.edges builders) _ h4 in
    let known = known-configured config builders parsed in
    (
      record {
        head_named = λ e. ground (arith, named, (eq_iff config.head "").1 e);
        head_known = sym (ap (λ (f : String → Bool). f config.head) known) ∙ ground (arith, found);
        distinct = λ v. omega (
          arith,
          count-parsed config builders parsed v,
          keyed-parse_nodes builders [] config.nodes parsed (λ u. omega (arith, count-nil u)) v,
        );
        built =
            built_of nodes builders config.nodes
              (lookup-parse_nodes builders [] config.nodes parsed);
        no_loops = (check_self_loops_iff config.edges).0 loops;
        edges_valid =
            subst (λ f. All (ValidEdge f builders) config.edges) known
              ((validate_edge_contracts_iff nodes config.edges builders).0 contracts);
      },
      (nodes, parsed, cc h5),
    )

build_graph_total :
    (roots rest : List String) (config : WorkflowConfig) (builders : Builders)
    → ValidConfig config builders
    → (g : Graph) × (build_graph roots rest config builders ≡ ok g)
unfolding build_graph
build_graph_total roots rest config builders v =
    let (nodes, parsed) =
      parse_nodes_total builders [] config.nodes (λ u. omega (arith, v.distinct u, count-nil u))
        v.built in
    let known = known-configured config builders parsed in
    let found : is_some (lookup config.head nodes) ≡ true =
      ap (λ (f : String → Bool). f config.head) known ∙ v.head_known in
    let loops = (check_self_loops_iff config.edges).1 v.no_loops in
    let contracts =
      (validate_edge_contracts_iff nodes config.edges builders).1
        (subst (λ f. All (ValidEdge f builders) config.edges) (sym known) v.edges_valid) in
    let named : str_eq config.head "" ≡ false =
      ground (arith, v.head_named, eq_iff config.head "") in
    (
      record { config = config; ordered_nodes = sort_nodes roots rest config nodes },
      rw named (rw parsed (rw found (rw loops (rw contracts)))),
    )

-- `build_graph` builds a graph of exactly the valid configurations: the head is a configured node,
-- the node IDs are distinct and each has a builder, no edge is a loop, and each edge joins two nodes
-- whose plugins keep its contract.
pub build_graph_iff :
    (roots rest : List String) (config : WorkflowConfig) (builders : Builders)
    → ((g : Graph) × (build_graph roots rest config builders ≡ ok g)) ↔ ValidConfig config builders
build_graph_iff roots rest config builders = (
  (λ (g, built). (build_graph_inv roots rest config builders built).0),
  build_graph_total roots rest config builders,
)

ends_known :
    (config : WorkflowConfig) (builders : Builders) (keys : List String) (es : List EdgeConfig)
    → ((v : String) → count v keys ≡ count v (ids config.nodes))
    → All (ValidEdge (configured config) builders) es
    → All (λ e. 0 < count e.target keys) es × All (λ e. 0 < count e.source keys) es
ends_known config builders keys [] same h = (tt, tt)
ends_known config builders keys (e ∷ es) same h =
    let (targets, sources) = ends_known config builders keys es same h.1 in
    (
      (ground (arith, same e.target, h.0.target_known), targets),
      (ground (arith, same e.source, h.0.source_known), sources),
    )

-- The order in which the IDs are asked for is the order of the configurations.
ids-configs_of :
    (nodes : Nodes) (order : List String)
    → ((k : String) (n : NodeConfig) → lookup k nodes ≡ some n → n.id ≡ k)
    → ((v : String) → 0 < count v order → 0 < count v (keys_of nodes))
    → ids (configs_of nodes order) ≡ order
unfolding configs_of
ids-configs_of nodes [] own known = refl
ids-configs_of nodes (k ∷ ks) own known =
    let rest = ids-configs_of nodes ks own (λ v h. known v (omega (arith, count-cons v k ks))) in
    let here : 0 < count k (keys_of nodes) =
      known k (ground (arith, count-cons k k ks, eq_iff k k)) in
    elim (Option-cases (lookup k nodes)) [
      | inl absent ↦ absurd (ground (arith, absent, here, is_some-lookup k nodes))
      | inr (n, found) ↦ rw (found, configs_of) (ap₂ ◌∷◌ (own k n found) rest)
    ]

module _ (roots rest : List String) (config : WorkflowConfig) (builders : Builders) {g : Graph}
    (roots_ids : (v : String) → count v roots ≡ count v (ids config.nodes))
    (rest_ids : (v : String) → count v rest ≡ count v (ids config.nodes))
    (built : build_graph roots rest config builders ≡ ok g) where
  sortable :
      (nodes : Nodes)
      → parse_nodes [] config.nodes builders ≡ ok nodes
      → Sortable roots rest config nodes
  sortable nodes parsed =
      let v = (build_graph_inv roots rest config builders built).0 in
      let same = count-parsed config builders parsed in
      let (targets, sources) =
        ends_known config builders (keys_of nodes) config.edges same v.edges_valid in
      record {
        keyed = λ u. omega (arith, same u, v.distinct u);
        targets = targets;
        sources = sources;
        size = omega (
          arith,
          length-le_of_count (keys_of nodes) (ids config.nodes) (λ u. omega (arith, same u)),
          length-le_of_count (ids config.nodes) (keys_of nodes) (λ u. omega (arith, same u)),
          length-map config.nodes (λ n. n.id),
        );
        roots_keys = λ u. roots_ids u ∙ sym (same u);
        rest_keys = λ u. rest_ids u ∙ sym (same u);
      }

  start_order :
      (nodes : Nodes)
      → parse_nodes [] config.nodes builders ≡ ok nodes
      → ids (sort_nodes roots rest config nodes) ≡ sort_ids roots rest config nodes
  unfolding sort_nodes lookup
  start_order nodes parsed =
      ids-configs_of nodes (sort_ids roots rest config nodes)
        (own_ids-parse_nodes builders [] config.nodes parsed (λ k n e. cc e))
        (λ v h. omega (arith, h, count-sort_ids roots rest config nodes (sortable nodes parsed) v))

  -- In a graph that was built, where the ranges over the map meet each configured ID as often as it is
  -- configured, in whatever order, each node is started exactly once, also where edges form cycles.
  pub count-ordered_nodes :
      (v : String) → count v (ids g.ordered_nodes) ≡ count v (ids config.nodes)
  count-ordered_nodes v =
      let (nodes, parsed, e) = (build_graph_inv roots rest config builders built).1 in
      rw (e, start_order nodes parsed)
        (count-sort_ids roots rest config nodes (sortable nodes parsed) v
          ∙ count-parsed config builders parsed v)

  -- In a graph that was built, where the ranges over the map meet each configured ID as often as it is
  -- configured, if the IDs can be ranked so that each edge goes upwards, then each node is started
  -- after every node with an edge into it.
  pub precedes-ordered_nodes :
      (rank : String → ℕ)
      → All (λ e. rank e.source < rank e.target) config.edges
      → All (λ e. precedes e.source e.target (ids g.ordered_nodes) ≡ true) config.edges
  precedes-ordered_nodes rank ranked =
      let (nodes, parsed, e) = (build_graph_inv roots rest config builders built).1 in
      rw (e, start_order nodes parsed)
        (precedes-sort_ids roots rest config nodes (sortable nodes parsed) rank ranked)

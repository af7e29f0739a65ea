-- ===== src/Engine/Graph/Topology.antt =====
-- internal/engine/graph.go, sortNodesTopologically: every node is started once, and without cycles
-- each edge's source before its target.
use voce.Prelude.{
  ℕ, zero, suc, ◌≤◌, ◌<◌, ◌≡◌, refl, sym, ap, ◌∙◌, inl, inr, String, true, ◌==◌, ==_iff, ltb,
  if◌then◌else◌, Bool-cases, str-cases, List, [], ◌∷◌, ◌++◌, map, arith, All, length, length-map,
  keep,
}
use voce.Prelude.Count.{
  count, count-nil, count-append, count-keep, count_eq_of_length, precedes, precedes-append,
}
use voce.Prelude.Maps.{lookup}
use voce.Engine.Config.{NodeConfig, EdgeConfig, WorkflowConfig}
use voce.Engine.Graph.Sort.{deg_of, zero_degrees, add_edges, drain, sort_ids}
use voce.Engine.Graph.Edges.{pending, deg_of-add_edges, adj_of-add_edges, deg_of-zero_degrees}
use voce.Engine.Graph.Kahn.{Inv, Keyed, Targets, IsOrdered, drain-Inv}

-- The keys of a map, in the order of the association list.
abbrev pub keys_of {ℓ} : {V : Type ℓ} → List (String × V) → List String
keys_of = map (λ p. p.0)

-- The conditions under which the sort is called, once the configuration has passed its checks:
-- a node map with one entry for each configured node, edges that end in nodes, and two
-- enumerations of its keys.
pub record Sortable (roots rest : List String) (config : WorkflowConfig)
    (nodes : List (String × NodeConfig)) : Type 0 where
  pub keyed : Keyed (keys_of nodes) config.edges
  pub targets : Targets (keys_of nodes) config.edges
  pub sources : All (λ e. 0 < count e.source (keys_of nodes)) config.edges
  pub size : length (keys_of nodes) ≡ length config.nodes
  pub roots_keys : (v : String) → count v roots ≡ count v (keys_of nodes)
  pub rest_keys : (v : String) → count v rest ≡ count v (keys_of nodes)

-- With the sources of lower rank done, nothing of this rank is open.
pending_ranked :
    (rank : String → ℕ) (n : ℕ) (v : String) (keys done : List String) (es : List EdgeConfig)
    → rank v ≤ n
    → All (λ e. rank e.source < rank e.target) es
    → All (λ e. 0 < count e.source keys) es
    → ((u : String) → rank u < n → 0 < count u keys → 0 < count u done)
    → pending v done es ≡ 0
unfolding pending
pending_ranked rank n v keys done [] low ranked sources below = refl
pending_ranked rank n v keys done (e ∷ es) low ranked sources below =
    let others = pending_ranked rank n v keys done es low ranked.1 sources.1 below in
    elim (str-cases e.target v) [
      | inl (same, t) ↦ ground (arith, others, t, ap rank same, below e.source)
      | inr (other, t) ↦ ground (arith, others, t)
    ]

targets_before :
    (es : List EdgeConfig) (keys ordered : List String)
    → All (λ e. 0 < count e.target keys) es
    → ((v : String) → 0 < count v keys → 0 < count v ordered)
    → IsOrdered es ordered
    → All (λ e. precedes e.source e.target ordered ≡ true) es
targets_before [] keys ordered targets all sorted = tt
targets_before (e ∷ es) keys ordered targets all sorted = (
  ground (arith, all e.target targets.0, sorted.0),
  targets_before es keys ordered targets.1 all sorted.1,
)

precedes-append-All :
    (es : List EdgeConfig) (xs ys : List String)
    → All (λ e. precedes e.source e.target xs ≡ true) es
    → All (λ e. precedes e.source e.target (xs ++ ys) ≡ true) es
precedes-append-All [] xs ys h = tt
precedes-append-All (e ∷ es) xs ys h =
    (precedes-append e.source e.target xs ys h.0, precedes-append-All es xs ys h.1)

module _ (roots rest : List String) (config : WorkflowConfig) (nodes : List (String × NodeConfig))
    (s : Sortable roots rest config nodes) where
  abbrev keys : List String
  keys = keys_of nodes

  abbrev tables : List (String × List String) × List (String × ℕ)
  tables = add_edges config.edges ([], zero_degrees nodes)

  abbrev first_queue : List String
  first_queue = keep (λ id. deg_of tables.1 id == 0) roots

  degrees : (v : String) → deg_of tables.1 v ≡ pending v [] config.edges
  degrees v =
      omega (
        arith,
        deg_of-add_edges v config.edges [] (zero_degrees nodes),
        deg_of-zero_degrees v nodes,
      )

  queued : (v : String) → count v first_queue ≡ (if deg_of tables.1 v == 0 then count v keys else 0)
  queued v =
      count-keep (λ id. deg_of tables.1 id == 0) v roots
      ∙ ap (λ n. if deg_of tables.1 v == 0 then n else 0) (s.roots_keys v)

  nothing_served : (es : List EdgeConfig) → IsOrdered es []
  nothing_served [] = tt
  nothing_served (e ∷ es) = (inl (count-nil e.target), nothing_served es)

  start-Inv : Inv keys config.edges [] first_queue tables.1
  start-Inv = record {
    deg_pending = degrees;
    once = λ v. ground (arith, queued v, count-nil v);
    ready = λ v h. ground (arith, queued v, count-nil v);
    served = λ v key zero. ground (arith, queued v, count-nil v);
    sorted = nothing_served config.edges;
  }

  abbrev served : List String × List String × List (String × ℕ)
  served = drain (length nodes) tables.0 ([], first_queue, tables.1)

  served-Inv : (served.1 ≡ []) × Inv keys config.edges served.0 served.1 served.2
  unfolding lookup
  served-Inv =
      drain-Inv keys config.edges s.keyed s.targets (length nodes) tables.0
        (λ k. adj_of-add_edges k config.edges [] (zero_degrees nodes)) [] first_queue tables.1
        (omega (arith, length-map nodes (λ p. p.0))) start-Inv

  served-count : (v : String) → count v served.0 ≤ count v keys
  served-count v = omega (arith, served-Inv.1.once v)

  unserved : (v : String) → 0 < count v keys → count v served.0 ≡ 0 → 0 < deg_of served.2 v
  unserved v key absent = ground (arith, served-Inv.1.served v key, served-Inv.0, count-nil v)

  remnants :
      (v : String)
      → count v (keep (λ id. ltb 0 (deg_of served.2 id)) rest)
        ≡ (if ltb 0 (deg_of served.2 v) then count v keys else 0)
  remnants v =
      count-keep (λ id. ltb 0 (deg_of served.2 id)) v rest
      ∙ ap (λ n. if ltb 0 (deg_of served.2 v) then n else 0) (s.rest_keys v)

  all_served :
      length served.0 ≡ length config.nodes → (v : String) → count v served.0 ≡ count v keys
  all_served full v = count_eq_of_length served.0 keys served-count (full ∙ sym s.size) v

  -- Each node of the configuration is started exactly once, whether or not the edges have cycles.
  pub count-sort_ids : (v : String) → count v (sort_ids roots rest config nodes) ≡ count v keys
  unfolding sort_ids
  count-sort_ids v = elim (Bool-cases (length served.0 == length config.nodes)) [
    | inl full ↦ rw full (all_served ((==_iff _ _).0 full) v)
    | inr short ↦ rw short (
        ground (
          arith,
          count-append v served.0 (keep (λ id. ltb 0 (deg_of served.2 id)) rest),
          remnants v,
          served-count v,
          unserved v,
          served-Inv.1.ready v,
          s.keyed v,
        ))
  ]

  module _ (rank : String → ℕ)
      (ranked : All (λ e. rank e.source < rank e.target) config.edges) where
    ranked_served : (n : ℕ) (v : String) → rank v < n → 0 < count v keys → 0 < count v served.0
    ranked_served zero v low key = elim low [ ]
    ranked_served (suc n) v low key =
        let none_open =
          pending_ranked rank n v keys served.0 config.edges (omega arith) ranked s.sources
            (ranked_served n) in
        ground (arith, none_open, served-Inv.1.deg_pending v, unserved v key)

    -- If the edges can be ranked, so that each goes upwards, then each node starts after all the
    -- nodes with an edge into it.
    pub precedes-sort_ids :
        All (λ e. precedes e.source e.target (sort_ids roots rest config nodes) ≡ true) config.edges
    unfolding sort_ids
    precedes-sort_ids =
        let before =
          targets_before config.edges keys served.0 s.targets
            (λ v. ranked_served (suc (rank v)) v (omega arith)) served-Inv.1.sorted in
        elim (Bool-cases (length served.0 == length config.nodes)) [
          | inl full ↦ rw full before
          | inr short ↦ rw short (precedes-append-All config.edges served.0 _ before)
        ]

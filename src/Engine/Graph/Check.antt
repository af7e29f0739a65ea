-- ===== src/Engine/Graph/Check.antt =====
-- internal/engine/graph.go: what the checks of BuildGraph establish.
use voce.Prelude.{
  ◌+◌, ◌≤◌, ◌≡◌, refl, ◌⊎◌, inl, inr, ◌≢◌, ◌↔◌, String, Bool, true, ltb, if◌then◌else◌, str_eq,
  eq_iff, none, some, List, [], ◌∷◌, map, arith, All, is_some, Option-cases,
}
use voce.Prelude.Count.{count}
use voce.Prelude.Maps.{lookup, insert, lookup-insert}
use voce.Prelude.Results.{ok, >>=-eq-ok}
use voce.Engine.Config.{NodeConfig, EdgeConfig, Builder}
use voce.Engine.Property.{validate_properties}
use voce.Engine.Graph.Topology.{keys_of}
use voce.Engine.Graph.{
  Nodes, Builders, parse_nodes, check_self_loops, edge_prefix, check_edge, validate_edge_contracts,
}

abbrev pub ids : List NodeConfig → List String
ids = map (λ n. n.id)

module _ {ℓ} {V : Type ℓ} where
  pub is_some-lookup :
      (k : String) (m : List (String × V)) → is_some (lookup k m) ≡ ltb 0 (count k (keys_of m))
  unfolding lookup count
  is_some-lookup k [] = ground arith
  is_some-lookup k ((j, v) ∷ m) = ground (arith, is_some-lookup k m)

  count-keys-insert :
      (v k : String) (x : V) (m : List (String × V))
      → count v (keys_of (insert k x m))
        ≡ count v (keys_of m) + (if is_some (lookup k m) then 0 else if str_eq k v then 1 else 0)
  unfolding lookup insert count
  count-keys-insert v k x [] = ground arith
  count-keys-insert v k x ((j, w) ∷ m) =
      ground (arith, count-keys-insert v k x m, eq_iff j k, eq_iff j v, eq_iff k v)

parse_nodes_inv :
    (m : Nodes) (n : NodeConfig) (ns : List NodeConfig) (builders : Builders) {m' : Nodes}
    → parse_nodes m (n ∷ ns) builders ≡ ok m'
    → (lookup n.id m ≡ none)
      × (is_some (lookup n.id builders) ≡ true)
      × (parse_nodes (insert n.id n m) ns builders ≡ ok m')
unfolding parse_nodes
parse_nodes_inv m n ns builders h = ground arith

module _ (builders : Builders) {parsed : Nodes} where
  -- The parsed map has the old keys and one for each node.
  pub count-parse_nodes :
      (v : String) (m : Nodes) (ns : List NodeConfig)
      → parse_nodes m ns builders ≡ ok parsed
      → count v (keys_of parsed) ≡ count v (keys_of m) + count v (ids ns)
  unfolding parse_nodes count
  count-parse_nodes v m [] h = ground arith
  count-parse_nodes v m (n ∷ ns) h =
      let (fresh, _, more) = parse_nodes_inv m n ns builders h in
      ground
        (arith, fresh, count-parse_nodes v (insert n.id n m) ns more, count-keys-insert v n.id n m)

  pub keyed-parse_nodes :
      (m : Nodes) (ns : List NodeConfig)
      → parse_nodes m ns builders ≡ ok parsed
      → ((v : String) → count v (keys_of m) ≤ 1)
      → (v : String) → count v (keys_of parsed) ≤ 1
  unfolding parse_nodes
  keyed-parse_nodes m [] h keyed v = ground (arith, keyed v)
  keyed-parse_nodes m (n ∷ ns) h keyed v =
      let (fresh, _, more) = parse_nodes_inv m n ns builders h in
      keyed-parse_nodes (insert n.id n m) ns more
        (λ u. ground (
          arith,
          fresh,
          keyed u,
          count-keys-insert u n.id n m,
          is_some-lookup n.id m,
          eq_iff n.id u,
        ))
        v

  kept-parse_nodes :
      (k : String) (x : NodeConfig) (m : Nodes) (ns : List NodeConfig)
      → parse_nodes m ns builders ≡ ok parsed
      → lookup k m ≡ some x
      → lookup k parsed ≡ some x
  unfolding parse_nodes
  kept-parse_nodes k x m [] h old = ground (arith, old)
  kept-parse_nodes k x m (n ∷ ns) h old =
      let (fresh, _, more) = parse_nodes_inv m n ns builders h in
      kept-parse_nodes k x (insert n.id n m) ns more
        (ground (arith, fresh, old, lookup-insert n.id k n m, eq_iff n.id k))

  -- Each node is found under its ID.
  pub lookup-parse_nodes :
      (m : Nodes) (ns : List NodeConfig)
      → parse_nodes m ns builders ≡ ok parsed
      → All (λ n. (lookup n.id parsed ≡ some n) × (is_some (lookup n.id builders) ≡ true)) ns
  lookup-parse_nodes m [] h = tt
  lookup-parse_nodes m (n ∷ ns) h =
      let (fresh, built, more) = parse_nodes_inv m n ns builders h in
      (
        (
          kept-parse_nodes n.id n (insert n.id n m) ns more
              (ground (arith, lookup-insert n.id n.id n m, eq_iff n.id n.id)),
          built,
        ),
        lookup-parse_nodes (insert n.id n m) ns more,
      )

  -- A map whose entries stand under their own IDs stays one.
  pub own_ids-parse_nodes :
      (m : Nodes) (ns : List NodeConfig)
      → parse_nodes m ns builders ≡ ok parsed
      → ((k : String) (n : NodeConfig) → lookup k m ≡ some n → n.id ≡ k)
      → (k : String) (n : NodeConfig) → lookup k parsed ≡ some n
      → n.id ≡ k
  unfolding parse_nodes
  own_ids-parse_nodes m [] h own k x e = own k x (ground (arith, h, e))
  own_ids-parse_nodes m (n ∷ ns) h own k x e =
      let (fresh, _, more) = parse_nodes_inv m n ns builders h in
      own_ids-parse_nodes (insert n.id n m) ns more
        (λ j y f. ground (arith, f, own j y, lookup-insert n.id j n m, eq_iff n.id j)) k x e

module _ (builders : Builders) where
  -- Distinct new IDs with a builder each are parsed.
  pub parse_nodes_total :
      (m : Nodes) (ns : List NodeConfig)
      → ((v : String) → count v (keys_of m) + count v (ids ns) ≤ 1)
      → All (λ n. is_some (lookup n.id builders) ≡ true) ns
      → (m' : Nodes) × (parse_nodes m ns builders ≡ ok m')
  unfolding parse_nodes count
  parse_nodes_total m [] once built = (m, refl)
  parse_nodes_total m (n ∷ ns) once built =
      let fresh : lookup n.id m ≡ none =
        ground (arith, once n.id, is_some-lookup n.id m, eq_iff n.id n.id) in
      let (m', rest) =
        parse_nodes_total (insert n.id n m) ns
          (λ v. ground (arith, fresh, once v, count-keys-insert v n.id n m)) built.1 in
      (m', rw fresh (rw built.0 rest))

-- No edge leads from a node to itself.
abbrev pub NoLoops : List EdgeConfig → Type 0
NoLoops = All (λ e. e.source ≢ e.target)

pub check_self_loops_iff : (es : List EdgeConfig) → (check_self_loops es ≡ ok tt) ↔ NoLoops es
unfolding check_self_loops
check_self_loops_iff [] = ((λ _. tt), λ _. refl)
check_self_loops_iff (e ∷ es) =
    let same = eq_iff e.source e.target in
    let others = check_self_loops_iff es in
    (
      (λ h. ((λ p. ground (arith, h, same.1 p)), others.0 (ground (arith, h)))),
      λ free. ground (arith, same, free.0, others.1 free.1),
    )

-- What one edge needs: both ends are nodes, the type has a prefix, and the two plugins keep the
-- contract of that prefix.
pub record ValidEdge (known : String → Bool) (builders : Builders) (e : EdgeConfig) : Type 0 where
  pub source_known : known e.source ≡ true
  pub target_known : known e.target ≡ true
  pub agreed :
      (src : Builder) × (tgt : Builder) × (prefix : String) × (lookup e.source builders ≡ some src)
      × (lookup e.target builders ≡ some tgt)
      × (edge_prefix e.type ≡ some prefix)
      × (validate_properties src.outputs tgt.inputs prefix ≡ ok tt)

pub check_edge_iff :
    (nodes : Nodes) (e : EdgeConfig) (builders : Builders)
    → (check_edge nodes e builders ≡ ok tt) ↔ ValidEdge (λ id. is_some (lookup id nodes)) builders e
unfolding check_edge
check_edge_iff nodes e builders = (
  (λ h. record {
    source_known = ground (arith, h);
    target_known = ground (arith, h);
    agreed =
        agrees h (Option-cases (lookup e.source builders)) (Option-cases (lookup e.target builders))
          (Option-cases (edge_prefix e.type));
  }),
  λ v.
      let (src, tgt, prefix, s, t, p, valid) = v.agreed in
      rw v.source_known (rw v.target_known (rw s (rw t (rw p (rw valid))))),
)
  where
    agrees :
        check_edge nodes e builders ≡ ok tt
        → (lookup e.source builders ≡ none) ⊎ ((b : Builder) × (lookup e.source builders ≡ some b))
        → (lookup e.target builders ≡ none) ⊎ ((b : Builder) × (lookup e.target builders ≡ some b))
        → (edge_prefix e.type ≡ none) ⊎ ((p : String) × (edge_prefix e.type ≡ some p))
        → (src : Builder) × (tgt : Builder) × (prefix : String) × (lookup e.source builders
            ≡ some src)
          × (lookup e.target builders ≡ some tgt)
          × (edge_prefix e.type ≡ some prefix)
          × (validate_properties src.outputs tgt.inputs prefix ≡ ok tt)
    agrees h (inl s) t p = absurd (ground (arith, h, s))
    agrees h (inr (src, s)) (inl t) p = absurd (ground (arith, h, s, t))
    agrees h (inr (src, s)) (inr (tgt, t)) (inl p) = absurd (ground (arith, h, s, t, p))
    agrees h (inr (src, s)) (inr (tgt, t)) (inr (prefix, p)) =
        (src, tgt, prefix, s, t, p, ground (arith, h, s, t, p))

pub validate_edge_contracts_iff :
    (nodes : Nodes) (es : List EdgeConfig) (builders : Builders)
    → (validate_edge_contracts nodes es builders ≡ ok tt)
      ↔ All (ValidEdge (λ id. is_some (lookup id nodes)) builders) es
unfolding validate_edge_contracts
validate_edge_contracts_iff nodes [] builders = ((λ _. tt), λ _. refl)
validate_edge_contracts_iff nodes (e ∷ es) builders =
    let first = check_edge_iff nodes e builders in
    let others = validate_edge_contracts_iff nodes es builders in
    (
      (λ h.
          let (_, checked, more) = >>=-eq-ok (check_edge nodes e builders) _ h in
          (first.0 checked, others.0 more)),
      λ valid. rw (first.1 valid.0) (others.1 valid.1),
    )

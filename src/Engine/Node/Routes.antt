-- ===== src/Engine/Node/Routes.antt =====
-- internal/engine/node.go: what the routing tables hold, and what is sent by them.
use voce.Prelude.{
  ℕ, ◌≡◌, refl, Bool, true, false, not, ◌&&◌, ◌||◌, ◌==◌, ltb, List, [], ◌∷◌, arith, length,
  contains, contains-append, Distinct, Distinct-snoc, inl, inr, Bool-cases, get_or, set, length-set,
  get_or-set, get_or-replicate, String,
}
use voce.Prelude.Int.{ℤ}
use voce.Engine.Config.{EventType}
use voce.Engine.Node.{
  RouteTable, BaseNode, empty_table, max_port_count, new_base_node, add_once, add_route,
  add_next_node, add_next_port_node, routes,
}

-- The two events are one that nodes route.
abbrev pub same_event : EventType → EventType → Bool
same_event EventType.signal EventType.signal = true
same_event EventType.payload EventType.payload = true
same_event EventType.audio EventType.audio = true
same_event EventType.video EventType.video = true
same_event _ _ = false

contains-add_once :
    (xs : List ℕ) (n m : ℕ) → contains (add_once xs n) m ≡ ((n == m) || contains xs m)
unfolding add_once
contains-add_once xs n m = elim (Bool-cases (contains xs n)) [
  | inl old ↦ ground (arith, old)
  | inr new ↦ ground (arith, new, contains-append xs (n ∷ []) m)
]

add_once-Distinct : (xs : List ℕ) (n : ℕ) → Distinct xs → Distinct (add_once xs n)
unfolding add_once
add_once-Distinct xs n d = elim (Bool-cases (contains xs n)) [
  | inl old ↦ rw old d
  | inr new ↦ rw new (Distinct-snoc xs n d new)
]

pub contains-add_route :
    (ev added : EventType) (n m : ℕ) (t : RouteTable)
    → contains (routes ev (add_route added n t)) m
      ≡ ((same_event ev added && (n == m)) || contains (routes ev t) m)
unfolding routes add_route
contains-add_route EventType.signal EventType.signal n m t = contains-add_once t.signals n m
contains-add_route EventType.payload EventType.payload n m t = contains-add_once t.payloads n m
contains-add_route EventType.audio EventType.audio n m t = contains-add_once t.audios n m
contains-add_route EventType.video EventType.video n m t = contains-add_once t.videos n m
contains-add_route _ _ n m t = refl

add_route-Distinct :
    (ev added : EventType) (n : ℕ) (t : RouteTable)
    → Distinct (routes ev t)
    → Distinct (routes ev (add_route added n t))
unfolding routes add_route
add_route-Distinct EventType.signal EventType.signal n t d = add_once-Distinct t.signals n d
add_route-Distinct EventType.payload EventType.payload n t d = add_once-Distinct t.payloads n d
add_route-Distinct EventType.audio EventType.audio n t d = add_once-Distinct t.audios n d
add_route-Distinct EventType.video EventType.video n t d = add_once-Distinct t.videos n d
add_route-Distinct _ _ n t d = d

abbrev port_routes : EventType → BaseNode → ℕ → List ℕ
port_routes ev b p = routes ev (get_or b.port_table p empty_table)

-- No list names a node twice, there are twelve ports, and what a port reaches a broadcast reaches.
pub record IsRouted (b : BaseNode) : Type 0 where
  pub distinct : (ev : EventType) → Distinct (routes ev b.table)
  pub port_distinct : (ev : EventType) (p : ℕ) → Distinct (port_routes ev b p)
  pub ports : length b.port_table ≡ max_port_count
  pub broadcast :
      (ev : EventType) (p m : ℕ)
      → (not (contains (port_routes ev b p) m) || contains (routes ev b.table) m) ≡ true

empty_routes : (ev : EventType) → routes ev empty_table ≡ []
unfolding routes
empty_routes EventType.signal = refl
empty_routes _ = refl

-- A new node is routed, and adding routes, to a port or to all, keeps it so.
pub new_base_node-IsRouted : (name : String) → IsRouted (new_base_node name)
unfolding new_base_node
new_base_node-IsRouted name = record {
  distinct = λ ev. rw (empty_routes ev) tt;
  port_distinct = λ ev p. rw (get_or-replicate max_port_count p empty_table, empty_routes ev) tt;
  ports = refl;
  broadcast = λ ev p m. rw (get_or-replicate max_port_count p empty_table, empty_routes ev) refl;
}

pub add_next_node-IsRouted :
    (ev : EventType) (n : ℕ) (b : BaseNode) → IsRouted b → IsRouted (add_next_node ev n b)
unfolding add_next_node
add_next_node-IsRouted ev n b r = record {
  distinct = λ ev'. add_route-Distinct ev' ev n b.table (r.distinct ev');
  port_distinct = r.port_distinct;
  ports = r.ports;
  broadcast = λ ev' p m. ground (arith, r.broadcast ev' p m, contains-add_route ev' ev n m b.table);
}

add_port-IsRouted :
    (ev : EventType) (n p : ℕ) (b : BaseNode)
    → IsRouted b
    → IsRouted (record b {
      port_table = set b.port_table p (add_route ev n (get_or b.port_table p empty_table));
      table = add_route ev n b.table;
    })
add_port-IsRouted ev n p b r = record {
  distinct = λ ev'. add_route-Distinct ev' ev n b.table (r.distinct ev');
  port_distinct = λ ev' q. elim (Bool-cases ((p == q) && ltb p (length b.port_table))) [
    | inl hit ↦
        rw (get_or-set b.port_table p q new empty_table, hit)
          (add_route-Distinct ev' ev n old (r.port_distinct ev' p))
    | inr miss ↦ rw (get_or-set b.port_table p q new empty_table, miss) (r.port_distinct ev' q)
  ];
  ports = ground (arith, r.ports, length-set b.port_table p new);
  broadcast = λ ev' q m. elim (Bool-cases ((p == q) && ltb p (length b.port_table))) [
    | inl hit ↦
        rw (get_or-set b.port_table p q new empty_table, hit)
          (ground (
            arith,
            r.broadcast ev' p m,
            contains-add_route ev' ev n m old,
            contains-add_route ev' ev n m b.table,
          ))
    | inr miss ↦
        rw (get_or-set b.port_table p q new empty_table, miss)
          (ground (arith, r.broadcast ev' q m, contains-add_route ev' ev n m b.table))
  ];
}
  where
    old : RouteTable
    old = get_or b.port_table p empty_table

    new : RouteTable
    new = add_route ev n old

pub add_next_port_node-IsRouted :
    (ev : EventType) (n : ℕ) (port : ℤ) (b : BaseNode)
    → IsRouted b
    → IsRouted (add_next_port_node ev n port b)
unfolding add_next_port_node
add_next_port_node-IsRouted ev n (ℤ.negsuc k) b r = r
add_next_port_node-IsRouted ev n (ℤ.pos p) b r = elim (Bool-cases (ltb p max_port_count)) [
  | inl inside ↦ rw (inside, add_next_port_node) (add_port-IsRouted ev n p b r)
  | inr outside ↦ rw (outside, add_next_port_node) r
]

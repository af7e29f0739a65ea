-- ===== src/Engine/Graph/Edges.antt =====
-- internal/engine/graph.go, sortNodesTopologically: degrees and successors, read off the edges.
use voce.Prelude.{
  ℕ, ◌+◌, ◌-◌, ◌≤◌, ◌<◌, ◌≡◌, refl, sym, ◌∙◌, ◌⊎◌, inl, inr, ◌≢◌, String, ◌&&◌, ◌==◌, ltb,
  if◌then◌else◌, str_eq, eq_iff, List, [], ◌∷◌, ◌++◌, arith, All, str-cases,
}
use voce.Prelude.Count.{count, count-nil, count-append}
use voce.Prelude.Maps.{lookup, insert, lookup-insert}
use mathlib.Core.List.{append-nil, append_assoc}
use voce.Engine.Config.{NodeConfig, EdgeConfig}
use voce.Engine.Graph.Sort.{deg_of, adj_of, zero_degrees, add_edges, relax}

-- The edges into `v` whose source is not among `done`.
unfoldable pub pending : String → List String → List EdgeConfig → ℕ
pending v done [] = 0
pending v done (e ∷ es) =
    (if str_eq e.target v && (count e.source done == 0) then 1 else 0) + pending v done es

-- The targets of the edges out of `k`, in order.
unfoldable pub succs : String → List EdgeConfig → List String
succs k [] = []
succs k (e ∷ es) = let rest = succs k es in if str_eq e.source k then e.target ∷ rest else rest

deg_of-insert :
    (k v : String) (n : ℕ) (m : List (String × ℕ))
    → deg_of (insert k n m) v ≡ (if str_eq k v then n else deg_of m v)
deg_of-insert k v n m = ground (arith, lookup-insert k v n m)

adj_of-insert :
    (k v : String) (l : List String) (m : List (String × List String))
    → adj_of (insert k l m) v ≡ (if str_eq k v then l else adj_of m v)
adj_of-insert k v l m = ground (arith, lookup-insert k v l m)

pub deg_of-add_edges :
    (v : String) (es : List EdgeConfig) (adj : List (String × List String))
    (deg : List (String × ℕ))
    → deg_of (add_edges es (adj, deg)).1 v ≡ deg_of deg v + pending v [] es
unfolding add_edges pending
deg_of-add_edges v [] adj deg = omega arith
deg_of-add_edges v (e ∷ es) adj deg = ground (
  arith,
  deg_of-add_edges v es (insert e.source (adj_of adj e.source ++ (e.target ∷ [])) adj)
      (insert e.target (deg_of deg e.target + 1) deg),
  deg_of-insert e.target v (deg_of deg e.target + 1) deg,
  eq_iff e.target v,
  count-nil e.source,
)

pub adj_of-add_edges :
    (k : String) (es : List EdgeConfig) (adj : List (String × List String))
    (deg : List (String × ℕ))
    → adj_of (add_edges es (adj, deg)).0 k ≡ adj_of adj k ++ succs k es
unfolding add_edges succs
adj_of-add_edges k [] adj deg = sym (append-nil _)
adj_of-add_edges k (e ∷ es) adj deg =
    let adj' = insert e.source (adj_of adj e.source ++ (e.target ∷ [])) adj in
    let deg' = insert e.target (deg_of deg e.target + 1) deg in
    adj_of-add_edges k es adj' deg'
    ∙ ground (
      arith,
      adj_of-insert e.source k (adj_of adj e.source ++ (e.target ∷ [])) adj,
      eq_iff e.source k,
      append_assoc (adj_of adj k) (e.target ∷ []) (succs k es),
    )

pub deg_of-zero_degrees :
    (v : String) (m : List (String × NodeConfig)) → deg_of (zero_degrees m) v ≡ 0
unfolding zero_degrees lookup
deg_of-zero_degrees v [] = refl
deg_of-zero_degrees v ((id, n) ∷ m) =
    ground (arith, deg_of-insert id v 0 (zero_degrees m), deg_of-zero_degrees v m)

-- One more node is done: its edges are no longer open.
pub pending-done :
    (v curr : String) (done : List String) (es : List EdgeConfig)
    → count curr done ≡ 0
    → pending v done es ≡ pending v (done ++ (curr ∷ [])) es + count v (succs curr es)
unfolding pending succs count
pending-done v curr done [] h = omega arith
pending-done v curr done (e ∷ es) h = ground (
  arith,
  pending-done v curr done es h,
  count-append e.source done (curr ∷ []),
  eq_iff curr e.source,
  eq_iff e.source curr,
)

pub deg_of-relax :
    (v : String) (nexts queue : List String) (deg : List (String × ℕ))
    → deg_of (relax nexts (queue, deg)).1 v ≡ deg_of deg v - count v nexts
unfolding relax count
deg_of-relax v [] queue deg = omega arith
deg_of-relax v (x ∷ xs) queue deg = ground (
  arith,
  deg_of-relax v xs (if (deg_of deg x - 1) == 0 then queue ++ (x ∷ []) else queue)
      (insert x (deg_of deg x - 1) deg),
  deg_of-insert x v (deg_of deg x - 1) deg,
  eq_iff x v,
)

-- A successor joins the queue with its last open edge, once.
pub count-relax :
    (v : String) (nexts queue : List String) (deg : List (String × ℕ))
    → count v nexts ≤ deg_of deg v
    → count v (relax nexts (queue, deg)).0
      ≡ count v queue + (if ltb 0 (count v nexts) && (count v nexts == deg_of deg v) then 1 else 0)
unfolding relax count
count-relax v [] queue deg h = ground arith
count-relax v (x ∷ xs) queue deg h = ground (
  arith,
  count-relax v xs (if (deg_of deg x - 1) == 0 then queue ++ (x ∷ []) else queue)
      (insert x (deg_of deg x - 1) deg),
  deg_of-insert x v (deg_of deg x - 1) deg,
  count-append v queue (x ∷ []),
  eq_iff x v,
)

-- Every open edge is among the pending ones, so with none pending all sources are done.
pub pending_none :
    (v : String) (done : List String) (es : List EdgeConfig)
    → pending v done es ≡ 0
    → All (λ e. (e.target ≢ v) ⊎ (0 < count e.source done)) es
unfolding pending
pending_none v done [] h = tt
pending_none v done (e ∷ es) h = elim (str-cases e.target v) [
  | inl (same, t) ↦ (inr (ground (arith, t)), pending_none v done es (ground (arith, t)))
  | inr (other, t) ↦ (inl other, pending_none v done es (ground (arith, t)))
]

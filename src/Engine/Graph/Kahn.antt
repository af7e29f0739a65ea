-- ===== src/Engine/Graph/Kahn.antt =====
-- internal/engine/graph.go, sortNodesTopologically: the invariant of the loop over the queue.
use mathlib.Core.Path.{subst}
use voce.Prelude.{
  sym, ℕ, zero, suc, ◌+◌, ◌≤◌, ◌<◌, ◌≡◌, refl, ◌⊎◌, inl, inr, ◌≢◌, String, true, ◌&&◌, ◌==◌, ltb,
  if◌then◌else◌, eq_iff, List, [], ◌∷◌, ◌++◌, arith, All, length, length-append,
}
use voce.Prelude.Count.{
  count, count-nil, count-cons, count-append, length-le_of_count, precedes, precedes-append,
  precedes_new,
}
use voce.Engine.Config.{EdgeConfig}
use voce.Engine.Graph.Sort.{deg_of, adj_of, relax, drain}
use voce.Engine.Graph.Edges.{pending, succs, pending-done, deg_of-relax, count-relax, pending_none}

-- Each edge whose target has been served has its source before it.
abbrev pub IsOrdered : List EdgeConfig → List String → Type 0
IsOrdered es ordered =
    All (λ e. (count e.target ordered ≡ 0) ⊎ (precedes e.source e.target ordered ≡ true)) es

IsOrdered-step :
    (es : List EdgeConfig) (ordered : List String) (curr : String)
    → count curr ordered ≡ 0
    → All (λ e. (e.target ≢ curr) ⊎ (0 < count e.source ordered)) es
    → IsOrdered es ordered
    → IsOrdered es (ordered ++ (curr ∷ []))
IsOrdered-step [] ordered curr fresh open_done sorted = tt
IsOrdered-step (e ∷ es) ordered curr fresh open_done sorted =
    (one sorted.0 open_done.0, IsOrdered-step es ordered curr fresh open_done.1 sorted.1)
  where
    one :
        (count e.target ordered ≡ 0) ⊎ (precedes e.source e.target ordered ≡ true)
        → (e.target ≢ curr) ⊎ (0 < count e.source ordered)
        → (count e.target (ordered ++ (curr ∷ [])) ≡ 0)
          ⊎ (precedes e.source e.target (ordered ++ (curr ∷ [])) ≡ true)
    one (inr before) _ = inr (precedes-append e.source e.target ordered (curr ∷ []) before)
    one (inl absent) (inl other) = inl (
        ground (
          arith,
          count-append e.target ordered (curr ∷ []),
          count-cons e.target curr [],
          count-nil e.target,
          eq_iff curr e.target,
        ))
    one (inl absent) (inr source_done) =
        inr (precedes_new e.source e.target ordered (curr ∷ []) source_done absent)

-- The state between two rounds: `keys` are the nodes, each once; every edge ends in one.
module _ (keys : List String) (edges : List EdgeConfig) where
  pub record Inv (ordered queue : List String) (deg : List (String × ℕ)) : Type 0 where
    pub deg_pending : (v : String) → deg_of deg v ≡ pending v ordered edges
    pub once : (v : String) → count v ordered + count v queue ≤ count v keys
    pub ready : (v : String) → 0 < count v ordered + count v queue → deg_of deg v ≡ 0
    pub served :
        (v : String) → 0 < count v keys → deg_of deg v ≡ 0 → 0 < count v ordered + count v queue
    pub sorted : IsOrdered edges ordered

  abbrev pub Keyed : Type 0
  Keyed = (v : String) → count v keys ≤ 1

  -- Every target is a node.
  abbrev pub Targets : Type 0
  Targets = All (λ e. 0 < count e.target keys) edges

  module _ (keyed : Keyed) (targets : Targets) where
    succs-keys :
        (es : List EdgeConfig) (v k : String)
        → All (λ e. 0 < count e.target keys) es
        → 0 < count v (succs k es)
        → 0 < count v keys
    unfolding succs count
    succs-keys [] v k t h = absurd (omega arith)
    succs-keys (e ∷ es) v k t h = ground (arith, succs-keys es v k t.1, eq_iff e.target v)

    step-Inv :
        (ordered queue : List String) (curr : String) (deg : List (String × ℕ))
        → Inv ordered (curr ∷ queue) deg
        → let r = relax (succs curr edges) (queue, deg) in Inv (ordered ++ (curr ∷ [])) r.0 r.1
    step-Inv ordered queue curr deg inv = record {
      deg_pending = λ v. omega (arith, inv.deg_pending v, splits v, deg_of-relax v nexts queue deg);
      once = λ v. ground (arith, inv.once v, inv.ready v, counted v, joins v, targeted v, low v);
      ready = λ v h.
          ground (arith, inv.ready v, counted v, joins v, low v, deg_of-relax v nexts queue deg);
      served = λ v key zero.
          ground
            (arith, inv.served v key, counted v, joins v, low v, deg_of-relax v nexts queue deg);
      sorted =
          IsOrdered-step edges ordered curr fresh
            (pending_none curr ordered edges
              (omega (arith, inv.deg_pending curr, inv.ready curr queued)))
            inv.sorted;
    }
      where
        nexts : List String
        nexts = succs curr edges

        queued : 0 < count curr ordered + count curr (curr ∷ queue)
        queued = ground (arith, count-cons curr curr queue, eq_iff curr curr)

        fresh : count curr ordered ≡ 0
        fresh =
            ground (arith, inv.once curr, keyed curr, count-cons curr curr queue, eq_iff curr curr)

        splits :
            (v : String)
            → pending v ordered edges ≡ pending v (ordered ++ (curr ∷ [])) edges + count v nexts
        splits v = pending-done v curr ordered edges fresh

        low : (v : String) → count v nexts ≤ deg_of deg v
        low v = omega (arith, splits v, inv.deg_pending v)

        joins :
            (v : String)
            → count v (relax nexts (queue, deg)).0
              ≡ count v queue
                + (if ltb 0 (count v nexts) && (count v nexts == deg_of deg v) then 1 else 0)
        joins v = count-relax v nexts queue deg (low v)

        counted :
            (v : String)
            → count v (ordered ++ (curr ∷ [])) + count v queue
              ≡ count v ordered + count v (curr ∷ queue)
        counted v = omega (
          arith,
          count-append v ordered (curr ∷ []),
          count-cons v curr [],
          count-cons v curr queue,
          count-nil v,
        )

        targeted : (v : String) → 0 < count v nexts → 0 < count v keys
        targeted v = succs-keys edges v curr targets

    -- With a round of fuel for each node that is not served yet, the queue runs empty.
    pub drain-Inv :
        (fuel : ℕ) (adj : List (String × List String))
        → ((k : String) → adj_of adj k ≡ succs k edges)
        → (ordered queue : List String) (deg : List (String × ℕ))
        → length keys ≤ fuel + length ordered
        → Inv ordered queue deg
        → let r = drain fuel adj (ordered, queue, deg) in (r.1 ≡ []) × Inv r.0 r.1 r.2
    unfolding drain
    drain-Inv zero adj successors ordered [] deg enough inv = (refl, inv)
    drain-Inv zero adj successors ordered (q ∷ qs) deg enough inv = absurd (
        omega (
          arith,
          enough,
          length-append ordered (q ∷ qs),
          length-le_of_count (ordered ++ (q ∷ qs)) keys
              (λ v. omega (arith, inv.once v, count-append v ordered (q ∷ qs))),
        ))
    drain-Inv (suc fuel) adj successors ordered [] deg enough inv = (refl, inv)
    drain-Inv (suc fuel) adj successors ordered (q ∷ qs) deg enough inv =
        let (queue', deg') = relax (succs q edges) (qs, deg) in
        subst
          (λ l.
            let r = relax l (qs, deg) in
            let t = drain fuel adj (ordered ++ (q ∷ []), r.0, r.1) in (t.1 ≡ []) × Inv t.0 t.1 t.2)
          (sym (successors q))
          (drain-Inv fuel adj successors (ordered ++ (q ∷ [])) queue' deg'
            (omega (arith, enough, length-append ordered (q ∷ []))) (step-Inv ordered qs q deg inv))

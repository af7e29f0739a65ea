-- ===== src/Machine/Routes.antt =====
-- internal/machine/pool.go: which connection a session gets.
use voce.Prelude.{
  ℕ, zero, suc, ◌≤◌, ◌≡◌, refl, String, Bool, true, false, ◌==◌, if◌then◌else◌, Option, none, some,
  is_some, List, [], ◌∷◌, length, arith, inl, inr, Option-cases, Bool-cases,
}
use voce.Prelude.Maps.{lookup}
use voce.Protocol.Types.{ConnectionState}
use voce.Machine.{
  HeapConnection, ConnectionManager, is_active, root, find, discard, remove_connection,
  select_among, select_any, select_at, select,
}

found-root :
    (i : HeapConnection) (is : List HeapConnection)
    → root is ≡ some i
    → is_some (find i.conn is) ≡ true
unfolding root find
found-root i [] h = absurd (cc h)
found-root i (j ∷ is) h = elim (Option-cases (root is)) [
  | inl e ↦ ground (arith, h, e)
  | inr (k, e) ↦ ground (arith, h, e, found-root k is)
]

root-none : (is : List HeapConnection) → root is ≡ none → length is ≡ 0
unfolding root
root-none [] h = refl
root-none (i ∷ is) h = elim (Option-cases (root is)) [
  | inl e ↦ absurd (ground (arith, h, e))
  | inr (k, e) ↦ absurd (ground (arith, h, e))
]

length-discard :
    (c : ℕ) (is : List HeapConnection)
    → is_some (find c is) ≡ true
    → suc (length (discard c is)) ≡ length is
unfolding find discard
length-discard c [] h = absurd (cc h)
length-discard c (i ∷ is) h = ground (arith, h, length-discard c is)

length-remove_connection :
    (c : ℕ) (m : ConnectionManager)
    → is_some (find c m.connections) ≡ true
    → suc (length (remove_connection c m).connections) ≡ length m.connections
unfolding remove_connection
length-remove_connection c m h = elim (Option-cases (find c m.connections)) [
  | inl e ↦ absurd (ground (arith, h, e))
  | inr (i, e) ↦ ground (arith, e, length-discard c m.connections)
]

-- With enough turns, the loop gives an active connection, or evicts all that there are.
select_among_lem :
    (live : ℕ → ConnectionState) (key : String) (turns : ℕ) (m : ConnectionManager)
    → suc (length m.connections) ≤ turns
    → (if is_some (select_among live key turns m).1
        then true
        else length (select_among live key turns m).0.connections == 0)
      ≡ true
unfolding select_among
select_among_lem live key zero m enough = absurd (omega (arith, enough))
select_among_lem live key (suc turns) m enough = elim (Option-cases (root m.connections)) [
  | inl e ↦ ground (arith, e, root-none m.connections)
  | inr (i, e) ↦ elim (Bool-cases (is_active (live i.conn))) [
    | inl a ↦ ground (arith, e, a)
    | inr a ↦
        let fewer = length-remove_connection i.conn m (found-root i m.connections e) in
        let rest =
          select_among_lem live key turns (remove_connection i.conn m)
            (omega (arith, fewer, enough)) in
        ground (arith, e, a, rest)
  ]
]

unfoldable pub sound : (ℕ → ConnectionState) → Option ℕ → Bool
sound live none = true
sound live (some c) = is_active (live c)

select_among_active :
    (live : ℕ → ConnectionState) (key : String) (turns : ℕ) (m : ConnectionManager)
    → sound live (select_among live key turns m).1 ≡ true
unfolding select_among sound
select_among_active live key zero m = refl
select_among_active live key (suc turns) m = elim (Option-cases (root m.connections)) [
  | inl e ↦ ground (arith, e)
  | inr (i, e) ↦ elim (Bool-cases (is_active (live i.conn))) [
    | inl a ↦ ground (arith, e, a)
    | inr a ↦
        let rest = select_among_active live key turns (remove_connection i.conn m) in
        ground (arith, e, a, rest)
  ]
]

-- What Select promises: an active connection, or none with every connection evicted.
unfoldable pub IsSelected : (ℕ → ConnectionState) → ConnectionManager × Option ℕ → Type 0
IsSelected live (m, found) =
    (sound live found ≡ true) × ((if is_some found then true else length m.connections == 0) ≡ true)

select_any-IsSelected :
    (live : ℕ → ConnectionState) (key : String) (m : ConnectionManager)
    → IsSelected live (select_any live key m)
unfolding IsSelected
select_any-IsSelected live key m = (
  select_among_active live key (suc (length m.connections)) m,
  select_among_lem live key (suc (length m.connections)) m (omega arith),
)

select_kept :
    (live : ℕ → ConnectionState) (c : ℕ) (m : ConnectionManager)
    → is_active (live c) ≡ true
    → IsSelected live (m, some c)
unfolding IsSelected sound
select_kept live c m a = (a, refl)

select_at-IsSelected :
    (live : ℕ → ConnectionState) (key : String) (m : ConnectionManager) (route : Option ℕ)
    → IsSelected live (select_at live key m route)
unfolding select_at
select_at-IsSelected live key m none = select_any-IsSelected live key m
select_at-IsSelected live key m (some c) =
    elim (is_active (live c))
        as (λ b.
          is_active (live c) ≡ b
          → IsSelected live
              (if b then (m, some c) else select_any live key (remove_connection c m))) [
                | true ↦ λ a. select_kept live c m a
                | false ↦ λ a. select_any-IsSelected live key (remove_connection c m)
              ]
      refl

-- Select gives an active connection, or it gives none and leaves no connection in the pool.
pub select-IsSelected :
    (live : ℕ → ConnectionState) (key : String) (m : ConnectionManager)
    → IsSelected live (select live key m)
unfolding select
select-IsSelected live key m = select_at-IsSelected live key m (lookup key m.routes)

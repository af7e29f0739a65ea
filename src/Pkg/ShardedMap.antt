-- ===== src/Pkg/ShardedMap.antt =====
-- pkg/syncx/sharded_map.go: a map spread over shards by a hash of the key. Each method holds the lock
-- of its one shard throughout, so that it is one step here. A key is its text.
use voce.Prelude.{
  ℕ, ◌%◌, ◌<◌, ◌≡◌, sym, ap, ap₂, ◌||◌, inl, inr, Bool, true, false, ◌==◌, leb, if◌then◌else◌,
  str_eq, eq_iff, Option, none, some, is_some, List, [], arith, length, get_or, set, get_or-set,
  length-set, replicate, String, Option-cases,
}
use native.Mathlib.Nat.{mod-lt}
use voce.Prelude.Maps.{lookup, insert, erase, lookup-insert, lookup-erase}

abbrev pub Shards {ℓ} : Type ℓ → Type ℓ
Shards V = List (List (String × V))

module _ {ℓ} {V : Type ℓ} where
  unfoldable pub new_sharded_map : ℕ → Shards V
  new_sharded_map count = replicate (if leb count 0 then 1 else count) []

  abbrev pub entries : Shards V → ℕ → List (String × V)
  entries m i = get_or m i []

  -- The index of a key's shard.
  unfoldable pub shard : (String → ℕ) → Shards V → String → ℕ
  shard hash m key = if length m == 1 then 0 else hash key % length m

  unfoldable pub store : (String → ℕ) → Shards V → String → V → Shards V
  store hash m key value = let i = shard hash m key in set m i (insert key value (entries m i))

  unfoldable pub load : (String → ℕ) → Shards V → String → Option V
  load hash m key = lookup key (entries m (shard hash m key))

  unfoldable pub delete : (String → ℕ) → Shards V → String → Shards V
  delete hash m key = let i = shard hash m key in set m i (erase key (entries m i))

  -- The part of Update after the call, with the old value and the next one, if it is to be kept.
  abbrev finish_update : (String → ℕ) → Shards V → String → Option V → Option V → Shards V × Bool
  finish_update hash m key old (some next) = (store hash m key next, true)
  finish_update hash m key (some _) none = (delete hash m key, true)
  finish_update hash m key none none = (m, false)

  -- `fn` gives the next value, or nothing to keep.
  unfoldable pub update : (String → ℕ) → Shards V → String → (Option V → Option V) → Shards V × Bool
  unfolding store load delete
  update hash m key fn = let old = load hash m key in finish_update hash m key old (fn old)

-- A new map has shards, and no operation changes their number.
abbrev pub HasShards {ℓ} : {V : Type ℓ} → Shards V → Type 0
HasShards m = 0 < length m

module _ {ℓ} {V : Type ℓ} (hash : String → ℕ) where
  shard_bound : (m : Shards V) (key : String) → HasShards m → shard hash m key < length m
  unfolding shard
  shard_bound m key h = ground (arith, mod-lt (hash key) h)

  shard-set :
      (m : Shards V) (i : ℕ) (e : List (String × V)) (key : String)
      → shard hash (set m i e) key ≡ shard hash m key
  unfolding shard
  shard-set m i e key = ground (arith, length-set m i e)

  -- Shards of the same key are the same.
  shard_same : (m : Shards V) (j k : String) → str_eq k j ≡ true → shard hash m j ≡ shard hash m k
  shard_same m j k e = ap (shard hash m) (sym ((eq_iff k j).0 e))

  -- After a store the key has the value, and every other key, in whatever shard, what it had.
  pub load-store :
      (m : Shards V) (k j : String) (v : V)
      → HasShards m
      → load hash (store hash m k v) j ≡ (if str_eq k j then some v else load hash m j)
  unfolding load store
  load-store m k j v h =
      let i = shard hash m k in
      let e = insert k v (get_or m i []) in
      ground (
        arith,
        shard_bound m k h,
        shard-set m i e j,
        get_or-set m i (shard hash m j) e [],
        lookup-insert k j v (get_or m i []),
        shard_same m j k,
      )

  -- After a delete the key is gone, and every other key has what it had.
  pub load-delete :
      (m : Shards V) (k j : String)
      → HasShards m
      → load hash (delete hash m k) j ≡ (if str_eq k j then none else load hash m j)
  unfolding load delete
  load-delete m k j h =
      let i = shard hash m k in
      let e = erase k (get_or m i []) in
      ground (
        arith,
        shard_bound m k h,
        shard-set m i e j,
        get_or-set m i (shard hash m j) e [],
        lookup-erase k j (get_or m i []),
        shard_same m j k,
      )

  updates :
      (m : Shards V) (k : String) (v : V) (fn : Option V → Option V)
      → fn (load hash m k) ≡ some v
      → update hash m k fn ≡ (store hash m k v, true)
  unfolding update
  updates m k v fn e = ap (finish_update hash m k (load hash m k)) e

  removes :
      (m : Shards V) (k : String) (w : V) (fn : Option V → Option V)
      → fn (load hash m k) ≡ none
      → load hash m k ≡ some w
      → update hash m k fn ≡ (delete hash m k, true)
  unfolding update
  removes m k w fn e old = ap₂ (finish_update hash m k) old e

  misses :
      (m : Shards V) (k : String) (fn : Option V → Option V)
      → fn (load hash m k) ≡ none
      → load hash m k ≡ none
      → update hash m k fn ≡ (m, false)
  unfolding update
  misses m k fn e old = ap₂ (finish_update hash m k) old e

  -- On a map that has shards, an update gives the key what the function makes of its value, leaves every
  -- other key alone, in whatever shard, and reports whether the key is or was there.
  pub load-update :
      (m : Shards V) (k j : String) (fn : Option V → Option V)
      → HasShards m
      → (load hash (update hash m k fn).0 j
          ≡ (if str_eq k j then fn (load hash m k) else load hash m j))
        × ((update hash m k fn).1 ≡ (is_some (fn (load hash m k)) || is_some (load hash m k)))
  load-update m k j fn h = elim (Option-cases (fn (load hash m k))) [
    | inr (v, e) ↦
        let new : update hash m k fn ≡ (store hash m k v, true) = updates m k v fn e in
        ground (arith, new, e, load-store m k j v h)
    | inl e ↦ elim (Option-cases (load hash m k)) [
      | inr (w, old) ↦
          let new : update hash m k fn ≡ (delete hash m k, true) = removes m k w fn e old in
          ground (arith, new, e, old, load-delete m k j h)
      | inl old ↦
          let new : update hash m k fn ≡ (m, false) = misses m k fn e old in
          ground (arith, new, e, old, eq_iff k j)
    ]
  ]

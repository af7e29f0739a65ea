-- ===== src/Schema/Laws.antt =====
-- internal/schema/interface.go: what a property is after a write, a copy and the collection for JSON.
use voce.Prelude.{
  ℕ, ◌≡◌, ◌⊎◌, refl, String, false, if◌then◌else◌, str_eq, some, List, [], ◌∷◌, ◌++◌, arith, eq_iff,
  inl, inr, Bool-cases, Option-cases,
}
use voce.Prelude.Maps.{lookup, lookup-insert}
use voce.Prelude.Results.{Result, ok, err, ◌>>=◌}
use voce.Schema.Properties.{
  Value, SchemaError, Properties, Named, last_of, get, snapshot, set, collect, fields, mutable,
  read_only,
}

last_of-snoc :
    (key j : String) (v : Value) (es : List (String × Value))
    → last_of j (es ++ ((key, v) ∷ [])) ≡ (if str_eq key j then some v else last_of j es)
unfolding last_of
last_of-snoc key j v [] = ground arith
last_of-snoc key j v ((k, w) ∷ es) = ground (arith, last_of-snoc key j v es)

Any-cases {ℓ κ} :
    {E : Type κ} {A : Type ℓ} (r : Result E A) → ((a : A) × (r ≡ ok a)) ⊎ ((e : E) × (r ≡ err e))
Any-cases (ok a) = inl (a, refl)
Any-cases (err e) = inr (e, refl)

-- A property that is written has the snapshot of its value, and every other one what it had; where
-- the value has no snapshot, or the properties are read-only, nothing is written and the error tells why.
pub get-set :
    (marshal : ℕ → Result SchemaError (List ℕ)) (b : Properties) (key j : String) (v : Value)
    → (set marshal b key v >>= λ b'. ok (get b' j)) ≡ (
        if b.readonly
        then err SchemaError.object_read_only
        else snapshot marshal v >>= λ dst. ok (if str_eq key j then some dst else get b j))
unfolding set get
get-set marshal b key j v = elim (Bool-cases b.readonly) [
  | inl e ↦ ground (arith, e)
  | inr e ↦ elim (Any-cases (snapshot marshal v)) [
    | inl (dst, g) ↦ ground (arith, e, g, last_of-snoc key j dst b.entries)
    | inr (x, g) ↦ ground (arith, e, g)
  ]
]

lookup-collect :
    (key : String) (es : List (String × Value)) → lookup key (collect es) ≡ last_of key es
unfolding collect last_of lookup
lookup-collect key [] = refl
lookup-collect key ((k, v) ∷ es) = elim (Option-cases (lookup k (collect es))) [
  | inl e ↦
      ground (arith, e, eq_iff k key, lookup-collect key es, lookup-insert k key v (collect es))
  | inr (w, e) ↦ ground (arith, e, eq_iff k key, lookup-collect key es)
]

-- MarshalJSON gives each key the value that Get gives.
pub lookup-fields : (b : Properties) (key : String) → lookup key (fields b) ≡ get b key
unfolding fields get
lookup-fields b key = lookup-collect key b.entries

-- A writable copy of a value that was made read-only has the same name and properties, takes a write.
pub mutable-read_only :
    (n : Named) (key : String)
    → ((mutable (read_only n)).name ≡ n.name)
      × (get (mutable (read_only n)).properties key ≡ get n.properties key)
      × ((mutable (read_only n)).properties.readonly ≡ false)
unfolding mutable read_only get
mutable-read_only n key = (refl, refl, refl)

-- ===== src/Engine/Property/Fields.antt =====
-- internal/engine/property.go, ValidateProperty: when one declared property satisfies another.
use voce.Prelude.{
  String, true, false, if◌then◌else◌, str_eq, eq_iff, Option, none, some, List, [], ◌∷◌, ◌≡◌, refl,
  ◌⊎◌, inl, inr, ◌↔◌, arith, All, Option-cases, or_else,
}
use voce.Prelude.Maps.{lookup, insert, lookup-insert}
use voce.Prelude.Results.{ok, Result-cases}
use voce.Engine.Property.{
  Field, Property, type_any, is_nil, index_fields, check_field, check_fields, validate_property,
}

-- The last of the fields with this key.
abbrev pub last_field : String → List Field → Option Field
last_field k [] = none
last_field k (f ∷ fs) = elim (last_field k fs) [
  | some g ↦ some g
  | none ↦ if str_eq f.key k then some f else none
]

lookup-index_fields :
    (k : String) (m : List (String × Field)) (fs : List Field)
    → lookup k (index_fields m fs) ≡ or_else (last_field k fs) (lookup k m)
unfolding index_fields
lookup-index_fields k m [] = refl
lookup-index_fields k m (f ∷ fs) =
    ground (arith, lookup-index_fields k (insert f.key f m) fs, lookup-insert f.key k f m)

-- The upstream fields provide what one downstream field asks for: nothing if it is optional, and
-- otherwise a field that the last declaration under its key makes required, of its type unless
-- any type will do.
abbrev pub Provides : List Field → Field → Type 0
Provides ups df =
    (df.required ≡ false)
    ⊎ ((uf : Field) × (last_field df.key ups ≡ some uf)
        × ((df.type ≡ type_any) ⊎ (uf.type ≡ df.type))
        × (uf.required ≡ true))

check_field_iff :
    (ups : List Field) (df : Field)
    → (check_field (index_fields [] ups) df ≡ ok tt) ↔ Provides ups df
unfolding check_field lookup
check_field_iff ups df =
    let found = lookup-index_fields df.key [] ups in
    let any_type = eq_iff df.type "" in
    elim (Option-cases (last_field df.key ups)) [
      | inl e ↦ (ground (arith, found, e), λ given. ground (arith, found, e, given))
      | inr (uf, e) ↦ (
        ground (arith, found, e, any_type, eq_iff uf.type df.type),
        λ given. ground (arith, found, e, given, any_type, eq_iff uf.type df.type),
      )
    ]

check_fields_iff :
    (ups dfs : List Field)
    → (check_fields (index_fields [] ups) dfs ≡ ok tt) ↔ All (Provides ups) dfs
unfolding check_fields
check_fields_iff ups [] = ((λ _. tt), λ _. refl)
check_fields_iff ups (df ∷ rest) =
    let first = check_field_iff ups df in
    let others = check_fields_iff ups rest in
    elim (Result-cases (check_field (index_fields [] ups) df)) [
      | inl passed ↦ rw passed ((λ h. (first.0 passed, others.0 h)), λ given. others.1 given.1)
      | inr (e, failed) ↦
          rw failed ((λ h. absurd (cc h)), λ given. absurd (cc (failed, first.1 given.0)))
    ]

no_fields :
    (up : List (String × Field)) (dfs : List Field)
    → (if is_nil dfs then ok tt else check_fields up dfs) ≡ check_fields up dfs
unfolding check_fields
no_fields up [] = refl
no_fields up (df ∷ dfs) = refl

-- The contract between two properties, without the code's order of tests.
pub record Satisfies (up down : Property) : Type 0 where
  pub same_prefix : up.prefix ≡ down.prefix
  pub named : (down.name ≡ "") ⊎ (up.name ≡ down.name)
  pub provided : All (Provides up.fields) down.fields

-- `validate_property` accepts exactly the pairs where the upstream property has the downstream
-- prefix, its name unless that is a wildcard, and provides every field that is required.
pub validate_property_iff :
    (up down : Property) → (validate_property up down ≡ ok tt) ↔ Satisfies up down
unfolding validate_property
validate_property_iff up down =
    let fields = check_fields_iff up.fields down.fields in
    let skip = no_fields (index_fields [] up.fields) down.fields in
    let prefix = eq_iff up.prefix down.prefix in
    let wild = eq_iff down.name "" in
    let name = eq_iff up.name down.name in
    rw skip (
      (λ h. record {
        same_prefix = ground (arith, prefix, wild, name);
        named = ground (arith, prefix, wild, name);
        provided = fields.0 (ground (arith, prefix, wild, name));
      }),
      λ s. ground (arith, prefix, wild, name, fields.1 s.provided),
    )

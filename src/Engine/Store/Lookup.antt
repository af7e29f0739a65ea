-- ===== src/Engine/Store/Lookup.antt =====
-- internal/engine/store.go: which builder a name stands for.
use voce.Prelude.{
  String, not, ◌&&◌, if◌then◌else◌, str_eq, none, some, List, [], ◌∷◌, ◌≡◌, ◌≢◌, refl, inl, inr,
  Option-cases, arith, eq_iff,
}
use voce.Prelude.Maps.{lookup, lookup-insert, lookup-erase}
use voce.Prelude.Results.{Result, ok, err, or_fail, Result-cases}
use voce.Prelude.Text.{is_blank}
use voce.Engine.Store.{
  StoreError, PluginBuilder, PluginResource, Resources, local_namespace, register_builder,
  resource_builder, validate_ports, add_resource, remove_resource, match_builder, load_builder,
}

-- The builders of this name in all resources.
abbrev pub providers : Resources → String → List PluginBuilder
providers [] name = []
providers ((_, r) ∷ rs) name = elim (lookup name r.builders) [
  | none ↦ providers rs name
  | some b ↦ b ∷ providers rs name
]

abbrev pub the_only : List PluginBuilder → Result StoreError PluginBuilder
the_only [] = err StoreError.not_found
the_only (b ∷ []) = ok b
the_only (b ∷ _ ∷ _) = err StoreError.ambiguous

match_builder-some :
    (b : PluginBuilder) (rs : Resources) (name : String)
    → match_builder (some b) rs name ≡ the_only (b ∷ providers rs name)
unfolding match_builder
match_builder-some b [] name = refl
match_builder-some b ((k, r) ∷ rs) name = ground (arith, match_builder-some b rs name)

match_builder-none :
    (rs : Resources) (name : String) → match_builder none rs name ≡ the_only (providers rs name)
unfolding match_builder
match_builder-none [] name = refl
match_builder-none ((k, r) ∷ rs) name = elim (Option-cases (lookup name r.builders)) [
  | inl e ↦ ground (arith, e, match_builder-none rs name)
  | inr (b, e) ↦ ground (arith, e, match_builder-some b rs name)
]

-- A name that is not empty, without a namespace, stands for a builder exactly when one resource alone provides it: the
-- error tells no provider from several.
pub load_builder_anywhere :
    (s : Resources) (name : String)
    → name ≢ ""
    → load_builder s "" name ≡ the_only (providers s name)
unfolding load_builder
load_builder_anywhere s name named = ground (arith, eq_iff name "", match_builder-none s name)

-- After a registration the resource has the new builder under its name, every other name as before,
-- and no builder was there under that name.
pub register_builder_lem :
    (r r' : PluginResource) (b : PluginBuilder) (name : String)
    → register_builder r (some b) ≡ ok r'
    → (resource_builder r b.name ≡ none)
      × (resource_builder r' name
          ≡ (if str_eq b.name name then some b else resource_builder r name))
unfolding register_builder
register_builder_lem r r' b name h = elim (Result-cases (validate_ports b.ports)) [
  | inr (x, v) ↦ ground (arith, v)
  | inl v ↦ elim (Option-cases (resource_builder r b.name)) [
    | inl e ↦ ground (arith, v, e, lookup-insert b.name name b r.builders)
    | inr (c, e) ↦ ground (arith, v, e)
  ]
]

-- For a name and a namespace that are not empty: once a resource is added, its namespace gives the builders of that resource, and every other
-- namespace what it gave before.
pub add_resource_lem :
    (s s' : Resources) (r : PluginResource) (namespace name : String)
    → add_resource s (some r) ≡ ok s'
    → name ≢ ""
    → namespace ≢ ""
    → load_builder s' namespace name ≡ (
        if str_eq r.namespace namespace
        then or_fail (resource_builder r name) StoreError.not_found
        else load_builder s namespace name)
unfolding add_resource load_builder
add_resource_lem s s' r namespace name h named spaced = elim (Option-cases (lookup r.namespace s)) [
  | inl e ↦ ground (
    arith,
    e,
    eq_iff name "",
    eq_iff namespace "",
    eq_iff r.namespace namespace,
    lookup-insert r.namespace namespace r s,
  )
  | inr (c, e) ↦ ground (arith, e)
]

-- For a name and a namespace that are not empty: removing a namespace makes its builders unknown and leaves the other namespaces alone; the local
-- namespace, and one of white space, stay.
pub load-remove_resource :
    (s : Resources) (gone namespace name : String)
    → name ≢ ""
    → namespace ≢ ""
    → load_builder (remove_resource s gone) namespace name ≡ (
        if str_eq gone namespace && not (is_blank gone) && not (str_eq gone local_namespace)
        then err StoreError.not_found
        else load_builder s namespace name)
unfolding remove_resource load_builder
load-remove_resource s gone namespace name named spaced =
    ground (arith, eq_iff name "", eq_iff namespace "", lookup-erase gone namespace s)

-- ===== src/Engine/Store.antt =====
-- internal/engine/resource.go, store.go and graph.go (ResolvePluginBuilders): the registry of plugin
-- builders by namespace. Go leaves the order in which a range over a map meets its entries open; here
-- it is the order of the association list, and Store/Lookup shows what does not depend on it.
pub mod Lookup
use voce.Prelude.{
  ℕ, String, Bool, true, false, not, ◌||◌, ltb, leb, if◌then◌else◌, str_eq, Option, none, some,
  List, [], ◌∷◌, is_some,
}
use voce.Prelude.Int.{ℤ}
use voce.Prelude.Maps.{lookup, insert, erase}
use voce.Prelude.Results.{Result, ok, err, ◌>>=◌, ◌>>◌, fail_if, or_fail}
use voce.Prelude.Text.{is_blank}
use voce.Engine.Config.{NodeConfig, Builder}
use voce.Engine.Node.{max_port_count}

pub data StoreError : Type 0 where
  invalid duplicate not_found ambiguous invalid_port : StoreError

-- PortMetadata.Validate
unfoldable pub validate_port : ℤ → Result StoreError (Unit {0})
validate_port (ℤ.negsuc _) = err StoreError.invalid_port
validate_port (ℤ.pos n) = do
  fail_if (leb n 0) StoreError.invalid_port
  fail_if (leb max_port_count n) StoreError.invalid_port

unfoldable pub validate_ports : List ℤ → Result StoreError (Unit {0})
validate_ports [] = ok tt
validate_ports (p ∷ ps) = validate_port p >> validate_ports ps

-- What the store reads of a PluginBuilder.
pub record PluginBuilder : Type 0 where
  pub name : String
  pub ports : List ℤ
  pub contract : Builder

pub record PluginResource : Type 0 where
  pub namespace : String
  pub builders : List (String × PluginBuilder)

abbrev pub local_namespace : String
local_namespace = "local"

abbrev pub new_plugin_resource : String → PluginResource
new_plugin_resource namespace = record { namespace = namespace; builders = [] }

-- `none` is a nil builder.
unfoldable pub register_builder :
    PluginResource → Option PluginBuilder → Result StoreError PluginResource
register_builder r builder = do
  b ← or_fail builder StoreError.invalid
  fail_if (str_eq b.name "") StoreError.invalid
  validate_ports b.ports
  fail_if (is_some (lookup b.name r.builders)) StoreError.duplicate
  ok (record r { builders = insert b.name b r.builders })

abbrev pub resource_builder : PluginResource → String → Option PluginBuilder
resource_builder r name = lookup name r.builders

abbrev pub Resources : Type 0
Resources = List (String × PluginResource)

-- NewPluginStore's loop; `none` is a nil resource.
unfoldable pub new_plugin_store : Resources → List (Option PluginResource) → Resources
new_plugin_store s [] = s
new_plugin_store s (none ∷ rs) = new_plugin_store s rs
new_plugin_store s (some r ∷ rs) =
    new_plugin_store (if str_eq r.namespace "" then s else insert r.namespace r s) rs

unfoldable pub add_resource : Resources → Option PluginResource → Result StoreError Resources
add_resource s resource = do
  r ← or_fail resource StoreError.invalid
  fail_if (str_eq r.namespace "") StoreError.invalid
  fail_if (is_some (lookup r.namespace s)) StoreError.duplicate
  ok (insert r.namespace r s)

unfoldable pub remove_resource : Resources → String → Resources
unfolding is_blank
remove_resource s namespace =
    if is_blank namespace || str_eq namespace local_namespace then s else erase namespace s

-- The loop of LoadBuilder over all resources, with the builder matched so far.
unfoldable pub match_builder :
    Option PluginBuilder → Resources → String → Result StoreError PluginBuilder
match_builder matched [] name = or_fail matched StoreError.not_found
match_builder matched ((_, r) ∷ rs) name = elim (resource_builder r name) [
  | none ↦ match_builder matched rs name
  | some b ↦ elim matched [
    | none ↦ match_builder (some b) rs name
    | some _ ↦ err StoreError.ambiguous
  ]
]

abbrev in_resource : Option PluginResource → String → Result StoreError PluginBuilder
in_resource none name = err StoreError.not_found
in_resource (some r) name = or_fail (resource_builder r name) StoreError.not_found

unfoldable pub load_builder : Resources → String → String → Result StoreError PluginBuilder
load_builder s namespace name = do
  fail_if (str_eq name "") StoreError.invalid
  if str_eq namespace "" then match_builder none s name else in_resource (lookup namespace s) name

-- ResolvePluginBuilders, with the map filled so far. A loaded builder is never nil.
unfoldable pub resolve_plugin_builders :
    Resources
    → List (String × Builder)
    → List NodeConfig
    → Result StoreError (List (String × Builder))
resolve_plugin_builders s builders [] = ok builders
resolve_plugin_builders s builders (n ∷ ns) = do
  b ← load_builder s n.namespace n.plugin
  resolve_plugin_builders s (insert n.id b.contract builders) ns

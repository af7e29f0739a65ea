-- ===== src/Tests/Store.antt =====
-- internal/engine/resource.go and store.go at two resources.
use voce.Prelude.{◌≡◌, refl, some, [], ◌∷◌, String}
use voce.Prelude.Int.{ℤ}
use voce.Prelude.Maps.{lookup, insert}
use voce.Prelude.Results.{ok}
use voce.Engine.Store.{
  PluginBuilder, PluginResource, Resources, validate_port, validate_ports, register_builder,
  add_resource,
}
use voce.Tests.Graph.{echo}

abbrev builder : String → PluginBuilder
builder name = record { name = name; ports = ℤ.pos 1 ∷ []; contract = echo }

abbrev resource : String → String → PluginResource
resource namespace name = record { namespace = namespace; builders = (name, builder name) ∷ [] }

abbrev pub two_resources : Resources
two_resources = ("local", resource "local" "echo") ∷ ("remote", resource "remote" "asr") ∷ []

abbrev local_after : PluginResource
local_after = record {
  namespace = "local";
  builders = ("echo", builder "echo") ∷ ("tts", builder "tts") ∷ [];
}

registered : register_builder (resource "local" "echo") (some (builder "tts")) ≡ ok local_after
unfolding register_builder validate_ports validate_port lookup insert
registered = refl

abbrev three_resources : Resources
three_resources =
    ("local", resource "local" "echo")
    ∷ ("remote", resource "remote" "asr")
    ∷ ("lab", resource "lab" "asr")
    ∷ []

added : add_resource two_resources (some (resource "lab" "asr")) ≡ ok three_resources
unfolding add_resource lookup insert
added = refl

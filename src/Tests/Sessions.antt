-- ===== src/Tests/Sessions.antt =====
-- internal/engine/session.go at a manager with a timeout of five minutes.
use voce.Prelude.{ℕ, ◌+◌, ◌≡◌, refl, true, false, none, some, List, [], ◌∷◌, arith}
use voce.Prelude.Maps.{lookup, insert, unique}
use voce.Prelude.Results.{Result, ok, err}
use voce.Engine.Store.{resolve_plugin_builders, load_builder, match_builder}
use voce.Engine.Workflow.{
  new_workflow, init_nodes, wire_nodes, wire_edge, start_workflow, start_nodes, indices,
}
use voce.Engine.Session.{
  Session, SessionManager, Setting, new_session_manager, clone_and_merge_config, prepare_workflow,
  create_session, SessionError, Notice, merge_node, cleanup,
}
use voce.Engine.Session.Observers.{Slots, new_slots, to_call}
use voce.Engine.Session.Expiry.{
  fresh, creates, cleans, IsBalanced, lookup-cleanup, fresh_session_expires, Reach-IsBalanced,
}
use voce.Engine.Graph.{
  build_graph, parse_nodes, check_self_loops, check_edge, validate_edge_contracts, edge_prefix,
}
use voce.Engine.Graph.Sort.{zero_degrees, add_edges, relax, drain, sort_ids, configs_of, sort_nodes}
use voce.Engine.Property.{
  validate_property, validate_properties, check_field, check_fields, index_fields, index_downs,
  matched_down, check_ups,
}
use voce.Tests.Workflow.{pending}
use voce.Tests.Graph.{chain, chain_ids}
use voce.Tests.Store.{two_resources}

abbrev five_minutes : ℕ
five_minutes = 300000

abbrev noon : ℕ
noon = 1764158400000

abbrev session : ℕ → Session
session at = record {
  key = "k";
  workflow = pending;
  last_active = at;
  created_at = noon;
  busy = false;
}

abbrev one_session : SessionManager
one_session = record {
  sessions = ("k", session noon) ∷ [];
  timeout = five_minutes;
  on_created = new_slots;
  on_deleted = new_slots;
  cancelled = false;
  opened = 1;
  closed = 0;
  stopped = [];
}

one_unique : unique one_session.sessions ≡ true
unfolding unique lookup
one_unique = refl

one_there : lookup "k" one_session.sessions ≡ some (session noon)
unfolding lookup
one_there = refl

lookup-cleanup_example : lookup "k" (cleanup (noon + 300000) one_session).0.sessions ≡ none
unfolding lookup
lookup-cleanup_example = lookup-cleanup (noon + 300000) one_session "k" one_unique

-- The setting in which the chain of three nodes is there by its name.
abbrev setting : Setting
setting = record {
  get_with_name = λ name. some chain;
  merge = λ base overlay. none;
  store = two_resources;
  roots = chain_ids;
  rest = chain_ids;
  build_ok = λ n. true;
  starts = λ n. true;
}

abbrev empty_manager : SessionManager
empty_manager = new_session_manager five_minutes

abbrev manager_of : Result SessionError (SessionManager × List Notice) → SessionManager
manager_of (ok (sm, _)) = sm
manager_of (err e) = new_session_manager five_minutes

abbrev one_made : SessionManager
one_made = manager_of (create_session setting noon empty_manager "k" "chain" [])

made : create_session setting noon empty_manager "k" "chain" [] ≡ ok (one_made, [])
unfolding create_session prepare_workflow clone_and_merge_config merge_node resolve_plugin_builders
    load_builder match_builder build_graph parse_nodes check_self_loops check_edge
    validate_edge_contracts edge_prefix validate_property validate_properties check_field
    check_fields index_fields index_downs matched_down check_ups zero_degrees add_edges relax drain
    sort_ids configs_of sort_nodes new_workflow init_nodes wire_nodes wire_edge start_workflow
    start_nodes new_session_manager to_call lookup insert indices
made = refl

empty_unique : unique empty_manager.sessions ≡ true
unfolding unique new_session_manager
empty_unique = refl

-- Not even at the moment of its creation does the session survive a cleanup.
fresh_session_expires_example : lookup "k" (cleanup noon one_made).0.sessions ≡ none
unfolding new_session_manager
fresh_session_expires_example =
    fresh_session_expires setting noon noon empty_manager one_made "k" "chain" [] [] empty_unique
      made (omega arith)

Reach-IsBalanced_example : IsBalanced (0 + 0) (cleanup noon one_made).0
unfolding lookup new_session_manager
Reach-IsBalanced_example = Reach-IsBalanced (0 + 0) (cleanup noon one_made).0 (
    cleans (0 + 0) noon one_made
      (creates 0 setting noon empty_manager one_made "k" "chain" [] [] (fresh five_minutes) made))

-- One observer, in the second slot.
abbrev one_slot : Slots
one_slot = record { observers = none ∷ some 7 ∷ []; count = 1 }

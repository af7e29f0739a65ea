-- ===== src/Lib.antt =====
-- voce runs conversations with AI agents as workflows: graphs of plugins that exchange signals,
-- payloads, audio and video. A gateway holds the clients' sockets and forwards their packets to the
-- machines whose engines run the workflows.
--
-- The parts, and the files that model them:
--   * Protocol: internal/protocol/packet.go and types.go. Packets with reused payload buffers
--     (Packet.Marshal is `marshal`, Unmarshal is `unmarshal`), in Protocol/Packet.
--   * Engine.Property and Engine.Graph: internal/engine/property.go and graph.go. The contracts of
--     plugins and BuildGraph (`build_graph`), with the topological order in Graph/Sort.
--   * Engine.Node and Engine.Workflow: internal/engine/node.go and workflow.go. Route tables and
--     sends, and the runtime of a workflow. A method returns the new state, the calls that it makes
--     on its nodes, in order, and its error; what plugins answer is an argument.
--   * Engine.Loop: internal/engine/node_loop.go. The queues of a node and the turns of its loop
--     (readLoop is `turn`); what the select takes is an argument.
--   * Engine.Workers: internal/engine/scheduler.go and node_scheduler.go. The two queues of a worker that
--     nodes share.
--   * Engine.Track: internal/engine/multi.go with pkg/syncx/chan.go. One queue of a plugin with
--     several tracks; its goroutines' steps are the events of Track/Push.
--   * Engine.Store: internal/engine/resource.go and store.go. The registry of plugin builders.
--   * Engine.Session: internal/engine/session.go. The sessions, their observers and their expiry.
--     CreateSession composes the store, BuildGraph, NewWorkflow and Start as modelled.
--   * Pkg: pkg/syncx/sharded_map.go in Pkg/ShardedMap, pkg/buf and pkg/retry in Pkg/Buffers.
--   * Gateway: internal/gateway/connection.go and session.go. The framing of messages by session
--     key, the states of connections and sessions, and what is forwarded either way.
--   * Gateway.Pool: internal/gateway/pool.go. The connections of a machine and the sessions bound to
--     them: the data in Pool, a function for each locked section in Pool/Calls (Bind is `bind`,
--     startDial `dialled` and `dial_failed`, Shutdown `begin_shutdown` and `clear_pool`), and what a
--     pool can come to in Pool/Steps. container/heap, which the code calls after each change of a key,
--     is taken by its documented contract: of the items, `root` gives the least.
--   * Gateway.Machines: internal/gateway/machine.go and manager.go. The machines, the choice of one for
--     a session, and the cleanup of those that are silent.
--   * Machine: internal/machine/pool.go. On a machine, the connections from the gateway, the session
--     routes over them (Machine/Routes: which one a session gets), and the packets that come over them;
--     Machine/Connection models connection.go.
--   * Schema: internal/schema. Properties, signals and payloads in Schema/Properties, counted audio and
--     video in Schema/Audio and Schema/Video; the JSON package is a parameter.
--   * Plugins: internal/plugins. The Markdown filter, captions, the interrupter, the sink, and the bases of
--     language models (base/llm), of speech output (base/tts) and of speech recognition (base/asr).
--   * Prelude: shared lists, maps, slices, results and counting. Tests: the theorems at work.
--
-- Conventions: numbers are natural; fields of type uint32 and int32 keep their wrap-around
-- (`% 2 ^ 32`). A map is an association list in which a key stands once; where Go leaves the order of a range open, the order
-- is an argument or the list's own. An object is named by a number, and a text key stands for a
-- session key. A mutex makes a method one step; goroutines are orders of steps. Time is an argument.
-- Logging and metrics are left out but for the count of active sessions.
--
-- Fuel: the queue of the topological sort takes one round for each node, since a node joins it at most
-- once; the loop that drops the oldest item of a track takes two, since one item makes the room;
-- the loop that cuts speech into frames takes as many as there are bytes, since each takes one.
--
-- Not modelled: the websocket, JSON, Unicode, UUID and gRPC libraries; the plugins that call services; HTTP handlers, files and configuration; the clients and the
-- generated code.
mod Prelude
pub mod Protocol
pub mod Pkg
pub mod Engine
pub mod Gateway
pub mod Schema
pub mod Machine
pub mod Plugins
mod Tests

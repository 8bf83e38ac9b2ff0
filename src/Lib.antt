-- ===== src/Lib.antt =====
-- Model and proofs for sbs-server, a broadcast server that composes video sources into scenes.
--
-- Source workers hand frames to the server, which keeps the newest of each source in a frame slot;
-- the compositor takes them from there. The scene graph says which sources are shown where, and refers
-- to a slot through its source. Clients send requests in JSON, which are let through to the handlers
-- of the components if the client has logged in, and get events over their subscriptions.
--
-- Spsc: src/common/spsc_queue.c, a ring of pointers between two threads. `Spsc` has the functions
--   of the file; `Spsc.Threads` has `sbs_spsc_queue_push` and `sbs_spsc_queue_pop` one memory access
--   at a time, so that a run of two threads is a list of turns. The indices are atomics with acquire
--   and release order; a run is taken to be an interleaving of the accesses.
-- FrameSlot: src/server/engine/frame_slot.c, a mutex around a ring of four frames.
--   `FrameSlot.Spec` is the queue that it promises; the functions of the file keep their names
--   without the prefix `sbs_frame_slot_`. `FrameSlot.Release` is `sbs_frame_fds_release`.
-- SceneGraph: src/server/engine/scene_graph.c, the sources, scenes, items, filters, outputs and
--   transitions that a client edits, each function under its name without `sbs_scene_graph_`:
--   `Sources`, `Scenes`, `Filters`, `Transitions`, over the data of `Types`. A call takes the graph
--   and gives the return code and the graph afterwards; the pointer to the entry that a call gives
--   back is that entry of the graph. `Calls` is the interface as data. `Externals` is what the file
--   takes from elsewhere: arithmetic on doubles, which are 64-bit patterns, and `g_ptr_array_sort`,
--   which rearranges and sorts;
--   `Insertion` has such a sort. The monotonic clock is an argument. The parameters of a call share
--   no memory with what it changes. `sbs_scene_graph_steal_source`, which leaves the items of a
--   source in place, is a definition but no call: the server removes sources by
--   `sbs_scene_graph_remove_source`. The compositor's view of the graph and the serialisation to
--   JSON are not modelled.
-- PubSub: src/server/api/pubsub.c, the delivery of events to the outboxes of clients. The JSON text of
--   an event is made by libcjson and is a parameter.
-- Ipc: src/common/ipc_proto.c, the header of the messages between server and workers;
--   `Ipc.Transport` is src/common/ipc_transport.c, frames with descriptors over a socket.
-- Effects: what the code asks of the kernel, of GLib's main loop and of the frame slot, as a list that a
--   function gives back beside its result; `Effects.Ledger` counts in such lists.
-- SourceSup: src/server/supervisor/source_supervisor.c, the worker process of each source. `Worker`
--   and `Callbacks` have the functions on one entry under their names (`launch` is
--   `source_entry_launch`), `System` an entry with what the main loop knows of it and the callbacks as
--   events, `Supervisor`, `Metrics` and `Shutdown` the functions on the table of sources,
--   `Operations` histories of all of these, `Messages` what each message does to the source in the
--   scene graph and to the frame slot. What system calls and GLib give (descriptors, processes,
--   identifiers, messages, times, random numbers) is an argument: a `Given` or a `Ready`. The main loop
--   fires an event source that is there, and none twice. `Messages.Reading` has the loop over the
--   messages with its calls, those of `recvmsg` and of the frame slot included: a descriptor that comes
--   with a message is opened, and one of a published frame goes to the slot. A restart timer that is due
--   when its entry is freed, which the code would still fire, is gone with the entry in the model; where
--   a theorem depends on that, it has a hypothesis that none is due.
--   The child's side of the fork, the text of the worker's configuration, directories, file modes and
--   socket options are not modelled.
-- SourceConfig: src/server/config/source_start_config.c, what a worker is started with. The functions
--   that read numbers from text are arguments.
-- Uuid: src/common/uuid.c; the random bytes are an argument.
-- Json: the values of src/common/cjson_stub.c, which stands in for libcjson; `Json.Text` prints them
--   and `Json.Parse` reads them. A double is its 64-bit pattern; `snprintf` of a double and `strtod` are
--   parameters. The calls of the reader are counted down from twice the length of the text and two, which
--   is enough: a value takes no more than two for each character. A text has no NUL.
-- Auth: src/server/api/auth_manager.c, the login, the API keys and the sessions: `Secrets`, `Config`,
--   `Login` and `Keys` have the functions under their names without `sbs_auth_manager_`, `History`
--   their histories. The digest, base64 and JSON text are the record `Library`; the bytes of
--   /dev/urandom, the time, and whether auth.json can be written are arguments; other programs may
--   change the file between two operations. To hash with a salt that is NULL is the code `segfault`.
-- Rpc: src/server/api/jsonrpc.c and handlers/auth.c, the requests of clients: `Dispatch` is
--   `sbs_api_server_dispatch_json`, `Handlers` the methods `auth.*`, `Methods` the registration. The
--   handlers of other components are functions on the rest of the server. A client is its flag
--   `authenticated`, or NULL for the local socket. The server has an auth manager, as `main` gives it.
-- Table: the hash tables of GLib as association lists. A key is the string it points to.
-- Prelude: tests, lists, C strings, machine words.
--
-- Pointers are addresses, and 0 is NULL. Unsigned words are natural numbers, and each operation that
-- can wrap says so. The checks of a NULL queue, slot, graph, client or parameter block, which return at
-- once, are left out; an id that is NULL is not.
-- But for the reader of JSON, no definition takes fuel: the loops run over lists or count their rounds.
--
-- Not modelled: the output supervisor, which repeats most of the source supervisor; the configuration
-- files, the websocket server, the other handlers and instances, which join what is modelled to files,
-- sockets and processes; the compositor, encoders, previews, audio and the workers, which are calls of
-- Vulkan, GStreamer and device drivers for the most part; and the start of the server.
pub mod Prelude
pub mod FrameSlot
pub mod Spsc
pub mod Json
pub mod Auth
pub mod Rpc
pub mod Table
pub mod SceneGraph
pub mod Uuid
pub mod PubSub
pub mod Effects
pub mod Ipc
pub mod SourceSup
pub mod SourceConfig
